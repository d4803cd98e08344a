-- ===== src/Memcache/RoundTrip.antt =====
-- Whole requests that store a value, under the parser of
-- src/protocol/memcache/proto_memcache.c.
use mathlib.Core.Path.{subst}
use wheatserver.Common.{
  ℕ, ◌+◌, ◌-◌, ◌^◌, ◌≤◌, ◌≡◌, refl, ap, sym, ◌∙◌, true, false, [], ◌∷◌, ◌++◌, some, none,
  if◌then◌else◌, length, drop, arith,
}
use wheatserver.Slice.{Bytes, Slice, view}
use wheatserver.Number.Decimal.{decimal}
use wheatserver.Redis.Request.{cr, lf}
use wheatserver.Memcache.Data.{
  Command, Stage, MemcacheProcData, init_memcache_data, memcache_storage, memcache_cas,
}
use wheatserver.Memcache.Request.{
  Parsed, sp, time_max, noreply_text, after_key, read_flags, read_expiry, takes_noreply,
}
use wheatserver.Memcache.Loop.{req_step, parse_req}
use wheatserver.Memcache.Words.{IsKey, key-sp, with_key}
use wheatserver.Memcache.Numbers.{flag-run, expire-run, vlen-run}
use wheatserver.Memcache.Encode.{
  Storage, name, keyed, cas_part, noreply_part, storage_line, storage_text, storage_spread,
  length-storage_line, length-storage_text,
}
use wheatserver.Memcache.Values.{quiet, line-run, with_value, value-run}
use wheatserver.Memcache.Lines.{begun, command-run, key-begins, with_cas, cas-part-run}
use wheatserver.Memcache.Gives.{Gives, back, drop-next, drop-past, drop-first, parse_req-Gives}

-- A request that the fields of the parser's data can hold.
pub record IsStorage (q : Storage) : Type 0 where
  pub stores : memcache_storage q.command ≡ true
  pub key : IsKey q.key
  pub flags : q.flags ≤ 2 ^ 16 - 1
  pub exptime : q.exptime ≤ time_max
  pub cas : q.cas ≤ 2 ^ 64 - 1
  pub value : length q.value ≤ 2 ^ 32 - 1

-- What the parser's data says of a request that stores a value.
abbrev pub stored : Storage → MemcacheProcData
stored q = record init_memcache_data {
  token_pos = if q.noreply then some (length (storage_line q) + 1) else none;
  kind = q.command;
  keys = q.key ∷ [];
  flag = q.flags;
  expire = q.exptime;
  vlen = length q.value;
  cas = if memcache_cas q.command then q.cas else 0;
  noreply_banner = if q.noreply then noreply_text else [];
  noreply = if q.noreply then true else false;
  vals = with_value [] q.value;
  stage = Stage.done;
}

stores-noreply : (c : Command) → memcache_storage c ≡ true → takes_noreply c ≡ true
stores-noreply c h = rw h refl

abbrev outcome : Storage → Parsed
outcome q = Parsed.parsed (stored q) (length (storage_text q))

abbrev keyed_data : Storage → MemcacheProcData
keyed_data q = with_key (begun q.command) q.key

abbrev filled : Storage → MemcacheProcData
filled q = record (keyed_data q) { flag = q.flags; expire = q.exptime }

abbrev numbered : Storage → MemcacheProcData
numbered q = with_cas (memcache_cas q.command) q.cas (record (filled q) { vlen = length q.value })

abbrev value_text : Storage → Bytes → Bytes
value_text q rest = q.value ++ (cr ∷ lf ∷ rest)

abbrev line_text : Storage → Bytes → Bytes
line_text q rest =
    cas_part (memcache_cas q.command) q.cas
    ++ (noreply_part q.noreply ++ (cr ∷ lf ∷ value_text q rest))

module _ {s : Bytes} (q : Storage) (w : IsStorage q) (rest : Bytes) where
  -- The value, behind the line.
  value_part :
      (pos : ℕ)
      → drop (pos + length (noreply_part q.noreply) + 1) s ≡ lf ∷ value_text q rest
      → pos ≡ length (storage_line q)
      → Gives s Stage.runto_val
          (quiet q.noreply pos (numbered q))
          (pos + length (noreply_part q.noreply) + 1)
          (outcome q)
  value_part pos d e =
      let place : pos + length (noreply_part q.noreply) + 1 + length q.value + 3
          ≡ length (storage_text q) =
        omega (arith, e, length-storage_text q) in
      value-run (quiet q.noreply pos (numbered q)) q.value
        (pos + length (noreply_part q.noreply) + 1) rest d refl
        (ap
            (λ n.
              Parsed.parsed
                (record (stored q) { token_pos = if q.noreply then some (n + 1) else none })
                (pos + length (noreply_part q.noreply) + 1 + length q.value + 3))
            e
          ∙ ap (λ n. Parsed.parsed (stored q) n) place)

  -- What follows the length of the value.
  line_part :
      (pos : ℕ)
      → drop pos s ≡ line_text q rest
      → pos + length (cas_part (memcache_cas q.command) q.cas) ≡ length (storage_line q)
      → Gives s Stage.vlen (record (filled q) { vlen = length q.value }) pos (outcome q)
  line_part pos d e =
      let end = pos + length (cas_part (memcache_cas q.command) q.cas) in
      let d1 = drop-past (cas_part (memcache_cas q.command) q.cas) pos s _ d in
      let d2 = drop-past (noreply_part q.noreply) end s _ d1 in
      cas-part-run (record (filled q) { vlen = length q.value }) (memcache_cas q.command) q.cas
        q.noreply pos (lf ∷ value_text q rest) refl w.cas d
        (line-run (numbered q) q.noreply end (lf ∷ value_text q rest) d1
          (stores-noreply q.command w.stores)
          (subst
            (λ state.
              Gives s state (quiet q.noreply end (numbered q))
                (end + length (noreply_part q.noreply) + 1) (outcome q))
            (ap (λ b. if b then Stage.runto_val else Stage.almost_done) (sym w.stores))
            (value_part end (drop-next (end + length (noreply_part q.noreply)) s cr _ d2) e)))

  -- The numbers behind the key.
  numbers_part :
      (pos : ℕ)
      → drop pos s
        ≡ decimal q.flags
          ++ (sp ∷ (decimal q.exptime ++ (sp ∷ (decimal (length q.value) ++ line_text q rest))))
      → pos
          + length (decimal q.flags)
          + 1
          + length (decimal q.exptime)
          + 1
          + length (decimal (length q.value))
          + length (cas_part (memcache_cas q.command) q.cas)
        ≡ length (storage_line q)
      → Gives s Stage.spaces_before_flags (keyed_data q) pos (outcome q)
  unfolding req_step read_flags read_expiry
  numbers_part pos d e =
      let p1 = pos + length (decimal q.flags) in
      let d1 = drop-past (decimal q.flags) pos s _ d in
      let d2 = drop-next p1 s sp _ d1 in
      let p2 = p1 + 1 + length (decimal q.exptime) in
      let d3 = drop-past (decimal q.exptime) (p1 + 1) s _ d2 in
      let d4 = drop-next p2 s sp _ d3 in
      flag-run (keyed_data q) q.flags pos _ d w.flags (
        back d1 refl (
          expire-run (record (keyed_data q) { flag = q.flags }) q.exptime (p1 + 1) _ d2 w.exptime
            (back d3 refl (
              vlen-run (filled q) (length q.value) (p2 + 1) _ d4 w.value (
                line_part (p2 + 1 + length (decimal (length q.value)))
                  (drop-past (decimal (length q.value)) (p2 + 1) s _ d4) e)))))

stored-stage :
    (q : Storage)
    → memcache_storage q.command ≡ true
    → after_key q.command sp ≡ Stage.spaces_before_flags
unfolding after_key
stored-stage q h = rw h refl

stores-keyed : (c : Command) → memcache_storage c ≡ true → keyed c ≡ true
stores-keyed c h = rw h refl

-- A whole request that stores a value, from the parser's first data on: its command, key, numbers
-- and value are read, and the parser stops behind it.
pub parse_req-storage :
    (q : Storage) (s : Slice) (rest : Bytes)
    → IsStorage q
    → view s ≡ storage_text q ++ rest
    → parse_req init_memcache_data s ≡ Parsed.parsed (stored q) (length (storage_text q))
parse_req-storage q s rest w e =
    let spread = e ∙ storage_spread q rest in
    let p1 = length (name q.command) in
    let d1 = drop-next p1 (view s) sp _ (drop-first (name q.command) (view s) _ spread) in
    let d2 =
      drop-next (p1 + 1 + length q.key) (view s) sp _ (drop-past q.key (p1 + 1) (view s) _ d1) in
    parse_req-Gives init_memcache_data s (
      command-run q.command _ spread (stores-keyed q.command w.stores) (
        key-begins (begun q.command) q.key (p1 + 1) _ d1 w.key (
          key-sp (begun q.command) refl q.key (p1 + 1) _ d1 w.key (
            subst
              (λ state. Gives (view s) state (keyed_data q) (p1 + 1 + length q.key + 1) (outcome q))
              (sym (stored-stage q w.stores))
              (numbers_part q w rest (p1 + 1 + length q.key + 1) d2
                (sym (length-storage_line q)))))))
