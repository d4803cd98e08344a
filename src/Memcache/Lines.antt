-- ===== src/Memcache/Lines.antt =====
-- The parts of a request's line, under the parser of src/protocol/memcache/proto_memcache.c.
use wheatserver.Common.{
  ℕ, ◌+◌, ◌-◌, ◌^◌, ◌≤◌, ◌≡◌, refl, ap, sym, ◌∙◌, Bool, true, false, [], ◌∷◌, ◌++◌, none,
  if◌then◌else◌, length, drop, arith,
}
use wheatserver.Slice.{Bytes}
use wheatserver.Number.{is_digit}
use wheatserver.Number.Decimal.{decimal}
use wheatserver.Redis.Request.{cr}
use wheatserver.Memcache.Data.{
  Command, Stage, MemcacheProcData, init_memcache_data, command_of, memcache_cas,
}
use wheatserver.Memcache.Request.{
  Step, Parsed, sp, ends_token, read_type, end_type, after_type, typed, read_vlen, read_cas,
  read_num, skip_spaces,
}
use wheatserver.Memcache.Loop.{req_step}
use wheatserver.Memcache.Words.{AllLower, IsKey, letters, inside-sp}
use wheatserver.Memcache.Numbers.{cas-run}
use wheatserver.Memcache.Encode.{
  name, name-AllLower, command_of-name, keyed, cas_part, noreply_part,
}
use wheatserver.Memcache.Gives.{Gives, back, move, drop-next, drop-past}

not_digit : (c : ℕ) → ends_token c ≡ true → is_digit c ≡ false
not_digit c h = ground arith

-- The data behind the command.
abbrev pub begun : Command → MemcacheProcData
begun c = record init_memcache_data { kind = c }

after_type-keyed :
    (c : Command) (r : MemcacheProcData) (pos : ℕ)
    → keyed c ≡ true
    → after_type c r sp pos ≡ Step.next Stage.spaces_before_key r (pos + 1)
unfolding after_type
after_type-keyed Command.quit r pos k = cc
after_type-keyed Command.unknown r pos k = cc
after_type-keyed c r pos k = refl

read_type-known :
    (c : Command) (s word rest : Bytes)
    → name c ≡ word
    → s ≡ word ++ (sp ∷ rest)
    → keyed c ≡ true
    → read_type init_memcache_data s (0 + length word) sp
      ≡ Step.next Stage.spaces_before_key (begun c) (0 + length word + 1)
unfolding read_type end_type
read_type-known c s word rest n e k =
    let at_start : 0 + length word - 0 ≡ length (name c) = omega (arith, ap length n) in
    ap (λ c'. typed c' init_memcache_data (0 + length word) sp)
      (ap (λ m. command_of (0 + length word - 0) m) (e ∙ ap (λ w. w ++ (sp ∷ rest)) (sym n))
        ∙ ap (λ m. command_of m (name c ++ (sp ∷ rest))) at_start
        ∙ command_of-name c rest)
    ∙ after_type-keyed c (begun c) (0 + length word) k

name-one : (c : Command) → 1 ≤ length (name c)
unfolding name
name-one Command.get = omega arith
name-one c = omega arith

module _ {s : Bytes} {o : Parsed} where
  word-run :
      (c : Command) (word rest : Bytes)
      → name c ≡ word
      → s ≡ word ++ (sp ∷ rest)
      → AllLower word
      → keyed c ≡ true
      → Gives s Stage.spaces_before_key (begun c) (0 + length word + 1) o
      → Gives s Stage.start init_memcache_data 0 o
  unfolding req_step
  word-run c [] rest n e a k g = absurd (omega (arith, name-one c, ap length n))
  word-run c (l ∷ ls) rest n e (low, a) k g = back e (rw low refl) (
      letters init_memcache_data ls (0 + 1) (sp ∷ rest) (drop-next 0 s l (ls ++ (sp ∷ rest)) e) a (
        move (0 + length (l ∷ ls)) (0 + 1 + length ls) (omega arith) (
          back (drop-past (l ∷ ls) 0 s (sp ∷ rest) e) (read_type-known c s (l ∷ ls) rest n e k) g)))

  -- The command and the space behind it.
  pub command-run :
      (c : Command) (rest : Bytes)
      → s ≡ name c ++ (sp ∷ rest)
      → keyed c ≡ true
      → Gives s Stage.spaces_before_key (begun c) (length (name c) + 1) o
      → Gives s Stage.start init_memcache_data 0 o
  command-run c rest e k g =
      word-run c (name c) rest refl e (name-AllLower c) k
        (move (length (name c) + 1) (0 + length (name c) + 1) (omega arith) g)

  -- Where a key begins.
  pub key-begins :
      (r : MemcacheProcData) (k : Bytes) (pos : ℕ) (rest : Bytes)
      → drop pos s ≡ k ++ rest
      → IsKey k
      → Gives s Stage.key (record r { token_pos = none }) pos o
      → Gives s Stage.spaces_before_key r pos o
  unfolding req_step
  key-begins r [] pos rest d (a, one, few) g = absurd (omega (arith, one))
  key-begins r (c ∷ cs) pos rest d ((in_key, a), one, few) g =
      back d (rw (inside-sp c in_key) refl) g

-- Behind a number, a space or the line's end.
pub tail-first :
    (b : Bool) (rest : Bytes)
    → (ch : ℕ) × (more : Bytes) × (noreply_part b ++ (cr ∷ rest) ≡ ch ∷ more)
      × (ends_token ch ≡ true)
tail-first true rest = (sp, _, refl, refl)
tail-first false rest = (cr, rest, refl, refl)

vlen_end :
    (r : MemcacheProcData) (pos ch : ℕ)
    → ends_token ch ≡ true
    → memcache_cas r.kind ≡ false
    → read_vlen r pos ch ≡ Step.next Stage.runto_crlf r pos
unfolding read_vlen
vlen_end r pos ch e k = rw (not_digit ch e, k, e) refl

vlen_cas :
    (r : MemcacheProcData) (pos : ℕ)
    → memcache_cas r.kind ≡ true
    → read_vlen r pos sp ≡ Step.next Stage.spaces_before_cas r pos
unfolding read_vlen
vlen_cas r pos k = rw k refl

cas_end :
    (r : MemcacheProcData) (pos ch : ℕ)
    → ends_token ch ≡ true
    → read_cas r pos ch ≡ Step.next Stage.runto_crlf r pos
unfolding read_cas
cas_end r pos ch e = rw (not_digit ch e, e) refl

pub num_end :
    (r : MemcacheProcData) (pos ch : ℕ)
    → ends_token ch ≡ true
    → read_num r pos ch ≡ Step.next Stage.runto_crlf r pos
unfolding read_num
num_end r pos ch e = rw (not_digit ch e, e) refl

abbrev pub with_cas : Bool → ℕ → MemcacheProcData → MemcacheProcData
with_cas b u r = record r { cas = if b then u else r.cas }

module _ {s : Bytes} {o : Parsed} where
  -- The end of the value's length, with the number that `cas` takes.
  pub cas-part-run :
      (r : MemcacheProcData) (b : Bool) (u : ℕ) (quiet_line : Bool) (pos : ℕ) (rest : Bytes)
      → memcache_cas r.kind ≡ b
      → u ≤ 2 ^ 64 - 1
      → drop pos s ≡ cas_part b u ++ (noreply_part quiet_line ++ (cr ∷ rest))
      → Gives s Stage.runto_crlf (with_cas b u r) (pos + length (cas_part b u)) o
      → Gives s Stage.vlen r pos o
  unfolding req_step skip_spaces
  cas-part-run r true u quiet_line pos rest k h d g =
      let t = tail-first quiet_line rest in
      let numbered = drop-next pos s sp (decimal u ++ (noreply_part quiet_line ++ (cr ∷ rest))) d in
      let behind = drop-past (decimal u) (pos + 1) s _ numbered in
      back d (vlen_cas r pos k) (
        back d refl (
          cas-run r u (pos + 1) _ numbered h (
            back (behind ∙ t.2)
              (cas_end (record r { cas = u }) (pos + 1 + length (decimal u)) t.0 t.3)
              (move (pos + length (cas_part true u)) (pos + 1 + length (decimal u)) (omega arith)
                g))))
  cas-part-run r false u quiet_line pos rest k h d g =
      let t = tail-first quiet_line rest in
      back (d ∙ t.2) (vlen_end r pos t.0 t.3 k) (move (pos + 0) pos (omega arith) g)
