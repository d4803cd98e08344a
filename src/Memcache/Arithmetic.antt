-- ===== src/Memcache/Arithmetic.antt =====
-- Whole requests that count, under the parser of
-- src/protocol/memcache/proto_memcache.c.
use mathlib.Core.Path.{subst}
use wheatserver.Common.{
  ℕ, ◌+◌, ◌-◌, ◌^◌, ◌≤◌, ◌≡◌, refl, ap, sym, ◌∙◌, Bool, true, false, [], ◌∷◌, ◌++◌, some, none,
  if◌then◌else◌, length, drop, arith, append_assoc, length-append,
}
use wheatserver.Slice.{Bytes, Slice, view}
use wheatserver.Number.Decimal.{decimal}
use wheatserver.Redis.Request.{cr, lf}
use wheatserver.Memcache.Data.{
  Command, Stage, MemcacheProcData, init_memcache_data, memcache_arithmetic, memcache_storage,
}
use wheatserver.Memcache.Request.{Parsed, sp, noreply_text, after_key, takes_noreply}
use wheatserver.Memcache.Loop.{req_step, parse_req}
use wheatserver.Memcache.Words.{IsKey, key-sp, with_key}
use wheatserver.Memcache.Numbers.{num-run}
use wheatserver.Memcache.Encode.{name, keyed, noreply_part}
use wheatserver.Memcache.Values.{quiet, line-run}
use wheatserver.Memcache.Lines.{begun, command-run, key-begins, tail-first, num_end}
use wheatserver.Memcache.Gives.{
  Gives, back, stop, drop-next, drop-past, drop-first, parse_req-Gives,
}

-- `incr key 5`
abbrev pub arithmetic_line : Command → Bytes → ℕ → Bytes
arithmetic_line c k n = name c ++ (sp ∷ (k ++ (sp ∷ decimal n)))

-- `incr key 5 noreply\r\n`
abbrev pub arithmetic_text : Command → Bytes → ℕ → Bool → Bytes
arithmetic_text c k n b = arithmetic_line c k n ++ (noreply_part b ++ (cr ∷ lf ∷ []))

arithmetic_lem :
    (c : Command)
    → memcache_arithmetic c ≡ true
    → (keyed c ≡ true)
      × (memcache_storage c ≡ false)
      × (after_key c sp ≡ Stage.spaces_before_num)
      × (takes_noreply c ≡ true)
unfolding after_key
arithmetic_lem Command.incr h = (refl, refl, refl, refl)
arithmetic_lem Command.decr h = (refl, refl, refl, refl)
arithmetic_lem c h = cc

abbrev pub counted : Command → Bytes → ℕ → Bool → MemcacheProcData
counted c k n b = record init_memcache_data {
  token_pos = if b then some (length (arithmetic_line c k n) + 1) else none;
  kind = c;
  keys = k ∷ [];
  num = n;
  noreply_banner = if b then noreply_text else [];
  noreply = if b then true else false;
  stage = Stage.done;
}

abbrev arithmetic_outcome : Command → Bytes → ℕ → Bool → Parsed
arithmetic_outcome c k n b = Parsed.parsed (counted c k n b) (length (arithmetic_text c k n b))

length-arithmetic_line :
    (c : Command) (k : Bytes) (n : ℕ)
    → length (name c) + 1 + length k + 1 + length (decimal n) ≡ length (arithmetic_line c k n)
length-arithmetic_line c k n =
    omega (
      arith,
      length-append (name c) (sp ∷ (k ++ (sp ∷ decimal n))),
      length-append k (sp ∷ decimal n),
    )

-- A line that no value follows ends the request.
pub line-stop :
    {s : Bytes} {o : Parsed} (r : MemcacheProcData) (b : Bool) (pos : ℕ) (rest : Bytes)
    → memcache_storage r.kind ≡ false
    → takes_noreply r.kind ≡ true
    → drop pos s ≡ noreply_part b ++ (cr ∷ lf ∷ rest)
    → Parsed.parsed
        (record (quiet b pos r) { stage = Stage.done })
        (pos + length (noreply_part b) + 1 + 1)
      ≡ o
    → Gives s Stage.runto_crlf r pos o
unfolding req_step
line-stop {s} {o} r b pos rest no_value takes d q =
    let behind =
      drop-next (pos + length (noreply_part b)) s cr (lf ∷ rest)
        (drop-past (noreply_part b) pos s (cr ∷ lf ∷ rest) d) in
    line-run r b pos (lf ∷ rest) d takes (
      subst (λ state. Gives s state (quiet b pos r) (pos + length (noreply_part b) + 1) o)
        (ap (λ v. if v then Stage.runto_val else Stage.almost_done) (sym no_value))
        (stop behind refl q))

-- A whole request that counts up or down, from the parser's first data on: its command, its key and
-- its number are read, and the parser stops behind it.
pub parse_req-arithmetic :
    (c : Command) (k : Bytes) (n : ℕ) (b : Bool) (s : Slice) (rest : Bytes)
    → memcache_arithmetic c ≡ true
    → IsKey k
    → n ≤ 2 ^ 64 - 1
    → view s ≡ arithmetic_text c k n b ++ rest
    → parse_req init_memcache_data s
      ≡ Parsed.parsed (counted c k n b) (length (arithmetic_text c k n b))
unfolding req_step
parse_req-arithmetic c k n b s rest h w few e =
    let facts = arithmetic_lem c h in
    let t = tail-first b (lf ∷ rest) in
    let after = noreply_part b ++ (cr ∷ lf ∷ rest) in
    let spread : view s ≡ name c ++ (sp ∷ (k ++ (sp ∷ (decimal n ++ after)))) =
      e ∙ simp append_assoc in
    let p = length (name c) + 1 in
    let d = drop-next (length (name c)) (view s) sp _ (drop-first (name c) (view s) _ spread) in
    let d1 = drop-next (p + length k) (view s) sp _ (drop-past k p (view s) _ d) in
    let d2 = drop-past (decimal n) (p + length k + 1) (view s) after d1 in
    let p3 = p + length k + 1 + length (decimal n) in
    let place : p3 + length (noreply_part b) + 1 + 1 ≡ length (arithmetic_text c k n b) = omega (
      arith,
      length-arithmetic_line c k n,
      length-append (arithmetic_line c k n) (noreply_part b ++ (cr ∷ lf ∷ [])),
      length-append (noreply_part b) (cr ∷ lf ∷ []),
    ) in
    let r = with_key (begun c) k in
    parse_req-Gives init_memcache_data s (
      command-run c _ spread facts.0 (
        key-begins (begun c) k p _ d w (
          key-sp (begun c) refl k p _ d w (
            subst (λ state. Gives (view s) state r (p + length k + 1) (arithmetic_outcome c k n b))
              (sym facts.2)
              (num-run r n (p + length k + 1) after d1 few (
                back (d2 ∙ t.2) (num_end (record r { num = n }) p3 t.0 t.3) (
                  line-stop (record r { num = n }) b p3 rest facts.1 facts.3 d2
                    (ap
                        (λ m.
                          Parsed.parsed
                            (record (counted c k n b) {
                              token_pos = if b then some (m + 1) else none;
                            })
                            (p3 + length (noreply_part b) + 1 + 1))
                        (length-arithmetic_line c k n)
                      ∙ ap (λ m. Parsed.parsed (counted c k n b) m) place))))))))
