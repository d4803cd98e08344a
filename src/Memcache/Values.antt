-- ===== src/Memcache/Values.antt =====
-- The end of a line and the value behind it, under the parser of
-- src/protocol/memcache/proto_memcache.c.
use mathlib.Core.Path.{subst}
use wheatserver.Common.{
  take-front, ℕ, ◌+◌, ◌-◌, ◌≡◌, refl, ap, sym, ◌∙◌, Bool, true, false, List, [], ◌∷◌, ◌++◌, some,
  ◌==◌, if◌then◌else◌, leb, length, take, drop, arith, length-drop, length-append,
}
use wheatserver.Slice.{Bytes}
use wheatserver.Redis.Request.{cr, lf}
use wheatserver.Redis.Steps.{==-no}
use wheatserver.Memcache.Data.{Stage, MemcacheProcData, memcache_storage}
use wheatserver.Memcache.Request.{
  Step, Parsed, on_token, runto_crlf, read_noreply, end_noreply, after_noreply, read_val,
  takes_noreply, noreply_text,
}
use wheatserver.Memcache.Loop.{req_step}
use wheatserver.Memcache.Words.{AllInside, token_lem}
use wheatserver.Memcache.Encode.{noreply_part}
use wheatserver.Memcache.Gives.{Gives, back, stop, move, drop-next, drop-past}

-- The data behind a line that asks for no reply, whose word starts behind `pos`.
abbrev pub quiet : Bool → ℕ → MemcacheProcData → MemcacheProcData
quiet b pos r = record r {
  noreply_banner = if b then noreply_text else r.noreply_banner;
  token_pos = if b then some (pos + 1) else r.token_pos;
  noreply = if b then true else r.noreply;
}

abbrev pub behind_line : MemcacheProcData → Stage
behind_line r = if memcache_storage r.kind then Stage.runto_val else Stage.almost_done

end_noreply-word :
    (r : MemcacheProcData) (start pos : ℕ)
    → takes_noreply r.kind ≡ true
    → end_noreply (record r { noreply_banner = []; token_pos = some start }) noreply_text pos
      ≡ Step.next Stage.after_noreply
          (record r { noreply_banner = noreply_text; token_pos = some start; noreply = true })
          pos
unfolding end_noreply
end_noreply-word r start pos takes = rw takes refl

module _ {s : Bytes} {o : Parsed} where
  -- The bytes of the word behind its first.
  banner :
      (r : MemcacheProcData) (cs : Bytes) (pos : ℕ) (rest : Bytes)
      → drop pos s ≡ cs ++ rest
      → AllInside cs
      → Gives s Stage.noreply r (pos + length cs) o
      → Gives s Stage.noreply r pos o
  unfolding req_step read_noreply
  banner r [] pos rest d a g = move (pos + 0) pos (omega arith) g
  banner r (c ∷ cs) pos rest d (in_word, a) g = back d (rw in_word refl) (
      banner r cs (pos + 1) rest (drop-next pos s c (cs ++ rest) d) a
        (move (pos + length (c ∷ cs)) (pos + 1 + length cs) (omega arith) g))

  noreply-run :
      (r : MemcacheProcData) (pos : ℕ) (rest : Bytes)
      → drop pos s ≡ noreply_text ++ (cr ∷ rest)
      → takes_noreply r.kind ≡ true
      → Gives s
          (behind_line r)
          (record r { noreply_banner = noreply_text; token_pos = some pos; noreply = true })
          (pos + 7 + 1)
          o
      → Gives s Stage.runto_crlf r pos o
  unfolding req_step runto_crlf read_noreply after_noreply
  noreply-run r pos rest d takes g =
      let started = record r { noreply_banner = []; token_pos = some pos } in
      back d (rw takes refl) (
        banner started (b'o' ∷ b'r' ∷ b'e' ∷ b'p' ∷ b'l' ∷ b'y' ∷ []) (pos + 1) (cr ∷ rest)
          (drop-next pos s _ _ d) (refl, (refl, (refl, (refl, (refl, (refl, tt))))))
          (move (pos + 7) (pos + 1 + 6) (omega arith) (
            back (drop-past noreply_text pos s (cr ∷ rest) d)
              (ap (λ t. on_token t (λ k. end_noreply started k (pos + 7)))
                  (token_lem started s noreply_text (cr ∷ rest) pos d refl)
                ∙ end_noreply-word r pos (pos + 7) takes)
              (back (drop-past noreply_text pos s (cr ∷ rest) d) refl g))))

  -- The end of a line, with or without the word.
  pub line-run :
      (r : MemcacheProcData) (quiet_line : Bool) (pos : ℕ) (rest : Bytes)
      → drop pos s ≡ noreply_part quiet_line ++ (cr ∷ rest)
      → takes_noreply r.kind ≡ true
      → Gives s
          (behind_line r)
          (quiet quiet_line pos r)
          (pos + length (noreply_part quiet_line) + 1)
          o
      → Gives s Stage.runto_crlf r pos o
  unfolding req_step runto_crlf
  line-run r true pos rest d takes g = back d refl (
      noreply-run r (pos + 1) rest (drop-next pos s _ _ d) takes
        (move (pos + 8 + 1) (pos + 1 + 7 + 1) (omega arith) g))
  line-run r false pos rest d takes g = back d refl (move (pos + 0 + 1) (pos + 1) (omega arith) g)

-- The slices of a value that lies in one piece.
abbrev pub with_value : List Bytes → Bytes → List Bytes
with_value vals [] = vals
with_value vals (c ∷ cs) = vals ++ ((c ∷ cs) ∷ [])

read_val-here :
    (r : MemcacheProcData) (s : Bytes) (c : ℕ) (cs rest : Bytes) (pos ch : ℕ)
    → drop pos s ≡ (c ∷ cs) ++ rest
    → r.vlen_left ≡ length (c ∷ cs)
    → read_val r s pos ch
      ≡ Step.next Stage.val
          (record r { vals = r.vals ++ ((c ∷ cs) ∷ []); vlen_left = 0 })
          (pos + length (c ∷ cs))
unfolding read_val
read_val-here r s c cs rest pos ch d e =
    let inside : leb (length (c ∷ cs)) (length s - pos) ≡ true =
      ground (arith, length-drop pos s, ap length d, length-append (c ∷ cs) rest) in
    let taken : take (length (c ∷ cs)) (drop pos s) ≡ c ∷ cs =
      ap (λ l. take (length (c ∷ cs)) l) d ∙ take-front (c ∷ cs) rest in
    let none_left : length (c ∷ cs) - length (c ∷ cs) ≡ 0 = omega arith in
    let some_left : (length (c ∷ cs) == 0) ≡ false =
      ==-no (length (c ∷ cs)) 0 (λ z. omega (arith, z)) in
    rw (e, some_left, inside, taken, none_left) refl

read_val-end :
    (r : MemcacheProcData) (s : Bytes) (pos : ℕ)
    → r.vlen_left ≡ 0
    → read_val r s pos cr ≡ Step.next Stage.almost_done r (pos + 1)
unfolding read_val
read_val-end r s pos e =
    let none_left : (r.vlen_left == 0) ≡ true = ground (arith, e) in rw none_left refl

module _ {s : Bytes} where
  -- The line end behind a value ends the request.
  value-end :
      (r : MemcacheProcData) (pos : ℕ) (rest : Bytes)
      → drop pos s ≡ cr ∷ lf ∷ rest
      → r.vlen_left ≡ 0
      → Gives s Stage.val r pos (Parsed.parsed (record r { stage = Stage.done }) (pos + 1 + 1))
  unfolding req_step
  value-end r pos rest d e =
      back d (read_val-end r s pos e) (stop (drop-next pos s cr (lf ∷ rest) d) refl refl)

  -- A value and what ends the request.
  pub value-run :
      (r : MemcacheProcData) (value : Bytes) (pos : ℕ) (rest : Bytes) {o : Parsed}
      → drop pos s ≡ lf ∷ (value ++ (cr ∷ lf ∷ rest))
      → r.vlen ≡ length value
      → Parsed.parsed
          (record r { vals = with_value r.vals value; vlen_left = 0; stage = Stage.done })
          (pos + length value + 3)
        ≡ o
      → Gives s Stage.runto_val r pos o
  unfolding req_step
  value-run r [] pos rest d e q =
      let place : pos + 1 + 1 + 1 ≡ pos + 0 + 3 = omega arith in
      back d refl (
        subst (λ o'. Gives s Stage.val (record r { vlen_left = r.vlen }) (pos + 1) o')
          (ap
              (λ n.
                Parsed.parsed (record r { vlen_left = n; stage = Stage.done }) (pos + 1 + 1 + 1))
              e
            ∙ ap (λ p. Parsed.parsed (record r { vlen_left = 0; stage = Stage.done }) p) place
            ∙ q)
          (value-end (record r { vlen_left = r.vlen }) (pos + 1) rest (drop-next pos s _ _ d) e))
  value-run r (c ∷ cs) pos rest d e q =
      let loaded = record r { vlen_left = r.vlen } in
      let stored = record r { vals = r.vals ++ ((c ∷ cs) ∷ []); vlen_left = 0 } in
      let place : pos + length (c ∷ cs) + 3 ≡ pos + 1 + length (c ∷ cs) + 1 + 1 = omega arith in
      let d' = drop-next pos s lf ((c ∷ cs) ++ (cr ∷ lf ∷ rest)) d in
      back d refl (
        back d' (read_val-here loaded s c cs (cr ∷ lf ∷ rest) (pos + 1) c d' e) (
          subst (λ o'. Gives s Stage.val stored (pos + 1 + length (c ∷ cs)) o')
            (ap (λ p. Parsed.parsed (record stored { stage = Stage.done }) p) (sym place) ∙ q)
            (value-end stored (pos + 1 + length (c ∷ cs)) rest
              (drop-past (c ∷ cs) (pos + 1) s (cr ∷ lf ∷ rest) d') refl)))
