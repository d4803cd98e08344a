-- ===== src/Memcache/Words.antt =====
-- The command and the keys, under the parser of src/protocol/memcache/proto_memcache.c.
use wheatserver.Common.{
  take-front, ℕ, ◌+◌, ◌-◌, ◌≤◌, ◌≡◌, refl, ap, ◌∙◌, true, false, ◌||◌, [], ◌∷◌, ◌++◌, some, none,
  ◌==◌, length, drop, arith,
}
use wheatserver.Slice.{Bytes}
use wheatserver.Redis.Request.{cr}
use wheatserver.Redis.Steps.{ltb-le}
use wheatserver.Memcache.Data.{Stage, MemcacheProcData, memcache_storage, memcache_arithmetic}
use wheatserver.Memcache.Request.{
  Step, Parsed, sp, is_lower, ends_token, token, read_type, on_token, read_key, end_key, after_key,
  max_key_length,
}
use wheatserver.Memcache.Loop.{req_step}
use wheatserver.Memcache.Gives.{Gives, back, move, drop-next, drop-past}

abbrev pub AllLower : Bytes → Type 0
AllLower [] = Unit
AllLower (c ∷ cs) = (is_lower c ≡ true) × AllLower cs

-- Bytes other than the space and the carriage return.
abbrev pub AllInside : Bytes → Type 0
AllInside [] = Unit
AllInside (c ∷ cs) = (ends_token c ≡ false) × AllInside cs

lower-inside : (c : ℕ) → is_lower c ≡ true → ends_token c ≡ false
lower-inside c h = ground arith

pub inside-sp : (c : ℕ) → ends_token c ≡ false → (c == sp) ≡ false
inside-sp c h = ground arith

-- The bytes from `start` on are the token's.
pub token_lem :
    (r : MemcacheProcData) (s t rest : Bytes) (start : ℕ)
    → drop start s ≡ t ++ rest
    → r.token_pos ≡ some start
    → token r s (start + length t) ≡ some t
token_lem r s t rest start d p =
    let back_to : start + length t - start ≡ length t = omega arith in
    rw (p, back_to, d, take-front t rest)

module _ {s : Bytes} {o : Parsed} where
  pub letters :
      (r : MemcacheProcData) (cs : Bytes) (pos : ℕ) (rest : Bytes)
      → drop pos s ≡ cs ++ rest
      → AllLower cs
      → Gives s Stage.req_type r (pos + length cs) o
      → Gives s Stage.req_type r pos o
  unfolding req_step read_type
  letters r [] pos rest d a g = move (pos + 0) pos (omega arith) g
  letters r (c ∷ cs) pos rest d (low, a) g = back d (rw (lower-inside c low, low)) (
      letters r cs (pos + 1) rest (drop-next pos s c (cs ++ rest) d) a
        (move (pos + length (c ∷ cs)) (pos + 1 + length cs) (omega arith) g))

  -- The bytes of a key behind its first.
  pub inside :
      (r : MemcacheProcData) (cs : Bytes) (start pos : ℕ) (rest : Bytes)
      → drop pos s ≡ cs ++ rest
      → r.token_pos ≡ some start
      → AllInside cs
      → Gives s Stage.key r (pos + length cs) o
      → Gives s Stage.key r pos o
  unfolding req_step read_key
  inside r [] start pos rest d p a g = move (pos + 0) pos (omega arith) g
  inside r (c ∷ cs) start pos rest d p (in_key, a) g = back d (rw (p, in_key)) (
      inside r cs start (pos + 1) rest (drop-next pos s c (cs ++ rest) d) p a
        (move (pos + length (c ∷ cs)) (pos + 1 + length cs) (omega arith) g))

-- The data behind a key's end.
abbrev pub with_key : MemcacheProcData → Bytes → MemcacheProcData
with_key r k = record r { keys = r.keys ++ (k ∷ []); key = []; token_pos = none }

abbrev pub IsKey : Bytes → Type 0
IsKey k = AllInside k × (1 ≤ length k) × (length k ≤ max_key_length)

end_key-sp :
    (r : MemcacheProcData) (k : Bytes) (pos : ℕ)
    → r.key ≡ []
    → length k ≤ max_key_length
    → end_key r k pos sp ≡ Step.next (after_key r.kind sp) (with_key r k) (pos + 1)
unfolding end_key
end_key-sp r k pos e h = rw (e, ltb-le max_key_length (length k) h) refl

end_key-cr :
    (r : MemcacheProcData) (k : Bytes) (pos : ℕ)
    → r.key ≡ []
    → length k ≤ max_key_length
    → (memcache_storage r.kind || memcache_arithmetic r.kind) ≡ false
    → end_key r k pos cr ≡ Step.next (after_key r.kind cr) (with_key r k) pos
unfolding end_key
end_key-cr r k pos e h b = rw (e, ltb-le max_key_length (length k) h, b) refl

module _ {s : Bytes} {o : Parsed} (r : MemcacheProcData) (no_part : r.key ≡ []) where
  -- A key from its first byte on, up to the byte `ch` that ends it.
  key-run :
      (k : Bytes) (pos ch : ℕ) (rest : Bytes) (state : Stage) (to : ℕ)
      → drop pos s ≡ k ++ (ch ∷ rest)
      → IsKey k
      → ends_token ch ≡ true
      → end_key (record r { token_pos = some pos }) k (pos + length k) ch
        ≡ Step.next state (with_key r k) to
      → Gives s state (with_key r k) to o
      → Gives s Stage.key (record r { token_pos = none }) pos o
  unfolding req_step read_key
  key-run [] pos ch rest state to d (a, one, few) ends e g = absurd (omega (arith, one))
  key-run (c ∷ cs) pos ch rest state to d ((in_key, a), one, few) ends e g =
      back d (rw in_key refl) (
        inside (record r { token_pos = some pos }) cs pos (pos + 1) (ch ∷ rest)
          (drop-next pos s c (cs ++ (ch ∷ rest)) d) refl a
          (move (pos + length (c ∷ cs)) (pos + 1 + length cs) (omega arith) (
            back (drop-past (c ∷ cs) pos s (ch ∷ rest) d)
              (rw ends (
                ap
                  (λ t.
                    on_token t (λ k.
                      end_key (record r { token_pos = some pos }) k (pos + length (c ∷ cs)) ch))
                  (token_lem (record r { token_pos = some pos }) s (c ∷ cs) (ch ∷ rest) pos d refl)
                ∙ e))
              g)))

  pub key-sp :
      (k : Bytes) (pos : ℕ) (rest : Bytes)
      → drop pos s ≡ k ++ (sp ∷ rest)
      → IsKey k
      → Gives s (after_key r.kind sp) (with_key r k) (pos + length k + 1) o
      → Gives s Stage.key (record r { token_pos = none }) pos o
  key-sp k pos rest d is_key g =
      key-run k pos sp rest (after_key r.kind sp) (pos + length k + 1) d is_key refl
        (end_key-sp (record r { token_pos = some pos }) k (pos + length k) no_part is_key.2) g

  pub key-cr :
      (k : Bytes) (pos : ℕ) (rest : Bytes)
      → drop pos s ≡ k ++ (cr ∷ rest)
      → IsKey k
      → (memcache_storage r.kind || memcache_arithmetic r.kind) ≡ false
      → Gives s (after_key r.kind cr) (with_key r k) (pos + length k) o
      → Gives s Stage.key (record r { token_pos = none }) pos o
  key-cr k pos rest d is_key b g =
      key-run k pos cr rest (after_key r.kind cr) (pos + length k) d is_key refl
        (end_key-cr (record r { token_pos = some pos }) k (pos + length k) no_part is_key.2 b) g
