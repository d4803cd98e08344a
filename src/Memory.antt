-- ===== src/Memory.antt =====
-- Blocks of bytes as src/memalloc.c hands them out, and the C library's memcpy on them.
-- malloc's contents are unspecified: `junk` gives them, and every theorem holds for each.
use wheatserver.Common.{
  take-add, ℕ, zero, suc, ◌+◌, ◌-◌, ◌≤◌, ◌<◌, ◌≡◌, refl, ap, ◌∙◌, sym, Option, none, some, [], ◌∷◌,
  ◌++◌, leb, if◌then◌else◌, length, take, drop, length-append, length-take, length-drop, arith,
  take-append_le, drop-append_ge, take-drop, take-take_le, take_all, drop-drop,
}
use wheatserver.Slice.{Bytes}

-- n unspecified bytes.
abbrev pub junk_bytes : (ℕ → ℕ) → ℕ → Bytes
junk_bytes junk zero = []
junk_bytes junk (suc n) = junk n ∷ junk_bytes junk n

pub length-junk_bytes : (junk : ℕ → ℕ) (n : ℕ) → length (junk_bytes junk n) ≡ n
length-junk_bytes junk zero = refl
length-junk_bytes junk (suc n) = ap suc (length-junk_bytes junk n)

-- `wrealloc`: the old contents as far as they fit, then unspecified bytes.
unfoldable pub realloc : (ℕ → ℕ) → Bytes → ℕ → Bytes
realloc junk old size = take size (old ++ junk_bytes junk size)

-- `memcpy(block + at, data, n)`; `none` is a write outside the block or a read past `data`.
unfoldable pub write : Bytes → ℕ → Bytes → ℕ → Option Bytes
write block at from n =
    if leb (at + n) (length block)
    then if leb n (length from)
      then some (take at block ++ (take n from ++ drop (at + n) block))
      else none
    else none

-- `n` bytes from offset `at` on.
abbrev pub range : Bytes → ℕ → ℕ → Bytes
range block at n = take n (drop at block)

pub length-realloc : (junk : ℕ → ℕ) (old : Bytes) (size : ℕ) → length (realloc junk old size) ≡ size
unfolding realloc
length-realloc junk old size = omega (
  arith,
  length-take size (old ++ junk_bytes junk size),
  length-append old (junk_bytes junk size),
  length-junk_bytes junk size,
)

pub range-realloc :
    (junk : ℕ → ℕ) (old : Bytes) (size at n : ℕ)
    → at + n ≤ length old
    → at + n ≤ size
    → range (realloc junk old size) at n ≡ range old at n
unfolding realloc
range-realloc junk old size at n h k =
    take-drop n at (take size (old ++ junk_bytes junk size))
    ∙ ap (drop at) (
        take-take_le (at + n) size (old ++ junk_bytes junk size) k
        ∙ take-append_le (at + n) old (junk_bytes junk size) h)
    ∙ sym (take-drop n at old)

pub length-range :
    (block : Bytes) (at n : ℕ) → at + n ≤ length block → length (range block at n) ≡ n
length-range block at n h = omega (arith, length-take n (drop at block), length-drop at block)

-- What a successful `write` leaves in the block.
pub record Written (block : Bytes) (at : ℕ) (from : Bytes) (n : ℕ) (out : Bytes) : Type 0 where
  pub length_same : length out ≡ length block
  pub inside : range out at n ≡ take n from
  pub before : (i m : ℕ) → i + m ≤ at → range out i m ≡ range block i m
  pub after : (i m : ℕ) → at + n ≤ i → range out i m ≡ range block i m

module _ (block : Bytes) (at : ℕ) (from : Bytes) (n : ℕ) (h : at + n ≤ length block)
    (k : n ≤ length from) where
  result : Bytes
  result = take at block ++ (take n from ++ drop (at + n) block)

  length-head : length (take at block) ≡ at
  length-head = omega (arith, length-take at block)

  length-middle : length (take n from) ≡ n
  length-middle = omega (arith, length-take n from)

  drop-result : drop at result ≡ take n from ++ drop (at + n) block
  unfolding result
  drop-result =
      drop-append_ge at (take at block) _ (omega (arith, length-head))
      ∙ ap (λ j. drop j (take n from ++ drop (at + n) block)) none_left
    where
      none_left : at - length (take at block) ≡ 0
      none_left = omega (arith, length-head)

  write-before : (i m : ℕ) → i + m ≤ at → range result i m ≡ range block i m
  unfolding result
  write-before i m p =
      take-drop m i result
      ∙ ap (drop i) (
          take-append_le (i + m) (take at block) _ (omega (arith, length-head))
          ∙ take-take_le (i + m) at block p)
      ∙ sym (take-drop m i block)

  write-after : (i m : ℕ) → at + n ≤ i → range result i m ≡ range block i m
  write-after i m p = ap (take m) (split ∙ ap (drop (i - at)) drop-result ∙ tail)
    where
      split : drop i result ≡ drop (i - at) (drop at result)
      split = ap (λ j. drop j result) (omega arith) ∙ sym (drop-drop (i - at) at result)

      tail : drop (i - at) (take n from ++ drop (at + n) block) ≡ drop i block
      tail =
          drop-append_ge (i - at) (take n from) _ (omega (arith, length-middle))
          ∙ drop-drop (i - at - length (take n from)) (at + n) block
          ∙ ap (λ j. drop j block) (omega (arith, length-middle))

  write-Written : (write block at from n ≡ some result) × Written block at from n result
  unfolding write
  write-Written = (
    unfold result in (ground arith),
    record {
      length_same =
          unfold result in
          omega (
            arith,
            length-append (take at block) (take n from ++ drop (at + n) block),
            length-append (take n from) (drop (at + n) block),
            length-drop (at + n) block,
            length-head,
            length-middle,
          );
      inside =
          ap (take n) drop-result
          ∙ take-append_le n (take n from) _ (omega (arith, length-middle))
          ∙ take-take_le n n from (omega arith);
      before = write-before;
      after = write-after;
    },
  )

-- A `write` inside the block, from data that are long enough, succeeds.
pub write_lem :
    (block : Bytes) (at : ℕ) (from : Bytes) (n : ℕ)
    → at + n ≤ length block
    → n ≤ length from
    → (out : Bytes) × (write block at from n ≡ some out) × Written block at from n out
write_lem block at from n h k =
    let w = write-Written block at from n h k in (result block at from n h k, w.0, w.1)

-- A copy over a whole block leaves the data.
pub write_whole :
    (block from : Bytes) (n : ℕ)
    → length block ≡ n
    → length from ≡ n
    → write block 0 from n ≡ some from
write_whole block from n h k =
    let (out, e, w) = write_lem block 0 from n (omega arith) (omega arith) in
    e
    ∙ ap some (
        sym (take_all n out (omega (arith, w.length_same)))
        ∙ w.inside
        ∙ take_all n from (omega arith))

pub write-none :
    (block : Bytes) (at : ℕ) (from : Bytes) (n : ℕ)
    → length block < at + n
    → write block at from n ≡ none
unfolding write
write-none block at from n h = ground arith

pub range-add :
    (block : Bytes) (at m n : ℕ)
    → range block at (m + n) ≡ range block at m ++ range block (at + m) n
range-add block at m n =
    take-add m n (drop at block) ∙ ap (λ l. range block at m ++ take n l) (drop-drop m at block)
