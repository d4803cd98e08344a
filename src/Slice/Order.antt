-- ===== src/Slice/Order.antt =====
-- What the comparisons of src/slice.c compute: the lexicographic order of the bytes.
use Prim.Native.Nat.{compare, Ordering}
use mathlib.Core.Path.{fun_ext, ap₂}
use mathlib.Core.List.{tail}
use wheatserver.Common.{
  Bool-cases, leb-false, take-append-drop, take-take_le, take-append_le, length-take, length-append,
  sym, ℕ, zero, suc, ◌≤◌, ◌<◌, ◌⊎◌, inl, inr, ◌≡◌, refl, ap, ◌∙◌, ◌↔◌, Bool, true, false, Option,
  none, some, [], ◌∷◌, ◌++◌, ltb, leb, if◌then◌else◌, length, get_or, take, drop, arith,
}
use wheatserver.Slice.{
  Bytes, Slice, view, readable, IsValid, memcmp, start_with, compare_slices, by_length, is_zero,
}

-- The dictionary order, with no length in sight.
pub lex : Bytes → Bytes → Ordering
lex [] [] = Ordering.eq
lex [] (y ∷ ys) = Ordering.lt
lex (x ∷ xs) [] = Ordering.gt
lex (x ∷ xs) (y ∷ ys) = elim (compare x y) [
  | Ordering.eq ↦ lex xs ys
  | Ordering.lt ↦ Ordering.lt
  | Ordering.gt ↦ Ordering.gt
]

then_by : ℕ → ℕ → Option Ordering → Option Ordering
then_by m n none = none
then_by m n (some r) = some (by_length m n r)

then_by-elim :
    (m n : ℕ) (o : Option Ordering)
    → (elim o [ none ↦ none | some r ↦ some (by_length m n r) ]) ≡ then_by m n o
unfolding then_by
then_by-elim m n none = refl
then_by-elim m n (some r) = refl

compare-cases :
    (x y : ℕ)
    → (compare x y ≡ Ordering.lt) × (x < y)
      ⊎ (compare x y ≡ Ordering.eq) × (x ≡ y)
      ⊎ (compare x y ≡ Ordering.gt) × (y < x)
compare-cases x y = ground arith

suc-if : (m n : ℕ) → (if ltb (suc m) (suc n) then suc m else suc n) ≡ suc (if ltb m n then m else n)
suc-if m n = ground arith

by_length-suc : (m n : ℕ) → by_length (suc m) (suc n) ≡ by_length m n
by_length-suc m n = fun_ext (λ r. go r)
  where
    go : (r : Ordering) → by_length (suc m) (suc n) r ≡ by_length m n r
    go Ordering.eq = ground arith
    go Ordering.lt = refl
    go Ordering.gt = refl

next_byte :
    (m n : ℕ) (o : Ordering) (rest : Option Ordering) (r : Ordering)
    → then_by m n rest ≡ some r
    → then_by (suc m) (suc n) (elim o [
      | Ordering.eq ↦ rest
      | Ordering.lt ↦ some Ordering.lt
      | Ordering.gt ↦ some Ordering.gt
    ])
      ≡ some (elim o [ Ordering.eq ↦ r | Ordering.lt ↦ Ordering.lt | Ordering.gt ↦ Ordering.gt ])
unfolding then_by
next_byte m n Ordering.eq none r h = cc
next_byte m n Ordering.eq (some q) r h = rw (by_length-suc m n) h
next_byte m n Ordering.lt rest r h = refl
next_byte m n Ordering.gt rest r h = refl

memcmp-lex :
    (m n : ℕ) (xs ys : Bytes)
    → m ≤ length xs
    → n ≤ length ys
    → then_by m n (memcmp (if ltb m n then m else n) xs ys) ≡ some (lex (take m xs) (take n ys))
unfolding memcmp lex then_by
memcmp-lex zero zero xs ys h k = refl
memcmp-lex zero (suc n) xs [] h k = absurd (omega arith)
memcmp-lex zero (suc n) xs (y ∷ ys) h k = ground arith
memcmp-lex (suc m) n [] ys h k = absurd (omega arith)
memcmp-lex (suc m) zero (x ∷ xs) ys h k = ground arith
memcmp-lex (suc m) (suc n) (x ∷ xs) [] h k = absurd (omega arith)
memcmp-lex (suc m) (suc n) (x ∷ xs) (y ∷ ys) h k = rw (suc-if m n) (
    next_byte m n (compare x y) (memcmp (if ltb m n then m else n) xs ys)
      (lex (take m xs) (take n ys)) (memcmp-lex m n xs ys (omega arith) (omega arith)))

-- On slices that claim no more than they can read, `sliceCompare` returns the sign of the
-- dictionary order of the bytes shown, and reads nothing past them.
pub compare_slices-lex :
    (b s : Slice) → IsValid b → IsValid s → compare_slices b s ≡ some (lex (view b) (view s))
unfolding compare_slices
compare_slices-lex b s vb vs =
    then_by-elim _ _ _ ∙ memcmp-lex b.len s.len (readable b.pointer) (readable s.pointer) vb vs

memcmp-prefix :
    (n : ℕ) (xs ys : Bytes)
    → n ≤ length xs
    → n ≤ length ys
    → (o : Ordering) × (memcmp n xs ys ≡ some o) × ((is_zero o ≡ true) ↔ (take n xs ≡ take n ys))
unfolding memcmp
memcmp-prefix zero xs ys h k = (Ordering.eq, refl, (λ _. refl, λ _. refl))
memcmp-prefix (suc n) [] ys h k = absurd (omega arith)
memcmp-prefix (suc n) (x ∷ xs) [] h k = absurd (omega arith)
memcmp-prefix (suc n) (x ∷ xs) (y ∷ ys) h k =
    let (o, e, iff) = memcmp-prefix n xs ys (omega arith) (omega arith) in
    elim (compare-cases x y) [
      | inl p ↦ (
        Ordering.lt,
        rw (p.0, memcmp),
        (λ q. cc, λ q. absurd (omega (arith, ap (λ l. get_or l 0 0) q))),
      )
      | inr (inl p) ↦ (o, rw (p.0, memcmp) e, (λ q. ap₂ ◌∷◌ p.1 (iff.0 q), λ q. iff.1 (ap tail q)))
      | inr (inr p) ↦ (
        Ordering.gt,
        rw (p.0, memcmp),
        (λ q. cc, λ q. absurd (omega (arith, ap (λ l. get_or l 0 0) q))),
      )
    ]

-- On slices that claim no more than they can read, `sliceStartWith` answers, and answers yes
-- exactly when the first slice shows the bytes of the second followed by some others.
pub start_with-prefix :
    (b s : Slice)
    → IsValid b
    → IsValid s
    → (r : Bool) × (start_with b s ≡ some r)
      × ((r ≡ true) ↔ ((rest : Bytes) × (view b ≡ view s ++ rest)))
unfolding start_with
start_with-prefix b s vb vs =
    let x = readable b.pointer in
    let y = readable s.pointer in
    elim (Bool-cases (leb s.len b.len)) [
      | inl e ↦
          let h : s.len ≤ b.len = ground arith in
          let (o, m, iff) = memcmp-prefix s.len x y (omega arith) vs in
          (
            is_zero o,
            rw (e, m),
            (
              λ q. (
                drop s.len (view b),
                sym (take-append-drop s.len (view b))
                    ∙ ap (λ l. l ++ drop s.len (view b)) (take-take_le s.len b.len x h ∙ iff.0 q),
              ),
              λ q. iff.1 (
                  sym (take-take_le s.len b.len x h)
                  ∙ ap (take s.len) q.1
                  ∙ take-append_le s.len (view s) q.0 (rw length-take (omega arith))
                  ∙ take-take_le s.len s.len y (omega arith)),
            ),
          )
      | inr e ↦ (
        false,
        rw e,
        (
          λ q. cc,
          λ q. absurd (
              omega (
                arith,
                ap length q.1,
                length-append (view s) q.0,
                length-take b.len x,
                length-take s.len y,
                leb-false s.len b.len e,
              )),
        ),
      )
    ]
