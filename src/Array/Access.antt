-- ===== src/Array/Access.antt =====
-- The readers, `arrayPop`, `arrayDup` and `arrayEach` of src/array.c, against the elements.
use wheatserver.Common.{
  mul_size, sub_size, ℕ, zero, suc, ◌+◌, ◌*◌, ◌%◌, ◌^◌, ◌≤◌, ◌<◌, ◌≡◌, refl, ap, sym, ◌∙◌, none,
  some, List, [], ◌∷◌, ◌++◌, leb, get_elem?, arith, inl, inr, Bool-cases, leb→le, leb-false,
}
use mathlib.Core.List.{foldl}
use mathlib.Core.Option
use native.Mathlib.Nat.{mod-eq_of_lt, mul_comm}
use wheatserver.Slice.{Bytes}
use wheatserver.Memory.{junk_bytes, length-junk_bytes, write, write_whole, range}
use wheatserver.Array.{Array, index, last, pop, each, each_loop, dup}
use wheatserver.Array.Contents.{
  IsValid, contents, items, items-suc, get_elem?-items, get_elem?-items-none,
}

-- The element that a returned pointer shows.
abbrev pub at_offset : Array → ℕ → Bytes
at_offset a at = range a.elements at a.elem_size

offset_exact : (a : Array) (p : ℕ) → IsValid a → p < a.nelem → p * a.elem_size < 2 ^ 64
offset_exact a p v h =
    let k : p * a.elem_size ≤ a.elem_size * a.capacity = grind (arith, v.fits) in
    omega (arith, v.small)

-- `arrayIndex` is NULL exactly past the end, and otherwise points at the element.
pub index_refines :
    (a : Array) (p : ℕ)
    → IsValid a
    → Option.map (at_offset a) (index a p) ≡ get_elem? (contents a) p
unfolding index
index_refines a p v = elim (Bool-cases (leb a.nelem p)) [
  | inl e ↦ rw e (sym (get_elem?-items-none a.elements a.elem_size a.nelem p (leb→le _ _ e)))
  | inr e ↦
      let h : p < a.nelem = leb-false _ _ e in
      let o : mul_size p a.elem_size ≡ p * a.elem_size = mod-eq_of_lt (offset_exact a p v h) in
      rw (e, o) (sym (get_elem?-items a.elements a.elem_size a.nelem p h))
]

-- `arrayLast` points at the last element; on an empty array its index wraps, and it is NULL.
pub last_refines :
    (a : Array)
    → IsValid a
    → Option.map (at_offset a) (last a) ≡ get_elem? (contents a) (sub_size a.nelem 1)
unfolding last
last_refines a v = index_refines a (sub_size a.nelem 1) v

pub last-none : (a : Array) → a.nelem ≡ 0 → last a ≡ none
unfolding last index
last-none a e = ground arith

-- `arrayPop` on a nonempty array takes off the last element and points at it.
pub pop_refines :
    (a : Array)
    → IsValid a
    → 0 < a.nelem
    → IsValid (pop a).1 × (contents a ≡ contents (pop a).1 ++ (at_offset a (pop a).0 ∷ []))
unfolding pop
pop_refines a v h =
    let n = sub_size a.nelem 1 in
    let e : suc n ≡ a.nelem = omega (arith, v.fits, v.few) in
    let o : mul_size a.elem_size n ≡ n * a.elem_size =
      ap (λ k. k % 2 ^ 64) (mul_comm a.elem_size n)
      ∙ mod-eq_of_lt (offset_exact a n v (omega arith)) in
    (
      record { block = v.block; fits = omega (arith, v.fits); small = v.small; few = v.few },
      ap (items a.elements a.elem_size) (sym e)
          ∙ items-suc a.elements a.elem_size n
          ∙ ap (λ k. items a.elements a.elem_size n ++ (range a.elements k a.elem_size ∷ []))
              (sym o),
    )

-- `arrayDup` makes a valid array of the same elements.
pub dup_refines :
    (junk : ℕ → ℕ) (a : Array)
    → IsValid a
    → (b : Array) × (dup junk a ≡ some b) × IsValid b × (contents b ≡ contents a)
unfolding dup
dup_refines junk a v = (a, rw (dup, copied) refl, v, refl)
  where
    copied :
        write
          (junk_bytes junk (mul_size a.elem_size a.capacity))
          0
          a.elements
          (mul_size a.elem_size a.capacity)
        ≡ some a.elements
    copied =
        write_whole _ a.elements _ (length-junk_bytes junk _) (v.block ∙ sym (mod-eq_of_lt v.small))

each_loop-suc {ℓ} :
    {S : Type ℓ} (f : ℕ → S → S) (size n pos : ℕ) (s : S)
    → each_loop f size (suc n) pos s ≡ f (pos + n * size) (each_loop f size n pos s)
unfolding each_loop
each_loop-suc f size zero pos s = ap (λ k. f k s) (omega arith)
each_loop-suc f size (suc n) pos s =
    each_loop-suc f size n (pos + size) (f pos s)
    ∙ ap (λ k. f k (each_loop f size n (pos + size) (f pos s))) (omega arith)

foldl-snoc {ℓ κ} :
    {A : Type ℓ} {S : Type κ} (f : S → A → S) (xs : List A) (x : A) (s : S)
    → foldl f s (xs ++ (x ∷ [])) ≡ f (foldl f s xs) x
foldl-snoc f [] x s = refl
foldl-snoc f (y ∷ xs) x s = foldl-snoc f xs x (f s y)

start : (n size : ℕ) → 0 + n * size ≡ n * size
start n size = omega arith

each_loop-foldl {ℓ} :
    {S : Type ℓ} (block : Bytes) (size n : ℕ) (func : Bytes → S → S) (s : S)
    → each_loop (λ at. func (range block at size)) size n 0 s
      ≡ foldl (λ t x. func x t) s (items block size n)
each_loop-foldl block size zero func s = unfold each_loop items in refl
each_loop-foldl block size (suc n) func s =
    each_loop-suc _ size n 0 s
    ∙ ap (λ k. func (range block k size) (each_loop (λ at. func (range block at size)) size n 0 s))
        (start n size)
    ∙ ap (func (range block (n * size) size)) (each_loop-foldl block size n func s)
    ∙ sym (ap (foldl _ s) (items-suc block size n) ∙ foldl-snoc _ (items block size n) _ s)

-- `arrayEach` runs its function on the elements in order, once each.
pub each_refines {ℓ} :
    {S : Type ℓ} (a : Array) (func : Bytes → S → S) (s : S)
    → each a (λ at. func (at_offset a at)) s ≡ foldl (λ t x. func x t) s (contents a)
unfolding each
each_refines a func s = each_loop-foldl a.elements a.elem_size a.nelem func s
