-- ===== src/Array/Contents.antt =====
-- The elements of an array of src/array.c as a list.
use wheatserver.Common.{
  get_elem?-append_lt, get_elem?-append_last, get_elem?-none, set-append_lt, set-append_last,
  get_elem?, none, some, ℕ, zero, suc, ◌*◌, ◌^◌, ◌≤◌, ◌<◌, ◌≡◌, ◌≢◌, refl, ◌∙◌, List, [], ◌∷◌, ◌++◌,
  length, set, length-append, lt-cases, sym, inl, inr, arith,
}
use wheatserver.Slice.{Bytes}
use wheatserver.Memory.{range}
use wheatserver.Array.{Array}

-- The first n elements of `size` bytes each.
unfoldable pub items : Bytes → ℕ → ℕ → List Bytes
items block size zero = []
items block size (suc n) = items block size n ++ (range block (n * size) size ∷ [])

abbrev pub contents : Array → List Bytes
contents a = items a.elements a.elem_size a.nelem

-- The block has room for `capacity` elements, and its size is no more than a `size_t` holds.
pub record IsValid (a : Array) : Type 0 where
  pub block : length a.elements ≡ a.elem_size * a.capacity
  pub fits : a.nelem ≤ a.capacity
  pub small : a.elem_size * a.capacity < 2 ^ 64
  pub few : a.capacity < 2 ^ 64

pub length-items : (block : Bytes) (size n : ℕ) → length (items block size n) ≡ n
unfolding items
length-items block size zero = refl
length-items block size (suc n) = omega (
  arith,
  length-append (items block size n) (range block (n * size) size ∷ []),
  length-items block size n,
)

pub items-congruent :
    (b c : Bytes) (size n : ℕ)
    → ((i : ℕ) → i < n → range c (i * size) size ≡ range b (i * size) size)
    → items c size n ≡ items b size n
unfolding items
items-congruent b c size zero h = refl
items-congruent b c size (suc n) h =
    rw (items-congruent b c size n (λ i p. h i (omega arith)), h n (omega arith))

-- A write to one element below n.
pub items-set :
    (b c : Bytes) (size n p : ℕ)
    → p < n
    → ((i : ℕ) → i < n → i ≢ p → range c (i * size) size ≡ range b (i * size) size)
    → items c size n ≡ set (items b size n) p (range c (p * size) size)
unfolding items
items-set b c size zero p h k = absurd (omega arith)
items-set b c size (suc n) p h k = elim (lt-cases p n) [
  | inl q ↦
      rw
        (
          items-set b c size n p q (λ i i_lt ne. k i (omega arith) ne),
          k n (omega arith) (omega arith),
        )
        (sym (set-append_lt (items b size n) _ p _ (rw (length-items b size n) q)))
  | inr q ↦
      let e : p ≡ n = omega arith in
      rw (e, items-congruent b c size n (λ i i_lt. k i (omega arith) (omega arith)))
        (sym (set-append_last (items b size n) _ n _ (sym (length-items b size n))))
]

-- The list grows at its end.
pub items-suc :
    (block : Bytes) (size n : ℕ)
    → items block size (suc n) ≡ items block size n ++ (range block (n * size) size ∷ [])
unfolding items
items-suc block size n = refl

pub get_elem?-items :
    (block : Bytes) (size n p : ℕ)
    → p < n
    → get_elem? (items block size n) p ≡ some (range block (p * size) size)
unfolding items
get_elem?-items block size zero p h = absurd (omega arith)
get_elem?-items block size (suc n) p h = elim (lt-cases p n) [
  | inl q ↦
      get_elem?-append_lt (items block size n) _ p (rw (length-items block size n) q)
      ∙ get_elem?-items block size n p q
  | inr q ↦
      let e : p ≡ n = omega arith in
      rw e (get_elem?-append_last (items block size n) _ n (sym (length-items block size n)))
]

pub get_elem?-items-none :
    (block : Bytes) (size n p : ℕ) → n ≤ p → get_elem? (items block size n) p ≡ none
get_elem?-items-none block size n p h = get_elem?-none _ p (rw (length-items block size n) h)
