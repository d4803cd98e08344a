-- ===== src/Array/Refine.antt =====
-- Each operation of src/array.c against the list of the elements.
use wheatserver.Common.{
  mul_size, add_size, sub_size, ℕ, zero, suc, ◌+◌, ◌-◌, ◌*◌, ◌%◌, ◌^◌, ◌≤◌, ◌<◌, ◌≡◌, ◌≢◌, refl, ap,
  sym, ◌∙◌, Option, none, some, true, false, List, [], ◌∷◌, ◌++◌, ltb, leb, ◌==◌, if◌then◌else◌,
  length, get_elem?, take_all, length-append, arith, ◌⊎◌, inl, inr, lt→ltb, lt-cases, Bool-cases,
  leb→le, leb-false, ltb→lt, ltb-false, ==_iff,
}
use native.Mathlib.Nat.{mod-eq_of_lt}
use wheatserver.Common
use wheatserver.Slice.{Bytes}
use wheatserver.Memory.{
  realloc, length-realloc, range-realloc, write, write_lem, write-none, Written, range,
}
use wheatserver.Array.{Array, create, grow, store, set, push}
use wheatserver.Array.Contents.{
  IsValid, contents, items, length-items, items-congruent, items-set, items-suc,
}

elem_fits : (p n s c : ℕ) → p < n → s * n ≤ c → p * s + s ≤ c
elem_fits p n s c h k = grind arith

elem_before : (i p s : ℕ) → i < p → i * s + s ≤ p * s
elem_before i p s h = grind arith

not-ltb : {a b : ℕ} → b ≤ a → ltb a b ≡ false
not-ltb h = ground arith

-- `arraySet` stores like `List.set`, and appends where the position is the length.
abbrev pub put {ℓ} : {A : Type ℓ} → List A → ℕ → A → List A
put xs p v = if p == length xs then xs ++ (v ∷ []) else Common.set xs p v

-- What `set` makes of an array with room, once the bytes are written.
abbrev after_write : Array → Bytes → ℕ → Array
after_write b out p = record b {
  elements = out;
  nelem = if p == b.nelem then add_size b.nelem 1 else b.nelem;
}

store_lem :
    (b : Array) (item : Bytes) (p : ℕ) {out : Bytes}
    → write b.elements (mul_size p b.elem_size) item b.elem_size ≡ some out
    → store b (mul_size p b.elem_size) item p ≡ some (after_write b out p)
unfolding store
store_lem b item p e = rw (store, e)

store-none :
    (b : Array) (item : Bytes) (p pos : ℕ)
    → length b.elements < pos + b.elem_size
    → store b pos item p ≡ none
unfolding store
store-none b item p pos h = rw (store, write-none b.elements pos item b.elem_size h)

module _ (b : Array) (item : Bytes) (p : ℕ) (v : IsValid b) (room : b.nelem < b.capacity)
    (l : length item ≡ b.elem_size) (h : p ≤ b.nelem) where
  in_block : p * b.elem_size + b.elem_size ≤ length b.elements
  in_block = rw v.block (grind arith)

  offset : mul_size p b.elem_size ≡ p * b.elem_size
  offset = mod-eq_of_lt (omega (arith, in_block, v.small, v.block))

  module _ {out : Bytes} (w : Written b.elements (p * b.elem_size) item b.elem_size out) where
    item_read : range out (p * b.elem_size) b.elem_size ≡ item
    item_read = w.inside ∙ take_all b.elem_size item (omega (arith, l))

    after-IsValid : IsValid (after_write b out p)
    after-IsValid = record {
      block = w.length_same ∙ v.block;
      fits = ground (arith, v.fits, v.few);
      small = v.small;
      few = v.few;
    }

    below_same : (n : ℕ) → n ≤ p → items out b.elem_size n ≡ items b.elements b.elem_size n
    below_same n k =
        items-congruent b.elements out b.elem_size n (λ i q.
          w.before (i * b.elem_size) b.elem_size (elem_before i p b.elem_size (omega arith)))

    overwritten : p < b.nelem → items out b.elem_size b.nelem ≡ Common.set (contents b) p item
    overwritten k =
        items-set b.elements out b.elem_size b.nelem p k (λ i q ne. elim (lt-cases i p) [
          | inl r ↦ w.before (i * b.elem_size) b.elem_size (elem_before i p b.elem_size r)
          | inr r ↦
              w.after (i * b.elem_size) b.elem_size (elem_before p i b.elem_size (omega arith))
        ])
        ∙ ap (Common.set (contents b) p) item_read

    appended : p ≡ b.nelem → items out b.elem_size (suc b.nelem) ≡ contents b ++ (item ∷ [])
    appended e =
        items-suc out b.elem_size b.nelem
        ∙ rw (below_same b.nelem (omega arith), ← e, item_read) refl

    after-contents : contents (after_write b out p) ≡ put (contents b) p item
    after-contents = elim (Bool-cases (p == b.nelem)) [
      | inl e ↦
          let q : p ≡ b.nelem = (==_iff p b.nelem).0 e in
          let more : add_size b.nelem 1 ≡ suc b.nelem = omega (arith, v.few, room) in
          rw (length-items b.elements b.elem_size b.nelem, e, more) (appended q)
      | inr e ↦ rw (length-items b.elements b.elem_size b.nelem, e) (overwritten (ground arith))
    ]

  stored :
      (out : Bytes) × (write b.elements (mul_size p b.elem_size) item b.elem_size ≡ some out)
      × IsValid (after_write b out p)
      × (contents (after_write b out p) ≡ put (contents b) p item)
  stored =
      let (out, e, w) =
        write_lem b.elements (p * b.elem_size) item b.elem_size in_block (omega (arith, l)) in
      (out, rw offset e, after-IsValid w, after-contents w)

module _ (junk : ℕ → ℕ) where
  -- What `grow` leaves: the same elements, and room for one more.
  record Grown (a b : Array) : Type 0 where
    valid : IsValid b
    nelem_same : b.nelem ≡ a.nelem
    size_same : b.elem_size ≡ a.elem_size
    same : contents b ≡ contents a
    room : b.nelem < b.capacity

  -- The doubled array.
  abbrev double : Array → Array
  double a = record a {
    elements = realloc junk a.elements (a.elem_size * (a.capacity * 2));
    capacity = a.capacity * 2;
  }

  doubled :
      (a : Array)
      → IsValid a
      → 0 < a.capacity
      → a.elem_size * (a.capacity * 2) < 2 ^ 64
      → a.capacity * 2 < 2 ^ 64
      → (a.nelem == a.capacity) ≡ true
      → Grown a (double a)
  doubled a v pos small few e = record {
    valid = record {
      block = length-realloc junk a.elements _;
      fits = omega (arith, v.fits);
      small = small;
      few = few;
    };
    nelem_same = refl;
    size_same = refl;
    same = items-congruent a.elements _ a.elem_size a.nelem (λ i h.
        let k : i * a.elem_size + a.elem_size ≤ a.elem_size * a.capacity = grind (arith, v.fits) in
        range-realloc junk a.elements _ (i * a.elem_size) a.elem_size (rw v.block k) (grind arith));
    room = ground arith;
  }

  grow-Grown :
      (a : Array)
      → IsValid a
      → 0 < a.capacity
      → a.elem_size * (a.capacity * 2) < 2 ^ 64
      → a.capacity * 2 < 2 ^ 64
      → Grown a (grow junk a)
  unfolding grow
  grow-Grown a v pos small few = elim (Bool-cases (a.nelem == a.capacity)) [
    | inl e ↦
        let c2 : mul_size a.capacity 2 ≡ a.capacity * 2 = mod-eq_of_lt few in
        let s2 : mul_size a.elem_size (a.capacity * 2) ≡ a.elem_size * (a.capacity * 2) =
          mod-eq_of_lt small in
        rw (e, c2, s2) (doubled a v pos small few e)
    | inr e ↦ rw e (record {
      valid = v;
      nelem_same = refl;
      size_same = refl;
      same = refl;
      room = ground arith;
    })
  ]

  set_inside :
      (a : Array) (item : Bytes) (p : ℕ)
      → IsValid a
      → 0 < a.capacity
      → a.elem_size * (a.capacity * 2) < 2 ^ 64
      → a.capacity * 2 < 2 ^ 64
      → length item ≡ a.elem_size
      → p ≤ a.nelem
      → (b : Array) × (set junk a item p ≡ some b)
        × IsValid b
        × (contents b ≡ put (contents a) p item)
  unfolding set
  set_inside a item p v pos small few l h =
      let g = grow-Grown a v pos small few in
      let (out, e, valid, same) =
        stored (grow junk a) item p g.valid g.room (l ∙ sym g.size_same) (rw g.nelem_same h) in
      (
        after_write (grow junk a) out p,
        rw (not-ltb h) (
            ap (λ k. store (grow junk a) (mul_size p k) item p) (sym g.size_same)
            ∙ store_lem (grow junk a) item p e),
        valid,
        rw g.same at same,
      )

  set_outside : (a : Array) (item : Bytes) (p : ℕ) → a.nelem < p → set junk a item p ≡ some a
  unfolding set
  set_outside a item p h = rw (lt→ltb a.nelem p h) refl

  -- `arraySet` on a valid array with some capacity whose double is still a `size_t`, with an item of
  -- the element's size, succeeds and keeps the array valid. At a position above the length it
  -- changes nothing. At one up to the length it stores the item there, or appends it where the
  -- position is the length, and all other elements stay.
  pub set_refines :
      (a : Array) (item : Bytes) (p : ℕ)
      → IsValid a
      → 0 < a.capacity
      → a.elem_size * (a.capacity * 2) < 2 ^ 64
      → a.capacity * 2 < 2 ^ 64
      → length item ≡ a.elem_size
      → (b : Array) × (set junk a item p ≡ some b)
        × IsValid b
        × (((a.nelem < p) × (b ≡ a)) ⊎ ((p ≤ a.nelem) × (contents b ≡ put (contents a) p item)))
  set_refines a item p v pos small few l = elim (Bool-cases (ltb a.nelem p)) [
    | inl e ↦ let h = ltb→lt a.nelem p e in (a, set_outside a item p h, v, inl (h, refl))
    | inr e ↦
        let h : p ≤ a.nelem = ltb-false a.nelem p e in
        let (b, done, valid, same) = set_inside a item p v pos small few l h in
        (b, done, valid, inr (h, same))
  ]

  -- `arrayPush` on a valid array with some capacity whose double is still a `size_t` succeeds, keeps
  -- the array valid, and appends the item.
  pub push_refines :
      (a : Array) (item : Bytes)
      → IsValid a
      → 0 < a.capacity
      → a.elem_size * (a.capacity * 2) < 2 ^ 64
      → a.capacity * 2 < 2 ^ 64
      → length item ≡ a.elem_size
      → (b : Array) × (push junk a item ≡ some b)
        × IsValid b
        × (contents b ≡ contents a ++ (item ∷ []))
  unfolding push
  push_refines a item v pos small few l =
      let (b, e, valid, same) = set_inside a item a.nelem v pos small few l (omega arith) in
      (b, e, valid, same ∙ rw (length-items a.elements a.elem_size a.nelem) (ground arith))

  length-grow-create : (elem_size : ℕ) → length (grow junk (create junk elem_size 0)).elements ≡ 0
  unfolding grow create
  length-grow-create elem_size = length-realloc junk _ (mul_size elem_size 0) ∙ omega arith

  size-grow-create : (elem_size : ℕ) → (grow junk (create junk elem_size 0)).elem_size ≡ elem_size
  unfolding grow create
  size-grow-create elem_size = refl

  -- An array created with no capacity never grows: doubling leaves none, and the first push of an
  -- element of some size copies past the end of the block.
  pub push-none :
      (elem_size : ℕ) (item : Bytes)
      → 0 < elem_size
      → push junk (create junk elem_size 0) item ≡ none
  unfolding push set create
  push-none elem_size item h =
      store-none (grow junk (create junk elem_size 0)) item 0 (mul_size 0 elem_size)
        (omega (arith, length-grow-create elem_size, size-grow-create elem_size))
