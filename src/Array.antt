-- ===== src/Array.antt =====
-- src/array.c: a growing array of elements of one size, in a block of bytes.
-- A pointer into the block is its offset; what malloc leaves in a block is the parameter `junk`.
pub mod Contents
pub mod Refine
pub mod Access
use wheatserver.Common.{
  ℕ, zero, suc, ◌+◌, ◌-◌, ◌*◌, ◌%◌, ◌^◌, Option, none, some, mul_size, add_size, sub_size, ltb, leb,
  ◌==◌, if◌then◌else◌,
}
use wheatserver.Slice.{Bytes}
use wheatserver.Memory.{junk_bytes, realloc, write}

pub record Array : Type 0 where
  pub nelem : ℕ
  pub elements : Bytes
  pub elem_size : ℕ
  pub capacity : ℕ

unfoldable pub index : Array → ℕ → Option ℕ
index a pos = if leb a.nelem pos then none else some (mul_size pos a.elem_size)

unfoldable pub top : Array → Option ℕ
unfolding index
top a = index a 0

unfoldable pub last : Array → Option ℕ
unfolding index
last a = index a (sub_size a.nelem 1)

-- The offset that is returned, beside the array.
unfoldable pub pop : Array → ℕ × Array
pop a = let n = sub_size a.nelem 1 in (mul_size a.elem_size n, record a { nelem = n })

unfoldable pub narray : Array → ℕ
narray a = a.nelem

-- `while (len--) { func(pos); pos += elem_size; }`: `func` acts on a state, given the offset.
each_loop {ℓ} : {S : Type ℓ} → (ℕ → S → S) → ℕ → ℕ → ℕ → S → S
each_loop func size zero pos s = s
each_loop func size (suc len) pos s = each_loop func size len (pos + size) (func pos s)

unfoldable pub each {ℓ} : {S : Type ℓ} → Array → (ℕ → S → S) → S → S
unfolding each_loop
each a func s = each_loop func a.elem_size a.nelem 0 s

-- The end of `arraySet`: the copy to `elements + pos`, and the new length.
unfoldable pub store : Array → ℕ → Bytes → ℕ → Option Array
store a pos item p = elim (write a.elements pos item a.elem_size) [
  | none ↦ none
  | some out ↦
      some
        (record a { elements = out; nelem = if p == a.nelem then add_size a.nelem 1 else a.nelem })
]

module _ (junk : ℕ → ℕ) where
  unfoldable pub create : ℕ → ℕ → Array
  create elem_size cap = record {
    nelem = 0;
    elements = junk_bytes junk (mul_size elem_size cap);
    elem_size = elem_size;
    capacity = cap;
  }

  -- `none` is a copy past the end of a block.
  unfoldable pub dup : Array → Option Array
  dup a =
      let len = mul_size a.elem_size a.capacity in
      elim (write (junk_bytes junk len) 0 a.elements len) [
        | none ↦ none
        | some out ↦ some (record a { elements = out })
      ]

  -- The branch that doubles a full array.
  unfoldable pub grow : Array → Array
  grow a =
      let new_cap = mul_size a.capacity 2 in
      if a.nelem == a.capacity
      then record a {
        elements = realloc junk a.elements (mul_size a.elem_size new_cap);
        capacity = new_cap;
      }
      else a

  -- `none` is a write outside the block.
  unfoldable pub set : Array → Bytes → ℕ → Option Array
  unfolding store
  set a item p = if ltb a.nelem p then some a else store (grow a) (mul_size p a.elem_size) item p

  unfoldable pub push : Array → Bytes → Option Array
  unfolding set
  push a item = set a item a.nelem
