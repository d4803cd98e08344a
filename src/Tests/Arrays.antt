-- ===== src/Tests/Arrays.antt =====
-- src/array.c at concrete inputs.
use mathlib.Core.List.{foldl}
use mathlib.Core.Option
use wheatserver.Common.{
  ℕ, ◌+◌, ◌≤◌, ◌<◌, ◌⊎◌, ◌≡◌, refl, none, some, [], ◌∷◌, ◌++◌, arith, get_elem?,
}
use wheatserver.Slice.{Bytes}
use wheatserver.Memory.{write, realloc}
use wheatserver.Array.{grow, Array, index, pop, each, dup, set, push, create}
use wheatserver.Array.Contents.{IsValid, contents}
use wheatserver.Array.Refine.{put, set_refines, push_refines, push-none}
use wheatserver.Array.Access.{at_offset, index_refines, pop_refines, dup_refines, each_refines}

-- malloc leaves zeros.
abbrev zeros : ℕ → ℕ
zeros i = 0

-- Two elements of two bytes, full.
abbrev pair : Array
pair = record { nelem = 2; elements = 1 ∷ 2 ∷ 3 ∷ 4 ∷ []; elem_size = 2; capacity = 2 }

pair-IsValid : IsValid pair
pair-IsValid = omega arith

index_run : index pair 1 ≡ some 2
unfolding index
index_run = refl

push_run :
    push zeros pair (5 ∷ 6 ∷ [])
    ≡ some (record {
      nelem = 3;
      elements = 1 ∷ 2 ∷ 3 ∷ 4 ∷ 5 ∷ 6 ∷ 0 ∷ 0 ∷ [];
      elem_size = 2;
      capacity = 4;
    })
unfolding push write grow realloc
push_run = refl

set_refines_example :
    (b : Array) × (set zeros pair (5 ∷ 6 ∷ []) 0 ≡ some b)
    × IsValid b
    × (((2 < 0) × (b ≡ pair)) ⊎ ((0 ≤ 2) × (contents b ≡ put (contents pair) 0 (5 ∷ 6 ∷ []))))
set_refines_example =
    set_refines zeros pair (5 ∷ 6 ∷ []) 0 pair-IsValid (omega arith) (omega arith) (omega arith)
      (omega arith)

set_outside_run : set zeros pair (5 ∷ 6 ∷ []) 3 ≡ some pair
unfolding set
set_outside_run = refl

push_refines_example :
    (b : Array) × (push zeros pair (5 ∷ 6 ∷ []) ≡ some b)
    × IsValid b
    × (contents b ≡ contents pair ++ ((5 ∷ 6 ∷ []) ∷ []))
push_refines_example =
    push_refines zeros pair (5 ∷ 6 ∷ []) pair-IsValid (omega arith) (omega arith) (omega arith)
      (omega arith)

push-none_run : push zeros (create zeros 4 0) (1 ∷ 2 ∷ 3 ∷ 4 ∷ []) ≡ none
push-none_run = push-none zeros 4 (1 ∷ 2 ∷ 3 ∷ 4 ∷ []) (omega arith)

index_value_run : Option.map (at_offset pair) (index pair 1) ≡ get_elem? (contents pair) 1
index_value_run = index_refines pair 1 pair-IsValid

pop_value_run :
    IsValid (pop pair).1
    × (contents pair ≡ contents (pop pair).1 ++ (at_offset pair (pop pair).0 ∷ []))
pop_value_run = pop_refines pair pair-IsValid (omega arith)

dup_run : (b : Array) × (dup zeros pair ≡ some b) × IsValid b × (contents b ≡ contents pair)
dup_run = dup_refines zeros pair pair-IsValid

abbrev count_byte : Bytes → ℕ → ℕ
count_byte item n = n + get_or_zero item
  where
    get_or_zero : Bytes → ℕ
    get_or_zero [] = 0
    get_or_zero (x ∷ xs) = x

each_run :
    each pair (λ at. count_byte (at_offset pair at)) 0
    ≡ foldl (λ t x. count_byte x t) 0 (contents pair)
each_run = each_refines pair count_byte 0
