-- ===== src/Slice.antt =====
-- src/slice.c: the views that every reader, parser and sender of the server passes on.
pub mod Order
pub mod Cut
use Prim.Native.Nat.{compare, Ordering}
use wheatserver.Common.{
  ℕ, zero, suc, ◌-◌, ◌+◌, ◌≤◌, ◌≡◌, Bool, true, false, ◌&&◌, Option, none, some, List, [], ◌∷◌, ltb,
  leb, if◌then◌else◌, length, take, drop,
}

abbrev pub Bytes : Type 0
Bytes = List ℕ

-- A pointer is the memory that can be read from it on; `none` is NULL.
abbrev pub Pointer : Type 0
Pointer = Option Bytes

abbrev pub readable : Pointer → Bytes
readable none = []
readable (some m) = m

pub record Slice : Type 0 where
  pub pointer : Pointer
  pub len : ℕ

-- The bytes that a slice shows.
abbrev pub view : Slice → Bytes
view s = take s.len (readable s.pointer)

-- All the bytes that it claims can be read.
abbrev pub IsValid : Slice → Type 0
IsValid s = s.len ≤ length (readable s.pointer)

unfoldable pub create : Pointer → ℕ → Slice
create none len = record { pointer = none; len = 0 }
create (some m) len = record { pointer = some m; len = len }

unfoldable pub to : Slice → Pointer → ℕ → Slice
to s none len = s
to s (some m) len = record { pointer = some m; len = len }

unfoldable pub clear : Slice → Slice
clear s = record { pointer = none; len = 0 }

-- `data += prefix`.
abbrev pub advance : ℕ → Pointer → Pointer
advance n none = none
advance n (some m) = some (drop n m)

-- `none` is the failed assertion.
unfoldable pub remove_prefix : Slice → ℕ → Option Slice
remove_prefix s prefix =
    if ltb prefix s.len
    then some (record { pointer = advance prefix s.pointer; len = s.len - prefix })
    else none

-- C's memcmp, of which only the sign is specified. `none` is a read past the memory at hand.
unfoldable pub memcmp : ℕ → Bytes → Bytes → Option Ordering
memcmp zero xs ys = some Ordering.eq
memcmp (suc n) [] ys = none
memcmp (suc n) (x ∷ xs) [] = none
memcmp (suc n) (x ∷ xs) (y ∷ ys) = elim (compare x y) [
  | Ordering.eq ↦ memcmp n xs ys
  | Ordering.lt ↦ some Ordering.lt
  | Ordering.gt ↦ some Ordering.gt
]

abbrev is_zero : Ordering → Bool
is_zero Ordering.eq = true
is_zero Ordering.lt = false
is_zero Ordering.gt = false

unfoldable pub start_with : Slice → Slice → Option Bool
start_with b s =
    if leb s.len b.len
    then elim (memcmp s.len (readable b.pointer) (readable s.pointer)) [
      | none ↦ none
      | some r ↦ some (is_zero r)
    ]
    else some false

-- The tests behind the call of memcmp.
abbrev by_length : ℕ → ℕ → Ordering → Ordering
by_length m n Ordering.eq =
    if ltb m n then Ordering.lt else if ltb n m then Ordering.gt else Ordering.eq
by_length m n Ordering.lt = Ordering.lt
by_length m n Ordering.gt = Ordering.gt

unfoldable pub compare_slices : Slice → Slice → Option Ordering
compare_slices b s =
    let min_len = if ltb b.len s.len then b.len else s.len in
    elim (memcmp min_len (readable b.pointer) (readable s.pointer)) [
      | none ↦ none
      | some r ↦ some (by_length b.len s.len r)
    ]
