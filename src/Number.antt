-- ===== src/Number.antt =====
-- The string utilities of src/util.c: numbers to text and back. A text is its bytes.
pub mod Decimal
pub mod Print
pub mod Parse
use wheatserver.Common.{
  ℕ, zero, suc, ◌+◌, ◌-◌, ◌*◌, ◌/◌, ◌%◌, ◌^◌, Bool, true, false, ◌&&◌, Option, none, some, List, [],
  ◌∷◌, ltb, leb, ◌==◌, if◌then◌else◌, length, take, ℤ, pos, negsuc,
}
use wheatserver.Slice.{Bytes}

abbrev pub ullong_max : ℕ
ullong_max = 2 ^ 64 - 1

abbrev pub llong_max : ℕ
llong_max = 2 ^ 63 - 1

abbrev pub is_digit : ℕ → Bool
is_digit c = leb b'0' c && leb c b'9'

-- `do { *p-- = '0' + v % 10; v /= 10; } while (v);` on fuel: `text` is what stands from p + 1 on.
unfoldable pub digits_loop : ℕ → ℕ → Bytes → Bytes
digits_loop zero v text = text
digits_loop (suc f) v text =
    let rest = digits_loop f (v / 10) ((b'0' + v % 10) ∷ text) in
    if v / 10 == 0 then (b'0' + v % 10) ∷ text else rest

abbrev magnitude : ℤ → ℕ
magnitude (pos n) = n
magnitude (negsuc n) = suc n

abbrev signed_text : ℤ → Bytes → Bytes
signed_text (pos n) text = text
signed_text (negsuc n) text = b'-' ∷ text

-- The bytes that `ll2string` stores in a buffer of `len` bytes, before the final 0; the result is
-- their number.
unfoldable pub ll2string : ℕ → ℤ → Bytes
unfolding digits_loop
ll2string len value =
    let p = signed_text value (digits_loop (suc (magnitude value)) (magnitude value) []) in
    let l = length p in if len == 0 then [] else if ltb len (l + 1) then take (len - 1) p else p

-- The loop over the digits after the first: `none` is WHEAT_WRONG.
unfoldable pub string2ll_loop : ℕ → Bytes → Option ℕ
string2ll_loop v [] = some v
string2ll_loop v (c ∷ cs) =
    let rest = string2ll_loop (v * 10 + (c - b'0')) cs in
    if is_digit c
    then if ltb (ullong_max / 10) v
      then none
      else if ltb (ullong_max - (c - b'0')) (v * 10)
      then none
      else rest
    else none

-- The last tests, on the sign and the number read.
abbrev signed_value : Bool → Option ℕ → Option ℤ
signed_value negative none = none
signed_value true (some v) =
    if ltb (llong_max + 1) v then none else some (if v == 0 then pos 0 else negsuc (v - 1))
signed_value false (some v) = if ltb llong_max v then none else some (pos v)

abbrev first_digit : Bool → Bytes → Option ℤ
first_digit negative [] = none
first_digit negative (c ∷ cs) =
    if leb b'1' c && leb c b'9' then signed_value negative (string2ll_loop (c - b'0') cs) else none

unfoldable pub string2ll : Bytes → Option ℤ
unfolding string2ll_loop
string2ll [] = none
string2ll (c ∷ []) =
    if c == b'0' then some (pos 0) else if c == b'-' then none else first_digit false (c ∷ [])
string2ll (c ∷ d ∷ s) =
    if c == b'-' then first_digit true (d ∷ s) else first_digit false (c ∷ d ∷ s)

-- `while (i /= 10) len++;` on fuel.
unfoldable pub int_len_loop : ℕ → ℕ → ℕ → ℕ
int_len_loop zero i len = len
int_len_loop (suc f) i len =
    let rest = int_len_loop f (i / 10) (len + 1) in if i / 10 == 0 then len else rest

unfoldable pub get_int_len : ℕ → ℕ
unfolding int_len_loop
get_int_len i = int_len_loop (suc i) i 1
