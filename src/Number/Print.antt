-- ===== src/Number/Print.antt =====
-- `ll2string` and `getIntLen` of src/util.c write, and count, the decimal digits.
use wheatserver.Common.{
  ℕ, zero, suc, ◌+◌, ◌-◌, ◌/◌, ◌%◌, ◌≤◌, ◌<◌, ◌≡◌, refl, ap, sym, ◌∙◌, true, false, [], ◌∷◌, ◌++◌,
  ltb, ◌==◌, if◌then◌else◌, length, take, arith, append-nil, take_all, inl, inr, append_assoc,
  length-append, ℤ, Bool-cases,
}
use wheatserver.Slice.{Bytes}
use wheatserver.Number.{digits_loop, ll2string, int_len_loop, get_int_len, magnitude, signed_text}
use wheatserver.Number.Decimal.{decimal, decimal_small, decimal_large}

small : (n : ℕ) → (n / 10 == 0) ≡ true → n < 10
small n e = ground arith

large : (n : ℕ) → (n / 10 == 0) ≡ false → 10 ≤ n
large n e = ground arith

digits_loop-decimal : (f n : ℕ) (text : Bytes) → n < f → digits_loop f n text ≡ decimal n ++ text
unfolding digits_loop
digits_loop-decimal zero n text h = absurd (omega arith)
digits_loop-decimal (suc f) n text h = elim (Bool-cases (n / 10 == 0)) [
  | inl e ↦
      rw (e, decimal_small n (small n e)) (ap (λ k. (b'0' + k) ∷ text) (omega (arith, small n e)))
  | inr e ↦
      rw (e, decimal_large n (large n e))
        (digits_loop-decimal f (n / 10) _ (omega (arith, large n e))
          ∙ sym (append_assoc (decimal (n / 10)) _ text))
]

suc-ne-zero : (k : ℕ) → (suc k == 0) ≡ false
suc-ne-zero k = ground arith

-- The text of a number: the sign and the decimal digits.
unfoldable pub signed_decimal : ℤ → Bytes
signed_decimal z = signed_text z (decimal (magnitude z))

signed_text-append : (z : ℤ) (x : Bytes) → signed_text z (x ++ []) ≡ signed_text z x
signed_text-append z x = ap (signed_text z) (append-nil x)

-- In a buffer with room for the text and the final 0, `ll2string` writes the text of the number;
-- in a smaller one, its first `len - 1` bytes.
pub ll2string_lem : (len : ℕ) (z : ℤ) → ll2string len z ≡ take (len - 1) (signed_decimal z)
unfolding ll2string signed_decimal
ll2string_lem len z =
    let n = magnitude z in
    rw (digits_loop-decimal (suc n) n [] (omega arith), signed_text-append z (decimal n))
      (fit len (signed_text z (decimal n)))
  where
    fit :
        (len : ℕ) (p : Bytes)
        → (if len == 0 then [] else if ltb len (length p + 1) then take (len - 1) p else p)
          ≡ take (len - 1) p
    fit zero p = refl
    fit (suc k) p = elim (Bool-cases (ltb (suc k) (length p + 1))) [
      | inl e ↦ rw (suc-ne-zero k, e)
      | inr e ↦ rw (suc-ne-zero k, e) (sym (take_all (suc k - 1) p (ground arith)))
    ]

int_len_loop-decimal : (f n len : ℕ) → n < f → int_len_loop f n (len + 1) ≡ len + length (decimal n)
unfolding int_len_loop
int_len_loop-decimal zero n len h = absurd (omega arith)
int_len_loop-decimal (suc f) n len h = elim (Bool-cases (n / 10 == 0)) [
  | inl e ↦ rw (e, decimal_small n (small n e)) (omega arith)
  | inr e ↦
      rw
        (
          e,
          decimal_large n (large n e),
          int_len_loop-decimal f (n / 10) (len + 1) (omega (arith, large n e)),
        )
        (omega (arith, length-append (decimal (n / 10)) ((b'0' + n % 10) ∷ [])))
]

-- `getIntLen` counts the decimal digits.
pub get_int_len-decimal : (n : ℕ) → get_int_len n ≡ length (decimal n)
unfolding get_int_len
get_int_len-decimal n = int_len_loop-decimal (suc n) n 0 (omega arith) ∙ omega arith
