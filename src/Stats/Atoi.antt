-- ===== src/Stats/Atoi.antt =====
-- That the numbers which the workers of src/stats.c print are the ones that the master reads.
use wheatserver.Common.{
  ℕ, suc, ◌+◌, ◌-◌, ◌*◌, ◌^◌, ◌<◌, ◌≡◌, refl, ap, ◌∙◌, true, false, [], ◌∷◌, ◌==◌, if_cases, ltb,
  arith, ℤ, pos, negsuc,
}
use wheatserver.Slice.{Bytes}
use wheatserver.Number.{is_digit}
use wheatserver.Number.Decimal.{decimal, value_from, AllDigits, decimal-AllDigits, value-decimal}
use wheatserver.Number.Print.{signed_decimal}
use wheatserver.Stats.{digits_value, negated, is_space, atoi, to_word, of_word}

digits_value-value_from : (v : ℕ) (cs : Bytes) → AllDigits cs → digits_value v cs ≡ value_from v cs
digits_value-value_from v [] h = refl
digits_value-value_from v (c ∷ cs) h =
    rw (h.0) (digits_value-value_from (v * 10 + (c - b'0')) cs h.1)

-- A text of digits has no space and no sign.
atoi-digits : (cs : Bytes) → AllDigits cs → atoi cs ≡ pos (value_from 0 cs)
unfolding atoi
atoi-digits [] h = refl
atoi-digits (c ∷ cs) h =
    let digit : is_digit c ≡ true = h.0 in
    let no_space : is_space c ≡ false = ground (arith, digit) in
    let no_minus : (c == b'-') ≡ false = ground (arith, digit) in
    let no_plus : (c == b'+') ≡ false = ground (arith, digit) in
    rw (no_space, no_minus, no_plus) (ap pos (digits_value-value_from 0 (c ∷ cs) h))

pub atoi-decimal : (n : ℕ) → atoi (decimal n) ≡ pos n
atoi-decimal n = atoi-digits (decimal n) (decimal-AllDigits n) ∙ ap pos (value-decimal n)

pub atoi-signed_decimal : (z : ℤ) → atoi (signed_decimal z) ≡ z
unfolding signed_decimal atoi
atoi-signed_decimal (pos n) = atoi-decimal n
atoi-signed_decimal (negsuc n) = ap negated (
    digits_value-value_from 0 (decimal (suc n)) (decimal-AllDigits (suc n)) ∙ value-decimal (suc n))

pub to_word-of_word : (n : ℕ) → n < 2 ^ 64 → to_word (of_word n) ≡ n
to_word-of_word n h =
    if_cases (λ z. to_word z ≡ n) (ltb n (2 ^ 63)) {x = pos n} {y = negsuc (2 ^ 64 - 1 - n)}
      (λ e. omega (arith, h)) (λ e. omega (arith, h))
