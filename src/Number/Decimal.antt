-- ===== src/Number/Decimal.antt =====
-- The decimal text of a number, and the number that a text of digits stands for: the description
-- that the loops of src/util.c and the parsers of the protocols are held against.
use mathlib.Core.Path.{ap₂, subst}
use wheatserver.Common.{
  ℕ, zero, suc, ◌+◌, ◌-◌, ◌*◌, ◌/◌, ◌%◌, ◌≤◌, ◌<◌, ◌≡◌, refl, ap, sym, ◌∙◌, true, false, [], ◌∷◌,
  ◌++◌, ltb, if◌then◌else◌, arith, append-nil, lt-cases, inl, inr, append_assoc, lt→ltb,
}
use wheatserver.Slice.{Bytes}
use wheatserver.Number.{is_digit}

-- A digit is b'0' + d with d below 10.
decimal_fuel : ℕ → ℕ → Bytes
decimal_fuel zero n = []
decimal_fuel (suc f) n =
    let high = decimal_fuel f (n / 10) in
    if ltb n 10 then (b'0' + n) ∷ [] else high ++ ((b'0' + n % 10) ∷ [])

unfoldable pub decimal : ℕ → Bytes
unfolding decimal_fuel
decimal n = decimal_fuel (suc n) n

-- The number read so far, and after some more digits.
abbrev pub value_from : ℕ → Bytes → ℕ
value_from acc [] = acc
value_from acc (c ∷ cs) = value_from (acc * 10 + (c - b'0')) cs

abbrev pub AllDigits : Bytes → Type 0
AllDigits [] = Unit
AllDigits (c ∷ cs) = (is_digit c ≡ true) × AllDigits cs

not-ltb : (n : ℕ) → 10 ≤ n → ltb n 10 ≡ false
not-ltb n h = ground arith

decimal_fuel-eq : (f g n : ℕ) → n < f → n < g → decimal_fuel f n ≡ decimal_fuel g n
unfolding decimal_fuel
decimal_fuel-eq zero g n h k = absurd (omega arith)
decimal_fuel-eq (suc f) zero n h k = absurd (omega arith)
decimal_fuel-eq (suc f) (suc g) n h k = elim (lt-cases n 10) [
  | inl p ↦ rw (lt→ltb n 10 p)
  | inr p ↦ rw (decimal_fuel-eq f g (n / 10) (omega arith) (omega arith))
]

pub decimal_small : (n : ℕ) → n < 10 → decimal n ≡ (b'0' + n) ∷ []
unfolding decimal
decimal_small n h = rw (decimal_fuel, lt→ltb n 10 h)

pub decimal_large : (n : ℕ) → 10 ≤ n → decimal n ≡ decimal (n / 10) ++ ((b'0' + n % 10) ∷ [])
unfolding decimal
decimal_large n h = rw (
  decimal_fuel,
  not-ltb n h,
  decimal_fuel-eq n (suc (n / 10)) (n / 10) (omega arith) (omega arith),
)

-- One more digit.
pub decimal-step :
    (v d : ℕ) → 0 < v → d < 10 → decimal (v * 10 + d) ≡ decimal v ++ ((b'0' + d) ∷ [])
decimal-step v d pos h =
    decimal_large (v * 10 + d) (omega arith)
    ∙ ap₂ (λ x y. decimal x ++ ((b'0' + y) ∷ [])) (omega arith) (omega arith)

-- Induction over the digits of a number.
decimal_induction {ℓ} :
    (P : ℕ → Bytes → Type ℓ)
    → ((n : ℕ) → n < 10 → P n ((b'0' + n) ∷ []))
    → ((n : ℕ)
        → 10 ≤ n
        → P (n / 10) (decimal (n / 10))
        → P n (decimal (n / 10) ++ ((b'0' + n % 10) ∷ [])))
    → (f n : ℕ) → n < f
    → P n (decimal n)
decimal_induction P small large zero n h = absurd (omega arith)
decimal_induction P small large (suc f) n h = elim (lt-cases n 10) [
  | inl p ↦ rw (decimal_small n p) (small n p)
  | inr p ↦
      rw (decimal_large n p) (large n p (decimal_induction P small large f (n / 10) (omega arith)))
]

AllDigits-append :
    (xs : Bytes) (c : ℕ) → AllDigits xs → is_digit c ≡ true → AllDigits (xs ++ (c ∷ []))
AllDigits-append [] c a d = (d, tt)
AllDigits-append (x ∷ xs) c (e, a) d = (e, AllDigits-append xs c a d)

is_digit-add : (d : ℕ) → d < 10 → is_digit (b'0' + d) ≡ true
is_digit-add d h = ground arith

pub decimal-AllDigits : (n : ℕ) → AllDigits (decimal n)
decimal-AllDigits n =
    decimal_induction (λ n ds. AllDigits ds) (λ n h. (is_digit-add n h, tt))
      (λ n h ih. AllDigits-append (decimal (n / 10)) _ ih (is_digit-add (n % 10) (omega arith)))
      (suc n) n (omega arith)

value_from-append :
    (acc : ℕ) (xs : Bytes) (c : ℕ)
    → value_from acc (xs ++ (c ∷ [])) ≡ value_from acc xs * 10 + (c - b'0')
value_from-append acc [] c = refl
value_from-append acc (x ∷ xs) c = value_from-append (acc * 10 + (x - b'0')) xs c

-- The text of a number stands for it.
pub value-decimal : (n : ℕ) → value_from 0 (decimal n) ≡ n
value-decimal n =
    decimal_induction (λ n ds. value_from 0 ds ≡ n) (λ n h. omega arith)
      (λ n h ih. value_from-append 0 (decimal (n / 10)) _ ∙ omega (arith, ih)) (suc n) n
      (omega arith)

-- Digits that follow a positive number extend its text.
pub decimal-value_from :
    (v : ℕ) (cs : Bytes) → 0 < v → AllDigits cs → decimal (value_from v cs) ≡ decimal v ++ cs
decimal-value_from v [] pos a = sym (append-nil (decimal v))
decimal-value_from v (c ∷ cs) pos (d, a) =
    decimal-value_from (v * 10 + (c - b'0')) cs (omega arith) a
    ∙ ap (λ l. l ++ cs) (decimal-step v (c - b'0') pos (ground arith))
    ∙ append_assoc (decimal v) _ cs
    ∙ ap (λ k. decimal v ++ (k ∷ cs)) (digit_back c d)
  where
    digit_back : (c : ℕ) → is_digit c ≡ true → b'0' + (c - b'0') ≡ c
    digit_back c d = ground arith

pub le-value_from : (v : ℕ) (cs : Bytes) → v ≤ value_from v cs
le-value_from v [] = omega arith
le-value_from v (c ∷ cs) = omega (arith, le-value_from (v * 10 + (c - b'0')) cs)

-- The text of a positive number begins with a digit from 1 to 9.
pub record Leading (n : ℕ) : Type 0 where
  pub first : ℕ
  pub others : Bytes
  pub splits : decimal n ≡ first ∷ others
  pub low : b'1' ≤ first
  pub high : first ≤ b'9'
  pub digits : AllDigits others
  pub value : value_from (first - b'0') others ≡ n

pub decimal-Leading : (n : ℕ) → 0 < n → Leading n
decimal-Leading n pos = go (decimal n) refl
  where
    starts :
        (n : ℕ)
        → 0 < n
        → (first : ℕ) × (others : Bytes) × (decimal n ≡ first ∷ others)
          × (b'1' ≤ first)
          × (first ≤ b'9')
    starts n pos =
        decimal_induction
          (λ n ds.
            0 < n
            → (first : ℕ) × (others : Bytes) × (ds ≡ first ∷ others)
              × (b'1' ≤ first)
              × (first ≤ b'9'))
          (λ n h p. (b'0' + n, [], refl, omega arith, omega arith))
          (λ n h ih p.
            let (c, cs, e, lo, hi) = ih (omega arith) in
            (c, cs ++ ((b'0' + n % 10) ∷ []), ap (λ l. l ++ ((b'0' + n % 10) ∷ [])) e, lo, hi))
          (suc n) n (omega arith) pos

    zero_start : (c : ℕ) → c - b'0' ≡ 0 * 10 + (c - b'0')
    zero_start c = omega arith

    go : (ds : Bytes) → decimal n ≡ ds → Leading n
    go ds e =
        let (c, cs, s, lo, hi) = starts n pos in
        record {
          first = c;
          others = cs;
          splits = s;
          low = lo;
          high = hi;
          digits = (subst AllDigits s (decimal-AllDigits n)).1;
          value =
              ap (λ k. value_from k cs) (zero_start c)
              ∙ sym (ap (value_from 0) s)
              ∙ value-decimal n;
        }
