-- ===== src/Number/Parse.antt =====
-- `string2ll` of src/util.c accepts exactly the texts that `ll2string` writes, and gives back the
-- number.
use mathlib.Core.Option.{some-injective}
use wheatserver.Common.{
  ℕ, zero, suc, ◌+◌, ◌-◌, ◌*◌, ◌^◌, ◌≤◌, ◌<◌, ◌≡◌, refl, ap, sym, ◌∙◌, Bool, true, false, ◌&&◌, [],
  ◌∷◌, ◌++◌, leb, ◌==◌, if◌then◌else◌, length, arith, inl, inr, ℤ, pos, negsuc, Bool-cases, ==_iff,
  Option, none, some, take_all,
}
use wheatserver.Slice.{Bytes}
use wheatserver.Number.{string2ll, string2ll_loop, signed_value, first_digit, is_digit, ll2string}
use wheatserver.Number.Decimal.{
  decimal, decimal_small, value_from, le-value_from, AllDigits, decimal-value_from, Leading,
  decimal-Leading,
}
use wheatserver.Number.Print.{signed_decimal, ll2string_lem}

-- The integers of a `long long`.
abbrev pub InRange : ℤ → Type 0
InRange (pos n) = n < 2 ^ 63
InRange (negsuc n) = n < 2 ^ 63

string2ll_loop-some :
    (v : ℕ) (cs : Bytes)
    → AllDigits cs
    → value_from v cs < 2 ^ 64
    → string2ll_loop v cs ≡ some (value_from v cs)
unfolding string2ll_loop
string2ll_loop-some v [] a h = refl
string2ll_loop-some v (c ∷ cs) (d, a) h =
    let k = le-value_from (v * 10 + (c - b'0')) cs in
    ground (arith, string2ll_loop-some (v * 10 + (c - b'0')) cs a h, k)

-- The loop succeeds only on digits, and reads their value.
string2ll_loop-digits :
    (v : ℕ) (cs : Bytes) (n : ℕ)
    → string2ll_loop v cs ≡ some n
    → AllDigits cs × (n ≡ value_from v cs)
unfolding string2ll_loop
string2ll_loop-digits v [] n e = (tt, ground arith)
string2ll_loop-digits v (c ∷ cs) n e =
    let (d, rest) = digit_read (is_digit c) _ _ (string2ll_loop (v * 10 + (c - b'0')) cs) e in
    let (a, q) = string2ll_loop-digits (v * 10 + (c - b'0')) cs n rest in ((d, a), q)
  where
    digit_read :
        (d o p : Bool) (rest : Option ℕ)
        → (if d then if o then none else if p then none else rest else none) ≡ some n
        → (d ≡ true) × (rest ≡ some n)
    digit_read d o p rest e = ground arith

-- Digits after a first one from 1 to 9 are the text of what they stand for.
leading_text :
    (c : ℕ) (cs : Bytes)
    → (leb b'1' c && leb c b'9') ≡ true
    → AllDigits cs
    → decimal (value_from (c - b'0') cs) ≡ c ∷ cs
leading_text c cs d a =
    decimal-value_from (c - b'0') cs (ground arith) a
    ∙ ap (λ l. l ++ cs) (decimal_small (c - b'0') (ground arith))
    ∙ ap (λ k. k ∷ cs) (digit_back c d)
  where
    digit_back : (c : ℕ) → (leb b'1' c && leb c b'9') ≡ true → b'0' + (c - b'0') ≡ c
    digit_back c d = ground arith

-- Success after the sign.
first_digit-some :
    (negative : Bool) (s : Bytes) (z : ℤ)
    → first_digit negative s ≡ some z
    → (v : ℕ) × (s ≡ decimal v) × (0 < v) × (signed_value negative (some v) ≡ some z)
first_digit-some negative [] z e = cc
first_digit-some negative (c ∷ cs) z e = elim (Bool-cases (leb b'1' c && leb c b'9')) [
  | inl d ↦ after d (string2ll_loop (c - b'0') cs) refl (rw d at e)
  | inr d ↦ cc (rw d at e)
]
  where
    positive : (c : ℕ) → (leb b'1' c && leb c b'9') ≡ true → 0 < c - b'0'
    positive c d = ground arith

    after :
        (leb b'1' c && leb c b'9') ≡ true
        → (o : Option ℕ) → string2ll_loop (c - b'0') cs ≡ o
        → signed_value negative o ≡ some z
        → (v : ℕ) × (c ∷ cs ≡ decimal v) × (0 < v) × (signed_value negative (some v) ≡ some z)
    after d none q r = cc
    after d (some v) q r =
        let (a, value) = string2ll_loop-digits (c - b'0') cs v q in
        (
          v,
          sym (ap decimal value ∙ leading_text c cs d a),
          omega (arith, value, le-value_from (c - b'0') cs, positive c d),
          r,
        )

positive_value : (v : ℕ) (z : ℤ) → signed_value false (some v) ≡ some z → (z ≡ pos v) × (v < 2 ^ 63)
positive_value v z e = ground arith

negative_value :
    (v : ℕ) (z : ℤ)
    → 0 < v
    → signed_value true (some v) ≡ some z
    → (z ≡ negsuc (v - 1)) × (v ≤ 2 ^ 63)
negative_value v z h e = ground arith

-- What the two forms of success say of the whole text.
positive_text :
    (s : Bytes) (z : ℤ) → first_digit false s ≡ some z → (s ≡ signed_decimal z) × InRange z
unfolding signed_decimal
positive_text s z e =
    let (v, t, h, r) = first_digit-some false s z e in
    let (q, few) = positive_value v z r in rw q (t, few)

negative_text :
    (s : Bytes) (z : ℤ) → first_digit true s ≡ some z → (b'-' ∷ s ≡ signed_decimal z) × InRange z
unfolding signed_decimal
negative_text s z e =
    let (v, t, h, r) = first_digit-some true s z e in
    let (q, few) = negative_value v z h r in
    let m : v ≡ suc (v - 1) = omega arith in rw q (ap (◌∷◌ b'-') (t ∙ ap decimal m), omega arith)

zero_text_lem :
    (c : ℕ) (z : ℤ) → c ≡ b'0' → some (pos 0) ≡ some z → (c ∷ [] ≡ signed_decimal z) × InRange z
unfolding signed_decimal
zero_text_lem c z k e =
    rw (← some-injective _ _ e)
      (ap (λ x. x ∷ []) k ∙ sym (decimal_small 0 (omega arith)), omega arith)

-- `string2ll` accepts no text but that of a number of a `long long`, and returns that number.
pub string2ll_sound :
    (s : Bytes) (z : ℤ) → string2ll s ≡ some z → (s ≡ signed_decimal z) × InRange z
unfolding string2ll
string2ll_sound [] z e = cc
string2ll_sound (c ∷ []) z e = elim (Bool-cases (c == b'0')) [
  | inl zero_text ↦ zero_text_lem c z ((==_iff c b'0').0 zero_text) (rw zero_text at e)
  | inr k ↦ elim (Bool-cases (c == b'-')) [
    | inl m ↦ cc (rw (k, m) at e)
    | inr m ↦ positive_text (c ∷ []) z (rw (k, m) at e)
  ]
]
string2ll_sound (c ∷ d ∷ s) z e = elim (Bool-cases (c == b'-')) [
  | inl m ↦ rw ((==_iff c b'-').0 m) (negative_text (d ∷ s) z (rw m at e))
  | inr m ↦ positive_text (c ∷ d ∷ s) z (rw m at e)
]

first_digit-decimal :
    (negative : Bool) (n : ℕ) (l : Leading n)
    → n < 2 ^ 64
    → first_digit negative (l.first ∷ l.others) ≡ signed_value negative (some n)
first_digit-decimal negative n l h = rw (
  in_range l.first l.low l.high,
  string2ll_loop-some (l.first - b'0') l.others l.digits (rw l.value h),
  l.value,
)
  where
    in_range : (c : ℕ) → b'1' ≤ c → c ≤ b'9' → (leb b'1' c && leb c b'9') ≡ true
    in_range c lo hi = ground arith

string2ll-first_digit :
    (c : ℕ) (cs : Bytes) → b'1' ≤ c → string2ll (c ∷ cs) ≡ first_digit false (c ∷ cs)
unfolding string2ll
string2ll-first_digit c [] h = rw (not_zero, not_minus)
  where
    not_zero : (c == b'0') ≡ false
    not_zero = ground arith

    not_minus : (c == b'-') ≡ false
    not_minus = ground arith
string2ll-first_digit c (d ∷ cs) h = rw not_minus
  where
    not_minus : (c == b'-') ≡ false
    not_minus = ground arith

-- Of every number of a `long long`, `string2ll` accepts the text, and returns the number.
pub string2ll_complete : (z : ℤ) → InRange z → string2ll (signed_decimal z) ≡ some z
unfolding signed_decimal
string2ll_complete (pos zero) h = rw (decimal_small 0 (omega arith)) (unfold string2ll in refl)
string2ll_complete (pos (suc n)) h =
    let l = decimal-Leading (suc n) (omega arith) in
    rw l.splits (
      string2ll-first_digit l.first l.others l.low
      ∙ first_digit-decimal false (suc n) l (omega arith)
      ∙ ground arith)
string2ll_complete (negsuc n) h =
    let l = decimal-Leading (suc n) (omega arith) in
    rw l.splits
      (unfold string2ll in (first_digit-decimal true (suc n) l (omega arith) ∙ in_range n h))
  where
    in_range : (n : ℕ) → n < 2 ^ 63 → signed_value true (some (suc n)) ≡ some (negsuc n)
    in_range n h = ground arith

-- What `ll2string` prints into a buffer that holds the text and its final 0 is read back.
pub string2ll-ll2string :
    (len : ℕ) (z : ℤ)
    → InRange z
    → length (signed_decimal z) < len
    → string2ll (ll2string len z) ≡ some z
string2ll-ll2string len z h room =
    rw (ll2string_lem len z, take_all (len - 1) (signed_decimal z) (omega arith))
      (string2ll_complete z h)
