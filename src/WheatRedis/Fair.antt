-- ===== src/WheatRedis/Fair.antt =====
-- How evenly the first loop of src/app/wheatredis/hashkit.c deals the tokens out.
use mathlib.Core.Path.{subst}
use native.Mathlib.Nat.{
  mod-add-div', add-mul-mod_self_right, mod-eq_of_lt, suc-mul, mul-le-mul_right,
}
use wheatserver.Common.{
  ℕ, zero, suc, ◌+◌, ◌*◌, ◌/◌, ◌%◌, ◌≤◌, ◌<◌, ◌≡◌, ◌≢◌, sym, ap, ◌∙◌, ◌==◌, arith, inl, inr,
  lt-cases, Bool-cases, ==_iff,
}
use wheatserver.WheatRedis.Hash.{Ring}
use wheatserver.WheatRedis.Counts.{one_if, count, Dealt, other_ne}

-- `c` is how many of the numbers below `n` leave the rest `x` by `k`.
record IsShare (k x n c : ℕ) : Type 0 where
  low : n ≤ c * k + x
  high : c * k + x + 1 ≤ n + k

grow-IsShare : (k x n c : ℕ) → x < k → n % k ≡ x → IsShare k x n c → IsShare k x (suc n) (suc c)
grow-IsShare k x n c h e s =
    let q = n / k in
    let parts : x + q * k ≡ n = ap (λ r. r + q * k) (sym e) ∙ mod-add-div' n k in
    let below : c * k ≤ q * k = elim (lt-cases q c) [
      | inl less ↦ absurd (omega (arith, suc-mul q k, mul-le-mul_right k less, s.high, parts))
      | inr more ↦ mul-le-mul_right k more
    ] in
    record {
      low = omega (arith, suc-mul c k, s.low, h);
      high = omega (arith, suc-mul c k, below, parts);
    }

keep-IsShare : (k x n c : ℕ) → x < k → n % k ≢ x → IsShare k x n c → IsShare k x (suc n) c
keep-IsShare k x n c h ne s = record {
  low = elim (lt-cases n (c * k + x)) [
    | inl less ↦ less
    | inr more ↦
        let parts : n ≡ x + c * k = omega (arith, s.low, more) in
        absurd (ne (ap (λ m. m % k) parts ∙ add-mul-mod_self_right x c k ∙ mod-eq_of_lt h))
  ];
  high = omega (arith, s.high);
}

recount : {k x n : ℕ} (a b : ℕ) → a ≡ b → IsShare k x n a → IsShare k x n b
recount {k} {x} {n} a b e s = subst (λ c. IsShare k x n c) e s

count-IsShare :
    (k x n : ℕ) (s : Ring)
    → x < k
    → ((p : ℕ) → p < n → (s.tokens p).instance_id ≡ p % k)
    → IsShare k x n (count x n s.tokens)
count-IsShare k x zero s h owned = record { low = omega arith; high = omega (arith, h) }
count-IsShare k x (suc n) s h owned =
    let below = count-IsShare k x n s h (λ p l. owned p (omega (arith, l))) in
    let owner = owned n (omega arith) in
    elim (Bool-cases ((s.tokens n).instance_id == x)) [
      | inl mine ↦
          recount (suc (count x n s.tokens)) (count x (suc n) s.tokens)
            (omega (arith, ap one_if mine))
            (grow-IsShare k x n _ h (sym owner ∙ (==_iff _ _).0 mine) below)
      | inr other ↦
          recount (count x n s.tokens) (count x (suc n) s.tokens) (omega (arith, ap one_if other))
            (keep-IsShare k x n _ h (λ e. other_ne _ _ other (sym (owner ∙ e))) below)
    ]

-- The tokens are dealt out as evenly as can be.
pub fair_counts :
    (k n x y : ℕ) (s : Ring) → Dealt n k s → x < k → y < k → s.ntokens x ≤ s.ntokens y + 1
fair_counts k n x y s d h l =
    let a = count x n s.tokens in
    let b = count y n s.tokens in
    let u = count-IsShare k x n s h d.owners in
    let v = count-IsShare k y n s l d.owners in
    let fair : a ≤ b + 1 = elim (lt-cases (suc b) a) [
      | inl more ↦
          absurd (
            omega
              (arith, mul-le-mul_right k more, suc-mul (suc b) k, suc-mul b k, u.high, v.low, l))
      | inr enough ↦ omega (arith, enough)
    ] in
    omega (arith, fair, d.counts x, d.counts y)
