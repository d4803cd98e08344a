-- ===== src/WheatRedis/Counts.antt =====
-- How many tokens each instance has, under src/app/wheatredis/hashkit.c.
use mathlib.Core.Path.{subst}
use wheatserver.Common.{
  lt-cases, ℕ, zero, suc, ◌+◌, ◌%◌, ◌≤◌, ◌<◌, ◌≡◌, ◌≢◌, refl, sym, ap, ◌∙◌, Bool, true, false, ◌==◌,
  if◌then◌else◌, arith, inl, inr, Bool-cases, ==_iff,
}
use wheatserver.WheatRedis.Hash.{Token, Tokens, Ring, uint32_max, write, deal, deal_one}

abbrev pub one_if : Bool → ℕ
one_if b = if b then 1 else 0

-- How many of the first `n` tokens are the instance `x`'s.
abbrev pub count : ℕ → ℕ → Tokens → ℕ
count x zero ts = 0
count x (suc n) ts = one_if ((ts n).instance_id == x) + count x n ts

pub write-here : {A : Type 0} (cells : ℕ → A) (p q : ℕ) (v : A) → q ≡ p → write cells p v q ≡ v
write-here cells p q v e = let same : (q == p) ≡ true = ground (arith, e) in rw same refl

pub write-there :
    {A : Type 0} (cells : ℕ → A) (p q : ℕ) (v : A) → q ≢ p → write cells p v q ≡ cells q
write-there cells p q v ne = let other : (q == p) ≡ false = ground (arith, ne) in rw other refl

pub count-past :
    (x n p : ℕ) (ts : Tokens) (t : Token) → n ≤ p → count x n (write ts p t) ≡ count x n ts
count-past x zero p ts t h = refl
count-past x (suc n) p ts t h =
    rw (write-there ts p n t (λ e. omega (arith, h, e)), count-past x n p ts t (omega (arith, h)))
      refl

-- A write takes one from the old owner and gives one to the new.
pub count-write :
    (x n p : ℕ) (ts : Tokens) (t : Token)
    → p < n
    → count x n (write ts p t) + one_if ((ts p).instance_id == x)
      ≡ count x n ts + one_if (t.instance_id == x)
count-write x zero p ts t h = absurd (omega (arith, h))
count-write x (suc n) p ts t h = elim (lt-cases p n) [
  | inl less ↦
      rw (write-there ts p n t (λ e. omega (arith, less, e)))
        (omega (arith, count-write x n p ts t less))
  | inr more ↦
      let same : n ≡ p = omega (arith, h, more) in
      rw (write-here ts p n t same, count-past x n p ts t more) (rw same (omega arith))
]

-- What the first loop has made of the first `i` tokens.
pub record Dealt (i ninstance : ℕ) (s : Ring) : Type 0 where
  pub places : (p : ℕ) → p < i → (s.tokens p).pos ≡ p
  pub owners : (p : ℕ) → p < i → (s.tokens p).instance_id ≡ p % ninstance
  pub unset : (p : ℕ) → p < i → (s.tokens p).next_instance ≡ uint32_max
  pub counts : (x : ℕ) → s.ntokens x ≡ count x i s.tokens

-- A token is the written one, or an earlier one that stays.
at_write :
    (ts : Tokens) (i : ℕ) (t : Token) (P : ℕ → Token → Type 0)
    → ((p : ℕ) → p < i → P p (ts p))
    → P i t
    → (p : ℕ) → p < suc i
    → P p (write ts i t p)
at_write ts i t P old new p h = elim (lt-cases p i) [
  | inl less ↦
      subst (λ v. P p v) (sym (write-there ts i p t (λ e. omega (arith, less, e)))) (old p less)
  | inr more ↦
      let same : p ≡ i = omega (arith, h, more) in
      subst (λ v. P p v) (sym (write-here ts i p t same)) (subst (λ q. P q t) (sym same) new)
]

pub other_ne : (a b : ℕ) → (a == b) ≡ false → b ≢ a
other_ne a b h e = ground (arith, h, e)

counts-deal :
    (i ninstance x : ℕ) (s : Ring)
    → ((x : ℕ) → s.ntokens x ≡ count x i s.tokens)
    → (deal_one i ninstance s).ntokens x ≡ count x (suc i) (deal_one i ninstance s).tokens
counts-deal i ninstance x s c = elim (Bool-cases (i % ninstance == x)) [
  | inl is_its ↦
      let owner : x ≡ i % ninstance = sym ((==_iff (i % ninstance) x).0 is_its) in
      rw (write-here s.tokens i i _ refl, count-past x i i s.tokens _ (omega arith), is_its)
        (write-here s.ntokens (i % ninstance) x _ owner
          ∙ omega (arith, c (i % ninstance), ap (λ y. count y i s.tokens) owner))
  | inr other ↦
      rw (write-here s.tokens i i _ refl, count-past x i i s.tokens _ (omega arith), other)
        (write-there s.ntokens (i % ninstance) x _ (other_ne (i % ninstance) x other)
          ∙ omega (arith, c x))
]

deal_one-Dealt :
    (i ninstance : ℕ) (s : Ring)
    → Dealt i ninstance s
    → Dealt (suc i) ninstance (deal_one i ninstance s)
deal_one-Dealt i ninstance s d =
    let t : Token = record { pos = i; instance_id = i % ninstance; next_instance = uint32_max } in
    record {
      places = at_write s.tokens i t (λ p v. v.pos ≡ p) d.places refl;
      owners = at_write s.tokens i t (λ p v. v.instance_id ≡ p % ninstance) d.owners refl;
      unset = at_write s.tokens i t (λ p v. v.next_instance ≡ uint32_max) d.unset refl;
      counts = λ x. counts-deal i ninstance x s d.counts;
    }

renumber : {ninstance : ℕ} {s : Ring} (i j : ℕ) → i ≡ j → Dealt i ninstance s → Dealt j ninstance s
renumber {ninstance} {s} i j e d = subst (λ n. Dealt n ninstance s) e d

deal-Dealt :
    (m i ninstance : ℕ) (s : Ring)
    → Dealt i ninstance s
    → Dealt (i + m) ninstance (deal m i ninstance s)
unfolding deal
deal-Dealt zero i ninstance s d = renumber i (i + 0) (omega arith) d
deal-Dealt (suc m) i ninstance s d = renumber (i + 1 + m) (i + suc m) (omega arith) (
    deal-Dealt m (i + 1) ninstance (deal_one i ninstance s)
      (renumber (suc i) (i + 1) (omega arith) (deal_one-Dealt i ninstance s d)))

-- The first loop deals the tokens out in turn, and counts them.
pub deal_lem :
    (n ninstance : ℕ) (s : Ring)
    → ((x : ℕ) → s.ntokens x ≡ 0)
    → Dealt n ninstance (deal n 0 ninstance s)
deal_lem n ninstance s z = renumber (0 + n) n (omega arith) (
    deal-Dealt n 0 ninstance s (record {
      places = λ p h. absurd (omega (arith, h));
      owners = λ p h. absurd (omega (arith, h));
      unset = λ p h. absurd (omega (arith, h));
      counts = z;
    }))
