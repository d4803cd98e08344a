-- ===== src/WheatRedis/Picks.antt =====
-- What handleClientRequests of src/app/wheatredis/redis.c chooses.
use mathlib.Core.Path.{subst}
use wheatserver.Common.{
  ℕ, zero, suc, ◌≡◌, ◌⊎◌, inl, inr, refl, sym, Bool, true, false, Option, none, some, List, [], ◌∷◌,
  if◌then◌else◌, arith,
}
use wheatserver.WheatRedis.Hash.{Tokens}
use wheatserver.WheatRedis.Choose.{Instance, less, Choice, visit, iterate, or_else}
use wheatserver.WheatRedis.Best.{
  IsLive, IsBest, IsClean, IsLast, Also, dead-IsBest, dead-IsClean, dead-IsLast, some-IsLast,
  live-IsBest, live-IsClean,
}

-- The owners of the tokens that the loop looks at.
abbrev pub candidates : ℕ → Tokens → ℕ → List ℕ
candidates zero tokens t = []
candidates (suc n) tokens t = (tokens t).instance_id ∷ candidates n tokens (tokens t).next_instance

abbrev pub IsAmong : ℕ → List ℕ → Type 0
IsAmong x [] = zero ≡ suc zero
IsAmong x (y ∷ ys) = (x ≡ y) ⊎ IsAmong x ys

module _ {S : Type 0} (send : S → ℕ → Bool × S) (instances : ℕ → Instance) where
  -- What the local variables say of the instances seen.
  pub record Picks (Seen : ℕ → Type 0) (c : Choice S) : Type 0 where
    pub best : IsBest instances Seen c.reliability_instance
    pub clean : IsClean instances Seen c.nondirty_instance
    pub last : IsLast instances Seen c.reliability_instance c.instance

  visit-Picks :
      (Seen : ℕ → Type 0) (x : ℕ) (b : Bool) (c : Choice S)
      → (instances x).live ≡ b
      → Picks Seen c
      → Picks (Also instances Seen x) (visit send instances true (if b then some x else none) c)
  visit-Picks Seen x true c live p = record {
    best = live-IsBest instances Seen x c.reliability_instance live p.best;
    clean = live-IsClean instances Seen x c.nondirty_instance _ refl live p.clean;
    last = some-IsLast instances Seen x (Also instances Seen x) c.reliability_instance x;
  }
  visit-Picks Seen x false c dead p = record {
    best = dead-IsBest instances Seen x c.reliability_instance dead p.best;
    clean = dead-IsClean instances Seen x c.nondirty_instance dead p.clean;
    last = dead-IsLast instances Seen x c.reliability_instance;
  }

  -- What holds of the instances seen holds of the same instances described otherwise.
  same-IsBest :
      (P Q : ℕ → Type 0) (o : Option ℕ)
      → ((y : ℕ) → P y → Q y)
      → ((y : ℕ) → Q y → P y)
      → IsBest instances P o
      → IsBest instances Q o
  same-IsBest P Q none to from b = λ y s. b y (from y s)
  same-IsBest P Q (some r) to from (seen, live, best) =
      (to r seen, live, λ y s l. best y (from y s) l)

  same-IsClean :
      (P Q : ℕ → Type 0) (o : Option ℕ)
      → ((y : ℕ) → P y → Q y)
      → ((y : ℕ) → Q y → P y)
      → IsClean instances P o
      → IsClean instances Q o
  same-IsClean P Q none to from c = λ y s l. c y (from y s) l
  same-IsClean P Q (some r) to from (seen, live, clean) = (to r seen, live, clean)

  same-IsLast :
      (P Q : ℕ → Type 0) (o i : Option ℕ)
      → ((y : ℕ) → Q y → P y)
      → IsLast instances P o i
      → IsLast instances Q o i
  same-IsLast P Q none i from l = λ y s. l y (from y s)
  same-IsLast P Q (some r) i from l = tt

  abbrev pub OrAmong : (ℕ → Type 0) → List ℕ → ℕ → Type 0
  OrAmong Seen xs y = Seen y ⊎ IsAmong y xs

  regroup :
      (Seen : ℕ → Type 0) (x : ℕ) (xs : List ℕ) (y : ℕ)
      → OrAmong (Also instances Seen x) xs y
      → OrAmong Seen (x ∷ xs) y
  regroup Seen x xs y s = elim s [
    | inl t ↦ elim t [ inl u ↦ inl u | inr e ↦ inr (inl e) ]
    | inr a ↦ inr (inr a)
  ]

  ungroup :
      (Seen : ℕ → Type 0) (x : ℕ) (xs : List ℕ) (y : ℕ)
      → OrAmong Seen (x ∷ xs) y
      → OrAmong (Also instances Seen x) xs y
  ungroup Seen x xs y s = elim s [
    | inl u ↦ inl (inl u)
    | inr t ↦ elim t [ inl e ↦ inl (inr e) | inr a ↦ inr a ]
  ]

  pub same-Picks :
      (P Q : ℕ → Type 0) (c : Choice S)
      → ((y : ℕ) → P y → Q y)
      → ((y : ℕ) → Q y → P y)
      → Picks P c
      → Picks Q c
  same-Picks P Q c to from p = record {
    best = same-IsBest P Q c.reliability_instance to from p.best;
    clean = same-IsClean P Q c.nondirty_instance to from p.clean;
    last = same-IsLast P Q c.reliability_instance c.instance from p.last;
  }

  pub iterate-Picks :
      (n : ℕ) (tokens : Tokens) (t : ℕ) (Seen : ℕ → Type 0) (c : Choice S)
      → Picks Seen c
      → Picks (OrAmong Seen (candidates n tokens t)) (iterate send instances n true tokens t c)
  unfolding iterate
  iterate-Picks zero tokens t Seen c p =
      same-Picks Seen (OrAmong Seen []) c (λ y s. inl s)
        (λ y s. elim s [ inl u ↦ u | inr e ↦ absurd (omega (arith, e)) ]) p
  iterate-Picks (suc n) tokens t Seen c p =
      let x = (tokens t).instance_id in
      same-Picks _ _ _ (regroup Seen x (candidates n tokens (tokens t).next_instance))
        (ungroup Seen x (candidates n tokens (tokens t).next_instance))
        (iterate-Picks n tokens (tokens t).next_instance (Also instances Seen x) _
          (visit-Picks Seen x (instances x).live c refl p))

  -- What a read is sent to: an instance of the key's that is alive, and clean where one of them is;
  -- where none is, none of those alive is more reliable.
  pub record IsTarget (xs : List ℕ) (x : ℕ) : Type 0 where
    pub among : IsAmong x xs
    pub alive : IsLive instances x
    pub clean_or_best :
        ((instances x).is_dirty ≡ false)
        ⊎ ((y : ℕ)
            → IsAmong y xs
            → IsLive instances y
            → ((instances y).is_dirty ≡ true)
              × (less (instances x).reliability (instances y).reliability ≡ false))

  -- A choice is none only where no instance is alive.
  abbrev pub IsChosen : List ℕ → Option ℕ → Type 0
  IsChosen xs none = (y : ℕ) → IsAmong y xs → (instances y).live ≡ false
  IsChosen xs (some x) = IsTarget xs x

  pub chosen :
      (xs : List ℕ) (first : ℕ) (nondirty reliable last : Option ℕ)
      → IsAmong first xs
      → IsBest instances (λ y. IsAmong y xs) reliable
      → IsClean instances (λ y. IsAmong y xs) nondirty
      → IsLast instances (λ y. IsAmong y xs) reliable last
      → IsChosen xs (or_else nondirty (or_else reliable last))
  chosen xs first (some x) reliable last a b (among, alive, clean) l = record {
    among = among;
    alive = alive;
    clean_or_best = inl clean;
  }
  chosen xs first none (some x) last a (among, alive, best) c l = record {
    among = among;
    alive = alive;
    clean_or_best = inr (λ y s live. (c y s live, best y s live));
  }
  chosen xs first none none last a b c l = subst (λ o. IsChosen xs o) (sym (l first a)) b
