-- ===== src/WheatRedis/Best.antt =====
-- The choices of handleClientRequests of src/app/wheatredis/redis.c, as one more instance is seen.
use wheatserver.Common.{
  ℕ, ◌≡◌, ◌⊎◌, inl, inr, refl, sym, ap, ◌∙◌, Bool, true, false, Option, none, some, if◌then◌else◌,
  arith, ℤ, pos, negsuc,
}
use wheatserver.WheatRedis.Choose.{Instance, less, more_reliable}

less_refl : (a : ℤ) → less a a ≡ false
less_refl (pos a) = ground arith
less_refl (negsuc a) = ground arith

cc_of : {A : Type 0} → true ≡ false → A
cc_of e = cc

-- What is not below `a` is not below `b` above it.
not_less_trans : (a b c : ℤ) → less a b ≡ true → less a c ≡ false → less b c ≡ false
not_less_trans (pos a) (pos b) (pos c) h k = ground (arith, h, k)
not_less_trans (pos a) (pos b) (negsuc c) h k = refl
not_less_trans (pos a) (negsuc b) c h k = cc
not_less_trans (negsuc a) (pos b) (pos c) h k = cc
not_less_trans (negsuc a) (pos b) (negsuc c) h k = refl
not_less_trans (negsuc a) (negsuc b) (pos c) h k = cc
not_less_trans (negsuc a) (negsuc b) (negsuc c) h k = ground (arith, h, k)

module _ (instances : ℕ → Instance) where
  abbrev pub IsLive : ℕ → Type 0
  IsLive y = (instances y).live ≡ true

  -- The choice by reliability, among the instances seen.
  abbrev pub IsBest : (ℕ → Type 0) → Option ℕ → Type 0
  IsBest Seen none = (y : ℕ) → Seen y → (instances y).live ≡ false
  IsBest Seen (some r) =
      Seen r
      × IsLive r
      × ((y : ℕ)
          → Seen y
          → IsLive y
          → less (instances r).reliability (instances y).reliability ≡ false)

  -- The choice of one that is not dirty.
  abbrev pub IsClean : (ℕ → Type 0) → Option ℕ → Type 0
  IsClean Seen none = (y : ℕ) → Seen y → IsLive y → (instances y).is_dirty ≡ true
  IsClean Seen (some r) = Seen r × IsLive r × ((instances r).is_dirty ≡ false)

  -- The variable `instance` is NULL where no instance is alive.
  abbrev pub IsLast : (ℕ → Type 0) → Option ℕ → Option ℕ → Type 0
  IsLast Seen none i = (y : ℕ) → Seen y → i ≡ none
  IsLast Seen (some r) i = Unit

  abbrev pub Also : (ℕ → Type 0) → ℕ → ℕ → Type 0
  Also Seen x y = Seen y ⊎ (y ≡ x)

  module _ (Seen : ℕ → Type 0) (x : ℕ) where
    pub dead-IsBest :
        (o : Option ℕ) → (instances x).live ≡ false → IsBest Seen o → IsBest (Also Seen x) o
    dead-IsBest none dead b =
        λ y s. elim s [ inl s' ↦ b y s' | inr same ↦ ap (λ k. (instances k).live) same ∙ dead ]
    dead-IsBest (some r) dead (seen, live, best) =
        (inl seen, live, λ y s l. elim s [ inl s' ↦ best y s' l | inr same ↦ cc ])

    pub dead-IsClean :
        (o : Option ℕ) → (instances x).live ≡ false → IsClean Seen o → IsClean (Also Seen x) o
    dead-IsClean none dead b = λ y s l. elim s [ inl s' ↦ b y s' l | inr same ↦ cc ]
    dead-IsClean (some r) dead (seen, live, clean) = (inl seen, live, clean)

    pub dead-IsLast : (o : Option ℕ) → IsLast (Also Seen x) o none
    dead-IsLast none = λ y s. refl
    dead-IsLast (some r) = tt

    pub some-IsLast :
        (P : ℕ → Type 0) (o : Option ℕ) (i : ℕ) → IsLast P (more_reliable instances o i) (some i)
    some-IsLast P none i = tt
    some-IsLast P (some r) i =
        elim (less (instances r).reliability (instances i).reliability)
          as (λ b. IsLast P (if b then some i else some r) (some i)) [ true ↦ tt | false ↦ tt ]

    -- A live instance takes the place of one that is less reliable.
    replaced-IsBest :
        (r : ℕ) (b : Bool)
        → less (instances r).reliability (instances x).reliability ≡ b
        → IsLive x
        → IsBest Seen (some r)
        → IsBest (Also Seen x) (if b then some x else some r)
    replaced-IsBest r true e live (seen, live_r, best) = (
      inr refl,
      live,
      λ y s l. elim s [
        | inl s' ↦
            not_less_trans (instances r).reliability (instances x).reliability
              (instances y).reliability e (best y s' l)
        | inr same ↦
            ap (λ k. less (instances x).reliability (instances k).reliability) same
            ∙ less_refl (instances x).reliability
      ],
    )
    replaced-IsBest r false e live (seen, live_r, best) = (
      inl seen,
      live_r,
      λ y s l. elim s [
        | inl s' ↦ best y s' l
        | inr same ↦ ap (λ k. less (instances r).reliability (instances k).reliability) same ∙ e
      ],
    )

    pub live-IsBest :
        (o : Option ℕ)
        → IsLive x
        → IsBest Seen o
        → IsBest (Also Seen x) (more_reliable instances o x)
    live-IsBest none live b = (
      inr refl,
      live,
      λ y s l. elim s [
        | inl s' ↦ cc_of (sym l ∙ b y s')
        | inr same ↦
            ap (λ k. less (instances x).reliability (instances k).reliability) same
            ∙ less_refl (instances x).reliability
      ],
    )
    live-IsBest (some r) live b = replaced-IsBest r _ refl live b

    pub live-IsClean :
        (o : Option ℕ) (b : Bool)
        → (instances x).is_dirty ≡ b
        → IsLive x
        → IsClean Seen o
        → IsClean (Also Seen x) (if b then o else some x)
    live-IsClean none true e live c =
        λ y s l. elim s [ inl s' ↦ c y s' l | inr same ↦ ap (λ k. (instances k).is_dirty) same ∙ e ]
    live-IsClean (some r) true e live (seen, live_r, clean) = (inl seen, live_r, clean)
    live-IsClean o false e live c = (inr refl, live, e)
