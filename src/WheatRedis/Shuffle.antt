-- ===== src/WheatRedis/Shuffle.antt =====
-- The shuffle of src/app/wheatredis/hashkit.c.
use native.Mathlib.Nat.{div-lt_iff_lt-mul, lt-mul-div-succ}
use wheatserver.Common.{
  ℕ, zero, suc, ◌+◌, ◌-◌, ◌*◌, ◌/◌, ◌≤◌, ◌<◌, ◌≡◌, refl, sym, ap, ◌∙◌, ◌==◌, some, arith, inl, inr,
  Bool-cases, ==_iff, lt→ltb,
}
use wheatserver.WheatRedis.Hash.{Token, Tokens, write, swap_ids, pick, shuffle}
use wheatserver.WheatRedis.Counts.{one_if, count, count-write, write-here, write-there, other_ne}

-- The place that is picked is one of those that are left.
pub pick-lt :
    (rand_max r ntoken i : ℕ) → i < ntoken → r ≤ rand_max → pick rand_max r ntoken i < ntoken
pick-lt rand_max r ntoken i h few =
    let d = rand_max / (ntoken - i) + 1 in
    let room : 0 < ntoken - i = omega (arith, h) in
    let below : rand_max < (ntoken - i) * d = lt-mul-div-succ rand_max room in
    let divides : 0 < d = omega arith in
    let bounded : r < (ntoken - i) * d = omega (arith, few, below) in
    let chosen : r / d < ntoken - i = (div-lt_iff_lt-mul divides).1 bounded in omega (arith, chosen)

-- Both arrays have the same tokens but for their owners, and each instance has as many.
pub record IsShuffled (n : ℕ) (ts ts' : Tokens) : Type 0 where
  pub places : (p : ℕ) → (ts' p).pos ≡ (ts p).pos
  pub nexts : (p : ℕ) → (ts' p).next_instance ≡ (ts p).next_instance
  pub counts : (x : ℕ) → count x n ts' ≡ count x n ts

-- A part of a token that a write keeps.
write-kept :
    (ts : Tokens) (p : ℕ) (t : Token) (part : Token → ℕ)
    → part t ≡ part (ts p)
    → (q : ℕ) → part (write ts p t q) ≡ part (ts q)
write-kept ts p t part e q = elim (Bool-cases (q == p)) [
  | inl here ↦
      let same : q ≡ p = (==_iff q p).0 here in
      ap part (write-here ts p q t same) ∙ e ∙ ap (λ k. part (ts k)) (sym same)
  | inr there ↦ ap part (write-there ts p q t (λ s. other_ne q p there (sym s)))
]

module _ (n i j : ℕ) (ts : Tokens) where
  abbrev once : Tokens
  once = write ts j (record (ts j) { instance_id = (ts i).instance_id })

  kept :
      (part : Token → ℕ)
      → ((t : Token) (o : ℕ) → part (record t { instance_id = o }) ≡ part t)
      → (q : ℕ) → part (swap_ids i j ts q) ≡ part (ts q)
  kept part same q =
      write-kept once i (record (once i) { instance_id = (ts j).instance_id }) part
        (same (once i) _) q
      ∙ write-kept ts j (record (ts j) { instance_id = (ts i).instance_id }) part (same (ts j) _) q

  -- Where the two places are one, its owner stays.
  owner_stays : (once i).instance_id ≡ (ts i).instance_id
  owner_stays = elim (Bool-cases (i == j)) [
    | inl here ↦ ap (λ t. t.instance_id) (write-here ts j i _ ((==_iff i j).0 here))
    | inr there ↦ ap (λ t. t.instance_id) (write-there ts j i _ (λ s. other_ne i j there (sym s)))
  ]

  count-swap_ids : (x : ℕ) → i < n → j < n → count x n (swap_ids i j ts) ≡ count x n ts
  count-swap_ids x hi hj = omega (
    arith,
    count-write x n j ts (record (ts j) { instance_id = (ts i).instance_id }) hj,
    count-write x n i once (record (once i) { instance_id = (ts j).instance_id }) hi,
    ap (λ o. one_if (o == x)) owner_stays,
  )

  swap_ids-IsShuffled : i < n → j < n → IsShuffled n ts (swap_ids i j ts)
  swap_ids-IsShuffled hi hj = record {
    places = kept (λ t. t.pos) (λ t o. refl);
    nexts = kept (λ t. t.next_instance) (λ t o. refl);
    counts = λ x. count-swap_ids x hi hj;
  }

then-IsShuffled :
    (n : ℕ) (ts ts' ts'' : Tokens)
    → IsShuffled n ts ts'
    → IsShuffled n ts' ts''
    → IsShuffled n ts ts''
then-IsShuffled n ts ts' ts'' a b = record {
  places = λ p. b.places p ∙ a.places p;
  nexts = λ p. b.nexts p ∙ a.nexts p;
  counts = λ x. b.counts x ∙ a.counts x;
}

-- Whatever rand() gives, the shuffle reads and writes inside the array, and moves owners only.
pub shuffle_lem :
    (rand_max : ℕ) (rand : ℕ → ℕ) (ntoken m i : ℕ) (ts : Tokens)
    → ((k : ℕ) → rand k ≤ rand_max)
    → i + m ≡ ntoken
    → (ts' : Tokens) × (shuffle rand_max rand ntoken m i ts ≡ some ts') × IsShuffled ntoken ts ts'
unfolding shuffle
shuffle_lem rand_max rand ntoken zero i ts few e =
    (ts, refl, record { places = λ p. refl; nexts = λ p. refl; counts = λ x. refl })
shuffle_lem rand_max rand ntoken (suc m) i ts few e =
    let j = pick rand_max (rand i) ntoken i in
    let below : i < ntoken = omega (arith, e) in
    let inside = pick-lt rand_max (rand i) ntoken i below (few i) in
    let (ts', run, rest) =
      shuffle_lem rand_max rand ntoken m (i + 1) (swap_ids i j ts) few (omega (arith, e)) in
    (
      ts',
      rw (lt→ltb j ntoken inside) run,
      then-IsShuffled ntoken ts (swap_ids i j ts) ts'
          (swap_ids-IsShuffled ntoken i j ts below inside) rest,
    )
