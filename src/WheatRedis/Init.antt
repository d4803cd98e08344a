-- ===== src/WheatRedis/Init.antt =====
-- hashInit of src/app/wheatredis/hashkit.c as a whole.
use mathlib.Core.Path.{subst, ap₂}
use native.Mathlib.Nat.{mod-eq_of_lt, mod-lt}
use wheatserver.Common.{
  ℕ, zero, suc, ◌+◌, ◌-◌, ◌*◌, ◌%◌, ◌≤◌, ◌<◌, ◌≡◌, refl, sym, ap, ◌∙◌, true, ◌==◌, leb, arith, inl,
  inr, lt-cases, Bool-cases, ==_iff,
}
use wheatserver.WheatRedis.Hash.{
  Tokens, Ring, Init, keyspace, uint32_max, deal, after_shuffle, after_populate, init_ring,
  hash_init,
}
use wheatserver.WheatRedis.Counts.{one_if, count, deal_lem}
use wheatserver.WheatRedis.Fair.{fair_counts}
use wheatserver.WheatRedis.Shuffle.{IsShuffled, shuffle_lem}
use wheatserver.WheatRedis.Populate.{IsNext, IsMixed, populate_lem, populate-running}

count-positive : (x n p : ℕ) (ts : Tokens) → p < n → (ts p).instance_id ≡ x → 0 < count x n ts
count-positive x zero p ts h e = absurd (omega (arith, h))
count-positive x (suc n) p ts h e = elim (lt-cases p n) [
  | inl less ↦ omega (arith, count-positive x n p ts less e)
  | inr more ↦
      let same : n ≡ p = omega (arith, h, more) in
      let mine : ((ts n).instance_id == x) ≡ true =
        (==_iff _ _).1 (ap (λ k. (ts k).instance_id) same ∙ e) in
      omega (arith, ap one_if mine)
]

positive-count :
    (x n : ℕ) (ts : Tokens) → 0 < count x n ts → (p : ℕ) × (p < n) × ((ts p).instance_id ≡ x)
positive-count x zero ts h = absurd (omega (arith, h))
positive-count x (suc n) ts h = elim (Bool-cases ((ts n).instance_id == x)) [
  | inl mine ↦ (n, omega arith, (==_iff _ _).0 mine)
  | inr other ↦
      let (p, l, e) = positive-count x n ts (omega (arith, h, ap one_if other)) in
      (p, omega (arith, l), e)
]

count-owners :
    (x n : ℕ) (ts ts' : Tokens)
    → ((p : ℕ) → (ts' p).instance_id ≡ (ts p).instance_id)
    → count x n ts' ≡ count x n ts
count-owners x zero ts ts' h = refl
count-owners x (suc n) ts ts' h = ap₂ (λ a b. one_if (a == x) + b) (h n) (count-owners x n ts ts' h)

IsNext-owners :
    (n p q : ℕ) (ts ts' : Tokens)
    → ((p : ℕ) → (ts' p).instance_id ≡ (ts p).instance_id)
    → IsNext n ts p q
    → IsNext n ts' p q
IsNext-owners n p q ts ts' h w = record {
  distance = w.distance;
  place = w.place;
  another = λ e. w.another (sym (h q) ∙ e ∙ h p);
  first = λ k l. h ((p + 1 + k) % n) ∙ w.first k l ∙ sym (h p);
}

-- The ring is well made: each token knows its place, belongs to one of the instances, whose
-- counts are right and differ by at most one, and names the next token of another instance.
pub record IsRing (n ninstance : ℕ) (r : Ring) : Type 0 where
  pub places : (p : ℕ) → p < n → (r.tokens p).pos ≡ p
  pub owners : (p : ℕ) → p < n → (r.tokens p).instance_id < ninstance
  pub counts : (x : ℕ) → r.ntokens x ≡ count x n r.tokens
  pub fair : (x y : ℕ) → x < ninstance → y < ninstance → r.ntokens x ≤ r.ntokens y + 1
  pub nexts : (p : ℕ) → p < n → IsNext n r.tokens p (r.tokens p).next_instance

module _ (rand_max : ℕ) (rand : ℕ → ℕ) (n ninstance : ℕ) (s : Ring)
    (few : (k : ℕ) → rand k ≤ rand_max) (fresh : (x : ℕ) → s.ntokens x ≡ 0) where
  abbrev dealt : Ring
  dealt = deal n 0 ninstance s

  -- The owner of a shuffled token was dealt a token.
  shuffled-owner :
      (ts : Tokens)
      → IsShuffled n dealt.tokens ts
      → 0 < ninstance
      → (p : ℕ) → p < n
      → (ts p).instance_id < ninstance
  shuffled-owner ts w pos p h =
      let d = deal_lem n ninstance s fresh in
      let x = (ts p).instance_id in
      let some_token = subst (λ c. 0 < c) (w.counts x) (count-positive x n p ts h refl) in
      let (q, l, e) = positive-count x n dealt.tokens some_token in
      subst (λ y. y < ninstance) (sym (d.owners q l) ∙ e) (mod-lt q pos)

  -- An instance that is dealt a token has one after the shuffle.
  shuffled-token :
      (ts : Tokens)
      → IsShuffled n dealt.tokens ts
      → (x : ℕ) → x < ninstance
      → x < n
      → (p : ℕ) × (p < n) × ((ts p).instance_id ≡ x)
  shuffled-token ts w x h l =
      let d = deal_lem n ninstance s fresh in
      positive-count x n ts (
        subst (λ c. 0 < c) (sym (w.counts x))
          (count-positive x n x dealt.tokens l (d.owners x l ∙ mod-eq_of_lt h)))

  shuffled-IsMixed :
      (ts : Tokens) → IsShuffled n dealt.tokens ts → 2 ≤ ninstance → 2 ≤ n → IsMixed n ts
  shuffled-IsMixed ts w two room =
      let (p, l, e) = shuffled-token ts w 0 (omega (arith, two)) (omega (arith, room)) in
      let (q, m, f) = shuffled-token ts w 1 (omega (arith, two)) (omega (arith, room)) in
      record {
        one = p;
        other = q;
        one-lt = l;
        other-lt = m;
        differ = λ same. omega (arith, e, f, same);
      }

  init_ring-IsRing :
      (fuel : ℕ)
      → 2 ≤ ninstance
      → 2 ≤ n
      → n ≤ uint32_max
      → 2 * n ≤ fuel
      → (r : Ring) × (init_ring fuel rand_max rand n ninstance s ≡ Init.wheat_ok r)
        × IsRing n ninstance r
  unfolding init_ring
  init_ring-IsRing fuel two room small enough =
      let d = deal_lem n ninstance s fresh in
      let (ts, shuffles, w) = shuffle_lem rand_max rand n n 0 dealt.tokens few (omega arith) in
      let (ts', runs, filled) =
        populate_lem n ts (shuffled-IsMixed ts w two room) small fuel enough
          (λ p h. w.nexts p ∙ d.unset p h) in
      (
        record { tokens = ts'; ntokens = dealt.ntokens },
        ap (after_shuffle fuel n dealt.ntokens) shuffles ∙ ap (after_populate dealt.ntokens) runs,
        record {
          places = λ p h. filled.places p ∙ w.places p ∙ d.places p h;
          owners = λ p h.
              subst (λ x. x < ninstance) (sym (filled.owners p))
                (shuffled-owner ts w (omega (arith, two)) p h);
          counts = λ x. d.counts x ∙ sym (w.counts x) ∙ sym (count-owners x n ts ts' filled.owners);
          fair = λ x y h l. fair_counts ninstance n x y dealt d h l;
          nexts = λ p h. IsNext-owners n p _ ts ts' filled.owners (filled.nexts p h);
        },
      )

  -- With one instance the loop never ends.
  init_ring-running :
      (fuel : ℕ) → ninstance ≡ 1 → 0 < n → init_ring fuel rand_max rand n ninstance s ≡ Init.running
  unfolding init_ring
  init_ring-running fuel single pos =
      let d = deal_lem n ninstance s fresh in
      let (ts, shuffles, w) = shuffle_lem rand_max rand n n 0 dealt.tokens few (omega arith) in
      let owned : (p : ℕ) → p < n → (ts p).instance_id ≡ 0 =
        λ p h. omega (arith, single, shuffled-owner ts w (omega (arith, single)) p h) in
      let unset = w.nexts (n - 1) ∙ d.unset (n - 1) (omega (arith, pos)) in
      ap (after_shuffle fuel n dealt.ntokens) shuffles
      ∙ ap (after_populate dealt.ntokens) (populate-running fuel n 1 ts pos unset owned)

enough-leb : (a b : ℕ) → a ≤ b → leb a b ≡ true
enough-leb a b h = ground arith

module _ (rand_max : ℕ) (rand : ℕ → ℕ) (nbackup : ℕ) (s : Ring) (few : (k : ℕ) → rand k ≤ rand_max)
    (fresh : (x : ℕ) → s.ntokens x ≡ 0) where
  -- With two or more instances, memory and no more backups than instances, hashInit returns, on fuel
  -- of twice the ring and whatever rand() gives, with a ring in which each token has its place, one
  -- of the instances as owner and the first token behind it of another instance as next one, and in
  -- which the instances' counts are those of their tokens and differ by at most one.
  pub hash_init-IsRing :
      (fuel ninstance : ℕ)
      → 2 ≤ ninstance
      → nbackup ≤ ninstance
      → 2 * keyspace ≤ fuel
      → (r : Ring) × (hash_init fuel rand_max rand true ninstance nbackup s ≡ Init.wheat_ok r)
        × IsRing keyspace ninstance r
  unfolding hash_init
  hash_init-IsRing fuel ninstance two enough_instances enough =
      let (r, runs, w) =
        init_ring-IsRing rand_max rand keyspace ninstance s few fresh fuel two (omega arith)
          (omega arith) enough in
      (r, rw (enough-leb nbackup ninstance enough_instances) runs, w)

  -- With one instance hashInit does not return, whatever rand() gives.
  pub hash_init-running :
      (fuel : ℕ) → nbackup ≤ 1 → hash_init fuel rand_max rand true 1 nbackup s ≡ Init.running
  unfolding hash_init
  hash_init-running fuel enough_instances =
      rw (enough-leb nbackup 1 enough_instances)
        (init_ring-running rand_max rand keyspace 1 s few fresh fuel refl (omega arith))
