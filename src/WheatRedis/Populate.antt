-- ===== src/WheatRedis/Populate.antt =====
-- The loop of src/app/wheatredis/hashkit.c that gives each token the next one of another instance.
use mathlib.Core.Path.{subst}
use native.Mathlib.Nat.{mod-eq_of_lt, mod-lt, add-mod_right}
use wheatserver.Common.{
  ℕ, zero, suc, ◌+◌, ◌-◌, ◌*◌, ◌%◌, ◌≤◌, ◌<◌, ◌≡◌, ◌≢◌, refl, sym, ap, ◌∙◌, true, false, ◌==◌,
  arith, inl, inr, lt-cases, Bool-cases, ==_iff, lt→ltb,
}
use wheatserver.WheatRedis.Hash.{Tokens, uint32_max, fill, smaller, Populated, populate}
use wheatserver.WheatRedis.Counts.{other_ne}
use wheatserver.WheatRedis.Fill.{fill-outside, fill-inside, fill-kept}

-- `q` is the place of the first token behind `p`, around the ring, that another instance has.
pub record IsNext (n : ℕ) (ts : Tokens) (p q : ℕ) : Type 0 where
  pub distance : ℕ
  pub place : q ≡ (p + 1 + distance) % n
  pub another : (ts q).instance_id ≢ (ts p).instance_id
  pub first : (k : ℕ) → k < distance → (ts ((p + 1 + k) % n)).instance_id ≡ (ts p).instance_id

-- The loop's state: what is filled before `prev`, and what is known of the tokens up to `i`.
record Filling (n prev i : ℕ) (ts0 ts : Tokens) : Type 0 where
  places : (p : ℕ) → (ts p).pos ≡ (ts0 p).pos
  owners : (p : ℕ) → (ts p).instance_id ≡ (ts0 p).instance_id
  ahead : prev < i
  within : prev ≤ n
  short : i ≤ 2 * n
  same : prev < n → (k : ℕ) → prev ≤ k → k < i → (ts0 (k % n)).instance_id ≡ (ts0 prev).instance_id
  filled : (p : ℕ) → p < prev → IsNext n ts0 p (ts p).next_instance
  unset : (p : ℕ) → prev ≤ p → p < n → (ts p).next_instance ≡ uint32_max

-- What hashInit has made of the tokens that it filled.
pub record IsFilled (n : ℕ) (ts0 ts : Tokens) : Type 0 where
  pub places : (p : ℕ) → (ts p).pos ≡ (ts0 p).pos
  pub owners : (p : ℕ) → (ts p).instance_id ≡ (ts0 p).instance_id
  pub nexts : (p : ℕ) → p < n → IsNext n ts0 p (ts p).next_instance

around : (n r : ℕ) → r < n → (r + n) % n ≡ r
around n r h = add-mod_right r n ∙ mod-eq_of_lt h

-- A turn of the loop that finds the same instance.
module _ (n prev i : ℕ) (ts0 ts : Tokens) (w : Filling n prev i ts0 ts)
    (unfinished : prev < n) where
  -- Once around the ring, every token has been seen.
  all-same : prev + n ≤ i → (r : ℕ) → r < n → (ts0 r).instance_id ≡ (ts0 prev).instance_id
  all-same h r l = elim (lt-cases r prev) [
    | inl before ↦
        ap (λ k. (ts0 k).instance_id) (sym (around n r l))
        ∙ w.same unfinished (r + n) (omega (arith, unfinished)) (omega (arith, h, before))
    | inr after ↦
        ap (λ k. (ts0 k).instance_id) (sym (mod-eq_of_lt l))
        ∙ w.same unfinished r after (omega (arith, h, l))
  ]

  stays-Filling :
      i < prev + n
      → (ts (i % n)).instance_id ≡ (ts prev).instance_id
      → Filling n prev (i + 1) ts0 ts
  stays-Filling h e = record {
    places = w.places;
    owners = w.owners;
    ahead = omega (arith, w.ahead);
    within = w.within;
    short = omega (arith, h, unfinished);
    same = λ u k a b. elim (lt-cases k i) [
      | inl less ↦ w.same u k a less
      | inr more ↦
          let last : k ≡ i = omega (arith, b, more) in
          ap (λ m. (ts0 (m % n)).instance_id) last ∙ sym (w.owners (i % n)) ∙ e ∙ w.owners prev
    ];
    filled = w.filled;
    unset = w.unset;
  }

  -- A token that waits for its next one has it at `i`.
  found-IsNext :
      (ts (i % n)).instance_id ≢ (ts prev).instance_id
      → (p : ℕ) → prev ≤ p
      → p < i
      → p < n
      → IsNext n ts0 p (i % n)
  found-IsNext ne p a b c =
      let mine : (ts0 p).instance_id ≡ (ts0 prev).instance_id =
        ap (λ k. (ts0 k).instance_id) (sym (mod-eq_of_lt c)) ∙ w.same unfinished p a b in
      record {
        distance = i - (p + 1);
        place = ap (λ k. k % n) (omega (arith, b));
        another = λ e. ne (w.owners (i % n) ∙ e ∙ mine ∙ sym (w.owners prev));
        first =
            λ k l. w.same unfinished (p + 1 + k) (omega (arith, a)) (omega (arith, l)) ∙ sym mine;
      }

  abbrev turns : ℕ
  turns = smaller i n - prev

  abbrev after_fill : Tokens
  after_fill = fill turns prev (i % n) ts

  turns_lem : (prev + turns ≤ i) × (prev + turns ≤ n) × (prev + turns < n → prev + turns ≡ i)
  turns_lem = ground (arith, w.ahead, unfinished)

  moves-Filling :
      i < prev + n
      → (ts (i % n)).instance_id ≢ (ts prev).instance_id
      → Filling n (prev + turns) (i + 1) ts0 after_fill
  moves-Filling h ne =
      let (below, inside, whole) = turns_lem in
      record {
        places = λ p. fill-kept (i % n) (λ t. t.pos) (λ t o. refl) turns prev p ts ∙ w.places p;
        owners =
            λ p. fill-kept (i % n) (λ t. t.instance_id) (λ t o. refl) turns prev p ts ∙ w.owners p;
        ahead = omega (arith, below);
        within = inside;
        short = omega (arith, h, unfinished);
        same = λ u k a b.
            let here : k ≡ prev + turns = omega (arith, whole u, a, b) in
            ap (λ m. (ts0 m).instance_id) (mod-eq_of_lt (omega (arith, u, here)) ∙ here);
        filled = λ p l. elim (lt-cases p prev) [
          | inl before ↦
              subst (λ q. IsNext n ts0 p q)
                (sym
                  (ap (λ t. t.next_instance) (fill-outside (i % n) turns prev p ts (inl before))))
                (w.filled p before)
          | inr after ↦
              subst (λ q. IsNext n ts0 p q)
                (sym (ap (λ t. t.next_instance) (fill-inside (i % n) turns prev p ts after l)))
                (found-IsNext ne p after (omega (arith, below, l)) (omega (arith, inside, l)))
        ];
        unset = λ p a b.
            ap (λ t. t.next_instance) (fill-outside (i % n) turns prev p ts (inr a))
            ∙ w.unset p (omega (arith, a)) b;
      }

-- Two of the tokens have different owners.
pub record IsMixed (n : ℕ) (ts : Tokens) : Type 0 where
  pub one : ℕ
  pub other : ℕ
  pub one-lt : one < n
  pub other-lt : other < n
  pub differ : (ts one).instance_id ≢ (ts other).instance_id

module _ (n : ℕ) (ts0 : Tokens) (mixed : IsMixed n ts0) (few : n ≤ uint32_max) where
  not_around : (prev i : ℕ) (ts : Tokens) → Filling n prev i ts0 ts → prev < n → i < prev + n
  not_around prev i ts w u = elim (lt-cases i (prev + n)) [
    | inl less ↦ less
    | inr more ↦
        let all = all-same n prev i ts0 ts w u more in
        absurd (mixed.differ (all mixed.one mixed.one-lt ∙ sym (all mixed.other mixed.other-lt)))
  ]

  populate-Filled :
      (f prev i : ℕ) (ts : Tokens)
      → Filling n prev i ts0 ts
      → 2 * n + 1 ≤ f + i
      → (ts' : Tokens) × (populate f n prev i ts ≡ Populated.populated ts') × IsFilled n ts0 ts'
  unfolding populate
  populate-Filled zero prev i ts w h = absurd (omega (arith, w.short, h))
  populate-Filled (suc f) prev i ts w h = elim (lt-cases prev n) [
    | inl unfinished ↦
        let near = not_around prev i ts w unfinished in
        let unset : ((ts (n - 1)).next_instance == uint32_max) ≡ true =
          (==_iff _ _).1
            (w.unset (n - 1) (omega (arith, unfinished)) (omega (arith, unfinished))) in
        elim (Bool-cases ((ts (i % n)).instance_id == (ts prev).instance_id)) [
          | inl equal ↦
              let (ts', run, done) =
                populate-Filled f prev (i + 1) ts
                  (stays-Filling n prev i ts0 ts w unfinished near ((==_iff _ _).0 equal))
                  (omega (arith, h)) in
              (ts', rw (unset, lt→ltb prev n unfinished, equal) run, done)
          | inr differs ↦
              let (ts', run, done) =
                populate-Filled f (prev + (smaller i n - prev)) (i + 1)
                  (fill (smaller i n - prev) prev (i % n) ts)
                  (moves-Filling n prev i ts0 ts w unfinished near
                    (λ e. other_ne _ _ differs (sym e)))
                  (omega (arith, h)) in
              (ts', rw (unset, lt→ltb prev n unfinished, differs) run, done)
        ]
    | inr finished ↦
        let next = w.filled (n - 1) (omega (arith, mixed.one-lt, finished)) in
        let inside : (ts (n - 1)).next_instance < n =
          subst (λ q. q < n) (sym next.place)
            (mod-lt (n - 1 + 1 + next.distance) (omega (arith, mixed.one-lt))) in
        let set : ((ts (n - 1)).next_instance == uint32_max) ≡ false =
          ground (arith, inside, few) in
        (
          ts,
          rw set refl,
          record {
            places = w.places;
            owners = w.owners;
            nexts = λ p l. w.filled p (omega (arith, l, finished));
          },
        )
  ]

  -- The loop ends, on fuel of twice the ring, and gives each token the next one of another instance.
  pub populate_lem :
      (f : ℕ)
      → 2 * n ≤ f
      → ((p : ℕ) → p < n → (ts0 p).next_instance ≡ uint32_max)
      → (ts' : Tokens) × (populate f n 0 1 ts0 ≡ Populated.populated ts') × IsFilled n ts0 ts'
  populate_lem f h u =
      populate-Filled f 0 1 ts0
        (record {
          places = λ p. refl;
          owners = λ p. refl;
          ahead = omega arith;
          within = omega arith;
          short = omega (arith, mixed.one-lt);
          same = λ inside k a b.
              let here : k ≡ 0 = omega (arith, b) in
              ap (λ m. (ts0 m).instance_id) (ap (λ m. m % n) here ∙ mod-eq_of_lt inside);
          filled = λ p l. absurd (omega (arith, l));
          unset = λ p a b. u p b;
        })
        (omega (arith, h))

-- Where one instance has every token, the loop does not end.
pub populate-running :
    (f n i : ℕ) (ts : Tokens)
    → 0 < n
    → (ts (n - 1)).next_instance ≡ uint32_max
    → ((p : ℕ) → p < n → (ts p).instance_id ≡ 0)
    → populate f n 0 i ts ≡ Populated.running
unfolding populate
populate-running zero n i ts pos u one = refl
populate-running (suc f) n i ts pos u one =
    let unset : ((ts (n - 1)).next_instance == uint32_max) ≡ true = (==_iff _ _).1 u in
    let equal : ((ts (i % n)).instance_id == (ts 0).instance_id) ≡ true =
      (==_iff _ _).1 (one (i % n) (mod-lt i pos) ∙ sym (one 0 pos)) in
    rw (unset, lt→ltb 0 n pos, equal) (populate-running f n (i + 1) ts pos u one)
