-- ===== src/Stats/Places.antt =====
-- The values of src/stats.c after a worker has sent those of some places.
use mathlib.Core.Path.{subst}
use wheatserver.Common.{
  ℕ, zero, suc, ◌+◌, ◌≡◌, inl, inr, refl, sym, ap, ◌∙◌, true, false, not, ◌&&◌, ◌==◌, ==_iff,
  if◌then◌else◌, ltb, leb, arith, Bool-cases,
}
use wheatserver.Stats.{Items, Values, merged, merge_at, is_sent}
use wheatserver.Stats.Sums.{put_here, put_there}

-- What an item has after a worker sent `v` for it, if it is one that is sent.
abbrev pub received : Items → ℕ → ℕ → ℕ → ℕ
received items v j old =
    if not (v == 0) && not (items.only_master j) then merged (items.types j) old v else old

-- The values after a worker has sent those of the `n` places from `i` on.
abbrev pub taken_over : Items → Values → ℕ → ℕ → Values → Values
taken_over items vals i n old j =
    if leb i j && ltb j (i + n) then received items (vals j) j (old j) else old j

module _ (items : Items) where
  pub nothing_taken :
      (vals : Values) (i : ℕ) (old : Values) (j : ℕ) → old j ≡ taken_over items vals i zero old j
  nothing_taken vals i old j =
      let outside : (leb i j && ltb j (i + 0)) ≡ false = ground arith in rw outside refl

  first_place :
      (vals : Values) (i n : ℕ) (old : Values)
      → taken_over items vals i (suc n) old i ≡ received items (vals i) i (old i)
  first_place vals i n old =
      let inside : (leb i i && ltb i (i + suc n)) ≡ true = ground arith in rw inside refl

  passed_place :
      (vals : Values) (i n : ℕ) (old : Values) → taken_over items vals (suc i) n old i ≡ old i
  passed_place vals i n old =
      let outside : (leb (suc i) i && ltb i (suc i + n)) ≡ false = ground arith in rw outside refl

  other_place :
      (vals : Values) (i n : ℕ) (old : Values) (j : ℕ)
      → (i == j) ≡ false
      → taken_over items vals i (suc n) old j ≡ taken_over items vals (suc i) n old j
  other_place vals i n old j e =
      let same : (leb i j && ltb j (i + suc n)) ≡ (leb (suc i) j && ltb j (suc i + n)) =
        ground (arith, e) in
      ap (λ b. if b then received items (vals j) j (old j) else old j) same

  -- An item that is not sent.
  pub skipped :
      (vals : Values) (i n : ℕ) (old new : Values) (j : ℕ)
      → is_sent items vals i ≡ false
      → new j ≡ taken_over items vals (suc i) n old j
      → new j ≡ taken_over items vals i (suc n) old j
  skipped vals i n old new j e h = elim (Bool-cases (i == j)) [
    | inl here ↦
        let at : i ≡ j = (==_iff i j).0 here in
        h
        ∙ subst (λ k. taken_over items vals (suc i) n old k ≡ taken_over items vals i (suc n) old k)
            at
            (passed_place vals i n old
              ∙ sym (
                  first_place vals i n old
                  ∙ ap (λ b. if b then merged (items.types i) (old i) (vals i) else old i) e))
    | inr there ↦ h ∙ sym (other_place vals i n old j there)
  ]

  -- An item that is sent, and then the rest of the values, of which this one may be reset.
  pub merged_first :
      (vals left : Values) (i n : ℕ) (old new : Values) (j : ℕ)
      → is_sent items vals i ≡ true
      → ((k : ℕ) → (i == k) ≡ false → left k ≡ vals k)
      → new j ≡ taken_over items left (suc i) n (merge_at (items.types i) i (vals i) old) j
      → new j ≡ taken_over items vals i (suc n) old j
  merged_first vals left i n old new j e same h = elim (Bool-cases (i == j)) [
    | inl here ↦
        let at : i ≡ j = (==_iff i j).0 here in
        let w = merge_at (items.types i) i (vals i) old in
        h
        ∙ subst (λ k. taken_over items left (suc i) n w k ≡ taken_over items vals i (suc n) old k)
            at
            (passed_place left i n w
              ∙ put_here old i i (merged (items.types i) (old i) (vals i)) (ground arith)
              ∙ sym (
                  first_place vals i n old
                  ∙ ap (λ b. if b then merged (items.types i) (old i) (vals i) else old i) e))
    | inr there ↦
        let inside = leb (suc i) j && ltb j (suc i + n) in
        h
        ∙ ap
            (λ v.
              if inside
              then received items v j (merge_at (items.types i) i (vals i) old j)
              else merge_at (items.types i) i (vals i) old j)
            (same j there)
        ∙ ap (λ o. if inside then received items (vals j) j o else o)
            (put_there old i j (merged (items.types i) (old i) (vals i)) there)
        ∙ sym (other_place vals i n old j there)
  ]
