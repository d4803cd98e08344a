-- ===== src/WheatRedis/Fill.antt =====
-- The inner loop of src/app/wheatredis/hashkit.c that stores a next instance.
use wheatserver.Common.{
  ℕ, zero, suc, ◌+◌, ◌≤◌, ◌<◌, ◌≡◌, ◌≢◌, refl, sym, ap, ◌∙◌, arith, inl, inr, ◌⊎◌, lt-cases,
}
use wheatserver.WheatRedis.Hash.{Token, Tokens, write, fill}
use wheatserver.WheatRedis.Counts.{write-here, write-there}

module _ (next : ℕ) where
  pub fill-outside :
      (m prev q : ℕ) (ts : Tokens) → (q < prev) ⊎ (prev + m ≤ q) → fill m prev next ts q ≡ ts q
  unfolding fill
  fill-outside zero prev q ts h = refl
  fill-outside (suc m) prev q ts h =
      let ne : q ≢ prev =
        λ e. elim h [ inl less ↦ omega (arith, less, e) | inr more ↦ omega (arith, more, e) ] in
      let h' : (q < prev + 1) ⊎ (prev + 1 + m ≤ q) = elim h [
        | inl less ↦ inl (omega (arith, less))
        | inr more ↦ inr (omega (arith, more))
      ] in
      fill-outside m (prev + 1) q (write ts prev (record (ts prev) { next_instance = next })) h'
      ∙ write-there ts prev q _ ne

  pub fill-inside :
      (m prev q : ℕ) (ts : Tokens)
      → prev ≤ q
      → q < prev + m
      → fill m prev next ts q ≡ record (ts q) { next_instance = next }
  unfolding fill
  fill-inside zero prev q ts h l = absurd (omega (arith, h, l))
  fill-inside (suc m) prev q ts h l =
      let renew : Token → Token = λ v. record v { next_instance = next } in
      let t = renew (ts prev) in
      elim (lt-cases prev q) [
        | inl less ↦
            fill-inside m (prev + 1) q (write ts prev t) (omega (arith, less)) (omega (arith, l))
            ∙ ap renew (write-there ts prev q t (λ e. omega (arith, less, e)))
        | inr more ↦
            let same : q ≡ prev = omega (arith, h, more) in
            fill-outside m (prev + 1) q (write ts prev t) (inl (omega (arith, same)))
            ∙ write-here ts prev q t same
            ∙ ap (λ k. renew (ts k)) (sym same)
      ]

  -- The parts of a token that the loop does not change.
  pub fill-kept :
      (part : Token → ℕ)
      → ((t : Token) (o : ℕ) → part (record t { next_instance = o }) ≡ part t)
      → (m prev q : ℕ) (ts : Tokens) → part (fill m prev next ts q) ≡ part (ts q)
  fill-kept part same m prev q ts = elim (lt-cases q prev) [
    | inl before ↦ ap part (fill-outside m prev q ts (inl before))
    | inr after ↦ elim (lt-cases q (prev + m)) [
      | inl inside ↦ ap part (fill-inside m prev q ts after inside) ∙ same (ts q) next
      | inr behind ↦ ap part (fill-outside m prev q ts (inr behind))
    ]
  ]
