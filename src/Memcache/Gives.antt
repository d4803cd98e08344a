-- ===== src/Memcache/Gives.antt =====
-- Runs of the loop of src/protocol/memcache/proto_memcache.c, composed backwards.
use mathlib.Core.Path.{subst}
use wheatserver.Common.{
  ℕ, zero, suc, ◌+◌, ◌*◌, ◌≤◌, ◌≡◌, ◌≢◌, refl, sym, ◌∙◌, [], ◌∷◌, ◌++◌, some, length, drop, arith,
}
use wheatserver.Slice.{Bytes, Slice, view}
use wheatserver.Memcache.Data.{Stage, MemcacheProcData}
use wheatserver.Memcache.Request.{Step, Parsed}
use wheatserver.Memcache.Loop.{req_step, req_loop, parse_req, on_step, at_byte}
use wheatserver.Memcache.Ends.{parse_req-ends}

on_step-more :
    (more more' : Stage → MemcacheProcData → ℕ → Parsed) (x : Step)
    → ((state : Stage) (r : MemcacheProcData) (pos : ℕ)
        → more state r pos ≢ Parsed.running
        → more' state r pos ≡ more state r pos)
    → on_step more x ≢ Parsed.running
    → on_step more' x ≡ on_step more x
on_step-more more more' (Step.next state r pos) h e = h state r pos e
on_step-more more more' (Step.finish r pos) h e = refl
on_step-more more more' Step.error h e = refl
on_step-more more more' Step.fault h e = refl

at_byte-more :
    (more more' : Stage → MemcacheProcData → ℕ → Parsed) (state : Stage) (r : MemcacheProcData)
    (s : Bytes) (pos : ℕ) (rest : Bytes)
    → ((state : Stage) (r : MemcacheProcData) (pos : ℕ)
        → more state r pos ≢ Parsed.running
        → more' state r pos ≡ more state r pos)
    → at_byte more state r s pos rest ≢ Parsed.running
    → at_byte more' state r s pos rest ≡ at_byte more state r s pos rest
at_byte-more more more' state r s pos [] h e = refl
at_byte-more more more' state r s pos (ch ∷ rest) h e =
    on_step-more more more' (req_step state r s pos ch) h e

-- More fuel changes nothing where the loop ends.
loop-more :
    (f g : ℕ) (state : Stage) (r : MemcacheProcData) (s : Bytes) (pos : ℕ)
    → f ≤ g
    → req_loop f state r s pos ≢ Parsed.running
    → req_loop g state r s pos ≡ req_loop f state r s pos
unfolding req_loop
loop-more zero g state r s pos h e = absurd (e refl)
loop-more (suc f) zero state r s pos h e = absurd (omega (arith, h))
loop-more (suc f) (suc g) state r s pos h e =
    at_byte-more (λ state' r' pos'. req_loop f state' r' s pos')
      (λ state' r' pos'. req_loop g state' r' s pos') state r s pos (drop pos s)
      (λ state' r' pos' e'. loop-more f g state' r' s pos' (omega (arith, h)) e') e

-- With enough fuel the loop's outcome is `o`.
pub record Gives (s : Bytes) (state : Stage) (r : MemcacheProcData) (pos : ℕ) (o : Parsed)
    : Type 0 where
  pub fuel : ℕ
  pub run : (g : ℕ) → fuel ≤ g → req_loop g state r s pos ≡ o

-- The parser's own fuel is enough.
pub parse_req-Gives :
    {o : Parsed} (r : MemcacheProcData) (s : Slice)
    → Gives (view s) r.stage (record r { token_pos = some 0 }) 0 o
    → parse_req r s ≡ o
unfolding parse_req
parse_req-Gives {o} r s g =
    sym (
      loop-more (3 * length (view s) + 3) (g.fuel + (3 * length (view s) + 3)) r.stage
        (record r { token_pos = some 0 }) (view s) 0 (omega arith) (parse_req-ends r s))
    ∙ g.run (g.fuel + (3 * length (view s) + 3)) (omega arith)

-- What is left behind the byte at `pos`.
pub drop-next :
    (pos : ℕ) (s : Bytes) (ch : ℕ) (rest : Bytes) → drop pos s ≡ ch ∷ rest → drop (pos + 1) s ≡ rest
drop-next zero [] ch rest e = cc
drop-next zero (c ∷ s) ch rest e = cc
drop-next (suc pos) [] ch rest e = cc
drop-next (suc pos) (c ∷ s) ch rest e =
    let same : suc (pos + 1) ≡ suc pos + 1 = omega arith in
    subst (λ n. drop n (c ∷ s) ≡ rest) same (drop-next pos s ch rest e)

pub drop-past :
    (t : Bytes) (pos : ℕ) (s rest : Bytes) → drop pos s ≡ t ++ rest → drop (pos + length t) s ≡ rest
drop-past [] pos s rest e =
    let same : pos ≡ pos + 0 = omega arith in subst (λ n. drop n s ≡ rest) same e
drop-past (c ∷ t) pos s rest e =
    let same : pos + 1 + length t ≡ pos + length (c ∷ t) = omega arith in
    subst (λ n. drop n s ≡ rest) same
      (drop-past t (pos + 1) s rest (drop-next pos s c (t ++ rest) e))

pub drop-first : (t s rest : Bytes) → s ≡ t ++ rest → drop (length t) s ≡ rest
drop-first [] s rest e = e
drop-first (c ∷ t) [] rest e = cc
drop-first (c ∷ t) (x ∷ s) rest e = drop-first t s rest cc

module _ {s : Bytes} {o : Parsed} where
  pub back :
      {state state' : Stage} {r r' : MemcacheProcData} {pos pos' ch : ℕ} {rest : Bytes}
      → drop pos s ≡ ch ∷ rest
      → req_step state r s pos ch ≡ Step.next state' r' pos'
      → Gives s state' r' pos' o
      → Gives s state r pos o
  unfolding req_loop
  back {state} {state'} {r} {r'} {pos} {pos'} {ch} {rest} d e g = record {
    fuel = suc g.fuel;
    run = runs;
  }
    where
      runs : (f : ℕ) → suc g.fuel ≤ f → req_loop f state r s pos ≡ o
      runs zero k = absurd (omega (arith, k))
      runs (suc f) k = rw (req_loop, d, e) (g.run f (omega (arith, k)))

  pub stop :
      {state : Stage} {r r' : MemcacheProcData} {pos pos' ch : ℕ} {rest : Bytes}
      → drop pos s ≡ ch ∷ rest
      → req_step state r s pos ch ≡ Step.finish r' pos'
      → Parsed.parsed (record r' { stage = Stage.done }) pos' ≡ o
      → Gives s state r pos o
  unfolding req_loop
  stop {state} {r} {r'} {pos} {pos'} {ch} {rest} d e q = record { fuel = 1; run = runs }
    where
      runs : (f : ℕ) → 1 ≤ f → req_loop f state r s pos ≡ o
      runs zero k = absurd (omega (arith, k))
      runs (suc f) k = rw (req_loop, d, e) q

  pub move :
      {state : Stage} {r : MemcacheProcData} (p q : ℕ)
      → p ≡ q
      → Gives s state r p o
      → Gives s state r q o
  move {state} {r} p q e g = subst (λ k. Gives s state r k o) e g

  pub fail :
      {state : Stage} {r : MemcacheProcData} {pos ch : ℕ} {rest : Bytes}
      → drop pos s ≡ ch ∷ rest
      → req_step state r s pos ch ≡ Step.error
      → Parsed.wrong ≡ o
      → Gives s state r pos o
  unfolding req_loop
  fail {state} {r} {pos} {ch} {rest} d e q = record { fuel = 1; run = runs }
    where
      runs : (f : ℕ) → 1 ≤ f → req_loop f state r s pos ≡ o
      runs zero k = absurd (omega (arith, k))
      runs (suc f) k = rw (req_loop, d, e) q
