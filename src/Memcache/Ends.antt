-- ===== src/Memcache/Ends.antt =====
-- The parser of src/protocol/memcache/proto_memcache.c ends on every input.
use wheatserver.Common.{
  ℕ, zero, suc, ◌+◌, ◌*◌, ◌≤◌, ◌<◌, ◌≡◌, ◌≢◌, refl, ap, [], ◌∷◌, Option, none, some, length, drop,
  arith, length-drop, lt-cases, inl, inr,
}
use wheatserver.Slice.{Bytes, Slice, view}
use wheatserver.Memcache.Data.{Stage, MemcacheProcData}
use wheatserver.Memcache.Request.{Step, Parsed, token}
use wheatserver.Memcache.Loop.{req_step, req_loop, parse_req, at_end, keep, on_step, at_byte}
use wheatserver.Memcache.Falls.{rank, rank-le, Falls, step-Falls}

abbrev rank_at : Stage → Bytes → ℕ
rank_at state [] = 0
rank_at state (ch ∷ rest) = rank state ch

rank_at-le : (state : Stage) (rest : Bytes) → rank_at state rest ≤ 2
rank_at-le state [] = omega arith
rank_at-le state (ch ∷ rest) = rank-le state ch

-- What the rest of the loop needs.
abbrev measure : Stage → Bytes → ℕ → ℕ
measure state s pos = 3 * length (drop pos s) + rank_at state (drop pos s)

keep-ne-running :
    (t : Option Bytes) (put : Bytes → MemcacheProcData) (pos : ℕ) → keep t put pos ≢ Parsed.running
keep-ne-running none put pos e = cc
keep-ne-running (some t) put pos e = cc

at_end-ne-running :
    (state : Stage) (r : MemcacheProcData) (s : Bytes) (pos : ℕ)
    → at_end state r s pos ≢ Parsed.running
unfolding at_end
at_end-ne-running Stage.req_type r s pos e = keep-ne-running (token r s pos) _ pos e
at_end-ne-running Stage.key r s pos e = keep-ne-running (token r s pos) _ pos e
at_end-ne-running Stage.noreply r s pos e = keep-ne-running (token r s pos) _ pos e
at_end-ne-running state r s pos e = cc

-- The measure falls with each step.
measure-lt :
    (state state' : Stage) (s : Bytes) (pos pos' ch : ℕ) (rest : Bytes)
    → drop pos s ≡ ch ∷ rest
    → 3 * pos + rank state' ch < 3 * pos' + rank state ch
    → measure state' s pos' < 3 * suc (length rest) + rank state ch
measure-lt state state' s pos pos' ch rest e h = elim (lt-cases pos pos') [
  | inl moved ↦
      omega
        (arith, length-drop pos s, length-drop pos' s, ap length e, rank_at-le state' (drop pos' s))
  | inr stays ↦
      let here : pos' ≡ pos = omega (arith, rank-le state ch, stays, h) in
      rw (here, e) (omega (arith, h, here))
]

on_step-ne-running :
    (more : Stage → MemcacheProcData → ℕ → Parsed) (state : Stage) (s : Bytes) (pos ch : ℕ)
    (rest : Bytes) (b : ℕ) (x : Step)
    → drop pos s ≡ ch ∷ rest
    → Falls state pos ch x
    → 3 * suc (length rest) + rank state ch ≤ b
    → ((state' : Stage) (r : MemcacheProcData) (pos' : ℕ)
        → measure state' s pos' < b
        → more state' r pos' ≢ Parsed.running)
    → on_step more x ≢ Parsed.running
on_step-ne-running more state s pos ch rest b (Step.next state' r pos') e w h ih =
    let less = measure-lt state state' s pos pos' ch rest e w in
    ih state' r pos' (omega (arith, less, h))
on_step-ne-running more state s pos ch rest b (Step.finish r pos') e w h ih = λ q. cc
on_step-ne-running more state s pos ch rest b Step.error e w h ih = λ q. cc
on_step-ne-running more state s pos ch rest b Step.fault e w h ih = λ q. cc

at_byte-ne-running :
    (more : Stage → MemcacheProcData → ℕ → Parsed) (state : Stage) (r : MemcacheProcData)
    (s : Bytes) (pos : ℕ) (rest : Bytes) (b : ℕ)
    → drop pos s ≡ rest
    → measure state s pos ≤ b
    → ((state' : Stage) (r : MemcacheProcData) (pos' : ℕ)
        → measure state' s pos' < b
        → more state' r pos' ≢ Parsed.running)
    → at_byte more state r s pos rest ≢ Parsed.running
at_byte-ne-running more state r s pos [] b e h ih = at_end-ne-running state r s pos
at_byte-ne-running more state r s pos (ch ∷ rest) b e h ih =
    on_step-ne-running more state s pos ch rest b (req_step state r s pos ch) e
      (step-Falls state r s pos ch (omega (arith, length-drop pos s, ap length e))) (rw e at h) ih

loop-ends :
    (f : ℕ) (state : Stage) (r : MemcacheProcData) (s : Bytes) (pos : ℕ)
    → measure state s pos < f
    → req_loop f state r s pos ≢ Parsed.running
unfolding req_loop
loop-ends zero state r s pos h = absurd (omega (arith, h))
loop-ends (suc f) state r s pos h =
    at_byte-ne-running (λ state' r' pos'. req_loop f state' r' s pos') state r s pos (drop pos s) f
      refl (omega (arith, h)) (λ state' r' pos' less. loop-ends f state' r' s pos' less)

-- The parser ends, whatever the slice and the data it starts from.
pub parse_req-ends : (r : MemcacheProcData) (s : Slice) → parse_req r s ≢ Parsed.running
unfolding parse_req
parse_req-ends r s e =
    loop-ends (3 * length (view s) + 3) r.stage _ (view s) 0
      (omega (arith, rank_at-le r.stage (view s))) e
