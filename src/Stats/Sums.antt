-- ===== src/Stats/Sums.antt =====
-- That the master's sums in src/stats.c are the sums over its workers.
use mathlib.Core.Option.{some-injective}
use wheatserver.Common.{
  ℕ, zero, suc, ◌+◌, ◌%◌, ◌^◌, ◌≡◌, inl, inr, refl, ap, ◌∙◌, Bool, true, false, Option, none, some,
  List, [], ◌∷◌, ◌==◌, ==_iff, if_both, length, leb, ℤ, add_size, get_elem?, set, arith, Bool-cases,
}
use wheatserver.Slice.{Bytes}
use wheatserver.Number.{string2ll}
use wheatserver.Stats.{
  StatType, sum_stat, Items, Values, WorkerStats, Master, to_word, atoi, find_worker, put, merged,
  merge_at, apply_one, apply_stats, is_even, parse_for, parse_found, parse_stat,
}

-- The sum of what the workers have at a place.
abbrev pub total : ℕ → List WorkerStats → ℕ
total i [] = 0
total i (w ∷ ws) = add_size (w.stats i) (total i ws)

-- Two pairs of values at a place that differ by as much.
abbrev Moved : ℕ → Values → Values → Values → Values → Type 0
Moved i worker server worker' server' =
    (d : ℕ) × (worker' i % 2 ^ 64 ≡ (worker i + d) % 2 ^ 64)
    × (server' i % 2 ^ 64 ≡ (server i + d) % 2 ^ 64)

pub put_here : (vals : Values) (j i v : ℕ) → (j == i) ≡ true → put vals j v i ≡ v
put_here vals j i v e = rw e refl

pub put_there : (vals : Values) (j i v : ℕ) → (j == i) ≡ false → put vals j v i ≡ vals i
put_there vals j i v e = rw e refl

merged_here :
    (t : StatType) (vals : Values) (j i val : ℕ)
    → (j == i) ≡ true
    → t ≡ sum_stat
    → merge_at t j val vals i ≡ add_size (vals i) val
merged_here t vals j i val e h =
    put_here vals j i (merged t (vals j) val) e
    ∙ ap (λ u. merged u (vals j) val) h
    ∙ ap (λ k. add_size (vals k) val) ((==_iff j i).0 e)

merge-Moved :
    (t : StatType) (i j val : ℕ) (worker server : Values)
    → (j ≡ i → t ≡ sum_stat)
    → Moved i worker server (merge_at t j val worker) (merge_at t j val server)
merge-Moved t i j val worker server h = elim (Bool-cases (j == i)) [
  | inl e ↦
      let sum : t ≡ sum_stat = h ((==_iff j i).0 e) in
      (
        val,
        omega (arith, merged_here t worker j i val e sum),
        omega (arith, merged_here t server j i val e sum),
      )
  | inr e ↦ (
    0,
    omega (arith, put_there worker j i (merged t (worker j) val) e),
    omega (arith, put_there server j i (merged t (server j) val) e),
  )
]

Moved-trans :
    (i : ℕ) (w s w₁ s₁ w₂ s₂ : Values) → Moved i w s w₁ s₁ → Moved i w₁ s₁ w₂ s₂ → Moved i w s w₂ s₂
Moved-trans i w s w₁ s₁ w₂ s₂ m n = (m.0 + n.0, omega (arith, m.1, n.1), omega (arith, m.2, n.2))

apply_one-Moved :
    (items : Items) (rest : List Bytes) (i j : ℕ) (v : Option ℤ) (worker server : Values)
    → items.types i ≡ sum_stat
    → ((w s : Values) → let (ok, w₁, s₁) = apply_stats items rest w s in Moved i w s w₁ s₁)
    → let (ok, w₁, s₁) = apply_one (apply_stats items rest) items j v worker server in
      Moved i worker server w₁ s₁
apply_one-Moved items rest i j none worker server h ih = (0, omega arith, omega arith)
apply_one-Moved items rest i j (some val) worker server h ih =
    let w = merge_at (items.types j) j (to_word val) worker in
    let s = merge_at (items.types j) j (to_word val) server in
    let (ok, w₁, s₁) = apply_stats items rest w s in
    if_both (λ (r : Bool × Values × Values). Moved i worker server r.1 r.2) (leb items.count j)
      (0, omega arith, omega arith)
      (Moved-trans i worker server w s w₁ s₁
        (merge-Moved (items.types j) i j (to_word val) worker server (λ e. ap items.types e ∙ h))
        (ih w s))

apply_stats-Moved :
    (items : Items) (args : List Bytes) (i : ℕ) (worker server : Values)
    → items.types i ≡ sum_stat
    → let (ok, w₁, s₁) = apply_stats items args worker server in Moved i worker server w₁ s₁
unfolding apply_stats
apply_stats-Moved items [] i worker server h = (0, omega arith, omega arith)
apply_stats-Moved items (f ∷ []) i worker server h = (0, omega arith, omega arith)
apply_stats-Moved items (f ∷ v ∷ rest) i worker server h =
    apply_one-Moved items rest i (to_word (atoi f)) (string2ll v) worker server h
      (λ w s. apply_stats-Moved items rest i w s h)

-- A worker's values changed.
total-set :
    (i place : ℕ) (ws : List WorkerStats) (w w' : WorkerStats) (d : ℕ)
    → get_elem? ws place ≡ some w
    → w'.stats i % 2 ^ 64 ≡ (w.stats i + d) % 2 ^ 64
    → total i (set ws place w') % 2 ^ 64 ≡ (total i ws + d) % 2 ^ 64
total-set i place [] w w' d e h = cc
total-set i zero (x ∷ ws) w w' d e h =
    let same : x.stats i ≡ w.stats i = ap (λ (u : WorkerStats). u.stats i) (some-injective _ _ e) in
    omega (arith, h, same)
total-set i (suc place) (x ∷ ws) w w' d e h = omega (arith, total-set i place ws w w' d e h)

-- The sum over the workers is the master's value.
abbrev pub IsSummed : ℕ → Master → Type 0
IsSummed i m = total i m.workers % 2 ^ 64 ≡ m.stats i % 2 ^ 64

parse_for-IsSummed :
    (items : Items) (now : ℕ) (args : List Bytes) (m : Master) (place i : ℕ)
    (o : Option WorkerStats)
    → get_elem? m.workers place ≡ o
    → items.types i ≡ sum_stat
    → IsSummed i m
    → IsSummed i (parse_for items now args m place o).1
parse_for-IsSummed items now args m place i none e h k = k
parse_for-IsSummed items now args m place i (some w) e h k =
    let seen : WorkerStats = record w { refresh_time = now } in
    let (ok, w₁, s₁) = apply_stats items args w.stats m.stats in
    let (d, moved, moved_server) = apply_stats-Moved items args i w.stats m.stats h in
    if_both (λ (r : Bool × Master). IsSummed i r.1) (is_even (length args))
      (omega (
        arith,
        total-set i place m.workers w (record seen { stats = w₁ }) d e moved,
        moved_server,
        k,
      ))
      (omega (arith, total-set i place m.workers w seen 0 e (omega arith), k))

parse_found-IsSummed :
    (items : Items) (now : ℕ) (args : List Bytes) (m : Master) (i : ℕ) (o : Option ℕ)
    → items.types i ≡ sum_stat
    → IsSummed i m
    → IsSummed i (parse_found items now args m o).1
parse_found-IsSummed items now args m i none h k = k
parse_found-IsSummed items now args m i (some place) h k =
    parse_for-IsSummed items now args m place i (get_elem? m.workers place) refl h k

-- For each item that is summed up: whatever packet `parseStat` gets, also where it refuses it in the
-- middle, if the master's value was the sum over the workers' values before, modulo 2 ^ 64, then
-- so it is afterwards.
pub parse_stat-IsSummed :
    (items : Items) (now : ℕ) (argv : List Bytes) (m : Master) (i : ℕ)
    → items.types i ≡ sum_stat
    → IsSummed i m
    → IsSummed i (parse_stat items now argv m).1
unfolding parse_stat
parse_stat-IsSummed items now [] m i h k = k
parse_stat-IsSummed items now (command ∷ []) m i h k = k
parse_stat-IsSummed items now (command ∷ pid ∷ args) m i h k =
    parse_found-IsSummed items now args m i (find_worker (atoi pid) m.workers 0 none) h k
