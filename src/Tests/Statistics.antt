-- ===== src/Tests/Statistics.antt =====
-- src/stats.c with two workers.
use wheatserver.Common.{
  ℕ, zero, suc, ◌^◌, ◌<◌, ◌≡◌, refl, Bool, true, false, List, [], ◌∷◌, ◌==◌, if_both, arith, pos,
}
use wheatserver.Slice.{Bytes}
use wheatserver.Number.{string2ll}
use wheatserver.Stats.{
  sum_stat, max_stat, assign_stat, Items, Values, WorkerStats, Master, atoi, find_worker, put,
  apply_stats, parse_stat, send_loop, send_stat_packet,
}
use wheatserver.Stats.Sums.{IsSummed, parse_stat-IsSummed}
use wheatserver.Stats.Sending.{IsReceived, parse_stat-send_stat_packet}

abbrev items : Items
items = record {
  count = 3;
  types =
      λ i. elim i [ zero ↦ assign_stat | suc j ↦ elim j [ zero ↦ sum_stat | suc k ↦ max_stat ] ];
  only_master = λ i. false;
}

abbrev nothing : Values
nothing i = 0

abbrev master : Master
master = record {
  workers =
      record { pid = pos 7; refresh_time = 1; stats = nothing }
      ∷ record { pid = pos 9; refresh_time = 1; stats = put nothing 1 3 }
      ∷ [];
  stats = put nothing 1 3;
}

abbrev input : Bytes → Bytes → Bytes → List Bytes
input pid place value = [] ∷ pid ∷ place ∷ value ∷ []

abbrev seen : Bool × Master → Bool × List (ℕ × ℕ) × ℕ
seen (ok, m) = (ok, each m.workers, m.stats 1)
  where
    each : List WorkerStats → List (ℕ × ℕ)
    each [] = []
    each (w ∷ ws) = (w.refresh_time, w.stats 1) ∷ each ws

-- A packet of the worker 7.
known_run :
    seen (parse_stat items 20 (input (b'7' ∷ []) (b'1' ∷ []) (b'4' ∷ b'2' ∷ [])) master)
    ≡ (true, (20, 42) ∷ (1, 3) ∷ [], 45)
unfolding parse_stat atoi find_worker apply_stats string2ll
known_run = refl

-- No worker has the pid 8: the packet counts for the worker that was looked at last.
unknown_run :
    seen (parse_stat items 20 (input (b'8' ∷ []) (b'1' ∷ []) (b'4' ∷ b'2' ∷ [])) master)
    ≡ (true, (1, 0) ∷ (20, 45) ∷ [], 45)
unfolding parse_stat atoi find_worker apply_stats string2ll
unknown_run = refl

parse_stat-IsSummed_example :
    IsSummed 1 (parse_stat items 20 (input (b'7' ∷ []) (b'1' ∷ []) (b'4' ∷ b'2' ∷ [])) master).1
parse_stat-IsSummed_example =
    parse_stat-IsSummed items 20 (input (b'7' ∷ []) (b'1' ∷ []) (b'4' ∷ b'2' ∷ [])) master 1 refl
      refl

-- What the worker 9 counted.
abbrev counted : Values
counted = put (put nothing 1 6) 2 100

counted_small : (j : ℕ) → counted j < 2 ^ 64
counted_small j =
    if_both (λ v. v < 2 ^ 64) (2 == j) {x = 100} {y = put nothing 1 6 j} (omega arith)
      (if_both (λ v. v < 2 ^ 64) (1 == j) {x = 6} {y = 0} (omega arith) (omega arith))

parse_stat-send_stat_packet_example :
    (m' : Master) × (parse_stat items 20 (send_stat_packet items (pos 9) 21 true counted).0 master
      ≡ (true, m'))
    × IsReceived items 20 counted 1
        (record { pid = pos 9; refresh_time = 1; stats = put nothing 1 3 })
        master
        m'
parse_stat-send_stat_packet_example =
    parse_stat-send_stat_packet items 20 (pos 9) 21 true counted master 1
      (record { pid = pos 9; refresh_time = 1; stats = put nothing 1 3 })
      (unfold find_worker in refl) refl (omega arith) counted_small

abbrev firsts : Values → List ℕ
firsts vals = vals 0 ∷ vals 1 ∷ vals 2 ∷ []

-- After a whole write all values are 0 but the first one, which is the time.
left_run : firsts (send_stat_packet items (pos 9) 21 true counted).1 ≡ 21 ∷ 0 ∷ 0 ∷ []
unfolding send_stat_packet send_loop
left_run = refl
