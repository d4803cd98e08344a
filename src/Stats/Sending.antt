-- ===== src/Stats/Sending.antt =====
-- That the master of src/stats.c takes over what a worker sends.
use mathlib.Core.Path.{subst}
use wheatserver.Common.{
  ℕ, zero, suc, ◌+◌, ◌-◌, ◌^◌, ◌≤◌, ◌<◌, ◌≡◌, inl, inr, refl, sym, ap, ◌∙◌, Bool, true, false, none,
  some, List, ◌∷◌, ◌==◌, if◌then◌else◌, if_both, if_cases, length, ltb, leb, ℤ, pos, negsuc,
  get_elem?, set, arith, Bool-cases,
}
use wheatserver.Slice.{Bytes}
use wheatserver.Number.{string2ll}
use wheatserver.Number.Decimal.{decimal}
use wheatserver.Number.Print.{signed_decimal}
use wheatserver.Number.Parse.{InRange, string2ll_complete}
use wheatserver.Stats.{
  Items, Values, WorkerStats, Master, to_word, of_word, atoi, find_worker, put, merge_at, apply_one,
  apply_stats, is_even, with_stats, parse_for, parse_found, parse_stat, is_sent, sent_one,
  send_loop, send_stat_packet,
}
use wheatserver.Stats.Atoi.{atoi-decimal, atoi-signed_decimal, to_word-of_word}
use wheatserver.Stats.Places.{taken_over, nothing_taken, skipped, merged_first}
use wheatserver.Stats.Sums.{put_there}

of_word-InRange : (v : ℕ) → v < 2 ^ 64 → InRange (of_word v)
unfolding InRange
of_word-InRange v h =
    if_cases InRange (ltb v (2 ^ 63)) {x = pos v} {y = negsuc (2 ^ 64 - 1 - v)}
      (λ e. ground (arith, e)) (λ e. ground (arith, e, h))

module _ (items : Items) where
  -- What was sent of `packet` is taken over from `vals`, in the worker's values and the server's.
  record TakesOver (vals : Values) (i n : ℕ) (packet : List Bytes) (worker server : Values)
      (ok : Bool) (worker' server' : Values) : Type 0 where
    accepted : ok ≡ true
    even : is_even (length packet) ≡ true
    worker_values : (j : ℕ) → worker' j ≡ taken_over items vals i n worker j
    server_values : (j : ℕ) → server' j ≡ taken_over items vals i n server j

  apply_step :
      (rest : List Bytes) (i v : ℕ) (worker server : Values)
      → i < items.count
      → items.count < 2 ^ 64
      → v < 2 ^ 64
      → apply_stats items (decimal i ∷ signed_decimal (of_word v) ∷ rest) worker server
        ≡ apply_stats items rest
            (merge_at (items.types i) i v worker)
            (merge_at (items.types i) i v server)
  unfolding apply_stats
  apply_step rest i v worker server h k l =
      let place : to_word (atoi (decimal i)) ≡ i =
        ap to_word (atoi-decimal i) ∙ omega (arith, h, k) in
      let inside : leb items.count i ≡ false = ground (arith, h) in
      let go = apply_stats items rest in
      ap (λ p. apply_one go items p (string2ll (signed_decimal (of_word v))) worker server) place
      ∙ ap (λ o. apply_one go items i o worker server)
          (string2ll_complete (of_word v) (of_word-InRange v l))
      ∙ ap
          (λ b.
            if b
            then (false, worker, server)
            else go (merge_at (items.types i) i (to_word (of_word v)) worker)
                (merge_at (items.types i) i (to_word (of_word v)) server))
          inside
      ∙ ap (λ u. go (merge_at (items.types i) i u worker) (merge_at (items.types i) i u server))
          (to_word-of_word v l)

  -- What the master makes of a packet.
  Packs : Values → ℕ → ℕ → List Bytes → Values → Values → Type 0
  Packs vals i n packet worker server =
      let (ok, worker', server') = apply_stats items packet worker server in
      TakesOver vals i n packet worker server ok worker' server'

  Packs-one :
      (vals left : Values) (i n : ℕ) (rest : List Bytes) (worker server : Values)
      → i < items.count
      → items.count < 2 ^ 64
      → vals i < 2 ^ 64
      → is_sent items vals i ≡ true
      → ((k : ℕ) → (i == k) ≡ false → left k ≡ vals k)
      → Packs left
          (suc i)
          n
          rest
          (merge_at (items.types i) i (vals i) worker)
          (merge_at (items.types i) i (vals i) server)
      → Packs vals i (suc n) (decimal i ∷ signed_decimal (of_word (vals i)) ∷ rest) worker server
  unfolding Packs
  Packs-one vals left i n rest worker server h k l e same r =
      let (ok, w₁, s₁) =
        apply_stats items rest (merge_at (items.types i) i (vals i) worker)
          (merge_at (items.types i) i (vals i) server) in
      subst
        (λ (o : Bool × Values × Values).
          TakesOver vals i (suc n) (decimal i ∷ signed_decimal (of_word (vals i)) ∷ rest) worker
            server o.0 o.1 o.2)
        (sym (apply_step rest i (vals i) worker server h k l))
        (record {
          accepted = r.accepted;
          even = omega_even (length rest) r.even;
          worker_values =
              λ j. merged_first items vals left i n worker w₁ j e same (r.worker_values j);
          server_values =
              λ j. merged_first items vals left i n server s₁ j e same (r.server_values j);
        })
    where
      omega_even : (m : ℕ) → is_even m ≡ true → is_even (suc (suc m)) ≡ true
      omega_even m h = ground (arith, h)

  Packs-none :
      (vals : Values) (i n : ℕ) (rest : List Bytes) (worker server : Values)
      → is_sent items vals i ≡ false
      → Packs vals (suc i) n rest worker server
      → Packs vals i (suc n) rest worker server
  unfolding Packs
  Packs-none vals i n rest worker server e r =
      let (ok, w₁, s₁) = apply_stats items rest worker server in
      record {
        accepted = r.accepted;
        even = r.even;
        worker_values = λ j. skipped items vals i n worker w₁ j e (r.worker_values j);
        server_values = λ j. skipped items vals i n server s₁ j e (r.server_values j);
      }

  send_loop-Packs :
      (n i : ℕ) (vals worker server : Values)
      → i + n ≤ items.count
      → items.count < 2 ^ 64
      → ((j : ℕ) → vals j < 2 ^ 64)
      → Packs vals i n (send_loop items n i vals).0 worker server
  unfolding send_loop
  send_loop-Packs zero i vals worker server h k small =
      unfold Packs apply_stats in
      record {
        accepted = refl;
        even = refl;
        worker_values = λ j. nothing_taken items vals i worker j;
        server_values = λ j. nothing_taken items vals i server j;
      }
  send_loop-Packs (suc n) i vals worker server h k small =
      let left : Values = if i == 0 then vals else put vals i 0 in
      let goal : Bool → Type 0 = λ b.
        Packs vals i (suc n)
          (elim b as (λ c. List Bytes × Values) [
            | true ↦ sent_one i vals (send_loop items n (suc i) left)
            | false ↦ send_loop items n (suc i) vals
          ]).0
          worker server in
      elim (Bool-cases (is_sent items vals i)) [
        | inl e ↦ subst goal (sym e) (
            Packs-one vals left i n (send_loop items n (suc i) left).0 worker server
              (omega (arith, h)) k (small i) e
              (λ j there.
                if_both (λ (l : Values). l j ≡ vals j) (i == 0) {x = vals} {y = put vals i 0} refl
                  (put_there vals i j 0 there))
              (send_loop-Packs n (suc i) left _ _ (omega (arith, h)) k (λ j.
                if_both (λ (l : Values). l j < 2 ^ 64) (i == 0) {x = vals} {y = put vals i 0}
                  (small j)
                  (if_both (λ v. v < 2 ^ 64) (i == j) {x = 0} {y = vals j} (omega arith)
                    (small j)))))
        | inr e ↦ subst goal (sym e) (
            Packs-none vals i n (send_loop items n (suc i) vals).0 worker server e
              (send_loop-Packs n (suc i) vals worker server (omega (arith, h)) k small))
      ]

  -- What the master is left with, if `w` at the place `place` sent `vals`.
  pub record IsReceived (now : ℕ) (vals : Values) (place : ℕ) (w : WorkerStats) (m m' : Master)
      : Type 0 where
    pub worker : WorkerStats
    pub in_place : m'.workers ≡ set m.workers place worker
    pub same_pid : worker.pid ≡ w.pid
    pub seen : worker.refresh_time ≡ now
    pub worker_values : (j : ℕ) → worker.stats j ≡ taken_over items vals 0 items.count w.stats j
    pub server_values : (j : ℕ) → m'.stats j ≡ taken_over items vals 0 items.count m.stats j

  -- What a worker sends with `sendStatPacket`, `parseStat` accepts, if the master knows the worker's
  -- pid, if values are `long long`s and the items are counted by a `size_t`: each value that is not
  -- 0, and not of an item of the master alone, is added, or replaces the old one or a smaller one, as
  -- its type says, for the worker and for the server; the other values, and the other workers, stay.
  pub parse_stat-send_stat_packet :
      (now : ℕ) (pid : ℤ) (cron_time : ℕ) (is_written : Bool) (vals : Values) (m : Master)
      (place : ℕ) (w : WorkerStats)
      → find_worker pid m.workers 0 none ≡ some place
      → get_elem? m.workers place ≡ some w
      → items.count < 2 ^ 64
      → ((j : ℕ) → vals j < 2 ^ 64)
      → (m' : Master) × (parse_stat items now
            (send_stat_packet items pid cron_time is_written vals).0
            m
          ≡ (true, m'))
        × IsReceived now vals place w m m'
  unfolding parse_stat send_stat_packet
  parse_stat-send_stat_packet now pid cron_time is_written vals m place w found at k small =
      let packet = (send_loop items items.count 0 vals).0 in
      let (ok, w₁, s₁) = apply_stats items packet w.stats m.stats in
      let taken : TakesOver vals 0 items.count packet w.stats m.stats ok w₁ s₁ =
        unfold Packs in send_loop-Packs items.count 0 vals w.stats m.stats (omega arith) k small in
      let new : WorkerStats = record w { refresh_time = now; stats = w₁ } in
      (
        record m { workers = set m.workers place new; stats = s₁ },
        ap (λ p. parse_found items now packet m (find_worker p m.workers 0 none))
              (atoi-signed_decimal pid)
            ∙ ap (parse_found items now packet m) found
            ∙ ap (parse_for items now packet m place) at
            ∙ ap
                (λ b.
                  if b then with_stats m place (record w { refresh_time = now }) (ok, w₁, s₁) else (
                    false,
                    record m { workers = set m.workers place (record w { refresh_time = now }) },
                  ))
                taken.even
            ∙ ap (λ b. (b, record m { workers = set m.workers place new; stats = s₁ }))
                taken.accepted,
        record {
          worker = new;
          in_place = refl;
          same_pid = refl;
          seen = refl;
          worker_values = taken.worker_values;
          server_values = taken.server_values;
        },
      )
