-- ===== src/Tests/Clients.antt =====
-- The pool of clients of src/worker/worker.c, and its cron.
use wheatserver.Common.{ℕ, ◌+◌, ◌≡◌, refl, Bool, false, none, some, List, [], ◌∷◌, ◌++◌, arith}
use wheatserver.Worker.Clients.{
  Pool, create_client, free_client, search_list_key, remove_list_node, init_pool, clients_cron,
  cron_loop, list_rotate,
}
use wheatserver.Worker.Clients.Limit.{
  Event, connects, leaves, event_step, run_events, run_events_safe,
}
use wheatserver.Worker.Clients.Cron.{IsAbsent, AreDistinct, visit_all, active, clients_cron_lem}

abbrev addresses : ℕ → ℕ
addresses n = 1000 + n

abbrev some_events : List Event
some_events = connects 1 ∷ connects 2 ∷ leaves 1001 ∷ connects 3 ∷ leaves 1000 ∷ []

run_events_safe_example :
    (p : Pool) × (open_ones : List ℕ) × (run_events 120 some_events (init_pool addresses) []
      ≡ some (p, open_ones))
    × (p.clients ≡ open_ones)
run_events_safe_example = run_events_safe addresses 120 some_events (omega arith)

-- With two clients in the pool, the third one that connects is not listed, and freeing it fails.
exhausted_run :
    run_events 3
      (connects 7 ∷ connects 8 ∷ connects 9 ∷ leaves 9 ∷ [])
      (record { free_clients = 1 ∷ 2 ∷ []; clients = [] })
      []
    ≡ none
unfolding run_events event_step create_client free_client search_list_key remove_list_node
exhausted_run = refl

abbrev times : ℕ → ℕ
times c = c

abbrev note : ℕ → List ℕ → List ℕ
note c os = os ++ (c ∷ [])

abbrev clean : ℕ → List ℕ → List ℕ
clean c os = os ++ ((c + 100) ∷ [])

abbrev no_conns : ℕ → Bool
no_conns c = false

abbrev pool : Pool
pool = record { free_clients = []; clients = 5 ∷ 30 ∷ 6 ∷ [] }

-- At second 20 and with a timeout of 10 seconds.
cron_run :
    clients_cron note clean times no_conns 20 10 pool []
    ≡ some (record { free_clients = 5 ∷ 6 ∷ []; clients = 30 ∷ [] }, 5 ∷ 130 ∷ 6 ∷ [])
unfolding clients_cron cron_loop free_client search_list_key remove_list_node list_rotate
cron_run = refl

pool_distinct : AreDistinct pool.clients
unfolding AreDistinct IsAbsent
pool_distinct = (
  ((λ e. omega (arith, e)), ((λ e. omega (arith, e)), tt)),
  (((λ e. omega (arith, e)), tt), (tt, tt)),
)

clients_cron_lem_example :
    (q : Pool) × (clients_cron note clean times no_conns 20 10 pool []
      ≡ some (q, visit_all note clean times no_conns 20 10 (5 ∷ 30 ∷ 6 ∷ []) []))
    × (q.clients ≡ [] ++ active note clean times no_conns 20 10 (5 ∷ 30 ∷ 6 ∷ []))
clients_cron_lem_example = clients_cron_lem note clean times no_conns 20 10 pool [] pool_distinct
