-- ===== src/Worker/Clients/Limit.antt =====
-- When freeClient of src/worker/worker.c finds the client that it frees.
use wheatserver.Common.{
  ℕ, zero, suc, ◌+◌, ◌≤◌, ◌<◌, ◌≡◌, refl, sym, ap, ◌∙◌, true, false, Option, none, some, List, [],
  ◌∷◌, ◌++◌, ltb, leb, ◌==◌, if◌then◌else◌, if_cases, length, length-append, arith, ltb→lt,
  leb-false,
}
use wheatserver.Worker.Clients.{
  Pool, search_list_key, remove_list_node, take_client, create_client, free_client,
  create_and_fill_pool, init_pool,
}

-- A peer connects, for whom malloc would give a pointer, or a client is to be freed.
pub data Event : Type 0 where
  connects : ℕ → Event
  leaves : ℕ → Event

abbrev pub connected : ℕ × Pool → List ℕ → Option (Pool × List ℕ)
connected (c, p) open_ones = some (p, open_ones ++ (c ∷ []))

abbrev pub left : ℕ → List ℕ → Option Pool → Option (Pool × List ℕ)
left c open_ones none = none
left c open_ones (some p) = some (p, remove_list_node c open_ones)

-- `open_ones` are the clients that were created and not freed, of which there are `limit` at most.
unfoldable pub event_step : ℕ → Event → Pool → List ℕ → Option (Pool × List ℕ)
unfolding create_client free_client remove_list_node search_list_key
event_step limit (connects new) p open_ones =
    if ltb (length open_ones) limit
    then connected (create_client new p) open_ones
    else some (p, open_ones)
event_step limit (leaves c) p open_ones =
    if search_list_key c open_ones then left c open_ones (free_client c p) else some (p, open_ones)

abbrev pub then_events :
    (Pool → List ℕ → Option (Pool × List ℕ)) → Option (Pool × List ℕ) → Option (Pool × List ℕ)
then_events more none = none
then_events more (some (p, open_ones)) = more p open_ones

unfoldable pub run_events : ℕ → List Event → Pool → List ℕ → Option (Pool × List ℕ)
unfolding event_step
run_events limit [] p open_ones = some (p, open_ones)
run_events limit (e ∷ es) p open_ones =
    then_events (run_events limit es) (event_step limit e p open_ones)

-- The open clients are those of the list, and together with the free ones they are as many as the
-- pool was filled with.
record Balanced (p : Pool) (open_ones : List ℕ) : Type 0 where
  same : p.clients ≡ open_ones
  all : length p.free_clients + length p.clients ≡ 120

IsBalanced : Option (Pool × List ℕ) → Type 0
IsBalanced none = ⊥
IsBalanced (some (p, open_ones)) = Balanced p open_ones

length-remove_list_node :
    (c : ℕ) (ds : List ℕ)
    → search_list_key c ds ≡ true
    → length (remove_list_node c ds) + 1 ≡ length ds
unfolding search_list_key remove_list_node
length-remove_list_node c [] h = cc
length-remove_list_node c (d ∷ ds) h =
    elim (d == c)
        as (λ b.
          (if b then true else search_list_key c ds) ≡ true
          → length (if b then ds else d ∷ remove_list_node c ds) + 1 ≡ suc (length ds)) [
            | true ↦ λ k. omega arith
            | false ↦ λ k. omega (arith, length-remove_list_node c ds k)
          ]
      h

take_client-Balanced :
    (new : ℕ) (p : Pool) (open_ones frees : List ℕ)
    → p.free_clients ≡ frees
    → length open_ones < 120
    → Balanced p open_ones
    → IsBalanced (connected (take_client new p frees) open_ones)
unfolding IsBalanced
take_client-Balanced new p open_ones [] e few b =
    absurd (omega (arith, b.all, ap length e, ap length b.same))
take_client-Balanced new p open_ones (c ∷ cs) e few b = record {
  same = ap (λ l. l ++ (c ∷ [])) b.same;
  all = omega (arith, b.all, ap length e, length-append p.clients (c ∷ []));
}

event_step-IsBalanced :
    (limit : ℕ) (e : Event) (p : Pool) (open_ones : List ℕ)
    → limit ≤ 120
    → Balanced p open_ones
    → IsBalanced (event_step limit e p open_ones)
unfolding event_step create_client IsBalanced
event_step-IsBalanced limit (connects new) p open_ones h b =
    if_cases IsBalanced (ltb (length open_ones) limit)
      (λ e.
        take_client-Balanced new p open_ones p.free_clients refl (omega (arith, ltb→lt _ _ e, h)) b)
      (λ e. b)
event_step-IsBalanced limit (leaves c) p open_ones h b =
    if_cases IsBalanced (search_list_key c open_ones)
      (λ e.
        if_cases (λ o. IsBalanced (left c open_ones o)) (search_list_key c p.clients)
          (λ k. record {
            same = ap (remove_list_node c) b.same;
            all =
                let gone = length-remove_list_node c p.clients k in
                if_cases (λ fs. length fs + length (remove_list_node c p.clients) ≡ 120)
                  (leb (length p.free_clients) 120) {x = p.free_clients ++ (c ∷ [])}
                  {y = p.free_clients}
                  (λ few. omega (arith, b.all, gone, length-append p.free_clients (c ∷ [])))
                  (λ many. omega (arith, b.all, gone, leb-false _ _ many));
          })
          (λ k. absurd (no_confusion (sym e ∙ ap (search_list_key c) (sym b.same) ∙ k))))
      (λ e. b)
  where
    no_confusion : true ≡ false → ⊥
    no_confusion e = cc

then_events-IsBalanced :
    (more : Pool → List ℕ → Option (Pool × List ℕ)) (o : Option (Pool × List ℕ))
    → IsBalanced o
    → ((p : Pool) (open_ones : List ℕ) → Balanced p open_ones → IsBalanced (more p open_ones))
    → IsBalanced (then_events more o)
unfolding IsBalanced
then_events-IsBalanced more none k ih = k
then_events-IsBalanced more (some (p, open_ones)) k ih = ih p open_ones k

run_events-IsBalanced :
    (limit : ℕ) (es : List Event) (p : Pool) (open_ones : List ℕ)
    → limit ≤ 120
    → Balanced p open_ones
    → IsBalanced (run_events limit es p open_ones)
unfolding run_events
run_events-IsBalanced limit [] p open_ones h b = unfold IsBalanced in b
run_events-IsBalanced limit (e ∷ es) p open_ones h b =
    then_events-IsBalanced (run_events limit es) (event_step limit e p open_ones)
      (event_step-IsBalanced limit e p open_ones h b)
      (λ q qs k. run_events-IsBalanced limit es q qs h k)

length-create_and_fill_pool : (n : ℕ) (new : ℕ → ℕ) → length (create_and_fill_pool n new) ≡ n
unfolding create_and_fill_pool
length-create_and_fill_pool zero new = refl
length-create_and_fill_pool (suc n) new = omega (
  arith,
  length-append (create_and_fill_pool n new) (new n ∷ []),
  length-create_and_fill_pool n new,
)

-- From the start on, and while no more clients are open at once than the pool was filled with:
-- whatever malloc gives, `freeClient` finds each client that was created and not freed, so that its
-- assertion never fails, and `Clients` lists just these clients, in the order of their creation.
pub run_events_safe :
    (new : ℕ → ℕ) (limit : ℕ) (es : List Event)
    → limit ≤ 120
    → (p : Pool) × (open_ones : List ℕ) × (run_events limit es (init_pool new) []
        ≡ some (p, open_ones))
      × (p.clients ≡ open_ones)
run_events_safe new limit es h = found (run_events limit es (init_pool new) []) (
    run_events-IsBalanced limit es (init_pool new) [] h (
      unfold init_pool in
      (record { same = refl; all = omega (arith, length-create_and_fill_pool 120 new) })))
  where
    found :
        (o : Option (Pool × List ℕ))
        → IsBalanced o
        → (p : Pool) × (open_ones : List ℕ) × (o ≡ some (p, open_ones)) × (p.clients ≡ open_ones)
    found none k = absurd (unfold IsBalanced in k)
    found (some (p, open_ones)) k = (p, open_ones, refl, unfold IsBalanced in k.same)
