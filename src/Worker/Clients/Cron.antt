-- ===== src/Worker/Clients/Cron.antt =====
-- What clientsCron of src/worker/worker.c does to the clients.
use mathlib.Core.Path.{subst}
use wheatserver.Common.{
  ℕ, zero, suc, ◌≤◌, ◌/◌, ◌≡◌, ◌≢◌, refl, sym, ap, ◌∙◌, Bool, true, false, Option, some, List, [],
  ◌∷◌, ◌++◌, ltb, leb, ◌==◌, ==_iff, if◌then◌else◌, if_both, if_cases, length, arith, append-nil,
  append_assoc, take, drop,
}
use wheatserver.Worker.Clients.{
  Pool, search_list_key, remove_list_node, list_rotate, free_client, is_idle, freed_idle,
  visit_first, cron_loop, clients_cron,
}

unfoldable pub IsAbsent : ℕ → List ℕ → Type 0
IsAbsent c [] = Unit
IsAbsent c (d ∷ ds) = (d ≢ c) × IsAbsent c ds

-- No pointer stands in the list twice.
unfoldable pub AreDistinct : List ℕ → Type 0
AreDistinct [] = Unit
AreDistinct (c ∷ cs) = IsAbsent c cs × AreDistinct cs

list_rotate_lem : (c : ℕ) (cs : List ℕ) → list_rotate (c ∷ cs) ≡ cs ++ (c ∷ [])
unfolding list_rotate
list_rotate_lem c [] = refl
list_rotate_lem c (d ∷ ds) = refl

search-append_last : (c : ℕ) (ds : List ℕ) → search_list_key c (ds ++ (c ∷ [])) ≡ true
unfolding search_list_key
search-append_last c [] = ground arith
search-append_last c (d ∷ ds) = if_both (λ b. b ≡ true) (d == c) refl (search-append_last c ds)

remove-append_last :
    (c : ℕ) (ds : List ℕ) → IsAbsent c ds → remove_list_node c (ds ++ (c ∷ [])) ≡ ds
unfolding remove_list_node IsAbsent
remove-append_last c [] h = ground arith
remove-append_last c (d ∷ ds) h =
    if_cases (λ l. l ≡ d ∷ ds) (d == c) (λ e. absurd (h.0 ((==_iff _ _).0 e)))
      (λ e. ap (◌∷◌ d) (remove-append_last c ds h.1))

IsAbsent-append : (c : ℕ) (xs ys : List ℕ) → IsAbsent c xs → IsAbsent c ys → IsAbsent c (xs ++ ys)
unfolding IsAbsent
IsAbsent-append c [] ys h k = k
IsAbsent-append c (x ∷ xs) ys h k = (h.0, IsAbsent-append c xs ys h.1 k)

AreDistinct-rotate :
    (c : ℕ) (cs : List ℕ) → IsAbsent c cs → AreDistinct cs → AreDistinct (cs ++ (c ∷ []))
unfolding AreDistinct IsAbsent
AreDistinct-rotate c [] h k = (tt, tt)
AreDistinct-rotate c (d ∷ ds) h k =
    (IsAbsent-append d ds (c ∷ []) k.0 ((λ e. h.0 (sym e)), tt), AreDistinct-rotate c ds h.1 k.1)

free_client_found :
    (c : ℕ) (p : Pool)
    → search_list_key c p.clients ≡ true
    → (q : Pool) × (free_client c p ≡ some q) × (q.clients ≡ remove_list_node c p.clients)
unfolding free_client
free_client_found c p h = (
  record {
    free_clients =
        if leb (length p.free_clients) 120 then p.free_clients ++ (c ∷ []) else p.free_clients;
    clients = remove_list_node c p.clients;
  },
  rw h refl,
  refl,
)

module _ {S : Type 0} (close clean : ℕ → S → S) (last_io : ℕ → ℕ) (has_conns : ℕ → Bool)
    (now timeout : ℕ) where
  -- What happens to the clients one after the other, and those that stay.
  unfoldable pub visit_all : List ℕ → S → S
  visit_all [] os = os
  visit_all (c ∷ cs) os = visit_all cs (
      if is_idle close clean last_io has_conns now timeout c
      then close c os
      else if has_conns c
      then os
      else clean c os)

  unfoldable pub active : List ℕ → List ℕ
  active [] = []
  active (c ∷ cs) =
      if is_idle close clean last_io has_conns now timeout c then active cs else c ∷ active cs

  abbrev Ended : Option (Pool × S) → List ℕ → S → Type 0
  Ended o cs os = (q : Pool) × (o ≡ some (q, os)) × (q.clients ≡ cs)

  abbrev loop : ℕ → Pool → S → Option (Pool × S)
  loop = cron_loop close clean last_io has_conns now timeout

  cron_loop-Ended :
      (k : ℕ) (cs ds : List ℕ) (p : Pool) (os : S)
      → k ≤ length cs
      → p.clients ≡ cs ++ ds
      → AreDistinct (cs ++ ds)
      → Ended (loop k p os) (drop k cs ++ (ds ++ active (take k cs))) (visit_all (take k cs) os)
  unfolding cron_loop active visit_all AreDistinct
  cron_loop-Ended zero cs ds p os few e distinct =
      (p, refl, e ∙ ap (λ l. cs ++ l) (sym (append-nil ds)))
  cron_loop-Ended (suc k) [] ds p os few e distinct = absurd (omega (arith, few))
  cron_loop-Ended (suc k) (c ∷ cs) ds p os few e distinct =
      let rotated : Pool = record p { clients = list_rotate p.clients } in
      let turned : rotated.clients ≡ (cs ++ ds) ++ (c ∷ []) =
        ap list_rotate e ∙ list_rotate_lem c (cs ++ ds) in
      let (q, freed, left) =
        free_client_found c rotated
          (ap (search_list_key c) turned ∙ search-append_last c (cs ++ ds)) in
      let idle_case =
        cron_loop-Ended k cs ds q (close c os) (omega (arith, few))
          (left ∙ ap (remove_list_node c) turned ∙ remove-append_last c (cs ++ ds) distinct.0)
          distinct.1 in
      let os₁ = if has_conns c then os else clean c os in
      let active_case =
        cron_loop-Ended k cs (ds ++ (c ∷ [])) rotated os₁ (omega (arith, few))
          (turned ∙ append_assoc cs ds (c ∷ []))
          (subst AreDistinct (append_assoc cs ds (c ∷ []))
            (AreDistinct-rotate c (cs ++ ds) distinct.0 distinct.1)) in
      subst
        (λ l.
          Ended (visit_first close clean last_io has_conns now timeout (loop k) p l os)
            (drop k cs ++ (ds ++ active (take (suc k) (c ∷ cs))))
            (visit_all (take (suc k) (c ∷ cs)) os))
        (sym e)
        (elim (is_idle close clean last_io has_conns now timeout c)
          as (λ b.
            Ended
              (if b
                then freed_idle close clean last_io has_conns now timeout (loop k) c os
                    (free_client c rotated)
                else loop k rotated os₁)
              (drop k cs ++ (ds ++ (if b then active (take k cs) else c ∷ active (take k cs))))
              (visit_all (take k cs) (if b then close c os else os₁))) [
                | true ↦ (
                  idle_case.0,
                  ap (freed_idle close clean last_io has_conns now timeout (loop k) c os) freed
                      ∙ idle_case.1,
                  idle_case.2,
                )
                | false ↦ (
                  active_case.0,
                  active_case.1,
                  active_case.2
                      ∙ ap (λ l. drop k cs ++ l) (append_assoc ds (c ∷ []) (active (take k cs))),
                )
              ])

  -- How many clients a run looks at.
  abbrev pub looked_at : ℕ → ℕ
  looked_at n = if ltb n 50 then n else n / 10

  -- If no client is listed twice, then `clientsCron` looks at the clients at the front, at all of
  -- them if they are fewer than 50 and otherwise at a tenth: it closes those of them that are
  -- idle, and cleans the buffers of the others that have no connection, in their order; the ones
  -- that stay open are moved behind the others; and no assertion fails.
  pub clients_cron_lem :
      (p : Pool) (os : S)
      → AreDistinct p.clients
      → (q : Pool) × (clients_cron close clean last_io has_conns now timeout p os
          ≡ some (q, visit_all (take (looked_at (length p.clients)) p.clients) os))
        × (q.clients
            ≡ drop (looked_at (length p.clients)) p.clients
              ++ active (take (looked_at (length p.clients)) p.clients))
  unfolding clients_cron
  clients_cron_lem p os distinct =
      cron_loop-Ended (looked_at (length p.clients)) p.clients [] p os (some_of (length p.clients))
        (sym (append-nil p.clients)) (subst AreDistinct (sym (append-nil p.clients)) distinct)
    where
      some_of : (n : ℕ) → looked_at n ≤ n
      some_of n = if_both (λ k. k ≤ n) (ltb n 50) {x = n} {y = n / 10} (omega arith) (omega arith)
