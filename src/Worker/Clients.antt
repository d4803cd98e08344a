-- ===== src/Worker/Clients.antt =====
-- The clients of a worker in src/worker/worker.c: the pool that createClient and freeClient take
-- them from and give them back to, and clientsCron. A pointer to a client is a number. The lists of
-- src/list.c are sequences.
pub mod Limit
pub mod Cron
use wheatserver.Common.{
  ℕ, zero, suc, ◌+◌, ◌/◌, Bool, true, false, ◌&&◌, Option, none, some, List, [], ◌∷◌, ◌++◌, ltb,
  leb, ◌==◌, if◌then◌else◌, length,
}

-- `FreeClients` and `Clients`.
pub record Pool : Type 0 where
  pub free_clients : List ℕ
  pub clients : List ℕ

-- `searchListKey` on a list without a match function.
unfoldable pub search_list_key : ℕ → List ℕ → Bool
search_list_key c [] = false
search_list_key c (d ∷ ds) = if d == c then true else search_list_key c ds

-- `removeListNode` of the node that `searchListKey` finds.
unfoldable pub remove_list_node : ℕ → List ℕ → List ℕ
remove_list_node c [] = []
remove_list_node c (d ∷ ds) = if d == c then ds else d ∷ remove_list_node c ds

unfoldable pub list_rotate : List ℕ → List ℕ
list_rotate [] = []
list_rotate (c ∷ []) = c ∷ []
list_rotate (c ∷ d ∷ ds) = d ∷ (ds ++ (c ∷ []))

-- The client, and the lists; `new` is what malloc gives.
abbrev pub take_client : ℕ → Pool → List ℕ → ℕ × Pool
take_client new p [] = (new, p)
take_client new p (c ∷ cs) = (c, record { free_clients = cs; clients = p.clients ++ (c ∷ []) })

unfoldable pub create_client : ℕ → Pool → ℕ × Pool
create_client new p = take_client new p p.free_clients

-- `none` is the failed assertion.
unfoldable pub free_client : ℕ → Pool → Option Pool
unfolding search_list_key remove_list_node
free_client c p =
    if search_list_key c p.clients
    then some (record {
      free_clients =
          if leb (length p.free_clients) 120 then p.free_clients ++ (c ∷ []) else p.free_clients;
      clients = remove_list_node c p.clients;
    })
    else none

-- What malloc gave at the start.
unfoldable pub create_and_fill_pool : ℕ → (ℕ → ℕ) → List ℕ
create_and_fill_pool zero new = []
create_and_fill_pool (suc n) new = create_and_fill_pool n new ++ (new n ∷ [])

unfoldable pub init_pool : (ℕ → ℕ) → Pool
init_pool new = record { free_clients = create_and_fill_pool 120 new; clients = [] }

-- `close` is what else `freeClient` does with a client, `clean` is `msgClean` of its buffer, and
-- `last_io` and `has_conns` are read from it. Seconds are compared without the subtraction.
module _ {S : Type 0} (close clean : ℕ → S → S) (last_io : ℕ → ℕ) (has_conns : ℕ → Bool)
    (now timeout : ℕ) where
  abbrev pub is_idle : ℕ → Bool
  is_idle c = ltb (last_io c + timeout) now

  abbrev pub freed_idle : (Pool → S → Option (Pool × S)) → ℕ → S → Option Pool → Option (Pool × S)
  freed_idle more c os none = none
  freed_idle more c os (some p) = more p (close c os)

  abbrev pub visit_first : (Pool → S → Option (Pool × S)) → Pool → List ℕ → S → Option (Pool × S)
  visit_first more p [] os = some (p, os)
  visit_first more p (c ∷ cs) os =
      let rotated = record p { clients = list_rotate p.clients } in
      if is_idle c
      then freed_idle more c os (free_client c rotated)
      else more rotated (if has_conns c then os else clean c os)

  unfoldable pub cron_loop : ℕ → Pool → S → Option (Pool × S)
  unfolding list_rotate free_client
  cron_loop zero p os = some (p, os)
  cron_loop (suc k) p os = visit_first (cron_loop k) p p.clients os

  unfoldable pub clients_cron : Pool → S → Option (Pool × S)
  unfolding cron_loop
  clients_cron p os =
      let numclients = length p.clients in
      cron_loop (if ltb numclients 50 then numclients else numclients / 10) p os
