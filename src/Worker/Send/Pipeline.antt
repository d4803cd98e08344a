-- ===== src/Worker/Send/Pipeline.antt =====
-- Any sequence of uses of a client's connections, as the parser, the application and the event loop
-- make them in src/worker/worker.c and src/worker/worker_async.c.
use mathlib.Core.Path.{subst}
use wheatserver.Common.{
  ℕ, ◌+◌, ◌-◌, ◌^◌, ◌<◌, ◌≡◌, refl, sym, ap, ◌∙◌, Bool, true, false, not, ◌⊎◌, inl, inr, Bool-cases,
  arith, ◌&&◌, ◌||◌, ==_iff, ◌==◌, Option, none, some, List, [], ◌∷◌, ◌++◌, append-nil, length,
  take, if_both, if_cases,
}
use wheatserver.Slice.{Bytes, Slice, view, readable}
use wheatserver.Worker.Send.{
  Transfer, Release, slice, file, Conn, Client, is_client_need_send, at_place, append_to_send_queue,
  set_ready_send, client_send_packet_list,
}
use wheatserver.Worker.Send.Moves.{Network, file_bytes}
use wheatserver.Worker.Send.Packets.{IsSized}
use wheatserver.Worker.Send.Queues.{conn_dealloc-silent}
use wheatserver.Worker.Send.Order.{flat, Ordered-flat}
use wheatserver.Worker.Send.Serve.{
  queues, InOrder, LoopInOrder, client_send_packet_list-LoopInOrder,
}
use wheatserver.Worker.Send.Changes.{
  at_place_same, conn_get-InOrder, append-InOrder, set_ready_send-InOrder,
}
use wheatserver.Worker.Send.Calls.{
  Kept, kept, freed, Use, request, send_data, send_a_file, finish, has_room, finish_conn,
  after_send, async_send_data, send_client_data, send_client_file, dealloc_all, try_free_client,
  after_room, send_reply_to_client, still, still_after, use_step,
}

-- Lengths are `size_t`.
unfoldable pub IsSizedUse : Use → Type 0
IsSizedUse (send_data i s) = s.len < 2 ^ 64
IsSizedUse (send_a_file i fd len) = len < 2 ^ 64
IsSizedUse (request p) = Unit
IsSizedUse (finish i) = Unit
IsSizedUse has_room = Unit

-- What the connections were given, after a use of a client with `n` connections.
unfoldable pub tell : (ℕ → Bytes) → ℕ → Use → List Bytes → List Bytes
tell content n (request p) rs = rs ++ ([] ∷ [])
tell content n (send_data i s) rs = at_place (length rs - n + i) (λ b. b ++ view s) rs
tell content n (send_a_file i fd len) rs =
    at_place (length rs - n + i) (λ b. b ++ file_bytes (content fd) 0 len) rs
tell content n (finish i) rs = rs
tell content n has_room rs = rs

module _ {S : Type 0} {write : Slice → S → Transfer × S} {send_file : ℕ → ℕ → ℕ → S → Transfer × S}
    {release : Release → S → S} (net : Network S write send_file release) where
  -- What the socket got and what waits in the queues are together the responses, in order.
  abbrev pub AreSplit : List Bytes → Client → S → Type 0
  AreSplit rs c os = net.output os ++ flat (queues net c.conns) ≡ flat rs

  -- A client that may be freed: it is invalid, or to be closed and its first connection, if it has
  -- one, has nothing to send and is still used.
  pub IsOver : Client → Type 0
  IsOver c = (c.valid ≡ false) ⊎ ((c.should_close ≡ true) × (is_client_need_send c ≡ false))

  -- The use ended and kept the order.
  unfoldable pub KeptInOrder : List Bytes → Option (Kept S) → Type 0
  KeptInOrder rs none = ⊥
  KeptInOrder rs (some (kept c os)) = InOrder net rs c os
  KeptInOrder rs (some (freed c os)) = AreSplit rs c os × IsOver c

  SentInOrder : List Bytes → Option (Bool × Client × S) → Type 0
  SentInOrder rs none = ⊥
  SentInOrder rs (some (ok, c, os)) = InOrder net rs c os

  after_send-SentInOrder :
      (rs : List Bytes) (o : Option (Client × S))
      → LoopInOrder net rs o
      → SentInOrder rs (after_send write send_file release o)
  unfolding LoopInOrder SentInOrder
  after_send-SentInOrder rs none h = h
  after_send-SentInOrder rs (some (c, os)) h =
      if_both (SentInOrder rs) c.valid
        (if_both (λ d. InOrder net rs d os) (is_client_need_send c)
          (record { ordered = h.ordered; sized = h.sized }) h)
        h

  async_send_data-SentInOrder :
      (rs : List Bytes) (c : Client) (os : S)
      → InOrder net rs c os
      → SentInOrder rs (async_send_data write send_file release c os)
  unfolding async_send_data SentInOrder
  async_send_data-SentInOrder rs c os h =
      if_both (SentInOrder rs) c.valid
        (after_send-SentInOrder rs (client_send_packet_list write send_file release c os)
          (client_send_packet_list-LoopInOrder net rs c os h))
        h

  dealloc_all-silent :
      (ds : List Conn) (os : S)
      → net.output (dealloc_all write send_file release ds os) ≡ net.output os
  dealloc_all-silent [] os = refl
  dealloc_all-silent (d ∷ ds) os = dealloc_all-silent ds _ ∙ conn_dealloc-silent net d os

  not_kept-IsOver :
      (c : Client) → (c.valid && (is_client_need_send c || not c.should_close)) ≡ false → IsOver c
  unfolding IsOver
  not_kept-IsOver c h = elim (Bool-cases c.valid) [
    | inl e ↦ inr (ground (arith, h, e), ground (arith, h, e))
    | inr e ↦ inl e
  ]

  try_free_client-KeptInOrder :
      (rs : List Bytes) (c : Client) (os : S)
      → InOrder net rs c os
      → KeptInOrder rs (some (try_free_client write send_file release c os))
  unfolding try_free_client KeptInOrder
  try_free_client-KeptInOrder rs c os h =
      if_cases (λ k. KeptInOrder rs (some k))
        (c.valid && (is_client_need_send c || not c.should_close)) (λ e. h)
        (λ e. (
          ap (λ l. l ++ flat (queues net c.conns)) (dealloc_all-silent c.conns os)
              ∙ Ordered-flat h.ordered,
          not_kept-IsOver c e,
        ))

  after_room-KeptInOrder :
      (rs : List Bytes) (o : Option (Client × S))
      → LoopInOrder net rs o
      → KeptInOrder rs (after_room write send_file release o)
  unfolding LoopInOrder KeptInOrder
  after_room-KeptInOrder rs none h = h
  after_room-KeptInOrder rs (some (c, os)) h =
      if_both (KeptInOrder rs) (not c.valid || not (is_client_need_send c))
        (try_free_client-KeptInOrder rs (record c { write_event = false }) os
          (record { ordered = h.ordered; sized = h.sized }))
        h

  still-KeptInOrder :
      (rs : List Bytes) (o : Option (Client × S))
      → LoopInOrder net rs o
      → KeptInOrder rs (still write send_file release o)
  unfolding LoopInOrder KeptInOrder
  still-KeptInOrder rs none h = h
  still-KeptInOrder rs (some (c, os)) h = h

  still_after-KeptInOrder :
      (rs : List Bytes) (o : Option (Bool × Client × S))
      → SentInOrder rs o
      → KeptInOrder rs (still_after write send_file release o)
  unfolding SentInOrder KeptInOrder
  still_after-KeptInOrder rs none h = h
  still_after-KeptInOrder rs (some (ok, c, os)) h = h

  abbrev said : ℕ → Slice → Client → List Bytes → List Bytes
  said i s c rs = at_place (length rs - length c.conns + i) (λ b. b ++ view s) rs

  nothing_said : (i : ℕ) (s : Slice) (c : Client) (rs : List Bytes) → s.len ≡ 0 → said i s c rs ≡ rs
  nothing_said i s c rs e =
      at_place_same (length rs - length c.conns + i) (λ b. b ++ view s) rs
        (λ b. ap (λ n. b ++ take n (readable s.pointer)) e ∙ append-nil b)

  -- Every use of a client ends, and keeps the order.
  pub use_step-KeptInOrder :
      (rs : List Bytes) (u : Use) (c : Client) (os : S)
      → IsSizedUse u
      → InOrder net rs c os
      → KeptInOrder
          (tell net.content (length c.conns) u rs)
          (use_step write send_file release u c os)
  unfolding use_step tell finish_conn send_client_data send_client_file IsSizedUse SentInOrder
  use_step-KeptInOrder rs (request p) c os small h =
      unfold KeptInOrder in conn_get-InOrder net rs p c os h
  use_step-KeptInOrder rs (send_data i s) c os small h =
      still_after-KeptInOrder (said i s c rs) (send_client_data write send_file release i s c os) (
        if_cases (SentInOrder (said i s c rs)) (s.len == 0)
          (λ e. subst (λ l. InOrder net l c os) (sym (nothing_said i s c rs ((==_iff _ _).0 e))) h)
          (λ e.
            async_send_data-SentInOrder (said i s c rs) (append_to_send_queue i (slice s) c) os
              (append-InOrder net rs i (slice s) c os (unfold IsSized in small) h)))
  use_step-KeptInOrder rs (send_a_file i fd len) c os small h =
      still_after-KeptInOrder _ (send_client_file write send_file release i fd len c os) (
        async_send_data-SentInOrder _ (append_to_send_queue i (file fd 0 len) c) os
          (append-InOrder net rs i (file fd 0 len) c os (unfold IsSized in small) h))
  use_step-KeptInOrder rs (finish i) c os small h = still-KeptInOrder rs _ (
      client_send_packet_list-LoopInOrder net rs (set_ready_send i c) os
        (set_ready_send-InOrder net rs i c os h))
  use_step-KeptInOrder rs has_room c os small h =
      unfold send_reply_to_client in
      if_both (KeptInOrder rs) c.valid
        (after_room-KeptInOrder rs (client_send_packet_list write send_file release c os)
          (client_send_packet_list-LoopInOrder net rs c os h))
        (unfold KeptInOrder in h)
