-- ===== src/Worker/Send/Changes.antt =====
-- What the changes of a client's connections in src/worker/worker.c mean for what the connections
-- were given.
use mathlib.Core.Path.{subst}
use wheatserver.Common.{
  ℕ, zero, suc, ◌+◌, ◌-◌, ◌≡◌, refl, sym, ap, ◌∙◌, Option, List, [], ◌∷◌, ◌++◌, append-nil, length,
}
use wheatserver.Slice.{Bytes, Slice}
use wheatserver.Worker.Send.{
  Transfer, Release, Packet, Conn, Client, conn_get, conn_new, at_place, append_to_send_queue,
  set_ready_send,
}
use wheatserver.Worker.Send.Moves.{Network}
use wheatserver.Worker.Send.Packets.{IsSized, packet_bytes}
use wheatserver.Worker.Send.Queues.{
  AreSized, AreSized-append, queue_bytes, queue_bytes-nil, queue_bytes-append,
}
use wheatserver.Worker.Send.Order.{Ordered, Ordered-open, Ordered-say}
use wheatserver.Worker.Send.Serve.{AllSized, queues, InOrder}

pub at_place_same :
    {A : Type 0} (i : ℕ) (f : A → A) (xs : List A) → ((x : A) → f x ≡ x) → at_place i f xs ≡ xs
at_place_same i f [] h = refl
at_place_same zero f (x ∷ xs) h = ap (λ y. y ∷ xs) (h x)
at_place_same (suc i) f (x ∷ xs) h = ap (◌∷◌ x) (at_place_same i f xs h)

AllSized-at_place :
    (i : ℕ) (f : Conn → Conn) (ds : List Conn)
    → ((d : Conn) → AreSized d.send_queue → AreSized (f d).send_queue)
    → AllSized ds
    → AllSized (at_place i f ds)
unfolding AllSized
AllSized-at_place i f [] h k = k
AllSized-at_place zero f (d ∷ ds) h k = (h d k.0, k.1)
AllSized-at_place (suc i) f (d ∷ ds) h k = (k.0, AllSized-at_place i f ds h k.1)

AllSized-append : (ds es : List Conn) → AllSized ds → AllSized es → AllSized (ds ++ es)
unfolding AllSized
AllSized-append [] es h k = k
AllSized-append (d ∷ ds) es h k = (h.0, AllSized-append ds es h.1 k)

module _ {S : Type 0} {write : Slice → S → Transfer × S} {send_file : ℕ → ℕ → ℕ → S → Transfer × S}
    {release : Release → S → S} (net : Network S write send_file release) where
  length-queues : (ds : List Conn) → length (queues net ds) ≡ length ds
  length-queues [] = refl
  length-queues (d ∷ ds) = ap suc (length-queues ds)

  queues-append : (ds es : List Conn) → queues net (ds ++ es) ≡ queues net ds ++ queues net es
  queues-append [] es = refl
  queues-append (d ∷ ds) es = ap (◌∷◌ (queue_bytes net d.send_queue)) (queues-append ds es)

  queues-at_place :
      (i : ℕ) (f : Conn → Conn) (g : Bytes → Bytes) (ds : List Conn)
      → ((d : Conn) → queue_bytes net (f d).send_queue ≡ g (queue_bytes net d.send_queue))
      → queues net (at_place i f ds) ≡ at_place i g (queues net ds)
  queues-at_place i f g [] h = refl
  queues-at_place zero f g (d ∷ ds) h = ap (λ b. b ∷ queues net ds) (h d)
  queues-at_place (suc i) f g (d ∷ ds) h =
      ap (◌∷◌ (queue_bytes net d.send_queue)) (queues-at_place i f g ds h)

  pub conn_get-InOrder :
      (rs : List Bytes) (p : Option ℕ) (c : Client) (os : S)
      → InOrder net rs c os
      → InOrder net (rs ++ ([] ∷ [])) (conn_get p c) os
  unfolding conn_get
  conn_get-InOrder rs p c os h = record {
    ordered =
        subst (λ l. Ordered (rs ++ ([] ∷ [])) l (net.output os))
          (sym (
            queues-append c.conns (conn_new p ∷ [])
            ∙ ap (λ b. queues net c.conns ++ (b ∷ [])) (unfold conn_new in queue_bytes-nil net)))
          (Ordered-open h.ordered);
    sized =
        AllSized-append c.conns (conn_new p ∷ []) h.sized
          (unfold AllSized AreSized conn_new in (tt, tt));
  }

  pub append-InOrder :
      (rs : List Bytes) (i : ℕ) (p : Packet) (c : Client) (os : S)
      → IsSized p
      → InOrder net rs c os
      → InOrder net
          (at_place (length rs - length c.conns + i) (λ b. b ++ packet_bytes net p) rs)
          (append_to_send_queue i p c)
          os
  unfolding append_to_send_queue
  append-InOrder rs i p c os small h = record {
    ordered =
        subst (λ l. Ordered (said (length c.conns)) l (net.output os))
          (sym (
            queues-at_place i _ (λ b. b ++ packet_bytes net p) c.conns
              (λ d.
                queue_bytes-append net d.send_queue (p ∷ [])
                ∙ ap (λ l. queue_bytes net d.send_queue ++ l)
                    (unfold queue_bytes in append-nil (packet_bytes net p)))))
          (subst
            (λ n.
              Ordered (said n) (at_place i (λ b. b ++ packet_bytes net p) (queues net c.conns))
                (net.output os))
            (length-queues c.conns) (Ordered-say i (packet_bytes net p) h.ordered));
    sized =
        AllSized-at_place i _ c.conns
          (λ d k. AreSized-append d.send_queue (p ∷ []) k (unfold AreSized in (small, tt))) h.sized;
  }
    where
      said : ℕ → List Bytes
      said n = at_place (length rs - n + i) (λ b. b ++ packet_bytes net p) rs

  pub set_ready_send-InOrder :
      (rs : List Bytes) (i : ℕ) (c : Client) (os : S)
      → InOrder net rs c os
      → InOrder net rs (set_ready_send i c) os
  unfolding set_ready_send
  set_ready_send-InOrder rs i c os h = record {
    ordered =
        subst (λ l. Ordered rs l (net.output os))
          (sym (
            queues-at_place i _ (λ b. b) c.conns (λ d. refl)
            ∙ at_place_same i (λ b. b) (queues net c.conns) (λ b. refl)))
          h.ordered;
    sized = AllSized-at_place i _ c.conns (λ d k. k) h.sized;
  }
