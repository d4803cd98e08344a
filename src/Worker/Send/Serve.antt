-- ===== src/Worker/Send/Serve.antt =====
-- What clientSendPacketList of src/worker/worker.c does to a client's connections.
use mathlib.Core.Path.{subst}
use wheatserver.Common.{
  ℕ, zero, suc, ◌+◌, ◌<◌, ◌≡◌, inl, inr, refl, sym, ap, ◌∙◌, false, Bool-cases, Option, none, some,
  List, [], ◌∷◌, arith, length, if◌then◌else◌,
}
use wheatserver.Slice.{Bytes, Slice}
use wheatserver.Worker.Send.{
  Transfer, Release, Packet, Status, completely, incompletely, wrong, running, Conn, Client,
  is_client_need_send, send_packets, conn_dealloc, after_queue, send_first, send_loop,
  client_send_packet_list,
}
use wheatserver.Worker.Send.Moves.{Network}
use wheatserver.Worker.Send.Queues.{
  AreSized, LeavesQueue, queue_bytes, queue_bytes-nil, SentQueue, send_packets_lem,
  conn_dealloc-silent,
}
use wheatserver.Worker.Send.Order.{Ordered, Ordered-sent, Ordered-gone}

unfoldable pub AllSized : List Conn → Type 0
AllSized [] = Unit
AllSized (d ∷ ds) = AreSized d.send_queue × AllSized ds

-- A client that needs no sending is left as it is.
pub idle :
    {S : Type 0} (write : Slice → S → Transfer × S) (send_file : ℕ → ℕ → ℕ → S → Transfer × S)
    (release : Release → S → S) (f : ℕ) (c : Client) (os : S)
    → 0 < f
    → is_client_need_send c ≡ false
    → send_loop write send_file release f c os ≡ some (c, os)
unfolding send_loop
idle write send_file release zero c os h e = absurd (omega (arith, h))
idle write send_file release (suc f) c os h e = rw e refl

-- A first connection that has nothing to send, and that the application still uses.
pub waits :
    (c : Client) (d : Conn) (ds : List Conn)
    → d.send_queue ≡ []
    → d.ready_send ≡ false
    → is_client_need_send (record c { conns = d ∷ ds }) ≡ false
unfolding is_client_need_send
waits c d ds e e' = ground (arith, e, e')

module _ {S : Type 0} {write : Slice → S → Transfer × S} {send_file : ℕ → ℕ → ℕ → S → Transfer × S}
    {release : Release → S → S} (net : Network S write send_file release) where
  abbrev pub queues : List Conn → List Bytes
  queues [] = []
  queues (d ∷ ds) = queue_bytes net d.send_queue ∷ queues ds

  -- `responses` are what the connections were given, and the socket got them in order.
  pub record InOrder (responses : List Bytes) (c : Client) (os : S) : Type 0 where
    pub ordered : Ordered responses (queues c.conns) (net.output os)
    pub sized : AllSized c.conns

  -- The loop ended, and kept the order.
  unfoldable pub LoopInOrder : List Bytes → Option (Client × S) → Type 0
  LoopInOrder rs none = ⊥
  LoopInOrder rs (some (c, os)) = InOrder rs c os

  after_queue-LoopInOrder :
      (rs : List Bytes) (f : ℕ) (c : Client) (d : Conn) (ds : List Conn) (os : S) (r : Status)
      (q : List Packet) (os₁ : S)
      → Ordered rs (queues (d ∷ ds)) (net.output os)
      → AllSized ds
      → 0 < f
      → SentQueue net d.send_queue os (r, q, os₁)
      → ((c₁ : Client) (os₂ : S)
          → InOrder rs c₁ os₂
          → c₁.conns ≡ ds
          → LoopInOrder rs (send_loop write send_file release f c₁ os₂))
      → LoopInOrder rs (
          after_queue write send_file release
            (send_loop write send_file release f)
            c
            d
            ds
            (r, q, os₁))
  unfolding LoopInOrder SentQueue LeavesQueue AllSized
  after_queue-LoopInOrder rs f c d ds os completely q os₁ o sized some_fuel sent ih =
      let loop : Client → S → Option (Client × S) =
        λ c₁ os₂. send_loop write send_file release f c₁ os₂ in
      let left : Conn = record d { send_queue = q } in
      let gone = loop (record c { conns = ds }) (conn_dealloc write send_file release left os₁) in
      let stays = loop (record c { conns = left ∷ ds }) os₁ in
      let kept : Ordered rs (queue_bytes net q ∷ queues ds) (net.output os₁) =
        Ordered-sent sent.2 o in
      elim (Bool-cases d.ready_send) [
        | inl e ↦
            subst (λ b. LoopInOrder rs (if b then gone else stays)) (sym e)
              (ih (record c { conns = ds }) (conn_dealloc write send_file release left os₁)
                (record {
                  ordered =
                      subst (λ out. Ordered rs (queues ds) out)
                        (sym (conn_dealloc-silent net left os₁))
                        (Ordered-gone (
                          subst (λ l. Ordered rs (l ∷ queues ds) (net.output os₁))
                            (ap (queue_bytes net) sent.0 ∙ queue_bytes-nil net) kept));
                  sized = sized;
                })
                refl)
        | inr e ↦
            subst (λ b. LoopInOrder rs (if b then gone else stays)) (sym e)
              (subst (LoopInOrder rs)
                (sym (
                  idle write send_file release f (record c { conns = left ∷ ds }) os₁ some_fuel
                    (waits c left ds sent.0 e)))
                (record { ordered = kept; sized = (sent.1, sized) }))
      ]
  after_queue-LoopInOrder rs f c d ds os incompletely q os₁ o sized some_fuel sent ih = record {
    ordered = Ordered-sent sent.2 o;
    sized = (sent.1, sized);
  }
  after_queue-LoopInOrder rs f c d ds os wrong q os₁ o sized some_fuel sent ih = record {
    ordered = Ordered-sent sent.2 o;
    sized = (sent.1, sized);
  }
  after_queue-LoopInOrder rs f c d ds os running q os₁ o sized some_fuel sent ih = absurd sent.0

  first-LoopInOrder :
      (rs : List Bytes) (f : ℕ) (c : Client) (cs : List Conn) (os : S)
      → c.conns ≡ cs
      → length cs < suc f
      → InOrder rs c os
      → ((c₁ : Client) (os₂ : S)
          → InOrder rs c₁ os₂
          → length c₁.conns < f
          → LoopInOrder rs (send_loop write send_file release f c₁ os₂))
      → LoopInOrder rs
          (send_first write send_file release (send_loop write send_file release f) c cs os)
  unfolding LoopInOrder
  first-LoopInOrder rs f c [] os e enough h ih = h
  first-LoopInOrder rs f c (d ∷ ds) os e enough h ih =
      let sized : AllSized (d ∷ ds) = subst AllSized e h.sized in
      let ordered : Ordered rs (queues (d ∷ ds)) (net.output os) =
        subst (λ l. Ordered rs (queues l) (net.output os)) e h.ordered in
      let (r, q, os₁) = send_packets write send_file release d.send_queue os in
      after_queue-LoopInOrder rs f c d ds os r q os₁ ordered (unfold AllSized in sized.1)
        (omega (arith, enough)) (send_packets_lem net d.send_queue os (unfold AllSized in sized.0))
        (λ c₁ os₂ k l. ih c₁ os₂ k (omega (arith, enough, ap length l)))

  send_loop-LoopInOrder :
      (rs : List Bytes) (f : ℕ) (c : Client) (os : S)
      → length c.conns < f
      → InOrder rs c os
      → LoopInOrder rs (send_loop write send_file release f c os)
  unfolding send_loop
  send_loop-LoopInOrder rs zero c os enough h = absurd (omega (arith, enough))
  send_loop-LoopInOrder rs (suc f) c os enough h = elim (Bool-cases (is_client_need_send c)) [
    | inl e ↦ rw e (
        first-LoopInOrder rs f c c.conns os refl enough h
          (λ c₁ os₂ k l. send_loop-LoopInOrder rs f c₁ os₂ l k))
    | inr e ↦ rw e (unfold LoopInOrder in h)
  ]

  -- `clientSendPacketList` ends, whatever the socket takes, and keeps the order.
  pub client_send_packet_list-LoopInOrder :
      (rs : List Bytes) (c : Client) (os : S)
      → InOrder rs c os
      → LoopInOrder rs (client_send_packet_list write send_file release c os)
  unfolding client_send_packet_list
  client_send_packet_list-LoopInOrder rs c os h =
      send_loop-LoopInOrder rs (length c.conns + 1) c os (omega arith) h
