-- ===== src/Worker/Send/Drain.antt =====
-- What clientSendPacketList of src/worker/worker.c leaves when the socket takes what it is offered.
use mathlib.Core.Path.{subst}
use mathlib.Core.List.{append_cancel_right}
use wheatserver.Common.{
  ℕ, zero, suc, ◌+◌, ◌<◌, ◌≡◌, inl, inr, refl, sym, ap, ◌∙◌, Bool, true, false, Bool-cases, Option,
  some, List, [], ◌∷◌, ◌++◌, arith, length, if◌then◌else◌, append_assoc, append-nil,
}
use wheatserver.Slice.{Bytes, Slice, view}
use wheatserver.Worker.Send.{
  Transfer, Release, Packet, slice, file, completely, Conn, Client, is_client_need_send,
  send_packets, conn_dealloc, after_queue, send_first, send_loop, client_send_packet_list,
}
use wheatserver.Worker.Send.Moves.{Network, file_bytes}
use wheatserver.Worker.Send.Packets.{IsSized}
use wheatserver.Worker.Send.Queues.{AreSized, queue_bytes, queue_bytes-nil}
use wheatserver.Worker.Send.Order.{flat, Ordered, Ordered-flat, nothing_ahead}
use wheatserver.Worker.Send.Whole.{IsWhole, AreWhole, TakesSome, send_packets-completely}
use wheatserver.Worker.Send.Serve.{
  AllSized, queues, InOrder, LoopInOrder, client_send_packet_list-LoopInOrder, idle, waits,
}

unfoldable pub AllWhole : (ℕ → Bytes) → List Conn → Type 0
AllWhole content [] = Unit
AllWhole content (d ∷ ds) = AreWhole content d.send_queue × AllWhole content ds

-- The connections from the first one on that the application still uses, which has sent all.
pub still_used : List Conn → List Conn
still_used [] = []
still_used (d ∷ ds) = if d.ready_send then still_used ds else record d { send_queue = [] } ∷ ds

AreWhole-AreSized : (content : ℕ → Bytes) (ps : List Packet) → AreWhole content ps → AreSized ps
unfolding AreWhole AreSized IsWhole IsSized
AreWhole-AreSized content [] h = tt
AreWhole-AreSized content (slice s ∷ ps) h = (h.0.1, AreWhole-AreSized content ps h.1)
AreWhole-AreSized content (file fd off len ∷ ps) h = (h.0.0, AreWhole-AreSized content ps h.1)

AllWhole-AllSized : (content : ℕ → Bytes) (ds : List Conn) → AllWhole content ds → AllSized ds
unfolding AllWhole AllSized
AllWhole-AllSized content [] h = tt
AllWhole-AllSized content (d ∷ ds) h =
    (AreWhole-AreSized content d.send_queue h.0, AllWhole-AllSized content ds h.1)

-- Nothing is sent yet of what waits.
nothing_sent : (out : Bytes) (qs : List Bytes) → Ordered (out ∷ qs) qs out
nothing_sent out qs = record {
  sent = out ∷ [];
  part = [];
  given = ap (◌∷◌ out) (nothing_ahead qs);
  shown = sym (append-nil (out ++ []) ∙ append-nil out);
  none_ahead = λ e. refl;
}

no_conns : (c : Client) → is_client_need_send (record c { conns = [] }) ≡ false
unfolding is_client_need_send
no_conns c = ground arith

rests :
    (c : Client) (d : Conn) (ds : List Conn)
    → c.valid ≡ true
    → is_client_need_send (record c { conns = d ∷ ds }) ≡ false
    → d ∷ ds ≡ still_used (d ∷ ds)
unfolding is_client_need_send still_used
rests c d ds v e =
    let unready : d.ready_send ≡ false = ground (arith, v, e) in
    let none_queued : d.send_queue ≡ [] = ground (arith, v, e) in
    subst (λ b. d ∷ ds ≡ (if b then still_used ds else record d { send_queue = [] } ∷ ds))
      (sym unready) (ap (λ q. record d { send_queue = q } ∷ ds) none_queued)

module _ {S : Type 0} {write : Slice → S → Transfer × S} {send_file : ℕ → ℕ → ℕ → S → Transfer × S}
    {release : Release → S → S} (net : Network S write send_file release) where
  -- What the queues of the connections hold, up to the first one that the application still uses.
  unfoldable pub sent_bytes : List Conn → Bytes
  sent_bytes [] = []
  sent_bytes (d ∷ ds) = queue_bytes net d.send_queue ++ (if d.ready_send then sent_bytes ds else [])

  sent-rest :
      (ds : List Conn) → flat (queues net ds) ≡ sent_bytes ds ++ flat (queues net (still_used ds))
  unfolding sent_bytes still_used
  sent-rest [] = refl
  sent-rest (d ∷ ds) =
      let q = queue_bytes net d.send_queue in
      elim d.ready_send
        as (λ b.
          q ++ flat (queues net ds)
          ≡ (q ++ (if b then sent_bytes ds else []))
            ++ flat (queues net (if b then still_used ds else record d { send_queue = [] } ∷ ds))) [
              | true ↦
                  ap (λ l. q ++ l) (sent-rest ds)
                  ∙ sym (append_assoc q (sent_bytes ds) (flat (queues net (still_used ds))))
              | false ↦
                  ap (λ l. l ++ flat (queues net ds)) (sym (append-nil q))
                  ∙ ap (λ l. (q ++ []) ++ (l ++ flat (queues net ds))) (sym (queue_bytes-nil net))
            ]

  loop-output :
      (c : Client) (os : S) (o : Option (Client × S)) (ds : List Conn) (os₁ : S)
      → LoopInOrder net (net.output os ∷ queues net c.conns) o
      → o ≡ some (record c { conns = ds }, os₁)
      → net.output os₁ ++ flat (queues net ds) ≡ net.output os ++ flat (queues net c.conns)
  unfolding LoopInOrder
  loop-output c os o ds os₁ h e =
      let k : InOrder net (net.output os ∷ queues net c.conns) (record c { conns = ds }) os₁ =
        subst (LoopInOrder net (net.output os ∷ queues net c.conns)) e h in
      Ordered-flat k.ordered

module _ {S : Type 0} {write : Slice → S → Transfer × S} {send_file : ℕ → ℕ → ℕ → S → Transfer × S}
    {release : Release → S → S} (net : Network S write send_file release)
    (takes : (s : Slice) (os : S) → 0 < length (view s) → TakesSome (write s os).0)
    (takes_file : (fd off len : ℕ) (os : S)
      → 0 < length (file_bytes (net.content fd) off len)
      → TakesSome (send_file fd off len os).0) where
  abbrev Drained : ℕ → Client → List Conn → List Conn → S → Type 0
  Drained f c ds es os =
      (os₁ : S) × (send_loop write send_file release f (record c { conns = ds }) os
        ≡ some (record c { conns = es }, os₁))

  turn :
      (f : ℕ) (c : Client) (d : Conn) (ds : List Conn) (os os₁ : S)
      → is_client_need_send (record c { conns = d ∷ ds }) ≡ true
      → send_packets write send_file release d.send_queue os ≡ (completely, [], os₁)
      → send_loop write send_file release (suc f) (record c { conns = d ∷ ds }) os ≡ (
          if d.ready_send
          then send_loop write send_file release f
              (record c { conns = ds })
              (conn_dealloc write send_file release (record d { send_queue = [] }) os₁)
          else send_loop write send_file release f
              (record c { conns = record d { send_queue = [] } ∷ ds })
              os₁)
  unfolding send_loop
  turn f c d ds os os₁ e e' =
      ap
        (λ b.
          if b
          then send_first write send_file release (send_loop write send_file release f)
              (record c { conns = d ∷ ds }) (d ∷ ds) os
          else some (record c { conns = d ∷ ds }, os))
        e
      ∙ ap
          (after_queue write send_file release (send_loop write send_file release f)
            (record c { conns = d ∷ ds }) d ds)
          e'

  Drained-turn :
      (f : ℕ) (c : Client) (d : Conn) (ds : List Conn) (os : S)
      → length (d ∷ ds) < suc f
      → is_client_need_send (record c { conns = d ∷ ds }) ≡ true
      → AreWhole net.content d.send_queue
      → ((os₁ : S) → Drained f c ds (still_used ds) os₁)
      → Drained (suc f) c (d ∷ ds) (still_used (d ∷ ds)) os
  unfolding still_used
  Drained-turn f c d ds os enough e whole ih =
      let left : Conn = record d { send_queue = [] } in
      let (os₁, sent) = send_packets-completely net takes takes_file d.send_queue os whole in
      let loop : Client → S → Option (Client × S) =
        λ c₁ os₂. send_loop write send_file release f c₁ os₂ in
      let gone = loop (record c { conns = ds }) (conn_dealloc write send_file release left os₁) in
      let stays = loop (record c { conns = left ∷ ds }) os₁ in
      let goal : Bool → Type 0 = λ b.
        (os₂ : S) × ((if b then gone else stays)
          ≡ some (record c { conns = if b then still_used ds else left ∷ ds }, os₂)) in
      let (os₂, loops) : goal d.ready_send = elim (Bool-cases d.ready_send) [
        | inl r ↦ subst goal (sym r) (ih (conn_dealloc write send_file release left os₁))
        | inr r ↦ subst goal (sym r) (
          os₁,
          idle write send_file release f (record c { conns = left ∷ ds }) os₁
              (omega (arith, enough)) (waits c left ds refl r),
        )
      ] in
      (os₂, turn f c d ds os os₁ e sent ∙ loops)

  send_loop_drains :
      (ds : List Conn) (f : ℕ) (c : Client) (os : S)
      → length ds < f
      → c.valid ≡ true
      → AllWhole net.content ds
      → Drained f c ds (still_used ds) os
  unfolding AllWhole still_used
  send_loop_drains ds zero c os enough v whole = absurd (omega (arith, enough))
  send_loop_drains [] (suc f) c os enough v whole = (
    os,
    idle write send_file release (suc f) (record c { conns = [] }) os (omega arith) (no_conns c),
  )
  send_loop_drains (d ∷ ds) (suc f) c os enough v whole =
      elim (Bool-cases (is_client_need_send (record c { conns = d ∷ ds }))) [
        | inl e ↦
            Drained-turn f c d ds os enough e whole.0
              (λ os₁. send_loop_drains ds f c os₁ (omega (arith, enough)) v whole.1)
        | inr e ↦ (
          os,
          idle write send_file release (suc f) (record c { conns = d ∷ ds }) os (omega arith) e
              ∙ ap (λ l. some (record c { conns = l }, os)) (rests c d ds v e),
        )
      ]

  -- For a valid client whose queues hold only slices of some bytes that can be read, and parts of
  -- files that are inside them, over a socket that takes some of whatever bytes it is offered:
  -- `clientSendPacketList` ends, and the socket gets all that is in the queues of the connections
  -- that the application has finished with and that stand before the first one that it still uses,
  -- and of that one, in order; the former are removed, the latter's queue is empty, and
  -- nothing else of the client is changed.
  pub client_send_packet_list_drains :
      (c : Client) (os : S)
      → c.valid ≡ true
      → AllWhole net.content c.conns
      → (os₁ : S) × (client_send_packet_list write send_file release c os
          ≡ some (record c { conns = still_used c.conns }, os₁))
        × (net.output os₁ ≡ net.output os ++ sent_bytes net c.conns)
  unfolding client_send_packet_list
  client_send_packet_list_drains c os v whole =
      let rest = flat (queues net (still_used c.conns)) in
      let (os₁, e) = send_loop_drains c.conns (length c.conns + 1) c os (omega arith) v whole in
      let all =
        loop-output net c os _ (still_used c.conns) os₁
          (client_send_packet_list-LoopInOrder net _ c os (record {
            ordered = nothing_sent (net.output os) (queues net c.conns);
            sized = AllWhole-AllSized net.content c.conns whole;
          }))
          e in
      (
        os₁,
        e,
        append_cancel_right (net.output os₁) (net.output os ++ sent_bytes net c.conns) rest (
            all
            ∙ ap (λ l. net.output os ++ l) (sent-rest net c.conns)
            ∙ sym (append_assoc (net.output os) (sent_bytes net c.conns) rest)),
      )
