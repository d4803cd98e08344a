-- ===== src/Worker/Send/Queues.antt =====
-- What the inner loop of clientSendPacketList in src/worker/worker.c does to one connection's queue,
-- and what freeing the connection leaves alone.
use wheatserver.Common.{
  ℕ, ◌≡◌, refl, sym, ap, ◌∙◌, List, [], ◌∷◌, ◌++◌, append_assoc, Option, none, some,
}
use wheatserver.Slice.{Bytes, Slice}
use wheatserver.Worker.Send.{
  Transfer, Release, Packet, Status, completely, incompletely, wrong, running, Conn, after_packet,
  send_packet, send_packets, release_data, call_cleanup, conn_dealloc,
}
use wheatserver.Worker.Send.Moves.{Moves, Moves-refl, Moves-trans, Moves-append, Moves-all, Network}
use wheatserver.Worker.Send.Packets.{Leaves, IsSized, packet_bytes, SentFrom, send_packet_lem}

-- Every packet has a `size_t` for its length.
unfoldable pub AreSized : List Packet → Type 0
AreSized [] = Unit
AreSized (p ∷ ps) = IsSized p × AreSized ps

pub AreSized-append : (ps qs : List Packet) → AreSized ps → AreSized qs → AreSized (ps ++ qs)
unfolding AreSized
AreSized-append [] qs h k = k
AreSized-append (p ∷ ps) qs h k = (h.0, AreSized-append ps qs h.1 k)

-- What a status says of the packets that are left.
unfoldable pub LeavesQueue : Status → List Packet → Type 0
LeavesQueue completely q = q ≡ []
LeavesQueue incompletely q = Unit
LeavesQueue wrong q = Unit
LeavesQueue running q = ⊥

module _ {S : Type 0} {write : Slice → S → Transfer × S} {send_file : ℕ → ℕ → ℕ → S → Transfer × S}
    {release : Release → S → S} (net : Network S write send_file release) where
  unfoldable pub queue_bytes : List Packet → Bytes
  queue_bytes [] = []
  queue_bytes (p ∷ ps) = packet_bytes net p ++ queue_bytes ps

  pub queue_bytes-nil : queue_bytes [] ≡ []
  unfolding queue_bytes
  queue_bytes-nil = refl

  pub queue_bytes-append :
      (ps qs : List Packet) → queue_bytes (ps ++ qs) ≡ queue_bytes ps ++ queue_bytes qs
  unfolding queue_bytes
  queue_bytes-append [] qs = refl
  queue_bytes-append (p ∷ ps) qs =
      ap (λ l. packet_bytes net p ++ l) (queue_bytes-append ps qs)
      ∙ sym (append_assoc (packet_bytes net p) (queue_bytes ps) (queue_bytes qs))

  unfoldable pub SentQueue : List Packet → S → Status × List Packet × S → Type 0
  SentQueue ps os (r, qs, os₁) =
      LeavesQueue r qs
      × AreSized qs
      × Moves (queue_bytes ps) (queue_bytes qs) (net.output os) (net.output os₁)

  after_packet-SentQueue :
      (more : S → Status × List Packet × S) (p : Packet) (ps : List Packet) (os : S) (r : Status)
      (q : Packet) (os₁ : S)
      → AreSized ps
      → SentFrom net p os r q os₁
      → SentQueue ps os₁ (more os₁)
      → SentQueue (p ∷ ps) os (after_packet write send_file release more ps (r, q, os₁))
  unfolding SentQueue SentFrom LeavesQueue Leaves AreSized queue_bytes
  after_packet-SentQueue more p ps os completely q os₁ sized sent rest =
      (rest.0, rest.1, Moves-trans (Moves-all (queue_bytes ps) sent.0 sent.2) rest.2)
  after_packet-SentQueue more p ps os incompletely q os₁ sized sent rest =
      (tt, (sent.1, sized), Moves-append (queue_bytes ps) sent.2)
  after_packet-SentQueue more p ps os wrong q os₁ sized sent rest =
      (tt, (sent.1, sized), Moves-append (queue_bytes ps) sent.2)
  after_packet-SentQueue more p ps os running q os₁ sized sent rest = absurd sent.0

  -- The inner loop ends, and sends the first bytes of the queue in order; it says that it sent the
  -- queue completely just if no packet is left.
  pub send_packets_lem :
      (ps : List Packet) (os : S)
      → AreSized ps
      → SentQueue ps os (send_packets write send_file release ps os)
  unfolding send_packets
  send_packets_lem [] os sized = unfold SentQueue LeavesQueue AreSized in (refl, tt, Moves-refl _ _)
  send_packets_lem (p ∷ ps) os sized =
      let (r, q, os₁) = send_packet write send_file release p os in
      after_packet-SentQueue (send_packets write send_file release ps) p ps os r q os₁
        (unfold AreSized in sized.1) (send_packet_lem net p os (unfold AreSized in sized.0))
        (send_packets_lem ps os₁ (unfold AreSized in sized.1))

  release_data-silent :
      (tag : ℕ → Release) (d : Option ℕ) (os : S)
      → net.output (release_data write send_file release tag d os) ≡ net.output os
  release_data-silent tag none os = refl
  release_data-silent tag (some d) os = net.silent (tag d) os

  call_cleanup-silent :
      (fs : List ℕ) (os : S)
      → net.output (call_cleanup write send_file release fs os) ≡ net.output os
  call_cleanup-silent [] os = refl
  call_cleanup-silent (f ∷ fs) os =
      call_cleanup-silent fs (release (Release.callback f) os) ∙ net.silent (Release.callback f) os

  -- Freeing a connection puts nothing on the socket.
  pub conn_dealloc-silent :
      (c : Conn) (os : S) → net.output (conn_dealloc write send_file release c os) ≡ net.output os
  unfolding conn_dealloc
  conn_dealloc-silent c os =
      call_cleanup-silent c.cleanup _
      ∙ release_data-silent Release.app_data c.app_private_data _
      ∙ release_data-silent Release.protocol_data c.protocol_data os
