-- ===== src/Worker/Send.antt =====
-- The sending side of a worker: the send queues of src/worker/worker.c, with writeBulkTo of
-- src/networking.c, portable_sendfile of src/portable.c and the callers in
-- src/worker/worker_async.c. The operating system's state is a parameter, with what write() and
-- sendfile() answer and what the functions do that free a connection's data. A pointer to a
-- connection is its place in the client's list.
pub mod Moves
pub mod Packets
pub mod Queues
pub mod Order
pub mod Serve
pub mod Calls
pub mod Changes
pub mod Pipeline
pub mod Responses
pub mod Whole
pub mod Drain
use wheatserver.Common.{
  ℕ, zero, suc, ◌+◌, Bool, true, false, not, ◌&&◌, ◌||◌, Option, none, some, List, [], ◌∷◌, ◌++◌,
  ◌==◌, if◌then◌else◌, length, sub_size,
}
use wheatserver.Slice.{Slice, advance}

-- What write() and sendfile() answer: how many bytes they took; EAGAIN; another error. Linux takes
-- fewer than 2 ^ 31 bytes at once, so the cast to `int` keeps the number.
pub data Transfer : Type 0 where
  moved : ℕ → Transfer
  again : Transfer
  broken : Transfer

-- `none` is -1.
unfoldable pub write_bulk_to : Transfer → Option ℕ
write_bulk_to (moved n) = some n
write_bulk_to again = some 0
write_bulk_to broken = none

unfoldable pub portable_sendfile : Transfer → Option ℕ
portable_sendfile (moved n) = some n
portable_sendfile again = some 0
portable_sendfile broken = none

-- A file's packet has the descriptor, the offset and the length.
pub data Packet : Type 0 where
  slice : Slice → Packet
  file : ℕ → ℕ → ℕ → Packet

-- 0, 1 and -1 of `sendPacket`, and that the fuel has ended.
pub data Status : Type 0 where
  completely incompletely wrong running : Status

-- What `connDealloc` gives back: the protocol's data, the application's, and what was registered.
pub data Release : Type 0 where
  protocol_data : ℕ → Release
  app_data : ℕ → Release
  callback : ℕ → Release

pub record Conn : Type 0 where
  pub protocol_data : Option ℕ
  pub app_private_data : Option ℕ
  pub send_queue : List Packet
  pub ready_send : Bool
  pub cleanup : List ℕ

-- `write_event` says that the event center calls `sendReplyToClient` when the socket has room.
pub record Client : Type 0 where
  pub conns : List Conn
  pub should_close : Bool
  pub valid : Bool
  pub write_event : Bool

abbrev pub is_empty : {A : Type 0} → List A → Bool
is_empty [] = true
is_empty (x ∷ xs) = false

abbrev pub first_needs_send : List Conn → Bool
first_needs_send [] = false
first_needs_send (c ∷ cs) = not (is_empty c.send_queue) || c.ready_send

unfoldable pub is_client_need_send : Client → Bool
is_client_need_send c = c.valid && first_needs_send c.conns

-- The connection that `connGet` makes when none is pending.
unfoldable pub conn_new : Option ℕ → Conn
conn_new p = record {
  protocol_data = p;
  app_private_data = none;
  send_queue = [];
  ready_send = false;
  cleanup = [];
}

unfoldable pub conn_get : Option ℕ → Client → Client
unfolding conn_new
conn_get p c = record c { conns = c.conns ++ (conn_new p ∷ []) }

abbrev pub at_place : {A : Type 0} → ℕ → (A → A) → List A → List A
at_place i f [] = []
at_place zero f (x ∷ xs) = f x ∷ xs
at_place (suc i) f (x ∷ xs) = x ∷ at_place i f xs

-- `appendSliceToSendQueue` and `appendFileToSendQueue`, where malloc gives a packet.
unfoldable pub append_to_send_queue : ℕ → Packet → Client → Client
append_to_send_queue i p c = record c {
  conns = at_place i (λ d. record d { send_queue = d.send_queue ++ (p ∷ []) }) c.conns;
}

unfoldable pub set_ready_send : ℕ → Client → Client
set_ready_send i c = record c { conns = at_place i (λ d. record d { ready_send = true }) c.conns }

module _ {S : Type 0} (write : Slice → S → Transfer × S) (send_file : ℕ → ℕ → ℕ → S → Transfer × S)
    (release : Release → S → S) where
  -- The tests behind the loop over a slice.
  abbrev pub after_slice : ℕ → Status
  after_slice zero = incompletely
  after_slice (suc n) = completely

  abbrev pub written :
      (ℕ → Slice → S → Status × Slice × S) → Slice → S → Option ℕ → Status × Slice × S
  written more s os none = (wrong, s, os)
  written more s os (some zero) = (incompletely, s, os)
  written more s os (some (suc n)) =
      more (suc n) (record { pointer = advance (suc n) s.pointer; len = sub_size s.len (suc n) }) os

  -- The loop over a slice, on fuel; the second argument is `nwritten`.
  unfoldable pub send_slice : ℕ → ℕ → Slice → S → Status × Slice × S
  send_slice zero n s os = (running, s, os)
  send_slice (suc f) n s os =
      if s.len == 0
      then (after_slice n, s, os)
      else let (answer, os₁) = write s os in written (send_slice f) s os₁ (write_bulk_to answer)

  abbrev pub sent_file :
      (ℕ → ℕ → S → Status × (ℕ × ℕ) × S) → ℕ → ℕ → S → Option ℕ → Status × (ℕ × ℕ) × S
  sent_file more off len os none = (wrong, (off, len), os)
  sent_file more off len os (some zero) = (incompletely, (off, len), os)
  sent_file more off len os (some (suc n)) = more (off + suc n) (sub_size len (suc n)) os

  -- The loop over a file, on fuel.
  unfoldable pub send_part : ℕ → ℕ → ℕ → ℕ → S → Status × (ℕ × ℕ) × S
  send_part zero fd off len os = (running, (off, len), os)
  send_part (suc f) fd off len os =
      if len == 0
      then (completely, (off, len), os)
      else let (answer, os₁) = send_file fd off len os in
        sent_file (send_part f fd) off len os₁ (portable_sendfile answer)

  -- Each turn sends a byte at least, so a unit of fuel for each byte and one more are enough.
  unfoldable pub send_packet : Packet → S → Status × Packet × S
  unfolding send_slice send_part
  send_packet (slice s) os = let (r, t, os₁) = send_slice (s.len + 1) 0 s os in (r, slice t, os₁)
  send_packet (file fd off len) os =
      let (r, (off₁, len₁), os₁) = send_part (len + 1) fd off len os in (r, file fd off₁ len₁, os₁)

  abbrev pub after_packet :
      (S → Status × List Packet × S) → List Packet → Status × Packet × S → Status × List Packet × S
  after_packet more ps (completely, p, os) = more os
  after_packet more ps (incompletely, p, os) = (incompletely, p ∷ ps, os)
  after_packet more ps (wrong, p, os) = (wrong, p ∷ ps, os)
  after_packet more ps (running, p, os) = (running, p ∷ ps, os)

  -- The inner loop of `clientSendPacketList`.
  unfoldable pub send_packets : List Packet → S → Status × List Packet × S
  unfolding send_packet
  send_packets [] os = (completely, [], os)
  send_packets (p ∷ ps) os = after_packet (send_packets ps) ps (send_packet p os)

  abbrev pub release_data : (ℕ → Release) → Option ℕ → S → S
  release_data tag none os = os
  release_data tag (some d) os = release (tag d) os

  abbrev pub call_cleanup : List ℕ → S → S
  call_cleanup [] os = os
  call_cleanup (f ∷ fs) os = call_cleanup fs (release (callback f) os)

  unfoldable pub conn_dealloc : Conn → S → S
  conn_dealloc c os =
      call_cleanup c.cleanup
        (release_data app_data c.app_private_data (release_data protocol_data c.protocol_data os))

  -- After the inner loop; `more` is the outer one from its test on.
  abbrev pub after_queue :
      (Client → S → Option (Client × S))
      → Client
      → Conn
      → List Conn
      → Status × List Packet × S
      → Option (Client × S)
  after_queue more c d ds (completely, q, os) =
      if d.ready_send
      then more (record c { conns = ds }) (conn_dealloc (record d { send_queue = q }) os)
      else more (record c { conns = record d { send_queue = q } ∷ ds }) os
  after_queue more c d ds (incompletely, q, os) =
      some (record c { conns = record d { send_queue = q } ∷ ds }, os)
  after_queue more c d ds (wrong, q, os) =
      some (record c { conns = record d { send_queue = q } ∷ ds; valid = false }, os)
  after_queue more c d ds (running, q, os) = none

  abbrev pub send_first :
      (Client → S → Option (Client × S)) → Client → List Conn → S → Option (Client × S)
  send_first more c [] os = some (c, os)
  send_first more c (d ∷ ds) os = after_queue more c d ds (send_packets d.send_queue os)

  -- The loop of `clientSendPacketList`, on fuel; `none` is that the fuel has ended.
  unfoldable pub send_loop : ℕ → Client → S → Option (Client × S)
  unfolding is_client_need_send send_packets conn_dealloc
  send_loop zero c os = none
  send_loop (suc f) c os =
      if is_client_need_send c then send_first (send_loop f) c c.conns os else some (c, os)

  -- Each turn removes a connection but for the last one.
  unfoldable pub client_send_packet_list : Client → S → Option (Client × S)
  unfolding send_loop
  client_send_packet_list c os = send_loop (length c.conns + 1) c os
