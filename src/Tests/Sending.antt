-- ===== src/Tests/Sending.antt =====
-- The send queues of src/worker/worker.c over a socket with little room.
use wheatserver.Common.{
  ℕ, zero, suc, ◌<◌, ◌≡◌, refl, sym, Bool, true, false, Option, none, some, List, [], ◌∷◌, ◌++◌,
  arith, length, take, length-take, ap,
}
use wheatserver.Slice.{Bytes, Slice, view}
use wheatserver.Worker.Send.{
  Transfer, moved, again, Release, Packet, slice, file, Conn, Client, conn_new, conn_get,
  append_to_send_queue, set_ready_send, is_client_need_send, write_bulk_to, portable_sendfile,
  send_slice, send_part, send_packet, send_packets, conn_dealloc, send_loop,
  client_send_packet_list,
}
use wheatserver.Worker.Send.Moves.{IsAnswer, Network, file_bytes}
use wheatserver.Worker.Send.Packets.{packet_bytes}
use wheatserver.Worker.Send.Queues.{queue_bytes}
use wheatserver.Worker.Send.Calls.{
  Kept, kept, freed, Use, request, send_data, send_a_file, finish, has_room, finish_conn,
  send_reply_to_client, try_free_client, async_send_data, send_client_data, send_client_file,
  use_step,
}
use wheatserver.Worker.Send.Pipeline.{IsSizedUse, tell}
use wheatserver.Worker.Send.Responses.{AreSizedUses, run_uses, Delivered, run_uses-Delivered}
use wheatserver.Worker.Send.Whole.{IsWhole, AreWhole, TakesSome}
use wheatserver.Worker.Send.Drain.{AllWhole, still_used, sent_bytes, client_send_packet_list_drains}

-- What it got, and how much it takes at the next calls; then EAGAIN.
record Socket : Type 0 where
  got : Bytes
  room : List ℕ

abbrev content : ℕ → Bytes
content fd = 40 ∷ 41 ∷ 42 ∷ 43 ∷ []

abbrev takes : Bytes → Bytes → List ℕ → Transfer × Socket
takes bs got [] = (again, record { got = got; room = [] })
takes bs got (n ∷ ns) = (moved (length (take n bs)), record { got = got ++ take n bs; room = ns })

abbrev write : Slice → Socket → Transfer × Socket
write s os = takes (view s) os.got os.room

abbrev send_file : ℕ → ℕ → ℕ → Socket → Transfer × Socket
send_file fd off len os = takes (file_bytes (content fd) off len) os.got os.room

abbrev release : Release → Socket → Socket
release r os = os

take_again : (n : ℕ) (bs : Bytes) → take n bs ≡ take (length (take n bs)) bs
take_again zero bs = refl
take_again (suc n) [] = refl
take_again (suc n) (b ∷ bs) = rw (sym (take_again n bs)) refl

takes-IsAnswer :
    (bs got : Bytes) (room : List ℕ)
    → IsAnswer (takes bs got room).0 bs got (takes bs got room).1.got
unfolding IsAnswer
takes-IsAnswer bs got [] = refl
takes-IsAnswer bs got (n ∷ ns) =
    (omega (arith, length-take n bs), ap (λ l. got ++ l) (take_again n bs))

abbrev socket : Network Socket write send_file release
socket = record {
  output = λ os. os.got;
  content = content;
  writes = λ s os. takes-IsAnswer (view s) os.got os.room;
  sends = λ fd off len os. takes-IsAnswer (file_bytes (content fd) off len) os.got os.room;
  silent = λ r os. refl;
}

abbrev empty : Client
empty = record { conns = []; should_close = false; valid = true; write_event = false }

abbrev text : Bytes → Slice
text bs = record { pointer = some bs; len = length bs }

-- Two requests; the second one's response is ready first.
abbrev uses : List Use
uses =
    request none
    ∷ request none
    ∷ send_data 1 (text (20 ∷ 21 ∷ 22 ∷ []))
    ∷ finish 1
    ∷ send_data 0 (text (10 ∷ []))
    ∷ send_a_file 0 7 2
    ∷ finish 0
    ∷ []

abbrev narrow : Socket
narrow = record { got = []; room = 5 ∷ 1 ∷ 1 ∷ 2 ∷ [] }

abbrev after : Option (Kept Socket × List Bytes) → Bool × Bool × Bytes × List Bytes
after (some (kept c os, rs)) = (is_client_need_send c, c.write_event, os.got, rs)
after (some (freed c os, rs)) = (false, false, os.got, rs)
after none = (false, false, [], [])

-- The socket got the start of the responses in order. The client still has bytes to send, but no
-- event will send them: `finishConn` asks for none when the socket is full.
stalled_run :
    after (run_uses socket uses [] empty narrow)
    ≡ (true, false, 10 ∷ 40 ∷ 41 ∷ 20 ∷ 21 ∷ [], (10 ∷ 40 ∷ 41 ∷ []) ∷ (20 ∷ 21 ∷ 22 ∷ []) ∷ [])
unfolding run_uses use_step conn_get conn_new tell send_client_data append_to_send_queue
    async_send_data client_send_packet_list send_loop is_client_need_send finish_conn set_ready_send
    send_client_file send_packets send_packet send_slice send_part write_bulk_to portable_sendfile
    conn_dealloc
stalled_run = refl

uses_sized : AreSizedUses socket uses
unfolding AreSizedUses IsSizedUse
uses_sized = (tt, (tt, (omega arith, (tt, (omega arith, (omega arith, (tt, tt)))))))

run_uses-Delivered_example :
    (k : Kept Socket) × (rs : List Bytes) × (run_uses socket uses [] empty narrow ≡ some (k, rs))
    × Delivered socket k rs
run_uses-Delivered_example = run_uses-Delivered socket uses empty narrow refl refl uses_sized

abbrev closing : Client
closing = record empty { should_close = true }

abbrev waited : Option (Kept Socket × List Bytes) → Option (List ℕ × Bytes)
waited (some (freed c os, rs)) = some (each c.conns, os.got)
  where
    each : List Conn → List ℕ
    each [] = []
    each (d ∷ ds) = length d.send_queue ∷ each ds
waited (some (kept c os, rs)) = none
waited none = none

-- A client that is to be closed is freed when its first connection has nothing to send, although the
-- second one's response waits: it is lost.
lost_run :
    waited (
      run_uses socket
        (request none ∷ request none ∷ send_data 1 (text (20 ∷ [])) ∷ finish 1 ∷ has_room ∷ [])
        []
        closing
        narrow)
    ≡ some (0 ∷ 1 ∷ [], [])
unfolding run_uses use_step conn_get conn_new tell send_client_data append_to_send_queue
    async_send_data client_send_packet_list send_loop is_client_need_send finish_conn set_ready_send
    send_reply_to_client try_free_client conn_dealloc
lost_run = refl

-- A socket that takes at most two bytes at once, but always some.
abbrev two : Bytes → Bytes → Transfer × Bytes
two bs got = (moved (length (take 2 bs)), got ++ take 2 bs)

abbrev write_two : Slice → Bytes → Transfer × Bytes
write_two s os = two (view s) os

abbrev send_two : ℕ → ℕ → ℕ → Bytes → Transfer × Bytes
send_two fd off len os = two (file_bytes (content fd) off len) os

abbrev release_two : Release → Bytes → Bytes
release_two r os = os

two-IsAnswer : (bs got : Bytes) → IsAnswer (two bs got).0 bs got (two bs got).1
unfolding IsAnswer
two-IsAnswer bs got = (omega (arith, length-take 2 bs), ap (λ l. got ++ l) (take_again 2 bs))

abbrev willing : Network Bytes write_two send_two release_two
willing = record {
  output = λ os. os;
  content = content;
  writes = λ s os. two-IsAnswer (view s) os;
  sends = λ fd off len os. two-IsAnswer (file_bytes (content fd) off len) os;
  silent = λ r os. refl;
}

two-TakesSome : (bs got : Bytes) → 0 < length bs → TakesSome (two bs got).0
unfolding TakesSome
two-TakesSome [] got h = absurd (omega (arith, h))
two-TakesSome (b ∷ bs) got h = tt

abbrev conn : Bool → List Packet → Conn
conn ready q = record {
  protocol_data = none;
  app_private_data = some 3;
  send_queue = q;
  ready_send = ready;
  cleanup = 8 ∷ 9 ∷ [];
}

abbrev busy : Client
busy = record {
  conns =
      conn true (slice (text (1 ∷ 2 ∷ 3 ∷ [])) ∷ file 7 1 3 ∷ [])
      ∷ conn false (slice (text (4 ∷ [])) ∷ [])
      ∷ conn true (slice (text (5 ∷ [])) ∷ [])
      ∷ [];
  should_close = false;
  valid = true;
  write_event = false;
}

busy_whole : AllWhole content busy.conns
unfolding AllWhole AreWhole IsWhole
busy_whole = (
  ((omega arith, omega arith, omega arith), ((omega arith, omega arith), tt)),
  (
    ((omega arith, omega arith, omega arith), tt),
    (((omega arith, omega arith, omega arith), tt), tt),
  ),
)

client_send_packet_list_drains_example :
    (os₁ : Bytes) × (client_send_packet_list write_two send_two release_two busy []
      ≡ some (record busy { conns = still_used busy.conns }, os₁))
    × (os₁ ≡ sent_bytes willing busy.conns)
client_send_packet_list_drains_example =
    client_send_packet_list_drains willing (λ s os h. two-TakesSome (view s) os h)
      (λ fd off len os h. two-TakesSome (file_bytes (content fd) off len) os h) busy [] refl
      busy_whole

-- The third connection's response has to wait for the second one.
drained_run : sent_bytes willing busy.conns ≡ 1 ∷ 2 ∷ 3 ∷ 41 ∷ 42 ∷ 43 ∷ 4 ∷ []
unfolding sent_bytes queue_bytes packet_bytes
drained_run = refl
