-- ===== src/Worker/Send/Calls.antt =====
-- The callers of clientSendPacketList: finishConn, sendClientData and sendClientFile of
-- src/worker/worker.c, asyncSendData and sendReplyToClient of src/worker/worker_async.c. createEvent
-- is taken to succeed.
use wheatserver.Common.{
  ℕ, Bool, true, false, not, ◌&&◌, ◌||◌, Option, none, some, List, [], ◌∷◌, ◌==◌, if◌then◌else◌,
}
use wheatserver.Slice.{Slice}
use wheatserver.Worker.Send.{
  Transfer, Release, slice, file, Conn, Client, is_client_need_send, conn_get, append_to_send_queue,
  set_ready_send, conn_dealloc, client_send_packet_list,
}

-- A client that is still there, or one that was freed, as it was then, and what freeing it leaves of
-- the rest of the world.
pub data Kept (S : Type 0) : Type 0 where
  kept : Client → S → Kept S
  freed : Client → S → Kept S

-- What happens to a client's connections: the parser starts a request, the application sends data
-- or a file on a connection or finishes with one, and the socket has room.
pub data Use : Type 0 where
  request : Option ℕ → Use
  send_data : ℕ → Slice → Use
  send_a_file : ℕ → ℕ → ℕ → Use
  finish : ℕ → Use
  has_room : Use

module _ {S : Type 0} (write : Slice → S → Transfer × S) (send_file : ℕ → ℕ → ℕ → S → Transfer × S)
    (release : Release → S → S) where
  unfoldable pub finish_conn : ℕ → Client → S → Option (Client × S)
  finish_conn i c os = client_send_packet_list write send_file release (set_ready_send i c) os

  abbrev watched : Client → Client
  watched c = if is_client_need_send c then record c { write_event = true } else c

  abbrev pub after_send : Option (Client × S) → Option (Bool × Client × S)
  after_send none = none
  after_send (some (c, os)) = if c.valid then some (true, watched c, os) else some (false, c, os)

  -- `false` is WHEAT_WRONG.
  unfoldable pub async_send_data : Client → S → Option (Bool × Client × S)
  async_send_data c os =
      if c.valid
      then after_send (client_send_packet_list write send_file release c os)
      else some (false, c, os)

  unfoldable pub send_client_data : ℕ → Slice → Client → S → Option (Bool × Client × S)
  unfolding async_send_data
  send_client_data i s c os =
      if s.len == 0
      then some (true, c, os)
      else async_send_data (append_to_send_queue i (slice s) c) os

  unfoldable pub send_client_file : ℕ → ℕ → ℕ → Client → S → Option (Bool × Client × S)
  unfolding async_send_data
  send_client_file i fd len c os = async_send_data (append_to_send_queue i (file fd 0 len) c) os

  abbrev pub dealloc_all : List Conn → S → S
  dealloc_all [] os = os
  dealloc_all (d ∷ ds) os = dealloc_all ds (conn_dealloc write send_file release d os)

  unfoldable pub try_free_client : Client → S → Kept S
  try_free_client c os =
      if c.valid && (is_client_need_send c || not c.should_close)
      then kept c os
      else freed c (dealloc_all c.conns os)

  abbrev pub after_room : Option (Client × S) → Option (Kept S)
  after_room none = none
  after_room (some (c, os)) =
      if not c.valid || not (is_client_need_send c)
      then some (try_free_client (record c { write_event = false }) os)
      else some (kept c os)

  unfoldable pub send_reply_to_client : Client → S → Option (Kept S)
  unfolding try_free_client
  send_reply_to_client c os =
      if c.valid
      then after_room (client_send_packet_list write send_file release c os)
      else some (kept c os)

  abbrev pub still : Option (Client × S) → Option (Kept S)
  still none = none
  still (some (c, os)) = some (kept c os)

  abbrev pub still_after : Option (Bool × Client × S) → Option (Kept S)
  still_after none = none
  still_after (some (ok, c, os)) = some (kept c os)

  unfoldable pub use_step : Use → Client → S → Option (Kept S)
  unfolding finish_conn send_client_data send_client_file send_reply_to_client
  use_step (request p) c os = some (kept (conn_get p c) os)
  use_step (send_data i s) c os = still_after (send_client_data i s c os)
  use_step (send_a_file i fd len) c os = still_after (send_client_file i fd len c os)
  use_step (finish i) c os = still (finish_conn i c os)
  use_step has_room c os = send_reply_to_client c os
