-- ===== src/Worker.antt =====
-- The receiving side of a worker: src/networking.c and src/worker/worker_async.c. The operating
-- system's state is a parameter, with what read() answers and whether malloc gives a buffer.
pub mod Receive
pub mod Send
pub mod Clients
pub mod Requests
use wheatserver.Common.{
  ℕ, zero, suc, ◌+◌, Bool, true, false, not, ◌&&◌, Option, none, some, List, [], ◌∷◌, ltb, ◌==◌,
  if◌then◌else◌, length,
}
use wheatserver.Slice.{Bytes}
use wheatserver.Mbuf.{Msghdr, Window, msg_put, msg_set_writted, msg_get_size, fill}

-- What read() answers: bytes, of which none are the end of the stream; EAGAIN; another error.
pub data Answer : Type 0 where
  received : Bytes → Answer
  again : Answer
  broken : Answer

-- readBulkFrom: `none` is WHEAT_WRONG; otherwise the bytes that were read, whose number is returned.
-- read() of Linux gives fewer than 2 ^ 31 bytes at once, so the cast of `nread` to `int` keeps it.
unfoldable pub read_bulk_from : Answer → Option Bytes
read_bulk_from (received []) = none
read_bulk_from (received (b ∷ bs)) = some (b ∷ bs)
read_bulk_from again = some []
read_bulk_from broken = none

-- What the loop leaves: the message, `total`, whether the client is still valid, and the
-- operating system; or an assertion fails; or the fuel ends first.
pub data Outcome (S : Type 0) : Type 0 where
  finished : Msghdr → ℕ → Bool → S → Outcome S
  aborted : Outcome S
  running : Outcome S

module _ {S : Type 0} (junk : ℕ → ℕ) (read : ℕ → S → Answer × S) (memory : S → Bool) where
  -- After readBulkFrom; `more` is the loop from its start on.
  abbrev pub stored :
      (Msghdr → ℕ → S → Outcome S) → Window → Msghdr → ℕ → S → Option Bytes → Outcome S
  stored more w h total os none = finished h total false os
  stored more w h total os (some bs) = elim (fill h w bs) [
    | none ↦ aborted
    | some h₁ ↦ elim (msg_set_writted h₁ (length bs)) [
      | none ↦ aborted
      | some h₂ ↦
          if length bs == w.len
          then more h₂ (total + length bs) os
          else finished h₂ (total + length bs) true os
    ]
  ]

  -- After msgPut.
  abbrev pub opened :
      (Msghdr → ℕ → S → Outcome S) → ℕ → S → Option (Option Window × Msghdr) → Outcome S
  opened more total os none = aborted
  opened more total os (some (none, h)) = finished h total true os
  opened more total os (some (some w, h)) =
      let (answer, os₁) = read w.len os in stored more w h total os₁ (read_bulk_from answer)

  -- The loop of `asyncRecvData`, on fuel.
  unfoldable pub recv_loop : ℕ → Msghdr → ℕ → S → Outcome S
  recv_loop zero h total os = running
  recv_loop (suc f) h total os = opened (recv_loop f) total os (msg_put junk (memory os) h)

  abbrev limited : ℕ → Outcome S → Outcome S
  limited max_buffer_size (finished h total valid os) =
      finished h total (valid && not (ltb max_buffer_size (msg_get_size h))) os
  limited max_buffer_size o = o

  -- `asyncRecvData` for a valid client.
  unfoldable pub async_recv_data : ℕ → ℕ → Msghdr → S → Outcome S
  unfolding recv_loop
  async_recv_data max_buffer_size f h os = limited max_buffer_size (recv_loop f h 0 os)
