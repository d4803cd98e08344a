-- ===== src/Worker/Requests.antt =====
-- The loop of handleRequest in src/worker/worker.c, which cuts what a client sent into requests. The
-- protocol and the applications are parameters: what a new connection's data are, the parser, what
-- making a connection and calling an application do to the rest of the world. The statistics are
-- left out.
pub mod Stream
pub mod Parsed
pub mod Loop
use wheatserver.Common.{ℕ, zero, suc, Bool, true, false, Option, none, some}
use wheatserver.Slice.{Slice}
use wheatserver.Mbuf.{Msghdr, msg_can_read, msg_read, msg_set_readed}

-- WHEAT_WRONG, WHEAT_OK and 1, which the parser returns for a request that goes on.
pub data Verdict : Type 0 where
  wrong ok continued : Verdict

-- The data of `pending`'s connection, and what else of the client the loop reads and sets.
pub record Serving (P : Type 0) : Type 0 where
  pub pending : Option P
  pub req_buf : Msghdr
  pub should_close : Bool
  pub valid : Bool

-- What the loop leaves; or an assertion fails; or the fuel ends first.
pub data Outcome (P S : Type 0) : Type 0 where
  finished : Serving P → S → Outcome P S
  aborted : Outcome P S
  running : Outcome P S

module _ {P S : Type 0} (init_data : P) (parser : P → Slice → Verdict × ℕ × P) (open_conn : S → S)
    (spot_app_and_call : P → S → Bool × S) where
  unfoldable pub pending_or_new : Option P → S → P × S
  pending_or_new none os = (init_data, open_conn os)
  pending_or_new (some p) os = (p, os)

  abbrev pub called : (Serving P → S → Outcome P S) → Serving P → Bool × S → Outcome P S
  called more c (true, os) = more c os
  called more c (false, os) = finished (record c { should_close = true }) os

  abbrev pub parsed : (Serving P → S → Outcome P S) → Serving P → S → Verdict × ℕ × P → Outcome P S
  parsed more c os (wrong, n, p) = elim (msg_set_readed c.req_buf 0) [
    | none ↦ aborted
    | some h ↦ finished (record c { req_buf = h; valid = false }) os
  ]
  parsed more c os (ok, n, p) = elim (msg_set_readed c.req_buf n) [
    | none ↦ aborted
    | some h ↦ called more (record c { req_buf = h; pending = none }) (spot_app_and_call p os)
  ]
  parsed more c os (continued, n, p) = elim (msg_set_readed c.req_buf n) [
    | none ↦ aborted
    | some h ↦ more (record c { req_buf = h; pending = some p }) os
  ]

  abbrev pub read_one :
      (Serving P → S → Outcome P S) → Serving P → P × S → Option (Slice × Msghdr) → Outcome P S
  read_one more c (p, os) none = aborted
  read_one more c (p, os) (some (s, h)) = parsed more (record c { req_buf = h }) os (parser p s)

  abbrev pub while_can_read :
      (Serving P → S → Outcome P S) → Serving P → S → Option Bool → Outcome P S
  while_can_read more c os none = aborted
  while_can_read more c os (some false) = finished c os
  while_can_read more c os (some true) =
      read_one more c (pending_or_new c.pending os) (msg_read c.req_buf)

  -- The loop, on fuel.
  unfoldable pub request_loop : ℕ → Serving P → S → Outcome P S
  unfolding pending_or_new
  request_loop zero c os = running
  request_loop (suc f) c os = while_can_read (request_loop f) c os (msg_can_read c.req_buf)
