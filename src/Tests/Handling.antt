-- ===== src/Tests/Handling.antt =====
-- The loop of handleRequest in src/worker/worker.c with parseMemcache of
-- src/protocol/memcache/proto_memcache.c.
use mathlib.Core.Option
use wheatserver.Common.{
  ℕ, ◌≡◌, refl, Bool, true, false, Option, none, some, List, [], ◌∷◌, ◌++◌, arith,
}
use wheatserver.Slice.{Bytes, Slice}
use wheatserver.Redis.Request.{cr, lf}
use wheatserver.Memcache.Data.{MemcacheProcData, init_memcache_data, command_of}
use wheatserver.Memcache.Request.{sp}
use wheatserver.Memcache.Loop.{parse_req}
use wheatserver.Memcache.Protocol.{parse_memcache}
use wheatserver.Memcache.Protocol
use wheatserver.Mbuf.{Mbuf, mbuf_magic, msg_can_read, msg_read, msg_set_readed}
use wheatserver.Mbuf.Inv.{IsValid}
use wheatserver.Worker.Requests.{
  Verdict, wrong, ok, continued, Serving, Outcome, finished, aborted, running, pending_or_new,
  request_loop,
}
use wheatserver.Worker.Requests.Loop.{ServesStream, request_loop-ServesStream}

abbrev verdict : Protocol.Status → Verdict
verdict Protocol.Status.wheat_ok = ok
verdict Protocol.Status.wheat_wrong = wrong
verdict Protocol.Status.incomplete = continued

abbrev answer : MemcacheProcData → Protocol.Outcome → Verdict × ℕ × MemcacheProcData
answer p (Protocol.Outcome.returned status n s q) = (verdict status, n, q)
answer p Protocol.Outcome.refused = (wrong, 0, p)
answer p Protocol.Outcome.no_result = (wrong, 0, p)

abbrev parser : MemcacheProcData → Slice → Verdict × ℕ × MemcacheProcData
parser p s = answer p (parse_memcache p s)

-- The keys of the requests that the application got; it fails on a request without keys.
abbrev open_conn : List (List Bytes) → List (List Bytes)
open_conn os = os

abbrev called : List Bytes → List (List Bytes) → Bool × List (List Bytes)
called [] os = (false, os)
called (k ∷ ks) os = (true, os ++ ((k ∷ ks) ∷ []))

abbrev app : MemcacheProcData → List (List Bytes) → Bool × List (List Bytes)
app p os = called p.keys os

abbrev buffer : Bytes → ℕ → Mbuf
buffer block w = record { magic = mbuf_magic; block = block; read_pos = 0; write_pos = w; end = 4 }

-- "get k\r\nget l m\r\ng", in buffers of four bytes
abbrev client : Serving MemcacheProcData
client = record {
  pending = none;
  req_buf = record {
    chain =
        buffer (b'g' ∷ b'e' ∷ b't' ∷ sp ∷ []) 4
        ∷ buffer (b'k' ∷ cr ∷ lf ∷ b'g' ∷ []) 4
        ∷ buffer (b'e' ∷ b't' ∷ sp ∷ b'l' ∷ []) 4
        ∷ buffer (sp ∷ b'm' ∷ cr ∷ lf ∷ []) 4
        ∷ buffer (b'g' ∷ 0 ∷ 0 ∷ 0 ∷ []) 1
        ∷ [];
    last_write = 4;
    last_read = 0;
    mbuf_len = 5;
    mbuf_size = 4;
    is_set_writted_after_put = true;
    is_set_readed_after_read = true;
  };
  should_close = false;
  valid = true;
}

client_valid : IsValid client.req_buf
client_valid = omega arith

abbrev after :
    Outcome MemcacheProcData (List (List Bytes)) → Option (Option Bytes × List (List Bytes))
after (finished c os) = some (Option.map (λ p. p.command) c.pending, os)
after aborted = none
after running = none

handle_run :
    after (request_loop init_memcache_data parser open_conn app 18 client [])
    ≡ some (some (b'g' ∷ []), ((b'k' ∷ []) ∷ []) ∷ ((b'l' ∷ []) ∷ (b'm' ∷ []) ∷ []) ∷ [])
unfolding request_loop pending_or_new msg_can_read msg_read msg_set_readed parse_memcache parse_req
    command_of
handle_run = refl

request_loop-ServesStream_example :
    ServesStream init_memcache_data parser open_conn app client []
      (request_loop init_memcache_data parser open_conn app 18 client [])
request_loop-ServesStream_example =
    request_loop-ServesStream init_memcache_data parser open_conn app 18 client [] client_valid refl
      (omega arith)
