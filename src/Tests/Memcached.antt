-- ===== src/Tests/Memcached.antt =====
-- The parser of src/protocol/memcache/proto_memcache.c at concrete inputs.
use wheatserver.Common.{◌≡◌, ◌≢◌, refl, none, some, true, List, [], ◌∷◌, ◌++◌, length, arith}
use wheatserver.Slice.{Bytes, Slice, view}
use wheatserver.Number.Decimal.{decimal}
use wheatserver.Redis.Request.{cr, lf}
use wheatserver.Memcache.Data.{Command, Stage, MemcacheProcData, init_memcache_data, command_of}
use wheatserver.Memcache.Request.{Parsed, sp, noreply_text}
use wheatserver.Memcache.Loop.{parse_req}
use wheatserver.Memcache.Ends.{parse_req-ends}
use wheatserver.Memcache.Words.{IsKey}
use wheatserver.Memcache.Encode.{Storage, name, storage_text}
use wheatserver.Memcache.RoundTrip.{IsStorage, stored, parse_req-storage}
use wheatserver.Memcache.Protocol.{Status, Outcome, parse_memcache, IsRead, parse_memcache-storage}
use wheatserver.Memcache.Retrieval.{retrieval_text, parse_req-retrieval}
use wheatserver.Memcache.Arithmetic.{arithmetic_text, counted, parse_req-arithmetic}
use wheatserver.Memcache.Delete.{delete_text, parse_req-delete_noreply}

abbrev one_slice : Bytes → Slice
one_slice text = record { pointer = some text; len = length text }

-- "set k 7 0 2\r\nhi\r\n"
abbrev set_text : Bytes
set_text =
    b's' ∷ b'e' ∷ b't' ∷ sp ∷ b'k' ∷ sp ∷ b'7' ∷ sp ∷ b'0' ∷ sp ∷ b'2' ∷ cr ∷ lf ∷ b'h' ∷ b'i' ∷ cr
    ∷ lf ∷ []

set_run :
    parse_req init_memcache_data (one_slice set_text)
    ≡ Parsed.parsed
        (record init_memcache_data {
          token_pos = none;
          keys = (b'k' ∷ []) ∷ [];
          flag = 7;
          vlen = 2;
          vals = (b'h' ∷ b'i' ∷ []) ∷ [];
          kind = Command.set;
          stage = Stage.done;
        })
        17
unfolding parse_req command_of
set_run = refl

-- "get k l\r\n"
abbrev get_text : Bytes
get_text = b'g' ∷ b'e' ∷ b't' ∷ sp ∷ b'k' ∷ sp ∷ b'l' ∷ cr ∷ lf ∷ []

get_run :
    parse_req init_memcache_data (one_slice get_text)
    ≡ Parsed.parsed
        (record init_memcache_data {
          token_pos = none;
          keys = (b'k' ∷ []) ∷ (b'l' ∷ []) ∷ [];
          kind = Command.get;
          stage = Stage.done;
        })
        9
unfolding parse_req command_of
get_run = refl

-- "ge"
cut_run :
    parse_req init_memcache_data (one_slice (b'g' ∷ b'e' ∷ []))
    ≡ Parsed.parsed
        (record init_memcache_data { command = b'g' ∷ b'e' ∷ []; stage = Stage.req_type })
        2
unfolding parse_req command_of
cut_run = refl

-- "t k\r\n"
resumed_run :
    parse_req
      (record init_memcache_data { command = b'g' ∷ b'e' ∷ []; stage = Stage.req_type })
      (one_slice (b't' ∷ sp ∷ b'k' ∷ cr ∷ lf ∷ []))
    ≡ Parsed.parsed
        (record init_memcache_data {
          token_pos = none;
          command = b'g' ∷ b'e' ∷ b't' ∷ [];
          keys = (b'k' ∷ []) ∷ [];
          kind = Command.get;
          stage = Stage.done;
        })
        5
unfolding parse_req command_of
resumed_run = refl

parse_req-ends_example :
    parse_req (record init_memcache_data { stage = Stage.val; vlen_left = 2 }) (one_slice set_text)
    ≢ Parsed.running
parse_req-ends_example =
    parse_req-ends (record init_memcache_data { stage = Stage.val; vlen_left = 2 })
      (one_slice set_text)

abbrev key_text : Bytes
key_text = b'k' ∷ []

abbrev cas_request : Storage
cas_request = record {
  command = Command.cas;
  key = key_text;
  flags = 7;
  exptime = 0;
  cas = 12;
  noreply = true;
  value = b'h' ∷ b'i' ∷ [];
}

key_text-IsKey : IsKey key_text
key_text-IsKey = ((refl, tt), omega arith, omega arith)

cas_request-IsStorage : IsStorage cas_request
cas_request-IsStorage = record {
  stores = refl;
  key = key_text-IsKey;
  flags = omega arith;
  exptime = omega arith;
  cas = omega arith;
  value = omega arith;
}

abbrev cas_slice : Slice
cas_slice = one_slice (storage_text cas_request ++ (b'g' ∷ []))

cas_view : view cas_slice ≡ storage_text cas_request ++ (b'g' ∷ [])
unfolding name decimal
cas_view = refl

parse_req-storage_example :
    parse_req init_memcache_data cas_slice
    ≡ Parsed.parsed (stored cas_request) (length (storage_text cas_request))
parse_req-storage_example =
    parse_req-storage cas_request cas_slice (b'g' ∷ []) cas_request-IsStorage cas_view

abbrev gets_keys : List Bytes
gets_keys = (b'a' ∷ b'b' ∷ []) ∷ key_text ∷ []

abbrev gets_slice : Slice
gets_slice = one_slice (retrieval_text Command.gets (key_text ∷ gets_keys) ++ [])

gets_view : view gets_slice ≡ retrieval_text Command.gets (key_text ∷ gets_keys) ++ []
unfolding name
gets_view = refl

parse_req-retrieval_example :
    parse_req init_memcache_data gets_slice
    ≡ Parsed.parsed
        (record init_memcache_data {
          token_pos = none;
          kind = Command.gets;
          keys = key_text ∷ gets_keys;
          stage = Stage.done;
        })
        (length (retrieval_text Command.gets (key_text ∷ gets_keys)))
parse_req-retrieval_example =
    parse_req-retrieval Command.gets key_text gets_keys gets_slice [] refl key_text-IsKey
      (((refl, (refl, tt)), omega arith, omega arith), (key_text-IsKey, tt)) gets_view

abbrev incr_slice : Slice
incr_slice = one_slice (arithmetic_text Command.incr key_text 15 true ++ [])

incr_view : view incr_slice ≡ arithmetic_text Command.incr key_text 15 true ++ []
unfolding name decimal
incr_view = refl

parse_req-arithmetic_run :
    parse_req init_memcache_data incr_slice
    ≡ Parsed.parsed
        (counted Command.incr key_text 15 true)
        (length (arithmetic_text Command.incr key_text 15 true))
parse_req-arithmetic_run =
    parse_req-arithmetic Command.incr key_text 15 true incr_slice [] refl key_text-IsKey
      (omega arith) incr_view

abbrev delete_slice : Slice
delete_slice = one_slice (delete_text key_text (sp ∷ (noreply_text ++ (cr ∷ lf ∷ []))) ++ [])

delete_view : view delete_slice ≡ delete_text key_text (sp ∷ (noreply_text ++ (cr ∷ lf ∷ []))) ++ []
unfolding name
delete_view = refl

parse_req-delete_noreply_run : parse_req init_memcache_data delete_slice ≡ Parsed.wrong
parse_req-delete_noreply_run =
    parse_req-delete_noreply key_text delete_slice [] key_text-IsKey delete_view

parse_memcache-storage_example :
    (s' : Slice) × (r : MemcacheProcData) × (parse_memcache init_memcache_data cas_slice
      ≡ Outcome.returned Status.wheat_ok (length (storage_text cas_request)) s' r)
    × (view s' ≡ storage_text cas_request)
    × IsRead cas_request r
parse_memcache-storage_example =
    parse_memcache-storage cas_request cas_slice (b'g' ∷ []) cas_request-IsStorage cas_view
