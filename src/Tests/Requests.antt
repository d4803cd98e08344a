-- ===== src/Tests/Requests.antt =====
-- The request parser of src/protocol/redis/proto_redis.c at concrete inputs.
use wheatserver.Common.{not, ◌≡◌, ◌≢◌, ◌↔◌, ◌≤◌, refl, some, [], ◌∷◌, ◌++◌, length, take_all, arith}
use wheatserver.Slice.{Bytes, Slice, view}
use wheatserver.Number.Decimal.{decimal}
use wheatserver.Common.{true, inl}
use wheatserver.Redis.Command.{Command}
use wheatserver.Redis.Table.{command_handle}
use wheatserver.Redis.Names.{name}
use wheatserver.Redis.Handle.{lowers, command_handle_lem}
use wheatserver.Redis.Data.{Stage, RedisProcData, init_redis_data, reads}
use wheatserver.Redis.Request.{Parsed, req_loop, req_parser, cr, lf}
use wheatserver.Redis.Encode.{encode, AllPlain}
use wheatserver.Redis.Steps.{at}
use wheatserver.Redis.Whole.{after_request, req_parser-encode}
use wheatserver.Redis.Response.{res_parser}
use wheatserver.Redis.Replies.{after_line, res_parser-line, res_parser-one}
use wheatserver.Redis.Protocol.{
  Status, Outcome, parse_redis, parse_redis-encode, walk, redis_body_start, walk-body,
}
use wheatserver.Redis.Kinds.{writes, reads-writes}
use wheatserver.Redis.Bounds.{req_parser-bound, req_loop-spins}

abbrev set_text : Bytes
set_text = b'S' ∷ b'e' ∷ b't' ∷ []

abbrev key_text : Bytes
key_text = b'k' ∷ b'e' ∷ b'y' ∷ []

abbrev value_text : Bytes
value_text = b'1' ∷ cr ∷ b'2' ∷ []

abbrev set_request : Bytes
set_request =
    b'*' ∷ b'3' ∷ cr ∷ lf ∷ b'$' ∷ b'3' ∷ cr ∷ lf ∷ b'S' ∷ b'e' ∷ b't' ∷ cr ∷ lf ∷ b'$' ∷ b'3' ∷ cr
    ∷ lf ∷ b'k' ∷ b'e' ∷ b'y' ∷ cr ∷ lf ∷ b'$' ∷ b'3' ∷ cr ∷ lf ∷ b'1' ∷ cr ∷ b'2' ∷ cr ∷ lf ∷ []

set_handled : command_handle set_text ≡ Command.set
unfolding command_handle
set_handled = refl

set_known : command_handle set_text ≢ Command.unknown
set_known e = cc set_handled

set_encoded : encode (set_text ∷ key_text ∷ value_text ∷ []) ≡ set_request
unfolding decimal
set_encoded = refl

abbrev one_slice : Bytes → Slice
one_slice text = record { pointer = some text; len = length text }

set_run :
    req_parser 100 init_redis_data (one_slice (set_request ++ (b'*' ∷ [])))
    ≡ Parsed.parsed
        (record init_redis_data {
          curr_arg = 3;
          args = 3;
          key = key_text;
          command = some set_text;
          key_end_pos = 20;
          stage = Stage.mes_end;
          command_type = Command.set;
        })
        31
unfolding req_parser command_handle reads
set_run = refl

command_handle_lem_example :
    (command_handle set_text ≡ Command.set) ↔ (lowers set_text ≡ name Command.set)
command_handle_lem_example = command_handle_lem set_text Command.set (λ e. cc)

plain_example : AllPlain (set_text ∷ key_text ∷ value_text ∷ [])
plain_example = (
  record {
    first = b'S';
    others = b'e' ∷ b't' ∷ [];
    splits = refl;
    no_cr = λ e. absurd (omega arith);
    short = omega arith;
  },
  (
    record {
      first = b'k';
      others = b'e' ∷ b'y' ∷ [];
      splits = refl;
      no_cr = λ e. absurd (omega arith);
      short = omega arith;
    },
    (
      record {
        first = b'1';
        others = cr ∷ b'2' ∷ [];
        splits = refl;
        no_cr = λ e. absurd (omega arith);
        short = omega arith;
      },
      tt,
    ),
  ),
)

abbrev two_requests : Bytes
two_requests = encode (set_text ∷ key_text ∷ value_text ∷ []) ++ (b'*' ∷ [])

req_parser-encode_example :
    req_parser (length (view (one_slice two_requests))) init_redis_data (one_slice two_requests)
    ≡ Parsed.parsed
        (after_request set_text key_text (value_text ∷ []))
        (length (encode (set_text ∷ key_text ∷ value_text ∷ [])))
req_parser-encode_example =
    req_parser-encode set_text key_text (value_text ∷ []) (b'*' ∷ []) (one_slice two_requests)
      (length (view (one_slice two_requests))) plain_example set_known (omega arith)
      (take_all (length two_requests) two_requests (omega arith)) (omega arith)

req_parser-bound_example : 31 ≤ length (view (one_slice (set_request ++ (b'*' ∷ []))))
req_parser-bound_example =
    req_parser-bound 100 init_redis_data (one_slice (set_request ++ (b'*' ∷ []))) _ 31 set_run

-- A value that is longer than its length says.
req_loop-spins_example :
    req_loop 1000 (at init_redis_data Stage.req_get_arg_val 0 3) (b'x' ∷ []) 30 ≡ Parsed.running
req_loop-spins_example =
    req_loop-spins 1000 init_redis_data 3 b'x' [] 30 (λ e. absurd (omega arith)) (omega arith)

reads-writes_example : reads Command.set ≡ not (writes Command.set)
reads-writes_example = reads-writes Command.set (λ e. cc) (λ e. cc) (λ e. cc)

abbrev ok_reply : Slice
ok_reply = one_slice (b'+' ∷ b'O' ∷ b'K' ∷ cr ∷ lf ∷ b':' ∷ [])

abbrev ten_reply : Slice
ten_reply = one_slice (b'*' ∷ b'1' ∷ b'0' ∷ cr ∷ lf ∷ [])

bulk_run :
    res_parser 100 init_redis_data (one_slice (b'$' ∷ b'2' ∷ cr ∷ lf ∷ b'h' ∷ b'i' ∷ cr ∷ lf ∷ []))
    ≡ Parsed.parsed after_line 8
unfolding res_parser
bulk_run = refl

nil_run :
    res_parser 100 init_redis_data (one_slice (b'$' ∷ b'-' ∷ b'1' ∷ cr ∷ lf ∷ []))
    ≡ Parsed.parsed after_line 5
unfolding res_parser
nil_run = refl

res_parser-line_example : res_parser 6 init_redis_data ok_reply ≡ Parsed.parsed after_line 5
res_parser-line_example =
    res_parser-line b'+' (b'O' ∷ b'K' ∷ []) (b':' ∷ []) ok_reply 6 (inl refl)
      ((λ e. absurd (omega arith)), ((λ e. absurd (omega arith)), tt)) refl (omega arith)

res_parser-one_example :
    res_parser 5 init_redis_data ten_reply
    ≡ Parsed.wrong (record init_redis_data { stage = Stage.mes_err; args = 1 })
res_parser-one_example = res_parser-one (b'0' ∷ cr ∷ lf ∷ []) ten_reply 5 refl (omega arith)

parse_redis-encode_example :
    (body : Slice) × (parse_redis true
        (length (view (one_slice two_requests)))
        init_redis_data
        (one_slice two_requests)
      ≡ Outcome.returned Status.wheat_ok
          (some (length (encode (set_text ∷ key_text ∷ value_text ∷ []))))
          (record (after_request set_text key_text (value_text ∷ [])) { req_body = body ∷ [] }))
    × (view body ≡ encode (set_text ∷ key_text ∷ value_text ∷ []))
parse_redis-encode_example =
    parse_redis-encode set_text key_text (value_text ∷ []) (b'*' ∷ []) (one_slice two_requests)
      (length (view (one_slice two_requests))) plain_example set_known (omega arith)
      (take_all (length two_requests) two_requests (omega arith)) (omega arith)

abbrev two_slices : RedisProcData
two_slices = record init_redis_data { req_body = ok_reply ∷ ten_reply ∷ []; pos = 1 }

walk-body_example : walk 3 (redis_body_start two_slices) ≡ ok_reply ∷ ten_reply ∷ []
walk-body_example = walk-body two_slices 3 (omega arith)
