-- ===== src/Redis/Protocol.antt =====
-- What src/protocol/redis/proto_redis.c offers to the server and its applications: parseRedis, and
-- the walk over the slices of a message.
use wheatserver.Common.{
  ℕ, zero, suc, ◌+◌, ◌≤◌, ◌<◌, ◌≡◌, ◌≢◌, refl, sym, ap, ◌∙◌, Bool, true, Option, none, some, List,
  [], ◌∷◌, ◌++◌, ltb, lt→ltb, get_elem?, length, drop, arith, if◌then◌else◌, drop_all, lt-cases,
  inl, inr,
}
use wheatserver.Slice.{Bytes, Slice, view}
use wheatserver.Slice.Cut.{view-cut}
use wheatserver.Redis.Command.{Command}
use wheatserver.Redis.Table.{command_handle}
use wheatserver.Redis.Data.{Stage, RedisProcData, init_redis_data}
use wheatserver.Redis.Request.{Parsed, req_parser, int_max}
use wheatserver.Redis.Response.{res_parser}
use wheatserver.Redis.Encode.{encode, AllPlain}
use wheatserver.Redis.Steps.{ltb-le}
use wheatserver.Redis.Whole.{after_request, req_parser-encode}

-- The return values: WHEAT_OK, WHEAT_WRONG, and 1 for a message that is not complete.
pub data Status : Type 0 where
  wheat_ok : Status
  wheat_wrong : Status
  incomplete : Status

-- What `parseRedis` leaves: its value, `*out`, and the data; or no result.
pub data Outcome : Type 0 where
  returned : Status → Option ℕ → RedisProcData → Outcome
  no_result : Parsed → Outcome

-- REDIS_FINISHED
abbrev pub redis_finished : RedisProcData → Status
redis_finished st = elim st.stage [ Stage.mes_end ↦ Status.wheat_ok | _ ↦ Status.incomplete ]

-- `slice->len = nparsed; arrayPush(redis_data->req_body, slice);`
abbrev pub push_body : RedisProcData → Slice → ℕ → RedisProcData
push_body st s n = record st { req_body = st.req_body ++ (record s { len = n } ∷ []) }

abbrev pub after_parse : Slice → Parsed → Outcome
after_parse s (Parsed.parsed st n) =
    Outcome.returned (redis_finished st) (some n) (push_body st s n)
after_parse s (Parsed.wrong st) = Outcome.returned Status.wheat_wrong none st
after_parse s p = Outcome.no_result p

unfoldable pub parse_redis : Bool → ℕ → RedisProcData → Slice → Outcome
parse_redis outer f st s = after_parse s (if outer then req_parser f st s else res_parser f st s)

unfoldable pub redis_body_start : RedisProcData → RedisProcData
redis_body_start st = record st { pos = 0 }

-- `none` is NULL.
unfoldable pub redis_body_next : RedisProcData → Option Slice × RedisProcData
redis_body_next st =
    if ltb st.pos (length st.req_body)
    then (get_elem? st.req_body st.pos, record st { pos = st.pos + 1 })
    else (none, st)

-- What a loop over the slices sees, given what it sees from the next turn on.
abbrev seen : (RedisProcData → List Slice) → Option Slice × RedisProcData → List Slice
seen more (none, st) = []
seen more (some s, st) = s ∷ more st

-- `while ((slice = redisBodyNext(c)) != NULL)`, on fuel: the slices seen.
unfoldable pub walk : ℕ → RedisProcData → List Slice
walk zero st = []
walk (suc f) st = seen (walk f) (redis_body_next st)

next_item :
    (xs : List Slice) (p : ℕ)
    → p < length xs
    → (x : Slice) × (get_elem? xs p ≡ some x) × (drop p xs ≡ x ∷ drop (suc p) xs)
next_item [] p h = absurd (omega (arith, h))
next_item (x ∷ xs) zero h = (x, refl, refl)
next_item (x ∷ xs) (suc p) h = next_item xs p (omega (arith, h))

next_some :
    (st : RedisProcData) (x : Slice)
    → st.pos < length st.req_body
    → get_elem? st.req_body st.pos ≡ some x
    → redis_body_next st ≡ (some x, record st { pos = st.pos + 1 })
unfolding redis_body_next
next_some st x h e = rw (redis_body_next, lt→ltb st.pos (length st.req_body) h, e)

next_none : (st : RedisProcData) → length st.req_body ≤ st.pos → redis_body_next st ≡ (none, st)
unfolding redis_body_next
next_none st h = rw (redis_body_next, ltb-le st.pos (length st.req_body) h)

walk-drop :
    (f : ℕ) (st : RedisProcData)
    → length st.req_body < f + st.pos
    → st.pos ≤ length st.req_body
    → walk f st ≡ drop st.pos st.req_body
unfolding walk
walk-drop zero st h k = absurd (omega (arith, h, k))
walk-drop (suc f) st h k = elim (lt-cases st.pos (length st.req_body)) [
  | inl p ↦
      let (x, e, d) = next_item st.req_body st.pos p in
      let k : st.pos + 1 ≡ suc st.pos = omega arith in
      ap (seen (walk f)) (next_some st x p e)
      ∙ (ap (λ l. x ∷ l)
          (walk-drop f (record st { pos = st.pos + 1 }) (omega (arith, h)) (omega arith)
            ∙ ap (λ i. drop i st.req_body) k))
      ∙ sym d
  | inr p ↦ ap (seen (walk f)) (next_none st p) ∙ sym (drop_all st.pos st.req_body p)
]

-- A whole request in one slice, under the conditions of the parser's own theorem: `parseRedis`
-- returns WHEAT_OK and the request's length, and the body is one slice that shows the request.
pub parse_redis-encode :
    (command key : Bytes) (values : List Bytes) (tail : Bytes) (s : Slice) (f : ℕ)
    → AllPlain (command ∷ key ∷ values)
    → command_handle command ≢ Command.unknown
    → length (command ∷ key ∷ values) ≤ int_max
    → view s ≡ encode (command ∷ key ∷ values) ++ tail
    → length (view s) ≤ f
    → (body : Slice) × (parse_redis true f init_redis_data s
        ≡ Outcome.returned Status.wheat_ok
            (some (length (encode (command ∷ key ∷ values))))
            (record (after_request command key values) { req_body = body ∷ [] }))
      × (view body ≡ encode (command ∷ key ∷ values))
unfolding parse_redis
parse_redis-encode command key values tail s f plain known few e enough = (
  record s { len = length (encode (command ∷ key ∷ values)) },
  ap (after_parse s) (req_parser-encode command key values tail s f plain known few e enough),
  view-cut s (encode (command ∷ key ∷ values)) tail e,
)

-- Walking over a message's body from its start shows its slices in order, once each, and then
-- NULL.
pub walk-body :
    (st : RedisProcData) (f : ℕ)
    → length st.req_body < f
    → walk f (redis_body_start st) ≡ st.req_body
unfolding redis_body_start
walk-body st f h = walk-drop f (redis_body_start st) (omega (arith, h)) (omega arith)
