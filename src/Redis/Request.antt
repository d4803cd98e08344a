-- ===== src/Redis/Request.antt =====
-- `redisReqParser` of src/protocol/redis/proto_redis.c. What is left of the slice, from `s->data +
-- pos` on, is a list beside `pos`; an `int` that would exceed its range is the outcome `overflow`.
use wheatserver.Common.{
  ℕ, zero, suc, ◌+◌, ◌-◌, ◌*◌, ◌^◌, some, [], ◌∷◌, ◌++◌, ltb, ◌==◌, if◌then◌else◌, length, take,
  drop,
}
use wheatserver.Slice.{Bytes, Slice, view}
use wheatserver.Number.{is_digit}
use wheatserver.Redis.Command.{Command, number}
use wheatserver.Redis.Table.{command_handle}
use wheatserver.Redis.Data.{Stage, RedisProcData, reads}

abbrev pub int_max : ℕ
int_max = 2 ^ 31 - 1

abbrev pub cr : ℕ
cr = 13

abbrev pub lf : ℕ
lf = 10

-- What one run of the loop's body does: it goes on with what is left, returns `pos`, jumps to
-- `redis_err`, or overflows an `int`.
pub data Step : Type 0 where
  next : RedisProcData → Bytes → ℕ → Step
  stop : RedisProcData → ℕ → Step
  failed : RedisProcData → Step
  overflow : Step

-- What the parser returns; `wrong` is -1, and `running` is where the fuel ends first.
pub data Parsed : Type 0 where
  parsed : RedisProcData → ℕ → Parsed
  wrong : RedisProcData → Parsed
  undefined : Parsed
  running : Parsed

abbrev pub to_stage : RedisProcData → Stage → RedisProcData
to_stage st s = record st { stage = s }

-- The stages in which just one byte is allowed.
unfoldable pub expect : ℕ → Stage → RedisProcData → ℕ → Bytes → ℕ → Step
expect c s st ch rest pos = if ch == c then next (to_stage st s) rest (pos + 1) else failed st

unfoldable pub read_args : RedisProcData → ℕ → Bytes → ℕ → Step
unfolding expect
read_args st ch rest pos =
    let n = st.args * 10 + (ch - b'0') in
    if is_digit ch
    then if ltb int_max n
      then overflow
      else if ltb n 1
      then failed (record st { args = n })
      else next (record st { args = n }) rest (pos + 1)
    else expect cr Stage.req_get_arg_len_lf st ch rest pos

unfoldable pub read_arg_len : RedisProcData → ℕ → Bytes → ℕ → Step
unfolding expect
read_arg_len st ch rest pos =
    let n = st.curr_arg_len * 10 + (ch - b'0') in
    if is_digit ch
    then if ltb int_max n then overflow else next (record st { curr_arg_len = n }) rest (pos + 1)
    else expect cr Stage.req_get_arg_val_lf st ch rest pos

-- The first value is a command's name.
unfoldable pub set_command : RedisProcData → Bytes → ℕ → Step
set_command st rest pos =
    let c = command_handle st.key in
    if number c == number Command.unknown
    then failed st
    else next (record st { command_type = c; is_read = reads c; command = some st.key; key = [] })
        rest pos

-- A value is complete: `curr_arg++; curr_arg_len = 0`.
abbrev pub counted : RedisProcData → RedisProcData
counted st = record st { curr_arg = st.curr_arg + 1; curr_arg_len = 0 }

-- The end of `REQ_GET_ARG_COMMAND_OR_KEY`, with the value in `key`.
unfoldable pub end_command_or_key : RedisProcData → Bytes → ℕ → Step
unfolding set_command
end_command_or_key st rest pos =
    if ltb int_max st.curr_arg
    then overflow
    else if st.curr_arg == 1
    then set_command st rest pos
    else next (record st { key_end_pos = pos }) rest pos

unfoldable pub read_command_or_key : RedisProcData → ℕ → Bytes → ℕ → Step
unfolding end_command_or_key
read_command_or_key st ch rest pos =
    let left = length (ch ∷ rest) in
    if ch == cr
    then next (to_stage st Stage.req_get_arg_len_lf) rest (pos + 1)
    else if ltb left st.curr_arg_len
    then stop (record st { key = st.key ++ (ch ∷ rest); curr_arg_len = st.curr_arg_len - left })
        (pos + left)
    else end_command_or_key
        (counted (record st { key = st.key ++ take st.curr_arg_len (ch ∷ rest) }))
        (drop st.curr_arg_len (ch ∷ rest)) (pos + st.curr_arg_len)

unfoldable pub read_val : RedisProcData → ℕ → Bytes → ℕ → Step
read_val st ch rest pos =
    let left = length (ch ∷ rest) in
    if ch == cr
    then next (to_stage st Stage.req_get_arg_len_lf) rest (pos + 1)
    else if ltb left st.curr_arg_len
    then stop (record st { curr_arg_len = st.curr_arg_len - left }) (pos + left)
    else if ltb int_max (st.curr_arg + 1)
    then overflow
    else next (counted st) (drop st.curr_arg_len (ch ∷ rest)) (pos + st.curr_arg_len)

-- The body of the loop, on the next byte.
unfoldable pub req_step : Stage → RedisProcData → ℕ → Bytes → ℕ → Step
unfolding expect read_args read_arg_len read_command_or_key read_val
req_step Stage.mes_start st = expect b'*' Stage.req_get_args st
req_step Stage.req_get_args st = read_args st
req_step Stage.req_get_arg_len_lf st =
    expect lf (if ltb st.curr_arg st.args then Stage.req_get_arg_dollar else Stage.mes_end) st
req_step Stage.req_get_arg_dollar st = expect b'$' Stage.req_get_arg_len st
req_step Stage.req_get_arg_len st = read_arg_len st
req_step Stage.req_get_arg_val_lf st =
    expect lf
      (if ltb st.curr_arg 2 then Stage.req_get_arg_command_or_key else Stage.req_get_arg_val) st
req_step Stage.req_get_arg_command_or_key st = read_command_or_key st
req_step Stage.req_get_arg_val st = read_val st
req_step Stage.mes_end st = λ ch rest pos. stop st pos
req_step s st = λ ch rest pos. failed st

-- The loop, on fuel.
unfoldable pub req_loop : ℕ → RedisProcData → Bytes → ℕ → Parsed
unfolding req_step
req_loop f st [] pos = parsed st pos
req_loop zero st (ch ∷ rest) pos = running
req_loop (suc f) st (ch ∷ rest) pos = elim (req_step st.stage st ch rest pos) [
  | next st' rest' pos' ↦ req_loop f st' rest' pos'
  | stop st' pos' ↦ parsed st' pos'
  | failed st' ↦ wrong (to_stage st' Stage.mes_err)
  | overflow ↦ undefined
]

unfoldable pub req_parser : ℕ → RedisProcData → Slice → Parsed
unfolding req_loop
req_parser f st s = req_loop f st (view s) 0
