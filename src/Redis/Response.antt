-- ===== src/Redis/Response.antt =====
-- `redisResParser` of src/protocol/redis/proto_redis.c, with the steps and outcomes of Request.
use wheatserver.Common.{
  ℕ, zero, suc, ◌+◌, ◌-◌, ◌*◌, [], ◌∷◌, ◌||◌, ltb, ◌==◌, if◌then◌else◌, length, drop,
}
use wheatserver.Slice.{Bytes, Slice, view}
use wheatserver.Number.{is_digit}
use wheatserver.Redis.Data.{Stage, RedisProcData}
use wheatserver.Redis.Request.{int_max, cr, lf, Step, Parsed, to_stage, expect, counted}

-- The stage behind the end of a line.
abbrev pub res_next_stage : RedisProcData → Stage
res_next_stage st = if ltb st.curr_arg st.args then Stage.res_get_arg_prefix else Stage.mes_end

unfoldable pub res_start : RedisProcData → ℕ → Bytes → ℕ → Step
unfolding expect
res_start st ch rest pos =
    if (ch == b'+') || ((ch == b'-') || (ch == b':'))
    then next (record st { stage = Stage.res_single; args = 1 })
    else if ch == b'$'
    then next (record st { stage = Stage.res_get_arg_len; args = 1 })
    else expect b'*' Stage.res_get_args st ch rest pos
  where
    next : RedisProcData → Step
    next st' = Step.next st' rest (pos + 1)

-- A line is skipped up to its `\r`, which counts it and leads to the stage `s`.
unfoldable pub skip_line : Stage → RedisProcData → ℕ → Bytes → ℕ → Step
skip_line s st ch rest pos =
    if ch == cr
    then if ltb int_max (st.curr_arg + 1)
      then Step.overflow
      else Step.next (record st { stage = s; curr_arg = st.curr_arg + 1 }) rest (pos + 1)
    else Step.next st rest (pos + 1)

unfoldable pub res_args : RedisProcData → ℕ → Bytes → ℕ → Step
unfolding expect
res_args st ch rest pos =
    let n = st.args * 10 + (ch - b'0') in
    if is_digit ch
    then if ltb int_max n
      then Step.overflow
      else if ltb n 2
      then Step.failed (record st { args = n })
      else Step.next (record st { args = n }) rest (pos + 1)
    else expect cr Stage.res_get_arg_len_lf st ch rest pos

unfoldable pub res_prefix : RedisProcData → ℕ → Bytes → ℕ → Step
unfolding expect
res_prefix st ch rest pos =
    if ch == b'$'
    then Step.next (to_stage st Stage.res_get_arg_len) rest (pos + 1)
    else expect b':' Stage.res_single st ch rest pos

unfoldable pub res_arg_len : RedisProcData → ℕ → Bytes → ℕ → Step
unfolding expect
res_arg_len st ch rest pos =
    let n = st.curr_arg_len * 10 + (ch - b'0') in
    if is_digit ch
    then if ltb int_max n
      then Step.overflow
      else Step.next (record st { curr_arg_len = n }) rest (pos + 1)
    else if ch == cr
    then Step.next (to_stage st Stage.res_get_arg_val_lf) rest (pos + 1)
    else expect b'-' Stage.res_nil_val st ch rest pos

unfoldable pub res_val : RedisProcData → ℕ → Bytes → ℕ → Step
res_val st ch rest pos =
    let left = length (ch ∷ rest) in
    if ch == cr
    then Step.next (to_stage st Stage.res_get_arg_len_lf) rest (pos + 1)
    else if ltb left st.curr_arg_len
    then Step.stop (record st { curr_arg_len = st.curr_arg_len - left }) (pos + left)
    else if ltb int_max (st.curr_arg + 1)
    then Step.overflow
    else Step.next (counted st) (drop st.curr_arg_len (ch ∷ rest)) (pos + st.curr_arg_len)

-- The body of the loop, on the next byte.
unfoldable pub res_step : Stage → RedisProcData → ℕ → Bytes → ℕ → Step
unfolding expect res_start skip_line res_args res_prefix res_arg_len res_val
res_step Stage.mes_start st = res_start st
res_step Stage.res_single st = skip_line Stage.res_single_lf st
res_step Stage.res_single_lf st = expect lf (res_next_stage st) st
res_step Stage.res_get_args st = res_args st
res_step Stage.res_get_arg_len_lf st = expect lf (res_next_stage st) st
res_step Stage.res_get_arg_prefix st = res_prefix st
res_step Stage.res_nil_val st = skip_line Stage.res_get_arg_len_lf st
res_step Stage.res_get_arg_len st = res_arg_len st
res_step Stage.res_get_arg_val_lf st = expect lf Stage.res_get_arg_val st
res_step Stage.res_get_arg_val st = res_val st
res_step Stage.mes_end st = λ ch rest pos. Step.stop st pos
res_step s st = λ ch rest pos. Step.failed st

-- The loop, on fuel.
unfoldable pub res_loop : ℕ → RedisProcData → Bytes → ℕ → Parsed
unfolding res_step
res_loop f st [] pos = Parsed.parsed st pos
res_loop zero st (ch ∷ rest) pos = Parsed.running
res_loop (suc f) st (ch ∷ rest) pos = elim (res_step st.stage st ch rest pos) [
  | Step.next st' rest' pos' ↦ res_loop f st' rest' pos'
  | Step.stop st' pos' ↦ Parsed.parsed st' pos'
  | Step.failed st' ↦ Parsed.wrong (to_stage st' Stage.mes_err)
  | Step.overflow ↦ Parsed.undefined
]

unfoldable pub res_parser : ℕ → RedisProcData → Slice → Parsed
unfolding res_loop
res_parser f st s = res_loop f st (view s) 0
