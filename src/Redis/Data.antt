-- ===== src/Redis/Data.antt =====
-- `struct redisProcData` of src/protocol/redis/proto_redis.c, and the stages of its parsers.
use wheatserver.Common.{ℕ, Bool, false, Option, none, List, [], ltb, not, ℕ}
use wheatserver.Slice.{Bytes, Slice}
use wheatserver.Redis.Command.{Command, number}

pub data Stage : Type 0 where
  mes_start : Stage
  req_get_args : Stage
  req_get_arg_len_lf : Stage
  req_get_arg_dollar : Stage
  req_get_arg_len : Stage
  req_get_arg_val_lf : Stage
  req_get_arg_command_or_key : Stage
  req_get_arg_val : Stage
  res_single : Stage
  res_single_lf : Stage
  res_get_args : Stage
  res_get_arg_len : Stage
  res_get_arg_len_lf : Stage
  res_get_arg_val_lf : Stage
  res_get_arg_prefix : Stage
  res_get_arg_val : Stage
  res_nil_val : Stage
  res_nil_val_lf : Stage
  mes_end : Stage
  mes_err : Stage

-- The array of slices is the list of its elements.
pub record RedisProcData : Type 0 where
  pub curr_arg_len : ℕ
  pub curr_arg : ℕ
  pub args : ℕ
  pub key : Bytes
  pub command : Option Bytes
  pub key_end_pos : ℕ
  pub stage : Stage
  pub command_type : Command
  pub is_read : Bool
  pub req_body : List Slice
  pub pos : ℕ

abbrev pub init_redis_data : RedisProcData
init_redis_data = record {
  curr_arg_len = 0;
  curr_arg = 0;
  args = 0;
  key = [];
  command = none;
  key_end_pos = 0;
  stage = Stage.mes_start;
  command_type = Command.unknown;
  is_read = false;
  req_body = [];
  pos = 0;
}

-- `if (command_type > REDIS_ZSCORE) ... else ...`
unfoldable pub reads : Command → Bool
unfolding number
reads c = not (ltb (number Command.zscore) (number c))
