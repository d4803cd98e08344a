-- ===== src/Tests/Replies.antt =====
-- What src/app/wheatredis/redis_config.c reads of a Redis server's replies.
use wheatserver.Common.{◌≡◌, refl, [], ◌∷◌, arith}
use wheatserver.Slice.{Bytes}
use wheatserver.Number.Decimal.{decimal}
use wheatserver.Stats.{atoi}
use wheatserver.WheatRedis.Config.{wrong, outside, value, get_str_from, get_val_from}
use wheatserver.WheatRedis.Config.Bulk.{bulk, nil_reply, get_str_from-bulk, get_val_from_short}

abbrev local : Bytes
local = b'1' ∷ b'2' ∷ b'7' ∷ b'.' ∷ b'0' ∷ b'.' ∷ b'0' ∷ b'.' ∷ b'1' ∷ []

abbrev private_net : Bytes
private_net = b'1' ∷ b'0' ∷ b'.' ∷ b'0' ∷ b'.' ∷ b'0' ∷ b'.' ∷ b'1' ∷ b'2' ∷ b'3' ∷ []

get_str_from-bulk_example :
    get_str_from (bulk private_net)
    ≡ value (10 ∷ b'1' ∷ b'0' ∷ b'.' ∷ b'0' ∷ b'.' ∷ b'0' ∷ b'.' ∷ b'1' ∷ b'2' ∷ [])
get_str_from-bulk_example = get_str_from-bulk private_net (omega arith)

local_run : get_str_from (bulk local) ≡ value local
local_run = get_str_from-bulk local (omega arith)

-- A hash without the field is told by the number's reader only.
nil_val_run : get_val_from nil_reply ≡ wrong
unfolding get_val_from
nil_val_run = refl

nil_str_run : get_str_from nil_reply ≡ outside
unfolding get_str_from atoi
nil_str_run = refl

val_run : get_val_from (bulk (decimal 1024)) ≡ value 1024
unfolding decimal
val_run = get_val_from_short 1024 (omega arith) (omega arith)
