-- ===== src/WheatRedis/Config.antt =====
-- src/app/wheatredis/redis_config.c: how the configuration that a Redis server answers is read.
-- A wstr has a final 0, which a read of its byte behind the last one gives.
pub mod Bulk
use wheatserver.Common.{
  ℕ, zero, suc, ◌+◌, ◌-◌, ◌%◌, ◌^◌, Bool, true, false, ◌||◌, Option, none, some, List, [], ◌∷◌,
  ◌++◌, ltb, leb, ◌==◌, if◌then◌else◌, length, take, drop, get_elem?, set, ℤ, pos, negsuc,
}
use wheatserver.Slice.{Bytes}
use wheatserver.Number.{string2ll}
use wheatserver.Stats.{atoi, to_word}
use wheatserver.WheatRedis.Hash.{Token, Tokens, keyspace}

-- WHEAT_WRONG; a read behind the end of the body; or what was read.
pub data Read (A : Type 0) : Type 0 where
  wrong : Read A
  outside : Read A
  value : A → Read A

abbrev pub byte_at : Bytes → ℕ → ℕ
byte_at [] i = 0
byte_at (c ∷ cs) zero = c
byte_at (c ∷ cs) (suc i) = byte_at cs i

-- `wstrNewLen(&body[4], len)`, and `wstrCatLen` on an empty one.
abbrev pub copy_from_4 : Bytes → ℤ → Read Bytes
copy_from_4 body (negsuc n) = outside
copy_from_4 body (pos len) =
    if leb (4 + len) (length body + 1) then value (take len (drop 4 body)) else outside

unfoldable pub get_str_from : Bytes → Read Bytes
get_str_from body = if byte_at body 0 == b'-' then wrong else copy_from_4 body (atoi (drop 1 body))

abbrev pub number_of : Option ℤ → Read ℕ
number_of none = wrong
number_of (some z) = value (to_word z)

abbrev pub parsed : Read Bytes → Read ℕ
parsed wrong = wrong
parsed outside = outside
parsed (value v) = number_of (string2ll v)

unfoldable pub get_val_from : Bytes → Read ℕ
get_val_from body =
    if byte_at body 1 == b'-' then wrong else parsed (copy_from_4 body (atoi (drop 1 body)))
