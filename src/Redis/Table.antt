-- ===== src/Redis/Table.antt =====
-- `redisCommandHandle` of src/protocol/redis/proto_redis.c, and src/protocol/str_macro.h.
use Prim.Native.Nat.{bit_xor}
use wheatserver.Common.{
  ℕ, Bool, true, false, ◌&&◌, ◌||◌, List, [], ◌∷◌, ◌==◌, if◌then◌else◌, length,
}
use wheatserver.Slice.{Bytes}
use wheatserver.Redis.Command.{Command}

-- One test of the switch: the letters it compares with, and the command it returns.
pub record Row : Type 0 where
  pub word : Bytes
  pub command : Command

-- One case of the switch.
pub record Case : Type 0 where
  pub size : ℕ
  pub rows : List Row

abbrev pub case3 : Case
case3 = record {
  size = 3;
  rows =
      record { word = b'd' ∷ b'e' ∷ b'l' ∷ []; command = Command.del }
      ∷ record { word = b'g' ∷ b'e' ∷ b't' ∷ []; command = Command.get }
      ∷ record { word = b's' ∷ b'e' ∷ b't' ∷ []; command = Command.set }
      ∷ record { word = b't' ∷ b't' ∷ b'l' ∷ []; command = Command.ttl }
      ∷ [];
}

abbrev pub case4 : Case
case4 = record {
  size = 4;
  rows =
      record { word = b'p' ∷ b't' ∷ b't' ∷ b'l' ∷ []; command = Command.pttl }
      ∷ record { word = b'd' ∷ b'e' ∷ b'c' ∷ b'r' ∷ []; command = Command.decr }
      ∷ record { word = b'h' ∷ b'd' ∷ b'e' ∷ b'l' ∷ []; command = Command.hdel }
      ∷ record { word = b'h' ∷ b'g' ∷ b'e' ∷ b't' ∷ []; command = Command.hget }
      ∷ record { word = b'h' ∷ b'l' ∷ b'e' ∷ b'n' ∷ []; command = Command.hlen }
      ∷ record { word = b'h' ∷ b's' ∷ b'e' ∷ b't' ∷ []; command = Command.hset }
      ∷ record { word = b'i' ∷ b'n' ∷ b'c' ∷ b'r' ∷ []; command = Command.incr }
      ∷ record { word = b'l' ∷ b'l' ∷ b'e' ∷ b'n' ∷ []; command = Command.llen }
      ∷ record { word = b'l' ∷ b'p' ∷ b'o' ∷ b'p' ∷ []; command = Command.lpop }
      ∷ record { word = b'l' ∷ b'r' ∷ b'e' ∷ b'm' ∷ []; command = Command.lrem }
      ∷ record { word = b'l' ∷ b's' ∷ b'e' ∷ b't' ∷ []; command = Command.lset }
      ∷ record { word = b'r' ∷ b'p' ∷ b'o' ∷ b'p' ∷ []; command = Command.rpop }
      ∷ record { word = b's' ∷ b'a' ∷ b'd' ∷ b'd' ∷ []; command = Command.sadd }
      ∷ record { word = b's' ∷ b'p' ∷ b'o' ∷ b'p' ∷ []; command = Command.spop }
      ∷ record { word = b's' ∷ b'r' ∷ b'e' ∷ b'm' ∷ []; command = Command.srem }
      ∷ record { word = b't' ∷ b'y' ∷ b'p' ∷ b'e' ∷ []; command = Command.type }
      ∷ record { word = b'z' ∷ b'a' ∷ b'd' ∷ b'd' ∷ []; command = Command.zadd }
      ∷ record { word = b'z' ∷ b'r' ∷ b'e' ∷ b'm' ∷ []; command = Command.zrem }
      ∷ [];
}

abbrev pub case5 : Case
case5 = record {
  size = 5;
  rows =
      record { word = b'h' ∷ b'k' ∷ b'e' ∷ b'y' ∷ b's' ∷ []; command = Command.hkeys }
      ∷ record { word = b'h' ∷ b'v' ∷ b'a' ∷ b'l' ∷ b's' ∷ []; command = Command.hvals }
      ∷ record { word = b'l' ∷ b'p' ∷ b'u' ∷ b's' ∷ b'h' ∷ []; command = Command.lpush }
      ∷ record { word = b'l' ∷ b't' ∷ b'r' ∷ b'i' ∷ b'm' ∷ []; command = Command.ltrim }
      ∷ record { word = b'r' ∷ b'p' ∷ b'u' ∷ b's' ∷ b'h' ∷ []; command = Command.rpush }
      ∷ record { word = b's' ∷ b'c' ∷ b'a' ∷ b'r' ∷ b'd' ∷ []; command = Command.scard }
      ∷ record { word = b's' ∷ b'e' ∷ b't' ∷ b'e' ∷ b'x' ∷ []; command = Command.setex }
      ∷ record { word = b's' ∷ b'e' ∷ b't' ∷ b'n' ∷ b'x' ∷ []; command = Command.setnx }
      ∷ record { word = b'z' ∷ b'c' ∷ b'a' ∷ b'r' ∷ b'd' ∷ []; command = Command.zcard }
      ∷ record { word = b'z' ∷ b'r' ∷ b'a' ∷ b'n' ∷ b'k' ∷ []; command = Command.zrank }
      ∷ [];
}

abbrev pub case6 : Case
case6 = record {
  size = 6;
  rows =
      record { word = b'a' ∷ b'p' ∷ b'p' ∷ b'e' ∷ b'n' ∷ b'd' ∷ []; command = Command.append }
      ∷ record { word = b'd' ∷ b'e' ∷ b'c' ∷ b'r' ∷ b'b' ∷ b'y' ∷ []; command = Command.decrby }
      ∷ record { word = b'e' ∷ b'x' ∷ b'i' ∷ b's' ∷ b't' ∷ b's' ∷ []; command = Command.exists }
      ∷ record { word = b'e' ∷ b'x' ∷ b'p' ∷ b'i' ∷ b'r' ∷ b'e' ∷ []; command = Command.expire }
      ∷ record { word = b'g' ∷ b'e' ∷ b't' ∷ b'b' ∷ b'i' ∷ b't' ∷ []; command = Command.getbit }
      ∷ record { word = b'g' ∷ b'e' ∷ b't' ∷ b's' ∷ b'e' ∷ b't' ∷ []; command = Command.getset }
      ∷ record { word = b'p' ∷ b's' ∷ b'e' ∷ b't' ∷ b'e' ∷ b'x' ∷ []; command = Command.psetex }
      ∷ record { word = b'h' ∷ b's' ∷ b'e' ∷ b't' ∷ b'n' ∷ b'x' ∷ []; command = Command.hsetnx }
      ∷ record { word = b'i' ∷ b'n' ∷ b'c' ∷ b'r' ∷ b'b' ∷ b'y' ∷ []; command = Command.incrby }
      ∷ record { word = b'l' ∷ b'i' ∷ b'n' ∷ b'd' ∷ b'e' ∷ b'x' ∷ []; command = Command.lindex }
      ∷ record { word = b'l' ∷ b'p' ∷ b'u' ∷ b's' ∷ b'h' ∷ b'x' ∷ []; command = Command.lpushx }
      ∷ record { word = b'l' ∷ b'r' ∷ b'a' ∷ b'n' ∷ b'g' ∷ b'e' ∷ []; command = Command.lrange }
      ∷ record { word = b'r' ∷ b'p' ∷ b'u' ∷ b's' ∷ b'h' ∷ b'x' ∷ []; command = Command.rpushx }
      ∷ record { word = b's' ∷ b'e' ∷ b't' ∷ b'b' ∷ b'i' ∷ b't' ∷ []; command = Command.setbit }
      ∷ record { word = b's' ∷ b't' ∷ b'r' ∷ b'l' ∷ b'e' ∷ b'n' ∷ []; command = Command.strlen }
      ∷ record { word = b'z' ∷ b'c' ∷ b'o' ∷ b'u' ∷ b'n' ∷ b't' ∷ []; command = Command.zcount }
      ∷ record { word = b'z' ∷ b'r' ∷ b'a' ∷ b'n' ∷ b'g' ∷ b'e' ∷ []; command = Command.zrange }
      ∷ record { word = b'z' ∷ b's' ∷ b'c' ∷ b'o' ∷ b'r' ∷ b'e' ∷ []; command = Command.zscore }
      ∷ [];
}

abbrev pub case7 : Case
case7 = record {
  size = 7;
  rows =
      record {
        word = b'p' ∷ b'e' ∷ b'r' ∷ b's' ∷ b'i' ∷ b's' ∷ b't' ∷ [];
        command = Command.persist;
      }
      ∷ record {
        word = b'p' ∷ b'e' ∷ b'x' ∷ b'p' ∷ b'i' ∷ b'r' ∷ b'e' ∷ [];
        command = Command.pexpire;
      }
      ∷ record {
        word = b'h' ∷ b'e' ∷ b'x' ∷ b'i' ∷ b's' ∷ b't' ∷ b's' ∷ [];
        command = Command.hexists;
      }
      ∷ record {
        word = b'h' ∷ b'g' ∷ b'e' ∷ b't' ∷ b'a' ∷ b'l' ∷ b'l' ∷ [];
        command = Command.hgetall;
      }
      ∷ record {
        word = b'h' ∷ b'i' ∷ b'n' ∷ b'c' ∷ b'r' ∷ b'b' ∷ b'y' ∷ [];
        command = Command.hincrby;
      }
      ∷ record {
        word = b'l' ∷ b'i' ∷ b'n' ∷ b's' ∷ b'e' ∷ b'r' ∷ b't' ∷ [];
        command = Command.linsert;
      }
      ∷ record {
        word = b'z' ∷ b'i' ∷ b'n' ∷ b'c' ∷ b'r' ∷ b'b' ∷ b'y' ∷ [];
        command = Command.zincrby;
      }
      ∷ [];
}

abbrev pub case8 : Case
case8 = record {
  size = 8;
  rows =
      record {
        word = b'e' ∷ b'x' ∷ b'p' ∷ b'i' ∷ b'r' ∷ b'e' ∷ b'a' ∷ b't' ∷ [];
        command = Command.expireat;
      }
      ∷ record {
        word = b'b' ∷ b'i' ∷ b't' ∷ b'c' ∷ b'o' ∷ b'u' ∷ b'n' ∷ b't' ∷ [];
        command = Command.bitcount;
      }
      ∷ record {
        word = b'g' ∷ b'e' ∷ b't' ∷ b'r' ∷ b'a' ∷ b'n' ∷ b'g' ∷ b'e' ∷ [];
        command = Command.getrange;
      }
      ∷ record {
        word = b's' ∷ b'e' ∷ b't' ∷ b'r' ∷ b'a' ∷ b'n' ∷ b'g' ∷ b'e' ∷ [];
        command = Command.setrange;
      }
      ∷ record {
        word = b's' ∷ b'm' ∷ b'e' ∷ b'm' ∷ b'b' ∷ b'e' ∷ b'r' ∷ b's' ∷ [];
        command = Command.smembers;
      }
      ∷ record {
        word = b'z' ∷ b'r' ∷ b'e' ∷ b'v' ∷ b'r' ∷ b'a' ∷ b'n' ∷ b'k' ∷ [];
        command = Command.zrevrank;
      }
      ∷ [];
}

abbrev pub case9 : Case
case9 = record {
  size = 9;
  rows =
      record {
        word = b'p' ∷ b'e' ∷ b'x' ∷ b'p' ∷ b'i' ∷ b'r' ∷ b'e' ∷ b'a' ∷ b't' ∷ [];
        command = Command.pexpireat;
      }
      ∷ record {
        word = b's' ∷ b'i' ∷ b's' ∷ b'm' ∷ b'e' ∷ b'm' ∷ b'b' ∷ b'e' ∷ b'r' ∷ [];
        command = Command.sismember;
      }
      ∷ record {
        word = b'z' ∷ b'r' ∷ b'e' ∷ b'v' ∷ b'r' ∷ b'a' ∷ b'n' ∷ b'g' ∷ b'e' ∷ [];
        command = Command.zrevrange;
      }
      ∷ [];
}

abbrev pub case11 : Case
case11 = record {
  size = 11;
  rows =
      record {
        word = b'i' ∷ b'n' ∷ b'c' ∷ b'r' ∷ b'b' ∷ b'y' ∷ b'f' ∷ b'l' ∷ b'o' ∷ b'a' ∷ b't' ∷ [];
        command = Command.incrbyfloat;
      }
      ∷ record {
        word = b's' ∷ b'r' ∷ b'a' ∷ b'n' ∷ b'd' ∷ b'm' ∷ b'e' ∷ b'm' ∷ b'b' ∷ b'e' ∷ b'r' ∷ [];
        command = Command.srandmember;
      }
      ∷ [];
}

abbrev pub case12 : Case
case12 = record {
  size = 12;
  rows =
      record {
        word =
            b'h' ∷ b'i' ∷ b'n' ∷ b'c' ∷ b'r' ∷ b'b' ∷ b'y' ∷ b'f' ∷ b'l' ∷ b'o' ∷ b'a' ∷ b't' ∷ [];
        command = Command.hincrbyfloat;
      }
      ∷ [];
}

abbrev pub case13 : Case
case13 = record {
  size = 13;
  rows =
      record {
        word =
            b'z' ∷ b'r' ∷ b'a' ∷ b'n' ∷ b'g' ∷ b'e' ∷ b'b' ∷ b'y' ∷ b's' ∷ b'c' ∷ b'o' ∷ b'r' ∷ b'e'
            ∷ [];
        command = Command.zrangebyscore;
      }
      ∷ [];
}

abbrev pub case15 : Case
case15 = record {
  size = 15;
  rows =
      record {
        word =
            b'z' ∷ b'r' ∷ b'e' ∷ b'm' ∷ b'r' ∷ b'a' ∷ b'n' ∷ b'g' ∷ b'e' ∷ b'b' ∷ b'y' ∷ b'r' ∷ b'a'
            ∷ b'n' ∷ b'k' ∷ [];
        command = Command.zremrangebyrank;
      }
      ∷ [];
}

abbrev pub case16 : Case
case16 = record {
  size = 16;
  rows =
      record {
        word =
            b'z' ∷ b'r' ∷ b'e' ∷ b'm' ∷ b'r' ∷ b'a' ∷ b'n' ∷ b'g' ∷ b'e' ∷ b'b' ∷ b'y' ∷ b's' ∷ b'c'
            ∷ b'o' ∷ b'r' ∷ b'e' ∷ [];
        command = Command.zremrangebyscore;
      }
      ∷ record {
        word =
            b'z' ∷ b'r' ∷ b'e' ∷ b'v' ∷ b'r' ∷ b'a' ∷ b'n' ∷ b'g' ∷ b'e' ∷ b'b' ∷ b'y' ∷ b's' ∷ b'c'
            ∷ b'o' ∷ b'r' ∷ b'e' ∷ [];
        command = Command.zrevrangebyscore;
      }
      ∷ [];
}

abbrev pub cases : List Case
cases =
    case3 ∷ case4 ∷ case5 ∷ case6 ∷ case7 ∷ case8 ∷ case9 ∷ case11 ∷ case12 ∷ case13 ∷ case15
    ∷ case16 ∷ []

-- `strNicmp(m, c0, c1, ...)`, for as many letters as there are.
abbrev pub icmp : Bytes → Bytes → Bool
icmp m [] = true
icmp [] (c ∷ cs) = false
icmp (m ∷ ms) (c ∷ cs) = (m == c || m == bit_xor c 0x20) && icmp ms cs

unfoldable pub tests : Bytes → List Row → Command
tests m [] = Command.unknown
tests m (r ∷ rs) = if icmp m r.word then r.command else tests m rs

unfoldable pub switch : ℕ → List Case → List Row
switch n [] = []
switch n (c ∷ cs) = if n == c.size then c.rows else switch n cs

unfoldable pub command_handle : Bytes → Command
unfolding tests switch
command_handle command = tests command (switch (length command) cases)
