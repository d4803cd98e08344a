-- ===== src/Redis/Names.antt =====
-- The commands of src/protocol/redis/proto_redis.c by name.
use wheatserver.Common.{◌≡◌, ◌≢◌, false, ◌==◌, refl, [], ◌∷◌}
use wheatserver.Slice.{Bytes}
use wheatserver.Redis.Command.{Command, number}
use wheatserver.Redis.Table.{command_handle}

-- A command's name is the one of its constant, in lower case; `unknown` has none.
unfoldable pub name : Command → Bytes
name Command.exists = b'e' ∷ b'x' ∷ b'i' ∷ b's' ∷ b't' ∷ b's' ∷ []
name Command.pttl = b'p' ∷ b't' ∷ b't' ∷ b'l' ∷ []
name Command.ttl = b't' ∷ b't' ∷ b'l' ∷ []
name Command.type = b't' ∷ b'y' ∷ b'p' ∷ b'e' ∷ []
name Command.bitcount = b'b' ∷ b'i' ∷ b't' ∷ b'c' ∷ b'o' ∷ b'u' ∷ b'n' ∷ b't' ∷ []
name Command.get = b'g' ∷ b'e' ∷ b't' ∷ []
name Command.getbit = b'g' ∷ b'e' ∷ b't' ∷ b'b' ∷ b'i' ∷ b't' ∷ []
name Command.getrange = b'g' ∷ b'e' ∷ b't' ∷ b'r' ∷ b'a' ∷ b'n' ∷ b'g' ∷ b'e' ∷ []
name Command.getset = b'g' ∷ b'e' ∷ b't' ∷ b's' ∷ b'e' ∷ b't' ∷ []
name Command.strlen = b's' ∷ b't' ∷ b'r' ∷ b'l' ∷ b'e' ∷ b'n' ∷ []
name Command.hexists = b'h' ∷ b'e' ∷ b'x' ∷ b'i' ∷ b's' ∷ b't' ∷ b's' ∷ []
name Command.hget = b'h' ∷ b'g' ∷ b'e' ∷ b't' ∷ []
name Command.hgetall = b'h' ∷ b'g' ∷ b'e' ∷ b't' ∷ b'a' ∷ b'l' ∷ b'l' ∷ []
name Command.hkeys = b'h' ∷ b'k' ∷ b'e' ∷ b'y' ∷ b's' ∷ []
name Command.hlen = b'h' ∷ b'l' ∷ b'e' ∷ b'n' ∷ []
name Command.hvals = b'h' ∷ b'v' ∷ b'a' ∷ b'l' ∷ b's' ∷ []
name Command.lindex = b'l' ∷ b'i' ∷ b'n' ∷ b'd' ∷ b'e' ∷ b'x' ∷ []
name Command.llen = b'l' ∷ b'l' ∷ b'e' ∷ b'n' ∷ []
name Command.lrange = b'l' ∷ b'r' ∷ b'a' ∷ b'n' ∷ b'g' ∷ b'e' ∷ []
name Command.scard = b's' ∷ b'c' ∷ b'a' ∷ b'r' ∷ b'd' ∷ []
name Command.sismember = b's' ∷ b'i' ∷ b's' ∷ b'm' ∷ b'e' ∷ b'm' ∷ b'b' ∷ b'e' ∷ b'r' ∷ []
name Command.smembers = b's' ∷ b'm' ∷ b'e' ∷ b'm' ∷ b'b' ∷ b'e' ∷ b'r' ∷ b's' ∷ []
name Command.srandmember =
    b's' ∷ b'r' ∷ b'a' ∷ b'n' ∷ b'd' ∷ b'm' ∷ b'e' ∷ b'm' ∷ b'b' ∷ b'e' ∷ b'r' ∷ []
name Command.zcard = b'z' ∷ b'c' ∷ b'a' ∷ b'r' ∷ b'd' ∷ []
name Command.zcount = b'z' ∷ b'c' ∷ b'o' ∷ b'u' ∷ b'n' ∷ b't' ∷ []
name Command.zrange = b'z' ∷ b'r' ∷ b'a' ∷ b'n' ∷ b'g' ∷ b'e' ∷ []
name Command.zrangebyscore =
    b'z' ∷ b'r' ∷ b'a' ∷ b'n' ∷ b'g' ∷ b'e' ∷ b'b' ∷ b'y' ∷ b's' ∷ b'c' ∷ b'o' ∷ b'r' ∷ b'e' ∷ []
name Command.zrevrange = b'z' ∷ b'r' ∷ b'e' ∷ b'v' ∷ b'r' ∷ b'a' ∷ b'n' ∷ b'g' ∷ b'e' ∷ []
name Command.zrevrangebyscore =
    b'z' ∷ b'r' ∷ b'e' ∷ b'v' ∷ b'r' ∷ b'a' ∷ b'n' ∷ b'g' ∷ b'e' ∷ b'b' ∷ b'y' ∷ b's' ∷ b'c' ∷ b'o'
    ∷ b'r' ∷ b'e' ∷ []
name Command.zrevrank = b'z' ∷ b'r' ∷ b'e' ∷ b'v' ∷ b'r' ∷ b'a' ∷ b'n' ∷ b'k' ∷ []
name Command.zscore = b'z' ∷ b's' ∷ b'c' ∷ b'o' ∷ b'r' ∷ b'e' ∷ []
name Command.del = b'd' ∷ b'e' ∷ b'l' ∷ []
name Command.expire = b'e' ∷ b'x' ∷ b'p' ∷ b'i' ∷ b'r' ∷ b'e' ∷ []
name Command.expireat = b'e' ∷ b'x' ∷ b'p' ∷ b'i' ∷ b'r' ∷ b'e' ∷ b'a' ∷ b't' ∷ []
name Command.pexpire = b'p' ∷ b'e' ∷ b'x' ∷ b'p' ∷ b'i' ∷ b'r' ∷ b'e' ∷ []
name Command.pexpireat = b'p' ∷ b'e' ∷ b'x' ∷ b'p' ∷ b'i' ∷ b'r' ∷ b'e' ∷ b'a' ∷ b't' ∷ []
name Command.persist = b'p' ∷ b'e' ∷ b'r' ∷ b's' ∷ b'i' ∷ b's' ∷ b't' ∷ []
name Command.append = b'a' ∷ b'p' ∷ b'p' ∷ b'e' ∷ b'n' ∷ b'd' ∷ []
name Command.decr = b'd' ∷ b'e' ∷ b'c' ∷ b'r' ∷ []
name Command.decrby = b'd' ∷ b'e' ∷ b'c' ∷ b'r' ∷ b'b' ∷ b'y' ∷ []
name Command.incr = b'i' ∷ b'n' ∷ b'c' ∷ b'r' ∷ []
name Command.incrby = b'i' ∷ b'n' ∷ b'c' ∷ b'r' ∷ b'b' ∷ b'y' ∷ []
name Command.incrbyfloat =
    b'i' ∷ b'n' ∷ b'c' ∷ b'r' ∷ b'b' ∷ b'y' ∷ b'f' ∷ b'l' ∷ b'o' ∷ b'a' ∷ b't' ∷ []
name Command.psetex = b'p' ∷ b's' ∷ b'e' ∷ b't' ∷ b'e' ∷ b'x' ∷ []
name Command.set = b's' ∷ b'e' ∷ b't' ∷ []
name Command.setbit = b's' ∷ b'e' ∷ b't' ∷ b'b' ∷ b'i' ∷ b't' ∷ []
name Command.setex = b's' ∷ b'e' ∷ b't' ∷ b'e' ∷ b'x' ∷ []
name Command.setnx = b's' ∷ b'e' ∷ b't' ∷ b'n' ∷ b'x' ∷ []
name Command.setrange = b's' ∷ b'e' ∷ b't' ∷ b'r' ∷ b'a' ∷ b'n' ∷ b'g' ∷ b'e' ∷ []
name Command.hdel = b'h' ∷ b'd' ∷ b'e' ∷ b'l' ∷ []
name Command.hincrby = b'h' ∷ b'i' ∷ b'n' ∷ b'c' ∷ b'r' ∷ b'b' ∷ b'y' ∷ []
name Command.hincrbyfloat =
    b'h' ∷ b'i' ∷ b'n' ∷ b'c' ∷ b'r' ∷ b'b' ∷ b'y' ∷ b'f' ∷ b'l' ∷ b'o' ∷ b'a' ∷ b't' ∷ []
name Command.hset = b'h' ∷ b's' ∷ b'e' ∷ b't' ∷ []
name Command.hsetnx = b'h' ∷ b's' ∷ b'e' ∷ b't' ∷ b'n' ∷ b'x' ∷ []
name Command.linsert = b'l' ∷ b'i' ∷ b'n' ∷ b's' ∷ b'e' ∷ b'r' ∷ b't' ∷ []
name Command.lpop = b'l' ∷ b'p' ∷ b'o' ∷ b'p' ∷ []
name Command.lpush = b'l' ∷ b'p' ∷ b'u' ∷ b's' ∷ b'h' ∷ []
name Command.lpushx = b'l' ∷ b'p' ∷ b'u' ∷ b's' ∷ b'h' ∷ b'x' ∷ []
name Command.lrem = b'l' ∷ b'r' ∷ b'e' ∷ b'm' ∷ []
name Command.lset = b'l' ∷ b's' ∷ b'e' ∷ b't' ∷ []
name Command.ltrim = b'l' ∷ b't' ∷ b'r' ∷ b'i' ∷ b'm' ∷ []
name Command.rpop = b'r' ∷ b'p' ∷ b'o' ∷ b'p' ∷ []
name Command.rpush = b'r' ∷ b'p' ∷ b'u' ∷ b's' ∷ b'h' ∷ []
name Command.rpushx = b'r' ∷ b'p' ∷ b'u' ∷ b's' ∷ b'h' ∷ b'x' ∷ []
name Command.sadd = b's' ∷ b'a' ∷ b'd' ∷ b'd' ∷ []
name Command.spop = b's' ∷ b'p' ∷ b'o' ∷ b'p' ∷ []
name Command.srem = b's' ∷ b'r' ∷ b'e' ∷ b'm' ∷ []
name Command.zadd = b'z' ∷ b'a' ∷ b'd' ∷ b'd' ∷ []
name Command.zincrby = b'z' ∷ b'i' ∷ b'n' ∷ b'c' ∷ b'r' ∷ b'b' ∷ b'y' ∷ []
name Command.zrank = b'z' ∷ b'r' ∷ b'a' ∷ b'n' ∷ b'k' ∷ []
name Command.zrem = b'z' ∷ b'r' ∷ b'e' ∷ b'm' ∷ []
name Command.zremrangebyrank =
    b'z' ∷ b'r' ∷ b'e' ∷ b'm' ∷ b'r' ∷ b'a' ∷ b'n' ∷ b'g' ∷ b'e' ∷ b'b' ∷ b'y' ∷ b'r' ∷ b'a' ∷ b'n'
    ∷ b'k' ∷ []
name Command.zremrangebyscore =
    b'z' ∷ b'r' ∷ b'e' ∷ b'm' ∷ b'r' ∷ b'a' ∷ b'n' ∷ b'g' ∷ b'e' ∷ b'b' ∷ b'y' ∷ b's' ∷ b'c' ∷ b'o'
    ∷ b'r' ∷ b'e' ∷ []
name Command.unknown = []

pub command_handle-name : (c : Command) → command_handle (name c) ≡ c
unfolding command_handle name
command_handle-name Command.exists = refl
command_handle-name Command.pttl = refl
command_handle-name Command.ttl = refl
command_handle-name Command.type = refl
command_handle-name Command.bitcount = refl
command_handle-name Command.get = refl
command_handle-name Command.getbit = refl
command_handle-name Command.getrange = refl
command_handle-name Command.getset = refl
command_handle-name Command.strlen = refl
command_handle-name Command.hexists = refl
command_handle-name Command.hget = refl
command_handle-name Command.hgetall = refl
command_handle-name Command.hkeys = refl
command_handle-name Command.hlen = refl
command_handle-name Command.hvals = refl
command_handle-name Command.lindex = refl
command_handle-name Command.llen = refl
command_handle-name Command.lrange = refl
command_handle-name Command.scard = refl
command_handle-name Command.sismember = refl
command_handle-name Command.smembers = refl
command_handle-name Command.srandmember = refl
command_handle-name Command.zcard = refl
command_handle-name Command.zcount = refl
command_handle-name Command.zrange = refl
command_handle-name Command.zrangebyscore = refl
command_handle-name Command.zrevrange = refl
command_handle-name Command.zrevrangebyscore = refl
command_handle-name Command.zrevrank = refl
command_handle-name Command.zscore = refl
command_handle-name Command.del = refl
command_handle-name Command.expire = refl
command_handle-name Command.expireat = refl
command_handle-name Command.pexpire = refl
command_handle-name Command.pexpireat = refl
command_handle-name Command.persist = refl
command_handle-name Command.append = refl
command_handle-name Command.decr = refl
command_handle-name Command.decrby = refl
command_handle-name Command.incr = refl
command_handle-name Command.incrby = refl
command_handle-name Command.incrbyfloat = refl
command_handle-name Command.psetex = refl
command_handle-name Command.set = refl
command_handle-name Command.setbit = refl
command_handle-name Command.setex = refl
command_handle-name Command.setnx = refl
command_handle-name Command.setrange = refl
command_handle-name Command.hdel = refl
command_handle-name Command.hincrby = refl
command_handle-name Command.hincrbyfloat = refl
command_handle-name Command.hset = refl
command_handle-name Command.hsetnx = refl
command_handle-name Command.linsert = refl
command_handle-name Command.lpop = refl
command_handle-name Command.lpush = refl
command_handle-name Command.lpushx = refl
command_handle-name Command.lrem = refl
command_handle-name Command.lset = refl
command_handle-name Command.ltrim = refl
command_handle-name Command.rpop = refl
command_handle-name Command.rpush = refl
command_handle-name Command.rpushx = refl
command_handle-name Command.sadd = refl
command_handle-name Command.spop = refl
command_handle-name Command.srem = refl
command_handle-name Command.zadd = refl
command_handle-name Command.zincrby = refl
command_handle-name Command.zrank = refl
command_handle-name Command.zrem = refl
command_handle-name Command.zremrangebyrank = refl
command_handle-name Command.zremrangebyscore = refl
command_handle-name Command.unknown = refl

-- The constant of a command is not that of `unknown`.
pub number-known :
    (c : Command) → c ≢ Command.unknown → (number c == number Command.unknown) ≡ false
unfolding number
number-known Command.exists h = refl
number-known Command.pttl h = refl
number-known Command.ttl h = refl
number-known Command.type h = refl
number-known Command.bitcount h = refl
number-known Command.get h = refl
number-known Command.getbit h = refl
number-known Command.getrange h = refl
number-known Command.getset h = refl
number-known Command.strlen h = refl
number-known Command.hexists h = refl
number-known Command.hget h = refl
number-known Command.hgetall h = refl
number-known Command.hkeys h = refl
number-known Command.hlen h = refl
number-known Command.hvals h = refl
number-known Command.lindex h = refl
number-known Command.llen h = refl
number-known Command.lrange h = refl
number-known Command.scard h = refl
number-known Command.sismember h = refl
number-known Command.smembers h = refl
number-known Command.srandmember h = refl
number-known Command.zcard h = refl
number-known Command.zcount h = refl
number-known Command.zrange h = refl
number-known Command.zrangebyscore h = refl
number-known Command.zrevrange h = refl
number-known Command.zrevrangebyscore h = refl
number-known Command.zrevrank h = refl
number-known Command.zscore h = refl
number-known Command.del h = refl
number-known Command.expire h = refl
number-known Command.expireat h = refl
number-known Command.pexpire h = refl
number-known Command.pexpireat h = refl
number-known Command.persist h = refl
number-known Command.append h = refl
number-known Command.decr h = refl
number-known Command.decrby h = refl
number-known Command.incr h = refl
number-known Command.incrby h = refl
number-known Command.incrbyfloat h = refl
number-known Command.psetex h = refl
number-known Command.set h = refl
number-known Command.setbit h = refl
number-known Command.setex h = refl
number-known Command.setnx h = refl
number-known Command.setrange h = refl
number-known Command.hdel h = refl
number-known Command.hincrby h = refl
number-known Command.hincrbyfloat h = refl
number-known Command.hset h = refl
number-known Command.hsetnx h = refl
number-known Command.linsert h = refl
number-known Command.lpop h = refl
number-known Command.lpush h = refl
number-known Command.lpushx h = refl
number-known Command.lrem h = refl
number-known Command.lset h = refl
number-known Command.ltrim h = refl
number-known Command.rpop h = refl
number-known Command.rpush h = refl
number-known Command.rpushx h = refl
number-known Command.sadd h = refl
number-known Command.spop h = refl
number-known Command.srem h = refl
number-known Command.zadd h = refl
number-known Command.zincrby h = refl
number-known Command.zrank h = refl
number-known Command.zrem h = refl
number-known Command.zremrangebyrank h = refl
number-known Command.zremrangebyscore h = refl
number-known Command.unknown h = absurd (h refl)
