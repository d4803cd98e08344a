-- ===== src/Redis/Command.antt =====
-- `enum redisCommand` of src/protocol/redis/proto_redis.c.
use wheatserver.Common.{ℕ}

-- In the order of the source.
pub data Command : Type 0 where
  exists : Command
  pttl : Command
  ttl : Command
  type : Command
  bitcount : Command
  get : Command
  getbit : Command
  getrange : Command
  getset : Command
  strlen : Command
  hexists : Command
  hget : Command
  hgetall : Command
  hkeys : Command
  hlen : Command
  hvals : Command
  lindex : Command
  llen : Command
  lrange : Command
  scard : Command
  sismember : Command
  smembers : Command
  srandmember : Command
  zcard : Command
  zcount : Command
  zrange : Command
  zrangebyscore : Command
  zrevrange : Command
  zrevrangebyscore : Command
  zrevrank : Command
  zscore : Command
  del : Command
  expire : Command
  expireat : Command
  pexpire : Command
  pexpireat : Command
  persist : Command
  append : Command
  decr : Command
  decrby : Command
  incr : Command
  incrby : Command
  incrbyfloat : Command
  psetex : Command
  set : Command
  setbit : Command
  setex : Command
  setnx : Command
  setrange : Command
  hdel : Command
  hincrby : Command
  hincrbyfloat : Command
  hset : Command
  hsetnx : Command
  linsert : Command
  lpop : Command
  lpush : Command
  lpushx : Command
  lrem : Command
  lset : Command
  ltrim : Command
  rpop : Command
  rpush : Command
  rpushx : Command
  sadd : Command
  spop : Command
  srem : Command
  zadd : Command
  zincrby : Command
  zrank : Command
  zrem : Command
  zremrangebyrank : Command
  zremrangebyscore : Command
  unknown : Command

-- The number that C gives each constant.
unfoldable pub number : Command → ℕ
number Command.exists = 0
number Command.pttl = 1
number Command.ttl = 2
number Command.type = 3
number Command.bitcount = 4
number Command.get = 5
number Command.getbit = 6
number Command.getrange = 7
number Command.getset = 8
number Command.strlen = 9
number Command.hexists = 10
number Command.hget = 11
number Command.hgetall = 12
number Command.hkeys = 13
number Command.hlen = 14
number Command.hvals = 15
number Command.lindex = 16
number Command.llen = 17
number Command.lrange = 18
number Command.scard = 19
number Command.sismember = 20
number Command.smembers = 21
number Command.srandmember = 22
number Command.zcard = 23
number Command.zcount = 24
number Command.zrange = 25
number Command.zrangebyscore = 26
number Command.zrevrange = 27
number Command.zrevrangebyscore = 28
number Command.zrevrank = 29
number Command.zscore = 30
number Command.del = 31
number Command.expire = 32
number Command.expireat = 33
number Command.pexpire = 34
number Command.pexpireat = 35
number Command.persist = 36
number Command.append = 37
number Command.decr = 38
number Command.decrby = 39
number Command.incr = 40
number Command.incrby = 41
number Command.incrbyfloat = 42
number Command.psetex = 43
number Command.set = 44
number Command.setbit = 45
number Command.setex = 46
number Command.setnx = 47
number Command.setrange = 48
number Command.hdel = 49
number Command.hincrby = 50
number Command.hincrbyfloat = 51
number Command.hset = 52
number Command.hsetnx = 53
number Command.linsert = 54
number Command.lpop = 55
number Command.lpush = 56
number Command.lpushx = 57
number Command.lrem = 58
number Command.lset = 59
number Command.ltrim = 60
number Command.rpop = 61
number Command.rpush = 62
number Command.rpushx = 63
number Command.sadd = 64
number Command.spop = 65
number Command.srem = 66
number Command.zadd = 67
number Command.zincrby = 68
number Command.zrank = 69
number Command.zrem = 70
number Command.zremrangebyrank = 71
number Command.zremrangebyscore = 72
number Command.unknown = 73
