-- ===== src/Redis/Kinds.antt =====
-- Which commands of src/protocol/redis/proto_redis.c only read.
use wheatserver.Common.{◌≡◌, ◌≢◌, refl, Bool, true, false, not}
use wheatserver.Redis.Command.{Command}
use wheatserver.Redis.Data.{reads}

-- The commands that change what a Redis server stores, by its documentation.
pub writes : Command → Bool
writes Command.exists = false
writes Command.pttl = false
writes Command.ttl = false
writes Command.type = false
writes Command.bitcount = false
writes Command.get = false
writes Command.getbit = false
writes Command.getrange = false
writes Command.getset = true
writes Command.strlen = false
writes Command.hexists = false
writes Command.hget = false
writes Command.hgetall = false
writes Command.hkeys = false
writes Command.hlen = false
writes Command.hvals = false
writes Command.lindex = false
writes Command.llen = false
writes Command.lrange = false
writes Command.scard = false
writes Command.sismember = false
writes Command.smembers = false
writes Command.srandmember = false
writes Command.zcard = false
writes Command.zcount = false
writes Command.zrange = false
writes Command.zrangebyscore = false
writes Command.zrevrange = false
writes Command.zrevrangebyscore = false
writes Command.zrevrank = false
writes Command.zscore = false
writes Command.del = true
writes Command.expire = true
writes Command.expireat = true
writes Command.pexpire = true
writes Command.pexpireat = true
writes Command.persist = true
writes Command.append = true
writes Command.decr = true
writes Command.decrby = true
writes Command.incr = true
writes Command.incrby = true
writes Command.incrbyfloat = true
writes Command.psetex = true
writes Command.set = true
writes Command.setbit = true
writes Command.setex = true
writes Command.setnx = true
writes Command.setrange = true
writes Command.hdel = true
writes Command.hincrby = true
writes Command.hincrbyfloat = true
writes Command.hset = true
writes Command.hsetnx = true
writes Command.linsert = true
writes Command.lpop = true
writes Command.lpush = true
writes Command.lpushx = true
writes Command.lrem = true
writes Command.lset = true
writes Command.ltrim = true
writes Command.rpop = true
writes Command.rpush = true
writes Command.rpushx = true
writes Command.sadd = true
writes Command.spop = true
writes Command.srem = true
writes Command.zadd = true
writes Command.zincrby = true
writes Command.zrank = false
writes Command.zrem = true
writes Command.zremrangebyrank = true
writes Command.zremrangebyscore = true
writes Command.unknown = false

-- `is_read` is set for a known command exactly if it changes nothing, GETSET and ZRANK excepted.
pub reads-writes :
    (c : Command)
    → c ≢ Command.unknown
    → c ≢ Command.getset
    → c ≢ Command.zrank
    → reads c ≡ not (writes c)
unfolding reads writes
reads-writes Command.exists u g z = refl
reads-writes Command.pttl u g z = refl
reads-writes Command.ttl u g z = refl
reads-writes Command.type u g z = refl
reads-writes Command.bitcount u g z = refl
reads-writes Command.get u g z = refl
reads-writes Command.getbit u g z = refl
reads-writes Command.getrange u g z = refl
reads-writes Command.getset u g z = absurd (g refl)
reads-writes Command.strlen u g z = refl
reads-writes Command.hexists u g z = refl
reads-writes Command.hget u g z = refl
reads-writes Command.hgetall u g z = refl
reads-writes Command.hkeys u g z = refl
reads-writes Command.hlen u g z = refl
reads-writes Command.hvals u g z = refl
reads-writes Command.lindex u g z = refl
reads-writes Command.llen u g z = refl
reads-writes Command.lrange u g z = refl
reads-writes Command.scard u g z = refl
reads-writes Command.sismember u g z = refl
reads-writes Command.smembers u g z = refl
reads-writes Command.srandmember u g z = refl
reads-writes Command.zcard u g z = refl
reads-writes Command.zcount u g z = refl
reads-writes Command.zrange u g z = refl
reads-writes Command.zrangebyscore u g z = refl
reads-writes Command.zrevrange u g z = refl
reads-writes Command.zrevrangebyscore u g z = refl
reads-writes Command.zrevrank u g z = refl
reads-writes Command.zscore u g z = refl
reads-writes Command.del u g z = refl
reads-writes Command.expire u g z = refl
reads-writes Command.expireat u g z = refl
reads-writes Command.pexpire u g z = refl
reads-writes Command.pexpireat u g z = refl
reads-writes Command.persist u g z = refl
reads-writes Command.append u g z = refl
reads-writes Command.decr u g z = refl
reads-writes Command.decrby u g z = refl
reads-writes Command.incr u g z = refl
reads-writes Command.incrby u g z = refl
reads-writes Command.incrbyfloat u g z = refl
reads-writes Command.psetex u g z = refl
reads-writes Command.set u g z = refl
reads-writes Command.setbit u g z = refl
reads-writes Command.setex u g z = refl
reads-writes Command.setnx u g z = refl
reads-writes Command.setrange u g z = refl
reads-writes Command.hdel u g z = refl
reads-writes Command.hincrby u g z = refl
reads-writes Command.hincrbyfloat u g z = refl
reads-writes Command.hset u g z = refl
reads-writes Command.hsetnx u g z = refl
reads-writes Command.linsert u g z = refl
reads-writes Command.lpop u g z = refl
reads-writes Command.lpush u g z = refl
reads-writes Command.lpushx u g z = refl
reads-writes Command.lrem u g z = refl
reads-writes Command.lset u g z = refl
reads-writes Command.ltrim u g z = refl
reads-writes Command.rpop u g z = refl
reads-writes Command.rpush u g z = refl
reads-writes Command.rpushx u g z = refl
reads-writes Command.sadd u g z = refl
reads-writes Command.spop u g z = refl
reads-writes Command.srem u g z = refl
reads-writes Command.zadd u g z = refl
reads-writes Command.zincrby u g z = refl
reads-writes Command.zrank u g z = absurd (z refl)
reads-writes Command.zrem u g z = refl
reads-writes Command.zremrangebyrank u g z = refl
reads-writes Command.zremrangebyscore u g z = refl
reads-writes Command.unknown u g z = absurd (u refl)

-- GETSET, which writes, is taken for a command that only reads.
pub getset_reads : (reads Command.getset ≡ true) × (writes Command.getset ≡ true)
unfolding reads writes
getset_reads = (refl, refl)

-- ZRANK, which only reads, is taken for one that writes.
pub zrank_reads : (reads Command.zrank ≡ false) × (writes Command.zrank ≡ false)
unfolding reads writes
zrank_reads = (refl, refl)
