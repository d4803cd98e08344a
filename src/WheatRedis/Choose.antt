-- ===== src/WheatRedis/Choose.antt =====
-- handleClientRequests of src/app/wheatredis/redis.c: which of a key's instances get a request.
-- sendRedisData is the parameter `send`, and an instance stands for its index in the array.
use wheatserver.Common.{
  ℕ, zero, suc, Bool, true, false, Option, none, some, List, [], ◌∷◌, ◌++◌, ltb, if◌then◌else◌, ℤ,
  pos, negsuc,
}
use wheatserver.WheatRedis.Hash.{Tokens, hash_dispatch}

-- The parts of `struct redisInstance` that the choice and the timeouts use.
pub record Instance : Type 0 where
  pub timeout_duration : ℕ
  pub ntimeout : ℕ
  pub reliability : ℤ
  pub live : Bool
  pub is_dirty : Bool

-- `a < b` of two `int`.
abbrev pub less : ℤ → ℤ → Bool
less (pos a) (pos b) = ltb a b
less (pos a) (negsuc b) = false
less (negsuc a) (pos b) = true
less (negsuc a) (negsuc b) = ltb b a

-- `none` is NULL.
abbrev pub get_instance : (ℕ → Instance) → ℕ → Option ℕ
get_instance instances idx = if (instances idx).live then some idx else none

abbrev pub more_reliable : (ℕ → Instance) → Option ℕ → ℕ → Option ℕ
more_reliable instances none i = some i
more_reliable instances (some r) i =
    if less (instances r).reliability (instances i).reliability then some i else some r

abbrev pub or_else : Option ℕ → Option ℕ → Option ℕ
or_else none b = b
or_else (some a) b = some a

-- The local variables, the instances that the request was sent to, and the rest of the world.
pub record Choice (S : Type 0) : Type 0 where
  pub reliability_instance : Option ℕ
  pub nondirty_instance : Option ℕ
  pub instance : Option ℕ
  pub sended : List ℕ
  pub world : S

module _ {S : Type 0} (send : S → ℕ → Bool × S) (instances : ℕ → Instance) where
  abbrev pub after_send : ℕ → Choice S → Bool × S → Choice S
  after_send i c (true, w) = record c { sended = c.sended ++ (i ∷ []); world = w }
  after_send i c (false, w) = record c { world = w }

  -- sendRedisData, which notes the instance where it returns WHEAT_OK.
  unfoldable pub send_redis_data : ℕ → Choice S → Choice S
  send_redis_data i c = after_send i c (send c.world i)

  abbrev pub consider : ℕ → Choice S → Choice S
  consider i c = record c {
    reliability_instance = more_reliable instances c.reliability_instance i;
    nondirty_instance = if (instances i).is_dirty then c.nondirty_instance else some i;
  }

  abbrev pub visit : Bool → Option ℕ → Choice S → Choice S
  visit is_read none c = record c { instance = none }
  visit is_read (some i) c =
      let c' = record c { instance = some i } in
      if is_read then consider i c' else send_redis_data i c'

  -- `while (nwritted < server->nbackup)`, with its first argument the turns.
  unfoldable pub iterate : ℕ → Bool → Tokens → ℕ → Choice S → Choice S
  iterate zero is_read tokens t c = c
  iterate (suc n) is_read tokens t c =
      iterate n is_read tokens (tokens t).next_instance
        (visit is_read (get_instance instances (tokens t).instance_id) c)

  -- The instance that a read goes to.
  abbrev pub target : Choice S → Option ℕ
  target c = or_else c.nondirty_instance (or_else c.reliability_instance c.instance)

  abbrev pub send_to : Option ℕ → Choice S → Choice S
  send_to none c = c
  send_to (some i) c = send_redis_data i c

  -- What the request was sent to; an empty list is answered by the error. `instance` is what the
  -- local variable holds before.
  unfoldable pub handle_client_requests : Option ℕ → ℕ → Bool → Tokens → ℕ → S → List ℕ × S
  unfolding iterate send_redis_data
  handle_client_requests instance nbackup is_read tokens hash w =
      let c = iterate nbackup is_read tokens (hash_dispatch hash) (record {
        reliability_instance = none;
        nondirty_instance = none;
        instance = instance;
        sended = [];
        world = w;
      }) in
      let c' = if is_read then send_to (target c) c else c in (c'.sended, c'.world)
