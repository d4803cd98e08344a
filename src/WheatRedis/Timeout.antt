-- ===== src/WheatRedis/Timeout.antt =====
-- Timeouts of the Redis servers, in handleTimeout, handleRedisResponse and redisAppCron of
-- src/app/wheatredis/redis.c.
use wheatserver.Common.{
  ℕ, zero, suc, ◌+◌, ◌-◌, ◌<◌, ◌≡◌, refl, ap, ◌∙◌, Bool, true, false, Option, none, some, ltb, ◌==◌,
  if◌then◌else◌, arith, ℤ, pos, negsuc, lt→ltb, sub_size, Bool-cases, inl, inr,
}
use wheatserver.WheatRedis.Hash.{Tokens}
use wheatserver.WheatRedis.Choose.{Instance, get_instance}

-- `a--` of an `int`.
abbrev pub pred : ℤ → ℤ
pred (pos zero) = negsuc 0
pred (pos (suc n)) = pos n
pred (negsuc n) = negsuc (suc n)

-- What a timeout does to the instance that did not answer; `now` is cron_time's seconds.
unfoldable pub punish : ℕ → Instance → Instance
punish now i = record i {
  ntimeout = i.ntimeout + 1;
  reliability = pred i.reliability;
  timeout_duration = if i.timeout_duration == 0 then now else i.timeout_duration;
}

-- What an answer does.
unfoldable pub answered : Instance → Instance
answered i = record i { ntimeout = if i.ntimeout == 0 then 0 else i.ntimeout - 1 }

-- WHEAT_REDIS_TIMEOUT_DIRTY
abbrev pub timeout_dirty : ℕ
timeout_dirty = 5

abbrev pub reset_duration : Instance → Instance
reset_duration i = if i.ntimeout == 0 then record i { timeout_duration = 0 } else i

abbrev pub mark_dirty : Instance → Instance
mark_dirty i = if ltb timeout_dirty i.timeout_duration then record i { is_dirty = true } else i

-- What redisAppCron does to an instance that is alive.
unfoldable pub tick : Instance → Instance
tick i = mark_dirty (reset_duration i)

-- What the loop of handleTimeout changes for a read: the unit's `retry` and `first_token`, whether
-- sendRedisData has returned WHEAT_OK, and the rest of the world.
pub record Retry (S : Type 0) : Type 0 where
  pub retry : ℕ
  pub first_token : ℕ
  pub is_sent : Bool
  pub world : S

module _ {S : Type 0} (send : S → ℕ → Bool × S) (instances : ℕ → Instance) where
  abbrev pub after_retry : (Retry S → Retry S) → Retry S → Bool × S → Retry S
  after_retry more c (true, w) = record c { is_sent = true; world = w }
  after_retry more c (false, w) = more (record c { world = w })

  abbrev pub try : (Retry S → Retry S) → Option ℕ → Retry S → Retry S
  try more none c = more c
  try more (some i) c = after_retry more c (send c.world i)

  -- The loop, with its first argument the retries that are left.
  unfoldable pub retry_loop : ℕ → Tokens → ℕ → Retry S → Retry S
  retry_loop zero tokens next_token c = c
  retry_loop (suc n) tokens next_token c =
      try (retry_loop n tokens next_token) (get_instance instances (tokens next_token).instance_id)
        (record c { retry = c.retry + 1; first_token = next_token })

  -- `unit->retry` is below `nbackup - 1`, which is a `size_t`, as often as this.
  unfoldable pub retry_read : ℕ → Tokens → Retry S → Retry S
  retry_read nbackup tokens c =
      retry_loop (sub_size nbackup 1 - c.retry) tokens (tokens c.first_token).next_instance c

-- wakeupInstance, with a connection that is built.
unfoldable pub wakeup_instance : Instance → Instance
wakeup_instance i = record i { live = true; ntimeout = 0; timeout_duration = 0 }

-- redisClientClosed
unfoldable pub redis_client_closed : Instance → Instance
redis_client_closed i = record i { live = false; is_dirty = true }

reset-punish : (now : ℕ) (i : Instance) → reset_duration (punish now i) ≡ punish now i
unfolding punish
reset-punish now i = let waits : (i.ntimeout + 1 == 0) ≡ false = ground arith in rw waits refl

-- An instance that misses an answer when none is missing is dirty from the next turn of the cron on,
-- at whatever time this is after the sixth second of 1970.
pub tick-punish :
    (now : ℕ) (i : Instance)
    → timeout_dirty < now
    → i.timeout_duration ≡ 0
    → (tick (punish now i)).is_dirty ≡ true
unfolding tick punish
tick-punish now i late fresh =
    let first : (i.timeout_duration == 0) ≡ true = ground (arith, fresh) in
    ap (λ j. (mark_dirty j).is_dirty) (reset-punish now i)
    ∙ rw (first, lt→ltb timeout_dirty now late) refl

module _ {S : Type 0} (send : S → ℕ → Bool × S) (instances : ℕ → Instance) where
  abbrev pub again : (S → Bool × S) → Bool × S → Bool × S
  again more (true, w) = (true, w)
  again more (false, w) = more w

  -- So many requests to one instance, until it takes one.
  abbrev pub send_again : ℕ → ℕ → S → Bool × S
  send_again zero x w = (false, w)
  send_again (suc n) x w = again (send_again n x) (send w x)

  abbrev pub retried : Retry S → Bool × S
  retried c = (c.is_sent, c.world)

  after_retry-again :
      (more : Retry S → Retry S) (more' : S → Bool × S) (c : Retry S) (one : Bool × S)
      → c.is_sent ≡ false
      → ((c : Retry S) → c.is_sent ≡ false → retried (more c) ≡ more' c.world)
      → retried (after_retry send instances more c one) ≡ again more' one
  after_retry-again more more' c (true, w) e ih = refl
  after_retry-again more more' c (false, w) e ih = ih (record c { world = w }) e

  retry-live :
      (n : ℕ) (tokens : Tokens) (t : ℕ) (c : Retry S)
      → (instances (tokens t).instance_id).live ≡ true
      → c.is_sent ≡ false
      → retried (retry_loop send instances n tokens t c)
        ≡ send_again n (tokens t).instance_id c.world
  unfolding retry_loop
  retry-live zero tokens t c live e = ap (λ b. (b, c.world)) e
  retry-live (suc n) tokens t c live e =
      let c' = record c { retry = c.retry + 1; first_token = t } in
      rw live (
        after_retry-again (retry_loop send instances n tokens t)
          (send_again n (tokens t).instance_id) c' (send c.world (tokens t).instance_id) e
          (λ d e'. retry-live n tokens t d live e'))

  retry-dead :
      (n : ℕ) (tokens : Tokens) (t : ℕ) (c : Retry S)
      → (instances (tokens t).instance_id).live ≡ false
      → retried (retry_loop send instances n tokens t c) ≡ retried c
  unfolding retry_loop
  retry-dead zero tokens t c dead = refl
  retry-dead (suc n) tokens t c dead =
      rw dead (retry-dead n tokens t (record c { retry = c.retry + 1; first_token = t }) dead)

  -- All tries of one call of `handleTimeout` for a read, where no try has been taken yet, go to one
  -- instance, the owner of the next token: if it is alive they go on until it takes one, at most as
  -- often as `unit->retry` is below `nbackup - 1`, and if it is not none is sent, although other
  -- instances keep the key.
  pub retry_read-one :
      (nbackup : ℕ) (tokens : Tokens) (c : Retry S)
      → c.is_sent ≡ false
      → retried (retry_read send instances nbackup tokens c) ≡ (
          let x = (tokens (tokens c.first_token).next_instance).instance_id in
          if (instances x).live
          then send_again (sub_size nbackup 1 - c.retry) x c.world
          else (false, c.world))
  unfolding retry_read
  retry_read-one nbackup tokens c e =
      let t = (tokens c.first_token).next_instance in
      let n = sub_size nbackup 1 - c.retry in
      elim (Bool-cases (instances (tokens t).instance_id).live) [
        | inl live ↦ rw live (retry-live n tokens t c live e)
        | inr dead ↦ rw dead (retry-dead n tokens t c dead ∙ ap (λ b. (b, c.world)) e)
      ]
