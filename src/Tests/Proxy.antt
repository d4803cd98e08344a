-- ===== src/Tests/Proxy.antt =====
-- src/app/wheatredis at concrete inputs.
use wheatserver.Common.{
  ℕ, zero, suc, ◌==◌, ◌≡◌, refl, Bool, true, false, Option, none, List, [], ◌∷◌, ltb, if◌then◌else◌,
  arith, pos, negsuc,
}
use wheatserver.WheatRedis.Hash.{
  Ring, Tokens, uint32_max, Init, Populated, keyspace, hash_init, populate, hash_dispatch,
}
use wheatserver.WheatRedis.Init.{IsRing, hash_init-IsRing, hash_init-running}
use wheatserver.WheatRedis.Choose.{Instance, handle_client_requests}
use wheatserver.WheatRedis.Picks.{candidates, IsChosen}
use wheatserver.WheatRedis.Requests.{
  send_each, send_one, handle_client_requests-read, handle_client_requests-write,
}
use wheatserver.WheatRedis.Timeout.{
  Retry, punish, tick, retried, send_again, retry_read, tick-punish, retry_read-one,
}

abbrev empty_ring : Ring
empty_ring = record {
  tokens = λ p. record { pos = 0; instance_id = 0; next_instance = 0 };
  ntokens = λ x. 0;
}

-- A source of random numbers that always gives 5, of at most 99.
abbrev fives : ℕ → ℕ
fives k = 5

hash_init-IsRing_example :
    (r : Ring) × (hash_init 2048 99 fives true 3 2 empty_ring ≡ Init.wheat_ok r)
    × IsRing keyspace 3 r
hash_init-IsRing_example =
    hash_init-IsRing 99 fives 2 empty_ring (λ k. omega arith) (λ x. refl) 2048 3 (omega arith)
      (omega arith) (omega arith)

hash_init-running_example : hash_init 5000 99 fives true 1 1 empty_ring ≡ Init.running
hash_init-running_example =
    hash_init-running 99 fives 1 empty_ring (λ k. omega arith) (λ x. refl) 5000 (omega arith)

-- Instance 0 is dirty and more reliable, 1 is clean, and 2 is not alive.
abbrev three_instances : ℕ → Instance
three_instances zero = record {
  timeout_duration = 0;
  ntimeout = 0;
  reliability = pos 0;
  live = true;
  is_dirty = true;
}
three_instances (suc zero) = record {
  timeout_duration = 0;
  ntimeout = 0;
  reliability = negsuc 3;
  live = true;
  is_dirty = false;
}
three_instances (suc (suc x)) = record {
  timeout_duration = 0;
  ntimeout = 0;
  reliability = pos 0;
  live = false;
  is_dirty = false;
}

-- Three tokens of three instances.
abbrev three_tokens : Tokens
three_tokens zero = record { pos = 0; instance_id = 0; next_instance = 1 }
three_tokens (suc zero) = record { pos = 1; instance_id = 1; next_instance = 2 }
three_tokens (suc (suc p)) = record { pos = suc (suc p); instance_id = 2; next_instance = 0 }

-- The world is the list of the instances that a request was sent to; instance 0 takes none.
abbrev log : List ℕ → ℕ → Bool × List ℕ
log w x = (ltb 0 x, x ∷ w)

handle_client_requests-read_example :
    (o : Option ℕ) × IsChosen log three_instances (candidates 2 three_tokens (hash_dispatch 0)) o
    × (handle_client_requests log three_instances none 2 true three_tokens 0 []
        ≡ send_one log three_instances o [])
handle_client_requests-read_example =
    handle_client_requests-read log three_instances none 2 three_tokens 0 [] (omega arith)

handle_client_requests-write_example :
    handle_client_requests log three_instances none 3 false three_tokens 0 []
    ≡ send_each log three_instances (candidates 3 three_tokens (hash_dispatch 0)) []
handle_client_requests-write_example =
    handle_client_requests-write log three_instances none 3 three_tokens 0 []

read_run :
    handle_client_requests log three_instances none 3 true three_tokens 0 [] ≡ (1 ∷ [], 1 ∷ [])
unfolding handle_client_requests hash_dispatch
read_run = refl

write_run :
    handle_client_requests log three_instances none 3 false three_tokens 0 [] ≡ (1 ∷ [], 1 ∷ 0 ∷ [])
unfolding handle_client_requests hash_dispatch
write_run = refl

tick-punish_run : (tick (punish 1400000000 (three_instances 1))).is_dirty ≡ true
tick-punish_run = tick-punish 1400000000 (three_instances 1) (omega arith) refl

abbrev waiting : Retry (List ℕ)
waiting = record { retry = 0; first_token = 2; is_sent = false; world = [] }

retry_read-one_example :
    retried log three_instances (retry_read log three_instances 3 three_tokens waiting)
    ≡ send_again log three_instances 2 0 []
retry_read-one_example = retry_read-one log three_instances 3 three_tokens waiting refl

-- The tokens of instances 0, 0, 1 and 0, with their next ones not set.
abbrev four_tokens : Tokens
four_tokens p = record {
  pos = p;
  instance_id = if p == 2 then 1 else 0;
  next_instance = uint32_max;
}

abbrev nexts : Populated → List ℕ
nexts (Populated.populated ts) =
    (ts 0).next_instance ∷ (ts 1).next_instance ∷ (ts 2).next_instance ∷ (ts 3).next_instance ∷ []
nexts p = []

populate_run : nexts (populate 8 4 0 1 four_tokens) ≡ 2 ∷ 2 ∷ 3 ∷ 2 ∷ []
unfolding populate
populate_run = refl
