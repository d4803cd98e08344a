-- ===== src/Redis/Steps.antt =====
-- Single steps of the request parser of src/protocol/redis/proto_redis.c, composed backwards.
use mathlib.Core.Path.{subst}
use wheatserver.Common.{
  ℕ, zero, suc, ◌+◌, ◌-◌, ◌*◌, ◌≤◌, ◌<◌, ◌≡◌, ◌≢◌, true, false, [], ◌∷◌, ◌++◌, ltb, ◌==◌, length,
  take, drop, arith,
}
use wheatserver.Slice.{Bytes}
use wheatserver.Number.{is_digit}
use wheatserver.Number.Decimal.{value_from, AllDigits, le-value_from}
use wheatserver.Redis.Data.{Stage, RedisProcData}
use wheatserver.Redis.Request.{
  int_max, cr, Step, Parsed, req_step, req_loop, read_args, read_arg_len, read_val,
  read_command_or_key, end_command_or_key,
}

-- With enough fuel for the bytes that are left, the loop's outcome is `o`.
pub record Gives (st : RedisProcData) (rest : Bytes) (pos : ℕ) (o : Parsed) : Type 0 where
  pub run : (f : ℕ) → length rest ≤ f → req_loop f st rest pos ≡ o

abbrev pub at : RedisProcData → Stage → ℕ → ℕ → RedisProcData
at st s len k = record st { stage = s; curr_arg_len = len; curr_arg = k }

pub back :
    {st st' : RedisProcData} {ch : ℕ} {rest rest' : Bytes} {pos pos' : ℕ} {o : Parsed}
    → req_step st.stage st ch rest pos ≡ Step.next st' rest' pos'
    → length rest' ≤ length rest
    → Gives st' rest' pos' o
    → Gives st (ch ∷ rest) pos o
unfolding req_loop
back {st} {st'} {ch} {rest} {rest'} {pos} {pos'} {o} e h g = record { run = runs }
  where
    runs : (f : ℕ) → length (ch ∷ rest) ≤ f → req_loop f st (ch ∷ rest) pos ≡ o
    runs zero k = absurd (omega (arith, k))
    runs (suc f) k = rw (req_loop, e) (g.run f (omega (arith, h, k)))

pub move :
    {st : RedisProcData} {rest : Bytes} {o : Parsed} (p q : ℕ)
    → p ≡ q
    → Gives st rest p o
    → Gives st rest q o
move {st} {rest} {o} p q e g = subst (λ k. Gives st rest k o) e g

pub ltb-le : (a b : ℕ) → b ≤ a → ltb a b ≡ false
ltb-le a b h = ground arith

pub ==-no : (a b : ℕ) → a ≢ b → (a == b) ≡ false
==-no a b h = ground arith

len_digit :
    (st : RedisProcData) (d : ℕ) (rest : Bytes) (pos : ℕ)
    → is_digit d ≡ true
    → st.curr_arg_len * 10 + (d - b'0') ≤ int_max
    → read_arg_len st d rest pos
      ≡ Step.next (record st { curr_arg_len = st.curr_arg_len * 10 + (d - b'0') }) rest (pos + 1)
unfolding read_arg_len
len_digit st d rest pos ok h = rw (ok, ltb-le int_max _ h)

pub args_digit :
    (st : RedisProcData) (d : ℕ) (rest : Bytes) (pos : ℕ)
    → is_digit d ≡ true
    → st.args * 10 + (d - b'0') ≤ int_max
    → 0 < st.args * 10 + (d - b'0')
    → read_args st d rest pos
      ≡ Step.next (record st { args = st.args * 10 + (d - b'0') }) rest (pos + 1)
unfolding read_args
args_digit st d rest pos ok h p = rw (ok, ltb-le int_max _ h, ltb-le _ 1 p)

-- A whole value lies in what is left.
pub val_step :
    (st : RedisProcData) (ch : ℕ) (rest : Bytes) (pos : ℕ)
    → ch ≢ cr
    → st.curr_arg_len ≤ length (ch ∷ rest)
    → st.curr_arg + 1 ≤ int_max
    → read_val st ch rest pos
      ≡ Step.next
          (record st { curr_arg = st.curr_arg + 1; curr_arg_len = 0 })
          (drop st.curr_arg_len (ch ∷ rest))
          (pos + st.curr_arg_len)
unfolding read_val
val_step st ch rest pos not_cr l few =
    rw (==-no ch cr not_cr, ltb-le (length (ch ∷ rest)) _ l, ltb-le int_max _ few)

pub key_step :
    (st : RedisProcData) (ch : ℕ) (rest : Bytes) (pos : ℕ)
    → ch ≢ cr
    → st.curr_arg_len ≤ length (ch ∷ rest)
    → read_command_or_key st ch rest pos
      ≡ end_command_or_key
          (record st {
            key = st.key ++ take st.curr_arg_len (ch ∷ rest);
            curr_arg = st.curr_arg + 1;
            curr_arg_len = 0;
          })
          (drop st.curr_arg_len (ch ∷ rest))
          (pos + st.curr_arg_len)
unfolding read_command_or_key
key_step st ch rest pos not_cr l = rw (==-no ch cr not_cr, ltb-le (length (ch ∷ rest)) _ l)

module _ (st : RedisProcData) (k : ℕ) (rest : Bytes) (o : Parsed) where
  pub digits-len :
      (ds : Bytes) (v pos : ℕ)
      → AllDigits ds
      → value_from v ds ≤ int_max
      → Gives (at st Stage.req_get_arg_len (value_from v ds) k) rest (pos + length ds) o
      → Gives (at st Stage.req_get_arg_len v k) (ds ++ rest) pos o
  unfolding req_step
  digits-len [] v pos a h g = move (pos + 0) pos (omega arith) g
  digits-len (d ∷ ds) v pos (ok, a) h g =
      let n = v * 10 + (d - b'0') in
      back
        (len_digit (at st Stage.req_get_arg_len v k) d (ds ++ rest) pos ok
          (omega (arith, h, le-value_from n ds)))
        (omega arith)
        (digits-len ds n (pos + 1) a h
          (move (pos + length (d ∷ ds)) (pos + 1 + length ds) (omega arith) g))

  pub digits-args :
      (ds : Bytes) (v pos : ℕ)
      → AllDigits ds
      → 0 < v
      → value_from v ds ≤ int_max
      → Gives
          (record st { stage = Stage.req_get_args; args = value_from v ds })
          rest
          (pos + length ds)
          o
      → Gives (record st { stage = Stage.req_get_args; args = v }) (ds ++ rest) pos o
  unfolding req_step
  digits-args [] v pos a p h g = move (pos + 0) pos (omega arith) g
  digits-args (d ∷ ds) v pos (ok, a) p h g =
      let n = v * 10 + (d - b'0') in
      back
        (args_digit (record st { stage = Stage.req_get_args; args = v }) d (ds ++ rest) pos ok
          (omega (arith, h, le-value_from n ds)) (omega arith))
        (omega arith)
        (digits-args ds n (pos + 1) a (omega arith) h
          (move (pos + length (d ∷ ds)) (pos + 1 + length ds) (omega arith) g))
