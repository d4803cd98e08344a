-- ===== src/Redis/Bounds.antt =====
-- How far the request parser of src/protocol/redis/proto_redis.c reads, and where it does not end.
use mathlib.Core.Path.{subst}
use wheatserver.Common.{
  ℕ, zero, suc, ◌+◌, ◌-◌, ◌*◌, ◌≤◌, ◌≡◌, ◌≢◌, refl, ap, Bool, true, false, [], ◌∷◌, ◌++◌, ltb, ◌==◌,
  if◌then◌else◌, length, take, drop, arith, length-drop, ltb-false, Bool-cases, inl, inr,
}
use wheatserver.Slice.{Bytes, Slice, view}
use wheatserver.Number.{is_digit}
use wheatserver.Redis.Command.{Command, number}
use wheatserver.Redis.Table.{command_handle}
use wheatserver.Redis.Data.{Stage, RedisProcData}
use wheatserver.Redis.Request.{
  int_max, cr, lf, Step, Parsed, req_step, req_loop, req_parser, expect, read_args, read_arg_len,
  read_val, read_command_or_key, end_command_or_key, set_command, to_stage, counted,
}
use wheatserver.Redis.Steps.{at, val_step}

-- The byte after the place that a run of the body leaves is still at most the slice's end.
abbrev Within : ℕ → Step → Type 0
Within total (Step.next st rest pos) = pos + length rest ≡ total
Within total (Step.stop st pos) = pos ≤ total
Within total (Step.failed st) = Unit
Within total Step.overflow = Unit

Within-if :
    (total : ℕ) (b : Bool) (x y : Step)
    → Within total x
    → Within total y
    → Within total (if b then x else y)
Within-if total true x y p q = p
Within-if total false x y p q = q

module _ (st : RedisProcData) (ch : ℕ) (rest : Bytes) (pos : ℕ) where
  abbrev total : ℕ
  total = pos + suc (length rest)

  expect-Within : (c : ℕ) (s : Stage) → Within total (expect c s st ch rest pos)
  unfolding expect
  expect-Within c s = Within-if total (ch == c) _ _ (omega arith) tt

  read_args-Within : Within total (read_args st ch rest pos)
  unfolding read_args
  read_args-Within =
      Within-if total (is_digit ch) _ _
        (Within-if total (ltb int_max (st.args * 10 + (ch - b'0'))) _ _ tt
          (Within-if total (ltb (st.args * 10 + (ch - b'0')) 1) _ _ tt (omega arith)))
        (expect-Within cr Stage.req_get_arg_len_lf)

  read_arg_len-Within : Within total (read_arg_len st ch rest pos)
  unfolding read_arg_len
  read_arg_len-Within =
      Within-if total (is_digit ch) _ _
        (Within-if total (ltb int_max (st.curr_arg_len * 10 + (ch - b'0'))) _ _ tt (omega arith))
        (expect-Within cr Stage.req_get_arg_val_lf)

  end-Within :
      (st : RedisProcData) (rest : Bytes) (pos : ℕ)
      → Within (pos + length rest) (end_command_or_key st rest pos)
  unfolding end_command_or_key set_command
  end-Within st rest pos = Within-if (pos + length rest) (ltb int_max st.curr_arg) _ _ tt (
      Within-if (pos + length rest) (st.curr_arg == 1) _ _
        (Within-if (pos + length rest) (number (command_handle st.key) == number Command.unknown) _
          _ tt refl)
        refl)

  skipped : (k : ℕ) → k ≤ suc (length rest) → pos + k + length (drop k (ch ∷ rest)) ≡ total
  skipped k h = omega (arith, length-drop k (ch ∷ rest))

  read_val-Within : Within total (read_val st ch rest pos)
  unfolding read_val
  read_val-Within =
      Within-if total (ch == cr) _ _ (omega arith)
        (elim (Bool-cases (ltb (suc (length rest)) st.curr_arg_len)) [
          | inl e ↦ rw e (omega arith)
          | inr e ↦ rw e (
              Within-if total (ltb int_max (st.curr_arg + 1)) _ _ tt
                (skipped st.curr_arg_len (ltb-false _ _ e)))
        ])

  read_command_or_key-Within : Within total (read_command_or_key st ch rest pos)
  unfolding read_command_or_key
  read_command_or_key-Within =
      Within-if total (ch == cr) _ _ (omega arith)
        (elim (Bool-cases (ltb (suc (length rest)) st.curr_arg_len)) [
          | inl e ↦ rw e (omega arith)
          | inr e ↦ rw e (
              subst
                (λ t. Within t (
                  end_command_or_key
                    (counted (record st { key = st.key ++ take st.curr_arg_len (ch ∷ rest) }))
                    (drop st.curr_arg_len (ch ∷ rest)) (pos + st.curr_arg_len)))
                (skipped st.curr_arg_len (ltb-false _ _ e))
                (end-Within
                  (counted (record st { key = st.key ++ take st.curr_arg_len (ch ∷ rest) }))
                  (drop st.curr_arg_len (ch ∷ rest)) (pos + st.curr_arg_len)))
        ])

  step-Within : (s : Stage) → Within total (req_step s st ch rest pos)
  unfolding req_step
  step-Within Stage.mes_start = expect-Within b'*' Stage.req_get_args
  step-Within Stage.req_get_args = read_args-Within
  step-Within Stage.req_get_arg_len_lf = expect-Within lf _
  step-Within Stage.req_get_arg_dollar = expect-Within b'$' Stage.req_get_arg_len
  step-Within Stage.req_get_arg_len = read_arg_len-Within
  step-Within Stage.req_get_arg_val_lf = expect-Within lf _
  step-Within Stage.req_get_arg_command_or_key = read_command_or_key-Within
  step-Within Stage.req_get_arg_val = read_val-Within
  step-Within Stage.mes_end = omega arith
  step-Within s = tt

abbrev count : Parsed → ℕ
count (Parsed.parsed st n) = n
count p = 0

loop-bound :
    (f : ℕ) (st : RedisProcData) (rest : Bytes) (pos : ℕ) (st' : RedisProcData) (n : ℕ)
    → req_loop f st rest pos ≡ Parsed.parsed st' n
    → n ≤ pos + length rest
unfolding req_loop
loop-bound f st [] pos st' n e = omega (arith, ap count e)
loop-bound zero st (ch ∷ rest) pos st' n e = cc
loop-bound (suc f) st (ch ∷ rest) pos st' n e =
    go (req_step st.stage st ch rest pos) (step-Within st ch rest pos st.stage)
      (λ st₁ rest₁ pos₁ e₁. loop-bound f st₁ rest₁ pos₁ st' n e₁) e
  where
    go :
        (s : Step)
        → Within (pos + suc (length rest)) s
        → ((st₁ : RedisProcData) (rest₁ : Bytes) (pos₁ : ℕ)
            → req_loop f st₁ rest₁ pos₁ ≡ Parsed.parsed st' n
            → n ≤ pos₁ + length rest₁)
        → (elim s [
          | Step.next st₁ rest₁ pos₁ ↦ req_loop f st₁ rest₁ pos₁
          | Step.stop st₁ pos₁ ↦ Parsed.parsed st₁ pos₁
          | Step.failed st₁ ↦ Parsed.wrong (to_stage st₁ Stage.mes_err)
          | Step.overflow ↦ Parsed.undefined
        ])
          ≡ Parsed.parsed st' n
        → n ≤ pos + suc (length rest)
    go (Step.next st₁ rest₁ pos₁) w ih e = omega (arith, w, ih st₁ rest₁ pos₁ e)
    go (Step.stop st₁ pos₁) w ih e = omega (arith, w, ap count e)
    go (Step.failed st₁) w ih e = cc
    go Step.overflow w ih e = cc

-- Where the parser returns a count of bytes, it is at most the length of the slice's view,
-- whatever the data it starts from.
pub req_parser-bound :
    (f : ℕ) (st : RedisProcData) (s : Slice) (st' : RedisProcData) (n : ℕ)
    → req_parser f st s ≡ Parsed.parsed st' n
    → n ≤ length (view s)
unfolding req_parser
req_parser-bound f st s st' n e = omega (arith, loop-bound f st (view s) 0 st' n e)

-- In the stage of the values, with no byte of the value left to come and a byte other than `\r`
-- next, the loop makes no progress: it has no result after any number of steps that leaves
-- `curr_arg` an `int`.
pub req_loop-spins :
    (f : ℕ) (st : RedisProcData) (k ch : ℕ) (rest : Bytes) (pos : ℕ)
    → ch ≢ cr
    → k + f ≤ int_max
    → req_loop f (at st Stage.req_get_arg_val 0 k) (ch ∷ rest) pos ≡ Parsed.running
unfolding req_loop req_step
req_loop-spins zero st k ch rest pos not_cr few = refl
req_loop-spins (suc f) st k ch rest pos not_cr few =
    rw
      (
        req_loop,
        val_step (at st Stage.req_get_arg_val 0 k) ch rest pos not_cr (omega arith) (omega arith),
      )
      (req_loop-spins f st (k + 1) ch rest (pos + 0) not_cr (omega arith))
