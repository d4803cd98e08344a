-- ===== src/Redis/Lines.antt =====
-- The lines of a request, under the parser of src/protocol/redis/proto_redis.c.
use mathlib.Core.Path.{subst, ap₂}
use wheatserver.Common.{
  drop-front, take-front, ◌⊎◌, ℕ, ◌+◌, ◌≤◌, ◌≡◌, ◌≢◌, refl, sym, ap, ◌∙◌, some, [], ◌∷◌, ◌++◌, ltb,
  if◌then◌else◌, length, arith, length-append, inl, inr,
}
use wheatserver.Slice.{Bytes}
use wheatserver.Number.Decimal.{decimal, decimal-AllDigits, value-decimal}
use wheatserver.Redis.Command.{Command}
use wheatserver.Redis.Table.{command_handle}
use wheatserver.Redis.Names.{number-known}
use wheatserver.Redis.Data.{Stage, RedisProcData, reads}
use wheatserver.Redis.Request.{
  int_max, cr, lf, Step, Parsed, req_step, expect, read_arg_len, read_val, read_command_or_key,
  end_command_or_key, set_command,
}
use wheatserver.Redis.Steps.{Gives, at, back, move, val_step, key_step, digits-len}

abbrev pub value_stage : ℕ → Stage
value_stage k = if ltb k 2 then Stage.req_get_arg_command_or_key else Stage.req_get_arg_val

abbrev pub next_stage : ℕ → ℕ → Stage
next_stage k args = if ltb k args then Stage.req_get_arg_dollar else Stage.mes_end

module _ (st : RedisProcData) (k : ℕ) (rest : Bytes) (o : Parsed) where
  -- `$5\r\n`
  pub len-line :
      (n pos : ℕ)
      → n ≤ int_max
      → Gives (at st (value_stage k) n k) rest (pos + (length (decimal n) + 3)) o
      → Gives (at st Stage.req_get_arg_dollar 0 k) (b'$' ∷ (decimal n ++ (cr ∷ lf ∷ rest))) pos o
  unfolding req_step expect read_arg_len
  len-line n pos h g = back refl (omega arith) (
      digits-len st k (cr ∷ lf ∷ rest) o (decimal n) 0 (pos + 1) (decimal-AllDigits n)
        (omega (arith, value-decimal n))
        (subst
          (λ v.
            Gives (at st Stage.req_get_arg_len v k) (cr ∷ lf ∷ rest) (pos + 1 + length (decimal n))
              o)
          (sym (value-decimal n))
          (back refl (omega arith) (
            back refl (omega arith)
              (move _ (pos + 1 + length (decimal n) + 1 + 1) (omega arith) g)))))

  -- The `\r\n` behind a value.
  end-line :
      (s : Stage) (pos : ℕ)
      → (s ≡ Stage.req_get_arg_val) ⊎ (s ≡ Stage.req_get_arg_command_or_key)
      → Gives (at st (next_stage k st.args) 0 k) rest (pos + 2) o
      → Gives (at st s 0 k) (cr ∷ lf ∷ rest) pos o
  unfolding req_step expect read_val read_command_or_key
  end-line s pos e g = elim e [
    | inl p ↦
        subst (λ x. Gives (at st x 0 k) (cr ∷ lf ∷ rest) pos o) (sym p)
          (back refl (omega arith)
            (back refl (omega arith) (move (pos + 2) (pos + 1 + 1) (omega arith) g)))
    | inr p ↦
        subst (λ x. Gives (at st x 0 k) (cr ∷ lf ∷ rest) pos o) (sym p)
          (back refl (omega arith)
            (back refl (omega arith) (move (pos + 2) (pos + 1 + 1) (omega arith) g)))
  ]

module _ (st : RedisProcData) (k : ℕ) (rest : Bytes) (o : Parsed) (c : ℕ) (cs : Bytes)
    (not_cr : c ≢ cr) where
  abbrev text : Bytes
  text = c ∷ cs

  abbrev line_rest : Bytes
  line_rest = cr ∷ lf ∷ rest

  fits : length text ≤ length (text ++ line_rest)
  fits = omega (arith, length-append text line_rest)

  shorter : length line_rest ≤ length (cs ++ line_rest)
  shorter = omega (arith, length-append cs line_rest)

  -- A value and its `\r\n`.
  pub val-line :
      (pos : ℕ)
      → k + 1 ≤ int_max
      → Gives (at st (next_stage (k + 1) st.args) 0 (k + 1)) rest (pos + (length text + 2)) o
      → Gives (at st Stage.req_get_arg_val (length text) k) (text ++ line_rest) pos o
  unfolding req_step
  val-line pos few g =
      back
        (val_step (at st Stage.req_get_arg_val (length text) k) c (cs ++ line_rest) pos not_cr fits
            few
          ∙ ap (λ r. Step.next (at st Stage.req_get_arg_val 0 (k + 1)) r (pos + length text))
              (drop-front text line_rest))
        shorter
        (end-line st (k + 1) rest o Stage.req_get_arg_val (pos + length text) (inl refl)
          (move _ (pos + length text + 2) (omega arith) g))

module _ (st : RedisProcData) (rest : Bytes) (o : Parsed) (c : ℕ) (cs : Bytes)
    (not_cr : c ≢ cr) where
  abbrev value : Bytes
  value = c ∷ cs

  -- The parser takes a first or second value into an empty `key`.
  taken :
      (k pos : ℕ)
      → read_command_or_key
          (at (record st { key = [] }) Stage.req_get_arg_command_or_key (length value) k)
          c
          (cs ++ (cr ∷ lf ∷ rest))
          pos
        ≡ end_command_or_key
            (at (record st { key = value }) Stage.req_get_arg_command_or_key 0 (k + 1))
            (cr ∷ lf ∷ rest)
            (pos + length value)
  taken k pos =
      key_step (at (record st { key = [] }) Stage.req_get_arg_command_or_key (length value) k) c
        (cs ++ (cr ∷ lf ∷ rest)) pos not_cr (fits st k rest o c cs not_cr)
      ∙ ap₂
          (λ t r.
            end_command_or_key
              (at (record st { key = t }) Stage.req_get_arg_command_or_key 0 (k + 1)) r
              (pos + length value))
          (take-front value (cr ∷ lf ∷ rest)) (drop-front value (cr ∷ lf ∷ rest))

  -- The key and its `\r\n`.
  pub key-line :
      (pos : ℕ)
      → Gives
          (at
            (record st { key = value; key_end_pos = pos + length value })
            (next_stage 2 st.args)
            0
            2)
          rest
          (pos + (length value + 2))
          o
      → Gives
          (at (record st { key = [] }) Stage.req_get_arg_command_or_key (length value) 1)
          (value ++ (cr ∷ lf ∷ rest))
          pos
          o
  unfolding req_step end_command_or_key
  key-line pos g = back (taken 1 pos) (shorter st 1 rest o c cs not_cr) (
      end-line (record st { key = value; key_end_pos = pos + length value }) 2 rest o
        Stage.req_get_arg_command_or_key (pos + length value) (inr refl)
        (move _ (pos + length value + 2) (omega arith) g))

  -- The command and its `\r\n`.
  pub command-line :
      (pos : ℕ)
      → command_handle value ≢ Command.unknown
      → Gives
          (at
            (record st {
              key = [];
              command = some value;
              command_type = command_handle value;
              is_read = reads (command_handle value);
            })
            (next_stage 1 st.args)
            0
            1)
          rest
          (pos + (length value + 2))
          o
      → Gives
          (at (record st { key = [] }) Stage.req_get_arg_command_or_key (length value) 0)
          (value ++ (cr ∷ lf ∷ rest))
          pos
          o
  unfolding req_step end_command_or_key set_command
  command-line pos known g =
      back (taken 0 pos ∙ rw (number-known (command_handle value) known))
        (shorter st 0 rest o c cs not_cr)
        (end-line
          (record st {
            key = [];
            command = some value;
            command_type = command_handle value;
            is_read = reads (command_handle value);
          })
          1 rest o Stage.req_get_arg_command_or_key (pos + length value) (inr refl)
          (move _ (pos + length value + 2) (omega arith) g))
