-- ===== src/Redis/Whole.antt =====
-- The parser of src/protocol/redis/proto_redis.c on a whole request: command, key and values.
use mathlib.Core.Path.{subst}
use wheatserver.Common.{
  ℕ, zero, suc, ◌+◌, ◌≤◌, ◌<◌, ◌≡◌, ◌≢◌, refl, sym, ap, ◌∙◌, some, List, [], ◌∷◌, ◌++◌,
  if◌then◌else◌, length, arith, length-append, append_assoc, lt→ltb,
}
use wheatserver.Slice.{Bytes, Slice, view}
use wheatserver.Number.Decimal.{decimal}
use wheatserver.Redis.Command.{Command}
use wheatserver.Redis.Table.{command_handle}
use wheatserver.Redis.Data.{Stage, RedisProcData, reads, init_redis_data}
use wheatserver.Redis.Request.{int_max, cr, lf, Parsed, req_step, req_loop, req_parser}
use wheatserver.Redis.Encode.{bulk, bulks, encode, key_end, IsPlain, AllPlain}
use wheatserver.Redis.Steps.{Gives, at, move}
use wheatserver.Redis.Lines.{next_stage, len-line, key-line, command-line}
use wheatserver.Redis.RoundTrip.{bulk-append, length-bulk, args-line, many}

-- The state with the command known and an empty `key`.
abbrev pub with_command : RedisProcData → Bytes → RedisProcData
with_command st b = record st {
  key = [];
  command = some b;
  command_type = command_handle b;
  is_read = reads (command_handle b);
}

to-dollar :
    (st : RedisProcData) (k : ℕ) (text : Bytes) (pos : ℕ) (o : Parsed)
    → k < st.args
    → Gives (at st Stage.req_get_arg_dollar 0 k) text pos o
    → Gives (at st (next_stage k st.args) 0 k) text pos o
to-dollar st k text pos o h g =
    subst (λ s. Gives (at st s 0 k) text pos o)
      (ap (λ b. if b then Stage.req_get_arg_dollar else Stage.mes_end) (sym (lt→ltb k st.args h))) g

module _ (b : Bytes) (p : IsPlain b) (st : RedisProcData) (rest : Bytes) (o : Parsed)
    (pos : ℕ) where
  abbrev behind : ℕ
  behind = pos + (length (decimal (length b)) + 3)

  command-part :
      command_handle b ≢ Command.unknown
      → 0 < st.args
      → Gives (at (with_command st b) (next_stage 1 st.args) 0 1) rest (pos + length (bulk b)) o
      → Gives (at (record st { key = [] }) (next_stage 0 st.args) 0 0) (bulk b ++ rest) pos o
  command-part known some_args g =
      to-dollar (record st { key = [] }) 0 (bulk b ++ rest) pos o some_args
        (subst (λ t. Gives (at (record st { key = [] }) Stage.req_get_arg_dollar 0 0) t pos o)
          (sym (bulk-append b rest))
          (len-line (record st { key = [] }) 0 (b ++ (cr ∷ lf ∷ rest)) o (length b) pos p.short
            (command (move _ _ (omega (arith, length-bulk b)) g))))
    where
      command :
          Gives (at (with_command st b) (next_stage 1 st.args) 0 1) rest (behind + (length b + 2)) o
          → Gives
              (at (record st { key = [] }) Stage.req_get_arg_command_or_key (length b) 0)
              (b ++ (cr ∷ lf ∷ rest))
              behind
              o
      command g =
          subst
            (λ t.
              Gives (at (record st { key = [] }) Stage.req_get_arg_command_or_key (length t) 0)
                (t ++ (cr ∷ lf ∷ rest)) behind o)
            (sym p.splits)
            (command-line st rest o p.first p.others p.no_cr behind
              (subst (λ t. command_handle t ≢ Command.unknown) p.splits known)
              (subst
                (λ t.
                  Gives (at (with_command st t) (next_stage 1 st.args) 0 1) rest
                    (behind + (length t + 2)) o)
                p.splits g))

  key-part :
      1 < st.args
      → Gives
          (at (record st { key = b; key_end_pos = behind + length b }) (next_stage 2 st.args) 0 2)
          rest
          (pos + length (bulk b))
          o
      → Gives (at (record st { key = [] }) (next_stage 1 st.args) 0 1) (bulk b ++ rest) pos o
  key-part some_args g =
      to-dollar (record st { key = [] }) 1 (bulk b ++ rest) pos o some_args
        (subst (λ t. Gives (at (record st { key = [] }) Stage.req_get_arg_dollar 0 1) t pos o)
          (sym (bulk-append b rest))
          (len-line (record st { key = [] }) 1 (b ++ (cr ∷ lf ∷ rest)) o (length b) pos p.short
            (the_key (move _ _ (omega (arith, length-bulk b)) g))))
    where
      the_key :
          Gives
            (at (record st { key = b; key_end_pos = behind + length b }) (next_stage 2 st.args) 0 2)
            rest
            (behind + (length b + 2))
            o
          → Gives
              (at (record st { key = [] }) Stage.req_get_arg_command_or_key (length b) 1)
              (b ++ (cr ∷ lf ∷ rest))
              behind
              o
      the_key g =
          subst
            (λ t.
              Gives (at (record st { key = [] }) Stage.req_get_arg_command_or_key (length t) 1)
                (t ++ (cr ∷ lf ∷ rest)) behind o)
            (sym p.splits)
            (key-line st rest o p.first p.others p.no_cr behind (
              subst
                (λ t.
                  Gives
                    (at (record st { key = t; key_end_pos = behind + length t })
                      (next_stage 2 st.args) 0 2)
                    rest (behind + (length t + 2)) o)
                p.splits g))

-- What the parser's data hold after a request.
abbrev pub after_request : Bytes → Bytes → List Bytes → RedisProcData
after_request command key values =
    let n = length (command ∷ key ∷ values) in
    record init_redis_data {
      curr_arg = n;
      args = n;
      key = key;
      command = some command;
      key_end_pos = key_end n command key;
      stage = Stage.mes_end;
      command_type = command_handle command;
      is_read = reads (command_handle command);
    }

ending :
    (st : RedisProcData) (k : ℕ) (tail : Bytes) (pos : ℕ)
    → Gives (at st Stage.mes_end 0 k) tail pos (Parsed.parsed (at st Stage.mes_end 0 k) pos)
unfolding req_loop req_step
ending st k tail pos = record { run = runs tail }
  where
    runs :
        (tail : Bytes) (f : ℕ)
        → length tail ≤ f
        → req_loop f (at st Stage.mes_end 0 k) tail pos
          ≡ Parsed.parsed (at st Stage.mes_end 0 k) pos
    runs [] f h = refl
    runs (c ∷ cs) zero h = absurd (omega (arith, h))
    runs (c ∷ cs) (suc f) h = refl

module _ (command key : Bytes) (values : List Bytes) (tail : Bytes) where
  abbrev n : ℕ
  n = length (command ∷ key ∷ values)

  abbrev at_command : ℕ
  at_command = 0 + (length (decimal n) + 3)

  abbrev at_key : ℕ
  at_key = at_command + length (bulk command)

  encode-append :
      encode (command ∷ key ∷ values) ++ tail
      ≡ b'*' ∷ (decimal n ++ (cr ∷ lf ∷ (bulk command ++ (bulk key ++ (bulks values ++ tail)))))
  encode-append =
      ap (λ l. b'*' ∷ l)
        (append_assoc (decimal n) _ tail
          ∙ ap (λ l. decimal n ++ (cr ∷ lf ∷ l))
              (append_assoc (bulk command) _ tail
                ∙ ap (λ l. bulk command ++ l) (append_assoc (bulk key) (bulks values) tail)))

  length-encode :
      at_key + length (bulk key) + length (bulks values) ≡ length (encode (command ∷ key ∷ values))
  length-encode = omega (
    arith,
    length-append (decimal n) (cr ∷ lf ∷ bulks (command ∷ key ∷ values)),
    length-append (bulk command) (bulks (key ∷ values)),
    length-append (bulk key) (bulks values),
  )

  key_end-behind : at_key + (length (decimal (length key)) + 3) + length key ≡ key_end n command key
  key_end-behind = omega (
    arith,
    length-append (decimal n) (cr ∷ lf ∷ (bulk command ++ bulk key)),
    length-append (bulk command) (bulk key),
    length-bulk key,
  )

  -- The parser's data behind the key, with the key's end at `e`.
  abbrev behind_key : ℕ → RedisProcData
  behind_key e = record (with_command (record init_redis_data { args = n }) command) {
    key = key;
    key_end_pos = e;
  }

  whole :
      AllPlain (command ∷ key ∷ values)
      → command_handle command ≢ Command.unknown
      → n ≤ int_max
      → Gives init_redis_data (encode (command ∷ key ∷ values) ++ tail) 0 (
          Parsed.parsed
            (after_request command key values)
            (length (encode (command ∷ key ∷ values))))
  whole (pc, (pk, pv)) known few =
      let o =
        Parsed.parsed (after_request command key values)
          (length (encode (command ∷ key ∷ values))) in
      subst (λ t. Gives init_redis_data t 0 o) (sym encode-append)
        (args-line init_redis_data n (bulk command ++ (bulk key ++ (bulks values ++ tail))) o 0
          (omega arith) few
          (command-part command pc (record init_redis_data { args = n })
            (bulk key ++ (bulks values ++ tail)) o at_command known (omega arith)
            (key-part key pk (with_command (record init_redis_data { args = n }) command)
              (bulks values ++ tail) o at_key (omega arith)
              (subst
                (λ e.
                  Gives (at (behind_key e) (next_stage 2 n) 0 2) (bulks values ++ tail)
                    (at_key + length (bulk key)) o)
                (sym key_end-behind)
                (many values (behind_key (key_end n command key)) 2 tail o
                  (at_key + length (bulk key)) pv (omega arith) (omega arith) few
                  (move _ _ (sym length-encode) (
                    ending (behind_key (key_end n command key)) n tail
                      (length (encode (command ∷ key ∷ values))))))))))

-- A whole request in one slice, whatever follows it: if the command's name is one the server knows,
-- no value is empty or begins with `\r`, and their number and lengths are `int`s, then the parser,
-- from its initial data and with as much fuel as the slice has bytes, reads just the request, ends
-- in `MES_END`, and holds the command, its type, the key, the count of values and the key's end.
pub req_parser-encode :
    (command key : Bytes) (values : List Bytes) (tail : Bytes) (s : Slice) (f : ℕ)
    → AllPlain (command ∷ key ∷ values)
    → command_handle command ≢ Command.unknown
    → length (command ∷ key ∷ values) ≤ int_max
    → view s ≡ encode (command ∷ key ∷ values) ++ tail
    → length (view s) ≤ f
    → req_parser f init_redis_data s
      ≡ Parsed.parsed (after_request command key values) (length (encode (command ∷ key ∷ values)))
unfolding req_parser
req_parser-encode command key values tail s f plain known few e enough =
    ap (λ t. req_loop f init_redis_data t 0) e
    ∙ (whole command key values tail plain known few).run f (omega (arith, ap length e))
