-- ===== src/Redis/RoundTrip.antt =====
-- The parser of src/protocol/redis/proto_redis.c on the text of a whole request.
use mathlib.Core.Path.{subst, ap₂}
use wheatserver.Common.{
  ℕ, suc, ◌+◌, ◌-◌, ◌*◌, ◌≤◌, ◌<◌, ◌≡◌, refl, sym, ap, ◌∙◌, List, [], ◌∷◌, ◌++◌, if◌then◌else◌,
  length, arith, length-append, append_assoc, lt→ltb,
}
use wheatserver.Slice.{Bytes}
use wheatserver.Number.Decimal.{decimal, value_from, le-value_from, value-decimal, decimal-Leading}
use wheatserver.Redis.Data.{Stage, RedisProcData}
use wheatserver.Redis.Request.{int_max, cr, lf, Parsed, req_step, expect, read_args}
use wheatserver.Redis.Encode.{bulk, bulks, IsPlain, AllPlain}
use wheatserver.Redis.Steps.{Gives, at, back, move, ltb-le, digits-args, args_digit}
use wheatserver.Redis.Lines.{next_stage, len-line, val-line}

pub bulk-append :
    (b rest : Bytes)
    → bulk b ++ rest ≡ b'$' ∷ (decimal (length b) ++ (cr ∷ lf ∷ (b ++ (cr ∷ lf ∷ rest))))
bulk-append b rest =
    ap (λ l. b'$' ∷ l)
      (append_assoc (decimal (length b)) _ rest
        ∙ ap (λ l. decimal (length b) ++ (cr ∷ lf ∷ l)) (append_assoc b _ rest))

pub length-bulk : (b : Bytes) → length (bulk b) ≡ length (decimal (length b)) + length b + 5
length-bulk b = omega (
  arith,
  length-append (decimal (length b)) (cr ∷ lf ∷ (b ++ (cr ∷ lf ∷ []))),
  length-append b (cr ∷ lf ∷ []),
)

-- `*3\r\n`
pub args-line :
    (st : RedisProcData) (n : ℕ) (rest : Bytes) (o : Parsed) (pos : ℕ)
    → 0 < n
    → n ≤ int_max
    → Gives
        (record st { stage = next_stage st.curr_arg n; args = n })
        rest
        (pos + (length (decimal n) + 3))
        o
    → Gives
        (record st { stage = Stage.mes_start; args = 0 })
        (b'*' ∷ (decimal n ++ (cr ∷ lf ∷ rest)))
        pos
        o
unfolding req_step expect read_args
args-line st n rest o pos p h g =
    let l = decimal-Leading n p in
    let v = 0 * 10 + (l.first - b'0') in
    let e : value_from v l.others ≡ n = ap (value_from 0) (sym l.splits) ∙ value-decimal n in
    let size : length (decimal n) ≡ suc (length l.others) = ap length l.splits in
    back refl (omega arith) (
      subst
        (λ t.
          Gives (record st { stage = Stage.req_get_args; args = 0 }) (t ++ (cr ∷ lf ∷ rest))
            (pos + 1) o)
        (sym l.splits)
        (back
          (args_digit (record st { stage = Stage.req_get_args; args = 0 }) l.first
            (l.others ++ (cr ∷ lf ∷ rest)) (pos + 1) (ground (arith, l.low, l.high))
            (omega (arith, e, h, le-value_from v l.others)) (omega (arith, l.low)))
          (omega arith)
          (digits-args st 0 (cr ∷ lf ∷ rest) o l.others v (pos + 1 + 1) l.digits
            (omega (arith, l.low)) (omega (arith, e, h))
            (subst
              (λ a.
                Gives (record st { stage = Stage.req_get_args; args = a }) (cr ∷ lf ∷ rest)
                  (pos + 1 + 1 + length l.others) o)
              (sym e)
              (back refl (omega arith) (
                back refl (omega arith)
                  (move _ (pos + 1 + 1 + length l.others + 1 + 1) (omega (arith, size)) g)))))))

-- A value that is plain, and its `\r\n`.
plain-val :
    (v : Bytes) (p : IsPlain v) (st : RedisProcData) (k : ℕ) (rest : Bytes) (o : Parsed) (pos : ℕ)
    → k + 1 ≤ int_max
    → Gives (at st (next_stage (k + 1) st.args) 0 (k + 1)) rest (pos + (length v + 2)) o
    → Gives (at st Stage.req_get_arg_val (length v) k) (v ++ (cr ∷ lf ∷ rest)) pos o
plain-val v p st k rest o pos few g =
    subst (λ t. Gives (at st Stage.req_get_arg_val (length t) k) (t ++ (cr ∷ lf ∷ rest)) pos o)
      (sym p.splits)
      (val-line st k rest o p.first p.others p.no_cr pos few
        (move _ _ (omega (arith, ap length p.splits)) g))

-- The values after the key.
pub many :
    (vs : List Bytes) (st : RedisProcData) (k : ℕ) (tail : Bytes) (o : Parsed) (pos : ℕ)
    → AllPlain vs
    → 2 ≤ k
    → st.args ≡ k + length vs
    → st.args ≤ int_max
    → Gives (at st Stage.mes_end 0 st.args) tail (pos + length (bulks vs)) o
    → Gives (at st (next_stage k st.args) 0 k) (bulks vs ++ tail) pos o
many [] st k tail o pos a two e few g =
    subst (λ x. Gives x tail pos o)
      (ap₂ (λ s j. at st s 0 j)
        (ap (λ b. if b then Stage.req_get_arg_dollar else Stage.mes_end)
          (sym (ltb-le k st.args (omega (arith, e)))))
        (omega (arith, e)))
      (move (pos + 0) pos (omega arith) g)
many (v ∷ vs) st k tail o pos (p, a) two e few g =
    let rest = bulks vs ++ tail in
    subst (λ s. Gives (at st s 0 k) (bulks (v ∷ vs) ++ tail) pos o)
      (ap (λ b. if b then Stage.req_get_arg_dollar else Stage.mes_end)
        (sym (lt→ltb k st.args (omega (arith, e)))))
      (subst (λ t. Gives (at st Stage.req_get_arg_dollar 0 k) t pos o)
        (sym (append_assoc (bulk v) (bulks vs) tail ∙ bulk-append v rest))
        (len-line st k (v ++ (cr ∷ lf ∷ rest)) o (length v) pos p.short (
          subst
            (λ s.
              Gives (at st s (length v) k) (v ++ (cr ∷ lf ∷ rest))
                (pos + (length (decimal (length v)) + 3)) o)
            (ap (λ b. if b then Stage.req_get_arg_command_or_key else Stage.req_get_arg_val)
              (sym (ltb-le k 2 two)))
            (plain-val v p st k rest o (pos + (length (decimal (length v)) + 3))
              (omega (arith, e, few))
              (many vs st (k + 1) tail o (pos + (length (decimal (length v)) + 3) + (length v + 2))
                a (omega arith) (omega (arith, e)) few
                (move _ _ (omega (arith, length-bulk v, length-append (bulk v) (bulks vs))) g))))))
