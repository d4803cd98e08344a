-- ===== src/WheatRedis/Config/Bulk.antt =====
-- How src/app/wheatredis/redis_config.c reads the bulk replies of a Redis server.
use wheatserver.Common.{
  ℕ, suc, ◌+◌, ◌-◌, ◌*◌, ◌/◌, ◌%◌, ◌^◌, ◌≤◌, ◌<◌, ◌≡◌, refl, sym, ap, ◌∙◌, true, false, some, [],
  ◌∷◌, ◌++◌, ◌==◌, leb, if◌then◌else◌, if_cases, ltb, ltb→lt, ltb-false, Bool-cases, inl, inr,
  length, length-append, take, drop, take-front, take-append_le, arith, pos,
}
use wheatserver.Slice.{Bytes}
use wheatserver.Number.{string2ll, is_digit}
use wheatserver.Number.Decimal.{decimal, decimal_small, decimal_large}
use wheatserver.Number.Print.{signed_decimal}
use wheatserver.Number.Parse.{string2ll_complete}
use wheatserver.Stats.{atoi, digits_value, is_space}
use wheatserver.WheatRedis.Config.{
  wrong, outside, value, copy_from_4, get_str_from, number_of, parsed, get_val_from,
}

-- The reply of a Redis server that has the value, and of one that has none.
abbrev pub bulk : Bytes → Bytes
bulk v = b'$' ∷ (decimal (length v) ++ (13 ∷ 10 ∷ (v ++ (13 ∷ 10 ∷ []))))

abbrev pub nil_reply : Bytes
nil_reply = b'$' ∷ b'-' ∷ b'1' ∷ 13 ∷ 10 ∷ []

digit_then :
    (v d : ℕ) (cs : Bytes)
    → d < 10
    → digits_value v ((b'0' + d) ∷ cs) ≡ digits_value (v * 10 + d) cs
digit_then v d cs h =
    let digit : is_digit (b'0' + d) ≡ true = ground (arith, h) in
    let same : b'0' + d - b'0' ≡ d = omega arith in
    rw digit (ap (λ k. digits_value (v * 10 + k) cs) same)

atoi_one : (d : ℕ) (cs : Bytes) → d < 10 → atoi ((b'0' + d) ∷ 13 ∷ cs) ≡ pos d
unfolding atoi
atoi_one d cs h =
    let no_space : is_space (b'0' + d) ≡ false = ground (arith, h) in
    let no_minus : (b'0' + d == b'-') ≡ false = ground (arith, h) in
    let no_plus : (b'0' + d == b'+') ≡ false = ground (arith, h) in
    rw (no_space, no_minus, no_plus) (ap pos (digit_then 0 d (13 ∷ cs) h ∙ omega arith))

atoi_two :
    (d e : ℕ) (cs : Bytes)
    → d < 10
    → e < 10
    → atoi ((b'0' + d) ∷ (b'0' + e) ∷ 13 ∷ cs) ≡ pos (d * 10 + e)
unfolding atoi
atoi_two d e cs h k =
    let no_space : is_space (b'0' + d) ≡ false = ground (arith, h) in
    let no_minus : (b'0' + d == b'-') ≡ false = ground (arith, h) in
    let no_plus : (b'0' + d == b'+') ≡ false = ground (arith, h) in
    rw (no_space, no_minus, no_plus)
      (ap pos (
        digit_then 0 d ((b'0' + e) ∷ 13 ∷ cs) h
        ∙ digit_then (0 * 10 + d) e (13 ∷ cs) k
        ∙ omega arith))

copy-take :
    (body : Bytes) (len : ℕ)
    → 4 + len ≤ length body + 1
    → copy_from_4 body (pos len) ≡ value (take len (drop 4 body))
copy-take body len h =
    if_cases (λ r. r ≡ value (take len (drop 4 body))) (leb (4 + len) (length body + 1))
      {x = value (take len (drop 4 body))} {y = outside} (λ e. refl) (λ e. ground (arith, e, h))

-- The reply with a value of fewer than ten bytes.
short : Bytes → Bytes
short v = b'$' ∷ (b'0' + length v) ∷ 13 ∷ 10 ∷ (v ++ (13 ∷ 10 ∷ []))

bulk_short : (v : Bytes) → length v < 10 → bulk v ≡ short v
unfolding short
bulk_short v h =
    ap (λ l. b'$' ∷ (l ++ (13 ∷ 10 ∷ (v ++ (13 ∷ 10 ∷ []))))) (decimal_small (length v) h)

copy_short : (v : Bytes) → length v < 10 → copy_from_4 (short v) (atoi (drop 1 (short v))) ≡ value v
unfolding short
copy_short v h =
    ap (copy_from_4 (short v)) (atoi_one (length v) (10 ∷ (v ++ (13 ∷ 10 ∷ []))) h)
    ∙ copy-take (short v) (length v) (omega (arith, length-append v (13 ∷ 10 ∷ [])))
    ∙ ap value (take-front v (13 ∷ 10 ∷ []))

-- `getStrFrom` gives back a value of fewer than ten bytes.
get_str_from_short : (v : Bytes) → length v < 10 → get_str_from (bulk v) ≡ value v
unfolding get_str_from
get_str_from_short v h = ap get_str_from (bulk_short v h) ∙ unfold short in copy_short v h

-- `getValFrom` gives back a number whose text has fewer than ten digits.
pub get_val_from_short :
    (n : ℕ) → n < 2 ^ 63 → length (decimal n) < 10 → get_val_from (bulk (decimal n)) ≡ value n
unfolding get_val_from short
get_val_from_short n h k =
    let text = decimal n in
    let no_minus : (b'0' + length text == b'-') ≡ false = ground arith in
    let whole : string2ll text ≡ some (pos n) =
      unfold signed_decimal in string2ll_complete (pos n) h in
    ap get_val_from (bulk_short text k)
    ∙ ap (λ b. if b then wrong else parsed (copy_from_4 (short text) (atoi (drop 1 (short text)))))
        no_minus
    ∙ ap parsed (copy_short text k)
    ∙ ap number_of whole
    ∙ ap value (omega (arith, h))

-- The reply with a value of ten to ninety-nine bytes.
long : Bytes → Bytes
long v = b'$' ∷ (b'0' + length v / 10) ∷ (b'0' + length v % 10) ∷ 13 ∷ 10 ∷ (v ++ (13 ∷ 10 ∷ []))

bulk-long : (v : Bytes) → 10 ≤ length v → length v < 100 → bulk v ≡ long v
unfolding long
bulk-long v h k =
    ap (λ l. b'$' ∷ (l ++ (13 ∷ 10 ∷ (v ++ (13 ∷ 10 ∷ [])))))
      (decimal_large (length v) h
        ∙ ap (λ l. l ++ ((b'0' + length v % 10) ∷ []))
            (decimal_small (length v / 10) (omega (arith, k))))

copy_long :
    (v : Bytes)
    → 10 ≤ length v
    → length v < 100
    → copy_from_4 (long v) (atoi (drop 1 (long v))) ≡ value (10 ∷ take (length v - 1) v)
unfolding long
copy_long v h k =
    let number : pos (length v / 10 * 10 + length v % 10) ≡ pos (length v) = ap pos (omega arith) in
    let back : length v ≡ suc (length v - 1) = omega (arith, h) in
    let body = 10 ∷ (v ++ (13 ∷ 10 ∷ [])) in
    ap (copy_from_4 (long v))
      (atoi_two (length v / 10) (length v % 10) body (omega (arith, k)) (omega arith) ∙ number)
    ∙ copy-take (long v) (length v) (omega (arith, length-append v (13 ∷ 10 ∷ [])))
    ∙ ap (λ n. value (take n body)) back
    ∙ ap (λ l. value (10 ∷ l)) (take-append_le (length v - 1) v (13 ∷ 10 ∷ []) (omega arith))

get_str_from_long :
    (v : Bytes)
    → 10 ≤ length v
    → length v < 100
    → get_str_from (bulk v) ≡ value (10 ∷ take (length v - 1) v)
unfolding get_str_from long
get_str_from_long v h k = ap get_str_from (bulk-long v h k) ∙ copy_long v h k

-- `getStrFrom` on the reply of a Redis server that has a value of fewer than a hundred bytes: it
-- gives the value back if it has fewer than ten bytes, and otherwise the line feed that stands
-- before the value and the value without its last byte.
pub get_str_from-bulk :
    (v : Bytes)
    → length v < 100
    → get_str_from (bulk v) ≡ value (if ltb (length v) 10 then v else 10 ∷ take (length v - 1) v)
get_str_from-bulk v k = elim (Bool-cases (ltb (length v) 10)) [
  | inl e ↦
      get_str_from_short v (ltb→lt (length v) 10 e)
      ∙ sym (ap (λ b. value (if b then v else 10 ∷ take (length v - 1) v)) e)
  | inr e ↦
      let h : 10 ≤ length v = ltb-false (length v) 10 e in
      get_str_from_long v h k
      ∙ sym (ap (λ b. value (if b then v else 10 ∷ take (length v - 1) v)) e)
]
