-- ===== src/Memcache/Numbers.antt =====
-- The numbers of a line, under the parser of src/protocol/memcache/proto_memcache.c.
use mathlib.Core.Path.{subst}
use native.Mathlib.Nat.{mod-eq_of_lt}
use wheatserver.Common.{
  ℕ, zero, suc, ◌+◌, ◌-◌, ◌*◌, ◌%◌, ◌^◌, ◌≤◌, ◌<◌, ◌≡◌, refl, ap, sym, ◌∙◌, true, false, [], ◌∷◌,
  ◌++◌, ◌==◌, length, drop, arith,
}
use wheatserver.Slice.{Bytes}
use wheatserver.Number.{is_digit}
use wheatserver.Number.Decimal.{
  decimal, decimal_small, decimal-Leading, value_from, le-value_from, AllDigits,
}
use wheatserver.Redis.Steps.{ltb-le}
use wheatserver.Memcache.Data.{Stage, MemcacheProcData}
use wheatserver.Memcache.Request.{
  Step, Parsed, sp, skip_spaces, read_flags, read_expiry, read_vlen, read_cas, read_num, time_max,
}
use wheatserver.Memcache.Loop.{req_step}
use wheatserver.Memcache.Gives.{Gives, back, move, drop-next}

digit-sp : (d : ℕ) → is_digit d ≡ true → (d == sp) ≡ false
digit-sp d h = ground arith

small-mod : (n w : ℕ) → n < w → n % w ≡ n
small-mod n w h = mod-eq_of_lt h

-- The text of a number is a digit and more digits.
pub record Digits (n : ℕ) : Type 0 where
  pub first : ℕ
  pub others : Bytes
  pub splits : decimal n ≡ first ∷ others
  pub digit : is_digit first ≡ true
  pub digits : AllDigits others
  pub value : value_from (first - b'0') others ≡ n

decimal-Digits : (n : ℕ) → Digits n
decimal-Digits zero = record {
  first = b'0';
  others = [];
  splits = decimal_small 0 (omega arith);
  digit = refl;
  digits = tt;
  value = refl;
}
decimal-Digits (suc n) =
    let l = decimal-Leading (suc n) (omega arith) in
    let low = l.low in
    let high = l.high in
    record {
      first = l.first;
      others = l.others;
      splits = l.splits;
      digit = ground arith;
      digits = l.digits;
      value = l.value;
    }

module _ {s : Bytes} {o : Parsed} (here there : Stage) (r : MemcacheProcData)
    (put : ℕ → MemcacheProcData) (most : ℕ)
    (starts : (d pos : ℕ)
      → is_digit d ≡ true
      → req_step here r s pos d ≡ Step.next there (put (d - b'0')) (pos + 1))
    (goes_on : (v d pos : ℕ)
      → is_digit d ≡ true
      → v * 10 + (d - b'0') ≤ most
      → req_step there (put v) s pos d
        ≡ Step.next there (put (v * 10 + (d - b'0'))) (pos + 1)) where
  digits-run :
      (v : ℕ) (cs : Bytes) (pos : ℕ) (rest : Bytes)
      → drop pos s ≡ cs ++ rest
      → AllDigits cs
      → value_from v cs ≤ most
      → Gives s there (put (value_from v cs)) (pos + length cs) o
      → Gives s there (put v) pos o
  digits-run v [] pos rest e a h g = move (pos + 0) pos (omega arith) g
  digits-run v (c ∷ cs) pos rest e (d, a) h g =
      back e (goes_on v c pos d (omega (arith, h, le-value_from (v * 10 + (c - b'0')) cs))) (
        digits-run (v * 10 + (c - b'0')) cs (pos + 1) rest (drop-next pos s c (cs ++ rest) e) a h
          (move (pos + length (c ∷ cs)) (pos + 1 + length cs) (omega arith) g))

  -- A number's text, from its first digit on.
  number-run :
      (n pos : ℕ) (rest : Bytes)
      → drop pos s ≡ decimal n ++ rest
      → n ≤ most
      → Gives s there (put n) (pos + length (decimal n)) o
      → Gives s here r pos o
  number-run n pos rest e h g =
      let t = decimal-Digits n in
      let e' : drop pos s ≡ t.first ∷ (t.others ++ rest) = e ∙ ap (λ l. l ++ rest) t.splits in
      let len : pos + length (decimal n) ≡ pos + 1 + length t.others =
        omega (arith, ap length t.splits) in
      back e' (starts t.first pos t.digit) (
        digits-run (t.first - b'0') t.others (pos + 1) rest (drop-next pos s _ _ e') t.digits
          (omega (arith, h, t.value))
          (subst (λ v. Gives s there (put v) (pos + 1 + length t.others) o) (sym t.value)
            (move (pos + length (decimal n)) (pos + 1 + length t.others) len g)))

module _ {s : Bytes} {o : Parsed} (r : MemcacheProcData) (n pos : ℕ) (rest : Bytes)
    (d : drop pos s ≡ decimal n ++ rest) where
  pub flag-run :
      n ≤ 2 ^ 16 - 1
      → Gives s Stage.flags (record r { flag = n }) (pos + length (decimal n)) o
      → Gives s Stage.spaces_before_flags r pos o
  unfolding req_step skip_spaces read_flags
  flag-run few g =
      number-run Stage.spaces_before_flags Stage.flags r (λ v. record r { flag = v }) (2 ^ 16 - 1)
        (λ c p e. rw (digit-sp c e, e) refl)
        (λ v c p e h. rw (e, small-mod (v * 10 + (c - b'0')) (2 ^ 16) (omega (arith, h))) refl) n
        pos rest d few g

  pub expire-run :
      n ≤ time_max
      → Gives s Stage.expiry (record r { expire = n }) (pos + length (decimal n)) o
      → Gives s Stage.spaces_before_expiry r pos o
  unfolding req_step skip_spaces read_expiry
  expire-run few g =
      number-run Stage.spaces_before_expiry Stage.expiry r (λ v. record r { expire = v }) (time_max)
        (λ c p e. rw (digit-sp c e, e) refl)
        (λ v c p e h. rw (e, ltb-le time_max (v * 10 + (c - b'0')) h) refl) n pos rest d few g

  pub vlen-run :
      n ≤ 2 ^ 32 - 1
      → Gives s Stage.vlen (record r { vlen = n }) (pos + length (decimal n)) o
      → Gives s Stage.spaces_before_vlen r pos o
  unfolding req_step skip_spaces read_vlen
  vlen-run few g =
      number-run Stage.spaces_before_vlen Stage.vlen r (λ v. record r { vlen = v }) (2 ^ 32 - 1)
        (λ c p e. rw (digit-sp c e, e) refl)
        (λ v c p e h. rw (e, small-mod (v * 10 + (c - b'0')) (2 ^ 32) (omega (arith, h))) refl) n
        pos rest d few g

  pub cas-run :
      n ≤ 2 ^ 64 - 1
      → Gives s Stage.cas (record r { cas = n }) (pos + length (decimal n)) o
      → Gives s Stage.spaces_before_cas r pos o
  unfolding req_step skip_spaces read_cas
  cas-run few g =
      number-run Stage.spaces_before_cas Stage.cas r (λ v. record r { cas = v }) (2 ^ 64 - 1)
        (λ c p e. rw (digit-sp c e, e) refl)
        (λ v c p e h. rw (e, small-mod (v * 10 + (c - b'0')) (2 ^ 64) (omega (arith, h))) refl) n
        pos rest d few g

  pub num-run :
      n ≤ 2 ^ 64 - 1
      → Gives s Stage.num (record r { num = n }) (pos + length (decimal n)) o
      → Gives s Stage.spaces_before_num r pos o
  unfolding req_step skip_spaces read_num
  num-run few g =
      number-run Stage.spaces_before_num Stage.num r (λ v. record r { num = v }) (2 ^ 64 - 1)
        (λ c p e. rw (digit-sp c e, e) refl)
        (λ v c p e h. rw (e, small-mod (v * 10 + (c - b'0')) (2 ^ 64) (omega (arith, h))) refl) n
        pos rest d few g
