-- ===== src/Redis/Handle.antt =====
-- What `redisCommandHandle` of src/protocol/redis/proto_redis.c recognises.
use mathlib.Core.Path.{ap₂}
use Prim.Native.Nat.{bit_xor}
use wheatserver.Common.{
  ℕ, suc, ◌+◌, ◌≡◌, ◌≢◌, ◌↔◌, refl, sym, ap, ◌∙◌, Bool, true, false, ◌&&◌, ◌||◌, List, [], ◌∷◌,
  ◌==◌, ==_iff, leb, if◌then◌else◌, length, arith, Bool-cases, inl, inr,
}
use wheatserver.Slice.{Bytes}
use wheatserver.Redis.Command.{Command}
use wheatserver.Redis.Table.{Row, Case, cases, icmp, tests, switch, command_handle}
use wheatserver.Redis.Names.{name, command_handle-name}

-- The byte with a capital letter made small.
abbrev pub lower : ℕ → ℕ
lower c = if leb b'A' c && leb c b'Z' then c + 32 else c

abbrev pub lowers : Bytes → Bytes
lowers [] = []
lowers (c ∷ cs) = lower c ∷ lowers cs

bytes_eq : Bytes → Bytes → Bool
bytes_eq [] [] = true
bytes_eq [] (y ∷ ys) = false
bytes_eq (x ∷ xs) [] = false
bytes_eq (x ∷ xs) (y ∷ ys) = (x == y) && bytes_eq xs ys

is_small : ℕ → Bool
is_small c = leb b'a' c && leb c b'z' && (bit_xor c 0x20 + 32 == c)

all_small : Bytes → Bool
all_small [] = true
all_small (c ∷ cs) = is_small c && all_small cs

-- A test compares with n small letters, which are the command's name.
good_row : ℕ → Row → Bool
good_row n r = (length r.word == n) && (all_small r.word && bytes_eq r.word (name r.command))

good_rows : ℕ → List Row → Bool
good_rows n [] = true
good_rows n (r ∷ rs) = good_row n r && good_rows n rs

good_cases : List Case → Bool
good_cases [] = true
good_cases (c ∷ cs) = good_rows c.size c.rows && good_cases cs

cases_good : good_cases cases ≡ true
unfolding good_cases good_rows good_row bytes_eq all_small is_small name
cases_good = refl

and_left : (a b : Bool) → (a && b) ≡ true → a ≡ true
and_left true b h = refl
and_left false b h = h

and_right : (a b : Bool) → (a && b) ≡ true → b ≡ true
and_right true b h = h
and_right false b h = cc

switch_good : (n : ℕ) (cs : List Case) → good_cases cs ≡ true → good_rows n (switch n cs) ≡ true
unfolding switch good_cases
switch_good n [] h = unfold good_rows in refl
switch_good n (c ∷ cs) h = elim (Bool-cases (n == c.size)) [
  | inl e ↦ rw e (ap (λ k. good_rows k c.rows) ((==_iff n c.size).0 e) ∙ and_left _ _ h)
  | inr e ↦ rw e (switch_good n cs (and_right (good_rows c.size c.rows) _ h))
]

bytes_eq-true : (xs ys : Bytes) → bytes_eq xs ys ≡ true → xs ≡ ys
unfolding bytes_eq
bytes_eq-true [] [] h = refl
bytes_eq-true [] (y ∷ ys) h = cc
bytes_eq-true (x ∷ xs) [] h = cc
bytes_eq-true (x ∷ xs) (y ∷ ys) h =
    ap₂ ◌∷◌ ((==_iff x y).0 (and_left _ _ h)) (bytes_eq-true xs ys (and_right (x == y) _ h))

same_letter :
    (m c y : ℕ)
    → (leb b'a' c && leb c b'z' && (y + 32 == c)) ≡ true
    → (m == c || m == y) ≡ (lower m == c)
same_letter m c y h = ground arith

other_letter :
    (m c y : ℕ)
    → (leb b'a' c && leb c b'z' && (y + 32 == c)) ≡ true
    → (lower m == c || lower m == y) ≡ (m == c || m == y)
other_letter m c y h = ground arith

-- On bytes with capitals made small, the comparison gives the same answer.
icmp-lowers : (m cs : Bytes) → all_small cs ≡ true → icmp (lowers m) cs ≡ icmp m cs
unfolding all_small is_small
icmp-lowers m [] h = refl
icmp-lowers [] (c ∷ cs) h = refl
icmp-lowers (m ∷ ms) (c ∷ cs) h =
    ap₂ (λ a b. a && b) (other_letter m c (bit_xor c 0x20) (and_left _ _ h))
      (icmp-lowers ms cs (and_right (is_small c) _ h))

-- A comparison with as many small letters says yes on just these.
icmp-true :
    (m cs : Bytes) → all_small cs ≡ true → length m ≡ length cs → icmp m cs ≡ true → lowers m ≡ cs
unfolding all_small is_small
icmp-true [] [] h l e = refl
icmp-true [] (c ∷ cs) h l e = cc
icmp-true (m ∷ ms) [] h l e = absurd (omega (arith, l))
icmp-true (m ∷ ms) (c ∷ cs) h l e =
    ap₂ ◌∷◌
      ((==_iff (lower m) c).0
        (sym (same_letter m c (bit_xor c 0x20) (and_left _ _ h)) ∙ and_left _ _ e))
      (icmp-true ms cs (and_right (is_small c) _ h) (omega (arith, l))
        (and_right (m == c || m == bit_xor c 0x20) _ e))

length-lowers : (m : Bytes) → length (lowers m) ≡ length m
length-lowers [] = refl
length-lowers (m ∷ ms) = ap suc (length-lowers ms)

-- What a good test is good for.
row_parts :
    (n : ℕ) (r : Row)
    → good_row n r ≡ true
    → (length r.word ≡ n) × (all_small r.word ≡ true) × (r.word ≡ name r.command)
unfolding good_row
row_parts n r h =
    let b = all_small r.word in
    let c = bytes_eq r.word (name r.command) in
    let rest = and_right (length r.word == n) (b && c) h in
    (
      (==_iff (length r.word) n).0 (and_left (length r.word == n) (b && c) h),
      and_left b c rest,
      bytes_eq-true r.word (name r.command) (and_right b c rest),
    )

tests-lowers :
    (n : ℕ) (m : Bytes) (rs : List Row) → good_rows n rs ≡ true → tests (lowers m) rs ≡ tests m rs
unfolding tests good_rows
tests-lowers n m [] h = refl
tests-lowers n m (r ∷ rs) h =
    let (l, small, _) = row_parts n r (and_left _ _ h) in
    rw (icmp-lowers m r.word small, tests-lowers n m rs (and_right (good_row n r) _ h))

-- The case of the letters does not matter.
command_handle-lowers : (m : Bytes) → command_handle (lowers m) ≡ command_handle m
unfolding command_handle
command_handle-lowers m =
    rw (length-lowers m) (
      tests-lowers (length m) m (switch (length m) cases) (switch_good (length m) cases cases_good))

tests_sound :
    (m : Bytes) (rs : List Row) (k : Command)
    → good_rows (length m) rs ≡ true
    → tests m rs ≡ k
    → k ≢ Command.unknown
    → lowers m ≡ name k
unfolding tests good_rows
tests_sound m [] k h e u = absurd (u (sym e))
tests_sound m (r ∷ rs) k h e u = elim (Bool-cases (icmp m r.word)) [
  | inl y ↦
      let (l, small, named) = row_parts (length m) r (and_left _ _ h) in
      icmp-true m r.word small (sym l) y ∙ named ∙ ap name (rw y at e)
  | inr y ↦ tests_sound m rs k (and_right (good_row (length m) r) _ h) (rw y at e) u
]

-- `redisCommandHandle` recognises exactly the names of the commands, written in letters of either
-- case: for every command but `unknown`, it returns that command on a text if and only if the
-- text, with its capitals made small, is the command's name.
pub command_handle_lem :
    (m : Bytes) (k : Command) → k ≢ Command.unknown → (command_handle m ≡ k) ↔ (lowers m ≡ name k)
command_handle_lem m k u = (sound, complete)
  where
    sound : command_handle m ≡ k → lowers m ≡ name k
    sound e =
        tests_sound m (switch (length m) cases) k (switch_good (length m) cases cases_good)
          (unfold command_handle in e) u

    complete : lowers m ≡ name k → command_handle m ≡ k
    complete e = sym (command_handle-lowers m) ∙ ap command_handle e ∙ command_handle-name k
