-- ===== src/Memcache/Falls.antt =====
-- Each step of the parser of src/protocol/memcache/proto_memcache.c moves on, or stays on its byte
-- only for a step that does not.
use wheatserver.Common.{
  ℕ, ◌+◌, ◌-◌, ◌*◌, ◌≤◌, ◌<◌, ◌≡◌, refl, Bool, true, false, ◌||◌, Option, none, some, [], ◌∷◌, ◌++◌,
  ltb, ◌==◌, if◌then◌else◌, length, arith, ==_iff,
}
use wheatserver.Slice.{Bytes}
use wheatserver.Number.{is_digit}
use wheatserver.Redis.Request.{cr, lf}
use wheatserver.Redis.Table.{icmp}
use wheatserver.Memcache.Data.{
  Command, Stage, MemcacheProcData, memcache_storage, memcache_cas, memcache_retrieval,
  memcache_arithmetic,
}
use wheatserver.Memcache.Request.{
  Step, sp, is_lower, ends_token, token, after_type, end_type, on_token, end_noreply, read_type,
  read_key, end_key, after_key, open_token, read_keys, skip_spaces, read_flags, read_expiry,
  read_vlen, read_cas, read_num, read_val, runto_crlf, read_noreply, after_noreply, takes_noreply,
  noreply_text, max_key_length, time_max,
}
use wheatserver.Memcache.Loop.{req_step}

-- How often the body can run on one byte before it moves on.
abbrev pub rank : Stage → ℕ → ℕ
rank Stage.req_type ch = 1
rank Stage.spaces_before_key ch = 2
rank Stage.key ch = if ch == cr then 1 else 0
rank Stage.spaces_before_keys ch = if ch == cr then 0 else 1
rank Stage.vlen ch = 1
rank Stage.cas ch = 1
rank Stage.num ch = 1
rank Stage.noreply ch = 1
rank state ch = 0

pub rank-le : (state : Stage) (ch : ℕ) → rank state ch ≤ 2
rank-le Stage.key ch = ground arith
rank-le Stage.spaces_before_keys ch = ground arith
rank-le state ch = omega arith

-- The body moves on, or stays with a lower rank.
abbrev pub Falls : Stage → ℕ → ℕ → Step → Type 0
Falls state pos ch (Step.next state' r pos') = 3 * pos + rank state' ch < 3 * pos' + rank state ch
Falls state pos ch s = Unit

module _ (state : Stage) (pos ch : ℕ) where
  Falls-if :
      (b : Bool) (x y : Step)
      → (b ≡ true → Falls state pos ch x)
      → (b ≡ false → Falls state pos ch y)
      → Falls state pos ch (if b then x else y)
  Falls-if true x y p q = p refl
  Falls-if false x y p q = q refl

  -- Moving on by a byte.
  on : (state' : Stage) (r : MemcacheProcData) → Falls state pos ch (Step.next state' r (pos + 1))
  on state' r = omega (arith, rank-le state' ch)

after_type-Falls :
    (c : Command) (r : MemcacheProcData) (pos ch : ℕ)
    → Falls Stage.req_type pos ch (after_type c r ch pos)
unfolding after_type
after_type-Falls Command.unknown r pos ch = tt
after_type-Falls Command.quit r pos ch = omega arith
after_type-Falls c r pos ch =
    Falls-if Stage.req_type pos ch (ch == cr) _ _ (λ _. tt) (λ _. omega arith)

end_type-Falls :
    (t : Option ℕ) (command : Bytes) (r : MemcacheProcData) (s : Bytes) (pos ch : ℕ)
    → Falls Stage.req_type pos ch (end_type t command r s pos ch)
unfolding end_type
end_type-Falls none command r s pos ch = tt
end_type-Falls (some t) [] r s pos ch = after_type-Falls _ _ pos ch
end_type-Falls (some t) (c ∷ cs) r s pos ch = after_type-Falls _ _ pos ch

read_type-Falls :
    (r : MemcacheProcData) (s : Bytes) (pos ch : ℕ)
    → Falls Stage.req_type pos ch (read_type r s pos ch)
unfolding read_type
read_type-Falls r s pos ch =
    Falls-if Stage.req_type pos ch (ends_token ch) _ _
      (λ _. end_type-Falls r.token_pos r.command r s pos ch)
      (λ _. Falls-if Stage.req_type pos ch (is_lower ch) _ _ (λ _. omega arith) (λ _. tt))

on_token-Falls :
    (state : Stage) (pos ch : ℕ) (t : Option Bytes) (use_token : Bytes → Step)
    → ((k : Bytes) → Falls state pos ch (use_token k))
    → Falls state pos ch (on_token t use_token)
on_token-Falls state pos ch none use_token h = tt
on_token-Falls state pos ch (some k) use_token h = h k

-- What follows a key that `\r` ends does not stay.
after_key-rank :
    (c : Command)
    → (memcache_storage c || memcache_arithmetic c) ≡ false
    → rank (after_key c cr) cr ≡ 0
unfolding after_key
after_key-rank Command.set h = cc
after_key-rank Command.cas h = cc
after_key-rank Command.add h = cc
after_key-rank Command.replace h = cc
after_key-rank Command.append h = cc
after_key-rank Command.prepend h = cc
after_key-rank Command.incr h = cc
after_key-rank Command.decr h = cc
after_key-rank c h = refl

end_key-Falls :
    (r : MemcacheProcData) (k : Bytes) (pos ch : ℕ) → Falls Stage.key pos ch (end_key r k pos ch)
unfolding end_key
end_key-Falls r k pos ch =
    let text = r.key ++ k in
    Falls-if Stage.key pos ch (ltb max_key_length (length text)) _ _ (λ _. tt)
      (λ _.
        Falls-if Stage.key pos ch (ch == cr) _ _
          (λ e.
            let here : ch ≡ cr = (==_iff ch cr).0 e in
            Falls-if Stage.key pos ch (memcache_storage r.kind || memcache_arithmetic r.kind) _ _
              (λ _. tt) (λ n. rw here (omega (arith, after_key-rank r.kind n))))
          (λ _. omega (arith, rank-le (after_key r.kind ch) ch)))

read_key-Falls :
    (r : MemcacheProcData) (s : Bytes) (pos ch : ℕ) → Falls Stage.key pos ch (read_key r s pos ch)
unfolding read_key
read_key-Falls r s pos ch =
    let r' = open_token r r.token_pos pos in
    Falls-if Stage.key pos ch (ends_token ch) _ _
      (λ _. on_token-Falls Stage.key pos ch (token r' s pos) _ (λ k. end_key-Falls r' k pos ch))
      (λ _. omega (arith, rank-le Stage.key ch))

read_keys-Falls :
    (r : MemcacheProcData) (pos ch : ℕ) → Falls Stage.spaces_before_keys pos ch (read_keys r pos ch)
unfolding read_keys
read_keys-Falls r pos ch =
    let st = Stage.spaces_before_keys in
    Falls-if st pos ch (memcache_retrieval r.kind) _ _
      (λ _.
        Falls-if st pos ch (ch == sp) _ _ (λ _. omega (arith, rank-le st ch))
          (λ _. Falls-if st pos ch (ch == cr) _ _ (λ _. omega arith) (λ e. rw e (omega arith))))
      (λ _. tt)

skip_spaces-Falls :
    (here there : Stage) (put : ℕ → MemcacheProcData) (r : MemcacheProcData) (pos ch : ℕ)
    → Falls here pos ch (skip_spaces here there put r pos ch)
unfolding skip_spaces
skip_spaces-Falls here there put r pos ch =
    Falls-if here pos ch (ch == sp) _ _ (λ _. on here pos ch here r)
      (λ _.
        Falls-if here pos ch (is_digit ch) _ _ (λ _. on here pos ch there (put (ch - b'0')))
          (λ _. tt))

read_flags-Falls :
    (r : MemcacheProcData) (pos ch : ℕ) → Falls Stage.flags pos ch (read_flags r pos ch)
unfolding read_flags
read_flags-Falls r pos ch =
    Falls-if Stage.flags pos ch (is_digit ch) _ _ (λ _. omega arith)
      (λ _. Falls-if Stage.flags pos ch (ch == sp) _ _ (λ _. omega arith) (λ _. tt))

read_expiry-Falls :
    (r : MemcacheProcData) (pos ch : ℕ) → Falls Stage.expiry pos ch (read_expiry r pos ch)
unfolding read_expiry
read_expiry-Falls r pos ch =
    Falls-if Stage.expiry pos ch (is_digit ch) _ _
      (λ _.
        Falls-if Stage.expiry pos ch (ltb time_max (r.expire * 10 + (ch - b'0'))) _ _ (λ _. tt)
          (λ _. omega arith))
      (λ _. Falls-if Stage.expiry pos ch (ch == sp) _ _ (λ _. omega arith) (λ _. tt))

read_vlen-Falls : (r : MemcacheProcData) (pos ch : ℕ) → Falls Stage.vlen pos ch (read_vlen r pos ch)
unfolding read_vlen
read_vlen-Falls r pos ch =
    Falls-if Stage.vlen pos ch (is_digit ch) _ _ (λ _. omega arith)
      (λ _.
        Falls-if Stage.vlen pos ch (memcache_cas r.kind) _ _
          (λ _. Falls-if Stage.vlen pos ch (ch == sp) _ _ (λ _. omega arith) (λ _. tt))
          (λ _. Falls-if Stage.vlen pos ch (ends_token ch) _ _ (λ _. omega arith) (λ _. tt)))

read_cas-Falls : (r : MemcacheProcData) (pos ch : ℕ) → Falls Stage.cas pos ch (read_cas r pos ch)
unfolding read_cas
read_cas-Falls r pos ch =
    Falls-if Stage.cas pos ch (is_digit ch) _ _ (λ _. omega arith)
      (λ _. Falls-if Stage.cas pos ch (ends_token ch) _ _ (λ _. omega arith) (λ _. tt))

read_num-Falls : (r : MemcacheProcData) (pos ch : ℕ) → Falls Stage.num pos ch (read_num r pos ch)
unfolding read_num
read_num-Falls r pos ch =
    Falls-if Stage.num pos ch (is_digit ch) _ _ (λ _. omega arith)
      (λ _. Falls-if Stage.num pos ch (ends_token ch) _ _ (λ _. omega arith) (λ _. tt))

-- There is a byte at `pos`, so that some of the value is taken.
read_val-Falls :
    (r : MemcacheProcData) (s : Bytes) (pos ch : ℕ)
    → pos < length s
    → Falls Stage.val pos ch (read_val r s pos ch)
unfolding read_val
read_val-Falls r s pos ch h =
    Falls-if Stage.val pos ch (r.vlen_left == 0) _ _
      (λ _. Falls-if Stage.val pos ch (ch == cr) _ _ (λ _. omega arith) (λ _. tt))
      (λ e. ground arith)

runto_crlf-Falls :
    (r : MemcacheProcData) (pos ch : ℕ) → Falls Stage.runto_crlf pos ch (runto_crlf r pos ch)
unfolding runto_crlf
runto_crlf-Falls r pos ch =
    let st = Stage.runto_crlf in
    Falls-if st pos ch (ch == sp) _ _ (λ _. omega arith)
      (λ _.
        Falls-if st pos ch (ch == b'n') _ _
          (λ _. Falls-if st pos ch (takes_noreply r.kind) _ _ (λ _. omega arith) (λ _. tt))
          (λ _. Falls-if st pos ch (ch == cr) _ _ (λ _. on st pos ch _ r) (λ _. tt)))

end_noreply-Falls :
    (r : MemcacheProcData) (t : Bytes) (pos ch : ℕ)
    → Falls Stage.noreply pos ch (end_noreply r t pos)
unfolding end_noreply
end_noreply-Falls r t pos ch =
    Falls-if Stage.noreply pos ch (icmp (r.noreply_banner ++ t) noreply_text) _ _
      (λ _. Falls-if Stage.noreply pos ch (takes_noreply r.kind) _ _ (λ _. omega arith) (λ _. tt))
      (λ _. tt)

read_noreply-Falls :
    (r : MemcacheProcData) (s : Bytes) (pos ch : ℕ)
    → Falls Stage.noreply pos ch (read_noreply r s pos ch)
unfolding read_noreply
read_noreply-Falls r s pos ch =
    Falls-if Stage.noreply pos ch (ends_token ch) _ _
      (λ _.
        on_token-Falls Stage.noreply pos ch (token r s pos) _ (λ t. end_noreply-Falls r t pos ch))
      (λ _. omega arith)

after_noreply-Falls :
    (r : MemcacheProcData) (pos ch : ℕ) → Falls Stage.after_noreply pos ch (after_noreply r pos ch)
unfolding after_noreply
after_noreply-Falls r pos ch =
    let st = Stage.after_noreply in
    Falls-if st pos ch (ch == sp) _ _ (λ _. omega arith)
      (λ _. Falls-if st pos ch (ch == cr) _ _ (λ _. on st pos ch _ r) (λ _. tt))

pub step-Falls :
    (state : Stage) (r : MemcacheProcData) (s : Bytes) (pos ch : ℕ)
    → pos < length s
    → Falls state pos ch (req_step state r s pos ch)
unfolding req_step
step-Falls Stage.start r s pos ch h =
    Falls-if Stage.start pos ch (is_lower ch) _ _ (λ _. omega arith) (λ _. tt)
step-Falls Stage.req_type r s pos ch h = read_type-Falls r s pos ch
step-Falls Stage.spaces_before_key r s pos ch h =
    let st = Stage.spaces_before_key in
    Falls-if st pos ch (ch == sp) _ _ (λ _. omega arith) (λ _. ground arith)
step-Falls Stage.key r s pos ch h = read_key-Falls r s pos ch
step-Falls Stage.spaces_before_keys r s pos ch h = read_keys-Falls r pos ch
step-Falls Stage.spaces_before_flags r s pos ch h =
    skip_spaces-Falls Stage.spaces_before_flags Stage.flags (λ d. record r { flag = d }) r pos ch
step-Falls Stage.flags r s pos ch h = read_flags-Falls r pos ch
step-Falls Stage.spaces_before_expiry r s pos ch h =
    skip_spaces-Falls Stage.spaces_before_expiry Stage.expiry (λ d. record r { expire = d }) r pos
      ch
step-Falls Stage.expiry r s pos ch h = read_expiry-Falls r pos ch
step-Falls Stage.spaces_before_vlen r s pos ch h =
    skip_spaces-Falls Stage.spaces_before_vlen Stage.vlen (λ d. record r { vlen = d }) r pos ch
step-Falls Stage.vlen r s pos ch h = read_vlen-Falls r pos ch
step-Falls Stage.spaces_before_cas r s pos ch h =
    skip_spaces-Falls Stage.spaces_before_cas Stage.cas (λ d. record r { cas = d }) r pos ch
step-Falls Stage.cas r s pos ch h = read_cas-Falls r pos ch
step-Falls Stage.runto_val r s pos ch h =
    Falls-if Stage.runto_val pos ch (ch == lf) _ _ (λ _. omega arith) (λ _. tt)
step-Falls Stage.val r s pos ch h = read_val-Falls r s pos ch h
step-Falls Stage.spaces_before_num r s pos ch h =
    skip_spaces-Falls Stage.spaces_before_num Stage.num (λ d. record r { num = d }) r pos ch
step-Falls Stage.num r s pos ch h = read_num-Falls r pos ch
step-Falls Stage.runto_crlf r s pos ch h = runto_crlf-Falls r pos ch
step-Falls Stage.crlf r s pos ch h =
    let st = Stage.crlf in
    Falls-if st pos ch (ch == sp) _ _ (λ _. omega arith)
      (λ _. Falls-if st pos ch (ch == cr) _ _ (λ _. omega arith) (λ _. tt))
step-Falls Stage.noreply r s pos ch h = read_noreply-Falls r s pos ch
step-Falls Stage.after_noreply r s pos ch h = after_noreply-Falls r pos ch
step-Falls Stage.almost_done r s pos ch h =
    Falls-if Stage.almost_done pos ch (ch == lf) _ _ (λ _. tt) (λ _. tt)
step-Falls Stage.done r s pos ch h = tt
step-Falls Stage.sentinel r s pos ch h = tt
