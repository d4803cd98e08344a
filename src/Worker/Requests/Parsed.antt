-- ===== src/Worker/Requests/Parsed.antt =====
-- One turn of the loop of handleRequest in src/worker/worker.c, against the requests of the stream.
use mathlib.Core.Path.{subst}
use wheatserver.Common.{
  ℕ, zero, suc, ◌&&◌, ◌⊎◌, ◌-◌, lt-cases, ◌≤◌, ◌<◌, ◌≡◌, ◌≢◌, inl, inr, refl, sym, ap, ◌∙◌, Bool,
  true, false, Option, none, some, [], ◌++◌, length, length-append, length-take, length-drop, drop,
  leb, arith,
}
use wheatserver.Slice.{Bytes, Slice, view, readable}
use wheatserver.Mbuf.{Msghdr, has_magic, msg_set_readed}
use wheatserver.Mbuf.Inv.{IsValid, stream}
use wheatserver.Mbuf.Read.{IsShown, Shows}
use wheatserver.Mbuf.Readed.{msg_set_readed_lem}
use wheatserver.Worker.Requests.{
  Verdict, wrong, ok, continued, Serving, Outcome, finished, aborted, running, called, parsed,
}
use wheatserver.Worker.Requests.Stream.{
  End, waits, failed, refused, overcounted, idle, Turn, conn_of, Serves, refuses, overcounts, idles,
  fails, calls, goes_on,
}

-- All was read and the rest of the client is as it was; a request may be pending.
pub record IsWaiting {P : Type 0} (valid should_close : Bool) (o : Option P) (c : Serving P)
    : Type 0 where
  pub pending : c.pending ≡ o
  pub all_read : stream c.req_buf ≡ []
  pub buffer_ok : IsValid c.req_buf
  pub read_flag : c.req_buf.is_set_readed_after_read ≡ true
  pub valid_same : c.valid ≡ valid
  pub close_same : c.should_close ≡ should_close

-- What the loop leaves is what the stream comes to. An application's failure asks for the client's
-- end, and bytes that are no request make it invalid. An assertion fails just where the parser
-- counts too much, and the fuel ends first only where it counts no byte.
unfoldable pub Matches : {P S : Type 0} → Bool → Bool → Outcome P S → End P S → Type 0
Matches valid should_close aborted overcounted = Unit
Matches valid should_close running idle = Unit
Matches valid should_close (finished c os) (waits o os') =
    (os ≡ os') × IsWaiting valid should_close o c
Matches valid should_close (finished c os) (failed os') =
    (os ≡ os') × (c.should_close ≡ true) × (c.valid ≡ valid)
Matches valid should_close (finished c os) (refused os') = (os ≡ os') × (c.valid ≡ false)
Matches valid should_close o e = ⊥

fits : (n : ℕ) (s : Slice) → n ≤ length (view s) → n ≤ s.len
fits n s few = omega (arith, few, length-take s.len (readable s.pointer))

and_false : (b : Bool) → (b && false) ≡ false
and_false true = refl
and_false false = refl

-- msgSetReaded asserts that no more is reported than was shown.
msg_set_readed-none :
    (h : Msghdr) (s : Slice) (n : ℕ) → IsShown h s → s.len < n → msg_set_readed h n ≡ none
unfolding msg_set_readed
msg_set_readed-none h s n sh many =
    let b = sh.buffer in
    let len : s.len ≡ b.write_pos - b.read_pos = ap (λ (u : Slice). u.len) sh.slice in
    let past : leb n (b.write_pos - b.read_pos) ≡ false = ground (arith, many, len) in
    rw (sh.found, past, and_false (has_magic b)) refl

module _ {P S : Type 0} (init_data : P) (parser : P → Slice → Verdict × ℕ × P) (open_conn : S → S)
    (spot_app_and_call : P → S → Bool × S) where
  -- What the loop leaves, `out`, is what the stream comes to.
  abbrev pub Reaches : Bool → Bool → Option P → Bytes → S → Outcome P S → Type 0
  Reaches valid should_close o bs os out =
      (e : End P S) × Serves init_data parser open_conn spot_app_and_call o bs os e
      × Matches valid should_close out e

  -- Or `k` turns were not enough.
  abbrev pub ReachesIn : ℕ → Bool → Bool → Option P → Bytes → S → Outcome P S → Type 0
  ReachesIn k valid should_close o bs os out =
      Reaches valid should_close o bs os out ⊎ ((out ≡ running) × (k ≤ length bs))

  -- The induction hypothesis: what the loop does in `k` turns.
  abbrev pub Later : ℕ → Bool → Bool → (Serving P → S → Outcome P S) → Type 0
  Later k valid should_close more =
      (c : Serving P) (os : S)
      → IsValid c.req_buf
      → c.req_buf.is_set_readed_after_read ≡ true
      → c.valid ≡ valid
      → c.should_close ≡ should_close
      → ReachesIn k valid should_close c.pending (stream c.req_buf) os (more c os)

  abbrev pub parse : (Serving P → S → Outcome P S) → Serving P → S → Verdict × ℕ × P → Outcome P S
  parse = parsed init_data parser open_conn spot_app_and_call

  abbrev pub served_to : (Serving P → S → Outcome P S) → Serving P → Bool × S → Outcome P S
  served_to = called init_data parser open_conn spot_app_and_call

  -- The data and the rest of the world that the parser and the application start from.
  abbrev pub data_of : Option P → S → P
  data_of o os = (conn_of init_data parser open_conn spot_app_and_call o os).0

  abbrev pub world_of : Option P → S → S
  world_of o os = (conn_of init_data parser open_conn spot_app_and_call o os).1

  abbrev pub Shown : Option P → Bytes → S → Verdict → ℕ → P → Type 0
  Shown o bs os v n q = Turn init_data parser open_conn spot_app_and_call (data_of o os) bs v n q

  parsed-wrong :
      (more : Serving P → S → Outcome P S) (c : Serving P) (os : S) (n : ℕ) (p : P) (h : Msghdr)
      → msg_set_readed c.req_buf 0 ≡ some h
      → parse more c os (wrong, n, p) ≡ finished (record c { req_buf = h; valid = false }) os
  parsed-wrong more c os n p h e = rw (parsed, e) refl

  parsed-ok :
      (more : Serving P → S → Outcome P S) (c : Serving P) (os : S) (n : ℕ) (p : P) (h : Msghdr)
      → msg_set_readed c.req_buf n ≡ some h
      → parse more c os (ok, n, p)
        ≡ served_to more (record c { req_buf = h; pending = none }) (spot_app_and_call p os)
  parsed-ok more c os n p h e = rw (parsed, e) refl

  parsed-continued :
      (more : Serving P → S → Outcome P S) (c : Serving P) (os : S) (n : ℕ) (p : P) (h : Msghdr)
      → msg_set_readed c.req_buf n ≡ some h
      → parse more c os (continued, n, p) ≡ more (record c { req_buf = h; pending = some p }) os
  parsed-continued more c os n p h e = rw (parsed, e) refl

  -- What msgSetReaded leaves of the stream, if it takes some of it.
  shorter :
      (n : ℕ) (bs vs rest : Bytes)
      → bs ≡ vs ++ rest
      → 0 < n
      → n ≤ length vs
      → length (drop n bs) < length bs
  shorter n bs vs rest e h k =
      omega (arith, length-drop n bs, h, k, ap length e, length-append vs rest)

  parsed-none :
      (more : Serving P → S → Outcome P S) (c : Serving P) (os : S) (v : Verdict) (n : ℕ) (p : P)
      → v ≢ wrong
      → msg_set_readed c.req_buf n ≡ none
      → parse more c os (v, n, p) ≡ aborted
  parsed-none more c os wrong n p fine e = absurd (fine refl)
  parsed-none more c os ok n p fine e = rw (parsed, e) refl
  parsed-none more c os continued n p fine e = rw (parsed, e) refl

  -- What the turns behind this one come to, this one comes to; if they were not enough, one more is
  -- not, or this one was idle.
  wrapped :
      (k : ℕ) (valid should_close : Bool) (o o' : Option P) (os os' : S) (bs bs' : Bytes)
      (v : Verdict) (n : ℕ) (q : P) (out : Outcome P S) (t : Shown o bs os v n q)
      → v ≢ wrong
      → n ≤ length (view t.slice)
      → bs' ≡ drop n bs
      → ((end : End P S)
          → Serves init_data parser open_conn spot_app_and_call o' (drop n bs) os' end
          → Serves init_data parser open_conn spot_app_and_call o bs os end)
      → ReachesIn k valid should_close o' bs' os' out
      → ReachesIn (suc k) valid should_close o bs os out
  unfolding Matches
  wrapped k valid should_close o o' os os' bs bs' v n q out t fine few left goes
        (inl (end, serves, matches)) =
      inl (
        end,
        goes end (
            subst (λ l. Serves init_data parser open_conn spot_app_and_call o' l os' end) left
              serves),
        matches,
      )
  wrapped k valid should_close o o' os os' bs bs' v zero q out t fine few left goes
        (inr (e, many)) =
      inl (idle, idles t fine, subst (λ u. Matches valid should_close u idle) (sym e) tt)
  wrapped k valid should_close o o' os os' bs bs' v (suc n) q out t fine few left goes
        (inr (e, many)) =
      let less = shorter (suc n) bs (view t.slice) t.rest t.cut (omega arith) few in
      inr (e, omega (arith, less, many, ap length left))

  module _ (k : ℕ) (more : Serving P → S → Outcome P S) (c : Serving P) (o : Option P) (os : S)
      (h : Msghdr) (s : Slice) (sh : Shows h s c.req_buf)
      (ih : Later k c.valid c.should_close more) where
    abbrev Turns : Outcome P S → Type 0
    Turns out = ReachesIn (suc k) c.valid c.should_close o (stream h) os out

    -- The application is called, and the loop goes on unless it fails.
    after_call :
        (n : ℕ) (q : P) (h' : Msghdr) (t : Shown o (stream h) os ok n q)
        → n ≤ length (view t.slice)
        → IsValid h'
        → h'.is_set_readed_after_read ≡ true
        → stream h' ≡ drop n (stream h)
        → (r : Bool × S) → spot_app_and_call q (world_of o os) ≡ r
        → Turns (served_to more (record c { req_buf = h'; pending = none }) r)
    after_call n q h' t few valid flag left (true, os₁) e =
        wrapped k c.valid c.should_close o none os os₁ (stream h) (stream h') ok n q _ t (λ e'. cc)
          few left (λ end serves. calls t few e serves)
          (ih (record c { req_buf = h'; pending = none }) os₁ valid flag refl refl)
    after_call n q h' t few valid flag left (false, os₁) e =
        inl (failed os₁, fails t few e, unfold Matches in (refl, refl, refl))

    too_many :
        (v : Verdict) (n : ℕ) (q : P) (t : Shown o (stream h) os v n q)
        → t.slice ≡ s
        → v ≢ wrong
        → length (view t.slice) < n
        → Turns (parse more c (world_of o os) (v, n, q))
    too_many v n q t same fine many =
        let past : s.len < n = omega (
          arith,
          subst (λ u. length (view u) < n) same many,
          sh.readable,
          length-take s.len (readable s.pointer),
        ) in
        inl (
          overcounted,
          overcounts t fine many,
          subst (λ out. Matches c.valid c.should_close out overcounted)
              (sym (
                parsed-none more c (world_of o os) v n q fine
                  (msg_set_readed-none c.req_buf s n sh.is_shown past)))
              (unfold Matches in tt),
        )

    -- msgSetReaded takes what the parser counted.
    taken :
        (n : ℕ) (u : Slice)
        → u ≡ s
        → n ≤ length (view u)
        → (h' : Msghdr) × (msg_set_readed c.req_buf n ≡ some h')
          × IsValid h'
          × (stream h' ≡ drop n (stream h))
          × (h'.is_set_readed_after_read ≡ true)
    taken n u same few =
        let (h', e, valid, left, flag, _) =
          msg_set_readed_lem c.req_buf s n sh.valid sh.is_shown sh.flag
            (fits n s (subst (λ u. n ≤ length (view u)) same few)) in
        (h', e, valid, left ∙ ap (drop n) sh.stream_same, flag)

    -- What comes after the parser has returned.
    pub parsed-Reaches :
        (v : Verdict) (n : ℕ) (q : P)
        → (t : Shown o (stream h) os v n q) → t.slice ≡ s
        → Turns (parse more c (world_of o os) (v, n, q))
    parsed-Reaches wrong n q t same =
        let (h', e, valid, left, flag) = taken 0 s refl (omega arith) in
        inl (
          refused (world_of o os),
          refuses t,
          subst (λ out. Matches c.valid c.should_close out (refused (world_of o os)))
              (sym (parsed-wrong more c (world_of o os) n q h' e)) (unfold Matches in (refl, refl)),
        )
    parsed-Reaches ok n q t same = elim (lt-cases (length (view t.slice)) n) [
      | inr few ↦
          let (h', e, valid, left, flag) = taken n t.slice same few in
          subst Turns (sym (parsed-ok more c (world_of o os) n q h' e))
            (after_call n q h' t few valid flag left (spot_app_and_call q (world_of o os)) refl)
      | inl many ↦ too_many ok n q t same (λ e. cc) many
    ]
    parsed-Reaches continued n q t same = elim (lt-cases (length (view t.slice)) n) [
      | inr few ↦
          let (h', e, valid, left, flag) = taken n t.slice same few in
          subst Turns (sym (parsed-continued more c (world_of o os) n q h' e)) (
            wrapped k c.valid c.should_close o (some q) os (world_of o os) (stream h) (stream h')
              continued n q _ t (λ e'. cc) few left (λ end serves. goes_on t few serves)
              (ih (record c { req_buf = h'; pending = some q }) (world_of o os) valid flag refl
                refl))
      | inl many ↦ too_many continued n q t same (λ e. cc) many
    ]
