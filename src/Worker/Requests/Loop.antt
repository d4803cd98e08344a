-- ===== src/Worker/Requests/Loop.antt =====
-- The loop of handleRequest in src/worker/worker.c, against the requests of the stream.
use mathlib.Core.Path.{subst}
use wheatserver.Common.{
  ℕ, zero, suc, ◌<◌, ◌≡◌, ◌≢◌, ◌↔◌, inl, inr, refl, sym, ap, Bool, true, false, Option, none, some,
  [], ◌∷◌, length, length-take, arith,
}
use wheatserver.Slice.{Bytes, Slice, view, readable}
use wheatserver.Mbuf.{Msghdr, msg_read}
use wheatserver.Mbuf.Inv.{IsValid, stream}
use wheatserver.Mbuf.Read.{Shows, msg_read_lem}
use wheatserver.Mbuf.CanRead.{msg_can_read_lem}
use wheatserver.Worker.Requests.{
  Verdict, Serving, Outcome, finished, pending_or_new, read_one, while_can_read, request_loop,
}
use wheatserver.Worker.Requests.Stream.{waits, conn_of, Serves, all_read}
use wheatserver.Worker.Requests.Parsed.{Matches, Reaches, ReachesIn, Later, parsed-Reaches}

some_shown : (s : Slice) (h h' : Msghdr) → Shows h s h' → stream h ≢ [] → 0 < length (view s)
some_shown s h h' sh some_left = elim sh.shows_some [
  | inl some_len ↦ omega (arith, some_len, sh.readable, length-take s.len (readable s.pointer))
  | inr none_left ↦ absurd (some_left none_left)
]

module _ {P S : Type 0} (init_data : P) (parser : P → Slice → Verdict × ℕ × P) (open_conn : S → S)
    (spot_app_and_call : P → S → Bool × S) where
  abbrev loop : ℕ → Serving P → S → Outcome P S
  loop f c os = request_loop init_data parser open_conn spot_app_and_call f c os

  -- What the loop leaves of the client `c` is what its stream comes to.
  abbrev pub ServesStream : Serving P → S → Outcome P S → Type 0
  ServesStream c os out =
      Reaches init_data parser open_conn spot_app_and_call c.valid c.should_close c.pending
        (stream c.req_buf) os out

  -- Or `k` turns are not enough.
  abbrev ServesIn : ℕ → Serving P → S → Outcome P S → Type 0
  ServesIn k c os out =
      ReachesIn init_data parser open_conn spot_app_and_call k c.valid c.should_close c.pending
        (stream c.req_buf) os out

  abbrev Next : ℕ → Serving P → (Serving P → S → Outcome P S) → Type 0
  Next k c more = Later init_data parser open_conn spot_app_and_call k c.valid c.should_close more

  conn-same :
      (o : Option P) (os : S)
      → pending_or_new init_data parser open_conn spot_app_and_call o os
        ≡ conn_of init_data parser open_conn spot_app_and_call o os
  unfolding pending_or_new
  conn-same none os = refl
  conn-same (some p) os = refl

  all_read_end :
      (c : Serving P) (os : S)
      → IsValid c.req_buf
      → c.req_buf.is_set_readed_after_read ≡ true
      → stream c.req_buf ≡ []
      → ServesStream c os (finished c os)
  all_read_end c os v flag none_left = (
    waits c.pending os,
    subst
        (λ bs.
          Serves init_data parser open_conn spot_app_and_call c.pending bs os (waits c.pending os))
        (sym none_left) (all_read c.pending os),
    unfold Matches in
        (
          refl,
          record {
            pending = refl;
            all_read = none_left;
            buffer_ok = v;
            read_flag = flag;
            valid_same = refl;
            close_same = refl;
          },
        ),
  )

  is_nil : (bs : Bytes) (r : Bool) → ((r ≡ true) ↔ (bs ≢ [])) → r ≡ false → bs ≡ []
  is_nil [] r h e = refl
  is_nil (b ∷ bs) r h e = absurd (not_both (h.1 (λ k. omega (arith, ap length k))) e)
    where
      not_both : r ≡ true → r ≡ false → ⊥
      not_both k l = cc

  one_turn :
      (k : ℕ) (more : Serving P → S → Outcome P S) (c : Serving P) (os : S)
      → IsValid c.req_buf
      → c.req_buf.is_set_readed_after_read ≡ true
      → stream c.req_buf ≢ []
      → Next k c more
      → ServesIn (suc k) c os (
          read_one init_data parser open_conn spot_app_and_call more c
            (pending_or_new init_data parser open_conn spot_app_and_call c.pending os)
            (msg_read c.req_buf))
  one_turn k more c os v flag some_left ih =
      let (s, h', e, sh) = msg_read_lem c.req_buf v flag in
      let (p, os₁) = conn_of init_data parser open_conn spot_app_and_call c.pending os in
      let (w, n, q) = parser p s in
      subst
        (λ o. ServesIn (suc k) c os (
          read_one init_data parser open_conn spot_app_and_call more c
            (pending_or_new init_data parser open_conn spot_app_and_call c.pending os) o))
        (sym e)
        (subst
          (λ d.
            ServesIn (suc k) c os
              (read_one init_data parser open_conn spot_app_and_call more c d (some (s, h'))))
          (sym (conn-same c.pending os))
          (parsed-Reaches init_data parser open_conn spot_app_and_call k more
            (record c { req_buf = h' }) c.pending os c.req_buf s sh ih w n q
            (record {
              slice = s;
              rest = sh.rest;
              cut = sh.splits;
              some_shown = some_shown s c.req_buf h' sh some_left;
              result = refl;
            })
            refl))

  go_on :
      (k : ℕ) (more : Serving P → S → Outcome P S) (c : Serving P) (os : S) (r : Bool)
      → IsValid c.req_buf
      → c.req_buf.is_set_readed_after_read ≡ true
      → ((r ≡ true) ↔ (stream c.req_buf ≢ []))
      → Next k c more
      → ServesIn
          (suc k)
          c
          os
          (while_can_read init_data parser open_conn spot_app_and_call more c os (some r))
  go_on k more c os false v flag iff ih =
      inl (all_read_end c os v flag (is_nil (stream c.req_buf) false iff refl))
  go_on k more c os true v flag iff ih = one_turn k more c os v flag (iff.0 refl) ih

  loop-ServesIn :
      (f : ℕ) (c : Serving P) (os : S)
      → IsValid c.req_buf
      → c.req_buf.is_set_readed_after_read ≡ true
      → ServesIn f c os (loop f c os)
  unfolding request_loop
  loop-ServesIn zero c os v flag = inr (refl, omega arith)
  loop-ServesIn (suc f) c os v flag =
      let (r, e, iff) = msg_can_read_lem c.req_buf v in
      subst
        (λ o. ServesIn (suc f) c os (
          while_can_read init_data parser open_conn spot_app_and_call
            (request_loop init_data parser open_conn spot_app_and_call f) c os o))
        (sym e)
        (go_on f (request_loop init_data parser open_conn spot_app_and_call f) c os r v flag iff
          (λ d os₁ v₁ flag₁ valid_same close_same.
            subst
              (λ b.
                ReachesIn init_data parser open_conn spot_app_and_call f b c.should_close d.pending
                  (stream d.req_buf) os₁ (loop f d os₁))
              valid_same
              (subst
                (λ b.
                  ReachesIn init_data parser open_conn spot_app_and_call f d.valid b d.pending
                    (stream d.req_buf) os₁ (loop f d os₁))
                close_same (loop-ServesIn f d os₁ v₁ flag₁))))

  -- The loop of `handleRequest` on a valid message whose last slice was reported, with more fuel than
  -- there are bytes, for any parser and application: what it leaves is what the stream comes to when
  -- the parser is shown pieces of it, each from the byte where it stopped before, with the data of
  -- the pending request or, for the first piece of a request, those of a new connection, and when
  -- each finished request goes to its application once and in order. The loop ends when all is read,
  -- with the last unfinished request pending, when an application fails, which marks the client to
  -- be closed, or when the parser refuses, which makes it invalid; it does not end, or fails an
  -- assertion, only if the parser, on such a piece that it does not refuse, counts no byte or more
  -- bytes than it is shown.
  pub request_loop-ServesStream :
      (f : ℕ) (c : Serving P) (os : S)
      → IsValid c.req_buf
      → c.req_buf.is_set_readed_after_read ≡ true
      → length (stream c.req_buf) < f
      → ServesStream c os (loop f c os)
  request_loop-ServesStream f c os v flag enough = elim (loop-ServesIn f c os v flag) [
    | inl reached ↦ reached
    | inr (e, many) ↦ absurd (omega (arith, enough, many))
  ]
