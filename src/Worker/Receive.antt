-- ===== src/Worker/Receive.antt =====
-- What the receiving loop of src/worker/worker_async.c does to a client's message.
use mathlib.Core.Path.{subst}
use mathlib.Core.Option.{some-injective}
use wheatserver.Common.{
  ℕ, zero, suc, ◌+◌, ◌^◌, ◌≤◌, ◌<◌, ◌≡◌, inl, inr, refl, ap, sym, ◌∙◌, Bool, true, Option, none,
  some, [], ◌∷◌, ◌++◌, ◌==◌, if◌then◌else◌, length, arith, append_assoc, append-nil, length-append,
  Bool-cases, ==_iff,
}
use wheatserver.Slice.{Bytes}
use wheatserver.Mbuf.{Msghdr, Window, msg_put}
use wheatserver.Mbuf.Inv.{IsValid, stream}
use wheatserver.Mbuf.Write.{msg_set_writted-fill}
use wheatserver.Mbuf.Put.{msg_put_lem, msg_put-no_memory, Opened}
use wheatserver.Worker.{Answer, read_bulk_from, Outcome, stored, opened, recv_loop}

-- What read() does to what the peer sends and is not read yet: it takes some bytes from its front,
-- and no more than it is asked for; where it takes none, all stay. What an error leaves is not said.
unfoldable pub Gives : Answer → ℕ → Bytes → Bytes → Type 0
Gives (Answer.received got) n before after = (length got ≤ n) × (before ≡ got ++ after)
Gives Answer.again n before after = before ≡ after
Gives Answer.broken n before after = Unit

-- What is received: some first bytes of what the peer sends are appended to the stream, and counted;
-- the message is valid, and ready for `msgPut` just if the client is still valid.
pub record Received (sent : Bytes) (h : Msghdr) (total : ℕ) (h' : Msghdr) (total' : ℕ)
    (valid : Bool) : Type 0 where
  pub bytes : Bytes
  pub unread : Bytes
  pub from_peer : sent ≡ bytes ++ unread
  pub appended : stream h' ≡ stream h ++ bytes
  pub counted : total' ≡ total + length bytes
  pub is_valid : IsValid h'
  pub put_flag : h'.is_set_writted_after_put ≡ valid
  pub read_flag : h'.is_set_readed_after_read ≡ h.is_set_readed_after_read

-- The loop ends, no assertion fails, and what is left is as `Received` says.
pub IsSafe : {S : Type 0} → Bytes → Msghdr → ℕ → Outcome S → Type 0
IsSafe sent h total (Outcome.finished h' total' valid os) = Received sent h total h' total' valid
IsSafe sent h total Outcome.aborted = ⊥
IsSafe sent h total Outcome.running = ⊥

then-Received :
    {sent sent₁ : Bytes} {h h₁ h₂ : Msghdr} {m n k : ℕ} {valid : Bool} (bytes : Bytes)
    → sent ≡ bytes ++ sent₁
    → stream h₁ ≡ stream h ++ bytes
    → n ≡ m + length bytes
    → h₁.is_set_readed_after_read ≡ h.is_set_readed_after_read
    → Received sent₁ h₁ n h₂ k valid
    → Received sent h m h₂ k valid
then-Received {h} bytes t s e q r = record {
  bytes = bytes ++ r.bytes;
  unread = r.unread;
  from_peer = t ∙ ap (λ l. bytes ++ l) r.from_peer ∙ sym (append_assoc bytes r.bytes r.unread);
  appended = r.appended ∙ ap (λ l. l ++ r.bytes) s ∙ append_assoc (stream h) bytes r.bytes;
  counted = omega (arith, r.counted, e, length-append bytes r.bytes);
  is_valid = r.is_valid;
  put_flag = r.put_flag;
  read_flag = r.read_flag ∙ q;
}

then-IsSafe :
    {S : Type 0} (sent sent₁ : Bytes) (h h₁ : Msghdr) (m n : ℕ) (o : Outcome S) (bytes : Bytes)
    → sent ≡ bytes ++ sent₁
    → stream h₁ ≡ stream h ++ bytes
    → n ≡ m + length bytes
    → h₁.is_set_readed_after_read ≡ h.is_set_readed_after_read
    → IsSafe sent₁ h₁ n o
    → IsSafe sent h m o
unfolding IsSafe
then-IsSafe sent sent₁ h h₁ m n (Outcome.finished h' total' valid os) bytes t s e q r =
    then-Received bytes t s e q r
then-IsSafe sent sent₁ h h₁ m n Outcome.aborted bytes t s e q r = r
then-IsSafe sent sent₁ h h₁ m n Outcome.running bytes t s e q r = r

-- readBulkFrom passes on what read() takes.
taken_bytes :
    (a : Answer) (n : ℕ) (bs before after : Bytes)
    → Gives a n before after
    → read_bulk_from a ≡ some bs
    → (length bs ≤ n) × (before ≡ bs ++ after)
unfolding read_bulk_from Gives
taken_bytes (Answer.received []) n bs before after g e = cc
taken_bytes (Answer.received (b ∷ got)) n bs before after g e =
    subst (λ l. (length l ≤ n) × (before ≡ l ++ after)) (some-injective _ _ e) g
taken_bytes Answer.again n bs before after g e =
    subst (λ l. (length l ≤ n) × (before ≡ l ++ after)) (some-injective _ _ e) (omega arith, g)
taken_bytes Answer.broken n bs before after g e = cc

module _ {S : Type 0} (junk : ℕ → ℕ) (read : ℕ → S → Answer × S) (memory : S → Bool)
    (incoming : S → Bytes)
    (gives : (n : ℕ) (os : S) → Gives (read n os).0 n (incoming os) (incoming (read n os).1)) where
  -- readBulkFrom gave as many bytes as there is room for.
  abbrev Filled : Window → Option Bytes → Type 0
  Filled w got = (bs : Bytes) × (got ≡ some bs) × (length bs ≡ w.len)

  stored-IsSafe :
      (more : Msghdr → ℕ → S → Outcome S) (w : Window) (h h₁ : Msghdr) (total : ℕ) (os : S)
      (got : Option Bytes) (sent : Bytes)
      → Opened junk h w h₁
      → ((bs : Bytes) → got ≡ some bs → (length bs ≤ w.len) × (sent ≡ bs ++ incoming os))
      → ((h₂ : Msghdr) (n : ℕ)
          → Filled w got
          → IsValid h₂
          → h₂.is_set_writted_after_put ≡ true
          → h₂.mbuf_len ≤ h.mbuf_len + 1
          → IsSafe (incoming os) h₂ n (more h₂ n os))
      → IsSafe sent h total (stored junk read memory more w h₁ total os got)
  unfolding IsSafe
  stored-IsSafe more w h h₁ total os none sent o takes ih = record {
    bytes = [];
    unread = sent;
    from_peer = refl;
    appended = o.stream_same ∙ sym (append-nil (stream h));
    counted = omega arith;
    is_valid = o.valid;
    put_flag = o.flag;
    read_flag = o.other_flag;
  }
  stored-IsSafe more w h h₁ total os (some bs) sent o takes ih =
      let (few, front) = takes bs refl in
      let (filled, done, e, e', v, grown, p, q, k) =
        msg_set_writted-fill h₁ w bs o.valid o.open_window o.flag few in
      rw (stored, e, e')
        (then-IsSafe sent (incoming os) h done total (total + length bs) _ bs front
          (grown ∙ ap (λ l. l ++ bs) o.stream_same) refl (q ∙ o.other_flag)
          (turn done v p (omega (arith, k, o.few_more))))
    where
      turn :
          (done : Msghdr)
          → IsValid done
          → done.is_set_writted_after_put ≡ true
          → done.mbuf_len ≤ h.mbuf_len + 1
          → IsSafe (incoming os) done (total + length bs) (
              if length bs == w.len
              then more done (total + length bs) os
              else Outcome.finished done (total + length bs) true os)
      turn done v p k = elim (Bool-cases (length bs == w.len)) [
        | inl full ↦ rw full (ih done (total + length bs) (bs, refl, (==_iff _ _).0 full) v p k)
        | inr short ↦ rw short (record {
          bytes = [];
          unread = incoming os;
          from_peer = refl;
          appended = sym (append-nil (stream done));
          counted = omega arith;
          is_valid = v;
          put_flag = p;
          read_flag = refl;
        })
      ]

  nothing :
      (h : Msghdr) (total : ℕ) (os : S)
      → IsValid h
      → h.is_set_writted_after_put ≡ true
      → IsSafe (incoming os) h total (Outcome.finished h total true os)
  unfolding IsSafe
  nothing h total os v flag = record {
    bytes = [];
    unread = incoming os;
    from_peer = refl;
    appended = sym (append-nil (stream h));
    counted = omega arith;
    is_valid = v;
    put_flag = flag;
    read_flag = refl;
  }

  -- The loop of `asyncRecvData` on a valid message whose last window was reported, if what the peer
  -- sends until the next EAGAIN, end of file or error is finite (`incoming`), if read() takes it from
  -- the front and no more than it is asked for, with more fuel than it has bytes and with fewer
  -- buffers than a `size_t` counts: the loop ends, no assertion fails, the stream only grows at its
  -- end, by first bytes of what the peer sends, as many as are added to `total`, the message stays
  -- valid, and it is ready for `msgPut` just if the client is still valid.
  pub recv_loop-IsSafe :
      (f : ℕ) (h : Msghdr) (total : ℕ) (os : S)
      → IsValid h
      → h.is_set_writted_after_put ≡ true
      → length (incoming os) < f
      → h.mbuf_len + f < 2 ^ 64
      → IsSafe (incoming os) h total (recv_loop junk read memory f h total os)
  unfolding recv_loop
  recv_loop-IsSafe zero h total os v flag enough few = absurd (omega (arith, enough))
  recv_loop-IsSafe (suc f) h total os v flag enough few =
      let (w, h₁, e, o) = msg_put_lem junk h v flag (omega (arith, few)) in
      let (answer, os₁) = read w.len os in
      let more : Msghdr → ℕ → S → Outcome S = λ h n os. recv_loop junk read memory f h n os in
      let safe : Option (Option Window × Msghdr) → Type 0 =
        λ p. IsSafe (incoming os) h total (opened junk read memory more total os p) in
      let with_window : safe (some (some w, h₁)) =
        stored-IsSafe more w h h₁ total os₁ (read_bulk_from answer) (incoming os) o
          (λ bs got. taken_bytes answer w.len bs (incoming os) (incoming os₁) (gives w.len os) got)
          (λ h₂ n (bs, got, full) v₂ flag₂ len.
            let (_, front) =
              taken_bytes answer w.len bs (incoming os) (incoming os₁) (gives w.len os) got in
            recv_loop-IsSafe f h₂ n os₁ v₂ flag₂
              (omega (
                arith,
                ap length front,
                length-append bs (incoming os₁),
                full,
                o.some_room,
                enough,
              ))
              (omega (arith, len, few))) in
      elim (Bool-cases (memory os)) [
        | inl m ↦ subst safe (sym (ap (λ b. msg_put junk b h) m ∙ e)) with_window
        | inr m ↦ elim (msg_put-no_memory junk h v flag) [
          | inl n ↦ subst safe (sym (ap (λ b. msg_put junk b h) m ∙ n)) (nothing h total os v flag)
          | inr same ↦ subst safe (sym (ap (λ b. msg_put junk b h) m ∙ same ∙ e)) with_window
        ]
      ]
