-- ===== src/Worker/Requests/Stream.antt =====
-- The requests of a stream of bytes, whatever buffers they come in: what the loop of handleRequest
-- in src/worker/worker.c is compared with.
use wheatserver.Common.{
  ℕ, ◌≤◌, ◌<◌, ◌≡◌, ◌≢◌, Bool, true, false, Option, none, some, [], ◌++◌, length, drop,
}
use wheatserver.Slice.{Bytes, Slice, view}
use wheatserver.Worker.Requests.{Verdict, wrong, ok, continued}

-- What the stream comes to: all of it was read, and a request may be pending; an application
-- failed; the parser refused it; or, though it did not refuse, the parser counted more bytes than
-- it was shown, or no byte.
pub data End (P S : Type 0) : Type 0 where
  waits : Option P → S → End P S
  failed : S → End P S
  refused : S → End P S
  overcounted : End P S
  idle : End P S

module _ {P S : Type 0} (init_data : P) (parser : P → Slice → Verdict × ℕ × P) (open_conn : S → S)
    (spot_app_and_call : P → S → Bool × S) where
  -- The parser is shown some first bytes of `bs`, with the data `p`.
  pub record Turn (p : P) (bs : Bytes) (v : Verdict) (n : ℕ) (q : P) : Type 0 where
    pub slice : Slice
    pub rest : Bytes
    pub cut : bs ≡ view slice ++ rest
    pub some_shown : 0 < length (view slice)
    pub result : parser p slice ≡ (v, n, q)

  -- What a request goes on with; a connection is made when its first byte is there.
  abbrev pub conn_of : Option P → S → P × S
  conn_of none os = (init_data, open_conn os)
  conn_of (some p) os = (p, os)

  -- The pending request, the bytes that are left and the rest of the world come to `e`: the parser
  -- is shown pieces of the bytes, each from where it stopped before; each request that it finishes
  -- goes to its application, and one that it does not finish goes on with the next piece.
  pub data Serves : Option P → Bytes → S → End P S → Type 0 where
    all_read : (o : Option P) (os : S) → Serves o [] os (End.waits o os)
    refuses :
        {o : Option P} {bs : Bytes} {os : S} {n : ℕ} {q : P}
        → Turn (conn_of o os).0 bs wrong n q
        → Serves o bs os (End.refused (conn_of o os).1)
    overcounts :
        {o : Option P} {bs : Bytes} {os : S} {v : Verdict} {n : ℕ} {q : P}
        → (t : Turn (conn_of o os).0 bs v n q) → v ≢ wrong
        → length (view t.slice) < n
        → Serves o bs os End.overcounted
    idles :
        {o : Option P} {bs : Bytes} {os : S} {v : Verdict} {q : P}
        → Turn (conn_of o os).0 bs v 0 q
        → v ≢ wrong
        → Serves o bs os End.idle
    fails :
        {o : Option P} {bs : Bytes} {os os₁ : S} {n : ℕ} {q : P}
        → (t : Turn (conn_of o os).0 bs ok n q) → n ≤ length (view t.slice)
        → spot_app_and_call q (conn_of o os).1 ≡ (false, os₁)
        → Serves o bs os (End.failed os₁)
    calls :
        {o : Option P} {bs : Bytes} {os os₁ : S} {n : ℕ} {q : P} {e : End P S}
        → (t : Turn (conn_of o os).0 bs ok n q) → n ≤ length (view t.slice)
        → spot_app_and_call q (conn_of o os).1 ≡ (true, os₁)
        → Serves none (drop n bs) os₁ e
        → Serves o bs os e
    goes_on :
        {o : Option P} {bs : Bytes} {os : S} {n : ℕ} {q : P} {e : End P S}
        → (t : Turn (conn_of o os).0 bs continued n q) → n ≤ length (view t.slice)
        → Serves (some q) (drop n bs) (conn_of o os).1 e
        → Serves o bs os e
