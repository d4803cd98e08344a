-- ===== src/Worker/Send/Moves.antt =====
-- What it is for bytes to go from a queue of src/worker/worker.c to the socket.
use mathlib.Core.Path.{subst}
use wheatserver.Common.{
  ℕ, ◌≤◌, ◌≡◌, refl, sym, ap, ◌∙◌, [], ◌++◌, length, take, drop, append_assoc, append-nil,
  take-append-drop,
}
use wheatserver.Slice.{Bytes, Slice, view}
use wheatserver.Worker.Send.{Transfer, Release}

-- The bytes go from the start of `before`, which leaves `after`, to the end of `out`.
pub record Moves (before after out out' : Bytes) : Type 0 where
  pub bytes : Bytes
  pub left : before ≡ bytes ++ after
  pub put : out' ≡ out ++ bytes

pub Moves-refl : (bs out : Bytes) → Moves bs bs out out
Moves-refl bs out = record { bytes = []; left = refl; put = sym (append-nil out) }

pub Moves-same : (bs out out' : Bytes) → out' ≡ out → Moves bs bs out out'
Moves-same bs out out' e = record { bytes = []; left = refl; put = e ∙ sym (append-nil out) }

pub Moves-trans :
    {a b c out₀ out₁ out₂ : Bytes} → Moves a b out₀ out₁ → Moves b c out₁ out₂ → Moves a c out₀ out₂
Moves-trans {c = c} {out₀ = out₀} m n = record {
  bytes = m.bytes ++ n.bytes;
  left = m.left ∙ ap (λ l. m.bytes ++ l) n.left ∙ sym (append_assoc m.bytes n.bytes c);
  put = n.put ∙ ap (λ l. l ++ n.bytes) m.put ∙ append_assoc out₀ m.bytes n.bytes;
}

-- More bytes wait behind.
pub Moves-append :
    {a b out₀ out₁ : Bytes} (more : Bytes)
    → Moves a b out₀ out₁
    → Moves (a ++ more) (b ++ more) out₀ out₁
Moves-append {b = b} more m = record {
  bytes = m.bytes;
  left = ap (λ l. l ++ more) m.left ∙ append_assoc m.bytes b more;
  put = m.put;
}

-- All of the bytes went.
pub Moves-all :
    {a b out out' : Bytes} (more : Bytes)
    → b ≡ []
    → Moves a b out out'
    → Moves (a ++ more) more out out'
Moves-all {a = a} {b = b} {out = out} {out' = out'} more e m =
    Moves-append more (subst (λ l. Moves a l out out') e m)

pub Moves-take :
    (n : ℕ) (bs out out' : Bytes) → out' ≡ out ++ take n bs → Moves bs (drop n bs) out out'
Moves-take n bs out out' e = record {
  bytes = take n bs;
  left = sym (take-append-drop n bs);
  put = e;
}

-- What an answer says of the bytes that were offered.
unfoldable pub IsAnswer : Transfer → Bytes → Bytes → Bytes → Type 0
IsAnswer (Transfer.moved n) bs out out' = (n ≤ length bs) × (out' ≡ out ++ take n bs)
IsAnswer Transfer.again bs out out' = out' ≡ out
IsAnswer Transfer.broken bs out out' = out' ≡ out

abbrev pub file_bytes : Bytes → ℕ → ℕ → Bytes
file_bytes content off len = take len (drop off content)

-- What the code relies on: write() and sendfile() put the bytes that they took on the socket, which
-- are the first ones that they were offered, and the functions that free data put none there.
pub record Network (S : Type 0) (write : Slice → S → Transfer × S)
    (send_file : ℕ → ℕ → ℕ → S → Transfer × S) (release : Release → S → S) : Type 0 where
  pub output : S → Bytes
  pub content : ℕ → Bytes
  pub writes :
      (s : Slice) (os : S) → IsAnswer (write s os).0 (view s) (output os) (output (write s os).1)
  pub sends :
      (fd off len : ℕ) (os : S)
      → IsAnswer
          (send_file fd off len os).0
          (file_bytes (content fd) off len)
          (output os)
          (output (send_file fd off len os).1)
  pub silent : (r : Release) (os : S) → output (release r os) ≡ output os
