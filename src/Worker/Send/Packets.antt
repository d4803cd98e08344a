-- ===== src/Worker/Send/Packets.antt =====
-- What sendPacket of src/worker/worker.c does to a packet and to the socket.
use mathlib.Core.Path.{subst}
use wheatserver.Common.{
  ℕ, zero, suc, ◌+◌, ◌^◌, ◌≤◌, ◌<◌, ◌≡◌, inl, inr, refl, sym, ap, ◌∙◌, Bool-cases, ==_iff, [],
  arith, none, some, length-take, take, drop, take-drop, drop-drop, append-nil, drop-nil, sub_size,
  ◌==◌,
}
use wheatserver.Slice.{Bytes, Slice, view, readable, advance, Pointer}
use wheatserver.Worker.Send.{
  Transfer, Release, Packet, slice, file, Status, completely, incompletely, wrong, running,
  write_bulk_to, portable_sendfile, after_slice, written, send_slice, sent_file, send_part,
  send_packet,
}
use wheatserver.Worker.Send.Moves.{
  Moves, Moves-refl, Moves-same, Moves-trans, Moves-take, IsAnswer, Network, file_bytes,
}

-- What a status says of the bytes that are left: none, if the packet was sent completely.
unfoldable pub Leaves : Status → Bytes → Type 0
Leaves completely bs = bs ≡ []
Leaves incompletely bs = Unit
Leaves wrong bs = Unit
Leaves running bs = ⊥

-- Lengths are `size_t`.
unfoldable pub IsSized : Packet → Type 0
IsSized (slice s) = s.len < 2 ^ 64
IsSized (file fd off len) = len < 2 ^ 64

sub_size_le : (a b : ℕ) → b ≤ a → a < 2 ^ 64 → sub_size a b + b ≡ a
sub_size_le a b h k = omega arith

-- The rest of a slice is its bytes behind those that were sent.
pub readable-advance : (n : ℕ) (p : Pointer) → readable (advance n p) ≡ drop n (readable p)
readable-advance n none = sym (drop-nil n)
readable-advance n (some m) = refl

view-advance :
    (n : ℕ) (s : Slice)
    → n ≤ s.len
    → s.len < 2 ^ 64
    → view (record { pointer = advance n s.pointer; len = sub_size s.len n }) ≡ drop n (view s)
view-advance n s h k =
    ap (take (sub_size s.len n)) (readable-advance n s.pointer)
    ∙ take-drop (sub_size s.len n) n (readable s.pointer)
    ∙ ap (λ m. drop n (take m (readable s.pointer))) (omega (arith, sub_size_le s.len n h k))

file_bytes-add :
    (n : ℕ) (content : Bytes) (off len : ℕ)
    → n ≤ len
    → len < 2 ^ 64
    → file_bytes content (off + n) (sub_size len n) ≡ drop n (file_bytes content off len)
file_bytes-add n content off len h k =
    ap (take (sub_size len n)) (sym (drop-drop n off content))
    ∙ take-drop (sub_size len n) n (drop off content)
    ∙ ap (λ m. drop n (take m (drop off content))) (omega (arith, sub_size_le len n h k))

module _ {S : Type 0} {write : Slice → S → Transfer × S} {send_file : ℕ → ℕ → ℕ → S → Transfer × S}
    {release : Release → S → S} (net : Network S write send_file release) where
  -- The bytes that a packet still has to send.
  abbrev pub packet_bytes : Packet → Bytes
  packet_bytes (slice s) = view s
  packet_bytes (file fd off len) = file_bytes (net.content fd) off len

  -- From the packet `p` its first bytes went to the socket, and what is left fits the status.
  unfoldable pub SentFrom : Packet → S → Status → Packet → S → Type 0
  SentFrom p os r q os₁ =
      Leaves r (packet_bytes q)
      × IsSized q
      × Moves (packet_bytes p) (packet_bytes q) (net.output os) (net.output os₁)

  SliceSent : Slice → S → Status × Slice × S → Type 0
  SliceSent s os (r, t, os₁) = SentFrom (slice s) os r (slice t) os₁

  written-SliceSent :
      (more : ℕ → Slice → S → Status × Slice × S) (s : Slice) (os os₁ : S) (answer : Transfer)
      → s.len < 2 ^ 64
      → 0 < s.len
      → IsAnswer answer (view s) (net.output os) (net.output os₁)
      → ((n : ℕ) (t : Slice) → t.len < s.len → SliceSent t os₁ (more (suc n) t os₁))
      → SliceSent s os (written write send_file release more s os₁ (write_bulk_to answer))
  unfolding SliceSent write_bulk_to SentFrom Leaves IsSized IsAnswer
  written-SliceSent more s os os₁ Transfer.again small some_len ans ih =
      (tt, small, Moves-same _ _ _ ans)
  written-SliceSent more s os os₁ Transfer.broken small some_len ans ih =
      (tt, small, Moves-same _ _ _ ans)
  written-SliceSent more s os os₁ (Transfer.moved zero) small some_len ans ih =
      (tt, small, Moves-same _ _ _ (ans.1 ∙ append-nil _))
  written-SliceSent more s os os₁ (Transfer.moved (suc n)) small some_len ans ih =
      let few : suc n ≤ s.len = omega (arith, ans.0, length-take s.len (readable s.pointer)) in
      let t : Slice = record {
        pointer = advance (suc n) s.pointer;
        len = sub_size s.len (suc n);
      } in
      let rest = ih n t (omega (arith, few, sub_size_le s.len (suc n) few small)) in
      let (r, u, os₂) = more (suc n) t os₁ in
      let first : Moves (view s) (view t) (net.output os) (net.output os₁) =
        subst (λ b. Moves (view s) b (net.output os) (net.output os₁))
          (sym (view-advance (suc n) s few small)) (Moves-take (suc n) (view s) _ _ ans.1) in
      (rest.0, rest.1, Moves-trans first rest.2)

  slice_end :
      (n : ℕ) (s : Slice) (os : S)
      → s.len < 2 ^ 64
      → s.len ≡ 0
      → SliceSent s os (after_slice write send_file release n, s, os)
  unfolding SliceSent SentFrom Leaves IsSized
  slice_end zero s os small e = (tt, small, Moves-refl _ _)
  slice_end (suc n) s os small e = (ap (λ m. take m (readable s.pointer)) e, small, Moves-refl _ _)

  send_slice-SliceSent :
      (f n : ℕ) (s : Slice) (os : S)
      → s.len < f
      → s.len < 2 ^ 64
      → SliceSent s os (send_slice write send_file release f n s os)
  unfolding send_slice
  send_slice-SliceSent zero n s os enough small = absurd (omega (arith, enough))
  send_slice-SliceSent (suc f) n s os enough small = elim (Bool-cases (s.len == 0)) [
    | inl e ↦ rw e (slice_end n s os small ((==_iff _ _).0 e))
    | inr e ↦ rw e (
        written-SliceSent (send_slice write send_file release f) s os (write s os).1 (write s os).0
          small (ground (arith, e)) (net.writes s os)
          (λ m t less.
            send_slice-SliceSent f (suc m) t (write s os).1 (omega (arith, less, enough))
              (omega (arith, less, small))))
  ]

  PartSent : ℕ → ℕ → ℕ → S → Status × (ℕ × ℕ) × S → Type 0
  PartSent fd off len os (r, (off₁, len₁), os₁) =
      SentFrom (file fd off len) os r (file fd off₁ len₁) os₁

  sent_file-PartSent :
      (more : ℕ → ℕ → S → Status × (ℕ × ℕ) × S) (fd off len : ℕ) (os os₁ : S) (answer : Transfer)
      → len < 2 ^ 64
      → IsAnswer answer (file_bytes (net.content fd) off len) (net.output os) (net.output os₁)
      → ((off₁ len₁ : ℕ) → len₁ < len → PartSent fd off₁ len₁ os₁ (more off₁ len₁ os₁))
      → PartSent fd off len os
          (sent_file write send_file release more off len os₁ (portable_sendfile answer))
  unfolding PartSent portable_sendfile SentFrom Leaves IsSized IsAnswer
  sent_file-PartSent more fd off len os os₁ Transfer.again small ans ih =
      (tt, small, Moves-same _ _ _ ans)
  sent_file-PartSent more fd off len os os₁ Transfer.broken small ans ih =
      (tt, small, Moves-same _ _ _ ans)
  sent_file-PartSent more fd off len os os₁ (Transfer.moved zero) small ans ih =
      (tt, small, Moves-same _ _ _ (ans.1 ∙ append-nil _))
  sent_file-PartSent more fd off len os os₁ (Transfer.moved (suc n)) small ans ih =
      let few : suc n ≤ len = omega (arith, ans.0, length-take len (drop off (net.content fd))) in
      let rest =
        ih (off + suc n) (sub_size len (suc n))
          (omega (arith, few, sub_size_le len (suc n) few small)) in
      let first : Moves (file_bytes (net.content fd) off len)
          (file_bytes (net.content fd) (off + suc n) (sub_size len (suc n))) (net.output os)
          (net.output os₁) =
        subst (λ b. Moves (file_bytes (net.content fd) off len) b (net.output os) (net.output os₁))
          (sym (file_bytes-add (suc n) (net.content fd) off len few small))
          (Moves-take (suc n) (file_bytes (net.content fd) off len) _ _ ans.1) in
      (rest.0, rest.1, Moves-trans first rest.2)

  send_part-PartSent :
      (f fd off len : ℕ) (os : S)
      → len < f
      → len < 2 ^ 64
      → PartSent fd off len os (send_part write send_file release f fd off len os)
  unfolding send_part
  send_part-PartSent zero fd off len os enough small = absurd (omega (arith, enough))
  send_part-PartSent (suc f) fd off len os enough small = elim (Bool-cases (len == 0)) [
    | inl e ↦ rw e (
        unfold PartSent SentFrom Leaves IsSized in
        (ap (λ m. take m (drop off (net.content fd))) ((==_iff _ _).0 e), small, Moves-refl _ _))
    | inr e ↦ rw e (
        sent_file-PartSent (send_part write send_file release f fd) fd off len os
          (send_file fd off len os).1 (send_file fd off len os).0 small (net.sends fd off len os)
          (λ off₁ len₁ less.
            send_part-PartSent f fd off₁ len₁ (send_file fd off len os).1
              (omega (arith, less, enough)) (omega (arith, less, small))))
  ]

  -- `sendPacket` ends; it sends the first bytes of the packet, in order, and leaves the others; and
  -- it says that it sent the packet completely just if none are left.
  pub send_packet_lem :
      (p : Packet) (os : S)
      → IsSized p
      → let (r, q, os₁) = send_packet write send_file release p os in SentFrom p os r q os₁
  unfolding send_packet SliceSent PartSent
  send_packet_lem (slice s) os small =
      send_slice-SliceSent (s.len + 1) 0 s os (omega arith) (unfold IsSized in small)
  send_packet_lem (file fd off len) os small =
      send_part-PartSent (len + 1) fd off len os (omega arith) (unfold IsSized in small)
