-- ===== src/Worker/Send/Whole.antt =====
-- What sendPacket of src/worker/worker.c, and the loop over a queue, do when the socket takes what it
-- is offered.
use mathlib.Core.Path.{subst}
use wheatserver.Common.{
  ℕ, zero, suc, ◌+◌, ◌^◌, ◌≤◌, ◌<◌, ◌≡◌, refl, sym, ap, ◌∙◌, ==_iff, ◌==◌, List, [], ◌∷◌, arith,
  length, length-take, length-drop, if_cases, drop, sub_size,
}
use wheatserver.Slice.{Bytes, Slice, view, readable, IsValid, advance}
use wheatserver.Worker.Send.{
  Transfer, Release, Packet, slice, file, Status, completely, write_bulk_to, portable_sendfile,
  after_slice, written, send_slice, sent_file, send_part, send_packet, after_packet, send_packets,
}
use wheatserver.Worker.Send.Moves.{IsAnswer, Network, file_bytes}
use wheatserver.Worker.Send.Packets.{readable-advance}

-- What can be sent whole: a slice of some bytes, all of which can be read, or a part of a file.
unfoldable pub IsWhole : (ℕ → Bytes) → Packet → Type 0
IsWhole content (slice s) = (0 < s.len) × (s.len < 2 ^ 64) × IsValid s
IsWhole content (file fd off len) = (len < 2 ^ 64) × (off + len ≤ length (content fd))

unfoldable pub AreWhole : (ℕ → Bytes) → List Packet → Type 0
AreWhole content [] = Unit
AreWhole content (p ∷ ps) = IsWhole content p × AreWhole content ps

-- Some of the bytes are taken.
unfoldable pub TakesSome : Transfer → Type 0
TakesSome (Transfer.moved zero) = ⊥
TakesSome (Transfer.moved (suc n)) = Unit
TakesSome Transfer.again = ⊥
TakesSome Transfer.broken = ⊥

module _ {S : Type 0} {write : Slice → S → Transfer × S} {send_file : ℕ → ℕ → ℕ → S → Transfer × S}
    {release : Release → S → S} (net : Network S write send_file release)
    (takes : (s : Slice) (os : S) → 0 < length (view s) → TakesSome (write s os).0)
    (takes_file : (fd off len : ℕ) (os : S)
      → 0 < length (file_bytes (net.content fd) off len)
      → TakesSome (send_file fd off len os).0) where
  written-completely :
      (more : ℕ → Slice → S → Status × Slice × S) (s : Slice) (os os₁ : S) (answer : Transfer)
      → s.len < 2 ^ 64
      → IsValid s
      → IsAnswer answer (view s) (net.output os) (net.output os₁)
      → TakesSome answer
      → ((n : ℕ) (t : Slice) → t.len < s.len → IsValid t → (more (suc n) t os₁).0 ≡ completely)
      → (written write send_file release more s os₁ (write_bulk_to answer)).0 ≡ completely
  unfolding write_bulk_to IsAnswer TakesSome
  written-completely more s os os₁ Transfer.again small v ans t ih = absurd t
  written-completely more s os os₁ Transfer.broken small v ans t ih = absurd t
  written-completely more s os os₁ (Transfer.moved zero) small v ans t ih = absurd t
  written-completely more s os os₁ (Transfer.moved (suc n)) small v ans t ih =
      let few : suc n ≤ s.len = omega (arith, ans.0, length-take s.len (readable s.pointer)) in
      let left : sub_size s.len (suc n) + suc n ≡ s.len = omega (arith, few, small) in
      ih n (record { pointer = advance (suc n) s.pointer; len = sub_size s.len (suc n) })
        (omega (arith, left))
        (subst (λ l. sub_size s.len (suc n) ≤ length l) (sym (readable-advance (suc n) s.pointer))
          (omega (arith, left, v, length-drop (suc n) (readable s.pointer))))

  send_slice-completely :
      (f n : ℕ) (s : Slice) (os : S)
      → s.len < f
      → s.len < 2 ^ 64
      → IsValid s
      → 0 < s.len + n
      → (send_slice write send_file release f n s os).0 ≡ completely
  unfolding send_slice
  send_slice-completely zero n s os enough small v some_left = absurd (omega (arith, enough))
  send_slice-completely (suc f) n s os enough small v some_left =
      if_cases (λ (o : Status × Slice × S). o.0 ≡ completely) (s.len == 0)
        (λ e. ended n (omega (arith, some_left, (==_iff _ _).0 e)))
        (λ e.
          let some_len : 0 < s.len = ground (arith, e) in
          written-completely (send_slice write send_file release f) s os (write s os).1
            (write s os).0 small v (net.writes s os)
            (takes s os (omega (arith, some_len, v, length-take s.len (readable s.pointer))))
            (λ m t less v'.
              send_slice-completely f (suc m) t (write s os).1 (omega (arith, less, enough))
                (omega (arith, less, small)) v' (omega arith)))
    where
      ended : (n : ℕ) → 0 < n → after_slice write send_file release n ≡ completely
      ended zero h = absurd (omega (arith, h))
      ended (suc n) h = refl

  sent_file-completely :
      (more : ℕ → ℕ → S → Status × (ℕ × ℕ) × S) (fd off len : ℕ) (os os₁ : S) (answer : Transfer)
      → len < 2 ^ 64
      → off + len ≤ length (net.content fd)
      → IsAnswer answer (file_bytes (net.content fd) off len) (net.output os) (net.output os₁)
      → TakesSome answer
      → ((off₁ len₁ : ℕ)
          → len₁ < len
          → off₁ + len₁ ≤ length (net.content fd)
          → (more off₁ len₁ os₁).0 ≡ completely)
      → (sent_file write send_file release more off len os₁ (portable_sendfile answer)).0
        ≡ completely
  unfolding portable_sendfile IsAnswer TakesSome
  sent_file-completely more fd off len os os₁ Transfer.again small v ans t ih = absurd t
  sent_file-completely more fd off len os os₁ Transfer.broken small v ans t ih = absurd t
  sent_file-completely more fd off len os os₁ (Transfer.moved zero) small v ans t ih = absurd t
  sent_file-completely more fd off len os os₁ (Transfer.moved (suc n)) small v ans t ih =
      let few : suc n ≤ len = omega (arith, ans.0, length-take len (drop off (net.content fd))) in
      let left : sub_size len (suc n) + suc n ≡ len = omega (arith, few, small) in
      ih (off + suc n) (sub_size len (suc n)) (omega (arith, left)) (omega (arith, left, v))

  send_part-completely :
      (f fd off len : ℕ) (os : S)
      → len < f
      → len < 2 ^ 64
      → off + len ≤ length (net.content fd)
      → (send_part write send_file release f fd off len os).0 ≡ completely
  unfolding send_part
  send_part-completely zero fd off len os enough small v = absurd (omega (arith, enough))
  send_part-completely (suc f) fd off len os enough small v =
      if_cases (λ (o : Status × (ℕ × ℕ) × S). o.0 ≡ completely) (len == 0) (λ e. refl)
        (λ e.
          let some_len : 0 < len = ground (arith, e) in
          sent_file-completely (send_part write send_file release f fd) fd off len os
            (send_file fd off len os).1 (send_file fd off len os).0 small v
            (net.sends fd off len os)
            (takes_file fd off len os (
              omega (
                arith,
                some_len,
                v,
                length-take len (drop off (net.content fd)),
                length-drop off (net.content fd),
              )))
            (λ off₁ len₁ less v'.
              send_part-completely f fd off₁ len₁ (send_file fd off len os).1
                (omega (arith, less, enough)) (omega (arith, less, small)) v'))

  send_packet-completely :
      (p : Packet) (os : S)
      → IsWhole net.content p
      → (send_packet write send_file release p os).0 ≡ completely
  unfolding send_packet IsWhole
  send_packet-completely (slice s) os h =
      send_slice-completely (s.len + 1) 0 s os (omega arith) h.1 h.2 (omega (arith, h.0))
  send_packet-completely (file fd off len) os h =
      send_part-completely (len + 1) fd off len os (omega arith) h.0 h.1

  after_packet_done :
      (more : S → Status × List Packet × S) (ps : List Packet) (r : Status) (q : Packet) (os : S)
      → r ≡ completely
      → after_packet write send_file release more ps (r, q, os) ≡ more os
  after_packet_done more ps r q os e =
      ap (λ s. after_packet write send_file release more ps (s, q, os)) e

  pub send_packets-completely :
      (ps : List Packet) (os : S)
      → AreWhole net.content ps
      → (os₁ : S) × (send_packets write send_file release ps os ≡ (completely, [], os₁))
  unfolding send_packets AreWhole
  send_packets-completely [] os h = (os, refl)
  send_packets-completely (p ∷ ps) os h =
      let (r, q, os₁) = send_packet write send_file release p os in
      let rest = send_packets-completely ps os₁ h.1 in
      (
        rest.0,
        after_packet_done (send_packets write send_file release ps) ps r q os₁
              (send_packet-completely p os h.0)
            ∙ rest.1,
      )
