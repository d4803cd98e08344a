-- ===== src/Mbuf/CanRead.antt =====
-- `msgCanRead` of src/worker/mbuf.c tells whether a byte is unread.
use wheatserver.Common.{
  ℕ, ◌+◌, ◌<◌, ◌≡◌, ◌≢◌, ◌↔◌, refl, ap, sym, ◌∙◌, Bool, true, false, not, Option, none, some, List,
  [], ◌∷◌, ◌==◌, ◌||◌, ◌⊎◌, length, get_elem?, arith, ==_iff, length-append,
}
use wheatserver.Slice.{Bytes}
use wheatserver.Mbuf.{Mbuf, Msghdr, mbuf_magic, has_written, msg_can_read}
use wheatserver.Mbuf.Inv.{Current, Current-head, IsValid, segment, unread, stream, Reads}
use wheatserver.Mbuf.Read.{reader, length-segment, empty-segment, only}

-- What `msgCanRead` tests of the buffer and of the one behind it.
abbrev some_left : Mbuf → List Mbuf → Bool
some_left b rest = not (b.read_pos == b.write_pos) || has_written (get_elem? rest 0)

abbrev NothingWritten : Option Mbuf → Type 0
NothingWritten none = Unit
NothingWritten (some c) = c.write_pos ≡ 0

ne_of_left : (b : Mbuf) → some_left b [] ≡ true → b.read_pos ≢ b.write_pos
ne_of_left b t = ground arith

one_left :
    (b c : Mbuf) (cs : List Mbuf)
    → some_left b (c ∷ cs) ≡ true
    → c.read_pos ≡ 0
    → (b.read_pos ≢ b.write_pos) ⊎ (0 < c.write_pos)
one_left b c cs t fresh = ground arith

none_left :
    (b : Mbuf) (next : Option Mbuf)
    → (not (b.read_pos == b.write_pos) || has_written next) ≡ false
    → (b.read_pos ≡ b.write_pos) × NothingWritten next
none_left b none t = ground arith
none_left b (some c) t = ground arith

msg_can_read_step :
    (h : Msghdr) (b : Mbuf)
    → get_elem? h.chain h.last_read ≡ some b
    → b.magic ≡ mbuf_magic
    → msg_can_read h
      ≡ some (not (b.read_pos == b.write_pos) || has_written (get_elem? h.chain (h.last_read + 1)))
unfolding msg_can_read
msg_can_read_step h b f m = rw (msg_can_read, f, (==_iff b.magic mbuf_magic).1 m)

some_unread :
    (q : Bool) (l : Bytes)
    → (q ≡ true → 0 < length l)
    → (q ≡ false → l ≡ [])
    → (q ≡ true) ↔ (l ≢ [])
some_unread true l yes_case no_case =
    (λ _ e. absurd (omega (arith, ap length e, yes_case refl)), λ _. refl)
some_unread false l yes_case no_case = (λ e. cc, λ ne. absurd (ne (no_case refl)))

unread-pos :
    (size : ℕ) (b : Mbuf) (rest : List Mbuf)
    → 0 < size
    → Current size (b ∷ rest)
    → some_left b rest ≡ true
    → 0 < length (unread (b ∷ rest))
unread-pos size b [] pos ok t =
    omega (arith, length-append (segment b) [], length-segment b ok, ne_of_left b t, ok.order)
unread-pos size b (c ∷ cs) pos (ok, full, fresh, cur) t = omega (
  arith,
  length-append (segment b) (unread (c ∷ cs)),
  length-append (segment c) (unread cs),
  length-segment b ok,
  length-segment c (Current-head c cs cur),
  one_left b c cs t fresh,
  ok.order,
  (Current-head c cs cur).order,
)

unread-nil :
    (size : ℕ) (b : Mbuf) (rest : List Mbuf)
    → 0 < size
    → Current size (b ∷ rest)
    → some_left b rest ≡ false
    → unread (b ∷ rest) ≡ []
unread-nil size b [] pos ok t = rw (empty-segment b (none_left b none t).0)
unread-nil size b (c ∷ cs) pos (ok, full, fresh, cur) t =
    let (over, none_written) = none_left b (some c) t in
    let z : c.write_pos ≡ 0 = none_written in
    rw (
      empty-segment b over,
      empty-segment c (fresh ∙ sym z),
      only size c cs pos fresh cur (omega arith),
    )

-- `msgCanRead` answers on a valid message, and says yes exactly when the stream is not empty.
pub msg_can_read_lem :
    (h : Msghdr)
    → IsValid h
    → (r : Bool) × (msg_can_read h ≡ some r) × ((r ≡ true) ↔ (stream h ≢ []))
msg_can_read_lem h v = go (reader h v) (reader h v).rest refl
  where
    go :
        (r : Reads h.mbuf_size h.last_read h.chain) (rest : List Mbuf)
        → r.rest ≡ rest
        → (q : Bool) × (msg_can_read h ≡ some q) × ((q ≡ true) ↔ (stream h ≢ []))
    go r rest e =
        let ok = Current-head r.buffer r.rest r.current in
        let q = not (r.buffer.read_pos == r.buffer.write_pos) || has_written (get_elem? r.rest 0) in
        (
          q,
          msg_can_read_step h r.buffer r.found ok.magic
              ∙ ap (λ o. some (not (r.buffer.read_pos == r.buffer.write_pos) || has_written o))
                  r.next,
          some_unread q (stream h)
              (λ t. rw r.behind (unread-pos h.mbuf_size r.buffer r.rest v.positive r.current t))
              (λ t.
                ap unread r.behind ∙ unread-nil h.mbuf_size r.buffer r.rest v.positive r.current t),
        )
