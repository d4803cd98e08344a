-- ===== src/Mbuf/Read.antt =====
-- `msgRead` of src/worker/mbuf.c shows the front of the stream.
use mathlib.Core.Path.{subst}
use wheatserver.Common.{
  ℕ, zero, suc, ◌+◌, ◌-◌, ◌<◌, ◌≡◌, ◌≢◌, refl, ap, sym, ◌∙◌, true, false, some, List, [], ◌∷◌, ◌++◌,
  if◌then◌else◌, ◌==◌, ◌⊎◌, inl, inr, length, get_elem?, take, drop, arith, Bool-cases, ==_iff,
  length-drop,
}
use wheatserver.Slice
use wheatserver.Slice.{Bytes, Slice, view}
use wheatserver.Memory.{length-range}
use wheatserver.Mbuf.{Mbuf, Msghdr, mbuf_magic, shown, read_over, msg_read}
use wheatserver.Mbuf.Inv.{
  IsBuffer, Current, Current-head, Chain, IsValid, segment, unread, stream, Reads, chain-Reads,
}

pub reader : (h : Msghdr) → IsValid h → Reads h.mbuf_size h.last_read h.chain
reader h v = chain-Reads h.mbuf_size h.last_read h.chain v.chain_ok

pub length-segment :
    {size : ℕ} (b : Mbuf) → IsBuffer size b → length (segment b) ≡ b.write_pos - b.read_pos
length-segment b ok =
    length-range b.block b.read_pos (b.write_pos - b.read_pos)
      (omega (arith, ok.block, ok.order, ok.bound))

-- What `msgRead` leaves: the slice shows the unread bytes of the buffer `last_read`.
pub record IsShown (h : Msghdr) (s : Slice) : Type 0 where
  pub buffer : Mbuf
  pub found : get_elem? h.chain h.last_read ≡ some buffer
  pub slice : s ≡ shown buffer

-- What `msgRead` does to a valid message.
pub record Shows (h : Msghdr) (s : Slice) (h' : Msghdr) : Type 0 where
  pub valid : IsValid h'
  pub readable : Slice.IsValid s
  pub rest : Bytes
  pub splits : stream h ≡ view s ++ rest
  pub shows_some : (0 < s.len) ⊎ (stream h ≡ [])
  pub stream_same : stream h' ≡ stream h
  pub is_shown : IsShown h' s
  pub flag : h'.is_set_readed_after_read ≡ false
  pub other_flag : h'.is_set_writted_after_put ≡ h.is_set_writted_after_put

-- The header that `msgRead` leaves, with `last_read` at `k`.
abbrev read_at : Msghdr → ℕ → Msghdr
read_at h k = record h { last_read = k; is_set_readed_after_read = false }

shown-valid : {size : ℕ} (b : Mbuf) → IsBuffer size b → Slice.IsValid (shown b)
shown-valid b ok = omega (arith, length-drop b.read_pos b.block, ok.block, ok.order, ok.bound)

pub empty-segment : (b : Mbuf) → b.read_pos ≡ b.write_pos → segment b ≡ []
empty-segment b e = ap (λ k. take k (drop b.read_pos b.block)) none_left
  where
    none_left : b.write_pos - b.read_pos ≡ 0
    none_left = omega arith

pos_or {ℓ} : {P : Type ℓ} (n : ℕ) → (n ≡ 0 → P) → (0 < n) ⊎ P
pos_or zero f = inr (f refl)
pos_or (suc n) f = inl (omega arith)

stays :
    (h : Msghdr) (v : IsValid h) (b : Mbuf) (rest : List Mbuf)
    → get_elem? h.chain h.last_read ≡ some b
    → drop h.last_read h.chain ≡ b ∷ rest
    → Current h.mbuf_size (b ∷ rest)
    → ((b.write_pos - b.read_pos ≡ 0) → rest ≡ [])
    → Shows h (shown b) (read_at h h.last_read)
stays h v b rest f behind cur last = record {
  valid = record {
    chain_ok = v.chain_ok;
    at_end = v.at_end;
    counted = v.counted;
    positive = v.positive;
  };
  readable = shown-valid b (Current-head b rest cur);
  rest = unread rest;
  splits = ap unread behind;
  shows_some = pos_or (b.write_pos - b.read_pos) (λ e.
      ap unread behind
      ∙ ap (λ k. take k (drop b.read_pos b.block) ++ unread rest) e
      ∙ ap unread (last e));
  stream_same = refl;
  is_shown = record { buffer = b; found = f; slice = refl };
  flag = refl;
  other_flag = refl;
}

moves :
    (h : Msghdr) (v : IsValid h) (b c : Mbuf) (rest : List Mbuf)
    → get_elem? h.chain (suc h.last_read) ≡ some c
    → drop h.last_read h.chain ≡ b ∷ c ∷ rest
    → b.read_pos ≡ b.write_pos
    → Chain h.mbuf_size (suc h.last_read) h.chain
    → drop (suc h.last_read) h.chain ≡ c ∷ rest
    → Current h.mbuf_size (c ∷ rest)
    → ((c.write_pos - c.read_pos ≡ 0) → rest ≡ [])
    → Shows h (shown c) (read_at h (suc h.last_read))
moves h v b c rest f behind over ok behind' cur last =
    let e = empty-segment b over in
    let same : stream h ≡ segment c ++ unread rest =
      ap unread behind ∙ ap (λ s. s ++ (segment c ++ unread rest)) e in
    record {
      valid = record {
        chain_ok = ok;
        at_end = v.at_end;
        counted = v.counted;
        positive = v.positive;
      };
      readable = shown-valid c (Current-head c rest cur);
      rest = unread rest;
      splits = same;
      shows_some = pos_or (c.write_pos - c.read_pos) (λ z.
          same ∙ ap (λ k. take k (drop c.read_pos c.block) ++ unread rest) z ∙ ap unread (last z));
      stream_same = ap unread behind' ∙ sym same;
      is_shown = record { buffer = c; found = f; slice = refl };
      flag = refl;
      other_flag = refl;
    }

msg_read_step :
    (h : Msghdr) (b c : Mbuf) (k : ℕ)
    → h.is_set_readed_after_read ≡ true
    → get_elem? h.chain h.last_read ≡ some b
    → b.magic ≡ mbuf_magic
    → (if read_over b (get_elem? h.chain (h.last_read + 1)) then h.last_read + 1 else h.last_read)
      ≡ k
    → get_elem? h.chain k ≡ some c
    → msg_read h ≡ some (shown c, read_at h k)
unfolding msg_read
msg_read_step h b c k flag f m e g = simp (msg_read, flag, f, (==_iff b.magic mbuf_magic).1 m, e, g)

pub ne_of_test : (a b : ℕ) → (a == b) ≡ false → a ≢ b
ne_of_test a b h = ground arith

-- Behind a buffer that nothing was written to there is none.
pub only :
    (size : ℕ) (c : Mbuf) (cs : List Mbuf)
    → 0 < size
    → c.read_pos ≡ 0
    → Current size (c ∷ cs)
    → c.write_pos - c.read_pos ≡ 0
    → cs ≡ []
only size c [] pos fresh cur z = refl
only size c (d ∷ ds) pos fresh (ok, full, _, _) z = absurd (omega arith)

-- `msgRead` on a valid message whose last slice was reported: it shows bytes that stand at the
-- front of the stream, and none only if the stream is empty; the message stays valid and the
-- stream is the same.
pub msg_read_lem :
    (h : Msghdr)
    → IsValid h
    → h.is_set_readed_after_read ≡ true
    → (s : Slice) × (h' : Msghdr) × (msg_read h ≡ some (s, h')) × Shows h s h'
msg_read_lem h v flag = let r = reader h v in go r r.rest refl
  where
    go :
        (r : Reads h.mbuf_size h.last_read h.chain) (rest : List Mbuf)
        → r.rest ≡ rest
        → (s : Slice) × (h' : Msghdr) × (msg_read h ≡ some (s, h')) × Shows h s h'
    go r [] e =
        let b = r.buffer in
        (
          shown b,
          read_at h h.last_read,
          msg_read_step h b b h.last_read flag r.found (Current-head b r.rest r.current).magic
              (rw (r.next, e)) r.found,
          stays h v b r.rest r.found r.behind r.current (λ _. e),
        )
    go r (c ∷ cs) e =
        let b = r.buffer in
        let (ok, full, fresh, cur) = subst (λ l. Current h.mbuf_size (b ∷ l)) e r.current in
        let next : get_elem? h.chain (h.last_read + 1) ≡ some c =
          r.next ∙ ap (λ l. get_elem? l 0) e in
        elim (Bool-cases (b.read_pos == b.write_pos)) [
          | inl over ↦
              let o : b.read_pos ≡ b.write_pos = (==_iff _ _).0 over in
              let (chain_ok, behind) = r.advanced (o ∙ full) full (rw e cur) in
              let k : h.last_read + 1 ≡ suc h.last_read = omega arith in
              (
                shown c,
                read_at h (suc h.last_read),
                msg_read_step h b c (suc h.last_read) flag r.found ok.magic
                    (rw (next, over, (==_iff b.write_pos b.end).1 (full ∙ sym ok.end)) k)
                    (rw k at next),
                moves h v b c cs (rw k at next) (r.behind ∙ ap (◌∷◌ b) e) o chain_ok (behind ∙ e)
                    cur (λ z. only h.mbuf_size c cs v.positive fresh cur z),
              )
          | inr more ↦ (
            shown b,
            read_at h h.last_read,
            msg_read_step h b b h.last_read flag r.found ok.magic (rw (next, more)) r.found,
            stays h v b r.rest r.found r.behind r.current
                (λ z. absurd (ne_of_test b.read_pos b.write_pos more (omega (arith, ok.order, z)))),
          )
        ]
