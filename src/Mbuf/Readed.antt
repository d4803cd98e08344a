-- ===== src/Mbuf/Readed.antt =====
-- `msgSetReaded` of src/worker/mbuf.c takes bytes from the front of the stream.
use mathlib.Core.Option.{some-injective}
use wheatserver.Common.{
  ℕ, ◌+◌, ◌-◌, ◌≤◌, ◌≡◌, refl, ap, sym, ◌∙◌, true, false, some, List, [], ◌∷◌, ◌++◌, get_elem?, set,
  take, drop, arith, length-set, drop-append_le, take-drop, drop-drop,
}
use wheatserver.Slice.{Slice}
use wheatserver.Mbuf.{Mbuf, Msghdr, mbuf_magic, shown, msg_set_readed}
use wheatserver.Mbuf.Inv.{IsBuffer, Current, Current-head, IsValid, segment, unread, stream}
use wheatserver.Mbuf.Write.{asserted}
use wheatserver.Mbuf.Read.{reader, length-segment, IsShown}

-- Bytes that are reported as read leave the segment at its front.
segment-advance :
    {size : ℕ} (b : Mbuf) (n : ℕ)
    → IsBuffer size b
    → n ≤ b.write_pos - b.read_pos
    → segment (record b { read_pos = b.read_pos + n }) ≡ drop n (segment b)
segment-advance b n ok le =
    ap (take (b.write_pos - (b.read_pos + n))) (sym (drop-drop n b.read_pos b.block))
    ∙ take-drop (b.write_pos - (b.read_pos + n)) n (drop b.read_pos b.block)
    ∙ ap (λ k. drop n (take k (drop b.read_pos b.block))) (rest b.read_pos b.write_pos n le)
  where
    rest : (r w n : ℕ) → n ≤ w - r → n + (w - (r + n)) ≡ w - r
    rest r w n h = omega arith

ahead :
    {size : ℕ} (b : Mbuf) (n : ℕ)
    → IsBuffer size b
    → n ≤ b.write_pos - b.read_pos
    → IsBuffer size (record b { read_pos = b.read_pos + n })
ahead b n ok le = record {
  magic = ok.magic;
  block = ok.block;
  end = ok.end;
  order = omega (arith, ok.order);
  bound = ok.bound;
}

ahead-Current :
    (size : ℕ) (b : Mbuf) (bs : List Mbuf) (n : ℕ)
    → Current size (b ∷ bs)
    → n ≤ b.write_pos - b.read_pos
    → Current size (record b { read_pos = b.read_pos + n } ∷ bs)
ahead-Current size b [] n ok le = ahead b n ok le
ahead-Current size b (c ∷ cs) n (ok, full, fresh, rest) le = (ahead b n ok le, full, fresh, rest)

msg_set_readed_step :
    (h : Msghdr) (n : ℕ) (b : Mbuf)
    → get_elem? h.chain h.last_read ≡ some b
    → b.magic ≡ mbuf_magic
    → n ≤ b.write_pos - b.read_pos
    → h.is_set_readed_after_read ≡ false
    → msg_set_readed h n
      ≡ some (record h {
        chain = set h.chain h.last_read (record b { read_pos = b.read_pos + n });
        is_set_readed_after_read = true;
      })
unfolding msg_set_readed
msg_set_readed_step h n b f m l p =
    rw (msg_set_readed, f, asserted b h.is_set_readed_after_read n (b.write_pos - b.read_pos) m l p)

-- `msgSetReaded` after `msgRead`, of no more bytes than the slice shows: it succeeds, takes just
-- these from the front of the stream, and leaves the message valid and ready for `msgRead`.
pub msg_set_readed_lem :
    (h : Msghdr) (s : Slice) (n : ℕ)
    → IsValid h
    → IsShown h s
    → h.is_set_readed_after_read ≡ false
    → n ≤ s.len
    → (h' : Msghdr) × (msg_set_readed h n ≡ some h')
      × IsValid h'
      × (stream h' ≡ drop n (stream h))
      × (h'.is_set_readed_after_read ≡ true)
      × (h'.is_set_writted_after_put ≡ h.is_set_writted_after_put)
msg_set_readed_lem h s n v sh flag le =
    let r = reader h v in
    let b = r.buffer in
    let same : sh.buffer ≡ b = some-injective _ _ (sym sh.found ∙ r.found) in
    let room : n ≤ b.write_pos - b.read_pos = rw (sh.slice ∙ ap shown same) at le in
    let d = record b { read_pos = b.read_pos + n } in
    let ok = Current-head b r.rest r.current in
    let (chain_ok, behind) = r.changed d (ahead-Current h.mbuf_size b r.rest n r.current room) in
    (
      record h { chain = set h.chain h.last_read d; is_set_readed_after_read = true },
      msg_set_readed_step h n b r.found ok.magic room flag,
      record {
        chain_ok = chain_ok;
        at_end = v.at_end ∙ sym (length-set h.chain h.last_read d);
        counted = v.counted ∙ sym (length-set h.chain h.last_read d);
        positive = v.positive;
      },
      ap unread behind
          ∙ ap (λ l. l ++ unread r.rest) (segment-advance b n ok room)
          ∙ sym (drop-append_le n (segment b) (unread r.rest) (rw (length-segment b ok) room))
          ∙ ap (λ l. drop n (unread l)) (sym r.behind),
      refl,
      refl,
    )
