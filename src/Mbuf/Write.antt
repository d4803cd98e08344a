-- ===== src/Mbuf/Write.antt =====
-- `msgPut` and `msgSetWritted` of src/worker/mbuf.c: what is stored is appended to the stream.
use mathlib.Core.Option.{some-injective}
use wheatserver.Common.{
  ℕ, ◌+◌, ◌-◌, ◌≤◌, ◌≡◌, refl, ap, sym, ◌∙◌, Bool, true, false, not, some, ◌++◌, leb, ◌&&◌, length,
  get_elem?, set, drop, arith, append_assoc, get_elem?-set_self, set-set, length-set, take_all,
}
use wheatserver.Slice.{Bytes}
use wheatserver.Memory.{write, write_lem, Written, range, range-add}
use wheatserver.Mbuf.{Mbuf, Msghdr, Window, mbuf_magic, msg_set_writted, fill, has_magic}
use wheatserver.Mbuf.Inv.{IsBuffer, Chain, IsValid, segment, unread, stream, Last, chain-Last}

-- The window is the free end of the last buffer.
pub record IsOpen (h : Msghdr) (w : Window) : Type 0 where
  pub place : w.place ≡ h.last_write
  pub buffer : Mbuf
  pub found : get_elem? h.chain h.last_write ≡ some buffer
  pub start : w.at ≡ buffer.write_pos
  pub room : w.at + w.len ≡ h.mbuf_size

pub asserted :
    (b : Mbuf) (flag : Bool) (len room : ℕ)
    → b.magic ≡ mbuf_magic
    → len ≤ room
    → flag ≡ false
    → (has_magic b && leb len room && not flag) ≡ true
asserted b flag len room m l p = ground arith

pub last_of :
    (h : Msghdr) (v : IsValid h)
    → Last h.mbuf_size h.last_write (Chain h.mbuf_size h.last_read) (drop h.last_read) h.chain
last_of h v = chain-Last h.mbuf_size h.last_read h.last_write h.chain v.chain_ok v.at_end

-- A buffer with `n` more bytes in its block.
abbrev with_bytes : Mbuf → Bytes → ℕ → Mbuf
with_bytes b out n = record b { block = out; write_pos = b.write_pos + n }

segment-with_bytes :
    (size : ℕ) (b : Mbuf) (bytes out : Bytes)
    → IsBuffer size b
    → Written b.block b.write_pos bytes (length bytes) out
    → segment (with_bytes b out (length bytes)) ≡ segment b ++ bytes
segment-with_bytes size b bytes out ok w =
    ap (range out b.read_pos) (split b.read_pos b.write_pos (length bytes) ok.order)
    ∙ range-add out b.read_pos (b.write_pos - b.read_pos) (length bytes)
    ∙ ap (λ l. l ++ range out (b.read_pos + (b.write_pos - b.read_pos)) (length bytes))
        (w.before b.read_pos (b.write_pos - b.read_pos) (omega (arith, ok.order)))
    ∙ ap (λ k. segment b ++ range out k (length bytes)) (back b.read_pos b.write_pos ok.order)
    ∙ ap (λ l. segment b ++ l) (w.inside ∙ take_all (length bytes) bytes (omega arith))
  where
    split : (r w n : ℕ) → r ≤ w → w + n - r ≡ w - r + n
    split r w n h = omega arith

    back : (r w : ℕ) → r ≤ w → r + (w - r) ≡ w
    back r w h = omega arith

with_bytes-IsBuffer :
    {size : ℕ} (b : Mbuf) (bytes out : Bytes)
    → IsBuffer size b
    → Written b.block b.write_pos bytes (length bytes) out
    → b.write_pos + length bytes ≤ size
    → IsBuffer size (with_bytes b out (length bytes))
with_bytes-IsBuffer b bytes out ok w fits = record {
  magic = ok.magic;
  block = w.length_same ∙ ok.block;
  end = ok.end;
  order = omega (arith, ok.order);
  bound = fits;
}

fill_lem :
    (h : Msghdr) (w : Window) (bytes : Bytes) (b : Mbuf) (out : Bytes)
    → w.place ≡ h.last_write
    → w.at ≡ b.write_pos
    → get_elem? h.chain h.last_write ≡ some b
    → write b.block b.write_pos bytes (length bytes) ≡ some out
    → fill h w bytes
      ≡ some (record h { chain = set h.chain h.last_write (record b { block = out }) })
unfolding fill
fill_lem h w bytes b out p q f e = rw (fill, p, f, q, e)

msg_set_writted_lem :
    (h : Msghdr) (len : ℕ) (b : Mbuf)
    → get_elem? h.chain h.last_write ≡ some b
    → b.magic ≡ mbuf_magic
    → len ≤ b.end - b.write_pos
    → h.is_set_writted_after_put ≡ false
    → msg_set_writted h len
      ≡ some (record h {
        chain = set h.chain h.last_write (record b { write_pos = b.write_pos + len });
        is_set_writted_after_put = true;
      })
unfolding msg_set_writted
msg_set_writted_lem h len b f m l p =
    rw (msg_set_writted, f, asserted b h.is_set_writted_after_put len (b.end - b.write_pos) m l p)

-- Bytes that are stored from the start of an open window on, and then reported by
-- `msgSetWritted`, are appended to the stream; both calls succeed, the message stays valid, and it
-- has as many buffers as before.
pub msg_set_writted-fill :
    (h : Msghdr) (w : Window) (bytes : Bytes)
    → IsValid h
    → IsOpen h w
    → h.is_set_writted_after_put ≡ false
    → length bytes ≤ w.len
    → (filled done : Msghdr) × (fill h w bytes ≡ some filled)
      × (msg_set_writted filled (length bytes) ≡ some done)
      × IsValid done
      × (stream done ≡ stream h ++ bytes)
      × (done.is_set_writted_after_put ≡ true)
      × (done.is_set_readed_after_read ≡ h.is_set_readed_after_read)
      × (done.mbuf_len ≡ h.mbuf_len)
msg_set_writted-fill h w bytes v o put len =
    let l = last_of h v in
    let b = l.buffer in
    let same : o.buffer ≡ b = some-injective _ _ (sym o.found ∙ l.found) in
    let at : w.at ≡ b.write_pos = o.start ∙ ap (λ c. c.write_pos) same in
    let fits : b.write_pos + length bytes ≤ h.mbuf_size = omega (arith, o.room, at) in
    let (out, e, wr) =
      write_lem b.block b.write_pos bytes (length bytes) (omega (arith, l.ok.block, fits))
        (omega arith) in
    let d = with_bytes b out (length bytes) in
    let (valid, grown, _) = l.changed d (with_bytes-IsBuffer b bytes out l.ok wr fits) refl in
    let again = set-set h.chain h.last_write (record b { block = out }) d in
    (
      record h { chain = set h.chain h.last_write (record b { block = out }) },
      record h {
        chain = set (set h.chain h.last_write (record b { block = out })) h.last_write d;
        is_set_writted_after_put = true;
      },
      fill_lem h w bytes b out o.place at l.found e,
      msg_set_writted_lem _ (length bytes) (record b { block = out })
          (get_elem?-set_self h.chain h.last_write _ (omega (arith, v.at_end))) l.ok.magic
          (omega (arith, l.ok.end, fits)) put,
      record {
        chain_ok = rw again valid;
        at_end = rw again (v.at_end ∙ sym (length-set h.chain h.last_write d));
        counted = rw again (v.counted ∙ sym (length-set h.chain h.last_write d));
        positive = v.positive;
      },
      ap (λ c. unread (drop h.last_read c)) again
          ∙ grown
          ∙ ap (λ s. l.before ++ s) (segment-with_bytes h.mbuf_size b bytes out l.ok wr)
          ∙ sym (append_assoc l.before (segment b) bytes)
          ∙ ap (λ s. s ++ bytes) (sym l.splits),
      refl,
      refl,
      refl,
    )
