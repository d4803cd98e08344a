-- ===== src/Mbuf/Clean.antt =====
-- `msgClean`, `msgGetSize` and `msgFree` of src/worker/mbuf.c.
use mathlib.Core.Path.{ap₂}
use wheatserver.Common.{
  ℕ, zero, suc, ◌+◌, ◌-◌, ◌*◌, ◌^◌, ◌≤◌, ◌<◌, ◌≡◌, refl, ap, sym, ◌∙◌, List, [], ◌∷◌, length, drop,
  arith, mul_size, sub_size, length-drop,
}
use wheatserver.Mbuf.{
  Mbuf, Msghdr, msg_clean, msg_clean_loop, msg_get_size, msg_free, msg_free_loop,
}
use wheatserver.Mbuf.Inv.{Chain, IsValid, stream, chain-Reads}

clean_loop-drop :
    (k : ℕ) (chain : List Mbuf) (len : ℕ)
    → k ≤ length chain
    → length chain ≡ len
    → len < 2 ^ 64
    → msg_clean_loop k chain len ≡ (drop k chain, len - k)
unfolding msg_clean_loop
clean_loop-drop zero chain len h e few = ap₂ (λ c n. (c, n)) refl (omega arith)
clean_loop-drop (suc k) [] len h e few = absurd (omega arith)
clean_loop-drop (suc k) (b ∷ bs) len h e few =
    clean_loop-drop k bs (sub_size len 1) (omega arith) (omega arith) (omega arith)
    ∙ ap (λ n. (drop k bs, n)) (omega arith)

drop-length : (size k : ℕ) (chain : List Mbuf) → Chain size k chain → k < length chain
drop-length size zero [] ok = absurd ok
drop-length size zero (b ∷ bs) ok = omega arith
drop-length size (suc k) [] ok = absurd ok
drop-length size (suc k) (b ∷ bs) ok = omega (arith, drop-length size k bs ok.3)

-- The message that `msgClean` leaves.
abbrev cleaned : Msghdr → Msghdr
cleaned h = record h {
  chain = drop h.last_read h.chain;
  mbuf_len = h.mbuf_len - h.last_read;
  last_read = 0;
  last_write = h.last_write - h.last_read;
}

msg_clean-cleaned : (h : Msghdr) → IsValid h → h.mbuf_len < 2 ^ 64 → msg_clean h ≡ cleaned h
unfolding msg_clean
msg_clean-cleaned h v few =
    ap
      (λ p. record h {
        chain = p.0;
        mbuf_len = p.1;
        last_read = 0;
        last_write = h.last_write - h.last_read;
      })
      (clean_loop-drop h.last_read h.chain h.mbuf_len
        (omega (arith, drop-length h.mbuf_size h.last_read h.chain v.chain_ok)) (sym v.counted) few)

cleaned-IsValid : (h : Msghdr) → IsValid h → IsValid (cleaned h)
cleaned-IsValid h v =
    let r = chain-Reads h.mbuf_size h.last_read h.chain v.chain_ok in
    let n = length-drop h.last_read h.chain in
    let k = drop-length h.mbuf_size h.last_read h.chain v.chain_ok in
    record {
      chain_ok = rw r.behind r.current;
      at_end = omega (arith, n, k, v.at_end);
      counted = omega (arith, n, v.counted);
      positive = v.positive;
    }

-- `msgClean` on a valid message: it stays valid, no unread byte is lost, exactly the buffers before
-- the one that is read are gone, and `msgGetSize` gives the bytes of those that
-- are left; whether a window or a slice is out does not change.
pub msg_clean_lem :
    (h : Msghdr)
    → IsValid h
    → h.mbuf_len < 2 ^ 64
    → h.mbuf_len * h.mbuf_size < 2 ^ 64
    → IsValid (msg_clean h)
      × (stream (msg_clean h) ≡ stream h)
      × ((msg_clean h).chain ≡ drop h.last_read h.chain)
      × (msg_get_size (msg_clean h) + h.last_read * h.mbuf_size ≡ msg_get_size h)
      × ((msg_clean h).is_set_writted_after_put ≡ h.is_set_writted_after_put)
      × ((msg_clean h).is_set_readed_after_read ≡ h.is_set_readed_after_read)
unfolding msg_get_size
msg_clean_lem h v few small = rw (msg_clean-cleaned h v few) (
  cleaned-IsValid h v,
  refl,
  refl,
  sizes h.mbuf_len h.last_read h.mbuf_size
      (omega (arith, v.counted, drop-length h.mbuf_size h.last_read h.chain v.chain_ok)) small,
  refl,
  refl,
)
  where
    sizes : (n k s : ℕ) → k ≤ n → n * s < 2 ^ 64 → mul_size (n - k) s + k * s ≡ mul_size n s
    sizes n k s h small = let m : (n - k) * s + k * s ≡ n * s = grind arith in omega (arith, m)

free_loop-zero :
    (chain : List Mbuf) (len : ℕ) → length chain ≡ len → len < 2 ^ 64 → msg_free_loop chain len ≡ 0
unfolding msg_free_loop
free_loop-zero [] len e few = omega arith
free_loop-zero (b ∷ bs) len e few = free_loop-zero bs (sub_size len 1) (omega arith) (omega arith)

-- `msgFree` frees as many buffers as `mbuf_len` counts.
pub msg_free-zero : (h : Msghdr) → IsValid h → h.mbuf_len < 2 ^ 64 → msg_free h ≡ 0
unfolding msg_free
msg_free-zero h v few = free_loop-zero h.chain h.mbuf_len (sym v.counted) few
