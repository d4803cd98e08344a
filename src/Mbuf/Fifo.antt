-- ===== src/Mbuf/Fifo.antt =====
-- A message of src/worker/mbuf.c as a queue of bytes, over every sequence of uses.
use mathlib.Core.Option.{some-injective}
use mathlib.Core.Path.{subst, ap₂}
use wheatserver.Common.{
  ℕ, ◌+◌, ◌*◌, ◌^◌, ◌≤◌, ◌<◌, ◌≡◌, ap, sym, ◌∙◌, true, some, [], ◌++◌, length, take, arith,
  append_assoc, take-append-drop, take-append_le, length-take,
}
use wheatserver.Slice.{Bytes, Slice, view, readable}
use wheatserver.Mbuf.{
  Msghdr, Window, msg_create, msg_put, fill, msg_set_writted, msg_read, msg_set_readed, msg_clean,
}
use wheatserver.Mbuf.Inv.{IsValid, stream}
use wheatserver.Mbuf.Write.{msg_set_writted-fill}
use wheatserver.Mbuf.Put.{msg_create-IsValid, msg_put_lem, Opened}
use wheatserver.Mbuf.Read.{msg_read_lem, Shows}
use wheatserver.Mbuf.Readed.{msg_set_readed_lem}
use wheatserver.Mbuf.Clean.{msg_clean_lem}

-- The uses of a message, with the bytes written to it and the bytes taken from it so far: a
-- window is asked for, filled and reported; a slice is shown and partly taken; a clean-up.
pub data Uses (junk : ℕ → ℕ) : Msghdr → Bytes → Bytes → Type 0 where
  create : (size : ℕ) → 0 < size → Uses junk (msg_create junk size) [] []
  write :
      {h h₁ h₂ h₃ : Msghdr} {w r : Bytes} (win : Window) (bytes : Bytes)
      → Uses junk h w r
      → h.mbuf_len + 1 < 2 ^ 64
      → msg_put junk true h ≡ some (some win, h₁)
      → length bytes ≤ win.len
      → fill h₁ win bytes ≡ some h₂
      → msg_set_writted h₂ (length bytes) ≡ some h₃
      → Uses junk h₃ (w ++ bytes) r
  read :
      {h h₁ h₂ : Msghdr} {w r : Bytes} (s : Slice) (n : ℕ)
      → Uses junk h w r
      → msg_read h ≡ some (s, h₁)
      → n ≤ s.len
      → msg_set_readed h₁ n ≡ some h₂
      → Uses junk h₂ w (r ++ take n (view s))
  clean :
      {h : Msghdr} {w r : Bytes}
      → Uses junk h w r
      → h.mbuf_len < 2 ^ 64
      → h.mbuf_len * h.mbuf_size < 2 ^ 64
      → Uses junk (msg_clean h) w r

-- Between two uses.
pub record IsQueue (h : Msghdr) (w r : Bytes) : Type 0 where
  pub valid : IsValid h
  pub put_flag : h.is_set_writted_after_put ≡ true
  pub read_flag : h.is_set_readed_after_read ≡ true
  pub order : w ≡ r ++ stream h

opened :
    (junk : ℕ → ℕ) {h h₁ : Msghdr} {w r : Bytes} (win : Window)
    → IsQueue h w r
    → h.mbuf_len + 1 < 2 ^ 64
    → msg_put junk true h ≡ some (some win, h₁)
    → Opened junk h win h₁
opened junk {h} {h₁} win i few put =
    let (win', h', e, o) = msg_put_lem junk h i.valid i.put_flag few in
    let q = some-injective _ _ (sym e ∙ put) in
    subst (λ x. Opened junk h x h₁) (some-injective _ _ (ap (λ p. p.0) q))
      (subst (Opened junk h win') (ap (λ p. p.1) q) o)

wrote-IsQueue :
    {junk : ℕ → ℕ} {h h₁ h₂ h₃ : Msghdr} {w r : Bytes} (win : Window) (bytes : Bytes)
    → IsQueue h w r
    → Opened junk h win h₁
    → length bytes ≤ win.len
    → fill h₁ win bytes ≡ some h₂
    → msg_set_writted h₂ (length bytes) ≡ some h₃
    → IsQueue h₃ (w ++ bytes) r
wrote-IsQueue {h} {h₁} {h₂} {h₃} {w} {r} win bytes i o len filled done =
    let (f, d, e, e', v, same, p, q, _) =
      msg_set_writted-fill h₁ win bytes o.valid o.open_window o.flag len in
    let two : f ≡ h₂ = some-injective _ _ (sym e ∙ filled) in
    let three : d ≡ h₃ =
      some-injective _ _ (sym e' ∙ ap (λ x. msg_set_writted x (length bytes)) two ∙ done) in
    subst (λ x. IsQueue x (w ++ bytes) r) three
      (record {
        valid = v;
        put_flag = p;
        read_flag = q ∙ o.other_flag ∙ i.read_flag;
        order =
            ap (λ l. l ++ bytes) (i.order ∙ ap (λ l. r ++ l) (sym o.stream_same))
            ∙ append_assoc r (stream h₁) bytes
            ∙ ap (λ l. r ++ l) (sym same);
      })

shows :
    {h h₁ : Msghdr} {w r : Bytes} (s : Slice)
    → IsQueue h w r
    → msg_read h ≡ some (s, h₁)
    → Shows h s h₁
shows {h} {h₁} s i e =
    let (s', h', e', o) = msg_read_lem h i.valid i.read_flag in
    let q = some-injective _ _ (sym e' ∙ e) in
    subst (λ x. Shows h x h₁) (ap (λ p. p.0) q) (subst (Shows h s') (ap (λ p. p.1) q) o)

took-IsQueue :
    {h h₁ h₂ : Msghdr} {w r : Bytes} (s : Slice) (n : ℕ)
    → IsQueue h w r
    → Shows h s h₁
    → n ≤ s.len
    → msg_set_readed h₁ n ≡ some h₂
    → IsQueue h₂ w (r ++ take n (view s))
took-IsQueue {h} {h₁} {h₂} {w} {r} s n i sh le done =
    let (d, e, v, same, p, q) = msg_set_readed_lem h₁ s n sh.valid sh.is_shown sh.flag le in
    let two : d ≡ h₂ = some-injective _ _ (sym e ∙ done) in
    let front : take n (view s) ≡ take n (stream h₁) =
      sym (
        take-append_le n (view s) sh.rest
          (omega (arith, length-take s.len (readable s.pointer), sh.readable)))
      ∙ ap (take n) (sym (sh.stream_same ∙ sh.splits)) in
    subst (λ x. IsQueue x w (r ++ take n (view s))) two
      (record {
        valid = v;
        put_flag = q ∙ sh.other_flag ∙ i.put_flag;
        read_flag = p;
        order =
            i.order
            ∙ ap (λ l. r ++ l)
                (sym sh.stream_same
                  ∙ sym (take-append-drop n (stream h₁))
                  ∙ ap₂ (λ x y. x ++ y) (sym front) (sym same))
            ∙ sym (append_assoc r (take n (view s)) (stream d));
      })

-- However a message is used, what was written to it is what was taken from it, in that order,
-- followed by the stream it still holds.
pub Uses-IsQueue : (junk : ℕ → ℕ) {h : Msghdr} {w r : Bytes} → Uses junk h w r → IsQueue h w r
Uses-IsQueue junk (create size pos) =
    let (v, s, p, q) = msg_create-IsValid junk size pos in
    record { valid = v; put_flag = p; read_flag = q; order = sym s }
Uses-IsQueue junk (write {h} {h₁} {h₂} {h₃} {w} {r} win bytes u few put len filled done) =
    wrote-IsQueue win bytes (Uses-IsQueue junk u) (opened junk win (Uses-IsQueue junk u) few put)
      len filled done
Uses-IsQueue junk (read {h} {h₁} {h₂} {w} {r} s n u shown le done) =
    took-IsQueue s n (Uses-IsQueue junk u) (shows s (Uses-IsQueue junk u) shown) le done
Uses-IsQueue junk (clean {h} u few small) =
    let i = Uses-IsQueue junk u in
    let (v, same, _, _, p, q) = msg_clean_lem h i.valid few small in
    record {
      valid = v;
      put_flag = p ∙ i.put_flag;
      read_flag = q ∙ i.read_flag;
      order = rw same i.order;
    }
