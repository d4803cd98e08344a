-- ===== src/Mbuf/Put.antt =====
-- `msgCreate` and `msgPut` of src/worker/mbuf.c.
use wheatserver.Common.{
  ◌≤◌, ℕ, ◌+◌, ◌-◌, ◌^◌, ◌<◌, ◌≡◌, refl, ap, sym, ◌∙◌, Bool, true, false, none, some, [], ◌∷◌, ◌++◌,
  if◌then◌else◌, ◌==◌, ◌⊎◌, inl, inr, get_elem?, arith, append-nil, get_elem?-append_last,
  Bool-cases, ==_iff, take_all, add_size, length-append,
}
use wheatserver.Memory.{length-junk_bytes}
use wheatserver.Mbuf.{
  Mbuf, Msghdr, Window, mbuf_magic, mbuf_get, msg_put, msg_create, hand_out, extended,
}
use wheatserver.Mbuf.Inv.{IsBuffer, IsValid, stream}
use wheatserver.Mbuf.Write.{IsOpen, last_of}

module _ (junk : ℕ → ℕ) where
  mbuf_get-IsBuffer : (size : ℕ) → IsBuffer size (mbuf_get junk size)
  unfolding mbuf_get
  mbuf_get-IsBuffer size = record {
    magic = refl;
    block = length-junk_bytes junk size;
    end = refl;
    order = omega arith;
    bound = omega arith;
  }

  -- A message is created with no unread byte, one buffer of the size asked for, and ready for
  -- `msgPut` and `msgRead`, if that size is positive.
  pub msg_create-IsValid :
      (size : ℕ)
      → 0 < size
      → IsValid (msg_create junk size)
        × (stream (msg_create junk size) ≡ [])
        × ((msg_create junk size).is_set_writted_after_put ≡ true)
        × ((msg_create junk size).is_set_readed_after_read ≡ true)
  unfolding msg_create mbuf_get
  msg_create-IsValid size h = (
    record { chain_ok = mbuf_get-IsBuffer size; at_end = refl; counted = refl; positive = h },
    refl,
    refl,
    refl,
  )

  -- What `msgPut` does to a valid message that is not at its limit.
  pub record Opened (h : Msghdr) (w : Window) (h' : Msghdr) : Type 0 where
    pub valid : IsValid h'
    pub open_window : IsOpen h' w
    pub some_room : 0 < w.len
    pub stream_same : stream h' ≡ stream h
    pub flag : h'.is_set_writted_after_put ≡ false
    pub few_more : h'.mbuf_len ≤ h.mbuf_len + 1
    pub other_flag : h'.is_set_readed_after_read ≡ h.is_set_readed_after_read

  window_of : Msghdr → Mbuf → Window
  window_of h b = record { place = h.last_write; at = b.write_pos; len = b.end - b.write_pos }

  put_flag : Msghdr → Msghdr
  put_flag h = record h { is_set_writted_after_put = false }

  put_flag-IsValid : (h : Msghdr) → IsValid h → IsValid (put_flag h)
  unfolding put_flag
  put_flag-IsValid h v = record {
    chain_ok = v.chain_ok;
    at_end = v.at_end;
    counted = v.counted;
    positive = v.positive;
  }

  hand_out-Opened :
      (h : Msghdr) (b : Mbuf)
      → IsValid h
      → get_elem? h.chain h.last_write ≡ some b
      → IsBuffer h.mbuf_size b
      → b.write_pos < h.mbuf_size
      → Opened h (window_of h b) (put_flag h)
  unfolding window_of put_flag
  hand_out-Opened h b v f ok room = record {
    valid = unfold put_flag in put_flag-IsValid h v;
    open_window = record {
      place = refl;
      buffer = b;
      found = f;
      start = refl;
      room = omega (arith, ok.end, room);
    };
    some_room = omega (arith, ok.end, room);
    stream_same = refl;
    flag = refl;
    few_more = omega arith;
    other_flag = refl;
  }

  -- The chain with a fresh buffer behind.
  longer : Msghdr → Msghdr
  longer h = record h {
    chain = h.chain ++ (mbuf_get junk h.mbuf_size ∷ []);
    mbuf_len = add_size h.mbuf_len 1;
    last_write = h.last_write + 1;
  }

  extended-longer : (h : Msghdr) → IsValid h → extended junk h ≡ longer h
  unfolding longer
  extended-longer h v =
      ap
        (λ c. record h {
          chain = c ++ (mbuf_get junk h.mbuf_size ∷ []);
          mbuf_len = add_size h.mbuf_len 1;
          last_write = h.last_write + 1;
        })
        (take_all (h.last_write + 1) h.chain (omega (arith, v.at_end)))

  longer-IsValid :
      (h : Msghdr)
      → (v : IsValid h) → (last_of h v).buffer.write_pos ≡ h.mbuf_size
      → h.mbuf_len + 1 < 2 ^ 64
      → IsValid (longer h) × (stream (longer h) ≡ stream h)
  unfolding longer mbuf_get
  longer-IsValid h v full few =
      let l = last_of h v in
      let e = mbuf_get junk h.mbuf_size in
      let (ok, grown) = l.followed e (mbuf_get-IsBuffer h.mbuf_size) refl full in
      let n = length-append h.chain (e ∷ []) in
      (
        record {
          chain_ok = ok;
          at_end = omega (arith, n, v.at_end);
          counted = omega (arith, n, v.counted, few);
          positive = v.positive;
        },
        grown ∙ append-nil (stream h),
      )

  found_longer :
      (h : Msghdr)
      → IsValid h
      → get_elem? (longer h).chain (longer h).last_write ≡ some (mbuf_get junk h.mbuf_size)
  unfolding longer
  found_longer h v = get_elem?-append_last h.chain _ (h.last_write + 1) (omega (arith, v.at_end))

  mbuf_get-room : (h : Msghdr) → IsValid h → (mbuf_get junk h.mbuf_size).write_pos < h.mbuf_size
  unfolding mbuf_get
  mbuf_get-room h v = v.positive

  put_step :
      (h : Msghdr) (memory : Bool) (b : Mbuf)
      → get_elem? h.chain h.last_write ≡ some b
      → b.magic ≡ mbuf_magic
      → h.is_set_writted_after_put ≡ true
      → msg_put junk memory h ≡ (
          if b.write_pos == b.end
          then if memory then hand_out junk (extended junk h) else some (none, h)
          else hand_out junk h)
  unfolding msg_put
  put_step h memory b f m flag = rw (msg_put, flag, f, (==_iff b.magic mbuf_magic).1 m)

  hand_out_lem :
      (h : Msghdr) (b : Mbuf)
      → get_elem? h.chain h.last_write ≡ some b
      → hand_out junk h ≡ some (some (window_of h b), put_flag h)
  unfolding window_of put_flag
  hand_out_lem h b f = rw f

  -- `msgPut` on a valid message whose last window was reported, with memory at hand: it hands out
  -- a window with room, at the free end of the last buffer, which is a new one if the old is full;
  -- the message stays valid and the stream is the same.
  pub msg_put_lem :
      (h : Msghdr)
      → IsValid h
      → h.is_set_writted_after_put ≡ true
      → h.mbuf_len + 1 < 2 ^ 64
      → (w : Window) × (h' : Msghdr) × (msg_put junk true h ≡ some (some w, h')) × Opened h w h'
  msg_put_lem h v flag few =
      let l = last_of h v in
      let b = l.buffer in
      let step = put_step h true b l.found l.ok.magic flag in
      elim (Bool-cases (b.write_pos == b.end)) [
        | inl e ↦
            let (valid, same) = longer-IsValid h v ((==_iff _ _).0 e ∙ l.ok.end) few in
            let fresh = mbuf_get junk h.mbuf_size in
            let o =
              hand_out-Opened (longer h) fresh valid (found_longer h v)
                (unfold longer in mbuf_get-IsBuffer h.mbuf_size)
                (unfold longer in mbuf_get-room h v) in
            (
              window_of (longer h) fresh,
              put_flag (longer h),
              step
                  ∙ rw e (
                      ap (hand_out junk) (extended-longer h v)
                      ∙ hand_out_lem (longer h) fresh (found_longer h v)),
              record {
                valid = o.valid;
                open_window = o.open_window;
                some_room = o.some_room;
                stream_same = o.stream_same ∙ same;
                flag = o.flag;
                few_more = unfold longer put_flag in (omega (arith, few));
                other_flag = unfold longer in o.other_flag;
              },
            )
        | inr e ↦ (
          window_of h b,
          put_flag h,
          step ∙ rw e (hand_out_lem h b l.found),
          hand_out-Opened h b v l.found l.ok (ground (arith, l.ok.end, l.ok.bound)),
        )
      ]

  -- Without memory `msgPut` returns -1 and changes nothing where it needs a new buffer, and does
  -- as it does with memory where it needs none.
  pub msg_put-no_memory :
      (h : Msghdr)
      → IsValid h
      → h.is_set_writted_after_put ≡ true
      → (msg_put junk false h ≡ some (none, h)) ⊎ (msg_put junk false h ≡ msg_put junk true h)
  msg_put-no_memory h v flag =
      let l = last_of h v in
      let b = l.buffer in
      let step = λ (memory : Bool). put_step h memory b l.found l.ok.magic flag in
      elim (Bool-cases (b.write_pos == b.end)) [
        | inl e ↦ inl (step false ∙ rw e)
        | inr e ↦ inr (step false ∙ rw e (sym (step true ∙ rw e)))
      ]
