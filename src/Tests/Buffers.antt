-- ===== src/Tests/Buffers.antt =====
-- src/worker/mbuf.c at concrete inputs.
use wheatserver.Common.{
  ℕ, ◌+◌, ◌≡◌, ◌≢◌, ◌↔◌, ◌⊎◌, refl, Bool, true, false, Option, none, some, [], ◌∷◌, ◌++◌, arith,
  drop,
}
use wheatserver.Slice.{Bytes, Slice, view}
use wheatserver.Memory.{write}
use wheatserver.Mbuf.{
  Mbuf, Msghdr, Window, mbuf_magic, msg_create, msg_put, fill, msg_set_writted, msg_read,
  msg_set_readed, msg_clean, msg_can_read, msg_get_size, msg_free, mbuf_get,
}
use wheatserver.Mbuf.Inv.{IsValid, stream}
use wheatserver.Mbuf.Write.{IsOpen, msg_set_writted-fill}
use wheatserver.Mbuf.Put.{msg_create-IsValid, msg_put_lem, msg_put-no_memory, Opened}
use wheatserver.Mbuf.Read.{Shows, IsShown, msg_read_lem}
use wheatserver.Mbuf.Readed.{msg_set_readed_lem}
use wheatserver.Mbuf.CanRead.{msg_can_read_lem}
use wheatserver.Mbuf.Clean.{msg_clean_lem, msg_free-zero}
use wheatserver.Mbuf.Fifo.{Uses, Uses-IsQueue, IsQueue}

abbrev zeros : ℕ → ℕ
zeros i = 0

abbrev buffer : Bytes → ℕ → ℕ → Mbuf
buffer block r w = record {
  magic = mbuf_magic;
  block = block;
  read_pos = r;
  write_pos = w;
  end = 2;
}

-- A full buffer that is read over, and one that holds a byte.
abbrev two : Msghdr
two = record {
  chain = buffer (1 ∷ 2 ∷ []) 2 2 ∷ buffer (3 ∷ 0 ∷ []) 0 1 ∷ [];
  last_write = 1;
  last_read = 0;
  mbuf_len = 2;
  mbuf_size = 2;
  is_set_writted_after_put = true;
  is_set_readed_after_read = true;
}

two-IsValid : IsValid two
two-IsValid = omega arith

read_run : Msghdr → Option Bytes
read_run h = elim (msg_read h) [ none ↦ none | some (s, h') ↦ some (view s) ]

read_two : read_run two ≡ some (3 ∷ [])
unfolding read_run msg_read
read_two = refl

-- The window of `two` is out.
abbrev opened : Msghdr
opened = record two { is_set_writted_after_put = false }

abbrev last_byte : Window
last_byte = record { place = 1; at = 1; len = 1 }

-- The second buffer is shown.
abbrev shown_two : Msghdr
shown_two = record two { last_read = 1; is_set_readed_after_read = false }

abbrev three : Slice
three = record { pointer = some (3 ∷ 0 ∷ []); len = 1 }

empty-IsValid :
    IsValid (msg_create zeros 2)
    × (stream (msg_create zeros 2) ≡ [])
    × ((msg_create zeros 2).is_set_writted_after_put ≡ true)
    × ((msg_create zeros 2).is_set_readed_after_read ≡ true)
empty-IsValid = msg_create-IsValid zeros 2 (omega arith)

msg_put_lem_example :
    (w : Window) × (h : Msghdr) × (msg_put zeros true two ≡ some (some w, h)) × Opened zeros two w h
msg_put_lem_example = msg_put_lem zeros two two-IsValid refl (omega arith)

put_no_memory :
    (msg_put zeros false two ≡ some (none, two))
    ⊎ (msg_put zeros false two ≡ msg_put zeros true two)
put_no_memory = msg_put-no_memory zeros two two-IsValid refl

opened-IsOpen : IsOpen opened last_byte
opened-IsOpen = record {
  place = refl;
  buffer = buffer (3 ∷ 0 ∷ []) 0 1;
  found = refl;
  start = refl;
  room = refl;
}

msg_set_writted-fill_example :
    (filled : Msghdr) × (done : Msghdr) × (fill opened last_byte (4 ∷ []) ≡ some filled)
    × (msg_set_writted filled 1 ≡ some done)
    × IsValid done
    × (stream done ≡ stream opened ++ (4 ∷ []))
    × (done.is_set_writted_after_put ≡ true)
    × (done.is_set_readed_after_read ≡ true)
    × (done.mbuf_len ≡ opened.mbuf_len)
msg_set_writted-fill_example =
    msg_set_writted-fill opened last_byte (4 ∷ []) (omega arith) opened-IsOpen refl (omega arith)

msg_read_lem_example : (s : Slice) × (h : Msghdr) × (msg_read two ≡ some (s, h)) × Shows two s h
msg_read_lem_example = msg_read_lem two two-IsValid refl

view_two-IsShown : IsShown shown_two three
view_two-IsShown = record { buffer = buffer (3 ∷ 0 ∷ []) 0 1; found = refl; slice = refl }

msg_set_readed_lem_example :
    (h : Msghdr) × (msg_set_readed shown_two 1 ≡ some h)
    × IsValid h
    × (stream h ≡ drop 1 (stream shown_two))
    × (h.is_set_readed_after_read ≡ true)
    × (h.is_set_writted_after_put ≡ true)
msg_set_readed_lem_example =
    msg_set_readed_lem shown_two three 1 (omega arith) view_two-IsShown refl (omega arith)

msg_can_read_lem_run : (r : Bool) × (msg_can_read two ≡ some r) × ((r ≡ true) ↔ (stream two ≢ []))
msg_can_read_lem_run = msg_can_read_lem two two-IsValid

msg_clean_lem_example :
    IsValid (msg_clean shown_two)
    × (stream (msg_clean shown_two) ≡ stream shown_two)
    × ((msg_clean shown_two).chain ≡ drop 1 shown_two.chain)
    × (msg_get_size (msg_clean shown_two) + 2 ≡ msg_get_size shown_two)
    × ((msg_clean shown_two).is_set_writted_after_put ≡ true)
    × ((msg_clean shown_two).is_set_readed_after_read ≡ false)
msg_clean_lem_example = msg_clean_lem shown_two (omega arith) (omega arith) (omega arith)

msg_free-zero_example : msg_free two ≡ 0
msg_free-zero_example = msg_free-zero two two-IsValid (omega arith)

-- A message of two-byte buffers that took one byte, gave it, and was cleaned.
abbrev wrote : Msghdr
wrote = record {
  chain = buffer (7 ∷ 0 ∷ []) 0 1 ∷ [];
  last_write = 0;
  last_read = 0;
  mbuf_len = 1;
  mbuf_size = 2;
  is_set_writted_after_put = true;
  is_set_readed_after_read = true;
}

use_of_wrote : Uses zeros wrote (7 ∷ []) []
unfolding msg_create msg_put fill msg_set_writted mbuf_get write
use_of_wrote =
    Uses.write (record { place = 0; at = 0; len = 2 }) (7 ∷ []) (Uses.create 2 (omega arith))
      (omega arith) refl (omega arith) refl refl

use_of_read : Uses zeros (record wrote { chain = buffer (7 ∷ 0 ∷ []) 1 1 ∷ [] }) (7 ∷ []) (7 ∷ [])
unfolding msg_read msg_set_readed
use_of_read =
    Uses.read (record { pointer = some (7 ∷ 0 ∷ []); len = 1 }) 1 use_of_wrote refl (omega arith)
      refl

Uses-IsQueue_example :
    IsQueue (record wrote { chain = buffer (7 ∷ 0 ∷ []) 1 1 ∷ [] }) (7 ∷ []) (7 ∷ [])
Uses-IsQueue_example = Uses-IsQueue zeros use_of_read
