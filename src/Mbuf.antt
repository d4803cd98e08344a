-- ===== src/Mbuf.antt =====
-- src/worker/mbuf.c: the chain of fixed-size buffers that a client's requests are read into.
-- A pointer to a `struct mbuf` is its place in the chain that starts at `protected`, and a pointer
-- into its block is an offset from `start`. What a failed assertion or a dangling pointer stops is
-- `none`. What malloc leaves in a block is the parameter `junk`, and whether it gives one `memory`.
pub mod Inv
pub mod Write
pub mod Read
pub mod Readed
pub mod CanRead
pub mod Clean
pub mod Fifo
pub mod Put
use wheatserver.Common.{
  ℕ, zero, suc, ◌+◌, ◌-◌, ◌*◌, ◌%◌, ◌^◌, Bool, true, false, not, ◌&&◌, ◌||◌, Option, none, some,
  List, [], ◌∷◌, ◌++◌, ltb, leb, ◌==◌, if◌then◌else◌, length, get_elem?, set, take, drop, mul_size,
  add_size, sub_size,
}
use wheatserver.Slice.{Bytes, Slice}
use wheatserver.Memory.{junk_bytes, write}

abbrev pub mbuf_magic : ℕ
mbuf_magic = 0x19920828

pub record Mbuf : Type 0 where
  pub magic : ℕ
  pub block : Bytes
  pub read_pos : ℕ
  pub write_pos : ℕ
  pub end : ℕ

pub record Msghdr : Type 0 where
  -- From `protected` on, along `next`.
  pub chain : List Mbuf
  pub last_write : ℕ
  pub last_read : ℕ
  pub mbuf_len : ℕ
  pub mbuf_size : ℕ
  pub is_set_writted_after_put : Bool
  pub is_set_readed_after_read : Bool

-- The slice that `msgPut` hands out: room for `len` bytes at `at` in the buffer `place`.
pub record Window : Type 0 where
  pub place : ℕ
  pub at : ℕ
  pub len : ℕ

infixl 5 ◌>>=◌
abbrev pub ◌>>=◌ : {A B : Type 0} → Option A → (A → Option B) → Option B
none >>= f = none
some a >>= f = f a

abbrev pub check : {A : Type 0} → Bool → Option A → Option A
check true m = m
check false m = none

abbrev pub has_magic : Mbuf → Bool
has_magic b = b.magic == mbuf_magic

unfoldable pub msg_clean_loop : ℕ → List Mbuf → ℕ → List Mbuf × ℕ
msg_clean_loop zero chain len = (chain, len)
msg_clean_loop (suc k) [] len = ([], len)
msg_clean_loop (suc k) (b ∷ bs) len = msg_clean_loop k bs (sub_size len 1)

-- Frees the buffers before `last_read`, which thereby move `last_read` to the first place.
unfoldable pub msg_clean : Msghdr → Msghdr
unfolding msg_clean_loop
msg_clean h =
    let (chain, len) = msg_clean_loop h.last_read h.chain h.mbuf_len in
    record h {
      chain = chain;
      mbuf_len = len;
      last_read = 0;
      last_write = h.last_write - h.last_read;
    }

unfoldable pub msg_free_loop : List Mbuf → ℕ → ℕ
msg_free_loop [] len = len
msg_free_loop (b ∷ bs) len = msg_free_loop bs (sub_size len 1)

-- The count that `msgFree` is left with.
unfoldable pub msg_free : Msghdr → ℕ
msg_free h = msg_free_loop h.chain h.mbuf_len

-- The first buffer is read over and a next one exists.
abbrev pub read_over : Mbuf → Option Mbuf → Bool
read_over b none = false
read_over b (some c) = (b.read_pos == b.write_pos) && (b.write_pos == b.end)

abbrev pub shown : Mbuf → Slice
shown b = record { pointer = some (drop b.read_pos b.block); len = b.write_pos - b.read_pos }

unfoldable pub msg_read : Msghdr → Option (Slice × Msghdr)
msg_read h = check h.is_set_readed_after_read (do
  b ← get_elem? h.chain h.last_read
  check (has_magic b) (
      let next = get_elem? h.chain (h.last_read + 1) in
      let last_read = if read_over b next then h.last_read + 1 else h.last_read in
      do
        c ← get_elem? h.chain last_read
        some (shown c, record h { last_read = last_read; is_set_readed_after_read = false })))

unfoldable pub msg_set_readed : Msghdr → ℕ → Option Msghdr
msg_set_readed h len = do
  b ← get_elem? h.chain h.last_read
  check (has_magic b && leb len (b.write_pos - b.read_pos) && not h.is_set_readed_after_read) (
      some (record h {
        chain = set h.chain h.last_read (record b { read_pos = b.read_pos + len });
        is_set_readed_after_read = true;
      }))

unfoldable pub msg_set_writted : Msghdr → ℕ → Option Msghdr
msg_set_writted h len = do
  b ← get_elem? h.chain h.last_write
  check (has_magic b && leb len (b.end - b.write_pos) && not h.is_set_writted_after_put) (
      some (record h {
        chain = set h.chain h.last_write (record b { write_pos = b.write_pos + len });
        is_set_writted_after_put = true;
      }))

-- What the owner of a window does with it: `bytes` are stored from its start on.
unfoldable pub fill : Msghdr → Window → Bytes → Option Msghdr
fill h w bytes = do
  b ← get_elem? h.chain w.place
  block ← write b.block w.at bytes (length bytes)
  some (record h { chain = set h.chain w.place (record b { block = block }) })

unfoldable pub msg_get_size : Msghdr → ℕ
msg_get_size h = mul_size h.mbuf_len h.mbuf_size

abbrev pub has_written : Option Mbuf → Bool
has_written none = false
has_written (some c) = not (c.write_pos == 0)

unfoldable pub msg_can_read : Msghdr → Option Bool
msg_can_read h = do
  b ← get_elem? h.chain h.last_read
  check (has_magic b)
      (some (not (b.read_pos == b.write_pos) || has_written (get_elem? h.chain (h.last_read + 1))))

module _ (junk : ℕ → ℕ) where
  unfoldable pub mbuf_get : ℕ → Mbuf
  mbuf_get mbuf_size = record {
    magic = mbuf_magic;
    block = junk_bytes junk mbuf_size;
    read_pos = 0;
    write_pos = 0;
    end = mbuf_size;
  }

  unfoldable pub msg_create : ℕ → Msghdr
  msg_create mbuf_size = record {
    chain = mbuf_get mbuf_size ∷ [];
    last_write = 0;
    last_read = 0;
    mbuf_len = 1;
    mbuf_size = mbuf_size;
    is_set_writted_after_put = true;
    is_set_readed_after_read = true;
  }

  -- The chain with a new buffer behind `last_write`.
  abbrev extended : Msghdr → Msghdr
  extended h = record h {
    chain = take (h.last_write + 1) h.chain ++ (mbuf_get h.mbuf_size ∷ []);
    mbuf_len = add_size h.mbuf_len 1;
    last_write = h.last_write + 1;
  }

  abbrev hand_out : Msghdr → Option (Option Window × Msghdr)
  hand_out h = do
    b ← get_elem? h.chain h.last_write
    some (
      some (record { place = h.last_write; at = b.write_pos; len = b.end - b.write_pos }),
      record h { is_set_writted_after_put = false },
    )

  -- The window is `none` where the code returns -1.
  unfoldable pub msg_put : Bool → Msghdr → Option (Option Window × Msghdr)
  msg_put memory h = check h.is_set_writted_after_put (do
    b ← get_elem? h.chain h.last_write
    check (has_magic b) (
        if b.write_pos == b.end
        then if memory then hand_out (extended h) else some (none, h)
        else hand_out h))
