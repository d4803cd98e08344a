-- ===== src/Mbuf/Inv.antt =====
-- What the chain of src/worker/mbuf.c looks like between two calls, and the bytes it holds unread.
use mathlib.Core.Path.{subst}
use wheatserver.Common.{
  ℕ, zero, suc, ◌+◌, ◌≤◌, ◌<◌, ◌≡◌, refl, ap, sym, ◌∙◌, some, List, [], ◌∷◌, ◌++◌, length,
  get_elem?, set, drop, arith, append_assoc, append-nil,
}
use wheatserver.Slice.{Bytes, view}
use wheatserver.Mbuf.{Mbuf, Msghdr, mbuf_magic, shown}

pub record IsBuffer (size : ℕ) (b : Mbuf) : Type 0 where
  pub magic : b.magic ≡ mbuf_magic
  pub block : length b.block ≡ size
  pub end : b.end ≡ size
  pub order : b.read_pos ≤ b.write_pos
  pub bound : b.write_pos ≤ size

-- From `last_read` on: a buffer with one behind it is full, and none behind is read from.
abbrev pub Current : ℕ → List Mbuf → Type 0
Current size [] = ⊥
Current size (b ∷ []) = IsBuffer size b
Current size (b ∷ c ∷ cs) =
    IsBuffer size b × (b.write_pos ≡ size) × (c.read_pos ≡ 0) × Current size (c ∷ cs)

-- Before `last_read`, the buffers are full and read over.
abbrev pub Chain : ℕ → ℕ → List Mbuf → Type 0
Chain size zero l = Current size l
Chain size (suc k) [] = ⊥
Chain size (suc k) (b ∷ bs) =
    IsBuffer size b × (b.read_pos ≡ size) × (b.write_pos ≡ size) × Chain size k bs

pub record IsValid (h : Msghdr) : Type 0 where
  pub chain_ok : Chain h.mbuf_size h.last_read h.chain
  pub at_end : suc h.last_write ≡ length h.chain
  pub counted : h.mbuf_len ≡ length h.chain
  pub positive : 0 < h.mbuf_size

-- The unread bytes of one buffer, of a chain, and of a message.
abbrev pub segment : Mbuf → Bytes
segment b = view (shown b)

abbrev pub unread : List Mbuf → Bytes
unread [] = []
unread (b ∷ bs) = segment b ++ unread bs

abbrev pub stream : Msghdr → Bytes
stream h = unread (drop h.last_read h.chain)

abbrev pub head_read : List Mbuf → ℕ
head_read [] = 0
head_read (b ∷ bs) = b.read_pos

pub unread-append : (xs ys : List Mbuf) → unread (xs ++ ys) ≡ unread xs ++ unread ys
unread-append [] ys = refl
unread-append (b ∷ xs) ys =
    rw (unread-append xs ys) (sym (append_assoc (segment b) (unread xs) (unread ys)))

-- The last buffer of a list, at the place `n`: what stands before it, and what becomes of the list
-- when it is changed, or another is put behind it.
pub record Last (size n : ℕ) (Ok : List Mbuf → Type 0) (cut : List Mbuf → List Mbuf) (l : List Mbuf)
    : Type 0 where
  pub buffer : Mbuf
  pub found : get_elem? l n ≡ some buffer
  pub ok : IsBuffer size buffer
  pub before : Bytes
  pub splits : unread (cut l) ≡ before ++ segment buffer
  pub changed :
      (d : Mbuf)
      → IsBuffer size d
      → d.read_pos ≡ buffer.read_pos
      → Ok (set l n d)
        × (unread (cut (set l n d)) ≡ before ++ segment d)
        × (head_read (set l n d) ≡ head_read l)
  pub followed :
      (e : Mbuf)
      → IsBuffer size e
      → e.read_pos ≡ 0
      → buffer.write_pos ≡ size
      → Ok (l ++ (e ∷ [])) × (unread (cut (l ++ (e ∷ []))) ≡ unread (cut l) ++ segment e)

pub Current-cons :
    {size : ℕ} (b : Mbuf) (l : List Mbuf)
    → IsBuffer size b
    → b.write_pos ≡ size
    → head_read l ≡ 0
    → Current size l
    → Current size (b ∷ l)
Current-cons b [] ok full h c = absurd c
Current-cons b (c ∷ cs) ok full h cur = (ok, full, h, cur)

Current-Last :
    (size : ℕ) (b : Mbuf) (bs : List Mbuf)
    → Current size (b ∷ bs)
    → Last size (length bs) (Current size) (λ l. l) (b ∷ bs)
Current-Last size b [] ok = record {
  buffer = b;
  found = refl;
  ok = ok;
  before = [];
  splits = append-nil (segment b);
  changed = λ d d_ok same. (d_ok, append-nil (segment d), same);
  followed = λ e e_ok e_new full. ((ok, full, e_new, e_ok), simp append-nil);
}
Current-Last size b (c ∷ cs) (ok, full, fresh, rest) =
    let w = Current-Last size c cs rest in
    record {
      buffer = w.buffer;
      found = w.found;
      ok = w.ok;
      before = segment b ++ w.before;
      splits = ap (λ l. segment b ++ l) w.splits ∙ sym (append_assoc (segment b) w.before _);
      changed = λ d d_ok same.
          let (x, y, z) = w.changed d d_ok same in
          (
            Current-cons b _ ok full (z ∙ fresh) x,
            ap (λ l. segment b ++ l) y ∙ sym (append_assoc (segment b) w.before _),
            refl,
          );
      followed = λ e e_ok e_new f.
          let (x, y) = w.followed e e_ok e_new f in
          ((ok, full, fresh, x), ap (λ l. segment b ++ l) y ∙ sym (append_assoc (segment b) _ _));
    }

pub Current-head : {size : ℕ} (b : Mbuf) (bs : List Mbuf) → Current size (b ∷ bs) → IsBuffer size b
Current-head b [] ok = ok
Current-head b (c ∷ cs) ok = ok.0

chain-nil : (size k : ℕ) → Chain size k [] → ⊥
chain-nil size zero ok = ok
chain-nil size (suc k) ok = ok

suc-one : (k : ℕ) → suc k + 1 ≡ suc (k + 1)
suc-one k = omega arith

-- The same, of a chain with k buffers that are read over.
pub chain-Last :
    (size k n : ℕ) (l : List Mbuf)
    → Chain size k l
    → suc n ≡ length l
    → Last size n (Chain size k) (drop k) l
chain-Last size zero n [] ok e = absurd ok
chain-Last size zero n (b ∷ bs) ok e =
    subst (λ m. Last size m (Current size) (λ l. l) (b ∷ bs)) (omega arith)
      (Current-Last size b bs ok)
chain-Last size (suc k) n [] ok e = absurd ok
chain-Last size (suc k) zero (b ∷ []) (ok, over, full, rest) e = absurd (chain-nil size k rest)
chain-Last size (suc k) zero (b ∷ c ∷ cs) ok e = absurd (omega arith)
chain-Last size (suc k) (suc n) (b ∷ bs) (ok, over, full, rest) e =
    let w = chain-Last size k n bs rest (omega arith) in
    record {
      buffer = w.buffer;
      found = w.found;
      ok = w.ok;
      before = w.before;
      splits = w.splits;
      changed =
          λ d d_ok same. let (x, y, z) = w.changed d d_ok same in ((ok, over, full, x), y, refl);
      followed =
          λ e e_ok e_new f. let (x, y) = w.followed e e_ok e_new f in ((ok, over, full, x), y);
    }

-- The buffer that is read next, at the place `k`.
pub record Reads (size k : ℕ) (l : List Mbuf) : Type 0 where
  pub buffer : Mbuf
  pub rest : List Mbuf
  pub found : get_elem? l k ≡ some buffer
  pub behind : drop k l ≡ buffer ∷ rest
  pub next : get_elem? l (k + 1) ≡ get_elem? rest 0
  pub current : Current size (buffer ∷ rest)
  pub changed :
      (d : Mbuf)
      → Current size (d ∷ rest)
      → Chain size k (set l k d) × (drop k (set l k d) ≡ d ∷ rest)
  pub advanced :
      buffer.read_pos ≡ size
      → buffer.write_pos ≡ size
      → Current size rest
      → Chain size (suc k) l × (drop (suc k) l ≡ rest)

pub chain-Reads : (size k : ℕ) (l : List Mbuf) → Chain size k l → Reads size k l
chain-Reads size zero [] ok = absurd ok
chain-Reads size zero (b ∷ bs) ok = record {
  buffer = b;
  rest = bs;
  found = refl;
  behind = refl;
  next = refl;
  current = ok;
  changed = λ d d_ok. (d_ok, refl);
  advanced = λ over full r. ((Current-head b bs ok, over, full, r), refl);
}
chain-Reads size (suc k) [] ok = absurd ok
chain-Reads size (suc k) (b ∷ bs) (ok, over, full, rest) =
    let w = chain-Reads size k bs rest in
    record {
      buffer = w.buffer;
      rest = w.rest;
      found = w.found;
      behind = w.behind;
      next = ap (get_elem? (b ∷ bs)) (suc-one k) ∙ w.next;
      current = w.current;
      changed = λ d d_ok. let (x, y) = w.changed d d_ok in ((ok, over, full, x), y);
      advanced = λ o f r. let (x, y) = w.advanced o f r in ((ok, over, full, x), y);
    }
