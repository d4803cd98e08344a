-- ===== src/Slice/Cut.antt =====
-- A slice of src/slice.c whose length is lowered to a text that its bytes start with.
use wheatserver.Common.{
  ◌≤◌, ◌≡◌, sym, ap, ◌∙◌, ◌++◌, length, take, arith, length-append, length-take, take-append_le,
  take_all, take-take_le,
}
use wheatserver.Slice.{Bytes, Slice, view, readable}

pub view-cut :
    (s : Slice) (text rest : Bytes)
    → view s ≡ text ++ rest
    → view (record s { len = length text }) ≡ text
view-cut s text rest e =
    let inside : length text ≤ s.len =
      omega (arith, ap length e, length-append text rest, length-take s.len (readable s.pointer)) in
    sym (take-take_le (length text) s.len (readable s.pointer) inside)
    ∙ ap (take (length text)) e
    ∙ take-append_le (length text) text rest (omega arith)
    ∙ take_all (length text) text (omega arith)
