-- ===== src/Memcache/Request.antt =====
-- `memcacheParseReq` of src/protocol/memcache/proto_memcache.c. `pos` is a place in the slice's
-- bytes; a `time_t` that would exceed its range, and a token that starts nowhere, are faults.
use wheatserver.Common.{
  ℕ, ◌+◌, ◌-◌, ◌*◌, ◌%◌, ◌^◌, Bool, true, ◌&&◌, ◌||◌, Option, none, some, [], ◌∷◌, ◌++◌, ltb, leb,
  ◌==◌, if◌then◌else◌, length, take, drop,
}
use wheatserver.Slice.{Bytes}
use wheatserver.Number.{is_digit}
use wheatserver.Redis.Request.{cr}
use wheatserver.Redis.Table.{icmp}
use wheatserver.Memcache.Data.{
  Command, Stage, MemcacheProcData, memcache_storage, memcache_cas, memcache_retrieval,
  memcache_arithmetic, memcache_delete, command_of,
}

abbrev pub sp : ℕ
sp = 32

-- What one run of the loop's body does, the loop's own `pos++` included: it goes on, jumps to
-- `done` or to `error`, or does what C leaves undefined or an assertion stops.
pub data Step : Type 0 where
  next : Stage → MemcacheProcData → ℕ → Step
  finish : MemcacheProcData → ℕ → Step
  error : Step
  fault : Step

-- What the parser returns: `wrong` is -1, and `running` is where the fuel ends first.
pub data Parsed : Type 0 where
  parsed : MemcacheProcData → ℕ → Parsed
  wrong : Parsed
  undefined : Parsed
  running : Parsed

abbrev pub is_lower : ℕ → Bool
is_lower c = leb b'a' c && leb c b'z'

abbrev pub ends_token : ℕ → Bool
ends_token ch = ch == sp || ch == cr

abbrev pub max_key_length : ℕ
max_key_length = 250

-- The bytes from `token_pos` up to `pos`.
abbrev pub token : MemcacheProcData → Bytes → ℕ → Option Bytes
token r s pos = elim r.token_pos [ none ↦ none | some t ↦ some (take (pos - t) (drop t s)) ]

-- SW_REQ_TYPE, behind the command: its type is known.
unfoldable pub after_type : Command → MemcacheProcData → ℕ → ℕ → Step
after_type Command.unknown r ch pos = Step.error
after_type Command.quit r ch pos = Step.next Stage.crlf (record r { quit = true }) pos
after_type c r ch pos =
    if ch == cr then Step.error else Step.next Stage.spaces_before_key r (pos + 1)

-- What is done with a token; one that starts nowhere is a fault.
abbrev pub on_token : Option Bytes → (Bytes → Step) → Step
on_token none use_token = Step.fault
on_token (some t) use_token = use_token t

abbrev pub typed : Command → MemcacheProcData → ℕ → ℕ → Step
typed c r pos ch = after_type c (record r { kind = c }) ch pos

-- A command that began in an earlier slice is collected in `command`, which a 0 ends.
unfoldable pub end_type : Option ℕ → Bytes → MemcacheProcData → Bytes → ℕ → ℕ → Step
unfolding after_type
end_type none command r s pos ch = Step.fault
end_type (some t) [] r s pos ch = typed (command_of (pos - t) (drop t s)) r pos ch
end_type (some t) (c ∷ cs) r s pos ch =
    let text = (c ∷ cs) ++ take pos (drop t s) in
    typed (command_of (length text) (text ++ (0 ∷ []))) (record r { command = text }) pos ch

unfoldable pub read_type : MemcacheProcData → Bytes → ℕ → ℕ → Step
unfolding end_type
read_type r s pos ch =
    if ends_token ch
    then end_type r.token_pos r.command r s pos ch
    else if is_lower ch
    then Step.next Stage.req_type r (pos + 1)
    else Step.error

-- Where the parser goes behind a key.
unfoldable pub after_key : Command → ℕ → Stage
after_key c ch =
    if memcache_storage c
    then Stage.spaces_before_flags
    else if memcache_arithmetic c
    then Stage.spaces_before_num
    else if memcache_delete c
    then (if ch == sp then Stage.spaces_before_num else Stage.runto_crlf)
    else if memcache_retrieval c
    then Stage.spaces_before_keys
    else Stage.runto_crlf

-- SW_KEY, at the end of the key.
unfoldable pub end_key : MemcacheProcData → Bytes → ℕ → ℕ → Step
unfolding after_key
end_key r k pos ch =
    let text = r.key ++ k in
    let r' = record r { keys = r.keys ++ (text ∷ []); key = []; token_pos = none } in
    if ltb max_key_length (length text)
    then Step.error
    else if ch == cr
    then if memcache_storage r.kind || memcache_arithmetic r.kind
      then Step.error
      else Step.next (after_key r.kind ch) r' pos
    else Step.next (after_key r.kind ch) r' (pos + 1)

-- `if (r->token_pos == -1) r->token_pos = pos;`
abbrev pub open_token : MemcacheProcData → Option ℕ → ℕ → MemcacheProcData
open_token r none pos = record r { token_pos = some pos }
open_token r (some t) pos = r

unfoldable pub read_key : MemcacheProcData → Bytes → ℕ → ℕ → Step
unfolding end_key
read_key r s pos ch =
    let r' = open_token r r.token_pos pos in
    if ends_token ch
    then on_token (token r' s pos) (λ k. end_key r' k pos ch)
    else Step.next Stage.key r' (pos + 1)

unfoldable pub read_keys : MemcacheProcData → ℕ → ℕ → Step
read_keys r pos ch =
    if memcache_retrieval r.kind
    then if ch == sp
      then Step.next Stage.spaces_before_keys r (pos + 1)
      else if ch == cr
      then Step.next Stage.almost_done r (pos + 1)
      else Step.next Stage.key (record r { token_pos = none }) pos
    else Step.fault

-- The spaces before a number, whose first digit is stored by `put`.
unfoldable pub skip_spaces :
    Stage → Stage → (ℕ → MemcacheProcData) → MemcacheProcData → ℕ → ℕ → Step
skip_spaces here there put r pos ch =
    if ch == sp
    then Step.next here r (pos + 1)
    else if is_digit ch
    then Step.next there (put (ch - b'0')) (pos + 1)
    else Step.error

unfoldable pub read_flags : MemcacheProcData → ℕ → ℕ → Step
read_flags r pos ch =
    if is_digit ch
    then Step.next Stage.flags (record r { flag = (r.flag * 10 + (ch - b'0')) % 2 ^ 16 }) (pos + 1)
    else if ch == sp
    then Step.next Stage.spaces_before_expiry r (pos + 1)
    else Step.error

abbrev pub time_max : ℕ
time_max = 2 ^ 63 - 1

unfoldable pub read_expiry : MemcacheProcData → ℕ → ℕ → Step
read_expiry r pos ch =
    let n = r.expire * 10 + (ch - b'0') in
    if is_digit ch
    then if ltb time_max n
      then Step.fault
      else Step.next Stage.expiry (record r { expire = n }) (pos + 1)
    else if ch == sp
    then Step.next Stage.spaces_before_vlen r (pos + 1)
    else Step.error

unfoldable pub read_vlen : MemcacheProcData → ℕ → ℕ → Step
read_vlen r pos ch =
    if is_digit ch
    then Step.next Stage.vlen (record r { vlen = (r.vlen * 10 + (ch - b'0')) % 2 ^ 32 }) (pos + 1)
    else if memcache_cas r.kind
    then if ch == sp then Step.next Stage.spaces_before_cas r pos else Step.error
    else if ends_token ch
    then Step.next Stage.runto_crlf r pos
    else Step.error

unfoldable pub read_cas : MemcacheProcData → ℕ → ℕ → Step
read_cas r pos ch =
    if is_digit ch
    then Step.next Stage.cas (record r { cas = (r.cas * 10 + (ch - b'0')) % 2 ^ 64 }) (pos + 1)
    else if ends_token ch
    then Step.next Stage.runto_crlf r pos
    else Step.error

unfoldable pub read_num : MemcacheProcData → ℕ → ℕ → Step
read_num r pos ch =
    if is_digit ch
    then Step.next Stage.num (record r { num = (r.num * 10 + (ch - b'0')) % 2 ^ 64 }) (pos + 1)
    else if ends_token ch
    then Step.next Stage.runto_crlf r pos
    else Step.error

-- SW_VAL: what is left of the value and of the slice, or the end of the value.
unfoldable pub read_val : MemcacheProcData → Bytes → ℕ → ℕ → Step
read_val r s pos ch =
    let left = if leb r.vlen_left (length s - pos) then r.vlen_left else length s - pos in
    if r.vlen_left == 0
    then if ch == cr then Step.next Stage.almost_done r (pos + 1) else Step.error
    else Step.next Stage.val
        (record r {
          vals = r.vals ++ (take left (drop pos s) ∷ []);
          vlen_left = r.vlen_left - left;
        })
        (pos + left)

-- Where a line ends, the value of a storage command follows.
abbrev pub line_end : MemcacheProcData → ℕ → Step
line_end r pos =
    Step.next (if memcache_storage r.kind then Stage.runto_val else Stage.almost_done) r (pos + 1)

abbrev pub takes_noreply : Command → Bool
takes_noreply c = memcache_storage c || (memcache_arithmetic c || memcache_delete c)

unfoldable pub runto_crlf : MemcacheProcData → ℕ → ℕ → Step
runto_crlf r pos ch =
    if ch == sp
    then Step.next Stage.runto_crlf r (pos + 1)
    else if ch == b'n'
    then if takes_noreply r.kind
      then Step.next Stage.noreply (record r { noreply_banner = []; token_pos = some pos })
          (pos + 1)
      else Step.error
    else if ch == cr
    then line_end r pos
    else Step.error

abbrev pub noreply_text : Bytes
noreply_text = b'n' ∷ b'o' ∷ b'r' ∷ b'e' ∷ b'p' ∷ b'l' ∷ b'y' ∷ []

-- SW_NOREPLY, at the end of the word.
unfoldable pub end_noreply : MemcacheProcData → Bytes → ℕ → Step
end_noreply r t pos =
    let text = r.noreply_banner ++ t in
    if icmp text noreply_text
    then if takes_noreply r.kind
      then Step.next Stage.after_noreply (record r { noreply_banner = text; noreply = true }) pos
      else Step.fault
    else Step.error

unfoldable pub read_noreply : MemcacheProcData → Bytes → ℕ → ℕ → Step
unfolding end_noreply
read_noreply r s pos ch =
    if ends_token ch
    then on_token (token r s pos) (λ t. end_noreply r t pos)
    else Step.next Stage.noreply r (pos + 1)

unfoldable pub after_noreply : MemcacheProcData → ℕ → ℕ → Step
after_noreply r pos ch =
    if ch == sp
    then Step.next Stage.after_noreply r (pos + 1)
    else if ch == cr
    then line_end r pos
    else Step.error
