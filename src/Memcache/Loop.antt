-- ===== src/Memcache/Loop.antt =====
-- The loop of `memcacheParseReq` of src/protocol/memcache/proto_memcache.c over a slice's bytes.
use wheatserver.Common.{
  ℕ, zero, suc, ◌+◌, ◌*◌, Option, none, some, [], ◌∷◌, ◌++◌, ◌==◌, if◌then◌else◌, length, drop,
}
use wheatserver.Slice.{Bytes, Slice, view}
use wheatserver.Redis.Request.{cr, lf}
use wheatserver.Memcache.Data.{Stage, MemcacheProcData}
use wheatserver.Memcache.Request.{
  sp, Step, Parsed, is_lower, token, read_type, read_key, read_keys, skip_spaces, read_flags,
  read_expiry, read_vlen, read_cas, read_num, read_val, runto_crlf, read_noreply, after_noreply,
}

-- The body of the loop, on the byte at `pos`.
unfoldable pub req_step : Stage → MemcacheProcData → Bytes → ℕ → ℕ → Step
unfolding read_type read_key read_keys skip_spaces read_flags read_expiry read_vlen read_cas
    read_num read_val runto_crlf read_noreply after_noreply
req_step Stage.start r s pos ch =
    if is_lower ch
    then Step.next Stage.req_type (record r { token_pos = some pos }) (pos + 1)
    else Step.error
req_step Stage.req_type r s pos ch = read_type r s pos ch
req_step Stage.spaces_before_key r s pos ch =
    if ch == sp
    then Step.next Stage.spaces_before_key r (pos + 1)
    else Step.next Stage.key (record r { token_pos = none }) pos
req_step Stage.key r s pos ch = read_key r s pos ch
req_step Stage.spaces_before_keys r s pos ch = read_keys r pos ch
req_step Stage.spaces_before_flags r s pos ch =
    skip_spaces Stage.spaces_before_flags Stage.flags (λ d. record r { flag = d }) r pos ch
req_step Stage.flags r s pos ch = read_flags r pos ch
req_step Stage.spaces_before_expiry r s pos ch =
    skip_spaces Stage.spaces_before_expiry Stage.expiry (λ d. record r { expire = d }) r pos ch
req_step Stage.expiry r s pos ch = read_expiry r pos ch
req_step Stage.spaces_before_vlen r s pos ch =
    skip_spaces Stage.spaces_before_vlen Stage.vlen (λ d. record r { vlen = d }) r pos ch
req_step Stage.vlen r s pos ch = read_vlen r pos ch
req_step Stage.spaces_before_cas r s pos ch =
    skip_spaces Stage.spaces_before_cas Stage.cas (λ d. record r { cas = d }) r pos ch
req_step Stage.cas r s pos ch = read_cas r pos ch
req_step Stage.runto_val r s pos ch =
    if ch == lf then Step.next Stage.val (record r { vlen_left = r.vlen }) (pos + 1) else Step.error
req_step Stage.val r s pos ch = read_val r s pos ch
req_step Stage.spaces_before_num r s pos ch =
    skip_spaces Stage.spaces_before_num Stage.num (λ d. record r { num = d }) r pos ch
req_step Stage.num r s pos ch = read_num r pos ch
req_step Stage.runto_crlf r s pos ch = runto_crlf r pos ch
req_step Stage.crlf r s pos ch =
    if ch == sp
    then Step.next Stage.crlf r (pos + 1)
    else if ch == cr
    then Step.next Stage.almost_done r (pos + 1)
    else Step.error
req_step Stage.noreply r s pos ch = read_noreply r s pos ch
req_step Stage.after_noreply r s pos ch = after_noreply r pos ch
req_step Stage.almost_done r s pos ch = if ch == lf then Step.finish r (pos + 1) else Step.error
req_step Stage.done r s pos ch = Step.fault
req_step Stage.sentinel r s pos ch = Step.fault

-- Behind the loop: a token that the slice's end cuts is collected.
abbrev pub keep : Option Bytes → (Bytes → MemcacheProcData) → ℕ → Parsed
keep none put pos = Parsed.undefined
keep (some t) put pos = Parsed.parsed (put t) pos

unfoldable pub at_end : Stage → MemcacheProcData → Bytes → ℕ → Parsed
at_end Stage.req_type r s pos =
    keep (token r s pos) (λ t. record r { command = r.command ++ t; stage = Stage.req_type }) pos
at_end Stage.key r s pos =
    keep (token r s pos) (λ t. record r { key = r.key ++ t; stage = Stage.key }) pos
at_end Stage.noreply r s pos =
    keep (token r s pos)
      (λ t. record r { noreply_banner = r.noreply_banner ++ t; stage = Stage.noreply }) pos
at_end state r s pos = Parsed.parsed (record r { stage = state }) pos

-- How the loop goes on behind its body; `more` is the loop from its start on.
abbrev pub on_step : (Stage → MemcacheProcData → ℕ → Parsed) → Step → Parsed
on_step more (Step.next state r pos) = more state r pos
on_step more (Step.finish r pos) = Parsed.parsed (record r { stage = Stage.done }) pos
on_step more Step.error = Parsed.wrong
on_step more Step.fault = Parsed.undefined

-- `pos < s->len` is that there is a byte at `pos`.
abbrev pub at_byte :
    (Stage → MemcacheProcData → ℕ → Parsed) → Stage → MemcacheProcData → Bytes → ℕ → Bytes → Parsed
at_byte more state r s pos [] = at_end state r s pos
at_byte more state r s pos (ch ∷ rest) = on_step more (req_step state r s pos ch)

-- The loop, on fuel.
unfoldable pub req_loop : ℕ → Stage → MemcacheProcData → Bytes → ℕ → Parsed
unfolding req_step at_end
req_loop zero state r s pos = Parsed.running
req_loop (suc f) state r s pos =
    at_byte (λ state' r' pos'. req_loop f state' r' s pos') state r s pos (drop pos s)

-- Three runs of the body for each byte are enough.
unfoldable pub parse_req : MemcacheProcData → Slice → Parsed
unfolding req_loop
parse_req r s =
    let text = view s in
    req_loop (3 * length text + 3) r.stage (record r { token_pos = some 0 }) text 0
