-- ===== src/Memcache/Protocol.antt =====
-- What src/protocol/memcache/proto_memcache.c offers to the server and its applications:
-- parseMemcache, and what it says of a request.
use wheatserver.Common.{ℕ, ◌≡◌, refl, ap, List, [], ◌∷◌, ◌++◌, length, append-nil}
use wheatserver.Slice.{Bytes, Slice, view}
use wheatserver.Slice.Cut.{view-cut}
use wheatserver.Memcache.Data.{Command, Stage, MemcacheProcData, init_memcache_data}
use wheatserver.Memcache.Request.{Parsed}
use wheatserver.Memcache.Loop.{parse_req}
use wheatserver.Memcache.Encode.{Storage, storage_text}
use wheatserver.Memcache.Values.{with_value}
use wheatserver.Memcache.RoundTrip.{IsStorage, stored, parse_req-storage}

-- The return values: WHEAT_OK, WHEAT_WRONG, and 1 for a request that is not complete.
pub data Status : Type 0 where
  wheat_ok : Status
  wheat_wrong : Status
  incomplete : Status

-- What `parseMemcache` leaves: its value, `*out`, the slice and the data, but on WHEAT_WRONG; or no
-- result.
pub data Outcome : Type 0 where
  returned : Status → ℕ → Slice → MemcacheProcData → Outcome
  refused : Outcome
  no_result : Outcome

-- MEMCACHE_FINISHED
abbrev pub memcache_finished : MemcacheProcData → Status
memcache_finished r = elim r.stage [ Stage.done ↦ Status.wheat_ok | _ ↦ Status.incomplete ]

abbrev pub after_parse : Slice → Parsed → Outcome
after_parse s (Parsed.parsed r n) =
    Outcome.returned (memcache_finished r) n (record s { len = n }) r
after_parse s Parsed.wrong = Outcome.refused
after_parse s p = Outcome.no_result

unfoldable pub parse_memcache : MemcacheProcData → Slice → Outcome
parse_memcache r s = after_parse s (parse_req r s)

abbrev first_or : List Bytes → Bytes → Bytes
first_or [] key = key
first_or (k ∷ ks) key = k

unfoldable pub get_memcache_key : MemcacheProcData → Bytes
get_memcache_key r = first_or r.keys r.key

unfoldable pub get_memcache_command : MemcacheProcData → Command
get_memcache_command r = r.kind

unfoldable pub get_memcache_val_len : MemcacheProcData → ℕ
get_memcache_val_len r = r.vlen

unfoldable pub get_memcache_flag : MemcacheProcData → ℕ
get_memcache_flag r = r.flag

unfoldable pub get_memcache_val : MemcacheProcData → List Bytes
get_memcache_val r = r.vals

-- The bytes of a value, from the slices that hold its parts.
abbrev pub joined : List Bytes → Bytes
joined [] = []
joined (b ∷ bs) = b ++ joined bs

-- What an application reads of a request that stores a value.
pub record IsRead (q : Storage) (r : MemcacheProcData) : Type 0 where
  pub command : get_memcache_command r ≡ q.command
  pub key : get_memcache_key r ≡ q.key
  pub flags : get_memcache_flag r ≡ q.flags
  pub val_len : get_memcache_val_len r ≡ length q.value
  pub val : joined (get_memcache_val r) ≡ q.value

joined_value : (value : Bytes) → joined (with_value [] value) ≡ value
joined_value [] = refl
joined_value (c ∷ cs) = append-nil (c ∷ cs)

stored-IsRead : (q : Storage) → IsRead q (stored q)
unfolding get_memcache_key get_memcache_command get_memcache_val_len get_memcache_flag
    get_memcache_val
stored-IsRead q = record {
  command = refl;
  key = refl;
  flags = refl;
  val_len = refl;
  val = joined_value q.value;
}

-- On a whole request that stores a value, parseMemcache returns WHEAT_OK and the request's length and
-- cuts the slice to it, so that the rest is left; and what it stands for is the request's.
pub parse_memcache-storage :
    (q : Storage) (s : Slice) (rest : Bytes)
    → IsStorage q
    → view s ≡ storage_text q ++ rest
    → (s' : Slice) × (r : MemcacheProcData) × (parse_memcache init_memcache_data s
        ≡ Outcome.returned Status.wheat_ok (length (storage_text q)) s' r)
      × (view s' ≡ storage_text q)
      × IsRead q r
unfolding parse_memcache
parse_memcache-storage q s rest w e = (
  record s { len = length (storage_text q) },
  stored q,
  ap (after_parse s) (parse_req-storage q s rest w e),
  view-cut s (storage_text q) rest e,
  stored-IsRead q,
)
