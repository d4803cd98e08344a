-- ===== src/Memcache/Data.antt =====
-- The data of a request that src/protocol/memcache/proto_memcache.c parses, and its commands.
use wheatserver.Common.{ℕ, Bool, true, false, Option, some, List, [], ◌∷◌, ◌==◌, if◌then◌else◌}
use wheatserver.Slice.{Bytes}
use wheatserver.Redis.Table.{icmp}

-- `enum memcacheCommand`.
pub data Command : Type 0 where
  get : Command
  gets : Command
  delete : Command
  cas : Command
  set : Command
  add : Command
  replace : Command
  append : Command
  prepend : Command
  incr : Command
  decr : Command
  quit : Command
  unknown : Command

-- `enum reqStage`; SW_SENTINEL is its end mark.
pub data Stage : Type 0 where
  start : Stage
  req_type : Stage
  spaces_before_key : Stage
  key : Stage
  spaces_before_keys : Stage
  spaces_before_flags : Stage
  flags : Stage
  spaces_before_expiry : Stage
  expiry : Stage
  spaces_before_vlen : Stage
  vlen : Stage
  spaces_before_cas : Stage
  cas : Stage
  runto_val : Stage
  val : Stage
  spaces_before_num : Stage
  num : Stage
  runto_crlf : Stage
  crlf : Stage
  noreply : Stage
  after_noreply : Stage
  almost_done : Stage
  done : Stage
  sentinel : Stage

-- `token_pos` is `none` where the code has -1, and a value is the bytes that its slice shows.
pub record MemcacheProcData : Type 0 where
  pub token_pos : Option ℕ
  pub command : Bytes
  pub key : Bytes
  pub flag : ℕ
  pub expire : ℕ
  pub vlen : ℕ
  pub vlen_left : ℕ
  pub cas : ℕ
  pub num : ℕ
  pub keys : List Bytes
  pub vals : List Bytes
  pub stage : Stage
  pub kind : Command
  pub noreply_banner : Bytes
  pub noreply : Bool
  pub quit : Bool

abbrev pub init_memcache_data : MemcacheProcData
init_memcache_data = record {
  token_pos = some 0;
  command = [];
  key = [];
  flag = 0;
  expire = 0;
  vlen = 0;
  vlen_left = 0;
  cas = 0;
  num = 0;
  keys = [];
  vals = [];
  stage = Stage.start;
  kind = Command.unknown;
  noreply_banner = [];
  noreply = false;
  quit = false;
}

abbrev pub memcache_storage : Command → Bool
memcache_storage Command.set = true
memcache_storage Command.cas = true
memcache_storage Command.add = true
memcache_storage Command.replace = true
memcache_storage Command.append = true
memcache_storage Command.prepend = true
memcache_storage c = false

abbrev pub memcache_cas : Command → Bool
memcache_cas Command.cas = true
memcache_cas c = false

abbrev pub memcache_retrieval : Command → Bool
memcache_retrieval Command.get = true
memcache_retrieval Command.gets = true
memcache_retrieval c = false

abbrev pub memcache_arithmetic : Command → Bool
memcache_arithmetic Command.incr = true
memcache_arithmetic Command.decr = true
memcache_arithmetic c = false

abbrev pub memcache_delete : Command → Bool
memcache_delete Command.delete = true
memcache_delete c = false

abbrev four : ℕ → ℕ → ℕ → ℕ → Bytes
four a b c d = a ∷ b ∷ c ∷ d ∷ []

-- The switch on the length of the command, which stands at `m` in memory.
unfoldable pub command_of : ℕ → Bytes → Command
command_of n m =
    if n == 3
    then three
    else if n == 4
    then four_letters
    else if n == 6
    then six
    else if n == 7
    then seven
    else Command.unknown
  where
    three : Command
    three =
        if icmp m (four b'g' b'e' b't' b' ')
        then Command.get
        else if icmp m (four b's' b'e' b't' b' ')
        then Command.set
        else if icmp m (four b'a' b'd' b'd' b' ')
        then Command.add
        else if icmp m (four b'c' b'a' b's' b' ')
        then Command.cas
        else Command.unknown

    four_letters : Command
    four_letters =
        if icmp m (four b'g' b'e' b't' b's')
        then Command.gets
        else if icmp m (four b'i' b'n' b'c' b'r')
        then Command.incr
        else if icmp m (four b'd' b'e' b'c' b'r')
        then Command.decr
        else if icmp m (four b'q' b'u' b'i' b't')
        then Command.quit
        else Command.unknown

    six : Command
    six =
        if icmp m (b'a' ∷ b'p' ∷ four b'p' b'e' b'n' b'd')
        then Command.append
        else if icmp m (b'd' ∷ b'e' ∷ four b'l' b'e' b't' b'e')
        then Command.delete
        else Command.unknown

    seven : Command
    seven =
        if icmp m (b'p' ∷ b'r' ∷ b'e' ∷ four b'p' b'e' b'n' b'd')
        then Command.prepend
        else if icmp m (b'r' ∷ b'e' ∷ b'p' ∷ four b'l' b'a' b'c' b'e')
        then Command.replace
        else Command.unknown
