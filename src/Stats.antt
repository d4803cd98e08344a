-- ===== src/Stats.antt =====
-- src/stats.c: the statistics that the workers send and the master adds up. A `long long` and a
-- `size_t` are numbers modulo 2 ^ 64, the former in two's complement. The names and the print
-- formats of the items, and the sockets, are left out.
pub mod Sums
pub mod Atoi
pub mod Places
pub mod Sending
use wheatserver.Common.{
  ℕ, zero, suc, ◌+◌, ◌-◌, ◌*◌, ◌%◌, ◌^◌, Bool, true, false, not, ◌&&◌, ◌||◌, Option, none, some,
  List, [], ◌∷◌, ◌++◌, ltb, leb, ◌==◌, if◌then◌else◌, length, ℤ, pos, negsuc, add_size, get_elem?,
  set,
}
use wheatserver.Slice.{Bytes}
use wheatserver.Number.{string2ll, is_digit}
use wheatserver.Number.Decimal.{decimal}
use wheatserver.Number.Print.{signed_decimal}

pub data StatType : Type 0 where
  sum_stat max_stat assign_stat : StatType

-- `types` and `only_master` are what `Server.stats` says of the items, of which there are `count`.
pub record Items : Type 0 where
  pub count : ℕ
  pub types : ℕ → StatType
  pub only_master : ℕ → Bool

-- Values by their places.
abbrev pub Values : Type 0
Values = ℕ → ℕ

pub record WorkerStats : Type 0 where
  pub pid : ℤ
  pub refresh_time : ℕ
  pub stats : Values

pub record Master : Type 0 where
  pub workers : List WorkerStats
  pub stats : Values

-- The two's complement.
abbrev pub to_word : ℤ → ℕ
to_word (pos n) = n % 2 ^ 64
to_word (negsuc n) = 2 ^ 64 - 1 - n % 2 ^ 64

-- `<` of `long long`.
abbrev pub less_signed : ℕ → ℕ → Bool
less_signed a b = ltb (add_size a (2 ^ 63)) (add_size b (2 ^ 63))

abbrev pub is_space : ℕ → Bool
is_space c = (c == 32) || (leb 9 c && leb c 13)

abbrev pub digits_value : ℕ → Bytes → ℕ
digits_value v [] = v
digits_value v (c ∷ cs) =
    let rest = digits_value (v * 10 + (c - b'0')) cs in if is_digit c then rest else v

abbrev pub negated : ℕ → ℤ
negated zero = pos 0
negated (suc n) = negsuc n

abbrev pub signed_digits : Bytes → ℤ
signed_digits [] = pos 0
signed_digits (c ∷ cs) =
    if c == b'-'
    then negated (digits_value 0 cs)
    else if c == b'+'
    then pos (digits_value 0 cs)
    else pos (digits_value 0 (c ∷ cs))

-- The C library's, for numbers that an `int` holds.
unfoldable pub atoi : Bytes → ℤ
atoi [] = pos 0
atoi (c ∷ cs) = let rest = atoi cs in if is_space c then rest else signed_digits (c ∷ cs)

abbrev pub equal : ℤ → ℤ → Bool
equal (pos m) (pos n) = m == n
equal (negsuc m) (negsuc n) = m == n
equal (pos m) (negsuc n) = false
equal (negsuc m) (pos n) = false

-- The walk over `Server.workers`: `worker` stays at the one that was looked at last.
unfoldable pub find_worker : ℤ → List WorkerStats → ℕ → Option ℕ → Option ℕ
find_worker pid [] i worker = worker
find_worker pid (w ∷ ws) i worker =
    let rest = find_worker pid ws (suc i) (some i) in if equal w.pid pid then some i else rest

abbrev pub put : Values → ℕ → ℕ → Values
put vals i v j = if i == j then v else vals j

-- The switch, on the worker's value or the server's.
abbrev pub merged : StatType → ℕ → ℕ → ℕ
merged sum_stat old val = add_size old val
merged max_stat old val = if less_signed old val then val else old
merged assign_stat old val = val

abbrev pub merge_at : StatType → ℕ → ℕ → Values → Values
merge_at t i val vals = put vals i (merged t (vals i) val)

-- The loop over the fields and values that follow the pid; false is WHEAT_WRONG.
abbrev pub apply_one :
    (Values → Values → Bool × Values × Values)
    → Items
    → ℕ
    → Option ℤ
    → Values
    → Values
    → Bool × Values × Values
apply_one more items i none worker server = (false, worker, server)
apply_one more items i (some val) worker server =
    if leb items.count i
    then (false, worker, server)
    else more (merge_at (items.types i) i (to_word val) worker)
        (merge_at (items.types i) i (to_word val) server)

unfoldable pub apply_stats : Items → List Bytes → Values → Values → Bool × Values × Values
apply_stats items [] worker server = (true, worker, server)
apply_stats items (f ∷ []) worker server = (true, worker, server)
apply_stats items (f ∷ v ∷ rest) worker server =
    apply_one (apply_stats items rest) items (to_word (atoi f)) (string2ll v) worker server

abbrev pub is_even : ℕ → Bool
is_even n = n % 2 == 0

abbrev pub with_stats : Master → ℕ → WorkerStats → Bool × Values × Values → Bool × Master
with_stats m place w (ok, worker, server) =
    (ok, record m { workers = set m.workers place (record w { stats = worker }); stats = server })

-- After the walk; `args` are those behind the pid.
abbrev pub parse_for : Items → ℕ → List Bytes → Master → ℕ → Option WorkerStats → Bool × Master
parse_for items now args m place none = (false, m)
parse_for items now args m place (some w) =
    let seen = record w { refresh_time = now } in
    if is_even (length args)
    then with_stats m place seen (apply_stats items args w.stats m.stats)
    else (false, record m { workers = set m.workers place seen })

abbrev pub parse_found : Items → ℕ → List Bytes → Master → Option ℕ → Bool × Master
parse_found items now args m none = (false, m)
parse_found items now args m (some place) =
    parse_for items now args m place (get_elem? m.workers place)

-- `parseStat` at the time `now`, on `argv`; false is WHEAT_WRONG.
unfoldable pub parse_stat : Items → ℕ → List Bytes → Master → Bool × Master
unfolding atoi find_worker apply_stats
parse_stat items now [] m = (false, m)
parse_stat items now (command ∷ []) m = (false, m)
parse_stat items now (command ∷ pid ∷ args) m =
    parse_found items now args m (find_worker (atoi pid) m.workers 0 none)

-- `sendStatPacket`'s loop from `pos` on, for `n` items: the fields and values of the packet, and
-- what is left of the values.
abbrev pub is_sent : Items → Values → ℕ → Bool
is_sent items vals i = not (vals i == 0) && not (items.only_master i)

abbrev pub of_word : ℕ → ℤ
of_word n = if ltb n (2 ^ 63) then pos n else negsuc (2 ^ 64 - 1 - n)

abbrev pub sent_one : ℕ → Values → List Bytes × Values → List Bytes × Values
sent_one i vals (packet, left) = (decimal i ∷ signed_decimal (of_word (vals i)) ∷ packet, left)

unfoldable pub send_loop : Items → ℕ → ℕ → Values → List Bytes × Values
send_loop items zero i vals = ([], vals)
send_loop items (suc n) i vals = elim (is_sent items vals i) [
  | true ↦ sent_one i vals (send_loop items n (suc i) (if i == 0 then vals else put vals i 0))
  | false ↦ send_loop items n (suc i) vals
]

-- The packet's parts, as the master splits it, and the worker's values behind the call: the first
-- item, the time of the last packet, becomes `cron_time`, that of `Server.cron_time` in seconds, if
-- writeBulkTo took the whole packet (`is_written`).
unfoldable pub send_stat_packet : Items → ℤ → ℕ → Bool → Values → List Bytes × Values
unfolding send_loop
send_stat_packet items pid cron_time is_written vals =
    let (packet, left) = send_loop items items.count 0 vals in
    (
      (b'S' ∷ b'T' ∷ b'A' ∷ b'T' ∷ b'I' ∷ b'N' ∷ b'P' ∷ b'U' ∷ b'T' ∷ [])
          ∷ signed_decimal pid
          ∷ packet,
      if is_written then put left 0 cron_time else left,
    )
