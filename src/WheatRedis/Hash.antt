-- ===== src/WheatRedis/Hash.antt =====
-- src/app/wheatredis/hashkit.c: the ring of tokens, and which token a key has. An array is the
-- function of its indices; a read or write outside the tokens is a fault.
use wheatserver.Common.{
  ℕ, zero, suc, ◌+◌, ◌-◌, ◌/◌, ◌%◌, ◌^◌, Bool, Option, none, some, ltb, leb, ◌==◌, if◌then◌else◌,
}

-- WHEAT_KEYSPACE
abbrev pub keyspace : ℕ
keyspace = 1024

abbrev pub uint32_max : ℕ
uint32_max = 2 ^ 32 - 1

pub record Token : Type 0 where
  pub pos : ℕ
  pub instance_id : ℕ
  pub next_instance : ℕ

abbrev pub Tokens : Type 0
Tokens = ℕ → Token

-- An array with the cell at `p` changed.
abbrev pub write {ℓ} : {A : Type ℓ} → (ℕ → A) → ℕ → A → ℕ → A
write cells p v q = if q == p then v else cells q

-- The tokens, and each instance's `ntoken`.
pub record Ring : Type 0 where
  pub tokens : Tokens
  pub ntokens : ℕ → ℕ

abbrev pub deal_one : ℕ → ℕ → Ring → Ring
deal_one i ninstance s = record {
  tokens =
      write s.tokens i
        (record { pos = i; instance_id = i % ninstance; next_instance = uint32_max });
  ntokens = write s.ntokens (i % ninstance) (s.ntokens (i % ninstance) + 1);
}

-- The first loop, with its first argument the turns that are left.
unfoldable pub deal : ℕ → ℕ → ℕ → Ring → Ring
deal zero i ninstance s = s
deal (suc m) i ninstance s = deal m (i + 1) ninstance (deal_one i ninstance s)

abbrev pub swap_ids : ℕ → ℕ → Tokens → Tokens
swap_ids i j ts =
    let swap = (ts j).instance_id in
    let ts' = write ts j (record (ts j) { instance_id = (ts i).instance_id }) in
    write ts' i (record (ts' i) { instance_id = swap })

-- `i + rand() / (RAND_MAX / (ntoken - i) + 1)`
abbrev pub pick : ℕ → ℕ → ℕ → ℕ → ℕ
pick rand_max r ntoken i = i + r / (rand_max / (ntoken - i) + 1)

-- The shuffle; `rand i` is what rand() gives in turn `i`.
unfoldable pub shuffle : ℕ → (ℕ → ℕ) → ℕ → ℕ → ℕ → Tokens → Option Tokens
shuffle rand_max rand ntoken zero i ts = some ts
shuffle rand_max rand ntoken (suc m) i ts =
    let j = pick rand_max (rand i) ntoken i in
    let rest = shuffle rand_max rand ntoken m (i + 1) (swap_ids i j ts) in
    if ltb j ntoken then rest else none

-- `for (; prev_idx < i && prev_idx < ntoken; ++prev_idx)`, with its first argument the turns.
unfoldable pub fill : ℕ → ℕ → ℕ → Tokens → Tokens
fill zero prev next ts = ts
fill (suc m) prev next ts =
    fill m (prev + 1) next (write ts prev (record (ts prev) { next_instance = next }))

-- How the loop that fills `next_instance` ends; `running` is where its fuel does first.
pub data Populated : Type 0 where
  populated : Tokens → Populated
  fault : Populated
  running : Populated

abbrev pub smaller : ℕ → ℕ → ℕ
smaller a b = if ltb a b then a else b

-- The loop, on fuel.
unfoldable pub populate : ℕ → ℕ → ℕ → ℕ → Tokens → Populated
unfolding fill
populate zero ntoken prev i ts = Populated.running
populate (suc f) ntoken prev i ts =
    let reached = smaller i ntoken in
    let filled = fill (reached - prev) prev (i % ntoken) ts in
    let changed = populate f ntoken (prev + (reached - prev)) (i + 1) filled in
    let same = populate f ntoken prev (i + 1) ts in
    if (ts (ntoken - 1)).next_instance == uint32_max
    then if ltb prev ntoken
      then if (ts (i % ntoken)).instance_id == (ts prev).instance_id then same else changed
      else Populated.fault
    else Populated.populated ts

-- What hashInit returns: WHEAT_OK with the ring, WHEAT_WRONG, a failed assertion or a fault, or the
-- end of its fuel.
pub data Init : Type 0 where
  wheat_ok : Ring → Init
  wheat_wrong : Init
  undefined : Init
  running : Init

abbrev pub after_populate : (ℕ → ℕ) → Populated → Init
after_populate ntokens (Populated.populated ts) =
    Init.wheat_ok (record { tokens = ts; ntokens = ntokens })
after_populate ntokens Populated.fault = Init.undefined
after_populate ntokens Populated.running = Init.running

abbrev pub after_shuffle : ℕ → ℕ → (ℕ → ℕ) → Option Tokens → Init
after_shuffle fuel ntoken ntokens none = Init.undefined
after_shuffle fuel ntoken ntokens (some ts) = after_populate ntokens (populate fuel ntoken 0 1 ts)

-- hashInit over `ntoken` tokens; `memory` is whether malloc gives them, and `s` what is there
-- before.
unfoldable pub init_ring : ℕ → ℕ → (ℕ → ℕ) → ℕ → ℕ → Ring → Init
init_ring fuel rand_max rand ntoken ninstance s =
    let dealt = deal ntoken 0 ninstance s in
    after_shuffle fuel ntoken dealt.ntokens (shuffle rand_max rand ntoken ntoken 0 dealt.tokens)

unfoldable pub hash_init : ℕ → ℕ → (ℕ → ℕ) → Bool → ℕ → ℕ → Ring → Init
hash_init fuel rand_max rand memory ninstance nbackup s =
    if leb nbackup ninstance
    then if memory then init_ring fuel rand_max rand keyspace ninstance s else Init.wheat_wrong
    else Init.undefined

-- The place of a key's token, where `hash` is ketamaHash's value.
unfoldable pub hash_dispatch : ℕ → ℕ
hash_dispatch hash = hash % keyspace
