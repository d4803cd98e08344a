-- ===== src/Redis/Encode.antt =====
-- The text of a Redis request, in the format that src/protocol/redis/proto_redis.c documents.
use wheatserver.Common.{ℕ, ◌-◌, ◌≤◌, ◌≡◌, ◌≢◌, List, [], ◌∷◌, ◌++◌, length}
use wheatserver.Slice.{Bytes}
use wheatserver.Number.Decimal.{decimal}
use wheatserver.Redis.Request.{cr, lf, int_max}

-- `$5\r\nvalue\r\n`
abbrev pub bulk : Bytes → Bytes
bulk b = b'$' ∷ (decimal (length b) ++ (cr ∷ lf ∷ (b ++ (cr ∷ lf ∷ []))))

abbrev pub bulks : List Bytes → Bytes
bulks [] = []
bulks (b ∷ bs) = bulk b ++ bulks bs

abbrev pub encode : List Bytes → Bytes
encode values = b'*' ∷ (decimal (length values) ++ (cr ∷ lf ∷ bulks values))

-- The place of the `\r` after the second value, as in the source's drawing.
abbrev pub key_end : ℕ → Bytes → Bytes → ℕ
key_end args command key =
    length (b'*' ∷ (decimal args ++ (cr ∷ lf ∷ (bulk command ++ bulk key)))) - 2

-- A value that has a byte, does not begin with `\r`, and whose length is an `int`.
pub record IsPlain (b : Bytes) : Type 0 where
  pub first : ℕ
  pub others : Bytes
  pub splits : b ≡ first ∷ others
  pub no_cr : first ≢ cr
  pub short : length b ≤ int_max

abbrev pub AllPlain : List Bytes → Type 0
AllPlain [] = Unit
AllPlain (b ∷ bs) = IsPlain b × AllPlain bs
