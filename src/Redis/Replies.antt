-- ===== src/Redis/Replies.antt =====
-- The parser of src/protocol/redis/proto_redis.c on the replies of a Redis server.
use wheatserver.Common.{
  ◌⊎◌, ℕ, zero, suc, ◌+◌, ◌≤◌, ◌≡◌, ◌≢◌, refl, ap, ◌∙◌, [], ◌∷◌, ◌++◌, length, arith, inl, inr,
}
use wheatserver.Slice.{Bytes, Slice, view}
use wheatserver.Redis.Data.{Stage, RedisProcData, init_redis_data}
use wheatserver.Redis.Request.{cr, lf, Parsed, expect}
use wheatserver.Redis.Response.{res_loop, res_parser, res_step, res_start, skip_line, res_args}
use wheatserver.Redis.Steps.{==-no}

-- No byte of a line ends it.
abbrev pub NoCr : Bytes → Type 0
NoCr [] = Unit
NoCr (c ∷ cs) = (c ≢ cr) × NoCr cs

-- The parser's data in and behind a reply of one line.
abbrev in_line : RedisProcData
in_line = record init_redis_data { stage = Stage.res_single; args = 1 }

abbrev pub after_line : RedisProcData
after_line = record init_redis_data { stage = Stage.mes_end; args = 1; curr_arg = 1 }

res_ending :
    (tail : Bytes) (f pos : ℕ)
    → length tail ≤ f
    → res_loop f after_line tail pos ≡ Parsed.parsed after_line pos
unfolding res_loop res_step
res_ending [] f pos h = refl
res_ending (c ∷ cs) zero pos h = absurd (omega (arith, h))
res_ending (c ∷ cs) (suc f) pos h = refl

module _ (tail : Bytes) where
  line_end :
      (f pos : ℕ)
      → suc (suc (length tail)) ≤ f
      → res_loop f in_line (cr ∷ lf ∷ tail) pos ≡ Parsed.parsed after_line (pos + 1 + 1)
  unfolding res_loop res_step skip_line expect
  line_end zero pos h = absurd (omega (arith, h))
  line_end (suc zero) pos h = absurd (omega (arith, h))
  line_end (suc (suc f)) pos h = res_ending tail f (pos + 1 + 1) (omega (arith, h))

  line_skipped :
      (line : Bytes) (f pos : ℕ)
      → NoCr line
      → length (line ++ (cr ∷ lf ∷ tail)) ≤ f
      → res_loop f in_line (line ++ (cr ∷ lf ∷ tail)) pos
        ≡ Parsed.parsed after_line (pos + length line + 2)
  unfolding res_loop res_step skip_line
  line_skipped [] f pos free h = line_end f pos h ∙ ap (Parsed.parsed after_line) (omega arith)
  line_skipped (c ∷ cs) zero pos free h = absurd (omega (arith, h))
  line_skipped (c ∷ cs) (suc f) pos (not_cr, free) h =
      rw (res_loop, ==-no c cr not_cr)
        (line_skipped cs f (pos + 1) free (omega (arith, h))
          ∙ ap (Parsed.parsed after_line) (omega arith))

line_read :
    (f c : ℕ) (line tail : Bytes)
    → (c ≡ b'+') ⊎ ((c ≡ b'-') ⊎ (c ≡ b':'))
    → NoCr line
    → suc (length (line ++ (cr ∷ lf ∷ tail))) ≤ f
    → res_loop f init_redis_data (c ∷ (line ++ (cr ∷ lf ∷ tail))) 0
      ≡ Parsed.parsed after_line (length line + 3)
unfolding res_loop res_step res_start
line_read zero c line tail kind free h = absurd (omega (arith, h))
line_read (suc f) c line tail kind free h = elim kind [
  | inl e ↦ rw (e, res_loop) rest
  | inr (inl e) ↦ rw (e, res_loop) rest
  | inr (inr e) ↦ rw (e, res_loop) rest
]
  where
    rest :
        res_loop f in_line (line ++ (cr ∷ lf ∷ tail)) 1 ≡ Parsed.parsed after_line (length line + 3)
    rest =
        line_skipped tail line f 1 free (omega (arith, h))
        ∙ ap (Parsed.parsed after_line) (omega arith)

-- A reply of one line, whatever follows it: a status, an error or an integer. With as much fuel as
-- the slice has bytes, the parser reads just the reply from its initial data, and ends in
-- `MES_END` with one value counted.
pub res_parser-line :
    (c : ℕ) (line tail : Bytes) (s : Slice) (f : ℕ)
    → (c ≡ b'+') ⊎ ((c ≡ b'-') ⊎ (c ≡ b':'))
    → NoCr line
    → view s ≡ c ∷ (line ++ (cr ∷ lf ∷ tail))
    → length (view s) ≤ f
    → res_parser f init_redis_data s ≡ Parsed.parsed after_line (length line + 3)
unfolding res_parser
res_parser-line c line tail s f kind free e enough =
    ap (λ t. res_loop f init_redis_data t 0) e
    ∙ line_read f c line tail kind free (omega (arith, ap length e, enough))

refused :
    (f : ℕ) (rest : Bytes)
    → 2 ≤ f
    → res_loop f init_redis_data (b'*' ∷ b'1' ∷ rest) 0
      ≡ Parsed.wrong (record init_redis_data { stage = Stage.mes_err; args = 1 })
unfolding res_loop res_step res_start res_args expect
refused zero rest h = absurd (omega (arith, h))
refused (suc zero) rest h = absurd (omega (arith, h))
refused (suc (suc f)) rest h = refl

-- A reply of several values whose count begins with the digit 1, such as ten, is refused: the
-- parser tests `args < 2` after each digit.
pub res_parser-one :
    (rest : Bytes) (s : Slice) (f : ℕ)
    → view s ≡ b'*' ∷ b'1' ∷ rest
    → 2 ≤ f
    → res_parser f init_redis_data s
      ≡ Parsed.wrong (record init_redis_data { stage = Stage.mes_err; args = 1 })
unfolding res_parser
res_parser-one rest s f e h = ap (λ t. res_loop f init_redis_data t 0) e ∙ refused f rest h
