-- ===== src/Memcache/Retrieval.antt =====
-- Whole requests for values, under the parser of src/protocol/memcache/proto_memcache.c.
use mathlib.Core.Path.{subst}
use wheatserver.Common.{
  ℕ, ◌+◌, ◌≡◌, refl, ap, sym, ◌∙◌, true, false, ◌||◌, List, [], ◌∷◌, ◌++◌, none, ◌==◌, length, drop,
  arith, append_assoc, length-append,
}
use wheatserver.Slice.{Bytes, Slice, view}
use wheatserver.Redis.Request.{cr, lf}
use wheatserver.Memcache.Data.{
  Command, Stage, MemcacheProcData, init_memcache_data, memcache_retrieval, memcache_storage,
  memcache_arithmetic,
}
use wheatserver.Memcache.Request.{Step, Parsed, sp, ends_token, read_keys, after_key}
use wheatserver.Memcache.Loop.{req_step, parse_req}
use wheatserver.Memcache.Words.{IsKey, key-sp, key-cr, with_key, inside-sp}
use wheatserver.Memcache.Encode.{name, keyed}
use wheatserver.Memcache.Lines.{begun, command-run, key-begins}
use wheatserver.Memcache.Gives.{
  Gives, back, stop, drop-next, drop-past, drop-first, parse_req-Gives,
}

-- ` key2 key3\r\n`
abbrev pub keys_text : List Bytes → Bytes
keys_text [] = cr ∷ lf ∷ []
keys_text (k ∷ ks) = sp ∷ (k ++ keys_text ks)

-- `get key1 key2 key3\r\n`
abbrev pub retrieval_text : Command → List Bytes → Bytes
retrieval_text c ks = name c ++ keys_text ks

abbrev pub AllKeys : List Bytes → Type 0
AllKeys [] = Unit
AllKeys (k ∷ ks) = IsKey k × AllKeys ks

inside-cr : (c : ℕ) → ends_token c ≡ false → (c == cr) ≡ false
inside-cr c h = ground arith

-- What holds of a command that asks for values.
retrieval_lem :
    (c : Command)
    → memcache_retrieval c ≡ true
    → (keyed c ≡ true)
      × ((memcache_storage c || memcache_arithmetic c) ≡ false)
      × (after_key c sp ≡ Stage.spaces_before_keys)
      × (after_key c cr ≡ Stage.spaces_before_keys)
unfolding after_key
retrieval_lem Command.get h = (refl, refl, refl, refl)
retrieval_lem Command.gets h = (refl, refl, refl, refl)
retrieval_lem c h = cc

read_keys-key :
    (r : MemcacheProcData) (pos ch : ℕ)
    → memcache_retrieval r.kind ≡ true
    → ends_token ch ≡ false
    → read_keys r pos ch ≡ Step.next Stage.key (record r { token_pos = none }) pos
unfolding read_keys
read_keys-key r pos ch h e = rw (h, inside-sp ch e, inside-cr ch e) refl

read_keys-cr :
    (r : MemcacheProcData) (pos : ℕ)
    → memcache_retrieval r.kind ≡ true
    → read_keys r pos cr ≡ Step.next Stage.almost_done r (pos + 1)
unfolding read_keys
read_keys-cr r pos h = rw h refl

abbrev with_keys : MemcacheProcData → List Bytes → MemcacheProcData
with_keys r ks = record r { keys = r.keys ++ ks; key = []; token_pos = none }

module _ {s : Bytes} {o : Parsed} where
  next-key :
      (r : MemcacheProcData) (k : Bytes) (pos : ℕ) (rest : Bytes)
      → memcache_retrieval r.kind ≡ true
      → drop pos s ≡ k ++ rest
      → IsKey k
      → Gives s Stage.key (record r { token_pos = none }) pos o
      → Gives s Stage.spaces_before_keys r pos o
  unfolding req_step
  next-key r [] pos rest h d (a, one, few) g = absurd (omega (arith, one))
  next-key r (c ∷ cs) pos rest h d ((in_key, a), one, few) g =
      back d (read_keys-key r pos c h in_key) g

  line-end :
      (r : MemcacheProcData) (pos : ℕ) (rest : Bytes)
      → memcache_retrieval r.kind ≡ true
      → drop pos s ≡ cr ∷ lf ∷ rest
      → Parsed.parsed (record r { stage = Stage.done }) (pos + 2) ≡ o
      → Gives s Stage.spaces_before_keys r pos o
  unfolding req_step
  line-end r pos rest h d q =
      let place : pos + 1 + 1 ≡ pos + 2 = omega arith in
      back d (read_keys-cr r pos h) (
        stop (drop-next pos s cr (lf ∷ rest) d) refl
          (ap (λ n. Parsed.parsed (record r { stage = Stage.done }) n) place ∙ q))

  keys-run :
      (ks : List Bytes) (r : MemcacheProcData) (k : Bytes) (pos : ℕ) (rest : Bytes)
      → r.key ≡ []
      → memcache_retrieval r.kind ≡ true
      → drop pos s ≡ k ++ (keys_text ks ++ rest)
      → IsKey k
      → AllKeys ks
      → Parsed.parsed
          (record (with_keys r (k ∷ ks)) { stage = Stage.done })
          (pos + length k + length (keys_text ks))
        ≡ o
      → Gives s Stage.key (record r { token_pos = none }) pos o
  keys-run [] r k pos rest e h d w ws q =
      let c = retrieval_lem r.kind h in
      key-cr r e k pos (lf ∷ rest) d w c.1 (
        subst (λ state. Gives s state (with_key r k) (pos + length k) o) (sym c.3)
          (line-end (with_key r k) (pos + length k) rest h (drop-past k pos s (cr ∷ lf ∷ rest) d)
            q))
  keys-run (k' ∷ ks) r k pos rest e h d w (w', ws) q =
      let c = retrieval_lem r.kind h in
      let p = pos + length k + 1 in
      let d' : drop p s ≡ k' ++ (keys_text ks ++ rest) =
        drop-next (pos + length k) s sp _ (drop-past k pos s _ d)
        ∙ append_assoc k' (keys_text ks) rest in
      let place : p + length k' + length (keys_text ks)
          ≡ pos + length k + length (keys_text (k' ∷ ks)) =
        omega (arith, length-append k' (keys_text ks)) in
      key-sp r e k pos ((k' ++ keys_text ks) ++ rest) d w (
        subst (λ state. Gives s state (with_key r k) p o) (sym c.2)
          (next-key (with_key r k) k' p (keys_text ks ++ rest) h d' w' (
            keys-run ks (with_key r k) k' p rest refl h d' w' ws (
              ap
                (λ l.
                  Parsed.parsed
                    (record r { keys = l; key = []; token_pos = none; stage = Stage.done })
                    (p + length k' + length (keys_text ks)))
                (append_assoc r.keys (k ∷ []) (k' ∷ ks))
              ∙ ap
                  (λ n. Parsed.parsed (record (with_keys r (k ∷ k' ∷ ks)) { stage = Stage.done }) n)
                  place
              ∙ q))))

-- A whole request for values, from the parser's first data on: its command and its keys are read in
-- order, and the parser stops behind it.
pub parse_req-retrieval :
    (c : Command) (k : Bytes) (ks : List Bytes) (s : Slice) (rest : Bytes)
    → memcache_retrieval c ≡ true
    → IsKey k
    → AllKeys ks
    → view s ≡ retrieval_text c (k ∷ ks) ++ rest
    → parse_req init_memcache_data s
      ≡ Parsed.parsed
          (record init_memcache_data {
            token_pos = none;
            kind = c;
            keys = k ∷ ks;
            stage = Stage.done;
          })
          (length (retrieval_text c (k ∷ ks)))
parse_req-retrieval c k ks s rest h w ws e =
    let spread : view s ≡ name c ++ (sp ∷ (k ++ (keys_text ks ++ rest))) =
      e
      ∙ append_assoc (name c) (keys_text (k ∷ ks)) rest
      ∙ ap (λ l. name c ++ (sp ∷ l)) (append_assoc k (keys_text ks) rest) in
    let p = length (name c) + 1 in
    let d = drop-next (length (name c)) (view s) sp _ (drop-first (name c) (view s) _ spread) in
    let place : p + length k + length (keys_text ks) ≡ length (retrieval_text c (k ∷ ks)) =
      omega (arith, length-append (name c) (keys_text (k ∷ ks)), length-append k (keys_text ks)) in
    parse_req-Gives init_memcache_data s (
      command-run c _ spread (retrieval_lem c h).0 (
        key-begins (begun c) k p _ d w (
          keys-run ks (begun c) k p rest refl h d w ws (
            ap (λ n. Parsed.parsed (record (with_keys (begun c) (k ∷ ks)) { stage = Stage.done }) n)
              place))))
