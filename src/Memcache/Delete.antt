-- ===== src/Memcache/Delete.antt =====
-- Whole requests that delete, under the parser of src/protocol/memcache/proto_memcache.c.
use wheatserver.Common.{
  ℕ, ◌+◌, ◌≡◌, refl, ap, ◌∙◌, false, [], ◌∷◌, ◌++◌, none, length, drop, arith, append_assoc,
  length-append,
}
use wheatserver.Slice.{Bytes, Slice, view}
use wheatserver.Redis.Request.{cr, lf}
use wheatserver.Memcache.Data.{Command, Stage, MemcacheProcData, init_memcache_data}
use wheatserver.Memcache.Request.{Parsed, sp, after_key, skip_spaces, noreply_text}
use wheatserver.Memcache.Loop.{req_step, parse_req}
use wheatserver.Memcache.Words.{IsKey, key-sp, key-cr, with_key}
use wheatserver.Memcache.Encode.{name}
use wheatserver.Memcache.Lines.{begun, command-run, key-begins}
use wheatserver.Memcache.Arithmetic.{line-stop}
use wheatserver.Memcache.Gives.{Gives, fail, drop-next, drop-past, drop-first, parse_req-Gives}

-- `delete key`, with what follows the key.
abbrev pub delete_text : Bytes → Bytes → Bytes
delete_text k end = name Command.delete ++ (sp ∷ (k ++ end))

delete_spread :
    (k end rest : Bytes)
    → delete_text k end ++ rest ≡ name Command.delete ++ (sp ∷ (k ++ (end ++ rest)))
delete_spread k end rest = simp append_assoc

abbrev deleted : Bytes → MemcacheProcData
deleted k = with_key (begun Command.delete) k

module _ (k : Bytes) (s : Slice) (rest : Bytes) (w : IsKey k) where
  abbrev key_start : ℕ
  key_start = length (name Command.delete) + 1

  at_key :
      {o : Parsed} (after : Bytes)
      → view s ≡ name Command.delete ++ (sp ∷ (k ++ after))
      → (drop key_start (view s) ≡ k ++ after
          → Gives
              (view s)
              Stage.key
              (record (begun Command.delete) { token_pos = none })
              key_start
              o)
      → parse_req init_memcache_data s ≡ o
  at_key after e g =
      let d =
        drop-next (length (name Command.delete)) (view s) sp _
          (drop-first (name Command.delete) (view s) _ e) in
      parse_req-Gives init_memcache_data s (
        command-run Command.delete _ e refl
          (key-begins (begun Command.delete) k key_start after d w (g d)))

  -- A whole request that deletes, from the parser's first data on: its key is read, and the parser
  -- stops behind it.
  pub parse_req-delete :
      view s ≡ delete_text k (cr ∷ lf ∷ []) ++ rest
      → parse_req init_memcache_data s
        ≡ Parsed.parsed
            (record init_memcache_data {
              token_pos = none;
              kind = Command.delete;
              keys = k ∷ [];
              stage = Stage.done;
            })
            (length (delete_text k (cr ∷ lf ∷ [])))
  unfolding after_key
  parse_req-delete e =
      let place : key_start + length k + 0 + 1 + 1 ≡ length (delete_text k (cr ∷ lf ∷ [])) = omega (
        arith,
        length-append (name Command.delete) (sp ∷ (k ++ (cr ∷ lf ∷ []))),
        length-append k (cr ∷ lf ∷ []),
      ) in
      at_key (cr ∷ lf ∷ rest) (e ∙ delete_spread k (cr ∷ lf ∷ []) rest) (λ d.
        key-cr (begun Command.delete) refl k key_start (lf ∷ rest) d w refl (
          line-stop (deleted k) false (key_start + length k) rest refl refl
            (drop-past k key_start (view s) (cr ∷ lf ∷ rest) d)
            (ap (λ n. Parsed.parsed (record (deleted k) { stage = Stage.done }) n) place)))

  -- A request that deletes and asks for no reply, with no time between, is refused.
  pub parse_req-delete_noreply :
      view s ≡ delete_text k (sp ∷ (noreply_text ++ (cr ∷ lf ∷ []))) ++ rest
      → parse_req init_memcache_data s ≡ Parsed.wrong
  unfolding req_step after_key skip_spaces
  parse_req-delete_noreply e =
      let more = noreply_text ++ (cr ∷ lf ∷ []) in
      at_key (sp ∷ (more ++ rest)) (e ∙ delete_spread k (sp ∷ more) rest) (λ d.
        key-sp (begun Command.delete) refl k key_start (more ++ rest) d w (
          fail
            (drop-next (key_start + length k) (view s) sp (more ++ rest)
              (drop-past k key_start (view s) (sp ∷ (more ++ rest)) d))
            refl refl))
