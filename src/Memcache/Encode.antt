-- ===== src/Memcache/Encode.antt =====
-- The text of a Memcache request, in the format that src/protocol/memcache/proto_memcache.c reads.
use wheatserver.Common.{
  ℕ, ◌+◌, ◌≡◌, refl, Bool, true, false, ◌||◌, [], ◌∷◌, ◌++◌, length, append_assoc, length-append,
  arith,
}
use wheatserver.Slice.{Bytes}
use wheatserver.Number.Decimal.{decimal}
use wheatserver.Redis.Request.{cr, lf}
use wheatserver.Memcache.Data.{
  Command, memcache_storage, memcache_cas, memcache_retrieval, memcache_arithmetic, memcache_delete,
  command_of,
}
use wheatserver.Memcache.Request.{sp, noreply_text}
use wheatserver.Memcache.Words.{AllLower}

unfoldable pub name : Command → Bytes
name Command.get = b'g' ∷ b'e' ∷ b't' ∷ []
name Command.gets = b'g' ∷ b'e' ∷ b't' ∷ b's' ∷ []
name Command.delete = b'd' ∷ b'e' ∷ b'l' ∷ b'e' ∷ b't' ∷ b'e' ∷ []
name Command.cas = b'c' ∷ b'a' ∷ b's' ∷ []
name Command.set = b's' ∷ b'e' ∷ b't' ∷ []
name Command.add = b'a' ∷ b'd' ∷ b'd' ∷ []
name Command.replace = b'r' ∷ b'e' ∷ b'p' ∷ b'l' ∷ b'a' ∷ b'c' ∷ b'e' ∷ []
name Command.append = b'a' ∷ b'p' ∷ b'p' ∷ b'e' ∷ b'n' ∷ b'd' ∷ []
name Command.prepend = b'p' ∷ b'r' ∷ b'e' ∷ b'p' ∷ b'e' ∷ b'n' ∷ b'd' ∷ []
name Command.incr = b'i' ∷ b'n' ∷ b'c' ∷ b'r' ∷ []
name Command.decr = b'd' ∷ b'e' ∷ b'c' ∷ b'r' ∷ []
name Command.quit = b'q' ∷ b'u' ∷ b'i' ∷ b't' ∷ []
name Command.unknown = b'x' ∷ []

-- The commands that a key follows.
abbrev pub keyed : Command → Bool
keyed c =
    (memcache_storage c || memcache_retrieval c) || (memcache_arithmetic c || memcache_delete c)

pub name-AllLower : (c : Command) → AllLower (name c)
unfolding name
name-AllLower Command.get = (refl, (refl, (refl, tt)))
name-AllLower Command.gets = (refl, (refl, (refl, (refl, tt))))
name-AllLower Command.delete = (refl, (refl, (refl, (refl, (refl, (refl, tt))))))
name-AllLower Command.cas = (refl, (refl, (refl, tt)))
name-AllLower Command.set = (refl, (refl, (refl, tt)))
name-AllLower Command.add = (refl, (refl, (refl, tt)))
name-AllLower Command.replace = (refl, (refl, (refl, (refl, (refl, (refl, (refl, tt)))))))
name-AllLower Command.append = (refl, (refl, (refl, (refl, (refl, (refl, tt))))))
name-AllLower Command.prepend = (refl, (refl, (refl, (refl, (refl, (refl, (refl, tt)))))))
name-AllLower Command.incr = (refl, (refl, (refl, (refl, tt))))
name-AllLower Command.decr = (refl, (refl, (refl, (refl, tt))))
name-AllLower Command.quit = (refl, (refl, (refl, (refl, tt))))
name-AllLower Command.unknown = (refl, tt)

-- A command is known by its name, with a space behind it.
pub command_of-name :
    (c : Command) (rest : Bytes) → command_of (length (name c)) (name c ++ (sp ∷ rest)) ≡ c
unfolding name command_of
command_of-name Command.get rest = refl
command_of-name Command.gets rest = refl
command_of-name Command.delete rest = refl
command_of-name Command.cas rest = refl
command_of-name Command.set rest = refl
command_of-name Command.add rest = refl
command_of-name Command.replace rest = refl
command_of-name Command.append rest = refl
command_of-name Command.prepend rest = refl
command_of-name Command.incr rest = refl
command_of-name Command.decr rest = refl
command_of-name Command.quit rest = refl
command_of-name Command.unknown rest = refl

abbrev pub noreply_part : Bool → Bytes
noreply_part true = sp ∷ noreply_text
noreply_part false = []

-- A request that stores a value; `cas` is read for that command only.
pub record Storage : Type 0 where
  pub command : Command
  pub key : Bytes
  pub flags : ℕ
  pub exptime : ℕ
  pub cas : ℕ
  pub noreply : Bool
  pub value : Bytes

abbrev pub cas_part : Bool → ℕ → Bytes
cas_part true u = sp ∷ decimal u
cas_part false u = []

-- `set key 0 0 5`
abbrev pub storage_line : Storage → Bytes
storage_line q =
    name q.command
    ++ (sp
        ∷ (q.key
            ++ (sp
                ∷ (decimal q.flags
                    ++ (sp
                        ∷ (decimal q.exptime
                            ++ (sp
                                ∷ (decimal (length q.value)
                                    ++ cas_part (memcache_cas q.command) q.cas))))))))

-- `set key 0 0 5\r\nvalue\r\n`
abbrev pub storage_text : Storage → Bytes
storage_text q =
    storage_line q ++ (noreply_part q.noreply ++ (cr ∷ lf ∷ (q.value ++ (cr ∷ lf ∷ []))))

pub storage_spread :
    (q : Storage) (rest : Bytes)
    → storage_text q ++ rest
      ≡ name q.command
        ++ (sp
            ∷ (q.key
                ++ (sp
                    ∷ (decimal q.flags
                        ++ (sp
                            ∷ (decimal q.exptime
                                ++ (sp
                                    ∷ (decimal (length q.value)
                                        ++ (cas_part (memcache_cas q.command) q.cas
                                            ++ (noreply_part q.noreply
                                                ++ (cr
                                                    ∷ lf
                                                    ∷ (q.value ++ (cr ∷ lf ∷ rest)))))))))))))
storage_spread q rest = simp append_assoc

pub length-storage_line :
    (q : Storage)
    → length (storage_line q)
      ≡ length (name q.command)
        + 1
        + length q.key
        + 1
        + length (decimal q.flags)
        + 1
        + length (decimal q.exptime)
        + 1
        + length (decimal (length q.value))
        + length (cas_part (memcache_cas q.command) q.cas)
length-storage_line q = simp length-append (omega arith)

pub length-storage_text :
    (q : Storage)
    → length (storage_text q)
      ≡ length (storage_line q) + length (noreply_part q.noreply) + 1 + 1 + length q.value + 2
length-storage_text q = omega (
  arith,
  length-append (storage_line q)
      (noreply_part q.noreply ++ (cr ∷ lf ∷ (q.value ++ (cr ∷ lf ∷ [])))),
  length-append (noreply_part q.noreply) (cr ∷ lf ∷ (q.value ++ (cr ∷ lf ∷ []))),
  length-append q.value (cr ∷ lf ∷ []),
)
