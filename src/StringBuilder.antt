-- ===== src/StringBuilder.antt =====
-- src/lib/core/stringbuilder.c: a string that grows at its end, in chunks of 512 characters.
-- A C string is a list of characters, which ends where a 0 stands in it or else at its end; the
-- builder's buffer is a list of cells, and the null pointer that it starts with has none.
pub mod Append
pub mod Runs
use poser.Prelude.{
  ℕ, zero, suc, ◌+◌, List, [], ◌∷◌, ◌++◌, Option, none, some, map, leb, if◌then◌else◌, take,
}
use poser.Prelude.Chars.{strlen}
use poser.Prelude.Memory.{realloc, write_at}

-- SBCHUNKSZ
abbrev pub chunk_size : ℕ
chunk_size = 512

-- PSC_StringBuilder
pub record StringBuilder : Type 0 where
  pub size : ℕ
  pub capa : ℕ
  pub str : List (Option ℕ)

-- `PSC_StringBuilder_create`
unfoldable pub create : StringBuilder
create = record { size = 0; capa = 0; str = [] }

-- the loop that makes room; it ends within `newsz + 1` rounds
unfoldable pub grow : ℕ → ℕ → ℕ → ℕ
grow zero capa newsz = capa
grow (suc fuel) capa newsz =
    let rest = grow fuel (capa + chunk_size) newsz in if leb capa newsz then rest else capa

-- the characters that `strcpy` copies
abbrev pub copied : List ℕ → List ℕ
copied str = take (strlen str) str ++ 0 ∷ []

-- `PSC_StringBuilder_append`
unfoldable pub append : StringBuilder → List ℕ → StringBuilder
append sb str =
    let newsz = sb.size + strlen str in
    let full = leb sb.capa newsz in
    let capa = if full then grow (newsz + 1) sb.capa newsz else sb.capa in
    let buffer = if full then realloc sb.str capa else sb.str in
    record { size = newsz; capa = capa; str = write_at buffer sb.size (map some (copied str)) }

-- `PSC_StringBuilder_appendChar`
unfoldable pub append_char : StringBuilder → ℕ → StringBuilder
append_char sb c = append sb (c ∷ 0 ∷ [])
