-- ===== src/Util.antt =====
-- src/lib/core/util.c: helpers for strings. A string is the list of its characters without the
-- terminator, and a buffer the list of its cells. The allocation functions stand in Prelude/Memory.antt.
pub mod Strings
pub mod Basename
mod Runs
use poser.Prelude.{
  ℕ, zero, suc, ◌+◌, ◌-◌, ◌*◌, ◌%◌, ◌^◌, ◌&&◌, List, [], ◌∷◌, ◌++◌, Option, none, some, Bool, true,
  false, ltb, ◌==◌, if◌then◌else◌, length, map,
}
use poser.Prelude.Memory.{malloc, write_at}

-- `strcpy` to a place in a buffer
abbrev pub strcpy : List (Option ℕ) → ℕ → List ℕ → List (Option ℕ)
strcpy buf at s = write_at buf at (map some (s ++ 0 ∷ []))

-- `PSC_copystr`
unfoldable pub copystr : Option (List ℕ) → Option (List (Option ℕ))
copystr none = none
copystr (some src) = some (strcpy (malloc (length src + 1)) 0 src)

-- the loop of `PSC_lowerstr`, up to the terminator
unfoldable pub lower_loop : (ℕ → ℕ) → List (Option ℕ) → List (Option ℕ)
lower_loop tolower [] = []
lower_loop tolower (none ∷ p) = none ∷ p
lower_loop tolower (some c ∷ p) =
    let rest = lower_loop tolower p in if c == 0 then some c ∷ p else some (tolower c) ∷ rest

-- `PSC_lowerstr`
unfoldable pub lowerstr : (ℕ → ℕ) → Option (List ℕ) → Option (List (Option ℕ))
lowerstr tolower src = elim (copystr src) [
  | none ↦ none
  | some lower ↦ some (lower_loop tolower lower)
]

-- an `int` as its 32 bits, and a `size_t`
abbrev pub u32 : ℕ → ℕ
u32 x = x % 2 ^ 32

abbrev pub u64 : ℕ → ℕ
u64 x = x % 2 ^ 64

-- the first loop of `PSC_joinstr`: the number of strings, an `int`, and their length, a `size_t`
unfoldable pub count_loop : List (List ℕ) → ℕ × ℕ
count_loop [] = (0, 0)
count_loop (cur ∷ strings) =
    let (n, rlen) = count_loop strings in (u32 (n + 1), u64 (length cur + rlen))

-- its second loop
unfoldable pub join_loop : List ℕ → List (Option ℕ) → ℕ → List (List ℕ) → List (Option ℕ)
join_loop delim joined w [] = joined
join_loop delim joined w (cur ∷ strings) =
    let w' = w + length delim in
    join_loop delim (strcpy (strcpy joined w delim) w' cur) (w' + length cur) strings

-- `PSC_joinstr`; an `int` is above 1 if its 32 bits are and the highest is not set
unfoldable pub joinstr : List ℕ → List (List ℕ) → Option (List (Option ℕ))
joinstr delim [] = none
joinstr delim (first ∷ strings) =
    let (n, rlen) = count_loop (first ∷ strings) in
    let rlen' = if ltb 1 n && ltb n (2 ^ 31) then u64 (rlen + (n - 1) * length delim) else rlen in
    some (join_loop delim (strcpy (malloc (u64 (rlen' + 1))) 0 first) (length first) strings)

-- what follows the first `/`, where `strcspn` stops
unfoldable pub after_slash : List ℕ → Option (List ℕ)
after_slash [] = none
after_slash (c ∷ path) = let later = after_slash path in if c == b'/' then some path else later

-- the loop of `PSC_basename`; each round takes a character at least
unfoldable pub basename_loop : ℕ → List ℕ → List ℕ
basename_loop zero path = path
basename_loop (suc fuel) path = elim (after_slash path) [
  | none ↦ path
  | some rest ↦ basename_loop fuel rest
]

-- `PSC_basename`
unfoldable pub basename : List ℕ → List ℕ
basename path = elim (basename_loop (length path) path) [ [] ↦ b'.' ∷ [] | c ∷ name ↦ c ∷ name ]
