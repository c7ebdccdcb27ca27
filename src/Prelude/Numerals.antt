-- ===== src/Prelude/Numerals.antt =====
-- Numerals of the C library: `strtol`, and `sprintf` with `%u`, `%hhu` and `%x`. Strings are lists of
-- characters without their terminators, and a `long` has 64 bits.
use Prim.Native.Nat.{ℕ, zero, suc, ◌+◌, ◌-◌, ◌*◌, ◌/◌, ◌%◌, ◌^◌}
use mathlib.Core.Bool.{Bool, true, false, ◌&&◌, ◌||◌}
use mathlib.Core.Option.{Option, none, some}
use mathlib.Core.List.{List, [], ◌∷◌, ◌++◌}
use poser.Prelude.Tests.{ltb, leb, ◌==◌, if◌then◌else◌}
use poser.Prelude.Int.{ℤ, pos, negsuc}

-- the value of a digit, in a base up to 36
unfoldable pub digit : ℕ → ℕ → Option ℕ
digit base c =
    let d =
      if leb b'0' c && leb c b'9'
      then c - b'0'
      else if leb b'a' c && leb c b'z'
      then c - b'a' + 10
      else if leb b'A' c && leb c b'Z'
      then c - b'A' + 10
      else base in
    if ltb d base then some d else none

-- the digits from here on, after a number read before, and what follows them
unfoldable pub scan : ℕ → ℕ → List ℕ → ℕ × List ℕ
scan base acc [] = (acc, [])
scan base acc (c ∷ s) = elim (digit base c) [
  | none ↦ (acc, c ∷ s)
  | some d ↦ scan base (acc * base + d) s
]

abbrev pub is_space : ℕ → Bool
is_space c = c == 32 || leb 9 c && leb c 13

unfoldable pub skip_space : List ℕ → List ℕ
skip_space [] = []
skip_space (c ∷ s) = let rest = skip_space s in if is_space c then rest else c ∷ s

-- a sign, with what follows it
unfoldable pub sign : List ℕ → Bool × List ℕ
sign [] = (false, [])
sign (c ∷ s) = if c == b'-' then (true, s) else if c == b'+' then (false, s) else (false, c ∷ s)

abbrev pub has_digit : ℕ → List ℕ → Bool
has_digit base [] = false
has_digit base (c ∷ s) = elim (digit base c) [ none ↦ false | some _ ↦ true ]

-- `0x` before a digit, in base 16
unfoldable pub skip_0x : ℕ → List ℕ → List ℕ
skip_0x base [] = []
skip_0x base (c ∷ []) = c ∷ []
skip_0x base (c ∷ x ∷ s) =
    if base == 16 && c == b'0' && (x == b'x' || x == b'X') && has_digit 16 s then s else c ∷ x ∷ s

-- a `long`, or nothing where the error is ERANGE
unfoldable pub in_long : Bool → ℕ → Option ℤ
in_long true n = if ltb (2 ^ 63) n then none else some (if n == 0 then pos 0 else negsuc (n - 1))
in_long false n = if leb (2 ^ 63) n then none else some (pos n)

-- `strtol`: nothing if there is no number, and else the number with what follows it
unfoldable pub strtol : ℕ → List ℕ → Option (Option ℤ × List ℕ)
strtol base s =
    let (negative, t) = sign (skip_space s) in
    let u = skip_0x base t in
    let (n, rest) = scan base 0 u in
    if has_digit base u then some (in_long negative n, rest) else none

-- the character of a digit, as `sprintf` writes it
unfoldable pub digit_char : ℕ → ℕ
digit_char d = if ltb d 10 then b'0' + d else b'a' + (d - 10)

-- the numeral of a number below the fuel
unfoldable pub numeral_of : ℕ → ℕ → ℕ → List ℕ
numeral_of zero base n = []
numeral_of (suc fuel) base n = elim (ltb n base) [
  | true ↦ digit_char n ∷ []
  | false ↦ numeral_of fuel base (n / base) ++ digit_char (n % base) ∷ []
]

-- `sprintf` of an unsigned number, in base 10 or 16
abbrev pub numeral : ℕ → ℕ → List ℕ
numeral base n = numeral_of (suc n) base n
