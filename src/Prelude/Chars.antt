-- ===== src/Prelude/Chars.antt =====
-- C strings: lists of character codes, where 0 ends the string.
use Prim.Native.Nat.{ℕ, suc, ◌+◌}
use Prim.Native.Char.{code}
use Prim.Native.String.{String}
use mathlib.Core.Path.{◌≡◌, refl}
use mathlib.Core.Bool.{Bool, true, false}
use mathlib.Core.List.{List, [], ◌∷◌, ◌++◌}
use mathlib.Core.Logic.{◌≢◌}
use mathlib.Core.Option
use mathlib.Core.Option.{Option, none, some}
use native.Mathlib.Omega.{arith}
use poser.Prelude.Tests.{◌==◌, if◌then◌else◌}
use poser.Prelude.Lists.{length, All}

-- the character codes of a literal
abbrev pub codes : String → List ℕ
codes String.[] = []
codes (String.◌∷◌ c s) = code c ∷ codes s

-- `strlen`: the characters before the first 0
abbrev pub strlen : List ℕ → ℕ
strlen [] = 0
strlen (c ∷ cs) = let n = strlen cs in if c == 0 then 0 else n + 1

-- `strchr`, as an index: the terminator counts as a part of the string
abbrev pub strchr : List ℕ → ℕ → Option ℕ
strchr [] c = if c == 0 then some 0 else none
strchr (x ∷ xs) c = let later = Option.map suc (strchr xs c) in if x == c then some 0 else later

-- `!strcmp`, for strings without their terminators
abbrev pub str_eq : List ℕ → List ℕ → Bool
str_eq [] [] = true
str_eq [] (y ∷ ys) = false
str_eq (x ∷ xs) [] = false
str_eq (x ∷ xs) (y ∷ ys) = let rest = str_eq xs ys in if x == y then rest else false

pub strlen-append : (xs ys : List ℕ) → All (λ c. c ≢ 0) xs → strlen (xs ++ 0 ∷ ys) ≡ length xs
strlen-append [] ys h = refl
strlen-append (x ∷ xs) ys h = ground (arith, h.0, strlen-append xs ys h.1)

pub str_eq_refl : (xs : List ℕ) → str_eq xs xs ≡ true
str_eq_refl [] = refl
str_eq_refl (x ∷ xs) = ground (arith, str_eq_refl xs)

pub str_eq→eq : (xs ys : List ℕ) → str_eq xs ys ≡ true → xs ≡ ys
str_eq→eq [] [] h = refl
str_eq→eq [] (y ∷ ys) h = cc
str_eq→eq (x ∷ xs) [] h = cc
str_eq→eq (x ∷ xs) (y ∷ ys) h = ground (arith, str_eq→eq xs ys)

pub str_eq_symm : (xs ys : List ℕ) → str_eq xs ys ≡ str_eq ys xs
str_eq_symm [] [] = refl
str_eq_symm [] (y ∷ ys) = refl
str_eq_symm (x ∷ xs) [] = refl
str_eq_symm (x ∷ xs) (y ∷ ys) = ground (arith, str_eq_symm xs ys)

pub str_eq_trans :
    (xs ys zs : List ℕ) → str_eq xs ys ≡ true → str_eq ys zs ≡ true → str_eq xs zs ≡ true
str_eq_trans xs ys zs h k = rw (str_eq→eq xs ys h, str_eq→eq ys zs k) (str_eq_refl zs)
