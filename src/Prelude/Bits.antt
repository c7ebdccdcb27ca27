-- ===== src/Prelude/Bits.antt =====
-- Bit operations over small ranges as arithmetic, each checked at every value by evaluation.
use Prim.Native.Nat.{
  ℕ, zero, suc, ◌+◌, ◌*◌, ◌%◌, ◌/◌, ◌≤◌, ◌<◌, min, digits, bit_and, bit_or, bit_and-bitwise,
}
use mathlib.Core.Path.{◌≡◌, refl}
use mathlib.Core.Bool.{Bool, true, ◌&&◌}
use native.Mathlib.Omega.{arith}
use poser.Prelude.Tests.{◌==◌, ==→eq}

-- the test at every number below a bound
unfoldable pub holds_below : (ℕ → Bool) → ℕ → Bool
holds_below test zero = true
holds_below test (suc k) = holds_below test k && test k

pub holds_below_lem :
    (test : ℕ → Bool) (i k : ℕ) → i < k → holds_below test k ≡ true → test i ≡ true
unfolding holds_below
holds_below_lem test i zero i_in all = absurd (omega arith)
holds_below_lem test i (suc k) i_in all = ground (arith, holds_below_lem test i k)

table_6 : holds_below (λ x. bit_and x 0x3f == x % 64) 256 ≡ true
unfolding holds_below
table_6 = refl

-- `x & 0x3f` of a byte
pub bit_and-63 : (x : ℕ) → x < 256 → bit_and x 0x3f ≡ x % 64
bit_and-63 x h = ==→eq _ _ (holds_below_lem (λ y. bit_and y 0x3f == y % 64) x 256 h table_6)

-- The two operands of `|` have no bit in common, so it adds: at one left operand, and at all.
abbrev adds : ℕ → ℕ → ℕ → Bool
adds n k a = holds_below (λ c. bit_or (a * k) c == a * k + c) n

bit_or_of_table :
    (m n k : ℕ)
    → holds_below (adds n k) m ≡ true
    → (a c : ℕ) → a < m
    → c < n
    → bit_or (a * k) c ≡ a * k + c
bit_or_of_table m n k table a c ha hc =
    let row : adds n k a ≡ true = holds_below_lem (adds n k) a m ha table in
    ==→eq _ _ (holds_below_lem (λ d. bit_or (a * k) d == a * k + d) c n hc row)

pub bit_or-4 : (a c : ℕ) → a < 256 → c < 4 → bit_or (a * 4) c ≡ a * 4 + c
unfolding holds_below
bit_or-4 = bit_or_of_table 256 4 4 refl

pub bit_or-16 : (a c : ℕ) → a < 256 → c < 16 → bit_or (a * 16) c ≡ a * 16 + c
unfolding holds_below
bit_or-16 = bit_or_of_table 256 16 16 refl

pub bit_or-64 : (a c : ℕ) → a < 64 → c < 64 → bit_or (a * 64) c ≡ a * 64 + c
unfolding holds_below
bit_or-64 = bit_or_of_table 64 64 64 refl

-- `x & m` is no more than the mask, whatever `x` is.
masked_digits : (n a m : ℕ) → digits (λ b. zero) min n a m ≤ m
masked_digits zero a m = omega arith
masked_digits (suc n) zero m = omega arith
masked_digits (suc n) (suc a) m = omega (arith, masked_digits n (suc a / 2) (m / 2))

pub bit_and-le : (x m : ℕ) → bit_and x m ≤ m
bit_and-le x m = rw bit_and-bitwise (masked_digits x x m)
