-- ===== src/Dictionary/Bits.antt =====
-- The bits of a hash that are left at each depth of dictionary.c.
use native.Mathlib.Nat.{div-div-eq-div-mul}
use poser.Prelude.{ℕ, suc, ◌+◌, ◌-◌, ◌*◌, ◌/◌, ◌^◌, ◌≤◌, ◌<◌, ◌≡◌, true, false, ltb, arith}
use poser.Dictionary.{max_nest}
use poser.Dictionary.Valid.{bits_used}

-- The bits after 8 more, below the table of the depth 1.
pub shift_ht8 :
    (h : ℕ) {left : ℕ}
    → suc left ≡ 13
    → h / 2 ^ bits_used (suc left) / 2 ^ 8 ≡ h / 2 ^ bits_used left
shift_ht8 h {left} e =
    let here : bits_used (suc left) ≡ 8 = ground arith in
    let below : bits_used left ≡ 16 = ground arith in
    rw (here, below) (div-div-eq-div-mul h (2 ^ 8) (2 ^ 8))

pow_four : (a : ℕ) → 2 ^ (a + 4) ≡ 2 ^ a * 2 ^ 4
pow_four a = let e : a + 4 ≡ suc (suc (suc (suc a))) = omega arith in rw e (grind arith)

-- The bits after 4 more, below each other table.
pub shift_ht4 :
    (h : ℕ) {left : ℕ}
    → suc left < 13
    → h / 2 ^ bits_used (suc left) / 2 ^ 4 ≡ h / 2 ^ bits_used left
shift_ht4 h {left} lt =
    let step : bits_used left ≡ bits_used (suc left) + 4 = ground arith in
    rw (step, pow_four) (div-div-eq-div-mul h (2 ^ bits_used (suc left)) (2 ^ 4))

-- What `set` shifts out to place an entry is what is used up at the depth.
pub placed_ht8 : {left : ℕ} → suc left ≤ 13 → ltb 1 (max_nest - suc left) ≡ false → suc left ≡ 13
placed_ht8 le at = ground arith

pub placed_ht4 :
    {left : ℕ}
    → suc left ≤ 13
    → ltb 1 (max_nest - suc left) ≡ true
    → (suc left < 13) × (16 + (max_nest - suc left - 2) * 4 ≡ bits_used (suc left))
placed_ht4 le at = (ground arith, ground arith)
