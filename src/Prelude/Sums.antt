-- ===== src/Prelude/Sums.antt =====
-- Finite sums of a function over an initial part of the numbers.
use Prim.Native.Nat.{ℕ, zero, suc, ◌+◌, ◌-◌, ◌≤◌, ◌<◌}
use mathlib.Core.Path.{◌≡◌, refl}
use mathlib.Core.Bool.{false}
use poser.Prelude.Tests.{◌==◌, if◌then◌else◌}
use native.Mathlib.Decide.{dec_lt}
use native.Mathlib.Omega.{arith}

unfoldable pub sum_to : ℕ → (ℕ → ℕ) → ℕ
sum_to zero f = 0
sum_to (suc n) f = sum_to n f + f n

pub sum_to_congr : (n : ℕ) (f g : ℕ → ℕ) → ((k : ℕ) → k < n → f k ≡ g k) → sum_to n f ≡ sum_to n g
unfolding sum_to
sum_to_congr zero f g h = refl
sum_to_congr (suc n) f g h =
    omega (arith, sum_to_congr n f g (λ k hk. h k (omega arith)), h n (omega arith))

pub sum_to_shift : (n : ℕ) (f : ℕ → ℕ) → sum_to (suc n) f ≡ f 0 + sum_to n (λ k. f (suc k))
unfolding sum_to
sum_to_shift zero f = omega arith
sum_to_shift (suc n) f = omega (arith, sum_to_shift n f)

pub sum_to_zero : (n : ℕ) (f : ℕ → ℕ) → ((k : ℕ) → k < n → f k ≡ 0) → sum_to n f ≡ 0
unfolding sum_to
sum_to_zero zero f h = refl
sum_to_zero (suc n) f h =
    omega (arith, sum_to_zero n f (λ k hk. h k (omega arith)), h n (omega arith))

pub le-sum_to : (n : ℕ) (f : ℕ → ℕ) (k : ℕ) → k < n → f k ≤ sum_to n f
unfolding sum_to
le-sum_to zero f k h = absurd (omega arith)
le-sum_to (suc n) f k h = elim (dec_lt k n) [
  | yes small ↦ omega (arith, le-sum_to n f k small)
  | no big ↦ let e : k ≡ n = omega arith in rw e (omega arith)
]

-- `f` is `g` moved up by one place: the sums differ by the last value of `g`.
pub sum_to_shifted :
    (n : ℕ) (f g : ℕ → ℕ)
    → 0 < n
    → ((k : ℕ) → k < n → f k ≡ (if k == 0 then 0 else g (k - 1)))
    → sum_to n f + g (n - 1) ≡ sum_to n g
unfolding sum_to
sum_to_shifted zero f g pos h = absurd (omega arith)
sum_to_shifted (suc m) f g pos h =
    let first : f 0 ≡ 0 = h 0 (omega arith) in
    let last : suc m - 1 ≡ m = omega arith in
    let rest : sum_to m (λ k. f (suc k)) ≡ sum_to m g =
      sum_to_congr m (λ k. f (suc k)) g
        (λ k hk.
          let down : suc k - 1 ≡ k = omega arith in
          let test : (suc k == 0) ≡ false = ground arith in
          rw (test, down) at (h (suc k) (omega arith))) in
    rw last (omega (arith, sum_to_shift m f, rest, first))

-- One more at 0, and nothing else.
pub sum_to_bump :
    (n : ℕ) (f g : ℕ → ℕ)
    → 0 < n
    → ((k : ℕ) → k < n → f k ≡ g k + (if k == 0 then 1 else 0))
    → sum_to n f ≡ sum_to n g + 1
sum_to_bump zero f g pos h = absurd (omega arith)
sum_to_bump (suc m) f g pos h =
    let first : f 0 ≡ g 0 + 1 = h 0 (omega arith) in
    let rest : sum_to m (λ k. f (suc k)) ≡ sum_to m (λ k. g (suc k)) =
      sum_to_congr m (λ k. f (suc k)) (λ k. g (suc k))
        (λ k hk.
          let test : (suc k == 0) ≡ false = ground arith in
          omega (arith, rw test at (h (suc k) (omega arith)))) in
    omega (arith, sum_to_shift m f, sum_to_shift m g, rest, first)

-- Two functions that differ at one place.
pub sum_to_change :
    (n : ℕ) (f g : ℕ → ℕ) (i : ℕ)
    → i < n
    → ((k : ℕ) → (k ≡ i → ⊥) → g k ≡ f k)
    → sum_to n g + f i ≡ sum_to n f + g i
unfolding sum_to
sum_to_change zero f g i h same = absurd (omega arith)
sum_to_change (suc n) f g i h same = elim (dec_lt i n) [
  | yes small ↦ omega (arith, sum_to_change n f g i small same, same n (λ e. absurd (omega arith)))
  | no big ↦
      let e : i ≡ n = omega arith in
      let rest : sum_to n g ≡ sum_to n f =
        sum_to_congr n g f (λ k hk. same k (λ x. absurd (omega arith))) in
      rw e (omega arith)
]

pub sum_to_plus : (n : ℕ) (f g : ℕ → ℕ) → sum_to n f + sum_to n g ≡ sum_to n (λ k. f k + g k)
unfolding sum_to
sum_to_plus zero f g = refl
sum_to_plus (suc n) f g = omega (arith, sum_to_plus n f g)
