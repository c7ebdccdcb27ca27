-- ===== src/Prelude/Memory.antt =====
-- Blocks of memory. A cell that no statement has written yet is `none`.
use Prim.Native.Nat.{ℕ, zero, suc, ◌+◌, ◌-◌, ◌≤◌, ◌<◌}
use mathlib.Core.Path.{◌≡◌, refl, ap, ◌∙◌}
use mathlib.Core.Logic.{◌⊎◌}
use mathlib.Core.List.{List, [], ◌∷◌, ◌++◌}
use mathlib.Core.Option.{Option, none}
use native.Mathlib.Omega.{arith}
use poser.Prelude.Tests.{lt→ltb}
use poser.Prelude.Lists.{
  length, get_or, set, take, drop, replicate, length-set, get_or-set_self, get_or-set_ne,
  get_or-drop, get_or-take_below, length-take, length-drop, length-append, length-replicate,
  get_or-append,
}

module _ {ℓ} {A : Type ℓ} where
  -- `malloc` of `n` cells
  abbrev pub malloc : ℕ → List (Option A)
  malloc n = replicate n none

  -- `realloc` to `n` cells, `n` no less than before
  unfoldable pub realloc : List (Option A) → ℕ → List (Option A)
  realloc cells n = cells ++ malloc (n - length cells)

  -- the values of `vs`, written from index `i` on
  abbrev pub write_at : List A → ℕ → List A → List A
  write_at xs i [] = xs
  write_at xs i (v ∷ vs) = write_at (set xs i v) (suc i) vs

  -- `memmove(xs + to, xs + from, n)`, and `memcpy` where the blocks do not overlap
  unfoldable pub memmove : List A → ℕ → ℕ → ℕ → List A
  memmove xs to from n = write_at xs to (take n (drop from xs))

module _ {ℓ} {A : Type ℓ} where
  pub length-write_at : (vs xs : List A) (i : ℕ) → length (write_at xs i vs) ≡ length xs
  length-write_at [] xs i = refl
  length-write_at (v ∷ vs) xs i = length-write_at vs (set xs i v) (suc i) ∙ length-set xs i v

  -- Beside the block nothing changes.
  pub get_or-write_at_outside :
      (vs xs : List A) (i j : ℕ) (d : A)
      → i + length vs ≤ length xs
      → (j < i) ⊎ (i + length vs ≤ j)
      → get_or (write_at xs i vs) j d ≡ get_or xs j d
  get_or-write_at_outside [] xs i j d h o = refl
  get_or-write_at_outside (v ∷ vs) xs i j d h o =
      get_or-write_at_outside vs (set xs i v) (suc i) j d (omega (arith, length-set xs i v))
        (omega arith)
      ∙ get_or-set_ne xs i j v d (omega arith)

  -- Inside the block stand the values.
  pub get_or-write_at_inside :
      (vs xs : List A) (i k : ℕ) (d : A)
      → i + length vs ≤ length xs
      → k < length vs
      → get_or (write_at xs i vs) (i + k) d ≡ get_or vs k d
  get_or-write_at_inside [] xs i k d h hk = absurd (omega arith)
  get_or-write_at_inside (v ∷ vs) xs i zero d h hk =
      let e : i + zero ≡ i = omega arith in
      rw e (
        get_or-write_at_outside vs (set xs i v) (suc i) i d (omega (arith, length-set xs i v))
          (omega arith)
        ∙ get_or-set_self xs i v d (omega arith))
  get_or-write_at_inside (v ∷ vs) xs i (suc k) d h hk =
      let e : i + suc k ≡ suc i + k = omega arith in
      rw e (
        get_or-write_at_inside vs (set xs i v) (suc i) k d (omega (arith, length-set xs i v))
          (omega arith))

  pub length-memmove : (xs : List A) (to from n : ℕ) → length (memmove xs to from n) ≡ length xs
  unfolding memmove
  length-memmove xs to from n = length-write_at (take n (drop from xs)) xs to

  length-block :
      (xs : List A) (from n : ℕ) → from + n ≤ length xs → length (take n (drop from xs)) ≡ n
  length-block xs from n h = omega (arith, length-take n (drop from xs), length-drop from xs)

  pub get_or-memmove_outside :
      (xs : List A) (to from n j : ℕ) (d : A)
      → to + n ≤ length xs
      → from + n ≤ length xs
      → (j < to) ⊎ (to + n ≤ j)
      → get_or (memmove xs to from n) j d ≡ get_or xs j d
  unfolding memmove
  get_or-memmove_outside xs to from n j d h k o =
      get_or-write_at_outside (take n (drop from xs)) xs to j d (rw (length-block xs from n k) h)
        (rw (length-block xs from n k) o)

  pub get_or-memmove_inside :
      (xs : List A) (to from n j : ℕ) (d : A)
      → to + n ≤ length xs
      → from + n ≤ length xs
      → j < n
      → get_or (memmove xs to from n) (to + j) d ≡ get_or xs (from + j) d
  unfolding memmove
  get_or-memmove_inside xs to from n j d h k o =
      get_or-write_at_inside (take n (drop from xs)) xs to j d (rw (length-block xs from n k) h)
        (rw (length-block xs from n k) o)
      ∙ get_or-take_below n (drop from xs) j d o
      ∙ get_or-drop from xs j d

  pub write_at-cons :
      (vs xs : List A) (x : A) (i : ℕ) → write_at (x ∷ xs) (suc i) vs ≡ x ∷ write_at xs i vs
  write_at-cons [] xs x i = refl
  write_at-cons (v ∷ vs) xs x i = write_at-cons vs (set xs i v) x (suc i)

  -- Writing as many values as there are cells replaces them all.
  pub write_at_all : (vs xs : List A) → length vs ≡ length xs → write_at xs 0 vs ≡ vs
  write_at_all [] [] e = refl
  write_at_all [] (x ∷ xs) e = absurd (omega arith)
  write_at_all (v ∷ vs) [] e = absurd (omega arith)
  write_at_all (v ∷ vs) (x ∷ xs) e =
      write_at-cons vs xs v 0 ∙ ap (◌∷◌ v) (write_at_all vs xs (omega arith))

  pub length-realloc :
      (cells : List (Option A)) (n : ℕ) → length cells ≤ n → length (realloc cells n) ≡ n
  unfolding realloc
  length-realloc cells n h = omega (
    arith,
    length-append cells (malloc (n - length cells)),
    length-replicate {A = Option A} (n - length cells) none,
  )

  pub get_or-realloc :
      (cells : List (Option A)) (n i : ℕ)
      → i < length cells
      → get_or (realloc cells n) i none ≡ get_or cells i none
  unfolding realloc
  get_or-realloc cells n i h = rw (get_or-append, lt→ltb i (length cells) h)
