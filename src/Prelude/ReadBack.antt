-- ===== src/Prelude/ReadBack.antt =====
-- A number that `sprintf` has written is read back by `strtol`.
use Prim.Native.Nat.{◌-◌, ℕ, zero, suc, ◌+◌, ◌*◌, ◌/◌, ◌%◌, ◌^◌, ◌<◌}
use mathlib.Core.Path.{◌≡◌, refl, sym, ap, subst, ◌∙◌}
use mathlib.Core.Logic.{◌⊎◌, inl, inr}
use mathlib.Core.Bool.{Bool, true, false, not, ◌||◌}
use mathlib.Core.Option.{none, some}
use mathlib.Core.List.{List, [], ◌∷◌, ◌++◌, append_assoc}
use native.Mathlib.Omega.{arith}
use poser.Prelude.Tests.{ltb, leb, ◌==◌, Bool-cases, Option-cases, ltb→lt, ltb→le, ==→eq}
use poser.Prelude.Lists.{All}
use poser.Prelude.Int.{pos, negsuc}
use poser.Prelude.Bits.{holds_below, holds_below_lem}
use poser.Prelude.Numerals.{
  digit, scan, is_space, skip_space, sign, has_digit, skip_0x, in_long, strtol, digit_char,
  numeral_of, numeral,
}

-- a character that is no space, no sign, no `x`, no terminator and none that parts an address
abbrev pub plain : ℕ → Bool
plain c = not (
    is_space c
    || c == b'-'
    || c == b'+'
    || c == b'x'
    || c == b'X'
    || c == b':'
    || c == b'.'
    || c == b'/'
    || c == 0)

-- The string does not go on with a digit, or with an `x`.
abbrev pub stops : ℕ → List ℕ → Bool
stops base [] = true
stops base (c ∷ s) = elim (digit base c) [ none ↦ not (c == b'x' || c == b'X') | some _ ↦ false ]

plain_table : holds_below (λ d. plain (digit_char d)) 16 ≡ true
unfolding holds_below digit_char
plain_table = refl

is_digit : ℕ → ℕ → Bool
is_digit base d = elim (digit base (digit_char d)) [ none ↦ false | some e ↦ e == d ]

digit_table_10 : holds_below (is_digit 10) 10 ≡ true
unfolding holds_below is_digit digit digit_char
digit_table_10 = refl

digit_table_16 : holds_below (is_digit 16) 16 ≡ true
unfolding holds_below is_digit digit digit_char
digit_table_16 = refl

false-true : false ≡ true → ⊥
false-true e = cc

is_digit_lem : (base d : ℕ) → is_digit base d ≡ true → digit base (digit_char d) ≡ some d
unfolding is_digit
is_digit_lem base d h = elim (Option-cases (digit base (digit_char d))) [
  | inl no_digit ↦ absurd (false-true (rw (no_digit, is_digit) at h))
  | inr (e, found) ↦ found ∙ ap some (==→eq e d (rw (found, is_digit) at h))
]

-- The bases that the library reads and writes.
abbrev pub IsBase : ℕ → Type 0
IsBase base = (base ≡ 10) ⊎ (base ≡ 16)

digit-digit_char : {base : ℕ} (d : ℕ) → IsBase base → d < base → digit base (digit_char d) ≡ some d
digit-digit_char d (inl ten) h =
    rw ten (is_digit_lem 10 d (holds_below_lem (is_digit 10) d 10 (rw ten at h) digit_table_10))
digit-digit_char d (inr sixteen) h =
    rw sixteen
      (is_digit_lem 16 d (holds_below_lem (is_digit 16) d 16 (rw sixteen at h) digit_table_16))

All-snoc :
    {A : Type 0} (P : A → Type 0) (xs : List A) (y : A) → All P xs → P y → All P (xs ++ y ∷ [])
All-snoc P [] y h k = (k, tt)
All-snoc P (x ∷ xs) y (p, h) k = (p, All-snoc P xs y h k)

module _ {base : ℕ} (b : IsBase base) where
  scan-digit_char :
      (acc d : ℕ) (s : List ℕ)
      → d < base
      → scan base acc (digit_char d ∷ s) ≡ scan base (acc * base + d) s
  unfolding scan
  scan-digit_char acc d s h = rw (digit-digit_char d b h, scan) refl

  shorter :
      (n : ℕ)
      → ltb n base ≡ false
      → (n / base < n) × (n % base < base) × (n / base * base + n % base ≡ n)
  shorter n big = elim b [
    | inl ten ↦ rw ten (shorter_10 (rw ten at big))
    | inr sixteen ↦ rw sixteen (shorter_16 (rw sixteen at big))
  ]
    where
      shorter_10 : ltb n 10 ≡ false → (n / 10 < n) × (n % 10 < 10) × (n / 10 * 10 + n % 10 ≡ n)
      shorter_10 big = let le = ltb→le n 10 big in (omega arith, omega arith, omega arith)

      shorter_16 : ltb n 16 ≡ false → (n / 16 < n) × (n % 16 < 16) × (n / 16 * 16 + n % 16 ≡ n)
      shorter_16 big = let le = ltb→le n 16 big in (omega arith, omega arith, omega arith)

  -- A numeral is read back, up to where it ends.
  scan-numeral_of :
      (fuel n : ℕ) (rest : List ℕ)
      → n < fuel
      → scan base 0 (numeral_of fuel base n ++ rest) ≡ scan base n rest
  unfolding numeral_of
  scan-numeral_of zero n rest h = absurd (omega arith)
  scan-numeral_of (suc fuel) n rest h = elim (Bool-cases (ltb n base)) [
    | inl small ↦
        let same : 0 * base + n ≡ n = omega arith in
        rw (small, numeral_of)
          (scan-digit_char 0 n rest (ltb→lt n base small) ∙ ap (λ m. scan base m rest) same)
    | inr big ↦
        let (less, digit_in, whole) = shorter n big in
        let last : ℕ = digit_char (n % base) in
        let front : List ℕ = numeral_of fuel base (n / base) in
        rw (big, numeral_of)
          (ap (scan base 0) (append_assoc front (last ∷ []) rest)
            ∙ scan-numeral_of fuel (n / base) (last ∷ rest) (omega (arith, less))
            ∙ scan-digit_char (n / base) (n % base) rest digit_in
            ∙ ap (λ m. scan base m rest) whole)
  ]

  -- A numeral starts with a digit, and has plain characters only.
  pub record Written (s : List ℕ) : Type 0 where
    pub head : ℕ
    pub tail : List ℕ
    pub parts : s ≡ head ∷ tail
    pub is_first : (r : List ℕ) → has_digit base (head ∷ r) ≡ true
    pub all_plain : All (λ c. plain c ≡ true) s

  plain-digit_char : (d : ℕ) → d < base → plain (digit_char d) ≡ true
  plain-digit_char d h = holds_below_lem (λ d. plain (digit_char d)) d 16 (ground arith) plain_table

  one_digit : (d : ℕ) → d < base → Written (digit_char d ∷ [])
  one_digit d h = record {
    head = digit_char d;
    tail = [];
    parts = refl;
    is_first = λ r. rw (digit-digit_char d b h, has_digit) refl;
    all_plain = (plain-digit_char d h, tt);
  }

  more_digits : (d : ℕ) (s : List ℕ) → d < base → Written s → Written (s ++ digit_char d ∷ [])
  more_digits d s h w = record {
    head = w.head;
    tail = w.tail ++ digit_char d ∷ [];
    parts = ap (λ t. t ++ digit_char d ∷ []) w.parts;
    is_first = w.is_first;
    all_plain = All-snoc (λ c. plain c ≡ true) s (digit_char d) w.all_plain (plain-digit_char d h);
  }

  numeral_of-Written : (fuel n : ℕ) → n < fuel → Written (numeral_of fuel base n)
  unfolding numeral_of
  numeral_of-Written zero n h = absurd (omega arith)
  numeral_of-Written (suc fuel) n h = elim (Bool-cases (ltb n base)) [
    | inl small ↦ rw (small, numeral_of) (one_digit n (ltb→lt n base small))
    | inr big ↦
        let (less, digit_in, _) = shorter n big in
        rw (big, numeral_of)
          (more_digits (n % base) (numeral_of fuel base (n / base)) digit_in
            (numeral_of-Written fuel (n / base) (omega (arith, less))))
  ]

  pub numeral-Written : (n : ℕ) → Written (numeral base n)
  numeral-Written n = numeral_of-Written (suc n) n (omega arith)

  module _ (h : ℕ) (t : List ℕ) (p : plain h ≡ true) where
    skip_space-plain : skip_space (h ∷ t) ≡ h ∷ t
    unfolding skip_space
    skip_space-plain = ground arith

    sign-plain : sign (h ∷ t) ≡ (false, h ∷ t)
    unfolding sign
    sign-plain = ground arith

  scan-stops : (n : ℕ) (rest : List ℕ) → stops base rest ≡ true → scan base n rest ≡ (n, rest)
  unfolding scan
  scan-stops n [] st = refl
  scan-stops n (c ∷ rest) st = elim (Option-cases (digit base c)) [
    | inl none_there ↦ rw (none_there, scan) refl
    | inr (d, there) ↦ absurd (false-true (rw (there, stops) at st))
  ]

  skip_0x-plain :
      (c x : ℕ) (s : List ℕ)
      → (x == b'x' || x == b'X') ≡ false
      → skip_0x base (c ∷ x ∷ s) ≡ c ∷ x ∷ s
  unfolding skip_0x
  skip_0x-plain c x s no_x = ground arith

  skip_0x-written :
      (h : ℕ) (t rest : List ℕ)
      → All (λ c. plain c ≡ true) t
      → stops base rest ≡ true
      → skip_0x base (h ∷ (t ++ rest)) ≡ h ∷ (t ++ rest)
  skip_0x-written h [] [] a st = unfold skip_0x in refl
  skip_0x-written h [] (c ∷ rest) a st = elim (Option-cases (digit base c)) [
    | inl none_there ↦
        let free = rw (none_there, stops) at st in skip_0x-plain h c rest (ground arith)
    | inr (d, there) ↦ absurd (false-true (rw (there, stops) at st))
  ]
  skip_0x-written h (c ∷ t) rest (p, a) st = skip_0x-plain h c (t ++ rest) (ground arith)

  -- What `sprintf` wrote of a number that is below 2 ^ 63, `strtol` reads, and stops behind it.
  pub strtol-numeral :
      (n : ℕ) (rest : List ℕ)
      → n < 2 ^ 63
      → stops base rest ≡ true
      → strtol base (numeral base n ++ rest) ≡ some (some (pos n), rest)
  unfolding strtol in_long
  strtol-numeral n rest small st =
      let w = numeral_of-Written (suc n) n (omega arith) in
      let s : List ℕ = numeral base n ++ rest in
      let plain_all = subst (All (λ c. plain c ≡ true)) w.parts w.all_plain in
      let parts : s ≡ w.head ∷ (w.tail ++ rest) = ap (λ t. t ++ rest) w.parts in
      let e1 : skip_space s ≡ s =
        ap skip_space parts ∙ skip_space-plain w.head (w.tail ++ rest) plain_all.0 ∙ sym parts in
      let e2 : sign s ≡ (false, s) =
        ap sign parts
        ∙ sign-plain w.head (w.tail ++ rest) plain_all.0
        ∙ ap (λ t. (false, t)) (sym parts) in
      let e3 : skip_0x base s ≡ s =
        ap (skip_0x base) parts ∙ skip_0x-written w.head w.tail rest plain_all.1 st ∙ sym parts in
      let e4 : scan base 0 s ≡ (n, rest) =
        scan-numeral_of (suc n) n rest (omega arith) ∙ scan-stops n rest st in
      let e5 : has_digit base s ≡ true = ap (has_digit base) parts ∙ w.is_first (w.tail ++ rest) in
      let fits : leb (2 ^ 63) n ≡ false = ground arith in rw (e1, e2, e3, e4, e5, fits) refl

  sign_minus : (s : List ℕ) → sign (skip_space (b'-' ∷ s)) ≡ (true, s)
  unfolding sign skip_space
  sign_minus s = refl

  -- And the same behind a minus sign, down to -(2 ^ 63).
  pub strtol-minus :
      (n : ℕ) (rest : List ℕ)
      → n < 2 ^ 63
      → stops base rest ≡ true
      → strtol base (b'-' ∷ (numeral base (n + 1) ++ rest)) ≡ some (some (negsuc n), rest)
  unfolding strtol in_long
  strtol-minus n rest small st =
      let m : ℕ = n + 1 in
      let w = numeral_of-Written (suc m) m (omega arith) in
      let s : List ℕ = numeral base m ++ rest in
      let plain_all = subst (All (λ c. plain c ≡ true)) w.parts w.all_plain in
      let parts : s ≡ w.head ∷ (w.tail ++ rest) = ap (λ t. t ++ rest) w.parts in
      let e3 : skip_0x base s ≡ s =
        ap (skip_0x base) parts ∙ skip_0x-written w.head w.tail rest plain_all.1 st ∙ sym parts in
      let e4 : scan base 0 s ≡ (m, rest) =
        scan-numeral_of (suc m) m rest (omega arith) ∙ scan-stops m rest st in
      let e5 : has_digit base s ≡ true = ap (has_digit base) parts ∙ w.is_first (w.tail ++ rest) in
      let fits : ltb (2 ^ 63) m ≡ false = ground arith in
      let nonzero : (m == 0) ≡ false = ground arith in
      let back : m - 1 ≡ n = omega arith in rw (sign_minus s, e3, e4, e5, fits, nonzero, back) refl
