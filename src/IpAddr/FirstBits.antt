-- ===== src/IpAddr/FirstBits.antt =====
-- The bits of bytes, and what the loops and masks of `PSC_IpAddr_matches` of ipaddr.c see of them.
use poser.Prelude.{
  ℕ, zero, suc, ◌+◌, ◌-◌, ◌*◌, ◌/◌, ◌%◌, ◌^◌, ◌≤◌, ◌<◌, ◌≡◌, refl, sym, ap, ◌∙◌, inl, inr, bit_and,
  List, [], ◌∷◌, ◌++◌, Bool, true, false, ◌&&◌, ◌==◌, if◌then◌else◌, length, take, Bool-cases,
  ==→eq, ==_refl, arith,
}
use poser.Prelude.Bits.{holds_below, holds_below_lem}
use poser.Prelude.Chars.{str_eq, str_eq_refl, str_eq→eq}
use poser.IpAddr.{same_prefix}

-- The bits of a number, the highest first.
unfoldable pub bits : ℕ → ℕ → List ℕ
bits zero n = []
bits (suc k) n = bits k (n / 2) ++ n % 2 ∷ []

-- The bits of bytes.
unfoldable pub bits_of : List ℕ → List ℕ
bits_of [] = []
bits_of (x ∷ bytes) = bits 8 x ++ bits_of bytes

value : ℕ → List ℕ → ℕ
value acc [] = acc
value acc (b ∷ bs) = value (2 * acc + b) bs

mask : ℕ → ℕ
mask k = 0xff * 2 ^ (8 - k) % 2 ^ 8

-- The first bits of a byte, the number that they are, and the mask that keeps them.
first_bits : ℕ → ℕ → Bool
first_bits k x =
    str_eq (take k (bits 8 x)) (bits k (x / 2 ^ (8 - k)))
    && value 0 (take k (bits 8 x)) == x / 2 ^ (8 - k)
    && bit_and x (mask k) == x / 2 ^ (8 - k) * 2 ^ (8 - k)
    && bit_and x (mask k) / 2 ^ (8 - k) == x / 2 ^ (8 - k)

first_bits_table : holds_below (λ k. holds_below (first_bits k) 256) 9 ≡ true
unfolding holds_below first_bits bits value mask
first_bits_table = refl

first_bits_lem : (k x : ℕ) → k < 9 → x < 256 → first_bits k x ≡ true
first_bits_lem k x h hx =
    holds_below_lem (first_bits k) x 256 hx
      (holds_below_lem (λ k. holds_below (first_bits k) 256) k 9 h first_bits_table)

record IsFirst (k x : ℕ) : Type 0 where
  text : take k (bits 8 x) ≡ bits k (x / 2 ^ (8 - k))
  number : value 0 (take k (bits 8 x)) ≡ x / 2 ^ (8 - k)
  masked : bit_and x (mask k) ≡ x / 2 ^ (8 - k) * 2 ^ (8 - k)
  kept : bit_and x (mask k) / 2 ^ (8 - k) ≡ x / 2 ^ (8 - k)

and-left : (a b : Bool) → (a && b) ≡ true → a ≡ true
and-left a b h = ground arith

and-right : (a b : Bool) → (a && b) ≡ true → b ≡ true
and-right a b h = ground arith

IsFirst-byte : (k x : ℕ) → k < 9 → x < 256 → IsFirst k x
unfolding first_bits
IsFirst-byte k x h hx =
    let q : ℕ = x / 2 ^ (8 - k) in
    let all = first_bits_lem k x h hx in
    let a : Bool = str_eq (take k (bits 8 x)) (bits k q) in
    let b : Bool = value 0 (take k (bits 8 x)) == q in
    let c : Bool = bit_and x (mask k) == q * 2 ^ (8 - k) in
    let d : Bool = bit_and x (mask k) / 2 ^ (8 - k) == q in
    let abc = and-left (a && b && c) d all in
    let ab = and-left (a && b) c abc in
    record {
      text = str_eq→eq (take k (bits 8 x)) (bits k q) (and-left a b ab);
      number = ==→eq (value 0 (take k (bits 8 x))) q (and-right a b ab);
      masked = ==→eq (bit_and x (mask k)) (q * 2 ^ (8 - k)) (and-right (a && b) c abc);
      kept = ==→eq (bit_and x (mask k) / 2 ^ (8 - k)) q (and-right (a && b && c) d all);
    }

same_Bool : (a b : Bool) → (a ≡ true → b ≡ true) → (b ≡ true → a ≡ true) → a ≡ b
same_Bool true true f g = refl
same_Bool false false f g = refl
same_Bool true false f g = sym (f refl)
same_Bool false true f g = g refl

eq→== : (a b : ℕ) → a ≡ b → (a == b) ≡ true
eq→== a b h = rw h (==_refl b)

pub eq→str_eq : (xs ys : List ℕ) → xs ≡ ys → str_eq xs ys ≡ true
eq→str_eq xs ys h = rw h (str_eq_refl ys)

-- The bytes agree under the mask where their first bits do.
masked-bits :
    (k x y : ℕ)
    → k < 8
    → x < 256
    → y < 256
    → (bit_and x (mask k) == bit_and y (mask k)) ≡ str_eq (take k (bits 8 x)) (take k (bits 8 y))
masked-bits k x y h hx hy =
    let u = IsFirst-byte k x (omega arith) hx in
    let v = IsFirst-byte k y (omega arith) hy in
    let xs : List ℕ = take k (bits 8 x) in
    let ys : List ℕ = take k (bits 8 y) in
    same_Bool (bit_and x (mask k) == bit_and y (mask k)) (str_eq xs ys)
      (λ same.
        let e = ==→eq (bit_and x (mask k)) (bit_and y (mask k)) same in
        let q = sym u.kept ∙ ap (λ n. n / 2 ^ (8 - k)) e ∙ v.kept in
        eq→str_eq xs ys (u.text ∙ ap (bits k) q ∙ sym v.text))
      (λ same.
        let q = sym u.number ∙ ap (value 0) (str_eq→eq xs ys same) ∙ v.number in
        eq→== (bit_and x (mask k)) (bit_and y (mask k))
          (u.masked ∙ ap (λ n. n * 2 ^ (8 - k)) q ∙ sym v.masked))

take-bits : (x : ℕ) → take 8 (bits 8 x) ≡ bits 8 x
unfolding bits
take-bits x = refl

pub length-bits : (x : ℕ) → length (bits 8 x) ≡ 8
unfolding bits
length-bits x = refl

bits-injective : (x y : ℕ) → x < 256 → y < 256 → str_eq (bits 8 x) (bits 8 y) ≡ (x == y)
bits-injective x y hx hy =
    let u = IsFirst-byte 8 x (omega arith) hx in
    let v = IsFirst-byte 8 y (omega arith) hy in
    let e : value 0 (bits 8 x) ≡ x = ap (value 0) (sym (take-bits x)) ∙ u.number ∙ one x in
    let e' : value 0 (bits 8 y) ≡ y = ap (value 0) (sym (take-bits y)) ∙ v.number ∙ one y in
    same_Bool (str_eq (bits 8 x) (bits 8 y)) (x == y)
      (λ same. eq→== x y (sym e ∙ ap (value 0) (str_eq→eq (bits 8 x) (bits 8 y) same) ∙ e'))
      (λ same. eq→str_eq (bits 8 x) (bits 8 y) (ap (bits 8) (==→eq x y same)))
  where
    one : (n : ℕ) → n / 1 ≡ n
    one n = omega arith

str_eq-append :
    (us vs xs ys : List ℕ)
    → length us ≡ length vs
    → str_eq (us ++ xs) (vs ++ ys) ≡ (if str_eq us vs then str_eq xs ys else false)
str_eq-append [] [] xs ys h = refl
str_eq-append [] (v ∷ vs) xs ys h = absurd (omega arith)
str_eq-append (u ∷ us) [] xs ys h = absurd (omega arith)
str_eq-append (u ∷ us) (v ∷ vs) xs ys h = elim (Bool-cases (u == v)) [
  | inl same ↦ rw same (str_eq-append us vs xs ys (omega arith))
  | inr other ↦ rw other refl
]

pub whole_byte :
    (x y : ℕ) (xs ys : List ℕ)
    → x < 256
    → y < 256
    → str_eq (bits 8 x ++ xs) (bits 8 y ++ ys) ≡ (if x == y then str_eq xs ys else false)
whole_byte x y xs ys hx hy =
    str_eq-append (bits 8 x) (bits 8 y) xs ys (length-bits x ∙ sym (length-bits y))
    ∙ ap (λ b. if b then str_eq xs ys else false) (bits-injective x y hx hy)

pub same_prefix-byte :
    (m x y : ℕ) (a p : List ℕ)
    → same_prefix (8 + m) (x ∷ a) (y ∷ p) ≡ (if x == y then same_prefix m a p else false)
unfolding same_prefix
same_prefix-byte m x y a p =
    let e : (8 + m) / 8 ≡ suc (m / 8) = omega arith in
    let e' : (8 + m) % 8 ≡ m % 8 = omega arith in
    rw (e, e') (elim (Bool-cases (x == y)) [ inl same ↦ rw same refl | inr other ↦ rw other refl ])

take-past : (us xs : List ℕ) (m : ℕ) → take (length us + m) (us ++ xs) ≡ us ++ take m xs
take-past [] xs m = let e : 0 + m ≡ m = omega arith in ap (λ k. take k xs) e
take-past (u ∷ us) xs m =
    let e : suc (length us) + m ≡ suc (length us + m) = omega arith in
    ap (λ k. take k (u ∷ (us ++ xs))) e ∙ ap (◌∷◌ u) (take-past us xs m)

pub take-eight : (m x : ℕ) (xs : List ℕ) → take (8 + m) (bits 8 x ++ xs) ≡ bits 8 x ++ take m xs
take-eight m x xs =
    ap (λ k. take (k + m) (bits 8 x ++ xs)) (sym (length-bits x)) ∙ take-past (bits 8 x) xs m

pub take-within : (us xs : List ℕ) (k : ℕ) → k ≤ length us → take k (us ++ xs) ≡ take k us
take-within us xs zero h = refl
take-within [] xs (suc k) h = absurd (omega arith)
take-within (u ∷ us) xs (suc k) h = ap (◌∷◌ u) (take-within us xs k (omega arith))

pub last_byte :
    (k x y : ℕ) (a p : List ℕ)
    → k < 8
    → x < 256
    → y < 256
    → same_prefix k (x ∷ a) (y ∷ p) ≡ str_eq (take k (bits 8 x)) (take k (bits 8 y))
unfolding same_prefix mask
last_byte zero x y a p h hx hy = refl
last_byte (suc k) x y a p h hx hy =
    let e : suc k / 8 ≡ 0 = omega arith in
    let e' : suc k % 8 ≡ suc k = omega arith in
    let e'' : (suc k == 0) ≡ false = ground arith in
    rw (e, e', e'') (masked-bits (suc k) x y h hx hy)
