-- ===== src/Base64/Alphabet.antt =====
-- One character of base64.c: `enc1` and `dec1`, checked at every byte.
use poser.Prelude.{
  ℕ, ◌%◌, ◌≡◌, ◌≢◌, List, [], ◌∷◌, Bool, true, false, ◌&&◌, ◌||◌, arith, refl, All, ltb, leb, ◌==◌,
  ==→eq,
}
use poser.Prelude.Bits.{holds_below, holds_below_lem}
use poser.Base64.{enc1, dec1, encode_loop}

module _ (f : Bool) where
  decodes : ℕ → Bool
  decodes v = dec1 (enc1 v f) == v % 64

-- a character of the URL-safe alphabet: a letter, a digit, `-` or `_`
abbrev pub is_urlsafe : ℕ → Bool
is_urlsafe c =
    (leb b'A' c && leb c b'Z')
    || (leb b'a' c && leb c b'z')
    || (leb b'0' c && leb c b'9')
    || c == b'-'
    || c == b'_'

table_default : holds_below (decodes false) 256 ≡ true
unfolding holds_below decodes enc1 dec1
table_default = refl

table_urlsafe : holds_below (decodes true) 256 ≡ true
unfolding holds_below decodes enc1 dec1
table_urlsafe = refl

enc1_mod : (v : ℕ) (f : Bool) → enc1 v f ≡ enc1 (v % 256) f
unfolding enc1
enc1_mod v f = let e : v % 256 % 256 ≡ v % 256 = omega arith in rw e

-- `dec1` gives back the six bits that `enc1` wrote, in either alphabet.
pub dec1-enc1 : (v : ℕ) (f : Bool) → dec1 (enc1 v f) ≡ v % 64
unfolding decodes
dec1-enc1 v true =
    let e = holds_below_lem (decodes true) (v % 256) 256 (omega arith) table_urlsafe in
    rw enc1_mod (omega (arith, ==→eq _ _ e))
dec1-enc1 v false =
    let e = holds_below_lem (decodes false) (v % 256) 256 (omega arith) table_default in
    rw enc1_mod (omega (arith, ==→eq _ _ e))

abbrev urlsafe_table : ℕ → Bool
urlsafe_table v = is_urlsafe (enc1 v true)

table_alphabet : holds_below (λ v. is_urlsafe (enc1 v true)) 256 ≡ true
unfolding holds_below enc1
table_alphabet = refl

enc1-is_urlsafe : (v : ℕ) → is_urlsafe (enc1 v true) ≡ true
enc1-is_urlsafe v =
    rw enc1_mod
      (holds_below_lem (λ w. is_urlsafe (enc1 w true)) (v % 256) 256 (omega arith) table_alphabet)

table_nonzero : holds_below (λ v. ltb 0 (enc1 v false) && ltb 0 (enc1 v true)) 256 ≡ true
unfolding holds_below enc1
table_nonzero = refl

pub enc1-ne-zero : (v : ℕ) (f : Bool) → enc1 v f ≢ 0
enc1-ne-zero v true =
    let e =
      holds_below_lem (λ w. ltb 0 (enc1 w false) && ltb 0 (enc1 w true)) (v % 256) 256 (omega arith)
        table_nonzero in
    rw enc1_mod (ground arith)
enc1-ne-zero v false =
    let e =
      holds_below_lem (λ w. ltb 0 (enc1 w false) && ltb 0 (enc1 w true)) (v % 256) 256 (omega arith)
        table_nonzero in
    rw enc1_mod (ground arith)

pub encode_loop-ne-zero : (f : Bool) (bytes : List ℕ) → All (λ c. c ≢ 0) (encode_loop f bytes)
unfolding encode_loop
encode_loop-ne-zero f [] = tt
encode_loop-ne-zero f (a ∷ []) = (enc1-ne-zero _ f, (enc1-ne-zero _ f, tt))
encode_loop-ne-zero f (a ∷ b ∷ []) = (enc1-ne-zero _ f, (enc1-ne-zero _ f, (enc1-ne-zero _ f, tt)))
encode_loop-ne-zero f (a ∷ b ∷ c ∷ rest) = (
  enc1-ne-zero _ f,
  (enc1-ne-zero _ f, (enc1-ne-zero _ f, (enc1-ne-zero _ f, encode_loop-ne-zero f rest))),
)

-- Every character written under the flag PSC_B64_URLSAFE is of the URL-safe alphabet.
pub encode_loop-is_urlsafe :
    (bytes : List ℕ) → All (λ c. is_urlsafe c ≡ true) (encode_loop true bytes)
unfolding encode_loop
encode_loop-is_urlsafe [] = tt
encode_loop-is_urlsafe (a ∷ []) = (enc1-is_urlsafe _, (enc1-is_urlsafe _, tt))
encode_loop-is_urlsafe (a ∷ b ∷ []) =
    (enc1-is_urlsafe _, (enc1-is_urlsafe _, (enc1-is_urlsafe _, tt)))
encode_loop-is_urlsafe (a ∷ b ∷ c ∷ rest) = (
  enc1-is_urlsafe _,
  (enc1-is_urlsafe _, (enc1-is_urlsafe _, (enc1-is_urlsafe _, encode_loop-is_urlsafe rest))),
)
