-- ===== src/HashTable/Valid.antt =====
-- The invariant of hashtable.c: its size, where keys stand, and its count.
use poser.Prelude.{
  ℕ, zero, suc, ◌+◌, ◌^◌, ◌≤◌, ◌<◌, ◌≡◌, ◌≢◌, refl, sym, List, [], ◌∷◌, none, length, get_or, set,
  replicate, length-replicate, get_or-replicate, arith,
}
use native.Mathlib.Nat.{pow-le-pow_right}
use poser.Prelude.Bits.{bit_and-le}
use poser.HashTable.{Chain, HashTable, clamp_bits, create, find, hashstr}
use poser.HashTable.Chain.{occurs}

module _ {ℓ} {A : Type ℓ} where
  -- the entries of all buckets
  abbrev pub total : List (Chain A) → ℕ
  total [] = 0
  total (c ∷ cs) = length c + total cs

  pub total-set :
      (cs : List (Chain A)) (i : ℕ) (c : Chain A)
      → i < length cs
      → total (set cs i c) + length (get_or cs i []) ≡ total cs + length c
  total-set [] i c h = absurd (omega arith)
  total-set (x ∷ cs) zero c h = omega arith
  total-set (x ∷ cs) (suc i) c h = omega (arith, total-set cs i c (omega arith))

  pub length-get_or-le-total : (cs : List (Chain A)) (i : ℕ) → length (get_or cs i []) ≤ total cs
  length-get_or-le-total [] i = omega arith
  length-get_or-le-total (c ∷ cs) zero = omega arith
  length-get_or-le-total (c ∷ cs) (suc i) = omega (arith, length-get_or-le-total cs i)

  total-replicate : (n : ℕ) (empty : Chain A) → length empty ≡ 0 → total (replicate n empty) ≡ 0
  total-replicate zero empty h = refl
  total-replicate (suc n) empty h = omega (arith, total-replicate n empty h)

  module _ (hash : List ℕ → ℕ) where
    -- There are `mask + 1` buckets, a power of two; a key stands in its own bucket only, once at
    -- most; `count` is the number of entries.
    pub record IsValid (t : HashTable A) : Type ℓ where
      pub small : 2 ≤ t.bits
      pub width : t.mask + 1 ≡ 2 ^ t.bits
      pub buckets : length t.bucket ≡ t.mask + 1
      pub counted : t.count ≡ total t.bucket
      pub once : (q : List ℕ) (i : ℕ) → occurs q (get_or t.bucket i []) ≤ 1
      pub placed : (q : List ℕ) (i : ℕ) → i ≢ hashstr hash t q → occurs q (get_or t.bucket i []) ≡ 0

    -- Every hash value gives the index of a bucket.
    pub hashstr-lt :
        {t : HashTable A} → IsValid t → (key : List ℕ) → hashstr hash t key < length t.bucket
    unfolding hashstr
    hashstr-lt {t} v key = omega (arith, bit_and-le (hash key) t.mask, v.buckets)

    -- `PSC_HashTable_create` makes an empty table of 4 to 65536 buckets, whatever it is given.
    pub create-IsValid :
        (bits : ℕ)
        → IsValid (create bits)
          × (4 ≤ length ((create {A = A} bits).bucket))
          × (length ((create {A = A} bits).bucket) ≤ 2 ^ 16)
          × ((q : List ℕ) (i : ℕ) → find q (get_or (create {A = A} bits).bucket i []) ≡ none)
    unfolding create occurs find
    create-IsValid bits =
        let low : 2 ≤ clamp_bits bits = ground arith in
        let high : clamp_bits bits ≤ 16 = ground arith in
        let four : 2 ^ 2 ≤ 2 ^ clamp_bits bits = pow-le-pow_right (omega arith) low in
        let most : 2 ^ clamp_bits bits ≤ 2 ^ 16 = pow-le-pow_right (omega arith) high in
        let n : ℕ = 2 ^ clamp_bits bits in
        let size : length (replicate {A = Chain A} n []) ≡ n = length-replicate n [] in
        (
          record {
            small = low;
            width = omega arith;
            buckets = omega arith;
            counted = sym (total-replicate n [] refl);
            once = λ q i. rw get_or-replicate (omega arith);
            placed = λ q i h. rw get_or-replicate;
          },
          omega arith,
          omega arith,
          λ q i. rw get_or-replicate,
        )
