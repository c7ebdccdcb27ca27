-- ===== src/Dictionary/Cells.antt =====
-- One level of a `get` in dictionary.c, and the table that takes the place of an item.
use poser.Prelude.{
  ℕ, zero, suc, ◌-◌, ◌/◌, ◌%◌, ◌^◌, ◌≤◌, ◌<◌, ◌≡◌, refl, sym, ap, ◌∙◌, inl, inr, List, [], none,
  true, ltb, ◌==◌, if◌then◌else◌, Bool-cases, arith,
}
use poser.Prelude.Chars.{str_eq, str_eq→eq}
use poser.Dictionary.{max_nest, Entry, Bucket, item, ht8, ht4, one_cell, get_chain, get_in, split}
use poser.Dictionary.Valid.{bits_used, Formed, IsTable}
use poser.Dictionary.Bits.{shift_ht8, shift_ht4, placed_ht8, placed_ht4}

-- the bits of a hash that are left at a depth
abbrev pub rest_of : ℕ → ℕ → ℕ
rest_of h left = h / 2 ^ bits_used left

module _ {A : Type 0} (h : ℕ) {left : ℕ} (q : List ℕ) (bs : ℕ → Bucket A) where
  -- One level of a `get`.
  pub get_in_ht8 :
      suc left ≡ 13
      → get_in (suc left) (rest_of h (suc left)) q (ht8 bs)
        ≡ get_in left (rest_of h left) q (bs (rest_of h (suc left) % 2 ^ 8))
  unfolding get_in
  get_in_ht8 top = ap (λ x. get_in left x q (bs (rest_of h (suc left) % 2 ^ 8))) (shift_ht8 h top)

  pub get_in_ht4 :
      suc left < 13
      → get_in (suc left) (rest_of h (suc left)) q (ht4 bs)
        ≡ get_in left (rest_of h left) q (bs (rest_of h (suc left) % 2 ^ 4))
  unfolding get_in
  get_in_ht4 lt = ap (λ x. get_in left x q (bs (rest_of h (suc left) % 2 ^ 4))) (shift_ht4 h lt)

module _ {A : Type 0} (hash : List ℕ → ℕ) where
  pub get-one_item :
      (left h : ℕ) (q : List ℕ) (e : Entry A)
      → get_in left h q (item e []) ≡ (if str_eq e.key q then e.obj else none)
  unfolding get_in get_chain
  get-one_item zero h q e = refl
  get-one_item (suc left) h q e = refl

  pub one_cell-Formed : (left i : ℕ) (e : Entry A) (j : ℕ) → Formed left (one_cell i e j)
  one_cell-Formed left i e j = elim (Bool-cases (j == i)) [
    | inl here ↦ rw here (item-Formed left e)
    | inr other ↦ rw other tt
  ]
    where
      item-Formed : (left : ℕ) (e : Entry A) → Formed left (item e [])
      item-Formed zero e = (tt, tt)
      item-Formed (suc left) e = refl

  -- A key finds the same in an item and in the table that it is split into.
  pub get-one_cell :
      (left : ℕ) (e : Entry A) (q : List ℕ) (i j h : ℕ)
      → (str_eq e.key q ≡ true → j ≡ i)
      → get_in left h q (one_cell i e j) ≡ (if str_eq e.key q then e.obj else none)
  unfolding get_in get_chain
  get-one_cell left e q i j h same = elim (Bool-cases (j == i)) [
    | inl here ↦ rw here (get-one_item left h q e)
    | inr other ↦ elim (Bool-cases (str_eq e.key q)) [
      | inl eq ↦ absurd (ground (arith, same eq))
      | inr ne ↦ rw (other, ne) refl
    ]
  ]

  pub split-Formed :
      (left : ℕ) (e : Entry A)
      → suc left ≤ 13
      → Formed (suc left) (split hash (suc left) e) × IsTable (split hash (suc left) e)
  unfolding split
  split-Formed left e le = elim (Bool-cases (ltb 1 (max_nest - suc left))) [
    | inl deep ↦ rw deep ((omega arith, (placed_ht4 le deep).0, one_cell-Formed left _ e), tt)
    | inr first ↦ rw first ((placed_ht8 le first, one_cell-Formed left _ e), tt)
  ]

  -- Splitting an item changes nothing for any key.
  pub get-split :
      (left : ℕ) (e : Entry A) (q : List ℕ)
      → suc left ≤ 13
      → get_in (suc left) (rest_of (hash q) (suc left)) q (split hash (suc left) e)
        ≡ (if str_eq e.key q then e.obj else none)
  unfolding split
  get-split left e q le = elim (Bool-cases (ltb 1 (max_nest - suc left))) [
    | inl deep ↦
        let (lt, used) = placed_ht4 le deep in
        rw (deep, used)
          (get_in_ht4 (hash q) q _ lt
            ∙ get-one_cell left e q (rest_of (hash e.key) (suc left) % 2 ^ 4)
                (rest_of (hash q) (suc left) % 2 ^ 4) (rest_of (hash q) left)
                (λ same.
                  ap (λ k. rest_of (hash k) (suc left) % 2 ^ 4) (sym (str_eq→eq e.key q same))))
    | inr first ↦
        let top = placed_ht8 le first in
        let used : bits_used (suc left) ≡ 8 = ground arith in
        rw first (
          get_in_ht8 (hash q) q _ top
          ∙ get-one_cell left e q (hash e.key / 2 ^ 8 % 2 ^ 8) (rest_of (hash q) (suc left) % 2 ^ 8)
              (rest_of (hash q) left)
              (λ same.
                ap (λ b. hash q / 2 ^ b % 2 ^ 8) used
                ∙ ap (λ k. hash k / 2 ^ 8 % 2 ^ 8) (sym (str_eq→eq e.key q same))))
  ]
