-- ===== src/Dictionary/Valid.antt =====
-- Which trees of dictionary.c are well formed, and that no table stands below MAXNEST.
use poser.Prelude.{
  ℕ, zero, suc, ◌-◌, ◌*◌, ◌<◌, ◌≡◌, refl, inl, inr, List, [], ◌∷◌, false, ◌==◌, if◌then◌else◌,
  length, All, Bool-cases,
}
use poser.Prelude.Chars.{str_eq}
use poser.Prelude.Sums.{sum_to}
use poser.Dictionary.{
  deeper, ht8_size, ht4_size, Entry, Bucket, empty, item, ht8, ht4, put_cell, chain_bucket,
  get_chain, get_in,
}

-- the bits of a hash that a `set` or a `get` has used up on the way to a depth
abbrev pub bits_used : ℕ → ℕ
bits_used left = if left == 13 then 8 else 64 - 4 * left

module _ {A : Type 0} where
  -- no entry of the chain has the key
  abbrev pub Absent : List ℕ → List (Entry A) → Type 0
  Absent key es = All (λ e. str_eq e.key key ≡ false) es

  -- the keys of a chain are different
  abbrev pub Distinct : List (Entry A) → Type 0
  Distinct [] = Unit
  Distinct (e ∷ es) = Absent e.key es × Distinct es

  -- A bucket with `left` levels above MAXNEST: a table of 256 cells at the depth 1, tables of 16 from
  -- there on, one entry in an item, and chains of different keys at MAXNEST.
  abbrev pub Formed : ℕ → Bucket A → Type 0
  Formed left empty = Unit
  Formed zero (item e es) = Distinct (e ∷ es)
  Formed (suc left) (item e es) = es ≡ []
  Formed left (ht8 bs) = (left ≡ 13) × ((i : ℕ) → Formed (deeper left) (bs i))
  Formed left (ht4 bs) = (0 < left) × (left < 13) × ((i : ℕ) → Formed (deeper left) (bs i))

  abbrev pub IsTable : Bucket A → Type 0
  IsTable (ht8 bs) = Unit
  IsTable (ht4 bs) = Unit
  IsTable _ = ⊥

  -- the number of entries
  abbrev pub size_in : Bucket A → ℕ
  size_in empty = 0
  size_in (item e es) = suc (length es)
  size_in (ht8 bs) = sum_to ht8_size (λ i. size_in (bs i))
  size_in (ht4 bs) = sum_to ht4_size (λ i. size_in (bs i))

  pub put_cell-Formed :
      (left : ℕ) (bs : ℕ → Bucket A) (i : ℕ) (b : Bucket A)
      → ((j : ℕ) → Formed left (bs j))
      → Formed left b
      → (j : ℕ) → Formed left (put_cell bs i b j)
  put_cell-Formed left bs i b all one j = elim (Bool-cases (j == i)) [
    | inl here ↦ rw here one
    | inr other ↦ rw other (all j)
  ]

  pub chain_bucket-Formed : (es : List (Entry A)) → Distinct es → Formed 0 (chain_bucket es)
  chain_bucket-Formed [] h = tt
  chain_bucket-Formed (e ∷ es) h = h

  pub size-chain_bucket : (es : List (Entry A)) → size_in (chain_bucket es) ≡ length es
  size-chain_bucket [] = refl
  size-chain_bucket (e ∷ es) = refl

  pub get_in-chain_bucket :
      (h : ℕ) (q : List ℕ) (es : List (Entry A)) → get_in 0 h q (chain_bucket es) ≡ get_chain q es
  unfolding get_in get_chain
  get_in-chain_bucket h q [] = refl
  get_in-chain_bucket h q (e ∷ es) = refl
