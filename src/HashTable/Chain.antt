-- ===== src/HashTable/Chain.antt =====
-- One chain of hashtable.c: where keys stand, and what each walk changes.
use poser.Prelude.{
  ℕ, ◌+◌, ◌≤◌, ◌≡◌, refl, ap, List, [], ◌∷◌, Option, none, some, Bool, true, false, not, inl, inr,
  if◌then◌else◌, length, Bool-cases, Option-cases, arith,
}
use poser.Prelude.Chars.{str_eq, str_eq→eq, str_eq_symm, str_eq_trans}
use poser.Prelude.Owned.{Owned, Call, delete}
use poser.HashTable.{Chain, find, set_chain, delete_chain}

-- the objects that a call replaced, removed or found
abbrev pub to_nat : Bool → ℕ
to_nat true = 1
to_nat false = 0

-- `delete` on the object that is there, if one is
abbrev pub delete_found {ℓ} : {A : Type ℓ} → Option (Owned A) → List (Call A)
delete_found none = []
delete_found (some o) = delete o

abbrev pub is_none {ℓ} : {A : Type ℓ} → Option A → Bool
is_none none = true
is_none (some a) = false

module _ {ℓ} {A : Type ℓ} where
  -- how many entries have the key `q`
  unfoldable pub occurs : List ℕ → Chain A → ℕ
  occurs q [] = 0
  occurs q (e ∷ c) = to_nat (str_eq e.key q) + occurs q c

  pub find_absent : (q : List ℕ) (c : Chain A) → occurs q c ≡ 0 → find q c ≡ none
  unfolding occurs find
  find_absent q [] h = refl
  find_absent q (e ∷ c) h = ground (arith, find_absent q c)

  occurs_absent : (q : List ℕ) (c : Chain A) → find q c ≡ none → occurs q c ≡ 0
  unfolding occurs find
  occurs_absent q [] h = refl
  occurs_absent q (e ∷ c) h = ground (arith, occurs_absent q c)

  module _ (key q : List ℕ) where
    -- Setting a key changes what that key finds, and no other.
    pub find-set_chain :
        (o : Owned A) (c : Chain A)
        → find q (set_chain key o c).1 ≡ (if str_eq key q then some o else find q c)
    unfolding find set_chain
    find-set_chain o [] = refl
    find-set_chain o (e ∷ c) = ground (
      arith,
      find-set_chain o c,
      str_eq_trans e.key key q,
      str_eq_trans key e.key q,
      str_eq_symm e.key key,
      str_eq_trans e.key q key,
      str_eq_symm key q,
    )

    pub occurs-set_chain :
        (o : Owned A) (c : Chain A)
        → occurs q (set_chain key o c).1
          ≡ occurs q c + (if str_eq key q then to_nat (is_none (find key c)) else 0)
    unfolding occurs find set_chain
    occurs-set_chain o [] = ground arith
    occurs-set_chain o (e ∷ c) = ground (arith, occurs-set_chain o c)

    pub occurs-set_chain_once :
        (o : Owned A) (c : Chain A) → occurs q c ≤ 1 → occurs q (set_chain key o c).1 ≤ 1
    occurs-set_chain_once o c h = elim (Bool-cases (str_eq key q)) [
      | inl e ↦
          let same : key ≡ q = str_eq→eq key q e in
          elim (Option-cases (find key c)) [
            | inl absent ↦ omega (
              arith,
              rw (e, absent) at (occurs-set_chain o c),
              occurs_absent key c absent,
              ap (λ k. occurs k c) same,
            )
            | inr (x, there) ↦ omega (arith, rw (e, there) at (occurs-set_chain o c))
          ]
      | inr ne ↦ omega (arith, rw ne at (occurs-set_chain o c))
    ]

    pub occurs-set_chain_ne :
        (o : Owned A) (c : Chain A)
        → str_eq key q ≡ false
        → occurs q (set_chain key o c).1 ≡ occurs q c
    occurs-set_chain_ne o c ne = omega (arith, rw ne at (occurs-set_chain o c))

    pub find-delete_chain :
        (c : Chain A)
        → occurs q c ≤ 1
        → find q (delete_chain key c).1 ≡ (if str_eq key q then none else find q c)
    unfolding find occurs delete_chain
    find-delete_chain [] h = ground arith
    find-delete_chain (e ∷ c) h = ground (
      arith,
      find-delete_chain c,
      find_absent q c,
      str_eq_trans e.key key q,
      str_eq_trans key e.key q,
      str_eq_symm e.key key,
      str_eq_trans e.key q key,
      str_eq_symm key q,
    )

    pub occurs-delete_chain : (c : Chain A) → occurs q (delete_chain key c).1 ≤ occurs q c
    unfolding occurs delete_chain
    occurs-delete_chain [] = omega arith
    occurs-delete_chain (e ∷ c) = ground (arith, occurs-delete_chain c)

  -- The walk of `PSC_HashTable_set` says whether the key is new, calls the deleter of the object
  -- that it replaces, and adds an entry exactly for a new key.
  pub set_chain_result :
      (key : List ℕ) (o : Owned A) (c : Chain A)
      → ((set_chain key o c).0 ≡ delete_found (find key c))
        × ((set_chain key o c).2 ≡ is_none (find key c))
        × (length (set_chain key o c).1 ≡ length c + to_nat (is_none (find key c)))
  unfolding find set_chain
  set_chain_result key o [] = (refl, refl, refl)
  set_chain_result key o (e ∷ c) = ground (arith, set_chain_result key o c)

  -- The walk of `PSC_HashTable_delete` says whether the key was there, calls the deleter of the
  -- removed object, and unlinks one entry exactly then.
  pub delete_chain_result :
      (key : List ℕ) (c : Chain A)
      → ((delete_chain key c).0 ≡ delete_found (find key c))
        × ((delete_chain key c).2 ≡ not (is_none (find key c)))
        × (length (delete_chain key c).1 + to_nat (not (is_none (find key c))) ≡ length c)
  unfolding find delete_chain
  delete_chain_result key [] = (refl, refl, refl)
  delete_chain_result key (e ∷ c) = ground (arith, delete_chain_result key c)
