-- ===== src/Dictionary/Chain.antt =====
-- The chains at the depth MAXNEST of dictionary.c.
use poser.Prelude.{
  ℕ, ◌+◌, ◌≤◌, ◌≡◌, refl, sym, ◌∙◌, inl, inr, List, [], ◌∷◌, Option, none, some, true, false,
  if◌then◌else◌, length, Bool-cases, arith,
}
use poser.Prelude.Chars.{str_eq, str_eq_symm, str_eq_trans}
use poser.Prelude.Owned.{Deleter}
use poser.Dictionary.{Entry, get_chain, create_entry, replace, set_chain}
use poser.Dictionary.Valid.{Absent, Distinct}

module _ {A : Type 0} where
  pub get_chain-Absent :
      (key q : List ℕ) (es : List (Entry A))
      → Absent key es
      → str_eq key q ≡ true
      → get_chain q es ≡ none
  unfolding get_chain
  get_chain-Absent key q [] a same = refl
  get_chain-Absent key q (e ∷ es) (other, a) same =
      ground (arith, get_chain-Absent key q es a same, str_eq_symm key q, str_eq_trans e.key q key)

  module _ (nodelete : Deleter) (sd : Option Deleter) (key : List ℕ)
      (deleter : Option Deleter) where
    -- Setting a key in a chain changes what that key gets, and no other.
    pub get-set_chain :
        (obj : Option A) (q : List ℕ) (es : List (Entry A)) (n : ℕ)
        → Distinct es
        → get_chain q (set_chain nodelete sd key obj deleter es n).1
          ≡ (if str_eq key q then obj else get_chain q es)
    unfolding get_chain set_chain create_entry replace
    get-set_chain obj q [] n h = refl
    get-set_chain none q (e ∷ es) n (a, h) = ground (
      arith,
      get-set_chain none q es n h,
      get_chain-Absent e.key q es a,
      str_eq_trans e.key key q,
      str_eq_trans key e.key q,
      str_eq_symm e.key key,
      str_eq_trans e.key q key,
      str_eq_symm key q,
    )
    get-set_chain (some o) q (e ∷ es) n (a, h) = ground (
      arith,
      get-set_chain (some o) q es n h,
      get_chain-Absent e.key q es a,
      str_eq_trans e.key key q,
      str_eq_trans key e.key q,
      str_eq_symm e.key key,
      str_eq_trans e.key q key,
      str_eq_symm key q,
    )

    Absent-set_chain :
        (obj : Option A) (k : List ℕ) (es : List (Entry A)) (n : ℕ)
        → str_eq key k ≡ false
        → Absent k es
        → Absent k (set_chain nodelete sd key obj deleter es n).1
    unfolding set_chain create_entry replace
    Absent-set_chain obj k [] n ne a = (ne, tt)
    Absent-set_chain none k (e ∷ es) n ne (b, a) = elim (Bool-cases (str_eq e.key key)) [
      | inl here ↦ rw here a
      | inr later ↦ rw later (b, Absent-set_chain none k es n ne a)
    ]
    Absent-set_chain (some o) k (e ∷ es) n ne (b, a) = elim (Bool-cases (str_eq e.key key)) [
      | inl here ↦ rw here (b, a)
      | inr later ↦ rw later (b, Absent-set_chain (some o) k es n ne a)
    ]

    pub Distinct-set_chain :
        (obj : Option A) (es : List (Entry A)) (n : ℕ)
        → Distinct es
        → Distinct (set_chain nodelete sd key obj deleter es n).1
    unfolding set_chain create_entry replace
    Distinct-set_chain obj [] n h = (tt, tt)
    Distinct-set_chain none (e ∷ es) n (a, h) = elim (Bool-cases (str_eq e.key key)) [
      | inl here ↦ rw here h
      | inr later ↦
          let ne : str_eq key e.key ≡ false = sym (str_eq_symm e.key key) ∙ later in
          rw later (Absent-set_chain none e.key es n ne a, Distinct-set_chain none es n h)
    ]
    Distinct-set_chain (some o) (e ∷ es) n (a, h) = elim (Bool-cases (str_eq e.key key)) [
      | inl here ↦ rw here (a, h)
      | inr later ↦
          let ne : str_eq key e.key ≡ false = sym (str_eq_symm e.key key) ∙ later in
          rw later (Absent-set_chain (some o) e.key es n ne a, Distinct-set_chain (some o) es n h)
    ]

    -- The count follows the length of the chain.
    pub length-set_chain :
        (obj : Option A) (es : List (Entry A)) (n : ℕ)
        → length es ≤ n
        → let r = set_chain nodelete sd key obj deleter es n in r.2 + length es ≡ n + length r.1
    unfolding set_chain
    length-set_chain obj [] n h = omega arith
    length-set_chain none (e ∷ es) n h = ground (arith, length-set_chain none es n)
    length-set_chain (some o) (e ∷ es) n h = ground (arith, length-set_chain (some o) es n)
