-- ===== src/Dictionary/Remove.antt =====
-- What `removeAll` of dictionary.c leaves in a bucket.
use poser.Prelude.{
  ℕ, zero, suc, ◌+◌, ◌/◌, ◌%◌, ◌^◌, ◌≡◌, refl, sym, ◌∙◌, inl, inr, List, [], ◌∷◌, Option, none,
  some, Bool, true, false, if◌then◌else◌, length, Bool-cases, arith,
}
use poser.Prelude.Chars.{str_eq, str_eq→eq}
use poser.Prelude.Owned.{Deleter}
use poser.Prelude.Sums.{sum_to_congr, sum_to_plus}
use poser.Dictionary.{
  ht8_size, ht4_size, Entry, Bucket, empty, item, ht8, ht4, get_chain, get_in, remove_chain,
  remove_in,
}
use poser.Dictionary.Valid.{
  Absent, Distinct, Formed, size_in, chain_bucket-Formed, size-chain_bucket, get_in-chain_bucket,
}
use poser.Dictionary.Chain.{get_chain-Absent}

module _ {A : Type 0} (matcher : List ℕ → Option A → Bool) where
  -- what a key gets that got `o`, once the objects that the matcher selects are gone
  abbrev pub sifted : List ℕ → Option A → Option A
  sifted q none = none
  sifted q (some a) = if matcher q (some a) then none else some a

  module _ (nodelete : Deleter) (sd : Option Deleter) where
    Absent-remove_chain :
        (k : List ℕ) (es : List (Entry A))
        → Absent k es
        → Absent k (remove_chain nodelete sd matcher es).1
    unfolding remove_chain
    Absent-remove_chain k [] a = tt
    Absent-remove_chain k (e ∷ es) (b, a) = elim (Bool-cases (matcher e.key e.obj)) [
      | inl m ↦ rw m (Absent-remove_chain k es a)
      | inr m ↦ rw m (b, Absent-remove_chain k es a)
    ]

    Distinct-remove_chain :
        (es : List (Entry A)) → Distinct es → Distinct (remove_chain nodelete sd matcher es).1
    unfolding remove_chain
    Distinct-remove_chain [] h = tt
    Distinct-remove_chain (e ∷ es) (a, h) = elim (Bool-cases (matcher e.key e.obj)) [
      | inl m ↦ rw m (Distinct-remove_chain es h)
      | inr m ↦ rw m (Absent-remove_chain e.key es a, Distinct-remove_chain es h)
    ]

    length-remove_chain :
        (es : List (Entry A))
        → let r = remove_chain nodelete sd matcher es in r.2 + length r.1 ≡ length es
    unfolding remove_chain
    length-remove_chain [] = refl
    length-remove_chain (e ∷ es) = ground (arith, length-remove_chain es)

    sifted_here : (o : Option A) (q : List ℕ) → matcher q o ≡ true → sifted q o ≡ none
    sifted_here none q m = refl
    sifted_here (some a) q m = rw m refl

    sifted_kept : (o : Option A) (q : List ℕ) → matcher q o ≡ false → sifted q o ≡ o
    sifted_kept none q m = refl
    sifted_kept (some a) q m = rw m refl

    get-remove_chain :
        (q : List ℕ) (es : List (Entry A))
        → Distinct es
        → get_chain q (remove_chain nodelete sd matcher es).1 ≡ sifted q (get_chain q es)
    unfolding get_chain remove_chain
    get-remove_chain q [] h = refl
    get-remove_chain q (e ∷ es) (a, h) = elim (Bool-cases (str_eq e.key q)) [
      | inl same ↦
          let k : e.key ≡ q = str_eq→eq e.key q same in
          elim (Bool-cases (matcher e.key e.obj)) [
            | inl m ↦
                rw (m, same, remove_chain)
                  (get_chain-Absent e.key q (remove_chain nodelete sd matcher es).1
                      (Absent-remove_chain e.key es a) same
                    ∙ sym (sifted_here e.obj q (rw k at m)))
            | inr m ↦ rw (m, same, remove_chain, get_chain) (sym (sifted_kept e.obj q (rw k at m)))
          ]
      | inr other ↦ elim (Bool-cases (matcher e.key e.obj)) [
        | inl m ↦ rw (m, other, remove_chain) (get-remove_chain q es h)
        | inr m ↦ rw (m, other, remove_chain, get_chain) (get-remove_chain q es h)
      ]
    ]

    -- `removeAll` in a bucket leaves it well formed, and says how many entries went.
    pub remove_in-Formed :
        (left : ℕ) (b : Bucket A)
        → Formed left b
        → let r = remove_in nodelete sd matcher left b in
          Formed left r.1 × (r.2 + size_in r.1 ≡ size_in b)
    unfolding remove_in
    remove_in-Formed zero empty w = (tt, refl)
    remove_in-Formed (suc left) empty w = (tt, refl)
    remove_in-Formed zero (item e es) w =
        let r = (remove_chain nodelete sd matcher (e ∷ es)).1 in
        (
          chain_bucket-Formed r (Distinct-remove_chain (e ∷ es) w),
          omega (arith, length-remove_chain (e ∷ es), size-chain_bucket r),
        )
    remove_in-Formed (suc left) (item e es) w = elim (Bool-cases (matcher e.key e.obj)) [
      | inl m ↦ rw (m, w) (tt, omega arith)
      | inr m ↦ rw m (w, omega arith)
    ]
    remove_in-Formed zero (ht8 bs) (top, all) = absurd (omega arith)
    remove_in-Formed zero (ht4 bs) (pos, lt, all) = absurd (omega arith)
    remove_in-Formed (suc left) (ht8 bs) (top, all) = (
      (top, λ i. (remove_in-Formed left (bs i) (all i)).0),
      sum_to_plus ht8_size _ _
          ∙ sum_to_congr ht8_size _ _ (λ i h. (remove_in-Formed left (bs i) (all i)).1),
    )
    remove_in-Formed (suc left) (ht4 bs) (pos, lt, all) = (
      (pos, lt, λ i. (remove_in-Formed left (bs i) (all i)).0),
      sum_to_plus ht4_size _ _
          ∙ sum_to_congr ht4_size _ _ (λ i h. (remove_in-Formed left (bs i) (all i)).1),
    )

    -- Every key gets what it got before, unless the matcher selects it.
    pub get-remove_in :
        (left h : ℕ) (q : List ℕ) (b : Bucket A)
        → Formed left b
        → get_in left h q (remove_in nodelete sd matcher left b).1 ≡ sifted q (get_in left h q b)
    unfolding remove_in get_in
    get-remove_in zero h q empty w = refl
    get-remove_in (suc left) h q empty w = refl
    get-remove_in zero h q (item e es) w =
        get_in-chain_bucket h q (remove_chain nodelete sd matcher (e ∷ es)).1
        ∙ get-remove_chain q (e ∷ es) w
    get-remove_in (suc left) h q (item e es) w = elim (Bool-cases (matcher e.key e.obj)) [
      | inl m ↦ elim (Bool-cases (str_eq e.key q)) [
        | inl same ↦
            rw (m, same, remove_in, get_in)
              (sym (sifted_here e.obj q (rw (str_eq→eq e.key q same) at m)))
        | inr other ↦ rw (m, other, remove_in, get_in) refl
      ]
      | inr m ↦ elim (Bool-cases (str_eq e.key q)) [
        | inl same ↦
            rw (m, same, remove_in, get_in)
              (sym (sifted_kept e.obj q (rw (str_eq→eq e.key q same) at m)))
        | inr other ↦ rw (m, other, remove_in, get_in) refl
      ]
    ]
    get-remove_in zero h q (ht8 bs) (top, all) = absurd (omega arith)
    get-remove_in zero h q (ht4 bs) (pos, lt, all) = absurd (omega arith)
    get-remove_in (suc left) h q (ht8 bs) (top, all) =
        get-remove_in left (h / 2 ^ 8) q (bs (h % 2 ^ 8)) (all _)
    get-remove_in (suc left) h q (ht4 bs) (pos, lt, all) =
        get-remove_in left (h / 2 ^ 4) q (bs (h % 2 ^ 4)) (all _)
