-- ===== src/HashTable/Refine.antt =====
-- hashtable.c as a map from keys to owned objects.
use mathlib.Core.Option
use poser.Prelude.{
  ℕ, ◌+◌, ◌-◌, ◌≤◌, ◌<◌, ◌≡◌, ◌≢◌, inl, inr, refl, sym, ap, ◌∙◌, List, [], Option, none, some,
  false, not, ◌==◌, if◌then◌else◌, length, get_or, set, length-set, get_or-set, Bool-cases, ==→eq,
  ==→ne, arith,
}
use poser.Prelude.Chars.{str_eq, str_eq→eq}
use poser.Prelude.Owned.{Owned, Deleter}
use poser.HashTable.{
  Chain, HashTable, find, set_chain, delete_chain, hashstr, set_key, delete_key, get, count,
}
use poser.HashTable.Chain.{
  to_nat, delete_found, is_none, occurs, find-set_chain, occurs-set_chain_once, occurs-set_chain_ne,
  find-delete_chain, occurs-delete_chain, set_chain_result, delete_chain_result,
}
use poser.HashTable.Valid.{total, total-set, length-get_or-le-total, IsValid, hashstr-lt}

module _ {ℓ} {A : Type ℓ} (hash : List ℕ → ℕ) where
  -- the map that a table stands for
  unfoldable pub view : HashTable A → List ℕ → Option (Owned A)
  view t q = find q (get_or t.bucket (hashstr hash t q) [])

  pub get-view : (t : HashTable A) (q : List ℕ) → get hash t q ≡ Option.map (λ o. o.obj) (view t q)
  unfolding get view
  get-view t q = refl

  -- keys of different buckets are different
  other_key :
      {t : HashTable A}
      → IsValid hash t
      → (key q : List ℕ) → hashstr hash t q ≢ hashstr hash t key
      → str_eq key q ≡ false
  other_key {t} v key q away = elim (Bool-cases (str_eq key q)) [
    | inl e ↦ absurd (away (sym (ap (hashstr hash t) (str_eq→eq key q e))))
    | inr ne ↦ ne
  ]

  module _ {t : HashTable A} (v : IsValid hash t) (key : List ℕ) where
    -- the table with another chain in the bucket of `key`
    swapped : Chain A → ℕ → HashTable A
    swapped c n = record t { bucket = set t.bucket (hashstr hash t key) c; count = n }

    -- Such a table is valid if the chain gains no second entry for a key, and none for a key of
    -- another bucket.
    swapped-IsValid :
        (c : Chain A) (n : ℕ)
        → n + length (get_or t.bucket (hashstr hash t key) []) ≡ total t.bucket + length c
        → ((q : List ℕ) → occurs q c ≤ 1)
        → ((q : List ℕ) → hashstr hash t q ≢ hashstr hash t key → occurs q c ≡ 0)
        → IsValid hash (swapped c n)
    unfolding swapped hashstr
    swapped-IsValid c n size once placed =
        let h = hashstr hash t key in
        let lt : h < length t.bucket = hashstr-lt hash v key in
        record {
          small = v.small;
          width = v.width;
          buckets = length-set t.bucket h c ∙ v.buckets;
          counted = omega (arith, total-set t.bucket h c lt, size);
          once = λ q i. rw (get_or-set t.bucket h i c [] lt) (elim (Bool-cases (h == i)) [
            | inl same ↦ rw same (once q)
            | inr other ↦ rw other (v.once q i)
          ]);
          placed = λ q i away. rw (get_or-set t.bucket h i c [] lt) (elim (Bool-cases (h == i)) [
            | inl same ↦ rw same (placed q (λ e. away (sym (==→eq h i same) ∙ sym e)))
            | inr other ↦ rw other (v.placed q i away)
          ]);
        }

    view-swapped :
        (c : Chain A) (n : ℕ) (q : List ℕ) (o : Option (Owned A))
        → (find q c
            ≡ (if str_eq key q then o else find q (get_or t.bucket (hashstr hash t key) [])))
        → view (swapped c n) q ≡ (if str_eq key q then o else view t q)
    unfolding swapped hashstr view
    view-swapped c n q o h =
        let k = hashstr hash t key in
        let i = hashstr hash t q in
        let lt : k < length t.bucket = hashstr-lt hash v key in
        rw (get_or-set t.bucket k i c [] lt) (elim (Bool-cases (k == i)) [
          | inl same ↦ rw same (rw (==→eq k i same) at h)
          | inr other ↦ elim (Bool-cases (str_eq key q)) [
            | inl e ↦ absurd (==→ne k i other (ap (hashstr hash t) (str_eq→eq key q e)))
            | inr ne ↦ rw (other, ne)
          ]
        ])

  -- For any hash function, `PSC_HashTable_set` keeps a valid table valid; afterwards the key finds the new object and every
  -- other key what it found before; the deleter of a replaced object is called, and nothing else;
  -- the count grows by one exactly when the key is new.
  pub set_key-view :
      {t : HashTable A} (v : IsValid hash t) (key : List ℕ) (obj : A) (d : Option Deleter)
      → let r = set_key hash t key obj d in
        IsValid hash r.1
        × ((q : List ℕ)
            → view r.1 q
              ≡ (if str_eq key q then some (record { obj = obj; deleter = d }) else view t q))
        × (r.0 ≡ delete_found (view t key))
        × (count r.1 ≡ count t + to_nat (is_none (view t key)))
  unfolding set_key view count swapped
  set_key-view {t} v key obj d =
      let old = get_or t.bucket (hashstr hash t key) [] in
      let o : Owned A = record { obj = obj; deleter = d } in
      let (calls, added, size) = set_chain_result key o old in
      let c = (set_chain key o old).1 in
      let n : ℕ = if (set_chain key o old).2 then t.count + 1 else t.count in
      let grows : n ≡ t.count + to_nat (is_none (find key old)) = ground (arith, added) in
      (
        swapped-IsValid v key c n
            (omega (arith, v.counted, length-get_or-le-total t.bucket (hashstr hash t key)))
            (λ q. occurs-set_chain_once key q o old (v.once q (hashstr hash t key)))
            (λ q away.
              occurs-set_chain_ne key q o old (other_key v key q away)
              ∙ v.placed q (hashstr hash t key) (λ e. away (sym e))),
        λ q. view-swapped v key c n q (some o) (find-set_chain key q o old),
        calls,
        grows,
      )

  -- For any hash function, `PSC_HashTable_delete` keeps a valid table valid; afterwards the key finds nothing and every other
  -- key what it found before; it says whether the key was there, and then calls the deleter of the
  -- object and counts one less.
  pub delete_key-view :
      {t : HashTable A} (v : IsValid hash t) (key : List ℕ)
      → let r = delete_key hash t key in
        IsValid hash r.1
        × ((q : List ℕ) → view r.1 q ≡ (if str_eq key q then none else view t q))
        × (r.0 ≡ delete_found (view t key))
        × (r.2 ≡ not (is_none (view t key)))
        × (count r.1 + to_nat r.2 ≡ count t)
  unfolding delete_key view count swapped
  delete_key-view {t} v key =
      let old = get_or t.bucket (hashstr hash t key) [] in
      let (calls, removed, size) = delete_chain_result key old in
      let c = (delete_chain key old).1 in
      let n : ℕ = if (delete_chain key old).2 then t.count - 1 else t.count in
      let fewer : n + to_nat (delete_chain key old).2 ≡ t.count =
        ground (arith, removed, v.counted, length-get_or-le-total t.bucket (hashstr hash t key)) in
      (
        swapped-IsValid v key c n (omega (arith, v.counted, fewer, size, ap to_nat removed))
            (λ q. omega (arith, occurs-delete_chain key q old, v.once q (hashstr hash t key)))
            (λ q away. omega (
              arith,
              occurs-delete_chain key q old,
              v.placed q (hashstr hash t key) (λ e. away (sym e)),
            )),
        λ q. view-swapped v key c n q none (find-delete_chain key q old (v.once q _)),
        calls,
        removed,
        fewer,
      )
