-- ===== src/HashTable/Sweep.antt =====
-- The operations of hashtable.c that go through all buckets.

use poser.Prelude.{
  ℕ, ◌+◌, ◌-◌, ◌≤◌, ◌≡◌, refl, sym, ap, ◌∙◌, List, [], ◌∷◌, Option, none, some, Bool, if◌then◌else◌,
  zero, suc, length, get_or, map, length-map, length-append, arith,
}
use poser.Prelude.Int.{to_int}
use poser.Prelude.Chars.{str_eq→eq}
use poser.Prelude.Owned.{Owned}
use poser.HashTable.{
  Chain, HashTable, find, hashstr, delete_all_chain, delete_all_loop, delete_all, count, entries_of,
  iterator,
}
use poser.HashTable.Chain.{occurs, find_absent}
use poser.HashTable.Valid.{total, IsValid}
use poser.HashTable.Refine.{view}

module _ {ℓ} {A : Type ℓ} where
  length-entries_of : (cs : List (Chain A)) → length (entries_of cs) ≡ total cs
  unfolding entries_of
  length-entries_of [] = refl
  length-entries_of (c ∷ cs) = omega (
    arith,
    length-append (map (λ e. (e.key, e.owned.obj)) c) (entries_of cs),
    length-map {B = List ℕ × A} (λ e. (e.key, e.owned.obj)) c,
    length-entries_of cs,
  )

  -- On a valid table, `PSC_HashTable_iterator` copies exactly as many entries as it has allocated, the
  -- table's count.
  pub length-iterator :
      (hash : List ℕ → ℕ) {t : HashTable A}
      → IsValid hash t
      → (length (iterator t).entries ≡ (iterator t).count) × ((iterator t).count ≡ count t)
  unfolding iterator count
  length-iterator hash {t} v = (length-entries_of t.bucket ∙ sym v.counted, refl)

  module _ (matcher : List ℕ → A → Bool) where
    -- what is left of a key's object
    abbrev pub kept : List ℕ → Option (Owned A) → Option (Owned A)
    kept q none = none
    kept q (some o) = if matcher q o.obj then none else some o

    occurs-delete_all_chain :
        (q : List ℕ) (c : Chain A) → occurs q (delete_all_chain matcher c).1 ≤ occurs q c
    unfolding occurs delete_all_chain
    occurs-delete_all_chain q [] = omega arith
    occurs-delete_all_chain q (e ∷ c) = ground (arith, occurs-delete_all_chain q c)

    find-delete_all_chain :
        (q : List ℕ) (c : Chain A)
        → occurs q c ≤ 1
        → find q (delete_all_chain matcher c).1 ≡ kept q (find q c)
    unfolding find occurs delete_all_chain
    find-delete_all_chain q [] h = refl
    find-delete_all_chain q (e ∷ c) h =
        ground (arith, find-delete_all_chain q c, find_absent q c, str_eq→eq e.key q)

    length-delete_all_chain :
        (c : Chain A)
        → length (delete_all_chain matcher c).1 + (delete_all_chain matcher c).2 ≡ length c
    unfolding delete_all_chain
    length-delete_all_chain [] = refl
    length-delete_all_chain (e ∷ c) = ground (arith, length-delete_all_chain c)

    get_or-delete_all_loop :
        (cs : List (Chain A)) (i : ℕ)
        → get_or (delete_all_loop matcher cs).1 i [] ≡ (delete_all_chain matcher (get_or cs i [])).1
    unfolding delete_all_loop
    get_or-delete_all_loop [] i = unfold delete_all_chain in refl
    get_or-delete_all_loop (c ∷ cs) zero = refl
    get_or-delete_all_loop (c ∷ cs) (suc i) = get_or-delete_all_loop cs i

    length-delete_all_loop :
        (cs : List (Chain A)) → length (delete_all_loop matcher cs).1 ≡ length cs
    unfolding delete_all_loop
    length-delete_all_loop [] = refl
    length-delete_all_loop (c ∷ cs) = ap suc (length-delete_all_loop cs)

    total-delete_all_loop :
        (cs : List (Chain A))
        → total (delete_all_loop matcher cs).1 + (delete_all_loop matcher cs).2 ≡ total cs
    unfolding delete_all_loop
    total-delete_all_loop [] = refl
    total-delete_all_loop (c ∷ cs) =
        omega (arith, length-delete_all_chain c, total-delete_all_loop cs)

    -- `PSC_HashTable_deleteAll` keeps a valid table valid, takes out exactly the keys that the matcher
    -- selects with their object, leaves all others as they were, and returns how many went, as an `int`: the number
    -- itself below 2 ^ 31, and above that the one with the same 32 bits.
    pub delete_all-view :
        (hash : List ℕ → ℕ) {t : HashTable A}
        → IsValid hash t
        → let r = delete_all t matcher in
          IsValid hash r.1
          × ((q : List ℕ) → view hash r.1 q ≡ kept q (view hash t q))
          × (count r.1 ≤ count t)
          × (r.2 ≡ to_int (count t - count r.1))
    unfolding delete_all count view hashstr
    delete_all-view hash {t} v =
        let cs = t.bucket in
        let fewer = total-delete_all_loop cs in
        let went : t.count - (t.count - (delete_all_loop matcher cs).2)
            ≡ (delete_all_loop matcher cs).2 =
          omega (arith, v.counted) in
        (
          record {
            small = v.small;
            width = v.width;
            buckets = length-delete_all_loop cs ∙ v.buckets;
            counted = omega (arith, v.counted);
            once = λ q i.
                rw get_or-delete_all_loop
                  (omega (arith, occurs-delete_all_chain q (get_or cs i []), v.once q i));
            placed = λ q i away.
                rw get_or-delete_all_loop
                  (omega (arith, occurs-delete_all_chain q (get_or cs i []), v.placed q i away));
          },
          λ q. rw get_or-delete_all_loop (find-delete_all_chain q (get_or cs _ []) (v.once q _)),
          omega (arith, v.counted),
          ap to_int (sym went),
        )
