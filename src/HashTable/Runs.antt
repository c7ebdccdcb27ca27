-- ===== src/HashTable/Runs.antt =====
-- Runs of hashtable.c, and the theorems at a concrete table. The hash of these runs is the sum of
-- the characters.

use poser.Prelude.{ℕ, ◌+◌, ◌-◌, ◌≤◌, ◌≡◌, refl, List, [], ◌∷◌, none, some, not, if◌then◌else◌, ◌==◌}
use poser.Prelude.Int.{to_int}
use poser.Prelude.Chars.{codes, str_eq}
use poser.HashTable.{
  HashTable, create, set_chain, find, hashstr, set_key, delete_key, delete_all, count, get,
}
use poser.HashTable.Chain.{to_nat, delete_found, is_none}
use poser.HashTable.Valid.{IsValid, create-IsValid}
use poser.HashTable.Refine.{view, set_key-view, delete_key-view}
use poser.HashTable.Sweep.{kept, delete_all-view}

abbrev char_sum : List ℕ → ℕ
char_sum [] = 0
char_sum (c ∷ cs) = c + char_sum cs

abbrev empty : HashTable ℕ
empty = create 2

empty-IsValid : IsValid char_sum empty
empty-IsValid = (create-IsValid char_sum 2).0

-- "ab" and "ba" share a bucket.
abbrev one : HashTable ℕ
one = (set_key char_sum empty (codes "ab") 1 (some 7)).1

abbrev two : HashTable ℕ
two = (set_key char_sum one (codes "ba") 2 none).1

one-IsValid : IsValid char_sum one
one-IsValid = (set_key-view char_sum empty-IsValid (codes "ab") 1 (some 7)).0

two-IsValid : IsValid char_sum two
two-IsValid = (set_key-view char_sum one-IsValid (codes "ba") 2 none).0

get_both : (get char_sum two (codes "ab") ≡ some 1) × (get char_sum two (codes "ba") ≡ some 2)
unfolding get find hashstr set_key set_chain create
get_both = (refl, refl)

set_key-view_example :
    let r = set_key char_sum one (codes "ab") 3 none in
    IsValid char_sum r.1
    × ((q : List ℕ)
        → view char_sum r.1 q ≡ (
            if str_eq (codes "ab") q
            then some (record { obj = 3; deleter = none })
            else view char_sum one q))
    × (r.0 ≡ delete_found (view char_sum one (codes "ab")))
    × (count r.1 ≡ count one + to_nat (is_none (view char_sum one (codes "ab"))))
set_key-view_example = set_key-view char_sum one-IsValid (codes "ab") 3 none

delete_key-view_example :
    let r = delete_key char_sum two (codes "ab") in
    IsValid char_sum r.1
    × ((q : List ℕ)
        → view char_sum r.1 q ≡ (if str_eq (codes "ab") q then none else view char_sum two q))
    × (r.0 ≡ delete_found (view char_sum two (codes "ab")))
    × (r.2 ≡ not (is_none (view char_sum two (codes "ab"))))
    × (count r.1 + to_nat r.2 ≡ count two)
delete_key-view_example = delete_key-view char_sum two-IsValid (codes "ab")

delete_all-view_example :
    let r = delete_all two (λ key obj. obj == 2) in
    IsValid char_sum r.1
    × ((q : List ℕ) → view char_sum r.1 q ≡ kept (λ key obj. obj == 2) q (view char_sum two q))
    × (count r.1 ≤ count two)
    × (r.2 ≡ to_int (count two - count r.1))
delete_all-view_example = delete_all-view (λ key obj. obj == 2) char_sum two-IsValid
