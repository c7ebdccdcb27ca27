-- ===== src/Dictionary/Runs.antt =====
-- Runs of dictionary.c, and the theorems at a concrete dictionary. The hash of these runs is the sum
-- of the bytes times 256, so that keys of equal sum share all their bits.
use poser.Prelude.{
  ℕ, ◌+◌, ◌*◌, ◌≡◌, refl, List, [], ◌∷◌, Option, none, some, Bool, true, false, ◌==◌, if◌then◌else◌,
}
use poser.Prelude.Chars.{codes, str_eq}
use poser.Dictionary.{
  Dict, create, count, get, set_key, remove_all, get_in, get_chain, set_in, set_empty, set_same,
  set_chain, descend, split, create_entry, replace, dispose,
}
use poser.Dictionary.Remove.{sifted}
use poser.Dictionary.Refine.{IsValid, get-create, get-set_key, get-remove_all}

abbrev byte_sum : List ℕ → ℕ
byte_sum [] = 0
byte_sum (c ∷ cs) = c * 256 + byte_sum cs

-- "ab" and "ba" have the same hash, and stand in a chain at the depth MAXNEST.
abbrev ab : Dict ℕ
ab = (set_key byte_sum 0 (create none) (codes "ab") (some 1) none).1

abbrev ab_ba : Dict ℕ
ab_ba = (set_key byte_sum 0 ab (codes "ba") (some 2) none).1

ab-IsValid : IsValid ab
ab-IsValid = (get-set_key 0 byte_sum (get-create byte_sum none).0 (codes "ab") (some 1) none).0

get-set_key_example :
    IsValid ab_ba
    × ((q : List ℕ)
        → get byte_sum ab_ba q ≡ (if str_eq (codes "ba") q then some 2 else get byte_sum ab q))
get-set_key_example = get-set_key 0 byte_sum ab-IsValid (codes "ba") (some 2) none

-- the objects above 1
abbrev above_one : List ℕ → Option ℕ → Bool
above_one k none = false
above_one k (some n) = if n == 1 then false else true

get-remove_all_example :
    let r = remove_all 0 ab_ba above_one in
    IsValid r.1
    × ((q : List ℕ) → get byte_sum r.1 q ≡ sifted above_one q (get byte_sum ab_ba q))
    × (count r.1 + r.2 ≡ count ab_ba)
get-remove_all_example = get-remove_all 0 byte_sum get-set_key_example.0 above_one

get_ab : (get byte_sum ab_ba (codes "ab") ≡ some 1) × (get byte_sum ab_ba (codes "ba") ≡ some 2)
unfolding get create set_key get_in get_chain set_in set_empty set_same set_chain descend split
    create_entry replace dispose
get_ab = (refl, refl)

-- The null object for an absent key leaves the dictionary as it is where the key has an empty cell,
absent_ignored : count (set_key byte_sum 0 ab_ba (codes "bb") none none).1 ≡ 2
unfolding count create set_key get_in get_chain set_in set_empty set_same set_chain descend split
    create_entry replace dispose
absent_ignored = refl

-- but in a chain adds an entry, which the count shows.
absent_counted : count (set_key byte_sum 0 ab_ba (codes "`c") none none).1 ≡ 3
unfolding count create set_key get_in get_chain set_in set_empty set_same set_chain descend split
    create_entry replace dispose
absent_counted = refl
