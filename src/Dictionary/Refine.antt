-- ===== src/Dictionary/Refine.antt =====
-- dictionary.c as a map from keys to objects.
use poser.Prelude.{
  ℕ, ◌+◌, ◌/◌, ◌%◌, ◌^◌, ◌<◌, ◌≡◌, refl, sym, ap, ◌∙◌, inl, inr, List, Option, none, some, Bool,
  ◌==◌, if◌then◌else◌, Bool-cases, ==→eq, arith,
}
use poser.Prelude.Chars.{str_eq, str_eq→eq}
use poser.Prelude.Owned.{Deleter}
use poser.Prelude.Sums.{sum_to, sum_to_congr, sum_to_zero, sum_to_plus, le-sum_to}
use poser.Dictionary.{
  top, deeper, ht8_size, ht4_size, Bucket, Dict, empty, item, ht8, ht4, get_in, set_in, remove_in,
  create, count, get, set_key, remove_all,
}
use poser.Dictionary.Valid.{Formed, size_in, put_cell-Formed}
use poser.Dictionary.SetGet.{get-put_cell, get-set_in}
use poser.Dictionary.SetValid.{size-put_cell, set_in-Keeps}
use poser.Dictionary.Remove.{sifted, remove_in-Formed, get-remove_in}

module _ {A : Type 0} where
  -- A dictionary is valid if its buckets are well formed and its count is that of the entries.
  pub record IsValid (d : Dict A) : Type 0 where
    pub formed : (i : ℕ) → Formed top (d.buckets i)
    pub counted : d.count ≡ sum_to ht8_size (λ i. size_in (d.buckets i))

  -- `PSC_Dictionary_create` makes a valid dictionary, in which no key has an object.
  pub get-create :
      (hash : List ℕ → ℕ) (deleter : Option Deleter)
      → IsValid (create deleter)
        × ((q : List ℕ) → get {A = A} hash (create deleter) q ≡ none)
        × (count {A = A} (create deleter) ≡ 0)
  unfolding create get get_in count
  get-create hash deleter = (
    record { formed = λ i. tt; counted = sym (sum_to_zero ht8_size (λ i. 0) (λ i h. refl)) },
    λ q. refl,
    refl,
  )

  module _ (nodelete : Deleter) (hash : List ℕ → ℕ) {d : Dict A} (v : IsValid d) where
    -- For any hash function, `PSC_Dictionary_set` keeps a valid dictionary valid, its tables at their
    -- depths and its count that of the entries; afterwards the key gets the given object, nothing
    -- after a null object, and every other key gets what it got before.
    pub get-set_key :
        (key : List ℕ) (obj : Option A) (deleter : Option Deleter)
        → let r = set_key hash nodelete d key obj deleter in
          IsValid r.1
          × ((q : List ℕ) → get hash r.1 q ≡ (if str_eq key q then obj else get hash d q))
    unfolding set_key get
    get-set_key key obj deleter =
        let own : Option Deleter = elim deleter [
          | none ↦ none
          | some f ↦ if f == nodelete then none else some f
        ] in
        let i : ℕ = hash key % 2 ^ 8 in
        let old = d.buckets i in
        let part = le-sum_to ht8_size (λ j. size_in (d.buckets j)) i (omega arith) in
        let k =
          set_in-Keeps nodelete d.deleter key obj own hash top (hash key / 2 ^ 8) old d.count
            (omega arith) (v.formed i) (omega (arith, v.counted)) in
        let new =
          (set_in nodelete d.deleter key obj own hash top (hash key / 2 ^ 8) old d.count).1 in
        (
          record {
            formed = put_cell-Formed top d.buckets i new v.formed k.formed;
            counted =
                omega (
                  arith,
                  k.counted,
                  v.counted,
                  size-put_cell ht8_size d.buckets i new (omega arith),
                );
          },
          λ q.
              get-put_cell hash nodelete d.deleter key obj own top d.buckets new q i
                (hash q % 2 ^ 8) (hash q / 2 ^ 8)
                (λ e. ap (λ x. hash x % 2 ^ 8) (sym (str_eq→eq key q e)))
                (get-set_in hash nodelete d.deleter key obj own top old d.count q (omega arith)
                  (v.formed i)),
        )

    get_in-none :
        (left h : ℕ) (q : List ℕ) (b : Bucket A) → size_in b ≡ 0 → get_in left h q b ≡ none
    unfolding get_in
    get_in-none left h q empty z = refl
    get_in-none left h q (item e es) z = absurd (omega arith)
    get_in-none left h q (ht8 bs) z =
        let i : ℕ = h % 2 ^ 8 in
        let part = le-sum_to ht8_size (λ j. size_in (bs j)) i (omega arith) in
        get_in-none (deeper left) (h / 2 ^ 8) q (bs i) (omega arith)
    get_in-none left h q (ht4 bs) z =
        let i : ℕ = h % 2 ^ 4 in
        let part = le-sum_to ht4_size (λ j. size_in (bs j)) i (omega arith) in
        get_in-none (deeper left) (h / 2 ^ 4) q (bs i) (omega arith)

    none_left : d.count ≡ 0 → (i : ℕ) → i < ht8_size → size_in (d.buckets i) ≡ 0
    none_left e i h = omega (arith, v.counted, le-sum_to ht8_size (λ j. size_in (d.buckets j)) i h)

    get-none : d.count ≡ 0 → (q : List ℕ) → get hash d q ≡ none
    unfolding get
    get-none e q =
        get_in-none top (hash q / 2 ^ 8) q (d.buckets (hash q % 2 ^ 8))
          (none_left e (hash q % 2 ^ 8) (omega arith))

    -- `PSC_Dictionary_removeAll` keeps a valid dictionary valid, takes out exactly the keys that the
    -- matcher selects with their object, leaves what all others get, and returns how many entries it
    -- removed.
    pub get-remove_all :
        (matcher : List ℕ → Option A → Bool)
        → let r = remove_all nodelete d matcher in
          IsValid r.1
          × ((q : List ℕ) → get hash r.1 q ≡ sifted matcher q (get hash d q))
          × (count r.1 + r.2 ≡ count d)
    unfolding remove_all get count
    get-remove_all matcher = elim (Bool-cases (d.count == 0)) [
      | inl none_there ↦
          rw (none_there, remove_all)
            (
              v,
              λ q.
                  let gone = get-none (==→eq d.count 0 none_there) q in
                  gone ∙ ap (sifted matcher q) (sym gone),
              omega arith,
            )
      | inr some_there ↦
          let new = λ (i : ℕ). (remove_in nodelete d.deleter matcher top (d.buckets i)) in
          let each =
            λ (i : ℕ). remove_in-Formed matcher nodelete d.deleter top (d.buckets i) (v.formed i) in
          let sums =
            sum_to_plus ht8_size (λ i. (new i).2) (λ i. size_in (new i).1)
            ∙ sum_to_congr ht8_size _ (λ i. size_in (d.buckets i)) (λ i h. (each i).1) in
          rw (some_there, remove_all)
            (
              record { formed = λ i. (each i).0; counted = omega (arith, v.counted, sums) },
              λ q.
                  get-remove_in matcher nodelete d.deleter top (hash q / 2 ^ 8) q
                    (d.buckets (hash q % 2 ^ 8)) (v.formed (hash q % 2 ^ 8)),
              omega (arith, v.counted, sums),
            )
    ]
