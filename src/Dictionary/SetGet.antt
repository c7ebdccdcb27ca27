-- ===== src/Dictionary/SetGet.antt =====
-- What a `get` finds in a bucket of dictionary.c after a `set`.
use poser.Prelude.{
  ℕ, zero, suc, ◌/◌, ◌%◌, ◌^◌, ◌≤◌, ◌≡◌, refl, sym, ap, ◌∙◌, inl, inr, List, [], ◌∷◌, Option, none,
  some, true, ◌==◌, if◌then◌else◌, Bool-cases, ==→eq, arith,
}
use poser.Prelude.Chars.{str_eq, str_eq→eq}
use poser.Prelude.Owned.{Deleter}
use poser.Dictionary.{
  Entry, Bucket, empty, item, ht8, ht4, Outcome, put_cell, get_in, descend, create_entry, replace,
  set_chain, split, set_in, set_empty, set_same,
}
use poser.Dictionary.Valid.{Formed, IsTable, get_in-chain_bucket}
use poser.Dictionary.Bits.{shift_ht8, shift_ht4}
use poser.Dictionary.Cells.{rest_of, get_in_ht8, get_in_ht4, get-one_item, get-split, split-Formed}
use poser.Dictionary.Chain.{get-set_chain}

module _ {A : Type 0} (hash : List ℕ → ℕ) where
  module _ (nodelete : Deleter) (sd : Option Deleter) (key : List ℕ)
      (deleter : Option Deleter) where
    get-set_empty :
        (left h n : ℕ) (o : Option A) (q : List ℕ)
        → get_in left h q (set_empty nodelete sd key deleter o n).1
          ≡ (if str_eq key q then o else none)
    unfolding set_empty get_in create_entry
    get-set_empty left h n none q = elim (Bool-cases (str_eq key q)) [
      | inl e ↦ rw e refl
      | inr d ↦ rw d refl
    ]
    get-set_empty left h n (some o) q =
        get-one_item hash left h q (create_entry nodelete sd key (some o) deleter)

    get-set_same :
        (left h n : ℕ) (o : Option A) (e : Entry A) (q : List ℕ)
        → str_eq e.key key ≡ true
        → get_in (suc left) h q (set_same nodelete sd deleter o e [] n).1
          ≡ (if str_eq key q then o else if str_eq e.key q then e.obj else none)
    unfolding set_same get_in replace
    get-set_same left h n none e q here = rw (str_eq→eq e.key key here) (ground arith)
    get-set_same left h n (some o) e q here = rw (str_eq→eq e.key key here) (ground arith)

  module _ (nodelete : Deleter) (sd : Option Deleter) (key : List ℕ) (obj : Option A)
      (deleter : Option Deleter) where
    -- A `get` of `q` after the cell of `key` has been set.
    pub get-put_cell :
        (left : ℕ) (bs : ℕ → Bucket A) (b : Bucket A) (q : List ℕ) (i j h : ℕ)
        → (str_eq key q ≡ true → j ≡ i)
        → get_in left h q b ≡ (if str_eq key q then obj else get_in left h q (bs i))
        → get_in left h q (put_cell bs i b j)
          ≡ (if str_eq key q then obj else get_in left h q (bs j))
    get-put_cell left bs b q i j h same below = elim (Bool-cases (j == i)) [
      | inl here ↦
          let e : j ≡ i = ==→eq j i here in
          rw here (below ∙ ap (λ k. if str_eq key q then obj else get_in left h q (bs k)) (sym e))
      | inr other ↦ elim (Bool-cases (str_eq key q)) [
        | inl eq ↦ absurd (ground (arith, same eq))
        | inr ne ↦ rw (other, ne) refl
      ]
    ]

    hash_eq :
        (q : List ℕ) (left : ℕ)
        → str_eq key q ≡ true
        → rest_of (hash q) left ≡ rest_of (hash key) left
    hash_eq q left e = ap (λ k. rest_of (hash k) left) (sym (str_eq→eq key q e))

    -- One level of the induction: `f` sets the key in the cells of a table.
    get-descend :
        (left : ℕ) (f : ℕ → Bucket A → Outcome A) (t : Bucket A) (n : ℕ) (q : List ℕ)
        → ((b : Bucket A)
            → Formed left b
            → get_in left (rest_of (hash q) left) q (f (rest_of (hash key) left) b).1
              ≡ (if str_eq key q then obj else get_in left (rest_of (hash q) left) q b))
        → Formed (suc left) t
        → IsTable t
        → get_in
            (suc left)
            (rest_of (hash q) (suc left))
            q
            (descend f (rest_of (hash key) (suc left)) t n).1
          ≡ (if str_eq key q then obj else get_in (suc left) (rest_of (hash q) (suc left)) q t)
    unfolding get_in descend
    get-descend left f empty n q below w table = absurd table
    get-descend left f (item e es) n q below w table = absurd table
    get-descend left f (ht8 bs) n q below (top, all) table =
        let i : ℕ = rest_of (hash key) (suc left) % 2 ^ 8 in
        let j : ℕ = rest_of (hash q) (suc left) % 2 ^ 8 in
        let b : Bucket A = (f (rest_of (hash key) (suc left) / 2 ^ 8) (bs i)).1 in
        let cell : get_in left (rest_of (hash q) left) q b
            ≡ (if str_eq key q then obj else get_in left (rest_of (hash q) left) q (bs i)) =
          rw (shift_ht8 (hash key) top) (below (bs i) (all i)) in
        get_in_ht8 (hash q) q (put_cell bs i b) top
        ∙ get-put_cell left bs b q i j (rest_of (hash q) left)
            (λ e. ap (λ h. h % 2 ^ 8) (hash_eq q (suc left) e)) cell
        ∙ ap (λ o. if str_eq key q then obj else o) (sym (get_in_ht8 (hash q) q bs top))
    get-descend left f (ht4 bs) n q below (_, lt, all) table =
        let i : ℕ = rest_of (hash key) (suc left) % 2 ^ 4 in
        let j : ℕ = rest_of (hash q) (suc left) % 2 ^ 4 in
        let b : Bucket A = (f (rest_of (hash key) (suc left) / 2 ^ 4) (bs i)).1 in
        let cell : get_in left (rest_of (hash q) left) q b
            ≡ (if str_eq key q then obj else get_in left (rest_of (hash q) left) q (bs i)) =
          rw (shift_ht4 (hash key) lt) (below (bs i) (all i)) in
        get_in_ht4 (hash q) q (put_cell bs i b) lt
        ∙ get-put_cell left bs b q i j (rest_of (hash q) left)
            (λ e. ap (λ h. h % 2 ^ 4) (hash_eq q (suc left) e)) cell
        ∙ ap (λ o. if str_eq key q then obj else o) (sym (get_in_ht4 (hash q) q bs lt))

    -- In a well-formed bucket at its depth, `set` changes what its key gets, and no other key.
    pub get-set_in :
        (left : ℕ) (b : Bucket A) (n : ℕ) (q : List ℕ)
        → left ≤ 13
        → Formed left b
        → get_in left
            (rest_of (hash q) left)
            q
            (set_in nodelete sd key obj deleter hash left (rest_of (hash key) left) b n).1
          ≡ (if str_eq key q then obj else get_in left (rest_of (hash q) left) q b)
    unfolding set_in get_in
    get-set_in zero empty n q le w = get-set_empty nodelete sd key deleter zero _ n obj q
    get-set_in (suc left) empty n q le w =
        get-set_empty nodelete sd key deleter (suc left) _ n obj q
    get-set_in zero (item e es) n q le w =
        get_in-chain_bucket (rest_of (hash q) 0) q
          (set_chain nodelete sd key obj deleter (e ∷ es) n).1
        ∙ get-set_chain nodelete sd key deleter obj q (e ∷ es) n w
    get-set_in (suc left) (item e es) n q le one = elim (Bool-cases (str_eq e.key key)) [
      | inl here ↦
          rw (here, one, set_in) (get-set_same nodelete sd key deleter left _ n obj e q here)
      | inr other ↦
          let (formed, table) = split-Formed hash left e le in
          rw (other, set_in)
            (get-descend left (λ h b. set_in nodelete sd key obj deleter hash left h b n)
                (split hash (suc left) e) n q (λ b v. get-set_in left b n q (omega arith) v) formed
                table
              ∙ ap (λ o. if str_eq key q then obj else o) (get-split hash left e q le))
    ]
    get-set_in zero (ht8 bs) n q le w = absurd (omega arith)
    get-set_in zero (ht4 bs) n q le w = absurd (omega arith)
    get-set_in (suc left) (ht8 bs) n q le w =
        get-descend left (λ h b. set_in nodelete sd key obj deleter hash left h b n) (ht8 bs) n q
          (λ b v. get-set_in left b n q (omega arith) v) w tt
    get-set_in (suc left) (ht4 bs) n q le w =
        get-descend left (λ h b. set_in nodelete sd key obj deleter hash left h b n) (ht4 bs) n q
          (λ b v. get-set_in left b n q (omega arith) v) w tt
