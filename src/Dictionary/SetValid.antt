-- ===== src/Dictionary/SetValid.antt =====
-- `set` keeps a bucket of dictionary.c well formed, and its count right.
use poser.Prelude.{
  ℕ, zero, suc, ◌+◌, ◌-◌, ◌*◌, ◌/◌, ◌%◌, ◌^◌, ◌≤◌, ◌<◌, ◌≡◌, refl, ap, inl, inr, List, [], ◌∷◌,
  Option, none, some, ltb, length, Bool-cases, arith,
}
use poser.Prelude.Chars.{str_eq}
use poser.Prelude.Owned.{Deleter}
use poser.Prelude.Sums.{sum_to, sum_to_zero, sum_to_change, le-sum_to}
use poser.Dictionary.{
  max_nest, ht8_size, ht4_size, Entry, Bucket, empty, item, ht8, ht4, Outcome, put_cell, descend,
  set_chain, split, set_in, set_empty, set_same,
}
use poser.Dictionary.Valid.{
  Formed, IsTable, size_in, put_cell-Formed, chain_bucket-Formed, size-chain_bucket,
}
use poser.Dictionary.Chain.{Distinct-set_chain, length-set_chain}
use poser.Dictionary.Cells.{split-Formed}

module _ {A : Type 0} where
  -- `r` comes from the bucket `b` and the count `n`: it is well formed, and the count is changed by
  -- as much as the number of entries.
  pub record Keeps (left : ℕ) (b : Bucket A) (n : ℕ) (r : Outcome A) : Type 0 where
    pub formed : Formed left r.1
    pub counted : r.2 + size_in b ≡ n + size_in r.1

  pub size-put_cell :
      (m : ℕ) (bs : ℕ → Bucket A) (i : ℕ) (b : Bucket A)
      → i < m
      → sum_to m (λ j. size_in (put_cell bs i b j)) + size_in (bs i)
        ≡ sum_to m (λ j. size_in (bs j)) + size_in b
  size-put_cell m bs i b h =
      let here : size_in (put_cell bs i b i) ≡ size_in b = ground arith in
      let change =
        sum_to_change m (λ j. size_in (bs j)) (λ j. size_in (put_cell bs i b j)) i h
          (λ k ne. ground arith) in
      omega (arith, change, here)

  size-split : (hash : List ℕ → ℕ) (left : ℕ) (e : Entry A) → size_in (split hash left e) ≡ 1
  unfolding split
  size-split hash left e = elim (Bool-cases (ltb 1 (max_nest - left))) [
    | inl deep ↦
        let i : ℕ = hash e.key / 2 ^ (16 + (max_nest - left - 2) * 4) % 2 ^ 4 in
        rw deep (
          omega (
            arith,
            size-put_cell ht4_size (λ _. empty) i (item e []) (omega arith),
            sum_to_zero ht4_size (λ j. 0) (λ k h. refl),
          ))
    | inr first ↦
        let i : ℕ = hash e.key / 2 ^ 8 % 2 ^ 8 in
        rw first (
          omega (
            arith,
            size-put_cell ht8_size (λ _. empty) i (item e []) (omega arith),
            sum_to_zero ht8_size (λ j. 0) (λ k h. refl),
          ))
  ]

  descend-Keeps :
      (left : ℕ) (f : ℕ → Bucket A → Outcome A) (h : ℕ) (t : Bucket A) (n : ℕ)
      → ((h : ℕ) (b : Bucket A) → Formed left b → size_in b ≤ n → Keeps left b n (f h b))
      → Formed (suc left) t
      → IsTable t
      → size_in t ≤ n
      → Keeps (suc left) t n (descend f h t n)
  unfolding descend
  descend-Keeps left f h empty n below w table le = absurd table
  descend-Keeps left f h (item e es) n below w table le = absurd table
  descend-Keeps left f h (ht8 bs) n below (top, all) table le =
      let i : ℕ = h % 2 ^ 8 in
      let part = le-sum_to ht8_size (λ j. size_in (bs j)) i (omega arith) in
      let k = below (h / 2 ^ 8) (bs i) (all i) (omega arith) in
      let new = (f (h / 2 ^ 8) (bs i)).1 in
      record {
        formed = (top, put_cell-Formed left bs i new all k.formed);
        counted = omega (arith, k.counted, size-put_cell ht8_size bs i new (omega arith));
      }
  descend-Keeps left f h (ht4 bs) n below (pos, lt, all) table le =
      let i : ℕ = h % 2 ^ 4 in
      let part = le-sum_to ht4_size (λ j. size_in (bs j)) i (omega arith) in
      let k = below (h / 2 ^ 4) (bs i) (all i) (omega arith) in
      let new = (f (h / 2 ^ 4) (bs i)).1 in
      record {
        formed = (pos, lt, put_cell-Formed left bs i new all k.formed);
        counted = omega (arith, k.counted, size-put_cell ht4_size bs i new (omega arith));
      }

  module _ (nodelete : Deleter) (sd : Option Deleter) (key : List ℕ) (obj : Option A)
      (deleter : Option Deleter) (hash : List ℕ → ℕ) where
    set_empty-Keeps :
        (left n : ℕ) (o : Option A) → Keeps left empty n (set_empty nodelete sd key deleter o n)
    unfolding set_empty
    set_empty-Keeps left n none = record { formed = tt; counted = refl }
    set_empty-Keeps zero n (some o) = record { formed = (tt, tt); counted = omega arith }
    set_empty-Keeps (suc left) n (some o) = record { formed = refl; counted = omega arith }

    set_same-Keeps :
        (left n : ℕ) (o : Option A) (e : Entry A)
        → 0 < n
        → Keeps (suc left) (item e []) n (set_same nodelete sd deleter o e [] n)
    unfolding set_same
    set_same-Keeps left n none e h = record { formed = tt; counted = omega arith }
    set_same-Keeps left n (some o) e h = record { formed = refl; counted = refl }

    -- `set` keeps a well-formed bucket well formed, and the count in step.
    pub set_in-Keeps :
        (left h : ℕ) (b : Bucket A) (n : ℕ)
        → left ≤ 13
        → Formed left b
        → size_in b ≤ n
        → Keeps left b n (set_in nodelete sd key obj deleter hash left h b n)
    unfolding set_in
    set_in-Keeps zero h empty n le w s = set_empty-Keeps 0 n obj
    set_in-Keeps (suc left) h empty n le w s = set_empty-Keeps (suc left) n obj
    set_in-Keeps zero h (item e es) n le w s =
        let r = (set_chain nodelete sd key obj deleter (e ∷ es) n).1 in
        record {
          formed =
              chain_bucket-Formed r (Distinct-set_chain nodelete sd key deleter obj (e ∷ es) n w);
          counted = omega (
            arith,
            length-set_chain nodelete sd key deleter obj (e ∷ es) n s,
            size-chain_bucket r,
          );
        }
    set_in-Keeps (suc left) h (item e es) n le one s = elim (Bool-cases (str_eq e.key key)) [
      | inl here ↦ rw (here, one, set_in) (set_same-Keeps left n obj e (omega arith))
      | inr other ↦
          let (formed, table) = split-Formed hash left e le in
          let size = size-split hash (suc left) e in
          let k =
            descend-Keeps left (λ h b. set_in nodelete sd key obj deleter hash left h b n) h
              (split hash (suc left) e) n (λ h b v t. set_in-Keeps left h b n (omega arith) v t)
              formed table (omega arith) in
          rw (other, set_in)
            (record { formed = k.formed; counted = omega (arith, k.counted, size, ap length one) })
    ]
    set_in-Keeps zero h (ht8 bs) n le w s = absurd (omega arith)
    set_in-Keeps zero h (ht4 bs) n le w s = absurd (omega arith)
    set_in-Keeps (suc left) h (ht8 bs) n le w s =
        descend-Keeps left (λ h b. set_in nodelete sd key obj deleter hash left h b n) h (ht8 bs) n
          (λ h b v t. set_in-Keeps left h b n (omega arith) v t) w tt s
    set_in-Keeps (suc left) h (ht4 bs) n le w s =
        descend-Keeps left (λ h b. set_in nodelete sd key obj deleter hash left h b n) h (ht4 bs) n
          (λ h b v t. set_in-Keeps left h b n (omega arith) v t) w tt s
