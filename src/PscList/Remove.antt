-- ===== src/PscList/Remove.antt =====
-- Removing from list.c: one index, the first item with an object, all items that a test selects.

use native.Mathlib.Decide.{dec_lt}
use poser.Prelude.{
  ℕ, suc, ◌+◌, ◌-◌, ◌^◌, ◌<◌, ◌≡◌, inl, inr, refl, subst, sym, ap, ap₂, ◌∙◌, List, [], ◌∷◌, ◌++◌,
  none, some, Bool, true, false, not, ltb, if◌then◌else◌, length, get_or, get_elem?, filter,
  length-append, get_elem?-append_left, get_elem?-append_right, Bool-cases, append_assoc, arith,
}
use poser.Prelude.Memory.{memmove, length-memmove, get_or-memmove_outside, get_or-memmove_inside}
use poser.Prelude.Owned.{Owned, delete, delete_all}
use poser.PscList.{
  PscList, inc_size, dec_size, remove_at, remove_loop, remove, remove_all_loop, remove_all,
}
use poser.PscList.Models.{Models}

module _ {ℓ} {A : Type ℓ} where
  -- the cell at `length pre` of a list that holds `pre ++ x ∷ suf`
  Models-cell :
      (pre suf : List (Owned A)) (x : Owned A) {l : PscList A}
      → Models (pre ++ x ∷ suf) l
      → get_or l.items (length pre) none ≡ some x
  Models-cell pre suf x {l} m =
      let here : length pre + 0 ≡ length pre = omega arith in
      m.holds (length pre) (omega (arith, m.counts, length-append pre (x ∷ suf)))
      ∙ ap (get_elem? (pre ++ x ∷ suf)) (sym here)
      ∙ get_elem?-append_right pre (x ∷ suf) 0

  -- The cells behind the removed one move down by one.
  moved :
      (pre suf : List (Owned A)) (x : Owned A) {l : PscList A} (k : ℕ)
      → Models (pre ++ x ∷ suf) l
      → k < l.count - 1
      → length pre < l.count - 1
      → get_or (memmove l.items (length pre) (length pre + 1) (l.count - length pre - 1)) k none
        ≡ get_elem? (pre ++ suf) k
  moved pre suf x {l} k m h hp = elim (dec_lt k (length pre)) [
    | yes below ↦
        get_or-memmove_outside l.items (length pre) (length pre + 1) (l.count - length pre - 1) k
          none (omega (arith, m.storage, m.fits)) (omega (arith, m.storage, m.fits)) (inl below)
        ∙ m.holds k (omega arith)
        ∙ get_elem?-append_left pre (x ∷ suf) k below
        ∙ sym (get_elem?-append_left pre suf k below)
    | no above ↦
        let j : ℕ = k - length pre in
        let at : k ≡ length pre + j = omega arith in
        let from : length pre + 1 + j ≡ length pre + suc j = omega arith in
        ap
          (λ i.
            get_or (memmove l.items (length pre) (length pre + 1) (l.count - length pre - 1)) i
              none)
          at
        ∙ get_or-memmove_inside l.items (length pre) (length pre + 1) (l.count - length pre - 1) j
            none (omega (arith, m.storage, m.fits)) (omega (arith, m.storage, m.fits)) (omega arith)
        ∙ m.holds (length pre + 1 + j) (omega arith)
        ∙ ap (get_elem? (pre ++ x ∷ suf)) from
        ∙ get_elem?-append_right pre (x ∷ suf) (suc j)
        ∙ sym (ap (get_elem? (pre ++ suf)) at ∙ get_elem?-append_right pre suf j)
  ]

  -- At an index within the list, `removeAt` takes out the item there, keeps the others in order, and
  -- calls the item's deleter exactly when it is asked to.
  pub remove_at-Models :
      (pre suf : List (Owned A)) (x : Owned A) {l : PscList A} (del : Bool)
      → Models (pre ++ x ∷ suf) l
      → ((remove_at l (length pre) del).0 ≡ (if del then delete x else []))
        × Models (pre ++ suf) (remove_at l (length pre) del).1
  unfolding remove_at
  remove_at-Models pre suf x {l} del m =
      let size = length-append pre (x ∷ suf) in
      let less = length-append pre suf in
      (
        rw (Models-cell pre suf x m),
        elim (Bool-cases (ltb (length pre) (l.count - 1))) [
          | inl inner ↦ rw inner (record {
            room = m.room;
            storage = length-memmove l.items (length pre) (length pre + 1) _ ∙ m.storage;
            fits = omega (arith, m.fits);
            counts = omega (arith, m.counts);
            holds = λ k h. moved pre suf x k m h (ground arith);
          })
          | inr last ↦ rw last (record {
            room = m.room;
            storage = m.storage;
            fits = omega (arith, m.fits);
            counts = omega (arith, m.counts);
            holds = λ k h.
                let front : k < length pre = let c = m.counts in ground arith in
                m.holds k (omega arith)
                ∙ get_elem?-append_left pre (x ∷ suf) k front
                ∙ sym (get_elem?-append_left pre suf k front);
          })
        ],
      )

  -- what `PSC_List_remove` leaves: the first item with the object is gone
  abbrev pub remove_first : (A → Bool) → List (Owned A) → List (Owned A)
  remove_first p [] = []
  remove_first p (x ∷ xs) = let rest = remove_first p xs in if p x.obj then xs else x ∷ rest

  snoc_assoc : (pre suf : List (Owned A)) (x : Owned A) → (pre ++ x ∷ []) ++ suf ≡ pre ++ x ∷ suf
  snoc_assoc pre suf x = append_assoc pre (x ∷ []) suf

  length-snoc : (pre : List (Owned A)) (x : Owned A) → length (pre ++ x ∷ []) ≡ length pre + 1
  length-snoc pre x = length-append pre (x ∷ [])

  -- one round of `PSC_List_remove`
  remove_loop_hit :
      (same : A → A → Bool) (obj : A) (left i : ℕ) (l : PscList A) {x : Owned A}
      → get_or l.items i none ≡ some x
      → same x.obj obj ≡ true
      → remove_loop same obj (suc left) i l ≡ (remove_at l i false).1
  unfolding remove_loop
  remove_loop_hit same obj left i l e h = rw (e, remove_loop, h)

  remove_loop_miss :
      (same : A → A → Bool) (obj : A) (left i : ℕ) (l : PscList A) {x : Owned A}
      → get_or l.items i none ≡ some x
      → same x.obj obj ≡ false
      → remove_loop same obj (suc left) i l ≡ remove_loop same obj left (i + 1) l
  unfolding remove_loop
  remove_loop_miss same obj left i l e h = rw (e, remove_loop, h)

  remove_loop-Models :
      (same : A → A → Bool) (obj : A) (suf pre : List (Owned A)) {l : PscList A}
      → Models (pre ++ suf) l
      → Models
          (pre ++ remove_first (λ o. same o obj) suf)
          (remove_loop same obj (length suf) (length pre) l)
  remove_loop-Models same obj [] pre m = unfold remove_loop in m
  remove_loop-Models same obj (x ∷ suf) pre {l} m = elim (Bool-cases (same x.obj obj)) [
    | inl hit ↦
        rw (remove_loop_hit same obj (length suf) (length pre) l (Models-cell pre suf x m) hit, hit)
          (remove_at-Models pre suf x false m).1
    | inr miss ↦
        rw
          (
            remove_loop_miss same obj (length suf) (length pre) l (Models-cell pre suf x m) miss,
            miss,
          )
          (rw (snoc_assoc pre (remove_first (λ o. same o obj) suf) x, length-snoc pre x) at
            (remove_loop-Models same obj suf (pre ++ x ∷ []) {l = l} (rw snoc_assoc m)))
  ]

  -- On a list that holds `xs`, `PSC_List_remove` takes out the first item with the given object, if
  -- there is one, and nothing else.
  pub remove-Models :
      (same : A → A → Bool) (obj : A) {xs : List (Owned A)} {l : PscList A}
      → Models xs l
      → Models (remove_first (λ o. same o obj) xs) (remove same l obj)
  unfolding remove
  remove-Models same obj {xs} {l} m =
      subst (λ n. Models (remove_first (λ o. same o obj) xs) (remove_loop same obj n 0 l))
        (sym m.counts) (remove_loop-Models same obj xs [] m)

  -- one round of `PSC_List_removeAll`
  module _ (matcher : A → Bool) (fuel i : ℕ) (l : PscList A) {x : Owned A} where
    remove_all_loop_hit :
        ltb i l.count ≡ true
        → get_or l.items i none ≡ some x
        → matcher x.obj ≡ true
        → let r = remove_at l i true in
          let t = remove_all_loop matcher fuel (inc_size (dec_size i)) r.1 in
          remove_all_loop matcher (suc fuel) i l ≡ (r.0 ++ t.0, t.1)
    unfolding remove_all_loop
    remove_all_loop_hit inside e h = rw (inside, remove_all_loop, e, h)

    remove_all_loop_miss :
        ltb i l.count ≡ true
        → get_or l.items i none ≡ some x
        → matcher x.obj ≡ false
        → remove_all_loop matcher (suc fuel) i l ≡ remove_all_loop matcher fuel (inc_size i) l
    unfolding remove_all_loop
    remove_all_loop_miss inside e h = rw (inside, remove_all_loop, e, h)

  remove_all_loop-Models :
      (matcher : A → Bool) (suf pre : List (Owned A)) {l : PscList A}
      → length pre + length suf < 2 ^ 64
      → Models (pre ++ suf) l
      → ((remove_all_loop matcher (length suf) (length pre) l).0
          ≡ delete_all (filter (λ e. matcher e.obj) suf))
        × Models
            (pre ++ filter (λ e. not (matcher e.obj)) suf)
            (remove_all_loop matcher (length suf) (length pre) l).1
  remove_all_loop-Models matcher [] pre small m = unfold remove_all_loop in (refl, m)
  remove_all_loop-Models matcher (x ∷ suf) pre {l} small m =
      let cell = Models-cell pre suf x m in
      let n = length suf in
      let i = length pre in
      let inside : ltb i l.count ≡ true =
        let c = m.counts in let size = length-append pre (x ∷ suf) in ground arith in
      elim (Bool-cases (matcher x.obj)) [
        | inl hit ↦
            let again : inc_size (dec_size i) ≡ i = omega arith in
            let (calls, m') = remove_at-Models pre suf x true m in
            let (more, m'') = remove_all_loop-Models matcher suf pre (omega arith) m' in
            rw (remove_all_loop_hit matcher n i l inside cell hit, again, hit)
              (ap₂ (λ a b. a ++ b) calls more, m'')
        | inr miss ↦
            let next : inc_size i ≡ i + 1 = omega arith in
            let ih =
              remove_all_loop-Models matcher suf (pre ++ x ∷ []) {l = l}
                (omega (arith, length-snoc pre x)) (rw snoc_assoc m) in
            rw (remove_all_loop_miss matcher n i l inside cell miss, next, miss)
              (rw (snoc_assoc pre (filter (λ e. not (matcher e.obj)) suf) x, length-snoc pre x) at
                ih)
      ]

  -- On a list of fewer than 2 ^ 64 objects, `PSC_List_removeAll` takes out the items that the matcher
  -- selects and no others, keeps the rest in order, and calls the deleters of the selected ones once
  -- each, in order.
  pub remove_all-Models :
      (matcher : A → Bool) {xs : List (Owned A)} {l : PscList A}
      → length xs < 2 ^ 64
      → Models xs l
      → ((remove_all l matcher).0 ≡ delete_all (filter (λ e. matcher e.obj) xs))
        × Models (filter (λ e. not (matcher e.obj)) xs) (remove_all l matcher).1
  unfolding remove_all
  remove_all-Models matcher {xs} {l} small m =
      subst
        (λ n.
          ((remove_all_loop matcher n 0 l).0 ≡ delete_all (filter (λ e. matcher e.obj) xs))
          × Models (filter (λ e. not (matcher e.obj)) xs) (remove_all_loop matcher n 0 l).1)
        (sym m.counts) (remove_all_loop-Models matcher xs [] (omega arith) m)
