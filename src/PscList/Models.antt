-- ===== src/PscList/Models.antt =====
-- list.c as a list of owned objects: creating, reading, appending, clearing.
use mathlib.Core.Option
use native.Mathlib.Nat.{zero-add}
use poser.Prelude.{
  ℕ, suc, ◌+◌, ◌*◌, ◌≤◌, ◌<◌, ◌≡◌, inl, inr, refl, sym, ap, ◌∙◌, List, [], ◌∷◌, ◌++◌, Option, none,
  some, leb, ◌==◌, length, get_or, set, get_elem?, length-set, length-append, get_or-set_self,
  get_or-set_ne, get_elem?-append_left, get_elem?-append_right, get_elem?-beyond, Bool-cases, arith,
}
use native.Mathlib.Decide.{dec_lt}
use poser.Prelude.Memory.{realloc, length-realloc, get_or-realloc}
use poser.Prelude.Owned.{Owned, Deleter, delete, delete_all}
use poser.PscList.{PscList, create, size, at, append, clear_loop, clear}

module _ {ℓ} {A : Type ℓ} where
  -- An array list that holds `xs`: the first `count` cells are written, and they are `xs`.
  pub record Models (xs : List (Owned A)) (l : PscList A) : Type ℓ where
    pub room : 0 < l.capa
    pub storage : length l.items ≡ l.capa
    pub fits : l.count ≤ l.capa
    pub counts : l.count ≡ length xs
    pub holds : (k : ℕ) → k < l.count → get_or l.items k none ≡ get_elem? xs k

  -- A new list is empty.
  pub create-Models : Models [] create
  unfolding create
  create-Models = record {
    room = omega arith;
    storage = refl;
    fits = omega arith;
    counts = refl;
    holds = λ k h. absurd (omega arith);
  }

  -- On a list that holds `xs`, `PSC_List_append` adds at the end, also when the array grows.
  pub append-Models :
      {xs : List (Owned A)} {l : PscList A} (obj : A) (d : Option Deleter)
      → Models xs l
      → Models (xs ++ record { obj = obj; deleter = d } ∷ []) (append l obj d)
  unfolding append
  append-Models {xs} {l} obj d m = elim (Bool-cases (l.count == l.capa)) [
    | inl full ↦
        let big : length (realloc l.items (l.capa * 2)) ≡ l.capa * 2 =
          length-realloc l.items (l.capa * 2) (omega (arith, m.storage)) in
        rw full (
          appended (realloc l.items (l.capa * 2)) (l.capa * 2) big (ground arith)
            (λ k h. get_or-realloc l.items (l.capa * 2) k (ground arith)))
    | inr notfull ↦ rw notfull (appended l.items l.capa m.storage (ground arith) (λ k h. refl))
  ]
    where
      appended :
          (items : List (Option (Owned A))) (capa : ℕ)
          → length items ≡ capa
          → l.count < capa
          → ((k : ℕ) → k < l.count → get_or items k none ≡ get_or l.items k none)
          → Models (xs ++ record { obj = obj; deleter = d } ∷ []) (record {
            items = set items l.count (some (record { obj = obj; deleter = d }));
            capa = capa;
            count = l.count + 1;
          })
      appended items capa e h same = record {
        room = omega arith;
        storage = length-set items l.count _ ∙ e;
        fits = omega arith;
        counts = omega (arith, m.counts, length-append xs (record { obj = obj; deleter = d } ∷ []));
        holds = λ k hk. elim (dec_lt k l.count) [
          | yes old ↦
              get_or-set_ne items l.count k _ none (omega arith)
              ∙ same k old
              ∙ m.holds k old
              ∙ sym (get_elem?-append_left xs _ k (omega (arith, m.counts)))
          | no new ↦
              let at_end : k ≡ l.count = omega arith in
              let last : k ≡ length xs + 0 = omega (arith, m.counts) in
              ap (λ i. get_or (set items l.count (some (record { obj = obj; deleter = d }))) i none)
                at_end
              ∙ get_or-set_self items l.count _ none (omega arith)
              ∙ sym (
                  ap (get_elem? (xs ++ record { obj = obj; deleter = d } ∷ [])) last
                  ∙ get_elem?-append_right xs (record { obj = obj; deleter = d } ∷ []) 0)
        ];
      }

  -- On a list that holds `xs`, `PSC_List_at` returns the object at an index, and the null pointer past
  -- the end; `PSC_List_size` is the number of objects.
  pub at-Models :
      {xs : List (Owned A)} {l : PscList A} (idx : ℕ)
      → Models xs l
      → (at l idx ≡ Option.map (λ e. e.obj) (get_elem? xs idx)) × (size l ≡ length xs)
  unfolding at size
  at-Models {xs} {l} idx m = (
    elim (Bool-cases (leb l.count idx)) [
      | inl out ↦ rw out (
          sym (
            ap (Option.map (λ e. e.obj))
              (get_elem?-beyond xs idx (let e = m.counts in ground arith))))
      | inr inside ↦ rw inside (ap (Option.map (λ e. e.obj)) (m.holds idx (ground arith)))
    ],
    m.counts,
  )

  clear_loop-cells :
      (items : List (Option (Owned A))) (xs : List (Owned A)) (i : ℕ)
      → ((k : ℕ) → k < length xs → get_or items (i + k) none ≡ get_elem? xs k)
      → clear_loop items (length xs) i ≡ delete_all xs
  unfolding clear_loop
  clear_loop-cells items [] i h = refl
  clear_loop-cells items (x ∷ xs) i h =
      let here : get_or items i none ≡ some x =
        ap (λ j. get_or items j none) (from_zero i) ∙ h 0 (omega arith) in
      rw here (
        ap (λ calls. delete x ++ calls)
          (clear_loop-cells items xs (i + 1)
            (λ k hk. ap (λ j. get_or items j none) (shift i k) ∙ h (suc k) (omega arith))))
    where
      from_zero : (i : ℕ) → i ≡ i + 0
      from_zero i = omega arith

      shift : (i k : ℕ) → i + 1 + k ≡ i + suc k
      shift i k = omega arith

  -- On a list that holds `xs`, `PSC_List_clear` calls the deleter of each object once, in order, and
  -- leaves an empty list.
  pub clear-Models :
      {xs : List (Owned A)} {l : PscList A}
      → Models xs l
      → ((clear l).0 ≡ delete_all xs) × Models [] (clear l).1
  unfolding clear
  clear-Models {xs} {l} m = (
    ap (λ n. clear_loop l.items n 0) m.counts
        ∙ clear_loop-cells l.items xs 0 (λ k h.
          ap (λ j. get_or l.items j none) (zero-add k) ∙ m.holds k (omega (arith, m.counts))),
    record {
      room = m.room;
      storage = m.storage;
      fits = omega arith;
      counts = refl;
      holds = λ k h. absurd (omega arith);
    },
  )
