-- ===== src/Queue/Valid.antt =====
-- The representation invariant of queue.c, and what growing keeps.
use poser.Prelude.{
  ℕ, ◌+◌, ◌-◌, ◌*◌, ◌≤◌, ◌<◌, ◌≡◌, inl, inr, refl, sym, ◌∙◌, List, Option, none, ltb, ◌==◌, length,
  get_or, ext_get_or, Bool-cases, arith,
}
use poser.Prelude.Memory.{
  realloc, length-memmove, length-realloc, get_or-realloc, get_or-memmove_outside,
  get_or-memmove_inside,
}
use poser.Prelude.Owned.{Owned}
use poser.Queue.{Queue, expand, create}
use poser.Queue.Positions.{slot, window, length-window, get_or-window}

module _ {ℓ} {A : Type ℓ} where
  -- `back` is `count` rounds after `front`, in an array of `capa` cells
  pub record IsValid (q : Queue A) : Type 0 where
    pub room : 0 < q.capa
    pub storage : length q.entries ≡ q.capa
    pub fits : q.count ≤ q.capa
    pub front_in : q.front < q.capa
    pub back_at : q.back ≡ slot q.capa q.front q.count

  unfoldable pub contents : Queue A → List (Option (Owned A))
  contents q = window q.entries q.capa q.front q.count

  pub create-IsValid : IsValid (create {A = A})
  unfolding create
  create-IsValid = record {
    room = omega arith;
    storage = refl;
    fits = omega arith;
    front_in = omega arith;
    back_at = refl;
  }

  pub expand_shape : (q : Queue A) → ((expand q).count ≡ q.count) × ((expand q).capa ≡ 2 * q.capa)
  unfolding expand
  expand_shape q = ground arith

  module _ {q : Queue A} (v : IsValid q) (full : q.count ≡ q.capa) where
    grown : length (realloc q.entries (2 * q.capa)) ≡ 2 * q.capa
    grown = length-realloc q.entries (2 * q.capa) (omega arith)

    pub expand-IsValid : IsValid (expand q)
    unfolding expand
    expand-IsValid = ground (
      arith,
      grown,
      length-memmove (realloc q.entries (2 * q.capa)) (q.front + q.capa) q.front (q.capa - q.front),
    )

    pub expand_room : (expand q).count < (expand q).capa
    expand_room = omega (arith, expand_shape q, v.room)

    -- Each queued entry stands where the new indices look for it.
    expand-cell :
        (k : ℕ)
        → k < q.capa
        → get_or (expand q).entries (slot (expand q).capa (expand q).front k) none
          ≡ get_or q.entries (slot q.capa q.front k) none
    unfolding expand
    expand-cell k hk = elim (Bool-cases (q.front == 0)) [
      | inl e ↦
          let new : slot (2 * q.capa) q.front k ≡ k = ground arith in
          let old : slot q.capa q.front k ≡ k = ground arith in
          rw (e, new, old) (get_or-realloc q.entries (2 * q.capa) k (omega arith))
      | inr e ↦ elim (Bool-cases (ltb (q.front + k) q.capa)) [
        | inl near ↦
            let new : slot (2 * q.capa) (q.front + q.capa) k ≡ q.front + q.capa + k =
              ground arith in
            let old : slot q.capa q.front k ≡ q.front + k = ground arith in
            rw (e, new, old)
              (get_or-memmove_inside (realloc q.entries (2 * q.capa)) (q.front + q.capa) q.front
                  (q.capa - q.front) k none (omega (arith, grown)) (omega (arith, grown))
                  (ground arith)
                ∙ get_or-realloc q.entries (2 * q.capa) (q.front + k) (ground arith))
        | inr far ↦
            let new : slot (2 * q.capa) (q.front + q.capa) k ≡ q.front + k - q.capa =
              ground arith in
            let old : slot q.capa q.front k ≡ q.front + k - q.capa = ground arith in
            rw (e, new, old)
              (get_or-memmove_outside (realloc q.entries (2 * q.capa)) (q.front + q.capa) q.front
                  (q.capa - q.front) (q.front + k - q.capa) none (omega (arith, grown))
                  (omega (arith, grown)) (inl (ground arith))
                ∙ get_or-realloc q.entries (2 * q.capa) (q.front + k - q.capa) (ground arith))
      ]
    ]

    -- Growing a valid queue that is full keeps the queued entries in their order.
    pub contents-expand : contents (expand q) ≡ contents q
    unfolding contents
    contents-expand =
        let (sc, sk) = expand_shape q in
        let new = expand-IsValid in
        ext_get_or _ _ none
          (length-window (expand q).entries (expand q).capa (expand q).front (expand q).count
            ∙ sc
            ∙ sym (length-window q.entries q.capa q.front q.count))
          (λ i hi.
            let small : i < q.count = omega (
              arith,
              length-window (expand q).entries (expand q).capa (expand q).front (expand q).count,
            ) in
            get_or-window (expand q).entries (expand q).capa (expand q).front (expand q).count i
              new.front_in new.fits (omega arith)
            ∙ expand-cell i (omega arith)
            ∙ sym (get_or-window q.entries q.capa q.front q.count i v.front_in v.fits small))
