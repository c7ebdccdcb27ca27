-- ===== src/Queue/Refine.antt =====
-- queue.c as a first-in first-out list of owned objects.

use poser.Prelude.{
  ◌+◌, ℕ, zero, suc, ◌-◌, ◌<◌, ◌≡◌, inl, inr, refl, sym, ap, ap₂, ◌∙◌, List, [], ◌∷◌, ◌++◌, Option,
  none, some, true, false, map, map-append, ◌==◌, length, get_or, set, length-set, length-map,
  get_or-set_self, Bool-cases, arith,
}
use poser.Prelude.Owned.{Owned, Deleter, delete, delete_all}
use poser.Queue.{Queue, advance, create, put, enqueue, dequeue, destroy_loop, destroy}
use poser.Queue.Positions.{
  window_snoc, window-set, slot, slot-advance, slot-lt, advance-slot, window, length-window,
}
use poser.Queue.Valid.{
  IsValid, contents, create-IsValid, expand-IsValid, expand_room, contents-expand,
}

module _ {ℓ} {A : Type ℓ} where
  module _ {q : Queue A} (v : IsValid q) (room : q.count < q.capa) (obj : A)
      (d : Option Deleter) where
    put-IsValid : IsValid (put q obj d)
    unfolding put
    put-IsValid = record {
      room = v.room;
      storage = length-set q.entries q.back _ ∙ v.storage;
      fits = omega arith;
      front_in = v.front_in;
      back_at = ap (advance q.capa) v.back_at ∙ advance-slot q.capa q.front q.count v.front_in room;
    }

    contents-put :
        contents (put q obj d) ≡ contents q ++ some (record { obj = obj; deleter = d }) ∷ []
    unfolding put contents
    contents-put =
        let cells = set q.entries q.back (some (record { obj = obj; deleter = d })) in
        let at : q.back ≡ slot q.capa q.front q.count = v.back_at in
        let inside : q.back < length q.entries =
          omega (arith, slot-lt q.capa q.front q.count v.front_in v.fits) in
        let next : q.count + 1 ≡ suc q.count = omega arith in
        ap (window cells q.capa q.front) next
        ∙ window_snoc cells q.capa q.front q.count v.front_in room
        ∙ ap₂ (λ w e. w ++ e ∷ [])
            (rw at (window-set q.entries q.capa q.front q.count _ v.front_in room))
            (rw (← at) (get_or-set_self q.entries q.back _ none inside))

  -- A queue that holds `xs`, the front first.
  pub record Models (xs : List (Owned A)) (q : Queue A) : Type ℓ where
    pub valid : IsValid q
    pub holds : contents q ≡ map some xs

  -- A new queue is empty.
  pub create-Models : Models [] create
  unfolding create contents
  create-Models = record { valid = create-IsValid; holds = refl }

  -- On a valid queue that holds `xs`, `PSC_Queue_enqueue` leaves a valid queue that holds `xs` with the
  -- object behind all others, also when the array grows.
  pub enqueue-Models :
      {xs : List (Owned A)} {q : Queue A} (obj : A) (d : Option Deleter)
      → Models xs q
      → Models (xs ++ record { obj = obj; deleter = d } ∷ []) (enqueue q obj d)
  unfolding enqueue
  enqueue-Models {xs} {q} obj d m = elim (Bool-cases (q.count == q.capa)) [
    | inl full ↦
        let e : q.count ≡ q.capa = ground arith in
        let v = expand-IsValid m.valid e in
        let room = expand_room m.valid e in
        rw full (record {
          valid = put-IsValid v room obj d;
          holds =
              contents-put v room obj d
              ∙ ap (λ w. w ++ some (record { obj = obj; deleter = d }) ∷ [])
                  (contents-expand m.valid e ∙ m.holds)
              ∙ sym (map-append some xs (record { obj = obj; deleter = d } ∷ []));
        })
    | inr notfull ↦
        let room : q.count < q.capa = let v = m.valid in ground arith in
        rw notfull (record {
          valid = put-IsValid m.valid room obj d;
          holds =
              contents-put m.valid room obj d
              ∙ ap (λ w. w ++ some (record { obj = obj; deleter = d }) ∷ []) m.holds
              ∙ sym (map-append some xs (record { obj = obj; deleter = d } ∷ []));
        })
  ]

  -- What a first-in first-out list gives to `dequeue`.
  abbrev pub pop : List (Owned A) → Option A × List (Owned A)
  pop [] = (none, [])
  pop (x ∷ xs) = (some x.obj, xs)

  -- On a valid queue that holds `xs`, `PSC_Queue_dequeue` returns the front object and leaves a valid
  -- queue of the others; an empty queue gives the null pointer and stays empty.
  pub dequeue-Models :
      (xs : List (Owned A)) {q : Queue A}
      → Models xs q
      → ((dequeue q).0 ≡ (pop xs).0) × Models (pop xs).1 (dequeue q).1
  unfolding dequeue contents
  dequeue-Models [] {q} m =
      let empty : q.count ≡ 0 =
        sym (length-window q.entries q.capa q.front q.count) ∙ ap length m.holds in
      let test : (q.count == 0) ≡ true = ground arith in rw test (refl, m)
  dequeue-Models (x ∷ xs) {q} m =
      let some_left : q.count ≡ suc (length xs) =
        sym (length-window q.entries q.capa q.front q.count)
        ∙ ap length m.holds
        ∙ ap suc (length-map some xs) in
      let test : (q.count == 0) ≡ false = ground arith in
      let shown : window q.entries q.capa q.front (suc (length xs)) ≡ some x ∷ map some xs =
        ap (window q.entries q.capa q.front) (sym some_left) ∙ m.holds in
      let left : q.count - 1 ≡ length xs = omega arith in
      let front : get_or q.entries q.front none ≡ some x = cc in
      let v = m.valid in
      rw (test, front)
        (
          refl,
          record {
            valid = record {
              room = v.room;
              storage = v.storage;
              fits = omega arith;
              front_in = ground arith;
              back_at =
                  v.back_at
                  ∙ ap (slot q.capa q.front) (omega arith)
                  ∙ sym (slot-advance q.capa q.front (q.count - 1) v.front_in (omega arith));
            };
            holds = ap (window q.entries q.capa (advance q.capa q.front)) left ∙ cc;
          },
        )

  destroy_loop-window :
      (cells : List (Option (Owned A))) (capa n pos : ℕ) (xs : List (Owned A))
      → window cells capa pos n ≡ map some xs
      → destroy_loop cells capa n pos ≡ delete_all xs
  unfolding destroy_loop
  destroy_loop-window cells capa zero pos [] h = refl
  destroy_loop-window cells capa zero pos (x ∷ xs) h = cc
  destroy_loop-window cells capa (suc n) pos [] h = cc
  destroy_loop-window cells capa (suc n) pos (x ∷ xs) h =
      let front : get_or cells pos none ≡ some x = cc in
      rw front (
        ap (λ calls. delete x ++ calls)
          (destroy_loop-window cells capa n (advance capa pos) xs (cc)))

  -- On a valid queue, `PSC_Queue_destroy` calls the deleter of each object that is left, once, the
  -- front first.
  pub destroy-Models : {xs : List (Owned A)} {q : Queue A} → Models xs q → destroy q ≡ delete_all xs
  unfolding destroy contents
  destroy-Models {xs} {q} m = destroy_loop-window q.entries q.capa q.count q.front xs m.holds
