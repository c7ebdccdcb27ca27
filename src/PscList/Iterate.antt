-- ===== src/PscList/Iterate.antt =====
-- Walking over list.c with its iterator.

use native.Mathlib.Nat.{zero-add}
use poser.Prelude.{
  ℕ, zero, suc, ◌+◌, ◌<◌, ◌≡◌, ap, ◌∙◌, List, [], ◌∷◌, Option, none, some, Bool, true, false, map,
  ltb, leb, if◌then◌else◌, length, get_or, get_elem?, take, get_or-take_below, arith,
}
use poser.Prelude.Owned.{Owned}
use poser.PscList.{PscList, Iterator, obj_at, iterator, move_next, current}
use poser.PscList.Models.{Models}

module _ {ℓ} {A : Type ℓ} where
  -- what `while (moveNext(it)) visit(current(it));` visits in at most `rounds` rounds, and whether
  -- the loop has ended by its test
  pub visits : ℕ → Iterator A → List (Option A) × Bool
  visits zero it = ([], false)
  visits (suc rounds) it =
      let (more, it') = move_next it in
      elim more [
        | false ↦ ([], true)
        | true ↦ let (rest, ended) = visits rounds it' in (current it' ∷ rest, ended)
      ]

  -- the position that `move_next` goes to
  abbrev next : Iterator A → ℕ
  next it = if leb it.count it.pos then 0 else it.pos + 1

  visits_stop :
      (rounds : ℕ) (it : Iterator A)
      → ltb (next it) it.count ≡ false
      → visits (suc rounds) it ≡ ([], true)
  unfolding visits move_next
  visits_stop rounds it h = rw (h, visits)

  visits_go :
      (rounds : ℕ) (it : Iterator A)
      → ltb (next it) it.count ≡ true
      → let rest = visits rounds (record it { pos = next it }) in
        visits (suc rounds) it ≡ (obj_at it.items (next it) ∷ rest.0, rest.1)
  unfolding visits move_next current
  visits_go rounds it h =
      let inside : leb it.count (next it) ≡ false = ground arith in rw (h, visits, inside)

  -- `it` goes to item `n` of the copy next, and `xs` stand from there on
  visits-from :
      (xs : List (Owned A)) (it : Iterator A) (n : ℕ)
      → next it ≡ n
      → it.count ≡ n + length xs
      → ((k : ℕ) → k < length xs → get_or it.items (n + k) none ≡ get_elem? xs k)
      → visits (suc (length xs)) it ≡ (map (λ e. some e.obj) xs, true)
  visits-from [] it n at e cells =
      visits_stop 0 it (let past : ltb n it.count ≡ false = ground arith in rw at past)
  visits-from (x ∷ xs) it n at e cells =
      let more : ltb n it.count ≡ true = ground arith in
      let here : n + 0 ≡ n = omega arith in
      let cell : get_or it.items n none ≡ some x = rw here at (cells 0 (omega arith)) in
      visits_go (suc (length xs)) it (rw at more)
      ∙ rw (at, cell)
          (ap (λ r. (some x.obj ∷ r.0, r.1))
            (visits-from xs (record it { pos = n }) (n + 1) (ground arith) (omega arith)
              (λ k h.
                let step : n + 1 + k ≡ n + suc k = omega arith in
                rw step (cells (suc k) (omega arith)))))

  -- A loop over the iterator of a list that holds `xs` visits each object once, in order, and then ends,
  -- one round after the last object.
  pub visits-iterator :
      {xs : List (Owned A)} {l : PscList A}
      → Models xs l
      → visits (suc (length xs)) (iterator l) ≡ (map (λ e. some e.obj) xs, true)
  unfolding iterator
  visits-iterator {xs} {l} m = visits-from xs (iterator l) 0 fresh (omega (arith, m.counts)) (λ k h.
      let small : k < l.count = omega (arith, m.counts) in
      ap (λ j. get_or (take l.count l.items) j none) (zero-add k)
      ∙ get_or-take_below l.count l.items k none small
      ∙ m.holds k small)
    where
      fresh : next (iterator l) ≡ 0
      fresh = ground arith
