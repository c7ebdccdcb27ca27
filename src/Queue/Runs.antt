-- ===== src/Queue/Runs.antt =====
-- Runs of queue.c, and the theorems at concrete queues.
use poser.Prelude.{ℕ, zero, suc, ◌≡◌, refl, [], ◌∷◌, some, arith}
use poser.Prelude.Memory.{realloc, memmove}
use poser.Prelude.Owned.{Owned}
use poser.Queue.{Queue, expand, create, put, enqueue, dequeue}
use poser.Queue.Valid.{IsValid}
use poser.Queue.Refine.{Models, create-Models, enqueue-Models, dequeue-Models}

-- an object with the deleter at address 7
abbrev owned : ℕ → Owned ℕ
owned n = record { obj = n; deleter = some 7 }

add : ℕ → Queue ℕ → Queue ℕ
add n q = enqueue q n (some 7)

add_all : ℕ → Queue ℕ → Queue ℕ
add_all zero q = q
add_all (suc n) q = add n (add_all n q)

-- Eight objects, one taken out, two more put in: the array grows while `front` is 1.
grown : Queue ℕ
grown = add 9 (add 8 (dequeue (add_all 8 create)).1)

grown_front : (grown.front ≡ 9) × (grown.capa ≡ 16) × (grown.back ≡ 2)
unfolding grown add_all add enqueue put expand dequeue create realloc memmove
grown_front = (refl, refl, refl)

abbrev one : Queue ℕ
one = enqueue create 5 (some 7)

one-Models : Models (owned 5 ∷ []) one
one-Models = enqueue-Models 5 (some 7) create-Models

enqueue-Models_example : Models (owned 5 ∷ owned 6 ∷ []) (enqueue one 6 (some 7))
enqueue-Models_example = enqueue-Models 6 (some 7) one-Models

dequeue-Models_example : ((dequeue one).0 ≡ some 5) × Models [] (dequeue one).1
dequeue-Models_example = dequeue-Models (owned 5 ∷ []) one-Models

-- two cells, both used, the front in the second
abbrev full : Queue ℕ
full = record {
  entries = some (owned 2) ∷ some (owned 1) ∷ [];
  count = 2;
  capa = 2;
  front = 1;
  back = 1;
}

full-IsValid : IsValid full
full-IsValid = record {
  room = omega arith;
  storage = refl;
  fits = omega arith;
  front_in = omega arith;
  back_at = refl;
}
