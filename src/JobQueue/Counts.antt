-- ===== src/JobQueue/Counts.antt =====
-- Sums over the threads that use the job queue of threadpool.c, and a thread that is another one.
use poser.Prelude.{
  ℕ, zero, suc, ◌+◌, ◌≤◌, ◌≡◌, ◌≢◌, refl, ap, List, [], ◌∷◌, some, get_elem?, set, arith,
}
use poser.JobQueue.Atomic.{Thread}
use poser.JobQueue.Sound.{sum_of}

pub le-sum_of :
    (f : Thread → ℕ) (ts : List Thread) (i : ℕ) (t : Thread)
    → get_elem? ts i ≡ some t
    → f t ≤ sum_of f ts
le-sum_of f [] i t h = absurd (cc)
le-sum_of f (x ∷ ts) zero t h = let same : x ≡ t = cc in rw same (omega arith)
le-sum_of f (x ∷ ts) (suc i) t h = omega (arith, le-sum_of f ts i t h)

pub le-sum_of_two :
    (f : Thread → ℕ) (ts : List Thread) (i j : ℕ) (t u : Thread)
    → i ≢ j
    → get_elem? ts i ≡ some t
    → get_elem? ts j ≡ some u
    → f t + f u ≤ sum_of f ts
le-sum_of_two f [] i j t u ne h k = absurd (cc)
le-sum_of_two f (x ∷ ts) zero zero t u ne h k = absurd (ne refl)
le-sum_of_two f (x ∷ ts) zero (suc j) t u ne h k =
    let same : x ≡ t = cc in rw same (omega (arith, le-sum_of f ts j u k))
le-sum_of_two f (x ∷ ts) (suc i) zero t u ne h k =
    let same : x ≡ u = cc in rw same (omega (arith, le-sum_of f ts i t h))
le-sum_of_two f (x ∷ ts) (suc i) (suc j) t u ne h k =
    omega (arith, le-sum_of_two f ts i j t u (λ e. ne (ap suc e)) h k)

pub get_elem?-set_self :
    (ts : List Thread) (i : ℕ) (t t' : Thread)
    → get_elem? ts i ≡ some t
    → get_elem? (set ts i t') i ≡ some t'
get_elem?-set_self [] i t t' h = absurd (cc)
get_elem?-set_self (x ∷ ts) zero t t' h = refl
get_elem?-set_self (x ∷ ts) (suc i) t t' h = get_elem?-set_self ts i t t' h

pub get_elem?-set_ne :
    (ts : List Thread) (i j : ℕ) (t' : Thread) → j ≢ i → get_elem? (set ts i t') j ≡ get_elem? ts j
get_elem?-set_ne [] i j t' ne = refl
get_elem?-set_ne (x ∷ ts) zero zero t' ne = absurd (ne refl)
get_elem?-set_ne (x ∷ ts) zero (suc j) t' ne = refl
get_elem?-set_ne (x ∷ ts) (suc i) zero t' ne = refl
get_elem?-set_ne (x ∷ ts) (suc i) (suc j) t' ne = get_elem?-set_ne ts i j t' (λ e. ne (ap suc e))
