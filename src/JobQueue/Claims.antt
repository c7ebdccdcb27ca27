-- ===== src/JobQueue/Claims.antt =====
-- What the threads that use the job queue of threadpool.c have of its cells.
use poser.Prelude.{
  ℕ, ◌+◌, ◌≡◌, refl, sym, ap, ◌∙◌, List, [], ◌∷◌, Option, none, some, Bool, true, false, ◌||◌,
  get_elem?, arith,
}
use poser.JobQueue.{Job, JobQueue}
use poser.JobQueue.Atomic.{
  Thread, idle, reads_avail, cas_avail, reads_enqpos, cas_enqpos, stores, posts, enqueued, refused,
  waits, reads_deqpos, cas_deqpos, exchanges, adds_avail, dequeued, step, is_resting, is_waiting,
}
use poser.JobQueue.Sound.{weight, sum_of}

-- the threads that have claimed a cell, or a job, and those that have a cell without a claim
abbrev pub claim : Thread → ℕ
claim (stores job pos) = 1
claim (posts job) = 1
claim reads_deqpos = 1
claim (cas_deqpos pos) = 1
claim _ = 0

abbrev pub held : Thread → ℕ
held (reads_enqpos job) = 1
held (cas_enqpos job pos) = 1
held (exchanges pos) = 1
held (adds_avail job) = 1
held _ = 0

abbrev pub takes : Option Thread → Option ℕ
takes (some (exchanges pos)) = some pos
takes _ = none

abbrev pub stores_to : Option Thread → Option ℕ
stores_to (some (stores job pos)) = some pos
stores_to _ = none

abbrev pub is_dequeuing : Thread → Bool
is_dequeuing waits = true
is_dequeuing reads_deqpos = true
is_dequeuing (cas_deqpos pos) = true
is_dequeuing (exchanges pos) = true
is_dequeuing (adds_avail job) = true
is_dequeuing _ = false

pub weight-parts : (t : Thread) → weight t ≡ claim t + held t
weight-parts idle = refl
weight-parts (reads_avail job) = refl
weight-parts (cas_avail job avail) = refl
weight-parts (enqueued job) = refl
weight-parts (refused job) = refl
weight-parts waits = refl
weight-parts (dequeued job) = refl
weight-parts (reads_enqpos job) = refl
weight-parts (cas_enqpos job pos) = refl
weight-parts (stores job pos) = refl
weight-parts (posts job) = refl
weight-parts reads_deqpos = refl
weight-parts (cas_deqpos pos) = refl
weight-parts (exchanges pos) = refl
weight-parts (adds_avail job) = refl

pub sum-parts : (ts : List Thread) → sum_of weight ts ≡ sum_of claim ts + sum_of held ts
sum-parts [] = refl
sum-parts (t ∷ ts) = omega (arith, weight-parts t, sum-parts ts)

pub takes-exchanges : (o : Option Thread) (p : ℕ) → takes o ≡ some p → o ≡ some (exchanges p)
takes-exchanges none p h = absurd (cc)
takes-exchanges (some (exchanges pos)) p h = let e : pos ≡ p = cc in ap (λ p. some (exchanges p)) e
takes-exchanges (some idle) p h = absurd (cc)
takes-exchanges (some (reads_avail job)) p h = absurd (cc)
takes-exchanges (some (cas_avail job avail)) p h = absurd (cc)
takes-exchanges (some (enqueued job)) p h = absurd (cc)
takes-exchanges (some (refused job)) p h = absurd (cc)
takes-exchanges (some waits) p h = absurd (cc)
takes-exchanges (some (dequeued job)) p h = absurd (cc)
takes-exchanges (some (reads_enqpos job)) p h = absurd (cc)
takes-exchanges (some (cas_enqpos job pos)) p h = absurd (cc)
takes-exchanges (some (stores job pos)) p h = absurd (cc)
takes-exchanges (some (posts job)) p h = absurd (cc)
takes-exchanges (some reads_deqpos) p h = absurd (cc)
takes-exchanges (some (cas_deqpos pos)) p h = absurd (cc)
takes-exchanges (some (adds_avail job)) p h = absurd (cc)

pub cas_exchanges :
    (ts : List Thread) (i c : ℕ) (job : Job) (enqpos p : ℕ)
    → get_elem? ts i ≡ some (cas_enqpos job enqpos)
    → get_elem? ts c ≡ some (exchanges p)
    → i ≡ c
    → ⊥
cas_exchanges ts i c job enqpos p h k e =
    let bad : some (cas_enqpos job enqpos) ≡ some (exchanges p) =
      sym h ∙ ap (λ j. get_elem? ts j) e ∙ k in
    absurd (cc)

-- A thread that may go elsewhere has no claim.
pub claimless :
    (t : Thread)
    → (is_resting t || is_waiting t) ≡ true
    → (claim t ≡ 0) × (stores_to (some t) ≡ none) × (takes (some t) ≡ none)
claimless idle h = (refl, refl, refl)
claimless (reads_avail job) h = (refl, refl, refl)
claimless (cas_avail job avail) h = (refl, refl, refl)
claimless (enqueued job) h = (refl, refl, refl)
claimless (refused job) h = (refl, refl, refl)
claimless waits h = (refl, refl, refl)
claimless (dequeued job) h = (refl, refl, refl)
claimless (reads_enqpos job) h = absurd (cc)
claimless (cas_enqpos job pos) h = absurd (cc)
claimless (stores job pos) h = absurd (cc)
claimless (posts job) h = absurd (cc)
claimless reads_deqpos h = absurd (cc)
claimless (cas_deqpos pos) h = absurd (cc)
claimless (exchanges pos) h = absurd (cc)
claimless (adds_avail job) h = absurd (cc)

-- A thread that does not dequeue does not by a step.
pub step_others :
    (q : JobQueue) (t : Thread) → is_dequeuing t ≡ false → is_dequeuing (step q t).1 ≡ false
unfolding step
step_others q idle h = refl
step_others q (reads_avail job) h = refl
step_others q (cas_avail job avail) h = ground arith
step_others q (enqueued job) h = refl
step_others q (refused job) h = refl
step_others q waits h = absurd (cc)
step_others q (dequeued job) h = refl
step_others q (reads_enqpos job) h = refl
step_others q (cas_enqpos job pos) h = ground arith
step_others q (stores job pos) h = refl
step_others q (posts job) h = refl
step_others q reads_deqpos h = absurd (cc)
step_others q (cas_deqpos pos) h = absurd (cc)
step_others q (exchanges pos) h = absurd (cc)
step_others q (adds_avail job) h = absurd (cc)
