-- ===== src/JobQueue/Alone.antt =====
-- A thread that no other one interrupts, in the job queue of threadpool.c with atomics.
use poser.Prelude.{
  ℕ, zero, suc, ◌≡◌, refl, ap, ◌∙◌, inl, inr, List, [], ◌∷◌, Option, none, some, true, false, ◌==◌,
  set, drop, replicate, Bool-cases, arith,
}
use poser.JobQueue.{Job, JobQueue}
use poser.JobQueue.Locked.{enqueue}
use poser.JobQueue.Atomic.{
  Thread, reads_avail, enqueued, refused, waits, dequeued, step, goes, move, World, start, next,
  run,
}
use poser.JobQueue.Refine.{Models, taken, first, cleared-Models}

abbrev pub one_thread : JobQueue → Thread → List ℕ → World
one_thread q thread timers = record { queue = q; threads = thread ∷ []; started = timers }

==_self : (n : ℕ) → (n == n) ≡ true
==_self n = ground arith

-- what a call of `JobQueue_enqueue` with the lock leaves
abbrev pub after_enqueue : JobQueue → Job → Option (JobQueue × Option ℕ) → World
after_enqueue q job none = one_thread q (refused job) []
after_enqueue q job (some (q', timer)) = one_thread q' (enqueued job) (start timer [])

-- Alone, a thread has left `JobQueue_enqueue` after six steps, and the queue and the timers are what the
-- function with the lock makes of them.
pub enqueue_alone :
    (q : JobQueue) (job : Job)
    → run (replicate 6 (0, goes)) (one_thread q (reads_avail job) [])
      ≡ after_enqueue q job (enqueue q job)
unfolding run next move step enqueue
enqueue_alone q job = elim (Bool-cases (q.avail == 0)) [
  | inl full ↦ rw full refl
  | inr some_left ↦ rw (some_left, ==_self q.avail, ==_self q.enqpos) refl
]

still :
    (q : JobQueue)
    → (q.count == 0) ≡ true
    → next (one_thread q waits []) (0, goes) ≡ one_thread q waits []
unfolding next move step
still q empty = rw empty refl

run_still : (n : ℕ) (w : World) → next w (0, goes) ≡ w → run (replicate n (0, goes)) w ≡ w
unfolding run
run_still zero w h = refl
run_still (suc n) w h = ap (run (replicate n (0, goes))) h ∙ run_still n w h

-- what a thread that dequeued alone has of these jobs
abbrev pub after_dequeue : List Job → Thread
after_dequeue [] = waits
after_dequeue (j ∷ js) = dequeued j

-- Alone, on a queue that holds these jobs, a thread has left `JobQueue_dequeue` after five steps with the
-- first job, and the queue holds the others; without a job it still waits.
pub dequeue_alone-Models :
    (js : List Job) (q : JobQueue)
    → Models js q
    → (q' : JobQueue) × (run (replicate 5 (0, goes)) (one_thread q waits [])
        ≡ one_thread q' (after_dequeue js) [])
      × Models (drop 1 js) q'
unfolding run next move step
dequeue_alone-Models [] q m =
    let empty : (q.count == 0) ≡ true = ground (arith, m.counted) in
    (q, run_still 5 (one_thread q waits []) (still q empty), m)
dequeue_alone-Models (j ∷ js) q m =
    let some_left : (q.count == 0) ≡ false = ground (arith, m.counted) in
    (
      record (taken q) { jobs = set q.jobs q.deqpos none },
      rw (some_left, ==_self q.deqpos, first m) (unfold taken in refl),
      cleared-Models m,
    )
