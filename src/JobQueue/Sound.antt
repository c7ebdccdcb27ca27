-- ===== src/JobQueue/Sound.antt =====
-- What holds of the job queue of threadpool.c with atomics in every interleaving of its threads.
use poser.Prelude.{
  ℕ, zero, suc, ◌+◌, ◌<◌, ◌≡◌, refl, subst, ◌∙◌, inl, inr, List, [], ◌∷◌, none, some, Bool, true,
  false, ◌||◌, if◌then◌else◌, length, get_or, get_elem?, set, length-set, All, Option-cases, arith,
}
use poser.JobQueue.{JobQueue}
use poser.JobQueue.Atomic.{
  Thread, idle, reads_avail, cas_avail, reads_enqpos, cas_enqpos, stores, posts, enqueued, refused,
  waits, reads_deqpos, cas_deqpos, exchanges, adds_avail, dequeued, step, is_resting, is_waiting,
  Move, enqueues, dequeues, goes, interrupts, move, World, next, run,
}

-- a thread that has taken a cell from `avail`, or a job from the semaphore, and not given it on
abbrev pub weight : Thread → ℕ
weight (reads_enqpos job) = 1
weight (cas_enqpos job pos) = 1
weight (stores job pos) = 1
weight (posts job) = 1
weight reads_deqpos = 1
weight (cas_deqpos pos) = 1
weight (exchanges pos) = 1
weight (adds_avail job) = 1
weight _ = 0

-- a sum over all threads
abbrev pub sum_of : (Thread → ℕ) → List Thread → ℕ
sum_of f [] = 0
sum_of f (t ∷ ts) = f t + sum_of f ts

-- the index that a thread has read lies in the array
abbrev pub IsInside : ℕ → Thread → Type 0
IsInside sz (cas_enqpos job pos) = pos < sz
IsInside sz (stores job pos) = pos < sz
IsInside sz (cas_deqpos pos) = pos < sz
IsInside sz (exchanges pos) = pos < sz
IsInside sz _ = Unit

-- All indices lie in the array, and the free cells, the jobs that the semaphore counts and the threads
-- that have taken one of these are as many as the cells.
pub record IsSound (sz : ℕ) (w : World) : Type 0 where
  pub size : w.queue.sz ≡ sz
  pub storage : length w.queue.jobs ≡ sz
  pub enq_in : w.queue.enqpos < sz
  pub deq_in : w.queue.deqpos < sz
  pub inside : All (IsInside sz) w.threads
  pub balance : w.queue.avail + w.queue.count + sum_of weight w.threads ≡ sz

-- what a move of a thread keeps
record Keeps (sz : ℕ) (q : JobQueue) (t : Thread) (q' : JobQueue) (t' : Thread) : Type 0 where
  pub size : q'.sz ≡ q.sz
  pub storage : length q'.jobs ≡ length q.jobs
  pub enq_in : q'.enqpos < sz
  pub deq_in : q'.deqpos < sz
  pub inside : IsInside sz t'
  pub balance : q'.avail + q'.count + weight t' ≡ q.avail + q.count + weight t

pub or_right : (a : Bool) {b : Bool} → b ≡ true → (a || b) ≡ true
or_right true h = refl
or_right false h = h

-- A thread that may go elsewhere holds no cell.
weightless : (t : Thread) → (is_resting t || is_waiting t) ≡ true → weight t ≡ 0
weightless idle h = refl
weightless (reads_avail job) h = refl
weightless (cas_avail job avail) h = refl
weightless (enqueued job) h = refl
weightless (refused job) h = refl
weightless waits h = refl
weightless (dequeued job) h = refl
weightless (reads_enqpos job) h = absurd (cc)
weightless (cas_enqpos job pos) h = absurd (cc)
weightless (stores job pos) h = absurd (cc)
weightless (posts job) h = absurd (cc)
weightless reads_deqpos h = absurd (cc)
weightless (cas_deqpos pos) h = absurd (cc)
weightless (exchanges pos) h = absurd (cc)
weightless (adds_avail job) h = absurd (cc)

module _ (sz : ℕ) (q : JobQueue) (size : q.sz ≡ sz) (enq_in : q.enqpos < sz)
    (deq_in : q.deqpos < sz) where
  stays : (t : Thread) → IsInside sz t → Keeps sz q t q t
  stays t h = record {
    size = refl;
    storage = refl;
    enq_in = enq_in;
    deq_in = deq_in;
    inside = h;
    balance = refl;
  }

  step-Keeps : (t : Thread) → IsInside sz t → Keeps sz q t (step q t).0 (step q t).1
  unfolding step
  step-Keeps idle h = stays idle h
  step-Keeps (reads_avail job) h = ground arith
  step-Keeps (cas_avail job avail) h = ground arith
  step-Keeps (reads_enqpos job) h = ground arith
  step-Keeps (cas_enqpos job pos) h = ground arith
  step-Keeps (stores job pos) h = ground (arith, length-set q.jobs pos (some job))
  step-Keeps (posts job) h = ground arith
  step-Keeps (enqueued job) h = stays (enqueued job) h
  step-Keeps (refused job) h = stays (refused job) h
  step-Keeps waits h = ground arith
  step-Keeps reads_deqpos h = ground arith
  step-Keeps (cas_deqpos pos) h = ground arith
  step-Keeps (exchanges pos) h = elim (Option-cases (get_or q.jobs pos none)) [
    | inl none_yet ↦ rw (step, none_yet) (stays (exchanges pos) h)
    | inr (job, there) ↦ rw (step, there) (ground (arith, length-set q.jobs pos none))
  ]
  step-Keeps (adds_avail job) h = ground arith
  step-Keeps (dequeued job) h = stays (dequeued job) h

  switches :
      (b : Bool) (t u : Thread)
      → IsInside sz t
      → IsInside sz u
      → (b ≡ true → weight t ≡ weight u)
      → Keeps sz q t q (if b then u else t)
  switches true t u h k same =
      let w = same refl in
      record {
        size = refl;
        storage = refl;
        enq_in = enq_in;
        deq_in = deq_in;
        inside = k;
        balance = omega (arith, w);
      }
  switches false t u h k same = stays t h

  move-Keeps : (t : Thread) (m : Move) → IsInside sz t → Keeps sz q t (move q t m).0 (move q t m).1
  unfolding move
  move-Keeps t goes h = step-Keeps t h
  move-Keeps t (enqueues job) h =
      switches (is_resting t) t (reads_avail job) h tt (λ rests. weightless t (rw rests refl))
  move-Keeps t dequeues h =
      switches (is_resting t) t waits h tt (λ rests. weightless t (rw rests refl))
  move-Keeps t interrupts h =
      switches (is_waiting t) t idle h tt (λ w. weightless t (or_right (is_resting t) w))

pub sum_of-set :
    (f : Thread → ℕ) (ts : List Thread) (i : ℕ) (t t' : Thread)
    → get_elem? ts i ≡ some t
    → sum_of f (set ts i t') + f t ≡ sum_of f ts + f t'
sum_of-set f [] i t t' h = absurd (cc)
sum_of-set f (x ∷ ts) zero t t' h = let same : x ≡ t = cc in rw same (omega arith)
sum_of-set f (x ∷ ts) (suc i) t t' h = omega (arith, sum_of-set f ts i t t' h)

set-All :
    (P : Thread → Type 0) (ts : List Thread) (i : ℕ) (t : Thread)
    → All P ts
    → P t
    → All P (set ts i t)
set-All P [] i t a h = tt
set-All P (x ∷ ts) zero t (hx, a) h = (h, a)
set-All P (x ∷ ts) (suc i) t (hx, a) h = (hx, set-All P ts i t a h)

at-All :
    (P : Thread → Type 0) (ts : List Thread) (i : ℕ) (t : Thread)
    → All P ts
    → get_elem? ts i ≡ some t
    → P t
at-All P [] i t a h = absurd (cc)
at-All P (x ∷ ts) zero t (hx, a) h = let same : x ≡ t = cc in subst P same hx
at-All P (x ∷ ts) (suc i) t (hx, a) h = at-All P ts i t a h

pub next-IsSound : (sz : ℕ) (w : World) (m : ℕ × Move) → IsSound sz w → IsSound sz (next w m)
unfolding next
next-IsSound sz w (i, m) s = elim (Option-cases (get_elem? w.threads i)) [
  | inl no_thread ↦ rw (next, no_thread) s
  | inr (t, there) ↦
      let k =
        move-Keeps sz w.queue s.size s.enq_in s.deq_in t m
          (at-All (IsInside sz) w.threads i t s.inside there) in
      let t' = (move w.queue t m).1 in
      rw (next, there)
        (record {
          size = k.size ∙ s.size;
          storage = k.storage ∙ s.storage;
          enq_in = k.enq_in;
          deq_in = k.deq_in;
          inside = set-All (IsInside sz) w.threads i t' s.inside k.inside;
          balance = omega (arith, k.balance, s.balance, sum_of-set weight w.threads i t t' there);
        })
]

-- Where all indices lie in the array, and the free cells, the jobs that the semaphore counts and the
-- threads that have taken one of these without giving it on are as many as the cells, this stays so in
-- every interleaving of threads that enqueue and dequeue, of any length and also with signals.
pub run-IsSound :
    (sz : ℕ) (moves : List (ℕ × Move)) (w : World) → IsSound sz w → IsSound sz (run moves w)
unfolding run
run-IsSound sz [] w s = s
run-IsSound sz (m ∷ moves) w s = run-IsSound sz moves (next w m) (next-IsSound sz w m s)
