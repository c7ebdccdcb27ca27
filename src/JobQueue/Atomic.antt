-- ===== src/JobQueue/Atomic.antt =====
-- The job queue of threadpool.c with atomics: threads that enqueue and dequeue jobs, of which each step
-- is one access of an atomic variable or of the semaphore.
use poser.Prelude.{
  ℕ, ◌+◌, ◌-◌, List, [], ◌∷◌, Option, none, some, Bool, true, false, ◌==◌, if◌then◌else◌, get_or,
  set, get_elem?,
}
use poser.Queue.{advance}
use poser.JobQueue.{Job, JobQueue}

-- what a thread does next: it rests, or is in `JobQueue_enqueue` or `JobQueue_dequeue`
pub data Thread : Type 0 where
  idle : Thread
  reads_avail : Job → Thread
  cas_avail : Job → ℕ → Thread
  reads_enqpos : Job → Thread
  cas_enqpos : Job → ℕ → Thread
  stores : Job → ℕ → Thread
  posts : Job → Thread
  enqueued : Job → Thread
  refused : Job → Thread
  waits : Thread
  reads_deqpos : Thread
  cas_deqpos : ℕ → Thread
  exchanges : ℕ → Thread
  adds_avail : Job → Thread
  dequeued : Job → Thread

-- the next step of a thread, with the timer that it starts
unfoldable pub step : JobQueue → Thread → JobQueue × Thread × Option ℕ
step q idle = (q, idle, none)
step q (reads_avail job) = (q, cas_avail job q.avail, none)
step q (cas_avail job avail) =
    if avail == 0
    then (q, refused job, none)
    else if q.avail == avail
    then (record q { avail = avail - 1 }, reads_enqpos job, job.timeout)
    else (q, cas_avail job q.avail, none)
step q (reads_enqpos job) = (q, cas_enqpos job q.enqpos, none)
step q (cas_enqpos job enqpos) =
    if q.enqpos == enqpos
    then (record q { enqpos = advance q.sz enqpos }, stores job enqpos, none)
    else (q, cas_enqpos job q.enqpos, none)
step q (stores job pos) = (record q { jobs = set q.jobs pos (some job) }, posts job, none)
step q (posts job) = (record q { count = q.count + 1 }, enqueued job, none)
step q (enqueued job) = (q, enqueued job, none)
step q (refused job) = (q, refused job, none)
step q waits =
    if q.count == 0
    then (q, waits, none)
    else (record q { count = q.count - 1 }, reads_deqpos, none)
step q reads_deqpos = (q, cas_deqpos q.deqpos, none)
step q (cas_deqpos deqpos) =
    if q.deqpos == deqpos
    then (record q { deqpos = advance q.sz deqpos }, exchanges deqpos, none)
    else (q, cas_deqpos q.deqpos, none)
step q (exchanges pos) = elim (get_or q.jobs pos none) [
  | none ↦ (q, exchanges pos, none)
  | some job ↦ (record q { jobs = set q.jobs pos none }, adds_avail job, none)
]
step q (adds_avail job) = (record q { avail = q.avail + 1 }, dequeued job, none)
step q (dequeued job) = (q, dequeued job, none)

-- a thread that is in neither function
abbrev pub is_resting : Thread → Bool
is_resting idle = true
is_resting (enqueued job) = true
is_resting (refused job) = true
is_resting (dequeued job) = true
is_resting _ = false

abbrev pub is_waiting : Thread → Bool
is_waiting waits = true
is_waiting _ = false

-- a thread at rest calls a function, a thread takes its next step, or a signal ends its `sem_wait`
pub data Move : Type 0 where
  enqueues : Job → Move
  dequeues : Move
  goes : Move
  interrupts : Move

unfoldable pub move : JobQueue → Thread → Move → JobQueue × Thread × Option ℕ
move q thread (enqueues job) = (q, (if is_resting thread then reads_avail job else thread), none)
move q thread dequeues = (q, (if is_resting thread then waits else thread), none)
move q thread goes = step q thread
move q thread interrupts = (q, (if is_waiting thread then idle else thread), none)

-- the queue, the threads that use it, and the timers started so far
pub record World : Type 0 where
  pub queue : JobQueue
  pub threads : List Thread
  pub started : List ℕ

abbrev pub start : Option ℕ → List ℕ → List ℕ
start none timers = timers
start (some timer) timers = timer ∷ timers

-- a move of one of the threads
unfoldable pub next : World → ℕ × Move → World
next w (i, m) = elim (get_elem? w.threads i) [
  | none ↦ w
  | some thread ↦
      let (q, thread', timer) = move w.queue thread m in
      record { queue = q; threads = set w.threads i thread'; started = start timer w.started }
]

-- the moves of an interleaving, one after the other
unfoldable pub run : List (ℕ × Move) → World → World
run [] w = w
run (m ∷ moves) w = run moves (next w m)
