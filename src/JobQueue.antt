-- ===== src/JobQueue.antt =====
-- src/lib/core/threadpool.c: the queue of the jobs that wait for a worker thread. A job is its address
-- with its timeout; the rest of a job is for the worker that takes it. The cells of a new queue hold no
-- job; without atomics nothing has been written to them.
pub mod Locked
pub mod Atomic
pub mod Refine
pub mod Alone
pub mod Sound
pub mod Ring
pub mod Counts
pub mod Claims
pub mod Calm
pub mod Lossless
mod Runs
use poser.Prelude.{ℕ, ◌+◌, List, Option, none, some, ◌==◌, if◌then◌else◌, Bool, replicate}

-- PSC_ThreadJob
pub record Job : Type 0 where
  pub address : ℕ
  pub timeout : Option ℕ

pub record JobQueue : Type 0 where
  pub sz : ℕ
  pub avail : ℕ
  pub enqpos : ℕ
  pub deqpos : ℕ
  pub count : ℕ
  pub jobs : List (Option Job)

-- `JobQueue_create`, with whether the semaphore, and the lock, can be initialised
unfoldable pub create : ℕ → Bool → Option JobQueue
create sz works =
    if works
    then some (record {
      sz = sz;
      avail = sz;
      enqpos = 0;
      deqpos = 0;
      count = 0;
      jobs = replicate sz none;
    })
    else none
