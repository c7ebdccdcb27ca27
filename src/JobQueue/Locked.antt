-- ===== src/JobQueue/Locked.antt =====
-- The job queue of threadpool.c on a platform without atomics: each function is one step, under the
-- lock of the queue.
use poser.Prelude.{ℕ, ◌+◌, ◌-◌, Option, none, some, Bool, ◌==◌, if◌then◌else◌, get_or, set}
use poser.Queue.{advance}
use poser.JobQueue.{Job, JobQueue}

-- `JobQueue_enqueue`: nothing where it answers -1, and else the queue with the timer that it starts
unfoldable pub enqueue : JobQueue → Job → Option (JobQueue × Option ℕ)
enqueue q job =
    if q.avail == 0
    then none
    else some (
      record q {
        avail = q.avail - 1;
        jobs = set q.jobs q.enqpos (some job);
        enqpos = advance q.sz q.enqpos;
        count = q.count + 1;
      },
      job.timeout,
    )

-- what `JobQueue_dequeue` does: it returns a job, or the null pointer where a signal ends `sem_wait`,
-- or it waits
pub data Dequeued : Type 0 where
  returns : Option Job → JobQueue → Dequeued
  interrupted : Dequeued
  blocks : Dequeued

-- `JobQueue_dequeue`, with whether there is a signal
unfoldable pub dequeue : Bool → JobQueue → Dequeued
dequeue signal q =
    if signal
    then interrupted
    else if q.count == 0
    then blocks
    else returns (get_or q.jobs q.deqpos none)
        (record q { count = q.count - 1; deqpos = advance q.sz q.deqpos; avail = q.avail + 1 })
