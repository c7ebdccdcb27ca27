-- ===== src/JobQueue/Runs.antt =====
-- Runs of the job queue of threadpool.c.
use poser.Prelude.{
  ℕ, ◌≡◌, refl, List, [], ◌∷◌, ◌++◌, none, some, false, replicate, arith, true, ◌<◌, get_elem?,
  get_or,
}
use poser.JobQueue.{Job, JobQueue, create}
use poser.JobQueue.Locked.{enqueue, dequeue}
use poser.JobQueue.Atomic.{
  idle, reads_avail, stores, enqueued, waits, exchanges, dequeued, step, Move, enqueues, dequeues,
  goes, move, World, next, run,
}
use poser.JobQueue.Refine.{Models, Enqueues, enqueue-Enqueues, Dequeues, dequeue-Dequeues}
use poser.JobQueue.Alone.{one_thread, after_enqueue, enqueue_alone, dequeue_alone-Models}
use poser.JobQueue.Lossless.{new_world, run-stores}
use poser.JobQueue.Sound.{IsSound, run-IsSound}

abbrev job_1 : Job
job_1 = record { address = 1; timeout = none }

abbrev job_2 : Job
job_2 = record { address = 2; timeout = some 7 }

abbrev job_3 : Job
job_3 = record { address = 3; timeout = none }

abbrev empty_2 : JobQueue
empty_2 = record { sz = 2; avail = 2; enqpos = 0; deqpos = 0; count = 0; jobs = none ∷ none ∷ [] }

abbrev one_2 : JobQueue
one_2 = record {
  sz = 2;
  avail = 1;
  enqpos = 1;
  deqpos = 0;
  count = 1;
  jobs = some job_1 ∷ none ∷ [];
}

one_2-Models : Models (job_1 ∷ []) one_2
one_2-Models = record {
  room = omega arith;
  storage = refl;
  fits = refl;
  counted = refl;
  deq_in = omega arith;
  enq_at = refl;
  holds = refl;
}

enqueue-Enqueues_example : Enqueues (job_1 ∷ []) one_2 job_2 (enqueue one_2 job_2)
enqueue-Enqueues_example = enqueue-Enqueues (job_1 ∷ []) one_2 job_2 one_2-Models

dequeue-Dequeues_example : Dequeues false (job_1 ∷ []) one_2 (dequeue false one_2)
dequeue-Dequeues_example = dequeue-Dequeues false (job_1 ∷ []) one_2 one_2-Models

enqueue_alone_example :
    run (replicate 6 (0, goes)) (one_thread one_2 (reads_avail job_2) [])
    ≡ after_enqueue one_2 job_2 (enqueue one_2 job_2)
enqueue_alone_example = enqueue_alone one_2 job_2

dequeue_alone-Models_example :
    (q' : JobQueue) × (run (replicate 5 (0, goes)) (one_thread one_2 waits [])
      ≡ one_thread q' (dequeued job_1) [])
    × Models [] q'
dequeue_alone-Models_example = dequeue_alone-Models (job_1 ∷ []) one_2 one_2-Models

-- a thread that enqueues, and two that dequeue
abbrev three_threads : World
three_threads = record { queue = empty_2; threads = idle ∷ idle ∷ idle ∷ []; started = [] }

three_threads-IsSound : IsSound 2 three_threads
three_threads-IsSound = record {
  size = refl;
  storage = refl;
  enq_in = omega arith;
  deq_in = omega arith;
  inside = (tt, (tt, (tt, tt)));
  balance = refl;
}

abbrev call : ℕ → Move → ℕ → List (ℕ × Move)
call i m n = (i, m) ∷ replicate n (i, goes)

-- A thread that has the index of the first cell is late. Another one dequeues the second job, which
-- makes room for a third: it goes into the first cell.
abbrev late : List (ℕ × Move)
late =
    call 0 (enqueues job_1) 6
    ++ call 0 (enqueues job_2) 6
    ++ call 1 dequeues 3
    ++ call 2 dequeues 5
    ++ call 0 (enqueues job_3) 6
    ++ replicate 2 (1, goes)
    ++ call 2 dequeues 9

-- All calls with the first job are over and no thread has got it.
lost_job : run late three_threads ≡ record {
  queue = record { sz = 2; avail = 1; enqpos = 1; deqpos = 1; count = 0; jobs = none ∷ none ∷ [] };
  threads = enqueued job_3 ∷ dequeued job_3 ∷ exchanges 0 ∷ [];
  started = 7 ∷ [];
}
unfolding run next move step
lost_job = refl

run-IsSound_example : IsSound 2 (run late three_threads)
run-IsSound_example = run-IsSound 2 late three_threads three_threads-IsSound

-- a call of `JobQueue_enqueue` up to where the job is stored
abbrev to_store : List (ℕ × Move)
to_store = call 0 (enqueues job_1) 4

stores_first : get_elem? (run to_store (new_world empty_2 3)).threads 0 ≡ some (stores job_1 0)
unfolding run next move step
stores_first = refl

create_2 : create 2 true ≡ some empty_2
unfolding create
create_2 = refl

run-stores_example :
    (0 < 2) × (get_or (run to_store (new_world empty_2 3)).queue.jobs 0 none ≡ none)
run-stores_example =
    run-stores 2 1 3 empty_2 to_store (omega arith) create_2 (tt, (tt, (tt, (tt, (tt, tt))))) 0 0
      job_1 stores_first
