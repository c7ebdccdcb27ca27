-- ===== src/JobQueue/Refine.antt =====
-- The job queue of threadpool.c under its lock is a first-in first-out list of bounded length.
use poser.Prelude.{
  ℕ, suc, ◌+◌, ◌-◌, ◌<◌, ◌≡◌, refl, sym, ap, ap₂, ◌∙◌, inl, inr, List, [], ◌∷◌, ◌++◌, Option, none,
  some, Bool, true, false, map, map-append, ◌==◌, length, get_or, set, length-set, length-append,
  length-replicate, get_or-set_self, Bool-cases, arith,
}
use poser.Queue.{advance}
use poser.Queue.Positions.{
  slot, slot-advance, slot-lt, advance-slot, window, window_snoc, window-set, window-set_before,
}
use poser.JobQueue.{Job, JobQueue, create}
use poser.JobQueue.Locked.{enqueue, Dequeued, returns, interrupted, blocks, dequeue}

-- The queue holds these jobs, the one that comes out first in front.
pub record Models (js : List Job) (q : JobQueue) : Type 0 where
  pub room : 0 < q.sz
  pub storage : length q.jobs ≡ q.sz
  pub fits : q.avail + length js ≡ q.sz
  pub counted : q.count ≡ length js
  pub deq_in : q.deqpos < q.sz
  pub enq_at : q.enqpos ≡ slot q.sz q.deqpos (length js)
  pub holds : window q.jobs q.sz q.deqpos (length js) ≡ map some js

pub create-Models : (sz : ℕ) → 0 < sz → (q : JobQueue) × (create sz true ≡ some q) × Models [] q
unfolding create
create-Models sz h = (
  _,
  refl,
  record {
    room = h;
    storage = length-replicate sz none;
    fits = omega arith;
    counted = refl;
    deq_in = h;
    enq_at = ground arith;
    holds = refl;
  },
)

-- A job put into the next cell.
unfoldable pub put : JobQueue → Job → JobQueue
put q job = record q {
  avail = q.avail - 1;
  jobs = set q.jobs q.enqpos (some job);
  enqpos = advance q.sz q.enqpos;
  count = q.count + 1;
}

pub put-Models :
    (js : List Job) (q : JobQueue) (job : Job)
    → Models js q
    → 0 < q.avail
    → Models (js ++ job ∷ []) (put q job)
unfolding put
put-Models js q job m h =
    let cells = set q.jobs q.enqpos (some job) in
    let n : length (js ++ job ∷ []) ≡ suc (length js) =
      omega (arith, length-append js (job ∷ [])) in
    let small : length js < q.sz = omega (arith, m.fits) in
    let inside : q.enqpos < length q.jobs = omega (
      arith,
      m.storage,
      m.enq_at,
      slot-lt q.sz q.deqpos (length js) m.deq_in (omega (arith, m.fits)),
    ) in
    record {
      room = m.room;
      storage = length-set q.jobs q.enqpos (some job) ∙ m.storage;
      fits = omega (arith, m.fits);
      counted = omega (arith, m.counted);
      deq_in = m.deq_in;
      enq_at =
          ap (advance q.sz) m.enq_at
          ∙ advance-slot q.sz q.deqpos (length js) m.deq_in small
          ∙ ap (slot q.sz q.deqpos) (omega arith);
      holds =
          ap (window cells q.sz q.deqpos) n
          ∙ window_snoc cells q.sz q.deqpos (length js) m.deq_in small
          ∙ ap₂ (λ w e. w ++ e ∷ [])
              (rw (m.enq_at) (window-set q.jobs q.sz q.deqpos (length js) (some job) m.deq_in small)
                ∙ m.holds)
              (rw (← m.enq_at) (get_or-set_self q.jobs q.enqpos (some job) none inside))
          ∙ sym (map-append some js (job ∷ []));
    }

-- A job taken out of the first cell.
unfoldable pub taken : JobQueue → JobQueue
taken q = record q { count = q.count - 1; deqpos = advance q.sz q.deqpos; avail = q.avail + 1 }

module _ {j : Job} {js : List Job} {q : JobQueue} (m : Models (j ∷ js) q) where
  shown :
      get_or q.jobs q.deqpos none ∷ window q.jobs q.sz (advance q.sz q.deqpos) (length js)
      ≡ some j ∷ map some js
  shown = m.holds

  pub first : get_or q.jobs q.deqpos none ≡ some j
  first = let h = shown in cc

  rest : window q.jobs q.sz (advance q.sz q.deqpos) (length js) ≡ map some js
  rest = let h = shown in cc

  pub taken-Models : Models js (taken q)
  unfolding taken
  taken-Models = record {
    room = m.room;
    storage = m.storage;
    fits = omega (arith, m.fits);
    counted = omega (arith, m.counted);
    deq_in = let h = m.deq_in in ground arith;
    enq_at =
        m.enq_at
        ∙ ap (slot q.sz q.deqpos) (omega arith)
        ∙ sym (slot-advance q.sz q.deqpos (length js) m.deq_in (omega (arith, m.fits)));
    holds = rest;
  }

  -- The same with the cell emptied.
  pub cleared-Models : Models js (record (taken q) { jobs = set q.jobs q.deqpos none })
  unfolding taken
  cleared-Models =
      let t = taken-Models in
      record {
        room = t.room;
        storage = length-set q.jobs q.deqpos none ∙ t.storage;
        fits = t.fits;
        counted = t.counted;
        deq_in = t.deq_in;
        enq_at = t.enq_at;
        holds =
            window-set_before q.jobs q.sz q.deqpos (length js) none m.deq_in (omega (arith, m.fits))
            ∙ rest;
      }

-- what `JobQueue_enqueue` may do to a queue that holds these jobs
abbrev pub Enqueues : List Job → JobQueue → Job → Option (JobQueue × Option ℕ) → Type 0
Enqueues js q job none = length js ≡ q.sz
Enqueues js q job (some (q', timer)) =
    Models (js ++ job ∷ []) q' × (q'.sz ≡ q.sz) × (timer ≡ job.timeout)

-- what `JobQueue_dequeue` may do to one, with whether there is a signal
abbrev pub Dequeues : Bool → List Job → JobQueue → Dequeued → Type 0
Dequeues signal js q interrupted = signal ≡ true
Dequeues signal js q blocks = js ≡ []
Dequeues signal [] q (returns job q') = ⊥
Dequeues signal (j ∷ js) q (returns job q') = (job ≡ some j) × Models js q' × (q'.sz ≡ q.sz)

-- On a queue that holds these jobs, `JobQueue_enqueue` puts the job behind all others and starts its
-- timer, or answers -1 if there are as many jobs as the queue has cells.
pub enqueue-Enqueues :
    (js : List Job) (q : JobQueue) (job : Job) → Models js q → Enqueues js q job (enqueue q job)
unfolding enqueue
enqueue-Enqueues js q job m = elim (Bool-cases (q.avail == 0)) [
  | inl full ↦ rw (Enqueues, enqueue, full) (ground (arith, m.fits))
  | inr some_left ↦
      rw (Enqueues, enqueue, some_left)
        (unfold put in put-Models js q job m (ground arith), refl, refl)
]

-- On a queue that holds these jobs, `JobQueue_dequeue` returns the first of them and leaves the others,
-- waits only if there is none, and returns the null pointer only for a signal.
pub dequeue-Dequeues :
    (signal : Bool) (js : List Job) (q : JobQueue)
    → Models js q
    → Dequeues signal js q (dequeue signal q)
unfolding dequeue
dequeue-Dequeues true js q m = refl
dequeue-Dequeues false [] q m =
    let empty : (q.count == 0) ≡ true = ground (arith, m.counted) in
    rw (Dequeues, dequeue, empty) refl
dequeue-Dequeues false (j ∷ js) q m =
    let some_left : (q.count == 0) ≡ false = ground (arith, m.counted) in
    rw (Dequeues, dequeue, some_left) (first m, unfold taken in taken-Models m, refl)
