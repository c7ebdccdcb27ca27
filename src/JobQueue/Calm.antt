-- ===== src/JobQueue/Calm.antt =====
-- The job queue of threadpool.c with atomics, while only one thread dequeues: no job is stored over
-- another one.
use poser.Prelude.{
  ℕ, ◌+◌, ◌-◌, ◌≤◌, ◌<◌, ◌≡◌, ◌≢◌, refl, sym, ap, ◌∙◌, inl, inr, List, Option, none, some, Bool,
  true, false, ◌==◌, if◌then◌else◌, get_or, get_elem?, set, Option-cases, ==→eq, arith,
}
use poser.Queue.{advance}
use poser.JobQueue.{Job, JobQueue}
use poser.JobQueue.Atomic.{
  Thread, idle, reads_avail, cas_avail, reads_enqpos, cas_enqpos, stores, posts, enqueued, refused,
  waits, reads_deqpos, cas_deqpos, exchanges, adds_avail, dequeued, step, is_resting, is_waiting,
  Move, enqueues, dequeues, goes, interrupts, move, World,
}
use poser.JobQueue.Sound.{or_right, sum_of, sum_of-set, IsSound}
use poser.JobQueue.Counts.{le-sum_of, le-sum_of_two, get_elem?-set_self, get_elem?-set_ne}
use poser.JobQueue.Ring.{
  Ring, eq-or-ne, claim-Ring, store-Ring, take-Ring, clear-Ring, quiet-Ring, moved,
}
use poser.JobQueue.Claims.{
  claim, held, takes, stores_to, is_dequeuing, sum-parts, takes-exchanges, cas_exchanges, claimless,
}

abbrev pub claimed : World → ℕ
claimed w = w.queue.count + sum_of claim w.threads

abbrev pub RingOf : ℕ → ℕ → JobQueue → List Thread → Type 0
RingOf sz c q ts =
    Ring sz q.deqpos q.enqpos (q.count + sum_of claim ts) (takes (get_elem? ts c)) q.jobs
      (λ i. stores_to (get_elem? ts i))

-- Only the thread `c` is in `JobQueue_dequeue`.
pub record IsCalm (sz c : ℕ) (w : World) : Type 0 where
  pub sound : IsSound sz w
  pub others :
      (i : ℕ) (t : Thread) → get_elem? w.threads i ≡ some t → i ≢ c → is_dequeuing t ≡ false
  pub ring : RingOf sz c w.queue w.threads

module _ (sz c : ℕ) (w : World) (calm : IsCalm sz c w) (i : ℕ) (t : Thread)
    (there : get_elem? w.threads i ≡ some t) where
  -- The cells that are claimed, and those that are held, are not more than all.
  room : claimed w + sum_of held w.threads ≤ sz
  room = omega (arith, calm.sound.balance, sum-parts w.threads)

  consumer : is_dequeuing t ≡ true → i ≡ c
  consumer h = elim (eq-or-ne i c) [
    | inl same ↦ same
    | inr other ↦ let no = calm.others i t there other in absurd (cc)
  ]

  module _ (t' : Thread) where
    ts' : List Thread
    ts' = set w.threads i t'

    same :
        (j : ℕ)
        → j ≢ i
        → stores_to (get_elem? (set w.threads i t') j) ≡ stores_to (get_elem? w.threads j)
    same j other = ap stores_to (get_elem?-set_ne w.threads i j t' other)

    mine : stores_to (get_elem? (set w.threads i t') i) ≡ stores_to (some t')
    mine = ap stores_to (get_elem?-set_self w.threads i t t' there)

    before : stores_to (get_elem? w.threads i) ≡ stores_to (some t)
    before = ap stores_to there

    counts : sum_of claim (set w.threads i t') + claim t ≡ sum_of claim w.threads + claim t'
    counts = sum_of-set claim w.threads i t t' there

    -- The consumer, if this is another thread or one that takes no job before and after.
    still :
        takes (some t') ≡ takes (some t)
        → takes (get_elem? w.threads c) ≡ takes (get_elem? (set w.threads i t') c)
    still h = elim (eq-or-ne c i) [
      | inr other ↦ sym (ap takes (get_elem?-set_ne w.threads i c t' other))
      | inl this ↦
          ap (λ j. takes (get_elem? w.threads j)) this
          ∙ ap takes there
          ∙ sym h
          ∙ sym (ap takes (get_elem?-set_self w.threads i t t' there))
          ∙ ap (λ j. takes (get_elem? (set w.threads i t') j)) (sym this)
    ]

    -- A move that changes no claim and no cell.
    quiet :
        (avail count : ℕ)
        → count + claim t' ≡ w.queue.count + claim t
        → stores_to (some t') ≡ stores_to (some t)
        → takes (some t') ≡ takes (some t)
        → RingOf sz c (record (w.queue) { avail = avail; count = count }) (set w.threads i t')
    quiet avail count n quiet_store quiet_take =
        let r =
          quiet-Ring calm.ring calm.sound.storage calm.sound.deq_in i
            (λ j. stores_to (get_elem? (set w.threads i t') j)) same
            (mine ∙ quiet_store ∙ sym before) in
        let n' : claimed w ≡ count + sum_of claim (set w.threads i t') = omega (arith, n, counts) in
        moved n' (still quiet_take) r

module _ (sz c : ℕ) (w : World) (calm : IsCalm sz c w) (i : ℕ) where
  -- the cells after a step
  RingAfter : JobQueue × Thread × Option ℕ → Type 0
  RingAfter (q', t', timer) = RingOf sz c q' (set w.threads i t')

  either :
      (b : Bool) (x y : JobQueue × Thread × Option ℕ)
      → (b ≡ true → RingAfter x)
      → (b ≡ false → RingAfter y)
      → RingAfter (if b then x else y)
  either true x y h k = h refl
  either false x y h k = k refl

  -- A step to a thread with the same claims.
  keeps :
      (t t' : Thread)
      → get_elem? w.threads i ≡ some t
      → claim t' ≡ claim t
      → stores_to (some t') ≡ stores_to (some t)
      → takes (some t') ≡ takes (some t)
      → RingOf sz c w.queue (set w.threads i t')
  keeps t t' h n st ta =
      quiet sz c w calm i t h t' w.queue.avail w.queue.count (omega (arith, n)) st ta

  -- What the consumer takes, if this is it.
  now :
      (t t' : Thread)
      → get_elem? w.threads i ≡ some t
      → i ≡ c
      → takes (some t') ≡ takes (get_elem? (set w.threads i t') c)
  now t t' h this =
      sym (ap takes (get_elem?-set_self w.threads i t t' h))
      ∙ ap (λ j. takes (get_elem? (set w.threads i t') j)) this

  enq-Ring :
      (job : Job)
      → get_elem? w.threads i ≡ some (cas_enqpos job w.queue.enqpos)
      → RingOf sz c
          (record (w.queue) { enqpos = advance w.queue.sz w.queue.enqpos })
          (set w.threads i (stores job w.queue.enqpos))
  enq-Ring job h =
      let t = cas_enqpos job w.queue.enqpos in
      let t' = stores job w.queue.enqpos in
      let l = room sz c w calm i t h in
      let one = le-sum_of held w.threads i t h in
      let two : (p : ℕ) → takes (get_elem? w.threads c) ≡ some p → claimed w + 1 < sz = λ p e.
        let taker = takes-exchanges (get_elem? w.threads c) p e in
        let apart : i ≢ c = λ e'. cas_exchanges w.threads i c job w.queue.enqpos p h taker e' in
        omega (arith, l, le-sum_of_two held w.threads i c t (exchanges p) apart h taker) in
      let r =
        claim-Ring calm.ring calm.sound.storage calm.sound.deq_in i
          (λ j. stores_to (get_elem? (set w.threads i t') j)) (same sz c w calm i t h t')
          (omega (arith, l, one)) two (mine sz c w calm i t h t') in
      rw calm.sound.size
        (moved (omega (arith, counts sz c w calm i t h t')) (still sz c w calm i t h t' refl) r)

  deq-Ring :
      get_elem? w.threads i ≡ some (cas_deqpos w.queue.deqpos)
      → RingOf sz c
          (record (w.queue) { deqpos = advance w.queue.sz w.queue.deqpos })
          (set w.threads i (exchanges w.queue.deqpos))
  deq-Ring h =
      let t = cas_deqpos w.queue.deqpos in
      let t' = exchanges w.queue.deqpos in
      let this : i ≡ c = consumer sz c w calm i t h refl in
      let l = room sz c w calm i t h in
      let one = le-sum_of claim w.threads i t h in
      let free : takes (get_elem? w.threads c) ≡ none =
        ap (λ j. takes (get_elem? w.threads j)) (sym this) ∙ ap takes h in
      let r =
        take-Ring calm.ring calm.sound.storage calm.sound.deq_in i
          (λ j. stores_to (get_elem? (set w.threads i t') j)) (same sz c w calm i t h t')
          (omega (arith, one)) (omega (arith, l)) free
          (mine sz c w calm i t h t' ∙ sym (before sz c w calm i t h t')) in
      rw calm.sound.size
        (moved (omega (arith, one, counts sz c w calm i t h t')) (now t t' h this) r)

  exchange-Ring :
      (pos : ℕ) (job : Job)
      → get_elem? w.threads i ≡ some (exchanges pos)
      → get_or w.queue.jobs pos none ≡ some job
      → RingOf sz c
          (record (w.queue) { jobs = set w.queue.jobs pos none })
          (set w.threads i (adds_avail job))
  exchange-Ring pos job h there =
      let t = exchanges pos in
      let t' = adds_avail job in
      let this : i ≡ c = consumer sz c w calm i t h refl in
      let taking : takes (get_elem? w.threads c) ≡ some pos =
        ap (λ j. takes (get_elem? w.threads j)) (sym this) ∙ ap takes h in
      let r =
        clear-Ring calm.ring calm.sound.storage calm.sound.deq_in i
          (λ j. stores_to (get_elem? (set w.threads i t') j)) (same sz c w calm i t h t') pos job
          taking there (mine sz c w calm i t h t' ∙ sym (before sz c w calm i t h t')) in
      moved (omega (arith, counts sz c w calm i t h t')) (now t t' h this) r

  stored-Ring :
      (pos : ℕ) (job : Job)
      → get_elem? w.threads i ≡ some (stores job pos)
      → RingOf sz c
          (record (w.queue) { jobs = set w.queue.jobs pos (some job) })
          (set w.threads i (posts job))
  stored-Ring pos job h =
      let t = stores job pos in
      let t' = posts job in
      let r =
        store-Ring calm.ring calm.sound.storage calm.sound.deq_in i
          (λ j. stores_to (get_elem? (set w.threads i t') j)) (same sz c w calm i t h t') pos job
          (before sz c w calm i t h t') (mine sz c w calm i t h t') in
      moved (omega (arith, counts sz c w calm i t h t')) (still sz c w calm i t h t' refl) r

  step-Ring : (t : Thread) → get_elem? w.threads i ≡ some t → RingAfter (step w.queue t)
  unfolding step RingAfter
  step-Ring idle h = keeps idle idle h refl refl refl
  step-Ring (reads_avail job) h =
      keeps (reads_avail job) (cas_avail job w.queue.avail) h refl refl refl
  step-Ring (cas_avail job avail) h =
      either (avail == 0) (w.queue, refused job, none) _
        (λ _. keeps (cas_avail job avail) (refused job) h refl refl refl)
        (λ _.
          either (w.queue.avail == avail)
            (record (w.queue) { avail = avail - 1 }, reads_enqpos job, job.timeout)
            (w.queue, cas_avail job w.queue.avail, none)
            (λ _. keeps (cas_avail job avail) (reads_enqpos job) h refl refl refl)
            (λ _. keeps (cas_avail job avail) (cas_avail job w.queue.avail) h refl refl refl))
  step-Ring (reads_enqpos job) h =
      keeps (reads_enqpos job) (cas_enqpos job w.queue.enqpos) h refl refl refl
  step-Ring (cas_enqpos job pos) h =
      either (w.queue.enqpos == pos)
        (record (w.queue) { enqpos = advance w.queue.sz pos }, stores job pos, none)
        (w.queue, cas_enqpos job w.queue.enqpos, none)
        (λ e.
          let this : w.queue.enqpos ≡ pos = ==→eq w.queue.enqpos pos e in
          rw (← this) (enq-Ring job (rw this h)))
        (λ _. keeps (cas_enqpos job pos) (cas_enqpos job w.queue.enqpos) h refl refl refl)
  step-Ring (stores job pos) h = stored-Ring pos job h
  step-Ring (posts job) h =
      quiet sz c w calm i (posts job) h (enqueued job) w.queue.avail (w.queue.count + 1)
        (omega arith) refl refl
  step-Ring (enqueued job) h = keeps (enqueued job) (enqueued job) h refl refl refl
  step-Ring (refused job) h = keeps (refused job) (refused job) h refl refl refl
  step-Ring waits h =
      either (w.queue.count == 0) (w.queue, waits, none)
        (record (w.queue) { count = w.queue.count - 1 }, reads_deqpos, none)
        (λ _. keeps waits waits h refl refl refl)
        (λ e.
          quiet sz c w calm i waits h reads_deqpos w.queue.avail (w.queue.count - 1) (ground arith)
            refl refl)
  step-Ring reads_deqpos h = keeps reads_deqpos (cas_deqpos w.queue.deqpos) h refl refl refl
  step-Ring (cas_deqpos pos) h =
      either (w.queue.deqpos == pos)
        (record (w.queue) { deqpos = advance w.queue.sz pos }, exchanges pos, none)
        (w.queue, cas_deqpos w.queue.deqpos, none)
        (λ e.
          let this : w.queue.deqpos ≡ pos = ==→eq w.queue.deqpos pos e in
          rw (← this) (deq-Ring (rw this h)))
        (λ _. keeps (cas_deqpos pos) (cas_deqpos w.queue.deqpos) h refl refl refl)
  step-Ring (exchanges pos) h = elim (Option-cases (get_or w.queue.jobs pos none)) [
    | inl none_yet ↦
        rw (RingAfter, step, none_yet) (keeps (exchanges pos) (exchanges pos) h refl refl refl)
    | inr (job, there) ↦ rw (RingAfter, step, there) (exchange-Ring pos job h there)
  ]
  step-Ring (adds_avail job) h = keeps (adds_avail job) (dequeued job) h refl refl refl
  step-Ring (dequeued job) h = keeps (dequeued job) (dequeued job) h refl refl refl

  -- A thread that may go elsewhere.
  switches :
      (b : Bool) (t u : Thread)
      → get_elem? w.threads i ≡ some t
      → (b ≡ true → (claim t ≡ 0) × (stores_to (some t) ≡ none) × (takes (some t) ≡ none))
      → claim u ≡ 0
      → stores_to (some u) ≡ none
      → takes (some u) ≡ none
      → RingOf sz c w.queue (set w.threads i (if b then u else t))
  switches true t u h free n st ta =
      let (n', st', ta') = free refl in keeps t u h (n ∙ sym n') (st ∙ sym st') (ta ∙ sym ta')
  switches false t u h free n st ta = keeps t t h refl refl refl

  pub move-Ring :
      (t : Thread) (m : Move)
      → get_elem? w.threads i ≡ some t
      → RingOf sz c (move w.queue t m).0 (set w.threads i (move w.queue t m).1)
  unfolding move RingAfter
  move-Ring t goes h = step-Ring t h
  move-Ring t (enqueues job) h =
      switches (is_resting t) t (reads_avail job) h (λ e. claimless t (rw e refl)) refl refl refl
  move-Ring t dequeues h =
      switches (is_resting t) t waits h (λ e. claimless t (rw e refl)) refl refl refl
  move-Ring t interrupts h =
      switches (is_waiting t) t idle h (λ e. claimless t (or_right (is_resting t) e)) refl refl refl
