-- ===== src/JobQueue/Lossless.antt =====
-- The job queue of threadpool.c with atomics never stores a job over another one while only one thread
-- dequeues.
use poser.Prelude.{
  ℕ, zero, suc, ◌<◌, ◌≡◌, ◌≢◌, refl, sym, ap, subst, ◌∙◌, ◌⊎◌, inl, inr, List, [], ◌∷◌, Option,
  none, some, true, false, get_or, get_elem?, set, All, replicate, length-replicate,
  get_or-replicate, Option-cases, arith,
}
use poser.JobQueue.{Job, JobQueue, create}
use poser.JobQueue.Atomic.{
  Thread, idle, stores, Move, enqueues, dequeues, goes, interrupts, move, World, next, run,
}
use poser.JobQueue.Sound.{IsInside, sum_of, weight, next-IsSound}
use poser.JobQueue.Ring.{eq-or-ne}
use poser.JobQueue.Claims.{claim, takes, is_dequeuing, stores_to, step_others}
use poser.JobQueue.Counts.{get_elem?-set_self, get_elem?-set_ne}
use poser.JobQueue.Calm.{IsCalm, move-Ring}

-- Only the thread `c` begins to dequeue.
abbrev pub IsBy : ℕ → ℕ × Move → Type 0
IsBy c (i, dequeues) = i ≡ c
IsBy c (i, _) = Unit

move_others :
    (q : JobQueue) (t : Thread) (c i : ℕ) (m : Move)
    → i ≢ c
    → IsBy c (i, m)
    → is_dequeuing t ≡ false
    → is_dequeuing (move q t m).1 ≡ false
unfolding move
move_others q t c i goes other b h = step_others q t h
move_others q t c i (enqueues job) other b h = ground arith
move_others q t c i dequeues other b h = absurd (other b)
move_others q t c i interrupts other b h = ground arith

next-IsCalm :
    (sz c : ℕ) (w : World) (m : ℕ × Move) → IsBy c m → IsCalm sz c w → IsCalm sz c (next w m)
unfolding next
next-IsCalm sz c w (i, m) by_c calm = elim (Option-cases (get_elem? w.threads i)) [
  | inl no_thread ↦ rw (next, no_thread) calm
  | inr (t, there) ↦
      let t' : Thread = (move w.queue t m).1 in
      let sound = next-IsSound sz w (i, m) calm.sound in
      rw (next, there)
        (record {
          sound = rw (next, there) at sound;
          others = λ j u here other. elim (eq-or-ne j i) [
            | inr apart ↦
                calm.others j u (sym (get_elem?-set_ne w.threads i j t' apart) ∙ here) other
            | inl this ↦
                let found : some t' ≡ some u =
                  sym (get_elem?-set_self w.threads i t t' there)
                  ∙ ap (get_elem? (set w.threads i t')) (sym this)
                  ∙ here in
                let same : t' ≡ u = cc in
                let not_c : i ≢ c = λ e. other (this ∙ e) in
                rw (← same) (move_others w.queue t c i m not_c by_c (calm.others i t there not_c))
          ];
          ring = move-Ring sz c w calm i t m there;
        })
]

run-IsCalm :
    (sz c : ℕ) (moves : List (ℕ × Move)) (w : World)
    → All (IsBy c) moves
    → IsCalm sz c w
    → IsCalm sz c (run moves w)
unfolding run
run-IsCalm sz c [] w a calm = calm
run-IsCalm sz c (m ∷ moves) w (b, a) calm =
    run-IsCalm sz c moves (next w m) a (next-IsCalm sz c w m b calm)

-- a new queue, and threads that have not used it
abbrev pub new_world : JobQueue → ℕ → World
new_world q n = record { queue = q; threads = replicate n idle; started = [] }

idle_thread : (n i : ℕ) (t : Thread) → get_elem? (replicate n idle) i ≡ some t → t ≡ idle
idle_thread zero i t h = absurd (cc)
idle_thread (suc n) zero t h = cc
idle_thread (suc n) (suc i) t h = idle_thread n i t h

sum_of_idle : (f : Thread → ℕ) (n : ℕ) → f idle ≡ 0 → sum_of f (replicate n idle) ≡ 0
sum_of_idle f zero h = refl
sum_of_idle f (suc n) h = omega (arith, h, sum_of_idle f n h)

idle-IsInside : (sz n : ℕ) → All (IsInside sz) (replicate n idle)
idle-IsInside sz zero = tt
idle-IsInside sz (suc n) = (tt, idle-IsInside sz n)

idle_option :
    (n i : ℕ)
    → (get_elem? (replicate n idle) i ≡ none) ⊎ (get_elem? (replicate n idle) i ≡ some idle)
idle_option zero i = inl refl
idle_option (suc n) zero = inr refl
idle_option (suc n) (suc i) = idle_option n i

idle_quiet :
    (n i : ℕ)
    → (takes (get_elem? (replicate n idle) i) ≡ none)
      × (stores_to (get_elem? (replicate n idle) i) ≡ none)
idle_quiet n i = elim (idle_option n i) [
  | inl out ↦ (ap takes out, ap stores_to out)
  | inr there ↦ (ap takes there, ap stores_to there)
]

abbrev new_queue : ℕ → JobQueue
new_queue sz = record {
  sz = sz;
  avail = sz;
  enqpos = 0;
  deqpos = 0;
  count = 0;
  jobs = replicate sz none;
}

new_queue-IsCalm : (sz c n : ℕ) → 0 < sz → IsCalm sz c (new_world (new_queue sz) n)
new_queue-IsCalm sz c n h = record {
  sound = record {
    size = refl;
    storage = length-replicate sz none;
    enq_in = h;
    deq_in = h;
    inside = idle-IsInside sz n;
    balance = omega (arith, sum_of_idle weight n refl);
  };
  others = λ i t there other. rw (idle_thread n i t there) refl;
  ring = record {
    enq_at = let none_yet = sum_of_idle claim n refl in ground arith;
    behind = λ p e. let (quiet, _) = idle_quiet n c in absurd (cc);
    filled =
        λ pos job there. let quiet = get_or-replicate {A = Option Job} sz pos none in absurd (cc);
    claims = λ i pos e. let (_, quiet) = idle_quiet n i in absurd (cc);
    apart = λ i j pos e e'. let (_, quiet) = idle_quiet n i in absurd (cc);
  };
}

new_world-IsCalm :
    (sz c n : ℕ) (q : JobQueue) → 0 < sz → create sz true ≡ some q → IsCalm sz c (new_world q n)
unfolding create
new_world-IsCalm sz c n q h made =
    let this : new_queue sz ≡ q = cc in
    subst (λ q. IsCalm sz c (new_world q n)) this (new_queue-IsCalm sz c n h)

-- From a new queue on, in every interleaving in which only one thread dequeues, a thread that is about to
-- store a job stores it into a cell of the array that is empty.
pub run-stores :
    (sz c n : ℕ) (q : JobQueue) (moves : List (ℕ × Move))
    → 0 < sz
    → create sz true ≡ some q
    → All (IsBy c) moves
    → (i pos : ℕ) (job : Job)
    → get_elem? (run moves (new_world q n)).threads i ≡ some (stores job pos)
    → (pos < sz) × (get_or (run moves (new_world q n)).queue.jobs pos none ≡ none)
run-stores sz c n q moves h made a i pos job there =
    let calm = run-IsCalm sz c moves (new_world q n) a (new_world-IsCalm sz c n q h made) in
    let (inside, _, empty) = calm.ring.claims i pos (ap stores_to there) in (inside, empty)
