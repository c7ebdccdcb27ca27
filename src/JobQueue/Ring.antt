-- ===== src/JobQueue/Ring.antt =====
-- The cells of the job queue of threadpool.c while one thread takes jobs out: those from `deq` on are
-- claimed, `n` of them, and one before them may be claimed by the thread that takes its job.
use poser.Prelude.{
  ℕ, ◌+◌, ◌-◌, ◌≤◌, ◌<◌, ◌≡◌, ◌≢◌, refl, sym, ap, subst, ◌∙◌, ◌⊎◌, inl, inr, List, Option, none,
  some, leb, ltb, ◌==◌, if◌then◌else◌, length, get_or, set, get_or-set_self, get_or-set_ne,
  get_or-beyond, Bool-cases, Option-cases, ==→eq, ltb→lt, ltb→le, arith,
}
use poser.Queue.{advance}
use poser.Queue.Positions.{slot, slot-advance, advance-slot}
use poser.JobQueue.{Job}

pub eq-or-ne : (i j : ℕ) → (i ≡ j) ⊎ (i ≢ j)
eq-or-ne i j = elim (Bool-cases (i == j)) [
  | inl same ↦ inl (==→eq i j same)
  | inr other ↦ inr (ground arith)
]

-- how far a cell lies behind another, going round
abbrev pub distance : ℕ → ℕ → ℕ → ℕ
distance sz deq pos = if leb deq pos then pos - deq else pos + sz - deq

abbrev pub IsClaimed : ℕ → ℕ → ℕ → Option ℕ → ℕ → Type 0
IsClaimed sz deq n taking pos = (distance sz deq pos < n) ⊎ (taking ≡ some pos)

-- Only claimed cells have jobs. A thread that stores a job has an empty claimed cell of its own, and the
-- cell that the taking thread has stands before the others.
pub record Ring (sz deq enq n : ℕ) (taking : Option ℕ) (jobs : List (Option Job))
    (storing : ℕ → Option ℕ) : Type 0 where
  pub enq_at : enq ≡ slot sz deq n
  pub behind : (p : ℕ) → taking ≡ some p → (p < sz) × (deq ≡ advance sz p)
  pub filled :
      (pos : ℕ) (job : Job) → get_or jobs pos none ≡ some job → IsClaimed sz deq n taking pos
  pub claims :
      (i pos : ℕ)
      → storing i ≡ some pos
      → (pos < sz) × IsClaimed sz deq n taking pos × (get_or jobs pos none ≡ none)
  pub apart : (i j pos : ℕ) → storing i ≡ some pos → storing j ≡ some pos → i ≡ j

some_eq : (p q : ℕ) → some p ≡ some q → p ≡ q
some_eq p q e = cc

full_empty :
    (jobs : List (Option Job)) (p q : ℕ) (job : Job)
    → get_or jobs p none ≡ some job
    → p ≡ q
    → get_or jobs q none ≡ none
    → ⊥
full_empty jobs p q job a e b =
    let bad : some job ≡ none = sym a ∙ ap (λ q. get_or jobs q none) e ∙ b in absurd (cc)

module _ {sz deq enq n : ℕ} {taking : Option ℕ} {jobs : List (Option Job)} {storing : ℕ → Option ℕ}
    (r : Ring sz deq enq n taking jobs storing) (storage : length jobs ≡ sz) (deq_in : deq < sz)
    (i : ℕ) (storing' : ℕ → Option ℕ) (same : (j : ℕ) → j ≢ i → storing' j ≡ storing j) where
  -- The next cell to claim is not claimed.
  fresh : n < sz → ((p : ℕ) → taking ≡ some p → n + 1 < sz) → IsClaimed sz deq n taking enq → ⊥
  fresh h k (inl near) = let e = r.enq_at in ground arith
  fresh h k (inr held) =
      let e = r.enq_at in let (l, b) = r.behind enq held in let m = k enq held in ground arith

  -- What the other threads store.
  old : (j pos : ℕ) → j ≢ i → storing' j ≡ some pos → storing j ≡ some pos
  old j pos other h = sym (same j other) ∙ h

  -- Nothing changes for a thread that stores no job before and after.
  all_same : storing' i ≡ storing i → (j : ℕ) → storing' j ≡ storing j
  all_same quiet j = elim (eq-or-ne j i) [
    | inl here ↦ ap storing' here ∙ quiet ∙ ap storing (sym here)
    | inr other ↦ same j other
  ]

  quiet_apart :
      storing' i ≡ storing i → (j k pos : ℕ) → storing' j ≡ some pos → storing' k ≡ some pos → j ≡ k
  quiet_apart quiet j k pos a b =
      r.apart j k pos (sym (all_same quiet j) ∙ a) (sym (all_same quiet k) ∙ b)

  more : (pos : ℕ) → IsClaimed sz deq n taking pos → IsClaimed sz deq (n + 1) taking pos
  more pos (inl near) = inl (omega arith)
  more pos (inr held) = inr held

  pub claim-Ring :
      n < sz
      → ((p : ℕ) → taking ≡ some p → n + 1 < sz)
      → storing' i ≡ some enq
      → Ring sz deq (advance sz enq) (n + 1) taking jobs storing'
  claim-Ring h k new =
      let at : ℕ = enq in
      let e = r.enq_at in
      let inside : enq < sz = ground arith in
      let not_yet = fresh h k in
      let near : distance sz deq enq < n + 1 = ground arith in
      let empty : get_or jobs enq none ≡ none = elim (Option-cases (get_or jobs enq none)) [
        | inl none_there ↦ none_there
        | inr (job, there) ↦ absurd (not_yet (r.filled enq job there))
      ] in
      let alone : (j : ℕ) → storing j ≡ some enq → ⊥ = λ j b. not_yet (r.claims j enq b).1 in
      record {
        enq_at = ap (advance sz) r.enq_at ∙ advance-slot sz deq n deq_in h;
        behind = r.behind;
        filled = λ pos job there. more pos (r.filled pos job there);
        claims = λ j pos b. elim (eq-or-ne j i) [
          | inl here ↦
              let b' : storing' i ≡ some pos = ap storing' (sym here) ∙ b in
              let this : enq ≡ pos = cc in rw (← this) (inside, inl near, empty)
          | inr other ↦
              let (l, c, none_there) = r.claims j pos (old j pos other b) in
              (l, more pos c, none_there)
        ];
        apart = λ j m pos b b'. elim (eq-or-ne j i) [
          | inl here ↦ elim (eq-or-ne m i) [
            | inl here' ↦ here ∙ sym here'
            | inr other' ↦
                let mine : storing' i ≡ some pos = ap storing' (sym here) ∙ b in
                let this : pos ≡ enq = cc in absurd (alone m (old m pos other' b' ∙ ap some this))
          ]
          | inr other ↦ elim (eq-or-ne m i) [
            | inl here' ↦
                let mine : storing' i ≡ some pos = ap storing' (sym here') ∙ b' in
                let this : pos ≡ enq = cc in absurd (alone j (old j pos other b ∙ ap some this))
            | inr other' ↦ r.apart j m pos (old j pos other b) (old m pos other' b')
          ]
        ];
      }

  pub store-Ring :
      (pos : ℕ) (job : Job)
      → storing i ≡ some pos
      → storing' i ≡ none
      → Ring sz deq enq n taking (set jobs pos (some job)) storing'
  store-Ring pos job mine gone =
      let (l, c, none_there) = r.claims i pos mine in
      record {
        enq_at = r.enq_at;
        behind = r.behind;
        filled = λ q job' there. elim (eq-or-ne pos q) [
          | inl here ↦ rw (← here) c
          | inr other ↦
              r.filled q job' (sym (get_or-set_ne jobs pos q (some job) none other) ∙ there)
        ];
        claims = λ j q b. elim (eq-or-ne j i) [
          | inl here ↦ let bad : storing' i ≡ some q = ap storing' (sym here) ∙ b in absurd (cc)
          | inr other ↦
              let (l', c', none_yet) = r.claims j q (old j q other b) in
              let apart : pos ≢ q =
                λ e. other (r.apart j i pos (old j q other b ∙ ap some (sym e)) mine) in
              (l', c', get_or-set_ne jobs pos q (some job) none apart ∙ none_yet)
        ];
        apart = λ j m q b b'. elim (eq-or-ne j i) [
          | inl here ↦ let bad : storing' i ≡ some q = ap storing' (sym here) ∙ b in absurd (cc)
          | inr other ↦ elim (eq-or-ne m i) [
            | inl here' ↦
                let bad : storing' i ≡ some q = ap storing' (sym here') ∙ b' in absurd (cc)
            | inr other' ↦ r.apart j m q (old j q other b) (old m q other' b')
          ]
        ];
      }

  below : (pos : ℕ) (job : Job) → get_or jobs pos none ≡ some job → pos < sz
  below pos job there = elim (Bool-cases (ltb pos sz)) [
    | inl inside ↦ ltb→lt pos sz inside
    | inr outside ↦
        let nothing = get_or-beyond jobs pos none (omega (arith, ltb→le pos sz outside)) in
        absurd (cc)
  ]

  pub take-Ring :
      0 < n
      → n ≤ sz
      → taking ≡ none
      → storing' i ≡ storing i
      → Ring sz (advance sz deq) enq (n - 1) (some deq) jobs storing'
  take-Ring h k free quiet =
      let nearer : (pos : ℕ)
          → pos < sz
          → IsClaimed sz deq n taking pos
          → IsClaimed sz (advance sz deq) (n - 1) (some deq) pos =
        λ pos l c. elim c [
          | inr held ↦ absurd (cc)
          | inl near ↦ elim (eq-or-ne deq pos) [
            | inl here ↦ inr (ap some here)
            | inr other ↦ inl (ground arith)
          ]
        ] in
      record {
        enq_at =
            r.enq_at
            ∙ ap (slot sz deq) (omega arith)
            ∙ sym (slot-advance sz deq (n - 1) deq_in (omega arith));
        behind = λ p e. let this : deq ≡ p = cc in rw (← this) (deq_in, refl);
        filled = λ pos job there. nearer pos (below pos job there) (r.filled pos job there);
        claims = λ j pos b.
            let (l, c, none_there) = r.claims j pos (sym (all_same quiet j) ∙ b) in
            (l, nearer pos l c, none_there);
        apart = quiet_apart quiet;
      }

  pub clear-Ring :
      (p : ℕ) (job : Job)
      → taking ≡ some p
      → get_or jobs p none ≡ some job
      → storing' i ≡ storing i
      → Ring sz deq enq n none (set jobs p none) storing'
  clear-Ring p job held there quiet =
      let inside : p < length jobs = omega (arith, below p job there) in
      let without : (pos : ℕ)
          → p ≢ pos
          → IsClaimed sz deq n taking pos
          → IsClaimed sz deq n none pos =
        λ pos other c. elim c [
          | inl near ↦ inl near
          | inr held' ↦ absurd (other (some_eq p pos (sym held ∙ held')))
        ] in
      record {
        enq_at = r.enq_at;
        behind = λ q e. absurd (cc);
        filled = λ pos job' there'. elim (eq-or-ne p pos) [
          | inl here ↦
              let bad : get_or (set jobs p none) p none ≡ some job' =
                ap (λ q. get_or (set jobs p none) q none) here ∙ there' in
              let cleared = get_or-set_self jobs p none none inside in absurd (cc)
          | inr other ↦
              without pos other
                (r.filled pos job' (sym (get_or-set_ne jobs p pos none none other) ∙ there'))
        ];
        claims = λ j pos b.
            let (l, c, none_there) = r.claims j pos (sym (all_same quiet j) ∙ b) in
            let other : p ≢ pos = λ e. full_empty jobs p pos job there e none_there in
            (l, without pos other c, get_or-set_ne jobs p pos none none other ∙ none_there);
        apart = quiet_apart quiet;
      }

  pub quiet-Ring : storing' i ≡ storing i → Ring sz deq enq n taking jobs storing'
  quiet-Ring quiet = record {
    enq_at = r.enq_at;
    behind = r.behind;
    filled = r.filled;
    claims = λ j pos b. r.claims j pos (sym (all_same quiet j) ∙ b);
    apart = quiet_apart quiet;
  }

pub moved :
    {sz deq enq n n' : ℕ} {taking taking' : Option ℕ} {jobs : List (Option Job)}
    {storing : ℕ → Option ℕ}
    → n ≡ n'
    → taking ≡ taking'
    → Ring sz deq enq n taking jobs storing
    → Ring sz deq enq n' taking' jobs storing
moved {sz} {deq} {enq} {n} {n'} {taking} {taking'} {jobs} {storing} e f r =
    subst (λ t. Ring sz deq enq n' t jobs storing) f
      (subst (λ m. Ring sz deq enq m taking jobs storing) e r)
