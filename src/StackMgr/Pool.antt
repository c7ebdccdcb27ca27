-- ===== src/StackMgr/Pool.antt =====
-- The stacks that stackmgr.c keeps, as a list with the last one returned at its end.
use poser.Prelude.{
  ℕ, zero, suc, ◌+◌, ◌-◌, ◌≤◌, ◌<◌, ◌≡◌, refl, sym, ap, ap₂, ◌∙◌, inl, inr, List, [], ◌∷◌, ◌++◌,
  Option, none, some, true, ltb, ◌==◌, length, get_or, set, take, map, length-append, length-set,
  length-map, map-append, get_or-take_below, Bool-cases, ==→eq, ==→ne, arith,
}
use poser.Prelude.Memory.{malloc, realloc, length-realloc}
use poser.StackMgr.{block, StackMgr, stacks_chunk, cells_of, get_stack, return_stack}

-- The first cells hold these stacks.
pub record Models (s : StackMgr) (pool : List ℕ) : Type 0 where
  pub cells : List (Option ℕ)
  pub readable : cells_of s.stacks ≡ some cells
  pub capa : length cells ≡ s.cstacks
  pub count : s.nstacks ≡ length pool
  pub room : s.nstacks ≤ s.cstacks
  pub held : take s.nstacks cells ≡ map some pool

module _ {A : Type 0} where
  take-append : (xs ys : List A) (n : ℕ) → n ≤ length xs → take n (xs ++ ys) ≡ take n xs
  take-append xs ys zero h = refl
  take-append [] ys (suc n) h = absurd (omega arith)
  take-append (x ∷ xs) ys (suc n) h = ap (◌∷◌ x) (take-append xs ys n (omega arith))

  take-set :
      (xs : List A) (n : ℕ) (v : A)
      → n < length xs
      → take (suc n) (set xs n v) ≡ take n xs ++ v ∷ []
  take-set [] n v h = absurd (omega arith)
  take-set (x ∷ xs) zero v h = refl
  take-set (x ∷ xs) (suc n) v h = ap (◌∷◌ x) (take-set xs n v (omega arith))

  take-less :
      (xs : List A) (n m : ℕ) (ys zs : List A)
      → take n xs ≡ ys ++ zs
      → m ≡ length ys
      → take m xs ≡ ys
  take-less xs n zero [] zs h e = refl
  take-less xs n (suc m) [] zs h e = absurd (omega arith)
  take-less xs n zero (y ∷ ys) zs h e = absurd (omega arith)
  take-less xs zero (suc m) (y ∷ ys) zs h e = absurd (let l = ap length h in omega arith)
  take-less [] (suc n) (suc m) (y ∷ ys) zs h e = absurd (let l = ap length h in omega arith)
  take-less (x ∷ xs) (suc n) (suc m) (y ∷ ys) zs h e =
      ap₂ ◌∷◌ (cc) (take-less xs n m ys zs (cc) (omega arith))

grown :
    (s : StackMgr) (pool : List ℕ) (stack capa : ℕ) (cells : List (Option ℕ))
    → length cells ≡ capa
    → s.nstacks < capa
    → s.nstacks ≡ length pool
    → take s.nstacks cells ≡ map some pool
    → Models
        (record s {
          stacks = block (set cells s.nstacks (some stack));
          nstacks = s.nstacks + 1;
          cstacks = capa;
        })
        (pool ++ stack ∷ [])
grown s pool stack capa cells l room n held =
    let e : s.nstacks + 1 ≡ suc s.nstacks = omega arith in
    let more : List (Option ℕ) = set cells s.nstacks (some stack) in
    record {
      cells = more;
      readable = refl;
      capa = length-set cells s.nstacks (some stack) ∙ l;
      count = omega (arith, length-append pool (stack ∷ []));
      room = omega arith;
      held =
          ap (λ k. take k more) e
          ∙ take-set cells s.nstacks (some stack) (omega arith)
          ∙ ap (λ xs. xs ++ some stack ∷ []) held
          ∙ sym (map-append some pool (stack ∷ []));
    }

-- `StackMgr_returnStack` puts a stack behind those that are there.
return_stack-Models :
    {s : StackMgr} {pool : List ℕ} (stack : ℕ)
    → Models s pool
    → (s' : StackMgr) × (return_stack s (some stack) ≡ some s') × Models s' (pool ++ stack ∷ [])
unfolding return_stack
return_stack-Models {s} {pool} stack m =
    let n : ℕ = s.nstacks in
    elim (Bool-cases (n == s.cstacks)) [
      | inl full ↦
          let capa : ℕ = s.cstacks + stacks_chunk in
          let bigger : List (Option ℕ) = realloc m.cells capa in
          let l = length-realloc m.cells capa (omega (arith, m.capa)) in
          let at = ==→eq n s.cstacks full in
          (
            record s {
              stacks = block (set bigger n (some stack));
              nstacks = n + 1;
              cstacks = capa;
            },
            rw (return_stack, m.readable, full) refl,
            grown s pool stack capa bigger l (omega arith) m.count
                (take-realloc m.cells capa n (omega (arith, m.capa)) ∙ m.held),
          )
      | inr less ↦
          let apart = ==→ne n s.cstacks less in
          (
            record s { stacks = block (set m.cells n (some stack)); nstacks = n + 1 },
            rw (return_stack, m.readable, less) refl,
            grown s pool stack s.cstacks m.cells m.capa (omega (arith, m.room)) m.count m.held,
          )
    ]
  where
    take-realloc :
        (cells : List (Option ℕ)) (capa k : ℕ)
        → k ≤ length cells
        → take k (realloc cells capa) ≡ take k cells
    take-realloc cells capa k h =
        unfold realloc in take-append cells (malloc (capa - length cells)) k h

last-append : (xs : List ℕ) (x : ℕ) → get_or (map some (xs ++ x ∷ [])) (length xs) none ≡ some x
last-append [] x = refl
last-append (y ∷ xs) x = last-append xs x

-- `StackMgr_getStack` takes the last one.
get_stack-Models :
    {s : StackMgr} {pool : List ℕ} (stack fresh : ℕ)
    → Models s (pool ++ stack ∷ [])
    → (s' : StackMgr) × (get_stack s fresh ≡ some (some stack, s')) × Models s' pool
unfolding get_stack
get_stack-Models {s} {pool} stack fresh m =
    let k : ℕ = s.nstacks - 1 in
    let n : s.nstacks ≡ length pool + 1 = m.count ∙ length-append pool (stack ∷ []) in
    let some_there : ltb 0 s.nstacks ≡ true = ground arith in
    let at : k ≡ length pool = omega arith in
    let top : get_or m.cells k none ≡ some stack =
      sym (get_or-take_below s.nstacks m.cells k none (omega arith))
      ∙ ap (λ xs. get_or xs k none) m.held
      ∙ ap (λ i. get_or (map some (pool ++ stack ∷ [])) i none) at
      ∙ last-append pool stack in
    (
      record s { nstacks = k },
      rw (some_there, m.readable, top) refl,
      record {
        cells = m.cells;
        readable = m.readable;
        capa = m.capa;
        count = at;
        room = omega (arith, m.room);
        held =
            take-less m.cells s.nstacks k (map some pool) (some stack ∷ [])
              (m.held ∙ map-append some pool (stack ∷ [])) (at ∙ sym (length-map some pool));
      },
    )

-- Over stacks that are kept, a stack that is given to `StackMgr_returnStack` is kept behind them, the
-- block growing where it is full, and the next `StackMgr_getStack` gives it back and keeps the others.
pub get_stack-return_stack :
    {s : StackMgr} {pool : List ℕ} (stack fresh : ℕ)
    → Models s pool
    → (s' : StackMgr) × (s'' : StackMgr) × (return_stack s (some stack) ≡ some s')
      × Models s' (pool ++ stack ∷ [])
      × (get_stack s' fresh ≡ some (some stack, s''))
      × Models s'' pool
get_stack-return_stack stack fresh m =
    let (s', kept, m') = return_stack-Models stack m in
    let (s'', given, m'') = get_stack-Models stack fresh m' in (s', s'', kept, m', given, m'')
