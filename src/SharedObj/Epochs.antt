-- ===== src/SharedObj/Epochs.antt =====
-- The epochs of sharedobj.c: which reservations keep an object, and what a sweep destroys.
use poser.Prelude.{
  ℕ, zero, suc, ◌+◌, ◌-◌, ◌%◌, ◌^◌, ◌≤◌, ◌<◌, ◌≡◌, refl, inl, inr, List, [], ◌∷◌, Option, none,
  some, Bool, true, false, not, leb, if◌then◌else◌, filter, ap, get_or, All, Bool-cases, arith,
}
use poser.SharedObj.{SharedObj, Som, is_within, conflicts, sweep}

-- For epochs below 2 ^ 32, a reservation is within the epochs of an object where it is not
-- further from the epoch of the creation than the epoch of the end is, counted forward and
-- around the range of an `unsigned`.
pub is_within-distance :
    (creat retd tres : ℕ)
    → creat < 2 ^ 32
    → retd < 2 ^ 32
    → tres < 2 ^ 32
    → is_within creat retd tres
      ≡ leb ((tres + 2 ^ 32 - creat) % 2 ^ 32) ((retd + 2 ^ 32 - creat) % 2 ^ 32)
unfolding is_within
is_within-distance creat retd tres hc hr ht = ground arith

-- A reservation of one of the threads keeps an object that was alive in its epoch.
pub conflicts-reserved :
    (unset : ℕ → ℕ) (t left creat retd ep : ℕ) (res : List (Option ℕ)) (tid : ℕ)
    → tid < left
    → get_or res tid none ≡ some ep
    → creat ≤ ep
    → ep ≤ retd
    → conflicts unset t left creat retd res ≡ true
unfolding conflicts
conflicts-reserved unset t zero creat retd ep res tid h r c e = absurd (omega arith)
conflicts-reserved unset t (suc left) creat retd ep [] tid h r c e = absurd (none-some r)
  where
    none-some : {a : ℕ} → none ≡ some a → ⊥
    none-some e = cc
conflicts-reserved unset t (suc left) creat retd ep (x ∷ res) zero h r c e =
    let inside : is_within creat retd ep ≡ true = unfold is_within in ground arith in
    rw (r, inside) refl
conflicts-reserved unset t (suc left) creat retd ep (x ∷ res) (suc tid) h r c e =
    let rest = conflicts-reserved unset (t + 1) left creat retd ep res tid (omega arith) r c e in
    rw rest (either (is_within creat retd (elim x [ none ↦ unset t | some e ↦ e ])))
  where
    either : (b : Bool) → (if b then true else true) ≡ true
    either true = refl
    either false = refl

-- What a sweep leaves and what it destroys.
pub record Swept (unset : ℕ → ℕ) (som : Som) (P : SharedObj → Type 0) (kept gone : List SharedObj)
    : Type 0 where
  pub kept_objects : All P kept
  pub gone_objects : All P gone
  pub in_use : All (λ o. conflicts unset 0 som.nthr o.created o.retired som.res ≡ true) kept
  pub unused : All (λ o. conflicts unset 0 som.nthr o.created o.retired som.res ≡ false) gone

pub sweep-Swept :
    (unset : ℕ → ℕ) (som : Som) (P : SharedObj → Type 0) (objs : List SharedObj)
    → All P objs
    → Swept unset som P ((sweep unset som objs).0) ((sweep unset som objs).1)
unfolding sweep
sweep-Swept unset som P [] a = record {
  kept_objects = tt;
  gone_objects = tt;
  in_use = tt;
  unused = tt;
}
sweep-Swept unset som P (o ∷ objs) (p, a) =
    let s = sweep-Swept unset som P objs a in
    elim (Bool-cases (conflicts unset 0 som.nthr o.created o.retired som.res)) [
      | inl used ↦
          rw (sweep, used)
            (record {
              kept_objects = (p, s.kept_objects);
              gone_objects = s.gone_objects;
              in_use = (used, s.in_use);
              unused = s.unused;
            })
      | inr unused ↦
          rw (sweep, unused)
            (record {
              kept_objects = s.kept_objects;
              gone_objects = (p, s.gone_objects);
              in_use = s.in_use;
              unused = (unused, s.unused);
            })
    ]

-- A sweep divides the list: what a reservation keeps, and the rest, each in its order.
pub sweep-filter :
    (unset : ℕ → ℕ) (som : Som) (objs : List SharedObj)
    → let in_use : SharedObj → Bool = λ o. conflicts unset 0 som.nthr o.created o.retired som.res in
      ((sweep unset som objs).0 ≡ filter in_use objs)
      × ((sweep unset som objs).1 ≡ filter (λ o. not (in_use o)) objs)
unfolding sweep
sweep-filter unset som [] = (refl, refl)
sweep-filter unset som (o ∷ objs) =
    let (kept, gone) = sweep-filter unset som objs in
    elim (Bool-cases (conflicts unset 0 som.nthr o.created o.retired som.res)) [
      | inl used ↦ rw (used, sweep) (ap (◌∷◌ o) kept, gone)
      | inr unused ↦ rw (unused, sweep) (kept, ap (◌∷◌ o) gone)
    ]
