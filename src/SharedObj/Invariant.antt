-- ===== src/SharedObj/Invariant.antt =====
-- What holds of the threads that share objects by sharedobj.c after each step, and what a sweep
-- leaves of it.
use poser.Prelude.{
  ℕ, ◌+◌, ◌%◌, ◌^◌, ◌≤◌, ◌<◌, ◌≡◌, ◌⊎◌, refl, sym, ap, subst, ◌∙◌, inl, inr, List, [], ◌∷◌, Option,
  none, some, true, false, ◌==◌, get_or, All, Bool-cases, ==→eq, ==_refl, arith,
}
use poser.SharedObj.{SharedObj, Som, Thread, conflicts, retire}
use poser.SharedObj.Epochs.{conflicts-reserved, sweep-Swept}
use poser.SharedObj.World.{
  Status, unused, live, retired_in, freed, Reader, idle, has_read, reserved, loaded, holding, World,
  put, free_all, IsLive,
}

-- An object that may be read under a reservation of this epoch: it is not retired, or was in no
-- earlier epoch.
abbrev pub Held : ℕ → Status → Type 0
Held ep unused = ⊥
Held ep live = Unit
Held ep (retired_in e) = ep ≤ e
Held ep freed = ⊥

abbrev pub Kept : World → ℕ → ℕ → Type 0
Kept v ep p = ((v.objs p).created ≤ ep) × Held ep (v.status p)

abbrev pub IsReserved : World → ℕ → ℕ → Type 0
IsReserved v t ep = (get_or v.som.res t none ≡ some ep) × (t < v.som.nthr) × (ep ≤ v.som.epoch)

abbrev pub IsGood : World → ℕ → Reader → Type 0
IsGood v t idle = Unit
IsGood v t (has_read ep) = ep ≤ v.som.epoch
IsGood v t (reserved ep) = IsReserved v t ep
IsGood v t (loaded ep p) = IsReserved v t ep × (v.som.epoch ≡ ep → Kept v ep p)
IsGood v t (holding ep p) = IsReserved v t ep × Kept v ep p

-- A used address is that of an object that was created by now.
abbrev pub IsKnown : World → ℕ → Status → Type 0
IsKnown v a unused = Unit
IsKnown v a live = ((v.objs a).addr ≡ a) × ((v.objs a).created ≤ v.som.epoch)
IsKnown v a (retired_in e) = ((v.objs a).addr ≡ a) × ((v.objs a).created ≤ v.som.epoch)
IsKnown v a freed = ((v.objs a).addr ≡ a) × ((v.objs a).created ≤ v.som.epoch)

-- An object in the list of a thread.
abbrev pub IsPast : World → SharedObj → Type 0
IsPast v o =
    ((v.objs o.addr).created ≡ o.created)
    × ((v.status o.addr ≡ retired_in o.retired) ⊎ (v.status o.addr ≡ freed))

pub record IsValid (v : World) : Type 0 where
  pub small : v.som.epoch < 2 ^ 32
  pub known : (a : ℕ) → IsKnown v a (v.status a)
  pub linked : IsLive v v.cell
  pub lists : (w : ℕ) → All (IsPast v) (v.threads w).retired
  pub good : (t : ℕ) → IsGood v t (v.readers t)

pub put-all :
    {A : Type 0} (P : ℕ → A → Type 0) (f : ℕ → A) (k : ℕ) (x : A)
    → P k x
    → ((i : ℕ) → (i == k) ≡ false → P i (f i))
    → (i : ℕ) → P i (put f k x i)
put-all P f k x h rest i = elim (Bool-cases (i == k)) [
  | inl same ↦ rw same (subst (λ j. P j x) (sym (==→eq i k same)) h)
  | inr other ↦ rw other (rest i other)
]

pub put-other : {A : Type 0} (f : ℕ → A) (k i : ℕ) (x : A) → (i == k) ≡ false → put f k x i ≡ f i
put-other f k i x h = rw h refl

pub put_self : {A : Type 0} (f : ℕ → A) (k : ℕ) (x : A) → put f k x k ≡ x
put_self f k x = rw (==_refl k) refl

-- A reader stays good where its reservation stays, and the object that it may read.
pub IsGood-later :
    (v u : World) (t : ℕ) (r : Reader)
    → v.som.epoch ≤ u.som.epoch
    → get_or u.som.res t none ≡ get_or v.som.res t none
    → u.som.nthr ≡ v.som.nthr
    → ((ep p : ℕ) → IsReserved v t ep → Kept v ep p → Kept u ep p)
    → IsGood v t r
    → IsGood u t r
IsGood-later v u t idle h res nthr keeps g = tt
IsGood-later v u t (has_read ep) h res nthr keeps g = omega arith
IsGood-later v u t (reserved ep) h res nthr keeps (r, n, e) = (res ∙ r, omega arith, omega arith)
IsGood-later v u t (loaded ep p) h res nthr keeps ((r, n, e), k) =
    ((res ∙ r, omega arith, omega arith), λ now. keeps ep p (r, n, e) (k (omega arith)))
IsGood-later v u t (holding ep p) h res nthr keeps ((r, n, e), k) =
    ((res ∙ r, omega arith, omega arith), keeps ep p (r, n, e) k)

pub IsKnown-later :
    (v u : World) (a : ℕ) (s : Status)
    → v.som.epoch ≤ u.som.epoch
    → u.objs a ≡ v.objs a
    → IsKnown v a s
    → IsKnown u a s
IsKnown-later v u a unused h e k = tt
IsKnown-later v u a live h e (at, k) =
    let c = ap (λ o. o.created) e in (ap (λ o. o.addr) e ∙ at, omega arith)
IsKnown-later v u a (retired_in r) h e (at, k) =
    let c = ap (λ o. o.created) e in (ap (λ o. o.addr) e ∙ at, omega arith)
IsKnown-later v u a freed h e (at, k) =
    let c = ap (λ o. o.created) e in (ap (λ o. o.addr) e ∙ at, omega arith)

pub IsLive-later :
    (v u : World) (o : Option ℕ)
    → ((a : ℕ) → o ≡ some a → v.status a ≡ live → u.status a ≡ live)
    → IsLive v o
    → IsLive u o
IsLive-later v u none h l = tt
IsLive-later v u (some a) h l = h a refl l

IsGood-same :
    (v : World) (rs : ℕ → Reader) (t : ℕ) (r : Reader)
    → IsGood v t r
    → IsGood (record v { readers = rs }) t r
IsGood-same v rs t idle h = h
IsGood-same v rs t (has_read ep) h = h
IsGood-same v rs t (reserved ep) h = h
IsGood-same v rs t (loaded ep p) h = h
IsGood-same v rs t (holding ep p) h = h

-- A step of one reader that changes at most its own reservation.
pub reader_step :
    (v : World) (som : Som) (t : ℕ) (r : Reader)
    → IsValid v
    → som.epoch ≡ v.som.epoch
    → som.nthr ≡ v.som.nthr
    → ((i : ℕ) → (i == t) ≡ false → get_or som.res i none ≡ get_or v.som.res i none)
    → IsGood (record v { som = som }) t r
    → IsValid (record v { som = som; readers = put v.readers t r })
reader_step v som t r valid epoch nthr res g =
    let u : World = record v { som = som; readers = put v.readers t r } in
    record {
      small = rw epoch valid.small;
      known = λ a. IsKnown-later v u a (v.status a) (omega arith) refl (valid.known a);
      linked = IsLive-later v u v.cell (λ a _ l. l) valid.linked;
      lists = valid.lists;
      good =
          put-all (λ i q. IsGood u i q) v.readers t r
            (IsGood-same (record v { som = som }) (put v.readers t r) t r g)
            (λ i other.
              IsGood-later v u i (v.readers i) (omega arith) (res i other) nthr (λ ep p _ k. k)
                (valid.good i));
    }

-- The list of a thread after `SharedObj_retire`, and what the sweep destroyed.
pub record Retired (unset : ℕ → ℕ) (som : Som) (P : SharedObj → Type 0) (th : Thread)
    (gone : List SharedObj) : Type 0 where
  pub in_list : All P th.retired
  pub out : All P gone
  pub no_conflict : All (λ o. conflicts unset 0 som.nthr o.created o.retired som.res ≡ false) gone

pub retire-Retired :
    (unset : ℕ → ℕ) (som : Som) (th : Thread) (so : SharedObj) (P : SharedObj → Type 0)
    → P (record so { retired = som.epoch })
    → All P th.retired
    → Retired unset som P ((retire unset som th so).0) ((retire unset som th so).1)
unfolding retire
retire-Retired unset som th so P p a =
    let s = sweep-Swept unset som P (record so { retired = som.epoch } ∷ th.retired) (p, a) in
    elim (Bool-cases ((th.nretired + 1) % 2 ^ 32 == som.int_destroy)) [
      | inl now ↦
          rw (retire, now)
            (record { in_list = s.kept_objects; out = s.gone_objects; no_conflict = s.unused })
      | inr later ↦ rw (retire, later) (record { in_list = (p, a); out = tt; no_conflict = tt })
    ]

-- The status of an address after some objects are freed.
free_all-cases :
    (P Q : SharedObj → Type 0) (gone : List SharedObj) (status : ℕ → Status) (a : ℕ)
    → All P gone
    → All Q gone
    → (free_all gone status a ≡ status a)
      ⊎ ((o : SharedObj) × P o × Q o × (o.addr ≡ a) × (free_all gone status a ≡ freed))
free_all-cases P Q [] status a ps qs = inl refl
free_all-cases P Q (o ∷ gone) status a (p, ps) (q, qs) = elim (Bool-cases (a == o.addr)) [
  | inl same ↦ inr (o, p, q, sym (==→eq a o.addr same), rw same refl)
  | inr other ↦ rw other (free_all-cases P Q gone status a ps qs)
]

abbrev pub NoConflict : (ℕ → ℕ) → World → SharedObj → Type 0
NoConflict unset v o = conflicts unset 0 v.som.nthr o.created o.retired v.som.res ≡ false

module _ (unset : ℕ → ℕ) (v : World) (gone : List SharedObj) (past : All (IsPast v) gone)
    (clear : All (NoConflict unset v) gone) where
  pub Kept-free :
      (t ep p : ℕ) → IsReserved v t ep → Kept v ep p → Held ep (free_all gone v.status p)
  Kept-free t ep p (r, n, e) (c, h) =
      elim (free_all-cases (IsPast v) (NoConflict unset v) gone v.status p past clear) [
        | inl same ↦ subst (Held ep) (sym same) h
        | inr (o, (born, ends), free, at, _) ↦ absurd (elim ends [
          | inl dead ↦
              let le : ep ≤ o.retired = subst (Held ep) (sym (ap v.status at) ∙ dead) h in
              let born' : o.created ≤ ep = let m = ap (λ a. (v.objs a).created) at in omega arith in
              let used =
                conflicts-reserved unset 0 v.som.nthr o.created o.retired ep v.som.res t n r born'
                  le in
              let no : true ≡ false = sym used ∙ free in cc
          | inr over ↦ subst (Held ep) (sym (ap v.status at) ∙ over) h
        ])
      ]

  pub Past-free :
      (o : SharedObj)
      → IsPast v o
      → (free_all gone v.status o.addr ≡ retired_in o.retired)
        ⊎ (free_all gone v.status o.addr ≡ freed)
  Past-free o (born, ends) =
      elim (free_all-cases (IsPast v) (NoConflict unset v) gone v.status o.addr past clear) [
        | inl same ↦ elim ends [ inl dead ↦ inl (same ∙ dead) | inr over ↦ inr (same ∙ over) ]
        | inr (_, _, _, _, now) ↦ inr now
      ]

  pub live-free : (a : ℕ) → v.status a ≡ live → free_all gone v.status a ≡ live
  live-free a l = elim (free_all-cases (IsPast v) (NoConflict unset v) gone v.status a past clear) [
    | inl same ↦ same ∙ l
    | inr (o, (born, ends), free, at, _) ↦ absurd (elim ends [
      | inl dead ↦ let e : live ≡ retired_in o.retired = sym l ∙ ap v.status (sym at) ∙ dead in cc
      | inr over ↦ let e : live ≡ freed = sym l ∙ ap v.status (sym at) ∙ over in cc
    ])
  ]

  pub known-free : (a : ℕ) → IsKnown v a (v.status a) → IsKnown v a (free_all gone v.status a)
  known-free a k =
      elim (free_all-cases (IsPast v) (NoConflict unset v) gone v.status a past clear) [
        | inl same ↦ subst (IsKnown v a) (sym same) k
        | inr (o, (born, ends), free, at, now) ↦ subst (IsKnown v a) (sym now) (elim ends [
          | inl dead ↦ subst (IsKnown v a) (sym (ap v.status at) ∙ dead) k
          | inr over ↦ subst (IsKnown v a) (sym (ap v.status at) ∙ over) k
        ])
      ]
