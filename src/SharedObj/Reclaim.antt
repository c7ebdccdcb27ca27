-- ===== src/SharedObj/Reclaim.antt =====
-- The steps of sharedobj.c that create and retire objects keep the invariant.
use poser.Prelude.{
  ℕ, ◌+◌, ◌%◌, ◌^◌, ◌≤◌, ◌<◌, ◌≡◌, ◌≢◌, refl, sym, ap, subst, ◌∙◌, inl, inr, List, [], ◌∷◌, Option,
  none, some, false, ◌==◌, get_or, All, Bool-cases, ==→eq, arith,
}
use poser.SharedObj.{SharedObj, Som, Thread, create, retire}
use poser.SharedObj.World.{
  Status, unused, live, retired_in, freed, World, put, after_create, after_retire,
}
use poser.SharedObj.Invariant.{
  Held, Kept, IsReserved, IsKnown, IsPast, IsValid, put-all, put-other, put_self, IsGood-later,
  IsKnown-later, IsLive-later, retire-Retired, Kept-free, Past-free, live-free, known-free,
}

All-map :
    (P Q : SharedObj → Type 0)
    → ((o : SharedObj) → P o → Q o)
    → (os : List SharedObj) → All P os
    → All Q os
All-map P Q f [] a = tt
All-map P Q f (o ∷ os) (p, a) = (f o p, All-map P Q f os a)

module _ (v : World) (w addr : ℕ) (valid : IsValid v) (l : v.status addr ≡ live) where
  -- The object marked as retired in this epoch.
  marked : World
  marked = record v { status = put v.status addr (retired_in v.som.epoch) }

  Kept-marked : (t ep p : ℕ) → IsReserved v t ep → Kept v ep p → Kept marked ep p
  unfolding marked
  Kept-marked t ep p (r, n, e) (c, h) =
      (c, elim (Bool-cases (p == addr)) [ inl same ↦ rw same e | inr other ↦ rw other h ])

  marked-known : (a : ℕ) → IsKnown marked a (marked.status a)
  unfolding marked
  marked-known =
      put-all (IsKnown marked) v.status addr (retired_in v.som.epoch)
        (subst (IsKnown v addr) l (valid.known addr))
        (λ i _. IsKnown-later v marked i (v.status i) (omega arith) refl (valid.known i))

  Past-marked : (o : SharedObj) → IsPast v o → IsPast marked o
  unfolding marked
  Past-marked o (born, ends) = (
    born,
    elim (Bool-cases (o.addr == addr)) [
      | inl same ↦ absurd (
          let still : v.status o.addr ≡ live = ap v.status (==→eq o.addr addr same) ∙ l in
          elim ends [
            | inl dead ↦ let e : live ≡ retired_in o.retired = sym still ∙ dead in cc
            | inr over ↦ let e : live ≡ freed = sym still ∙ over in cc
          ])
      | inr other ↦ rw other ends
    ],
  )

  new-IsPast : IsPast marked (record (v.objs addr) { retired = v.som.epoch })
  unfolding marked
  new-IsPast =
      let k : IsKnown v addr live = subst (IsKnown v addr) l (valid.known addr) in
      (
        ap (λ a. (v.objs a).created) k.0,
        inl (
            ap (put v.status addr (retired_in v.som.epoch)) k.0
            ∙ put_self v.status addr (retired_in v.som.epoch)),
      )

  marked-lists : (o : List SharedObj) → All (IsPast v) o → All (IsPast marked) o
  marked-lists = All-map (IsPast v) (IsPast marked) Past-marked

  -- `SharedObj_retire` of an object that is not in the reference any more.
  pub retire_step : (unset : ℕ → ℕ) → v.cell ≢ some addr → IsValid (after_retire unset v w addr)
  unfolding after_retire marked
  retire_step unset unlinked =
      let res = retire unset v.som (v.threads w) (v.objs addr) in
      let th : Thread = res.0 in
      let gone : List SharedObj = res.1 in
      let r =
        retire-Retired unset v.som (v.threads w) (v.objs addr) (IsPast marked) new-IsPast
          (marked-lists (v.threads w).retired (valid.lists w)) in
      let u : World = after_retire unset v w addr in
      let still_live : (a : ℕ) → v.cell ≡ some a → v.status a ≡ live → marked.status a ≡ live =
        λ a e h. elim (Bool-cases (a == addr)) [
          | inl same ↦ absurd (unlinked (e ∙ ap some (==→eq a addr same)))
          | inr other ↦ put-other v.status addr a (retired_in v.som.epoch) other ∙ h
        ] in
      let past : (o : SharedObj) → IsPast marked o → IsPast u o =
        λ o p. (p.0, Past-free unset marked gone r.out r.no_conflict o p) in
      let pasts : (os : List SharedObj) → All (IsPast marked) os → All (IsPast u) os =
        All-map (IsPast marked) (IsPast u) past in
      record {
        small = valid.small;
        known = λ a.
            IsKnown-later marked u a (u.status a) (omega arith) refl
              (known-free unset marked gone r.out r.no_conflict a (marked-known a));
        linked =
            IsLive-later v u v.cell
              (λ a e h. live-free unset marked gone r.out r.no_conflict a (still_live a e h))
              valid.linked;
        lists =
            put-all (λ _ th. All (IsPast u) th.retired) v.threads w th (pasts th.retired r.in_list)
              (λ i _.
                pasts (v.threads i).retired (marked-lists (v.threads i).retired (valid.lists i)));
        good = λ t.
            IsGood-later v u t (v.readers t) (omega arith) refl refl
              (λ ep p g k.
                let m = Kept-marked t ep p g k in
                (k.0, Kept-free unset marked gone r.out r.no_conflict t ep p g m))
              (valid.good t);
      }

-- What `SharedObj_create` changes.
record Created (som : Som) (th : Thread) (addr : ℕ) (som' : Som) (th' : Thread) (obj : SharedObj)
    : Type 0 where
  later : som.epoch ≤ som'.epoch
  small : som'.epoch < 2 ^ 32
  same_res : som'.res ≡ som.res
  same_nthr : som'.nthr ≡ som.nthr
  same_list : th'.retired ≡ th.retired
  at : obj.addr ≡ addr
  born : obj.created ≡ som.epoch

create-Created :
    (som : Som) (th : Thread) (addr : ℕ) (destroy : Option ℕ)
    → som.epoch + 1 < 2 ^ 32
    → Created som th addr
        ((create som th addr destroy).0)
        ((create som th addr destroy).1)
        ((create som th addr destroy).2)
unfolding create
create-Created som th addr destroy h =
    let fits : (som.epoch + 1) % 2 ^ 32 ≡ som.epoch + 1 = omega arith in
    elim (Bool-cases ((th.ncreated + 1) % 2 ^ 32 == som.int_epoch)) [
      | inl now ↦
          rw (create, now, fits)
            (record {
              later = omega arith;
              small = h;
              same_res = refl;
              same_nthr = refl;
              same_list = refl;
              at = refl;
              born = refl;
            })
      | inr not_now ↦
          rw (create, not_now)
            (record {
              later = omega arith;
              small = omega arith;
              same_res = refl;
              same_nthr = refl;
              same_list = refl;
              at = refl;
              born = refl;
            })
    ]

module _ (v : World) (w addr : ℕ) (destroy : Option ℕ) (valid : IsValid v)
    (fresh : v.status addr ≡ unused) (small : v.som.epoch + 1 < 2 ^ 32) where
  -- A used address is another one.
  other_used : (a : ℕ) (s : Status) → v.status a ≡ s → (unused ≡ s → ⊥) → (a == addr) ≡ false
  other_used a s e apart = elim (Bool-cases (a == addr)) [
    | inl same ↦ absurd (apart (sym fresh ∙ ap v.status (sym (==→eq a addr same)) ∙ e))
    | inr other ↦ other
  ]

  past_used : (o : SharedObj) → IsPast v o → (o.addr == addr) ≡ false
  past_used o (_, inl dead) = other_used o.addr (retired_in o.retired) dead (λ e. cc)
  past_used o (_, inr over) = other_used o.addr freed over (λ e. cc)

  Kept-create : (ep p : ℕ) → Kept v ep p → Kept (after_create v w addr destroy) ep p
  unfolding after_create
  Kept-create ep p k = elim (Bool-cases (p == addr)) [
    | inl same ↦ absurd (subst (Held ep) (ap v.status (==→eq p addr same) ∙ fresh) k.1)
    | inr other ↦ rw other k
  ]

  Past-create : (o : SharedObj) → IsPast v o → IsPast (after_create v w addr destroy) o
  unfolding after_create
  Past-create o p = let other = past_used o p in rw other p

  pub create_step : IsValid (after_create v w addr destroy)
  unfolding after_create
  create_step =
      let res = create v.som (v.threads w) addr destroy in
      let c = create-Created v.som (v.threads w) addr destroy small in
      let u : World = after_create v w addr destroy in
      record {
        small = c.small;
        known =
            put-all (IsKnown u) v.status addr live
              (
                ap (λ o. o.addr) (put_self v.objs addr (res.2)) ∙ c.at,
                (let e = ap (λ o. o.created) (put_self v.objs addr (res.2)) ∙ c.born in
                    let l = c.later in omega arith),
              )
              (λ i other.
                IsKnown-later v u i (v.status i) c.later (put-other v.objs addr i (res.2) other)
                  (valid.known i));
        linked =
            IsLive-later v u v.cell
              (λ a _ h. put-other v.status addr a live (other_used a live h (λ e. cc)) ∙ h)
              valid.linked;
        lists =
            put-all (λ _ th. All (IsPast u) th.retired) v.threads w (res.1)
              (rw c.same_list
                (All-map (IsPast v) (IsPast u) Past-create (v.threads w).retired (valid.lists w)))
              (λ i _.
                All-map (IsPast v) (IsPast u) Past-create (v.threads i).retired (valid.lists i));
        good = λ t.
            IsGood-later v u t (v.readers t) c.later (ap (λ xs. get_or xs t none) c.same_res)
              c.same_nthr (λ ep p _ k. Kept-create ep p k) (valid.good t);
      }
