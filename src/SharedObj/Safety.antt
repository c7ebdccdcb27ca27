-- ===== src/SharedObj/Safety.antt =====
-- An object that a thread holds by `SOM_reserve` of sharedobj.c is not freed.
use poser.Prelude.{
  ℕ, ◌+◌, ◌-◌, ◌%◌, ◌^◌, ◌≤◌, ◌<◌, ◌≡◌, ◌≢◌, refl, sym, ap, subst, ◌∙◌, inl, inr, Option, none,
  some, false, ◌==◌, length, get_or, All, get_or-set_self, get_or-set_ne, Bool-cases, ==→eq, ==→ne,
  arith,
}
use poser.SharedObj.{Som, publish, reserve_round, release}
use poser.SharedObj.World.{
  live, freed, Reader, idle, has_read, reserved, loaded, holding, World, IsLive, Step, creates,
  stores, retires, reads_epoch, publishes, loads, returns, repeats, releases, Reach, here, next,
  IsStart,
}
use poser.SharedObj.Invariant.{
  Held, IsGood, IsKnown, IsPast, IsValid, IsGood-later, IsKnown-later, IsLive-later, reader_step,
}
use poser.SharedObj.Reclaim.{retire_step, create_step}

publish_res :
    (som : Som) (t ep i : ℕ)
    → (i == t) ≡ false
    → get_or (publish som t ep).res i none ≡ get_or som.res i none
unfolding publish
publish_res som t ep i other =
    get_or-set_ne som.res t i (some ep) none (λ e. ==→ne i t other (sym e))

publish_own :
    (som : Som) (t ep : ℕ) → t < length som.res → get_or (publish som t ep).res t none ≡ some ep
unfolding publish
publish_own som t ep h = get_or-set_self som.res t (some ep) none h

same_epoch : (ep p e : ℕ) → reserve_round ep p e ≡ some p → ep ≡ e
unfolding reserve_round
same_epoch ep p e h = elim (Bool-cases (ep == e)) [
  | inl same ↦ ==→eq ep e same
  | inr other ↦ let bad : none ≡ some p = rw other at h in absurd (cc)
]

-- What is known of the reader of a step.
IsGood-at : (v : World) (t : ℕ) (r : Reader) → IsValid v → v.readers t ≡ r → IsGood v t r
IsGood-at v t r valid e = subst (IsGood v t) e (valid.good t)

live_known : (v : World) (p : ℕ) → IsValid v → v.status p ≡ live → (v.objs p).created ≤ v.som.epoch
live_known v p valid l = let k : IsKnown v p live = subst (IsKnown v p) l (valid.known p) in k.1

cell_live : (v : World) (o : Option ℕ) (p : ℕ) → IsLive v o → o ≡ some p → v.status p ≡ live
cell_live v none p h e = absurd (cc)
cell_live v (some a) p h e = let same : a ≡ p = cc in ap v.status (sym same) ∙ h

Step-IsValid : {unset : ℕ → ℕ} {v u : World} → Step unset v u → IsValid v → IsValid u
Step-IsValid (creates v w addr destroy fresh small) valid =
    create_step v w addr destroy valid fresh small
Step-IsValid (stores v o l) valid = record {
  small = valid.small;
  known = λ a.
      IsKnown-later v (record v { cell = o }) a (v.status a) (omega arith) refl (valid.known a);
  linked = IsLive-later v (record v { cell = o }) o (λ _ _ h. h) l;
  lists = valid.lists;
  good = λ t.
      IsGood-later v (record v { cell = o }) t (v.readers t) (omega arith) refl refl (λ ep p _ k. k)
        (valid.good t);
}
Step-IsValid (retires v w addr l apart) valid = retire_step v w addr valid l _ apart
Step-IsValid (reads_epoch v t e) valid =
    reader_step v v.som t (has_read v.som.epoch) valid refl refl (λ i _. refl) (omega arith)
Step-IsValid (publishes v t ep e n room) valid =
    let le : ep ≤ v.som.epoch = IsGood-at v t (has_read ep) valid e in
    unfold publish in
    reader_step v (publish v.som t ep) t (reserved ep) valid refl refl (publish_res v.som t ep)
      (publish_own v.som t ep room, n, le)
Step-IsValid (loads v t ep p e there) valid =
    let g = IsGood-at v t (reserved ep) valid e in
    let l = cell_live v v.cell p valid.linked there in
    let born = live_known v p valid l in
    reader_step v v.som t (loaded ep p) valid refl refl (λ i _. refl)
      (g, λ now. (omega arith, subst (Held ep) (sym l) tt))
Step-IsValid (returns v t ep p e ok) valid =
    let g = IsGood-at v t (loaded ep p) valid e in
    let same = same_epoch ep p v.som.epoch ok in
    reader_step v v.som t (holding ep p) valid refl refl (λ i _. refl) (g.0, g.1 (sym same))
Step-IsValid (repeats v t ep p e ok) valid =
    reader_step v v.som t idle valid refl refl (λ i _. refl) tt
Step-IsValid (releases v t) valid =
    unfold release in
    unfold publish in
    reader_step v (release v.som t) t idle valid refl refl
      (publish_res v.som t ((v.som.epoch + 2 ^ 32 - 1) % 2 ^ 32)) tt

start-IsValid : (v : World) → IsStart v → IsValid v
start-IsValid v s = record {
  small = s.small;
  known = λ a. subst (IsKnown v a) (sym (s.none_used a)) tt;
  linked = subst (IsLive v) (sym s.no_object) tt;
  lists = λ w. subst (All (IsPast v)) (sym (s.none_retired w)) tt;
  good = λ t. subst (IsGood v t) (sym (s.none_reads t)) tt;
}

reach-IsValid : {unset : ℕ → ℕ} {s v : World} → IsValid s → Reach unset s v → IsValid v
reach-IsValid h here = h
reach-IsValid h (next r step) = Step-IsValid step (reach-IsValid h r)

-- In every run of the threads from a start without objects, with fewer than 2 ^ 32 epochs, and
-- for any content of the reservations that no thread has stored yet, an object that
-- `SOM_reserve` has given a thread, and that the thread has not released, is not freed.
pub holding-freed :
    (unset : ℕ → ℕ) (s v : World) (t ep p : ℕ)
    → IsStart s
    → Reach unset s v
    → v.readers t ≡ holding ep p
    → v.status p ≢ freed
holding-freed unset s v t ep p start reach holds is_freed =
    let g = IsGood-at v t (holding ep p) (reach-IsValid (start-IsValid s start) reach) holds in
    subst (Held ep) is_freed g.1.1
