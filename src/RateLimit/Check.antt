-- ===== src/RateLimit/Check.antt =====
-- One check of one limit of ratelimit.c against the window of time that it stands for.
use poser.Prelude.{
  ℕ, zero, suc, ◌+◌, ◌-◌, ◌/◌, ◌^◌, Bool, true, ◌≤◌, ◌<◌, ◌≡◌, ◌≢◌, inl, inr, refl, ap, ◌∙◌, false,
  ◌&&◌, ltb, ◌==◌, if◌then◌else◌, get_or, set, length-set, get_or-set_self, get_or-set_ne,
  Bool-cases, ltb→lt, arith,
}
use poser.Prelude.Sums.{sum_to, sum_to_congr, sum_to_bump, le-sum_to}
use poser.RateLimit.{u16, Entry, Limit, refresh, admit, check_limit}
use poser.RateLimit.Window.{age, back, IsValid}
use poser.RateLimit.CatchUp.{distance, refresh-Slid}

module _ (l : Limit) where
  -- The requests admitted `k` periods ago, for an entry `e` that was brought up to date `gone` periods
  -- ago.
  abbrev pub requests : ℕ → Entry → ℕ → ℕ
  requests gone e k = if ltb k gone then 0 else age l e (k - gone)

  -- the number of them in the window
  abbrev pub in_window : ℕ → Entry → ℕ
  in_window gone e = sum_to l.ncounts (requests gone e)

  -- the same at the 16-bit time `now`, with the periods that the 16 bits show
  abbrev pub seen : ℕ → Entry → ℕ → ℕ
  seen now e = requests (distance now e.last) e

  abbrev pub used : ℕ → Entry → ℕ
  used now e = in_window (distance now e.last) e

  -- the entry with one more request in its present period
  abbrev counted_one : Entry → Entry
  counted_one e = record e {
    total = u16 (e.total + 1);
    counts = set e.counts e.countpos (u16 (get_or e.counts e.countpos 0 + 1));
  }

  module _ {e : Entry} (v : IsValid l e) (room : e.total < l.limit) where
    age-counted_one :
        (k : ℕ) → k < l.ncounts → age l (counted_one e) k ≡ age l e k + (if k == 0 then 1 else 0)
    age-counted_one zero hk =
        let p = v.pos_in in
        let here : back l.ncounts e.countpos 0 ≡ e.countpos = ground arith in
        let small : get_or e.counts e.countpos 0 ≤ e.total =
          omega (arith, v.counted, rw here at (le-sum_to l.ncounts (age l e) 0 hk)) in
        rw here (
          get_or-set_self e.counts e.countpos (u16 (get_or e.counts e.countpos 0 + 1)) 0
            (omega (arith, v.size, v.most))
          ∙ omega (arith, v.word))
    age-counted_one (suc k) hk =
        let p = v.pos_in in
        let apart : e.countpos ≢ back l.ncounts e.countpos (suc k) = ground arith in
        let test : (suc k == 0) ≡ false = ground arith in
        rw test (
          get_or-set_ne e.counts e.countpos (back l.ncounts e.countpos (suc k))
            (u16 (get_or e.counts e.countpos 0 + 1)) 0 apart
          ∙ omega arith)

    counted_one-IsValid : IsValid l (counted_one e)
    counted_one-IsValid =
        let more =
          sum_to_bump l.ncounts (age l (counted_one e)) (age l e) v.periods age-counted_one in
        record {
          periods = v.periods;
          most = v.most;
          word = v.word;
          size = length-set e.counts e.countpos (u16 (get_or e.counts e.countpos 0 + 1)) ∙ v.size;
          pos_in = v.pos_in;
          last_in = v.last_in;
          counted = omega (arith, v.word, v.counted, more);
          within = omega (arith, v.word);
        }

  -- what `admit` makes of a valid entry
  admit_cases :
      {e : Entry} (v : IsValid l e)
      → ((admit l e).0 ≡ ltb e.total l.limit)
        × IsValid l (admit l e).1
        × ((admit l e).1.last ≡ e.last)
        × ((k : ℕ)
            → k < l.ncounts
            → age l (admit l e).1 k ≡ age l e k + (if (admit l e).0 && k == 0 then 1 else 0))
  unfolding admit
  admit_cases {e} v = elim (Bool-cases (ltb e.total l.limit)) [
    | inl room ↦
        let lt : e.total < l.limit = ltb→lt e.total l.limit room in
        rw room (refl, counted_one-IsValid v lt, refl, age-counted_one v lt)
    | inr full ↦ rw full (refl, v, refl, λ k hk. omega arith)
  ]

  with_lock : (held : Bool) {e : Entry} → IsValid l e → IsValid l (record e { lock = held })
  with_lock held v = record {
    periods = v.periods;
    most = v.most;
    word = v.word;
    size = v.size;
    pos_in = v.pos_in;
    last_in = v.last_in;
    counted = v.counted;
    within = v.within;
  }

  -- What a check does, in terms of the periods that the 16-bit times show.
  pub check_limit-seen :
      (tv_sec : ℕ) {e : Entry}
      → IsValid l e
      → let now = u16 (tv_sec / l.res) in
        let r = check_limit l tv_sec e in
        (r.0 ≡ ltb (used now e) l.limit)
        × IsValid l r.1
        × (r.1.last ≡ now)
        × ((k : ℕ) → k < l.ncounts → age l r.1 k ≡ seen now e k + (if r.0 && k == 0 then 1 else 0))
  unfolding check_limit
  check_limit-seen tv_sec {e} v =
      let now = u16 (tv_sec / l.res) in
      let held : Entry = record e { lock = true } in
      let s = refresh-Slid l now (omega arith) held (with_lock true v) in
      let (answer, valid, last, ages) = admit_cases s.valid in
      let same : (refresh l now held).total ≡ used now e =
        s.valid.counted ∙ sum_to_congr l.ncounts (age l (refresh l now held)) (seen now e) s.ages in
      (
        answer ∙ ap (λ n. ltb n l.limit) same,
        with_lock false valid,
        last ∙ s.present,
        λ k hk. omega (arith, ages k hk, s.ages k hk),
      )

  -- On a valid entry that was brought up to date in the period `last`, as long as fewer than 2 ^ 16
  -- periods have gone by since then, a check admits a request exactly if fewer than `limit` were
  -- admitted in the window of the last `ncounts` periods. It counts the request then, in the present
  -- period, and otherwise only moves the window; it leaves the entry valid, which bounds what is
  -- counted in a window by `limit`, in the present period, and unlocked.
  pub check_limit-window :
      (tv_sec last : ℕ) {e : Entry}
      → IsValid l e
      → e.last ≡ u16 last
      → last ≤ tv_sec / l.res
      → tv_sec / l.res < last + 2 ^ 16
      → let gone = tv_sec / l.res - last in
        let r = check_limit l tv_sec e in
        (r.0 ≡ ltb (in_window gone e) l.limit)
        × IsValid l r.1
        × (r.1.last ≡ u16 (tv_sec / l.res))
        × (r.1.lock ≡ false)
        × ((k : ℕ)
            → k < l.ncounts
            → age l r.1 k ≡ requests gone e k + (if r.0 && k == 0 then 1 else 0))
  check_limit-window tv_sec last {e} v at begun soon =
      let gone : distance (u16 (tv_sec / l.res)) e.last ≡ tv_sec / l.res - last =
        omega (arith, at, begun, soon) in
      let (answer, valid, present, ages) = check_limit-seen tv_sec v in
      (
        answer ∙ ap (λ n. ltb (in_window n e) l.limit) gone,
        valid,
        present,
        unfold check_limit in refl,
        λ k hk.
            ages k hk
            ∙ ap (λ n. requests n e k + (if (check_limit l tv_sec e).0 && k == 0 then 1 else 0))
                gone,
      )
