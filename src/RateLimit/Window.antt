-- ===== src/RateLimit/Window.antt =====
-- The counters of ratelimit.c by age, and one round of sliding.
use poser.Prelude.{
  ℕ, zero, suc, ◌+◌, ◌-◌, ◌^◌, ◌≤◌, ◌<◌, ◌≡◌, ◌≢◌, sym, ap, ◌∙◌, false, leb, ◌==◌, if◌then◌else◌,
  length, get_or, length-set, length-replicate, get_or-set_self, get_or-set_ne, get_or-replicate,
  arith,
}
use poser.Prelude.Sums.{sum_to, sum_to_shifted, sum_to_zero, le-sum_to}
use poser.RateLimit.{max_counts, u16, Entry, Limit, zeroed, slide}

-- the index that was current `k` rounds ago, in a circle of `n`
abbrev pub back : ℕ → ℕ → ℕ → ℕ
back n p k = if leb k p then p - k else p + n - k

module _ (l : Limit) where
  -- how many requests were admitted `k` periods before the last one
  abbrev pub age : Entry → ℕ → ℕ
  age e k = get_or e.counts (back l.ncounts e.countpos k) 0

  -- The sizes fit, and `total` is the number of requests admitted in the window.
  pub record IsValid (e : Entry) : Type 0 where
    pub periods : 0 < l.ncounts
    pub most : l.ncounts ≤ max_counts
    pub word : l.limit < 2 ^ 16
    pub size : length e.counts ≡ max_counts
    pub pos_in : e.countpos < l.ncounts
    pub last_in : e.last < 2 ^ 16
    pub counted : e.total ≡ sum_to l.ncounts (age e)
    pub within : e.total ≤ l.limit

  pub age-zeroed : (now k : ℕ) → age (zeroed now) k ≡ 0
  unfolding zeroed
  age-zeroed now k = get_or-replicate max_counts (back l.ncounts 0 k) 0

  pub zeroed-IsValid :
      (now : ℕ)
      → 0 < l.ncounts
      → l.ncounts ≤ max_counts
      → l.limit < 2 ^ 16
      → now < 2 ^ 16
      → IsValid (zeroed now)
  unfolding zeroed
  zeroed-IsValid now h k w hn = record {
    periods = h;
    most = k;
    word = w;
    size = length-replicate {A = ℕ} max_counts 0;
    pos_in = h;
    last_in = hn;
    counted = sym (sum_to_zero l.ncounts (age (zeroed now)) (λ i hi. age-zeroed now i));
    within = omega arith;
  }

  module _ {e : Entry} (v : IsValid e) where
    age_small : (k : ℕ) → k < l.ncounts → age e k ≤ e.total
    age_small k h = omega (arith, v.counted, le-sum_to l.ncounts (age e) k h)

    -- the index that the next round takes
    abbrev next : ℕ
    next = if u16 (e.countpos + 1) == l.ncounts then 0 else u16 (e.countpos + 1)

    next-back : next ≡ back l.ncounts e.countpos (l.ncounts - 1)
    next-back = let h = v.most in let p = v.pos_in in ground arith

    -- One round moves each counter by one period and starts a new one.
    pub age-slide :
        (k : ℕ) → k < l.ncounts → age (slide l e) k ≡ (if k == 0 then 0 else age e (k - 1))
    unfolding slide
    age-slide zero h =
        let p = v.pos_in in
        let m = v.most in
        let s = v.size in
        let here : back l.ncounts next 0 ≡ next = ground arith in
        rw here (get_or-set_self e.counts next 0 0 (ground arith))
    age-slide (suc k) h =
        let p = v.pos_in in
        let m = v.most in
        let there : back l.ncounts next (suc k) ≡ back l.ncounts e.countpos k = ground arith in
        let apart : next ≢ back l.ncounts e.countpos k = ground arith in
        let down : suc k - 1 ≡ k = omega arith in
        let test : (suc k == 0) ≡ false = ground arith in
        rw (there, test, down) (get_or-set_ne e.counts next (back l.ncounts e.countpos k) 0 0 apart)

    total-slide : (slide l e).total + age e (l.ncounts - 1) ≡ e.total
    unfolding slide
    total-slide =
        let oldest : get_or e.counts next 0 ≡ age e (l.ncounts - 1) =
          ap (λ i. get_or e.counts i 0) next-back in
        let small = age_small (l.ncounts - 1) (omega (arith, v.periods)) in
        omega (arith, oldest, small, v.within, v.word)

    sum-slide :
        sum_to l.ncounts (age (slide l e)) + age e (l.ncounts - 1) ≡ sum_to l.ncounts (age e)
    sum-slide = sum_to_shifted l.ncounts (age (slide l e)) (age e) v.periods age-slide

    pub slide-IsValid : IsValid (slide l e)
    unfolding slide
    slide-IsValid = record {
      periods = v.periods;
      most = v.most;
      word = v.word;
      size = length-set e.counts next 0 ∙ v.size;
      pos_in = let p = v.pos_in in let m = v.most in ground arith;
      last_in = omega arith;
      counted = omega (arith, total-slide, sum-slide, v.counted);
      within = omega (arith, total-slide, v.within);
    }
