-- ===== src/RateLimit/CatchUp.antt =====
-- Bringing an entry of ratelimit.c to the present, however much time has passed.
use poser.Prelude.{
  ℕ, zero, suc, ◌+◌, ◌-◌, ◌%◌, ◌^◌, ◌≤◌, ◌<◌, ◌≡◌, inl, inr, refl, sym, ap, ◌∙◌, true, false, ltb,
  leb, ◌==◌, if◌then◌else◌, Bool-cases, ==→eq, arith,
}
use poser.Prelude.Sums.{le-sum_to}
use poser.RateLimit.{Entry, Limit, zeroed, slide, catch_up, refresh}
use poser.RateLimit.Window.{age, age-zeroed, IsValid, zeroed-IsValid, age-slide, slide-IsValid}

-- the periods from `last` to `now`, both 16-bit counters that wrap
abbrev pub distance : ℕ → ℕ → ℕ
distance now last = (now + 2 ^ 16 - last) % 2 ^ 16

module _ (l : Limit) where
  -- `e'` is `e` brought to `now`: each counter is older by the time that has passed, those of the
  -- periods since then are 0, and the oldest are gone.
  pub record Slid (now : ℕ) (e e' : Entry) : Type 0 where
    pub valid : IsValid l e'
    pub present : e'.last ≡ now
    pub ages :
        (k : ℕ)
        → k < l.ncounts
        → age l e' k
          ≡ (if ltb k (distance now e.last) then 0 else age l e (k - distance now e.last))

  module _ (now : ℕ) (hn : now < 2 ^ 16) where
    stay : (e : Entry) → IsValid l e → e.last ≡ now → Slid now e e
    stay e v h =
        let d : distance now e.last ≡ 0 = omega (arith, v.last_in) in
        record {
          valid = v;
          present = h;
          ages = λ k hk.
              let same : k - 0 ≡ k = omega arith in
              let test : ltb k 0 ≡ false = ground arith in rw (d, test, same);
        }

    one_less :
        (e : Entry)
        → IsValid l e
        → (e.last == now) ≡ false
        → distance now (slide l e).last + 1 ≡ distance now e.last
    unfolding slide
    one_less e v more = let b = v.last_in in ground arith

    -- One round first, and then the rest.
    slide-Slid :
        (e e' : Entry)
        → IsValid l e
        → (e.last == now) ≡ false
        → Slid now (slide l e) e'
        → Slid now e e'
    slide-Slid e e' v more s =
        let d : ℕ = distance now (slide l e).last in
        let closer : distance now e.last ≡ d + 1 = sym (one_less e v more) in
        record {
          valid = s.valid;
          present = s.present;
          ages = λ k hk.
              rw closer
                (s.ages k hk ∙ ground (arith, age-slide l v (k - d), ap (age l e) (less k d)));
        }
      where
        less : (k d : ℕ) → k - d - 1 ≡ k - (d + 1)
        less k d = omega arith

    -- The loop reaches `now` within as many rounds as there are periods in between.
    pub catch_up-Slid :
        (fuel : ℕ) (e : Entry)
        → IsValid l e
        → distance now e.last ≤ fuel
        → Slid now e (catch_up fuel l now e)
    unfolding catch_up
    catch_up-Slid zero e v h = stay e v (omega (arith, v.last_in))
    catch_up-Slid (suc fuel) e v h = elim (Bool-cases (e.last == now)) [
      | inl done ↦ rw (done, catch_up) (stay e v (==→eq e.last now done))
      | inr more ↦
          rw (more, catch_up)
            (slide-Slid e (catch_up fuel l now (slide l e)) v more (
              catch_up-Slid fuel (slide l e) (slide-IsValid l v)
                (omega (arith, one_less e v more))))
    ]

    -- A valid entry is brought to `now`, in each of the three branches of `checkLimit`: it stays
    -- valid, its counters are older by the time that has passed since `last`, also where the 16 bits
    -- of the time have wrapped, and the periods that have begun since count nothing.
    pub refresh-Slid : (e : Entry) → IsValid l e → Slid now e (refresh l now e)
    unfolding refresh
    refresh-Slid e v = elim (Bool-cases (e.total == 0)) [
      | inl none_left ↦
          let empty : e.total ≡ 0 = ==→eq e.total 0 none_left in
          rw none_left (record {
            valid = record {
              periods = v.periods;
              most = v.most;
              word = v.word;
              size = v.size;
              pos_in = v.pos_in;
              last_in = hn;
              counted = v.counted;
              within = v.within;
            };
            present = refl;
            ages = λ k hk.
                let now_zero : age l e k ≡ 0 =
                  omega (arith, v.counted, le-sum_to l.ncounts (age l e) k hk) in
                let then_zero : age l e (k - distance now e.last) ≡ 0 =
                  omega
                    (arith, v.counted, le-sum_to l.ncounts (age l e) (k - distance now e.last)) in
                ground (arith, now_zero, then_zero);
          })
      | inr some_left ↦ elim (Bool-cases (leb (e.last + l.ncounts) now)) [
        | inl gone ↦
            rw (some_left, gone)
              (record {
                valid = zeroed-IsValid l now v.periods v.most v.word hn;
                present = unfold zeroed in refl;
                ages = λ k hk.
                    let test : ltb k (distance now e.last) ≡ true = ground arith in
                    rw test (age-zeroed l now k);
              })
        | inr within ↦ rw (some_left, within) (catch_up-Slid (2 ^ 16) e v (omega arith))
      ]
    ]
