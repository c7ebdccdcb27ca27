-- ===== src/RateLimit/Options.antt =====
-- `PSC_RateLimitOpts_addLimit`: what it refuses, and the resolution that it chooses.
use native.Mathlib.Decide.{dec_le, dec_lt}
use poser.Prelude.{
  ℕ, zero, suc, ◌+◌, ◌-◌, ◌*◌, ◌/◌, ◌^◌, ◌≤◌, ◌<◌, ◌≡◌, inl, inr, refl, ap, ◌∙◌, List, Option, none,
  some, Bool, true, false, ◌&&◌, leb, ◌==◌, if◌then◌else◌, length, get_or, set, length-set,
  get_or-set_self, get_or-set_ne, Bool-cases, arith,
}
use poser.Prelude.Int.{ℤ, pos, negsuc}
use poser.Prelude.Memory.{realloc, length-realloc, get_or-realloc}
use poser.RateLimit.{max_counts, u16, Limit, Opts, create_opts, make_limit, push_limit, add_limit}

-- A limit that fits an entry: its window is made of at most 512 periods of `res` seconds each, and
-- is as long as asked for, but for less than one period.
pub record IsFitting (l : Limit) : Type 0 where
  pub periods : 0 < l.ncounts
  pub most : l.ncounts ≤ max_counts
  pub step : 0 < l.res
  pub covers : l.seconds ≤ l.ncounts * l.res
  pub tight : l.ncounts * l.res < l.seconds + l.res
  pub word : l.limit < 2 ^ 16

ceil_div : (s r : ℕ) → 0 < r → (s ≤ (s + r - 1) / r * r) × ((s + r - 1) / r * r < s + r)
ceil_div s r h = grind arith

quotient-le : (n m r : ℕ) → n * r < m * r + r → n ≤ m
quotient-le n m r h = elim (dec_le n m) [
  | yes small ↦ small
  | no big ↦ let past : suc m ≤ n = omega arith in grind arith
]

positive : (n r : ℕ) → 0 < n * r → 0 < n
positive zero r h = absurd (omega arith)
positive (suc n) r h = omega arith

-- For numbers from 1 to 65535, the limit that is stored keeps both numbers, and periods of the chosen
-- length cover the window within an entry's 512 counters.
pub make_limit-IsFitting :
    (s k : ℕ)
    → 0 < s
    → s < 2 ^ 16
    → 0 < k
    → k < 2 ^ 16
    → IsFitting (make_limit s k) × ((make_limit s k).seconds ≡ s) × ((make_limit s k).limit ≡ k)
unfolding make_limit
make_limit-IsFitting s k hs ws hk wk =
    let r : ℕ = (s + max_counts - 1) / max_counts in
    let n : ℕ = (s + r - 1) / r in
    let (up, down) = ceil_div s r (omega arith) in
    let step : u16 r ≡ r = omega arith in
    let most : n ≤ max_counts = quotient-le n max_counts r (omega arith) in
    let some_period : 0 < n = positive n r (omega arith) in
    let whole : u16 n ≡ n = omega arith in
    let secs : u16 s ≡ s = omega arith in
    let same : u16 k ≡ k = omega arith in
    rw (step, whole, secs, same)
      (
        record {
          periods = some_period;
          most = most;
          step = omega arith;
          covers = up;
          tight = down;
          word = wk;
        },
        refl,
        refl,
      )

-- The options hold `count` limits, all fitting.
pub record IsValid (o : Opts) : Type 0 where
  pub storage : length o.limits ≡ o.limits_capa
  pub fits : o.limits_count ≤ o.limits_capa
  pub fitting :
      (i : ℕ) → i < o.limits_count → (l : Limit) × (get_or o.limits i none ≡ some l) × IsFitting l

-- A number of seconds, or of requests, that a limit can have.
abbrev pub accepted : ℤ → Bool
accepted (pos n) = leb 1 n && leb n 0xffff
accepted (negsuc n) = false

-- New options hold no limit.
pub create-IsValid : IsValid create_opts
create-IsValid = record {
  storage = refl;
  fits = omega arith;
  fitting = λ i h. absurd (omega arith);
}

-- Storing a limit keeps those that are there, also when the array grows.
push_limit-IsValid :
    (o : Opts) (l : Limit)
    → IsValid o
    → IsFitting l
    → IsValid (push_limit o l)
      × ((push_limit o l).limits_count ≡ o.limits_count + 1)
      × (get_or (push_limit o l).limits o.limits_count none ≡ some l)
unfolding push_limit
push_limit-IsValid o l v f = elim (Bool-cases (o.limits_count == o.limits_capa)) [
  | inl full ↦ rw full (
      stored (realloc o.limits (o.limits_capa + 8)) (o.limits_capa + 8)
        (length-realloc o.limits (o.limits_capa + 8) (omega (arith, v.storage)))
        (ground (arith, v.fits))
        (λ i h. get_or-realloc o.limits (o.limits_capa + 8) i (omega (arith, v.storage, v.fits))))
  | inr room ↦
      rw room (stored o.limits o.limits_capa v.storage (ground (arith, v.fits)) (λ i h. refl))
]
  where
    stored :
        (cells : List (Option Limit)) (capa : ℕ)
        → length cells ≡ capa
        → o.limits_count < capa
        → ((i : ℕ) → i < o.limits_count → get_or cells i none ≡ get_or o.limits i none)
        → let new : Opts = record {
          limits_count = o.limits_count + 1;
          limits_capa = capa;
          limits = set cells o.limits_count (some l);
        } in
          IsValid new
          × (new.limits_count ≡ o.limits_count + 1)
          × (get_or new.limits o.limits_count none ≡ some l)
    stored cells capa size room same =
        let here : get_or (set cells o.limits_count (some l)) o.limits_count none ≡ some l =
          get_or-set_self cells o.limits_count (some l) none (omega arith) in
        (
          record {
            storage = length-set cells o.limits_count (some l) ∙ size;
            fits = omega arith;
            fitting = λ i h. elim (dec_lt i o.limits_count) [
              | yes old ↦
                  let (x, at, fx) = v.fitting i old in
                  (
                    x,
                    get_or-set_ne cells o.limits_count i (some l) none (omega arith)
                        ∙ same i old
                        ∙ at,
                    fx,
                  )
              | no new ↦
                  let e : i ≡ o.limits_count = omega arith in
                  (l, ap (λ j. get_or (set cells o.limits_count (some l)) j none) e ∙ here, f)
            ];
          },
          refl,
          here,
        )

refused :
    (o : Opts) (s k : ℕ)
    → (accepted (pos s) && accepted (pos k)) ≡ false
    → add_limit o (pos s) (pos k) ≡ (false, o)
unfolding add_limit
refused o s k h = ground arith

taken :
    (o : Opts) (s k : ℕ)
    → (accepted (pos s) && accepted (pos k)) ≡ true
    → (add_limit o (pos s) (pos k) ≡ (true, push_limit o (make_limit s k)))
      × (0 < s)
      × (s < 2 ^ 16)
      × (0 < k)
      × (k < 2 ^ 16)
unfolding add_limit
taken o s k h = ground arith

-- What a call may make of the options `o`, for the answer `good`.
abbrev pub Outcome : Opts → Bool → Bool × Opts → Type 0
Outcome o good r =
    (r.0 ≡ good)
    × IsValid r.1
    × (r.1.limits_count ≡ (if good then o.limits_count + 1 else o.limits_count))
    × (good ≡ false → r.1 ≡ o)

-- On valid options, `PSC_RateLimitOpts_addLimit` answers 0 exactly if both numbers are between 1 and
-- 65535; the options stay valid, and have one more limit in that case, and are unchanged otherwise.
pub add_limit-Outcome :
    (o : Opts) (s k : ℤ) → IsValid o → Outcome o (accepted s && accepted k) (add_limit o s k)
add_limit-Outcome o (negsuc s) k v = unfold add_limit in (refl, v, refl, λ _. refl)
add_limit-Outcome o (pos s) (negsuc k) v =
    let no_good : (accepted (pos s) && false) ≡ false = ground arith in
    rw no_good (unfold add_limit in (refl, v, refl, λ _. refl))
add_limit-Outcome o (pos s) (pos k) v = elim (Bool-cases (accepted (pos s) && accepted (pos k))) [
  | inl good ↦
      let (run, hs, ws, hk, wk) = taken o s k good in
      let (fits, _, _) = make_limit-IsFitting s k hs ws hk wk in
      let (valid, grown, _) = push_limit-IsValid o (make_limit s k) v fits in
      rw (good, run) (refl, valid, grown, λ e. cc)
  | inr bad ↦ rw (bad, refused o s k bad) (refl, v, refl, λ _. refl)
]
