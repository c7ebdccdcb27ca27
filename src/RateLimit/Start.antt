-- ===== src/RateLimit/Start.antt =====
-- A new rate limiter of ratelimit.c.
use poser.Prelude.{
  ℕ, zero, suc, ◌<◌, ◌≡◌, subst, List, [], ◌∷◌, Option, none, some, Bool, All, get_or, take, arith,
}
use poser.RateLimit.{Limit, Dictionary, Opts, stored, create}
use poser.RateLimit.Options.{IsFitting, IsValid}
use poser.RateLimit.Keys.{Laws, AllFit, none-some}

stored-IsFitting :
    (cells : List (Option Limit)) (n : ℕ)
    → ((i : ℕ) → i < n → (l : Limit) × (get_or cells i none ≡ some l) × IsFitting l)
    → All IsFitting (stored (take n cells))
unfolding stored
stored-IsFitting cells zero h = tt
stored-IsFitting [] (suc n) h = tt
stored-IsFitting (none ∷ cells) (suc n) h =
    stored-IsFitting cells n (λ i lt. h (suc i) (omega arith))
stored-IsFitting (some l ∷ cells) (suc n) h =
    let (k, same, fits) = h 0 (omega arith) in
    let e : k ≡ l = cc in
    (subst IsFitting e fits, stored-IsFitting cells n (λ i lt. h (suc i) (omega arith)))

-- Over valid options and an empty dictionary, `PSC_RateLimit_create` makes a rate limiter in which
-- every limit is one that an entry can hold, and every key that has entries has valid ones.
pub create-AllFit :
    {D K : Type 0} (dict : Dictionary D K) (same_key : K → K → Bool) (laws : Laws dict same_key)
    (no_entries : D)
    → ((q : K) → dict.get no_entries q ≡ none)
    → (o : Opts) → IsValid o
    → AllFit dict same_key laws (create no_entries o)
unfolding create
create-AllFit dict same_key laws no_entries vacant o v = record {
  limits = stored-IsFitting o.limits o.limits_count v.fitting;
  entries = λ q es h. absurd (none-some (vacant q) h);
}
