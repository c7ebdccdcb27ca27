-- ===== src/RateLimit/Runs.antt =====
-- Runs of ratelimit.c, and the theorems at a concrete limit: 3 requests in 2 seconds.
use poser.Prelude.{
  false, true, ℕ, ◌+◌, ◌<◌, ◌&&◌, ◌≡◌, refl, List, [], ◌∷◌, Option, none, some, ◌==◌, if◌then◌else◌,
  ltb, arith,
}
use poser.Prelude.Int.{ℤ, pos}
use poser.Prelude.Memory.{realloc}
use poser.RateLimit.{
  Opts, equals, equal_limits, stored, push_limit, Entry, Limit, zeroed, refresh, catch_up, admit,
  check_limit, Dictionary, RateLimit, create_opts, make_limit, add_limit,
}
use poser.RateLimit.Window.{age, IsValid, zeroed-IsValid}
use poser.RateLimit.Check.{in_window, requests, check_limit-window}
use poser.RateLimit.Keys.{unless}

abbrev two_seconds : Limit
two_seconds = record { seconds = 2; limit = 3; res = 1; ncounts = 2 }

abbrev start : Entry
start = zeroed 10

start-IsValid : IsValid two_seconds start
start-IsValid =
    zeroed-IsValid two_seconds 10 (omega arith) (omega arith) (omega arith) (omega arith)

check_limit-window_example :
    let r = check_limit two_seconds 11 start in
    (r.0 ≡ ltb (in_window two_seconds 1 start) 3)
    × IsValid two_seconds r.1
    × (r.1.last ≡ 11)
    × (r.1.lock ≡ false)
    × ((k : ℕ)
        → k < 2
        → age two_seconds r.1 k ≡ requests two_seconds 1 start k + (if r.0 && k == 0 then 1 else 0))
check_limit-window_example =
    check_limit-window two_seconds 11 10 start-IsValid (unfold zeroed in refl) (omega arith)
      (omega arith)

-- An entry with 3 requests in its last period is brought to the present, under the lock, where the
-- window has gone by: the lock is open behind the `memset`.
lock-cleared :
    (refresh two_seconds 50 (record start { lock = true; total = 3; counts = 3 ∷ [] })).lock ≡ false
unfolding refresh zeroed
lock-cleared = refl

-- After 2 ^ 16 periods the 16-bit times are equal, and the 3 requests still count.
aliased : (check_limit two_seconds 65546 (record start { total = 3; counts = 3 ∷ [] })).0 ≡ false
unfolding check_limit refresh catch_up admit zeroed
aliased = refl

-- 1000 seconds in 500 periods of 2 seconds
make_limit_1000 : make_limit 1000 5 ≡ record { seconds = 1000; limit = 5; res = 2; ncounts = 500 }
unfolding make_limit
make_limit_1000 = refl

-- a map from addresses to the entries kept there
abbrev Store : Type 0
Store = ℕ → Option (List Entry)

abbrev table : Dictionary Store ℕ
table = record {
  get = λ d k. d k;
  set = λ d k es q. if k == q then some es else d q;
  remove_all = λ d p q. unless p (d q);
}

-- The address 1 is known, and the next call removes what has expired.
abbrev known : RateLimit Store
known = record {
  limits = two_seconds ∷ [];
  entries = λ q. if q == 1 then some (start ∷ []) else none;
  cleancount = 1;
}

abbrev options : ℤ → Opts
options k = (add_limit create_opts (pos 2) k).1

equals-options :
    (equals (options (pos 3)) (options (pos 3)) ≡ true)
    × (equals (options (pos 3)) (options (pos 4)) ≡ false)
unfolding equals equal_limits stored add_limit make_limit push_limit realloc
equals-options = (refl, refl)
