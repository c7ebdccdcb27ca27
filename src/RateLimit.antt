-- ===== src/RateLimit.antt =====
-- src/lib/core/ratelimit.c: counters over sliding windows of time, one entry for each key.
-- Numbers that the source keeps in a `uint16_t` wrap at 2 ^ 16 where it stores them. A check of
-- an entry is one step. In the source it runs under the entry's spin lock, a flag inside the entry;
-- its `memset` clears that flag too, so that from there to the end of the call another thread can
-- take the lock and change the entry in between, which one step does not show.
pub mod Window
pub mod CatchUp
pub mod Check
pub mod Options
pub mod Keys
pub mod Start
pub mod Store
pub mod Runs
use poser.Prelude.{
  ℕ, zero, suc, ◌+◌, ◌-◌, ◌*◌, ◌/◌, ◌%◌, ◌^◌, List, [], ◌∷◌, ◌++◌, Option, none, some, Bool, true,
  false, ◌&&◌, ◌||◌, not, ltb, leb, ◌==◌, if◌then◌else◌, get_or, set, replicate, take, map,
}
use poser.Prelude.Int.{ℤ, pos, negsuc}
use poser.Prelude.Memory.{realloc}

-- MAXCOUNTS
abbrev pub max_counts : ℕ
max_counts = 512

-- a store to a `uint16_t`
abbrev pub u16 : ℕ → ℕ
u16 x = x % 2 ^ 16

-- Entry; `lock` says that the flag is set
pub record Entry : Type 0 where
  pub lock : Bool
  pub last : ℕ
  pub total : ℕ
  pub countpos : ℕ
  pub counts : List ℕ

pub record Limit : Type 0 where
  pub seconds : ℕ
  pub limit : ℕ
  pub res : ℕ
  pub ncounts : ℕ

-- an entry after `memset`, which clears the lock as well, with `last` set
unfoldable pub zeroed : ℕ → Entry
zeroed now = record {
  lock = false;
  last = now;
  total = 0;
  countpos = 0;
  counts = replicate max_counts 0;
}

-- one round of the loop in `checkLimit`, with its `++e->last`
unfoldable pub slide : Limit → Entry → Entry
slide l e =
    let next = u16 (e.countpos + 1) in
    let countpos = if next == l.ncounts then 0 else next in
    record e {
      last = u16 (e.last + 1);
      total = u16 (e.total + 2 ^ 16 - get_or e.counts countpos 0);
      countpos = countpos;
      counts = set e.counts countpos 0;
    }

-- that loop; `last` takes each of its 2 ^ 16 values within 2 ^ 16 rounds
unfoldable pub catch_up : ℕ → Limit → ℕ → Entry → Entry
catch_up zero l now e = e
catch_up (suc fuel) l now e = elim (e.last == now) [
  | true ↦ e
  | false ↦ catch_up fuel l now (slide l e)
]

-- the first part of `checkLimit`: the entry brought to the present. The difference in the test is
-- one of `int`s, negative where `now` has wrapped.
unfoldable pub refresh : Limit → ℕ → Entry → Entry
refresh l now e =
    if e.total == 0
    then record e { last = now }
    else if leb (e.last + l.ncounts) now
    then zeroed now
    else catch_up (2 ^ 16) l now e

-- the second part: the request counted, if there is room
unfoldable pub admit : Limit → Entry → Bool × Entry
admit l e =
    if ltb e.total l.limit
    then (
      true,
      record e {
        total = u16 (e.total + 1);
        counts = set e.counts e.countpos (u16 (get_or e.counts e.countpos 0 + 1));
      },
    )
    else (false, e)

-- `checkLimit`, at `ts->tv_sec`, on an entry whose lock it could take
unfoldable pub check_limit : Limit → ℕ → Entry → Bool × Entry
check_limit l tv_sec e =
    let (ok, e') = admit l (refresh l (u16 (tv_sec / l.res)) (record e { lock = true })) in
    (ok, record e' { lock = false })

-- `expired`, for the entries of one key: no limit has counts left from within its window
unfoldable pub expired : List Limit → ℕ → List Entry → Bool
expired [] tv_sec es = true
expired (l ∷ ls) tv_sec [] = true
expired (l ∷ ls) tv_sec (e ∷ es) =
    let rest = expired ls tv_sec es in
    if ltb (u16 (tv_sec / l.res)) (e.last + l.ncounts) then false else rest

-- the loop over the limits in `PSC_RateLimit_check`, which ends early for none
unfoldable pub check_limits : List Limit → ℕ → List Entry → Bool × List Entry
check_limits [] tv_sec es = (true, es)
check_limits (l ∷ ls) tv_sec [] = (true, [])
check_limits (l ∷ ls) tv_sec (e ∷ es) =
    let (good, e') = check_limit l tv_sec e in
    let (rest, es') = check_limits ls tv_sec es in (good && rest, e' ∷ es')

-- new entries for a key
unfoldable pub fresh : List Limit → ℕ → List Entry
fresh ls tv_sec = map (λ l. zeroed (u16 (tv_sec / l.res))) ls

-- What the code uses of PSC_Dictionary (src/lib/core/dictionary.c), from keys to lists of entries.
-- An entry that is changed in place is stored again.
pub record Dictionary (D K : Type 0) : Type 0 where
  pub get : D → K → Option (List Entry)
  pub set : D → K → List Entry → D
  pub remove_all : D → (List Entry → Bool) → D

-- PSC_RateLimit
pub record RateLimit (D : Type 0) : Type 0 where
  pub limits : List Limit
  pub entries : D
  pub cleancount : ℕ

-- the counter's start and restart
abbrev pub clean_interval : ℕ
clean_interval = 2000

module _ {D K : Type 0} (dict : Dictionary D K) where
  -- the start of `PSC_RateLimit_check`: every 2000th call removes what has expired
  unfoldable pub clean : RateLimit D → ℕ → RateLimit D
  clean r tv_sec =
      let left = u16 (r.cleancount + 2 ^ 16 - 1) in
      if left == 0
      then record r {
        entries = dict.remove_all r.entries (expired r.limits tv_sec);
        cleancount = clean_interval;
      }
      else record r { cleancount = left }

  -- the entries of a key, made if there are none
  unfoldable pub lookup : RateLimit D → ℕ → K → List Entry
  lookup r tv_sec key = elim (dict.get r.entries key) [
    | none ↦ fresh r.limits tv_sec
    | some es ↦ es
  ]

  -- `PSC_RateLimit_check`; `clock` is what `clock_gettime` gave, `none` if it failed
  unfoldable pub check : RateLimit D → Option ℕ → K → Bool × RateLimit D
  check r none key = (false, r)
  check r (some tv_sec) key =
      let cleaned = clean r tv_sec in
      let (good, es) = check_limits r.limits tv_sec (lookup cleaned tv_sec key) in
      (good, record cleaned { entries = dict.set cleaned.entries key es })

-- PSC_RateLimitOpts
pub record Opts : Type 0 where
  pub limits_count : ℕ
  pub limits_capa : ℕ
  pub limits : List (Option Limit)

-- `PSC_RateLimitOpts_create`
abbrev pub create_opts : Opts
create_opts = record { limits_count = 0; limits_capa = 0; limits = [] }

-- what `PSC_RateLimitOpts_addLimit` stores
unfoldable pub make_limit : ℕ → ℕ → Limit
make_limit seconds limit =
    let res = u16 ((seconds + max_counts - 1) / max_counts) in
    record {
      seconds = u16 seconds;
      limit = u16 limit;
      res = res;
      ncounts = u16 ((seconds + res - 1) / res);
    }

-- the end of `PSC_RateLimitOpts_addLimit`: the limit stored, in a larger array if it is full
unfoldable pub push_limit : Opts → Limit → Opts
push_limit o l =
    let full = o.limits_count == o.limits_capa in
    let capa = if full then o.limits_capa + 8 else o.limits_capa in
    let limits = if full then realloc o.limits capa else o.limits in
    record {
      limits_count = o.limits_count + 1;
      limits_capa = capa;
      limits = set limits o.limits_count (some l);
    }

-- `PSC_RateLimitOpts_addLimit`; the result 0 is `true`, and -1 `false`
unfoldable pub add_limit : Opts → ℤ → ℤ → Bool × Opts
add_limit o (negsuc s) limit = (false, o)
add_limit o (pos s) (negsuc k) = (false, o)
add_limit o (pos s) (pos k) =
    if ltb s 1 || ltb 0xffff s || ltb k 1 || ltb 0xffff k
    then (false, o)
    else (true, push_limit o (make_limit s k))

-- the limits in the cells that `memcpy` copies
unfoldable pub stored : List (Option Limit) → List Limit
stored [] = []
stored (none ∷ cells) = stored cells
stored (some l ∷ cells) = l ∷ stored cells

-- `PSC_RateLimit_create`, with an empty dictionary
unfoldable pub create : {D : Type 0} → D → Opts → RateLimit D
create no_entries o = record {
  limits = stored (take o.limits_count o.limits);
  entries = no_entries;
  cleancount = clean_interval;
}

-- the loop of `PSC_RateLimitOpts_equals`
unfoldable pub equal_limits : List Limit → List Limit → Bool
equal_limits [] ks = true
equal_limits (l ∷ ls) [] = true
equal_limits (l ∷ ls) (k ∷ ks) =
    let rest = equal_limits ls ks in
    if l.seconds == k.seconds && l.limit == k.limit then rest else false

-- `PSC_RateLimitOpts_equals`
unfoldable pub equals : Opts → Opts → Bool
equals o p =
    if o.limits_count == p.limits_count
    then equal_limits (stored (take o.limits_count o.limits))
        (stored (take p.limits_count p.limits))
    else false
