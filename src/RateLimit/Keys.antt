-- ===== src/RateLimit/Keys.antt =====
-- `PSC_RateLimit_check` over the entries of all keys.
use poser.Prelude.{
  ℕ, ◌+◌, ◌-◌, ◌/◌, ◌^◌, ◌≡◌, ◌⊎◌, inl, inr, refl, sym, subst, ap₂, ◌∙◌, List, [], ◌∷◌, Option,
  none, some, Bool, true, false, ◌&&◌, ltb, ◌==◌, if◌then◌else◌, All, Bool-cases, Option-cases,
  arith,
}
use poser.RateLimit.{
  u16, Entry, Limit, expired, check_limits, fresh, Dictionary, RateLimit, clean, lookup, check,
}
use poser.RateLimit.Window.{IsValid, zeroed-IsValid}
use poser.RateLimit.Check.{used, check_limit-seen}
use poser.RateLimit.Options.{IsFitting}

-- an object, unless the test selects it
abbrev pub unless : {A : Type 0} → (A → Bool) → Option A → Option A
unless p none = none
unless p (some a) = if p a then none else some a

-- What src/include/poser/core/dictionary.h documents of the three operations.
pub record Laws {D K : Type 0} (dict : Dictionary D K) (same : K → K → Bool) : Type 0 where
  pub get-set :
      (d : D) (k : K) (es : List Entry) (q : K)
      → dict.get (dict.set d k es) q ≡ (if same k q then some es else dict.get d q)
  pub get-remove_all :
      (d : D) (p : List Entry → Bool) (q : K)
      → dict.get (dict.remove_all d p) q ≡ unless p (dict.get d q)

-- One valid entry for each limit.
abbrev pub Fits : List Limit → List Entry → Type 0
Fits [] [] = Unit
Fits [] (e ∷ es) = ⊥
Fits (l ∷ ls) [] = ⊥
Fits (l ∷ ls) (e ∷ es) = IsValid l e × Fits ls es

-- Each limit has room at the time `tv_sec` in the entries of a key.
abbrev pub has_room : List Limit → ℕ → List Entry → Bool
has_room [] tv_sec es = true
has_room (l ∷ ls) tv_sec [] = true
has_room (l ∷ ls) tv_sec (e ∷ es) =
    let rest = has_room ls tv_sec es in ltb (used l (u16 (tv_sec / l.res)) e) l.limit && rest

pub fresh-Fits : (ls : List Limit) (tv_sec : ℕ) → All IsFitting ls → Fits ls (fresh ls tv_sec)
unfolding fresh
fresh-Fits [] tv_sec h = tt
fresh-Fits (l ∷ ls) tv_sec (f, h) =
    (zeroed-IsValid l _ f.periods f.most f.word (omega arith), fresh-Fits ls tv_sec h)

-- The limits are checked one by one, and the request passes if it passes all.
check_limits-Fits :
    (ls : List Limit) (tv_sec : ℕ) (es : List Entry)
    → Fits ls es
    → ((check_limits ls tv_sec es).0 ≡ has_room ls tv_sec es)
      × Fits ls (check_limits ls tv_sec es).1
unfolding check_limits
check_limits-Fits [] tv_sec [] h = (refl, tt)
check_limits-Fits [] tv_sec (e ∷ es) h = absurd h
check_limits-Fits (l ∷ ls) tv_sec [] h = absurd h
check_limits-Fits (l ∷ ls) tv_sec (e ∷ es) (v, h) =
    let (answer, valid, _, _) = check_limit-seen l tv_sec v in
    let (answers, rest) = check_limits-Fits ls tv_sec es h in
    (ap₂ (λ a b. a && b) answer answers, (valid, rest))

pub none-some : {A : Type 0} {o : Option A} {a : A} → o ≡ none → o ≡ some a → ⊥
none-some h k = cc

pub some_injective : {A : Type 0} {a b : A} → some a ≡ some b → a ≡ b
some_injective h = cc

if_true : {A : Type 0} {b : Bool} (x y : A) → b ≡ true → (if b then x else y) ≡ x
if_true x y h = rw h refl

if_false : {A : Type 0} {b : Bool} (x y : A) → b ≡ false → (if b then x else y) ≡ y
if_false x y h = rw h refl

module _ {D K : Type 0} (dict : Dictionary D K) (same_key : K → K → Bool)
    (laws : Laws dict same_key) where
  -- Every key has one valid entry for each limit, and the limits are ones that options can hold.
  pub record AllFit (r : RateLimit D) : Type 0 where
    pub limits : All IsFitting r.limits
    pub entries : (q : K) (es : List Entry) → dict.get r.entries q ≡ some es → Fits r.limits es

  module _ {r : RateLimit D} (v : AllFit r) (tv_sec : ℕ) (key : K) where
    lookup-Fits : Fits r.limits (lookup dict r tv_sec key)
    unfolding lookup
    lookup-Fits = elim (Option-cases (dict.get r.entries key)) [
      | inl absent ↦ rw (absent, lookup) (fresh-Fits r.limits tv_sec v.limits)
      | inr (es, there) ↦ rw (there, lookup) (v.entries key es there)
    ]

    -- A call either keeps a key's entries, or drops expired ones.
    get-clean :
        (q : K)
        → (dict.get (clean dict r tv_sec).entries q ≡ dict.get r.entries q)
          ⊎ ((es : List Entry) × (dict.get r.entries q ≡ some es)
              × (expired r.limits tv_sec es ≡ true)
              × (dict.get (clean dict r tv_sec).entries q ≡ none))
    unfolding clean
    get-clean q = elim (Bool-cases (u16 (r.cleancount + 2 ^ 16 - 1) == 0)) [
      | inr later ↦ rw later (inl refl)
      | inl due ↦
          rw (due, laws.get-remove_all)
            (elim (Option-cases (dict.get r.entries q)) [
              | inl absent ↦ rw absent (inl refl)
              | inr (es, there) ↦ elim (Bool-cases (expired r.limits tv_sec es)) [
                | inl old ↦ rw (there, old) (inr (es, refl, old, refl))
                | inr live ↦ rw (there, live) (inl refl)
              ]
            ])
    ]

    limits-clean : (clean dict r tv_sec).limits ≡ r.limits
    unfolding clean
    limits-clean = elim (Bool-cases (u16 (r.cleancount + 2 ^ 16 - 1) == 0)) [
      | inl due ↦ rw due
      | inr later ↦ rw later
    ]

    clean-AllFit : AllFit (clean dict r tv_sec)
    clean-AllFit = record {
      limits = subst (λ ls. All IsFitting ls) (sym limits-clean) v.limits;
      entries = λ q es h.
          subst (λ ls. Fits ls es) (sym limits-clean)
            (elim (get-clean q) [
              | inl same ↦ v.entries q es (sym same ∙ h)
              | inr (old, _, _, gone) ↦ absurd (none-some gone h)
            ]);
    }

  -- Over a dictionary as documented, and whatever the clock gives, a call leaves every key that has
  -- entries with one valid entry for each limit, if that was so before.
  pub check-AllFit :
      {r : RateLimit D} (v : AllFit r) (clock : Option ℕ) (key : K)
      → AllFit (check dict r clock key).1
  unfolding check
  check-AllFit v none key = v
  check-AllFit {r} v (some tv_sec) key =
      let w : AllFit (clean dict r tv_sec) = clean-AllFit v tv_sec key in
      let old : List Entry = lookup dict (clean dict r tv_sec) tv_sec key in
      let same : (clean dict r tv_sec).limits ≡ r.limits = limits-clean v tv_sec key in
      let fits : Fits r.limits old = subst (λ ls. Fits ls old) same (lookup-Fits w tv_sec key) in
      let stored : (q : K) (es : List Entry)
          → dict.get (check dict r (some tv_sec) key).1.entries q ≡ some es
          → (if same_key key q
              then some (check_limits r.limits tv_sec old).1
              else dict.get (clean dict r tv_sec).entries q)
            ≡ some es =
        λ q es h.
          sym
            (laws.get-set (clean dict r tv_sec).entries key (check_limits r.limits tv_sec old).1 q)
          ∙ h in
      record {
        limits = w.limits;
        entries = λ q es h. elim (Bool-cases (same_key key q)) [
          | inl this ↦
              let e : (check_limits r.limits tv_sec old).1 ≡ es =
                some_injective (sym (if_true _ _ this) ∙ stored q es h) in
              subst (λ x. Fits (clean dict r tv_sec).limits x) e
                (subst (λ ls. Fits ls (check_limits r.limits tv_sec old).1) (sym same)
                  (check_limits-Fits r.limits tv_sec old fits).1)
          | inr other ↦ w.entries q es (sym (if_false _ _ other) ∙ stored q es h)
        ];
      }
