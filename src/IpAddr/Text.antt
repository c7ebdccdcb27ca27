-- ===== src/IpAddr/Text.antt =====
-- The strings that `toString` of ipaddr.c writes: their characters and their lengths.
use poser.Prelude.{
  ℕ, zero, suc, ◌+◌, ◌-◌, ◌*◌, ◌/◌, ◌^◌, ◌≤◌, ◌<◌, ◌≡◌, ◌⊎◌, refl, sym, ap, subst, ◌∙◌, inl, inr,
  List, [], ◌∷◌, ◌++◌, true, false, ltb, leb, ◌==◌, length, get_or, take, drop, All, length-append,
  length-take, length-drop, Bool-cases, ==→eq, ltb→le, arith,
}
use poser.Prelude.Bits.{holds_below, holds_below_lem}
use poser.Prelude.Numerals.{numeral_of, numeral}
use poser.Prelude.ReadBack.{plain, numeral-Written}
use poser.IpAddr.{words_of, find_gap, print_v4, print_v6}
use poser.IpAddr.Gap.{IsGap, gap-IsGap}
use poser.IpAddr.PrintV6.{more, lead, before_gap, gap_text, print_words-text}
use poser.IpAddr.ParseV6.{AreWords}
use poser.IpAddr.RoundTripV6.{AreBytes, words_of-IsSplit, All-take, All-drop}

-- The character is not in the string.
abbrev pub IsFree : ℕ → List ℕ → Type 0
IsFree c s = All (λ x. (x == c) ≡ false) s

pub IsFree-append : (c : ℕ) (xs ys : List ℕ) → IsFree c xs → IsFree c ys → IsFree c (xs ++ ys)
IsFree-append c [] ys a b = b
IsFree-append c (x ∷ xs) ys (h, a) b = (h, IsFree-append c xs ys a b)

plain-IsFree : (c : ℕ) → plain c ≡ false → (s : List ℕ) → All (λ x. plain x ≡ true) s → IsFree c s
plain-IsFree c odd [] a = tt
plain-IsFree c odd (x ∷ s) (h, a) = (
  elim (Bool-cases (x == c)) [
    | inl same ↦ let e = ==→eq x c same in let apart : true ≡ false = sym h ∙ ap plain e ∙ odd in cc
    | inr other ↦ other
  ],
  plain-IsFree c odd s a,
)

module _ (c : ℕ) (odd : plain c ≡ false) where
  pub numeral10-IsFree : (n : ℕ) → IsFree c (numeral 10 n)
  numeral10-IsFree n =
      let w = numeral-Written (inl refl) n in plain-IsFree c odd (numeral 10 n) w.all_plain

  numeral16-IsFree : (n : ℕ) → IsFree c (numeral 16 n)
  numeral16-IsFree n =
      let w = numeral-Written (inr refl) n in plain-IsFree c odd (numeral 16 n) w.all_plain

  module _ (colon : (b':' == c) ≡ false) where
    more-IsFree : (ws : List ℕ) → IsFree c (more ws)
    more-IsFree [] = tt
    more-IsFree (w ∷ ws) =
        (colon, IsFree-append c (numeral 16 w) (more ws) (numeral16-IsFree w) (more-IsFree ws))

    lead-IsFree : (ws : List ℕ) → IsFree c (lead ws)
    lead-IsFree [] = tt
    lead-IsFree (w ∷ ws) =
        IsFree-append c (numeral 16 w) (more ws) (numeral16-IsFree w) (more-IsFree ws)

    gap_text-IsFree : (gap gaplen : ℕ) (ws : List ℕ) → IsFree c (gap_text gap gaplen ws)
    gap_text-IsFree gap gaplen ws = elim (Bool-cases (gaplen == 0)) [
      | inl none_there ↦ rw none_there tt
      | inr some_there ↦ rw some_there (colon, (colon, lead-IsFree (drop (gap + gaplen) ws)))
    ]

    text-IsFree :
        (gap gaplen : ℕ) (ws : List ℕ)
        → IsFree c (lead (before_gap gap gaplen ws) ++ gap_text gap gaplen ws)
    text-IsFree gap gaplen ws =
        IsFree-append c (lead (before_gap gap gaplen ws)) (gap_text gap gaplen ws)
          (lead-IsFree (before_gap gap gaplen ws)) (gap_text-IsFree gap gaplen ws)

-- The numeral of a byte has three digits at most.
decimal_table : holds_below (λ n. leb (length (numeral 10 n)) 3) 256 ≡ true
unfolding holds_below numeral_of
decimal_table = refl

pub length-numeral10 : (n : ℕ) → n < 256 → length (numeral 10 n) ≤ 3
length-numeral10 n h =
    let e : leb (length (numeral 10 n)) 3 ≡ true =
      holds_below_lem (λ n. leb (length (numeral 10 n)) 3) n 256 h decimal_table in
    ground arith

-- One more digit for sixteen times the range.
longer :
    (m k : ℕ)
    → ((fuel n : ℕ) → n < fuel → n < m → length (numeral_of fuel 16 n) ≤ k)
    → (fuel n : ℕ) → n < fuel
    → n < 16 * m
    → length (numeral_of fuel 16 n) ≤ suc k
unfolding numeral_of
longer m k f zero n h small = absurd (omega arith)
longer m k f (suc fuel) n h small = elim (Bool-cases (ltb n 16)) [
  | inl short ↦ rw (short, numeral_of) (omega arith)
  | inr long ↦
      let ge = ltb→le n 16 long in
      let shorter : length (numeral_of fuel 16 (n / 16)) ≤ k =
        f fuel (n / 16) (omega arith) (omega arith) in
      rw (long, numeral_of, length-append) (omega arith)
]

one_digit : (fuel n : ℕ) → n < fuel → n < 16 → length (numeral_of fuel 16 n) ≤ 1
unfolding numeral_of
one_digit zero n h small = absurd (omega arith)
one_digit (suc fuel) n h small =
    let short : ltb n 16 ≡ true = ground arith in rw (short, numeral_of) (omega arith)

length-numeral16 : (n : ℕ) → n < 2 ^ 16 → length (numeral 16 n) ≤ 4
length-numeral16 n h =
    longer 4096 3 (longer 256 2 (longer 16 1 one_digit)) (suc n) n (omega arith) h

-- A string with from `low` to `high` characters.
abbrev pub IsWithin : ℕ → ℕ → List ℕ → Type 0
IsWithin low high s = (low ≤ length s) × (length s ≤ high)

some_digits : {base : ℕ} (n : ℕ) → (base ≡ 10) ⊎ (base ≡ 16) → 1 ≤ length (numeral base n)
some_digits n b =
    let w = numeral-Written b n in
    let e : length (numeral _ n) ≡ suc (length w.tail) = ap length w.parts in omega arith

pub numeral10-IsWithin : (n : ℕ) → n < 256 → IsWithin 1 3 (numeral 10 n)
numeral10-IsWithin n h = (some_digits n (inl refl), length-numeral10 n h)

more-IsWithin : (ws : List ℕ) → AreWords ws → IsWithin (2 * length ws) (5 * length ws) (more ws)
more-IsWithin [] a = (omega arith, omega arith)
more-IsWithin (w ∷ ws) (h, a) =
    let (lo, hi) = more-IsWithin ws a in
    let lo' = some_digits w (inr refl) in
    let hi' = length-numeral16 w h in
    let e = length-append (numeral 16 w) (more ws) in (omega arith, omega arith)

lead-IsWithin :
    (ws : List ℕ) → AreWords ws → IsWithin (2 * length ws - 1) (5 * length ws - 1) (lead ws)
lead-IsWithin [] a = (omega arith, omega arith)
lead-IsWithin (w ∷ ws) (h, a) =
    let (lo, hi) = more-IsWithin ws a in
    let lo' = some_digits w (inr refl) in
    let hi' = length-numeral16 w h in
    let e = length-append (numeral 16 w) (more ws) in (omega arith, omega arith)

text-IsWithin :
    (ws : List ℕ) (gap gaplen : ℕ)
    → length ws ≡ 8
    → AreWords ws
    → gap + gaplen ≤ 8
    → IsWithin 2 39 (lead (before_gap gap gaplen ws) ++ gap_text gap gaplen ws)
text-IsWithin ws gap gaplen eight a fits = elim (Bool-cases (gaplen == 0)) [
  | inl none_there ↦
      let (lo, hi) = lead-IsWithin ws a in
      let e = length-append (lead ws) [] in rw none_there (omega arith, omega arith)
  | inr some_there ↦
      let pre : List ℕ = take gap ws in
      let suf : List ℕ = drop (gap + gaplen) ws in
      let (_, hi) = lead-IsWithin pre (All-take (λ w. w < 2 ^ 16) gap ws a) in
      let (_, hi') = lead-IsWithin suf (All-drop (λ w. w < 2 ^ 16) (gap + gaplen) ws a) in
      let e = length-append (lead pre) (b':' ∷ b':' ∷ lead suf) in
      let lp = length-take gap ws in
      let ls = length-drop (gap + gaplen) ws in
      let wide : 0 < gaplen = ground arith in rw some_there (omega arith, omega arith)
]

-- The string of an IPv6 address without its prefix length has no dot and no slash, and from 2 to 39
-- characters.
pub record IsText (s : List ℕ) : Type 0 where
  pub no_dot : IsFree b'.' s
  pub no_slash : IsFree b'/' s
  pub within : IsWithin 2 39 s

pub print_v6-IsText :
    (bytes : List ℕ) → AreBytes bytes → length bytes ≡ 16 → IsText (print_v6 bytes)
unfolding print_v6
print_v6-IsText bytes a e =
    let s = words_of-IsSplit bytes 8 a e in
    let words : List ℕ = words_of bytes in
    let gap : ℕ = (find_gap 0 0 0 words).0 in
    let gaplen : ℕ = (find_gap 0 0 0 words).1 in
    let g : IsGap words 8 (gap, gaplen) =
      subst (λ n. IsGap words n (find_gap 0 0 0 words)) s.count (gap-IsGap words) in
    let text = sym (print_words-text words gap gaplen s.count g.within) in
    subst IsText text (record {
      no_dot = text-IsFree b'.' refl refl gap gaplen words;
      no_slash = text-IsFree b'/' refl refl gap gaplen words;
      within = text-IsWithin words gap gaplen s.count s.words g.within;
    })

-- The string of an IPv4 address without its prefix length has no slash, and from 7 to 15 characters.
pub print_v4-IsFree : (bytes : List ℕ) → IsFree b'/' (print_v4 bytes)
print_v4-IsFree bytes =
    let n : (i : ℕ) → IsFree b'/' (numeral 10 (get_or bytes i 0)) =
      λ i. numeral10-IsFree b'/' refl (get_or bytes i 0) in
    let join : (xs ys : List ℕ) → IsFree b'/' xs → IsFree b'/' ys → IsFree b'/' (xs ++ b'.' ∷ ys) =
      λ xs ys a b. IsFree-append b'/' xs (b'.' ∷ ys) a (refl, b) in
    let str : ℕ → List ℕ = λ i. numeral 10 (get_or bytes i 0) in
    join (str 12) (str 13 ++ b'.' ∷ (str 14 ++ b'.' ∷ str 15)) (n 12)
      (join (str 13) (str 14 ++ b'.' ∷ str 15) (n 13) (join (str 14) (str 15) (n 14) (n 15)))

pub get_or-byte : (bytes : List ℕ) (i : ℕ) → AreBytes bytes → get_or bytes i 0 < 2 ^ 8
get_or-byte [] i a = omega arith
get_or-byte (x ∷ bytes) zero (h, a) = h
get_or-byte (x ∷ bytes) (suc i) (h, a) = get_or-byte bytes i a

pub print_v4-IsWithin : (bytes : List ℕ) → AreBytes bytes → IsWithin 7 15 (print_v4 bytes)
print_v4-IsWithin bytes a =
    let str : ℕ → List ℕ = λ i. numeral 10 (get_or bytes i 0) in
    let n : (i : ℕ) → IsWithin 1 3 (str i) =
      λ i. numeral10-IsWithin (get_or bytes i 0) (get_or-byte bytes i a) in
    let e1 = length-append (str 12) (b'.' ∷ (str 13 ++ b'.' ∷ (str 14 ++ b'.' ∷ str 15))) in
    let e2 = length-append (str 13) (b'.' ∷ (str 14 ++ b'.' ∷ str 15)) in
    let e3 = length-append (str 14) (b'.' ∷ str 15) in
    let (l1, h1) = n 12 in
    let (l2, h2) = n 13 in let (l3, h3) = n 14 in let (l4, h4) = n 15 in (omega arith, omega arith)
