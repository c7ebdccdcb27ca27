-- ===== src/IpAddr/PrintV6.antt =====
-- The string of an IPv6 address in ipaddr.c: words with a colon between them, and `::` for a gap.
use poser.Prelude.{
  ℕ, zero, suc, ◌+◌, ◌≤◌, ◌<◌, ◌≡◌, ◌⊎◌, refl, sym, ap, ◌∙◌, inl, inr, List, [], ◌∷◌, ◌++◌, Bool,
  true, false, ◌&&◌, ltb, leb, ◌==◌, if◌then◌else◌, length, get_or, take, drop, append_assoc,
  append-nil, Bool-cases, ==→eq, arith,
}
use poser.Prelude.Numerals.{numeral}
use poser.IpAddr.{print_words}

-- words, each behind a colon
abbrev pub more : List ℕ → List ℕ
more [] = []
more (w ∷ ws) = b':' ∷ (numeral 16 w ++ more ws)

-- words with a colon between them
abbrev pub lead : List ℕ → List ℕ
lead [] = []
lead (w ∷ ws) = numeral 16 w ++ more ws

-- words, the first behind a colon if one is needed
abbrev pub printed : Bool → List ℕ → List ℕ
printed true ws = more ws
printed false ws = lead ws

printed-cons :
    (needcolon : Bool) (w : ℕ) (ws : List ℕ)
    → (if needcolon then b':' ∷ [] else []) ++ (numeral 16 w ++ more ws)
      ≡ printed needcolon (w ∷ ws)
printed-cons true w ws = refl
printed-cons false w ws = refl

nothing : (needcolon : Bool) → [] ≡ printed needcolon []
nothing true = refl
nothing false = refl

nothing_before : (needcolon : Bool) (back : List ℕ) → back ≡ printed needcolon [] ++ back
nothing_before true back = refl
nothing_before false back = refl

printed-append :
    (needcolon : Bool) (w : ℕ) (ws back : List ℕ)
    → (if needcolon then b':' ∷ [] else []) ++ (numeral 16 w ++ (more ws ++ back))
      ≡ printed needcolon (w ∷ ws) ++ back
printed-append true w ws back =
    ap (λ t. b':' ∷ t) (sym (append_assoc (numeral 16 w) (more ws) back))
printed-append false w ws back = sym (append_assoc (numeral 16 w) (more ws) back)

drop-suc : (xs : List ℕ) (i : ℕ) → i < length xs → drop i xs ≡ get_or xs i 0 ∷ drop (suc i) xs
drop-suc [] i h = absurd (omega arith)
drop-suc (x ∷ xs) zero h = refl
drop-suc (x ∷ xs) (suc i) h = drop-suc xs i (omega arith)

pub drop-step : (xs : List ℕ) (i : ℕ) → i < length xs → drop i xs ≡ get_or xs i 0 ∷ drop (i + 1) xs
drop-step xs i h =
    let e : suc i ≡ i + 1 = omega arith in drop-suc xs i h ∙ ap (λ k. get_or xs i 0 ∷ drop k xs) e

pub drop-beyond : (xs : List ℕ) (i : ℕ) → length xs ≤ i → drop i xs ≡ []
drop-beyond [] zero h = refl
drop-beyond [] (suc i) h = refl
drop-beyond (x ∷ xs) zero h = absurd (omega arith)
drop-beyond (x ∷ xs) (suc i) h = drop-beyond xs i (omega arith)

module _ (words : List ℕ) (eight : length words ≡ 8) (gap gaplen : ℕ) where
  print-end :
      (rounds i : ℕ) (needcolon : Bool)
      → leb 8 i ≡ true
      → print_words (suc rounds) words gap gaplen i needcolon ≡ []
  unfolding print_words
  print-end rounds i needcolon h = rw (h, print_words) refl

  print-gap :
      (rounds i : ℕ) (needcolon : Bool)
      → leb 8 i ≡ false
      → (i == gap && ltb 0 gaplen) ≡ true
      → print_words (suc rounds) words gap gaplen i needcolon
        ≡ b':' ∷ b':' ∷ print_words rounds words gap gaplen (i + gaplen) false
  unfolding print_words
  print-gap rounds i needcolon h t = rw (h, t, print_words) refl

  print-word :
      (rounds i : ℕ) (needcolon : Bool)
      → leb 8 i ≡ false
      → (i == gap && ltb 0 gaplen) ≡ false
      → print_words (suc rounds) words gap gaplen i needcolon
        ≡ (if needcolon then b':' ∷ [] else [])
          ++ (numeral 16 (get_or words i 0) ++ print_words rounds words gap gaplen (i + 1) true)
  unfolding print_words
  print-word rounds i needcolon h t = rw (h, t, print_words) refl

  -- Where no gap comes, the words that are left are printed.
  print_words-rest :
      (rounds i : ℕ) (needcolon : Bool)
      → 8 ≤ rounds + i
      → (gap < i) ⊎ (gaplen ≡ 0)
      → print_words rounds words gap gaplen i needcolon ≡ printed needcolon (drop i words)
  print_words-rest zero i needcolon h past =
      unfold print_words in rw (drop-beyond words i (omega arith)) (nothing needcolon)
  print_words-rest (suc rounds) i needcolon h past = elim (Bool-cases (leb 8 i)) [
    | inl beyond ↦
        rw (drop-beyond words i (ground arith))
          (print-end rounds i needcolon beyond ∙ nothing needcolon)
    | inr inside ↦
        let no_gap : (i == gap && ltb 0 gaplen) ≡ false = ground arith in
        let next : (gap < i + 1) ⊎ (gaplen ≡ 0) = ground arith in
        let step = drop-step words i (ground arith) in
        print-word rounds i needcolon inside no_gap
        ∙ ap (λ t. (if needcolon then b':' ∷ [] else []) ++ (numeral 16 (get_or words i 0) ++ t))
            (print_words-rest rounds (i + 1) true (omega arith) next)
        ∙ printed-cons needcolon (get_or words i 0) (drop (i + 1) words)
        ∙ ap (printed needcolon) (sym step)
  ]

  -- Before the gap the words up to it are printed, and behind it those that are left.
  print_words-gap :
      (rounds i : ℕ) (needcolon : Bool) (before : ℕ)
      → 8 ≤ rounds + i
      → i + before ≡ gap
      → 0 < gaplen
      → gap + gaplen ≤ 8
      → print_words rounds words gap gaplen i needcolon
        ≡ printed needcolon (take before (drop i words))
          ++ b':' ∷ b':' ∷ lead (drop (gap + gaplen) words)
  print_words-gap zero i needcolon before h at some_gap fits = absurd (omega arith)
  print_words-gap (suc rounds) i needcolon zero h at some_gap fits =
      let here : (i == gap && ltb 0 gaplen) ≡ true = ground arith in
      let inside : leb 8 i ≡ false = ground arith in
      let same : i + gaplen ≡ gap + gaplen = omega arith in
      print-gap rounds i needcolon inside here
      ∙ ap (λ t. b':' ∷ b':' ∷ t)
          (print_words-rest rounds (i + gaplen) false (omega arith) (inl (omega arith))
            ∙ ap (λ k. lead (drop k words)) same)
      ∙ nothing_before needcolon (b':' ∷ b':' ∷ lead (drop (gap + gaplen) words))
  print_words-gap (suc rounds) i needcolon (suc before) h at some_gap fits =
      let no_gap : (i == gap && ltb 0 gaplen) ≡ false = ground arith in
      let inside : leb 8 i ≡ false = ground arith in
      let step = drop-step words i (omega arith) in
      let back : List ℕ = b':' ∷ b':' ∷ lead (drop (gap + gaplen) words) in
      let ws : List ℕ = take before (drop (i + 1) words) in
      print-word rounds i needcolon inside no_gap
      ∙ ap (λ t. (if needcolon then b':' ∷ [] else []) ++ (numeral 16 (get_or words i 0) ++ t))
          (print_words-gap rounds (i + 1) true before (omega arith) (omega arith) some_gap fits)
      ∙ printed-append needcolon (get_or words i 0) ws back
      ∙ ap (λ xs. printed needcolon (take (suc before) xs) ++ back) (sym step)

-- the words before a gap and behind it, or all of them
abbrev pub before_gap : ℕ → ℕ → List ℕ → List ℕ
before_gap gap gaplen words = if gaplen == 0 then words else take gap words

abbrev pub gap_text : ℕ → ℕ → List ℕ → List ℕ
gap_text gap gaplen words =
    if gaplen == 0 then [] else b':' ∷ b':' ∷ lead (drop (gap + gaplen) words)

-- The string of eight words: those before the gap, then `::` and those behind it.
pub print_words-text :
    (words : List ℕ) (gap gaplen : ℕ)
    → length words ≡ 8
    → gap + gaplen ≤ 8
    → print_words 8 words gap gaplen 0 false
      ≡ lead (before_gap gap gaplen words) ++ gap_text gap gaplen words
print_words-text words gap gaplen eight fits = elim (Bool-cases (gaplen == 0)) [
  | inl none_there ↦ rw none_there (
      print_words-rest words eight gap gaplen 8 0 false (omega arith)
        (inr (==→eq gaplen 0 none_there))
      ∙ sym (append-nil (lead words)))
  | inr some_there ↦ rw some_there (
      print_words-gap words eight gap gaplen 8 0 false gap (omega arith) (omega arith)
        (ground arith) fits)
]
