-- ===== src/Json/Lengths.antt =====
-- What the parts of the parser of json.c leave of the text is never longer than the text.
use poser.Prelude.{
  ℕ, zero, suc, ◌+◌, ◌≤◌, ◌<◌, ◌≡◌, refl, bit_and, inl, inr, List, [], ◌∷◌, ◌++◌, Option, none,
  some, Bool, true, false, ◌==◌, if◌then◌else◌, ◌*◌, length, drop, length-drop, Bool-cases,
  Option-cases, arith,
}
use poser.Prelude.Chars.{codes}
use poser.Prelude.Numerals.{digit, scan, skip_space, sign, skip_0x, has_digit, in_long, strtol}
use poser.Prelude.Int.{ℤ}
use poser.Json.{Doubles, strtoll, goes_on}
use poser.Json.Parser.{
  ◌>>=◌, Parsed, parsed, failed, out_of_fuel, skip_ws, after, nibble, nibbles, Step, closes, emits,
  breaks, utf8, pair_of, low_step, after_u, unicode_step, escape_step, string_step, string_loop,
  parse_plain_string, literal, parse_string, parse_number, parse_literal,
}

-- The function ends before it runs out of fuel, and leaves so many characters at most.
abbrev pub EndsWithin : {A : Type 0} → ℕ → Parsed A → Type 0
EndsWithin n (parsed x rest) = length rest ≤ n
EndsWithin n failed = Unit
EndsWithin n out_of_fuel = ⊥

pub weaker_end : {A : Type 0} (m n : ℕ) (p : Parsed A) → m ≤ n → EndsWithin m p → EndsWithin n p
weaker_end m n (parsed x rest) h k = omega arith
weaker_end m n failed h k = tt
weaker_end m n out_of_fuel h k = k

module _ {A B : Type 0} where
  pub then-EndsWithin :
      (m n : ℕ) (p : Parsed A) (k : A → List ℕ → Parsed B)
      → EndsWithin m p
      → ((x : A) (rest : List ℕ) → length rest ≤ m → EndsWithin n (k x rest))
      → EndsWithin n
          (elim p [ parsed x rest ↦ k x rest | failed ↦ failed | out_of_fuel ↦ out_of_fuel ])
  then-EndsWithin m n (parsed x rest) k h f = f x rest h
  then-EndsWithin m n failed k h f = tt
  then-EndsWithin m n out_of_fuel k h f = h

module _ {B : Type 0} where
  pub after-EndsWithin :
      (c n : ℕ) (s : List ℕ) (missing : Parsed B) (k : List ℕ → Parsed B)
      → EndsWithin n missing
      → ((rest : List ℕ) → length rest < length s → EndsWithin n (k rest))
      → EndsWithin n (elim (after c s) [ none ↦ missing | some rest ↦ k rest ])
  after-EndsWithin c n [] missing k h f = h
  after-EndsWithin c n (x ∷ s) missing k h f = elim (Bool-cases (x == c)) [
    | inl same ↦ rw same (f s (omega arith))
    | inr other ↦ rw other h
  ]

pub length-skip_ws : (s : List ℕ) → length (skip_ws s) ≤ length s
unfolding skip_ws
length-skip_ws [] = omega arith
length-skip_ws (c ∷ s) = ground (arith, length-skip_ws s)

length-scan : (base n : ℕ) (s : List ℕ) → length (scan base n s).1 ≤ length s
unfolding scan
length-scan base n [] = omega arith
length-scan base n (c ∷ s) = elim (Option-cases (digit base c)) [
  | inl none_there ↦ rw (length, none_there) (omega arith)
  | inr (e, there) ↦ rw (length, there) (omega (arith, length-scan base (n * base + e) s))
]

length-skip_space : (s : List ℕ) → length (skip_space s) ≤ length s
unfolding skip_space
length-skip_space [] = omega arith
length-skip_space (c ∷ s) = ground (arith, length-skip_space s)

length-sign : (s : List ℕ) → length (sign s).1 ≤ length s
unfolding sign
length-sign [] = omega arith
length-sign (c ∷ s) = ground arith

skip_0x_decimal : (s : List ℕ) → skip_0x 10 s ≡ s
unfolding skip_0x
skip_0x_decimal [] = refl
skip_0x_decimal (c ∷ []) = refl
skip_0x_decimal (c ∷ x ∷ s) = refl

pub length-strtoll : (s : List ℕ) → length (strtoll s).1 ≤ length s
unfolding strtoll strtol
length-strtoll s =
    let t : List ℕ = (sign (skip_space s)).1 in
    let fewer : length (scan 10 0 t).1 ≤ length s =
      omega (arith, length-scan 10 0 t, length-sign (skip_space s), length-skip_space s) in
    let value : Option ℤ = in_long (sign (skip_space s)).0 (scan 10 0 t).0 in
    elim (Bool-cases (has_digit 10 t)) [
      | inr no_number ↦ rw (length, skip_0x_decimal t, no_number) (omega arith)
      | inl number ↦ elim (Option-cases value) [
        | inl beyond ↦ rw (length, skip_0x_decimal t, number, beyond) fewer
        | inr (n, fits) ↦ rw (length, skip_0x_decimal t, number, fits) fewer
      ]
    ]

-- What a round of the loop leaves of the text.
abbrev StepWithin : ℕ → Step → Type 0
StepWithin n (closes rest) = length rest < n
StepWithin n (emits more rest) = length rest < n
StepWithin n breaks = Unit

weaker : (m n : ℕ) (s : Step) → m ≤ n → StepWithin m s → StepWithin n s
weaker m n (closes rest) h k = omega arith
weaker m n (emits more rest) h k = omega arith
weaker m n breaks h k = tt

bind-StepWithin :
    (n : ℕ) (o : Option ℕ) (g : ℕ → Option (ℕ × List ℕ)) (k : ℕ → List ℕ → Step)
    → ((x : ℕ) → StepWithin n (elim (g x) [ none ↦ breaks | some (code, rest) ↦ k code rest ]))
    → StepWithin n (elim (o >>= g) [ none ↦ breaks | some (code, rest) ↦ k code rest ])
bind-StepWithin n none g k f = tt
bind-StepWithin n (some x) g k f = f x

nibbles-StepWithin :
    (s : List ℕ) (k : ℕ → List ℕ → Step)
    → ((code : ℕ) (rest : List ℕ) → length rest < length s → StepWithin (length s) (k code rest))
    → StepWithin (length s) (elim (nibbles s) [ none ↦ breaks | some (code, rest) ↦ k code rest ])
unfolding nibbles
nibbles-StepWithin [] k f = tt
nibbles-StepWithin (a ∷ []) k f = tt
nibbles-StepWithin (a ∷ b ∷ []) k f = tt
nibbles-StepWithin (a ∷ b ∷ c ∷ []) k f = tt
nibbles-StepWithin (a ∷ b ∷ c ∷ e ∷ rest) k f =
    let n = length (a ∷ b ∷ c ∷ e ∷ rest) in
    bind-StepWithin n (nibble a) _ k (λ na. bind-StepWithin n (nibble b) _ k (λ nb.
      bind-StepWithin n (nibble c) _ k (λ nc.
        bind-StepWithin n (nibble e) _ k
          (λ ne. f (((na * 16 + nb) * 16 + nc) * 16 + ne) rest (omega arith)))))

after-StepWithin :
    (c n : ℕ) (s : List ℕ) (missing : Step) (k : List ℕ → Step)
    → StepWithin n missing
    → ((rest : List ℕ) → length rest < length s → StepWithin n (k rest))
    → StepWithin n (elim (after c s) [ none ↦ missing | some rest ↦ k rest ])
after-StepWithin c n [] missing k h f = h
after-StepWithin c n (x ∷ s) missing k h f = elim (Bool-cases (x == c)) [
  | inl same ↦ rw same (f s (omega arith))
  | inr other ↦ rw other h
]

after_u-StepWithin :
    (n : ℕ) (s : List ℕ) (missing : Step) (k : List ℕ → Step)
    → StepWithin n missing
    → ((rest : List ℕ) → length rest < length s → StepWithin n (k rest))
    → StepWithin n (elim (after_u s) [ none ↦ missing | some rest ↦ k rest ])
after_u-StepWithin n [] missing k h f = h
after_u-StepWithin n (x ∷ s) missing k h f = elim (Bool-cases (x == b'\\')) [
  | inl same ↦ rw same (after-StepWithin b'u' n s missing k h (λ rest l. f rest (omega arith)))
  | inr other ↦ rw other h
]

either-StepWithin :
    (n : ℕ) (b : Bool) (p q : Step)
    → StepWithin n p
    → StepWithin n q
    → StepWithin n (if b then p else q)
either-StepWithin n true p q h k = h
either-StepWithin n false p q h k = k

low_step-StepWithin : (high : ℕ) (s : List ℕ) → StepWithin (length s) (low_step high s)
unfolding low_step
low_step-StepWithin high s = nibbles-StepWithin s _ (λ low rest l.
    either-StepWithin (length s) (bit_and low 0xfc00 == 0xdc00)
      (emits (utf8 (pair_of high low)) rest) breaks l tt)

unicode_step-StepWithin : (s : List ℕ) → StepWithin (length s) (unicode_step s)
unfolding unicode_step
unicode_step-StepWithin s = nibbles-StepWithin s _ (λ code rest l.
    let plain : Step = emits (utf8 code) rest in
    after_u-StepWithin (length s) rest plain _ l (λ rest' l'.
      either-StepWithin (length s) (bit_and code 0xfc00 == 0xd800) (low_step code rest') plain
        (weaker (length rest') (length s) (low_step code rest') (omega arith)
          (low_step-StepWithin code rest'))
        l))

step-StepWithin : (s : List ℕ) → StepWithin (length s) (string_step s)
unfolding string_step escape_step
step-StepWithin [] = tt
step-StepWithin (c ∷ []) = ground arith
step-StepWithin (c ∷ e ∷ s) = ground (
  arith,
  weaker (length s) (suc (suc (length s))) (unicode_step s) (omega arith)
      (unicode_step-StepWithin s),
)

pub string_loop-EndsWithin :
    (fuel : ℕ) (s bytes : List ℕ)
    → length s < fuel
    → EndsWithin (length s) (string_loop fuel s bytes)
unfolding string_loop
string_loop-EndsWithin zero s bytes h = absurd (omega arith)
string_loop-EndsWithin (suc fuel) s bytes h =
    loop (string_step s) (step-StepWithin s)
      (λ rest more l. string_loop-EndsWithin fuel rest (bytes ++ more) (omega arith))
  where
    loop :
        (step : Step)
        → StepWithin (length s) step
        → ((rest more : List ℕ)
            → length rest < length s
            → EndsWithin (length rest) (string_loop fuel rest (bytes ++ more)))
        → EndsWithin (length s) (elim step [
          | closes rest ↦ parsed bytes rest
          | emits more rest ↦ string_loop fuel rest (bytes ++ more)
          | breaks ↦ failed
        ])
    loop (closes rest) l f = omega arith
    loop (emits more rest) l f =
        weaker_end (length rest) (length s) (string_loop fuel rest (bytes ++ more)) (omega arith)
          (f rest more l)
    loop breaks l f = tt

pub parse_plain_string-EndsWithin : (s : List ℕ) → EndsWithin (length s) (parse_plain_string s)
unfolding parse_plain_string
parse_plain_string-EndsWithin s =
    let buf : List ℕ = drop 1 s in
    weaker_end (length buf) (length s) (string_loop (length buf + 1) buf [])
      (omega (arith, length-drop 1 s))
      (string_loop-EndsWithin (length buf + 1) buf [] (omega arith))

literal-EndsWithin :
    {B : Type 0} (lit s : List ℕ) (n : ℕ) (missing : Parsed B) (x : B)
    → length s ≤ n
    → EndsWithin n missing
    → EndsWithin n (elim (literal lit s) [ some rest ↦ parsed x rest | none ↦ missing ])
literal-EndsWithin [] s n missing x l h = l
literal-EndsWithin (c ∷ lit) [] n missing x l h = h
literal-EndsWithin (c ∷ lit) (y ∷ s) n missing x l h = elim (Bool-cases (y == c)) [
  | inl same ↦ rw same (literal-EndsWithin lit s n missing x (omega arith) h)
  | inr other ↦ rw other h
]

module _ {F : Type 0} (d : Doubles F) where
  pub parse_string-EndsWithin : (s : List ℕ) → EndsWithin (length s) (parse_string d s)
  unfolding parse_string
  parse_string-EndsWithin s =
      then-EndsWithin (length s) (length s) (parse_plain_string s) _
        (parse_plain_string-EndsWithin s) (λ str rest l. l)

  pub parse_number-EndsWithin : (s : List ℕ) → EndsWithin (length s) (parse_number d s)
  unfolding parse_number
  parse_number-EndsWithin s = elim (Bool-cases (goes_on (strtoll s).1)) [
    | inr whole ↦ elim (Bool-cases (length (strtoll s).1 == length s)) [
      | inl none_read ↦ rw (whole, none_read) tt
      | inr some_read ↦ rw (whole, some_read) (length-strtoll s)
    ]
    | inl float ↦ elim (Option-cases (d.strtod s)) [
      | inl none_read ↦ rw (float, none_read) tt
      | inr ((x, n), there) ↦ rw (float, there) (omega (arith, length-drop n s))
    ]
  ]

  pub parse_literal-EndsWithin : (s : List ℕ) → EndsWithin (length s) (parse_literal d s)
  unfolding parse_literal
  parse_literal-EndsWithin s = literal-EndsWithin (codes "null") s (length s) _ _ (omega arith) (
      literal-EndsWithin (codes "false") s (length s) _ _ (omega arith)
        (literal-EndsWithin (codes "true") s (length s) failed _ (omega arith) tt))
