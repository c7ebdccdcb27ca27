-- ===== src/IpAddr/ParseV4.antt =====
-- `parsev4` of ipaddr.c: it reads the string of an IPv4 address, and no string without a dot.
use poser.Prelude.{
  ℕ, suc, ◌+◌, ◌*◌, ◌<◌, ◌≡◌, refl, sym, ap, subst, ◌∙◌, inl, inr, List, [], ◌∷◌, ◌++◌, Option,
  none, some, true, false, ◌==◌, replicate, All, append-nil, Bool-cases, Option-cases, arith,
}
use poser.Prelude.Int.{ℤ, pos}
use poser.Prelude.Memory.{write_at}
use poser.Prelude.Numerals.{
  digit, scan, is_space, skip_space, sign, has_digit, skip_0x, strtol, numeral,
}
use poser.Prelude.ReadBack.{stops, strtol-numeral}
use poser.IpAddr.{in_range, after_byte, parsev4_loop, parsev4, print_v4}

in_range-byte : (n : ℕ) → n < 256 → in_range 255 (some (pos n)) ≡ some n
in_range-byte n h = ground arith

-- A byte that is read, and what stands behind it.
loop-byte :
    (left n : ℕ) (v4dat rest buf : List ℕ)
    → n < 256
    → stops 10 rest ≡ true
    → after_byte left rest ≡ some buf
    → parsev4_loop (suc left) v4dat (numeral 10 n ++ rest) ≡ parsev4_loop left (v4dat ++ n ∷ []) buf
unfolding parsev4_loop
loop-byte left n v4dat rest buf h st after =
    let e1 = strtol-numeral (inl refl) n rest (omega arith) st in
    rw (parsev4_loop, e1, in_range-byte n h, after) refl

dot_stops : (rest : List ℕ) → stops 10 (b'.' ∷ rest) ≡ true
unfolding digit
dot_stops rest = refl

loop-dotted :
    (left n : ℕ) (v4dat rest : List ℕ)
    → n < 256
    → parsev4_loop (suc (suc left)) v4dat (numeral 10 n ++ b'.' ∷ rest)
      ≡ parsev4_loop (suc left) (v4dat ++ n ∷ []) rest
loop-dotted left n v4dat rest h =
    loop-byte (suc left) n v4dat (b'.' ∷ rest) rest h (dot_stops rest) refl

loop-last :
    (n : ℕ) (v4dat : List ℕ)
    → n < 256
    → parsev4_loop 1 v4dat (numeral 10 n) ≡ some (v4dat ++ n ∷ [])
loop-last n v4dat h =
    ap (parsev4_loop 1 v4dat) (sym (append-nil (numeral 10 n)))
    ∙ loop-byte 0 n v4dat [] [] h refl refl
    ∙ unfold parsev4_loop in refl

parsev4-of :
    (buf v4dat : List ℕ)
    → parsev4_loop 4 [] buf ≡ some v4dat
    → parsev4 buf ≡ some (write_at (replicate 16 0) 12 v4dat)
unfolding parsev4
parsev4-of buf v4dat h = rw (h, parsev4) refl

-- `parsev4` reads the string of an IPv4 address as its four bytes, behind twelve that are 0.
pub parsev4-print_v4 :
    (a b c d : ℕ)
    → a < 256
    → b < 256
    → c < 256
    → d < 256
    → parsev4 (print_v4 (replicate 12 0 ++ a ∷ b ∷ c ∷ d ∷ []))
      ≡ some (replicate 12 0 ++ a ∷ b ∷ c ∷ d ∷ [])
parsev4-print_v4 a b c d ha hb hc hd =
    parsev4-of (print_v4 (replicate 12 0 ++ a ∷ b ∷ c ∷ d ∷ [])) (a ∷ b ∷ c ∷ d ∷ []) (
      loop-dotted 2 a [] (numeral 10 b ++ b'.' ∷ (numeral 10 c ++ b'.' ∷ numeral 10 d)) ha
      ∙ loop-dotted 1 b (a ∷ []) (numeral 10 c ++ b'.' ∷ numeral 10 d) hb
      ∙ loop-dotted 0 c (a ∷ b ∷ []) (numeral 10 d) hc
      ∙ loop-last d (a ∷ b ∷ c ∷ []) hd)

-- The string has no dot.
abbrev pub HasNoDot : List ℕ → Type 0
HasNoDot s = All (λ c. (c == b'.') ≡ false) s

skip_space-HasNoDot : (s : List ℕ) → HasNoDot s → HasNoDot (skip_space s)
unfolding skip_space
skip_space-HasNoDot [] a = tt
skip_space-HasNoDot (c ∷ s) (h, a) = elim (Bool-cases (is_space c)) [
  | inl space ↦ rw (space, skip_space) (skip_space-HasNoDot s a)
  | inr other ↦ rw (other, skip_space) (h, a)
]

sign-HasNoDot : (s : List ℕ) → HasNoDot s → HasNoDot ((sign s).1)
unfolding sign
sign-HasNoDot [] a = tt
sign-HasNoDot (c ∷ s) (h, a) = elim (Bool-cases (c == b'-')) [
  | inl minus ↦ rw (minus, sign) a
  | inr no_minus ↦ elim (Bool-cases (c == b'+')) [
    | inl plus ↦ rw (no_minus, plus, sign) a
    | inr other ↦ rw (no_minus, other, sign) (h, a)
  ]
]

scan-HasNoDot : (base acc : ℕ) (s : List ℕ) → HasNoDot s → HasNoDot ((scan base acc s).1)
unfolding scan
scan-HasNoDot base acc [] a = tt
scan-HasNoDot base acc (c ∷ s) (h, a) = elim (Option-cases (digit base c)) [
  | inl none_there ↦ rw (none_there, scan) (h, a)
  | inr (d, there) ↦ rw (there, scan) (scan-HasNoDot base (acc * base + d) s a)
]

skip_0x-10 : (s : List ℕ) → skip_0x 10 s ≡ s
unfolding skip_0x
skip_0x-10 [] = refl
skip_0x-10 (c ∷ []) = refl
skip_0x-10 (c ∷ x ∷ s) = refl

after_number : List ℕ → List ℕ
after_number s = (scan 10 0 ((sign (skip_space s)).1)).1

strtol-rest :
    (s rest : List ℕ) (value : Option ℤ) → strtol 10 s ≡ some (value, rest) → after_number s ≡ rest
unfolding strtol after_number
strtol-rest s rest value h =
    let t : List ℕ = (sign (skip_space s)).1 in
    elim (Bool-cases (has_digit 10 t)) [
      | inl digits ↦
          let e = rw (skip_0x-10 t, digits) at h in
          ap (λ o. elim o [ none ↦ [] | some (_, r) ↦ r ]) e
      | inr no_digit ↦ let e = rw (skip_0x-10 t, no_digit) at h in cc
    ]

after_number-HasNoDot : (s : List ℕ) → HasNoDot s → HasNoDot (after_number s)
unfolding after_number
after_number-HasNoDot s a =
    scan-HasNoDot 10 0 ((sign (skip_space s)).1)
      (sign-HasNoDot (skip_space s) (skip_space-HasNoDot s a))

no_byte : (left : ℕ) (rest : List ℕ) → HasNoDot rest → after_byte (suc left) rest ≡ none
no_byte left [] a = refl
no_byte left (c ∷ rest) (h, a) = rw h refl

loop-HasNoDot :
    (left : ℕ) (v4dat s : List ℕ) → HasNoDot s → parsev4_loop (suc (suc left)) v4dat s ≡ none
unfolding parsev4_loop
loop-HasNoDot left v4dat s a = elim (Option-cases (strtol 10 s)) [
  | inl no_number ↦ rw (parsev4_loop, no_number) refl
  | inr ((value, rest), number) ↦
      let free = subst HasNoDot (strtol-rest s rest value number) (after_number-HasNoDot s a) in
      elim (Option-cases (in_range 255 value)) [
        | inl outside ↦ rw (parsev4_loop, number, outside) refl
        | inr (byte, inside) ↦ rw (parsev4_loop, number, inside, no_byte left rest free) refl
      ]
]

-- `parsev4` takes no string without a dot.
pub parsev4-HasNoDot : (s : List ℕ) → HasNoDot s → parsev4 s ≡ none
unfolding parsev4
parsev4-HasNoDot s a = rw (loop-HasNoDot 2 [] s a, parsev4) refl
