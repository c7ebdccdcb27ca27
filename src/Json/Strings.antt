-- ===== src/Json/Strings.antt =====
-- The strings that the serializer of json.c writes are read back by its parser.
use poser.Prelude.{
  ℕ, zero, suc, ◌+◌, ◌*◌, ◌/◌, ◌%◌, ◌≤◌, ◌<◌, ◌≡◌, refl, sym, ap, ◌∙◌, inl, inr, bit_and, List, [],
  ◌∷◌, ◌++◌, none, some, Bool, true, false, not, ltb, ◌==◌, length, get_or, All, append_assoc,
  append-nil, length-append, Option-cases, ==→eq, arith,
}
use poser.Prelude.Bits.{holds_below, holds_below_lem}
use poser.Json.Serializer.{hex, escape}
use poser.Json.Parser.{
  parsed, nibble, nibbles, utf8, emits, after_u, unicode_step, escape_step, string_step,
  string_loop, parse_plain_string,
}
use poser.Json.Text.{escaped, quoted}

is_nibble : ℕ → Bool
is_nibble n = elim (nibble (get_or hex n 0)) [ none ↦ false | some m ↦ m == n ]

nibble_table : holds_below is_nibble 16 ≡ true
unfolding holds_below is_nibble nibble
nibble_table = refl

nibble-hex : (n : ℕ) → n < 16 → nibble (get_or hex n 0) ≡ some n
unfolding is_nibble
nibble-hex n h =
    let t : is_nibble n ≡ true = holds_below_lem is_nibble n 16 h nibble_table in
    elim (Option-cases (nibble (get_or hex n 0))) [
      | inl none_there ↦ let bad = rw (is_nibble, none_there) at t in absurd (cc)
      | inr (m, there) ↦ there ∙ ap some (==→eq m n (rw (is_nibble, there) at t))
    ]

no_surrogate_table : holds_below (λ c. not (bit_and c 0xfc00 == 0xd800)) 32 ≡ true
unfolding holds_below
no_surrogate_table = refl

no_surrogate : (c : ℕ) → c < 32 → (bit_and c 0xfc00 == 0xd800) ≡ false
no_surrogate c h =
    let t = holds_below_lem (λ c. not (bit_and c 0xfc00 == 0xd800)) c 32 h no_surrogate_table in
    not_true (bit_and c 0xfc00 == 0xd800) t
  where
    not_true : (b : Bool) → not b ≡ true → b ≡ false
    not_true true h = absurd (cc)
    not_true false h = refl

utf8-ascii : (c : ℕ) → c < 32 → utf8 c ≡ c ∷ []
unfolding utf8
utf8-ascii c h = let small : ltb c 0x80 ≡ true = ground arith in rw small refl

nibbles-hex :
    (c : ℕ) (rest : List ℕ)
    → c < 32
    → nibbles (b'0' ∷ b'0' ∷ get_or hex (c / 16) 0 ∷ get_or hex (c % 16) 0 ∷ rest) ≡ some (c, rest)
unfolding nibbles
nibbles-hex c rest h =
    let e' : (0 + c / 16) * 16 + c % 16 ≡ c = omega arith in
    rw
      (
        nibble-hex 0 (omega arith),
        nibble-hex (c / 16) (omega arith),
        nibble-hex (c % 16) (omega arith),
      )
      (ap (λ n. some (n, rest)) e')

unicode_step-hex :
    (c : ℕ) (rest : List ℕ)
    → c < 32
    → unicode_step (b'0' ∷ b'0' ∷ get_or hex (c / 16) 0 ∷ get_or hex (c % 16) 0 ∷ rest)
      ≡ emits (c ∷ []) rest
unfolding unicode_step
unicode_step-hex c rest h =
    let code = nibbles-hex c rest h in
    let bytes = utf8-ascii c h in
    elim (Option-cases (after_u rest)) [
      | inl other ↦ rw (unicode_step, code, other) (ap (λ bs. emits bs rest) bytes)
      | inr (low, there) ↦
          rw (unicode_step, code, there, no_surrogate c h) (ap (λ bs. emits bs rest) bytes)
    ]

string_step-escape :
    (c : ℕ) (rest : List ℕ) → c < 256 → string_step (escape c ++ rest) ≡ emits (c ∷ []) rest
unfolding string_step escape_step escape
string_step-escape c rest h = ground (arith, unicode_step-hex c rest)

-- A byte.
abbrev pub IsString : List ℕ → Type 0
IsString s = All (λ c. c < 256) s

string_loop-escaped :
    (s : List ℕ) (fuel : ℕ) (rest bytes : List ℕ)
    → IsString s
    → length s < fuel
    → string_loop fuel (escaped s ++ b'"' ∷ rest) bytes ≡ parsed (bytes ++ s) rest
unfolding string_loop escaped
string_loop-escaped s zero rest bytes a h = absurd (omega arith)
string_loop-escaped [] (suc fuel) rest bytes a h =
    unfold string_step in ap (λ t. parsed t rest) (sym (append-nil bytes))
string_loop-escaped (c ∷ s) (suc fuel) rest bytes (hc, a) h =
    let later : List ℕ = escaped s ++ b'"' ∷ rest in
    ap (λ t. string_loop (suc fuel) t bytes) (append_assoc (escape c) (escaped s) (b'"' ∷ rest))
    ∙ rw (string_loop, string_step-escape c later hc)
        (string_loop-escaped s fuel rest (bytes ++ c ∷ []) a (omega arith)
          ∙ ap (λ t. parsed t rest) (append_assoc bytes (c ∷ []) s))

length-escape : (c : ℕ) → 1 ≤ length (escape c)
unfolding escape
length-escape c = ground arith

pub length-escaped : (s : List ℕ) → length s ≤ length (escaped s)
unfolding escaped
length-escaped [] = omega arith
length-escaped (c ∷ s) =
    omega (arith, length-append (escape c) (escaped s), length-escape c, length-escaped s)

-- A string that is written in quotes is read up to the closing one.
pub parse_plain_string-quoted :
    (s rest : List ℕ) → IsString s → parse_plain_string (quoted s ++ rest) ≡ parsed s rest
unfolding parse_plain_string
parse_plain_string-quoted s rest a =
    let buf : List ℕ = escaped s ++ b'"' ∷ rest in
    let parts : (escaped s ++ b'"' ∷ []) ++ rest ≡ buf =
      append_assoc (escaped s) (b'"' ∷ []) rest in
    ap (λ t. string_loop (length t + 1) t []) parts
    ∙ string_loop-escaped s (length buf + 1) rest [] a
        (omega (arith, length-append (escaped s) (b'"' ∷ rest), length-escaped s))
