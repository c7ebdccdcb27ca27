-- ===== src/Json/Numbers.antt =====
-- The integers that the serializer of json.c writes are read back by its parser.
use poser.Prelude.{
  ℕ, suc, ◌+◌, ◌^◌, ◌<◌, ◌≡◌, refl, ap, inl, List, [], ◌∷◌, ◌++◌, some, Bool, true, false, ◌||◌,
  ◌==◌, length, length-append, arith,
}
use poser.Prelude.Int.{ℤ, pos, negsuc}
use poser.Prelude.Numerals.{digit, has_digit, numeral}
use poser.Prelude.ReadBack.{stops, numeral-Written, strtol-numeral, strtol-minus}
use poser.Json.{integer, Doubles, strtoll, integer_text, goes_on}
use poser.Json.Parser.{parsed, is_number_char, parse_number}

-- What may stand behind a value in a text without white space.
abbrev pub ends : List ℕ → Bool
ends [] = true
ends (c ∷ s) = c == b',' || c == b']' || c == b'}'

ends-stops : (rest : List ℕ) → ends rest ≡ true → stops 10 rest ≡ true
unfolding digit
ends-stops [] h = refl
ends-stops (c ∷ s) h = ground arith

ends-goes_on : (rest : List ℕ) → ends rest ≡ true → goes_on rest ≡ false
ends-goes_on [] h = refl
ends-goes_on (c ∷ s) h = ground arith

-- An integer that 64 bits hold.
abbrev pub IsInt64 : ℤ → Type 0
IsInt64 (pos n) = n < 2 ^ 63
IsInt64 (negsuc n) = n < 2 ^ 63

strtoll-integer_text :
    (z : ℤ) (rest : List ℕ)
    → IsInt64 z
    → ends rest ≡ true
    → strtoll (integer_text z ++ rest) ≡ (z, rest)
unfolding strtoll integer_text
strtoll-integer_text (pos n) rest h e =
    rw (strtoll, strtol-numeral (inl refl) n rest h (ends-stops rest e)) refl
strtoll-integer_text (negsuc n) rest h e =
    rw (strtoll, strtol-minus (inl refl) n rest h (ends-stops rest e)) refl

-- The first character of an integer is one that `parse` takes for a number.
pub record IsNumber (s : List ℕ) : Type 0 where
  pub head : ℕ
  pub tail : List ℕ
  pub parts : s ≡ head ∷ tail
  pub starts : is_number_char head ≡ true

digit_starts : (c : ℕ) (s : List ℕ) → has_digit 10 (c ∷ s) ≡ true → is_number_char c ≡ true
unfolding digit
digit_starts c s h = ground arith

pub integer_text-IsNumber : (z : ℤ) → IsNumber (integer_text z)
unfolding integer_text
integer_text-IsNumber (pos n) =
    let w = numeral-Written (inl refl) n in
    record {
      head = w.head;
      tail = w.tail;
      parts = w.parts;
      starts = digit_starts w.head [] (w.is_first []);
    }
integer_text-IsNumber (negsuc n) = record {
  head = b'-';
  tail = numeral 10 (n + 1);
  parts = refl;
  starts = refl;
}

pub parse_number-integer_text :
    {F : Type 0} (d : Doubles F) (z : ℤ) (rest : List ℕ)
    → IsInt64 z
    → ends rest ≡ true
    → parse_number d (integer_text z ++ rest) ≡ parsed (some (integer z)) rest
unfolding parse_number
parse_number-integer_text d z rest h e =
    let s : List ℕ = integer_text z ++ rest in
    let n = integer_text-IsNumber z in
    let l : length (integer_text z) ≡ suc (length n.tail) = ap length n.parts in
    let l' = length-append (integer_text z) rest in
    let longer : (length rest == length s) ≡ false = ground arith in
    rw (strtoll-integer_text z rest h e, ends-goes_on rest e, longer) refl
