-- ===== src/Json/Parser.antt =====
-- The parser of json.c, on what is left of the text; reading behind its end gives the terminator. Each
-- round of a loop and each call inside one takes a unit of the fuel.
use poser.Prelude.{
  ℕ, zero, suc, ◌+◌, ◌*◌, ◌/◌, ◌%◌, ◌^◌, bit_and, bit_or, ◌-◌, List, [], ◌∷◌, ◌++◌, Option, none,
  some, Bool, true, false, ◌&&◌, ◌||◌, ltb, leb, ◌==◌, if◌then◌else◌, length, drop,
}
use poser.Prelude.Chars.{codes, strchr}
use poser.Json.{
  Json, null, boolean, integer, real, string, array, object, Items, nil, Members, end, snoc, set,
  Doubles, strtoll, goes_on,
}
use poser.Json.Serializer.{hex}

-- how a function ends: with a result and the text that is left, or with the answer -1
pub data Parsed (A : Type 0) : Type 0 where
  parsed : A → List ℕ → Parsed A
  failed : Parsed A
  out_of_fuel : Parsed A

abbrev pub is_ws : ℕ → Bool
is_ws c = c == 32 || c == 9 || c == 13 || c == 10

-- `skipWs`
unfoldable pub skip_ws : List ℕ → List ℕ
skip_ws [] = []
skip_ws (c ∷ s) = let rest = skip_ws s in if is_ws c then rest else c ∷ s

-- what follows a character, if the text starts with it
abbrev pub after : ℕ → List ℕ → Option (List ℕ)
after c [] = none
after c (x ∷ s) = if x == c then some s else none

infixl 1 ◌>>=◌
abbrev pub ◌>>=◌ : {A B : Type 0} → Option A → (A → Option B) → Option B
none >>= f = none
some a >>= f = f a

-- the value of a hexadecimal digit, by its place in `hex`
unfoldable pub nibble : ℕ → Option ℕ
nibble c = elim (strchr hex c) [
  | none ↦ none
  | some i ↦ if c == 0 then none else some (if ltb 15 i then i - 6 else i)
]

-- four hexadecimal digits, as the `uint16_t` that `bmpchr` is, and what follows them
unfoldable pub nibbles : List ℕ → Option (ℕ × List ℕ)
nibbles (a ∷ b ∷ c ∷ e ∷ rest) = do
  na ← nibble a
  nb ← nibble b
  nc ← nibble c
  ne ← nibble e
  some (((na * 16 + nb) * 16 + nc) * 16 + ne, rest)
nibbles _ = none

-- the bytes that are appended for a code point
unfoldable pub utf8 : ℕ → List ℕ
utf8 unichr =
    let b0 = unichr % 256 in
    let b1 = unichr / 256 % 256 in
    let b2 = unichr / 65536 % 256 in
    let follow2 = bit_or 0x80 (bit_and b0 0x3f) % 256 ∷ [] in
    let follow1 = bit_or (bit_or 0x80 (bit_and (b1 * 4) 0x3f)) (b0 / 64) % 256 ∷ follow2 in
    if ltb unichr 0x80
    then unichr ∷ []
    else if ltb unichr 0x800
    then bit_or (bit_or 0xc0 (b1 * 4)) (b0 / 64) % 256 ∷ follow2
    else if ltb unichr 0x10000
    then bit_or 0xe0 (b1 / 16) % 256 ∷ follow1
    else bit_or 0xf0 (b2 / 4) % 256
      ∷ bit_or (bit_or 0x80 (bit_and (b2 * 16) 0x3f)) (b1 / 16) % 256
      ∷ follow1

-- a round of the loop of `parsePlainString`: the end of the string, bytes that are appended, or a failure
pub data Step : Type 0 where
  closes : List ℕ → Step
  emits : List ℕ → List ℕ → Step
  breaks : Step

-- the code point of a surrogate pair
abbrev pub pair_of : ℕ → ℕ → ℕ
pair_of high low = bit_or (bit_and high 0x3ff * 2 ^ 10) (bit_and low 0x3ff) + 0x10000

-- the low half of a surrogate pair, behind `\u`
unfoldable pub low_step : ℕ → List ℕ → Step
low_step high s = elim (nibbles s) [
  | none ↦ breaks
  | some (low, rest) ↦
      if bit_and low 0xfc00 == 0xdc00 then emits (utf8 (pair_of high low)) rest else breaks
]

-- what follows `\u`, if the text starts with it
abbrev pub after_u : List ℕ → Option (List ℕ)
after_u s = elim (after b'\\' s) [ none ↦ none | some s' ↦ after b'u' s' ]

-- the escape `\u`, behind these characters
unfoldable pub unicode_step : List ℕ → Step
unicode_step s = elim (nibbles s) [
  | none ↦ breaks
  | some (unichr, rest) ↦ elim (after_u rest) [
    | none ↦ emits (utf8 unichr) rest
    | some rest' ↦
        if bit_and unichr 0xfc00 == 0xd800 then low_step unichr rest' else emits (utf8 unichr) rest
  ]
]

-- the other escapes, behind the backslash
unfoldable pub escape_step : List ℕ → Step
escape_step [] = breaks
escape_step (c ∷ s) =
    if c == b'"' || c == b'\\' || c == b'/'
    then emits (c ∷ []) s
    else if c == b'b'
    then emits (8 ∷ []) s
    else if c == b'f'
    then emits (12 ∷ []) s
    else if c == b'n'
    then emits (10 ∷ []) s
    else if c == b'r'
    then emits (13 ∷ []) s
    else if c == b't'
    then emits (9 ∷ []) s
    else if c == b'u'
    then unicode_step s
    else breaks

unfoldable pub string_step : List ℕ → Step
string_step [] = breaks
string_step (c ∷ s) =
    if c == b'"' then closes s else if c == b'\\' then escape_step s else emits (c ∷ []) s

-- the loop of `parsePlainString`, with the bytes that were parsed before
unfoldable pub string_loop : ℕ → List ℕ → List ℕ → Parsed (List ℕ)
string_loop zero s bytes = out_of_fuel
string_loop (suc fuel) s bytes = elim (string_step s) [
  | closes rest ↦ parsed bytes rest
  | emits more rest ↦ string_loop fuel rest (bytes ++ more)
  | breaks ↦ failed
]

-- `parsePlainString`, which does not look at the first character
unfoldable pub parse_plain_string : List ℕ → Parsed (List ℕ)
parse_plain_string s = let buf = drop 1 s in string_loop (length buf + 1) buf []

-- a literal at the start of the text
abbrev pub literal : List ℕ → List ℕ → Option (List ℕ)
literal [] s = some s
literal (c ∷ lit) [] = none
literal (c ∷ lit) (x ∷ s) = let rest = literal lit s in if x == c then rest else none

abbrev pub is_number_char : ℕ → Bool
is_number_char c = c == b'+' || c == b'-' || leb b'0' c && leb c b'9'

module _ {F : Type 0} (d : Doubles F) where
  -- `parseString`
  unfoldable pub parse_string : List ℕ → Parsed (Option (Json F))
  parse_string s = elim (parse_plain_string s) [
    | parsed str rest ↦ parsed (some (string str)) rest
    | failed ↦ failed
    | out_of_fuel ↦ out_of_fuel
  ]

  -- `parseNumber`
  unfoldable pub parse_number : List ℕ → Parsed (Option (Json F))
  parse_number s =
      let (intval, rest) = strtoll s in
      if goes_on rest
      then elim (d.strtod s) [ none ↦ failed | some (x, n) ↦ parsed (some (real x)) (drop n s) ]
      else if length rest == length s
      then failed
      else parsed (some (integer intval)) rest

  -- the literals at the end of `parse`
  unfoldable pub parse_literal : List ℕ → Parsed (Option (Json F))
  parse_literal s = elim (literal (codes "null") s) [
    | some rest ↦ parsed (some null) rest
    | none ↦ elim (literal (codes "false") s) [
      | some rest ↦ parsed (some (boolean false)) rest
      | none ↦ elim (literal (codes "true") s) [
        | some rest ↦ parsed (some (boolean true)) rest
        | none ↦ failed
      ]
    ]
  ]

  -- what an array or an object becomes of a value that `parse` leaves, which may be a null pointer
  abbrev pub append_value : Items F → Option (Json F) → Items F
  append_value items none = items
  append_value items (some item) = snoc items item

  abbrev pub set_value : Members F → List ℕ → Option (Json F) → Members F
  set_value members key none = members
  set_value members key (some value) = set members key value

  unfoldable mutual
    -- `parse`, behind the white space; the value stays what it was at the end of the text
    pub parse_from : ℕ → List ℕ → Option (Json F) → Parsed (Option (Json F))
    parse_from zero s obj = out_of_fuel
    parse_from (suc fuel) [] obj = parsed obj []
    parse_from (suc fuel) (c ∷ s) obj = elim (c == b'{') [
      | true ↦ parse_object fuel s end none
      | false ↦ elim (c == b'[') [
        | true ↦ parse_array fuel s nil none
        | false ↦ elim (c == b'"') [
          | true ↦ parse_string (c ∷ s)
          | false ↦ elim (is_number_char c) [
            | true ↦ parse_number (c ∷ s)
            | false ↦ parse_literal (c ∷ s)
          ]
        ]
      ]
    ]

    -- the loop of `parseObject`, with the members read before and the value read last
    pub parse_object : ℕ → List ℕ → Members F → Option (Json F) → Parsed (Option (Json F))
    parse_object zero s members value = out_of_fuel
    parse_object (suc fuel) s members value = elim (after b'}' (skip_ws s)) [
      | some rest ↦ parsed (some (object members)) rest
      | none ↦ elim (parse_plain_string (skip_ws s)) [
        | failed ↦ failed
        | out_of_fuel ↦ out_of_fuel
        | parsed key s1 ↦ elim (after b':' (skip_ws s1)) [
          | none ↦ failed
          | some s2 ↦ elim (parse_from fuel (skip_ws s2) value) [
            | failed ↦ failed
            | out_of_fuel ↦ out_of_fuel
            | parsed value' s3 ↦ elim (after b'}' (skip_ws s3)) [
              | some rest ↦ parsed (some (object (set_value members key value'))) rest
              | none ↦ elim (after b',' (skip_ws s3)) [
                | none ↦ failed
                | some rest ↦ parse_object fuel rest (set_value members key value') value'
              ]
            ]
          ]
        ]
      ]
    ]

    -- the loop of `parseArray`
    pub parse_array : ℕ → List ℕ → Items F → Option (Json F) → Parsed (Option (Json F))
    parse_array zero s items item = out_of_fuel
    parse_array (suc fuel) s items item = elim (after b']' (skip_ws s)) [
      | some rest ↦ parsed (some (array items)) rest
      | none ↦ elim (parse_from fuel (skip_ws s) item) [
        | failed ↦ failed
        | out_of_fuel ↦ out_of_fuel
        | parsed item' s1 ↦ elim (after b']' (skip_ws s1)) [
          | some rest ↦ parsed (some (array (append_value items item'))) rest
          | none ↦ elim (after b',' (skip_ws s1)) [
            | none ↦ failed
            | some rest ↦ parse_array fuel rest (append_value items item') item'
          ]
        ]
      ]
    ]

  -- `parse`, for a text that is twice as long as the fuel at most
  unfoldable pub parse : List ℕ → Option (Json F) → Parsed (Option (Json F))
  parse s obj = parse_from (2 * length s + 2) (skip_ws s) obj

  -- `PSC_JsonSerializer_deserialize`
  unfoldable pub deserialize : List ℕ → Option (Json F)
  deserialize json = elim (parse json none) [
    | failed ↦ none
    | out_of_fuel ↦ none
    | parsed obj rest ↦ if length (skip_ws rest) == 0 then obj else none
  ]
