-- ===== src/Json.antt =====
-- src/lib/core/json.c: JSON values. The list of keys of an object and the dictionary of their values
-- are one list of members, in the order of the keys (Json/Stored.antt has them apart, as the code
-- keeps them, and Json/Objects.antt relates the two); the lists that an array or an object has not got
-- yet are empty, and no function makes a list that it has empty again. A `double` is a value of any
-- type, with what the C library does to one as a parameter.
pub mod Serializer
pub mod Parser
pub mod Text
pub mod Buffers
pub mod Strings
pub mod Numbers
pub mod Stored
pub mod Objects
pub mod Steps
pub mod Valid
pub mod CStrings
pub mod RoundTrip
pub mod Lengths
pub mod Terminates
mod Runs
use poser.Prelude.{
  ℕ, zero, suc, ◌+◌, ◌-◌, ◌^◌, List, [], ◌∷◌, ◌++◌, Option, none, some, Bool, true, false, not,
  ◌&&◌, ◌||◌, ltb, ◌==◌, if◌then◌else◌, length, take, drop,
}
use poser.Prelude.Chars.{codes, strlen, str_eq}
use poser.Prelude.Int.{ℤ, pos, negsuc}
use poser.Prelude.Numerals.{skip_space, sign, strtol, numeral}

mutual
  -- PSC_Json, with JsonInteger, JsonFloat, JsonString, JsonArray and JsonObject
  pub data Json (F : Type 0) : Type 0 where
    null : Json F
    boolean : Bool → Json F
    integer : ℤ → Json F
    real : F → Json F
    string : List ℕ → Json F
    array : Items F → Json F
    object : Members F → Json F

  pub data Items (F : Type 0) : Type 0 where
    nil : Items F
    cons : Json F → Items F → Items F

  pub data Members (F : Type 0) : Type 0 where
    end : Members F
    member : List ℕ → Json F → Members F → Members F

-- What the C library does to a `double`: whether it is not 0, its conversions, `snprintf` with
-- "%.15g", and `strtod`, with the number of characters that it takes, if it finds a number.
pub record Doubles (F : Type 0) : Type 0 where
  pub is_nonzero : F → Bool
  pub to_integer : F → ℤ
  pub of_integer : ℤ → F
  pub print : F → List ℕ
  pub strtod : List ℕ → Option (F × ℕ)

-- the characters that `PSC_Json_createString` and its kin take of a string for a length
abbrev pub with_length : List ℕ → ℕ → List ℕ
with_length value len = if len == 0 then take (strlen value) value else take len value

-- `strtoll` in base 10: the number and what follows it, or 0 and the whole string if there is none
unfoldable pub strtoll : List ℕ → ℤ × List ℕ
strtoll s = elim (strtol 10 s) [
  | none ↦ (pos 0, s)
  | some (none, rest) ↦
      (if (sign (skip_space s)).0 then negsuc (2 ^ 63 - 1) else pos (2 ^ 63 - 1), rest)
  | some (some n, rest) ↦ (n, rest)
]

-- `snprintf` with PRId64
unfoldable pub integer_text : ℤ → List ℕ
integer_text (pos n) = numeral 10 n
integer_text (negsuc n) = b'-' ∷ numeral 10 (n + 1)

-- a `.` or an exponent, behind the digits of a number
abbrev pub is_float_char : ℕ → Bool
is_float_char c = c == b'.' || c == b'e' || c == b'E'

abbrev pub goes_on : List ℕ → Bool
goes_on [] = false
goes_on (c ∷ rest) = is_float_char c

module _ {F : Type 0} where
  abbrev pub snoc : Items F → Json F → Items F
  snoc nil item = cons item nil
  snoc (cons x xs) item = cons x (snoc xs item)

  -- `PSC_Json_append`: nothing where it answers -1
  unfoldable pub append : Json F → Json F → Option (Json F)
  append (array items) item = some (array (snoc items item))
  append self item = none

  -- the value of a key in the dictionary
  unfoldable pub get : Members F → List ℕ → Option (Json F)
  get end name = none
  get (member key value members) name =
      let later = get members name in if str_eq key name then some value else later

  -- the value of a key set, a new key behind the others
  unfoldable pub set : Members F → List ℕ → Json F → Members F
  set end name value = member name value end
  set (member key old members) name value =
      let later = set members name value in
      if str_eq key name then member key value members else member key old later

  -- `PSC_Json_setProperty`, of a value
  unfoldable pub set_property : Json F → List ℕ → ℕ → Json F → Option (Json F)
  set_property (object members) name namelen value =
      some (object (set members (with_length name namelen) value))
  set_property self name namelen value = none

  abbrev pub size : Items F → ℕ
  size nil = 0
  size (cons _ xs) = suc (size xs)

  abbrev pub count : Members F → ℕ
  count end = 0
  count (member _ _ ms) = suc (count ms)

  -- `PSC_Json_length`
  unfoldable pub json_length : Json F → ℕ
  json_length null = 0
  json_length (boolean _) = 1
  json_length (integer _) = 1
  json_length (real _) = 1
  json_length (string value) = length value
  json_length (array items) = size items
  json_length (object members) = count members

  abbrev pub at : Items F → ℕ → Option (Json F)
  at nil i = none
  at (cons x xs) zero = some x
  at (cons x xs) (suc i) = at xs i

  abbrev pub key_at : Members F → ℕ → Option (List ℕ)
  key_at end i = none
  key_at (member key _ ms) zero = some key
  key_at (member _ _ ms) (suc i) = key_at ms i

  -- `PSC_Json_itemAt`
  unfoldable pub item_at : Json F → ℕ → Option (Json F)
  item_at (array items) i = at items i
  item_at (object members) i = elim (key_at members i) [
    | none ↦ none
    | some key ↦ some (string key)
  ]
  item_at self i = none

  -- `PSC_Json_property`
  unfoldable pub property : Json F → List ℕ → ℕ → Option (Json F)
  property (object members) name namelen = get members (with_length name namelen)
  property self name namelen = none

  module _ (d : Doubles F) where
    -- `strToInteger`
    unfoldable pub str_to_integer : List ℕ → ℤ
    str_to_integer str =
        let (val, rest) = strtoll str in
        if goes_on rest
        then elim (d.strtod str) [
          | none ↦ d.to_integer (d.of_integer (pos 0))
          | some (x, _) ↦ d.to_integer x
        ]
        else val

    -- `PSC_Json_bool`
    unfoldable pub json_bool : Json F → Bool
    json_bool null = false
    json_bool (boolean b) = b
    json_bool (integer (pos zero)) = false
    json_bool (integer _) = true
    json_bool (real x) = d.is_nonzero x
    json_bool (string value) = not (strlen value == 0)
    json_bool (array items) = ltb 0 (size items)
    json_bool (object members) = ltb 0 (count members)

    -- `PSC_Json_integer`
    unfoldable pub json_integer : Json F → ℤ
    json_integer null = pos 0
    json_integer (boolean b) = if b then pos 1 else pos 0
    json_integer (integer n) = n
    json_integer (real x) = d.to_integer x
    json_integer (string value) = str_to_integer (take (strlen value) value)
    json_integer self = pos (json_length self)

    -- `PSC_Json_float`
    unfoldable pub json_float : Json F → F
    json_float null = d.of_integer (pos 0)
    json_float (boolean b) = if b then d.of_integer (pos 1) else d.of_integer (pos 0)
    json_float (integer n) = d.of_integer n
    json_float (real x) = x
    json_float (string value) = elim (d.strtod (take (strlen value) value)) [
      | none ↦ d.of_integer (pos 0)
      | some (x, _) ↦ x
    ]
    json_float self = d.of_integer (pos (json_length self))

    -- `PSC_Json_string`, with `numToString`
    unfoldable pub json_string : Json F → List ℕ
    json_string null = codes "null"
    json_string (boolean b) = if b then codes "true" else codes "false"
    json_string (integer n) = integer_text n
    json_string (real x) = d.print x
    json_string (string value) = take (strlen value) value
    json_string (array _) = codes "[array]"
    json_string (object _) = codes "[object]"
