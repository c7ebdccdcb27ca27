-- ===== src/Json/Runs.antt =====
-- Runs of the JSON parser and serializer on concrete texts.
use mathlib.Core.Option
use poser.Prelude.{
  arith, length, take, ltb, if◌then◌else◌, ℕ, ◌+◌, ◌≡◌, refl, List, [], ◌∷◌, ◌++◌, none, some, true,
  false,
}
use poser.Prelude.Chars.{codes, strlen}
use poser.Prelude.Int.{pos, negsuc}
use poser.Prelude.Numerals.{digit, scan, skip_space, sign, skip_0x, in_long, strtol}
use poser.Json.{
  Json, null, boolean, integer, array, object, nil, cons, Members, end, member, Doubles, get, set,
  strtoll, count,
}
use poser.Json.Serializer.{serialize_to, serialize_new}
use poser.Json.Parser.{
  skip_ws, nibble, nibbles, utf8, unicode_step, escape_step, string_step, string_loop,
  parse_plain_string, parse_string, parse_number, parse_literal, parse_from, parse, deserialize,
}
use poser.Json.Text.{text, is_filled}
use poser.Json.Buffers.{serialize_new-text, serialize_to-text}
use poser.Json.Stored.{Values, JsonObject, create_object, key_list, add_key, store_property}
use poser.Json.Valid.{IsValid}
use poser.Json.RoundTrip.{deserialize-serialize_new}
use poser.Json.Lengths.{EndsWithin}
use poser.Json.Terminates.{parse-EndsWithin}

-- Doubles that are never there.
abbrev no_doubles : Doubles ℕ
no_doubles = record {
  is_nonzero = λ _. false;
  to_integer = λ _. pos 0;
  of_integer = λ _. 0;
  print = λ _. [];
  strtod = λ _. none;
}

abbrev text_1 : List ℕ
text_1 = codes "{ \"a\": [1, -20,null],\"b\\u00e9\":true }"

run_1 :
    deserialize no_doubles text_1
    ≡ some (
        object (
          member
            (codes "a")
            (array (cons (integer (pos 1)) (cons (integer (negsuc 19)) (cons null nil))))
            (member (b'b' ∷ 195 ∷ 169 ∷ []) (boolean true) end)))
unfolding deserialize parse parse_from skip_ws parse_plain_string string_loop string_step
    escape_step unicode_step nibbles nibble utf8 parse_string parse_number parse_literal strtoll
    strtol scan skip_space sign skip_0x in_long digit set
run_1 = refl

abbrev value_1 : Json ℕ
value_1 = object (
    member (codes "a\n\"")
      (array (cons (integer (pos 1)) (cons (integer (negsuc 19)) (cons null nil))))
      (member (b'b' ∷ 195 ∷ 169 ∷ 0 ∷ []) (boolean true) end))

value_1-IsValid : IsValid value_1
unfolding IsValid get
value_1-IsValid = ground arith

value_1_filled : is_filled value_1 ≡ true
unfolding is_filled
value_1_filled = refl

deserialize-serialize_new_example :
    Option.map (λ t. deserialize no_doubles (take (strlen t) t)) (serialize_new no_doubles value_1)
    ≡ some (some value_1)
deserialize-serialize_new_example = deserialize-serialize_new no_doubles value_1 value_1-IsValid

serialize_new-text_example : serialize_new no_doubles (array (cons (object end) nil)) ≡ none
unfolding is_filled
serialize_new-text_example = serialize_new-text no_doubles (array (cons (object end) nil))

serialize_to-text_example : serialize_to no_doubles 5 value_1 ≡ (
    if ltb (length (text no_doubles value_1)) 5
    then some (text no_doubles value_1 ++ 0 ∷ [], length (text no_doubles value_1) + 1)
    else some (take 4 (text no_doubles value_1) ++ 0 ∷ [], 6))
serialize_to-text_example = serialize_to-text no_doubles value_1 5 value_1_filled (omega arith)

parse-EndsWithin_example : EndsWithin (length text_1) (parse no_doubles text_1 none)
parse-EndsWithin_example = parse-EndsWithin no_doubles text_1 none

abbrev members_1 : Members ℕ
members_1 = member (codes "a") null end

-- members as a dictionary
abbrev by_members : Values ℕ (Members ℕ)
by_members = record {
  create = end;
  get = λ d key. get d key;
  set = λ d key value. set d key value;
  count = λ d. count d;
}

-- An object with the key "a", and then one with "a" and "b".
abbrev stored_a : JsonObject (Members ℕ)
stored_a = store_property by_members create_object (codes "a") 0 null

-- A key that is set again is in the list once.
set_again :
    key_list (store_property by_members stored_a (codes "a") 0 (boolean true)).keys ≡ codes "a" ∷ []
unfolding store_property add_key get set
set_again = refl
