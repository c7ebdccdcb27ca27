-- ===== src/Json/Steps.antt =====
-- The rounds of the JSON parser on a text without white space, each with any text behind it.
use poser.Prelude.{
  ℕ, suc, ◌≡◌, refl, sym, ap, ◌∙◌, inl, inr, List, ◌∷◌, ◌++◌, Option, none, some, Bool, true, false,
  ◌||◌, ◌==◌, if◌then◌else◌, Bool-cases, arith,
}
use poser.Prelude.Chars.{codes, str_eq}
use poser.Prelude.Int.{ℤ}
use poser.Json.{
  Json, null, boolean, integer, string, array, object, Items, nil, Members, end, member, snoc, get,
  set, Doubles, integer_text,
}
use poser.Json.Parser.{
  parsed, is_ws, skip_ws, after, parse_string, parse_number, parse_literal, is_number_char,
  parse_from, parse_object, parse_array,
}
use poser.Json.Text.{quoted}
use poser.Json.Strings.{IsString, parse_plain_string-quoted}
use poser.Json.Numbers.{ends, IsInt64, integer_text-IsNumber, parse_number-integer_text}

-- The text starts with a character that is no white space and closes no bracket.
pub record IsFirst (s : List ℕ) : Type 0 where
  pub head : ℕ
  pub tail : List ℕ
  pub parts : s ≡ head ∷ tail
  pub opens : (is_ws head || head == b']' || head == b'}') ≡ false

none_of : (a b c : Bool) → (a || b || c) ≡ false → (a ≡ false) × (b ≡ false) × (c ≡ false)
none_of true b c h = absurd (cc)
none_of false true c h = absurd (cc)
none_of false false true h = absurd (cc)
none_of false false false h = (refl, refl, refl)

opening :
    (s : List ℕ) (f : IsFirst s)
    → (is_ws f.head ≡ false) × ((f.head == b']') ≡ false) × ((f.head == b'}') ≡ false)
opening s f = none_of (is_ws f.head) (f.head == b']') (f.head == b'}') f.opens

pub skip_ws-IsFirst : (s : List ℕ) → IsFirst s → skip_ws s ≡ s
unfolding skip_ws
skip_ws-IsFirst s f =
    let (no_ws, _, _) = opening s f in ap skip_ws f.parts ∙ rw no_ws refl ∙ sym f.parts

after-IsFirst : (s : List ℕ) → IsFirst s → (after b']' s ≡ none) × (after b'}' s ≡ none)
after-IsFirst s f =
    let (_, array_open, object_open) = opening s f in
    (ap (after b']') f.parts ∙ rw array_open refl, ap (after b'}') f.parts ∙ rw object_open refl)

-- The members of two objects, one after the other.
abbrev pub put_last : {F : Type 0} → Members F → List ℕ → Json F → Members F
put_last end name value = member name value end
put_last (member key v ms) name value = member key v (put_last ms name value)

pub set-fresh :
    {F : Type 0} (ms : Members F) (name : List ℕ) (value : Json F)
    → get ms name ≡ none
    → set ms name value ≡ put_last ms name value
unfolding get set
set-fresh end name value h = refl
set-fresh (member key v ms) name value h = elim (Bool-cases (str_eq key name)) [
  | inl same ↦ let bad : some v ≡ none = rw same at h in absurd (cc)
  | inr other ↦ rw other (ap (member key v) (set-fresh ms name value (rw other at h)))
]

module _ {F : Type 0} (d : Doubles F) where
  pub parse_array-last :
      (fuel : ℕ) (s rest : List ℕ) (items : Items F) (item : Option (Json F)) (x : Json F)
      → IsFirst s
      → parse_from d fuel s item ≡ parsed (some x) (b']' ∷ rest)
      → parse_array d (suc fuel) s items item ≡ parsed (some (array (snoc items x))) rest
  unfolding parse_array skip_ws
  parse_array-last fuel s rest items item x f h =
      let (no_end, _) = after-IsFirst s f in
      let ws = skip_ws-IsFirst s f in rw (parse_array, ws, no_end, ws, h) refl

  pub parse_array-more :
      (fuel : ℕ) (s rest : List ℕ) (items : Items F) (item : Option (Json F)) (x : Json F)
      → IsFirst s
      → parse_from d fuel s item ≡ parsed (some x) (b',' ∷ rest)
      → parse_array d (suc fuel) s items item ≡ parse_array d fuel rest (snoc items x) (some x)
  unfolding parse_array skip_ws
  parse_array-more fuel s rest items item x f h =
      let (no_end, _) = after-IsFirst s f in
      let ws = skip_ws-IsFirst s f in rw (parse_array, ws, no_end, ws, h) refl

  pub parse_object-last :
      (fuel : ℕ) (key t rest : List ℕ) (ms : Members F) (value : Option (Json F)) (v : Json F)
      → IsString key
      → IsFirst t
      → parse_from d fuel t value ≡ parsed (some v) (b'}' ∷ rest)
      → parse_object d (suc fuel) (quoted key ++ b':' ∷ t) ms value
        ≡ parsed (some (object (set ms key v))) rest
  unfolding parse_object skip_ws
  parse_object-last fuel key t rest ms value v a f h =
      let ws = skip_ws-IsFirst t f in
      let read = parse_plain_string-quoted key (b':' ∷ t) a in rw (parse_object, read, ws, h) refl

  pub parse_object-more :
      (fuel : ℕ) (key t rest : List ℕ) (ms : Members F) (value : Option (Json F)) (v : Json F)
      → IsString key
      → IsFirst t
      → parse_from d fuel t value ≡ parsed (some v) (b',' ∷ rest)
      → parse_object d (suc fuel) (quoted key ++ b':' ∷ t) ms value
        ≡ parse_object d fuel rest (set ms key v) (some v)
  unfolding parse_object skip_ws
  parse_object-more fuel key t rest ms value v a f h =
      let ws = skip_ws-IsFirst t f in
      let read = parse_plain_string-quoted key (b':' ∷ t) a in rw (parse_object, read, ws, h) refl

  parse_from-digit :
      (fuel c : ℕ) (s : List ℕ) (obj : Option (Json F))
      → is_number_char c ≡ true
      → parse_from d (suc fuel) (c ∷ s) obj ≡ parse_number d (c ∷ s)
  unfolding parse_from
  parse_from-digit fuel c s obj h =
      let no_object : (c == b'{') ≡ false = ground arith in
      let no_array : (c == b'[') ≡ false = ground arith in
      let no_string : (c == b'"') ≡ false = ground arith in
      rw (parse_from, no_object, no_array, no_string, h) refl

  pub parse_from-integer :
      (fuel : ℕ) (n : ℤ) (rest : List ℕ) (obj : Option (Json F))
      → IsInt64 n
      → ends rest ≡ true
      → parse_from d (suc fuel) (integer_text n ++ rest) obj ≡ parsed (some (integer n)) rest
  parse_from-integer fuel n rest obj a h =
      let first = integer_text-IsNumber n in
      let parts : integer_text n ++ rest ≡ first.head ∷ (first.tail ++ rest) =
        ap (λ t. t ++ rest) first.parts in
      ap (λ t. parse_from d (suc fuel) t obj) parts
      ∙ parse_from-digit fuel first.head (first.tail ++ rest) obj first.starts
      ∙ ap (parse_number d) (sym parts)
      ∙ parse_number-integer_text d n rest a h

  parse_string-quoted :
      (s rest : List ℕ)
      → IsString s
      → parse_string d (quoted s ++ rest) ≡ parsed (some (string s)) rest
  unfolding parse_string
  parse_string-quoted s rest a = rw (parse_string, parse_plain_string-quoted s rest a) refl

  pub parse_from-string :
      (fuel : ℕ) (s rest : List ℕ) (obj : Option (Json F))
      → IsString s
      → parse_from d (suc fuel) (quoted s ++ rest) obj ≡ parsed (some (string s)) rest
  unfolding parse_from
  parse_from-string fuel s rest obj a = parse_string-quoted s rest a

  pub parse_from-array :
      (fuel : ℕ) (s : List ℕ) (obj : Option (Json F))
      → parse_from d (suc fuel) (b'[' ∷ s) obj ≡ parse_array d fuel s nil none
  unfolding parse_from
  parse_from-array fuel s obj = refl

  pub parse_from-object :
      (fuel : ℕ) (s : List ℕ) (obj : Option (Json F))
      → parse_from d (suc fuel) (b'{' ∷ s) obj ≡ parse_object d fuel s end none
  unfolding parse_from
  parse_from-object fuel s obj = refl

  pub parse_from-null :
      (fuel : ℕ) (rest : List ℕ) (obj : Option (Json F))
      → parse_from d (suc fuel) (codes "null" ++ rest) obj ≡ parsed (some null) rest
  unfolding parse_from parse_literal
  parse_from-null fuel rest obj = refl

  pub parse_from-boolean :
      (fuel : ℕ) (b : Bool) (rest : List ℕ) (obj : Option (Json F))
      → parse_from d (suc fuel) ((if b then codes "true" else codes "false") ++ rest) obj
        ≡ parsed (some (boolean b)) rest
  unfolding parse_from parse_literal
  parse_from-boolean fuel false rest obj = refl
  parse_from-boolean fuel true rest obj = refl
