-- ===== src/Json/CStrings.antt =====
-- The text that the serializer of json.c writes has no terminator in it.
use poser.Prelude.{
  ℕ, ◌+◌, ◌/◌, ◌%◌, ◌<◌, ◌≡◌, ◌≢◌, refl, ap, ◌∙◌, inl, List, [], ◌∷◌, ◌++◌, Bool, true, false, not,
  ◌==◌, get_or, take, take-append, All, arith,
}
use poser.Prelude.Bits.{holds_below, holds_below_lem}
use poser.Prelude.Chars.{strlen, strlen-append}
use poser.Prelude.Int.{ℤ, pos, negsuc}
use poser.Prelude.Numerals.{numeral}
use poser.Prelude.ReadBack.{plain, numeral-Written}
use poser.Json.{
  Json, null, boolean, integer, real, string, array, object, Items, nil, cons, Members, end, member,
  Doubles, integer_text, json_string,
}
use poser.Json.Serializer.{hex, escape}
use poser.Json.Text.{quoted, escaped, separator, text, text_items, text_members}
use poser.Json.Steps.{put_last}
use poser.Json.Valid.{IsValid, AreValid, AreMembersValid}

abbrev pub IsFree : List ℕ → Type 0
IsFree s = All (λ c. c ≢ 0) s

append-IsFree : (xs ys : List ℕ) → IsFree xs → IsFree ys → IsFree (xs ++ ys)
append-IsFree [] ys h k = k
append-IsFree (x ∷ xs) ys (hx, h) k = (hx, append-IsFree xs ys h k)

hex_table : holds_below (λ n. not (get_or hex n 0 == 0)) 16 ≡ true
unfolding holds_below
hex_table = refl

hex_digit : (n : ℕ) → n < 16 → get_or hex n 0 ≢ 0
hex_digit n h e =
    let t = holds_below_lem (λ n. not (get_or hex n 0 == 0)) n 16 h hex_table in
    let bad : false ≡ true = rw e at t in absurd (cc)

escape-IsFree : (c : ℕ) → IsFree (escape c)
unfolding escape
escape-IsFree c = ground (arith, hex_digit (c / 16), hex_digit (c % 16))

escaped-IsFree : (s : List ℕ) → IsFree (escaped s)
unfolding escaped
escaped-IsFree [] = tt
escaped-IsFree (c ∷ s) = append-IsFree (escape c) (escaped s) (escape-IsFree c) (escaped-IsFree s)

plain-IsFree : (s : List ℕ) → All (λ c. plain c ≡ true) s → IsFree s
plain-IsFree [] h = tt
plain-IsFree (c ∷ s) (hc, h) = (ground arith, plain-IsFree s h)

integer_text-IsFree : (n : ℤ) → IsFree (integer_text n)
unfolding integer_text
integer_text-IsFree (pos n) = plain-IsFree (numeral 10 n) (numeral-Written (inl refl) n).all_plain
integer_text-IsFree (negsuc n) =
    (omega arith, plain-IsFree (numeral 10 (n + 1)) (numeral-Written (inl refl) (n + 1)).all_plain)

separator-IsFree : (first : Bool) → IsFree (separator first)
separator-IsFree true = tt
separator-IsFree false = (omega arith, tt)

quoted-IsFree : (s : List ℕ) → IsFree (quoted s)
quoted-IsFree s =
    (omega arith, append-IsFree (escaped s) (b'"' ∷ []) (escaped-IsFree s) (omega arith, tt))

item-IsFree :
    (first : Bool) (one more : List ℕ)
    → IsFree one
    → IsFree more
    → IsFree (separator first ++ (one ++ more))
item-IsFree first one more h k =
    append-IsFree (separator first) (one ++ more) (separator-IsFree first)
      (append-IsFree one more h k)

member-IsFree :
    (first : Bool) (key one more : List ℕ)
    → IsFree one
    → IsFree more
    → IsFree (separator first ++ (quoted key ++ b':' ∷ (one ++ more)))
member-IsFree first key one more h k =
    append-IsFree (separator first) (quoted key ++ b':' ∷ (one ++ more)) (separator-IsFree first) (
      append-IsFree (quoted key) (b':' ∷ (one ++ more)) (quoted-IsFree key)
        (omega arith, append-IsFree one more h k))

module _ {F : Type 0} (d : Doubles F) where
  mutual
    unfolding text IsValid json_string

    text-IsFree : (v : Json F) → IsValid v → IsFree (text d v)
    text-IsFree null h = ground arith
    text-IsFree (boolean false) h = ground arith
    text-IsFree (boolean true) h = ground arith
    text-IsFree (integer n) h = integer_text-IsFree n
    text-IsFree (real x) h = absurd h
    text-IsFree (string s) h = quoted-IsFree s
    text-IsFree (array items) h = (
      omega arith,
      append-IsFree (text_items d true items) (b']' ∷ []) (text_items-IsFree true items h)
          (omega arith, tt),
    )
    text-IsFree (object ms) h = (
      omega arith,
      append-IsFree (text_members d true ms) (b'}' ∷ []) (text_members-IsFree true end ms h)
          (omega arith, tt),
    )

    text_items-IsFree :
        (first : Bool) (items : Items F) → AreValid items → IsFree (text_items d first items)
    text_items-IsFree first nil h = tt
    text_items-IsFree first (cons x nil) h = item-IsFree first (text d x) [] (text-IsFree x h) tt
    text_items-IsFree first (cons x (cons y ys)) (hx, h) =
        item-IsFree first (text d x) (text_items d false (cons y ys)) (text-IsFree x hx)
          (text_items-IsFree false (cons y ys) h)

    text_members-IsFree :
        (first : Bool) (before ms : Members F)
        → AreMembersValid before ms
        → IsFree (text_members d first ms)
    text_members-IsFree first before end h = tt
    text_members-IsFree first before (member key v end) (hk, _, hv) =
        member-IsFree first key (text d v) [] (text-IsFree v hv) tt
    text_members-IsFree first before (member key v (member key' v' ms)) (hk, _, hv, h) =
        member-IsFree first key (text d v) (text_members d false (member key' v' ms))
          (text-IsFree v hv)
          (text_members-IsFree false (put_last before key v) (member key' v' ms) h)

  -- The C string in the buffer that the serializer makes is the text.
  pub string_of-text :
      (v : Json F) → IsValid v → take (strlen (text d v ++ 0 ∷ [])) (text d v ++ 0 ∷ []) ≡ text d v
  string_of-text v h =
      ap (λ n. take n (text d v ++ 0 ∷ [])) (strlen-append (text d v) [] (text-IsFree v h))
      ∙ take-append (text d v) (0 ∷ [])
