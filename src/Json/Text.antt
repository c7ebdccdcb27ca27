-- ===== src/Json/Text.antt =====
-- The text of a JSON value, and what the serializer of json.c writes of it.
use poser.Prelude.{
  ℕ, ◌≡◌, refl, sym, ap, ◌∙◌, List, [], ◌∷◌, ◌++◌, Bool, true, false, ◌&&◌, if◌then◌else◌,
}
use poser.Prelude.Chars.{codes}
use poser.Json.{
  Json, null, boolean, integer, real, string, array, object, Items, nil, cons, Members, end, member,
  Doubles, json_string,
}
use poser.Json.Serializer.{
  serialize_items, serialize_members, Buf, Outcome, done, full, crashed, and_then, append_chr,
  append_chars, escape, string_chars, serialize_plain_string, comma, serialize,
}

unfoldable pub escaped : List ℕ → List ℕ
escaped [] = []
escaped (c ∷ s) = escape c ++ escaped s

abbrev pub quoted : List ℕ → List ℕ
quoted s = b'"' ∷ (escaped s ++ b'"' ∷ [])

abbrev pub separator : Bool → List ℕ
separator first = if first then [] else b',' ∷ []

module _ {F : Type 0} (d : Doubles F) where
  unfoldable mutual
    pub text : Json F → List ℕ
    text null = codes "null"
    text (boolean false) = codes "false"
    text (boolean true) = codes "true"
    text (integer n) = json_string d (integer n)
    text (real x) = json_string d (real x)
    text (string value) = quoted value
    text (array items) = b'[' ∷ (text_items true items ++ b']' ∷ [])
    text (object members) = b'{' ∷ (text_members true members ++ b'}' ∷ [])

    pub text_items : Bool → Items F → List ℕ
    text_items first nil = []
    text_items first (cons x xs) = separator first ++ (text x ++ text_items false xs)

    pub text_members : Bool → Members F → List ℕ
    text_members first end = []
    text_members first (member key value ms) =
        separator first ++ (quoted key ++ b':' ∷ (text value ++ text_members false ms))

-- No array and no object in the value is empty.
unfoldable mutual
  pub is_filled : {F : Type 0} → Json F → Bool
  is_filled (array nil) = false
  is_filled (array (cons x xs)) = is_filled x && are_filled xs
  is_filled (object end) = false
  is_filled (object (member _ v ms)) = is_filled v && are_members_filled ms
  is_filled _ = true

  pub are_filled : {F : Type 0} → Items F → Bool
  are_filled nil = true
  are_filled (cons x xs) = is_filled x && are_filled xs

  pub are_members_filled : {F : Type 0} → Members F → Bool
  are_members_filled end = true
  are_members_filled (member _ v ms) = is_filled v && are_members_filled ms

and_then_assoc :
    (o : Outcome) (f g : Buf → Outcome)
    → and_then (and_then o f) g ≡ and_then o (λ b. and_then (f b) g)
and_then_assoc (done b) f g = refl
and_then_assoc (full b) f g = refl
and_then_assoc crashed f g = refl

and_then_same :
    (o : Outcome) (f g : Buf → Outcome) → ((b : Buf) → f b ≡ g b) → and_then o f ≡ and_then o g
and_then_same (done b) f g h = h b
and_then_same (full b) f g h = refl
and_then_same crashed f g h = refl

and_then_done : (o : Outcome) → and_then o done ≡ o
and_then_done (done b) = refl
and_then_done (full b) = refl
and_then_done crashed = refl

append_chars-append :
    (xs ys : List ℕ) (b : Buf)
    → append_chars b (xs ++ ys) ≡ and_then (append_chars b xs) (λ b'. append_chars b' ys)
unfolding append_chars
append_chars-append [] ys b = refl
append_chars-append (x ∷ xs) ys b =
    and_then_same (append_chr b x) (λ b'. append_chars b' (xs ++ ys))
      (λ b'. and_then (append_chars b' xs) (λ b''. append_chars b'' ys)) (append_chars-append xs ys)
    ∙ sym (and_then_assoc (append_chr b x) (λ b'. append_chars b' xs) (λ b'. append_chars b' ys))

append_chars-nil : (b : Buf) → done b ≡ append_chars b []
unfolding append_chars
append_chars-nil b = refl

-- Text that two writers append, one after the other.
both :
    (o : Outcome) (b : Buf) (f : Buf → Outcome) (xs ys : List ℕ)
    → o ≡ append_chars b xs
    → ((b' : Buf) → f b' ≡ append_chars b' ys)
    → and_then o f ≡ append_chars b (xs ++ ys)
both o b f xs ys h k =
    ap (λ o. and_then o f) h
    ∙ and_then_same (append_chars b xs) f (λ b'. append_chars b' ys) k
    ∙ sym (append_chars-append xs ys b)

one : (b : Buf) (c : ℕ) → append_chr b c ≡ append_chars b (c ∷ [])
unfolding append_chars
one b c = sym (and_then_done (append_chr b c))

string_chars-escaped : (s : List ℕ) (b : Buf) → string_chars b s ≡ append_chars b (escaped s)
unfolding string_chars escaped
string_chars-escaped [] b = unfold append_chars in refl
string_chars-escaped (c ∷ s) b =
    both (append_chars b (escape c)) b (λ b'. string_chars b' s) (escape c) (escaped s) refl
      (string_chars-escaped s)

pub serialize_plain_string-quoted :
    (s : List ℕ) (b : Buf) → serialize_plain_string b s ≡ append_chars b (quoted s)
unfolding serialize_plain_string
serialize_plain_string-quoted s b =
    both (append_chr b b'"') b (λ b1. and_then (string_chars b1 s) (λ b2. append_chr b2 b'"'))
      (b'"' ∷ []) (escaped s ++ b'"' ∷ []) (one b b'"')
      (λ b1.
        both (string_chars b1 s) b1 (λ b2. append_chr b2 b'"') (escaped s) (b'"' ∷ [])
          (string_chars-escaped s b1) (λ b2. one b2 b'"'))

comma-separator : (first : Bool) (b : Buf) → comma first b ≡ append_chars b (separator first)
comma-separator true b = unfold append_chars in refl
comma-separator false b = one b b','

and-both : (a b : Bool) → (a && b) ≡ true → (a ≡ true) × (b ≡ true)
and-both true true h = (refl, refl)
and-both true false h = absurd (cc)
and-both false b h = absurd (cc)

module _ {F : Type 0} (d : Doubles F) where
  -- A pair of brackets around a text.
  brackets :
      (open_char close_char : ℕ) (f : Buf → Outcome) (xs : List ℕ) (b : Buf)
      → ((b' : Buf) → f b' ≡ append_chars b' xs)
      → and_then (append_chr b open_char) (λ b1. and_then (f b1) (λ b2. append_chr b2 close_char))
        ≡ append_chars b (open_char ∷ (xs ++ close_char ∷ []))
  brackets open_char close_char f xs b h =
      both (append_chr b open_char) b (λ b1. and_then (f b1) (λ b2. append_chr b2 close_char))
        (open_char ∷ []) (xs ++ close_char ∷ []) (one b open_char)
        (λ b1.
          both (f b1) b1 (λ b2. append_chr b2 close_char) xs (close_char ∷ []) (h b1)
            (λ b2. one b2 close_char))

  mutual
    unfolding serialize text is_filled

    -- The serializer appends the text of a value without empty arrays or objects.
    pub serialize-text :
        (v : Json F) (b : Buf) → is_filled v ≡ true → serialize d v b ≡ append_chars b (text d v)
    serialize-text null b h = refl
    serialize-text (boolean false) b h = refl
    serialize-text (boolean true) b h = refl
    serialize-text (integer n) b h = refl
    serialize-text (real x) b h = refl
    serialize-text (string value) b h = serialize_plain_string-quoted value b
    serialize-text (array nil) b h = absurd (cc)
    serialize-text (array (cons x xs)) b h =
        brackets b'[' b']' (serialize_items d true (cons x xs)) (text_items d true (cons x xs)) b
          (λ b'. serialize_items-text true (cons x xs) b' h)
    serialize-text (object end) b h = absurd (cc)
    serialize-text (object (member key v ms)) b h =
        brackets b'{' b'}' (serialize_members d true (member key v ms))
          (text_members d true (member key v ms)) b
          (λ b'. serialize_members-text true (member key v ms) b' h)

    serialize_items-text :
        (first : Bool) (xs : Items F) (b : Buf)
        → are_filled xs ≡ true
        → serialize_items d first xs b ≡ append_chars b (text_items d first xs)
    serialize_items-text first nil b h = append_chars-nil b
    serialize_items-text first (cons x xs) b h =
        let (hx, hxs) = and-both (is_filled x) (are_filled xs) h in
        both (comma first b) b (λ b1. and_then (serialize d x b1) (serialize_items d false xs))
          (separator first) (text d x ++ text_items d false xs) (comma-separator first b)
          (λ b1.
            both (serialize d x b1) b1 (serialize_items d false xs) (text d x)
              (text_items d false xs) (serialize-text x b1 hx)
              (λ b2. serialize_items-text false xs b2 hxs))

    serialize_members-text :
        (first : Bool) (ms : Members F) (b : Buf)
        → are_members_filled ms ≡ true
        → serialize_members d first ms b ≡ append_chars b (text_members d first ms)
    serialize_members-text first end b h = append_chars-nil b
    serialize_members-text first (member key v ms) b h =
        let (hv, hms) = and-both (is_filled v) (are_members_filled ms) h in
        let rest : List ℕ = text d v ++ text_members d false ms in
        let tail : Buf → Outcome =
          λ b3. and_then (serialize d v b3) (serialize_members d false ms) in
        both (comma first b) b
          (λ b1.
            and_then (serialize_plain_string b1 key) (λ b2. and_then (append_chr b2 b':') tail))
          (separator first) (quoted key ++ b':' ∷ rest) (comma-separator first b)
          (λ b1.
            both (serialize_plain_string b1 key) b1 (λ b2. and_then (append_chr b2 b':') tail)
              (quoted key) (b':' ∷ rest) (serialize_plain_string-quoted key b1)
              (λ b2. both (append_chr b2 b':') b2 tail (b':' ∷ []) rest (one b2 b':') (λ b3.
                both (serialize d v b3) b3 (serialize_members d false ms) (text d v)
                  (text_members d false ms) (serialize-text v b3 hv)
                  (λ b4. serialize_members-text false ms b4 hms))))
