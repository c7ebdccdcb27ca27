-- ===== src/Json/Serializer.antt =====
-- The serializer of json.c. The buffer is the characters written to it, with its size; reading the list
-- of an array or the dictionary of an object that has none ends the program.
use poser.Prelude.{
  ℕ, ◌+◌, ◌/◌, ◌%◌, List, [], ◌∷◌, ◌++◌, Option, none, some, Bool, true, false, not, ◌&&◌, ◌||◌,
  ltb, leb, ◌==◌, if◌then◌else◌, length, get_or,
}
use poser.Prelude.Chars.{codes}
use poser.Json.{
  Json, null, boolean, integer, real, string, array, object, Items, nil, cons, Members, end, member,
  Doubles, json_string,
}

-- the buffer of PSC_JsonSerializer for writing, and whether it is owned and grows
pub record Buf : Type 0 where
  pub text : List ℕ
  pub bufsz : ℕ
  pub owned : Bool

-- how a function ends: the answer 0, the answer -1, or a null pointer read
pub data Outcome : Type 0 where
  done : Buf → Outcome
  full : Buf → Outcome
  crashed : Outcome

abbrev pub and_then : Outcome → (Buf → Outcome) → Outcome
and_then (done b) next = next b
and_then (full b) next = full b
and_then crashed next = crashed

-- `appendChr`
unfoldable pub append_chr : Buf → ℕ → Outcome
append_chr b c =
    if not b.owned && leb b.bufsz (length b.text + 1)
    then full b
    else (let bufsz = if length b.text == b.bufsz then b.bufsz + 1024 else b.bufsz in
        done (record b { text = b.text ++ c ∷ []; bufsz = bufsz }))

-- characters, one after the other
unfoldable pub append_chars : Buf → List ℕ → Outcome
append_chars b [] = done b
append_chars b (c ∷ cs) = and_then (append_chr b c) (λ b'. append_chars b' cs)

abbrev pub hex : List ℕ
hex = codes "0123456789abcdefABCDEF"

-- what `serializePlainString` appends for a character
unfoldable pub escape : ℕ → List ℕ
escape c =
    if c == b'"' || c == b'\\'
    then b'\\' ∷ c ∷ []
    else if c == 8
    then b'\\' ∷ b'b' ∷ []
    else if c == 12
    then b'\\' ∷ b'f' ∷ []
    else if c == 10
    then b'\\' ∷ b'n' ∷ []
    else if c == 13
    then b'\\' ∷ b'r' ∷ []
    else if c == 9
    then b'\\' ∷ b't' ∷ []
    else if ltb c 32
    then b'\\' ∷ b'u' ∷ b'0' ∷ b'0' ∷ get_or hex (c / 16) 0 ∷ get_or hex (c % 16) 0 ∷ []
    else c ∷ []

-- its loop
unfoldable pub string_chars : Buf → List ℕ → Outcome
string_chars b [] = done b
string_chars b (c ∷ p) = and_then (append_chars b (escape c)) (λ b'. string_chars b' p)

-- `serializePlainString`
unfoldable pub serialize_plain_string : Buf → List ℕ → Outcome
serialize_plain_string b p =
    and_then (append_chr b b'"') (λ b1. and_then (string_chars b1 p) (λ b2. append_chr b2 b'"'))

-- a comma, but not before the first one
abbrev pub comma : Bool → Buf → Outcome
comma first b = if first then done b else append_chr b b','

module _ {F : Type 0} (d : Doubles F) where
  unfoldable mutual
    -- `serialize`, with `serializeArray` and `serializeObject`
    pub serialize : Json F → Buf → Outcome
    serialize null b = append_chars b (codes "null")
    serialize (boolean false) b = append_chars b (codes "false")
    serialize (boolean true) b = append_chars b (codes "true")
    serialize (integer n) b = append_chars b (json_string d (integer n))
    serialize (real x) b = append_chars b (json_string d (real x))
    serialize (string value) b = serialize_plain_string b value
    serialize (array nil) b = and_then (append_chr b b'[') (λ _. crashed)
    serialize (array (cons x xs)) b =
        and_then (append_chr b b'[')
          (λ b1. and_then (serialize_items true (cons x xs) b1) (λ b2. append_chr b2 b']'))
    serialize (object end) b = and_then (append_chr b b'{') (λ _. crashed)
    serialize (object (member key value ms)) b = and_then (append_chr b b'{') (λ b1.
        and_then (serialize_members true (member key value ms) b1) (λ b2. append_chr b2 b'}'))

    -- the loop of `serializeArray`
    pub serialize_items : Bool → Items F → Buf → Outcome
    serialize_items first nil b = done b
    serialize_items first (cons x xs) b =
        and_then (comma first b)
          (λ b1. and_then (serialize x b1) (λ b2. serialize_items false xs b2))

    -- the loop of `serializeObject`
    pub serialize_members : Bool → Members F → Buf → Outcome
    serialize_members first end b = done b
    serialize_members first (member key value ms) b = and_then (comma first b) (λ b1.
        and_then (serialize_plain_string b1 key) (λ b2.
          and_then (append_chr b2 b':')
            (λ b3. and_then (serialize value b3) (λ b4. serialize_members false ms b4))))

  -- the end of `PSC_JsonSerializer_serializeTo`: the characters in the buffer, and the result
  abbrev pub finish : Buf → ℕ → List ℕ × ℕ
  finish b short =
      let text = if ltb (length b.text) b.bufsz then b.text ++ 0 ∷ [] else b.text in
      (text, length text + short)

  -- `PSC_JsonSerializer_serializeTo`
  unfoldable pub serialize_to : ℕ → Json F → Option (List ℕ × ℕ)
  serialize_to bufsz value =
      elim (serialize value (record { text = []; bufsz = bufsz; owned = false })) [
        | done b ↦ some (finish b 0)
        | full b ↦ some (finish b 1)
        | crashed ↦ none
      ]

  -- `PSC_JsonSerializer_serialize`
  unfoldable pub serialize_new : Json F → Option (List ℕ)
  serialize_new value = elim (serialize value (record { text = []; bufsz = 0; owned = true })) [
    | done b ↦ elim (append_chr b 0) [
      | done b' ↦ some b'.text
      | full b' ↦ some b'.text
      | crashed ↦ none
    ]
    | full b ↦ elim (append_chr b 0) [
      | done b' ↦ some b'.text
      | full b' ↦ some b'.text
      | crashed ↦ none
    ]
    | crashed ↦ none
  ]
