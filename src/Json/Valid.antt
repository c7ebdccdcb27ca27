-- ===== src/Json/Valid.antt =====
-- The JSON values whose text json.c reads back, and how often its parser calls itself for one.
use poser.Prelude.{
  ℕ, suc, ◌+◌, ◌*◌, ◌≤◌, ◌≡◌, refl, ap, List, [], ◌∷◌, ◌++◌, none, Bool, true, false, ◌||◌, ◌==◌,
  length, length-append, arith,
}
use poser.Prelude.Int.{ℤ}
use poser.Prelude.Chars.{codes}
use poser.Json.Parser.{is_ws, is_number_char}
use poser.Json.{
  Json, null, boolean, integer, real, string, array, object, Items, nil, cons, Members, end, member,
  get, Doubles, integer_text, json_string,
}
use poser.Json.Text.{
  quoted, escaped, separator, text, text_items, text_members, is_filled, are_filled,
  are_members_filled,
}
use poser.Json.Strings.{IsString}
use poser.Json.Numbers.{IsInt64, integer_text-IsNumber}
use poser.Json.Steps.{IsFirst, put_last}

-- Integers of 64 bits, no floating point numbers, strings of bytes, no empty arrays and objects, and
-- no key twice in an object.
unfoldable mutual
  pub IsValid : {F : Type 0} → Json F → Type 0
  IsValid null = Unit
  IsValid (boolean b) = Unit
  IsValid (integer n) = IsInt64 n
  IsValid (real x) = ⊥
  IsValid (string s) = IsString s
  IsValid (array items) = AreValid items
  IsValid (object ms) = AreMembersValid end ms

  pub AreValid : {F : Type 0} → Items F → Type 0
  AreValid nil = ⊥
  AreValid (cons x nil) = IsValid x
  AreValid (cons x (cons y ys)) = IsValid x × AreValid (cons y ys)

  pub AreMembersValid : {F : Type 0} → Members F → Members F → Type 0
  AreMembersValid before end = ⊥
  AreMembersValid before (member key v end) = IsString key × (get before key ≡ none) × IsValid v
  AreMembersValid before (member key v (member key' v' ms)) =
      IsString key
      × (get before key ≡ none)
      × IsValid v
      × AreMembersValid (put_last before key v) (member key' v' ms)

unfoldable mutual
  pub cost : {F : Type 0} → Json F → ℕ
  cost (array items) = suc (cost_items items)
  cost (object ms) = suc (cost_members ms)
  cost _ = 1

  pub cost_items : {F : Type 0} → Items F → ℕ
  cost_items nil = 0
  cost_items (cons x xs) = suc (cost x + cost_items xs)

  pub cost_members : {F : Type 0} → Members F → ℕ
  cost_members end = 0
  cost_members (member key v ms) = suc (cost v + cost_members ms)

digit_opens : (c : ℕ) → is_number_char c ≡ true → (is_ws c || c == b']' || c == b'}') ≡ false
digit_opens c h = ground arith

-- What one item, and one member, adds.
cost_step :
    (first : Bool) (one more : List ℕ) (n m : ℕ)
    → n + 1 ≤ 2 * length one
    → m ≤ 2 * length more
    → suc (n + m) ≤ 2 * length (separator first ++ (one ++ more))
cost_step first one more n m h k =
    omega (arith, length-append (separator first) (one ++ more), length-append one more)

cost_step_member :
    (first : Bool) (key one more : List ℕ) (n m : ℕ)
    → n + 1 ≤ 2 * length one
    → m ≤ 2 * length more
    → suc (n + m) ≤ 2 * length (separator first ++ (key ++ b':' ∷ (one ++ more)))
cost_step_member first key one more n m h k = omega (
  arith,
  length-append (separator first) (key ++ b':' ∷ (one ++ more)),
  length-append key (b':' ∷ (one ++ more)),
  length-append one more,
)

module _ {F : Type 0} (d : Doubles F) where
  pub text-IsFirst : (v : Json F) (rest : List ℕ) → IsValid v → IsFirst (text d v ++ rest)
  unfolding text IsValid json_string
  text-IsFirst null rest h = record {
    head = b'n';
    tail = codes "ull" ++ rest;
    parts = refl;
    opens = refl;
  }
  text-IsFirst (boolean false) rest h = record {
    head = b'f';
    tail = codes "alse" ++ rest;
    parts = refl;
    opens = refl;
  }
  text-IsFirst (boolean true) rest h = record {
    head = b't';
    tail = codes "rue" ++ rest;
    parts = refl;
    opens = refl;
  }
  text-IsFirst (integer n) rest h =
      let first = integer_text-IsNumber n in
      record {
        head = first.head;
        tail = first.tail ++ rest;
        parts = ap (λ t. t ++ rest) first.parts;
        opens = digit_opens first.head first.starts;
      }
  text-IsFirst (real x) rest h = absurd h
  text-IsFirst (string s) rest h = record {
    head = b'"';
    tail = (escaped s ++ b'"' ∷ []) ++ rest;
    parts = refl;
    opens = refl;
  }
  text-IsFirst (array items) rest h = record {
    head = b'[';
    tail = (text_items d true items ++ b']' ∷ []) ++ rest;
    parts = refl;
    opens = refl;
  }
  text-IsFirst (object ms) rest h = record {
    head = b'{';
    tail = (text_members d true ms ++ b'}' ∷ []) ++ rest;
    parts = refl;
    opens = refl;
  }

  length-integer_text : (n : ℤ) → 1 ≤ length (integer_text n)
  length-integer_text n = let first = integer_text-IsNumber n in rw first.parts (omega arith)

  mutual
    unfolding text cost IsValid json_string

    -- A value costs no more than twice the characters of its text.
    pub cost-text : (v : Json F) → IsValid v → cost v + 1 ≤ 2 * length (text d v)
    cost-text null h = omega arith
    cost-text (boolean false) h = omega arith
    cost-text (boolean true) h = omega arith
    cost-text (integer n) h = omega (arith, length-integer_text n)
    cost-text (real x) h = absurd h
    cost-text (string s) h = omega (arith, length-append (escaped s) (b'"' ∷ []))
    cost-text (array items) h =
        omega
          (arith, length-append (text_items d true items) (b']' ∷ []), cost-text_items true items h)
    cost-text (object ms) h =
        omega (
          arith,
          length-append (text_members d true ms) (b'}' ∷ []),
          cost-text_members true end ms h,
        )

    cost-text_items :
        (first : Bool) (items : Items F)
        → AreValid items
        → cost_items items ≤ 2 * length (text_items d first items)
    cost-text_items first nil h = absurd h
    cost-text_items first (cons x nil) h =
        cost_step first (text d x) [] (cost x) 0 (cost-text x h) (omega arith)
    cost-text_items first (cons x (cons y ys)) (hx, h) =
        cost_step first (text d x) (text_items d false (cons y ys)) (cost x)
          (cost_items (cons y ys)) (cost-text x hx) (cost-text_items false (cons y ys) h)

    cost-text_members :
        (first : Bool) (before ms : Members F)
        → AreMembersValid before ms
        → cost_members ms ≤ 2 * length (text_members d first ms)
    cost-text_members first before end h = absurd h
    cost-text_members first before (member key v end) (hk, _, hv) =
        cost_step_member first (quoted key) (text d v) [] (cost v) 0 (cost-text v hv) (omega arith)
    cost-text_members first before (member key v (member key' v' ms)) (hk, _, hv, h) =
        cost_step_member first (quoted key) (text d v) (text_members d false (member key' v' ms))
          (cost v) (cost_members (member key' v' ms)) (cost-text v hv)
          (cost-text_members false (put_last before key v) (member key' v' ms) h)

mutual
  unfolding is_filled IsValid

  pub IsValid-is_filled : {F : Type 0} (v : Json F) → IsValid v → is_filled v ≡ true
  IsValid-is_filled null h = refl
  IsValid-is_filled (boolean b) h = refl
  IsValid-is_filled (integer n) h = refl
  IsValid-is_filled (real x) h = refl
  IsValid-is_filled (string s) h = refl
  IsValid-is_filled (array nil) h = absurd h
  IsValid-is_filled (array (cons x xs)) h = AreValid-are_filled (cons x xs) h
  IsValid-is_filled (object end) h = absurd h
  IsValid-is_filled (object (member key v ms)) h =
      AreMembersValid-are_members_filled end (member key v ms) h

  AreValid-are_filled : {F : Type 0} (items : Items F) → AreValid items → are_filled items ≡ true
  AreValid-are_filled nil h = refl
  AreValid-are_filled (cons x nil) h = rw (IsValid-is_filled x h) refl
  AreValid-are_filled (cons x (cons y ys)) (hx, h) =
      rw (IsValid-is_filled x hx) (AreValid-are_filled (cons y ys) h)

  AreMembersValid-are_members_filled :
      {F : Type 0} (before ms : Members F)
      → AreMembersValid before ms
      → are_members_filled ms ≡ true
  AreMembersValid-are_members_filled before end h = refl
  AreMembersValid-are_members_filled before (member key v end) (hk, hb, hv) =
      rw (IsValid-is_filled v hv) refl
  AreMembersValid-are_members_filled before (member key v (member key' v' ms)) (hk, hb, hv, h) =
      rw (IsValid-is_filled v hv)
        (AreMembersValid-are_members_filled (put_last before key v) (member key' v' ms) h)
