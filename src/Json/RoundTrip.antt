-- ===== src/Json/RoundTrip.antt =====
-- The parser of json.c reads back what the serializer writes.
use mathlib.Core.Option
use poser.Prelude.{
  ℕ, zero, suc, ◌+◌, ◌*◌, ◌≤◌, ◌≡◌, refl, sym, ap, ◌∙◌, List, [], ◌∷◌, ◌++◌, Option, none, some,
  true, false, length, append_assoc, append-nil, take, subst, arith,
}
use poser.Json.{
  Json, null, boolean, integer, real, string, array, object, Items, nil, cons, Members, end, member,
  snoc, Doubles, json_string,
}
use poser.Json.CStrings.{string_of-text}
use poser.Prelude.Chars.{strlen}
use poser.Json.Serializer.{serialize_new}
use poser.Json.Parser.{parsed, skip_ws, parse_from, parse_object, parse_array, parse, deserialize}
use poser.Json.Text.{quoted, text, text_items, text_members}
use poser.Json.Buffers.{serialize_new-text}
use poser.Json.Numbers.{ends}
use poser.Json.Steps.{
  IsFirst, skip_ws-IsFirst, put_last, set-fresh, parse_array-last, parse_array-more,
  parse_object-last, parse_object-more, parse_from-null, parse_from-boolean, parse_from-integer,
  parse_from-string, parse_from-array, parse_from-object,
}
use poser.Json.Valid.{
  IsValid, AreValid, AreMembersValid, cost, cost_items, cost_members, text-IsFirst, cost-text,
  IsValid-is_filled,
}

module _ {F : Type 0} where
  -- The items of two arrays, and the members of two objects.
  abbrev onto : Items F → Items F → Items F
  onto nil ys = ys
  onto (cons x xs) ys = cons x (onto xs ys)

  onto-snoc :
      (acc : Items F) (x : Json F) (xs : Items F) → onto (snoc acc x) xs ≡ onto acc (cons x xs)
  onto-snoc nil x xs = refl
  onto-snoc (cons y acc) x xs = ap (cons y) (onto-snoc acc x xs)

  onto-single : (acc : Items F) (x : Json F) → snoc acc x ≡ onto acc (cons x nil)
  onto-single nil x = refl
  onto-single (cons y acc) x = ap (cons y) (onto-single acc x)

  abbrev joined : Members F → Members F → Members F
  joined end ms = ms
  joined (member key v before) ms = member key v (joined before ms)

  joined-put_last :
      (before : Members F) (key : List ℕ) (v : Json F) (ms : Members F)
      → joined (put_last before key v) ms ≡ joined before (member key v ms)
  joined-put_last end key v ms = refl
  joined-put_last (member k w before) key v ms = ap (member k w) (joined-put_last before key v ms)

  joined-single :
      (before : Members F) (key : List ℕ) (v : Json F)
      → put_last before key v ≡ joined before (member key v end)
  joined-single end key v = refl
  joined-single (member k w before) key v = ap (member k w) (joined-single before key v)

member_assoc :
    (key one more rest : List ℕ)
    → (quoted key ++ b':' ∷ (one ++ more)) ++ rest ≡ quoted key ++ b':' ∷ (one ++ (more ++ rest))
member_assoc key one more rest =
    append_assoc (quoted key) (b':' ∷ (one ++ more)) rest
    ∙ ap (λ t. quoted key ++ b':' ∷ t) (append_assoc one more rest)

module _ {F : Type 0} (d : Doubles F) where
  mutual
    unfolding text cost IsValid json_string

    -- The text of a value, with the end of one behind it, is parsed to that value.
    parse_from-text :
        (v : Json F) (fuel : ℕ) (rest : List ℕ) (obj : Option (Json F))
        → IsValid v
        → cost v ≤ fuel
        → ends rest ≡ true
        → parse_from d fuel (text d v ++ rest) obj ≡ parsed (some v) rest
    parse_from-text null zero rest obj h c e = absurd (omega arith)
    parse_from-text null (suc fuel) rest obj h c e = parse_from-null d fuel rest obj
    parse_from-text (boolean b) zero rest obj h c e = absurd (omega arith)
    parse_from-text (boolean false) (suc fuel) rest obj h c e =
        parse_from-boolean d fuel false rest obj
    parse_from-text (boolean true) (suc fuel) rest obj h c e =
        parse_from-boolean d fuel true rest obj
    parse_from-text (integer n) zero rest obj h c e = absurd (omega arith)
    parse_from-text (integer n) (suc fuel) rest obj h c e = parse_from-integer d fuel n rest obj h e
    parse_from-text (real x) fuel rest obj h c e = absurd h
    parse_from-text (string s) zero rest obj h c e = absurd (omega arith)
    parse_from-text (string s) (suc fuel) rest obj h c e = parse_from-string d fuel s rest obj h
    parse_from-text (array items) zero rest obj h c e = absurd (omega arith)
    parse_from-text (array items) (suc fuel) rest obj h c e =
        let body : List ℕ = text_items d true items in
        parse_from-array d fuel ((body ++ b']' ∷ []) ++ rest) obj
        ∙ ap (λ t. parse_array d fuel t nil none) (append_assoc body (b']' ∷ []) rest)
        ∙ parse_array-text items fuel rest nil none h (omega arith)
    parse_from-text (object ms) zero rest obj h c e = absurd (omega arith)
    parse_from-text (object ms) (suc fuel) rest obj h c e =
        let body : List ℕ = text_members d true ms in
        parse_from-object d fuel ((body ++ b'}' ∷ []) ++ rest) obj
        ∙ ap (λ t. parse_object d fuel t end none) (append_assoc body (b'}' ∷ []) rest)
        ∙ parse_object-text ms fuel rest end none h (omega arith)

    parse_array-text :
        (items : Items F) (fuel : ℕ) (rest : List ℕ) (acc : Items F) (item : Option (Json F))
        → AreValid items
        → cost_items items ≤ fuel
        → parse_array d fuel (text_items d true items ++ b']' ∷ rest) acc item
          ≡ parsed (some (array (onto acc items))) rest
    parse_array-text nil fuel rest acc item h c = absurd h
    parse_array-text (cons x nil) zero rest acc item h c = absurd (omega arith)
    parse_array-text (cons x nil) (suc fuel) rest acc item h c =
        let s : List ℕ = text d x ++ b']' ∷ rest in
        ap (λ t. parse_array d (suc fuel) t acc item) (append_assoc (text d x) [] (b']' ∷ rest))
        ∙ parse_array-last d fuel s rest acc item x (text-IsFirst d x (b']' ∷ rest) h)
            (parse_from-text x fuel (b']' ∷ rest) item h (omega arith) refl)
        ∙ ap (λ xs. parsed (some (array xs)) rest) (onto-single acc x)
    parse_array-text (cons x (cons y ys)) zero rest acc item h c = absurd (omega arith)
    parse_array-text (cons x (cons y ys)) (suc fuel) rest acc item (hx, h) c =
        let more : List ℕ = text_items d true (cons y ys) ++ b']' ∷ rest in
        ap (λ t. parse_array d (suc fuel) t acc item)
          (append_assoc (text d x) (text_items d false (cons y ys)) (b']' ∷ rest))
        ∙ parse_array-more d fuel (text d x ++ b',' ∷ more) more acc item x
            (text-IsFirst d x (b',' ∷ more) hx)
            (parse_from-text x fuel (b',' ∷ more) item hx (omega arith) refl)
        ∙ parse_array-text (cons y ys) fuel rest (snoc acc x) (some x) h (omega arith)
        ∙ ap (λ xs. parsed (some (array xs)) rest) (onto-snoc acc x (cons y ys))

    parse_object-text :
        (ms : Members F) (fuel : ℕ) (rest : List ℕ) (acc : Members F) (value : Option (Json F))
        → AreMembersValid acc ms
        → cost_members ms ≤ fuel
        → parse_object d fuel (text_members d true ms ++ b'}' ∷ rest) acc value
          ≡ parsed (some (object (joined acc ms))) rest
    parse_object-text end fuel rest acc value h c = absurd h
    parse_object-text (member key v end) zero rest acc value h c = absurd (omega arith)
    parse_object-text (member key v end) (suc fuel) rest acc value (hk, fresh, hv) c =
        let t : List ℕ = text d v ++ b'}' ∷ rest in
        ap (λ t. parse_object d (suc fuel) t acc value)
          (member_assoc key (text d v) [] (b'}' ∷ rest))
        ∙ parse_object-last d fuel key t rest acc value v hk (text-IsFirst d v (b'}' ∷ rest) hv)
            (parse_from-text v fuel (b'}' ∷ rest) value hv (omega arith) refl)
        ∙ ap (λ ms. parsed (some (object ms)) rest)
            (set-fresh acc key v fresh ∙ joined-single acc key v)
    parse_object-text (member key v (member key' v' ms)) zero rest acc value h c =
        absurd (omega arith)
    parse_object-text (member key v (member key' v' ms)) (suc fuel) rest acc value
          (hk, fresh, hv, h) c =
        let next : Members F = member key' v' ms in
        let more : List ℕ = text_members d true next ++ b'}' ∷ rest in
        ap (λ t. parse_object d (suc fuel) t acc value)
          (member_assoc key (text d v) (text_members d false next) (b'}' ∷ rest))
        ∙ parse_object-more d fuel key (text d v ++ b',' ∷ more) more acc value v hk
            (text-IsFirst d v (b',' ∷ more) hv)
            (parse_from-text v fuel (b',' ∷ more) value hv (omega arith) refl)
        ∙ ap (λ ms. parse_object d fuel more ms (some v)) (set-fresh acc key v fresh)
        ∙ parse_object-text next fuel rest (put_last acc key v) (some v) h (omega arith)
        ∙ ap (λ ms. parsed (some (object ms)) rest) (joined-put_last acc key v next)

  -- The C string that `PSC_JsonSerializer_serialize` makes of a value is read back to this value by
  -- `PSC_JsonSerializer_deserialize`, if the value has only integers of 64 bits and no floating point
  -- numbers, strings of bytes, no empty arrays or objects, and no key twice in an object.
  pub deserialize-serialize_new :
      (v : Json F)
      → IsValid v
      → Option.map (λ t. deserialize d (take (strlen t) t)) (serialize_new d v) ≡ some (some v)
  unfolding deserialize parse
  deserialize-serialize_new v h =
      let t : List ℕ = text d v in
      let bare = append-nil t in
      let no_ws : skip_ws t ≡ t =
        skip_ws-IsFirst t (subst (λ t. IsFirst t) bare (text-IsFirst d v [] h)) in
      let filled = IsValid-is_filled v h in
      let read =
        parse_from-text v (2 * length t + 2) [] none h (omega (arith, cost-text d v h)) refl in
      let read' : parse_from d (2 * length t + 2) (skip_ws t) none ≡ parsed (some v) [] =
        ap (λ t'. parse_from d (2 * length t + 2) t' none) (no_ws ∙ sym bare) ∙ read in
      rw (serialize_new-text d v, filled, string_of-text d v h, deserialize, parse, read')
        (unfold skip_ws in refl)
