-- ===== src/Json/Terminates.antt =====
-- The parser of json.c ends on every text.
use poser.Prelude.{
  ℕ, zero, suc, ◌+◌, ◌*◌, ◌≤◌, List, [], ◌∷◌, Option, none, Bool, true, false, ◌==◌, length, arith,
}
use poser.Json.{Json, Items, nil, Members, end, Doubles}
use poser.Json.Parser.{
  Parsed, skip_ws, is_number_char, parse_plain_string, append_value, set_value, parse_from,
  parse_object, parse_array, parse,
}
use poser.Json.Lengths.{
  EndsWithin, weaker_end, then-EndsWithin, after-EndsWithin, length-skip_ws,
  parse_plain_string-EndsWithin, parse_string-EndsWithin, parse_number-EndsWithin,
  parse_literal-EndsWithin,
}

case-EndsWithin :
    {B : Type 0} (n : ℕ) (b : Bool) (p q : Parsed B)
    → EndsWithin n p
    → EndsWithin n q
    → EndsWithin n (elim b [ true ↦ p | false ↦ q ])
case-EndsWithin n true p q h k = h
case-EndsWithin n false p q h k = k

module _ {F : Type 0} (d : Doubles F) where
  mutual
    unfolding parse_from

    parse_from-EndsWithin :
        (fuel : ℕ) (s : List ℕ) (obj : Option (Json F))
        → 2 * length s + 1 ≤ fuel
        → EndsWithin (length s) (parse_from d fuel s obj)
    parse_from-EndsWithin zero s obj h = absurd (omega arith)
    parse_from-EndsWithin (suc fuel) [] obj h = omega arith
    parse_from-EndsWithin (suc fuel) (c ∷ s) obj h =
        let n = suc (length s) in
        let as_object = parse_object d fuel s end none in
        let as_array = parse_array d fuel s nil none in
        case-EndsWithin n (c == b'{') _ _
          (weaker_end (length s) n as_object (omega arith)
            (parse_object-EndsWithin fuel s end none (omega arith)))
          (case-EndsWithin n (c == b'[') _ _
            (weaker_end (length s) n as_array (omega arith)
              (parse_array-EndsWithin fuel s nil none (omega arith)))
            (case-EndsWithin n (c == b'"') _ _ (parse_string-EndsWithin d (c ∷ s)) (
              case-EndsWithin n (is_number_char c) _ _ (parse_number-EndsWithin d (c ∷ s))
                (parse_literal-EndsWithin d (c ∷ s)))))

    parse_object-EndsWithin :
        (fuel : ℕ) (s : List ℕ) (members : Members F) (value : Option (Json F))
        → 2 * length s + 2 ≤ fuel
        → EndsWithin (length s) (parse_object d fuel s members value)
    parse_object-EndsWithin zero s members value h = absurd (omega arith)
    parse_object-EndsWithin (suc fuel) s members value h =
        let n = length s in
        let t = skip_ws s in
        let l0 = length-skip_ws s in
        after-EndsWithin b'}' n t _ _
          (then-EndsWithin (length t) n (parse_plain_string t) _ (parse_plain_string-EndsWithin t)
            (λ key s1 l1.
              let l1' = length-skip_ws s1 in
              after-EndsWithin b':' n (skip_ws s1) _ _ tt (λ s2 l2.
                let l2' = length-skip_ws s2 in
                then-EndsWithin (length (skip_ws s2)) n (parse_from d fuel (skip_ws s2) value) _
                  (parse_from-EndsWithin fuel (skip_ws s2) value (omega arith))
                  (λ value' s3 l3.
                    let l3' = length-skip_ws s3 in
                    after-EndsWithin b'}' n (skip_ws s3) _ _
                      (after-EndsWithin b',' n (skip_ws s3) _ _ tt (λ rest l.
                        weaker_end (length rest) n
                          (parse_object d fuel rest (set_value d members key value') value')
                          (omega arith)
                          (parse_object-EndsWithin fuel rest (set_value d members key value') value'
                            (omega arith))))
                      (λ rest l. omega arith)))))
          (λ rest l. omega arith)

    parse_array-EndsWithin :
        (fuel : ℕ) (s : List ℕ) (items : Items F) (item : Option (Json F))
        → 2 * length s + 2 ≤ fuel
        → EndsWithin (length s) (parse_array d fuel s items item)
    parse_array-EndsWithin zero s items item h = absurd (omega arith)
    parse_array-EndsWithin (suc fuel) s items item h =
        let n = length s in
        let t = skip_ws s in
        let l0 = length-skip_ws s in
        after-EndsWithin b']' n t _ _
          (then-EndsWithin (length t) n (parse_from d fuel t item) _
            (parse_from-EndsWithin fuel t item (omega arith))
            (λ item' s1 l1.
              let l1' = length-skip_ws s1 in
              after-EndsWithin b']' n (skip_ws s1) _ _
                (after-EndsWithin b',' n (skip_ws s1) _ _ tt (λ rest l.
                  weaker_end (length rest) n
                    (parse_array d fuel rest (append_value d items item') item') (omega arith)
                    (parse_array-EndsWithin fuel rest (append_value d items item') item'
                      (omega arith))))
                (λ rest l. omega arith)))
          (λ rest l. omega arith)

  -- On every text, the parser ends within the fuel that `parse` gives it, and what it leaves is no
  -- longer than the text.
  pub parse-EndsWithin :
      (s : List ℕ) (obj : Option (Json F)) → EndsWithin (length s) (parse d s obj)
  unfolding parse
  parse-EndsWithin s obj =
      let l = length-skip_ws s in
      weaker_end (length (skip_ws s)) (length s) (parse_from d (2 * length s + 2) (skip_ws s) obj) l
        (parse_from-EndsWithin (2 * length s + 2) (skip_ws s) obj (omega arith))
