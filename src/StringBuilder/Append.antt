-- ===== src/StringBuilder/Append.antt =====
-- The text that a string builder of stringbuilder.c holds.
use poser.Prelude.{
  ℕ, zero, suc, ◌+◌, ◌-◌, ◌≤◌, ◌<◌, ◌≡◌, refl, sym, ap, ◌∙◌, inl, inr, List, [], ◌∷◌, ◌++◌, Option,
  none, some, false, map, leb, ltb, length, get_or, take, Bool-cases, length-take, length-append,
  length-map, get_or-append, ltb→lt, ltb→le, lt→ltb, arith,
}
use poser.Prelude.Chars.{strlen}
use poser.Prelude.Memory.{
  realloc, write_at, length-write_at, get_or-write_at_outside, get_or-write_at_inside,
  length-realloc, get_or-realloc,
}
use poser.StringBuilder.{chunk_size, StringBuilder, create, grow, copied, append}

-- The builder holds the text: nothing at first, and then its characters and a terminator within the
-- buffer.
pub record Holds (text : List ℕ) (sb : StringBuilder) : Type 0 where
  pub sized : sb.size ≡ length text
  pub storage : length sb.str ≡ sb.capa
  pub fresh : sb.capa ≡ 0 → sb.size ≡ 0
  pub room : 0 < sb.capa → sb.size < sb.capa
  pub chars : (i : ℕ) → i < length text → get_or sb.str i none ≡ some (get_or text i 0)
  pub ended : 0 < sb.capa → get_or sb.str sb.size none ≡ some 0

grow-lt : (fuel capa newsz : ℕ) → newsz < capa + fuel → newsz < grow fuel capa newsz
unfolding grow
grow-lt zero capa newsz h = omega arith
grow-lt (suc fuel) capa newsz h = ground (arith, grow-lt fuel (capa + chunk_size) newsz)

grow-le : (fuel capa newsz : ℕ) → capa ≤ grow fuel capa newsz
unfolding grow
grow-le zero capa newsz = omega arith
grow-le (suc fuel) capa newsz = ground (arith, grow-le fuel (capa + chunk_size) newsz)

strlen-le : (s : List ℕ) → strlen s ≤ length s
strlen-le [] = omega arith
strlen-le (c ∷ cs) = ground (arith, strlen-le cs)

get_or-map-some :
    (xs : List ℕ) (i : ℕ) → i < length xs → get_or (map some xs) i none ≡ some (get_or xs i 0)
get_or-map-some [] i h = absurd (omega arith)
get_or-map-some (x ∷ xs) zero h = refl
get_or-map-some (x ∷ xs) (suc i) h = get_or-map-some xs i (omega arith)

get_or-append_left :
    (xs ys : List ℕ) (i d : ℕ) → i < length xs → get_or (xs ++ ys) i d ≡ get_or xs i d
get_or-append_left xs ys i d h = rw (get_or-append, lt→ltb i (length xs) h) refl

get_or-append_right :
    (xs ys : List ℕ) (i d : ℕ) → length xs ≤ i → get_or (xs ++ ys) i d ≡ get_or ys (i - length xs) d
get_or-append_right xs ys i d h =
    let test : ltb i (length xs) ≡ false = ground arith in rw (get_or-append, test) refl

pub create-Holds : Holds [] create
unfolding create
create-Holds = record {
  sized = refl;
  storage = refl;
  fresh = λ e. refl;
  room = λ h. absurd (omega arith);
  chars = λ i h. absurd (omega arith);
  ended = λ h. absurd (omega arith);
}

-- A builder that holds a text holds after `PSC_StringBuilder_append` that text with the string behind
-- it, up to the string's terminator, and a terminator, all within the buffer, also when it grows.
pub append-Holds :
    {text : List ℕ} {sb : StringBuilder} (str : List ℕ)
    → Holds text sb
    → Holds (text ++ take (strlen str) str) (append sb str)
unfolding append
append-Holds {text} {sb} str v = elim (Bool-cases (leb sb.capa (sb.size + strlen str))) [
  | inl full ↦
      let capa : ℕ = grow (sb.size + strlen str + 1) sb.capa (sb.size + strlen str) in
      let more : sb.capa ≤ capa =
        grow-le (sb.size + strlen str + 1) sb.capa (sb.size + strlen str) in
      rw full (
        written (realloc sb.str capa) capa (length-realloc sb.str capa (omega (arith, v.storage)))
          (grow-lt (sb.size + strlen str + 1) sb.capa (sb.size + strlen str) (omega arith))
          (λ i h. get_or-realloc sb.str capa i (omega (arith, v.storage, old_room h))))
  | inr fits ↦ rw fits (written sb.str sb.capa v.storage (ground arith) (λ i h. refl))
]
  where
    old_room : {i : ℕ} → i < sb.size → i < sb.capa
    old_room h = ground (arith, v.fresh, v.room)

    len : length (take (strlen str) str) ≡ strlen str
    len = omega (arith, length-take (strlen str) str, strlen-le str)

    size : length (map some (copied str)) ≡ strlen str + 1
    size =
        length-map some (copied str)
        ∙ omega (arith, length-append (take (strlen str) str) (0 ∷ []), len)

    written :
        (buffer : List (Option ℕ)) (capa : ℕ)
        → length buffer ≡ capa
        → sb.size + strlen str < capa
        → ((i : ℕ) → i < sb.size → get_or buffer i none ≡ get_or sb.str i none)
        → Holds (text ++ take (strlen str) str) (record {
          size = sb.size + strlen str;
          capa = capa;
          str = write_at buffer sb.size (map some (copied str));
        })
    written buffer capa len_b lt same = record {
      sized = omega (arith, v.sized, length-append text (take (strlen str) str), len);
      storage = length-write_at (map some (copied str)) buffer sb.size ∙ len_b;
      fresh = λ e. absurd (omega arith);
      room = λ h. lt;
      chars = λ i h. elim (Bool-cases (ltb i sb.size)) [
        | inl old ↦
            get_or-write_at_outside (map some (copied str)) buffer sb.size i none
              (omega (arith, size)) (inl (ltb→lt i sb.size old))
            ∙ same i (ltb→lt i sb.size old)
            ∙ v.chars i (ground (arith, v.sized))
            ∙ ap some (
                sym (get_or-append_left text (take (strlen str) str) i 0 (ground (arith, v.sized))))
        | inr new ↦
            let le : sb.size ≤ i = ltb→le i sb.size new in
            let k : ℕ = i - sb.size in
            let same_index : k ≡ i - length text = omega (arith, v.sized) in
            let back : sb.size + k ≡ i = omega arith in
            let small : k < strlen str =
              omega (arith, v.sized, len, length-append text (take (strlen str) str)) in
            ap (λ j. get_or (write_at buffer sb.size (map some (copied str))) j none) (sym back)
            ∙ get_or-write_at_inside (map some (copied str)) buffer sb.size k none
                (omega (arith, size)) (omega (arith, size))
            ∙ get_or-map-some (copied str) k (omega (arith, size, length-map some (copied str)))
            ∙ ap some (
                get_or-append_left (take (strlen str) str) (0 ∷ []) k 0 (omega (arith, len))
                ∙ ap (λ m. get_or (take (strlen str) str) m 0) same_index
                ∙ sym
                    (get_or-append_right text (take (strlen str) str) i 0 (omega (arith, v.sized))))
      ];
      ended = λ h.
          let no_more : strlen str - length (take (strlen str) str) ≡ 0 = omega (arith, len) in
          get_or-write_at_inside (map some (copied str)) buffer sb.size (strlen str) none
            (omega (arith, size)) (omega (arith, size))
          ∙ get_or-map-some (copied str) (strlen str)
              (omega (arith, size, length-map some (copied str)))
          ∙ ap some (
              get_or-append_right (take (strlen str) str) (0 ∷ []) (strlen str) 0
                (omega (arith, len))
              ∙ ap (λ m. get_or (0 ∷ []) m 0) no_more);
    }
