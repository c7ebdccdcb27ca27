-- ===== src/Util/Strings.antt =====
-- What the string helpers of util.c write.
use poser.Prelude.{
  ℕ, zero, suc, ◌+◌, ◌-◌, ◌*◌, ◌^◌, ◌<◌, ◌&&◌, ◌≤◌, ◌≡◌, refl, sym, ap, ap₂, ◌∙◌, List, [], ◌∷◌,
  ◌++◌, Option, none, some, true, ltb, if◌then◌else◌, length, map, drop, length-append,
  length-replicate, length-map, append_assoc, append-nil, map-append, arith,
}
use poser.Prelude.Memory.{malloc, write_at, write_at-cons}
use poser.Util.{u64, strcpy, count_loop, join_loop, joinstr}

write_at-front :
    {A : Type 0} (vs ys : List A)
    → length vs ≤ length ys
    → write_at ys 0 vs ≡ vs ++ drop (length vs) ys
write_at-front [] ys h = refl
write_at-front (v ∷ vs) [] h = absurd (omega arith)
write_at-front (v ∷ vs) (y ∷ ys) h =
    write_at-cons vs ys v 0 ∙ ap (◌∷◌ v) (write_at-front vs ys (omega arith))

write_at-middle :
    {A : Type 0} (xs vs ys : List A)
    → length vs ≤ length ys
    → write_at (xs ++ ys) (length xs) vs ≡ xs ++ (vs ++ drop (length vs) ys)
write_at-middle [] vs ys h = write_at-front vs ys h
write_at-middle (x ∷ xs) vs ys h =
    write_at-cons vs (xs ++ ys) x (length xs) ∙ ap (◌∷◌ x) (write_at-middle xs vs ys h)

drop-malloc : (n m : ℕ) → drop n (malloc {A = ℕ} m) ≡ malloc (m - n)
drop-malloc zero m = let e : m ≡ m - 0 = omega arith in ap (λ k. malloc {A = ℕ} k) e
drop-malloc (suc n) zero = let e : 0 ≡ 0 - suc n = omega arith in ap (λ k. malloc {A = ℕ} k) e
drop-malloc (suc n) (suc m) =
    let e : m - n ≡ suc m - suc n = omega arith in drop-malloc n m ∙ ap (λ k. malloc {A = ℕ} k) e

-- A buffer that starts with a string, with some cells behind the terminator.
abbrev written : List ℕ → ℕ → List (Option ℕ)
written s room = map some s ++ (some 0 ∷ malloc room)

text :
    (t : List ℕ) (rest : List (Option ℕ))
    → map some (t ++ 0 ∷ []) ++ rest ≡ map some t ++ (some 0 ∷ rest)
text [] rest = refl
text (c ∷ t) rest = ap (◌∷◌ (some c)) (text t rest)

length-text : (t : List ℕ) → length (map some (t ++ 0 ∷ [])) ≡ suc (length t)
length-text t = length-map some (t ++ 0 ∷ []) ∙ length-append t (0 ∷ []) ∙ omega arith

-- `strcpy` to the end of the string.
strcpy-end :
    (s t : List ℕ) (room : ℕ)
    → length t ≤ room
    → strcpy (written s room) (length s) t ≡ written (s ++ t) (room - length t)
strcpy-end s t room h =
    let vs : List (Option ℕ) = map some (t ++ 0 ∷ []) in
    let front : List (Option ℕ) = map some s in
    let room_left = length-replicate {A = Option ℕ} room none in
    let at : length s ≡ length front = sym (length-map some s) in
    let size = length-text t in
    ap (λ k. write_at (written s room) k vs) at
    ∙ write_at-middle front vs (some 0 ∷ malloc room) (omega arith)
    ∙ ap (λ n. front ++ (vs ++ drop n (some 0 ∷ malloc room))) size
    ∙ ap (λ r. front ++ (vs ++ r)) (drop-malloc (length t) room)
    ∙ ap (λ r. front ++ r) (text t (malloc (room - length t)))
    ∙ sym (append_assoc front (map some t) (some 0 ∷ malloc (room - length t)))
    ∙ ap (λ f. f ++ (some 0 ∷ malloc (room - length t))) (sym (map-append some s t))

strcpy-start :
    (t : List ℕ) (room : ℕ)
    → length t ≤ room
    → strcpy (malloc (room + 1)) 0 t ≡ written t (room - length t)
strcpy-start t room h =
    let vs : List (Option ℕ) = map some (t ++ 0 ∷ []) in
    let room_left = length-replicate {A = Option ℕ} (room + 1) none in
    let size = length-text t in
    let e : room + 1 - suc (length t) ≡ room - length t = omega arith in
    write_at-front vs (malloc (room + 1)) (omega arith)
    ∙ ap (λ n. vs ++ drop n (malloc (room + 1))) size
    ∙ ap (λ r. vs ++ r) (drop-malloc (suc (length t)) (room + 1) ∙ ap (λ k. malloc {A = ℕ} k) e)
    ∙ text t (malloc (room - length t))

-- The strings, each behind the delimiter.
abbrev pub behind : List ℕ → List (List ℕ) → List ℕ
behind delim [] = []
behind delim (s ∷ strings) = delim ++ (s ++ behind delim strings)

-- The strings with the delimiter between them.
unfoldable pub joined : List ℕ → List (List ℕ) → List ℕ
joined delim [] = []
joined delim (s ∷ strings) = s ++ behind delim strings

join_loop-behind :
    (delim s : List ℕ) (strings : List (List ℕ)) (room : ℕ)
    → length (behind delim strings) ≤ room
    → join_loop delim (written s room) (length s) strings
      ≡ written (s ++ behind delim strings) (room - length (behind delim strings))
unfolding join_loop
join_loop-behind delim s [] room h =
    let e : room ≡ room - 0 = omega arith in
    ap (λ k. written s k) e ∙ ap (λ t. written t (room - 0)) (sym (append-nil s))
join_loop-behind delim s (cur ∷ strings) room h =
    let l1 = length-append delim (cur ++ behind delim strings) in
    let l2 = length-append cur (behind delim strings) in
    let s1 : List ℕ = s ++ delim in
    let s2 : List ℕ = s1 ++ cur in
    let w1 : length s + length delim ≡ length s1 = sym (length-append s delim) in
    let w2 : length s1 + length cur ≡ length s2 = sym (length-append s1 cur) in
    let e : room - length delim - length cur - length (behind delim strings)
        ≡ room - length (delim ++ (cur ++ behind delim strings)) =
      omega arith in
    let parts : s2 ++ behind delim strings ≡ s ++ (delim ++ (cur ++ behind delim strings)) =
      append_assoc s1 cur (behind delim strings)
      ∙ append_assoc s delim (cur ++ behind delim strings) in
    ap
      (λ b.
        join_loop delim (strcpy b (length s + length delim) cur)
          (length s + length delim + length cur) strings)
      (strcpy-end s delim room (omega arith))
    ∙ ap
        (λ w.
          join_loop delim (strcpy (written s1 (room - length delim)) w cur) (w + length cur)
            strings)
        w1
    ∙ ap (λ b. join_loop delim b (length s1 + length cur) strings)
        (strcpy-end s1 cur (room - length delim) (omega arith))
    ∙ ap (λ w. join_loop delim (written s2 (room - length delim - length cur)) w strings) w2
    ∙ join_loop-behind delim s2 strings (room - length delim - length cur) (omega arith)
    ∙ ap₂ written parts e

-- the length of the strings
abbrev total : List (List ℕ) → ℕ
total [] = 0
total (s ∷ strings) = length s + total strings

length-behind :
    (delim : List ℕ) (strings : List (List ℕ))
    → length (behind delim strings) ≡ total strings + length strings * length delim
length-behind delim [] = omega arith
length-behind delim (s ∷ strings) =
    let l1 = length-append delim (s ++ behind delim strings) in
    let l2 = length-append s (behind delim strings) in
    let rest = length-behind delim strings in omega arith

-- Below the bounds of the types, the first loop counts the strings and their length.
count_loop-total :
    (strings : List (List ℕ))
    → length strings < 2 ^ 31
    → total strings < 2 ^ 64
    → ((count_loop strings).0 ≡ length strings) × ((count_loop strings).1 ≡ total strings)
unfolding count_loop
count_loop-total [] few small = (refl, refl)
count_loop-total (s ∷ strings) few small =
    let (n, rlen) = count_loop-total strings (omega arith) (omega arith) in
    (omega (arith, n), omega (arith, rlen))

-- The size that `joinstr` computes is that of the strings with their delimiters.
size_of_joined :
    (n rlen dlen : ℕ)
    → n + 1 < 2 ^ 31
    → rlen + n * dlen + 1 < 2 ^ 64
    → u64 (
        (if ltb 1 (n + 1) && ltb (n + 1) (2 ^ 31) then u64 (rlen + (n + 1 - 1) * dlen) else rlen)
        + 1)
      ≡ rlen + n * dlen + 1
size_of_joined zero rlen dlen few small = omega arith
size_of_joined (suc n) rlen dlen few small =
    let more : ltb 1 (suc n + 1) ≡ true = ground arith in
    let positive : ltb (suc n + 1) (2 ^ 31) ≡ true = ground arith in
    let e : suc n + 1 - 1 ≡ suc n = omega arith in rw (more, positive, e) (omega arith)

-- With fewer than 2 ^ 31 strings, as the `int` that counts them needs, and a result that with its
-- terminator has fewer than 2 ^ 64 characters, as the `size_t` needs, `PSC_joinstr` gives a buffer
-- that the strings, with the delimiter between them and the terminator behind them, fill from the
-- first cell to the last one.
pub joinstr-joined :
    (delim first : List ℕ) (strings : List (List ℕ))
    → length (first ∷ strings) < 2 ^ 31
    → length (joined delim (first ∷ strings)) + 1 < 2 ^ 64
    → joinstr delim (first ∷ strings) ≡ some (map some (joined delim (first ∷ strings) ++ 0 ∷ []))
unfolding joinstr joined
joinstr-joined delim first strings few small =
    let n : ℕ = length strings in
    let rest : ℕ = length (behind delim strings) in
    let b = length-behind delim strings in
    let whole : List ℕ = first ++ behind delim strings in
    let l : length whole ≡ length first + rest = length-append first (behind delim strings) in
    let (count, length_all) = count_loop-total (first ∷ strings) few (omega arith) in
    let strings_all : (count_loop (first ∷ strings)).0 ≡ n + 1 = omega (arith, count) in
    let size : ℕ = length first + rest in
    let e : length first + total strings + n * length delim + 1 ≡ size + 1 = omega arith in
    let room : size - length first ≡ rest = omega arith in
    let none_left : rest - rest ≡ 0 = omega arith in
    rw
      (
        strings_all,
        length_all,
        size_of_joined n (length first + total strings) (length delim) (omega (arith, few))
            (omega arith),
        e,
      )
      (ap some (
        ap (λ b. join_loop delim b (length first) strings) (strcpy-start first size (omega arith))
        ∙ ap (λ k. join_loop delim (written first k) (length first) strings) room
        ∙ join_loop-behind delim first strings rest (omega arith)
        ∙ ap (written whole) none_left
        ∙ sym (text whole [])
        ∙ append-nil (map some (whole ++ 0 ∷ []))))
