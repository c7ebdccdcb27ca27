-- ===== src/IpAddr/RoundTripV6.antt =====
-- `parsev6` of ipaddr.c reads what `toString` writes of the bytes of an IPv6 address.
use poser.Prelude.{
  ℕ, zero, suc, ◌+◌, ◌-◌, ◌*◌, ◌/◌, ◌%◌, ◌^◌, ◌≤◌, ◌<◌, ◌≡◌, refl, sym, ap, subst, ◌∙◌, inl, inr,
  List, [], ◌∷◌, ◌++◌, none, some, ◌==◌, length, take, drop, replicate, All, append_assoc,
  append-nil, length-append, length-replicate, length-take, length-drop, Bool-cases, arith,
}
use poser.Prelude.Numerals.{numeral}
use poser.Prelude.ReadBack.{numeral-Written}
use poser.Prelude.Memory.{write_at, write_at-cons, write_at_all}
use poser.IpAddr.{words_of, find_gap, print_v6, V6, parsev6_loop, v6_bytes, parsev6}
use poser.IpAddr.Gap.{IsGap, gap-IsGap, split-gap}
use poser.IpAddr.PrintV6.{more, lead, before_gap, gap_text, print_words-text}
use poser.IpAddr.ParseV6.{
  AreWords, bytes_of, rounds_for, length-rounds_for, length-bytes_of, loop-gapped, loop-whole,
}

-- Every number is one byte.
abbrev pub AreBytes : List ℕ → Type 0
AreBytes bytes = All (λ b. b < 2 ^ 8) bytes

-- The words of bytes, and the bytes of words again.
pub record IsSplit (bytes : List ℕ) (n : ℕ) : Type 0 where
  pub count : length (words_of bytes) ≡ n
  pub words : AreWords (words_of bytes)
  pub back : bytes_of (words_of bytes) ≡ bytes

pub words_of-IsSplit :
    (bytes : List ℕ) (n : ℕ) → AreBytes bytes → length bytes ≡ 2 * n → IsSplit bytes n
unfolding words_of
words_of-IsSplit [] n a e = record { count = omega arith; words = tt; back = refl }
words_of-IsSplit (x ∷ []) n a e = absurd (omega arith)
words_of-IsSplit (x ∷ y ∷ bytes) zero a e = absurd (omega arith)
words_of-IsSplit (x ∷ y ∷ bytes) (suc n) (bx, (by, a)) e =
    let rest = words_of-IsSplit bytes n a (omega arith) in
    let hi : (x * 2 ^ 8 + y) / 2 ^ 8 ≡ x = omega arith in
    let lo : (x * 2 ^ 8 + y) % 2 ^ 8 ≡ y = omega arith in
    record {
      count = ap suc rest.count;
      words = (omega arith, rest.words);
      back = cc (hi, lo, rest.back);
    }

bytes_of-append : (xs ys : List ℕ) → bytes_of (xs ++ ys) ≡ bytes_of xs ++ bytes_of ys
bytes_of-append [] ys = refl
bytes_of-append (x ∷ xs) ys = ap (λ t. x / 2 ^ 8 ∷ x % 2 ^ 8 ∷ t) (bytes_of-append xs ys)

bytes_of-zeros : (n : ℕ) → bytes_of (replicate n 0) ≡ replicate (2 * n) 0
bytes_of-zeros zero = refl
bytes_of-zeros (suc n) =
    let e : 2 * suc n ≡ suc (suc (2 * n)) = omega arith in
    ap (λ t. 0 ∷ 0 ∷ t) (bytes_of-zeros n) ∙ ap (λ k. replicate k 0) (sym e)

replicate-plus : (m n : ℕ) → replicate {A = ℕ} (m + n) 0 ≡ replicate m 0 ++ replicate n 0
replicate-plus zero n = let e : 0 + n ≡ n = omega arith in ap (λ k. replicate k 0) e
replicate-plus (suc m) n =
    let e : suc m + n ≡ suc (m + n) = omega arith in
    ap (λ k. replicate k 0) e ∙ ap (λ t. 0 ∷ t) (replicate-plus m n)

write_at-end :
    (xs ys vs : List ℕ) → length vs ≡ length ys → write_at (xs ++ ys) (length xs) vs ≡ xs ++ vs
write_at-end [] ys vs e = write_at_all vs ys e
write_at-end (x ∷ xs) ys vs e =
    write_at-cons vs (xs ++ ys) x (length xs) ∙ ap (λ t. x ∷ t) (write_at-end xs ys vs e)

pub All-take : (P : ℕ → Type 0) (n : ℕ) (xs : List ℕ) → All P xs → All P (take n xs)
All-take P zero xs a = tt
All-take P (suc n) [] a = tt
All-take P (suc n) (x ∷ xs) (p, a) = (p, All-take P n xs a)

pub All-drop : (P : ℕ → Type 0) (n : ℕ) (xs : List ℕ) → All P xs → All P (drop n xs)
All-drop P zero xs a = a
All-drop P (suc n) [] a = tt
All-drop P (suc n) (x ∷ xs) (p, a) = All-drop P n xs a

numeral-pos : (w : ℕ) → 0 < length (numeral 16 w)
numeral-pos w =
    let n = numeral-Written (inr refl) w in
    let e : length (numeral 16 w) ≡ suc (length n.tail) = ap length n.parts in omega (arith, e)

pub more-length : (ws : List ℕ) → length ws ≤ length (more ws)
more-length [] = omega arith
more-length (w ∷ ws) = omega (arith, more-length ws, length-append (numeral 16 w) (more ws))

pub lead-length : (ws : List ℕ) → length ws ≤ length (lead ws)
lead-length [] = omega arith
lead-length (w ∷ ws) =
    omega (arith, more-length ws, length-append (numeral 16 w) (more ws), numeral-pos w)

-- With a gap, the words before it and behind it are stored at the two ends.
v6_bytes-gapped :
    (pre suf : List ℕ) (gaplen : ℕ)
    → length pre + (gaplen + length suf) ≡ 8
    → v6_bytes (record { front = bytes_of pre; tail = some (bytes_of suf) })
      ≡ bytes_of pre ++ (replicate (2 * gaplen) 0 ++ bytes_of suf)
v6_bytes-gapped pre suf gaplen whole =
    let lp = length-bytes_of pre in
    let ls = length-bytes_of suf in
    let front : List ℕ = bytes_of pre ++ replicate (2 * gaplen) 0 in
    let free : 16 - length (bytes_of pre) ≡ 2 * gaplen + 2 * length suf = omega (arith, lp) in
    let place : 16 - length (bytes_of suf) ≡ length front = omega (
      arith,
      lp,
      ls,
      length-append (bytes_of pre) (replicate (2 * gaplen) 0),
      length-replicate {A = ℕ} (2 * gaplen) 0,
    ) in
    let cells : bytes_of pre ++ replicate (16 - length (bytes_of pre)) 0
        ≡ front ++ replicate (2 * length suf) 0 =
      ap (λ k. bytes_of pre ++ replicate k 0) free
      ∙ ap (λ t. bytes_of pre ++ t) (replicate-plus (2 * gaplen) (2 * length suf))
      ∙ sym
          (append_assoc (bytes_of pre) (replicate (2 * gaplen) 0) (replicate (2 * length suf) 0)) in
    ap (λ xs. write_at xs (16 - length (bytes_of suf)) (bytes_of suf)) cells
    ∙ ap (λ i. write_at (front ++ replicate (2 * length suf) 0) i (bytes_of suf)) place
    ∙ write_at-end front (replicate (2 * length suf) 0) (bytes_of suf)
        (ls ∙ sym (length-replicate (2 * length suf) 0))
    ∙ append_assoc (bytes_of pre) (replicate (2 * gaplen) 0) (bytes_of suf)

-- With as many rounds as characters the loop is done.
read-gapped :
    (pre suf : List ℕ)
    → AreWords pre
    → AreWords suf
    → length pre + length suf ≤ 8
    → let text = lead pre ++ b':' ∷ b':' ∷ lead suf in
      parsev6_loop (length text) (record { front = []; tail = none }) text
      ≡ some (record { front = bytes_of pre; tail = some (bytes_of suf) })
read-gapped pre suf a b room =
    let text : List ℕ = lead pre ++ b':' ∷ b':' ∷ lead suf in
    let k : ℕ = length text - (length pre + suc (length suf)) in
    let enough : length text ≡ rounds_for pre (suc (rounds_for suf k)) = omega (
      arith,
      length-append (lead pre) (b':' ∷ b':' ∷ lead suf),
      lead-length pre,
      lead-length suf,
      length-rounds_for pre (suc (rounds_for suf k)),
      length-rounds_for suf k,
    ) in
    ap (λ r. parsev6_loop r (record { front = []; tail = none }) text) enough
    ∙ loop-gapped pre suf k a b room

read-whole :
    (ws : List ℕ)
    → AreWords ws
    → length ws ≤ 8
    → let text = lead ws ++ [] in
      parsev6_loop (length text) (record { front = []; tail = none }) text
      ≡ some (record { front = bytes_of ws; tail = none })
read-whole ws a room =
    let text : List ℕ = lead ws ++ [] in
    let k : ℕ = length text - length ws in
    let enough : length text ≡ rounds_for ws k =
      omega (arith, length-append (lead ws) [], lead-length ws, length-rounds_for ws k) in
    ap (λ r. parsev6_loop r (record { front = []; tail = none }) text) enough
    ∙ loop-whole ws k a room

parsev6-of :
    (text : List ℕ) (v : V6)
    → parsev6_loop (length text) (record { front = []; tail = none }) text ≡ some v
    → parsev6 text ≡ some (v6_bytes v)
unfolding parsev6
parsev6-of text v h = rw (h, parsev6) refl

read-text :
    (ws : List ℕ) (gap gaplen : ℕ)
    → length ws ≡ 8
    → AreWords ws
    → IsGap ws 8 (gap, gaplen)
    → parsev6 (lead (before_gap gap gaplen ws) ++ gap_text gap gaplen ws) ≡ some (bytes_of ws)
read-text ws gap gaplen eight a g = elim (Bool-cases (gaplen == 0)) [
  | inl none_there ↦ rw none_there (
      parsev6-of (lead ws ++ []) (record { front = bytes_of ws; tail = none })
        (read-whole ws a (omega arith))
      ∙ ap some (whole (bytes_of ws) (omega (arith, length-bytes_of ws))))
  | inr some_there ↦
      let pre : List ℕ = take gap ws in
      let suf : List ℕ = drop (gap + gaplen) ws in
      let parts = split-gap ws gap gaplen (omega (arith, g.within)) g.zeros in
      let lp : length pre ≡ gap = omega (arith, length-take gap ws, g.within) in
      let ls : length suf ≡ 8 - (gap + gaplen) = omega (arith, length-drop (gap + gaplen) ws) in
      rw some_there (
        parsev6-of (lead pre ++ b':' ∷ b':' ∷ lead suf)
          (record { front = bytes_of pre; tail = some (bytes_of suf) })
          (read-gapped pre suf (All-take (λ w. w < 2 ^ 16) gap ws a)
            (All-drop (λ w. w < 2 ^ 16) (gap + gaplen) ws a) (omega (arith, g.within)))
        ∙ ap some (
            v6_bytes-gapped pre suf gaplen (omega (arith, g.within))
            ∙ ap (λ t. bytes_of pre ++ (t ++ bytes_of suf)) (sym (bytes_of-zeros gaplen))
            ∙ ap (λ t. bytes_of pre ++ t) (sym (bytes_of-append (replicate gaplen 0) suf))
            ∙ sym (bytes_of-append pre (replicate gaplen 0 ++ suf))
            ∙ ap bytes_of (sym parts)))
]
  where
    whole :
        (bytes : List ℕ)
        → length bytes ≡ 16
        → write_at (bytes ++ replicate (16 - length bytes) 0) (16 - 0) [] ≡ bytes
    whole bytes e =
        let none_free : 16 - length bytes ≡ 0 = omega arith in
        ap (λ k. bytes ++ replicate k 0) none_free ∙ append-nil bytes

-- For 16 bytes, `parsev6` reads the string of an IPv6 address as those bytes.
pub parsev6-print_v6 :
    (bytes : List ℕ) → AreBytes bytes → length bytes ≡ 16 → parsev6 (print_v6 bytes) ≡ some bytes
unfolding print_v6
parsev6-print_v6 bytes a e =
    let s = words_of-IsSplit bytes 8 a e in
    let words : List ℕ = words_of bytes in
    let gap : ℕ = (find_gap 0 0 0 words).0 in
    let gaplen : ℕ = (find_gap 0 0 0 words).1 in
    let g : IsGap words 8 (gap, gaplen) =
      subst (λ n. IsGap words n (find_gap 0 0 0 words)) s.count (gap-IsGap words) in
    ap parsev6 (print_words-text words gap gaplen s.count g.within)
    ∙ read-text words gap gaplen s.count s.words g
    ∙ ap some s.back
