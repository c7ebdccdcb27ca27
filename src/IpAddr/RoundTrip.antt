-- ===== src/IpAddr/RoundTrip.antt =====
-- `PSC_IpAddr_create` of ipaddr.c reads the string that `toString` writes of an address.
use poser.Prelude.{
  ℕ, suc, ◌+◌, ◌≤◌, ◌≡◌, refl, sym, ap, ap₂, ◌∙◌, inl, inr, List, [], ◌∷◌, ◌++◌, Option, none, some,
  false, ◌||◌, ltb, length, get_or, take, replicate, append-nil, length-append, take-append-drop,
  Bool-cases, arith,
}
use poser.Prelude.Int.{pos, negsuc}
use poser.Prelude.Numerals.{strtol, numeral}
use poser.Prelude.ReadBack.{strtol-numeral}
use poser.IpAddr.{
  Proto, any, ipv4, ipv6, IpAddr, parsev4, parsev6, print_v4, print_v6, print_prefix, to_string,
  new, split_slash, parse_prefix, parse_address, create,
}
use poser.IpAddr.PrintV6.{drop-step, drop-beyond}
use poser.IpAddr.ParseV4.{parsev4-print_v4, parsev4-HasNoDot}
use poser.IpAddr.RoundTripV6.{AreBytes, parsev6-print_v6}
use poser.IpAddr.Text.{
  get_or-byte, IsFree, IsWithin, numeral10-IsWithin, print_v6-IsText, print_v4-IsFree,
  print_v4-IsWithin,
}

-- A protocol, a prefix length and bytes that an address can have.
abbrev pub IsAddress : Proto → ℕ → List ℕ → Type 0
IsAddress any prefixlen bytes = ⊥
IsAddress ipv4 prefixlen bytes =
    (prefixlen ≤ 32) × (AreBytes bytes × ((length bytes ≡ 16) × (take 12 bytes ≡ replicate 12 0)))
IsAddress ipv6 prefixlen bytes = (prefixlen ≤ 128) × (AreBytes bytes × (length bytes ≡ 16))

split_slash-IsFree : (s : List ℕ) → IsFree b'/' s → split_slash s ≡ (s, none)
unfolding split_slash
split_slash-IsFree [] a = refl
split_slash-IsFree (c ∷ s) (h, a) = rw (split_slash-IsFree s a, h) refl

split_slash-append : (s t : List ℕ) → IsFree b'/' s → split_slash (s ++ b'/' ∷ t) ≡ (s, some t)
unfolding split_slash
split_slash-append [] t a = refl
split_slash-append (c ∷ s) t (h, a) = rw (split_slash-append s t a, h) refl

parse_prefix-numeral : (n : ℕ) → n ≤ 128 → parse_prefix (numeral 10 n) ≡ some n
unfolding parse_prefix
parse_prefix-numeral n h =
    let e : strtol 10 (numeral 10 n) ≡ some (some (pos n), []) =
      ap (strtol 10) (sym (append-nil (numeral 10 n)))
      ∙ strtol-numeral (inl refl) n [] (omega arith) refl in
    let fits : ltb 128 n ≡ false = ground arith in rw (parse_prefix, e, fits) refl

-- The string without a prefix length, and with one.
create-whole : (s : List ℕ) → IsFree b'/' s → IsWithin 2 39 s → create s ≡ parse_address s none
unfolding create
create-whole s free (lo, hi) =
    let size : (ltb (length s) 2 || ltb 43 (length s)) ≡ false = ground arith in
    let parts = split_slash-IsFree s free in
    rw (create, size, parts) (ap (λ p. parse_address p.0 none) parts)

create-prefix :
    (s : List ℕ) (n : ℕ)
    → IsFree b'/' s
    → IsWithin 2 39 s
    → n ≤ 128
    → create (s ++ b'/' ∷ numeral 10 n) ≡ parse_address s (some n)
unfolding create
create-prefix s n free (lo, hi) h =
    let t : List ℕ = s ++ b'/' ∷ numeral 10 n in
    let e : length t ≡ length s + suc (length (numeral 10 n)) =
      length-append s (b'/' ∷ numeral 10 n) in
    let (_, digits) = numeral10-IsWithin n (omega arith) in
    let size : (ltb (length t) 2 || ltb 43 (length t)) ≡ false = ground arith in
    let parts = split_slash-append s (numeral 10 n) free in
    rw (create, size, parts, parse_prefix-numeral n h) (ap (λ p. parse_address p.0 (some n)) parts)

-- The two forms of `to_string`, for a protocol of `most` bits.
create-print_prefix :
    (s : List ℕ) (n most : ℕ) (a : Option IpAddr)
    → IsFree b'/' s
    → IsWithin 2 39 s
    → n ≤ most
    → most ≤ 128
    → parse_address s (some n) ≡ a
    → (n ≡ most → parse_address s none ≡ a)
    → create (s ++ print_prefix n most) ≡ a
create-print_prefix s n most a free within h k given whole = elim (Bool-cases (ltb n most)) [
  | inl less ↦ rw less (create-prefix s n free within (omega arith) ∙ given)
  | inr full ↦ rw (full, append-nil) (create-whole s free within ∙ whole (ground arith))
]

module _ (s bytes : List ℕ) where
  parse_address-v4 :
      (n : ℕ)
      → parsev4 s ≡ some bytes
      → n ≤ 32
      → parse_address s (some n) ≡ some (new ipv4 n (some (negsuc 0)) bytes)
  unfolding parse_address
  parse_address-v4 n h k =
      let fits : ltb 32 n ≡ false = ground arith in rw (parse_address, h, fits) refl

  whole-v4 :
      parsev4 s ≡ some bytes → parse_address s none ≡ some (new ipv4 32 (some (negsuc 0)) bytes)
  unfolding parse_address
  whole-v4 h = rw (parse_address, h) refl

  parse_address-v6 :
      (n : ℕ)
      → parsev4 s ≡ none
      → parsev6 s ≡ some bytes
      → parse_address s (some n) ≡ some (new ipv6 n (some (negsuc 0)) bytes)
  unfolding parse_address
  parse_address-v6 n h k = rw (parse_address, h, k) refl

  whole-v6 :
      parsev4 s ≡ none
      → parsev6 s ≡ some bytes
      → parse_address s none ≡ some (new ipv6 128 (some (negsuc 0)) bytes)
  unfolding parse_address
  whole-v6 h k = rw (parse_address, h, k) refl

-- Four bytes behind twelve that are 0.
parsev4-text :
    (bytes : List ℕ)
    → AreBytes bytes
    → length bytes ≡ 16
    → take 12 bytes ≡ replicate 12 0
    → parsev4 (print_v4 bytes) ≡ some bytes
parsev4-text bytes a e low =
    let b : ℕ → ℕ = λ i. get_or bytes i 0 in
    let parts : bytes ≡ replicate 12 0 ++ b 12 ∷ b 13 ∷ b 14 ∷ b 15 ∷ [] =
      sym (take-append-drop 12 bytes)
      ∙ ap₂ (λ xs ys. xs ++ ys) low
          (drop-step bytes 12 (omega arith)
            ∙ ap (◌∷◌ (b 12)) (
                drop-step bytes 13 (omega arith)
                ∙ ap (◌∷◌ (b 13)) (
                    drop-step bytes 14 (omega arith)
                    ∙ ap (◌∷◌ (b 14)) (
                        drop-step bytes 15 (omega arith)
                        ∙ ap (◌∷◌ (b 15)) (drop-beyond bytes 16 (omega arith)))))) in
    ap (λ bs. parsev4 (print_v4 bs)) parts
    ∙ parsev4-print_v4 (b 12) (b 13) (b 14) (b 15) (get_or-byte bytes 12 a) (get_or-byte bytes 13 a)
        (get_or-byte bytes 14 a) (get_or-byte bytes 15 a)
    ∙ ap some (sym parts)

-- For the prefix length and the bytes of an IPv4 address, at most 32 and the first twelve bytes 0, or
-- of an IPv6 address, at most 128, `PSC_IpAddr_create` reads the string that `toString` writes as a new
-- address of that protocol with the same prefix length and bytes.
pub create-to_string :
    (proto : Proto) (prefixlen : ℕ) (bytes : List ℕ)
    → IsAddress proto prefixlen bytes
    → create (to_string proto prefixlen bytes) ≡ some (new proto prefixlen (some (negsuc 0)) bytes)
unfolding to_string
create-to_string any prefixlen bytes h = absurd h
create-to_string ipv4 prefixlen bytes (h, (a, (e, low))) =
    let read = parsev4-text bytes a e low in
    let (lo, hi) = print_v4-IsWithin bytes a in
    create-print_prefix (print_v4 bytes) prefixlen 32
      (some (new ipv4 prefixlen (some (negsuc 0)) bytes)) (print_v4-IsFree bytes)
      (omega arith, omega arith) h (omega arith)
      (parse_address-v4 (print_v4 bytes) bytes prefixlen read h)
      (λ full.
        whole-v4 (print_v4 bytes) bytes read
        ∙ ap (λ n. some (new ipv4 n (some (negsuc 0)) bytes)) (sym full))
create-to_string ipv6 prefixlen bytes (h, (a, e)) =
    let read = parsev6-print_v6 bytes a e in
    let text = print_v6-IsText bytes a e in
    let odd = parsev4-HasNoDot (print_v6 bytes) text.no_dot in
    create-print_prefix (print_v6 bytes) prefixlen 128
      (some (new ipv6 prefixlen (some (negsuc 0)) bytes)) text.no_slash text.within h (omega arith)
      (parse_address-v6 (print_v6 bytes) bytes prefixlen odd read)
      (λ full.
        whole-v6 (print_v6 bytes) bytes odd read
        ∙ ap (λ n. some (new ipv6 n (some (negsuc 0)) bytes)) (sym full))
