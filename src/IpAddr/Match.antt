-- ===== src/IpAddr/Match.antt =====
-- `PSC_IpAddr_matches` of ipaddr.c against the bits of the addresses.
use native.Mathlib.Decide.{dec_lt}
use poser.Prelude.{
  ℕ, zero, suc, ◌+◌, ◌-◌, ◌*◌, ◌/◌, ◌%◌, ◌≤◌, ◌≡◌, refl, sym, ap, ap₂, ◌∙◌, List, [], ◌∷◌, Bool,
  true, false, ◌&&◌, ◌||◌, leb, ◌==◌, if◌then◌else◌, length, get_or, take, replicate,
  get_or-take_below, ==_refl, arith,
}
use poser.Prelude.Chars.{str_eq}
use poser.IpAddr.{ipv4, IpAddr, same_proto, same_prefix, matches}
use poser.IpAddr.RoundTripV6.{AreBytes}
use poser.IpAddr.RoundTrip.{IsAddress}
use poser.IpAddr.FirstBits.{
  eq→str_eq, length-bits, whole_byte, same_prefix-byte, take-eight, take-within, last_byte, bits_of,
  bits,
}

-- The bytes are compared as the first bits of the addresses.
pub same_prefix-bits_of :
    (n : ℕ) (a p : List ℕ)
    → AreBytes a
    → AreBytes p
    → length a ≡ length p
    → n ≤ 8 * length a
    → same_prefix n a p ≡ str_eq (take n (bits_of a)) (take n (bits_of p))
unfolding bits_of
same_prefix-bits_of n [] [] ha hp e h =
    let none_left : n ≡ 0 = omega arith in rw none_left (unfold same_prefix in refl)
same_prefix-bits_of n [] (y ∷ p) ha hp e h = absurd (omega arith)
same_prefix-bits_of n (x ∷ a) [] ha hp e h = absurd (omega arith)
same_prefix-bits_of n (x ∷ a) (y ∷ p) (hx, ha) (hy, hp) e h = elim (dec_lt n 8) [
  | yes few ↦
      let room = length-bits x in
      let room' = length-bits y in
      last_byte n x y a p few hx hy
      ∙ ap₂ str_eq (sym (take-within (bits 8 x) (bits_of a) n (omega arith)))
          (sym (take-within (bits 8 y) (bits_of p) n (omega arith)))
  | no many ↦
      let m : ℕ = n - 8 in
      let parts : n ≡ 8 + m = omega arith in
      ap (λ k. same_prefix k (x ∷ a) (y ∷ p)) parts
      ∙ same_prefix-byte m x y a p
      ∙ ap (λ b. if x == y then b else false)
          (same_prefix-bits_of m a p ha hp (omega arith) (omega arith))
      ∙ sym (whole_byte x y (take m (bits_of a)) (take m (bits_of p)) hx hy)
      ∙ ap₂ str_eq (sym (take-eight m x (bits_of a))) (sym (take-eight m y (bits_of p)))
      ∙ ap (λ k. str_eq (take k (bits_of (x ∷ a))) (take k (bits_of (y ∷ p)))) (sym parts)
]

-- For addresses of 16 bytes and a network's prefix length up to 128, `PSC_IpAddr_matches`
-- answers whether the protocol is the same, the network's prefix is no longer than the
-- address's, and the first bits of the bytes are the same, as many as the network's prefix
-- length.
pub matches-bits_of :
    (a p : IpAddr)
    → AreBytes a.bytes
    → AreBytes p.bytes
    → length a.bytes ≡ 16
    → length p.bytes ≡ 16
    → p.prefixlen ≤ 128
    → matches a p ≡ (
        same_proto a.proto p.proto
        && leb p.prefixlen a.prefixlen
        && str_eq (take p.prefixlen (bits_of a.bytes)) (take p.prefixlen (bits_of p.bytes)))
unfolding matches
matches-bits_of a p ha hp e e' h =
    ap (λ b. same_proto a.proto p.proto && leb p.prefixlen a.prefixlen && b)
      (same_prefix-bits_of p.prefixlen a.bytes p.bytes ha hp (omega arith) (omega arith))

-- A prefix of `take n` is one of the whole list.
same_start : (n m : ℕ) (xs ys : List ℕ) → n ≤ m → take m xs ≡ take m ys → take n xs ≡ take n ys
same_start zero m xs ys h e = refl
same_start (suc n) zero xs ys h e = absurd (omega arith)
same_start (suc n) (suc m) [] [] h e = refl
same_start (suc n) (suc m) [] (y ∷ ys) h e = absurd (let l = ap length e in omega arith)
same_start (suc n) (suc m) (x ∷ xs) [] h e = absurd (let l = ap length e in omega arith)
same_start (suc n) (suc m) (x ∷ xs) (y ∷ ys) h e =
    ap₂ ◌∷◌ (cc) (same_start n m xs ys (omega arith) (cc))

or_true : (b : Bool) → (b || true) ≡ true
or_true true = refl
or_true false = refl

and_true : (b : Bool) → (b && true) ≡ b
and_true true = refl
and_true false = refl

same_zeros :
    (n : ℕ) (a p : List ℕ)
    → n ≤ 32
    → take 12 a ≡ replicate 12 0
    → take 12 p ≡ replicate 12 0
    → same_prefix n a p ≡ true
unfolding same_prefix
same_zeros n a p h ha hp =
    let w : ℕ = n / 8 in
    let e : take 12 a ≡ take 12 p = ha ∙ sym hp in
    let starts : str_eq (take w a) (take w p) ≡ true =
      eq→str_eq (take w a) (take w p) (same_start w 12 a p (omega arith) e) in
    let at : get_or a w 0 ≡ get_or p w 0 =
      sym (get_or-take_below 12 a w 0 (omega arith))
      ∙ ap (λ xs. get_or xs w 0) e
      ∙ get_or-take_below 12 p w 0 (omega arith) in
    rw (starts, at, ==_refl) (or_true (n % 8 == 0))

-- A valid IPv4 address matches each valid IPv4 network whose prefix is no longer, whatever their
-- bytes: the bytes that are compared are the first ones of sixteen, and an IPv4 address has the
-- last four.
pub matches-ipv4 :
    (a p : IpAddr)
    → a.proto ≡ ipv4
    → p.proto ≡ ipv4
    → IsAddress ipv4 a.prefixlen a.bytes
    → IsAddress ipv4 p.prefixlen p.bytes
    → matches a p ≡ leb p.prefixlen a.prefixlen
unfolding matches
matches-ipv4 a p pa pp (_, (_, (_, za))) (h, (_, (_, zp))) =
    rw (pa, pp, same_zeros p.prefixlen a.bytes p.bytes h za zp)
      (and_true (leb p.prefixlen a.prefixlen))
