-- ===== src/IpAddr/Mapping.antt =====
-- `PSC_IpAddr_tov6` and `PSC_IpAddr_tov4` of ipaddr.c: an IPv4 address behind a prefix of 96 bits.
use poser.Prelude.{
  ℕ, zero, suc, ◌+◌, ◌-◌, ◌^◌, ◌≤◌, ◌<◌, ◌≡◌, refl, sym, ap, ap₂, ◌∙◌, List, [], ◌∷◌, ◌++◌, none,
  some, true, false, ltb, leb, length, take, drop, replicate, take-append-drop, drop-append,
  length-take, length-drop, length-append, arith,
}
use poser.Prelude.Int.{negsuc}
use poser.Prelude.Chars.{str_eq_refl}
use poser.IpAddr.{ipv4, ipv6, IpAddr, same_prefix, matches, new, some_matches, tov4, tov6}
use poser.IpAddr.RoundTripV6.{All-take, All-drop}
use poser.IpAddr.RoundTrip.{IsAddress}
use poser.IpAddr.FirstBits.{take-within}
use poser.IpAddr.Read.{All-append}

-- The bytes of an IPv4 address behind the first 96 bits of a prefix.
mapped : IpAddr → IpAddr → List ℕ
mapped a p = take 12 p.bytes ++ take 4 (drop 12 a.bytes)

take-mapped : (p v4 : List ℕ) → 12 ≤ length p → take 12 (take 12 p ++ v4) ≡ take 12 p
take-mapped p v4 h =
    let l = length-take 12 p in
    take-within (take 12 p) v4 12 (omega arith)
    ∙ sym (take-within (take 12 p) (drop 12 p) 12 (omega arith))
    ∙ ap (take 12) (take-append-drop 12 p)

drop-mapped : (p v4 : List ℕ) → 12 ≤ length p → drop 12 (take 12 p ++ v4) ≡ v4
drop-mapped p v4 h =
    let e : length (take 12 p) ≡ 12 = omega (arith, length-take 12 p) in
    ap (λ n. drop n (take 12 p ++ v4)) (sym e) ∙ drop-append (take 12 p) v4

take-all : (xs : List ℕ) (n : ℕ) → length xs ≤ n → take n xs ≡ xs
take-all [] zero h = refl
take-all [] (suc n) h = refl
take-all (x ∷ xs) zero h = absurd (omega arith)
take-all (x ∷ xs) (suc n) h = ap (◌∷◌ x) (take-all xs n (omega arith))

same_prefix-mapped : (p v4 : List ℕ) → 12 ≤ length p → same_prefix 96 (take 12 p ++ v4) p ≡ true
unfolding same_prefix
same_prefix-mapped p v4 h = rw (take-mapped p v4 h, str_eq_refl (take 12 p)) refl

module _ (a p : IpAddr) (v4 : a.proto ≡ ipv4) (v6 : p.proto ≡ ipv6) (ninety_six : p.prefixlen ≡ 96)
    (valid : IsAddress ipv4 a.prefixlen a.bytes) (valid' : IsAddress ipv6 p.prefixlen p.bytes) where
  to_v6 : tov6 a p ≡ some (new ipv6 (a.prefixlen + 96) none (mapped a p))
  unfolding tov6 mapped
  to_v6 = rw (v4, ninety_six) refl

  finds :
      (ps : List IpAddr)
      → some_matches (new ipv6 (a.prefixlen + 96) none (mapped a p)) (p ∷ ps) ≡ true
  unfolding some_matches matches new mapped
  finds ps =
      let (_, (_, l)) = valid' in
      let le : leb 96 (a.prefixlen + 96) ≡ true = ground arith in
      rw (v6, ninety_six, le, same_prefix-mapped p.bytes (take 4 (drop 12 a.bytes)) (omega arith))
        refl

  back_bytes : replicate 12 0 ++ take 4 (drop 12 (mapped a p)) ≡ a.bytes
  unfolding mapped
  back_bytes =
      let (_, (_, l)) = valid' in
      let (_, (_, (l', low))) = valid in
      let e = drop-mapped p.bytes (take 4 (drop 12 a.bytes)) (omega arith) in
      let short = take-all (drop 12 a.bytes) 4 (omega (arith, length-drop 12 a.bytes)) in
      ap₂ (λ xs ys. xs ++ ys) (sym low) (ap (take 4) (e ∙ short) ∙ short)
      ∙ take-append-drop 12 a.bytes

  to_v4 :
      (ps : List IpAddr)
      → tov4 (new ipv6 (a.prefixlen + 96) none (mapped a p)) (p ∷ ps)
        ≡ some (new ipv4 a.prefixlen (some (negsuc 0)) a.bytes)
  unfolding tov4 new
  to_v4 ps =
      let room : ltb (a.prefixlen + 96) 96 ≡ false = ground arith in
      let back : a.prefixlen + 96 - 96 ≡ a.prefixlen = omega arith in
      rw (room, finds ps, back, back_bytes) refl

  mapped-IsAddress : IsAddress ipv6 (a.prefixlen + 96) (mapped a p)
  unfolding mapped
  mapped-IsAddress =
      let (h, (b, (l, _))) = valid in
      let (_, (b', l')) = valid' in
      let e = length-append (take 12 p.bytes) (take 4 (drop 12 a.bytes)) in
      let e1 = length-take 12 p.bytes in
      let e2 = length-take 4 (drop 12 a.bytes) in
      let e3 = length-drop 12 a.bytes in
      (
        omega arith,
        (
          All-append (λ n. n < 2 ^ 8) (take 12 p.bytes) (take 4 (drop 12 a.bytes))
              (All-take (λ n. n < 2 ^ 8) 12 p.bytes b')
              (All-take (λ n. n < 2 ^ 8) 4 (drop 12 a.bytes)
                (All-drop (λ n. n < 2 ^ 8) 12 a.bytes b)),
          omega arith,
        ),
      )

  -- `PSC_IpAddr_tov6` maps a valid IPv4 address behind a valid IPv6 prefix of 96 bits to a valid IPv6
  -- address, from which `PSC_IpAddr_tov4` makes an address with the protocol, the prefix length and
  -- the bytes of the first one, for any list of prefixes that starts with this one.
  pub tov4-tov6 :
      (ps : List IpAddr)
      → (m : IpAddr) × (tov6 a p ≡ some m)
        × IsAddress m.proto m.prefixlen m.bytes
        × (tov4 m (p ∷ ps) ≡ some (new ipv4 a.prefixlen (some (negsuc 0)) a.bytes))
  unfolding new
  tov4-tov6 ps = (new ipv6 (a.prefixlen + 96) none (mapped a p), to_v6, mapped-IsAddress, to_v4 ps)
