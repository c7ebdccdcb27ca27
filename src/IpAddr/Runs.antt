-- ===== src/IpAddr/Runs.antt =====
-- Runs of the functions of ipaddr.c on concrete addresses.
use poser.Prelude.{
  ℕ, ◌≡◌, refl, List, [], ◌∷◌, ◌++◌, some, Bool, true, false, ltb, if◌then◌else◌, ◌&&◌, leb,
  replicate, take, arith,
}
use poser.Prelude.Chars.{codes, str_eq}
use poser.Prelude.Int.{negsuc}
use poser.Prelude.Numerals.{
  digit, scan, skip_space, sign, skip_0x, in_long, strtol, digit_char, numeral_of,
}
use poser.IpAddr.{
  ipv4, ipv6, IpAddr, same_proto, parsev4_loop, parsev4, parsev6_loop, parsev6, words_of, find_gap,
  print_words, print_v6, to_string, new, split_slash, parse_prefix, parse_address, create, matches,
  tov4, tov6,
}
use poser.IpAddr.RoundTripV6.{AreBytes}
use poser.IpAddr.RoundTrip.{IsAddress, create-to_string}
use poser.IpAddr.Valid.{IsValid, create-IsValid}
use poser.IpAddr.FirstBits.{bits_of}
use poser.IpAddr.Match.{matches-bits_of, matches-ipv4}
use poser.IpAddr.Mapping.{tov4-tov6}

-- 192.0.2.33 and 203.0.113.0, behind twelve bytes that are 0, and 2001:db8::42:0:0:7
abbrev host : List ℕ
host = replicate 12 0 ++ 192 ∷ 0 ∷ 2 ∷ 33 ∷ []

abbrev net : List ℕ
net = replicate 12 0 ++ 203 ∷ 0 ∷ 113 ∷ 0 ∷ []

abbrev six : List ℕ
six = 32 ∷ 1 ∷ 13 ∷ 184 ∷ 0 ∷ 0 ∷ 0 ∷ 0 ∷ 0 ∷ 66 ∷ 0 ∷ 0 ∷ 0 ∷ 0 ∷ 0 ∷ 7 ∷ []

fits : List ℕ → Bool
fits [] = true
fits (b ∷ bytes) = let rest = fits bytes in if ltb b 256 then rest else false

fits-AreBytes : (bytes : List ℕ) → fits bytes ≡ true → AreBytes bytes
unfolding fits
fits-AreBytes [] h = tt
fits-AreBytes (b ∷ bytes) h = ground (arith, fits-AreBytes bytes)

host-IsAddress : IsAddress ipv4 32 host
unfolding fits
host-IsAddress = (omega arith, (fits-AreBytes host refl, (refl, refl)))

net-IsAddress : IsAddress ipv4 24 net
unfolding fits
net-IsAddress = (omega arith, (fits-AreBytes net refl, (refl, refl)))

six-IsAddress : IsAddress ipv6 96 six
unfolding fits
six-IsAddress = (omega arith, (fits-AreBytes six refl, refl))

abbrev host_text : List ℕ
host_text = codes "192.0.2.33"

abbrev net_text : List ℕ
net_text = codes "203.0.113.0/24"

abbrev six_text : List ℕ
six_text = codes "2001:db8::42:0:0:7/96"

to_string-host : to_string ipv4 32 host ≡ host_text
unfolding to_string numeral_of digit_char
to_string-host = refl

to_string-six : to_string ipv6 96 six ≡ codes "2001:db8:0:0:42::7/96"
unfolding to_string print_v6 words_of find_gap print_words numeral_of digit_char
to_string-six = refl

abbrev host_address : IpAddr
host_address = new ipv4 32 (some (negsuc 0)) host

abbrev net_address : IpAddr
net_address = new ipv4 24 (some (negsuc 0)) net

abbrev six_address : IpAddr
six_address = new ipv6 96 (some (negsuc 0)) six

create_six : create six_text ≡ some six_address
unfolding create split_slash parse_prefix parse_address parsev4 parsev4_loop parsev6 parsev6_loop
    strtol skip_space sign skip_0x scan digit in_long
create_six = refl

-- A word alone is taken for an address too, and so is a colon at the end.
create_odd : create (codes "12") ≡ some (new ipv6 128 (some (negsuc 0)) (0 ∷ 18 ∷ replicate 14 0))
unfolding create split_slash parse_prefix parse_address parsev4 parsev4_loop parsev6 parsev6_loop
    strtol skip_space sign skip_0x scan digit in_long
create_odd = refl

create-to_string_example : create (to_string ipv4 24 net) ≡ some net_address
create-to_string_example = create-to_string ipv4 24 net net-IsAddress

create-IsValid_example : IsValid six_address
create-IsValid_example = create-IsValid six_text six_address create_six

matches-bits_of_example :
    matches host_address net_address
    ≡ (same_proto ipv4 ipv4 && leb 24 32 && str_eq (take 24 (bits_of host)) (take 24 (bits_of net)))
unfolding new fits
matches-bits_of_example =
    matches-bits_of host_address net_address (fits-AreBytes host refl) (fits-AreBytes net refl) refl
      refl (omega arith)

-- 192.0.2.33 matches 203.0.113.0/24.
matches-ipv4_example : matches host_address net_address ≡ true
unfolding new
matches-ipv4_example = matches-ipv4 host_address net_address refl refl host-IsAddress net-IsAddress

tov4-tov6_example :
    (m : IpAddr) × (tov6 host_address six_address ≡ some m)
    × IsAddress m.proto m.prefixlen m.bytes
    × (tov4 m (six_address ∷ []) ≡ some host_address)
unfolding new
tov4-tov6_example =
    tov4-tov6 host_address six_address refl refl refl host-IsAddress six-IsAddress []
