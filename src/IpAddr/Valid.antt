-- ===== src/IpAddr/Valid.antt =====
-- What `PSC_IpAddr_create` of ipaddr.c takes is an address, and its string is read as the same one.
use poser.Prelude.{
  ℕ, ◌≤◌, ◌≡◌, refl, sym, ap, subst, ◌∙◌, inl, inr, List, [], ◌∷◌, Option, none, some, ◌||◌, ltb,
  length, Bool-cases, Option-cases, ltb→le,
}
use poser.Prelude.Int.{negsuc}
use poser.Prelude.Numerals.{strtol}
use poser.IpAddr.{
  Proto, ipv4, ipv6, IpAddr, parsev4, parsev6, new, split_slash, parse_prefix, parse_address,
  create,
}
use poser.IpAddr.RoundTrip.{IsAddress, create-to_string}
use poser.IpAddr.Read.{none-some, some-some, in_range-le, parsev4-IsAddress, parsev6-IsAddress}

-- The address is one of its protocol, with a prefix length that fits, and is as a new one: it has no
-- port, one reference, and its string.
abbrev pub IsValid : IpAddr → Type 0
IsValid a =
    IsAddress a.proto a.prefixlen a.bytes × (a ≡ new a.proto a.prefixlen (some (negsuc 0)) a.bytes)

new-IsValid :
    (proto : Proto) (n : ℕ) (bytes : List ℕ)
    → IsAddress proto n bytes
    → IsValid (new proto n (some (negsuc 0)) bytes)
unfolding new
new-IsValid proto n bytes h = (h, refl)

some-new-IsValid :
    (proto : Proto) (n : ℕ) (bytes : List ℕ) (a : IpAddr)
    → IsAddress proto n bytes
    → some (new proto n (some (negsuc 0)) bytes) ≡ some a
    → IsValid a
some-new-IsValid proto n bytes a h e = subst IsValid (some-some e) (new-IsValid proto n bytes h)

AtMost : ℕ → Option ℕ → Type 0
AtMost most none = Unit
AtMost most (some n) = n ≤ most

v4-IsValid :
    (buf bytes : List ℕ) (prefixlen : Option ℕ) (a : IpAddr)
    → parsev4 buf ≡ some bytes
    → parse_address buf prefixlen ≡ some a
    → IsValid a
unfolding parse_address
v4-IsValid buf bytes none a read h =
    some-new-IsValid ipv4 32 bytes a (parsev4-IsAddress buf bytes read)
      (rw (parse_address, read) at h)
v4-IsValid buf bytes (some n) a read h = elim (Bool-cases (ltb 32 n)) [
  | inl over ↦ absurd (none-some (rw (parse_address, read, over) at h))
  | inr fits ↦
      let (_, bytes_fit) = parsev4-IsAddress buf bytes read in
      some-new-IsValid ipv4 n bytes a (ltb→le 32 n fits, bytes_fit)
        (rw (parse_address, read, fits) at h)
]

v6-IsValid :
    (buf bytes : List ℕ) (prefixlen : Option ℕ) (a : IpAddr)
    → AtMost 128 prefixlen
    → parsev4 buf ≡ none
    → parsev6 buf ≡ some bytes
    → parse_address buf prefixlen ≡ some a
    → IsValid a
unfolding parse_address AtMost
v6-IsValid buf bytes none a fits odd read h =
    some-new-IsValid ipv6 128 bytes a (parsev6-IsAddress buf bytes read)
      (rw (parse_address, odd, read) at h)
v6-IsValid buf bytes (some n) a fits odd read h =
    let (_, bytes_fit) = parsev6-IsAddress buf bytes read in
    some-new-IsValid ipv6 n bytes a (fits, bytes_fit) (rw (parse_address, odd, read) at h)

parse_address-IsValid :
    (buf : List ℕ) (prefixlen : Option ℕ) (a : IpAddr)
    → AtMost 128 prefixlen
    → parse_address buf prefixlen ≡ some a
    → IsValid a
unfolding parse_address
parse_address-IsValid buf prefixlen a fits h = elim (Option-cases (parsev4 buf)) [
  | inr (bytes, read) ↦ v4-IsValid buf bytes prefixlen a read h
  | inl odd ↦ elim (Option-cases (parsev6 buf)) [
    | inr (bytes, read) ↦ v6-IsValid buf bytes prefixlen a fits odd read h
    | inl no_v6 ↦ absurd (none-some (rw (parse_address, odd, no_v6) at h))
  ]
]

parse_prefix-le : (s : List ℕ) (n : ℕ) → parse_prefix s ≡ some n → n ≤ 128
unfolding parse_prefix
parse_prefix-le s n h = elim (Option-cases (strtol 10 s)) [
  | inl no_number ↦ absurd (none-some (rw (parse_prefix, no_number) at h))
  | inr ((value, []), number) ↦ in_range-le 128 n value (rw (parse_prefix, number) at h)
  | inr ((value, c ∷ rest), number) ↦ absurd (none-some (rw (parse_prefix, number) at h))
]

-- What `PSC_IpAddr_create` makes of any string is a valid address: 16 bytes and a prefix length up to
-- 32 behind twelve bytes 0 for IPv4, or up to 128 for IPv6, with its string, one reference and no port.
pub create-IsValid : (s : List ℕ) (a : IpAddr) → create s ≡ some a → IsValid a
unfolding create AtMost
create-IsValid s a h = elim (Bool-cases (ltb (length s) 2 || ltb 43 (length s))) [
  | inl odd ↦ absurd (none-some (rw (create, odd) at h))
  | inr size ↦ elim (Option-cases ((split_slash s).1)) [
    | inl no_slash ↦
        parse_address-IsValid ((split_slash s).0) none a tt (rw (create, size, no_slash) at h)
    | inr (digits, slash) ↦ elim (Option-cases (parse_prefix digits)) [
      | inl no_prefix ↦ absurd (none-some (rw (create, size, slash, no_prefix) at h))
      | inr (n, prefix) ↦
          parse_address-IsValid ((split_slash s).0) (some n) a (parse_prefix-le digits n prefix)
            (rw (create, size, slash, prefix) at h)
    ]
  ]
]

-- The string that `create` gives an address is one that it reads as the same address.
pub create-str : (s : List ℕ) (a : IpAddr) → create s ≡ some a → create a.str ≡ some a
unfolding new
create-str s a h =
    let v = create-IsValid s a h in
    ap (λ b. create b.str) v.1
    ∙ create-to_string a.proto a.prefixlen a.bytes v.0
    ∙ ap some (sym v.1)
