-- ===== src/IpAddr.antt =====
-- src/lib/core/ipaddr.c: IPv4 and IPv6 addresses and networks, their strings, and how they match.
-- Strings are lists of characters without their terminators. An address that `malloc` gives has a
-- port that is `none` until the code sets it.
pub mod Gap
pub mod PrintV6
pub mod ParseV6
pub mod RoundTripV6
pub mod ParseV4
pub mod Text
pub mod RoundTrip
pub mod Read
pub mod Valid
pub mod FirstBits
pub mod Match
pub mod Mapping
mod Runs
use poser.Prelude.{
  ℕ, zero, suc, ◌+◌, ◌-◌, ◌*◌, ◌/◌, ◌%◌, ◌^◌, bit_and, List, [], ◌∷◌, ◌++◌, Option, none, some,
  Bool, true, false, ◌&&◌, ◌||◌, ltb, leb, ◌==◌, if◌then◌else◌, length, get_or, take, drop,
  replicate,
}
use poser.Prelude.Chars.{str_eq}
use poser.Prelude.Int.{ℤ, pos, negsuc}
use poser.Prelude.Memory.{write_at}
use poser.Prelude.Numerals.{strtol, numeral}

-- PSC_Proto
pub data Proto : Type 0 where
  any : Proto
  ipv4 : Proto
  ipv6 : Proto

abbrev pub same_proto : Proto → Proto → Bool
same_proto any any = true
same_proto ipv4 ipv4 = true
same_proto ipv6 ipv6 = true
same_proto _ _ = false

-- PSC_IpAddr
pub record IpAddr : Type 0 where
  pub refcnt : ℕ
  pub proto : Proto
  pub prefixlen : ℕ
  pub port : Option ℤ
  pub bytes : List ℕ
  pub str : List ℕ

-- a number that `strtol` gave without ERANGE, from 0 to `most`
abbrev pub in_range : ℕ → Option ℤ → Option ℕ
in_range most none = none
in_range most (some (negsuc n)) = none
in_range most (some (pos n)) = if ltb most n then none else some n

-- the end of a round of the loop in `parsev4`: the character behind the number, with `left` rounds
-- to go
abbrev pub after_byte : ℕ → List ℕ → Option (List ℕ)
after_byte zero [] = some []
after_byte zero (c ∷ rest) = none
after_byte (suc left) [] = none
after_byte (suc left) (c ∷ rest) = if c == b'.' then some rest else none

-- the loop of `parsev4`, with the bytes read before
unfoldable pub parsev4_loop : ℕ → List ℕ → List ℕ → Option (List ℕ)
parsev4_loop zero v4dat buf = some v4dat
parsev4_loop (suc left) v4dat buf = elim (strtol 10 buf) [
  | none ↦ none
  | some (value, rest) ↦ elim (in_range 255 value) [
    | none ↦ none
    | some byte ↦ elim (after_byte left rest) [
      | none ↦ none
      | some buf' ↦ parsev4_loop left (v4dat ++ byte ∷ []) buf'
    ]
  ]
]

-- `parsev4`, on zeroed bytes
unfoldable pub parsev4 : List ℕ → Option (List ℕ)
parsev4 buf = elim (parsev4_loop 4 [] buf) [
  | none ↦ none
  | some v4dat ↦ some (write_at (replicate 16 0) 12 v4dat)
]

-- what `parsev6` has read: the bytes before the gap, and those behind it if there was one
pub record V6 : Type 0 where
  pub front : List ℕ
  pub tail : Option (List ℕ)

abbrev pub tail_of : V6 → List ℕ
tail_of v = elim v.tail [ none ↦ [] | some t ↦ t ]

-- the two bytes of a word stored
abbrev pub add_word : ℕ → V6 → V6
add_word word v = elim v.tail [
  | none ↦ record v { front = v.front ++ word / 2 ^ 8 ∷ word % 2 ^ 8 ∷ [] }
  | some t ↦ record v { tail = some (t ++ word / 2 ^ 8 ∷ word % 2 ^ 8 ∷ []) }
]

-- a gap starts here: `::`, when there was none before
abbrev pub at_gap : V6 → List ℕ → Option (List ℕ)
at_gap v (a ∷ b ∷ buf) = elim v.tail [
  | none ↦ (if a == b':' && b == b':' then some buf else none)
  | some _ ↦ none
]
at_gap v _ = none

-- whether a word may end here
abbrev pub at_end : List ℕ → Bool
at_end [] = true
at_end (c ∷ rest) = c == b':'

-- a single colon behind a word
abbrev pub skip_colon : List ℕ → List ℕ
skip_colon [] = []
skip_colon (c ∷ []) = if c == b':' then [] else c ∷ []
skip_colon (c ∷ d ∷ rest) =
    if c == b':' && (if d == b':' then false else true) then d ∷ rest else c ∷ d ∷ rest

-- the word at the start of the rest, in a round of `parsev6`
abbrev pub read_word : V6 → List ℕ → Option (ℕ × List ℕ)
read_word v buf = elim (strtol 16 buf) [
  | none ↦ none
  | some (value, rest) ↦ elim (in_range 0xffff value) [
    | none ↦ none
    | some word ↦
        if at_end rest && ltb (length v.front + length (tail_of v)) 16
        then some (word, skip_colon rest)
        else none
  ]
]

-- the loop of `parsev6`; each round takes a character, so as many rounds do as there are
unfoldable pub parsev6_loop : ℕ → V6 → List ℕ → Option V6
parsev6_loop rounds v [] = some v
parsev6_loop zero v (c ∷ buf) = none
parsev6_loop (suc rounds) v (c ∷ buf) = elim (at_gap v (c ∷ buf)) [
  | some buf' ↦ parsev6_loop rounds (record v { tail = some [] }) buf'
  | none ↦ elim (read_word v (c ∷ buf)) [
    | none ↦ none
    | some (word, buf') ↦ parsev6_loop rounds (add_word word v) buf'
  ]
]

-- the bytes that `parsev6` leaves, on zeroed ones
abbrev pub v6_bytes : V6 → List ℕ
v6_bytes v =
    write_at (v.front ++ replicate (16 - length v.front) 0) (16 - length (tail_of v)) (tail_of v)

-- `parsev6`
unfoldable pub parsev6 : List ℕ → Option (List ℕ)
parsev6 buf = elim (parsev6_loop (length buf) (record { front = []; tail = none }) buf) [
  | none ↦ none
  | some v ↦ some (v6_bytes v)
]

-- the eight words; the operands of `|` have no bit in common
unfoldable pub words_of : List ℕ → List ℕ
words_of [] = []
words_of (a ∷ []) = []
words_of (a ∷ b ∷ bytes) = (a * 2 ^ 8 + b) ∷ words_of bytes

-- the first loop of `toString` from the word `i` on: where the last zeros start, and how many
unfoldable pub find_gap : ℕ → ℕ → ℕ → List ℕ → ℕ × ℕ
find_gap i gap gaplen [] = (gap, gaplen)
find_gap i gap gaplen (word ∷ words) = elim (word == 0) [
  | false ↦ find_gap (i + 1) gap gaplen words
  | true ↦ elim (ltb (gap + gaplen) i) [
    | true ↦ find_gap (i + 1) i 1 words
    | false ↦ find_gap (i + 1) gap (gaplen + 1) words
  ]
]

-- its second loop, for a number of rounds, of which eight do
unfoldable pub print_words : ℕ → List ℕ → ℕ → ℕ → ℕ → Bool → List ℕ
print_words zero words gap gaplen i needcolon = []
print_words (suc rounds) words gap gaplen i needcolon = elim (leb 8 i) [
  | true ↦ []
  | false ↦ elim (i == gap && ltb 0 gaplen) [
    | true ↦ b':' ∷ b':' ∷ print_words rounds words gap gaplen (i + gaplen) false
    | false ↦
        (if needcolon then b':' ∷ [] else [])
        ++ (numeral 16 (get_or words i 0) ++ print_words rounds words gap gaplen (i + 1) true)
  ]
]

abbrev pub print_v4 : List ℕ → List ℕ
print_v4 bytes =
    numeral 10 (get_or bytes 12 0)
    ++ (b'.'
        ∷ (numeral 10 (get_or bytes 13 0)
            ++ (b'.'
                ∷ (numeral 10 (get_or bytes 14 0) ++ (b'.' ∷ numeral 10 (get_or bytes 15 0))))))

unfoldable pub print_v6 : List ℕ → List ℕ
print_v6 bytes =
    let words = words_of bytes in
    let (gap, gaplen) = find_gap 0 0 0 words in print_words 8 words gap gaplen 0 false

abbrev pub print_prefix : ℕ → ℕ → List ℕ
print_prefix prefixlen most = if ltb prefixlen most then b'/' ∷ numeral 10 prefixlen else []

-- `toString`
unfoldable pub to_string : Proto → ℕ → List ℕ → List ℕ
to_string ipv4 prefixlen bytes = print_v4 bytes ++ print_prefix prefixlen 32
to_string any prefixlen bytes = print_v6 bytes ++ print_prefix prefixlen 128
to_string ipv6 prefixlen bytes = print_v6 bytes ++ print_prefix prefixlen 128

-- a new address, as the functions that make one end
unfoldable pub new : Proto → ℕ → Option ℤ → List ℕ → IpAddr
new proto prefixlen port bytes = record {
  refcnt = 1;
  proto = proto;
  prefixlen = prefixlen;
  port = port;
  bytes = bytes;
  str = to_string proto prefixlen bytes;
}

-- struct sockaddr with its family, the address and the port
pub data SockAddr : Type 0 where
  inet : List ℕ → ℕ → SockAddr
  inet6 : List ℕ → ℕ → SockAddr
  other : SockAddr

-- `PSC_IpAddr_fromSockAddr`
unfoldable pub from_sock_addr : SockAddr → Option IpAddr
from_sock_addr (inet addr port) =
    some (new ipv4 32 (some (pos port)) (write_at (replicate 16 0) 12 (take 4 addr)))
from_sock_addr (inet6 addr port) =
    some (new ipv6 128 (some (pos port)) (write_at (replicate 16 0) 0 (take 16 addr)))
from_sock_addr other = none

-- the string up to a `/`, and what follows it
unfoldable pub split_slash : List ℕ → List ℕ × Option (List ℕ)
split_slash [] = ([], none)
split_slash (c ∷ str) =
    let (front, back) = split_slash str in if c == b'/' then ([], some str) else (c ∷ front, back)

-- the prefix length behind the `/`
unfoldable pub parse_prefix : List ℕ → Option ℕ
parse_prefix prstr = elim (strtol 10 prstr) [
  | none ↦ none
  | some (value, []) ↦ in_range 128 value
  | some (value, c ∷ rest) ↦ none
]

-- the end of `PSC_IpAddr_create`: a prefix length is given, or is `(unsigned)-1`
unfoldable pub parse_address : List ℕ → Option ℕ → Option IpAddr
parse_address buf prefixlen = elim (parsev4 buf) [
  | some bytes ↦ elim prefixlen [
    | none ↦ some (new ipv4 32 (some (negsuc 0)) bytes)
    | some n ↦ if ltb 32 n then none else some (new ipv4 n (some (negsuc 0)) bytes)
  ]
  | none ↦ elim (parsev6 buf) [
    | none ↦ none
    | some bytes ↦
        some (new ipv6 (elim prefixlen [ none ↦ 128 | some n ↦ n ]) (some (negsuc 0)) bytes)
  ]
]

-- `PSC_IpAddr_create`
unfoldable pub create : List ℕ → Option IpAddr
create str = elim (ltb (length str) 2 || ltb 43 (length str)) [
  | true ↦ none
  | false ↦
      let (buf, prstr) = split_slash str in
      elim prstr [
        | none ↦ parse_address buf none
        | some digits ↦ elim (parse_prefix digits) [
          | none ↦ none
          | some n ↦ parse_address buf (some n)
        ]
      ]
]

-- `PSC_IpAddr_ref`, on an `unsigned`
unfoldable pub ref : IpAddr → IpAddr
ref a = record a { refcnt = (a.refcnt + 1) % 2 ^ 32 }

-- `PSC_IpAddr_destroy`: nothing is left where the last reference goes
unfoldable pub destroy : IpAddr → Option IpAddr
destroy a = if ltb 1 a.refcnt then some (record a { refcnt = a.refcnt - 1 }) else none

-- `PSC_IpAddr_equals`
unfoldable pub equals : IpAddr → IpAddr → Bool
equals a b = same_proto a.proto b.proto && a.prefixlen == b.prefixlen && str_eq a.bytes b.bytes

-- the bytes compared in `PSC_IpAddr_matches`, for a prefix length
unfoldable pub same_prefix : ℕ → List ℕ → List ℕ → Bool
same_prefix prefixlen a p =
    let whole = prefixlen / 8 in
    let bits = prefixlen % 8 in
    let mask = 0xff * 2 ^ (8 - bits) % 2 ^ 8 in
    if str_eq (take whole a) (take whole p)
    then bits == 0 || bit_and (get_or a whole 0) mask == bit_and (get_or p whole 0) mask
    else false

-- `PSC_IpAddr_matches`
unfoldable pub matches : IpAddr → IpAddr → Bool
matches a p =
    same_proto a.proto p.proto
    && leb p.prefixlen a.prefixlen
    && same_prefix p.prefixlen a.bytes p.bytes

-- the loop of `PSC_IpAddr_tov4`
unfoldable pub some_matches : IpAddr → List IpAddr → Bool
some_matches a [] = false
some_matches a (p ∷ prefixes) =
    let rest = some_matches a prefixes in if p.prefixlen == 96 && matches a p then true else rest

-- `PSC_IpAddr_tov4`
unfoldable pub tov4 : IpAddr → List IpAddr → Option IpAddr
tov4 a prefixes =
    if ltb a.prefixlen 96
    then none
    else if some_matches a prefixes
    then some
        (new ipv4 (a.prefixlen - 96) (some (negsuc 0)) (replicate 12 0 ++ take 4 (drop 12 a.bytes)))
    else none

-- `PSC_IpAddr_tov6`, which leaves the port as `malloc` gave it
unfoldable pub tov6 : IpAddr → IpAddr → Option IpAddr
tov6 a p =
    if same_proto a.proto ipv4 && p.prefixlen == 96
    then some (new ipv6 (a.prefixlen + 96) none (take 12 p.bytes ++ take 4 (drop 12 a.bytes)))
    else none

-- `PSC_IpAddr_sockAddr`
unfoldable pub sock_addr : IpAddr → Option SockAddr
sock_addr a = elim a.proto [
  | any ↦ none
  | ipv4 ↦ some (inet (take 4 (drop 12 a.bytes)) 0)
  | ipv6 ↦ some (inet6 (take 16 a.bytes) 0)
]

-- `PSC_IpAddr_raw`
unfoldable pub raw : IpAddr → List ℕ
raw a = elim a.proto [ ipv4 ↦ drop 12 a.bytes | any ↦ a.bytes | ipv6 ↦ a.bytes ]
