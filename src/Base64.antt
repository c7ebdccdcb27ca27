-- ===== src/Base64.antt =====
-- src/lib/core/base64.c: Base64 with the standard and the URL-safe alphabet.
-- A buffer of bytes or characters is a list of numbers below 256; what the code reads through a
-- pointer and a length is the list's first elements.
pub mod Sizes
pub mod Alphabet
pub mod RoundTrip
pub mod Runs
use poser.Prelude.{
  ℕ, ◌+◌, ◌-◌, ◌*◌, ◌/◌, ◌%◌, bit_and, bit_or, List, [], ◌∷◌, ◌++◌, Bool, ◌&&◌, Option, none, some,
  map, ltb, leb, ◌==◌, if◌then◌else◌, get_or, take,
}
use poser.Prelude.Chars.{codes, strlen, strchr}
use poser.Prelude.Memory.{malloc, write_at}

abbrev pub alphabet : List ℕ
alphabet = codes "ABCDEFGHIJKLMNOPQRSTUVWXYZabcdefghijklmnopqrstuvwxyz0123456789+/-_"

-- `enc1`: the argument is converted to `uint8_t`; `urlsafe` is the flag PSC_B64_URLSAFE
unfoldable pub enc1 : ℕ → Bool → ℕ
enc1 val urlsafe =
    let pos = bit_and (val % 256) 0x3f in
    get_or alphabet (if urlsafe && leb 0x3e pos then pos + 2 else pos) 0

-- `dec1`: 0xff for a character that `strchr` does not find
unfoldable pub dec1 : ℕ → ℕ
dec1 val = elim (strchr alphabet val) [
  | none ↦ 0xff
  | some dec ↦ if ltb 0x3f dec then dec - 2 else dec
]

-- `PSC_Base64_encodedLen`
unfoldable pub encoded_len : ℕ → ℕ
encoded_len size = let res = size % 3 in 4 * (size / 3) + (if res == 0 then res else res + 1)

-- `PSC_Base64_decodedSize`
unfoldable pub decoded_size : ℕ → ℕ
decoded_size len = let res = len % 4 in 3 * (len / 4) + (if ltb 1 res then res - 1 else res)

-- the loop of `PSC_Base64_encodeTo` and its tail, over the bytes from `d + pos` on
unfoldable pub encode_loop : Bool → List ℕ → List ℕ
encode_loop f [] = []
encode_loop f (a ∷ []) = enc1 (a / 4) f ∷ enc1 (a * 16) f ∷ []
encode_loop f (a ∷ b ∷ []) =
    enc1 (a / 4) f ∷ enc1 (bit_or (a * 16) (b / 16)) f ∷ enc1 (b * 4) f ∷ []
encode_loop f (a ∷ b ∷ c ∷ rest) =
    enc1 (a / 4) f
    ∷ enc1 (bit_or (a * 16) (b / 16)) f
    ∷ enc1 (bit_or (b * 4) (c / 64)) f
    ∷ enc1 c f
    ∷ encode_loop f rest

-- `PSC_Base64_encodeTo`: what it writes from `enc` on, the terminator included
unfoldable pub encode_to : List ℕ → ℕ → Bool → List ℕ
encode_to bytes size f = encode_loop f (take size bytes) ++ 0 ∷ []

-- `PSC_Base64_encode`: the new buffer, written from its start
unfoldable pub encode : List ℕ → ℕ → Bool → List (Option ℕ)
encode bytes size f = write_at (malloc (encoded_len size + 1)) 0 (map some (encode_to bytes size f))

-- the loop of `PSC_Base64_decodeTo` and its tail, over the characters from `enc + pos` on
unfoldable pub decode_loop : List ℕ → List ℕ
decode_loop [] = []
decode_loop (w ∷ []) = []
decode_loop (w ∷ x ∷ []) = bit_or (dec1 w * 4) (dec1 x / 16) % 256 ∷ []
decode_loop (w ∷ x ∷ y ∷ []) =
    bit_or (dec1 w * 4) (dec1 x / 16) % 256 ∷ bit_or (dec1 x * 16) (dec1 y / 4) % 256 ∷ []
decode_loop (w ∷ x ∷ y ∷ z ∷ rest) =
    bit_or (dec1 w * 4) (dec1 x / 16) % 256
    ∷ bit_or (dec1 x * 16) (dec1 y / 4) % 256
    ∷ bit_or (dec1 y * 64) (dec1 z) % 256
    ∷ decode_loop rest

-- `PSC_Base64_decodeTo`: the bytes that it writes from `data` on
unfoldable pub decode_to : List ℕ → ℕ → List ℕ
decode_to enc len = decode_loop (take len enc)

-- `PSC_Base64_decode`: the new buffer, and what goes through `size`
unfoldable pub decode : List ℕ → List (Option ℕ) × ℕ
decode enc =
    let esz = strlen enc in
    let dsz = decoded_size esz in (write_at (malloc dsz) 0 (map some (decode_to enc esz)), dsz)
