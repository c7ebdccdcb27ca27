-- ===== src/Base64/RoundTrip.antt =====
-- Decoding what base64.c encoded.
use poser.Prelude.{
  none, sym, length-map, length-replicate, ℕ, ◌+◌, ◌*◌, ◌/◌, ◌%◌, ◌≤◌, ◌<◌, ◌≡◌, List, [], ◌∷◌,
  Bool, arith, refl, length, All, map, some, bit_or, take-append, take_all, ap, ◌∙◌,
}
use poser.Prelude.Bits.{bit_or-4, bit_or-16, bit_or-64}
use poser.Prelude.Chars.{strlen-append, strlen}
use poser.Prelude.Memory.{malloc, write_at_all}
use poser.Base64.{encode_loop, encode_to, decode_loop, decode_to, decode, encoded_len, encode}
use poser.Base64.Alphabet.{dec1-enc1, encode_loop-ne-zero}
use poser.Base64.Sizes.{length-encode_to, length-encode_loop, decoded_size-encoded_len}

abbrev pub IsByte : ℕ → Type 0
IsByte b = b < 256

-- `|` of the parts of two characters' values, which have no bit in common
join-4 : (p q : ℕ) → p < 64 → q < 64 → bit_or (p * 4) (q / 16) % 256 ≡ p * 4 + q / 16
join-4 p q hp hq = omega (arith, bit_or-4 p (q / 16) (omega arith) (omega arith))

join-16 : (p q : ℕ) → p < 64 → q < 64 → bit_or (p * 16) (q / 4) % 256 ≡ (p * 16 + q / 4) % 256
join-16 p q hp hq = omega (arith, bit_or-16 p (q / 4) (omega arith) (omega arith))

join-64 : (p q : ℕ) → p < 64 → q < 64 → bit_or (p * 64) q % 256 ≡ (p * 64 + q) % 256
join-64 p q hp hq = omega (arith, bit_or-64 p q hp hq)

-- The loop of the decoder undoes the loop of the encoder.
decode_loop-encode_loop :
    (f : Bool) (bytes : List ℕ) → All IsByte bytes → decode_loop (encode_loop f bytes) ≡ bytes
unfolding encode_loop decode_loop
decode_loop-encode_loop f [] h = refl
decode_loop-encode_loop f (a ∷ []) h =
    ground (arith, dec1-enc1 (a / 4) f, dec1-enc1 (a * 16) f, join-4 (a / 4 % 64) (a * 16 % 64))
decode_loop-encode_loop f (a ∷ b ∷ []) h =
    let y = bit_or (a * 16) (b / 16) in
    ground (
      arith,
      dec1-enc1 (a / 4) f,
      dec1-enc1 y f,
      dec1-enc1 (b * 4) f,
      bit_or-16 a (b / 16),
      join-4 (a / 4 % 64) (y % 64),
      join-16 (y % 64) (b * 4 % 64),
    )
decode_loop-encode_loop f (a ∷ b ∷ c ∷ rest) h =
    let y = bit_or (a * 16) (b / 16) in
    let z = bit_or (b * 4) (c / 64) in
    ground (
      arith,
      dec1-enc1 (a / 4) f,
      dec1-enc1 y f,
      dec1-enc1 z f,
      dec1-enc1 c f,
      bit_or-16 a (b / 16),
      bit_or-4 b (c / 64),
      join-4 (a / 4 % 64) (y % 64),
      join-16 (y % 64) (z % 64),
      join-64 (z % 64) (c % 64),
      decode_loop-encode_loop f rest,
    )

-- Decoding the `encoded_len` characters that encode a block of bytes, each below 256, gives the bytes
-- back, for either alphabet.
pub decode_to-encode_to :
    (bytes : List ℕ) (f : Bool)
    → All IsByte bytes
    → decode_to (encode_to bytes (length bytes) f) (encoded_len (length bytes)) ≡ bytes
unfolding decode_to encode_to
decode_to-encode_to bytes f h =
    rw (take_all (length bytes) bytes (omega arith), ← length-encode_loop f bytes, take-append)
      (decode_loop-encode_loop f bytes h)

strlen-encode_to :
    (bytes : List ℕ) (f : Bool)
    → strlen (encode_to bytes (length bytes) f) ≡ encoded_len (length bytes)
unfolding encode_to
strlen-encode_to bytes f = rw (take_all (length bytes) bytes (omega arith)) (
    strlen-append (encode_loop f bytes) [] (encode_loop-ne-zero f bytes)
    ∙ length-encode_loop f bytes)

-- The terminated string that `PSC_Base64_encodeTo` writes for a block of bytes, given to
-- `PSC_Base64_decode`, comes back as that block, every cell written, with its size: for bytes below
-- 256 and either alphabet.
pub decode-encode_to :
    (bytes : List ℕ) (f : Bool)
    → All IsByte bytes
    → decode (encode_to bytes (length bytes) f) ≡ (map some bytes, length bytes)
unfolding decode
decode-encode_to bytes f h =
    rw (strlen-encode_to, decoded_size-encoded_len, decode_to-encode_to bytes f h)
      (ap (λ cells. (cells, length bytes)) (write_at_all (map some bytes) _ sizes))
  where
    sizes : length (map some bytes) ≡ length (malloc {A = ℕ} (length bytes))
    sizes = length-map some bytes ∙ sym (length-replicate (length bytes) none)

-- `PSC_Base64_encode` fills its buffer exactly: each cell holds a character of the terminated
-- string, when the data holds at least `size` bytes.
pub encode-encode_to :
    (bytes : List ℕ) (size : ℕ) (f : Bool)
    → size ≤ length bytes
    → encode bytes size f ≡ map some (encode_to bytes size f)
unfolding encode
encode-encode_to bytes size f h = write_at_all _ _ (
    length-map some (encode_to bytes size f)
    ∙ length-encode_to bytes size f h
    ∙ sym (length-replicate (encoded_len size + 1) none))
