-- ===== src/Base64/Sizes.antt =====
-- The two size functions of base64.c against what the loops write.
use poser.Prelude.{
  ℕ, suc, ◌+◌, ◌%◌, ◌≤◌, ◌≡◌, List, [], ◌∷◌, Bool, arith, refl, length, take, length-take,
  length-append, ◌==◌, if◌then◌else◌,
}
use poser.Base64.{encoded_len, decoded_size, encode_loop, encode_to, decode_loop, decode_to}

-- For every size, `decoded_size` of the length that `encoded_len` computes is the size again.
pub decoded_size-encoded_len : (size : ℕ) → decoded_size (encoded_len size) ≡ size
unfolding decoded_size encoded_len
decoded_size-encoded_len size = ground arith

encoded_len_step : (n : ℕ) → encoded_len (suc (suc (suc n))) ≡ 4 + encoded_len n
unfolding encoded_len
encoded_len_step n = ground arith

pub length-encode_loop :
    (f : Bool) (bytes : List ℕ) → length (encode_loop f bytes) ≡ encoded_len (length bytes)
unfolding encode_loop
length-encode_loop f [] = unfold encoded_len in refl
length-encode_loop f (a ∷ []) = unfold encoded_len in refl
length-encode_loop f (a ∷ b ∷ []) = unfold encoded_len in refl
length-encode_loop f (a ∷ b ∷ c ∷ rest) =
    omega (arith, encoded_len_step (length rest), length-encode_loop f rest)

-- `PSC_Base64_encodeTo` writes `PSC_Base64_encodedLen(size)` characters and the terminator,
-- for either alphabet, when the data holds at least `size` bytes.
pub length-encode_to :
    (bytes : List ℕ) (size : ℕ) (f : Bool)
    → size ≤ length bytes
    → length (encode_to bytes size f) ≡ encoded_len size + 1
unfolding encode_to
length-encode_to bytes size f h =
    let e : length (take size bytes) ≡ size = omega (arith, length-take size bytes) in
    simp (length-append, length-encode_loop, e)

decoded_size_step : (n : ℕ) → decoded_size (suc (suc (suc (suc n)))) ≡ 3 + decoded_size n
unfolding decoded_size
decoded_size_step n = ground arith

-- the byte that the computed size has too many
abbrev pub surplus : ℕ → ℕ
surplus len = if len % 4 == 1 then 1 else 0

length-decode_loop :
    (enc : List ℕ) → length (decode_loop enc) + surplus (length enc) ≡ decoded_size (length enc)
unfolding decode_loop
length-decode_loop [] = unfold decoded_size in refl
length-decode_loop (w ∷ []) = unfold decoded_size in refl
length-decode_loop (w ∷ x ∷ []) = unfold decoded_size in refl
length-decode_loop (w ∷ x ∷ y ∷ []) = unfold decoded_size in refl
length-decode_loop (w ∷ x ∷ y ∷ z ∷ rest) =
    ground (arith, decoded_size_step (length rest), length-decode_loop rest)

-- `PSC_Base64_decodeTo` writes `PSC_Base64_decodedSize(len)` bytes, but one byte less where
-- `len % 4` is 1, when the string holds at least `len` characters.
pub length-decode_to :
    (enc : List ℕ) (len : ℕ)
    → len ≤ length enc
    → length (decode_to enc len) + surplus len ≡ decoded_size len
unfolding decode_to
length-decode_to enc len h =
    let e : length (take len enc) ≡ len = omega (arith, length-take len enc) in
    rw e at (length-decode_loop (take len enc))
