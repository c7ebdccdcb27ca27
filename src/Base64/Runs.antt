-- ===== src/Base64/Runs.antt =====
-- Runs of base64.c, and the theorems at concrete inputs.
use poser.Prelude.{ℕ, ◌+◌, ◌≡◌, refl, List, [], ◌∷◌, ◌++◌, false, length, map, some, arith}
use poser.Prelude.Chars.{codes}
use poser.Base64.{enc1, decoded_size, encode_loop, encode_to, decode_to, decode}
use poser.Base64.Sizes.{length-decode_to, surplus}
use poser.Base64.RoundTrip.{decode-encode_to}

abbrev text : List ℕ
text = codes "poser"

abbrev high : List ℕ
high = 0xfb ∷ 0xff ∷ []

encode_text : encode_to text 5 false ≡ codes "cG9zZXI" ++ 0 ∷ []
unfolding encode_to encode_loop enc1
encode_text = refl

length-decode_to_example : length (decode_to (codes "cG9zZ") 5) + surplus 5 ≡ decoded_size 5
length-decode_to_example = length-decode_to (codes "cG9zZ") 5 (omega arith)

decode-encode_to_example : decode (encode_to text 5 false) ≡ (map some text, 5)
decode-encode_to_example = decode-encode_to text false (omega arith)
