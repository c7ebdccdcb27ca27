-- ===== src/Random/Sizes.antt =====
-- The sizes of what random.c writes.
use poser.Prelude.{
  ℕ, zero, suc, ◌+◌, ◌-◌, ◌*◌, ◌/◌, ◌%◌, ◌^◌, ◌≤◌, ◌<◌, ◌≡◌, ◌⊎◌, refl, ap, ◌∙◌, inl, inr, List, [],
  ◌∷◌, ◌++◌, none, some, Bool, true, false, ◌&&◌, ltb, ◌==◌, if◌then◌else◌, length, take,
  length-append, length-take, Bool-cases, Option-cases, ltb→lt, ltb→le, ==→eq, arith,
}
use poser.Base64.{encoded_len, decoded_size}
use poser.Base64.Sizes.{surplus, length-encode_to}
use poser.Random.{
  Prng, prng, Flags, Draw, interrupted, again, failed, got, draw_loop, word_bytes, fill_loop, fill,
  random_bytes, random_string,
}

encoded_len-decoded_size : (n : ℕ) → encoded_len (decoded_size n) ≡ n + surplus n
unfolding encoded_len decoded_size
encoded_len-decoded_size n = ground arith

encoded_len-below : (k n : ℕ) → k < decoded_size n → encoded_len k ≤ n
unfolding encoded_len decoded_size
encoded_len-below k n h = ground arith

-- For a size above 0 and the bytes that `PSC_Random_bytes` got, no more than it was asked for,
-- `PSC_Random_string` writes as many characters as the size that it returns, which is no more
-- than the size of the buffer. But it writes one more where all the bytes are there and the
-- size, less one, leaves the rest 1 on the division by 4.
pub length-random_string :
    (buf : List ℕ) (size : ℕ) (urlsafe : Bool)
    → 0 < size
    → size < 2 ^ 64
    → length buf ≤ decoded_size (size - 1)
    → (length ((random_string buf size urlsafe).0)
        ≡ (random_string buf size urlsafe).1
          + (if length buf == decoded_size (size - 1) then surplus (size - 1) else 0))
      × ((random_string buf size urlsafe).1 ≤ size)
unfolding random_string
length-random_string buf size urlsafe h small within =
    let e : (size + 2 ^ 64 - 1) % 2 ^ 64 ≡ size - 1 = omega arith in
    let w = length-encode_to buf (length buf) urlsafe (omega arith) in
    elim (Bool-cases (ltb (length buf) (decoded_size (size - 1)))) [
      | inl part ↦
          let lt = ltb→lt (length buf) (decoded_size (size - 1)) part in
          let some_missing : (length buf == decoded_size (size - 1)) ≡ false = ground arith in
          let le = encoded_len-below (length buf) (size - 1) lt in
          rw (e, part, some_missing) (omega arith, omega arith)
      | inr whole ↦
          let same : length buf ≡ decoded_size (size - 1) =
            omega (arith, ltb→le (length buf) (decoded_size (size - 1)) whole) in
          let all_there : (length buf == decoded_size (size - 1)) ≡ true = ground arith in
          let l = ap encoded_len same ∙ encoded_len-decoded_size (size - 1) in
          rw (e, whole, all_there) (omega arith, omega arith)
    ]

none-some : {A : Type 0} {a : A} → none ≡ some a → ⊥
none-some e = cc

length-word_bytes : (n word : ℕ) → length (word_bytes n word) ≡ n
unfolding word_bytes
length-word_bytes zero word = refl
length-word_bytes (suc n) word = ap suc (length-word_bytes n (word / 2 ^ 8))

some-some : {A : Type 0} {a b : A} → some a ≡ some b → a ≡ b
some-some e = cc

length-fill_loop :
    (time chunks : ℕ) (p p' : Prng) (b b' : List ℕ)
    → fill_loop time chunks p b ≡ some (b', p')
    → length b' ≡ length b + 8 * chunks
unfolding fill_loop
length-fill_loop time zero p p' b b' h = let e = ap (λ r. length r.0) (some-some h) in omega arith
length-fill_loop time (suc chunks) p p' b b' h = elim (Option-cases (prng time p)) [
  | inl blocked ↦ absurd (none-some (rw (fill_loop, blocked) at h))
  | inr ((rn, q), there) ↦
      let rest =
        length-fill_loop time chunks q p' (b ++ word_bytes 8 rn) b' (rw (fill_loop, there) at h) in
      omega (arith, length-append b (word_bytes 8 rn), length-word_bytes 8 rn)
]

length-fill :
    (time left : ℕ) (p p' : Prng) (b b' : List ℕ)
    → fill time left p b ≡ some (b', p')
    → length b' ≡ length b + left
unfolding fill
length-fill time left p p' b b' h = elim (Bool-cases (left % 8 == 0)) [
  | inl whole ↦
      let rest = length-fill_loop time (left / 8) p p' b b' (rw (fill, whole) at h) in
      let e = ==→eq (left % 8) 0 whole in omega arith
  | inr part ↦ elim (Option-cases (prng time p)) [
    | inl blocked ↦ absurd (none-some (rw (fill, part, blocked) at h))
    | inr ((rn, q), there) ↦
        let few : List ℕ = word_bytes (left % 8) rn in
        let rest =
          length-fill_loop time (left / 8) q p' (b ++ few) b' (rw (fill, part, there) at h) in
        omega (arith, length-append b few, length-word_bytes (left % 8) rn)
  ]
]

length-draw_loop :
    (draws : List Draw) (flags : Flags) (count dolog logged logged' : ℕ) (b b' : List ℕ)
    → length b ≤ count
    → draw_loop draws flags count dolog logged b ≡ some (b', logged')
    → length b' ≤ count
unfolding draw_loop
length-draw_loop [] flags count dolog logged logged' b b' k h =
    elim (Bool-cases (ltb (length b) count)) [
      | inl waits ↦ absurd (none-some (rw waits at h))
      | inr full ↦ let e = ap (λ r. length r.0) (some-some (rw full at h)) in omega arith
    ]
length-draw_loop (d ∷ draws) flags count dolog logged logged' b b' k h =
    elim (Bool-cases (ltb (length b) count)) [
      | inr full ↦
          let e = ap (λ r. length r.0) (some-some (rw (draw_loop, full) at h)) in omega arith
      | inl more ↦
          go (λ dl ls c. length-draw_loop draws flags count dl ls logged' c b') d
            (rw (draw_loop, more) at h)
    ]
  where
    warns : Bool
    warns = dolog == 1 && flags.log_pseudo

    dolog' : ℕ
    dolog' = if warns then 2 else dolog

    after : ℕ
    after = if dolog' == 0 then 1 else dolog'

    logs : ℕ
    logs = if warns then logged + 1 else logged

    go :
        ((dl ls : ℕ) (c : List ℕ)
          → length c ≤ count
          → draw_loop draws flags count dl ls c ≡ some (b', logged')
          → length b' ≤ count)
        → (d : Draw)
        → (elim d [
          | interrupted ↦ draw_loop draws flags count dolog' logs b
          | again ↦ draw_loop draws flags count after logs b
          | failed ↦ some (b, logs)
          | got bytes ↦ draw_loop draws flags count after logs (b ++ take (count - length b) bytes)
        ])
          ≡ some (b', logged')
        → length b' ≤ count
    go rec interrupted h = rec dolog' logs b k h
    go rec again h = rec after logs b k h
    go rec failed h = let e = ap (λ r. length r.0) (some-some h) in omega arith
    go rec (got bytes) h =
        let l = length-append b (take (count - length b) bytes) in
        let t = length-take (count - length b) bytes in
        rec after logs (b ++ take (count - length b) bytes) (omega arith) h

-- Where `PSC_Random_bytes` returns, it has written no more bytes than asked for, and all of them
-- unless only a secure source is allowed.
pub length-random_bytes :
    (draws : List Draw) (time : ℕ) (p p' : Prng) (flags : Flags) (count logged : ℕ) (b : List ℕ)
    → random_bytes draws time p flags count ≡ some (b, logged, p')
    → (length b ≤ count) × ((flags.secure ≡ true) ⊎ (length b ≡ count))
unfolding random_bytes
length-random_bytes draws time p p' flags count logged b h =
    elim (Option-cases (draw_loop draws flags count 0 0 [])) [
      | inl waits ↦ absurd (none-some (rw (random_bytes, waits) at h))
      | inr ((c, logs), drawn) ↦
          let le = length-draw_loop draws flags count 0 0 logs [] c (omega arith) drawn in
          elim (Bool-cases (ltb (length c) count)) [
            | inr full ↦
                let e = ap (λ r. length r.0) (some-some (rw (random_bytes, drawn, full) at h)) in
                let ge = ltb→le (length c) count full in (omega arith, inr (omega arith))
            | inl short ↦ elim (Bool-cases flags.secure) [
              | inl only ↦
                  let e =
                    ap (λ r. length r.0) (some-some (rw (random_bytes, drawn, short, only) at h)) in
                  (omega arith, inl only)
              | inr other ↦ elim (Option-cases (fill time (count - length c) p c)) [
                | inl blocked ↦
                    absurd (none-some (rw (random_bytes, drawn, short, other, blocked) at h))
                | inr ((c', q), filled) ↦
                    let lt = ltb→lt (length c) count short in
                    let l = length-fill time (count - length c) p q c c' filled in
                    let e =
                      ap (λ r. length r.0)
                        (some-some (rw (random_bytes, drawn, short, other, filled) at h)) in
                    (omega arith, inr (omega arith))
              ]
            ]
          ]
    ]
