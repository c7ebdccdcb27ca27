-- ===== src/Random/Runs.antt =====
-- Runs of the functions of random.c.
use poser.Prelude.{
  ℕ, ◌≤◌, ◌≡◌, refl, List, [], ◌∷◌, none, some, true, false, length, replicate, arith,
}
use poser.Base64.{decoded_size}
use poser.Random.{
  Prng, prng_seeded, prng_times, prng, Flags, Draw, interrupted, again, got, draw_loop,
  random_bytes, random_string,
}
use poser.Random.Sizes.{length-random_string}

abbrev unseeded : Prng
unseeded = record { locked = false; seeded = false; s0 = 0; s1 = 0; s2 = 0; s3 = 0 }

-- The first call of `prng` does not return, whatever the time is.
prng_blocks : (time : ℕ) → prng time unseeded ≡ none
unfolding prng prng_times prng_seeded
prng_blocks time = refl

-- The size 6 leaves the rest 1: seven characters are written to a buffer of six, the terminator
-- included.
length-random_string_example :
    (length ((random_string (replicate 4 255) 6 true).0) ≡ 7)
    × ((random_string (replicate 4 255) 6 true).1 ≤ 6)
unfolding decoded_size random_string
length-random_string_example =
    length-random_string (replicate 4 255) 6 true (omega arith) (omega arith) (omega arith)

abbrev any_source : Flags
any_source = record { secure = false; log_pseudo = true }

abbrev draws : List Draw
draws = interrupted ∷ got (7 ∷ 8 ∷ []) ∷ again ∷ got (9 ∷ []) ∷ []

abbrev drawn : List ℕ
drawn = 7 ∷ 8 ∷ 9 ∷ []

random_bytes_run : random_bytes draws 0 unseeded any_source 3 ≡ some (drawn, 1, unseeded)
unfolding random_bytes draw_loop
random_bytes_run = refl
