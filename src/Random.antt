-- ===== src/Random.antt =====
-- src/lib/core/random.c: random bytes from the operating system or a generator, and random strings.
-- This is the variant that calls `getrandom`; what its calls give is a list, in their order. A `size_t`
-- has 64 bits.
pub mod Sizes
mod Runs
use Prim.Native.Nat.{bit_xor}
use poser.Prelude.{
  ℕ, zero, suc, ◌+◌, ◌-◌, ◌*◌, ◌/◌, ◌%◌, ◌^◌, List, [], ◌∷◌, ◌++◌, Option, none, some, Bool, true,
  false, ◌&&◌, ◌||◌, ltb, leb, ◌==◌, if◌then◌else◌, length, take,
}
use poser.Base64.{encoded_len, decoded_size, encode_to, encode}

-- the static variables of `prng`, and whether its mutex is locked
pub record Prng : Type 0 where
  pub locked : Bool
  pub seeded : Bool
  pub s0 : ℕ
  pub s1 : ℕ
  pub s2 : ℕ
  pub s3 : ℕ

-- the shifts and exclusive ors of `prng`, with the number that it returns; the operands of `|` have no
-- bit in common
unfoldable pub mix : Prng → ℕ × Prng
mix p =
    let num = (p.s0 + p.s3) % 2 ^ 64 in
    let tmp = p.s1 * 2 ^ 17 % 2 ^ 64 in
    let s2 = bit_xor p.s2 p.s0 in
    let s3 = bit_xor p.s3 p.s1 in
    let s1 = bit_xor p.s1 s2 in
    let s0 = bit_xor p.s0 s3 in
    (
      num,
      record p { s0 = s0; s1 = s1; s2 = bit_xor s2 tmp; s3 = s3 * 2 ^ 45 % 2 ^ 64 + s3 / 2 ^ 19 },
    )

-- a call of `prng` when it is seeded: nothing where it waits for a mutex that its own thread holds
unfoldable pub prng_seeded : Prng → Option (ℕ × Prng)
prng_seeded p = if p.locked then none else some (mix p)

-- a number of calls
unfoldable pub prng_times : ℕ → Prng → Option Prng
prng_times zero p = some p
prng_times (suc n) p = elim (prng_seeded p) [ none ↦ none | some (_, p') ↦ prng_times n p' ]

-- `prng`, called at a time
unfoldable pub prng : ℕ → Prng → Option (ℕ × Prng)
prng time p =
    if p.locked
    then none
    else if p.seeded
    then prng_seeded p
    else elim (prng_times 100 (record p { locked = true; seeded = true; s0 = time })) [
      | none ↦ none
      | some p' ↦ some (mix (record p' { locked = false }))
    ]

-- the flags PSC_RF_SECURE, and PSC_RF_WLOGPSEUDO or PSC_RF_ELOGPSEUDO; what the others ask of
-- `getrandom` is the operating system's matter
pub record Flags : Type 0 where
  pub secure : Bool
  pub log_pseudo : Bool

-- what a call of `getrandom` gives: EINTR, EAGAIN, another error, or bytes
pub data Draw : Type 0 where
  interrupted : Draw
  again : Draw
  failed : Draw
  got : List ℕ → Draw

-- the loop of `PSC_Random_bytes`: the bytes read, and how many messages it logged; nothing while it
-- waits for the next call
unfoldable pub draw_loop : List Draw → Flags → ℕ → ℕ → ℕ → List ℕ → Option (List ℕ × ℕ)
draw_loop [] flags count dolog logged b = if ltb (length b) count then none else some (b, logged)
draw_loop (d ∷ draws) flags count dolog logged b = elim (ltb (length b) count) [
  | false ↦ some (b, logged)
  | true ↦
      let warns = dolog == 1 && flags.log_pseudo in
      let dolog' = if warns then 2 else dolog in
      let logged' = if warns then logged + 1 else logged in
      let after = if dolog' == 0 then 1 else dolog' in
      elim d [
        | interrupted ↦ draw_loop draws flags count dolog' logged' b
        | again ↦ draw_loop draws flags count after logged' b
        | failed ↦ some (b, logged')
        | got bytes ↦ draw_loop draws flags count after logged' (b ++ take (count - length b) bytes)
      ]
]

-- the first bytes of a word in memory, the lowest first
unfoldable pub word_bytes : ℕ → ℕ → List ℕ
word_bytes zero word = []
word_bytes (suc n) word = word % 2 ^ 8 ∷ word_bytes n (word / 2 ^ 8)

-- the loop over the chunks of eight bytes
unfoldable pub fill_loop : ℕ → ℕ → Prng → List ℕ → Option (List ℕ × Prng)
fill_loop time zero p b = some (b, p)
fill_loop time (suc chunks) p b = elim (prng time p) [
  | none ↦ none
  | some (rn, p') ↦ fill_loop time chunks p' (b ++ word_bytes 8 rn)
]

-- the bytes that are left, from `prng`
unfoldable pub fill : ℕ → ℕ → Prng → List ℕ → Option (List ℕ × Prng)
fill time left p b = if left % 8 == 0 then fill_loop time (left / 8) p b else elim (prng time p) [
  | none ↦ none
  | some (rn, p') ↦ fill_loop time (left / 8) p' (b ++ word_bytes (left % 8) rn)
]

-- `PSC_Random_bytes`: the bytes in the buffer, the messages and the generator; nothing if it does not
-- return
unfoldable pub random_bytes : List Draw → ℕ → Prng → Flags → ℕ → Option (List ℕ × ℕ × Prng)
random_bytes draws time p flags count = elim (draw_loop draws flags count 0 0 []) [
  | none ↦ none
  | some (b, logged) ↦
      if ltb (length b) count
      then (if flags.secure then some (b, logged, p) else elim (fill time (count - length b) p b) [
        | none ↦ none
        | some (b', p') ↦ some (b', (if flags.log_pseudo then logged + 1 else logged), p')
      ])
      else some (b, logged, p)
]

-- `PSC_Random_string`, with what `PSC_Random_bytes` got: the characters written and the size returned
unfoldable pub random_string : List ℕ → ℕ → Bool → List ℕ × ℕ
random_string buf size urlsafe =
    let count = decoded_size ((size + 2 ^ 64 - 1) % 2 ^ 64) in
    let got = length buf in
    (encode_to buf got urlsafe, if ltb got count then encoded_len got + 1 else size)

-- `PSC_Random_createStr`, with what `PSC_Random_bytes` got
unfoldable pub create_str : List ℕ → ℕ → Bool → Option (List (Option ℕ))
create_str buf count urlsafe = if length buf == count then some (encode buf count urlsafe) else none
