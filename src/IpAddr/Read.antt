-- ===== src/IpAddr/Read.antt =====
-- `parsev4` and `parsev6` of ipaddr.c give the bytes of an address.
use poser.Prelude.{
  ℕ, zero, suc, ◌+◌, ◌-◌, ◌/◌, ◌%◌, ◌^◌, ◌≤◌, ◌<◌, ◌≡◌, refl, sym, ap, subst, ◌∙◌, inl, inr, List,
  [], ◌∷◌, ◌++◌, Option, none, some, Bool, true, ◌&&◌, ltb, length, set, replicate, All,
  length-append, length-replicate, Bool-cases, Option-cases, arith,
}
use poser.Prelude.Int.{ℤ, pos, negsuc}
use poser.Prelude.Memory.{write_at, length-write_at}
use poser.Prelude.Numerals.{strtol}
use poser.IpAddr.{
  ipv4, ipv6, in_range, after_byte, parsev4_loop, parsev4, V6, tail_of, at_gap, at_end, read_word,
  add_word, parsev6_loop, v6_bytes, parsev6,
}
use poser.IpAddr.RoundTripV6.{AreBytes}
use poser.IpAddr.RoundTrip.{IsAddress}

pub none-some : {A : Type 0} {a : A} → none ≡ some a → ⊥
none-some e = cc

pub some-some : {A : Type 0} {a b : A} → some a ≡ some b → a ≡ b
some-some e = cc

pub All-append : (P : ℕ → Type 0) (xs ys : List ℕ) → All P xs → All P ys → All P (xs ++ ys)
All-append P [] ys a b = b
All-append P (x ∷ xs) ys (h, a) b = (h, All-append P xs ys a b)

All-set : (P : ℕ → Type 0) (xs : List ℕ) (i v : ℕ) → All P xs → P v → All P (set xs i v)
All-set P [] i v a h = tt
All-set P (x ∷ xs) zero v (_, a) h = (h, a)
All-set P (x ∷ xs) (suc i) v (p, a) h = (p, All-set P xs i v a h)

All-write_at :
    (P : ℕ → Type 0) (xs : List ℕ) (i : ℕ) (vs : List ℕ)
    → All P xs
    → All P vs
    → All P (write_at xs i vs)
All-write_at P xs i [] a b = a
All-write_at P xs i (v ∷ vs) a (h, b) =
    All-write_at P (set xs i v) (suc i) vs (All-set P xs i v a h) b

zeros-AreBytes : (n : ℕ) → AreBytes (replicate n 0)
zeros-AreBytes zero = tt
zeros-AreBytes (suc n) = (omega arith, zeros-AreBytes n)

pub in_range-le : (most n : ℕ) (value : Option ℤ) → in_range most value ≡ some n → n ≤ most
in_range-le most n none e = absurd (none-some e)
in_range-le most n (some (negsuc m)) e = absurd (none-some e)
in_range-le most n (some (pos m)) e = elim (Bool-cases (ltb most m)) [
  | inl over ↦ absurd (none-some (rw over at e))
  | inr fits ↦ let same = some-some (rw fits at e) in ground arith
]

loop-AreBytes :
    (left : ℕ) (v4dat buf read : List ℕ)
    → AreBytes v4dat
    → parsev4_loop left v4dat buf ≡ some read
    → AreBytes read × (length read ≡ length v4dat + left)
unfolding parsev4_loop
loop-AreBytes zero v4dat buf read a h =
    let e = some-some h in (subst AreBytes e a, let l = ap length e in omega arith)
loop-AreBytes (suc left) v4dat buf read a h = elim (Option-cases (strtol 10 buf)) [
  | inl no_number ↦ absurd (none-some (rw (parsev4_loop, no_number) at h))
  | inr ((value, rest), number) ↦ elim (Option-cases (in_range 255 value)) [
    | inl outside ↦ absurd (none-some (rw (parsev4_loop, number, outside) at h))
    | inr (byte, inside) ↦ elim (Option-cases (after_byte left rest)) [
      | inl odd ↦ absurd (none-some (rw (parsev4_loop, number, inside, odd) at h))
      | inr (buf', after) ↦
          let le = in_range-le 255 byte value inside in
          let (b, l) =
            loop-AreBytes left (v4dat ++ byte ∷ []) buf' read
              (All-append (λ n. n < 2 ^ 8) v4dat (byte ∷ []) a (omega arith, tt))
              (rw (parsev4_loop, number, inside, after) at h) in
          (b, omega (arith, length-append v4dat (byte ∷ [])))
    ]
  ]
]

four-AreBytes :
    (read : List ℕ)
    → AreBytes read
    → length read ≡ 4
    → IsAddress ipv4 32 (write_at (replicate 16 0) 12 read)
four-AreBytes (a ∷ b ∷ c ∷ d ∷ []) h e = (
  omega arith,
  (
    All-write_at (λ n. n < 2 ^ 8) (replicate 16 0) 12 (a ∷ b ∷ c ∷ d ∷ []) (zeros-AreBytes 16) h,
    (refl, refl),
  ),
)
four-AreBytes [] h e = absurd (omega arith)
four-AreBytes (a ∷ []) h e = absurd (omega arith)
four-AreBytes (a ∷ b ∷ []) h e = absurd (omega arith)
four-AreBytes (a ∷ b ∷ c ∷ []) h e = absurd (omega arith)
four-AreBytes (a ∷ b ∷ c ∷ d ∷ f ∷ read) h e = absurd (omega arith)

pub parsev4-IsAddress : (s bytes : List ℕ) → parsev4 s ≡ some bytes → IsAddress ipv4 32 bytes
unfolding parsev4
parsev4-IsAddress s bytes h = elim (Option-cases (parsev4_loop 4 [] s)) [
  | inl odd ↦ absurd (none-some (rw (parsev4, odd) at h))
  | inr (read, done) ↦
      let (a, l) = loop-AreBytes 4 [] s read tt done in
      subst (IsAddress ipv4 32) (some-some (rw (parsev4, done) at h))
        (four-AreBytes read a (omega arith))
]

-- Bytes, 16 at most, that came in pairs.
record IsRead (v : V6) : Type 0 where
  front_bytes : AreBytes v.front
  tail_bytes : AreBytes (tail_of v)
  room : length v.front + length (tail_of v) ≤ 16
  even : (length v.front + length (tail_of v)) % 2 ≡ 0

no_second_gap : (front t buf : List ℕ) → at_gap (record { front = front; tail = some t }) buf ≡ none
no_second_gap front t [] = refl
no_second_gap front t (a ∷ []) = refl
no_second_gap front t (a ∷ b ∷ buf) = refl

at_gap-IsRead :
    (front : List ℕ) (tail : Option (List ℕ)) (buf buf' : List ℕ)
    → IsRead (record { front = front; tail = tail })
    → at_gap (record { front = front; tail = tail }) buf ≡ some buf'
    → IsRead (record { front = front; tail = some [] })
at_gap-IsRead front none buf buf' r h = record {
  front_bytes = r.front_bytes;
  tail_bytes = tt;
  room = r.room;
  even = r.even;
}
at_gap-IsRead front (some t) buf buf' r h = absurd (none-some (sym (no_second_gap front t buf) ∙ h))

add_word-IsRead :
    (word : ℕ) (front : List ℕ) (tail : Option (List ℕ))
    → IsRead (record { front = front; tail = tail })
    → word ≤ 0xffff
    → length front + length (tail_of (record { front = front; tail = tail })) < 16
    → IsRead (add_word word (record { front = front; tail = tail }))
add_word-IsRead word front none r h room =
    let two : List ℕ = word / 2 ^ 8 ∷ word % 2 ^ 8 ∷ [] in
    let l = length-append front two in
    let room' = r.room in
    let even' = r.even in
    record {
      front_bytes =
          All-append (λ n. n < 2 ^ 8) front two r.front_bytes (omega arith, (omega arith, tt));
      tail_bytes = tt;
      room = omega arith;
      even = omega arith;
    }
add_word-IsRead word front (some t) r h room =
    let two : List ℕ = word / 2 ^ 8 ∷ word % 2 ^ 8 ∷ [] in
    let l = length-append t two in
    let room' = r.room in
    let even' = r.even in
    record {
      front_bytes = r.front_bytes;
      tail_bytes = All-append (λ n. n < 2 ^ 8) t two r.tail_bytes (omega arith, (omega arith, tt));
      room = omega arith;
      even = omega arith;
    }

below : (ends : Bool) (n : ℕ) → (ends && ltb n 16) ≡ true → n < 16
below ends n h = ground arith

read_word-IsRead :
    (front : List ℕ) (tail : Option (List ℕ)) (buf buf' : List ℕ) (word : ℕ)
    → IsRead (record { front = front; tail = tail })
    → read_word (record { front = front; tail = tail }) buf ≡ some (word, buf')
    → IsRead (add_word word (record { front = front; tail = tail }))
read_word-IsRead front tail buf buf' word r h = elim (Option-cases (strtol 16 buf)) [
  | inl no_number ↦ absurd (none-some (rw (read_word, no_number) at h))
  | inr ((value, rest), number) ↦ elim (Option-cases (in_range 0xffff value)) [
    | inl outside ↦ absurd (none-some (rw (read_word, number, outside) at h))
    | inr (n, inside) ↦
        let v : V6 = record { front = front; tail = tail } in
        let le = in_range-le 0xffff n value inside in
        elim (Bool-cases (at_end rest && ltb (length front + length (tail_of v)) 16)) [
          | inr odd ↦ absurd (none-some (rw (read_word, number, inside, odd) at h))
          | inl ends ↦
              let e = some-some (rw (read_word, number, inside, ends) at h) in
              let same : n ≡ word = ap (λ p. p.0) e in
              add_word-IsRead word front tail r (omega arith)
                (below (at_end rest) (length front + length (tail_of v)) ends)
        ]
  ]
]

loop-IsRead :
    (rounds : ℕ) (front : List ℕ) (tail : Option (List ℕ)) (buf : List ℕ) (read : V6)
    → IsRead (record { front = front; tail = tail })
    → parsev6_loop rounds (record { front = front; tail = tail }) buf ≡ some read
    → IsRead read
unfolding parsev6_loop
loop-IsRead rounds front tail [] read r h = subst IsRead (some-some h) r
loop-IsRead zero front tail (c ∷ buf) read r h = absurd (none-some h)
loop-IsRead (suc rounds) front tail (c ∷ buf) read r h =
    let v : V6 = record { front = front; tail = tail } in
    elim (Option-cases (at_gap v (c ∷ buf))) [
      | inr (buf', gap) ↦
          loop-IsRead rounds front (some []) buf' read
            (at_gap-IsRead front tail (c ∷ buf) buf' r gap) (rw (parsev6_loop, gap) at h)
      | inl no_gap ↦ elim (Option-cases (read_word v (c ∷ buf))) [
        | inl odd ↦ absurd (none-some (rw (parsev6_loop, no_gap, odd) at h))
        | inr ((word, buf'), there) ↦
            let v' : V6 = add_word word v in
            loop-IsRead rounds v'.front v'.tail buf' read
              (read_word-IsRead front tail (c ∷ buf) buf' word r there)
              (rw (parsev6_loop, no_gap, there) at h)
      ]
    ]

v6_bytes-IsAddress : (v : V6) → IsRead v → IsAddress ipv6 128 (v6_bytes v)
v6_bytes-IsAddress v r =
    let zeros : List ℕ = replicate (16 - length v.front) 0 in
    let t : List ℕ = tail_of v in
    let room = r.room in
    let l1 = length-append v.front zeros in
    let l2 = length-replicate {A = ℕ} (16 - length v.front) 0 in
    let l3 = length-write_at t (v.front ++ zeros) (16 - length t) in
    (
      omega arith,
      (
        All-write_at (λ n. n < 2 ^ 8) (v.front ++ zeros) (16 - length t) t
            (All-append (λ n. n < 2 ^ 8) v.front zeros r.front_bytes
              (zeros-AreBytes (16 - length v.front)))
            r.tail_bytes,
        omega arith,
      ),
    )

pub parsev6-IsAddress : (s bytes : List ℕ) → parsev6 s ≡ some bytes → IsAddress ipv6 128 bytes
unfolding parsev6
parsev6-IsAddress s bytes h =
    elim (Option-cases (parsev6_loop (length s) (record { front = []; tail = none }) s)) [
      | inl odd ↦ absurd (none-some (rw (parsev6, odd) at h))
      | inr (read, done) ↦
          let r : IsRead (record { front = []; tail = none }) = record {
            front_bytes = tt;
            tail_bytes = tt;
            room = omega arith;
            even = refl;
          } in
          subst (IsAddress ipv6 128) (some-some (rw (parsev6, done) at h))
            (v6_bytes-IsAddress read (loop-IsRead (length s) [] none s read r done))
    ]
