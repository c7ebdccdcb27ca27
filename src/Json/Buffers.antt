-- ===== src/Json/Buffers.antt =====
-- The serializer of json.c on a buffer that grows and on one of a fixed size.
use poser.Prelude.{
  ℕ, zero, suc, ◌+◌, ◌-◌, ◌≤◌, ◌<◌, ◌≡◌, refl, sym, ap, ap₂, ◌∙◌, inl, inr, List, [], ◌∷◌, ◌++◌,
  none, some, Bool, true, false, ltb, leb, ◌==◌, if◌then◌else◌, length, take, append_assoc,
  append-nil, length-append, length-take, Bool-cases, ltb→le, arith,
}
use poser.Json.{
  Json, null, boolean, integer, real, string, array, object, Items, nil, cons, Members, end, member,
  Doubles,
}
use poser.Json.Serializer.{
  Buf, Outcome, done, full, crashed, and_then, append_chr, append_chars, comma,
  serialize_plain_string, serialize_items, serialize_members, serialize, serialize_to,
  serialize_new,
}
use poser.Json.Text.{
  quoted, text, is_filled, are_filled, are_members_filled, serialize_plain_string-quoted,
  serialize-text,
}

abbrev growing : List ℕ → ℕ → Buf
growing written bufsz = record { text = written; bufsz = bufsz; owned = true }

-- A buffer that grows takes all characters.
append_chars-owned :
    (cs : List ℕ) (written : List ℕ) (bufsz : ℕ)
    → (bufsz' : ℕ) × (append_chars (record { text = written; bufsz = bufsz; owned = true }) cs
        ≡ done (record { text = written ++ cs; bufsz = bufsz'; owned = true }))
unfolding append_chars append_chr
append_chars-owned [] written bufsz = (
  bufsz,
  ap (λ t. done (record { text = t; bufsz = bufsz; owned = true })) (sym (append-nil written)),
)
append_chars-owned (c ∷ cs) written bufsz =
    let bufsz1 = if length written == bufsz then bufsz + 1024 else bufsz in
    let (bufsz', rest) = append_chars-owned cs (written ++ c ∷ []) bufsz1 in
    (
      bufsz',
      rest
          ∙ ap (λ t. done (record { text = t; bufsz = bufsz'; owned = true }))
              (append_assoc written (c ∷ []) cs),
    )

append_chr-room :
    (c : ℕ) (written : List ℕ) (bufsz : ℕ)
    → length written + 1 < bufsz
    → append_chr (record { text = written; bufsz = bufsz; owned = false }) c
      ≡ done (record { text = written ++ c ∷ []; bufsz = bufsz; owned = false })
unfolding append_chr
append_chr-room c written bufsz h = ground arith

append_chr-full :
    (c : ℕ) (written : List ℕ) (bufsz : ℕ)
    → bufsz ≤ length written + 1
    → append_chr (record { text = written; bufsz = bufsz; owned = false }) c
      ≡ full (record { text = written; bufsz = bufsz; owned = false })
unfolding append_chr
append_chr-full c written bufsz h = ground arith

leb-suc : (n k : ℕ) → leb (suc n) (suc k) ≡ leb n k
leb-suc n k = ground arith

abbrev fixed : List ℕ → ℕ → Buf
fixed written bufsz = record { text = written; bufsz = bufsz; owned = false }

-- A buffer of a fixed size takes as many as it can hold before a terminator.
append_chars-fixed :
    (cs : List ℕ) (written : List ℕ) (k bufsz : ℕ)
    → bufsz ≡ length written + 1 + k
    → append_chars (fixed written bufsz) cs ≡ (
        if leb (length cs) k
        then done (fixed (written ++ cs) bufsz)
        else full (fixed (written ++ take k cs) bufsz))
unfolding append_chars
append_chars-fixed [] written k bufsz h =
    let all_fit : leb 0 k ≡ true = ground arith in
    rw all_fit (ap (λ t. done (fixed t bufsz)) (sym (append-nil written)))
append_chars-fixed (c ∷ cs) written zero bufsz h =
    let none_fits : leb (suc (length cs)) 0 ≡ false = ground arith in
    rw (append_chr-full c written bufsz (omega arith), none_fits)
      (ap (λ t. full (fixed t bufsz)) (sym (append-nil written)))
append_chars-fixed (c ∷ cs) written (suc k) bufsz h =
    let l = length-append written (c ∷ []) in
    rw (append_chr-room c written bufsz (omega arith), leb-suc (length cs) k)
      (append_chars-fixed cs (written ++ c ∷ []) k bufsz (omega arith)
        ∙ ap₂ (λ t u. if leb (length cs) k then done (fixed t bufsz) else full (fixed u bufsz))
            (append_assoc written (c ∷ []) cs) (append_assoc written (c ∷ []) (take k cs)))

Grows : (Buf → Outcome) → Type 0
Grows f = (w : List ℕ) (n : ℕ) → (w' : List ℕ) × (n' : ℕ) × (f (growing w n) ≡ done (growing w' n'))

Crashes : (Buf → Outcome) → Type 0
Crashes f = (w : List ℕ) (n : ℕ) → f (growing w n) ≡ crashed

then-Crashes : (f g : Buf → Outcome) → Grows f → Crashes g → Crashes (λ b. and_then (f b) g)
unfolding Grows Crashes
then-Crashes f g h k w n = let (w', n', e) = h w n in ap (λ o. and_then o g) e ∙ k w' n'

first-Crashes : (f g : Buf → Outcome) → Crashes f → Crashes (λ b. and_then (f b) g)
unfolding Crashes
first-Crashes f g h w n = ap (λ o. and_then o g) (h w n)

append_chr-Grows : (c : ℕ) → Grows (λ b. append_chr b c)
unfolding append_chr Grows
append_chr-Grows c w n = (w ++ c ∷ [], (if length w == n then n + 1024 else n), refl)

comma-Grows : (first : Bool) → Grows (comma first)
unfolding Grows
comma-Grows true w n = (w, n, refl)
comma-Grows false w n = append_chr-Grows b',' w n

plain_string-Grows : (s : List ℕ) → Grows (λ b. serialize_plain_string b s)
unfolding Grows
plain_string-Grows s w n =
    let (n', e) = append_chars-owned (quoted s) w n in
    (w ++ quoted s, n', serialize_plain_string-quoted s (growing w n) ∙ e)

ending : (t : List ℕ) (n k : ℕ) → length t ≡ n → length (t ++ 0 ∷ []) + k ≡ n + 1 + k
ending t n k h = omega (arith, length-append t (0 ∷ []))

module _ {F : Type 0} (d : Doubles F) where
  serialize-Grows : (v : Json F) → is_filled v ≡ true → Grows (serialize d v)
  unfolding Grows
  serialize-Grows v h w n =
      let (n', e) = append_chars-owned (text d v) w n in
      (w ++ text d v, n', serialize-text d v (growing w n) h ∙ e)

  mutual
    unfolding serialize is_filled Crashes

    serialize-Crashes : (v : Json F) → is_filled v ≡ false → Crashes (serialize d v)
    serialize-Crashes null h = absurd (cc)
    serialize-Crashes (boolean b) h = absurd (cc)
    serialize-Crashes (integer z) h = absurd (cc)
    serialize-Crashes (real x) h = absurd (cc)
    serialize-Crashes (string str) h = absurd (cc)
    serialize-Crashes (array nil) h =
        then-Crashes (λ b. append_chr b b'[') (λ _. crashed) (append_chr-Grows b'[') (λ _ _. refl)
    serialize-Crashes (array (cons x xs)) h =
        then-Crashes (λ b. append_chr b b'[')
          (λ b1. and_then (serialize_items d true (cons x xs) b1) (λ b2. append_chr b2 b']'))
          (append_chr-Grows b'[')
          (first-Crashes (serialize_items d true (cons x xs)) (λ b2. append_chr b2 b']')
            (items-Crashes true (cons x xs) h))
    serialize-Crashes (object end) h =
        then-Crashes (λ b. append_chr b b'{') (λ _. crashed) (append_chr-Grows b'{') (λ _ _. refl)
    serialize-Crashes (object (member key v ms)) h =
        then-Crashes (λ b. append_chr b b'{')
          (λ b1.
            and_then (serialize_members d true (member key v ms) b1) (λ b2. append_chr b2 b'}'))
          (append_chr-Grows b'{')
          (first-Crashes (serialize_members d true (member key v ms)) (λ b2. append_chr b2 b'}')
            (members-Crashes true (member key v ms) h))

    items-Crashes :
        (first : Bool) (xs : Items F) → are_filled xs ≡ false → Crashes (serialize_items d first xs)
    items-Crashes first nil h = absurd (cc)
    items-Crashes first (cons x xs) h =
        then-Crashes (comma first) (λ b1. and_then (serialize d x b1) (serialize_items d false xs))
          (comma-Grows first)
          (elim (Bool-cases (is_filled x)) [
            | inr bad ↦
                first-Crashes (serialize d x) (serialize_items d false xs) (serialize-Crashes x bad)
            | inl good ↦
                then-Crashes (serialize d x) (serialize_items d false xs) (serialize-Grows x good)
                  (items-Crashes false xs (rw good at h))
          ])

    members-Crashes :
        (first : Bool) (ms : Members F)
        → are_members_filled ms ≡ false
        → Crashes (serialize_members d first ms)
    members-Crashes first end h = absurd (cc)
    members-Crashes first (member key v ms) h =
        let rest : Buf → Outcome = serialize_members d false ms in
        let tail : Buf → Outcome = λ b3. and_then (serialize d v b3) rest in
        then-Crashes (comma first)
          (λ b1.
            and_then (serialize_plain_string b1 key) (λ b2. and_then (append_chr b2 b':') tail))
          (comma-Grows first)
          (then-Crashes (λ b1. serialize_plain_string b1 key)
            (λ b2. and_then (append_chr b2 b':') tail) (plain_string-Grows key)
            (then-Crashes (λ b2. append_chr b2 b':') tail (append_chr-Grows b':')
              (elim (Bool-cases (is_filled v)) [
                | inr bad ↦ first-Crashes (serialize d v) rest (serialize-Crashes v bad)
                | inl good ↦
                    then-Crashes (serialize d v) rest (serialize-Grows v good)
                      (members-Crashes false ms (rw good at h))
              ])))

  -- `PSC_JsonSerializer_serialize` gives the text of a value with the terminator behind it, but reads a
  -- null pointer where an array or an object in the value is empty.
  pub serialize_new-text :
      (v : Json F) → serialize_new d v ≡ (if is_filled v then some (text d v ++ 0 ∷ []) else none)
  unfolding serialize_new Crashes
  serialize_new-text v = elim (Bool-cases (is_filled v)) [
    | inl good ↦
        let t : List ℕ = text d v in
        let (bufsz, all) = append_chars-owned t [] 0 in
        let e = serialize-text d v (growing [] 0) good ∙ all in
        rw (serialize_new, good, e) (unfold append_chr in refl)
    | inr bad ↦ rw (serialize_new, bad, serialize-Crashes v bad [] 0) refl
  ]

  -- Into a buffer of a size above 0, `PSC_JsonSerializer_serializeTo` writes the text of a value without
  -- empty arrays or objects, up to one character less than the buffer has, and the terminator; it
  -- answers how many characters that are, and the size and one more where the text is cut.
  pub serialize_to-text :
      (v : Json F) (bufsz : ℕ)
      → is_filled v ≡ true
      → 0 < bufsz
      → serialize_to d bufsz v ≡ (
          if ltb (length (text d v)) bufsz
          then some (text d v ++ 0 ∷ [], length (text d v) + 1)
          else some (take (bufsz - 1) (text d v) ++ 0 ∷ [], bufsz + 1))
  unfolding serialize_to
  serialize_to-text v bufsz h room =
      let t : List ℕ = text d v in
      let e =
        serialize-text d v (fixed [] bufsz) h
        ∙ append_chars-fixed t [] (bufsz - 1) bufsz (omega arith) in
      elim (Bool-cases (ltb (length t) bufsz)) [
        | inl fits ↦
            let le : leb (length t) (bufsz - 1) ≡ true = ground arith in
            rw (serialize_to, e, le, fits)
              (ap (λ n. some (t ++ 0 ∷ [], n)) (ending t (length t) 0 refl ∙ omega arith))
        | inr cut ↦
            let gt : leb (length t) (bufsz - 1) ≡ false = ground arith in
            let l : length (take (bufsz - 1) t) ≡ bufsz - 1 =
              omega (arith, length-take (bufsz - 1) t, ltb→le (length t) bufsz cut) in
            let some_left : ltb (length (take (bufsz - 1) t)) bufsz ≡ true = ground arith in
            rw (serialize_to, e, gt, cut, some_left)
              (ap (λ n. some (take (bufsz - 1) t ++ 0 ∷ [], n))
                (ending (take (bufsz - 1) t) (bufsz - 1) 1 l ∙ omega arith))
      ]
