-- ===== src/Util/Basename.antt =====
-- The base name that util.c finds in a path.
use poser.Prelude.{
  ℕ, zero, suc, ◌+◌, ◌≤◌, ◌≡◌, refl, sym, ap, ◌∙◌, inl, inr, List, [], ◌∷◌, ◌++◌, none, some, false,
  ◌==◌, if◌then◌else◌, length, All, length-append, Bool-cases, arith,
}
use poser.Util.{after_slash, basename_loop, basename}

-- The path has no `/`.
abbrev pub HasNoSlash : List ℕ → Type 0
HasNoSlash s = All (λ c. (c == b'/') ≡ false) s

after_slash-HasNoSlash : (base : List ℕ) → HasNoSlash base → after_slash base ≡ none
unfolding after_slash
after_slash-HasNoSlash [] a = refl
after_slash-HasNoSlash (c ∷ base) (h, a) = rw (h, after_slash-HasNoSlash base a) refl

loop-HasNoSlash : (fuel : ℕ) (base : List ℕ) → HasNoSlash base → basename_loop fuel base ≡ base
unfolding basename_loop
loop-HasNoSlash zero base a = refl
loop-HasNoSlash (suc fuel) base a = rw (basename_loop, after_slash-HasNoSlash base a) refl

-- There is a `/`, and what follows the first one ends alike.
after_slash-append :
    (dir base : List ℕ) → (rest : List ℕ) × (after_slash (dir ++ b'/' ∷ base) ≡ some rest)
unfolding after_slash
after_slash-append [] base = (base, refl)
after_slash-append (c ∷ dir) base =
    let later = after_slash-append dir base in
    elim (Bool-cases (c == b'/')) [
      | inl slash ↦ (dir ++ b'/' ∷ base, rw slash refl)
      | inr other ↦ (later.0, rw other later.1)
    ]

loop-step :
    (fuel : ℕ) (path rest : List ℕ)
    → after_slash path ≡ some rest
    → basename_loop (suc fuel) path ≡ basename_loop fuel rest
unfolding basename_loop
loop-step fuel path rest h = rw (basename_loop, h) refl

loop-append :
    (fuel : ℕ) (dir base : List ℕ)
    → HasNoSlash base
    → length dir ≤ fuel
    → basename_loop (suc fuel) (dir ++ b'/' ∷ base) ≡ base
unfolding after_slash
loop-append fuel [] base a h = loop-step fuel (b'/' ∷ base) base refl ∙ loop-HasNoSlash fuel base a
loop-append zero (c ∷ dir) base a h = absurd (omega arith)
loop-append (suc fuel) (c ∷ dir) base a h =
    let path : List ℕ = dir ++ b'/' ∷ base in
    elim (Bool-cases (c == b'/')) [
      | inl slash ↦
          loop-step (suc fuel) (c ∷ path) path (rw slash refl)
          ∙ loop-append fuel dir base a (omega arith)
      | inr other ↦
          let (rest, there) = after_slash-append dir base in
          loop-step (suc fuel) (c ∷ path) rest (rw other there)
          ∙ sym (loop-step (suc fuel) path rest there)
          ∙ loop-append (suc fuel) dir base a (omega arith)
    ]

abbrev or_dot : List ℕ → List ℕ
or_dot [] = b'.' ∷ []
or_dot (c ∷ name) = c ∷ name

basename-or_dot :
    (path name : List ℕ) → basename_loop (length path) path ≡ name → basename path ≡ or_dot name
unfolding basename
basename-or_dot path [] h = rw (h, basename) refl
basename-or_dot path (c ∷ name) h = rw (h, basename) refl

-- `PSC_basename` gives what follows the last `/` of a path, and `.` where that is empty; a path
-- without a `/` is its own base name.
pub basename-last :
    (dir base : List ℕ)
    → HasNoSlash base
    → (basename (dir ++ b'/' ∷ base) ≡ (if length base == 0 then b'.' ∷ [] else base))
      × (basename base ≡ (if length base == 0 then b'.' ∷ [] else base))
basename-last dir base a =
    let path : List ℕ = dir ++ b'/' ∷ base in
    let size : suc (length dir + length base) ≡ length path =
      omega (arith, length-append dir (b'/' ∷ base)) in
    let named : (name : List ℕ) → or_dot name ≡ (if length name == 0 then b'.' ∷ [] else name) =
      λ name. same name in
    (
      basename-or_dot path base (
            ap (λ k. basename_loop k path) (sym size)
            ∙ loop-append (length dir + length base) dir base a (omega arith))
          ∙ same base,
      basename-or_dot base base (loop-HasNoSlash (length base) base a) ∙ same base,
    )
  where
    same : (name : List ℕ) → or_dot name ≡ (if length name == 0 then b'.' ∷ [] else name)
    same [] = refl
    same (c ∷ name) =
        let some_there : (suc (length name) == 0) ≡ false = ground arith in rw some_there refl
