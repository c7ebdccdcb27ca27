-- ===== src/IpAddr/Gap.antt =====
-- The gap that `toString` of ipaddr.c leaves out: words that are 0.
use native.Mathlib.Decide.{dec_lt}
use poser.Prelude.{
  ℕ, zero, suc, ◌+◌, ◌≤◌, ◌<◌, ◌≡◌, refl, sym, ap, subst, ◌∙◌, inl, inr, List, [], ◌∷◌, ◌++◌, ltb,
  ◌==◌, length, get_or, take, drop, replicate, Bool-cases, ==→eq, ltb→le, arith,
}
use poser.IpAddr.{find_gap}

-- The words from `gap` on are 0, as many as the gap is long, and it ends at the word `i` at most.
pub record IsGap (words : List ℕ) (i : ℕ) (g : ℕ × ℕ) : Type 0 where
  pub within : g.0 + g.1 ≤ i
  pub zeros : (k : ℕ) → g.0 ≤ k → k < g.0 + g.1 → get_or words k 0 ≡ 0

grow : (words : List ℕ) (i j : ℕ) (g : ℕ × ℕ) → i ≤ j → IsGap words i g → IsGap words j g
grow words i j g h v = record { within = omega (arith, v.within); zeros = v.zeros }

find_gap-IsGap :
    (words ws : List ℕ) (i gap gaplen : ℕ)
    → ((k : ℕ) → get_or ws k 0 ≡ get_or words (i + k) 0)
    → IsGap words i (gap, gaplen)
    → IsGap words (i + length ws) (find_gap i gap gaplen ws)
unfolding find_gap
find_gap-IsGap words [] i gap gaplen same v = grow words i (i + 0) (gap, gaplen) (omega arith) v
find_gap-IsGap words (w ∷ ws) i gap gaplen same v =
    let later : (k : ℕ) → get_or ws k 0 ≡ get_or words (i + 1 + k) 0 = λ k.
      let e : i + suc k ≡ i + 1 + k = omega arith in same (suc k) ∙ ap (λ m. get_or words m 0) e in
    let ends : i + 1 + length ws ≡ i + suc (length ws) = omega arith in
    let here : w ≡ get_or words i 0 = same 0 ∙ ap (λ m. get_or words m 0) (omega_zero i) in
    elim (Bool-cases (w == 0)) [
      | inr nonzero ↦
          let v' = grow words i (i + 1) (gap, gaplen) (omega arith) v in
          rw (nonzero, find_gap)
            (subst (λ m. IsGap words m (find_gap (i + 1) gap gaplen ws)) ends
              (find_gap-IsGap words ws (i + 1) gap gaplen later v'))
      | inl zero_here ↦
          let none_here : get_or words i 0 ≡ 0 = sym here ∙ ==→eq w 0 zero_here in
          elim (Bool-cases (ltb (gap + gaplen) i)) [
            | inl apart ↦
                let v' : IsGap words (i + 1) (i, 1) = record {
                  within = omega arith;
                  zeros = λ k lo hi. ap (λ m. get_or words m 0) (only i k lo hi) ∙ none_here;
                } in
                rw (zero_here, apart, find_gap)
                  (subst (λ m. IsGap words m (find_gap (i + 1) i 1 ws)) ends
                    (find_gap-IsGap words ws (i + 1) i 1 later v'))
            | inr touching ↦
                let at : gap + gaplen ≡ i =
                  omega (arith, v.within, ltb→le (gap + gaplen) i touching) in
                let v' : IsGap words (i + 1) (gap, gaplen + 1) = record {
                  within = omega arith;
                  zeros = λ k lo hi. elim (dec_lt k i) [
                    | yes old ↦ v.zeros k lo (omega arith)
                    | no new ↦
                        ap (λ m. get_or words m 0) (only i k (omega arith) (omega arith))
                        ∙ none_here
                  ];
                } in
                rw (zero_here, touching, find_gap)
                  (subst (λ m. IsGap words m (find_gap (i + 1) gap (gaplen + 1) ws)) ends
                    (find_gap-IsGap words ws (i + 1) gap (gaplen + 1) later v'))
          ]
    ]
  where
    omega_zero : (i : ℕ) → i + 0 ≡ i
    omega_zero i = omega arith

    only : (i k : ℕ) → i ≤ k → k < i + 1 → k ≡ i
    only i k lo hi = omega arith

-- What the first loop of `toString` finds among all the words.
pub gap-IsGap : (words : List ℕ) → IsGap words (length words) (find_gap 0 0 0 words)
gap-IsGap words =
    let e : 0 + length words ≡ length words = omega arith in
    subst (λ m. IsGap words m (find_gap 0 0 0 words)) e
      (find_gap-IsGap words words 0 0 0 (λ k. ap (λ m. get_or words m 0) (plus k))
        (record { within = omega arith; zeros = λ k lo hi. absurd (omega arith) }))
  where
    plus : (k : ℕ) → k ≡ 0 + k
    plus k = omega arith

drop-zeros :
    (words : List ℕ) (gaplen : ℕ)
    → gaplen ≤ length words
    → ((k : ℕ) → k < gaplen → get_or words k 0 ≡ 0)
    → words ≡ replicate gaplen 0 ++ drop gaplen words
drop-zeros words zero h z = refl
drop-zeros [] (suc gaplen) h z = absurd (omega arith)
drop-zeros (w ∷ words) (suc gaplen) h z =
    cc (z 0 (omega arith), drop-zeros words gaplen (omega arith) (λ k lt. z (suc k) (omega arith)))

-- The words are those before the gap, the zeros, and those behind it.
pub split-gap :
    (words : List ℕ) (gap gaplen : ℕ)
    → gap + gaplen ≤ length words
    → ((k : ℕ) → gap ≤ k → k < gap + gaplen → get_or words k 0 ≡ 0)
    → words ≡ take gap words ++ (replicate gaplen 0 ++ drop (gap + gaplen) words)
split-gap words zero gaplen h z =
    let e : gaplen ≡ 0 + gaplen = omega arith in
    drop-zeros words gaplen (omega arith) (λ k lt. z k (omega arith) (omega arith))
    ∙ ap (λ n. replicate gaplen 0 ++ drop n words) e
split-gap [] (suc gap) gaplen h z = absurd (omega arith)
split-gap (w ∷ words) (suc gap) gaplen h z =
    let e : suc (gap + gaplen) ≡ suc gap + gaplen = omega arith in
    ap (λ t. w ∷ t)
      (split-gap words gap gaplen (omega arith) (λ k lo hi. z (suc k) (omega arith) (omega arith)))
    ∙ ap (λ n. w ∷ (take gap words ++ (replicate gaplen 0 ++ drop n (w ∷ words)))) e
