-- ===== src/Queue/Positions.antt =====
-- The cells that queue.c visits from an index on, going round at the capacity.
use poser.Prelude.{
  ℕ, zero, suc, ◌+◌, ◌-◌, ◌≤◌, ◌<◌, ◌≡◌, ◌≢◌, refl, sym, ap, ◌∙◌, List, [], ◌∷◌, ◌++◌, Option, none,
  ltb, set, get_or-set_ne, ext_get_or, if◌then◌else◌, length, get_or, arith,
}
use poser.Queue.{advance}

-- the index `k` rounds after `pos`
abbrev pub slot : ℕ → ℕ → ℕ → ℕ
slot capa pos k = if ltb (pos + k) capa then pos + k else pos + k - capa

pub slot-advance :
    (capa pos k : ℕ)
    → pos < capa
    → k < capa
    → slot capa (advance capa pos) k ≡ slot capa pos (k + 1)
slot-advance capa pos k h hk = ground arith

pub advance-slot :
    (capa pos k : ℕ)
    → pos < capa
    → k < capa
    → advance capa (slot capa pos k) ≡ slot capa pos (k + 1)
advance-slot capa pos k h hk = ground arith

pub slot-lt : (capa pos k : ℕ) → pos < capa → k ≤ capa → slot capa pos k < capa
slot-lt capa pos k h hk = ground arith

pub slot-ne : (capa pos j k : ℕ) → pos < capa → j < k → k < capa → slot capa pos j ≢ slot capa pos k
slot-ne capa pos j k h hj hk = ground arith

module _ {ℓ} {A : Type ℓ} (cells : List (Option A)) (capa : ℕ) where
  -- the `n` cells from `pos` on
  abbrev pub window : ℕ → ℕ → List (Option A)
  window pos zero = []
  window pos (suc n) = get_or cells pos none ∷ window (advance capa pos) n

  pub length-window : (pos n : ℕ) → length (window pos n) ≡ n
  length-window pos zero = refl
  length-window pos (suc n) = ap suc (length-window (advance capa pos) n)

  pub get_or-window :
      (pos n k : ℕ)
      → pos < capa
      → n ≤ capa
      → k < n
      → get_or (window pos n) k none ≡ get_or cells (slot capa pos k) none
  get_or-window pos zero k h hn hk = absurd (omega arith)
  get_or-window pos (suc n) zero h hn hk = ap (λ i. get_or cells i none) (ground arith)
  get_or-window pos (suc n) (suc k) h hn hk =
      get_or-window (advance capa pos) n k (ground arith) (omega arith) (omega arith)
      ∙ ap (λ i. get_or cells i none)
          (slot-advance capa pos k h (omega arith) ∙ ap (slot capa pos) (omega arith))

module _ {ℓ} {A : Type ℓ} where
  pub window_snoc :
      (cells : List (Option A)) (capa pos n : ℕ)
      → pos < capa
      → n < capa
      → window cells capa pos (suc n)
        ≡ window cells capa pos n ++ get_or cells (slot capa pos n) none ∷ []
  window_snoc cells capa pos zero h hn = let e : slot capa pos 0 ≡ pos = ground arith in rw e
  window_snoc cells capa pos (suc n) h hn = ap (◌∷◌ (get_or cells pos none)) (
      window_snoc cells capa (advance capa pos) n (ground arith) (omega arith)
      ∙ ap (λ i. window cells capa (advance capa pos) n ++ get_or cells i none ∷ [])
          (slot-advance capa pos n h (omega arith) ∙ ap (slot capa pos) (omega arith)))

  pub window-set :
      (cells : List (Option A)) (capa pos n : ℕ) (e : Option A)
      → pos < capa
      → n < capa
      → window (set cells (slot capa pos n) e) capa pos n ≡ window cells capa pos n
  window-set cells capa pos n e h hn =
      ext_get_or _ _ none
        (length-window (set cells (slot capa pos n) e) capa pos n
          ∙ sym (length-window cells capa pos n))
        (λ k hk.
          let small : k < n =
            omega (arith, length-window (set cells (slot capa pos n) e) capa pos n) in
          get_or-window (set cells (slot capa pos n) e) capa pos n k h (omega arith) small
          ∙ get_or-set_ne cells (slot capa pos n) (slot capa pos k) e none
              (λ p. slot-ne capa pos k n h small hn (sym p))
          ∙ sym (get_or-window cells capa pos n k h (omega arith) small))

  -- A write to a cell changes nothing behind it.
  pub window-set_before :
      (cells : List (Option A)) (capa pos n : ℕ) (e : Option A)
      → pos < capa
      → n < capa
      → window (set cells pos e) capa (advance capa pos) n ≡ window cells capa (advance capa pos) n
  window-set_before cells capa pos n e h hn =
      let after : ℕ = advance capa pos in
      let inside : after < capa = ground arith in
      ext_get_or _ _ none
        (length-window (set cells pos e) capa after n ∙ sym (length-window cells capa after n))
        (λ k hk.
          let small : k < n = omega (arith, length-window (set cells pos e) capa after n) in
          get_or-window (set cells pos e) capa after n k inside (omega arith) small
          ∙ get_or-set_ne cells pos (slot capa after k) e none (ground arith)
          ∙ sym (get_or-window cells capa after n k inside (omega arith) small))
