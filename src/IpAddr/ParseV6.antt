-- ===== src/IpAddr/ParseV6.antt =====
-- Reading the words of an IPv6 address in ipaddr.c.
use poser.Prelude.{
  ℕ, zero, suc, ◌+◌, ◌*◌, ◌/◌, ◌%◌, ◌^◌, ◌≤◌, ◌<◌, ◌≡◌, refl, sym, ap, subst, ◌∙◌, inr, List, [],
  ◌∷◌, ◌++◌, Option, none, some, true, false, ltb, length, All, append_assoc, append-nil,
  length-append, lt→ltb, arith,
}
use poser.Prelude.Int.{pos}
use poser.Prelude.Numerals.{digit, strtol, numeral}
use poser.Prelude.ReadBack.{plain, stops, numeral-Written, strtol-numeral}
use poser.IpAddr.{V6, tail_of, add_word, at_gap, at_end, skip_colon, read_word, parsev6_loop}
use poser.IpAddr.PrintV6.{more, lead}

cons_nil : {A : Type 0} {x : A} {xs : List A} → x ∷ xs ≡ [] → ⊥
cons_nil e = cc

-- What may stand behind printed words: nothing, or a gap.
abbrev pub IsBack : List ℕ → Type 0
IsBack [] = Unit
IsBack (a ∷ []) = ⊥
IsBack (a ∷ b ∷ rest) = (a ≡ b':') × (b ≡ b':')

-- the words that fit into 16 bits
abbrev pub AreWords : List ℕ → Type 0
AreWords ws = All (λ w. w < 2 ^ 16) ws

abbrev pub filled : V6 → ℕ
filled v = length v.front + length (tail_of v)

filled-add :
    (w : ℕ) (f : List ℕ) (t : Option (List ℕ))
    → filled (add_word w (record { front = f; tail = t }))
      ≡ filled (record { front = f; tail = t }) + 2
filled-add w f none = omega (arith, length-append f (w / 2 ^ 8 ∷ w % 2 ^ 8 ∷ []))
filled-add w f (some t) = omega (arith, length-append t (w / 2 ^ 8 ∷ w % 2 ^ 8 ∷ []))

filled-add_word : (w : ℕ) (v : V6) → filled (add_word w v) ≡ filled v + 2
filled-add_word w v = filled-add w v.front v.tail

-- A string that is printed from a word has a plain character at its start.
abbrev pub StartsPlain : List ℕ → Type 0
StartsPlain s = (h : ℕ) × (t : List ℕ) × (s ≡ h ∷ t) × (plain h ≡ true)

numeral-StartsPlain : (w : ℕ) (rest : List ℕ) → StartsPlain (numeral 16 w ++ rest)
numeral-StartsPlain w rest =
    let n = numeral-Written (inr refl) w in
    let p = subst (All (λ c. plain c ≡ true)) n.parts n.all_plain in
    (n.head, n.tail ++ rest, ap (λ t. t ++ rest) n.parts, p.0)

at_gap-start :
    (f : List ℕ) (u : Option (List ℕ)) (h : ℕ) (t : List ℕ)
    → plain h ≡ true
    → at_gap (record { front = f; tail = u }) (h ∷ t) ≡ none
at_gap-start f u h [] p = refl
at_gap-start f none h (b ∷ t) p = ground arith
at_gap-start f (some v) h (b ∷ t) p = refl

at_gap-plain : (v : V6) (s : List ℕ) → StartsPlain s → at_gap v s ≡ none
at_gap-plain v s (h, t, e, p) = rw e (at_gap-start v.front v.tail h t p)

read_word-known :
    (v : V6) (s rest : List ℕ) (w : ℕ)
    → strtol 16 s ≡ some (some (pos w), rest)
    → ltb 0xffff w ≡ false
    → at_end rest ≡ true
    → ltb (filled v) 16 ≡ true
    → read_word v s ≡ some (w, skip_colon rest)
read_word-known v s rest w read fits end room = rw (read, fits, end, room, read_word) refl

read_word-numeral :
    (v : V6) (w : ℕ) (rest : List ℕ)
    → w < 2 ^ 16
    → stops 16 rest ≡ true
    → at_end rest ≡ true
    → filled v < 16
    → read_word v (numeral 16 w ++ rest) ≡ some (w, skip_colon rest)
read_word-numeral v w rest word st end room =
    read_word-known v (numeral 16 w ++ rest) rest w
      (strtol-numeral (inr refl) w rest (omega arith) st) (ground arith) end
      (lt→ltb (filled v) 16 room)

loop-word :
    (rounds : ℕ) (v : V6) (s : List ℕ) (w : ℕ) (buf : List ℕ)
    → StartsPlain s
    → read_word v s ≡ some (w, buf)
    → parsev6_loop (suc rounds) v s ≡ parsev6_loop rounds (add_word w v) buf
unfolding parsev6_loop
loop-word rounds v [] w buf (h, t, e, p) read = absurd (cons_nil (sym e))
loop-word rounds v (c ∷ s) w buf starts read =
    rw (at_gap-plain v (c ∷ s) starts, read, parsev6_loop) refl

loop-done : (rounds : ℕ) (v : V6) → parsev6_loop rounds v [] ≡ some v
unfolding parsev6_loop
loop-done zero v = refl
loop-done (suc rounds) v = refl

loop-gap :
    (rounds : ℕ) (front rest : List ℕ)
    → parsev6_loop (suc rounds) (record { front = front; tail = none }) (b':' ∷ b':' ∷ rest)
      ≡ parsev6_loop rounds (record { front = front; tail = some [] }) rest
unfolding parsev6_loop
loop-gap rounds front rest = refl

-- the words added one by one, and the rounds that they take
abbrev pub add_words : List ℕ → V6 → V6
add_words [] v = v
add_words (w ∷ ws) v = add_words ws (add_word w v)

abbrev pub rounds_for : List ℕ → ℕ → ℕ
rounds_for [] k = k
rounds_for (w ∷ ws) k = suc (rounds_for ws k)

back-stops :
    (back : List ℕ)
    → IsBack back
    → (stops 16 back ≡ true) × (at_end back ≡ true) × (skip_colon back ≡ back)
unfolding digit
back-stops [] b = (refl, refl, refl)
back-stops (x ∷ []) b = absurd b
back-stops (x ∷ y ∷ rest) (c, d) = rw (c, d) (refl, refl, refl)

skip-plain : (s : List ℕ) → StartsPlain s → skip_colon (b':' ∷ s) ≡ s
skip-plain s (h, t, e, p) = rw e (ground arith)

colon-stops : (s : List ℕ) → stops 16 (b':' ∷ s) ≡ true
unfolding digit
colon-stops s = refl

-- Printed words are read, one round each.
pub loop-lead :
    (ws back : List ℕ) (k : ℕ) (v : V6)
    → AreWords ws
    → filled v + 2 * length ws ≤ 16
    → IsBack back
    → 0 < length ws
    → parsev6_loop (rounds_for ws k) v (lead ws ++ back) ≡ parsev6_loop k (add_words ws v) back
loop-lead [] back k v a room b some_word = absurd (omega arith)
loop-lead (w ∷ []) back k v (word, _) room b some_word =
    let (st, end, same) = back-stops back b in
    ap (parsev6_loop (suc k) v) (append_assoc (numeral 16 w) [] back)
    ∙ loop-word k v (numeral 16 w ++ back) w (skip_colon back) (numeral-StartsPlain w back)
        (read_word-numeral v w back word st end (omega arith))
    ∙ ap (parsev6_loop k (add_word w v)) same
loop-lead (w ∷ x ∷ ws) back k v (word, a) room b some_word =
    let next : List ℕ = lead (x ∷ ws) ++ back in
    let shape : numeral 16 w ++ more (x ∷ ws) ++ back ≡ numeral 16 w ++ (b':' ∷ next) =
      append_assoc (numeral 16 w) (more (x ∷ ws)) back in
    let starts : StartsPlain next =
      subst StartsPlain (sym (append_assoc (numeral 16 x) (more ws) back))
        (numeral-StartsPlain x (more ws ++ back)) in
    ap (parsev6_loop (rounds_for (w ∷ x ∷ ws) k) v) shape
    ∙ loop-word (rounds_for (x ∷ ws) k) v (numeral 16 w ++ (b':' ∷ next)) w
        (skip_colon (b':' ∷ next)) (numeral-StartsPlain w (b':' ∷ next))
        (read_word-numeral v w (b':' ∷ next) word (colon-stops next) refl (omega arith))
    ∙ ap (parsev6_loop (rounds_for (x ∷ ws) k) (add_word w v)) (skip-plain next starts)
    ∙ loop-lead (x ∷ ws) back k (add_word w v) a (omega (arith, filled-add_word w v)) b
        (omega arith)

-- the bytes of words
abbrev pub bytes_of : List ℕ → List ℕ
bytes_of [] = []
bytes_of (w ∷ ws) = w / 2 ^ 8 ∷ w % 2 ^ 8 ∷ bytes_of ws

add_words-front :
    (ws f : List ℕ)
    → add_words ws (record { front = f; tail = none })
      ≡ record { front = f ++ bytes_of ws; tail = none }
add_words-front [] f = ap (λ g. record { front = g; tail = none }) (sym (append-nil f))
add_words-front (w ∷ ws) f =
    add_words-front ws (f ++ w / 2 ^ 8 ∷ w % 2 ^ 8 ∷ [])
    ∙ ap (λ g. record { front = g; tail = none })
        (append_assoc f (w / 2 ^ 8 ∷ w % 2 ^ 8 ∷ []) (bytes_of ws))

add_words-tail :
    (ws f t : List ℕ)
    → add_words ws (record { front = f; tail = some t })
      ≡ record { front = f; tail = some (t ++ bytes_of ws) }
add_words-tail [] f t = ap (λ g. record { front = f; tail = some g }) (sym (append-nil t))
add_words-tail (w ∷ ws) f t =
    add_words-tail ws f (t ++ w / 2 ^ 8 ∷ w % 2 ^ 8 ∷ [])
    ∙ ap (λ g. record { front = f; tail = some g })
        (append_assoc t (w / 2 ^ 8 ∷ w % 2 ^ 8 ∷ []) (bytes_of ws))

pub length-rounds_for : (ws : List ℕ) (k : ℕ) → rounds_for ws k ≡ length ws + k
length-rounds_for [] k = omega arith
length-rounds_for (w ∷ ws) k = omega (arith, length-rounds_for ws k)

-- Printed words are read in front mode, also if there are none.
loop-front :
    (ws back : List ℕ) (k : ℕ)
    → AreWords ws
    → length ws ≤ 8
    → IsBack back
    → parsev6_loop (rounds_for ws k) (record { front = []; tail = none }) (lead ws ++ back)
      ≡ parsev6_loop k (record { front = bytes_of ws; tail = none }) back
loop-front [] back k a room b = refl
loop-front (w ∷ ws) back k a room b =
    loop-lead (w ∷ ws) back k (record { front = []; tail = none }) a (omega arith) b (omega arith)
    ∙ ap (λ v. parsev6_loop k v back) (add_words-front (w ∷ ws) [])

loop-tail :
    (ws f : List ℕ) (k : ℕ)
    → AreWords ws
    → length f + 2 * length ws ≤ 16
    → parsev6_loop (rounds_for ws k) (record { front = f; tail = some [] }) (lead ws)
      ≡ some (record { front = f; tail = some (bytes_of ws) })
loop-tail [] f k a room = loop-done k (record { front = f; tail = some [] })
loop-tail (w ∷ ws) f k a room =
    ap (parsev6_loop (rounds_for (w ∷ ws) k) (record { front = f; tail = some [] }))
      (sym (append-nil (lead (w ∷ ws))))
    ∙ loop-lead (w ∷ ws) [] k (record { front = f; tail = some [] }) a (omega arith) tt
        (omega arith)
    ∙ loop-done k (add_words (w ∷ ws) (record { front = f; tail = some [] }))
    ∙ ap some (add_words-tail (w ∷ ws) f [])

pub length-bytes_of : (ws : List ℕ) → length (bytes_of ws) ≡ 2 * length ws
length-bytes_of [] = refl
length-bytes_of (w ∷ ws) = omega (arith, length-bytes_of ws)

-- The words before a gap and behind it are read.
pub loop-gapped :
    (pre suf : List ℕ) (k : ℕ)
    → AreWords pre
    → AreWords suf
    → length pre + length suf ≤ 8
    → parsev6_loop
        (rounds_for pre (suc (rounds_for suf k)))
        (record { front = []; tail = none })
        (lead pre ++ b':' ∷ b':' ∷ lead suf)
      ≡ some (record { front = bytes_of pre; tail = some (bytes_of suf) })
loop-gapped pre suf k a b room =
    loop-front pre (b':' ∷ b':' ∷ lead suf) (suc (rounds_for suf k)) a (omega arith) (refl, refl)
    ∙ loop-gap (rounds_for suf k) (bytes_of pre) (lead suf)
    ∙ loop-tail suf (bytes_of pre) k b (omega (arith, length-bytes_of pre))

-- All the words are read where there is no gap.
pub loop-whole :
    (ws : List ℕ) (k : ℕ)
    → AreWords ws
    → length ws ≤ 8
    → parsev6_loop (rounds_for ws k) (record { front = []; tail = none }) (lead ws ++ [])
      ≡ some (record { front = bytes_of ws; tail = none })
loop-whole ws k a room =
    loop-front ws [] k a room tt ∙ loop-done k (record { front = bytes_of ws; tail = none })
