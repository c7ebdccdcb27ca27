-- ===== src/PscList/Words.antt =====
-- The words that `PSC_List_fromString` of list.c makes of a string.
use poser.Prelude.{
  ℕ, ◌≡◌, ◌≢◌, refl, sym, subst, inl, inr, List, [], ◌∷◌, ◌++◌, Option, none, some, Bool, true,
  false, map, append-nil, append_assoc, map-append, All, Bool-cases,
}
use poser.Prelude.Owned.{Owned, Deleter}
use poser.PscList.{PscList, append, add_word, from_string_loop, from_string}
use poser.PscList.Models.{Models, create-Models, append-Models}

-- a word as an item of the list
abbrev pub owned_by : Deleter → List ℕ → Owned (List ℕ)
owned_by free w = record { obj = w; deleter = some free }

-- A word has a character, and no delimiter.
pub record IsWord (is_delim : ℕ → Bool) (w : List ℕ) : Type 0 where
  pub nonempty : w ≢ []
  pub free_of : All (λ c. is_delim c ≡ false) w

-- The list is there exactly if there are words, and holds them.
abbrev pub HoldsWords : Deleter → List (List ℕ) → Option (PscList (List ℕ)) → Type 0
HoldsWords free ws none = ws ≡ []
HoldsWords free ws (some l) = (ws ≢ []) × Models (map (owned_by free) ws) l

-- The string ends here, or goes on with a delimiter.
abbrev pub EndsWord : (ℕ → Bool) → List ℕ → Type 0
EndsWord is_delim [] = Unit
EndsWord is_delim (c ∷ s) = is_delim c ≡ true

-- The words of a string: each is as long as it can be, and only delimiters stand before, between and
-- behind them.
pub data Words (is_delim : ℕ → Bool) : List ℕ → List (List ℕ) → Type 0 where
  no_more : Words is_delim [] []
  passes :
      (c : ℕ) (s : List ℕ) (ws : List (List ℕ))
      → is_delim c ≡ true
      → Words is_delim s ws
      → Words is_delim (c ∷ s) ws
  cuts :
      (w s : List ℕ) (ws : List (List ℕ))
      → IsWord is_delim w
      → EndsWord is_delim s
      → Words is_delim s ws
      → Words is_delim (w ++ s) (w ∷ ws)

-- A list of exactly the words of a string, in order.
pub record Cut (is_delim : ℕ → Bool) (free : Deleter) (str : List ℕ)
    (list : Option (PscList (List ℕ))) : Type 0 where
  pub words : List (List ℕ)
  pub split : Words is_delim str words
  pub held : HoldsWords free words list

All-append :
    {A : Type 0} (P : A → Type 0) (xs : List A) (y : A) → All P xs → P y → All P (xs ++ y ∷ [])
All-append P [] y h k = (k, tt)
All-append P (x ∷ xs) y (p, h) k = (p, All-append P xs y h k)

not_nil : {A : Type 0} (xs : List A) (x : A) → xs ++ x ∷ [] ≢ []
not_nil [] x e = cc
not_nil (y ∷ ys) x e = cc

cons_not_nil : {A : Type 0} (x : A) (xs : List A) → x ∷ xs ≢ []
cons_not_nil x xs e = cc

module _ (is_delim : ℕ → Bool) (free : Deleter) where
  HoldsWords-append :
      (ws : List (List ℕ)) (c : ℕ) (cs : List ℕ) (list : Option (PscList (List ℕ)))
      → HoldsWords free ws list
      → HoldsWords free (ws ++ (c ∷ cs) ∷ []) (add_word free (c ∷ cs) list)
  unfolding add_word
  HoldsWords-append ws c cs none h =
      rw h (cons_not_nil (c ∷ cs) [], append-Models (c ∷ cs) (some free) create-Models)
  HoldsWords-append ws c cs (some l) (_, m) = (
    not_nil ws (c ∷ cs),
    subst (λ xs. Models xs (append l (c ∷ cs) (some free)))
        (sym (map-append (owned_by free) ws ((c ∷ cs) ∷ [])))
        (append-Models (c ∷ cs) (some free) m),
  )

  -- the words added to a list, one after the other
  add_words : List (List ℕ) → Option (PscList (List ℕ)) → Option (PscList (List ℕ))
  add_words [] list = list
  add_words (w ∷ ws) list = add_words ws (add_word free w list)

  HoldsWords-add_words :
      (before ws : List (List ℕ)) (list : Option (PscList (List ℕ)))
      → All (IsWord is_delim) ws
      → HoldsWords free before list
      → HoldsWords free (before ++ ws) (add_words ws list)
  unfolding add_words
  HoldsWords-add_words before [] list a h = rw (append-nil before) h
  HoldsWords-add_words before ([] ∷ ws) list (w, a) h = absurd (w.nonempty refl)
  HoldsWords-add_words before ((c ∷ cs) ∷ ws) list (w, a) h =
      subst (λ all. HoldsWords free all (add_words ws (add_word free (c ∷ cs) list)))
        (append_assoc before ((c ∷ cs) ∷ []) ws)
        (HoldsWords-add_words (before ++ (c ∷ cs) ∷ []) ws (add_word free (c ∷ cs) list) a
          (HoldsWords-append before c cs list h))

  Words-each : {s : List ℕ} {ws : List (List ℕ)} → Words is_delim s ws → All (IsWord is_delim) ws
  Words-each no_more = tt
  Words-each (passes c s ws d k) = Words-each k
  Words-each (cuts w s ws a e k) = (a, Words-each k)

  -- What the loop makes of the word so far and the rest of the string.
  loop-Words :
      (rest word : List ℕ) (list : Option (PscList (List ℕ)))
      → All (λ c. is_delim c ≡ false) word
      → (ws : List (List ℕ)) × Words is_delim (word ++ rest) ws
        × (from_string_loop is_delim free word rest list ≡ add_words ws list)
  unfolding from_string_loop add_words
  loop-Words [] [] list a = ([], no_more, unfold add_word in refl)
  loop-Words [] (x ∷ word) list a =
      let w : List ℕ = x ∷ word in
      let is_word : IsWord is_delim w = record { nonempty = cons_not_nil x word; free_of = a } in
      (w ∷ [], cuts w [] [] is_word tt no_more, refl)
  loop-Words (c ∷ rest) word list a = elim (Bool-cases (is_delim c)) [
    | inl d ↦
        let (ws, k, e) = loop-Words rest [] (add_word free word list) tt in
        ended c rest word list a d ws (passes c rest ws d k) (rw (from_string_loop, d) e)
    | inr n ↦
        let longer = All-append (λ c. is_delim c ≡ false) word c a n in
        let (ws, k, e) = loop-Words rest (word ++ c ∷ []) list longer in
        (
          ws,
          subst (λ s. Words is_delim s ws) (append_assoc word (c ∷ []) rest) k,
          rw (from_string_loop, n) e,
        )
  ]
    where
      ended :
          (c : ℕ) (rest word : List ℕ) (list : Option (PscList (List ℕ)))
          → All (λ c. is_delim c ≡ false) word
          → is_delim c ≡ true
          → (ws : List (List ℕ)) → Words is_delim (c ∷ rest) ws
          → from_string_loop is_delim free word (c ∷ rest) list
            ≡ add_words ws (add_word free word list)
          → (ws' : List (List ℕ)) × Words is_delim (word ++ c ∷ rest) ws'
            × (from_string_loop is_delim free word (c ∷ rest) list ≡ add_words ws' list)
      ended c rest [] list a d ws k e = (ws, k, unfold add_word in e)
      ended c rest (x ∷ word) list a d ws k e =
          let is_word : IsWord is_delim (x ∷ word) = record {
            nonempty = cons_not_nil x word;
            free_of = a;
          } in
          ((x ∷ word) ∷ ws, cuts (x ∷ word) (c ∷ rest) ws is_word d k, e)

  -- For any set of delimiters and any string, `PSC_List_fromString` makes a list of the words of the
  -- string, in order: each has a character and no delimiter and ends only at a delimiter or the end of
  -- the string, and all that stands before, between and behind the words is delimiters; there is no
  -- list exactly if there is no word.
  pub from_string-Cut : (str : List ℕ) → Cut is_delim free str (from_string is_delim free str)
  unfolding from_string
  from_string-Cut str =
      let (ws, k, e) = loop-Words str [] none tt in
      record {
        words = ws;
        split = k;
        held =
            subst (HoldsWords free ws) (sym e)
              (HoldsWords-add_words [] ws none (Words-each k) refl);
      }
