-- ===== src/Event/Valid.antt =====
-- The pointer that event.c keeps into its entries while handlers run.
use poser.Prelude.{
  ℕ, ◌≡◌, refl, sym, ap, ◌∙◌, inl, inr, List, [], ◌∷◌, ◌++◌, Option, none, some, Bool, true, false,
  ◌||◌, ◌==◌, not, filter, subst, if◌then◌else◌, Bool-cases, Option-cases, ==→eq, arith,
}
use poser.Event.{EvHandler, Entry, Event, find_entry, link_after, link_last, register}

-- an entry at the address is in the list
abbrev pub present : ℕ → List Entry → Bool
present a [] = false
present a (e ∷ es) = let rest = present a es in if e.addr == a then true else rest

-- no two entries have one address
abbrev pub Distinct : List Entry → Type 0
Distinct [] = Unit
Distinct (e ∷ es) = (present e.addr es ≡ false) × Distinct es

-- A pointer to an entry of the list, or the null pointer.
abbrev pub Points : Option ℕ → List Entry → Type 0
Points none es = Unit
Points (some a) es = present a es ≡ true

-- the address of the last entry, behind another one or none
abbrev pub final : Option ℕ → List Entry → Option ℕ
final p [] = p
final p (e ∷ es) = final (some e.addr) es

-- The entries have addresses of their own, `handling` points to one of them, if to any, and `last`
-- points to the last one.
pub record IsValid (ev : Event) : Type 0 where
  pub distinct : Distinct ev.entries
  pub live : Points ev.handling ev.entries
  pub ends : ev.last ≡ final none ev.entries

pub true-false : true ≡ false → ⊥
true-false e = cc

-- the entries without that at an address
abbrev pub without : Option ℕ → List Entry → List Entry
without none es = es
without (some a) es = filter (λ e. not (e.addr == a)) es

present-append :
    (b : ℕ) (es : List Entry) (e : Entry) → present b (es ++ e ∷ []) ≡ (present b es || e.addr == b)
present-append b [] e = ground arith
present-append b (x ∷ es) e = ground (arith, present-append b es e)

Distinct-append :
    (es : List Entry) (e : Entry)
    → Distinct es
    → present e.addr es ≡ false
    → Distinct (es ++ e ∷ [])
Distinct-append [] e d p = (refl, tt)
Distinct-append (x ∷ es) e (q, d) p =
    let q' : present x.addr (es ++ e ∷ []) ≡ false = ground (arith, present-append x.addr es e) in
    (q', Distinct-append es e d (ground arith))

Points-append : (o : Option ℕ) (es : List Entry) (e : Entry) → Points o es → Points o (es ++ e ∷ [])
Points-append none es e p = tt
Points-append (some b) es e p = ground (arith, present-append b es e)

final_present :
    (q : ℕ) (es : List Entry) (p : ℕ) → final (some q) es ≡ some p → (q == p || present p es) ≡ true
final_present q [] p h = let e : q ≡ p = cc in ground arith
final_present q (e ∷ es) p h = ground (arith, final_present e.addr es p h)

-- The entry that is linked behind the last one.
link_after-final :
    (x : Entry) (es : List Entry) (p : ℕ) (entry : Entry)
    → Distinct (x ∷ es)
    → final none (x ∷ es) ≡ some p
    → link_after p entry (x ∷ es) ≡ (x ∷ es) ++ entry ∷ []
unfolding link_after
link_after-final x [] p entry d h =
    let e : x.addr ≡ p = cc in let test : (x.addr == p) ≡ true = ground arith in rw test refl
link_after-final x (y ∷ es) p entry (away, d) h =
    let there : present p (y ∷ es) ≡ true = let f = final_present y.addr es p h in ground arith in
    let test : (x.addr == p) ≡ false = elim (Bool-cases (x.addr == p)) [
      | inr ne ↦ ne
      | inl eq ↦
          let same_addr : x.addr ≡ p = ==→eq x.addr p eq in
          absurd (true-false (sym there ∙ sym (ap (λ a. present a (y ∷ es)) same_addr) ∙ away))
    ] in
    rw (link_after, test) (ap (◌∷◌ x) (link_after-final y es p entry d h))

link_last-append :
    (entry : Entry) (ev : Event)
    → IsValid ev
    → link_last entry ev ≡ record ev { entries = ev.entries ++ entry ∷ []; last = some entry.addr }
unfolding link_last
link_last-append entry ev v = from ev.entries refl
  where
    some_final : (q : ℕ) (es : List Entry) → (p : ℕ) × (final (some q) es ≡ some p)
    some_final q [] = (q, refl)
    some_final q (e ∷ es) = some_final e.addr es

    from :
        (es : List Entry)
        → ev.entries ≡ es
        → link_last entry ev ≡ record ev { entries = es ++ entry ∷ []; last = some entry.addr }
    from [] e =
        let none_yet : ev.last ≡ none = v.ends ∙ ap (final none) e in rw (link_last, none_yet) refl
    from (x ∷ es) e =
        let (p, at) = some_final x.addr es in
        let last_at : ev.last ≡ some p = v.ends ∙ ap (final none) e ∙ at in
        rw (link_last, last_at)
          (ap (λ es. record ev { entries = es; last = some entry.addr })
            (ap (link_after p entry) e
              ∙ link_after-final x es p entry (subst Distinct e v.distinct) at))

final-append : (q : Option ℕ) (es : List Entry) (e : Entry) → final q (es ++ e ∷ []) ≡ some e.addr
final-append q [] e = refl
final-append q (x ∷ es) e = final-append (some x.addr) es e

-- At an address that no entry has, `PSC_Event_register` keeps a valid event valid.
pub register-IsValid :
    {ev : Event} (fresh : ℕ) (h : EvHandler)
    → IsValid ev
    → present fresh ev.entries ≡ false
    → IsValid (register fresh h ev)
unfolding register
register-IsValid {ev} fresh h v new = elim (Option-cases (find_entry h ev.entries)) [
  | inr (a, there) ↦ rw (there, register) v
  | inl absent ↦
      let e : Entry = record { addr = fresh; handler = h } in
      rw (absent, register, link_last-append e ev v)
        (record {
          distinct = Distinct-append ev.entries e v.distinct new;
          live = Points-append ev.handling ev.entries e v.live;
          ends = sym (final-append none ev.entries e);
        })
]
