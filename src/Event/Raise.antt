-- ===== src/Event/Raise.antt =====
-- Which handlers `PSC_Event_raise` of event.c calls.
use poser.Prelude.{
  ℕ, suc, ◌≡◌, refl, sym, ap, subst, ◌∙◌, inl, inr, List, [], ◌∷◌, ◌++◌, Option, none, some, true,
  false, ◌==◌, if◌then◌else◌, map, filter, length, append_assoc, Bool-cases, ==→eq, arith,
}
use poser.Event.{
  Entry, Event, Args, HandlerCall, first, next, entry_at, or_id, ended, calling, raise_loop, raise,
}
use poser.Event.Valid.{present, Distinct, IsValid, true-false}

present-middle :
    (pre : List Entry) (e : Entry) (suf : List Entry) → present e.addr (pre ++ e ∷ suf) ≡ true
present-middle [] e suf = ground arith
present-middle (x ∷ pre) e suf = ground (arith, present-middle pre e suf)

apart :
    (x : Entry) (pre : List Entry) (e : Entry) (suf : List Entry)
    → present x.addr (pre ++ e ∷ suf) ≡ false
    → (x.addr == e.addr) ≡ false
apart x pre e suf p = elim (Bool-cases (x.addr == e.addr)) [
  | inr ne ↦ ne
  | inl eq ↦ absurd (
      true-false (
        sym (present-middle pre e suf)
        ∙ ap (λ a. present a (pre ++ e ∷ suf)) (sym (==→eq x.addr e.addr eq))
        ∙ p))
]

-- An entry is found at its address, with the one behind it.
entry_at-middle :
    (pre : List Entry) (e : Entry) (suf : List Entry)
    → Distinct (pre ++ e ∷ suf)
    → (entry_at e.addr (pre ++ e ∷ suf) ≡ some e) × (next e.addr (pre ++ e ∷ suf) ≡ first suf)
unfolding entry_at next
entry_at-middle [] e suf d =
    let test : (e.addr == e.addr) ≡ true = ground arith in rw (test, entry_at, next) (refl, refl)
entry_at-middle (x ∷ pre) e suf (p, d) =
    rw (apart x pre e suf p, entry_at, next) (entry_at-middle pre e suf d)

-- the calls for those of the entries that have the id
abbrev pub calls_for : ℕ → Args → ℕ → List Entry → List HandlerCall
calls_for id args sender es =
    map (λ e. record { handler = e.handler; sender = sender; args = or_id args id })
      (filter (λ e. e.handler.id == id) es)

-- `handling` after a raise over these entries: as before if there are none, else the null pointer
abbrev pub left : List Entry → Option ℕ → Option ℕ
left [] handling = handling
left (e ∷ es) handling = none

left-first : (es : List Entry) → left es (first es) ≡ none
left-first [] = refl
left-first (e ∷ es) = refl

module _ (react : HandlerCall → Event → Event)
    (quiet : (call : HandlerCall) (ev : Event) → react call ev ≡ ev) (id : ℕ) (args : Args) where
  -- One round, at an entry of the event.
  round :
      (pre : List Entry) (e : Entry) (suf : List Entry) (rounds : ℕ) (ev : Event)
      → ev.entries ≡ pre ++ e ∷ suf
      → Distinct ev.entries
      → let later =
          raise_loop react rounds id args (first suf) (record ev { handling = first suf }) in
        raise_loop react (suc rounds) id args (some e.addr) ev ≡ (
          if e.handler.id == id
          then calling
              (record { handler = e.handler; sender = ev.sender; args = or_id args id })
              later
          else later)
  unfolding raise_loop
  round pre e suf rounds ev split d =
      let (at, behind) = entry_at-middle pre e suf (subst Distinct split d) in
      let at' : entry_at e.addr ev.entries ≡ some e = ap (entry_at e.addr) split ∙ at in
      let behind' : next e.addr ev.entries ≡ first suf = ap (next e.addr) split ∙ behind in
      elim (Bool-cases (e.handler.id == id)) [
        | inl hit ↦ rw (raise_loop, at', hit, quiet, behind') refl
        | inr miss ↦ rw (raise_loop, at', miss, behind') refl
      ]

  loop-calls :
      (pre suf : List Entry) (ev : Event)
      → ev.entries ≡ pre ++ suf
      → Distinct ev.entries
      → raise_loop react (length suf) id args (first suf) ev
        ≡ ended (calls_for id args ev.sender suf) (record ev { handling = left suf ev.handling })
  loop-calls pre [] ev split d = unfold raise_loop in refl
  loop-calls pre (e ∷ suf) ev split d =
      let ev' : Event = record ev { handling = first suf } in
      let further : ev.entries ≡ (pre ++ e ∷ []) ++ suf =
        split ∙ sym (append_assoc pre (e ∷ []) suf) in
      let rest =
        loop-calls (pre ++ e ∷ []) suf ev' further d
        ∙ ap (λ o. ended (calls_for id args ev.sender suf) (record ev { handling = o }))
            (left-first suf) in
      round pre e suf (length suf) ev split d ∙ elim (Bool-cases (e.handler.id == id)) [
        | inl hit ↦ rw hit (
            ap (calling (record { handler = e.handler; sender = ev.sender; args = or_id args id }))
              rest)
        | inr miss ↦ rw miss rest
      ]

  -- With handlers that leave the event as it is, a raise of a valid event that has entries has ended
  -- after as many rounds as it has entries: it has called each handler of that id once, in the order
  -- of registration, and leaves the event as it was, with `handling` null. Without entries it ends at
  -- once and leaves the event as it was.
  pub raise-calls_for :
      {ev : Event}
      → IsValid ev
      → raise react (length ev.entries) id args ev
        ≡ ended
            (calls_for id args ev.sender ev.entries)
            (record ev { handling = left ev.entries ev.handling })
  unfolding raise
  raise-calls_for {ev} v = loop-calls [] ev.entries ev refl v.distinct
