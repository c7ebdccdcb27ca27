-- ===== src/Event.antt =====
-- src/lib/core/event.c: handlers that are registered for an event, and called when it is raised.
-- The linked entries are a list, each with its address in memory, since `handling` points to one of
-- them. The address that the object pool gives for a new entry is an argument.
pub mod Valid
pub mod Raise
pub mod Runs
use poser.Prelude.{
  ℕ, zero, suc, ◌+◌, List, [], ◌∷◌, ◌++◌, Option, none, some, Bool, true, false, ◌&&◌, ◌==◌,
  if◌then◌else◌,
}

-- EvHandler: the addresses of the function and of its receiver, and the id
pub record EvHandler : Type 0 where
  pub cb : ℕ
  pub receiver : ℕ
  pub id : ℕ

-- EvHandlerEntry, at its address
pub record Entry : Type 0 where
  pub addr : ℕ
  pub handler : EvHandler

-- PSC_Event
pub record Event : Type 0 where
  pub entries : List Entry
  pub last : Option ℕ
  pub handling : Option ℕ
  pub sender : ℕ

-- the arguments of a call: the null pointer, those given, or the id that stands in for them
pub data Args : Type 0 where
  null : Args
  given : ℕ → Args
  the_id : ℕ → Args

-- a call of a handler
pub record HandlerCall : Type 0 where
  pub handler : EvHandler
  pub sender : ℕ
  pub args : Args

-- `PSC_Event_initStatic`
unfoldable pub create : ℕ → Event
create sender = record { entries = []; last = none; handling = none; sender = sender }

-- `!memcmp` on two handlers
abbrev pub same : EvHandler → EvHandler → Bool
same h k = h.cb == k.cb && h.receiver == k.receiver && h.id == k.id

-- `findEntry`: the address of the first entry with the handler
unfoldable pub find_entry : EvHandler → List Entry → Option ℕ
find_entry h [] = none
find_entry h (e ∷ es) =
    let later = find_entry h es in if same e.handler h then some e.addr else later

-- a pointer to the first entry
abbrev pub first : List Entry → Option ℕ
first [] = none
first (e ∷ es) = some e.addr

-- `entry->next` of the entry at an address
unfoldable pub next : ℕ → List Entry → Option ℕ
next a [] = none
next a (e ∷ es) = let later = next a es in if e.addr == a then first es else later

-- the entry at an address
unfoldable pub entry_at : ℕ → List Entry → Option Entry
entry_at a [] = none
entry_at a (e ∷ es) = let later = entry_at a es in if e.addr == a then some e else later

-- the entry that `findEntry` gives as `parent`: the one before the one it finds
unfoldable pub find_parent : EvHandler → Option ℕ → List Entry → Option ℕ
find_parent h p [] = none
find_parent h p (e ∷ es) =
    let later = find_parent h (some e.addr) es in if same e.handler h then p else later

-- `last->next = entry`
unfoldable pub link_after : ℕ → Entry → List Entry → List Entry
link_after p entry [] = []
link_after p entry (e ∷ es) =
    let rest = link_after p entry es in if e.addr == p then e ∷ entry ∷ [] else e ∷ rest

-- the end of `PSC_Event_register`: the new entry behind the last one, or as the first one
unfoldable pub link_last : Entry → Event → Event
link_last entry ev = elim ev.last [
  | none ↦ record ev { entries = entry ∷ []; last = some entry.addr }
  | some p ↦ record ev { entries = link_after p entry ev.entries; last = some entry.addr }
]

-- `PSC_Event_register`
unfoldable pub register : ℕ → EvHandler → Event → Event
register fresh h ev = elim (find_entry h ev.entries) [
  | some _ ↦ ev
  | none ↦ link_last (record { addr = fresh; handler = h }) ev
]

-- the entry that `findEntry` finds unlinked
unfoldable pub unlink : EvHandler → List Entry → List Entry
unlink h [] = []
unlink h (e ∷ es) = let rest = unlink h es in if same e.handler h then es else e ∷ rest

-- a comparison with the pointer `handling`
abbrev pub points_to : Option ℕ → ℕ → Bool
points_to none a = false
points_to (some b) a = b == a

-- `if (!entry->next) self->last = parent`
abbrev pub last_after : Option ℕ → Option ℕ → Option ℕ → Option ℕ
last_after none parent last = parent
last_after (some _) parent last = last

-- `PSC_Event_unregister`
unfoldable pub unregister : EvHandler → Event → Event
unregister h ev = elim (find_entry h ev.entries) [
  | none ↦ ev
  | some a ↦ record ev {
    entries = unlink h ev.entries;
    handling = if points_to ev.handling a then next a ev.entries else ev.handling;
    last = last_after (next a ev.entries) (find_parent h none ev.entries) ev.last;
  }
]

-- `if (!args && id) args = &id`
abbrev pub or_id : Args → ℕ → Args
or_id null id = if id == 0 then null else the_id id
or_id args id = args

-- how a raise ends: with the calls that it made and the event that they leave, with rounds of the loop
-- still to go, or with the read of an entry that is not there
pub data Raised : Type 0 where
  ended : List HandlerCall → Event → Raised
  out_of_rounds : Raised
  bad_read : Raised

-- a raise with a call before it
abbrev pub calling : HandlerCall → Raised → Raised
calling call (ended calls ev) = ended (call ∷ calls) ev
calling call out_of_rounds = out_of_rounds
calling call bad_read = bad_read

-- the loop of `PSC_Event_raise` from an entry on, for a number of rounds; `react` is what a called
-- handler does to the event
unfoldable pub raise_loop : (HandlerCall → Event → Event) → ℕ → ℕ → Args → Option ℕ → Event → Raised
raise_loop react rounds id args none ev = ended [] ev
raise_loop react zero id args (some a) ev = out_of_rounds
raise_loop react (suc rounds) id args (some a) ev = elim (entry_at a ev.entries) [
  | none ↦ bad_read
  | some e ↦
      let ev' : Event = record ev { handling = next a ev.entries } in
      elim (e.handler.id == id) [
        | false ↦ raise_loop react rounds id args ev'.handling ev'
        | true ↦
            let call : HandlerCall = record {
              handler = e.handler;
              sender = ev.sender;
              args = or_id args id;
            } in
            let after : Event = react call ev' in
            calling call (raise_loop react rounds id args after.handling after)
      ]
]

-- `PSC_Event_raise`
unfoldable pub raise : (HandlerCall → Event → Event) → ℕ → ℕ → Args → Event → Raised
raise react rounds id args ev = raise_loop react rounds id args (first ev.entries) ev

-- `PSC_Event_destroyStatic`: the addresses of the entries that it gives back to the pool, in order
unfoldable pub destroy : List Entry → List ℕ
destroy [] = []
destroy (e ∷ es) = e.addr ∷ destroy es
