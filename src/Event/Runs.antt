-- ===== src/Event/Runs.antt =====
-- Runs of event.c, and the theorems at concrete events.
use poser.Prelude.{ℕ, ◌≡◌, refl, List, [], ◌∷◌, none, some, length, ◌==◌, if◌then◌else◌}
use poser.Event.{
  EvHandler, Entry, Event, HandlerCall, Raised, ended, out_of_rounds, bad_read, null, find_entry,
  next, entry_at, unlink, unregister, raise_loop, raise,
}
use poser.Event.Valid.{IsValid}
use poser.Event.Raise.{calls_for, raise-calls_for}

abbrev handler : ℕ → EvHandler
handler n = record { cb = n; receiver = 1; id = 7 }

abbrev three : List Entry
three =
    record { addr = 100; handler = handler 1 }
    ∷ record { addr = 200; handler = handler 2 }
    ∷ record { addr = 300; handler = record { cb = 3; receiver = 1; id = 8 } }
    ∷ []

-- The first handler is running.
abbrev running : Event
running = record { entries = three; last = some 300; handling = some 200; sender = 5 }

running-IsValid : IsValid running
running-IsValid = record { distinct = (refl, (refl, (refl, tt))); live = refl; ends = refl }

-- The handler that would be next takes itself out: the raise goes on behind it.
moved_on : (unregister (handler 2) running).handling ≡ some 300
unfolding unregister find_entry unlink next
moved_on = refl

raise-calls_for_example :
    raise (λ c ev. ev) 3 7 null running
    ≡ ended (calls_for 7 null 5 three) (record running { handling = none })
raise-calls_for_example = raise-calls_for (λ c ev. ev) (λ c ev. refl) 7 null running-IsValid

-- what a raise leaves of the event
abbrev event_after : Raised → Event → Event
event_after (ended calls ev) old = ev
event_after out_of_rounds old = old
event_after bad_read old = old

-- A handler that raises another id of its own event: the outer raise skips the handlers behind it.
nested : HandlerCall → Event → Event
nested c ev = if c.handler.cb == 1 then event_after (raise (λ _ e. e) 4 8 null ev) ev else ev

abbrev calls_of : Raised → List HandlerCall
calls_of (ended calls ev) = calls
calls_of out_of_rounds = []
calls_of bad_read = []

nested_skips : length (calls_of (raise nested 4 7 null running)) ≡ 1
unfolding nested raise raise_loop entry_at next
nested_skips = refl
