-- ===== src/SharedObj/Runs.antt =====
-- A run of two threads that share an object by sharedobj.c.
use poser.Prelude.{List, ℕ, ◌≡◌, ◌≢◌, refl, [], none, some, true, arith}
use poser.SharedObj.{
  SharedObj, Thread, create, is_within, conflicts, sweep, retire, register_thread, init, publish,
  reserve_round, release,
}
use poser.SharedObj.Epochs.{is_within-distance}
use poser.SharedObj.World.{
  put, unused, retired_in, freed, idle, has_read, reserved, loaded, holding, World, after_create,
  after_retire, creates, stores, retires, reads_epoch, publishes, loads, returns, Reach, here, next,
  IsStart,
}
use poser.SharedObj.Safety.{holding-freed}

abbrev thread : Thread
thread = record { tid = 0; ncreated = 0; nretired = 0; retired = [] }

-- Two threads, with a new epoch for each object and a sweep for each that is retired.
abbrev start : World
start = record {
  som = (register_thread ((register_thread (init 2 1 1) thread).0) thread).0;
  threads = λ _. thread;
  cell = none;
  objs = λ a. record { addr = a; destroy = none; created = 0; retired = 0 };
  status = λ _. unused;
  readers = λ _. idle;
}

-- what a reservation is that no thread has stored
abbrev garbage : ℕ → ℕ
garbage t = 0xdeadbeef

start-IsStart : IsStart start
unfolding init register_thread
start-IsStart = record {
  small = omega arith;
  no_object = refl;
  none_used = λ _. refl;
  none_retired = λ _. refl;
  none_reads = λ _. refl;
}

-- The thread 0 makes the object 7 and shares it, the thread 1 gets hold of it, and the thread 0
-- retires it.
abbrev made : World
made = after_create start 0 7 none

abbrev shared : World
shared = record made { cell = some 7 }

abbrev with_epoch : World
with_epoch = record shared { readers = put shared.readers 1 (has_read 1) }

abbrev with_reservation : World
with_reservation = record with_epoch {
  som = publish with_epoch.som 1 1;
  readers = put with_epoch.readers 1 (reserved 1);
}

abbrev with_object : World
with_object = record with_reservation { readers = put with_reservation.readers 1 (loaded 1 7) }

abbrev held : World
held = record with_object { readers = put with_object.readers 1 (holding 1 7) }

abbrev unlinked : World
unlinked = record held { cell = none }

abbrev ended : World
ended = after_retire garbage unlinked 0 7

ended-Reach : Reach garbage start ended
unfolding after_create create init register_thread publish reserve_round
ended-Reach =
    next
      (next
        (next
          (next
            (next
              (next
                (next (next here (creates start 0 7 none refl (omega arith)))
                  (stores made (some 7) refl))
                (reads_epoch shared 1 refl))
              (publishes with_epoch 1 1 refl (omega arith) (omega arith)))
            (loads with_reservation 1 1 7 refl refl))
          (returns with_object 1 1 7 refl refl))
        (stores held none tt))
      (retires unlinked 0 7 refl (λ e. cc))

holding-freed_example : ended.status 7 ≢ freed
unfolding after_create create after_retire retire sweep conflicts is_within init register_thread
    publish
holding-freed_example = holding-freed garbage start ended 1 1 7 start-IsStart ended-Reach refl

-- A sweep after the release does not free the object either: `SOM_release` reserves the epoch before,
-- in which the object was alive.
abbrev let_go : World
let_go = after_create (record ended { som = release ended.som 1 }) 0 8 none

kept_later : (after_retire garbage let_go 0 8).status 7 ≡ retired_in 1
unfolding after_create create after_retire retire sweep conflicts is_within init register_thread
    publish release
kept_later = refl

is_within-distance_example : is_within 0xffffffff 1 0 ≡ true
unfolding is_within
is_within-distance_example =
    is_within-distance 0xffffffff 1 0 (omega arith) (omega arith) (omega arith)

abbrev last_call : Thread × List SharedObj
last_call = retire garbage unlinked.som (unlinked.threads 0) (unlinked.objs 7)
