-- ===== src/SharedObj.antt =====
-- src/lib/core/sharedobj.c: objects that threads share, and that are freed when no thread can still
-- read them. `Som` holds the static variables, `Thread` those of one thread; an `unsigned` has 32 bits.
pub mod Epochs
pub mod World
pub mod Invariant
pub mod Reclaim
pub mod Safety
mod Runs
use poser.Prelude.{
  ℕ, zero, suc, ◌+◌, ◌-◌, ◌*◌, ◌%◌, ◌^◌, List, [], ◌∷◌, Option, none, some, Bool, true, false, ◌&&◌,
  ◌||◌, ltb, leb, ◌==◌, if◌then◌else◌, length, get_or, set, replicate,
}
use poser.Prelude.Memory.{malloc}

-- SharedObj: its address, the address of its destructor, and the epochs it lived in
pub record SharedObj : Type 0 where
  pub addr : ℕ
  pub destroy : Option ℕ
  pub created : ℕ
  pub retired : ℕ

-- the atomic variables that the threads share; a reservation is `none` until one is stored
pub record Som : Type 0 where
  pub int_epoch : ℕ
  pub int_destroy : ℕ
  pub epoch : ℕ
  pub nthr : ℕ
  pub res : List (Option ℕ)

-- the variables of a thread; the objects of the list `retired` are linked by `next`
pub record Thread : Type 0 where
  pub tid : ℕ
  pub ncreated : ℕ
  pub nretired : ℕ
  pub retired : List SharedObj

-- `SharedObj_create`, for the memory at `addr`
unfoldable pub create : Som → Thread → ℕ → Option ℕ → Som × Thread × SharedObj
create som th addr destroy =
    let ncreated = (th.ncreated + 1) % 2 ^ 32 in
    let created = som.epoch in
    let obj : SharedObj = record {
      addr = addr;
      destroy = destroy;
      created = created;
      retired = (created + 2 ^ 32 - 1) % 2 ^ 32;
    } in
    if ncreated == som.int_epoch
    then (record som { epoch = (som.epoch + 1) % 2 ^ 32 }, record th { ncreated = 0 }, obj)
    else (som, record th { ncreated = ncreated }, obj)

-- whether a reservation is one of the epochs that an object lived in
unfoldable pub is_within : ℕ → ℕ → ℕ → Bool
is_within creat retd tres =
    if ltb retd creat then leb creat tres || leb tres retd else leb creat tres && leb tres retd

-- the loop over the reservations from the thread `t` on; `unset` gives what a reservation is that no
-- thread has stored yet
unfoldable pub conflicts : (ℕ → ℕ) → ℕ → ℕ → ℕ → ℕ → List (Option ℕ) → Bool
conflicts unset t zero creat retd res = false
conflicts unset t (suc left) creat retd [] = false
conflicts unset t (suc left) creat retd (r ∷ res) =
    let tres : ℕ = elim r [ none ↦ unset t | some e ↦ e ] in
    let later = conflicts unset (t + 1) left creat retd res in
    if is_within creat retd tres then true else later

-- the loop over the retired objects: those that stay in the list, and those that are destroyed
unfoldable pub sweep : (ℕ → ℕ) → Som → List SharedObj → List SharedObj × List SharedObj
sweep unset som [] = ([], [])
sweep unset som (i ∷ retired) =
    let (kept, gone) = sweep unset som retired in
    if conflicts unset 0 som.nthr i.created i.retired som.res
    then (i ∷ kept, gone)
    else (kept, i ∷ gone)

-- `SharedObj_retire`, with the objects that it destroys
unfoldable pub retire : (ℕ → ℕ) → Som → Thread → SharedObj → Thread × List SharedObj
retire unset som th so =
    let retired = record so { retired = som.epoch } ∷ th.retired in
    let nretired = (th.nretired + 1) % 2 ^ 32 in
    if nretired == som.int_destroy
    then (let (kept, gone) = sweep unset som retired in
        (record th { nretired = 0; retired = kept }, gone))
    else (record th { nretired = nretired; retired = retired }, [])

-- `SOM_registerThread`
unfoldable pub register_thread : Som → Thread → Som × Thread
register_thread som th =
    (record som { nthr = (som.nthr + 1) % 2 ^ 32 }, record th { tid = som.nthr })

-- `SOM_init`, on the static variables as they start
unfoldable pub init : ℕ → ℕ → ℕ → Som
init nthreads epoch_interval destroy_interval = record {
  int_epoch = epoch_interval;
  int_destroy = destroy_interval;
  epoch = 0;
  nthr = 0;
  res = malloc nthreads;
}

-- the reservation of a thread stored
unfoldable pub publish : Som → ℕ → ℕ → Som
publish som tid ep = record som { res = set som.res tid (some ep) }

-- a round of `SOM_reserve`: the epoch read and reserved, the object then read, and the epoch read
-- again; nothing if it has changed
unfoldable pub reserve_round : {P : Type 0} → ℕ → P → ℕ → Option P
reserve_round ep p ep' = if ep == ep' then some p else none

-- `SOM_release`
unfoldable pub release : Som → ℕ → Som
release som tid = publish som tid ((som.epoch + 2 ^ 32 - 1) % 2 ^ 32)
