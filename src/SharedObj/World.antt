-- ===== src/SharedObj/World.antt =====
-- Threads that share objects by sharedobj.c, as a step relation. Each step is one access of an atomic
-- variable by `SOM_reserve`, or a call of another function.
use poser.Prelude.{
  ℕ, ◌+◌, ◌^◌, ◌<◌, ◌≡◌, ◌≢◌, List, [], ◌∷◌, Option, none, some, ◌==◌, if◌then◌else◌, length,
}
use poser.SharedObj.{SharedObj, Som, Thread, create, retire, publish, reserve_round, release}

-- where an object is in its life, with the epoch in which it was retired
pub data Status : Type 0 where
  unused : Status
  live : Status
  retired_in : ℕ → Status
  freed : Status

-- what a thread has done of `SOM_reserve`: read the epoch, stored it, read the object, returned it
pub data Reader : Type 0 where
  idle : Reader
  has_read : ℕ → Reader
  reserved : ℕ → Reader
  loaded : ℕ → ℕ → Reader
  holding : ℕ → ℕ → Reader

-- the variables of all threads, a reference that they share, and the objects by their addresses, of
-- which none is used twice
pub record World : Type 0 where
  pub som : Som
  pub threads : ℕ → Thread
  pub cell : Option ℕ
  pub objs : ℕ → SharedObj
  pub status : ℕ → Status
  pub readers : ℕ → Reader

-- a function with another value at one place
abbrev pub put {ℓ} : {A : Type ℓ} → (ℕ → A) → ℕ → A → ℕ → A
put f k x i = if i == k then x else f i

-- the objects of a list, freed
abbrev pub free_all : List SharedObj → (ℕ → Status) → ℕ → Status
free_all [] status a = status a
free_all (o ∷ gone) status a =
    let rest = free_all gone status a in if a == o.addr then freed else rest

unfoldable pub after_create : World → ℕ → ℕ → Option ℕ → World
after_create v w addr destroy =
    let (som, th, obj) = create v.som (v.threads w) addr destroy in
    record v {
      som = som;
      threads = put v.threads w th;
      objs = put v.objs addr obj;
      status = put v.status addr live;
    }

unfoldable pub after_retire : (ℕ → ℕ) → World → ℕ → ℕ → World
after_retire unset v w addr =
    let (th, gone) = retire unset v.som (v.threads w) (v.objs addr) in
    record v {
      threads = put v.threads w th;
      status = free_all gone (put v.status addr (retired_in v.som.epoch));
    }

abbrev pub IsLive : World → Option ℕ → Type 0
IsLive v none = Unit
IsLive v (some a) = v.status a ≡ live

-- A step of one thread. An object is retired when the shared reference is another one, and once only.
-- A thread that reserves has a number below those given out, and there are fewer than 2 ^ 32 epochs.
pub data Step (unset : ℕ → ℕ) : World → World → Type 0 where
  creates :
      (v : World) (w addr : ℕ) (destroy : Option ℕ)
      → v.status addr ≡ unused
      → v.som.epoch + 1 < 2 ^ 32
      → Step unset v (after_create v w addr destroy)
  stores : (v : World) (o : Option ℕ) → IsLive v o → Step unset v (record v { cell = o })
  retires :
      (v : World) (w addr : ℕ)
      → v.status addr ≡ live
      → v.cell ≢ some addr
      → Step unset v (after_retire unset v w addr)
  reads_epoch :
      (v : World) (t : ℕ)
      → v.readers t ≡ idle
      → Step unset v (record v { readers = put v.readers t (has_read v.som.epoch) })
  publishes :
      (v : World) (t ep : ℕ)
      → v.readers t ≡ has_read ep
      → t < v.som.nthr
      → t < length v.som.res
      → Step unset v
          (record v { som = publish v.som t ep; readers = put v.readers t (reserved ep) })
  loads :
      (v : World) (t ep p : ℕ)
      → v.readers t ≡ reserved ep
      → v.cell ≡ some p
      → Step unset v (record v { readers = put v.readers t (loaded ep p) })
  returns :
      (v : World) (t ep p : ℕ)
      → v.readers t ≡ loaded ep p
      → reserve_round ep p v.som.epoch ≡ some p
      → Step unset v (record v { readers = put v.readers t (holding ep p) })
  repeats :
      (v : World) (t ep p : ℕ)
      → v.readers t ≡ loaded ep p
      → reserve_round ep p v.som.epoch ≡ none
      → Step unset v (record v { readers = put v.readers t idle })
  releases :
      (v : World) (t : ℕ)
      → Step unset v (record v { som = release v.som t; readers = put v.readers t idle })

pub data Reach (unset : ℕ → ℕ) (s : World) : World → Type 0 where
  here : Reach unset s s
  next : {u v : World} → Reach unset s u → Step unset u v → Reach unset s v

-- No object is there yet, no thread reads, and no thread has retired any.
pub record IsStart (v : World) : Type 0 where
  pub small : v.som.epoch < 2 ^ 32
  pub no_object : v.cell ≡ none
  pub none_used : (a : ℕ) → v.status a ≡ unused
  pub none_retired : (w : ℕ) → (v.threads w).retired ≡ []
  pub none_reads : (t : ℕ) → v.readers t ≡ idle
