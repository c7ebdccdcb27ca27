-- ===== src/Queue.antt =====
-- src/lib/core/queue.c: a queue over an array with indices that go round, which doubles when full.
-- A `void *obj` is a value of any type; the null pointer that `dequeue` returns is `none`.
pub mod Positions
pub mod Valid
pub mod Refine
pub mod Runs
use mathlib.Core.Option
use poser.Prelude.{
  ℕ, zero, suc, ◌+◌, ◌-◌, ◌*◌, List, [], ◌∷◌, ◌++◌, Option, none, some, ◌==◌, if◌then◌else◌, get_or,
  set,
}
use poser.Prelude.Memory.{malloc, realloc, memmove}
use poser.Prelude.Owned.{Owned, Deleter, Call, delete}

-- QUEUEINITIALCAPA
abbrev pub initial_capa : ℕ
initial_capa = 8

pub record Queue {ℓ} (A : Type ℓ) : Type ℓ where
  pub entries : List (Option (Owned A))
  pub count : ℕ
  pub capa : ℕ
  pub front : ℕ
  pub back : ℕ

-- `if (++pos == capa) pos = 0`
abbrev pub advance : ℕ → ℕ → ℕ
advance capa pos = if pos + 1 == capa then 0 else pos + 1

module _ {ℓ} {A : Type ℓ} where
  unfoldable pub expand : Queue A → Queue A
  expand q =
      let newcapa = 2 * q.capa in
      let grown = realloc q.entries newcapa in
      if q.front == 0
      then record q { entries = grown; back = q.capa; capa = newcapa }
      else record q {
        entries = memmove grown (q.front + q.capa) q.front (q.capa - q.front);
        front = q.front + q.capa;
        capa = newcapa;
      }

  -- `PSC_Queue_create`
  unfoldable pub create : Queue A
  create = record {
    entries = malloc initial_capa;
    count = 0;
    capa = initial_capa;
    front = 0;
    back = 0;
  }

  -- what `PSC_Queue_enqueue` does once there is room
  unfoldable pub put : Queue A → A → Option Deleter → Queue A
  put q obj deleter = record q {
    entries = set q.entries q.back (some (record { obj = obj; deleter = deleter }));
    back = advance q.capa q.back;
    count = q.count + 1;
  }

  -- `PSC_Queue_enqueue`
  unfoldable pub enqueue : Queue A → A → Option Deleter → Queue A
  enqueue q obj deleter = put (if q.count == q.capa then expand q else q) obj deleter

  -- `PSC_Queue_dequeue`
  unfoldable pub dequeue : Queue A → Option A × Queue A
  dequeue q = if q.count == 0 then (none, q) else (
    Option.map (λ e. e.obj) (get_or q.entries q.front none),
    record q { front = advance q.capa q.front; count = q.count - 1 },
  )

  -- the loop of `PSC_Queue_destroy`: `left` rounds to go, at `pos`
  unfoldable pub destroy_loop : List (Option (Owned A)) → ℕ → ℕ → ℕ → List (Call A)
  destroy_loop entries capa zero pos = []
  destroy_loop entries capa (suc left) pos =
      elim (get_or entries pos none) [ none ↦ [] | some e ↦ delete e ]
      ++ destroy_loop entries capa left (advance capa pos)

  -- the calls of `PSC_Queue_destroy`, before it frees its memory
  unfoldable pub destroy : Queue A → List (Call A)
  destroy q = destroy_loop q.entries q.capa q.count q.front
