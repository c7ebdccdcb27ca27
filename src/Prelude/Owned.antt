-- ===== src/Prelude/Owned.antt =====
-- Objects that a container owns. The header files give every `void *obj` a `deleter`, called on
-- the object when the container drops it, unless it is null.
use Prim.Native.Nat.{ℕ}
use mathlib.Core.List.{List, [], ◌∷◌, ◌++◌}
use mathlib.Core.Option.{Option, none, some}

-- the address of a deleter function
abbrev pub Deleter : Type 0
Deleter = ℕ

pub record Owned {ℓ} (A : Type ℓ) : Type ℓ where
  pub obj : A
  pub deleter : Option Deleter

-- A call of a deleter on an object; operations return the calls that they make, in order.
abbrev pub Call {ℓ} : Type ℓ → Type ℓ
Call A = Deleter × A

module _ {ℓ} {A : Type ℓ} where
  -- `if (e.deleter) e.deleter(e.obj)`
  abbrev pub delete : Owned A → List (Call A)
  delete e = elim e.deleter [ none ↦ [] | some d ↦ (d, e.obj) ∷ [] ]

  -- `delete` on each of the objects, in order
  abbrev pub delete_all : List (Owned A) → List (Call A)
  delete_all [] = []
  delete_all (e ∷ es) = delete e ++ delete_all es
