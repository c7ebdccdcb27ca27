-- ===== src/PscList/Runs.antt =====
-- Runs of list.c, and the theorems at concrete lists.

use poser.Prelude.{ℕ, ◌≡◌, refl, List, [], ◌∷◌, some, not, ◌==◌, arith}
use poser.Prelude.Memory.{memmove}
use poser.Prelude.Owned.{Owned}
use poser.Prelude.Chars.{codes}
use poser.PscList.Words.{Cut, from_string-Cut}
use poser.PscList.{from_string, PscList, create, append, remove_at, remove_all_loop, remove_all}
use poser.PscList.Models.{Models, create-Models, append-Models}
use poser.PscList.Remove.{remove_all-Models}

-- an object with the deleter at address 7
abbrev owned : ℕ → Owned ℕ
owned n = record { obj = n; deleter = some 7 }

abbrev abc : PscList ℕ
abc = append (append (append create 1 (some 7)) 2 (some 7)) 3 (some 7)

abbrev objects : List (Owned ℕ)
objects = owned 1 ∷ owned 2 ∷ owned 3 ∷ []

abc-Models : Models objects abc
abc-Models =
    append-Models 3 (some 7) (append-Models 2 (some 7) (append-Models 1 (some 7) create-Models))

remove_all_odd : (remove_all abc (λ n. not (n == 2))).0 ≡ (7, 1) ∷ (7, 3) ∷ []
unfolding remove_all remove_all_loop remove_at memmove append create
remove_all_odd = refl

remove_all-Models_example :
    ((remove_all abc (λ n. n == 2)).0 ≡ (7, 2) ∷ [])
    × Models (owned 1 ∷ owned 3 ∷ []) (remove_all abc (λ n. n == 2)).1
remove_all-Models_example = remove_all-Models (λ n. n == 2) (omega arith) abc-Models

from_string-Cut_example :
    Cut (λ c. c == 32) 7 (codes " a bc ") (from_string (λ c. c == 32) 7 (codes " a bc "))
from_string-Cut_example = from_string-Cut (λ c. c == 32) 7 (codes " a bc ")
