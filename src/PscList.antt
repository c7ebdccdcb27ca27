-- ===== src/PscList.antt =====
-- src/lib/core/list.c: a growing array of owned objects, and its iterator over a copy.
-- A `void *obj` is a value of any type; the null pointer that a read returns is `none`.
pub mod Models
pub mod Remove
pub mod Iterate
pub mod Words
pub mod Runs
use mathlib.Core.Option
use poser.Prelude.{
  ℕ, zero, suc, ◌+◌, ◌-◌, ◌*◌, ◌%◌, ◌^◌, List, [], ◌∷◌, ◌++◌, Option, none, some, Bool, true, false,
  ◌&&◌, ltb, leb, ◌==◌, if◌then◌else◌, get_or, set, take,
}
use poser.Prelude.Memory.{malloc, realloc, memmove}
use poser.Prelude.Owned.{Owned, Deleter, Call, delete}

-- INITIALCAPA
abbrev pub initial_capa : ℕ
initial_capa = 8

-- PSC_List
pub record PscList {ℓ} (A : Type ℓ) : Type ℓ where
  pub items : List (Option (Owned A))
  pub capa : ℕ
  pub count : ℕ

-- PSC_ListIterator
pub record Iterator {ℓ} (A : Type ℓ) : Type ℓ where
  pub count : ℕ
  pub pos : ℕ
  pub items : List (Option (Owned A))

-- `++i` and `--i` on a `size_t`
abbrev pub inc_size : ℕ → ℕ
inc_size i = (i + 1) % 2 ^ 64

abbrev pub dec_size : ℕ → ℕ
dec_size i = (i + 2 ^ 64 - 1) % 2 ^ 64

module _ {ℓ} {A : Type ℓ} where
  -- `PSC_List_create`
  unfoldable pub create : PscList A
  create = record { items = malloc initial_capa; capa = initial_capa; count = 0 }

  -- `PSC_List_size`
  unfoldable pub size : PscList A → ℕ
  size l = l.count

  -- the object in a cell
  abbrev pub obj_at : List (Option (Owned A)) → ℕ → Option A
  obj_at items i = Option.map (λ e. e.obj) (get_or items i none)

  -- `PSC_List_at`
  unfoldable pub at : PscList A → ℕ → Option A
  at l idx = if leb l.count idx then none else obj_at l.items idx

  -- `PSC_List_append`
  unfoldable pub append : PscList A → A → Option Deleter → PscList A
  append l obj deleter =
      let full = l.count == l.capa in
      let capa = if full then l.capa * 2 else l.capa in
      let items = if full then realloc l.items capa else l.items in
      record {
        items = set items l.count (some (record { obj = obj; deleter = deleter }));
        capa = capa;
        count = l.count + 1;
      }

  -- `removeAt`, with the calls that it makes
  unfoldable pub remove_at : PscList A → ℕ → Bool → List (Call A) × PscList A
  remove_at l i del = (
    if del then elim (get_or l.items i none) [ none ↦ [] | some e ↦ delete e ] else [],
    record l {
      items = if ltb i (l.count - 1) then memmove l.items i (i + 1) (l.count - i - 1) else l.items;
      count = l.count - 1;
    },
  )

  -- the loop of `PSC_List_remove` from `i` on, `left` items before the end; `same` compares pointers
  unfoldable pub remove_loop : (A → A → Bool) → A → ℕ → ℕ → PscList A → PscList A
  remove_loop same obj zero i l = l
  remove_loop same obj (suc left) i l = elim (obj_at l.items i) [
    | none ↦ remove_loop same obj left (i + 1) l
    | some o ↦ elim (same o obj) [
      | true ↦ (remove_at l i false).1
      | false ↦ remove_loop same obj left (i + 1) l
    ]
  ]

  -- `PSC_List_remove`
  unfoldable pub remove : (A → A → Bool) → PscList A → A → PscList A
  remove same l obj = remove_loop same obj l.count 0 l

  -- the loop of `PSC_List_removeAll`; a round removes an item or passes one, so `count` rounds do.
  -- `i` is set back by one after a removal, below 0 at the first item.
  unfoldable pub remove_all_loop : (A → Bool) → ℕ → ℕ → PscList A → List (Call A) × PscList A
  remove_all_loop matcher zero i l = ([], l)
  remove_all_loop matcher (suc fuel) i l = elim (ltb i l.count) [
    | false ↦ ([], l)
    | true ↦ elim (obj_at l.items i) [
      | none ↦ remove_all_loop matcher fuel (inc_size i) l
      | some o ↦ elim (matcher o) [
        | false ↦ remove_all_loop matcher fuel (inc_size i) l
        | true ↦
            let (calls, l') = remove_at l i true in
            let (more, l'') = remove_all_loop matcher fuel (inc_size (dec_size i)) l' in
            (calls ++ more, l'')
      ]
    ]
  ]

  -- `PSC_List_removeAll`; the matcher has its `arg` inside
  unfoldable pub remove_all : PscList A → (A → Bool) → List (Call A) × PscList A
  remove_all l matcher = remove_all_loop matcher l.count 0 l

  -- the loop of `PSC_List_clear`
  unfoldable pub clear_loop : List (Option (Owned A)) → ℕ → ℕ → List (Call A)
  clear_loop items zero i = []
  clear_loop items (suc left) i =
      elim (get_or items i none) [ none ↦ [] | some e ↦ delete e ] ++ clear_loop items left (i + 1)

  -- `PSC_List_clear`; `PSC_List_destroy` makes the same calls and frees the memory
  unfoldable pub clear : PscList A → List (Call A) × PscList A
  clear l = (clear_loop l.items l.count 0, record l { count = 0 })

  -- `PSC_List_iterator`
  unfoldable pub iterator : PscList A → Iterator A
  iterator l = record { count = l.count; pos = l.count; items = take l.count l.items }

  -- `PSC_ListIterator_moveNext`
  unfoldable pub move_next : Iterator A → Bool × Iterator A
  move_next it =
      let pos = if leb it.count it.pos then 0 else it.pos + 1 in
      (ltb pos it.count, record it { pos = pos })

  -- `PSC_ListIterator_current`
  unfoldable pub current : Iterator A → Option A
  current it = if leb it.count it.pos then none else obj_at it.items it.pos

-- a word added to the list of `PSC_List_fromString`, which is made for the first one
unfoldable pub add_word : Deleter → List ℕ → Option (PscList (List ℕ)) → Option (PscList (List ℕ))
add_word free [] list = list
add_word free (c ∷ cs) none = some (append create (c ∷ cs) (some free))
add_word free (c ∷ cs) (some l) = some (append l (c ∷ cs) (some free))

-- the loop of `PSC_List_fromString`: `strsep` cuts the string at each delimiter; `word` is the part
-- since the last one
unfoldable pub from_string_loop :
    (ℕ → Bool) → Deleter → List ℕ → List ℕ → Option (PscList (List ℕ)) → Option (PscList (List ℕ))
from_string_loop is_delim free word [] list = add_word free word list
from_string_loop is_delim free word (c ∷ str) list = elim (is_delim c) [
  | true ↦ from_string_loop is_delim free [] str (add_word free word list)
  | false ↦ from_string_loop is_delim free (word ++ c ∷ []) str list
]

-- `PSC_List_fromString`; `free` is the address of the function
unfoldable pub from_string : (ℕ → Bool) → Deleter → List ℕ → Option (PscList (List ℕ))
from_string is_delim free str = from_string_loop is_delim free [] str none
