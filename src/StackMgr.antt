-- ===== src/StackMgr.antt =====
-- src/lib/core/stackmgr.c: stacks for threads, kept for reuse. A stack is its address, and a call under
-- the mutex is one step.
pub mod Pool
mod Runs
use poser.Prelude.{
  ℕ, suc, ◌+◌, ◌-◌, ◌*◌, ◌^◌, List, [], ◌∷◌, ◌++◌, Option, none, some, Bool, true, false, ltb, ◌==◌,
  if◌then◌else◌, length, get_or, set, take,
}
use poser.Prelude.Memory.{malloc, realloc}

-- STACKSCHUNK
abbrev pub stacks_chunk : ℕ
stacks_chunk = 16

-- what the pointer `stacks` is: null, a block of cells, or a block that is freed
pub data Block : Type 0 where
  null : Block
  block : List (Option ℕ) → Block
  dangling : Block

-- the static variables
pub record StackMgr : Type 0 where
  pub sz : ℕ
  pub stacks : Block
  pub nstacks : ℕ
  pub cstacks : ℕ

-- the static variables as they start
abbrev pub initial : StackMgr
initial = record { sz = 2 * 1024 * 1024; stacks = null; nstacks = 0; cstacks = 0 }

-- `StackMgr_setSize`: nothing where it answers -1
unfoldable pub set_size : StackMgr → ℕ → Option StackMgr
set_size s stacksz =
    let low = if ltb stacksz (64 * 1024) then 64 * 1024 else stacksz in
    let size = if ltb (16 * 1024 * 1024) low then 16 * 1024 * 1024 else low in
    elim s.stacks [ null ↦ some (record s { sz = size }) | block _ ↦ none | dangling ↦ none ]

-- the cells of a block that may be read and written
abbrev pub cells_of : Block → Option (List (Option ℕ))
cells_of null = some []
cells_of (block cells) = some cells
cells_of dangling = none

-- `StackMgr_getStack`, for the memory at `fresh` where there is no stack left; nothing if it reads a
-- freed block
unfoldable pub get_stack : StackMgr → ℕ → Option (Option ℕ × StackMgr)
get_stack s fresh =
    if ltb 0 s.nstacks
    then elim (cells_of s.stacks) [
      | none ↦ none
      | some cells ↦ some (get_or cells (s.nstacks - 1) none, record s { nstacks = s.nstacks - 1 })
    ]
    else some (some fresh, s)

-- `StackMgr_returnStack`; nothing if it uses a freed block
unfoldable pub return_stack : StackMgr → Option ℕ → Option StackMgr
return_stack s none = some s
return_stack s (some stack) = elim (cells_of s.stacks) [
  | none ↦ none
  | some cells ↦
      let full = s.nstacks == s.cstacks in
      let capa = if full then s.cstacks + stacks_chunk else s.cstacks in
      let cells' = if full then realloc cells capa else cells in
      some (record s {
        stacks = block (set cells' s.nstacks (some stack));
        nstacks = s.nstacks + 1;
        cstacks = capa;
      })
]

-- `StackMgr_clean`, with the stacks that it frees; nothing if it uses a freed block
unfoldable pub clean : StackMgr → Option (List (Option ℕ) × StackMgr)
clean s = elim (cells_of s.stacks) [
  | none ↦ none
  | some cells ↦ some (
    take s.nstacks cells,
    record s {
      stacks = elim s.stacks [ null ↦ null | block _ ↦ dangling | dangling ↦ dangling ];
      nstacks = 0;
      cstacks = 0;
    },
  )
]
