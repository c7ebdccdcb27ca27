-- ===== src/StackMgr/Runs.antt =====
-- Runs of stackmgr.c.
use poser.Prelude.{◌≡◌, refl, [], ◌∷◌, none, some, arith}
use poser.StackMgr.{block, dangling, StackMgr, initial, get_stack, return_stack, clean}
use poser.StackMgr.Pool.{Models, get_stack-return_stack}

initial-Models : Models initial []
initial-Models = record {
  cells = [];
  readable = refl;
  capa = refl;
  count = refl;
  room = omega arith;
  held = refl;
}

get_stack-return_stack_example :
    (s' : StackMgr) × (s'' : StackMgr) × (return_stack initial (some 4096) ≡ some s')
    × Models s' (4096 ∷ [])
    × (get_stack s' 8192 ≡ some (some 4096, s''))
    × Models s'' []
get_stack-return_stack_example = get_stack-return_stack 4096 8192 initial-Models

abbrev with_one : StackMgr
with_one = record initial { stacks = block (some 4096 ∷ []); nstacks = 1; cstacks = 1 }

abbrev cleaned : StackMgr
cleaned = record initial { stacks = dangling }

clean_one : clean with_one ≡ some (some 4096 ∷ [], cleaned)
unfolding clean
clean_one = refl

-- A stack that is returned after `StackMgr_clean` goes to the block that is freed.
after_clean : return_stack cleaned (some 4096) ≡ none
unfolding return_stack
after_clean = refl
