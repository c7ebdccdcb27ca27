-- ===== src/Util/Runs.antt =====
-- Runs of the string helpers of util.c.
use poser.Prelude.{arith, ℕ, ◌+◌, ◌≡◌, refl, [], ◌∷◌, ◌++◌, some, map, ltb, if◌then◌else◌}
use poser.Prelude.Chars.{codes}
use poser.Util.{copystr, lower_loop, lowerstr, joinstr, basename}
use poser.Util.Strings.{joined, joinstr-joined}
use poser.Util.Basename.{basename-last}

-- `tolower` in the locale "C"
abbrev to_lower : ℕ → ℕ
to_lower c = if ltb 64 c then (if ltb c 91 then c + 32 else c) else c

lowerstr_run :
    lowerstr to_lower (some (codes "Poser 2")) ≡ some (map some (codes "poser 2" ++ 0 ∷ []))
unfolding lowerstr copystr lower_loop
lowerstr_run = refl

joinstr-joined_example :
    joinstr (codes ", ") (codes "one" ∷ codes "two" ∷ [])
    ≡ some (map some (codes "one, two" ++ 0 ∷ []))
unfolding joined
joinstr-joined_example =
    joinstr-joined (codes ", ") (codes "one") (codes "two" ∷ []) (omega arith) (omega arith)

basename-last_example :
    (basename (codes "/usr/bin/poser") ≡ codes "poser") × (basename (codes "poser") ≡ codes "poser")
basename-last_example =
    basename-last (codes "/usr/bin") (codes "poser") (refl, (refl, (refl, (refl, (refl, tt)))))
