-- ===== src/StringBuilder/Runs.antt =====
-- Runs of stringbuilder.c, and the theorems at a concrete builder.
use poser.Prelude.{[], ◌++◌, take}
use poser.Prelude.Chars.{codes, strlen}
use poser.StringBuilder.{create, append}
use poser.StringBuilder.Append.{Holds, create-Holds, append-Holds}

append-Holds_example :
    Holds ([] ++ take (strlen (codes "poser")) (codes "poser")) (append create (codes "poser"))
append-Holds_example = append-Holds (codes "poser") create-Holds
