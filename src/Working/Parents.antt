-- ===== src/Working/Parents.antt =====
-- SplitParentIDs of memory/working/working.go.
use kugelblitz.Common.{String, List, [], ◌∷◌, is_empty, trim_space, split_comma, if◌then◌else◌}
use kugelblitz.Working.Types.{Task}

-- The body of the loop: trim each part, and keep the ones that are not empty.
keep_parts : List String → List String
keep_parts [] = []
keep_parts (p ∷ ps) =
    let rest = keep_parts ps in let p' = trim_space p in if is_empty p' then rest else p' ∷ rest

unfoldable pub split_parent_ids : String → List String
unfolding keep_parts
split_parent_ids raw =
    let raw' = trim_space raw in if is_empty raw' then [] else keep_parts (split_comma raw')

abbrev pub parents : Task → List String
parents t = split_parent_ids t.parent_task_id
