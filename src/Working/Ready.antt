-- ===== src/Working/Ready.antt =====
-- ReadyTasks and allParentsDone of memory/working/working.go.
pub mod Spec
use kugelblitz.Common.{
  String, Bool, true, false, ◌&&◌, Option, none, some, List, [], ◌∷◌, if◌then◌else◌, ◌=ˢ◌, keep,
}
use kugelblitz.Working.Types.{TaskStatus, Task, Plan, is_pending, is_done}
use kugelblitz.Working.Parents.{parents}

-- `statusMap`; a task overwrites the entry of an earlier one with its id.
abbrev pub StatusMap : Type 0
StatusMap = String → Option TaskStatus

pub mark_status : List Task → StatusMap → StatusMap
mark_status [] m = m
mark_status (t ∷ ts) m = mark_status ts (λ j. if t.id =ˢ j then some t.status else m j)

unfoldable pub status_map : List Task → StatusMap
unfolding mark_status
status_map tasks = mark_status tasks (λ _. none)

abbrev pub entry_done : Option TaskStatus → Bool
entry_done none = false
entry_done (some s) = is_done s

unfoldable pub all_parents_done : List String → StatusMap → Bool
all_parents_done [] m = true
all_parents_done (p ∷ ps) m =
    let rest = all_parents_done ps m in if entry_done (m p) then rest else false

-- The tests of the loop of ReadyTasks on one task.
unfoldable pub is_ready : StatusMap → Task → Bool
is_ready m t = is_pending t.status && all_parents_done (parents t) m

unfoldable pub ready_tasks : Plan → List Task
ready_tasks plan = keep (is_ready (status_map plan.sub_tasks)) plan.sub_tasks
