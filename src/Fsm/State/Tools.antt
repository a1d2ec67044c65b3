-- ===== src/Fsm/State/Tools.antt =====
-- runtime/engine/fsm/state.go: the tools that each state offers to the model.
use kugelblitz.Common.{String, List, [], ◌∷◌, ◌++◌}
use kugelblitz.Constants.{PlanState}

-- stateToolsMap; a state that is no key of it has a nil slice, which is empty.
unfoldable pub state_tools : PlanState → List String
state_tools (PlanState.other text) = []
state_tools PlanState.none = []
state_tools PlanState.intent = "set_work_mode" ∷ []
state_tools PlanState.direct =
    "shell_exec" ∷ "web_fetch" ∷ "web_search" ∷ "file_read" ∷ "file_write" ∷ "file_copy"
    ∷ "file_delete" ∷ "dir_create" ∷ "dir_copy" ∷ "memory_store" ∷ "memory_search"
    ∷ "memory_get_section" ∷ "memory_remove" ∷ "memory_list_sections" ∷ "memory_stats"
    ∷ "memory_extract" ∷ "context_compress" ∷ "skill_use" ∷ "ask_human" ∷ []
state_tools PlanState.init =
    "plan_create" ∷ "task_insert" ∷ "memory_store" ∷ "memory_search" ∷ "memory_get_section"
    ∷ "memory_remove" ∷ "memory_list_sections" ∷ "memory_stats" ∷ "memory_extract" ∷ "skill_use"
    ∷ []
state_tools PlanState.confirmed = "ask_human" ∷ "confirm_plan" ∷ "memory_extract" ∷ []
state_tools PlanState.doing = "task_query" ∷ "task_status_update" ∷ []
state_tools PlanState.updating =
    "memory_store" ∷ "memory_search" ∷ "memory_get_section" ∷ "memory_remove"
    ∷ "memory_list_sections" ∷ "memory_stats" ∷ "memory_extract" ∷ "skill_use" ∷ "task_insert"
    ∷ "task_delete" ∷ "task_query" ∷ "plan_query" ∷ []
state_tools PlanState.done = "task_query" ∷ "plan_query" ∷ "memory_extract" ∷ []
state_tools PlanState.failed = "task_query" ∷ "plan_query" ∷ "memory_extract" ∷ []
state_tools PlanState.rejected = []

-- ToolsForState; a state that is not registered has no tools, custom ones included.
unfoldable pub tools_for_state : PlanState → List String → List String
unfolding state_tools
tools_for_state (PlanState.other text) custom = []
tools_for_state PlanState.none custom = []
tools_for_state state custom = state_tools state ++ custom
