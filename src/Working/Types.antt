-- ===== src/Working/Types.antt =====
-- memory/working/working.go and core/types/message.go (Usage): the data of plans and tasks.
use kugelblitz.Common.{ℕ, String, Bool, true, false, Option, List, map}
use kugelblitz.Constants.{PlanState}

-- int64 counters: they are copied and never computed with, so they stand as natural numbers.
pub record Usage : Type 0 where
  pub total_tokens : ℕ
  pub input_tokens : ℕ
  pub cached_tokens : ℕ
  pub reasoning_tokens : ℕ
  pub output_tokens : ℕ

-- A missing entry of a map of statuses is `none` of `Option TaskStatus`.
pub data TaskStatus : Type 0 where
  pending doing done failed : TaskStatus

pub record Task : Type 0 where
  pub id : String
  pub parent_task_id : String
  pub goal : String
  pub status : TaskStatus
  pub finished_reason : String
  pub action : String
  pub usage : Option Usage

-- The mutex is left out: each operation of the model is one critical section.
pub record Plan : Type 0 where
  pub id : String
  pub session_id : String
  pub name : String
  pub sub_tasks : List Task
  pub current_activate_sub_task_ids : List String
  pub state : PlanState
  pub finished_reason : String
  pub version : ℕ

-- The timestamp is left out: nothing reads it.
pub record Checkpoint : Type 0 where
  pub version : ℕ
  pub reason : String
  pub plan : Plan

abbrev pub is_pending : TaskStatus → Bool
is_pending TaskStatus.pending = true
is_pending _ = false

abbrev pub is_done : TaskStatus → Bool
is_done TaskStatus.done = true
is_done _ = false

abbrev pub task_ids : List Task → List String
task_ids tasks = map (λ (t : Task). t.id) tasks

-- (p *Plan) IsIncomplete
unfoldable pub is_incomplete : Plan → Bool
is_incomplete p = elim p.state [
  | PlanState.confirmed ↦ true
  | PlanState.doing ↦ true
  | PlanState.updating ↦ true
  | _ ↦ false
]
