-- ===== src/Fsm/Context.antt =====
-- runtime/engine/fsm/context.go: what one run of the machine keeps, and what it depends on.
-- kernel.go wires GetPlan, PutPlan and LoadCheckpoint to the store, so they are the store's here.
use kugelblitz.Common.{ℕ, String, Bool, Option, none, some, List}
use kugelblitz.Working.Types.{Plan}
use kugelblitz.Working.Store.{Store, StoreError, Disk, get_plan}
use kugelblitz.Working.Validate.{ValidateError}
use kugelblitz.Message.{Message, MultiModalDetail}
use kugelblitz.Dag.{BatchResult}

-- A negative number of the configuration does what 0 does.
pub record MachineConfig : Type 0 where
  pub max_cycles : ℕ
  pub compress_max_attempts : ℕ
  pub keep_last_n : ℕ
  pub min_messages_to_compress : ℕ
  pub review_interval : ℕ
  pub max_failures_before_review : ℕ
  pub force_mode : String

pub record AgentInput : Type 0 where
  pub text : String
  pub media : List MultiModalDetail

pub data ReactError : Type 0 where
  context_length_exceeded : ReactError
  other_error : String → ReactError

-- `nil_plan` is the panic of ExecuteBatch on a nil plan.
pub data RunError : Type 0 where
  react_error : ReactError → RunError
  render_error : String → RunError
  unwritten : StoreError → RunError
  max_cycles_exceeded : RunError
  nil_plan : RunError

-- What ExecuteWithTools returns, and what its tool calls made of the store and the session.
pub record Reply : Type 0 where
  pub messages : List Message
  pub error : Option ReactError
  pub store : Store
  pub history : List Message

-- What happens during one ExecuteBatch, in order: writes to the plans, and calls of the callback.
pub data BatchEvent : Type 0 where
  wrote : Store → BatchEvent
  task_failed : (id goal reason : String) → BatchEvent

pub record Batch : Type 0 where
  pub events : List BatchEvent
  pub result : BatchResult

pub record PlanConfirmTaskParams : Type 0 where
  pub index : ℕ
  pub id : String
  pub goal : String
  pub action : String
  pub deps : String

pub record PlanFailedTaskParams : Type 0 where
  pub id : String
  pub goal : String
  pub reason : String

pub data PlanPrompt : Type 0 where
  plan_confirm : (name id : String) (tasks : List PlanConfirmTaskParams) → PlanPrompt
  plan_status :
      (name status : String) (done total failed : ℕ) (failed_tasks : List PlanFailedTaskParams)
      → PlanPrompt

pub data Rendered : Type 0 where
  rendered : String → Rendered
  unrendered : String → Rendered

-- Calls that only tell others: NotifyBeforeCompress, NotifyPlanRollback, and Cancel of the DAG.
pub data Notice : Type 0 where
  before_compress : Notice
  plan_rollback : (plan : String) (version : ℕ) (name : String) → Notice
  cancel_batch : Notice

-- The ReAct agent, the DAG executor, the reviewer, the session's compression, the prompts and Go's
-- formatting. The number is a clock: an answer of a language model is no function of its input.
pub record Dependencies : Type 0 where
  pub react : ℕ → Message → List Message → List String → Store → Reply
  pub batch : ℕ → Plan → Store → Batch
  pub review : Option (ℕ → (goal summary activity : String) → Bool)
  pub compress : ℕ → (keep_last_n min_to_compress : ℕ) → List Message → List Message
  pub config : MachineConfig
  pub disk : Disk
  pub range_order : ℕ → Plan → List String
  pub custom_tool_names : List String
  pub load_agent_context : String
  pub render_plan_prompt : PlanPrompt → Rendered
  pub planner_prompt : String → String
  pub new_message_id : ℕ → String
  pub validate_text : ValidateError → String
  pub decimal : ℕ → String
  pub quote : String → String
  pub cut : ℕ → String → String

-- `plan` is the object that ctx.Plan points to. GetPlan gave it, so the store's entry under its id
-- is the same object, and `refresh` reads it again after calls that may have written to it.
pub record Context : Type 0 where
  pub results : List Message
  pub plan : Option Plan
  pub plan_id : String
  pub work_mode : String
  pub step_count : ℕ
  pub task_fails : ℕ
  pub store : Store
  pub history : List Message
  pub notices : List Notice
  pub clock : ℕ

unfoldable pub refresh : Option Plan → Store → Option Plan
unfolding get_plan
refresh none s = none
refresh (some p) s = elim (get_plan p.id s) [ none ↦ some p | some q ↦ some q ]
