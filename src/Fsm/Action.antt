-- ===== src/Fsm/Action.antt =====
-- runtime/engine/fsm/action.go and handleDrift of machine.go.
use Prim.Native.String.{len}
use kugelblitz.Common.{
  ℕ, zero, suc, ◌+◌, ◌-◌, ◌%◌, String, Bool, true, false, ◌&&◌, ◌||◌, Option, none, some, List, [],
  ◌∷◌, ◌++◌, if◌then◌else◌, length, ltb, leb, ◌==◌, is_empty, ◌+ˢ◌,
}
use kugelblitz.Constants.{RoleType, PlanState, same_state, state_text}
use kugelblitz.Working.Types.{Task, TaskStatus, Plan, Checkpoint, is_done}
use kugelblitz.Working.Store.{insert_plan, get_plan, load_checkpoint, persist}
use kugelblitz.Message.{
  Message, Content, text_content, Parts, end, part, multi_modal_content, composite_content,
  MultiModalDetail,
}
use kugelblitz.Dag.{BatchResult}
use kugelblitz.Fsm.Context.{
  AgentInput, ReactError, context_length_exceeded, RunError, react_error, render_error, Reply,
  BatchEvent, wrote, task_failed, PlanConfirmTaskParams, PlanFailedTaskParams, PlanPrompt,
  plan_confirm, plan_status, Rendered, rendered, unrendered, before_compress, plan_rollback,
  cancel_batch, Dependencies, Context, refresh,
}
use kugelblitz.Fsm.State.Tools.{tools_for_state}

-- NewSystemMessage and NewUserMessage, with an id from the clock.
abbrev pub new_message : Dependencies → RoleType → Content → Context → Message
new_message deps role content c = record {
  id = deps.new_message_id c.clock;
  role = role;
  content = some content;
  finish_reason = "";
  usage = none;
}

-- Session.AppendMessage
abbrev pub append_message : Message → Context → Context
append_message m c = record c { history = c.history ++ m ∷ []; clock = c.clock + 1 }

abbrev pub append_system : Dependencies → String → Context → Context
append_system deps text c =
    append_message (new_message deps RoleType.system (text_content text) c) c

unfoldable pub media_parts : List MultiModalDetail → Parts
media_parts [] = end
media_parts (d ∷ ds) = part (multi_modal_content d) (media_parts ds)

-- (ai AgentInput) BuildUserMessage
abbrev pub user_content : AgentInput → Content
user_content input = elim input.media [
  | [] ↦ text_content input.text
  | _ ∷ _ ↦ composite_content (part (text_content input.text) (media_parts input.media))
]

unfoldable pub confirm_tasks : ℕ → List Task → List PlanConfirmTaskParams
confirm_tasks i [] = []
confirm_tasks i (t ∷ ts) =
    record {
      index = i + 1;
      id = t.id;
      goal = t.goal;
      action = t.action;
      deps = if is_empty t.parent_task_id then "none" else t.parent_task_id;
    }
    ∷ confirm_tasks (i + 1) ts

unfoldable pub build_plan_confirm_params : Plan → PlanPrompt
unfolding confirm_tasks
build_plan_confirm_params p = plan_confirm p.name p.id (confirm_tasks 0 p.sub_tasks)

abbrev pub is_failed : TaskStatus → Bool
is_failed TaskStatus.failed = true
is_failed _ = false

unfoldable pub count_tasks : (TaskStatus → Bool) → List Task → ℕ
count_tasks f [] = 0
count_tasks f (t ∷ ts) = let rest = count_tasks f ts in if f t.status then suc rest else rest

-- `reason[:200]` counts bytes, so the cut is Go's.
abbrev pub short_reason : Dependencies → String → String
short_reason deps reason =
    if is_empty reason
    then "(no reason)"
    else if ltb 200 (len reason)
    then deps.cut 200 reason +ˢ "..."
    else reason

unfoldable pub failed_tasks : Dependencies → List Task → List PlanFailedTaskParams
failed_tasks deps [] = []
failed_tasks deps (t ∷ ts) =
    let rest = failed_tasks deps ts in
    if is_failed t.status
    then record { id = t.id; goal = t.goal; reason = short_reason deps t.finished_reason } ∷ rest
    else rest

unfoldable pub build_plan_status_params : Dependencies → Plan → PlanPrompt
unfolding count_tasks failed_tasks
build_plan_status_params deps p =
    plan_status p.name (state_text p.state) (count_tasks is_done p.sub_tasks) (length p.sub_tasks)
      (count_tasks is_failed p.sub_tasks) (failed_tasks deps p.sub_tasks)

-- What buildPrompt writes for the plan.
abbrev plan_part : Dependencies → PlanState → Option Plan → Rendered
plan_part deps state none = rendered ""
plan_part deps state (some p) =
    elim (deps.render_plan_prompt (
      if same_state state PlanState.confirmed
      then build_plan_confirm_params p
      else build_plan_status_params deps p)) [
        | rendered t ↦ rendered (t +ˢ "\n\n")
        | unrendered e ↦ unrendered ("render plan prompt: " +ˢ e)
      ]

unfoldable pub build_prompt : Dependencies → PlanState → Option Plan → Rendered
unfolding same_state build_plan_confirm_params build_plan_status_params
build_prompt deps state plan = elim (plan_part deps state plan) [
  | unrendered e ↦ unrendered e
  | rendered t ↦ rendered (
      (if is_empty deps.load_agent_context then "" else deps.load_agent_context +ˢ "\n\n")
      +ˢ t
      +ˢ deps.planner_prompt (state_text state))
]

-- The answer of an action, and the context after it.
pub record Acted : Type 0 where
  pub messages : List Message
  pub error : Option RunError
  pub context : Context

abbrev pub landed : Reply → Context → Context
landed reply c = record c {
  plan = refresh c.plan reply.store;
  store = reply.store;
  history = reply.history;
  clock = c.clock + 1;
}

unfoldable pub call_react : Dependencies → Message → List String → Context → Reply
call_react deps sys tools c = deps.react c.clock sys c.history tools c.store

abbrev pub is_context_exceeded : Option ReactError → Bool
is_context_exceeded (some context_length_exceeded) = true
is_context_exceeded _ = false

abbrev pub to_run_error : Option ReactError → Option RunError
to_run_error none = none
to_run_error (some e) = some (react_error e)

-- NotifyBeforeCompress and Compress, whose error is dropped.
abbrev pub compressed : Dependencies → Context → Context
compressed deps c = record c {
  notices = before_compress ∷ c.notices;
  history =
      deps.compress c.clock deps.config.keep_last_n deps.config.min_messages_to_compress c.history;
  clock = c.clock + 1;
}

-- The attempts of handleContextExceeded that are left.
unfoldable pub handle_context_exceeded : Dependencies → Message → List String → ℕ → Context → Acted
unfolding call_react refresh
handle_context_exceeded deps sys tools zero c = record {
  messages = [];
  error = some (react_error context_length_exceeded);
  context = c;
}
handle_context_exceeded deps sys tools (suc n) c =
    let c' = compressed deps c in
    let reply = call_react deps sys tools c' in
    let after = landed reply c' in
    let rest = handle_context_exceeded deps sys tools n after in
    if is_context_exceeded reply.error
    then rest
    else record { messages = reply.messages; error = to_run_error reply.error; context = after }

-- (a *ReactAction) Execute
unfoldable pub react_action : Dependencies → PlanState → Option Plan → Context → Acted
unfolding build_prompt call_react refresh handle_context_exceeded tools_for_state
react_action deps state plan c = elim (build_prompt deps state plan) [
  | unrendered e ↦ record { messages = []; error = some (render_error e); context = c }
  | rendered prompt ↦
      let sys = new_message deps RoleType.system (text_content prompt) c in
      let tools = tools_for_state state deps.custom_tool_names in
      let reply = call_react deps sys tools c in
      let after = landed reply c in
      if is_context_exceeded reply.error
      then handle_context_exceeded deps sys tools deps.config.compress_max_attempts after
      else record { messages = reply.messages; error = to_run_error reply.error; context = after }
]

unfoldable pub should_review : Dependencies → Context → Bool
should_review deps c = elim deps.review [
  | none ↦ false
  | some _ ↦
      (ltb 0 deps.config.review_interval && (c.task_fails % deps.config.review_interval == 0))
      || (ltb 0 deps.config.max_failures_before_review
          && leb deps.config.max_failures_before_review c.task_fails)
]

unfoldable pub fmt_plan_summary : Dependencies → Plan → String
fmt_plan_summary deps p =
    "Plan "
    +ˢ deps.quote p.name
    +ˢ " (v"
    +ˢ deps.decimal p.version
    +ˢ ", status="
    +ˢ state_text p.state
    +ˢ "), "
    +ˢ deps.decimal (length p.sub_tasks)
    +ˢ " tasks"

unfoldable pub rolled_back : String → Checkpoint → Plan → Plan
rolled_back reason cp p = record p {
  name = cp.plan.name;
  sub_tasks = cp.plan.sub_tasks;
  current_activate_sub_task_ids = cp.plan.current_activate_sub_task_ids;
  state = PlanState.updating;
  finished_reason = "drift: " +ˢ reason;
}

abbrev drift_text : Dependencies → String → ℕ → String
drift_text deps reason version =
    "⚠\u{fe0f} 自动审查检测到执行可能偏离目标（"
    +ˢ reason
    +ˢ "），计划已回滚至版本 "
    +ˢ deps.decimal version
    +ˢ "。请根据当前任务进度和目标偏差，调整任务计划，完成后系统将进入确认阶段。"

-- The plan object is written in place, in the context and in the store, and saved to its file; an
-- error of Persist is dropped, and no checkpoint is written.
unfoldable pub roll_back : Dependencies → String → Plan → Checkpoint → Context → Context
unfolding rolled_back persist insert_plan
roll_back deps reason p cp c =
    let p' = rolled_back reason cp p in
    let (s, _) = persist deps.disk p' (record c.store { plans = insert_plan p' c.store.plans }) in
    let c' =
      append_system deps (drift_text deps reason (p.version - 1))
        (record c { plan = some p'; store = s; notices = cancel_batch ∷ c.notices }) in
    record c' { notices = plan_rollback p'.id (p.version - 1) p'.name ∷ c'.notices }

-- (m *Machine) handleDrift
unfoldable pub handle_drift : Dependencies → String → Context → Context
unfolding roll_back load_checkpoint
handle_drift deps reason c = elim c.plan [
  | none ↦ c
  | some p ↦ if leb p.version 1 then c else elim (load_checkpoint p.id (p.version - 1) c.store) [
    | none ↦ c
    | some cp ↦ roll_back deps reason p cp c
  ]
]

abbrev pub reviewed : Dependencies → String → String → Plan → Context → Bool
reviewed deps goal reason p c = elim deps.review [
  | none ↦ false
  | some f ↦ f c.clock goal (fmt_plan_summary deps p) reason
]

-- The callback of DAGAction; a review takes a tick of the clock.
unfoldable pub on_task_failed : Dependencies → AgentInput → String → Context → Context
unfolding should_review fmt_plan_summary handle_drift get_plan
on_task_failed deps input reason c =
    let c' = record c { task_fails = c.task_fails + 1 } in
    if should_review deps c'
    then elim (get_plan c'.plan_id c'.store) [
      | none ↦ c'
      | some p ↦
          let c'' = record c' { clock = c'.clock + 1 } in
          if reviewed deps input.text reason p c' then handle_drift deps reason c'' else c''
    ]
    else c'

unfoldable pub batch_event : Dependencies → AgentInput → BatchEvent → Context → Context
unfolding on_task_failed refresh
batch_event deps input (wrote s) c = record c { plan = refresh c.plan s; store = s }
batch_event deps input (task_failed id goal reason) c = on_task_failed deps input reason c

unfoldable pub batch_events : Dependencies → AgentInput → List BatchEvent → Context → Context
unfolding batch_event
batch_events deps input [] c = c
batch_events deps input (e ∷ es) c = batch_events deps input es (batch_event deps input e c)

-- (a *DAGAction) Execute, which returns no error, for a plan that is not nil.
unfoldable pub dag_action : Dependencies → AgentInput → Plan → Context → BatchResult × Context
unfolding batch_events
dag_action deps input p c =
    let b = deps.batch c.clock p c.store in
    (b.result, batch_events deps input b.events (record c { clock = c.clock + 1 }))
