-- ===== src/Fsm/State.antt =====
-- runtime/engine/fsm/state.go: what each state does, and which state it asks for next.
pub mod Tools
use kugelblitz.Common.{
  String, Bool, true, false, Option, none, some, List, [], ◌∷◌, ◌++◌, if◌then◌else◌, ◌=ˢ◌, is_empty,
  ◌+ˢ◌,
}
use kugelblitz.Constants.{PlanState, same_state}
use kugelblitz.Working.Types.{Plan}
use kugelblitz.Working.Validate.{validate}
use kugelblitz.Working.Store.{get_plan}
use kugelblitz.Message.{Message, extract_tool_result, text_or_empty}
use kugelblitz.Dag.{BatchResult}
use kugelblitz.Fsm.Context.{
  MachineConfig, AgentInput, ReactError, context_length_exceeded, other_error, RunError,
  react_error, render_error, unwritten, max_cycles_exceeded, nil_plan, Reply, BatchEvent, wrote,
  task_failed, Batch, PlanConfirmTaskParams, PlanFailedTaskParams, PlanPrompt, plan_confirm,
  plan_status, Rendered, rendered, unrendered, Notice, before_compress, plan_rollback, cancel_batch,
  Dependencies, Context, refresh,
}
use kugelblitz.Fsm.Action.{
  new_message, append_message, append_system, Acted, react_action, dag_action,
}

pub data Verdict : Type 0 where
  next : PlanState → Verdict
  stop : RunError → Verdict

pub record Executed : Type 0 where
  pub verdict : Verdict
  pub context : Context

abbrev pub executed : Verdict → Context → Executed
executed v c = record { verdict = v; context = c }

abbrev pub on_success : Acted → (Context → Executed) → Executed
on_success a k = elim a.error [ some e ↦ executed (stop e) a.context | none ↦ k a.context ]

abbrev pub is_plan_mode : Context → PlanState
is_plan_mode c = if c.work_mode =ˢ "plan" then PlanState.init else PlanState.direct

-- What IntentState does after its action.
abbrev pub after_intent : List Message → Context → Executed
after_intent messages c =
    let c' = record c {
      work_mode = text_or_empty (extract_tool_result messages "set_work_mode" "mode");
    } in
    executed (next (is_plan_mode c')) c'

unfoldable pub execute_intent : Dependencies → Context → Executed
unfolding react_action extract_tool_result
execute_intent deps c =
    let a = react_action deps PlanState.intent none c in on_success a (after_intent a.messages)

abbrev pub after_summary : PlanState → List Message → Context → Executed
after_summary state messages c =
    executed (next state) (record c { results = c.results ++ messages })

-- A state that adds the answer to the results and asks for itself: direct, done and failed.
unfoldable pub execute_summary : Dependencies → PlanState → Option Plan → Context → Executed
unfolding react_action
execute_summary deps state plan c =
    let a = react_action deps state plan c in on_success a (after_summary state a.messages)

-- The plan of this id, if it is not nil.
unfoldable pub plan_of : String → Context → Option Plan
unfolding get_plan
plan_of id c = if is_empty id then none else get_plan id c.store

abbrev pub checked : Dependencies → (String → String) → PlanState → Plan → Context → Executed
checked deps text otherwise p c = elim (validate (deps.range_order c.clock p) p) [
  | some e ↦ executed (next otherwise) (append_system deps (text (deps.validate_text e)) c)
  | none ↦ executed (next PlanState.confirmed) (record c { plan = some p })
]

abbrev pub invalid_text : String → String
invalid_text e =
    "[System] Plan validation failed: " +ˢ e +ˢ ". Please fix and re-create with plan_create."

abbrev pub still_invalid_text : String → String
still_invalid_text e = "[System] Plan still invalid after fix: " +ˢ e +ˢ "."

-- What InitState does after its action.
abbrev pub after_init : Dependencies → List Message → Context → Executed
after_init deps messages c =
    let c' = record c {
      plan_id = text_or_empty (extract_tool_result messages "plan_create" "id");
    } in
    elim (plan_of c'.plan_id c') [
      | none ↦ executed (next PlanState.direct) c'
      | some p ↦ checked deps invalid_text PlanState.updating p c'
    ]

unfoldable pub execute_init : Dependencies → Context → Executed
unfolding react_action extract_tool_result plan_of validate
execute_init deps c =
    let a = react_action deps PlanState.init none c in on_success a (after_init deps a.messages)

abbrev pub after_confirmed : Context → Executed
after_confirmed c = elim (plan_of c.plan_id c) [
  | none ↦ executed (next PlanState.confirmed) c
  | some p ↦
      executed
        (next (if same_state p.state PlanState.confirmed then PlanState.confirmed else p.state)) c
]

unfoldable pub execute_confirmed : Dependencies → Context → Executed
unfolding react_action plan_of same_state
execute_confirmed deps c =
    on_success (react_action deps PlanState.confirmed c.plan c) after_confirmed

unfoldable pub execute_doing : Dependencies → AgentInput → Context → Executed
unfolding dag_action
execute_doing deps input c = elim c.plan [
  | none ↦ executed (stop nil_plan) c
  | some p ↦
      let (r, c') = dag_action deps input p c in
      executed (next (if r.has_failed then PlanState.updating else PlanState.done)) c'
]

abbrev pub after_updating : Dependencies → Context → Executed
after_updating deps c = elim (plan_of c.plan_id c) [
  | none ↦ executed (next PlanState.direct) c
  | some p ↦ checked deps still_invalid_text PlanState.direct p c
]

unfoldable pub execute_updating : Dependencies → Context → Executed
unfolding react_action plan_of validate
execute_updating deps c =
    on_success (react_action deps PlanState.updating c.plan c) (after_updating deps)

-- `m.states[m.currentState].Execute`; `none` is the state that is not registered.
unfoldable pub execute : Dependencies → AgentInput → PlanState → Context → Option Executed
unfolding execute_intent execute_summary execute_init execute_confirmed execute_doing
    execute_updating
execute deps input (PlanState.other text) c = none
execute deps input PlanState.none c = none
execute deps input PlanState.intent c = some (execute_intent deps c)
execute deps input PlanState.direct c = some (execute_summary deps PlanState.direct none c)
execute deps input PlanState.init c = some (execute_init deps c)
execute deps input PlanState.confirmed c = some (execute_confirmed deps c)
execute deps input PlanState.doing c = some (execute_doing deps input c)
execute deps input PlanState.updating c = some (execute_updating deps c)
execute deps input PlanState.done c = some (execute_summary deps PlanState.done c.plan c)
execute deps input PlanState.failed c = some (execute_summary deps PlanState.failed c.plan c)
execute deps input PlanState.rejected c = some (executed (next PlanState.rejected) c)
