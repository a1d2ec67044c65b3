-- ===== src/Fsm/Machine.antt =====
-- runtime/engine/fsm/machine.go: the main loop.
use kugelblitz.Common.{
  ℕ, zero, suc, ◌+◌, Bool, true, false, ◌&&◌, Option, none, some, List, [], if◌then◌else◌, ◌=ˢ◌,
  ◌+ˢ◌,
}
use kugelblitz.Constants.{RoleType, PlanState, same_state, state_text}
use kugelblitz.Working.Types.{Plan}
use kugelblitz.Working.Store.{Store, put_plan}
use kugelblitz.Message.{Message}
use kugelblitz.Fsm.Context.{
  MachineConfig, AgentInput, RunError, unwritten, max_cycles_exceeded, Dependencies, Context,
}
use kugelblitz.Fsm.Action.{new_message, append_message, append_system, user_content, media_parts}
use kugelblitz.Fsm.State.{Verdict, next, stop, execute}

abbrev pub is_terminal : PlanState → Bool
is_terminal PlanState.direct = true
is_terminal PlanState.done = true
is_terminal PlanState.failed = true
is_terminal PlanState.rejected = true
is_terminal _ = false

unfoldable pub initial_state : MachineConfig → PlanState
initial_state config =
    if config.force_mode =ˢ "plan"
    then PlanState.init
    else if config.force_mode =ˢ "simple"
    then PlanState.direct
    else PlanState.intent

-- How Run ends, with the state the machine is in: the error, and a state that is not registered.
pub data Ending : Type 0 where
  finished : Ending
  failed_with : RunError → Ending
  unknown_state : Ending

pub record Ran : Type 0 where
  pub state : PlanState
  pub ending : Ending
  pub context : Context

abbrev pub ran : PlanState → Ending → Context → Ran
ran state ending c = record { state = state; ending = ending; context = c }

abbrev pub put_current : Dependencies → Plan → Context → Option RunError × Context
put_current deps p c =
    let w = put_plan deps.disk p c.store in
    (
      elim w.error [ none ↦ none | some e ↦ some (unwritten e) ],
      record c { plan = some w.plan; store = w.store },
    )

-- `ctx.Plan.State = state` and PutPlan, if there is a plan.
unfoldable pub save_state : Dependencies → PlanState → Context → Option RunError × Context
unfolding put_plan
save_state deps state c = elim c.plan [
  | none ↦ (none, c)
  | some p ↦ put_current deps (record p { state = state }) c
]

abbrev announced : Dependencies → PlanState → PlanState → Context → Context
announced deps prev state c = elim c.plan [
  | none ↦ c
  | some p ↦
      append_system deps
        ("[System] Plan "
          +ˢ deps.quote p.name
          +ˢ " status: "
          +ˢ state_text prev
          +ˢ " → "
          +ˢ state_text state
          +ˢ ".")
        c
]

unfoldable pub transition :
    Dependencies → PlanState → PlanState → Context → Option RunError × Context
unfolding save_state
transition deps prev state c =
    let (error, c') = save_state deps state c in
    elim error [ some e ↦ (some e, c') | none ↦ (none, announced deps prev state c') ]

-- After the last cycle.
unfoldable pub out_of_cycles : Dependencies → PlanState → Context → Ran
unfolding put_plan
out_of_cycles deps state c = elim c.plan [
  | none ↦ ran state (failed_with max_cycles_exceeded) c
  | some p ↦
      let (error, c') = put_current deps p c in
      ran state (elim error [ some e ↦ failed_with e | none ↦ failed_with max_cycles_exceeded ]) c'
]

abbrev pub ended_with : PlanState → Option RunError × Context → Ran
ended_with state (some e, c) = ran state (failed_with e) c
ended_with state (none, c) = ran state finished c

-- A transition, and then the next cycle.
abbrev pub move_on : PlanState → Option RunError × Context → (Context → Ran) → Ran
move_on s (some e, c) continue = ran s (failed_with e) c
move_on s (none, c) continue = continue (record c { step_count = c.step_count + 1 })

-- One cycle after the state's action: the state of the machine, and what it asked for.
unfoldable pub after_execute :
    Dependencies → PlanState → Verdict → Context → (PlanState → Context → Ran) → Ran
unfolding same_state save_state transition
after_execute deps state (stop e) c continue =
    ran state (failed_with e) ((save_state deps state c).1)
after_execute deps state (next s) c continue =
    if is_terminal s && same_state s state
    then ended_with state (save_state deps s c)
    else move_on s (transition deps state s c) (continue s)

-- The `for` loop, with the cycles that are left.
unfoldable pub run_cycles : Dependencies → AgentInput → ℕ → PlanState → Context → Ran
unfolding execute after_execute out_of_cycles
run_cycles deps input zero state c = out_of_cycles deps state c
run_cycles deps input (suc n) state c = elim (execute deps input state c) [
  | none ↦ ran state unknown_state c
  | some x ↦ after_execute deps state x.verdict x.context (λ s c'. run_cycles deps input n s c')
]

abbrev pub start_context : Store → List Message → Context
start_context store history = record {
  results = [];
  plan = none;
  plan_id = "";
  work_mode = "";
  step_count = 0;
  task_fails = 0;
  store = store;
  history = history;
  notices = [];
  clock = 0;
}

-- (m *Machine) Run, on the store and the session as they are.
unfoldable pub run : Dependencies → AgentInput → Store → List Message → Ran
unfolding run_cycles initial_state media_parts
run deps input store history =
    let c = start_context store history in
    run_cycles deps input deps.config.max_cycles (initial_state deps.config)
      (append_message (new_message deps RoleType.user (user_content input) c) c)
