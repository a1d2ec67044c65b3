-- ===== src/Fsm/Diagram.antt =====
-- runtime/engine/fsm/state.go: the transitions between the states, as a diagram, and what is known of the plan
-- on each of them.
use kugelblitz.Common.{none, some, true, false, ◌≡◌, ◌≢◌}
use kugelblitz.Constants.{PlanState}
use kugelblitz.Working.Types.{Plan}
use kugelblitz.Working.Validate.Sound.{IsWellFormed}
use kugelblitz.Message.{Message}
use kugelblitz.Fsm.Context.{Dependencies, Context}
use kugelblitz.Fsm.State.{next, Executed, plan_of}

-- The plan of the run is the store's plan under ctx.PlanID, and it is well-formed.
abbrev pub Admitted : Context → Plan → Type 0
Admitted c p = (c.plan ≡ some p) × (plan_of c.plan_id c ≡ some p) × IsWellFormed p.sub_tasks

-- The transitions, with what holds in the context `b` before and in the context `c` after the action.
pub data Edge (deps : Dependencies) (b c : Context) : PlanState → PlanState → Type 0 where
  wants_plan : c.work_mode ≡ "plan" → Edge deps b c PlanState.intent PlanState.init
  is_simple : c.work_mode ≢ "plan" → Edge deps b c PlanState.intent PlanState.direct
  answered : Edge deps b c PlanState.direct PlanState.direct
  created : (p : Plan) → Admitted c p → Edge deps b c PlanState.init PlanState.confirmed
  created_invalid :
      (p : Plan)
      → plan_of c.plan_id c ≡ some p
      → ¬ IsWellFormed p.sub_tasks
      → Edge deps b c PlanState.init PlanState.updating
  not_created : plan_of c.plan_id c ≡ none → Edge deps b c PlanState.init PlanState.direct
  undecided :
      ((p : Plan) → plan_of c.plan_id c ≡ some p → p.state ≡ PlanState.confirmed)
      → Edge deps b c PlanState.confirmed PlanState.confirmed
  decided : (p : Plan) → plan_of c.plan_id c ≡ some p → Edge deps b c PlanState.confirmed p.state
  batch_failed :
      (p : Plan)
      → b.plan ≡ some p
      → (deps.batch b.clock p b.store).result.has_failed ≡ true
      → Edge deps b c PlanState.doing PlanState.updating
  batch_done :
      (p : Plan)
      → b.plan ≡ some p
      → (deps.batch b.clock p b.store).result.has_failed ≡ false
      → Edge deps b c PlanState.doing PlanState.done
  repaired : (p : Plan) → Admitted c p → Edge deps b c PlanState.updating PlanState.confirmed
  given_up : Edge deps b c PlanState.updating PlanState.direct
  done_summary : Edge deps b c PlanState.done PlanState.done
  failed_summary : Edge deps b c PlanState.failed PlanState.failed
  stays_rejected : Edge deps b c PlanState.rejected PlanState.rejected

module _ (deps : Dependencies) (b : Context) where
  -- What an action does is a transition of the diagram, or stops the run.
  abbrev Goes : PlanState → Executed → Type 0
  Goes state x = (s : PlanState) → x.verdict ≡ next s → Edge deps b x.context state s
