-- ===== src/Fsm/Plan.antt =====
-- runtime/engine/fsm: where the machine needs the plan of the run.
pub mod Kept
use kugelblitz.Common.{
  ℕ, zero, suc, ◌+◌, String, Bool, true, false, Option, none, some, List, [], ◌∷◌, ◌≡◌, ◌≢◌, refl,
  arith, Option-cases, ◌⊎◌, inl, inr, false≢true, ◌=ˢ◌, if◌then◌else◌, if_both, option_both, ◌&&◌,
  some_eq, none_ne_some, ◌∙◌, sym, ap, subst,
}
use kugelblitz.Constants.{RoleType, PlanState, same_state}
use kugelblitz.Working.Types.{Plan}
use kugelblitz.Working.Store.{Store, get_plan}
use kugelblitz.Working.Validate.{validate}
use kugelblitz.Message.{Message, text_content, extract_tool_result, text_or_empty}
use kugelblitz.Fsm.State.Tools.{tools_for_state}
use kugelblitz.Fsm.Context.{
  MachineConfig, AgentInput, ReactError, RunError, nil_plan, BatchEvent, wrote, task_failed,
  Rendered, rendered, unrendered, Dependencies, Context, refresh,
}
use kugelblitz.Fsm.Action.{
  append_message, user_content, Acted, to_run_error, reviewed, new_message, build_prompt,
  call_react, landed, compressed, handle_context_exceeded, react_action, handle_drift, roll_back,
  on_task_failed, batch_event, batch_events, dag_action, should_review, is_context_exceeded,
}
use kugelblitz.Fsm.State.{
  invalid_text, still_invalid_text, on_success, after_intent, after_summary, after_init,
  after_confirmed, after_updating, executed, checked, Verdict, next, stop, Executed, execute,
  execute_intent, execute_summary, execute_init, execute_confirmed, execute_doing, execute_updating,
  plan_of,
}
use kugelblitz.Fsm.Machine.{
  ended_with, move_on, after_execute, initial_state, failed_with, Ran, is_terminal, run, run_cycles,
  save_state, transition, out_of_cycles, start_context,
}
use kugelblitz.Fsm.Plan.Kept.{
  has_plan, refresh-has_plan, handle_context_exceeded-has_plan, handle_drift-has_plan,
  Rendered-cases, react_action-has_plan, on_task_failed-has_plan, batch_events-has_plan,
  save_state-has_plan, transition-has_plan,
}

-- The states whose action reads the plan.
abbrev pub needs_plan : PlanState → Bool
needs_plan PlanState.confirmed = true
needs_plan PlanState.doing = true
needs_plan _ = false

-- After a state: the next state has the plan that it needs, and the action did not meet a nil plan.
abbrev Safe : Executed → Type 0
Safe x = elim x.verdict [
  | next s ↦ needs_plan s ≡ true → has_plan x.context.plan ≡ true
  | stop e ↦ e ≢ nil_plan
]

to_run_error_sound : (o : Option ReactError) → to_run_error o ≢ some nil_plan
to_run_error_sound none h = ground arith
to_run_error_sound (some e) h = ground arith

handle_context_exceeded-error :
    (deps : Dependencies) (sys : Message) (tools : List String) (n : ℕ) (c : Context)
    → (handle_context_exceeded deps sys tools n c).error ≢ some nil_plan
unfolding handle_context_exceeded
handle_context_exceeded-error deps sys tools zero c = λ h. ground arith
handle_context_exceeded-error deps sys tools (suc n) c =
    let c' = compressed deps c in
    let reply = call_react deps sys tools c' in
    if_both (λ (a : Acted). a.error ≢ some nil_plan) (is_context_exceeded reply.error)
      (handle_context_exceeded-error deps sys tools n (landed reply c'))
      (to_run_error_sound reply.error)

react_action-error :
    (deps : Dependencies) (state : PlanState) (plan : Option Plan) (c : Context)
    → (react_action deps state plan c).error ≢ some nil_plan
unfolding react_action
react_action-error deps state plan c = elim (Rendered-cases (build_prompt deps state plan)) [
  | inl (e, eq) ↦ rw (eq, react_action) (λ h. ground arith)
  | inr (t, eq) ↦
      let sys = new_message deps RoleType.system (text_content t) c in
      let tools = tools_for_state state deps.custom_tool_names in
      let reply = call_react deps sys tools c in
      rw (eq, react_action)
        (if_both (λ (a : Acted). a.error ≢ some nil_plan) (is_context_exceeded reply.error)
          (handle_context_exceeded-error deps sys tools deps.config.compress_max_attempts
            (landed reply c))
          (to_run_error_sound reply.error))
]

on_success-Safe :
    (a : Acted) (k : Context → Executed)
    → a.error ≢ some nil_plan
    → Safe (k a.context)
    → Safe (on_success a k)
on_success-Safe a k sound safe = elim (Option-cases a.error) [
  | inl eq ↦ rw eq safe
  | inr (e, eq) ↦ rw eq (λ h. sound (eq ∙ ap some h))
]

checked-Safe :
    (deps : Dependencies) (text : String → String) (otherwise : PlanState) (p : Plan) (c : Context)
    → needs_plan otherwise ≡ false
    → Safe (checked deps text otherwise p c)
checked-Safe deps text otherwise p c h =
    option_both Safe (validate (deps.range_order c.clock p) p) (λ _. refl)
      (λ e needs. absurd (false≢true (sym h ∙ needs)))

plan_mode-needs : (b : Bool) → needs_plan (if b then PlanState.init else PlanState.direct) ≡ false
plan_mode-needs true = refl
plan_mode-needs false = refl

after_intent-Safe : (ms : List Message) (c : Context) → Safe (after_intent ms c)
after_intent-Safe ms c =
    let mode = text_or_empty (extract_tool_result ms "set_work_mode" "mode") in
    λ needs. absurd (false≢true (sym (plan_mode-needs (mode =ˢ "plan")) ∙ needs))

execute_intent-Safe : (deps : Dependencies) (c : Context) → Safe (execute_intent deps c)
unfolding execute_intent
execute_intent-Safe deps c =
    let a = react_action deps PlanState.intent none c in
    on_success-Safe a (after_intent a.messages) (react_action-error deps PlanState.intent none c)
      (after_intent-Safe a.messages a.context)

execute_summary-Safe :
    (deps : Dependencies) (state : PlanState) (plan : Option Plan) (c : Context)
    → needs_plan state ≡ false
    → Safe (execute_summary deps state plan c)
unfolding execute_summary
execute_summary-Safe deps state plan c h =
    let a = react_action deps state plan c in
    on_success-Safe a (after_summary state a.messages) (react_action-error deps state plan c)
      (λ needs. absurd (false≢true (sym h ∙ needs)))

after_init-Safe :
    (deps : Dependencies) (ms : List Message) (c : Context) → Safe (after_init deps ms c)
after_init-Safe deps ms c =
    let c' = record c { plan_id = text_or_empty (extract_tool_result ms "plan_create" "id") } in
    option_both Safe (plan_of c'.plan_id c') {x = executed (next PlanState.direct) c'}
      (λ needs. absurd (false≢true needs))
      (λ p. checked-Safe deps invalid_text PlanState.updating p c' refl)

execute_init-Safe : (deps : Dependencies) (c : Context) → Safe (execute_init deps c)
unfolding execute_init
execute_init-Safe deps c =
    let a = react_action deps PlanState.init none c in
    on_success-Safe a (after_init deps a.messages) (react_action-error deps PlanState.init none c)
      (after_init-Safe deps a.messages a.context)

execute_confirmed-Safe :
    (deps : Dependencies) (c : Context) → has_plan c.plan ≡ true → Safe (execute_confirmed deps c)
unfolding execute_confirmed
execute_confirmed-Safe deps c h =
    let a = react_action deps PlanState.confirmed c.plan c in
    let kept = react_action-has_plan deps PlanState.confirmed c.plan c h in
    on_success-Safe a after_confirmed (react_action-error deps PlanState.confirmed c.plan c)
      (option_both Safe (plan_of a.context.plan_id a.context) (λ _. kept) (λ p _. kept))

execute_doing-Safe :
    (deps : Dependencies) (input : AgentInput) (c : Context)
    → has_plan c.plan ≡ true
    → Safe (execute_doing deps input c)
unfolding execute_doing dag_action
execute_doing-Safe deps input c h = elim (Option-cases c.plan) [
  | inl eq ↦ absurd (false≢true (sym (ap has_plan eq) ∙ h))
  | inr (p, eq) ↦
      let b = deps.batch c.clock p c.store in
      let kept = batch_events-has_plan deps input b.events (record c { clock = c.clock + 1 }) h in
      rw (eq, execute_doing) (λ _. kept)
]

execute_updating-Safe : (deps : Dependencies) (c : Context) → Safe (execute_updating deps c)
unfolding execute_updating
execute_updating-Safe deps c =
    let a = react_action deps PlanState.updating c.plan c in
    on_success-Safe a (after_updating deps) (react_action-error deps PlanState.updating c.plan c) (
      option_both Safe (plan_of a.context.plan_id a.context)
        {x = executed (next PlanState.direct) a.context} (λ needs. absurd (false≢true needs))
        (λ p. checked-Safe deps still_invalid_text PlanState.direct p a.context refl))

-- Every state keeps a plan that is there, asks for no state without the plan that it needs, and
-- does not meet a nil plan.
execute-Safe :
    (deps : Dependencies) (input : AgentInput) (state : PlanState) (c : Context) (x : Executed)
    → (needs_plan state ≡ true → has_plan c.plan ≡ true)
    → execute deps input state c ≡ some x
    → Safe x
unfolding execute
execute-Safe deps input (PlanState.other text) c x h eq = absurd (none_ne_some (sym eq))
execute-Safe deps input PlanState.none c x h eq = absurd (none_ne_some (sym eq))
execute-Safe deps input PlanState.intent c x h eq =
    subst Safe (some_eq eq) (execute_intent-Safe deps c)
execute-Safe deps input PlanState.direct c x h eq =
    subst Safe (some_eq eq) (execute_summary-Safe deps PlanState.direct none c refl)
execute-Safe deps input PlanState.init c x h eq = subst Safe (some_eq eq) (execute_init-Safe deps c)
execute-Safe deps input PlanState.confirmed c x h eq =
    subst Safe (some_eq eq) (execute_confirmed-Safe deps c (h refl))
execute-Safe deps input PlanState.doing c x h eq =
    subst Safe (some_eq eq) (execute_doing-Safe deps input c (h refl))
execute-Safe deps input PlanState.updating c x h eq =
    subst Safe (some_eq eq) (execute_updating-Safe deps c)
execute-Safe deps input PlanState.done c x h eq =
    subst Safe (some_eq eq) (execute_summary-Safe deps PlanState.done c.plan c refl)
execute-Safe deps input PlanState.failed c x h eq =
    subst Safe (some_eq eq) (execute_summary-Safe deps PlanState.failed c.plan c refl)
execute-Safe deps input PlanState.rejected c x h eq =
    subst Safe (some_eq eq) (λ needs. absurd (false≢true needs))

out_of_cycles-Safe :
    (deps : Dependencies) (state : PlanState) (c : Context)
    → (out_of_cycles deps state c).ending ≢ failed_with nil_plan
unfolding out_of_cycles
out_of_cycles-Safe deps state c h = ground arith

save_state-error :
    (deps : Dependencies) (state : PlanState) (c : Context)
    → (save_state deps state c).0 ≢ some nil_plan
unfolding save_state
save_state-error deps state c h = ground arith

transition-error :
    (deps : Dependencies) (prev state : PlanState) (c : Context)
    → (transition deps prev state c).0 ≢ some nil_plan
unfolding transition
transition-error deps prev state c h = ground (arith, save_state-error deps state c)

abbrev Panicked : Ran → Type 0
Panicked r = r.ending ≡ failed_with nil_plan

failed_with_eq : {a b : RunError} → failed_with a ≡ failed_with b → a ≡ b
failed_with_eq h = cc

ended_with-Safe :
    (state : PlanState) (w : Option RunError × Context)
    → w.0 ≢ some nil_plan
    → ¬ Panicked (ended_with state w)
ended_with-Safe state (none, c) h = λ e. ground arith
ended_with-Safe state (some err, c) h = λ e. h (ap some (failed_with_eq e))

move_on-Safe :
    (s : PlanState) (w : Option RunError × Context) (continue : Context → Ran)
    → w.0 ≢ some nil_plan
    → ¬ Panicked (continue (record w.1 { step_count = w.1.step_count + 1 }))
    → ¬ Panicked (move_on s w continue)
move_on-Safe s (none, c) continue h rest = rest
move_on-Safe s (some err, c) continue h rest = λ e. h (ap some (failed_with_eq e))

after_execute-Safe :
    (deps : Dependencies) (state : PlanState) (v : Verdict) (c : Context)
    (continue : PlanState → Context → Ran)
    → Safe (executed v c)
    → ((s : PlanState) (c' : Context)
        → (needs_plan s ≡ true → has_plan c'.plan ≡ true)
        → ¬ Panicked (continue s c'))
    → ¬ Panicked (after_execute deps state v c continue)
unfolding after_execute
after_execute-Safe deps state (stop e) c continue safe rest = λ h. ground arith
after_execute-Safe deps state (next s) c continue safe rest =
    let w = transition deps state s c in
    if_both (λ (r : Ran). ¬ Panicked r) (is_terminal s && same_state s state)
      (ended_with-Safe state (save_state deps s c) (save_state-error deps s c))
      (move_on-Safe s w (continue s) (transition-error deps state s c) (
        rest s (record w.1 { step_count = w.1.step_count + 1 })
          (λ needs. transition-has_plan deps state s c (safe needs))))

run_cycles-Safe :
    (deps : Dependencies) (input : AgentInput) (n : ℕ) (state : PlanState) (c : Context)
    → (needs_plan state ≡ true → has_plan c.plan ≡ true)
    → ¬ Panicked (run_cycles deps input n state c)
unfolding run_cycles
run_cycles-Safe deps input zero state c h = out_of_cycles-Safe deps state c
run_cycles-Safe deps input (suc n) state c h = elim (Option-cases (execute deps input state c)) [
  | inl eq ↦ rw (eq, run_cycles) (λ e. ground arith)
  | inr (x, eq) ↦
      rw (eq, run_cycles)
        (after_execute-Safe deps state x.verdict x.context (λ s c'. run_cycles deps input n s c')
          (execute-Safe deps input state c x h eq) (run_cycles-Safe deps input n))
]

initial_state-needs : (config : MachineConfig) → needs_plan (initial_state config) ≡ false
unfolding initial_state
initial_state-needs config = ground arith

-- A run never calls ExecuteBatch with a nil plan, whatever the model, the workers, the disk and
-- the configuration do.
pub run-HasPlan :
    (deps : Dependencies) (input : AgentInput) (s : Store) (history : List Message)
    → (run deps input s history).ending ≢ failed_with nil_plan
unfolding run
run-HasPlan deps input s history =
    let c = start_context s history in
    run_cycles-Safe deps input deps.config.max_cycles (initial_state deps.config)
      (append_message (new_message deps RoleType.user (user_content input) c) c)
      (λ needs. absurd (false≢true (sym (initial_state-needs deps.config) ∙ needs)))
