-- ===== src/Fsm/Plan/Kept.antt =====
-- runtime/engine/fsm: the plan of the run across actions, callbacks and transitions.
use kugelblitz.Common.{
  ℕ, zero, suc, ◌+◌, String, Bool, true, false, Option, none, some, List, [], ◌∷◌, ◌≡◌, refl, arith,
  ◌⊎◌, inl, inr, if_both, option_both,
}
use kugelblitz.Constants.{RoleType, PlanState}
use kugelblitz.Working.Types.{Plan}
use kugelblitz.Working.Store.{Store, get_plan}
use kugelblitz.Message.{Message, text_content}
use kugelblitz.Fsm.State.Tools.{tools_for_state}
use kugelblitz.Fsm.Context.{
  AgentInput, BatchEvent, wrote, task_failed, Rendered, rendered, unrendered, Dependencies, Context,
  refresh,
}
use kugelblitz.Fsm.Action.{
  Acted, reviewed, new_message, build_prompt, call_react, landed, compressed,
  handle_context_exceeded, react_action, handle_drift, roll_back, on_task_failed, batch_event,
  batch_events, should_review, is_context_exceeded,
}
use kugelblitz.Fsm.Machine.{save_state, transition}

abbrev pub has_plan : Option Plan → Bool
has_plan none = false
has_plan (some _) = true

pub refresh-has_plan :
    (o : Option Plan) (s : Store) → has_plan o ≡ true → has_plan (refresh o s) ≡ true
unfolding refresh
refresh-has_plan o s h = ground arith

pub handle_context_exceeded-has_plan :
    (deps : Dependencies) (sys : Message) (tools : List String) (n : ℕ) (c : Context)
    → has_plan c.plan ≡ true
    → has_plan ((handle_context_exceeded deps sys tools n c).context.plan) ≡ true
unfolding handle_context_exceeded
handle_context_exceeded-has_plan deps sys tools zero c h = h
handle_context_exceeded-has_plan deps sys tools (suc n) c h =
    let c' = compressed deps c in
    let reply = call_react deps sys tools c' in
    let kept = refresh-has_plan c.plan reply.store h in
    if_both (λ (a : Acted). has_plan a.context.plan ≡ true) (is_context_exceeded reply.error)
      (handle_context_exceeded-has_plan deps sys tools n (landed reply c') kept) kept

pub handle_drift-has_plan :
    (deps : Dependencies) (reason : String) (c : Context)
    → has_plan c.plan ≡ true
    → has_plan ((handle_drift deps reason c).plan) ≡ true
unfolding handle_drift roll_back
handle_drift-has_plan deps reason c h = ground arith

pub Rendered-cases :
    (r : Rendered) → ((e : String) × (r ≡ unrendered e)) ⊎ ((t : String) × (r ≡ rendered t))
Rendered-cases (rendered t) = inr (t, refl)
Rendered-cases (unrendered e) = inl (e, refl)

pub react_action-has_plan :
    (deps : Dependencies) (state : PlanState) (plan : Option Plan) (c : Context)
    → has_plan c.plan ≡ true
    → has_plan ((react_action deps state plan c).context.plan) ≡ true
unfolding react_action
react_action-has_plan deps state plan c h = elim (Rendered-cases (build_prompt deps state plan)) [
  | inl (e, eq) ↦ rw (eq, react_action) h
  | inr (t, eq) ↦
      let sys = new_message deps RoleType.system (text_content t) c in
      let tools = tools_for_state state deps.custom_tool_names in
      let reply = call_react deps sys tools c in
      let kept = refresh-has_plan c.plan reply.store h in
      rw (eq, react_action)
        (if_both (λ (a : Acted). has_plan a.context.plan ≡ true) (is_context_exceeded reply.error)
          (handle_context_exceeded-has_plan deps sys tools deps.config.compress_max_attempts
            (landed reply c) kept)
          kept)
]

pub on_task_failed-has_plan :
    (deps : Dependencies) (input : AgentInput) (reason : String) (c : Context)
    → has_plan c.plan ≡ true
    → has_plan ((on_task_failed deps input reason c).plan) ≡ true
unfolding on_task_failed
on_task_failed-has_plan deps input reason c h =
    let P = λ (c : Context). has_plan c.plan ≡ true in
    let c' = record c { task_fails = c.task_fails + 1 } in
    let c'' = record c' { clock = c'.clock + 1 } in
    if_both P (should_review deps c')
      (option_both P (get_plan c'.plan_id c'.store) h (λ p.
        if_both P (reviewed deps input.text reason p c') (handle_drift-has_plan deps reason c'' h)
          h))
      h

pub batch_events-has_plan :
    (deps : Dependencies) (input : AgentInput) (es : List BatchEvent) (c : Context)
    → has_plan c.plan ≡ true
    → has_plan ((batch_events deps input es c).plan) ≡ true
unfolding batch_events batch_event
batch_events-has_plan deps input [] c h = h
batch_events-has_plan deps input (wrote s ∷ es) c h =
    batch_events-has_plan deps input es (record c { plan = refresh c.plan s; store = s })
      (refresh-has_plan c.plan s h)
batch_events-has_plan deps input (task_failed id goal reason ∷ es) c h =
    batch_events-has_plan deps input es (on_task_failed deps input reason c)
      (on_task_failed-has_plan deps input reason c h)

pub save_state-has_plan :
    (deps : Dependencies) (state : PlanState) (c : Context)
    → has_plan c.plan ≡ true
    → has_plan ((save_state deps state c).1.plan) ≡ true
unfolding save_state
save_state-has_plan deps state c h = ground arith

pub transition-has_plan :
    (deps : Dependencies) (prev state : PlanState) (c : Context)
    → has_plan c.plan ≡ true
    → has_plan ((transition deps prev state c).1.plan) ≡ true
unfolding transition
transition-has_plan deps prev state c h = ground (arith, save_state-has_plan deps state c h)
