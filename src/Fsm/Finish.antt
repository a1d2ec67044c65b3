-- ===== src/Fsm/Finish.antt =====
-- runtime/engine/fsm/machine.go: what a run that ends without an error leaves behind.
use kugelblitz.Common.{
  ℕ, zero, suc, true, ◌&&◌, Option, none, some, List, ◌≡◌, refl, arith, Bool-cases, Option-cases,
  inl, inr, and_true, some_eq, none_ne_some, ◌∙◌, sym, subst,
}
use kugelblitz.Constants.{PlanState, same_state, same_state_sound}
use kugelblitz.Working.Types.{Plan}
use kugelblitz.Working.Store.{Store, get_plan, put_plan}
use kugelblitz.Working.Store.Versions.{put_plan_lem, next_plan}
use kugelblitz.Message.{Message}
use kugelblitz.Fsm.Context.{AgentInput, RunError, Dependencies, Context}
use kugelblitz.Fsm.State.{Verdict, next, stop, execute}
use kugelblitz.Fsm.Machine.{
  ended_with, move_on, after_execute, initial_state, finished, Ran, is_terminal, run, run_cycles,
  save_state, put_current, transition, out_of_cycles,
}

-- The plan of the run, if it has one, says the state, and the store holds it.
abbrev pub Stored : PlanState → Context → Type 0
Stored state c = (p : Plan) → c.plan ≡ some p → (p.state ≡ state) × (get_plan p.id c.store ≡ some p)

abbrev Settled : Ran → Type 0
Settled r = r.ending ≡ finished → (is_terminal r.state ≡ true) × Stored r.state r.context

put_current-Stored :
    (deps : Dependencies) (p : Plan) (c : Context) → Stored p.state ((put_current deps p c).1)
put_current-Stored deps p c q eq =
    let spec = put_plan_lem deps.disk p c.store in
    let is_next : next_plan deps.disk p c.store ≡ q = sym spec.plan_next ∙ some_eq eq in
    subst
      (λ (q : Plan).
        (q.state ≡ p.state) × (get_plan q.id ((put_plan deps.disk p c.store).store) ≡ some q))
      is_next (refl, spec.in_memory)

save_state-Stored :
    (deps : Dependencies) (state : PlanState) (c : Context)
    → Stored state ((save_state deps state c).1)
unfolding save_state
save_state-Stored deps state c = elim (Option-cases c.plan) [
  | inl eq ↦ rw (eq, save_state) (λ p h. absurd (none_ne_some (sym h ∙ eq)))
  | inr (p, eq) ↦ rw (eq, save_state) (put_current-Stored deps (record p { state = state }) c)
]

out_of_cycles-Settled :
    (deps : Dependencies) (state : PlanState) (c : Context) → Settled (out_of_cycles deps state c)
unfolding out_of_cycles
out_of_cycles-Settled deps state c h = ground arith

ended_with-Settled :
    (state : PlanState) (w : Option RunError × Context)
    → is_terminal state ≡ true
    → Stored state w.1
    → Settled (ended_with state w)
ended_with-Settled state (none, c) h stored = λ _. (h, stored)
ended_with-Settled state (some err, c) h stored = λ e. ground arith

move_on-Settled :
    (s : PlanState) (w : Option RunError × Context) (continue : Context → Ran)
    → ((c : Context) → Settled (continue c))
    → Settled (move_on s w continue)
move_on-Settled s (none, c) continue rest = rest _
move_on-Settled s (some err, c) continue rest = λ e. ground arith

after_execute-Settled :
    (deps : Dependencies) (state : PlanState) (v : Verdict) (c : Context)
    (continue : PlanState → Context → Ran)
    → ((s : PlanState) (c' : Context) → Settled (continue s c'))
    → Settled (after_execute deps state v c continue)
unfolding after_execute
after_execute-Settled deps state (stop e) c continue rest = λ h. ground arith
after_execute-Settled deps state (next s) c continue rest =
    elim (Bool-cases (is_terminal s && same_state s state)) [
      | inl eq ↦
          let (terminal, same) = and_true (is_terminal s) (same_state s state) eq in
          let is_state = same_state_sound s state same in
          rw eq (
            ended_with-Settled state (save_state deps s c)
              (subst (λ z. is_terminal z ≡ true) is_state terminal)
              (subst (λ z. Stored z ((save_state deps s c).1)) is_state
                (save_state-Stored deps s c)))
      | inr eq ↦ rw eq (move_on-Settled s (transition deps state s c) (continue s) (rest s))
    ]

run_cycles-Settled :
    (deps : Dependencies) (input : AgentInput) (n : ℕ) (state : PlanState) (c : Context)
    → Settled (run_cycles deps input n state c)
unfolding run_cycles
run_cycles-Settled deps input zero state c = out_of_cycles-Settled deps state c
run_cycles-Settled deps input (suc n) state c = elim (Option-cases (execute deps input state c)) [
  | inl eq ↦ rw (eq, run_cycles) (λ e. ground arith)
  | inr (x, eq) ↦
      rw (eq, run_cycles)
        (after_execute-Settled deps state x.verdict x.context (λ s c'. run_cycles deps input n s c')
          (run_cycles-Settled deps input n))
]

-- A run that returns no error ended in one of the states direct, done, failed and rejected; if it
-- has a plan, the plan says this state and is what the store holds under the plan's id.
pub run-finished :
    (deps : Dependencies) (input : AgentInput) (s : Store) (history : List Message)
    → (run deps input s history).ending ≡ finished
    → (is_terminal ((run deps input s history).state) ≡ true)
      × Stored ((run deps input s history).state) ((run deps input s history).context)
unfolding run
run-finished deps input s history =
    run_cycles-Settled deps input deps.config.max_cycles (initial_state deps.config) _
