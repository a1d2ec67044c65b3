-- ===== src/Fsm/Recovery.antt =====
-- runtime/engine/fsm: how the machine gets over a context that is too long, and over drift.
use kugelblitz.Common.{
  ℕ, suc, ◌+◌, ◌-◌, ◌<◌, String, true, false, some, List, [], ◌∷◌, ◌≡◌, ◌≢◌, refl, arith,
  Bool-cases, Option-cases, ◌⊎◌, inl, inr, leb, false≢true, some_eq, none_ne_some, ◌∙◌, sym, ap,
  subst,
}
use kugelblitz.Constants.{PlanState}
use kugelblitz.Working.Types.{Plan, Checkpoint}
use kugelblitz.Working.Store.{get_plan, load_checkpoint, persist}
use kugelblitz.Working.Store.Versions.{lookup-insert_self, lookup-insert_ne}
use kugelblitz.Message.{Message}
use kugelblitz.Fsm.Context.{
  context_length_exceeded, react_error, before_compress, cancel_batch, plan_rollback, Reply,
  Dependencies, Context,
}
use kugelblitz.Fsm.Action.{
  Acted, is_context_exceeded, to_run_error, handle_drift, roll_back, rolled_back,
}

-- One attempt of the recovery: the users are told, the history is compressed, and the model is asked
-- again with what the compression left. `after` is the context then.
pub record Attempt (deps : Dependencies) (sys : Message) (tools : List String) (c : Context)
    (reply : Reply) (after : Context) : Type 0 where
  pub asked :
      reply
      ≡ deps.react
          (c.clock + 1)
          sys
          (deps.compress c.clock deps.config.keep_last_n deps.config.min_messages_to_compress
            c.history)
          tools
          c.store
  pub told : after.notices ≡ before_compress ∷ c.notices
  pub history : after.history ≡ reply.history
  pub store : after.store ≡ reply.store
  pub clock : after.clock ≡ c.clock + 1 + 1

-- So many attempts, after each of which the context was still too long.
pub data Retries (deps : Dependencies) (sys : Message) (tools : List String)
    : ℕ → Context → Context → Type 0 where
  untried : (c : Context) → Retries deps sys tools 0 c c
  retried :
      (n : ℕ) (c between after : Context) (reply : Reply)
      → Attempt deps sys tools c reply between
      → is_context_exceeded reply.error ≡ true
      → Retries deps sys tools n between after
      → Retries deps sys tools (suc n) c after

-- How the recovery ends: after all attempts with the error, or with the attempt whose answer is not
-- that error.
abbrev pub Recovered : Dependencies → Message → List String → ℕ → Context → Acted → Type 0
Recovered deps sys tools n c a =
    (k : ℕ) × (last : Context) × Retries deps sys tools k c last
    × (((k ≡ n)
          × (a.context ≡ last)
          × (a.messages ≡ [])
          × (a.error ≡ some (react_error context_length_exceeded)))
        ⊎ ((k < n)
            × (reply : Reply) × Attempt deps sys tools last reply a.context
            × (is_context_exceeded reply.error ≡ false)
            × (a.messages ≡ reply.messages)
            × (a.error ≡ to_run_error reply.error)))

-- The plan can be rolled back: there is one, it has an earlier version, and the checkpoint is read.
abbrev pub CanRollBack : Context → Plan → Checkpoint → Type 0
CanRollBack c p cp =
    (c.plan ≡ some p)
    × (leb p.version 1 ≡ false)
    × (load_checkpoint p.id (p.version - 1) c.store ≡ some cp)

pub record RolledBack (c : Context) (p : Plan) (cp : Checkpoint) (after : Context) : Type 0 where
  pub plan : Plan
  pub held : after.plan ≡ some plan
  pub shared : get_plan p.id after.store ≡ some plan
  pub tasks_restored : plan.sub_tasks ≡ cp.plan.sub_tasks
  pub name_restored : plan.name ≡ cp.plan.name
  pub updating : plan.state ≡ PlanState.updating
  pub same_version : plan.version ≡ p.version
  pub others_kept : (id : String) → p.id ≢ id → get_plan id after.store ≡ get_plan id c.store
  pub history_kept :
      (id : String) (v : ℕ) → load_checkpoint id v after.store ≡ load_checkpoint id v c.store
  pub told :
      after.notices ≡ plan_rollback p.id (p.version - 1) cp.plan.name ∷ cancel_batch ∷ c.notices

roll_back-RolledBack :
    (deps : Dependencies) (reason : String) (c : Context) (p : Plan) (cp : Checkpoint)
    → RolledBack c p cp (roll_back deps reason p cp c)
unfolding roll_back rolled_back persist get_plan load_checkpoint
roll_back-RolledBack deps reason c p cp =
    let p' = rolled_back reason cp p in
    record {
      plan = p';
      held = ground arith;
      shared = ground (arith, lookup-insert_self p' c.store.plans);
      tasks_restored = refl;
      name_restored = refl;
      updating = refl;
      same_version = refl;
      others_kept = λ id h. ground (arith, lookup-insert_ne p' id c.store.plans h);
      history_kept = λ id v. ground arith;
      told = ground arith;
    }

held_eq : (c : Context) {p q : Plan} → c.plan ≡ some p → c.plan ≡ some q → p ≡ q
held_eq c h k = some_eq (sym h ∙ k)

-- handleDrift either restores the previous version, or changes nothing. It restores exactly if there
-- is a plan with a version above 1 whose previous checkpoint can be read: then the plan of the run
-- and the store's entry are one plan with the tasks and the name of the checkpoint, in the state
-- updating and with its version unchanged; no other plan and no checkpoint is touched; and the batch
-- is cancelled and the rollback announced.
pub handle_drift_lem :
    (deps : Dependencies) (reason : String) (c : Context)
    → ((p : Plan) × (cp : Checkpoint) × CanRollBack c p cp
        × RolledBack c p cp (handle_drift deps reason c))
      ⊎ (((p : Plan) (cp : Checkpoint) → ¬ CanRollBack c p cp) × (handle_drift deps reason c ≡ c))
unfolding handle_drift
handle_drift_lem deps reason c = elim (Option-cases c.plan) [
  | inl eq ↦ inr (λ p cp h. ground arith, ground arith)
  | inr (p, eq) ↦ elim (Bool-cases (leb p.version 1)) [
    | inl old ↦ inr (
      λ q cp h.
          let same = held_eq c eq h.0 in
          false≢true (sym h.1 ∙ ap (λ (z : Plan). leb z.version 1) (sym same) ∙ old),
      ground (arith, eq, old),
    )
    | inr old ↦ elim (Option-cases (load_checkpoint p.id (p.version - 1) c.store)) [
      | inl unread ↦ inr (
        λ q cp h.
            let same = held_eq c eq h.0 in
            none_ne_some (
              sym h.2
              ∙ ap (λ (z : Plan). load_checkpoint z.id (z.version - 1) c.store) (sym same)
              ∙ unread),
        ground (arith, eq, old, unread),
      )
      | inr (cp, read) ↦
          let is : handle_drift deps reason c ≡ roll_back deps reason p cp c =
            ground (arith, eq, old, read) in
          inl (
            p,
            cp,
            (eq, old, read),
            subst (RolledBack c p cp) (sym is) (roll_back-RolledBack deps reason c p cp),
          )
    ]
  ]
]
