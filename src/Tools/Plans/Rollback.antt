-- ===== src/Tools/Plans/Rollback.antt =====
-- tools/internals/plan.go, PlanRollback: the plan and the store after a rollback.
use kugelblitz.Common.{
  ℕ, ◌+◌, ◌≤◌, ◌<◌, String, false, ◌||◌, none, some, [], ◌∷◌, ◌≡◌, ◌≢◌, refl, arith, ◌⊎◌, inl, inr,
  ltb, leb, option_split, if_split, ◌∙◌, sym, subst,
}
use kugelblitz.Working.Types.{Plan, Checkpoint}
use kugelblitz.Working.Store.{Store, Disk, get_plan, put_plan, load_checkpoint, checkpoint_unread}
use kugelblitz.Working.Store.Versions.{put_plan_lem, next_plan, next_checkpoint}
use kugelblitz.Message.{Fields, text, whole, field}
use kugelblitz.Tools.Arguments.{
  ℤ, pos, negsuc, ToolError, Result, ok, err, version_out_of_range, plan_not_found, unstored, arg,
  optional_int,
}
use kugelblitz.Tools.Plans.{
  Answer, refused, rollback_answer, Called, called, put_and, restored, roll_back_to, plan_rollback,
  and_then, previous,
}

-- The plan after a rollback to a checkpoint, and the store around it.
pub record Restored (id : String) (p : Plan) (v : ℕ) (cp : Checkpoint) (s after : Store)
    : Type 0 where
  pub plan : Plan
  pub stored : get_plan p.id after ≡ some plan
  pub tasks : plan.sub_tasks ≡ cp.plan.sub_tasks
  pub name : plan.name ≡ cp.plan.name
  pub activated : plan.current_activate_sub_task_ids ≡ cp.plan.current_activate_sub_task_ids
  pub state : plan.state ≡ cp.plan.state
  pub reason : plan.finished_reason ≡ cp.plan.finished_reason
  pub new_version : plan.version ≡ p.version + 1
  pub others_kept : (j : String) → p.id ≢ j → get_plan j after ≡ get_plan j s
  pub history_kept :
      (j : String) (n : ℕ)
      → (p.id ≢ j) ⊎ (n ≢ p.version + 1)
      → load_checkpoint j n after ≡ load_checkpoint j n s

put_and-Restored :
    (d : Disk) (id : String) (p : Plan) (v : ℕ) (cp : Checkpoint) (s : Store)
    (answer : Plan → Answer)
    → Restored id p v cp s ((put_and d (restored cp p) s answer).store)
put_and-Restored d id p v cp s answer =
    let spec = put_plan_lem d (restored cp p) s in
    let same : (put_and d (restored cp p) s answer).store ≡ (put_plan d (restored cp p) s).store =
      ground arith in
    subst (Restored id p v cp s) (sym same) (record {
      plan = next_plan d (restored cp p) s;
      stored = spec.in_memory;
      tasks = refl;
      name = refl;
      activated = refl;
      state = refl;
      reason = refl;
      new_version = refl;
      others_kept = spec.others_kept;
      history_kept = λ j n h. spec.history_kept j n h;
    })

-- A call with these arguments that changed nothing and says why, or a rollback that took place.
abbrev pub Whole : Fields → Store → Called → Type 0
Whole args s c =
    ((c.store ≡ s) × (e : ToolError) × (c.answer ≡ refused e))
    ⊎ ((id : String) × (p : Plan) × (v : ℕ) × (cp : Checkpoint) × (arg args "plan_id" ≡ ok id)
        × (get_plan id s ≡ some p)
        × (optional_int args "version" (previous p.version) ≡ ok (pos v))
        × (1 ≤ v)
        × (v < p.version)
        × (load_checkpoint id v s ≡ some cp)
        × Restored id p v cp s c.store)

refused-Whole : (args : Fields) (s : Store) (e : ToolError) → Whole args s (called (refused e) s)
refused-Whole args s e = inl (refl, e, refl)

in_range : (v n : ℕ) → (ltb v 1 || leb n v) ≡ false → (1 ≤ v) × (v < n)
in_range v n h = ground arith

out_of_range : (v n : ℕ) → 1 ≤ v → v < n → (ltb v 1 || leb n v) ≡ false
out_of_range v n h k = ground arith

roll_back_to-Whole :
    (d : Disk) (args : Fields) (id : String) (p : Plan) (target : ℤ) (s : Store)
    → arg args "plan_id" ≡ ok id
    → get_plan id s ≡ some p
    → optional_int args "version" (previous p.version) ≡ ok target
    → Whole args s (roll_back_to d id p target s)
unfolding roll_back_to
roll_back_to-Whole d args id p (negsuc n) s named found aimed =
    refused-Whole args s (version_out_of_range p.version)
roll_back_to-Whole d args id p (pos v) s named found aimed =
    if_split (Whole args s) (ltb v 1 || leb p.version v)
      (λ out. refused-Whole args s (version_out_of_range p.version))
      (λ inside.
        let (low, high) = in_range v p.version inside in
        option_split (Whole args s) (load_checkpoint id v s)
          {x = called (refused (unstored checkpoint_unread)) s}
          (λ unread. refused-Whole args s (unstored checkpoint_unread))
          (λ cp read. inr (
            id,
            p,
            v,
            cp,
            named,
            found,
            aimed,
            low,
            high,
            read,
            put_and-Restored d id p v cp s (λ p'. rollback_answer id p.version p'.version),
          )))

and_then-Whole {ℓ} :
    {A : Type ℓ} (args : Fields) (s : Store) (r : Result A) (k : A → Called)
    → ((a : A) → r ≡ ok a → Whole args s (k a))
    → Whole args s (and_then s r k)
and_then-Whole args s (ok a) k h = h a refl
and_then-Whole args s (err e) k h = refused-Whole args s e

-- A rollback takes place as a whole or not at all: either the call is refused and the store is as
-- before, or the plan with the call's plan_id gets the name, the tasks, the activated ids, the state
-- and the reason of the checkpoint of the call's version, or of the previous version if the call has
-- none, which is from 1 to below the plan's own, under the next version number, and every other plan
-- and every checkpoint of another version is left alone.
pub plan_rollback-Whole :
    (d : Disk) (args : Fields) (s : Store) → Whole args s (plan_rollback d args s)
unfolding plan_rollback
plan_rollback-Whole d args s = and_then-Whole args s (arg args "plan_id") _ (λ id named.
    option_split (Whole args s) (get_plan id s) {x = called (refused (plan_not_found id)) s}
      (λ missing. refused-Whole args s (plan_not_found id))
      (λ p found.
        and_then-Whole args s (optional_int args "version" (previous p.version)) _
          (λ target aimed. roll_back_to-Whole d args id p target s named found aimed)))

-- The arguments that name a plan and a version.
abbrev pub rollback_args : String → ℕ → Fields
rollback_args id v = ("plan_id", text id) ∷ ("version", whole v) ∷ []

rollback_found :
    (d : Disk) (s : Store) (id : String) (p : Plan) (v : ℕ) (cp : Checkpoint)
    → get_plan id s ≡ some p
    → 1 ≤ v
    → v < p.version
    → load_checkpoint id v s ≡ some cp
    → (plan_rollback d (rollback_args id v) s).store ≡ (put_plan d (restored cp p) s).store
unfolding plan_rollback roll_back_to arg optional_int field
rollback_found d s id p v cp found low high read =
    ground (arith, found, out_of_range v p.version low high, read)

-- Rolling back undoes an edit: if PutPlan of p returned nil, and then any edit q of the plan was put,
-- a rollback to p's version leaves p's tasks, name and state in the store, in a new version, whether or
-- not the later writes to the disk succeed.
pub plan_rollback-put_plan :
    (d d' : Disk) (p q : Plan) (s : Store)
    → (put_plan d p s).error ≡ none
    → q.id ≡ p.id
    → q.version ≡ p.version + 1
    → let edited = (put_plan d' q (put_plan d p s).store).store in
      (r : Plan) × (get_plan p.id
          (plan_rollback d' (rollback_args p.id (p.version + 1)) edited).store
        ≡ some r)
      × (r.sub_tasks ≡ p.sub_tasks)
      × (r.name ≡ p.name)
      × (r.state ≡ p.state)
      × (r.version ≡ p.version + 3)
plan_rollback-put_plan d d' p q s good same newer =
    let s1 = (put_plan d p s).store in
    let s2 = (put_plan d' q s1).store in
    let cp = next_checkpoint d p s in
    let q' = next_plan d' q s1 in
    let first = put_plan_lem d p s in
    let second = put_plan_lem d' q s1 in
    let found : get_plan p.id s2 ≡ some q' =
      subst (λ i. get_plan i s2 ≡ some q') same second.in_memory in
    let read : load_checkpoint p.id (p.version + 1) s2 ≡ some cp =
      second.history_kept p.id (p.version + 1) (inr (λ e. omega (arith, e, newer)))
      ∙ first.checkpoint_if_ok good in
    let moved =
      rollback_found d' s2 p.id q' (p.version + 1) cp found (omega arith) (omega (arith, newer))
        read in
    let third = put_plan_lem d' (restored cp q') s2 in
    (
      next_plan d' (restored cp q') s2,
      subst (λ z. get_plan p.id z ≡ some (next_plan d' (restored cp q') s2)) (sym moved)
          (subst
            (λ i.
              get_plan i (put_plan d' (restored cp q') s2).store
              ≡ some (next_plan d' (restored cp q') s2))
            same third.in_memory),
      refl,
      refl,
      refl,
      omega (arith, newer),
    )
