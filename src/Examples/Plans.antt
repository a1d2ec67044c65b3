-- ===== src/Examples/Plans.antt =====
-- memory/working and the plan tools at one small plan: "fetch", and "report", which depends on it.
use mathlib.Core.List.Memᴰ
use kugelblitz.Common.{
  ◌≢◌, ◌+◌, ℕ, ◌+◌, String, true, none, some, List, [], ◌∷◌, Memᴰ, ◌≡◌, ◌↔◌, ◌⊎◌, inl, inr, refl,
  arith, ap, false≢true, eq_iff, trim_space, is_space, split_comma,
}
use kugelblitz.Constants.{PlanState}
use kugelblitz.Working.Types.{TaskStatus, Task, Plan, Checkpoint}
use kugelblitz.Working.Parents.{split_parent_ids}
use kugelblitz.Working.Validate.{cycle, validate}
use kugelblitz.Working.Validate.Sound.{
  Enumerates, IsWellFormed, Blames, validate-IsWellFormed_iff, validate-Blames,
}
use kugelblitz.Working.Ready.{ready_tasks}
use kugelblitz.Working.Ready.Spec.{
  UniqueIds, IsReady, Quiet, ready_tasks-IsReady_iff, ready_tasks_progress,
}
use kugelblitz.Working.Store.{
  find_task, task_in, Store, Disk, snapshot, copy_tasks, insert_plan, empty_store, put_plan,
  get_plan, load_plan, load_checkpoint,
}
use kugelblitz.Working.Store.Versions.{
  PutSpec, IsHistory, UpToDate, put_plan_lem, put_plan-IsHistory, load_plan-UpToDate,
}
use kugelblitz.Message.{Fields, text, field}
use kugelblitz.Tools.Arguments.{ok, required_string}
use kugelblitz.Tools.Plans.{task_insert, task_delete, plan_rollback, confirm_plan}
use kugelblitz.Tools.Plans.Rollback.{
  Whole, rollback_args, plan_rollback-Whole, plan_rollback-put_plan,
}
use kugelblitz.Tools.Plans.Tasks.{delete_args, task_delete-task_insert}
use kugelblitz.Tools.Plans.Confirm.{Decision, confirm_plan-Decision}

abbrev pub task : (id parents : String) → Task
task id parents = record {
  id = id;
  parent_task_id = parents;
  goal = "";
  status = TaskStatus.pending;
  finished_reason = "";
  action = "";
  usage = none;
}

abbrev pub fetch : Task
fetch = task "fetch" ""

abbrev pub report : Task
report = task "report" "fetch"

abbrev pub plan_with : List Task → Plan
plan_with tasks = record {
  id = "p";
  session_id = "s";
  name = "two steps";
  sub_tasks = tasks;
  current_activate_sub_task_ids = [];
  state = PlanState.init;
  finished_reason = "";
  version = 0;
}

abbrev pub two_steps : Plan
two_steps = plan_with (fetch ∷ report ∷ [])

abbrev pub good_disk : Disk
good_disk = record { plan_written = λ _. true; checkpoint_written = λ _. true }

abbrev order : List String
order = "report" ∷ "fetch" ∷ []

mem_swap {ℓ} : {A : Type ℓ} {v a b : A} → Memᴰ v (a ∷ b ∷ []) → Memᴰ v (b ∷ a ∷ [])
mem_swap m = elim (Memᴰ.cases_cons m) [
  | inl h ↦ Memᴰ.tail (Memᴰ.head h)
  | inr m' ↦ elim (Memᴰ.cases_cons m') [ inl h ↦ Memᴰ.head h | inr m'' ↦ elim m'' [ ] ]
]

pub mem_two {ℓ} : {A : Type ℓ} {v a b : A} → Memᴰ v (a ∷ b ∷ []) → (v ≡ a) ⊎ (v ≡ b)
mem_two m = elim (Memᴰ.cases_cons m) [
  | inl h ↦ inl h
  | inr m' ↦ elim (Memᴰ.cases_cons m') [ inl h ↦ inr h | inr m'' ↦ elim m'' [ ] ]
]

order-Enumerates : Enumerates order two_steps.sub_tasks
order-Enumerates v = (mem_swap, mem_swap)

pub two_steps-UniqueIds : UniqueIds two_steps.sub_tasks
two_steps-UniqueIds = (
  λ m. elim (Memᴰ.cases_cons m) [
    | inl h ↦ false≢true ((eq_iff "fetch" "report").1 h)
    | inr m' ↦ elim m' [ ]
  ],
  (λ m. elim m [ ], tt),
)

pub two_steps-Quiet : Quiet two_steps.sub_tasks
two_steps-Quiet t m = elim (mem_two m) [
  | inl h ↦ inl (ap (λ (x : Task). x.status) h)
  | inr h ↦ inl (ap (λ (x : Task). x.status) h)
]

two_steps_valid : validate order two_steps ≡ none
unfolding validate split_parent_ids trim_space is_space split_comma
two_steps_valid = refl

pub two_steps-IsWellFormed : IsWellFormed two_steps.sub_tasks
two_steps-IsWellFormed =
    (validate-IsWellFormed_iff order two_steps order-Enumerates).0 two_steps_valid

validate-IsWellFormed_iff_example :
    (validate order two_steps ≡ none) ↔ IsWellFormed two_steps.sub_tasks
validate-IsWellFormed_iff_example = validate-IsWellFormed_iff order two_steps order-Enumerates

-- Two tasks that wait for each other.
abbrev knot : Plan
knot = plan_with (task "fetch" "report" ∷ report ∷ [])

knot_refused : validate order knot ≡ some (cycle "report")
unfolding validate split_parent_ids trim_space is_space split_comma
knot_refused = refl

validate-Blames_example : Blames knot.sub_tasks (cycle "report")
validate-Blames_example = validate-Blames order knot (cycle "report") order-Enumerates knot_refused

ready_tasks-IsReady_iff_example :
    Memᴰ fetch (ready_tasks two_steps) ↔ IsReady two_steps.sub_tasks fetch
ready_tasks-IsReady_iff_example = ready_tasks-IsReady_iff two_steps fetch two_steps-UniqueIds

ready_tasks_progress_example : (r : Task) × Memᴰ r (ready_tasks two_steps)
ready_tasks_progress_example =
    ready_tasks_progress two_steps report two_steps-IsWellFormed two_steps-UniqueIds two_steps-Quiet
      (Memᴰ.tail (Memᴰ.head refl)) refl

put_plan_lem_example :
    PutSpec good_disk two_steps empty_store (put_plan good_disk two_steps empty_store)
put_plan_lem_example = put_plan_lem good_disk two_steps empty_store

empty_store-IsHistory : IsHistory empty_store
unfolding load_checkpoint
empty_store-IsHistory = record {
  named = λ id p h. ground arith;
  bounded = λ id v cp h. ground arith;
}

two_steps-UpToDate : UpToDate two_steps empty_store
two_steps-UpToDate q h = ground arith

abbrev pub one_put : Store
one_put = (put_plan good_disk two_steps empty_store).store

one_put-IsHistory : IsHistory one_put
one_put-IsHistory =
    (put_plan-IsHistory good_disk two_steps empty_store empty_store-IsHistory two_steps-UpToDate).0

put_plan-IsHistory_example :
    IsHistory (put_plan good_disk two_steps empty_store).store
    × UpToDate
        (put_plan good_disk two_steps empty_store).plan
        (put_plan good_disk two_steps empty_store).store
    × ((id : String) (v : ℕ) (cp : Checkpoint)
        → load_checkpoint id v empty_store ≡ some cp
        → load_checkpoint id v (put_plan good_disk two_steps empty_store).store ≡ some cp)
put_plan-IsHistory_example =
    put_plan-IsHistory good_disk two_steps empty_store empty_store-IsHistory two_steps-UpToDate

abbrev put_once : Plan
put_once = record two_steps { version = 1 }

put_once_loaded : (load_plan "p" one_put).1 ≡ some put_once
unfolding load_plan put_plan snapshot copy_tasks insert_plan
put_once_loaded = refl

load_plan-UpToDate_example :
    UpToDate put_once (load_plan "p" one_put).0
    × (put_once.id ≡ "p")
    × (get_plan "p" (load_plan "p" one_put).0 ≡ some put_once)
load_plan-UpToDate_example =
    load_plan-UpToDate "p" one_put put_once one_put-IsHistory put_once_loaded

two_steps_put : (put_plan good_disk two_steps empty_store).error ≡ none
unfolding put_plan snapshot copy_tasks insert_plan
two_steps_put = refl

-- The second task is dropped, and the rollback brings it back.
abbrev edited : Plan
edited = record put_once { sub_tasks = fetch ∷ [] }

abbrev undone : Store
undone =
    (plan_rollback good_disk (rollback_args "p" 1) (put_plan good_disk edited one_put).store).store

-- The version 1 is below that of the plan, so the rollback takes place.
plan_rollback-Whole_example :
    Whole
      (rollback_args "p" 1)
      (put_plan good_disk edited one_put).store
      (plan_rollback good_disk (rollback_args "p" 1) (put_plan good_disk edited one_put).store)
plan_rollback-Whole_example =
    plan_rollback-Whole good_disk (rollback_args "p" 1) (put_plan good_disk edited one_put).store

plan_rollback-put_plan_example :
    (r : Plan) × (get_plan "p" undone ≡ some r)
    × (r.sub_tasks ≡ two_steps.sub_tasks)
    × (r.name ≡ two_steps.name)
    × (r.state ≡ two_steps.state)
    × (r.version ≡ two_steps.version + 3)
plan_rollback-put_plan_example =
    plan_rollback-put_plan good_disk good_disk two_steps edited empty_store two_steps_put refl refl

abbrev approval : Fields
approval = ("plan_id", text "p") ∷ ("status", text "doing") ∷ []

confirm_plan-Decision_example : Decision approval one_put (confirm_plan good_disk approval one_put)
confirm_plan-Decision_example = confirm_plan-Decision good_disk approval one_put

put_once_known : get_plan "p" one_put ≡ some put_once
unfolding get_plan put_plan snapshot copy_tasks insert_plan
put_once_known = refl

check_unknown : find_task "check" one_put ≡ none
unfolding find_task task_in put_plan snapshot copy_tasks insert_plan
check_unknown = refl

-- A task with an action and a parent is inserted into the plan and deleted again.
abbrev look_again : Fields
look_again =
    ("plan_id", text "p")
    ∷ ("goal", text "look again")
    ∷ ("action", text "fetch once more")
    ∷ ("parent_task_id", text "fetch")
    ∷ []

look_again_plan : required_string look_again "plan_id" ≡ ok "p"
unfolding required_string field
look_again_plan = refl

look_again_goal : required_string look_again "goal" ≡ ok "look again"
unfolding required_string field
look_again_goal = refl

abbrev inserted_and_deleted : Store
inserted_and_deleted =
    (task_delete good_disk (delete_args "check")
      (task_insert good_disk "check" look_again one_put).store).store

task_delete-task_insert_example :
    (r : Plan) × (get_plan "p" inserted_and_deleted ≡ some r)
    × (r.sub_tasks ≡ put_once.sub_tasks)
    × (r.version ≡ put_once.version + 2)
    × ((j : String) → "p" ≢ j → get_plan j inserted_and_deleted ≡ get_plan j one_put)
task_delete-task_insert_example =
    task_delete-task_insert good_disk good_disk "check" "p" "look again" look_again put_once one_put
      refl look_again_plan look_again_goal put_once_known check_unknown
