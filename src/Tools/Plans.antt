-- ===== src/Tools/Plans.antt =====
-- tools/internals/plan.go: the handlers of the plan tools. Each takes the arguments of the call and
-- the store, and returns the answer and the store after it.
pub mod Rollback
pub mod Confirm
pub mod Tasks
use kugelblitz.Common.{
  ℕ, zero, suc, ◌+◌, ◌-◌, String, Bool, true, false, ◌||◌, Option, none, some, List, [], ◌∷◌, ◌++◌,
  if◌then◌else◌, ◌=ˢ◌, is_empty, ltb, leb,
}
use kugelblitz.Constants.{PlanState}
use kugelblitz.Working.Types.{TaskStatus, Task, Plan, Checkpoint}
use kugelblitz.Working.Store.{
  Store, Disk, Put, get_plan, put_plan, find_task, find_task_idx, delete_at, remove_from_slice,
  update_task, load_checkpoint, StoreError, checkpoint_unread,
}
use kugelblitz.Message.{Fields, field, as_text, text_or_empty}
use kugelblitz.Tools.Arguments.{
  ℤ, pos, negsuc, ltz, ToolError, plan_not_found, task_not_found, task_not_in_plan,
  version_out_of_range, nothing_to_query, unstored, Result, ok, err, arg, required_string,
  optional_string, optional_int, in_allowed,
}

-- The outputs of a call: ErrorResult's error, and what SuccessResult is given.
pub data Answer : Type 0 where
  refused : ToolError → Answer
  plan_answer : Plan → Answer
  plans_answer : List Plan → Answer
  confirmed_answer : (id : String) (state : PlanState) → Answer
  inserted_answer : (task goal : String) → Answer
  deleted_answer : Answer
  task_answer : Task → Answer
  tasks_answer : List Task → Answer
  updated_answer : (id : String) (status : TaskStatus) → Answer
  rollback_answer : (plan : String) (from to : ℕ) → Answer

pub record Called : Type 0 where
  pub answer : Answer
  pub store : Store

abbrev pub called : Answer → Store → Called
called a s = record { answer = a; store = s }

abbrev pub refuse : Store → ToolError → Called
refuse s e = called (refused e) s

abbrev pub and_then {ℓ} : {A : Type ℓ} → Store → Result A → (A → Called) → Called
and_then s (ok a) k = k a
and_then s (err e) k = refuse s e

-- PutPlan, and the answer if it returns nil.
abbrev pub put_and : Disk → Plan → Store → (Plan → Answer) → Called
put_and d p s answer =
    let w = put_plan d p s in
    elim w.error [
      | none ↦ called (answer w.plan) w.store
      | some e ↦ called (refused (unstored e)) w.store
    ]

abbrev pub with_plan : String → Store → (Plan → Called) → Called
with_plan id s k = elim (get_plan id s) [ none ↦ refuse s (plan_not_found id) | some p ↦ k p ]

-- PlanCreate; the id is GeneratePlanID's, and the session is the context's.
unfoldable pub plan_create : Disk → (id session : String) → Fields → Store → Called
unfolding arg put_plan
plan_create d id session args s = and_then s (arg args "name") (λ name.
    put_and d
      (record {
        id = id;
        session_id = session;
        name = name;
        sub_tasks = [];
        current_activate_sub_task_ids = [];
        state = PlanState.init;
        finished_reason = "";
        version = 0;
      })
      s plan_answer)

-- `detail.Args[key].(string)`, "" if it is no string.
abbrev pub text_arg : Fields → String → String
text_arg args key = text_or_empty (as_text (field key args))

-- PlanQuery
unfoldable pub plan_query : Fields → Store → Called
unfolding get_plan field
plan_query args s =
    let id = text_arg args "plan_id" in
    if is_empty id
    then called (plans_answer s.plans) s
    else with_plan id s (λ p. called (plan_answer p) s)

-- constants.PlanState(status)
unfoldable pub to_state : String → PlanState
to_state status =
    if status =ˢ "none"
    then PlanState.none
    else if status =ˢ "intent"
    then PlanState.intent
    else if status =ˢ "init"
    then PlanState.init
    else if status =ˢ "direct"
    then PlanState.direct
    else if status =ˢ "confirmed"
    then PlanState.confirmed
    else if status =ˢ "rejected"
    then PlanState.rejected
    else if status =ˢ "doing"
    then PlanState.doing
    else if status =ˢ "update"
    then PlanState.updating
    else if status =ˢ "done"
    then PlanState.done
    else if status =ˢ "failed"
    then PlanState.failed
    else PlanState.other status

abbrev pub or_reason : String → String → String
or_reason reason old = if is_empty reason then old else reason

abbrev pub decide_plan : String → String → Plan → Plan
decide_plan status reason p = record p {
  state = to_state status;
  finished_reason = or_reason reason p.finished_reason;
}

-- ConfirmPlan
unfoldable pub confirm_plan : Disk → Fields → Store → Called
unfolding required_string in_allowed optional_string get_plan put_plan to_state
confirm_plan d args s = and_then s (required_string args "plan_id") (λ id.
    and_then s (required_string args "status") (λ status.
      elim (in_allowed status ("doing" ∷ "rejected" ∷ "update" ∷ [])) [
        | some e ↦ refuse s e
        | none ↦ with_plan id s (λ p.
            put_and d (decide_plan status (optional_string args "reason") p) s
              (λ p'. confirmed_answer p'.id p'.state))
      ]))

abbrev pub new_task : (id goal action parents : String) → Task
new_task id goal action parents = record {
  id = id;
  parent_task_id = parents;
  goal = goal;
  status = TaskStatus.pending;
  finished_reason = "";
  action = action;
  usage = none;
}

-- TaskInsert; the id is GenerateTaskID's.
unfoldable pub task_insert : Disk → (id : String) → Fields → Store → Called
unfolding required_string optional_string get_plan put_plan
task_insert d id args s = and_then s (required_string args "plan_id") (λ plan_id.
    and_then s (required_string args "goal") (λ goal.
      let t =
        new_task id goal (optional_string args "action") (optional_string args "parent_task_id") in
      with_plan plan_id s (λ p.
        put_and d (record p { sub_tasks = p.sub_tasks ++ t ∷ [] }) s
          (λ _. inserted_answer t.id t.goal))))

abbrev pub without_task : ℕ → String → Plan → Plan
without_task i id p = record p {
  sub_tasks = delete_at i p.sub_tasks;
  current_activate_sub_task_ids = remove_from_slice p.current_activate_sub_task_ids id;
}

-- TaskDelete
unfoldable pub task_delete : Disk → Fields → Store → Called
unfolding required_string find_task find_task_idx delete_at remove_from_slice put_plan
task_delete d args s = and_then s (required_string args "task_id") (λ id. elim (find_task id s) [
  | none ↦ refuse s (task_not_found id)
  | some (p, _) ↦ elim (find_task_idx p.sub_tasks id) [
    | none ↦ refuse s task_not_in_plan
    | some i ↦ put_and d (without_task i id p) s (λ _. deleted_answer)
  ]
])

-- TaskQuery
unfoldable pub task_query : Fields → Store → Called
unfolding get_plan field find_task
task_query args s =
    let task_id = text_arg args "task_id" in
    let plan_id = text_arg args "plan_id" in
    if is_empty task_id
    then if is_empty plan_id
      then refuse s nothing_to_query
      else with_plan plan_id s (λ p. called (tasks_answer p.sub_tasks) s)
    else elim (find_task task_id s) [
      | none ↦ refuse s (task_not_found task_id)
      | some (_, t) ↦ called (task_answer t) s
    ]

abbrev pub to_status : String → TaskStatus
to_status status =
    if status =ˢ "pending"
    then TaskStatus.pending
    else if status =ˢ "doing"
    then TaskStatus.doing
    else if status =ˢ "done"
    then TaskStatus.done
    else TaskStatus.failed

abbrev pub with_status : TaskStatus → String → Task → Task
with_status status reason t = record t {
  status = status;
  finished_reason = or_reason reason t.finished_reason;
}

abbrev pub set_status : String → String → Task → Task
set_status status reason = with_status (to_status status) reason

-- TaskStatusUpdate
unfoldable pub task_status_update : Disk → Fields → Store → Called
unfolding required_string in_allowed optional_string find_task update_task put_plan
task_status_update d args s = and_then s (required_string args "task_id") (λ id.
    and_then s (required_string args "status") (λ status.
      elim (in_allowed status ("pending" ∷ "doing" ∷ "done" ∷ "failed" ∷ [])) [
        | some e ↦ refuse s e
        | none ↦ elim (find_task id s) [
          | none ↦ refuse s (task_not_found id)
          | some (p, t) ↦
              let set = set_status status (optional_string args "reason") in
              put_and d (record p { sub_tasks = update_task id set p.sub_tasks }) s
                (λ _. updated_answer t.id (to_status status))
        ]
      ]))

-- fromVersion-1
abbrev pub previous : ℕ → ℤ
previous zero = negsuc 0
previous (suc n) = pos n

abbrev pub restored : Checkpoint → Plan → Plan
restored cp p = record p {
  name = cp.plan.name;
  sub_tasks = cp.plan.sub_tasks;
  current_activate_sub_task_ids = cp.plan.current_activate_sub_task_ids;
  state = cp.plan.state;
  finished_reason = cp.plan.finished_reason;
}

-- The target is tested to be a number from 1 to fromVersion-1.
unfoldable pub roll_back_to : Disk → String → Plan → ℤ → Store → Called
unfolding load_checkpoint put_plan
roll_back_to d id p (negsuc n) s = refuse s (version_out_of_range p.version)
roll_back_to d id p (pos v) s =
    if ltb v 1 || leb p.version v
    then refuse s (version_out_of_range p.version)
    else elim (load_checkpoint id v s) [
      | none ↦ refuse s (unstored checkpoint_unread)
      | some cp ↦ put_and d (restored cp p) s (λ p'. rollback_answer id p.version p'.version)
    ]

-- PlanRollback
unfoldable pub plan_rollback : Disk → Fields → Store → Called
unfolding arg get_plan optional_int roll_back_to
plan_rollback d args s = and_then s (arg args "plan_id") (λ id. with_plan id s (λ p.
    and_then s (optional_int args "version" (previous p.version))
      (λ target. roll_back_to d id p target s)))
