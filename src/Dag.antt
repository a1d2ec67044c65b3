-- ===== src/Dag.antt =====
-- runtime/engine/dag/dag.go, ExecuteBatch: the pending tasks whose parents are done are run in
-- rounds. The workers of a round run concurrently; each goroutine's effect on the plan is
-- two critical sections, its worker may also write to tasks by the tool task_status_update, and the
-- order in which all of this happens is a list of steps.
pub mod Rounds
pub mod Success
pub mod Order
use kugelblitz.Common.{
  ℕ, zero, suc, ◌+◌, String, Bool, true, false, Option, none, some, List, [], ◌∷◌, map, ltb,
  if◌then◌else◌, is_empty, ◌=ˢ◌,
}
use kugelblitz.Working.Types.{Usage, TaskStatus, Task, Plan}
use kugelblitz.Working.Ready.{is_ready, status_map, ready_tasks}
use kugelblitz.Working.Store.{Store, Disk, put_plan, task_in, find_task, update_task}
use kugelblitz.Tools.Plans.{with_status}

-- types.BatchResult
pub record BatchResult : Type 0 where
  pub batched : Bool
  pub has_failed : Bool
  pub all_done : Bool

-- How a goroutine ends: it saw a cancelled context and ran no worker, or its worker returned.
pub data Outcome : Type 0 where
  cancelled : Outcome
  succeeded : (output : String) (usage : Option Usage) → Outcome
  failed : (reason : String) (usage : Option Usage) → Outcome

-- The two critical sections of a goroutine: the writes to its task, and, after the callback, the
-- saving of the plan. Those of other goroutines may stand between them. The third step is a call of
-- task_status_update by a worker, which that tool has not refused.
pub data Step : Type 0 where
  settled : Task → Outcome → Step
  saved : (task : String) → Step
  updated : (task : String) (status : TaskStatus) (reason : String) → Step

-- A goroutine between its two critical sections.
pub record Flight : Type 0 where
  pub task : Task
  pub outcome : Outcome

-- The plan object, which lies in the store after the first PutPlan, the store, `failCount`, and
-- the goroutines that have settled their task and not yet saved the plan.
pub record Run : Type 0 where
  pub plan : Plan
  pub store : Store
  pub fails : ℕ
  pub flights : List Flight

-- What the executor does not decide: whether the context is cancelled when a round begins; what the
-- workers of a round write and how and in what order its goroutines end, which errgroup runs; and
-- the callback `onTaskFailed`. That errgroup runs one goroutine for each ready task and waits for
-- all of them is a hypothesis where a theorem needs it.
pub record World : Type 0 where
  pub ctx_cancelled : ℕ → Bool
  pub steps : ℕ → List Task → List Step
  pub on_task_failed : (id goal reason : String) → Plan → Store → Plan × Store

abbrev pub with_tasks : (List Task → List Task) → Plan → Plan
with_tasks f p = record p { sub_tasks = f p.sub_tasks }

-- A write to every task that ReadyTasks returned a pointer to.
unfoldable pub mark_ready : (Task → Task) → List Task → List Task
mark_ready f tasks = let m = status_map tasks in map (λ t. if is_ready m t then f t else t) tasks

abbrev pub set_doing : Task → Task
set_doing t = record t { status = TaskStatus.doing }

abbrev pub set_cancelled : Task → Task
set_cancelled t = record t { status = TaskStatus.failed; finished_reason = "cancelled" }

abbrev pub set_done : String → Option Usage → Task → Task
set_done output usage t = record t {
  status = TaskStatus.done;
  finished_reason = output;
  usage = usage;
}

abbrev pub set_failed : String → Option Usage → Task → Task
set_failed reason usage t = record t {
  status = TaskStatus.failed;
  finished_reason = reason;
  usage = usage;
}

-- An error of PutPlan is logged, and the run goes on.
abbrev pub put : Disk → Run → Run
put d r = let w = put_plan d r.plan r.store in record r { plan = w.plan; store = w.store }

abbrev pub settle : Outcome → Task → Task
settle cancelled = set_cancelled
settle (succeeded output usage) = set_done output usage
settle (failed reason usage) = set_failed reason usage

-- What the goroutine adds to `failCount`; a cancelled one adds nothing.
abbrev pub fail_count : Outcome → ℕ
fail_count (failed reason usage) = 1
fail_count _ = 0

-- The callback runs if the worker failed with a text that is not empty.
abbrev pub call_back : World → Task → Outcome → Run → Run
call_back w t (failed reason usage) r =
    let (plan', store') = w.on_task_failed t.id t.goal reason r.plan r.store in
    if is_empty reason then r else record r { plan = plan'; store = store' }
call_back w t _ r = r

-- What task_status_update does to a task that is not of this plan.
unfoldable pub update_elsewhere :
    Disk → (task : String) → TaskStatus → (reason : String) → Store → Store
unfolding find_task update_task put_plan
update_elsewhere d id status reason s = elim (find_task id s) [
  | none ↦ s
  | some (p, _) ↦
      let tasks = update_task id (with_status status reason) p.sub_tasks in
      (put_plan d (record p { sub_tasks = tasks }) s).store
]

unfoldable pub landing : String → List Flight → Option (Flight × List Flight)
landing id [] = none
landing id (f ∷ fs) =
    let rest = landing id fs in
    if f.task.id =ˢ id
    then some (f, fs)
    else elim rest [ none ↦ none | some (g, gs) ↦ some (g, f ∷ gs) ]

-- Task ids are unique across plans, so FindTask looks in this plan; a goroutine whose task is not
-- found is over. A tool call finds the task of another plan in the store.
unfoldable pub apply_step : Disk → World → Step → Run → Run
apply_step d w (settled t o) r = elim (task_in t.id r.plan.sub_tasks) [
  | none ↦ r
  | some _ ↦ record {
    plan = with_tasks (update_task t.id (settle o)) r.plan;
    store = r.store;
    fails = r.fails + fail_count o;
    flights = record { task = t; outcome = o } ∷ r.flights;
  }
]
apply_step d w (saved id) r = elim (landing id r.flights) [
  | none ↦ r
  | some (f, fs) ↦ put d (call_back w f.task f.outcome (record r { flights = fs }))
]
apply_step d w (updated id status reason) r = elim (task_in id r.plan.sub_tasks) [
  | none ↦ record r { store = update_elsewhere d id status reason r.store }
  | some _ ↦
      put d (record r { plan = with_tasks (update_task id (with_status status reason)) r.plan })
]

-- `g.Wait()`
unfoldable pub finish_all : Disk → World → List Step → Run → Run
finish_all d w [] r = r
finish_all d w (st ∷ sts) r = finish_all d w sts (apply_step d w st r)

abbrev pub is_terminal : TaskStatus → Bool
is_terminal TaskStatus.pending = false
is_terminal TaskStatus.doing = false
is_terminal _ = true

-- isDAGDone
unfoldable pub is_dag_done : List Task → Bool
is_dag_done [] = true
is_dag_done (t ∷ ts) = let rest = is_dag_done ts in if is_terminal t.status then rest else false

pub data Ended : Type 0 where
  ended : BatchResult → Run → Ended
  out_of_fuel : Ended

-- The ready tasks are marked as doing and saved, and the count of failures starts again.
unfoldable pub begin_round : Disk → Run → Run
begin_round d r = put d (record {
  plan = with_tasks (mark_ready set_doing) r.plan;
  store = r.store;
  fails = 0;
  flights = [];
})

unfoldable pub cancel_round : Disk → Run → Run
cancel_round d r = put d (record r { plan = with_tasks (mark_ready set_cancelled) r.plan })

unfoldable pub run_round : Disk → World → ℕ → Run → Run
run_round d w round r = finish_all d w (w.steps round (ready_tasks r.plan)) (begin_round d r)

abbrev pub result : Bool → Bool → Run → Ended
result batched has_failed r =
    ended
      (record {
        batched = batched;
        has_failed = has_failed;
        all_done = is_dag_done r.plan.sub_tasks;
      })
      r

-- The `for` loop; `hasFailed` is never assigned, so the first return always says false.
unfoldable pub batch_loop : Disk → World → ℕ → ℕ → Bool → Run → Ended
batch_loop d w zero round any_batch r = out_of_fuel
batch_loop d w (suc fuel) round any_batch r =
    let next = run_round d w round r in
    let rest = batch_loop d w fuel (suc round) true next in
    elim (ready_tasks r.plan) [
      | [] ↦ result any_batch false r
      | _ ∷ _ ↦
          if w.ctx_cancelled round
          then result any_batch true (cancel_round d r)
          else if ltb 0 next.fails
          then result true true next
          else rest
    ]

unfoldable pub execute_batch : Disk → World → ℕ → Plan → Store → Ended
unfolding batch_loop
execute_batch d w fuel plan s =
    batch_loop d w fuel 0 false (record { plan = plan; store = s; fails = 0; flights = [] })
