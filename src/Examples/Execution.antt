-- ===== src/Examples/Execution.antt =====
-- runtime/engine/dag at the plan of two steps.
use mathlib.Core.List.Memᴰ
use kugelblitz.Working.Parents.{split_parent_ids}
use kugelblitz.Working.Ready.{ready_tasks, is_ready, all_parents_done}
use kugelblitz.Common.{
  keep, trim_space, Option, some, true, none, String, false, none, List, [], ◌∷◌, ◌++◌, Memᴰ, ◌≡◌,
  ◌≢◌, ℕ, zero, suc, ◌+◌, length, arith, refl, inl, inr, sym, ap, subst,
}
use kugelblitz.Working.Types.{TaskStatus, Task, task_ids}
use kugelblitz.Working.Store.{task_in, put_plan, update_task, empty_store}
use kugelblitz.Dag.{
  run_round, finish_all, apply_step, landing, begin_round, mark_ready, is_dag_done, BatchResult,
  Ended, out_of_fuel, cancelled, BatchResult, Outcome, succeeded, failed, Step, settled, saved,
  updated, Run, World, ended, execute_batch,
}
use kugelblitz.Dag.Success.{AllGood, AllSucceed, settled_ids, Completed, execute_batch-Completed}
use kugelblitz.Dag.Rounds.{resets, ResetsWithin, execute_batch_ends}
use kugelblitz.Dag.Order.{IsFair, AllOwn, Ordered, execute_batch-Ordered}
use kugelblitz.Examples.Plans.{
  plan_with, fetch, two_steps, good_disk, two_steps-IsWellFormed, two_steps-UniqueIds,
  two_steps-Quiet, mem_two,
}

doing_not_pending : TaskStatus.doing ≢ TaskStatus.pending
doing_not_pending e = ground arith

-- Every ready task is run to its end, one after the other; its worker says by the tool that it has
-- begun.
run_all : (Task → Outcome) → List Task → List Step
run_all f [] = []
run_all f (t ∷ ts) =
    updated t.id TaskStatus.doing "begun" ∷ settled t (f t) ∷ saved t.id ∷ run_all f ts

abbrev world : (Task → Outcome) → World
world f = record {
  ctx_cancelled = λ _. false;
  steps = λ _ ready. run_all f ready;
  on_task_failed = λ _ _ _ p s. (p, s);
}

abbrev success : Task → Outcome
success t = succeeded "ok" none

abbrev failure : Task → Outcome
failure t = failed "no network" none

settled_ids-run_all :
    (f : Task → Outcome) (ts : List Task) → settled_ids (run_all f ts) ≡ task_ids ts
unfolding run_all
settled_ids-run_all f [] = refl
settled_ids-run_all f (t ∷ ts) = ap (λ ids. t.id ∷ ids) (settled_ids-run_all f ts)

run_all-AllOwn : (f : Task → Outcome) (ts : List Task) → AllOwn (run_all f ts)
unfolding run_all
run_all-AllOwn f [] = tt
run_all-AllOwn f (t ∷ ts) = (Memᴰ.head refl, run_all-AllOwn f ts)

run_all-AllGood : (ts : List Task) → AllGood (run_all success ts)
unfolding run_all
run_all-AllGood [] = tt
run_all-AllGood (t ∷ ts) = (inr (doing_not_pending, Memᴰ.head refl), run_all-AllGood ts)

resets-run_all : (f : Task → Outcome) (ts : List Task) → resets (run_all f ts) ≡ 0
unfolding resets run_all
resets-run_all f [] = refl
resets-run_all f (t ∷ ts) = omega (arith, resets-run_all f ts)

mem-task_ids : (t : Task) (ts : List Task) → Memᴰ t ts → Memᴰ t.id (task_ids ts)
mem-task_ids t (u ∷ us) m = elim (Memᴰ.cases_cons m) [
  | inl h ↦ Memᴰ.head (ap (λ (x : Task). x.id) h)
  | inr m' ↦ Memᴰ.tail (mem-task_ids t us m')
]
mem-task_ids t [] m = elim m [ ]

task_ids-mem :
    (ts : List Task) (id : String) → Memᴰ id (task_ids ts) → (t : Task) × Memᴰ t ts × (t.id ≡ id)
task_ids-mem [] id m = elim m [ ]
task_ids-mem (u ∷ us) id m = elim (Memᴰ.cases_cons m) [
  | inl h ↦ (u, Memᴰ.head refl, sym h)
  | inr m' ↦ let (t, inside, same) = task_ids-mem us id m' in (t, Memᴰ.tail inside, same)
]

success-AllSucceed : AllSucceed (world success)
success-AllSucceed = record {
  running = λ n. refl;
  good = λ n ready. run_all-AllGood ready;
  covered = λ n ready t m.
      subst (Memᴰ t.id) (sym (settled_ids-run_all success ready)) (mem-task_ids t ready m);
}

world-IsFair : (f : Task → Outcome) → IsFair (world f)
world-IsFair f = record {
  known = λ n ready id m. task_ids-mem ready id (subst (Memᴰ id) (settled_ids-run_all f ready) m);
  own = λ n ready. run_all-AllOwn f ready;
  no_rollback = λ id goal reason p s. refl;
}

execute_batch-Completed_example :
    Completed two_steps.sub_tasks (execute_batch good_disk (world success) 3 two_steps empty_store)
execute_batch-Completed_example =
    execute_batch-Completed good_disk (world success) two_steps empty_store success-AllSucceed
      two_steps-IsWellFormed two_steps-UniqueIds two_steps-Quiet

-- In the first round a worker makes the first task pending again after its end.
abbrev reset_once : ℕ → List Task → List Step
reset_once zero ready = run_all success ready ++ updated "fetch" TaskStatus.pending "again" ∷ []
reset_once (suc n) ready = run_all success ready

abbrev again : World
again = record {
  ctx_cancelled = λ _. false;
  steps = reset_once;
  on_task_failed = λ _ _ _ p s. (p, s);
}

abbrev one_reset : ℕ → ℕ
one_reset zero = 1
one_reset (suc n) = 0

resets-append : (xs ys : List Step) → resets (xs ++ ys) ≡ resets xs + resets ys
unfolding resets
resets-append [] ys = omega arith
resets-append (x ∷ xs) ys = omega (arith, resets-append xs ys)

again-ResetsWithin : ResetsWithin again one_reset
unfolding resets
again-ResetsWithin zero ready = omega (
  arith,
  resets-run_all success ready,
  resets-append (run_all success ready) (updated "fetch" TaskStatus.pending "again" ∷ []),
)
again-ResetsWithin (suc n) ready = omega (arith, resets-run_all success ready)

execute_batch_ends_example :
    (b : BatchResult) × (r : Run) × (execute_batch good_disk again
        (suc (length two_steps.sub_tasks + 1))
        two_steps
        empty_store
      ≡ ended b r)
execute_batch_ends_example =
    execute_batch_ends good_disk again one_reset two_steps empty_store again-ResetsWithin

two_steps_pending : (t : Task) → Memᴰ t two_steps.sub_tasks → t.status ≡ TaskStatus.pending
two_steps_pending t m = elim (mem_two m) [
  | inl h ↦ ap (λ (x : Task). x.status) h
  | inr h ↦ ap (λ (x : Task). x.status) h
]

two_steps-Ordered : Ordered two_steps.sub_tasks
two_steps-Ordered t p m started = absurd (started (two_steps_pending t m))

-- The first task fails, and ExecuteBatch returns.
failing_run :
    (b : BatchResult) × (r : Run) × (execute_batch good_disk
        (world failure)
        (suc (length two_steps.sub_tasks + 0))
        two_steps
        empty_store
      ≡ ended b r)
failing_run =
    execute_batch_ends good_disk (world failure) (λ _. 0) two_steps empty_store
      (λ n ready. omega (arith, resets-run_all failure ready))

execute_batch-Ordered_example : Ordered failing_run.1.plan.sub_tasks
execute_batch-Ordered_example =
    execute_batch-Ordered good_disk (world failure) (world-IsFair failure)
      (suc (length two_steps.sub_tasks + 0)) two_steps empty_store failing_run.0 failing_run.1
      two_steps-UniqueIds two_steps-Ordered failing_run.2

-- The context is cancelled after the head of the round: the task fails, and the result says that
-- nothing failed.
abbrev cancelled_world : World
cancelled_world = record {
  ctx_cancelled = λ _. false;
  steps = λ _ ready. settled fetch cancelled ∷ saved "fetch" ∷ [];
  on_task_failed = λ _ _ _ p s. (p, s);
}

abbrev reported : Ended → Option BatchResult
reported (ended b r) = some b
reported out_of_fuel = none

cancelled_run :
    reported (execute_batch good_disk cancelled_world 2 (plan_with (fetch ∷ [])) empty_store)
    ≡ some (record { batched = true; has_failed = false; all_done = true })
unfolding execute_batch ready_tasks keep is_ready all_parents_done split_parent_ids trim_space
    run_round finish_all apply_step landing task_in begin_round put_plan mark_ready update_task
    is_dag_done
cancelled_run = refl
