-- ===== src/Dag/Success.antt =====
-- runtime/engine/dag/dag.go: runs in which every worker succeeds.
use mathlib.Core.List.Memᴰ
use kugelblitz.Common.{
  ℕ, zero, suc, ◌<◌, String, Bool, true, false, Option, List, [], ◌∷◌, map, Memᴰ, ◌≡◌, ◌≢◌, refl,
  sym, ◌∙◌, ap, subst, ◌⊎◌, inl, inr, arith, Bool-cases, Option-cases, if◌then◌else◌, length,
  keep-mem, keep, false≢true,
}
use kugelblitz.Working.Types.{Usage, TaskStatus, Task, Plan, is_pending}
use kugelblitz.Working.Ready.{StatusMap, is_ready, status_map, ready_tasks}
use kugelblitz.Working.Ready.Spec.{UniqueIds, Quiet, ready_tasks_progress}
use kugelblitz.Working.Validate.Sound.{IsWellFormed}
use kugelblitz.Working.Store.{Store, Disk, task_in, update_task}
use kugelblitz.Working.Skeleton.{
  skeleton, KeepsBone, skeleton-update, skeleton-map, mem-update, update_absent, UniqueIds-same,
  IsWellFormed-same,
}
use kugelblitz.Tools.Plans.{with_status}
use kugelblitz.Dag.{
  Outcome, cancelled, succeeded, failed, Step, settled, saved, updated, Run, World, BatchResult,
  landing, mark_ready, set_doing, settle, fail_count, apply_step, finish_all, is_dag_done, Ended,
  ended, begin_round, run_round, batch_loop, execute_batch,
}
use kugelblitz.Dag.Rounds.{
  Clean, landing-All, call_back_clean, sub_tasks-put, pending_count, pending_count-le-length,
  round_pending, batch_loop_cases, resets, tasks-updated, rest-updated,
}

abbrev pub settled_ids : List Step → List String
settled_ids [] = []
settled_ids (settled t o ∷ sts) = t.id ∷ settled_ids sts
settled_ids (saved id ∷ sts) = settled_ids sts
settled_ids (updated id status reason ∷ sts) = settled_ids sts

-- Every worker that is settled has succeeded; and a worker sets a task to done by the tool, or, not to
-- pending, a task that is settled later in the round, such as its own.
abbrev pub AllGood : List Step → Type 0
AllGood [] = Unit
AllGood (settled t (succeeded output usage) ∷ sts) = AllGood sts
AllGood (settled t _ ∷ sts) = ⊥
AllGood (saved id ∷ sts) = AllGood sts
AllGood (updated id status reason ∷ sts) =
    ((status ≡ TaskStatus.done) ⊎ ((status ≢ TaskStatus.pending) × Memᴰ id (settled_ids sts)))
    × AllGood sts

not_pending : (status : TaskStatus) → status ≢ TaskStatus.pending → is_pending status ≡ false
not_pending TaskStatus.pending h = absurd (h refl)
not_pending TaskStatus.doing h = refl
not_pending TaskStatus.done h = refl
not_pending TaskStatus.failed h = refl

good_status :
    (status : TaskStatus) (id : String) (ids : List String)
    → (status ≡ TaskStatus.done) ⊎ ((status ≢ TaskStatus.pending) × Memᴰ id ids)
    → is_pending status ≡ false
good_status status id ids (inl e) = rw e refl
good_status status id ids (inr (h, m)) = not_pending status h

resets-AllGood : (sts : List Step) → AllGood sts → resets sts ≡ 0
unfolding resets
resets-AllGood [] g = refl
resets-AllGood (settled t (succeeded output usage) ∷ sts) g = omega (arith, resets-AllGood sts g)
resets-AllGood (settled t cancelled ∷ sts) g = absurd g
resets-AllGood (settled t (failed reason usage) ∷ sts) g = absurd g
resets-AllGood (saved id ∷ sts) g = omega (arith, resets-AllGood sts g)
resets-AllGood (updated id status reason ∷ sts) g =
    rw (good_status status id (settled_ids sts) g.0) (omega (arith, resets-AllGood sts g.1))

-- The context is never cancelled, no worker fails or resets a task, and errgroup runs a goroutine for
-- every ready task and waits for it: each is settled in its round.
pub record AllSucceed (w : World) : Type 0 where
  pub running : (n : ℕ) → w.ctx_cancelled n ≡ false
  pub good : (n : ℕ) (ready : List Task) → AllGood (w.steps n ready)
  pub covered :
      (n : ℕ) (ready : List Task) (t : Task)
      → Memᴰ t ready
      → Memᴰ t.id (settled_ids (w.steps n ready))

-- Each task is pending, done, or will be settled by one of the ids.
abbrev Settling : List String → List Task → Type 0
Settling ids ts =
    (t : Task)
    → Memᴰ t ts
    → ((t.status ≡ TaskStatus.pending) ⊎ (t.status ≡ TaskStatus.done)) ⊎ Memᴰ t.id ids

-- What holds between two steps of such a round.
record Mid (bones : List (String × String)) (ids : List String) (r : Run) : Type 0 where
  pub same_bones : skeleton r.plan.sub_tasks ≡ bones
  pub unique : UniqueIds r.plan.sub_tasks
  pub settling : Settling ids r.plan.sub_tasks
  pub clean : Clean r.flights
  pub no_fails : r.fails ≡ 0

pub settle-KeepsBone : (o : Outcome) → KeepsBone (settle o)
settle-KeepsBone cancelled t = refl
settle-KeepsBone (succeeded x u) t = refl
settle-KeepsBone (failed x u) t = refl

Settling-update :
    (id output : String) (usage : Option Usage) (ids : List String) (ts : List Task)
    → UniqueIds ts
    → Settling (id ∷ ids) ts
    → Settling ids (update_task id (settle (succeeded output usage)) ts)
Settling-update id output usage ids ts u h t m =
    elim (mem-update id (settle (succeeded output usage)) ts t u m) [
      | inr (v, n, e, w) ↦ inl (inr (ap (λ (x : Task). x.status) w))
      | inl (n, other) ↦ elim (h t n) [
        | inl quiet ↦ inl quiet
        | inr waits ↦ elim (Memᴰ.cases_cons waits) [
          | inl e ↦ absurd (other e)
          | inr rest ↦ inr rest
        ]
      ]
    ]

Settling-status :
    (id : String) (status : TaskStatus) (reason : String) (ids : List String) (ts : List Task)
    → UniqueIds ts
    → (status ≡ TaskStatus.done) ⊎ ((status ≢ TaskStatus.pending) × Memᴰ id ids)
    → Settling ids ts
    → Settling ids (update_task id (with_status status reason) ts)
Settling-status id status reason ids ts u g h t m =
    elim (mem-update id (with_status status reason) ts t u m) [
      | inl (n, other) ↦ h t n
      | inr (v, n, e, w) ↦ elim g [
        | inl done ↦ inl (inr (ap (λ (x : Task). x.status) w ∙ done))
        | inr (not_reset, later) ↦
            inr (subst (λ z. Memᴰ z ids) (sym (ap (λ (x : Task). x.id) w ∙ e)) later)
      ]
    ]

-- The step through a task that FindTask may or may not find.
pub tasks-settled :
    (d : Disk) (w : World) (t : Task) (o : Outcome) (r : Run)
    → (apply_step d w (settled t o) r).plan.sub_tasks ≡ update_task t.id (settle o) r.plan.sub_tasks
unfolding apply_step
tasks-settled d w t o r = elim (Option-cases (task_in t.id r.plan.sub_tasks)) [
  | inl gone ↦ rw (gone, apply_step) (sym (update_absent t.id (settle o) r.plan.sub_tasks gone))
  | inr (u, found) ↦ rw (found, apply_step)
]

rest-settled :
    (d : Disk) (w : World) (t : Task) (o : Outcome) (r : Run)
    → fail_count o ≡ 0
    → Clean r.flights
    → r.fails ≡ 0
    → Clean (apply_step d w (settled t o) r).flights × ((apply_step d w (settled t o) r).fails ≡ 0)
unfolding apply_step
rest-settled d w t o r z c f = elim (Option-cases (task_in t.id r.plan.sub_tasks)) [
  | inl gone ↦ rw (gone, apply_step) (c, f)
  | inr (u, found) ↦ rw (found, apply_step) ((z, c), omega arith)
]

module _ (d : Disk) (w : World) (bones : List (String × String)) where
  settled-Mid :
      (t : Task) (output : String) (usage : Option Usage) (ids : List String) (r : Run)
      → Mid bones (t.id ∷ ids) r
      → Mid bones ids (apply_step d w (settled t (succeeded output usage)) r)
  settled-Mid t output usage ids r h =
      let o = succeeded output usage in
      let same = tasks-settled d w t o r in
      let bare = skeleton-update t.id (settle o) r.plan.sub_tasks (settle-KeepsBone o) in
      let rest = rest-settled d w t o r refl h.clean h.no_fails in
      record {
        same_bones = rw same (bare ∙ h.same_bones);
        unique = rw same (UniqueIds-same r.plan.sub_tasks _ (sym bare) h.unique);
        settling =
            rw same (Settling-update t.id output usage ids r.plan.sub_tasks h.unique h.settling);
        clean = rest.0;
        no_fails = rest.1;
      }

  saved-Mid :
      (id : String) (ids : List String) (r : Run)
      → Mid bones ids r
      → Mid bones ids (apply_step d w (saved id) r)
  unfolding apply_step
  saved-Mid id ids r h = elim (Option-cases (landing id r.flights)) [
    | inl gone ↦ rw (gone, apply_step) h
    | inr ((f, fs), found) ↦
        let (z, c) = landing-All _ id r.flights f fs h.clean found in
        let r₀ = record r { flights = fs } in
        let same = sub_tasks-put d r₀ in
        rw (found, apply_step)
          (rw (call_back_clean w f.task f.outcome r₀ z) (record {
            same_bones = rw same h.same_bones;
            unique = rw same h.unique;
            settling = rw same h.settling;
            clean = c;
            no_fails = h.no_fails;
          }))
  ]

  updated-Mid :
      (id : String) (status : TaskStatus) (reason : String) (ids : List String) (r : Run)
      → (status ≡ TaskStatus.done) ⊎ ((status ≢ TaskStatus.pending) × Memᴰ id ids)
      → Mid bones ids r
      → Mid bones ids (apply_step d w (updated id status reason) r)
  updated-Mid id status reason ids r g h =
      let same = tasks-updated d w id status reason r in
      let bare = skeleton-update id (with_status status reason) r.plan.sub_tasks (λ t. refl) in
      let (fails, flights) = rest-updated d w id status reason r in
      record {
        same_bones = rw same (bare ∙ h.same_bones);
        unique = rw same (UniqueIds-same r.plan.sub_tasks _ (sym bare) h.unique);
        settling =
            rw same (Settling-status id status reason ids r.plan.sub_tasks h.unique g h.settling);
        clean = subst Clean (sym flights) h.clean;
        no_fails = fails ∙ h.no_fails;
      }

  finish_all-Mid :
      (sts : List Step) (r : Run)
      → AllGood sts
      → Mid bones (settled_ids sts) r
      → Mid bones [] (finish_all d w sts r)
  unfolding finish_all
  finish_all-Mid [] r g h = h
  finish_all-Mid (settled t (succeeded x u) ∷ sts) r g h =
      finish_all-Mid sts _ g (settled-Mid t x u (settled_ids sts) r h)
  finish_all-Mid (settled t cancelled ∷ sts) r g h = absurd g
  finish_all-Mid (settled t (failed x u) ∷ sts) r g h = absurd g
  finish_all-Mid (saved id ∷ sts) r g h =
      finish_all-Mid sts _ g (saved-Mid id (settled_ids sts) r h)
  finish_all-Mid (updated id status reason ∷ sts) r g h =
      finish_all-Mid sts _ g.1 (updated-Mid id status reason (settled_ids sts) r g.0 h)

mark_KeepsBone : (m : StatusMap) → KeepsBone (λ t. if is_ready m t then set_doing t else t)
mark_KeepsBone m t = ground arith

-- After the marking, the tasks under way are those that were ready.
mark_cases :
    (m : StatusMap) (ts : List Task) (t : Task)
    → Quiet ts
    → Memᴰ t (map (λ x. if is_ready m x then set_doing x else x) ts)
    → ((t.status ≡ TaskStatus.pending) ⊎ (t.status ≡ TaskStatus.done))
      ⊎ ((v : Task) × Memᴰ v (keep (is_ready m) ts) × (v.id ≡ t.id))
mark_cases m ts t q n =
    let (v, mv, e) = Memᴰ.of_map (λ (x : Task). if is_ready m x then set_doing x else x) ts n in
    elim (Bool-cases (is_ready m v)) [
      | inl y ↦ inr (v, keep-mem (is_ready m) ts v mv y, ap (λ (x : Task). x.id) (rw y at e))
      | inr other ↦ inl (
          subst (λ (x : Task). (x.status ≡ TaskStatus.pending) ⊎ (x.status ≡ TaskStatus.done))
            (rw other at e) (q v mv))
    ]

begin_round-Mid :
    (d : Disk) (w : World) (a : AllSucceed w) (n : ℕ) (r : Run)
    → UniqueIds r.plan.sub_tasks
    → Quiet r.plan.sub_tasks
    → Mid
        (skeleton r.plan.sub_tasks)
        (settled_ids (w.steps n (ready_tasks r.plan)))
        (begin_round d r)
unfolding begin_round mark_ready ready_tasks
begin_round-Mid d w a n r u q =
    let m = status_map r.plan.sub_tasks in
    let bare =
      skeleton-map (λ t. if is_ready m t then set_doing t else t) r.plan.sub_tasks
        (mark_KeepsBone m) in
    record {
      same_bones = rw sub_tasks-put bare;
      unique = rw sub_tasks-put (UniqueIds-same r.plan.sub_tasks _ (sym bare) u);
      settling = rw sub_tasks-put (λ t k. elim (mark_cases m r.plan.sub_tasks t q k) [
        | inl quiet ↦ inl quiet
        | inr (v, kept, e) ↦ inr (
            subst (λ x. Memᴰ x (settled_ids (w.steps n (ready_tasks r.plan)))) e
              (a.covered n (ready_tasks r.plan) v kept))
      ]);
      clean = tt;
      no_fails = refl;
    }

Mid-Quiet : {bones : List (String × String)} {r : Run} → Mid bones [] r → Quiet r.plan.sub_tasks
Mid-Quiet h t m = elim (h.settling t m) [ inl quiet ↦ quiet | inr n ↦ elim n [ ] ]

run_round-Mid :
    (d : Disk) (w : World) (a : AllSucceed w) (n : ℕ) (r : Run)
    → UniqueIds r.plan.sub_tasks
    → Quiet r.plan.sub_tasks
    → Mid (skeleton r.plan.sub_tasks) [] (run_round d w n r)
unfolding run_round
run_round-Mid d w a n r u q =
    finish_all-Mid d w (skeleton r.plan.sub_tasks) (w.steps n (ready_tasks r.plan))
      (begin_round d r) (a.good n (ready_tasks r.plan)) (begin_round-Mid d w a n r u q)

abbrev pub AllDone : List Task → Type 0
AllDone ts = (t : Task) → Memᴰ t ts → t.status ≡ TaskStatus.done

is_dag_done-AllDone : (ts : List Task) → AllDone ts → is_dag_done ts ≡ true
unfolding is_dag_done
is_dag_done-AllDone [] h = refl
is_dag_done-AllDone (t ∷ ts) h =
    rw (h t (Memᴰ.head refl)) (is_dag_done-AllDone ts (λ u m. h u (Memᴰ.tail m)))

-- When nothing is ready, everything is done.
stuck_AllDone :
    (plan : Plan)
    → IsWellFormed plan.sub_tasks
    → UniqueIds plan.sub_tasks
    → Quiet plan.sub_tasks
    → ready_tasks plan ≡ []
    → AllDone plan.sub_tasks
stuck_AllDone plan w u q e t m = elim (q t m) [
  | inr d ↦ d
  | inl p ↦
      let (r, n) = ready_tasks_progress plan t w u q m p in absurd (elim (subst (Memᴰ r) e n) [ ])
]

-- The outcome that the success of all workers leads to.
pub record Completed (ts : List Task) (e : Ended) : Type 0 where
  pub report : BatchResult
  pub run : Run
  pub returned : e ≡ ended report run
  pub no_failure : report.has_failed ≡ false
  pub reported_done : report.all_done ≡ true
  pub all_done : AllDone run.plan.sub_tasks
  pub same_bones : skeleton run.plan.sub_tasks ≡ skeleton ts

batch_loop-Completed :
    (d : Disk) (w : World) (a : AllSucceed w) (fuel n : ℕ) (any : Bool) (r : Run)
    → pending_count r.plan.sub_tasks < fuel
    → IsWellFormed r.plan.sub_tasks
    → UniqueIds r.plan.sub_tasks
    → Quiet r.plan.sub_tasks
    → Completed r.plan.sub_tasks (batch_loop d w fuel n any r)
batch_loop-Completed d w a zero n any r lt f u q = absurd (omega arith)
batch_loop-Completed d w a (suc fuel) n any r lt f u q =
    let mid = run_round-Mid d w a n r u q in
    let next = run_round d w n r in
    elim (batch_loop_cases d w fuel n any r) [
      | inl (e, loop) ↦
          let done = stuck_AllDone r.plan f u q e in
          record {
            report = record {
              batched = any;
              has_failed = false;
              all_done = is_dag_done r.plan.sub_tasks;
            };
            run = r;
            returned = loop;
            no_failure = refl;
            reported_done = is_dag_done-AllDone r.plan.sub_tasks done;
            all_done = done;
            same_bones = refl;
          }
      | inr (some_ready, inl (c, loop)) ↦ absurd (false≢true (sym (a.running n) ∙ c))
      | inr (some_ready, inr (c, inl (fails, loop))) ↦ absurd (omega (arith, mid.no_fails))
      | inr (some_ready, inr (c, inr (z, loop))) ↦
          let ih =
            batch_loop-Completed d w a fuel (suc n) true next
              (omega (
                arith,
                round_pending d w n r some_ready z,
                resets-AllGood (w.steps n (ready_tasks r.plan)) (a.good n (ready_tasks r.plan)),
              ))
              (IsWellFormed-same _ next.plan.sub_tasks (sym mid.same_bones) f) mid.unique
              (Mid-Quiet mid) in
          record {
            report = ih.report;
            run = ih.run;
            returned = loop ∙ ih.returned;
            no_failure = ih.no_failure;
            reported_done = ih.reported_done;
            all_done = ih.all_done;
            same_bones = ih.same_bones ∙ mid.same_bones;
          }
    ]

-- If the plan is well-formed with unique ids, every task of it is pending or done, the context is
-- never cancelled, every ready task's worker succeeds within its round, and workers use
-- task_status_update only to set tasks to done, or to doing or failed tasks that are settled later in
-- the same round, then, in whatever order the steps of a round come, ExecuteBatch returns, reports no failure and that all is done, and every
-- task of the plan is done; ids and parents are as before.
pub execute_batch-Completed :
    (d : Disk) (w : World) (plan : Plan) (s : Store)
    → AllSucceed w
    → IsWellFormed plan.sub_tasks
    → UniqueIds plan.sub_tasks
    → Quiet plan.sub_tasks
    → Completed plan.sub_tasks (execute_batch d w (suc (length plan.sub_tasks)) plan s)
unfolding execute_batch
execute_batch-Completed d w plan s a f u q =
    batch_loop-Completed d w a (suc (length plan.sub_tasks)) 0 false _
      (omega (arith, pending_count-le-length plan.sub_tasks)) f u q
