-- ===== src/Dag/Order.antt =====
-- runtime/engine/dag/dag.go: the dependencies of the tasks during a run.
use mathlib.Core.List.Memᴰ
use kugelblitz.Common.{
  ℕ, zero, suc, String, Bool, true, false, List, [], ◌∷◌, map, Memᴰ, ◌≡◌, ◌≢◌, refl, sym, ◌∙◌, ap,
  subst, inl, inr, Bool-cases, Option-cases, if◌then◌else◌, keep, mem-keep, is_empty,
}
use kugelblitz.Working.Types.{TaskStatus, Task, Plan}
use kugelblitz.Working.Parents.{split_parent_ids, parents}
use kugelblitz.Working.Ready.{is_ready, status_map, ready_tasks}
use kugelblitz.Working.Ready.Spec.{UniqueIds, DoneIn, is_ready-IsReady}
use kugelblitz.Working.Store.{Store, Disk, update_task}
use kugelblitz.Working.Skeleton.{
  bone, KeepsBone, skeleton-update, skeleton-map, mem-update, update-mem, UniqueIds-same,
  UniqueIds-eq,
}
use kugelblitz.Tools.Plans.{with_status}
use kugelblitz.Dag.{
  BatchResult, Outcome, cancelled, succeeded, failed, Step, settled, saved, updated, Run, World,
  landing, mark_ready, set_doing, set_cancelled, settle, call_back, apply_step, finish_all, ended,
  begin_round, cancel_round, run_round, batch_loop, execute_batch,
}
use kugelblitz.Dag.Rounds.{sub_tasks-put, batch_loop_cases, tasks-updated}
use kugelblitz.Dag.Success.{settled_ids, settle-KeepsBone, tasks-settled}

-- A task that is not pending has every parent done.
abbrev pub Ordered : List Task → Type 0
Ordered ts =
    (t : Task) (p : String)
    → Memᴰ t ts
    → t.status ≢ TaskStatus.pending
    → Memᴰ p (parents t)
    → DoneIn ts p

-- Every write of a worker by task_status_update is to a task that is settled later in the round.
abbrev pub AllOwn : List Step → Type 0
AllOwn [] = Unit
AllOwn (settled t o ∷ sts) = AllOwn sts
AllOwn (saved id ∷ sts) = AllOwn sts
AllOwn (updated id status reason ∷ sts) = Memᴰ id (settled_ids sts) × AllOwn sts

-- A round settles only tasks that were ready, workers write only to tasks under way, and no callback
-- rolls the tasks of the plan back.
pub record IsFair (w : World) : Type 0 where
  pub known :
      (n : ℕ) (ready : List Task) (id : String)
      → Memᴰ id (settled_ids (w.steps n ready))
      → (t : Task) × Memᴰ t ready × (t.id ≡ id)
  pub own : (n : ℕ) (ready : List Task) → AllOwn (w.steps n ready)
  pub no_rollback :
      (id goal reason : String) (p : Plan) (s : Store)
      → (w.on_task_failed id goal reason p s).0.sub_tasks ≡ p.sub_tasks

-- The parent is done, and nothing is still to be written to it in this round.
abbrev Backed : List String → List Task → String → Type 0
Backed ids ts p = DoneIn ts p × (¬ Memᴰ p ids)

-- The ids are those of the tasks that are still to be settled in the round.
record Orderly (ids : List String) (ts : List Task) : Type 0 where
  pub unique : UniqueIds ts
  pub started :
      (t : Task) (p : String)
      → Memᴰ t ts
      → t.status ≢ TaskStatus.pending
      → Memᴰ p (parents t)
      → Backed ids ts p
  pub under_way :
      (t : Task) (p : String) → Memᴰ t ts → Memᴰ t.id ids → Memᴰ p (parents t) → Backed ids ts p

Orderly-Ordered : (ids : List String) (ts : List Task) → Orderly ids ts → Ordered ts
Orderly-Ordered ids ts h t p m n k = (h.started t p m n k).0

Orderly-fewer :
    (ids jds : List String) (ts : List Task)
    → ((p : String) → Memᴰ p jds → Memᴰ p ids)
    → Orderly ids ts
    → Orderly jds ts
Orderly-fewer ids jds ts few h = record {
  unique = h.unique;
  started = λ t p m n k. let (done, free) = h.started t p m n k in (done, λ q. free (few p q));
  under_way = λ t p m w k.
      let (done, free) = h.under_way t p m (few t.id w) k in (done, λ q. free (few p q));
}

same_parents : (t u : Task) → bone t ≡ bone u → parents t ≡ parents u
same_parents t u e = ap (λ (x : String × String). split_parent_ids x.1) e

pending_not_done : {s : TaskStatus} → s ≡ TaskStatus.pending → s ≡ TaskStatus.done → ⊥
pending_not_done p q = cc

-- A write to a task that is still to be settled.
module _ (id : String) (f : Task → Task) (bare : KeepsBone f) (ids : List String) (ts : List Task)
    (h : Orderly ids ts) (mine : Memᴰ id ids) where
  Backed-update : (p : String) → Backed ids ts p → Backed ids (update_task id f ts) p
  Backed-update p ((x, m, e, d), free) = (
    (x, update-mem id f ts x m (λ q. free (subst (λ z. Memᴰ z ids) (sym q ∙ e) mine)), e, d),
    free,
  )

  Orderly-update : Orderly ids (update_task id f ts)
  Orderly-update = record {
    unique = UniqueIds-same ts _ (sym (skeleton-update id f ts bare)) h.unique;
    started = λ t p m n k. elim (mem-update id f ts t h.unique m) [
      | inl (old, other) ↦ Backed-update p (h.started t p old n k)
      | inr (v, old, e, w) ↦ written t v p old e w k
    ];
    under_way = λ t p m n k. elim (mem-update id f ts t h.unique m) [
      | inl (old, other) ↦ Backed-update p (h.under_way t p old n k)
      | inr (v, old, e, w) ↦ written t v p old e w k
    ];
  }
    where
      written :
          (t v : Task) (p : String)
          → Memᴰ v ts
          → v.id ≡ id
          → t ≡ f v
          → Memᴰ p (parents t)
          → Backed ids (update_task id f ts) p
      written t v p old e w k = Backed-update p (
          h.under_way v p old (subst (λ z. Memᴰ z ids) (sym e) mine)
            (subst (Memᴰ p) (same_parents t v (ap bone w ∙ bare v)) k))

-- The marking of the ready tasks with a status, by a write that keeps ids and parents.
module _ (f : Task → Task) (k : KeepsBone f) (ts : List Task) (u : UniqueIds ts)
    (h : Ordered ts) where
  abbrev marked : List Task
  marked = map (λ t. if is_ready (status_map ts) t then f t else t) ts

  mark_bone : KeepsBone (λ t. if is_ready (status_map ts) t then f t else t)
  mark_bone t = elim (Bool-cases (is_ready (status_map ts) t)) [ inl y ↦ rw y (k t) | inr n ↦ rw n ]

  DoneIn-mark : (p : String) → DoneIn ts p → DoneIn marked p
  DoneIn-mark p (x, m, e, d) = (
    x,
    subst (λ y. Memᴰ y marked)
        (elim (Bool-cases (is_ready (status_map ts) x)) [
          | inl y ↦ absurd (pending_not_done (is_ready-IsReady ts x m y).waiting d)
          | inr n ↦ rw n
        ])
        (Memᴰ.map (λ (t : Task). if is_ready (status_map ts) t then f t else t) m),
    e,
    d,
  )

  marked_unique : UniqueIds marked
  marked_unique = UniqueIds-same ts marked (sym (skeleton-map _ ts mark_bone)) u

  -- The ids are among those of the ready tasks.
  module _ (ids : List String)
      (known : (id : String)
        → Memᴰ id ids
        → (t : Task) × Memᴰ t (keep (is_ready (status_map ts)) ts) × (t.id ≡ id)) where
    ready_id : (v : Task) → Memᴰ v ts → Memᴰ v.id ids → is_ready (status_map ts) v ≡ true
    ready_id v old q =
        let (r, kept, e) = known v.id q in
        let (mr, y) = mem-keep (is_ready (status_map ts)) ts r kept in
        subst (λ x. is_ready (status_map ts) x ≡ true) (UniqueIds-eq ts r v u mr old e) y

    Backed-mark : (p : String) → DoneIn ts p → Backed ids marked p
    Backed-mark p (x, m, e, d) = (
      DoneIn-mark p (x, m, e, d),
      λ q.
          let y = ready_id x m (subst (λ z. Memᴰ z ids) (sym e) q) in
          pending_not_done (is_ready-IsReady ts x m y).waiting d,
    )

    Orderly-mark : Orderly ids marked
    Orderly-mark = record {
      unique = marked_unique;
      started = λ t p m n q.
          let (v, old, e) =
            Memᴰ.of_map (λ (x : Task). if is_ready (status_map ts) x then f x else x) ts m in
          let q' = subst (Memᴰ p) (same_parents t v (sym (ap bone e) ∙ mark_bone v)) q in
          elim (Bool-cases (is_ready (status_map ts) v)) [
            | inl y ↦ Backed-mark p ((is_ready-IsReady ts v old y).parents_done p q')
            | inr w ↦
                Backed-mark p
                  (h v p old (λ z. n (ap (λ (x : Task). x.status) (sym (rw w at e)) ∙ z)) q')
          ];
      under_way = λ t p m w q.
          let (v, old, e) =
            Memᴰ.of_map (λ (x : Task). if is_ready (status_map ts) x then f x else x) ts m in
          let bare = sym (ap bone e) ∙ mark_bone v in
          let y =
            ready_id v old (subst (λ z. Memᴰ z ids) (ap (λ (x : String × String). x.0) bare) w) in
          Backed-mark p (
            (is_ready-IsReady ts v old y).parents_done p
              (subst (Memᴰ p) (same_parents t v bare) q));
    }

ended_run : {b c : BatchResult} {r s : Run} → ended b r ≡ ended c s → r ≡ s
ended_run h = cc

sub_tasks-call_back :
    (w : World) (fair : IsFair w) (t : Task) (o : Outcome) (r : Run)
    → (call_back w t o r).plan.sub_tasks ≡ r.plan.sub_tasks
sub_tasks-call_back w fair t cancelled r = refl
sub_tasks-call_back w fair t (succeeded x u) r = refl
sub_tasks-call_back w fair t (failed x u) r = elim (Bool-cases (is_empty x)) [
  | inl e ↦ rw e
  | inr n ↦ rw n (fair.no_rollback t.id t.goal x r.plan r.store)
]

module _ (d : Disk) (w : World) (fair : IsFair w) where
  tasks-saved :
      (id : String) (r : Run) → (apply_step d w (saved id) r).plan.sub_tasks ≡ r.plan.sub_tasks
  unfolding apply_step
  tasks-saved id r = elim (Option-cases (landing id r.flights)) [
    | inl gone ↦ rw (gone, apply_step)
    | inr ((f, fs), found) ↦
        rw (found, apply_step)
          (sub_tasks-put d (call_back w f.task f.outcome (record r { flights = fs }))
            ∙ sub_tasks-call_back w fair f.task f.outcome (record r { flights = fs }))
  ]

  finish_all-Orderly :
      (sts : List Step) (r : Run)
      → AllOwn sts
      → Orderly (settled_ids sts) r.plan.sub_tasks
      → Orderly [] (finish_all d w sts r).plan.sub_tasks
  unfolding finish_all
  finish_all-Orderly [] r g h = h
  finish_all-Orderly (settled t o ∷ sts) r g h =
      let ids = t.id ∷ settled_ids sts in
      let next =
        Orderly-update t.id (settle o) (settle-KeepsBone o) ids r.plan.sub_tasks h
          (Memᴰ.head refl) in
      finish_all-Orderly sts _ g (
        rw (tasks-settled d w t o r)
          (Orderly-fewer ids (settled_ids sts) _ (λ p m. Memᴰ.tail m) next))
  finish_all-Orderly (saved id ∷ sts) r g h = finish_all-Orderly sts _ g (rw (tasks-saved id r) h)
  finish_all-Orderly (updated id status reason ∷ sts) r g h = finish_all-Orderly sts _ g.1 (
      rw (tasks-updated d w id status reason r) (
        Orderly-update id (with_status status reason) (λ t. refl) (settled_ids sts) r.plan.sub_tasks
          h g.0))

  run_round-Orderly :
      (n : ℕ) (r : Run)
      → UniqueIds r.plan.sub_tasks
      → Ordered r.plan.sub_tasks
      → Orderly [] (run_round d w n r).plan.sub_tasks
  unfolding run_round begin_round mark_ready ready_tasks
  run_round-Orderly n r u h =
      finish_all-Orderly (w.steps n (ready_tasks r.plan)) _ (fair.own n (ready_tasks r.plan)) (
        rw sub_tasks-put (
          Orderly-mark set_doing (λ t. refl) r.plan.sub_tasks u h
            (settled_ids (w.steps n (ready_tasks r.plan))) (fair.known n (ready_tasks r.plan))))

  cancel_round-Ordered :
      (r : Run)
      → UniqueIds r.plan.sub_tasks
      → Ordered r.plan.sub_tasks
      → Ordered (cancel_round d r).plan.sub_tasks
  unfolding cancel_round mark_ready
  cancel_round-Ordered r u h = rw sub_tasks-put (
      Orderly-Ordered [] _
        (Orderly-mark set_cancelled (λ t. refl) r.plan.sub_tasks u h [] (λ id m. elim m [ ])))

  batch_loop-Ordered :
      (fuel n : ℕ) (any : Bool) (r : Run) (b : BatchResult) (r' : Run)
      → UniqueIds r.plan.sub_tasks
      → Ordered r.plan.sub_tasks
      → batch_loop d w fuel n any r ≡ ended b r'
      → Ordered r'.plan.sub_tasks
  unfolding batch_loop
  batch_loop-Ordered zero n any r b r' u h e = absurd (cc)
  batch_loop-Ordered (suc fuel) n any r b r' u h e =
      let next = run_round-Orderly n r u h in
      elim (batch_loop_cases d w fuel n any r) [
        | inl (x, loop) ↦ subst (λ (y : Run). Ordered y.plan.sub_tasks) (ended_run (sym loop ∙ e)) h
        | inr (x, inl (c, loop)) ↦
            subst (λ (y : Run). Ordered y.plan.sub_tasks) (ended_run (sym loop ∙ e))
              (cancel_round-Ordered r u h)
        | inr (x, inr (c, inl (f, loop))) ↦
            subst (λ (y : Run). Ordered y.plan.sub_tasks) (ended_run (sym loop ∙ e))
              (Orderly-Ordered [] _ next)
        | inr (x, inr (c, inr (z, loop))) ↦
            batch_loop-Ordered fuel (suc n) true _ b r' next.unique (Orderly-Ordered [] _ next)
              (sym loop ∙ e)
      ]

  -- If the ids are unique and every task that is not pending has all its parents done, then that
  -- holds of the plan when ExecuteBatch returns, with whatever failures and cancellations, as long
  -- as a round settles only ready tasks, workers use task_status_update, with any status, only for
  -- tasks that are settled later in the same round, and no callback changes the tasks of the plan,
  -- which excludes the rollback of handleDrift. So no task is started before all its parents are done,
  -- and none of these is undone.
  pub execute_batch-Ordered :
      (fuel : ℕ) (plan : Plan) (s : Store) (b : BatchResult) (r : Run)
      → UniqueIds plan.sub_tasks
      → Ordered plan.sub_tasks
      → execute_batch d w fuel plan s ≡ ended b r
      → Ordered r.plan.sub_tasks
  unfolding execute_batch
  execute_batch-Ordered fuel plan s b r u h e = batch_loop-Ordered fuel 0 false _ b r u h e
