-- ===== src/Dag/Rounds.antt =====
-- runtime/engine/dag/dag.go: the rounds of ExecuteBatch and the number of pending tasks.
use mathlib.Core.List.{cons≢nil}
use native.Mathlib.Nat.{le_refl}
use kugelblitz.Common.{
  ℕ, zero, suc, ◌+◌, ◌≤◌, ◌<◌, String, Bool, true, false, some, List, [], ◌∷◌, map, ◌≡◌, ◌≢◌, refl,
  ◌⊎◌, inl, inr, arith, ltb, Bool-cases, keep, if◌then◌else◌, ap, sym, ◌∙◌, Option-cases,
  List-cases, length, All, subst, none_ne_some,
}
use kugelblitz.Working.Types.{TaskStatus, Task, Plan, is_pending}
use kugelblitz.Working.Ready.{StatusMap, is_ready, status_map, ready_tasks}
use kugelblitz.Working.Store.{Store, Disk, task_in, update_task}
use kugelblitz.Working.Skeleton.{update_absent}
use kugelblitz.Working.Store.Versions.{put_plan_lem}
use kugelblitz.Tools.Plans.{with_status}
use kugelblitz.Dag.{
  Flight, landing, Outcome, cancelled, succeeded, failed, Step, settled, saved, Run, World,
  mark_ready, set_doing, put, settle, fail_count, call_back, apply_step, finish_all, ended, updated,
  begin_round, run_round, batch_loop, execute_batch, BatchResult, result, cancel_round,
}

pub pending_count : List Task → ℕ
pending_count [] = 0
pending_count (t ∷ ts) =
    let rest = pending_count ts in if is_pending t.status then suc rest else rest

pub sub_tasks-put : (d : Disk) (r : Run) → (put d r).plan.sub_tasks ≡ r.plan.sub_tasks
sub_tasks-put d r = ap (λ (p : Plan). p.sub_tasks) (put_plan_lem d r.plan r.store).plan_next

pending_count-update :
    (id : String) (o : Outcome) (ts : List Task)
    → pending_count (update_task id (settle o) ts) ≤ pending_count ts
unfolding pending_count update_task
pending_count-update id o [] = omega arith
pending_count-update id cancelled (t ∷ ts) = ground (arith, pending_count-update id cancelled ts)
pending_count-update id (succeeded x u) (t ∷ ts) =
    ground (arith, pending_count-update id (succeeded x u) ts)
pending_count-update id (failed x u) (t ∷ ts) =
    ground (arith, pending_count-update id (failed x u) ts)

-- What a step adds at most to the pending tasks.
abbrev pub reset_count : Step → ℕ
reset_count (updated id status reason) = if is_pending status then 1 else 0
reset_count _ = 0

-- The writes of workers that make a task pending again.
unfoldable pub resets : List Step → ℕ
resets [] = 0
resets (st ∷ sts) = reset_count st + resets sts

pending_count-status :
    (id : String) (status : TaskStatus) (reason : String) (ts : List Task)
    → pending_count (update_task id (with_status status reason) ts)
      ≤ (if is_pending status then 1 else 0) + pending_count ts
unfolding pending_count update_task
pending_count-status id status reason [] = omega arith
pending_count-status id status reason (t ∷ ts) =
    ground (arith, pending_count-status id status reason ts)

is_ready-is_pending : (m : StatusMap) (t : Task) → is_ready m t ≡ true → is_pending t.status ≡ true
unfolding is_ready
is_ready-is_pending m t h = ground arith

pending_count-mark :
    (m : StatusMap) (ts : List Task)
    → pending_count (map (λ t. if is_ready m t then set_doing t else t) ts) ≤ pending_count ts
unfolding pending_count
pending_count-mark m [] = omega arith
pending_count-mark m (t ∷ ts) = ground (arith, pending_count-mark m ts)

pending_count-mark_lt :
    (m : StatusMap) (ts : List Task)
    → keep (is_ready m) ts ≢ []
    → pending_count (map (λ t. if is_ready m t then set_doing t else t) ts) < pending_count ts
unfolding pending_count keep
pending_count-mark_lt m [] h = absurd (h refl)
pending_count-mark_lt m (t ∷ ts) h = elim (Bool-cases (is_ready m t)) [
  | inl y ↦ rw (y, is_ready-is_pending m t y) (omega (arith, pending_count-mark m ts))
  | inr n ↦ ground (arith, pending_count-mark_lt m ts (λ e. h (rw n e)))
]

-- No goroutine in flight has failed.
abbrev pub Clean : List Flight → Type 0
Clean = All (λ (f : Flight). fail_count f.outcome ≡ 0)

landing_inv :
    (id : String) (x : Flight) (fs : List Flight) (f : Flight) (gs : List Flight)
    → landing id (x ∷ fs) ≡ some (f, gs)
    → ((x ≡ f) × (fs ≡ gs)) ⊎ ((hs : List Flight) × (landing id fs ≡ some (f, hs)) × (x ∷ hs ≡ gs))
unfolding landing
landing_inv id x fs f gs h = ground arith

pub landing-All :
    (P : Flight → Type 0) (id : String) (fs : List Flight) (f : Flight) (gs : List Flight)
    → All P fs
    → landing id fs ≡ some (f, gs)
    → P f × All P gs
unfolding landing
landing-All P id [] f gs c h = absurd (none_ne_some (sym h))
landing-All P id (x ∷ fs) f gs c h = elim (landing_inv id x fs f gs h) [
  | inl (e, same) ↦ (subst P e c.0, subst (All P) same c.1)
  | inr (hs, rest, same) ↦
      let (p, ps) = landing-All P id fs f hs c.1 rest in (p, subst (All P) same (c.0, ps))
]

pub call_back_clean :
    (w : World) (t : Task) (o : Outcome) (r : Run) → fail_count o ≡ 0 → call_back w t o r ≡ r
call_back_clean w t cancelled r h = refl
call_back_clean w t (succeeded x u) r h = refl
call_back_clean w t (failed x u) r h = absurd (omega arith)

-- The step through a task that FindTask may or may not find.
pub tasks-updated :
    (d : Disk) (w : World) (id : String) (status : TaskStatus) (reason : String) (r : Run)
    → (apply_step d w (updated id status reason) r).plan.sub_tasks
      ≡ update_task id (with_status status reason) r.plan.sub_tasks
unfolding apply_step
tasks-updated d w id status reason r = elim (Option-cases (task_in id r.plan.sub_tasks)) [
  | inl gone ↦
      rw (gone, apply_step)
        (sym (update_absent id (with_status status reason) r.plan.sub_tasks gone))
  | inr (u, found) ↦
      let tasks = update_task id (with_status status reason) r.plan.sub_tasks in
      rw (found, apply_step)
        (sub_tasks-put d (record r { plan = record r.plan { sub_tasks = tasks } }))
]

pub rest-updated :
    (d : Disk) (w : World) (id : String) (status : TaskStatus) (reason : String) (r : Run)
    → ((apply_step d w (updated id status reason) r).fails ≡ r.fails)
      × ((apply_step d w (updated id status reason) r).flights ≡ r.flights)
unfolding apply_step
rest-updated d w id status reason r = elim (Option-cases (task_in id r.plan.sub_tasks)) [
  | inl gone ↦ rw (gone, apply_step) (refl, refl)
  | inr (u, found) ↦ rw (found, apply_step) (refl, refl)
]

-- As long as no worker of a round has failed, the pending tasks are at most `n`.
record Calm (n : ℕ) (r : Run) : Type 0 where
  pub clean : r.fails ≡ 0 → Clean r.flights
  pub few : r.fails ≡ 0 → pending_count r.plan.sub_tasks ≤ n

Calm-le : (n m : ℕ) (r : Run) → n ≤ m → Calm n r → Calm m r
Calm-le n m r h c = record { clean = c.clean; few = λ z. let k = c.few z in omega (arith, h, k) }

pub fails-call_back :
    (w : World) (t : Task) (o : Outcome) (r : Run) → (call_back w t o r).fails ≡ r.fails
fails-call_back w t cancelled r = refl
fails-call_back w t (succeeded x u) r = refl
fails-call_back w t (failed x u) r = ground arith

saved-Calm :
    (d : Disk) (w : World) (r : Run) (n : ℕ) (f : Flight) (fs : List Flight)
    → Calm n r
    → (Clean r.flights → (fail_count f.outcome ≡ 0) × Clean fs)
    → Calm n (put d (call_back w f.task f.outcome (record r { flights = fs })))
saved-Calm d w r n f fs c land =
    let r₀ = record r { flights = fs } in
    let before : (put d (call_back w f.task f.outcome r₀)).fails ≡ 0 → r.fails ≡ 0 =
      λ z. sym (fails-call_back w f.task f.outcome r₀) ∙ z in
    let same : r.fails ≡ 0 → call_back w f.task f.outcome r₀ ≡ r₀ =
      λ z. call_back_clean w f.task f.outcome r₀ (land (c.clean z)).0 in
    record {
      clean = λ z. rw (same (before z)) (land (c.clean (before z))).1;
      few = λ z.
          rw (sub_tasks-put d (call_back w f.task f.outcome r₀))
            (rw (same (before z)) (c.few (before z)));
    }

step-Calm :
    (d : Disk) (w : World) (st : Step) (r : Run) (n : ℕ)
    → Calm n r
    → Calm (reset_count st + n) (apply_step d w st r)
unfolding apply_step
step-Calm d w (updated id status reason) r n c =
    let (fails, flights) = rest-updated d w id status reason r in
    record {
      clean = λ z. subst Clean (sym flights) (c.clean (sym fails ∙ z));
      few = λ z.
          let before = c.few (sym fails ∙ z) in
          rw (tasks-updated d w id status reason r)
            (omega (arith, pending_count-status id status reason r.plan.sub_tasks, before));
    }
step-Calm d w (settled t o) r n c =
    Calm-le n (0 + n) _ (omega arith) (elim (Option-cases (task_in t.id r.plan.sub_tasks)) [
      | inl gone ↦ rw (gone, apply_step) c
      | inr (u, found) ↦
          rw (found, apply_step)
            (record {
              clean = λ z. (omega arith, c.clean (omega arith));
              few = λ z.
                  omega (arith, pending_count-update t.id o r.plan.sub_tasks, c.few (omega arith));
            })
    ])
step-Calm d w (saved id) r n c =
    Calm-le n (0 + n) _ (omega arith) (elim (Option-cases (landing id r.flights)) [
      | inl gone ↦ rw (gone, apply_step) c
      | inr ((f, fs), found) ↦
          rw (found, apply_step)
            (saved-Calm d w r n f fs c (λ k. landing-All _ id r.flights f fs k found))
    ])

all-Calm :
    (d : Disk) (w : World) (sts : List Step) (r : Run) (n : ℕ)
    → Calm n r
    → Calm (resets sts + n) (finish_all d w sts r)
unfolding finish_all resets
all-Calm d w [] r n c = Calm-le n (0 + n) r (omega arith) c
all-Calm d w (st ∷ sts) r n c =
    let last =
      all-Calm d w sts (apply_step d w st r) (reset_count st + n) (step-Calm d w st r n c) in
    record { clean = last.clean; few = λ z. let k = last.few z in omega (arith, k) }

begin_round_pending :
    (d : Disk) (r : Run)
    → ready_tasks r.plan ≢ []
    → pending_count (begin_round d r).plan.sub_tasks < pending_count r.plan.sub_tasks
unfolding begin_round mark_ready ready_tasks
begin_round_pending d r h =
    rw sub_tasks-put (pending_count-mark_lt (status_map r.plan.sub_tasks) r.plan.sub_tasks h)

begin_flights : (d : Disk) (r : Run) → Clean (begin_round d r).flights
unfolding begin_round
begin_flights d r = tt

-- A round without a failure leaves fewer pending tasks, but for those that workers reset.
pub round_pending :
    (d : Disk) (w : World) (n : ℕ) (r : Run)
    → ready_tasks r.plan ≢ []
    → (run_round d w n r).fails ≡ 0
    → pending_count (run_round d w n r).plan.sub_tasks
      < resets (w.steps n (ready_tasks r.plan)) + pending_count r.plan.sub_tasks
unfolding run_round
round_pending d w n r h z =
    let c =
      all-Calm d w (w.steps n (ready_tasks r.plan)) (begin_round d r)
        (pending_count (begin_round d r).plan.sub_tasks)
        (record { clean = λ _. begin_flights d r; few = λ _. le_refl _ }) in
    omega (arith, c.few z, begin_round_pending d r h)

-- The four ways on from the head of the loop.
pub batch_loop_cases :
    (d : Disk) (w : World) (fuel n : ℕ) (any : Bool) (r : Run)
    → let next = run_round d w n r in
      let loop = batch_loop d w (suc fuel) n any r in
      ((ready_tasks r.plan ≡ []) × (loop ≡ result any false r))
      ⊎ ((ready_tasks r.plan ≢ [])
          × (((w.ctx_cancelled n ≡ true) × (loop ≡ result any true (cancel_round d r)))
              ⊎ ((w.ctx_cancelled n ≡ false)
                  × (((0 < next.fails) × (loop ≡ result true true next))
                      ⊎ ((next.fails ≡ 0) × (loop ≡ batch_loop d w fuel (suc n) true next))))))
unfolding batch_loop
batch_loop_cases d w fuel n any r = elim (List-cases (ready_tasks r.plan)) [
  | inl e ↦ inl (e, rw (e, batch_loop))
  | inr (x, xs, e) ↦ inr (
    λ z. cons≢nil (sym e ∙ z),
    elim (Bool-cases (w.ctx_cancelled n)) [
      | inl c ↦ inl (c, rw (e, c, batch_loop))
      | inr c ↦ inr (
        c,
        elim (Bool-cases (ltb 0 (run_round d w n r).fails)) [
          | inl f ↦ inl (ground arith, rw (e, c, f, batch_loop))
          | inr f ↦ inr (ground arith, rw (e, c, f, batch_loop))
        ],
      )
    ],
  )
]

-- From round `n` on, the workers make tasks pending again at most `left n` times.
abbrev pub ResetsWithin : World → (ℕ → ℕ) → Type 0
ResetsWithin w left = (n : ℕ) (ready : List Task) → resets (w.steps n ready) + left (suc n) ≤ left n

batch_loop_ends :
    (d : Disk) (w : World) (left : ℕ → ℕ)
    → ResetsWithin w left
    → (fuel n : ℕ) (any : Bool) (r : Run) → pending_count r.plan.sub_tasks + left n < fuel
    → (b : BatchResult) × (r' : Run) × (batch_loop d w fuel n any r ≡ ended b r')
batch_loop_ends d w left within zero n any r h = absurd (omega arith)
batch_loop_ends d w left within (suc fuel) n any r h = elim (batch_loop_cases d w fuel n any r) [
  | inl (e, q) ↦ (_, _, q)
  | inr (some_ready, inl (c, q)) ↦ (_, _, q)
  | inr (some_ready, inr (c, inl (f, q))) ↦ (_, _, q)
  | inr (some_ready, inr (c, inr (z, q))) ↦
      let (b, r', e) =
        batch_loop_ends d w left within fuel (suc n) true (run_round d w n r)
          (omega (arith, round_pending d w n r some_ready z, within n (ready_tasks r.plan))) in
      (b, r', q ∙ e)
]

pub pending_count-le-length : (ts : List Task) → pending_count ts ≤ length ts
unfolding pending_count
pending_count-le-length [] = omega arith
pending_count-le-length (t ∷ ts) = ground (arith, pending_count-le-length ts)

-- ExecuteBatch returns if the workers make tasks pending again, by task_status_update, at most
-- `left 0` times in all its rounds: one round for each task, one for each such write and one more are
-- enough, whatever else the workers do, in whatever order their goroutines end, and whatever the
-- callback does to the plan.
pub execute_batch_ends :
    (d : Disk) (w : World) (left : ℕ → ℕ) (plan : Plan) (s : Store)
    → ResetsWithin w left
    → (b : BatchResult) × (r : Run) × (execute_batch d w
          (suc (length plan.sub_tasks + left 0))
          plan
          s
        ≡ ended b r)
unfolding execute_batch
execute_batch_ends d w left plan s within =
    batch_loop_ends d w left within (suc (length plan.sub_tasks + left 0)) 0 false _
      (omega (arith, pending_count-le-length plan.sub_tasks))
