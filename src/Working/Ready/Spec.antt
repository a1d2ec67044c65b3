-- ===== src/Working/Ready/Spec.antt =====
-- memory/working/working.go: what ReadyTasks selects, and when it selects something.
use mathlib.Core.WellFounded.{Acc}
use mathlib.Core.List.Memᴰ
use kugelblitz.Common.{
  String, true, false, Option, none, some, List, [], ◌∷◌, Memᴰ, ◌≡◌, refl, sym, ◌∙◌, ◌⊎◌, inl, inr,
  arith, Bool-cases, ◌=ˢ◌, text_eq_sound, text_eq_refl, text_eq_false, false≢true, ◌↔◌, mem-keep,
  keep-mem,
}
use kugelblitz.Working.Types.{TaskStatus, Task, Plan, task_ids}
use kugelblitz.Working.Parents.{parents}
use kugelblitz.Working.Validate.Build.{DependsOn}
use kugelblitz.Working.Validate.Sound.{IsWellFormed}
use kugelblitz.Working.Ready.{
  StatusMap, mark_status, status_map, entry_done, all_parents_done, is_ready, ready_tasks,
}

-- No two tasks have the same id.
abbrev pub UniqueIds : List Task → Type 0
UniqueIds [] = Unit
UniqueIds (t ∷ ts) = ¬ Memᴰ t.id (task_ids ts) × UniqueIds ts

-- Some task with this id is done.
abbrev pub DoneIn : List Task → String → Type 0
DoneIn tasks p = (u : Task) × Memᴰ u tasks × (u.id ≡ p) × (u.status ≡ TaskStatus.done)

mark_status_absent :
    (ts : List Task) (m : StatusMap) (j : String)
    → ¬ Memᴰ j (task_ids ts)
    → mark_status ts m j ≡ m j
unfolding mark_status
mark_status_absent [] m j h = refl
mark_status_absent (t ∷ ts) m j h =
    mark_status_absent ts _ j (λ n. h (Memᴰ.tail n))
    ∙ rw (text_eq_false t.id j (λ e. h (Memᴰ.head (sym e))))

-- The entry of a task, when the ids are unique.
mark_status_mem :
    (ts : List Task) (m : StatusMap) (t : Task)
    → UniqueIds ts
    → Memᴰ t ts
    → mark_status ts m t.id ≡ some t.status
unfolding mark_status
mark_status_mem [] m t u h = elim h [ ]
mark_status_mem (x ∷ ts) m t u (Memᴰ.head e) =
    rw e (mark_status_absent ts _ x.id u.0 ∙ rw (text_eq_refl x.id))
mark_status_mem (x ∷ ts) m t u (Memᴰ.tail h) = mark_status_mem ts _ t u.1 h

mark_status_cases :
    (ts : List Task) (m : StatusMap) (j : String) (s : TaskStatus)
    → mark_status ts m j ≡ some s
    → ((u : Task) × Memᴰ u ts × (u.id ≡ j) × (u.status ≡ s)) ⊎ (m j ≡ some s)
unfolding mark_status
mark_status_cases [] m j s h = inr h
mark_status_cases (t ∷ ts) m j s h = elim (mark_status_cases ts _ j s h) [
  | inl (u, n, e, d) ↦ inl (u, Memᴰ.tail n, e, d)
  | inr k ↦ elim (Bool-cases (t.id =ˢ j)) [
    | inl same ↦ inl (t, Memᴰ.head refl, text_eq_sound t.id j same, ground arith)
    | inr other ↦ inr (rw other at k)
  ]
]

entry_done_inv : (o : Option TaskStatus) → entry_done o ≡ true → o ≡ some TaskStatus.done
entry_done_inv o h = ground arith

-- The map says `done` of an id exactly if a task with that id is done.
module _ (ts : List Task) (j : String) where
  entry_done-DoneIn : entry_done (status_map ts j) ≡ true → DoneIn ts j
  unfolding status_map
  entry_done-DoneIn h = elim (mark_status_cases ts _ j TaskStatus.done (entry_done_inv _ h)) [
    | inl d ↦ d
    | inr k ↦ absurd (cc)
  ]

  DoneIn-entry_done : UniqueIds ts → DoneIn ts j → entry_done (status_map ts j) ≡ true
  unfolding status_map
  DoneIn-entry_done u (t, m, e, d) = rw (← e) (rw (mark_status_mem ts (λ _. none) t u m) (rw d))

all_parents_done-entry :
    (ps : List String) (m : StatusMap) (p : String)
    → all_parents_done ps m ≡ true
    → Memᴰ p ps
    → entry_done (m p) ≡ true
unfolding all_parents_done
all_parents_done-entry [] m p h n = elim n [ ]
all_parents_done-entry (q ∷ ps) m p h n = elim (Bool-cases (entry_done (m q))) [
  | inr no_entry ↦ absurd (false≢true (rw no_entry at h))
  | inl found ↦ elim (Memᴰ.cases_cons n) [
    | inl e ↦ rw e found
    | inr n' ↦ all_parents_done-entry ps m p (rw found at h) n'
  ]
]

-- Either every parent is done, or one is at hand that is not.
all_parents_done_cases :
    (ps : List String) (m : StatusMap)
    → (all_parents_done ps m ≡ true) ⊎ ((p : String) × Memᴰ p ps × (entry_done (m p) ≡ false))
unfolding all_parents_done
all_parents_done_cases [] m = inl refl
all_parents_done_cases (q ∷ ps) m = elim (Bool-cases (entry_done (m q))) [
  | inr waits ↦ inr (q, Memᴰ.head refl, waits)
  | inl found ↦ elim (all_parents_done_cases ps m) [
    | inl rest ↦ inl (rw found rest)
    | inr (p, n, waits) ↦ inr (p, Memᴰ.tail n, waits)
  ]
]

all_parents_done-intro :
    (ps : List String) (m : StatusMap)
    → ((p : String) → Memᴰ p ps → entry_done (m p) ≡ true)
    → all_parents_done ps m ≡ true
all_parents_done-intro ps m h = elim (all_parents_done_cases ps m) [
  | inl e ↦ e
  | inr (p, n, waits) ↦ absurd (false≢true (sym waits ∙ h p n))
]

is_ready_inv :
    (m : StatusMap) (t : Task)
    → is_ready m t ≡ true
    → (t.status ≡ TaskStatus.pending) × (all_parents_done (parents t) m ≡ true)
unfolding is_ready
is_ready_inv m t h = ground arith

is_ready-intro :
    (m : StatusMap) (t : Task)
    → t.status ≡ TaskStatus.pending
    → all_parents_done (parents t) m ≡ true
    → is_ready m t ≡ true
unfolding is_ready
is_ready-intro m t p d = rw (p, d)

-- What it is for a task of `tasks` to be ready.
pub record IsReady (tasks : List Task) (t : Task) : Type 0 where
  pub listed : Memᴰ t tasks
  pub waiting : t.status ≡ TaskStatus.pending
  pub parents_done : (p : String) → Memᴰ p (parents t) → DoneIn tasks p

pub is_ready-IsReady :
    (tasks : List Task) (t : Task)
    → Memᴰ t tasks
    → is_ready (status_map tasks) t ≡ true
    → IsReady tasks t
is_ready-IsReady tasks t m h =
    let (p, d) = is_ready_inv _ t h in
    record {
      listed = m;
      waiting = p;
      parents_done = λ q n. entry_done-DoneIn tasks q (all_parents_done-entry _ _ q d n);
    }

-- When the ids are unique, ReadyTasks returns exactly the pending tasks of the plan all of whose
-- parents are the id of a task that is done.
pub ready_tasks-IsReady_iff :
    (plan : Plan) (t : Task)
    → UniqueIds plan.sub_tasks
    → Memᴰ t (ready_tasks plan) ↔ IsReady plan.sub_tasks t
unfolding ready_tasks
ready_tasks-IsReady_iff plan t u = (
  λ m. let (n, h) = mem-keep _ plan.sub_tasks t m in is_ready-IsReady plan.sub_tasks t n h,
  λ r. keep-mem _ plan.sub_tasks t r.listed (
      is_ready-intro _ t r.waiting (
        all_parents_done-intro _ _
          (λ p n. DoneIn-entry_done plan.sub_tasks p u (r.parents_done p n)))),
)

-- No task is under way and none has failed.
abbrev pub Quiet : List Task → Type 0
Quiet tasks =
    (t : Task) → Memᴰ t tasks → (t.status ≡ TaskStatus.pending) ⊎ (t.status ≡ TaskStatus.done)

module _ (tasks : List Task) (w : IsWellFormed tasks) (u : UniqueIds tasks)
    (quiet : Quiet tasks) where
  pub find_ready :
      (a : String)
      → Acc (λ y x. DependsOn tasks x y) a
      → (t : Task) → Memᴰ t tasks
      → t.id ≡ a
      → t.status ≡ TaskStatus.pending
      → (r : Task) × Memᴰ r tasks × (is_ready (status_map tasks) r ≡ true)
  find_ready a (Acc.intro _ smaller) t m e p =
      elim (all_parents_done_cases (parents t) (status_map tasks)) [
        | inl d ↦ (t, m, is_ready-intro _ t p d)
        | inr (q, n, waits) ↦
            let dep : DependsOn tasks a q = (t, m, e, n) in
            let (v, mv, ev) = Memᴰ.of_map (λ (x : Task). x.id) tasks (w.closed a q dep) in
            elim (quiet v mv) [
              | inl pv ↦ find_ready q (smaller q dep) v mv ev pv
              | inr dv ↦
                  absurd (false≢true (sym waits ∙ DoneIn-entry_done tasks q u (v, mv, ev, dv)))
            ]
      ]

-- In a well-formed plan with unique ids in which no task is under way or has failed, ReadyTasks
-- returns a task as long as one is pending: the execution of the plan cannot get stuck.
pub ready_tasks_progress :
    (plan : Plan) (t : Task)
    → IsWellFormed plan.sub_tasks
    → UniqueIds plan.sub_tasks
    → Quiet plan.sub_tasks
    → Memᴰ t plan.sub_tasks
    → t.status ≡ TaskStatus.pending
    → (r : Task) × Memᴰ r (ready_tasks plan)
unfolding ready_tasks
ready_tasks_progress plan t w u quiet m p =
    let a = w.acyclic t.id (Memᴰ.map (λ (x : Task). x.id) m) in
    let (r, n, h) = find_ready plan.sub_tasks w u quiet t.id a t m refl p in
    (r, keep-mem _ plan.sub_tasks r n h)
