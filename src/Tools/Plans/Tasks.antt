-- ===== src/Tools/Plans/Tasks.antt =====
-- tools/internals/plan.go, TaskInsert and TaskDelete: what they make of the tasks of a plan.
use kugelblitz.Common.{
  ℕ, ◌+◌, String, false, none, some, List, [], ◌∷◌, ◌++◌, ◌≡◌, ◌≢◌, refl, arith, Bool-cases,
  Option-cases, inl, inr, eq_iff, ◌=ˢ◌, length, some_eq, none_ne_some, ◌∙◌, sym, ap, subst,
  is_empty,
}
use kugelblitz.Working.Types.{Task, Plan}
use kugelblitz.Working.Store.{
  Store, Disk, get_plan, put_plan, lookup_plan, insert_plan, task_in, find_in, find_task,
  find_task_idx, delete_at,
}
use kugelblitz.Working.Store.Versions.{put_plan_lem, next_plan}
use kugelblitz.Message.{Fields, text, field}
use kugelblitz.Tools.Arguments.{ok, required_string, optional_string}
use kugelblitz.Tools.Plans.{new_task, without_task, task_insert, task_delete}

-- No task of the list has the id.
abbrev pub Absent : String → List Task → Type 0
Absent id tasks = task_in id tasks ≡ none

index-append :
    (tasks : List Task) (t : Task)
    → Absent t.id tasks
    → find_task_idx (tasks ++ t ∷ []) t.id ≡ some (length tasks)
unfolding find_task_idx task_in
index-append [] t h = ground (arith, eq_iff t.id t.id)
index-append (u ∷ us) t h = elim (Bool-cases (u.id =ˢ t.id)) [
  | inl same ↦ absurd (none_ne_some (rw (same, task_in) at h))
  | inr other ↦ rw (other, find_task_idx) (rw (index-append us t (rw (other, task_in) at h)) refl)
]

delete-append : (tasks : List Task) (t : Task) → delete_at (length tasks) (tasks ++ t ∷ []) ≡ tasks
unfolding delete_at
delete-append [] t = refl
delete-append (u ∷ us) t = ap (λ ts. u ∷ ts) (delete-append us t)

task_in-append :
    (tasks : List Task) (t : Task) → Absent t.id tasks → task_in t.id (tasks ++ t ∷ []) ≡ some t
unfolding task_in
task_in-append [] t h = ground (arith, eq_iff t.id t.id)
task_in-append (u ∷ us) t h = elim (Bool-cases (u.id =ˢ t.id)) [
  | inl same ↦ absurd (none_ne_some (rw (same, task_in) at h))
  | inr other ↦ rw (other, task_in) (task_in-append us t (rw (other, task_in) at h))
]

find_in_inv :
    (id : String) (q : Plan) (qs : List Plan)
    → find_in id (q ∷ qs) ≡ none
    → Absent id q.sub_tasks × (find_in id qs ≡ none)
unfolding find_in
find_in_inv id q qs fresh = elim (Option-cases (task_in id q.sub_tasks)) [
  | inl out ↦ (out, rw (out, find_in) at fresh)
  | inr (t, inside) ↦ absurd (none_ne_some (rw (inside, find_in) at fresh))
]

find_in-Absent :
    (id i : String) (ps : List Plan) (p : Plan)
    → find_in id ps ≡ none
    → lookup_plan i ps ≡ some p
    → Absent id p.sub_tasks
unfolding lookup_plan
find_in-Absent id i [] p fresh found = absurd (none_ne_some (sym found))
find_in-Absent id i (q ∷ qs) p fresh found =
    let (out, later) = find_in_inv id q qs fresh in
    elim (Bool-cases (q.id =ˢ i)) [
      | inl here ↦
          subst (λ (x : Plan). Absent id x.sub_tasks) (some_eq (rw (here, lookup_plan) at found))
            out
      | inr there ↦ find_in-Absent id i qs p later (rw (there, lookup_plan) at found)
    ]

find_in-insert :
    (id : String) (ps : List Plan) (p : Plan) (t : Task)
    → find_in id ps ≡ none
    → task_in id p.sub_tasks ≡ some t
    → find_in id (insert_plan p ps) ≡ some (p, t)
unfolding find_in insert_plan
find_in-insert id [] p t fresh inside = rw (inside, find_in) refl
find_in-insert id (q ∷ qs) p t fresh inside =
    let (out, later) = find_in_inv id q qs fresh in
    elim (Bool-cases (q.id =ˢ p.id)) [
      | inl same ↦ rw (same, insert_plan, inside, find_in) refl
      | inr other ↦ rw (other, insert_plan, out, find_in) (find_in-insert id qs p t later inside)
    ]

-- The arguments of a call of task_delete.

abbrev pub delete_args : String → Fields
delete_args task = ("task_id", text task) ∷ []

-- The task that a call of task_insert describes.
abbrev described : String → String → Fields → Task
described id goal args =
    new_task id goal (optional_string args "action") (optional_string args "parent_task_id")

inserted_store :
    (d : Disk) (id plan goal : String) (args : Fields) (p : Plan) (s : Store)
    → required_string args "plan_id" ≡ ok plan
    → required_string args "goal" ≡ ok goal
    → get_plan plan s ≡ some p
    → (task_insert d id args s).store
      ≡ (put_plan d (record p { sub_tasks = p.sub_tasks ++ described id goal args ∷ [] }) s).store
unfolding task_insert
inserted_store d id plan goal args p s named aimed found = ground (arith, named, aimed, found)

deleted_store :
    (d : Disk) (id : String) (p : Plan) (t : Task) (i : ℕ) (s : Store)
    → is_empty id ≡ false
    → find_task id s ≡ some (p, t)
    → find_task_idx p.sub_tasks id ≡ some i
    → (task_delete d (delete_args id) s).store ≡ (put_plan d (without_task i id p) s).store
unfolding task_delete required_string field
deleted_store d id p t i s named found index = ground (arith, named, found, index)

plans-put_plan :
    (d : Disk) (p : Plan) (s : Store)
    → (put_plan d p s).store.plans ≡ insert_plan (next_plan d p s) s.plans
unfolding put_plan
plans-put_plan d p s = ground arith

found_after_put :
    (d : Disk) (id : String) (p : Plan) (t : Task) (s : Store)
    → find_task id s ≡ none
    → task_in id p.sub_tasks ≡ some t
    → find_task id (put_plan d p s).store ≡ some (next_plan d p s, t)
unfolding find_task
found_after_put d id p t s fresh inside =
    ap (find_in id) (plans-put_plan d p s)
    ∙ find_in-insert id s.plans (next_plan d p s) t fresh inside

fresh_task :
    (id plan : String) (p : Plan) (s : Store)
    → find_task id s ≡ none
    → get_plan plan s ≡ some p
    → Absent id p.sub_tasks
unfolding find_task get_plan
fresh_task id plan p s fresh found = find_in-Absent id plan s.plans p fresh found

-- Deleting the task that was just inserted undoes the insertion: if task_insert's arguments have a
-- plan_id of a known plan and a goal, with or without an action and parents, and the new id is not
-- empty and no task's of any plan, then after task_insert and task_delete of that id the plan has its old tasks, in the second next version, and every other plan is as before, whether
-- or not the disk can be written.
pub task_delete-task_insert :
    (d d' : Disk) (id plan goal : String) (args : Fields) (p : Plan) (s : Store)
    → is_empty id ≡ false
    → required_string args "plan_id" ≡ ok plan
    → required_string args "goal" ≡ ok goal
    → get_plan plan s ≡ some p
    → find_task id s ≡ none
    → let after = (task_delete d' (delete_args id) (task_insert d id args s).store).store in
      (r : Plan) × (get_plan p.id after ≡ some r)
      × (r.sub_tasks ≡ p.sub_tasks)
      × (r.version ≡ p.version + 2)
      × ((j : String) → p.id ≢ j → get_plan j after ≡ get_plan j s)
task_delete-task_insert d d' id plan goal args p s some_id named aimed found fresh =
    let t = described id goal args in
    let p1 = record p { sub_tasks = p.sub_tasks ++ t ∷ [] } in
    let q1 = next_plan d p1 s in
    let s1 = (put_plan d p1 s).store in
    let p2 = without_task (length p.sub_tasks) id q1 in
    let absent = fresh_task id plan p s fresh found in
    let there = found_after_put d id p1 t s fresh (task_in-append p.sub_tasks t absent) in
    let index = index-append p.sub_tasks t absent in
    let path =
      ap (λ z. (task_delete d' (delete_args id) z).store)
        (inserted_store d id plan goal args p s named aimed found)
      ∙ deleted_store d' id q1 t (length p.sub_tasks) s1 some_id there index in
    let first = put_plan_lem d p1 s in
    let second = put_plan_lem d' p2 s1 in
    (
      next_plan d' p2 s1,
      ap (get_plan p.id) path ∙ second.in_memory,
      delete-append p.sub_tasks t,
      omega arith,
      λ j other. ap (get_plan j) path ∙ second.others_kept j other ∙ first.others_kept j other,
    )
