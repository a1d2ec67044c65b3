-- ===== src/Working/Store.antt =====
-- The in-memory store of memory/working/working.go, with persist/plan.go and persist/checkpoint.go
-- below it. A file on disk is an entry of a map, and JSON is read back as it was written.
pub mod Versions
use kugelblitz.Common.{
  ℕ, suc, ◌+◌, String, Bool, true, false, ◌&&◌, Option, none, some, List, [], ◌∷◌, ◌++◌, map, drop,
  take, if◌then◌else◌, ◌=ˢ◌, ◌==◌, ltb,
}
use kugelblitz.Working.Types.{Usage, Task, Plan, Checkpoint, is_incomplete}

-- `plans` is the map `planStore`, in the order in which it is walked; `saved` and `checkpoints` are
-- the files plan.jsonl and checkpoints/<version>.jsonl.
pub record Store : Type 0 where
  pub plans : List Plan
  pub saved : String → Option Plan
  pub checkpoints : String → ℕ → Option Checkpoint

-- Which writes to the disk succeed. The version tells the writes of one plan apart.
pub record Disk : Type 0 where
  pub plan_written : Plan → Bool
  pub checkpoint_written : Checkpoint → Bool

pub data StoreError : Type 0 where
  plan_unwritten checkpoint_unwritten checkpoint_unread : StoreError

abbrev pub empty_store : Store
empty_store = record { plans = []; saved = λ _. none; checkpoints = λ _ _. none }

-- ResetPlans
unfoldable pub reset_plans : Store → Store
reset_plans s = record s { plans = [] }

unfoldable pub lookup_plan : String → List Plan → Option Plan
lookup_plan id [] = none
lookup_plan id (p ∷ ps) = let rest = lookup_plan id ps in if p.id =ˢ id then some p else rest

unfoldable pub get_plan : String → Store → Option Plan
unfolding lookup_plan
get_plan id s = lookup_plan id s.plans

-- `planStore[p.ID] = p`
unfoldable pub insert_plan : Plan → List Plan → List Plan
insert_plan p [] = p ∷ []
insert_plan p (q ∷ qs) = let rest = insert_plan p qs in if q.id =ˢ p.id then p ∷ qs else q ∷ rest

-- `*t.Usage` is copied; the copy of a value is the value.
abbrev pub copy_usage : Option Usage → Option Usage
copy_usage none = none
copy_usage (some u) = some (record {
  total_tokens = u.total_tokens;
  input_tokens = u.input_tokens;
  cached_tokens = u.cached_tokens;
  reasoning_tokens = u.reasoning_tokens;
  output_tokens = u.output_tokens;
})

unfoldable pub copy_tasks : List Task → List Task
copy_tasks [] = []
copy_tasks (t ∷ ts) = record t { usage = copy_usage t.usage } ∷ copy_tasks ts

unfoldable pub snapshot : Plan → Plan
snapshot p = record {
  id = p.id;
  session_id = p.session_id;
  name = p.name;
  sub_tasks = copy_tasks p.sub_tasks;
  current_activate_sub_task_ids = [] ++ p.current_activate_sub_task_ids;
  state = p.state;
  finished_reason = p.finished_reason;
  version = p.version;
}

-- SaveCheckpointJSON
abbrev pub write_checkpoint : String → Checkpoint → Store → Store
write_checkpoint id cp s = record s {
  checkpoints = λ j v. if (j =ˢ id) && (v == cp.version) then some cp else s.checkpoints j v;
}

-- The plan object after the call, the store, and the error.
pub record Put : Type 0 where
  pub plan : Plan
  pub store : Store
  pub error : Option StoreError

-- (p *Plan) Persist
unfoldable pub persist : Disk → Plan → Store → Store × Option StoreError
persist d p s =
    if d.plan_written p
    then (record s { saved = λ j. if j =ˢ p.id then some p else s.saved j }, none)
    else (s, some plan_unwritten)

abbrev pub save_checkpoint_file : Disk → Plan → Checkpoint → Store × Option StoreError → Put
save_checkpoint_file d p cp (s, some e) = record { plan = p; store = s; error = some e }
save_checkpoint_file d p cp (s, none) =
    if d.checkpoint_written cp
    then record { plan = p; store = write_checkpoint p.id cp s; error = none }
    else record { plan = p; store = s; error = some checkpoint_unwritten }

-- saveCheckpoint, for a plan that is not nil.
unfoldable pub save_checkpoint : Disk → String → Plan → Store → Put
unfolding persist
save_checkpoint d reason p s =
    let p' = record p { version = p.version + 1 } in
    let cp : Checkpoint = record { version = p'.version; reason = reason; plan = snapshot p' } in
    save_checkpoint_file d p' cp (persist d p' (record s { plans = insert_plan p' s.plans }))

unfoldable pub put_plan : Disk → Plan → Store → Put
unfolding save_checkpoint
put_plan d p s = save_checkpoint d "" p s

-- LoadCheckpointJSON
unfoldable pub load_checkpoint : String → ℕ → Store → Option Checkpoint
load_checkpoint id v s = s.checkpoints id v

-- LoadPlan: the plan that was read comes back with the store.
unfoldable pub load_plan : String → Store → Store × Option Plan
unfolding insert_plan
load_plan id s = elim (s.saved id) [
  | none ↦ (s, none)
  | some p ↦ (record s { plans = insert_plan p s.plans }, some p)
]

-- ListPlansBySession
list_by_session : String → List Plan → List Plan
list_by_session session [] = []
list_by_session session (p ∷ ps) =
    let rest = list_by_session session ps in if p.session_id =ˢ session then p ∷ rest else rest

unfoldable pub list_plans_by_session : String → Store → List Plan
unfolding list_by_session
list_plans_by_session session s = list_by_session session s.plans

abbrev newer : Option Plan → Plan → Bool
newer none p = true
newer (some latest) p = ltb latest.version p.version

-- The loop of LatestIncompletePlan.
latest_from : String → Option Plan → List Plan → Option Plan
unfolding is_incomplete
latest_from session latest [] = latest
latest_from session latest (p ∷ ps) =
    latest_from session
      (if (p.session_id =ˢ session) && is_incomplete p && newer latest p then some p else latest) ps

unfoldable pub latest_incomplete_plan : String → Store → Option Plan
unfolding latest_from
latest_incomplete_plan session s = latest_from session none s.plans

unfoldable pub task_in : String → List Task → Option Task
task_in id [] = none
task_in id (t ∷ ts) = let rest = task_in id ts in if t.id =ˢ id then some t else rest

unfoldable pub find_in : String → List Plan → Option (Plan × Task)
unfolding task_in
find_in id [] = none
find_in id (p ∷ ps) =
    let rest = find_in id ps in elim (task_in id p.sub_tasks) [ some t ↦ some (p, t) | none ↦ rest ]

-- FindTask, over all the plans.
unfoldable pub find_task : String → Store → Option (Plan × Task)
unfolding find_in
find_task id s = find_in id s.plans

-- FindTaskIdx; `none` is -1.
unfoldable pub find_task_idx : List Task → String → Option ℕ
find_task_idx [] id = none
find_task_idx (t ∷ ts) id =
    let rest = find_task_idx ts id in
    if t.id =ˢ id then some 0 else elim rest [ none ↦ none | some i ↦ some (suc i) ]

-- `append(tasks[:i], tasks[i+1:]...)`
unfoldable pub delete_at : ℕ → List Task → List Task
delete_at i tasks = take i tasks ++ drop (suc i) tasks

-- RemoveFromSlice
unfoldable pub remove_from_slice : List String → String → List String
remove_from_slice [] item = []
remove_from_slice (s ∷ ss) item =
    let rest = remove_from_slice ss item in if s =ˢ item then ss else s ∷ rest

-- `*task = f(*task)` through the pointer to the first task with this id.
unfoldable pub update_task : String → (Task → Task) → List Task → List Task
update_task id f [] = []
update_task id f (t ∷ ts) =
    let rest = update_task id f ts in if t.id =ˢ id then f t ∷ ts else t ∷ rest
