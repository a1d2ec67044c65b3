-- ===== src/Working/Validate.antt =====
-- (p *Plan) Validate of memory/working/working.go. Go's maps are total functions with the zero value
-- for a missing key, and the order in which `range taskIDs` visits the keys is an argument.
pub mod Build
pub mod Visit
pub mod Fuel
pub mod Cycles
pub mod Sound
use kugelblitz.Common.{
  ℕ, zero, suc, String, Bool, true, false, not, Option, none, some, List, [], ◌∷◌, ◌++◌, length,
  if◌then◌else◌, ◌=ˢ◌,
}
use kugelblitz.Working.Types.{Task, Plan}
use kugelblitz.Working.Parents.{parents}

-- `out_of_fuel` is the model's own.
pub data ValidateError : Type 0 where
  no_tasks : ValidateError
  dangling : (task parent : String) → ValidateError
  self_loop : (task : String) → ValidateError
  cycle : (parent : String) → ValidateError
  out_of_fuel : ValidateError

-- `taskIDs`
abbrev pub Known : Type 0
Known = String → Bool

-- `graph`
abbrev pub Graph : Type 0
Graph = String → List String

pub mark_ids : List Task → Known → Known
mark_ids [] known = known
mark_ids (t ∷ ts) known = mark_ids ts (λ j. if t.id =ˢ j then true else known j)

pub known_ids : List Task → Known
unfolding mark_ids
known_ids tasks = mark_ids tasks (λ _. false)

pub data Built : Type 0 where
  built : Graph → Built
  broken : ValidateError → Built

abbrev pub add_edge : Graph → String → String → Graph
add_edge g id parent j = if id =ˢ j then g j ++ parent ∷ [] else g j

-- The inner loop, over the parents of one task.
pub add_parents : Known → String → List String → Graph → Built
add_parents known id [] g = built g
add_parents known id (p ∷ ps) g =
    let rest = add_parents known id ps (add_edge g id p) in
    if not (known p)
    then broken (dangling id p)
    else if p =ˢ id
    then broken (self_loop id)
    else rest

pub add_tasks : Known → List Task → Graph → Built
add_tasks known [] g = built g
add_tasks known (t ∷ ts) g = elim (add_parents known t.id (parents t) g) [
  | broken e ↦ broken e
  | built g' ↦ add_tasks known ts g'
]

pub data Color : Type 0 where
  white gray black : Color

abbrev pub Colors : Type 0
Colors = String → Color

abbrev pub paint : Colors → String → Color → Colors
paint c id k j = if id =ˢ j then k else c j

pub data Visited : Type 0 where
  visited : Colors → Visited
  stopped : ValidateError → Visited

-- The loop over `graph[id]`; `go` is the recursive call of `dfs`.
pub visit_parents : (String → Colors → Visited) → List String → Colors → Visited
visit_parents go [] c = visited c
visit_parents go (p ∷ ps) c = elim (c p) [
  | gray ↦ stopped (cycle p)
  | white ↦ elim (go p c) [ visited c' ↦ visit_parents go ps c' | stopped e ↦ stopped e ]
  | black ↦ visit_parents go ps c
]

abbrev pub finish : String → Visited → Visited
finish id (visited c) = visited (paint c id black)
finish id (stopped e) = stopped e

pub dfs : ℕ → Graph → String → Colors → Visited
dfs zero g id c = stopped out_of_fuel
dfs (suc fuel) g id c = finish id (visit_parents (dfs fuel g) (g id) (paint c id gray))

-- The loop over the keys of `taskIDs`.
pub visit_all : (String → Colors → Visited) → List String → Colors → Visited
visit_all go [] c = visited c
visit_all go (id ∷ ids) c = elim (c id) [
  | white ↦ elim (go id c) [ visited c' ↦ visit_all go ids c' | stopped e ↦ stopped e ]
  | _ ↦ visit_all go ids c
]

abbrev pub error_of : Visited → Option ValidateError
error_of (visited c) = none
error_of (stopped e) = some e

abbrev pub check_graph : ℕ → List String → Built → Option ValidateError
check_graph fuel order (broken e) = some e
check_graph fuel order (built g) = error_of (visit_all (dfs fuel g) order (λ _. white))

abbrev pub validate_tasks : List String → List Task → Option ValidateError
validate_tasks order [] = some no_tasks
validate_tasks order (t ∷ ts) =
    let tasks = t ∷ ts in
    check_graph (suc (length tasks)) order (add_tasks (known_ids tasks) tasks (λ _. []))

-- One unit of fuel for each task, and one more.
unfoldable pub validate : List String → Plan → Option ValidateError
unfolding known_ids add_parents add_tasks visit_parents dfs visit_all
validate order plan = validate_tasks order plan.sub_tasks
