-- ===== src/Working/Validate/Sound.antt =====
-- memory/working/working.go: the answers of Validate against what they mean.
use mathlib.Core.WellFounded.{Acc}
use mathlib.Core.List.{cons≢nil}
use kugelblitz.Common.{
  none_ne_some, some_eq, suc, String, Option, none, some, true, List, [], ◌∷◌, Memᴰ, ◌≡◌, ◌≢◌, ◌↔◌,
  refl, sym, inl, inr, arith, length, subst, ap, ◌∙◌, Bool, false, Option-cases,
}
use kugelblitz.Working.Types.{Task, Plan, task_ids}
use kugelblitz.Working.Validate.{
  ValidateError, no_tasks, dangling, self_loop, cycle, out_of_fuel, Graph, Built, Colors,
  validate_tasks, built, broken, Visited, visited, stopped, white, known_ids, add_tasks, visit_all,
  dfs, error_of, check_graph, validate,
}
use kugelblitz.Working.Validate.Build.{
  DependsOn, known_ids_iff, add_tasks_known, add_tasks_sound, add_tasks_complete, add_tasks_broken,
  Built-cases,
}
use kugelblitz.Working.Validate.Visit.{Grounded, visit_all-Visit, dfs-IsVisitor, Grounded-IsClosed}
use kugelblitz.Working.Validate.Cycles.{Walk, one, more, search-Walk, search-errors}
use kugelblitz.Working.Validate.Fuel.{search-fuel}

-- The transitive closure of `DependsOn`.
pub data Chain (tasks : List Task) : String → String → Type 0 where
  link : {a b : String} → DependsOn tasks a b → Chain tasks a b
  longer : {a b c : String} → DependsOn tasks a b → Chain tasks b c → Chain tasks a c

-- There are tasks, every parent is a task, and no chain of parents is endless.
pub record IsWellFormed (tasks : List Task) : Type 0 where
  pub nonempty : tasks ≢ []
  pub closed : (a b : String) → DependsOn tasks a b → Memᴰ b (task_ids tasks)
  pub acyclic : (a : String) → Memᴰ a (task_ids tasks) → Acc (λ y x. DependsOn tasks x y) a

-- `order` holds the keys of `taskIDs`.
abbrev pub Enumerates : List String → List Task → Type 0
Enumerates order tasks = (v : String) → Memᴰ v order ↔ Memᴰ v (task_ids tasks)

-- What each error says of the plan.
abbrev pub Blames : List Task → ValidateError → Type 0
Blames tasks no_tasks = tasks ≡ []
Blames tasks (dangling a p) = DependsOn tasks a p × ¬ Memᴰ p (task_ids tasks)
Blames tasks (self_loop a) = DependsOn tasks a a
Blames tasks (cycle p) = Chain tasks p p
Blames tasks out_of_fuel = ⊥

task_ids-DependsOn :
    (tasks : List Task) (a b : String) → DependsOn tasks a b → Memᴰ a (task_ids tasks)
task_ids-DependsOn [] a b (t, m, e, n) = elim m [ ]
task_ids-DependsOn (u ∷ tasks) a b (t, Memᴰ.head s, e, n) = Memᴰ.head (rw (← s) (sym e))
task_ids-DependsOn (u ∷ tasks) a b (t, Memᴰ.tail m, e, n) =
    Memᴰ.tail (task_ids-DependsOn tasks a b (t, m, e, n))

module _ (tasks : List Task) (g : Graph)
    (ok : add_tasks (known_ids tasks) tasks (λ _. []) ≡ built g) where
  Edge→DependsOn : (a b : String) → Memᴰ b (g a) → DependsOn tasks a b
  Edge→DependsOn a b m = elim (add_tasks_sound _ tasks _ g a b ok m) [
    | inl n ↦ elim n [ ]
    | inr d ↦ d
  ]

  DependsOn→Edge : (a b : String) → DependsOn tasks a b → Memᴰ b (g a)
  DependsOn→Edge a b d = add_tasks_complete _ tasks _ g a b ok d

  Walk→Chain : {a b : String} → Walk g a b → Chain tasks a b
  Walk→Chain (one {a} {b} m) = link (Edge→DependsOn a b m)
  Walk→Chain (more {a} {b} m w) = longer (Edge→DependsOn a b m) (Walk→Chain w)

  Grounded→Acc : (a : String) → Grounded g a → Acc (λ y x. DependsOn tasks x y) a
  Grounded→Acc a (Acc.intro _ smaller) =
      Acc.intro a (λ b d. Grounded→Acc b (smaller b (DependsOn→Edge a b d)))

  Acc→Grounded : (a : String) → Acc (λ y x. DependsOn tasks x y) a → Grounded g a
  Acc→Grounded a (Acc.intro _ smaller) =
      Acc.intro a (λ b m. Acc→Grounded b (smaller b (Edge→DependsOn a b m)))

  built_closed : (a b : String) → DependsOn tasks a b → Memᴰ b (task_ids tasks)
  built_closed a b (t, m, e, n) = (known_ids_iff tasks b).0 (add_tasks_known _ tasks _ g t b ok m n)

  edge_closed : (a b : String) → Memᴰ b (g a) → Memᴰ b (task_ids tasks)
  edge_closed a b m = built_closed a b (Edge→DependsOn a b m)

error_of_none : (r : Visited) → error_of r ≡ none → (c : Colors) × (r ≡ visited c)
error_of_none (visited c) h = (c, refl)
error_of_none (stopped e) h = cc

error_of-some : (r : Visited) {e : ValidateError} → error_of r ≡ some e → r ≡ stopped e
error_of-some (visited c) h = cc
error_of-some (stopped f) h = cc

length-task_ids : (ts : List Task) → length (task_ids ts) ≡ length ts
length-task_ids [] = refl
length-task_ids (t ∷ ts) = ap suc (length-task_ids ts)

true_ne_false : {b : Bool} → b ≡ true → b ≡ false → ⊥
true_ne_false p q = cc

Chain-snoc :
    {tasks : List Task} {a b c : String} → Chain tasks a b → DependsOn tasks b c → Chain tasks a c
Chain-snoc (link d) n = longer d (link n)
Chain-snoc (longer d w) n = longer d (Chain-snoc w n)

not-Chain_self :
    {tasks : List Task} {a : String}
    → Acc (λ y x. DependsOn tasks x y) a
    → {b : String} → Chain tasks a b
    → a ≡ b
    → ⊥
not-Chain_self {tasks} (Acc.intro _ smaller) (link {b = b} d) e =
    not-Chain_self (smaller b d) (link (subst (λ x. DependsOn tasks x b) e d)) refl
not-Chain_self {tasks} (Acc.intro _ smaller) (longer {b = b} d w) e =
    not-Chain_self (smaller b d) (Chain-snoc w (subst (λ x. DependsOn tasks x b) e d)) refl

Chain_end :
    {tasks : List Task} {a b : String}
    → IsWellFormed tasks
    → Chain tasks a b
    → Memᴰ b (task_ids tasks)
Chain_end w (link {a} {b} d) = w.closed a b d
Chain_end w (longer d c) = Chain_end w c

module _ (order : List String) (tasks : List Task) (all : Enumerates order tasks) where
  abbrev outcome : Built → Option ValidateError
  outcome = check_graph (suc (length tasks)) order

  search_acyclic :
      (g : Graph) (c : Colors)
      → visit_all (dfs (suc (length tasks)) g) order (λ _. white) ≡ visited c
      → (a : String) → Memᴰ a (task_ids tasks)
      → Grounded g a
  search_acyclic g c h a m =
      let (v, blacks) =
        visit_all-Visit (Grounded g) (dfs (suc (length tasks)) g)
          (dfs-IsVisitor (Grounded g) (suc (length tasks)) g (Grounded-IsClosed g)) order
          (λ _. white) c h (λ u e. cc) (λ u e. cc) in
      v.settled a (blacks a ((all a).1 m))

  accepted :
      tasks ≢ [] → outcome (add_tasks (known_ids tasks) tasks (λ _. [])) ≡ none → IsWellFormed tasks
  accepted some_tasks h = elim (Built-cases (add_tasks (known_ids tasks) tasks (λ _. []))) [
    | inr (e, q) ↦ absurd (none_ne_some (rw q at h))
    | inl (g, q) ↦
        let (c, v) = error_of_none _ (rw q at h) in
        record {
          nonempty = some_tasks;
          closed = built_closed tasks g q;
          acyclic = λ a m. Grounded→Acc tasks g q a (search_acyclic g c v a m);
        }
  ]

  search_blames :
      (g : Graph) (e : ValidateError)
      → add_tasks (known_ids tasks) tasks (λ _. []) ≡ built g
      → visit_all (dfs (suc (length tasks)) g) order (λ _. white) ≡ stopped e
      → Blames tasks e
  search_blames g (cycle p) q h = Walk→Chain tasks g q (search-Walk _ g order p h)
  search_blames g out_of_fuel q h =
      search-fuel (task_ids tasks) (suc (length tasks)) g order
        (omega (arith, length-task_ids tasks)) (edge_closed tasks g q) (λ p. (all p).0) h
  search_blames g no_tasks q h = absurd (search-errors _ g order _ h)
  search_blames g (dangling a p) q h = absurd (search-errors _ g order _ h)
  search_blames g (self_loop a) q h = absurd (search-errors _ g order _ h)

  broken_blames :
      (e : ValidateError) → add_tasks (known_ids tasks) tasks (λ _. []) ≡ broken e → Blames tasks e
  broken_blames e h =
      let (a, p, d, r) = add_tasks_broken _ tasks _ e h in
      elim r [
        | inl (q, unknown) ↦
            subst (Blames tasks) (sym q)
              (d, λ m. true_ne_false ((known_ids_iff tasks p).1 m) unknown)
        | inr (q, same) ↦ subst (Blames tasks) (sym q) (subst (DependsOn tasks a) same d)
      ]

  refused :
      (e : ValidateError)
      → outcome (add_tasks (known_ids tasks) tasks (λ _. [])) ≡ some e
      → Blames tasks e
  refused e h = elim (Built-cases (add_tasks (known_ids tasks) tasks (λ _. []))) [
    | inr (f, q) ↦ broken_blames e (q ∙ ap broken (some_eq (rw q at h)))
    | inl (g, q) ↦ search_blames g e q (error_of-some _ (rw q at h))
  ]

-- An error is never true of a well-formed plan.
not-Blames : (tasks : List Task) (e : ValidateError) → IsWellFormed tasks → ¬ Blames tasks e
not-Blames tasks no_tasks w b = w.nonempty b
not-Blames tasks (dangling a p) w b = b.1 (w.closed a p b.0)
not-Blames tasks (self_loop a) w b = not-Chain_self (w.acyclic a (w.closed a a b)) (link b) refl
not-Blames tasks (cycle p) w b = not-Chain_self (w.acyclic p (Chain_end w b)) b refl
not-Blames tasks out_of_fuel w b = b

validate_tasks_blames :
    (order : List String) (tasks : List Task) (e : ValidateError)
    → Enumerates order tasks
    → validate_tasks order tasks ≡ some e
    → Blames tasks e
validate_tasks_blames order [] e all h = subst (Blames []) (some_eq h) refl
validate_tasks_blames order (t ∷ ts) e all h = refused order (t ∷ ts) all e h

validate_tasks_accepted :
    (order : List String) (tasks : List Task)
    → Enumerates order tasks
    → validate_tasks order tasks ≡ none
    → IsWellFormed tasks
validate_tasks_accepted order [] all h = absurd (none_ne_some h)
validate_tasks_accepted order (t ∷ ts) all h = accepted order (t ∷ ts) all (λ e. cons≢nil e) h

-- An error that Validate returns is true of the plan: there are no tasks, the named task has the
-- named parent and no task has that id, the named task is its own parent, or the named task is
-- reached from itself by a chain of parents. The search never runs out of fuel.
pub validate-Blames :
    (order : List String) (plan : Plan) (e : ValidateError)
    → Enumerates order plan.sub_tasks
    → validate order plan ≡ some e
    → Blames plan.sub_tasks e
unfolding validate
validate-Blames order plan e all h = validate_tasks_blames order plan.sub_tasks e all h

-- Validate returns nil exactly if the plan has a task, every parent is the id of a task, and no
-- chain of parents is endless, in whatever order Go's map is walked.
pub validate-IsWellFormed_iff :
    (order : List String) (plan : Plan)
    → Enumerates order plan.sub_tasks
    → (validate order plan ≡ none) ↔ IsWellFormed plan.sub_tasks
unfolding validate
validate-IsWellFormed_iff order plan all = (
  validate_tasks_accepted order plan.sub_tasks all,
  λ w. elim (Option-cases (validate order plan)) [
    | inl e ↦ e
    | inr (e, q) ↦ absurd (not-Blames plan.sub_tasks e w (validate-Blames order plan e all q))
  ],
)
