-- ===== src/Working/Validate/Build.antt =====
-- memory/working/working.go: the first phase of Validate: the graph that it builds, and the errors that it reports.
use mathlib.Core.List.Memᴰ
use kugelblitz.Common.{
  String, ◌≡◌, refl, ◌≢◌, ◌⊎◌, inl, inr, true, false, List, [], ◌∷◌, ◌++◌, arith, eq_iff,
  Bool-cases, ◌=ˢ◌, sym, ◌↔◌, if◌then◌else◌, Memᴰ, false≢true, append_assoc, append-nil, subst,
  text_eq_false, ap, ◌∙◌,
}
use kugelblitz.Working.Types.{Task, task_ids}
use kugelblitz.Working.Parents.{parents}
use kugelblitz.Working.Validate.{
  Known, Graph, Built, built, broken, ValidateError, dangling, self_loop, mark_ids, known_ids,
  add_edge, add_parents, add_tasks,
}

-- Task `a` waits for task `b`.
abbrev pub DependsOn : List Task → String → String → Type 0
DependsOn tasks a b = (t : Task) × Memᴰ t tasks × (t.id ≡ a) × Memᴰ b (parents t)

mark_ids_old : (ts : List Task) (k : Known) (j : String) → k j ≡ true → mark_ids ts k j ≡ true
unfolding mark_ids
mark_ids_old [] k j h = h
mark_ids_old (t ∷ ts) k j h = mark_ids_old ts _ j (ground (arith, eq_iff t.id j))

mark_ids_new :
    (ts : List Task) (k : Known) (j : String) → Memᴰ j (task_ids ts) → mark_ids ts k j ≡ true
unfolding mark_ids
mark_ids_new [] k j m = elim m [ ]
mark_ids_new (t ∷ ts) k j (Memᴰ.head e) = mark_ids_old ts _ j (ground (arith, eq_iff t.id j))
mark_ids_new (t ∷ ts) k j (Memᴰ.tail m) = mark_ids_new ts _ j m

mark_ids_cases :
    (ts : List Task) (k : Known) (j : String)
    → mark_ids ts k j ≡ true
    → Memᴰ j (task_ids ts) ⊎ (k j ≡ true)
unfolding mark_ids
mark_ids_cases [] k j h = inr h
mark_ids_cases (t ∷ ts) k j h = elim (mark_ids_cases ts _ j h) [
  | inl m ↦ inl (Memᴰ.tail m)
  | inr e ↦ elim (Bool-cases (t.id =ˢ j)) [
    | inl same ↦ inl (Memᴰ.head (sym ((eq_iff t.id j).0 same)))
    | inr other ↦ inr (ground arith)
  ]
]

-- `taskIDs[j]` holds exactly for the ids of the tasks.
pub known_ids_iff : (ts : List Task) (j : String) → (known_ids ts j ≡ true) ↔ Memᴰ j (task_ids ts)
unfolding known_ids
known_ids_iff ts j = (
  λ h. elim (mark_ids_cases ts _ j h) [ inl m ↦ m | inr e ↦ absurd (false≢true e) ],
  mark_ids_new ts _ j,
)

add_parents_step :
    (known : Known) (id p : String) (ps : List String) (g g' : Graph)
    → add_parents known id (p ∷ ps) g ≡ built g'
    → (known p ≡ true)
      × ((p =ˢ id) ≡ false)
      × (add_parents known id ps (add_edge g id p) ≡ built g')
unfolding add_parents
add_parents_step known id p ps g g' h = ground arith

-- What a run of the inner loop that succeeds has checked, and what it has added.
add_parents_known :
    (known : Known) (id : String) (ps : List String) (g g' : Graph) (q : String)
    → add_parents known id ps g ≡ built g'
    → Memᴰ q ps
    → known q ≡ true
add_parents_known known id [] g g' q h m = elim m [ ]
add_parents_known known id (p ∷ ps) g g' q h (Memᴰ.head e) =
    rw e (add_parents_step known id p ps g g' h).0
add_parents_known known id (p ∷ ps) g g' q h (Memᴰ.tail m) =
    add_parents_known known id ps _ g' q (add_parents_step known id p ps g g' h).2 m

add_parents_edges :
    (known : Known) (id : String) (ps : List String) (g g' : Graph) (j : String)
    → add_parents known id ps g ≡ built g'
    → g' j ≡ (if id =ˢ j then g j ++ ps else g j)
unfolding add_parents
add_parents_edges known id [] g g' j h = ground (arith, append-nil (g j))
add_parents_edges known id (p ∷ ps) g g' j h = ground (
  arith,
  append_assoc (g j) (p ∷ []) ps,
  add_parents_edges known id ps (add_edge g id p) g' j (add_parents_step known id p ps g g' h).2,
)

add_tasks_step :
    (known : Known) (t : Task) (ts : List Task) (g g' : Graph)
    → add_tasks known (t ∷ ts) g ≡ built g'
    → (g₁ : Graph) × (add_parents known t.id (parents t) g ≡ built g₁)
      × (add_tasks known ts g₁ ≡ built g')
unfolding add_tasks
add_tasks_step known t ts g g' h = ground arith

-- After the first phase every parent is the id of a task.
pub add_tasks_known :
    (known : Known) (ts : List Task) (g g' : Graph) (t : Task) (q : String)
    → add_tasks known ts g ≡ built g'
    → Memᴰ t ts
    → Memᴰ q (parents t)
    → known q ≡ true
add_tasks_known known [] g g' t q h m n = elim m [ ]
add_tasks_known known (u ∷ ts) g g' t q h m n =
    let (g₁, first, rest) = add_tasks_step known u ts g g' h in
    elim (Memᴰ.cases_cons m) [
      | inl e ↦ add_parents_known known u.id (parents u) g g₁ q first (rw e at n)
      | inr m' ↦ add_tasks_known known ts g₁ g' t q rest m' n
    ]

add_tasks_nil : (known : Known) (g g' : Graph) → add_tasks known [] g ≡ built g' → g ≡ g'
unfolding add_tasks
add_tasks_nil known g g' h = cc

-- The graph holds the edges that it held before, and those of the tasks.
pub add_tasks_sound :
    (known : Known) (ts : List Task) (g g' : Graph) (a b : String)
    → add_tasks known ts g ≡ built g'
    → Memᴰ b (g' a)
    → Memᴰ b (g a) ⊎ DependsOn ts a b
add_tasks_sound known [] g g' a b h m =
    inl (subst (λ (k : Graph). Memᴰ b (k a)) (sym (add_tasks_nil known g g' h)) m)
add_tasks_sound known (t ∷ ts) g g' a b h m =
    let (g₁, first, rest) = add_tasks_step known t ts g g' h in
    elim (add_tasks_sound known ts g₁ g' a b rest m) [
      | inr (u, m', e, n) ↦ inr (u, Memᴰ.tail m', e, n)
      | inl m₁ ↦ elim (Bool-cases (t.id =ˢ a)) [
        | inl same ↦
            let m₂ = rw (add_parents_edges known t.id (parents t) g g₁ a first) at m₁ in
            elim (Memᴰ.append_cases (g a) (rw same at m₂)) [
              | inl old ↦ inl old
              | inr new ↦ inr (t, Memᴰ.head refl, (eq_iff t.id a).0 same, new)
            ]
        | inr other ↦
            inl (rw other at (rw (add_parents_edges known t.id (parents t) g g₁ a first) at m₁))
      ]
    ]

add_parents_keep :
    (known : Known) (id : String) (ps : List String) (g g' : Graph) (a b : String)
    → add_parents known id ps g ≡ built g'
    → Memᴰ b (g a)
    → Memᴰ b (g' a)
add_parents_keep known id ps g g' a b h m =
    rw (add_parents_edges known id ps g g' a h) (elim (Bool-cases (id =ˢ a)) [
      | inl same ↦ rw same (Memᴰ.append_left ps m)
      | inr other ↦ rw other m
    ])

add_parents_new :
    (known : Known) (id : String) (ps : List String) (g g' : Graph) (a b : String)
    → add_parents known id ps g ≡ built g'
    → id ≡ a
    → Memᴰ b ps
    → Memᴰ b (g' a)
add_parents_new known id ps g g' a b h e m =
    rw (add_parents_edges known id ps g g' a h) (rw ((eq_iff id a).1 e) (Memᴰ.append_right (g a) m))

add_tasks_keep :
    (known : Known) (ts : List Task) (g g' : Graph) (a b : String)
    → add_tasks known ts g ≡ built g'
    → Memᴰ b (g a)
    → Memᴰ b (g' a)
add_tasks_keep known [] g g' a b h m =
    subst (λ (k : Graph). Memᴰ b (k a)) (add_tasks_nil known g g' h) m
add_tasks_keep known (t ∷ ts) g g' a b h m =
    let (g₁, first, rest) = add_tasks_step known t ts g g' h in
    add_tasks_keep known ts g₁ g' a b rest
      (add_parents_keep known t.id (parents t) g g₁ a b first m)

pub add_tasks_complete :
    (known : Known) (ts : List Task) (g g' : Graph) (a b : String)
    → add_tasks known ts g ≡ built g'
    → DependsOn ts a b
    → Memᴰ b (g' a)
add_tasks_complete known [] g g' a b h (u, m, e, n) = elim m [ ]
add_tasks_complete known (t ∷ ts) g g' a b h (u, m, e, n) =
    let (g₁, first, rest) = add_tasks_step known t ts g g' h in
    elim (Memᴰ.cases_cons m) [
      | inr m' ↦ add_tasks_complete known ts g₁ g' a b rest (u, m', e, n)
      | inl same ↦ add_tasks_keep known ts g₁ g' a b rest (
          add_parents_new known t.id (parents t) g g₁ a b first
            (sym (ap (λ (v : Task). v.id) same) ∙ e) (rw same at n))
    ]

-- If every parent is known and none is the task itself, the first phase succeeds.
add_parents_total :
    (known : Known) (id : String) (ps : List String) (g : Graph)
    → ((q : String) → Memᴰ q ps → (known q ≡ true) × (q ≢ id))
    → (g' : Graph) × (add_parents known id ps g ≡ built g')
unfolding add_parents
add_parents_total known id [] g h = (g, refl)
add_parents_total known id (p ∷ ps) g h =
    let (seen, other) = h p (Memᴰ.head refl) in
    let (g', e) = add_parents_total known id ps (add_edge g id p) (λ q m. h q (Memᴰ.tail m)) in
    (g', rw (seen, text_eq_false p id other) e)

pub add_tasks_total :
    (known : Known) (ts : List Task) (g : Graph)
    → ((t : Task) (q : String) → Memᴰ t ts → Memᴰ q (parents t) → (known q ≡ true) × (q ≢ t.id))
    → (g' : Graph) × (add_tasks known ts g ≡ built g')
unfolding add_tasks
add_tasks_total known [] g h = (g, refl)
add_tasks_total known (t ∷ ts) g h =
    let (g₁, e₁) = add_parents_total known t.id (parents t) g (λ q m. h t q (Memᴰ.head refl) m) in
    let (g', e) = add_tasks_total known ts g₁ (λ u q m. h u q (Memᴰ.tail m)) in
    (g', rw (e₁, add_tasks) e)

add_parents_broken :
    (known : Known) (id : String) (ps : List String) (g : Graph) (e : ValidateError)
    → add_parents known id ps g ≡ broken e
    → (p : String) × Memᴰ p ps
      × (((e ≡ dangling id p) × (known p ≡ false)) ⊎ ((e ≡ self_loop id) × (p ≡ id)))
unfolding add_parents
add_parents_broken known id [] g e h = cc
add_parents_broken known id (p ∷ ps) g e h = elim (Bool-cases (known p)) [
  | inr unknown ↦ (p, Memᴰ.head refl, inl (ground arith, unknown))
  | inl seen ↦ elim (Bool-cases (p =ˢ id)) [
    | inl same ↦ (p, Memᴰ.head refl, inr (ground arith, (eq_iff p id).0 same))
    | inr other ↦
        let (q, m, r) =
          add_parents_broken known id ps (add_edge g id p) e (rw (seen, other, add_parents) at h) in
        (q, Memᴰ.tail m, r)
  ]
]

pub Built-cases :
    (r : Built) → ((g : Graph) × (r ≡ built g)) ⊎ ((e : ValidateError) × (r ≡ broken e))
Built-cases (built g) = inl (g, refl)
Built-cases (broken e) = inr (e, refl)

add_tasks_broken_step :
    (known : Known) (t : Task) (ts : List Task) (g : Graph) (e : ValidateError)
    → add_tasks known (t ∷ ts) g ≡ broken e
    → (add_parents known t.id (parents t) g ≡ broken e)
      ⊎ ((g₁ : Graph) × (add_tasks known ts g₁ ≡ broken e))
unfolding add_tasks
add_tasks_broken_step known t ts g e h = elim (Built-cases (add_parents known t.id (parents t) g)) [
  | inl (g₁, q) ↦ inr (g₁, rw (q, add_tasks) at h)
  | inr (f, q) ↦ inl (ground arith)
]

-- An error of the first phase names a task, and what is wrong with one of its parents.
pub add_tasks_broken :
    (known : Known) (ts : List Task) (g : Graph) (e : ValidateError)
    → add_tasks known ts g ≡ broken e
    → (a p : String) × DependsOn ts a p
      × (((e ≡ dangling a p) × (known p ≡ false)) ⊎ ((e ≡ self_loop a) × (p ≡ a)))
unfolding add_tasks
add_tasks_broken known [] g e h = cc
add_tasks_broken known (t ∷ ts) g e h = elim (add_tasks_broken_step known t ts g e h) [
  | inl first ↦
      let (p, m, r) = add_parents_broken known t.id (parents t) g e first in
      (t.id, p, (t, Memᴰ.head refl, refl, m), r)
  | inr (g₁, rest) ↦
      let (a, p, (u, m, same, n), r) = add_tasks_broken known ts g₁ e rest in
      (a, p, (u, Memᴰ.tail m, same, n), r)
]
