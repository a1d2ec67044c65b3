-- ===== src/Working/Skeleton.antt =====
-- memory/working/working.go: the ids and the parents of a list of tasks, apart from the rest.
use mathlib.Core.WellFounded.{Acc}
use mathlib.Core.List.{cons≢nil}
use mathlib.Core.List.Memᴰ
use kugelblitz.Common.{
  String, List, [], ◌∷◌, map, Memᴰ, ◌≡◌, ◌≢◌, refl, sym, ◌∙◌, ap, subst, ◌⊎◌, inl, inr, arith,
  eq_iff, Bool-cases, ◌=ˢ◌, text_eq_sound, none, false≢true,
}
use kugelblitz.Working.Types.{Task, task_ids}
use kugelblitz.Working.Parents.{split_parent_ids}
use kugelblitz.Working.Store.{update_task, task_in}
use kugelblitz.Working.Validate.Build.{DependsOn}
use kugelblitz.Working.Validate.Sound.{IsWellFormed}
use kugelblitz.Working.Ready.Spec.{UniqueIds}

abbrev pub bone : Task → String × String
bone t = (t.id, t.parent_task_id)

abbrev pub skeleton : List Task → List (String × String)
skeleton ts = map bone ts

abbrev pub KeepsBone : (Task → Task) → Type 0
KeepsBone f = (t : Task) → bone (f t) ≡ bone t

pub skeleton-update :
    (id : String) (f : Task → Task) (ts : List Task)
    → KeepsBone f
    → skeleton (update_task id f ts) ≡ skeleton ts
unfolding update_task
skeleton-update id f [] k = refl
skeleton-update id f (t ∷ ts) k = elim (Bool-cases (t.id =ˢ id)) [
  | inl same ↦ rw (same, k t)
  | inr other ↦ rw (other, skeleton-update id f ts k)
]

pub skeleton-map :
    (f : Task → Task) (ts : List Task) → KeepsBone f → skeleton (map f ts) ≡ skeleton ts
skeleton-map f [] k = refl
skeleton-map f (t ∷ ts) k = rw (k t, skeleton-map f ts k)

task_ids-skeleton :
    (ts : List Task) → task_ids ts ≡ map (λ (b : String × String). b.0) (skeleton ts)
task_ids-skeleton [] = refl
task_ids-skeleton (t ∷ ts) = rw (task_ids-skeleton ts)

module _ (ts us : List Task) (same : skeleton ts ≡ skeleton us) where
  pub task_ids_same : task_ids ts ≡ task_ids us
  task_ids_same =
      task_ids-skeleton ts
      ∙ ap (map (λ (b : String × String). b.0)) same
      ∙ sym (task_ids-skeleton us)

  pub task_same : (t : Task) → Memᴰ t ts → (u : Task) × Memᴰ u us × (bone u ≡ bone t)
  task_same t m = Memᴰ.of_map bone us (subst (Memᴰ (bone t)) same (Memᴰ.map bone m))

  pub DependsOn-same : (a b : String) → DependsOn ts a b → DependsOn us a b
  DependsOn-same a b (t, m, e, n) =
      let (u, mu, eu) = task_same t m in
      (
        u,
        mu,
        ap (λ (x : String × String). x.0) eu ∙ e,
        subst (λ x. Memᴰ b (split_parent_ids x)) (sym (ap (λ (x : String × String). x.1) eu)) n,
      )

Acc_same :
    (ts us : List Task) (same : skeleton ts ≡ skeleton us) (a : String)
    → Acc (λ y x. DependsOn ts x y) a
    → Acc (λ y x. DependsOn us x y) a
Acc_same ts us same a (Acc.intro _ smaller) =
    Acc.intro a (λ b d. Acc_same ts us same b (smaller b (DependsOn-same us ts (sym same) a b d)))

pub IsWellFormed-same :
    (ts us : List Task) → skeleton ts ≡ skeleton us → IsWellFormed ts → IsWellFormed us
IsWellFormed-same ts us same w = record {
  nonempty = λ e. w.nonempty (empty_same ts (same ∙ ap skeleton e));
  closed = λ a b d.
      subst (Memᴰ b) (task_ids_same ts us same)
        (w.closed a b (DependsOn-same us ts (sym same) a b d));
  acyclic = λ a m.
      Acc_same ts us same a (w.acyclic a (subst (Memᴰ a) (sym (task_ids_same ts us same)) m));
}
  where
    empty_same : (l : List Task) → skeleton l ≡ [] → l ≡ []
    empty_same [] e = refl
    empty_same (x ∷ l) e = absurd (cons≢nil e)

abbrev pub Unique : List String → Type 0
Unique [] = Unit
Unique (x ∷ xs) = ¬ Memᴰ x xs × Unique xs

UniqueIds-Unique : (ts : List Task) → UniqueIds ts ≡ Unique (task_ids ts)
UniqueIds-Unique [] = refl
UniqueIds-Unique (t ∷ ts) = rw (UniqueIds-Unique ts)

pub UniqueIds-same : (ts us : List Task) → skeleton ts ≡ skeleton us → UniqueIds ts → UniqueIds us
UniqueIds-same ts us same u =
    rw (UniqueIds-Unique us) (rw (← task_ids_same ts us same) (rw (UniqueIds-Unique ts) at u))

-- After a write through the pointer to the task with this id, a task is an old one with another id,
-- or the one that was written.
pub mem-update :
    (id : String) (f : Task → Task) (ts : List Task) (u : Task)
    → UniqueIds ts
    → Memᴰ u (update_task id f ts)
    → (Memᴰ u ts × (u.id ≢ id)) ⊎ ((v : Task) × Memᴰ v ts × (v.id ≡ id) × (u ≡ f v))
unfolding update_task
mem-update id f [] u q m = elim m [ ]
mem-update id f (t ∷ ts) u q m = elim (Bool-cases (t.id =ˢ id)) [
  | inl same ↦
      let e = text_eq_sound t.id id same in
      elim (Memᴰ.cases_cons (rw same at m)) [
        | inl w ↦ inr (t, Memᴰ.head refl, e, w)
        | inr n ↦ inl (
          Memᴰ.tail n,
          λ z.
              q.0 (subst (λ x. Memᴰ x (task_ids ts)) (z ∙ sym e) (Memᴰ.map (λ (x : Task). x.id) n)),
        )
      ]
  | inr other ↦ elim (Memᴰ.cases_cons (rw other at m)) [
    | inl w ↦ inl (
      Memᴰ.head w,
      λ z. false≢true (sym other ∙ (eq_iff t.id id).1 (ap (λ (x : Task). x.id) (sym w) ∙ z)),
    )
    | inr n ↦ elim (mem-update id f ts u q.1 n) [
      | inl (n', ne) ↦ inl (Memᴰ.tail n', ne)
      | inr (v, n', e, w) ↦ inr (v, Memᴰ.tail n', e, w)
    ]
  ]
]

pub update_absent :
    (id : String) (f : Task → Task) (ts : List Task)
    → task_in id ts ≡ none
    → update_task id f ts ≡ ts
unfolding update_task task_in
update_absent id f [] h = refl
update_absent id f (t ∷ ts) h = ground (arith, update_absent id f ts)

pub update-mem :
    (id : String) (f : Task → Task) (ts : List Task) (u : Task)
    → Memᴰ u ts
    → u.id ≢ id
    → Memᴰ u (update_task id f ts)
unfolding update_task
update-mem id f [] u m n = elim m [ ]
update-mem id f (t ∷ ts) u m n = elim (Bool-cases (t.id =ˢ id)) [
  | inl same ↦ rw same (elim (Memᴰ.cases_cons m) [
    | inl e ↦ absurd (n (ap (λ (x : Task). x.id) e ∙ text_eq_sound t.id id same))
    | inr k ↦ Memᴰ.tail k
  ])
  | inr other ↦ rw other (elim (Memᴰ.cases_cons m) [
    | inl e ↦ Memᴰ.head e
    | inr k ↦ Memᴰ.tail (update-mem id f ts u k n)
  ])
]

-- With unique ids a task is known by its id.
pub UniqueIds-eq :
    (ts : List Task) (a b : Task) → UniqueIds ts → Memᴰ a ts → Memᴰ b ts → a.id ≡ b.id → a ≡ b
UniqueIds-eq [] a b u m n e = elim m [ ]
UniqueIds-eq (t ∷ ts) a b u (Memᴰ.head x) (Memᴰ.head y) e = x ∙ sym y
UniqueIds-eq (t ∷ ts) a b u (Memᴰ.head x) (Memᴰ.tail n) e = absurd (
    u.0 (
      subst (λ z. Memᴰ z (task_ids ts)) (sym e ∙ ap (λ (z : Task). z.id) x)
        (Memᴰ.map (λ (z : Task). z.id) n)))
UniqueIds-eq (t ∷ ts) a b u (Memᴰ.tail m) (Memᴰ.head y) e = absurd (
    u.0 (
      subst (λ z. Memᴰ z (task_ids ts)) (e ∙ ap (λ (z : Task). z.id) y)
        (Memᴰ.map (λ (z : Task). z.id) m)))
UniqueIds-eq (t ∷ ts) a b u (Memᴰ.tail m) (Memᴰ.tail n) e = UniqueIds-eq ts a b u.1 m n e
