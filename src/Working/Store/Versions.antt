-- ===== src/Working/Store/Versions.antt =====
-- memory/working/working.go and persist: versions and checkpoints under PutPlan and LoadPlan.
use mathlib.Core.Path.{subst₂}
use native.Mathlib.Decide.{ℕ_discrete}
use kugelblitz.Common.{
  ℕ, ◌+◌, ◌≤◌, String, true, none, some, List, [], ◌∷◌, ◌≡◌, ◌≢◌, refl, ◌⊎◌, inl, inr, arith,
  eq_iff, ◌=ˢ◌, ◌↔◌, sym, ◌∙◌, ap, subst, Bool-cases, false≢true, text_eq_sound, some_eq,
}
use kugelblitz.Working.Types.{Task, Plan, Checkpoint}
use kugelblitz.Working.Store.{
  Store, Disk, Put, lookup_plan, get_plan, insert_plan, copy_tasks, snapshot, put_plan,
  load_checkpoint, load_plan,
}

pub copy_tasks_eq : (ts : List Task) → copy_tasks ts ≡ ts
unfolding copy_tasks
copy_tasks_eq [] = refl
copy_tasks_eq (t ∷ ts) = ground (arith, copy_tasks_eq ts)

pub snapshot_eq : (p : Plan) → snapshot p ≡ p
unfolding snapshot
snapshot_eq p = ground (arith, copy_tasks_eq p.sub_tasks)

pub lookup-insert_self : (p : Plan) (ps : List Plan) → lookup_plan p.id (insert_plan p ps) ≡ some p
unfolding lookup_plan insert_plan
lookup-insert_self p [] = ground (arith, eq_iff p.id p.id)
lookup-insert_self p (q ∷ qs) =
    ground (arith, eq_iff p.id p.id, eq_iff q.id p.id, lookup-insert_self p qs)

pub lookup-insert_ne :
    (p : Plan) (id : String) (ps : List Plan)
    → p.id ≢ id
    → lookup_plan id (insert_plan p ps) ≡ lookup_plan id ps
unfolding lookup_plan insert_plan
lookup-insert_ne p id [] h = ground (arith, eq_iff p.id id)
lookup-insert_ne p id (q ∷ qs) h =
    ground (arith, eq_iff p.id id, eq_iff q.id p.id, eq_iff q.id id, lookup-insert_ne p id qs h)

module _ (d : Disk) (p : Plan) (s : Store) where
  -- The plan after PutPlan, and its checkpoint.
  abbrev pub next_plan : Plan
  next_plan = record p { version = p.version + 1 }

  abbrev pub next_checkpoint : Checkpoint
  next_checkpoint = record { version = p.version + 1; reason = ""; plan = next_plan }

  -- What one call of PutPlan does, whether the writes succeed or not.
  pub record PutSpec (r : Put) : Type 0 where
    pub plan_next : r.plan ≡ next_plan
    pub in_memory : get_plan p.id r.store ≡ some next_plan
    pub others_kept : (id : String) → p.id ≢ id → get_plan id r.store ≡ get_plan id s
    pub error_iff :
        (r.error ≡ none)
        ↔ ((d.plan_written next_plan ≡ true) × (d.checkpoint_written next_checkpoint ≡ true))
    pub saved_if_written : d.plan_written next_plan ≡ true → r.store.saved p.id ≡ some next_plan
    pub checkpoint_if_ok :
        r.error ≡ none → load_checkpoint p.id (p.version + 1) r.store ≡ some next_checkpoint
    pub history_kept :
        (id : String) (v : ℕ)
        → (p.id ≢ id) ⊎ (v ≢ p.version + 1)
        → load_checkpoint id v r.store ≡ load_checkpoint id v s

  -- PutPlan puts the plan with the next version in memory whether or not the disk can be written,
  -- leaves every other plan and every other checkpoint alone, returns nil exactly if both writes
  -- succeed, and then the new version has a checkpoint that holds the plan.
  pub put_plan_lem : PutSpec (put_plan d p s)
  unfolding put_plan get_plan load_checkpoint
  put_plan_lem = record {
    plan_next = ground arith;
    in_memory = ground (arith, lookup-insert_self next_plan s.plans);
    others_kept = λ id h. ground (arith, lookup-insert_ne next_plan id s.plans h);
    error_iff =
        (λ h. ground (arith, snapshot_eq next_plan), λ h. ground (arith, snapshot_eq next_plan));
    saved_if_written = λ h. ground (arith, eq_iff p.id p.id);
    checkpoint_if_ok = λ h. ground (arith, snapshot_eq next_plan, eq_iff p.id p.id);
    history_kept = λ id v h. ground (arith, eq_iff id p.id);
  }

-- What the disk holds agrees with itself: a saved plan lies under its id, and no checkpoint is
-- newer than the saved plan.
pub record IsHistory (s : Store) : Type 0 where
  pub named : (id : String) (p : Plan) → s.saved id ≡ some p → p.id ≡ id
  pub bounded :
      (id : String) (v : ℕ) (cp : Checkpoint)
      → load_checkpoint id v s ≡ some cp
      → (p : Plan) × (s.saved id ≡ some p) × (v ≤ p.version)

-- The plan object is at least as new as its file.
abbrev pub UpToDate : Plan → Store → Type 0
UpToDate p s = (q : Plan) → s.saved p.id ≡ some q → q.version ≤ p.version

module _ (d : Disk) (p : Plan) (s : Store) (h : IsHistory s) (u : UpToDate p s) where
  fresh_version : (cp : Checkpoint) → load_checkpoint p.id (p.version + 1) s ≡ some cp → ⊥
  fresh_version cp e = let (q, saved, le) = h.bounded p.id _ cp e in omega (arith, u q saved)

  saved_cases :
      (id : String)
      → ((put_plan d p s).store.saved id ≡ s.saved id)
        ⊎ ((id ≡ p.id) × ((put_plan d p s).store.saved id ≡ some (next_plan d p s)))
  unfolding put_plan
  saved_cases id = ground (arith, eq_iff id p.id)

  -- The file of the plan after the call, against a checkpoint.
  checkpoint_cases :
      (id : String) (v : ℕ) (cp : Checkpoint)
      → load_checkpoint id v (put_plan d p s).store ≡ some cp
      → (load_checkpoint id v s ≡ some cp)
        ⊎ ((id ≡ p.id)
            × (v ≡ p.version + 1)
            × ((put_plan d p s).store.saved id ≡ some (next_plan d p s)))
  unfolding put_plan load_checkpoint
  checkpoint_cases id v cp e = ground (arith, eq_iff id p.id)

  named_after : (id : String) (q : Plan) → (put_plan d p s).store.saved id ≡ some q → q.id ≡ id
  named_after id q e = elim (saved_cases id) [
    | inl same ↦ h.named id q (sym same ∙ e)
    | inr (i, new) ↦ sym (i ∙ ap (λ (x : Plan). x.id) (some_eq (sym new ∙ e)))
  ]

  bounded_after :
      (id : String) (v : ℕ) (cp : Checkpoint)
      → load_checkpoint id v (put_plan d p s).store ≡ some cp
      → (q : Plan) × ((put_plan d p s).store.saved id ≡ some q) × (v ≤ q.version)
  bounded_after id v cp e = elim (checkpoint_cases id v cp e) [
    | inr (i, last, new) ↦ (next_plan d p s, new, omega arith)
    | inl old ↦
        let (q, saved, le) = h.bounded id v cp old in
        elim (saved_cases id) [
          | inl same ↦ (q, same ∙ saved, le)
          | inr (i, new) ↦
              (next_plan d p s, new, omega (arith, u q (subst (λ j. s.saved j ≡ some q) i saved)))
        ]
  ]

  next_UpToDate : UpToDate (next_plan d p s) (put_plan d p s).store
  next_UpToDate q e = elim (saved_cases p.id) [
    | inl same ↦ omega (arith, u q (sym same ∙ e))
    | inr (i, new) ↦ omega (arith, ap (λ (x : Plan). x.version) (some_eq (sym new ∙ e)))
  ]

  kept_after :
      (id : String) (v : ℕ) (cp : Checkpoint)
      → load_checkpoint id v s ≡ some cp
      → load_checkpoint id v (put_plan d p s).store ≡ some cp
  kept_after id v cp e =
      let spec = put_plan_lem d p s in
      elim (Bool-cases (p.id =ˢ id)) [
        | inr other ↦
            spec.history_kept id v (inl (λ i. false≢true (sym other ∙ (eq_iff p.id id).1 i))) ∙ e
        | inl same ↦ elim (ℕ_discrete v (p.version + 1)) [
          | no old ↦ spec.history_kept id v (inr old) ∙ e
          | yes last ↦ absurd (
              fresh_version cp (
                subst₂ (λ i w. load_checkpoint i w s ≡ some cp) (sym (text_eq_sound p.id id same))
                  last e))
        ]
      ]

  -- PutPlan of a plan that is at least as new as its file never overwrites a checkpoint, keeps the
  -- disk in agreement with itself, and returns a plan that is again as new as its file. So every
  -- version that was ever checkpointed stays there to be rolled back to.
  pub put_plan-IsHistory :
      IsHistory (put_plan d p s).store
      × UpToDate (put_plan d p s).plan (put_plan d p s).store
      × ((id : String) (v : ℕ) (cp : Checkpoint)
          → load_checkpoint id v s ≡ some cp
          → load_checkpoint id v (put_plan d p s).store ≡ some cp)
  put_plan-IsHistory = (
    record { named = named_after; bounded = bounded_after },
    subst (λ q. UpToDate q (put_plan d p s).store) (sym (put_plan_lem d p s).plan_next)
        next_UpToDate,
    kept_after,
  )

load_plan_inv :
    (id : String) (s : Store) (p : Plan)
    → (load_plan id s).1 ≡ some p
    → (s.saved id ≡ some p) × ((load_plan id s).0 ≡ record s { plans = insert_plan p s.plans })
unfolding load_plan
load_plan_inv id s p e = ground arith

-- The plan that LoadPlan reads is as new as its file and lies in memory under its id, so that
-- PutPlan may go on from it.
pub load_plan-UpToDate :
    (id : String) (s : Store) (p : Plan)
    → IsHistory s
    → (load_plan id s).1 ≡ some p
    → UpToDate p (load_plan id s).0 × (p.id ≡ id) × (get_plan id (load_plan id s).0 ≡ some p)
unfolding get_plan
load_plan-UpToDate id s p h e =
    let (saved, after) = load_plan_inv id s p e in
    let named = h.named id p saved in
    rw after (
      λ q same.
          omega (arith, ap (λ (x : Plan). x.version) (some_eq (sym saved ∙ rw named at same))),
      named,
      subst (λ j. lookup_plan j (insert_plan p s.plans) ≡ some p) named
          (lookup-insert_self p s.plans),
    )
