-- ===== src/Tools/Plans/Confirm.antt =====
-- tools/internals/plan.go, ConfirmPlan: what a confirmation can make of a plan.
use kugelblitz.Common.{
  ◌+◌, String, some, [], ◌∷◌, ◌≡◌, ◌≢◌, refl, arith, ◌⊎◌, inl, inr, ◌=ˢ◌, option_split, Bool-cases,
  eq_iff, none, List, sym, subst,
}
use kugelblitz.Constants.{PlanState}
use kugelblitz.Working.Types.{Plan}
use kugelblitz.Working.Store.{Store, Disk, get_plan, put_plan}
use kugelblitz.Working.Store.Versions.{put_plan_lem, next_plan}
use kugelblitz.Message.{Fields}
use kugelblitz.Tools.Arguments.{
  ToolError, plan_not_found, Result, ok, err, required_string, optional_string, in_allowed,
  is_one_of,
}
use kugelblitz.Tools.Plans.{
  Answer, refused, confirmed_answer, Called, called, put_and, and_then, decide_plan, to_state,
  or_reason, confirm_plan,
}

-- The texts that a user's decision can have.
abbrev pub decisions : List String
decisions = "doing" ∷ "rejected" ∷ "update" ∷ []

allowed_cases :
    (status : String)
    → in_allowed status decisions ≡ none
    → (status ≡ "doing") ⊎ (status ≡ "rejected") ⊎ (status ≡ "update")
unfolding in_allowed is_one_of
allowed_cases status h = elim (Bool-cases (status =ˢ "doing")) [
  | inl e ↦ inl ((eq_iff status "doing").0 e)
  | inr d ↦ elim (Bool-cases (status =ˢ "rejected")) [
    | inl e ↦ inr (inl ((eq_iff status "rejected").0 e))
    | inr r ↦ elim (Bool-cases (status =ˢ "update")) [
      | inl e ↦ inr (inr ((eq_iff status "update").0 e))
      | inr u ↦ absurd (ground (arith, h, d, r, u))
    ]
  ]
]

-- The state that is named by a decision.
pub data Decided : String → PlanState → Type 0 where
  approved : Decided "doing" PlanState.doing
  turned_down : Decided "rejected" PlanState.rejected
  sent_back : Decided "update" PlanState.updating

to_state-Decided :
    (status : String) → in_allowed status decisions ≡ none → Decided status (to_state status)
unfolding to_state
to_state-Decided status h = elim (allowed_cases status h) [
  | inl e ↦ subst (λ z. Decided z (to_state z)) (sym e) approved
  | inr (inl e) ↦ subst (λ z. Decided z (to_state z)) (sym e) turned_down
  | inr (inr e) ↦ subst (λ z. Decided z (to_state z)) (sym e) sent_back
]

-- A call with these arguments that changed nothing, or one that decided a plan that is in the store.
abbrev pub Decision : Fields → Store → Called → Type 0
Decision args s c =
    ((c.store ≡ s) × (e : ToolError) × (c.answer ≡ refused e))
    ⊎ ((id : String) × (status : String) × (p : Plan) × (r : Plan) × (required_string args "plan_id"
          ≡ ok id)
        × (required_string args "status" ≡ ok status)
        × (get_plan id s ≡ some p)
        × (get_plan p.id c.store ≡ some r)
        × Decided status r.state
        × (r.sub_tasks ≡ p.sub_tasks)
        × (r.finished_reason ≡ or_reason (optional_string args "reason") p.finished_reason)
        × (r.version ≡ p.version + 1)
        × ((j : String) → p.id ≢ j → get_plan j c.store ≡ get_plan j s))

refused-Decision :
    (args : Fields) (s : Store) (e : ToolError) → Decision args s (called (refused e) s)
refused-Decision args s e = inl (refl, e, refl)

and_then-Decision {ℓ} :
    {A : Type ℓ} (args : Fields) (s : Store) (r : Result A) (k : A → Called)
    → ((a : A) → r ≡ ok a → Decision args s (k a))
    → Decision args s (and_then s r k)
and_then-Decision args s (ok a) k h = h a refl
and_then-Decision args s (err e) k h = refused-Decision args s e

put_and-Decision :
    (d : Disk) (args : Fields) (status id : String) (p : Plan) (s : Store) (answer : Plan → Answer)
    → required_string args "plan_id" ≡ ok id
    → required_string args "status" ≡ ok status
    → in_allowed status decisions ≡ none
    → get_plan id s ≡ some p
    → Decision args s (put_and d (decide_plan status (optional_string args "reason") p) s answer)
put_and-Decision d args status id p s answer named chosen allowed found =
    let q = decide_plan status (optional_string args "reason") p in
    let spec = put_plan_lem d q s in
    let same : (put_and d q s answer).store ≡ (put_plan d q s).store = ground arith in
    inr (
      id,
      status,
      p,
      next_plan d q s,
      named,
      chosen,
      found,
      subst (λ z. get_plan p.id z ≡ some (next_plan d q s)) (sym same) spec.in_memory,
      to_state-Decided status allowed,
      refl,
      refl,
      refl,
      λ j other. subst (λ z. get_plan j z ≡ get_plan j s) (sym same) (spec.others_kept j other),
    )

-- confirm_plan either refuses the call and leaves the store as it was, or the call's status is doing,
-- rejected or update, and the plan with the call's plan_id gets just the state of that name, and the
-- call's reason if there is one, with its tasks unchanged and under the next version, and every other
-- plan is left alone.
pub confirm_plan-Decision :
    (d : Disk) (args : Fields) (s : Store) → Decision args s (confirm_plan d args s)
unfolding confirm_plan
confirm_plan-Decision d args s =
    and_then-Decision args s (required_string args "plan_id") _ (λ id named.
      and_then-Decision args s (required_string args "status") _ (λ status chosen.
        option_split (Decision args s) (in_allowed status decisions)
          (λ allowed.
            option_split (Decision args s) (get_plan id s)
              {x = called (refused (plan_not_found id)) s}
              (λ missing. refused-Decision args s (plan_not_found id))
              (λ p found.
                put_and-Decision d args status id p s (λ p'. confirmed_answer p'.id p'.state) named
                  chosen allowed found))
          (λ e refusal. refused-Decision args s e)))
