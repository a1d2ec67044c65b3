-- ===== src/Constants.antt =====
-- constants/enums.go: the enumerations that the other parts share.
use Prim.Native.String.{String}
use mathlib.Core.Path.{◌≡◌, refl, sym, ◌∙◌}
use mathlib.Core.Bool.{Bool, true, false, decide}
use kugelblitz.Common.{decide_sound, ◌=ˢ◌, text_eq_sound, eq_iff, false≢true}

pub data RoleType : Type 0 where
  system user tool assistant : RoleType

-- The constants, and any other text that is converted to a PlanState.
pub data PlanState : Type 0 where
  other : (text : String) → PlanState
  none intent init direct confirmed rejected doing updating done failed : PlanState

abbrev pub String-cases : (s t : String) (b : Bool) → (s =ˢ t) ≡ b → Dec (s ≡ t)
String-cases s t true h = yes (text_eq_sound s t h)
String-cases s t false h = no (λ e. false≢true (sym h ∙ (eq_iff s t).1 e))

abbrev pub String-discrete : Discrete String
String-discrete s t = String-cases s t (s =ˢ t) refl

unfoldable pub PlanState-discrete : Discrete PlanState
PlanState-discrete = hlevel (String-discrete)

unfoldable pub same_state : PlanState → PlanState → Bool
unfolding PlanState-discrete decide
same_state a b = decide (PlanState-discrete a b)

pub data AgentIdentity : Type 0 where
  main worker reviewer : AgentIdentity

abbrev pub state_text : PlanState → String
state_text (PlanState.other text) = text
state_text PlanState.none = "none"
state_text PlanState.intent = "intent"
state_text PlanState.init = "init"
state_text PlanState.direct = "direct"
state_text PlanState.confirmed = "confirmed"
state_text PlanState.rejected = "rejected"
state_text PlanState.doing = "doing"
state_text PlanState.updating = "update"
state_text PlanState.done = "done"
state_text PlanState.failed = "failed"

pub same_state_sound : (a b : PlanState) → same_state a b ≡ true → a ≡ b
unfolding same_state
same_state_sound a b h = decide_sound (PlanState-discrete a b) h
