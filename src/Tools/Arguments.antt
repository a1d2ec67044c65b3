-- ===== src/Tools/Arguments.antt =====
-- tools/tool.go: the arguments of a tool call. An error is a value that holds what its text says.
use kugelblitz.Common.{
  ℕ, String, Bool, true, false, ◌||◌, Option, none, some, List, [], ◌∷◌, if◌then◌else◌, ◌=ˢ◌,
  is_empty, ltb,
}
use kugelblitz.Working.Store.{StoreError}
use kugelblitz.Message.{Value, text, flag, whole, negative, fraction, Fields, field}

-- Go's int; `negsuc n` is -(n+1).
pub data ℤ : Type 0 where
  pos : ℕ → ℤ
  negsuc : ℕ → ℤ

abbrev pub ltz : ℤ → ℤ → Bool
ltz (pos a) (pos b) = ltb a b
ltz (pos a) (negsuc b) = false
ltz (negsuc a) (pos b) = true
ltz (negsuc a) (negsuc b) = ltb b a

pub data ToolError : Type 0 where
  missing_argument : (key : String) → ToolError
  not_a_string : (key : String) → ToolError
  empty_argument : (key : String) → ToolError
  not_a_whole_number : (key : String) → ToolError
  not_an_integer : (key : String) → ToolError
  not_allowed : (value : String) (allowed : List String) → ToolError
  out_of_bounds : (key : String) (min max value : ℤ) → ToolError
  plan_not_found : (id : String) → ToolError
  task_not_found : (id : String) → ToolError
  task_not_in_plan : ToolError
  version_out_of_range : (below : ℕ) → ToolError
  nothing_to_query : ToolError
  unstored : StoreError → ToolError

-- A value and a nil error, or an error.
pub data Result {ℓ} (A : Type ℓ) : Type ℓ where
  ok : A → Result A
  err : ToolError → Result A

abbrev pub string_of : String → Value → Result String
string_of key (text s) = ok s
string_of key _ = err (not_a_string key)

-- Arg
unfoldable pub arg : Fields → String → Result String
unfolding field
arg args key = elim (field key args) [
  | none ↦ err (missing_argument key)
  | some v ↦ string_of key v
]

abbrev pub not_empty : String → Result String → Result String
not_empty key (ok s) = if is_empty s then err (empty_argument key) else ok s
not_empty key (err e) = err e

-- RequiredString
unfoldable pub required_string : Fields → String → Result String
unfolding field
required_string args key = elim (field key args) [
  | none ↦ err (missing_argument key)
  | some v ↦ not_empty key (string_of key v)
]

abbrev pub string_or_empty : Value → String
string_or_empty (text s) = s
string_or_empty _ = ""

-- OptionalString
unfoldable pub optional_string : Fields → String → String
unfolding field
optional_string args key = elim (field key args) [ none ↦ "" | some v ↦ string_or_empty v ]

-- OptionalStringErr
unfoldable pub optional_string_err : Fields → String → Result String
unfolding field
optional_string_err args key = elim (field key args) [ none ↦ ok "" | some v ↦ string_of key v ]

-- JSON numbers are float64, and only a whole one is taken.
abbrev pub int_of : String → Value → Result ℤ
int_of key (whole n) = ok (pos n)
int_of key (negative n) = ok (negsuc n)
int_of key fraction = err (not_a_whole_number key)
int_of key _ = err (not_an_integer key)

-- RequiredInt
unfoldable pub required_int : Fields → String → Result ℤ
unfolding field
required_int args key = elim (field key args) [
  | none ↦ err (missing_argument key)
  | some v ↦ int_of key v
]

-- OptionalInt
unfoldable pub optional_int : Fields → String → ℤ → Result ℤ
unfolding field
optional_int args key default = elim (field key args) [ none ↦ ok default | some v ↦ int_of key v ]

abbrev pub bool_or : Bool → Value → Bool
bool_or default (flag b) = b
bool_or default _ = default

-- OptionalBool
unfoldable pub optional_bool : Fields → String → Bool → Bool
unfolding field
optional_bool args key default = elim (field key args) [
  | none ↦ default
  | some v ↦ bool_or default v
]

unfoldable pub is_one_of : String → List String → Bool
is_one_of value [] = false
is_one_of value (a ∷ rest_allowed) =
    let rest = is_one_of value rest_allowed in if value =ˢ a then true else rest

-- In; `none` is nil.
unfoldable pub in_allowed : String → List String → Option ToolError
unfolding is_one_of
in_allowed value allowed =
    if is_one_of value allowed then none else some (not_allowed value allowed)

-- BoundedInt
unfoldable pub bounded_int : String → ℤ → ℤ → ℤ → Option ToolError
bounded_int key value min max =
    if ltz value min || ltz max value then some (out_of_bounds key min max value) else none
