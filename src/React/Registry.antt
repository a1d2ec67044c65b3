-- ===== src/React/Registry.antt =====
-- core/tool.go: the registry of tools, a map from names to a definition and a function. A map is an
-- association list with one entry for each name. `W` is whatever a tool call may change.
use Prim.Native.String.{compare}
use Prim.Native.Nat.{Ordering}
use kugelblitz.Common.{
  String, Bool, false, not, Option, none, some, List, [], ◌∷◌, ◌++◌, map, keep, if◌then◌else◌, ◌=ˢ◌,
  ◌+ˢ◌, is_in,
}
use kugelblitz.Message.{Fields, text, ToolCallDetail, ToolCallResult}

-- core/types/tool.go
pub record ToolDefinition : Type 0 where
  pub name : String
  pub description : String
  pub json_schema : Fields
  pub output_schema : Option Fields
  pub terminating : Bool

abbrev pub ToolCallFunc : Type 0 → Type 0
ToolCallFunc W = ToolCallDetail → W → ToolCallResult × W

pub record RegistryEntry (W : Type 0) : Type 0 where
  pub fn : ToolCallFunc W
  pub def : ToolDefinition

pub record ToolRegistry (W : Type 0) : Type 0 where
  pub tools : List (String × RegistryEntry W)
  pub internal_names : List String

-- `sort.Slice` by name, on definitions whose names differ: any sort gives the same list.
unfoldable pub insert_sorted : ToolDefinition → List ToolDefinition → List ToolDefinition
insert_sorted d [] = d ∷ []
insert_sorted d (e ∷ es) =
    let rest = insert_sorted d es in
    elim (compare e.name d.name) [ Ordering.lt ↦ e ∷ rest | _ ↦ d ∷ e ∷ es ]

unfoldable pub sort_by_name : List ToolDefinition → List ToolDefinition
unfolding insert_sorted
sort_by_name [] = []
sort_by_name (d ∷ ds) = insert_sorted d (sort_by_name ds)

-- MakeErrorToolOutputs
abbrev pub make_error_tool_outputs : String → Fields
make_error_tool_outputs err = ("error", text err) ∷ []

abbrev pub not_found : ToolCallDetail → ToolCallResult
not_found detail = record {
  tool_call_id = detail.id;
  tool_name = detail.tool_name;
  outputs = make_error_tool_outputs ("tool not found: " +ˢ detail.tool_name);
}

module _ {W : Type 0} where
  -- GetToolRegistry after ResetToolRegistry
  abbrev pub empty_registry : ToolRegistry W
  empty_registry = record { tools = []; internal_names = [] }

  unfoldable pub lookup_tool : String → List (String × RegistryEntry W) → Option (RegistryEntry W)
  lookup_tool n [] = none
  lookup_tool n ((k, e) ∷ es) = let rest = lookup_tool n es in if k =ˢ n then some e else rest

  -- `tr.tools[def.Name] = …`
  unfoldable pub put_tool :
      String → RegistryEntry W → List (String × RegistryEntry W) → List (String × RegistryEntry W)
  put_tool n x [] = (n, x) ∷ []
  put_tool n x ((k, e) ∷ es) =
      let rest = put_tool n x es in if k =ˢ n then (n, x) ∷ es else (k, e) ∷ rest

  unfoldable pub register : ToolDefinition → ToolCallFunc W → ToolRegistry W → ToolRegistry W
  unfolding put_tool
  register d f tr = record tr { tools = put_tool d.name (record { fn = f; def = d }) tr.tools }

  unfoldable pub call : ToolRegistry W → ToolCallFunc W
  unfolding lookup_tool
  call tr detail w = elim (lookup_tool detail.tool_name tr.tools) [
    | none ↦ (not_found detail, w)
    | some e ↦ e.fn detail w
  ]

  abbrev pub definitions : List (String × RegistryEntry W) → List ToolDefinition
  definitions = map (λ (_, e). e.def)

  unfoldable pub list_definitions : ToolRegistry W → List ToolDefinition
  unfolding sort_by_name
  list_definitions tr = sort_by_name (definitions tr.tools)

  unfoldable pub is_terminating : String → ToolRegistry W → Bool
  unfolding lookup_tool
  is_terminating n tr = elim (lookup_tool n tr.tools) [ none ↦ false | some e ↦ e.def.terminating ]

  unfoldable pub mark_as_internal : List String → ToolRegistry W → ToolRegistry W
  mark_as_internal ns tr = record tr { internal_names = ns ++ tr.internal_names }

  -- RegisterCustomTool: `none` is the error that the name is taken.
  unfoldable pub register_custom_tool :
      ToolDefinition → ToolCallFunc W → ToolRegistry W → Option (ToolRegistry W)
  unfolding register lookup_tool
  register_custom_tool d f tr = elim (lookup_tool d.name tr.tools) [
    | some e ↦ none
    | none ↦ some (register d f tr)
  ]

  unfoldable pub custom_tool_names : ToolRegistry W → List String
  unfolding is_in keep
  custom_tool_names tr = keep (λ n. not (is_in n tr.internal_names)) (map (λ (k, _). k) tr.tools)
