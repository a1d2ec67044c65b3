-- ===== src/Message.antt =====
-- core/types/message.go: the messages of a conversation, and the results of tool calls in them.
pub mod Json
use kugelblitz.Common.{
  ℕ, String, Bool, Option, none, some, List, [], ◌∷◌, ◌++◌, if◌then◌else◌, ◌=ˢ◌,
}
use kugelblitz.Constants.{RoleType}
use kugelblitz.Working.Types.{Usage}

-- A value of `map[string]any`, as far as the code tells values apart. A number is a whole one, the
-- negative one, where `negative n` is -(n+1), or not whole; `nested` is anything else.
pub data Value : Type 0 where
  text : String → Value
  flag : Bool → Value
  whole : ℕ → Value
  negative : ℕ → Value
  fraction : Value
  nested : Value

abbrev pub Fields : Type 0
Fields = List (String × Value)

unfoldable pub field : String → Fields → Option Value
field key [] = none
field key ((k, v) ∷ fs) = let rest = field key fs in if k =ˢ key then some v else rest

pub record ToolCallDetail : Type 0 where
  pub id : String
  pub tool_name : String
  pub args : Fields

pub record ToolCallResult : Type 0 where
  pub tool_call_id : String
  pub tool_name : String
  pub outputs : Fields

-- The type is a text of constants.MultiModalType, such as "image".
pub record MultiModalDetail : Type 0 where
  pub id : String
  pub type_of : String
  pub path : String
  pub base64 : String
  pub mime_type : String
  pub meta : Fields

mutual
  pub data Content : Type 0 where
    text_content : String → Content
    reasoning_content : String → Content
    tool_call_content : List ToolCallDetail → Content
    tool_result_content : List ToolCallResult → Content
    multi_modal_content : MultiModalDetail → Content
    composite_content : Parts → Content

  pub data Parts : Type 0 where
    end : Parts
    part : Content → Parts → Parts

-- A nil content is `none`.
pub record Message : Type 0 where
  pub id : String
  pub role : RoleType
  pub content : Option Content
  pub finish_reason : String
  pub usage : Option Usage

-- The loop over the parts in ToolResults; a composite inside a composite is passed over.
unfoldable pub part_results : Parts → List ToolCallResult
part_results end = []
part_results (part (tool_result_content rs) ps) = rs ++ part_results ps
part_results (part (text_content _) ps) = part_results ps
part_results (part (reasoning_content _) ps) = part_results ps
part_results (part (tool_call_content _) ps) = part_results ps
part_results (part (multi_modal_content _) ps) = part_results ps
part_results (part (composite_content _) ps) = part_results ps

abbrev pub content_results : Option Content → List ToolCallResult
content_results (some (tool_result_content rs)) = rs
content_results (some (composite_content ps)) = part_results ps
content_results _ = []

-- (m Message) ToolResults
unfoldable pub tool_results : Message → List ToolCallResult
unfolding part_results
tool_results m = content_results m.content

-- extractToolCalls of runtime/engine/infra/react.go and toolCalls of llm/caller.go.
unfoldable pub part_calls : Parts → List ToolCallDetail
part_calls end = []
part_calls (part (tool_call_content ds) ps) = ds ++ part_calls ps
part_calls (part (text_content _) ps) = part_calls ps
part_calls (part (reasoning_content _) ps) = part_calls ps
part_calls (part (tool_result_content _) ps) = part_calls ps
part_calls (part (multi_modal_content _) ps) = part_calls ps
part_calls (part (composite_content _) ps) = part_calls ps

abbrev pub extract_tool_calls : Option Content → List ToolCallDetail
extract_tool_calls (some (tool_call_content ds)) = ds
extract_tool_calls (some (composite_content ps)) = part_calls ps
extract_tool_calls _ = []

abbrev pub as_text : Option Value → Option String
as_text (some (text s)) = some s
as_text _ = none

-- The inner loop of ExtractToolResult at the type string: a result of the tool whose value is
-- missing or no string is passed over.
unfoldable pub result_text : String → String → List ToolCallResult → Option String
result_text tool key [] = none
result_text tool key (r ∷ rs) =
    let rest = result_text tool key rs in
    if r.tool_name =ˢ tool
    then elim (as_text (field key r.outputs)) [ some s ↦ some s | none ↦ rest ]
    else rest

unfoldable pub extract_tool_result : List Message → String → String → Option String
unfolding result_text field tool_results
extract_tool_result [] tool key = none
extract_tool_result (m ∷ ms) tool key =
    let rest = extract_tool_result ms tool key in
    elim (result_text tool key (tool_results m)) [ some s ↦ some s | none ↦ rest ]

-- `v, _ := ExtractToolResult[string](…)`
abbrev pub text_or_empty : Option String → String
text_or_empty none = ""
text_or_empty (some s) = s
