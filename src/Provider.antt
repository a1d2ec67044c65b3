-- ===== src/Provider.antt =====
-- provider/chat_completions/converter.go: the messages of a request, from core types to the types of
-- the package openai. A call of that package is a constructor named after it.
pub mod Protocol
pub mod Response
use kugelblitz.Common.{
  String, Bool, true, false, Option, none, some, List, [], ◌∷◌, ◌++◌, map, ◌⊎◌, inl, inr, ◌=ˢ◌,
  ◌+ˢ◌, if◌then◌else◌, is_empty,
}
use kugelblitz.Constants.{RoleType}
use kugelblitz.Message.{
  Fields, ToolCallDetail, ToolCallResult, MultiModalDetail, Content, text_content,
  reasoning_content, tool_call_content, tool_result_content, multi_modal_content, composite_content,
  Parts, end, part, Message,
}

pub record ToolCallParam : Type 0 where
  pub id : String
  pub name : String
  pub arguments : String

pub data PartParam : Type 0 where
  text_content_part : String → PartParam
  image_content_part : (url detail : String) → PartParam
  input_audio_content_part : (base64 format : String) → PartParam

-- `of_assistant` is the struct with tool calls: its text, if there is one, and its reasoning_content.
pub data MessageParam : Type 0 where
  system_message user_message assistant_message : String → MessageParam
  of_user : List PartParam → MessageParam
  of_assistant : Option String → (reasoning : String) → List ToolCallParam → MessageParam
  tool_message : (content tool_call_id : String) → MessageParam

pub data ConvertError : Type 0 where
  nil_content no_text unsupported_user unsupported_media unsupported_part : ConvertError
  unsupported_assistant no_tool_result : ConvertError

abbrev pub Converted : Type 0 → Type 0
Converted A = ConvertError ⊎ A

-- An error ends the conversion.
abbrev pub on_converted : {A B : Type 0} → Converted A → (A → Converted B) → Converted B
on_converted (inl e) f = inl e
on_converted (inr a) f = f a

-- extractText
abbrev pub only_text : Option Content → Converted String
only_text none = inl nil_content
only_text (some (text_content t)) = inr t
only_text (some _) = inl no_text

-- What the parts of a composite assistant message leave in the variables of the loop: the last text,
-- the last reasoning and all calls.
pub record Collected : Type 0 where
  pub text : String
  pub reasoning : String
  pub details : List ToolCallDetail

unfoldable pub collect : Parts → Collected → Collected
collect end c = c
collect (part (text_content t) ps) c = collect ps (record c { text = t })
collect (part (reasoning_content r) ps) c = collect ps (record c { reasoning = r })
collect (part (tool_call_content ds) ps) c = collect ps (record c { details = c.details ++ ds })
collect (part (tool_result_content _) ps) c = collect ps c
collect (part (multi_modal_content _) ps) c = collect ps c
collect (part (composite_content _) ps) c = collect ps c

abbrev pub optional_text : String → Option String
optional_text t = if is_empty t then none else some t

-- audioFormat, with strings.CutPrefix as a parameter.
abbrev pub audio_format : (String → String → Option String) → String → String
audio_format cut_prefix mime = elim (cut_prefix mime "audio/") [ some after ↦ after | none ↦ "wav" ]

-- `to_json` is utils.ConvertMapToJSONString.
module _ (to_json : Fields → String) (cut_prefix : String → String → Option String) where
  abbrev pub tool_call_param : ToolCallDetail → ToolCallParam
  tool_call_param d = record { id = d.id; name = d.tool_name; arguments = to_json d.args }

  abbrev pub build_tool_call_param : List ToolCallDetail → String → MessageParam
  build_tool_call_param ds reasoning = of_assistant none reasoning (map tool_call_param ds)

  abbrev pub collected_message : Collected → MessageParam
  collected_message c = elim c.details [
    | [] ↦ assistant_message c.text
    | d ∷ ds ↦ of_assistant (optional_text c.text) c.reasoning (map tool_call_param (d ∷ ds))
  ]

  abbrev pub convert_composite_assistant : Parts → MessageParam
  unfolding collect
  convert_composite_assistant ps =
      collected_message (collect ps (record { text = ""; reasoning = ""; details = [] }))

  unfoldable pub convert_assistant_message : Option Content → Converted MessageParam
  unfolding convert_composite_assistant
  convert_assistant_message none = inr (assistant_message "")
  convert_assistant_message (some (text_content t)) = inr (assistant_message t)
  convert_assistant_message (some (reasoning_content r)) = inr (assistant_message r)
  convert_assistant_message (some (tool_call_content ds)) = inr (build_tool_call_param ds "")
  convert_assistant_message (some (composite_content ps)) = inr (convert_composite_assistant ps)
  convert_assistant_message (some (tool_result_content _)) = inl unsupported_assistant
  convert_assistant_message (some (multi_modal_content _)) = inl unsupported_assistant

  unfoldable pub media_content_part : MultiModalDetail → Converted PartParam
  media_content_part d =
      let url = "data:" +ˢ d.mime_type +ˢ ";base64," +ˢ d.base64 in
      if d.type_of =ˢ "image"
      then inr (image_content_part url "auto")
      else if d.type_of =ˢ "audio"
      then inr (input_audio_content_part d.base64 (audio_format cut_prefix d.mime_type))
      else if d.type_of =ˢ "video"
      then inr (image_content_part url "low")
      else inl unsupported_media

  unfoldable pub convert_user_content_parts : Parts → Converted (List PartParam)
  unfolding media_content_part
  convert_user_content_parts end = inr []
  convert_user_content_parts (part (text_content t) ps) =
      on_converted (convert_user_content_parts ps) (λ rest. inr (text_content_part t ∷ rest))
  convert_user_content_parts (part (multi_modal_content d) ps) =
      on_converted (media_content_part d)
        (λ p. on_converted (convert_user_content_parts ps) (λ rest. inr (p ∷ rest)))
  convert_user_content_parts (part (reasoning_content _) ps) = inl unsupported_part
  convert_user_content_parts (part (tool_call_content _) ps) = inl unsupported_part
  convert_user_content_parts (part (tool_result_content _) ps) = inl unsupported_part
  convert_user_content_parts (part (composite_content _) ps) = inl unsupported_part

  unfoldable pub convert_user_message : Option Content → Converted MessageParam
  unfolding media_content_part convert_user_content_parts
  convert_user_message (some (text_content t)) = inr (user_message t)
  convert_user_message (some (multi_modal_content d)) =
      on_converted (media_content_part d) (λ p. inr (of_user (p ∷ [])))
  convert_user_message (some (composite_content ps)) =
      on_converted (convert_user_content_parts ps) (λ parts. inr (of_user parts))
  convert_user_message none = inl unsupported_user
  convert_user_message (some (reasoning_content _)) = inl unsupported_user
  convert_user_message (some (tool_call_content _)) = inl unsupported_user
  convert_user_message (some (tool_result_content _)) = inl unsupported_user

  abbrev pub tool_result_param : ToolCallResult → MessageParam
  tool_result_param r = tool_message (to_json r.outputs) r.tool_call_id

  abbrev pub convert_tool_results : Option Content → Converted (List MessageParam)
  convert_tool_results (some (tool_result_content rs)) = inr (map tool_result_param rs)
  convert_tool_results _ = inl no_tool_result

  -- convertMessage and the case of a tool message in ConvertMessages, as the messages to append.
  unfoldable pub convert_one : RoleType → Option Content → Converted (List MessageParam)
  unfolding convert_user_message convert_assistant_message
  convert_one RoleType.tool c = convert_tool_results c
  convert_one RoleType.system c = on_converted (only_text c) (λ t. inr (system_message t ∷ []))
  convert_one RoleType.user c = on_converted (convert_user_message c) (λ m. inr (m ∷ []))
  convert_one RoleType.assistant c = on_converted (convert_assistant_message c) (λ m. inr (m ∷ []))

  unfoldable pub convert_messages : List Message → Converted (List MessageParam)
  unfolding convert_one
  convert_messages [] = inr []
  convert_messages (m ∷ ms) =
      on_converted (convert_one m.role m.content)
        (λ ws. on_converted (convert_messages ms) (λ rest. inr (ws ++ rest)))
