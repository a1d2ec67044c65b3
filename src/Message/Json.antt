-- ===== src/Message/Json.antt =====
-- core/types/message.go: messages as JSON. A JSON text is modelled by what it decodes to, a number of
-- a map by its value; an empty list and a missing one are the same.
use kugelblitz.Common.{String, Option, none, some, List, [], ◌++◌, ◌≡◌, refl, ap, ◌∙◌}
use kugelblitz.Constants.{RoleType}
use kugelblitz.Working.Types.{Usage}
use kugelblitz.Message.{
  ToolCallDetail, ToolCallResult, MultiModalDetail, Content, text_content, reasoning_content,
  tool_call_content, tool_result_content, multi_modal_content, composite_content, Parts, end, part,
  Message, tool_results, part_results, content_results,
}

-- The discriminator `type` of a wrapper.
pub data WrapperType : Type 0 where
  text reasoning tool_call tool_result multi_modal composite unknown : WrapperType

-- contentWrapper. A part is a text that decodes to a wrapper.
mutual
  pub data ContentWrapper : Type 0 where
    wrapper :
        WrapperType
        → (text reasoning : String) → List ToolCallDetail
        → List ToolCallResult
        → Option MultiModalDetail
        → RawParts
        → ContentWrapper

  pub data RawParts : Type 0 where
    no_parts : RawParts
    raw_part : ContentWrapper → RawParts → RawParts

pub record MessageJson : Type 0 where
  pub id : String
  pub role : RoleType
  pub content : ContentWrapper
  pub finish_reason : String
  pub usage : Option Usage

-- (m MultiModalDetail) MarshalJSON
abbrev pub safe : MultiModalDetail → MultiModalDetail
safe d = record d { base64 = "" }

abbrev pub safe_detail : Option MultiModalDetail → Option MultiModalDetail
safe_detail none = none
safe_detail (some d) = some (safe d)

-- `json.Marshal` of a wrapper; its parts are texts already.
unfoldable pub encode : ContentWrapper → ContentWrapper
encode (wrapper ty t r ds rs d ps) = wrapper ty t r ds rs (safe_detail d) ps

unfoldable mutual
  unfolding encode

  pub marshal_content : Content → ContentWrapper
  marshal_content (text_content t) = wrapper text t "" [] [] none no_parts
  marshal_content (reasoning_content t) = wrapper reasoning "" t [] [] none no_parts
  marshal_content (tool_call_content ds) = wrapper tool_call "" "" ds [] none no_parts
  marshal_content (tool_result_content rs) = wrapper tool_result "" "" [] rs none no_parts
  marshal_content (multi_modal_content d) = wrapper multi_modal "" "" [] [] (some d) no_parts
  marshal_content (composite_content ps) = wrapper composite "" "" [] [] none (marshal_parts ps)

  pub marshal_parts : Parts → RawParts
  marshal_parts end = no_parts
  marshal_parts (part c ps) = raw_part (encode (marshal_content c)) (marshal_parts ps)

-- A nil content has the type "unknown".
abbrev pub marshal_optional : Option Content → ContentWrapper
marshal_optional none = wrapper unknown "" "" [] [] none no_parts
marshal_optional (some c) = marshal_content c

abbrev pub empty_detail : MultiModalDetail
empty_detail = record { id = ""; type_of = ""; path = ""; base64 = ""; mime_type = ""; meta = [] }

-- unmarshalContent. A part that decodes to nil is not a part of a model message.
unfoldable mutual
  pub unmarshal_content : ContentWrapper → Option Content
  unmarshal_content (wrapper text t r ds rs d ps) = some (text_content t)
  unmarshal_content (wrapper reasoning t r ds rs d ps) = some (reasoning_content r)
  unmarshal_content (wrapper tool_call t r ds rs d ps) = some (tool_call_content ds)
  unmarshal_content (wrapper tool_result t r ds rs d ps) = some (tool_result_content rs)
  unmarshal_content (wrapper multi_modal t r ds rs (some d) ps) = some (multi_modal_content d)
  unmarshal_content (wrapper multi_modal t r ds rs none ps) =
      some (multi_modal_content empty_detail)
  unmarshal_content (wrapper composite t r ds rs d ps) =
      some (composite_content (unmarshal_parts ps))
  unmarshal_content (wrapper unknown t r ds rs d ps) = none

  pub unmarshal_parts : RawParts → Parts
  unmarshal_parts no_parts = end
  unmarshal_parts (raw_part w ps) = elim (unmarshal_content w) [
    | none ↦ unmarshal_parts ps
    | some c ↦ part c (unmarshal_parts ps)
  ]

-- (m Message) MarshalJSON, with the call of json.Marshal at its end.
unfoldable pub marshal_json : Message → MessageJson
unfolding marshal_content encode
marshal_json m = record {
  id = m.id;
  role = m.role;
  content = encode (marshal_optional m.content);
  finish_reason = m.finish_reason;
  usage = m.usage;
}

-- (m *Message) UnmarshalJSON, from what json.Unmarshal decodes.
unfoldable pub unmarshal_json : MessageJson → Message
unfolding unmarshal_content
unmarshal_json j = record {
  id = j.id;
  role = j.role;
  content = unmarshal_content j.content;
  finish_reason = j.finish_reason;
  usage = j.usage;
}

-- The same without the data of media.
unfoldable mutual
  pub without_base64 : Content → Content
  without_base64 (text_content t) = text_content t
  without_base64 (reasoning_content t) = reasoning_content t
  without_base64 (tool_call_content ds) = tool_call_content ds
  without_base64 (tool_result_content rs) = tool_result_content rs
  without_base64 (multi_modal_content d) = multi_modal_content (safe d)
  without_base64 (composite_content ps) = composite_content (parts_without_base64 ps)

  pub parts_without_base64 : Parts → Parts
  parts_without_base64 end = end
  parts_without_base64 (part c ps) = part (without_base64 c) (parts_without_base64 ps)

mutual
  unfolding unmarshal_content unmarshal_parts marshal_content marshal_parts encode without_base64
      parts_without_base64

  unmarshal-content :
      (c : Content) → unmarshal_content (encode (marshal_content c)) ≡ some (without_base64 c)
  unmarshal-content (text_content t) = refl
  unmarshal-content (reasoning_content t) = refl
  unmarshal-content (tool_call_content ds) = refl
  unmarshal-content (tool_result_content rs) = refl
  unmarshal-content (multi_modal_content d) = refl
  unmarshal-content (composite_content ps) =
      ap (λ z. some (composite_content z)) (unmarshal-parts ps)

  unmarshal-parts : (ps : Parts) → unmarshal_parts (marshal_parts ps) ≡ parts_without_base64 ps
  unmarshal-parts end = refl
  unmarshal-parts (part c ps) =
      ap
        (λ z. elim z [
          | none ↦ unmarshal_parts (marshal_parts ps)
          | some c' ↦ part c' (unmarshal_parts (marshal_parts ps))
        ])
        (unmarshal-content c)
      ∙ ap (λ z. part (without_base64 c) z) (unmarshal-parts ps)

abbrev pub optional_without_base64 : Option Content → Option Content
optional_without_base64 none = none
optional_without_base64 (some c) = some (without_base64 c)

unmarshal-optional :
    (o : Option Content)
    → unmarshal_content (encode (marshal_optional o)) ≡ optional_without_base64 o
unfolding unmarshal_content encode
unmarshal-optional none = refl
unmarshal-optional (some c) = unmarshal-content c

part_results-without_base64 :
    (ps : Parts) → part_results (parts_without_base64 ps) ≡ part_results ps
unfolding part_results without_base64
part_results-without_base64 end = refl
part_results-without_base64 (part (text_content t) ps) = part_results-without_base64 ps
part_results-without_base64 (part (reasoning_content t) ps) = part_results-without_base64 ps
part_results-without_base64 (part (tool_call_content ds) ps) = part_results-without_base64 ps
part_results-without_base64 (part (tool_result_content rs) ps) =
    ap (λ z. rs ++ z) (part_results-without_base64 ps)
part_results-without_base64 (part (multi_modal_content d) ps) = part_results-without_base64 ps
part_results-without_base64 (part (composite_content qs) ps) = part_results-without_base64 ps

content_results-without_base64 :
    (o : Option Content) → content_results (optional_without_base64 o) ≡ content_results o
unfolding without_base64
content_results-without_base64 none = refl
content_results-without_base64 (some (text_content t)) = refl
content_results-without_base64 (some (reasoning_content t)) = refl
content_results-without_base64 (some (tool_call_content ds)) = refl
content_results-without_base64 (some (tool_result_content rs)) = refl
content_results-without_base64 (some (multi_modal_content d)) = refl
content_results-without_base64 (some (composite_content ps)) = part_results-without_base64 ps

-- A message that is written as JSON and read back is the message without the base64 data of its
-- media, at every depth of its parts; in particular it has the same tool results, in the same order.
pub unmarshal_json-marshal_json :
    (m : Message)
    → (unmarshal_json (marshal_json m) ≡ record m { content = optional_without_base64 m.content })
      × (tool_results (unmarshal_json (marshal_json m)) ≡ tool_results m)
unfolding unmarshal_json marshal_json tool_results
unmarshal_json-marshal_json m =
    let back = unmarshal-optional m.content in
    (
      ap (λ (z : Option Content). record m { content = z }) back,
      ap content_results back ∙ content_results-without_base64 m.content,
    )
