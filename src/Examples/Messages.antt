-- ===== src/Examples/Messages.antt =====
-- core/types/message.go: a message with a picture, written and read back.
use kugelblitz.Common.{none, some, [], ◌≡◌}
use kugelblitz.Constants.{RoleType}
use kugelblitz.Message.{
  Message, MultiModalDetail, Content, text_content, multi_modal_content, composite_content, end,
  part, tool_results,
}
use kugelblitz.Message.Json.{
  marshal_json, unmarshal_json, optional_without_base64, unmarshal_json-marshal_json,
}

abbrev picture : MultiModalDetail
picture = record {
  id = "p";
  type_of = "image";
  meta = [];
  path = "p.png";
  base64 = "iVBO";
  mime_type = "image/png";
}

abbrev shown : Content
shown = composite_content (part (text_content "look") (part (multi_modal_content picture) end))

abbrev question : Message
question = record {
  id = "m";
  role = RoleType.user;
  content = some shown;
  finish_reason = "";
  usage = none;
}

unmarshal_json-marshal_json_example :
    (unmarshal_json (marshal_json question)
      ≡ record question { content = optional_without_base64 question.content })
    × (tool_results (unmarshal_json (marshal_json question)) ≡ tool_results question)
unmarshal_json-marshal_json_example = unmarshal_json-marshal_json question
