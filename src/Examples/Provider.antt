-- ===== src/Examples/Provider.antt =====
-- provider/chat_completions/converter.go: a request after one turn with two calls.
use kugelblitz.Common.{
  String, Option, none, some, List, [], ◌∷◌, ◌≡◌, inr, refl, if◌then◌else◌, ◌=ˢ◌, ◌+ˢ◌,
}
use kugelblitz.Constants.{RoleType}
use kugelblitz.Message.{
  text, Fields, ToolCallDetail, ToolCallResult, Content, text_content, tool_call_content,
  tool_result_content, composite_content, end, part, Message, part_calls, tool_results,
}
use kugelblitz.React.Turns.{Turns}
use kugelblitz.Provider.{
  MessageParam, user_message, of_assistant, tool_message, convert_messages, convert_one,
  convert_user_message, convert_assistant_message, collect,
}
use kugelblitz.Provider.Response.{RawMessage, parse_response, parse_response-convert}
use kugelblitz.Provider.Protocol.{IsRequest, convert_messages-IsRequest}

abbrev no_json : Fields → String
no_json fs = "{}"

abbrev never_cut : String → String → Option String
never_cut s p = none

abbrev of_role : RoleType → Content → Message
of_role r c = record { id = ""; role = r; content = some c; finish_reason = ""; usage = none }

abbrev asking : Message
asking = of_role RoleType.user (text_content "look it up")

abbrev calls : List ToolCallDetail
calls =
    record { id = "1"; tool_name = "find"; args = [] }
    ∷ record { id = "2"; tool_name = "read"; args = [] }
    ∷ []

abbrev calling_twice : Message
calling_twice =
    of_role RoleType.assistant
      (composite_content (part (text_content "yes") (part (tool_call_content calls) end)))

abbrev results : List ToolCallResult
results =
    record { tool_call_id = "1"; tool_name = "find"; outputs = [] }
    ∷ record { tool_call_id = "2"; tool_name = "read"; outputs = [] }
    ∷ []

abbrev replying : Message
replying = of_role RoleType.tool (tool_result_content results)

abbrev sent : List MessageParam
sent =
    user_message "look it up"
    ∷ of_assistant (some "yes") "" (
        record { id = "1"; name = "find"; arguments = "{}" }
        ∷ record { id = "2"; name = "read"; arguments = "{}" }
        ∷ [])
    ∷ tool_message "{}" "1"
    ∷ tool_message "{}" "2"
    ∷ []

one_turn : Turns (calling_twice ∷ replying ∷ [])
unfolding part_calls tool_results
one_turn = (record { calls = refl; role = refl; ids = refl }, tt)

conversion : convert_messages no_json never_cut (asking ∷ calling_twice ∷ replying ∷ []) ≡ inr sent
unfolding convert_messages convert_one convert_user_message convert_assistant_message collect
conversion = refl

convert_messages-IsRequest_example : IsRequest [] sent
convert_messages-IsRequest_example =
    convert_messages-IsRequest no_json never_cut (asking ∷ []) (calling_twice ∷ replying ∷ []) sent
      (inr refl, tt) one_turn conversion

abbrev query : String
query = "{\"q\":\"go\"}"

abbrev raw_answer : RawMessage
raw_answer = record {
  content = "yes";
  reasoning = "";
  tool_calls = record { id = "1"; name = "find"; arguments = query } ∷ [];
  audio_id = "";
  audio_data = "";
}

-- JSON as far as the answer uses it: an object with one text.
abbrev write_json : Fields → String
write_json ((k, text v) ∷ []) = "{\"" +ˢ k +ˢ "\":\"" +ˢ v +ˢ "\"}"
write_json _ = "null"

abbrev read_json : String → Fields
read_json s = if s =ˢ query then ("q", text "go") ∷ [] else []

parse_response-convert_example :
    (m : Message) × (parse_response read_json "m" raw_answer ≡ some m)
    × (convert_assistant_message write_json never_cut m.content
        ≡ inr (
            of_assistant
              (some "yes")
              ""
              (record { id = "1"; name = "find"; arguments = query } ∷ [])))
parse_response-convert_example =
    parse_response-convert write_json read_json never_cut "m" raw_answer
      (record { id = "1"; name = "find"; arguments = query }) [] refl (refl, tt)
