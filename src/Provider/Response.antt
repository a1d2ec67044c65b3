-- ===== src/Provider/Response.antt =====
-- provider/chat_completions/converter.go: the answers of the provider, as core messages.
use kugelblitz.Common.{
  All, ◌∙◌, ℕ, String, Bool, true, false, ◌&&◌, not, Option, none, some, List, [], ◌∷◌, map, inr,
  ◌≡◌, refl, sym, ap, subst, if◌then◌else◌, is_empty, ltb, arith,
}
use kugelblitz.Constants.{RoleType}
use kugelblitz.Working.Types.{Usage}
use kugelblitz.Message.{
  Fields, ToolCallDetail, Content, text_content, reasoning_content, tool_call_content,
  multi_modal_content, composite_content, Parts, end, part, Message,
}
use kugelblitz.Provider.{
  ToolCallParam, of_assistant, optional_text, collect, convert_assistant_message,
}

-- openai.ChatCompletionMessage, and a delta of a stream, with their reasoning_content.
pub record RawToolCall : Type 0 where
  pub id : String
  pub name : String
  pub arguments : String

pub record RawMessage : Type 0 where
  pub content : String
  pub reasoning : String
  pub tool_calls : List RawToolCall
  pub audio_id : String
  pub audio_data : String

-- openai.CompletionUsage
pub record RawUsage : Type 0 where
  pub total_tokens : ℕ
  pub prompt_tokens : ℕ
  pub cached_tokens : ℕ
  pub reasoning_tokens : ℕ
  pub completion_tokens : ℕ

-- A chunk; `choice` is its first choice, with the finish reason, if it has one.
pub record RawChunk : Type 0 where
  pub choice : Option (RawMessage × String)
  pub usage : RawUsage

-- usageFromRaw; a total that is not positive is 0.
unfoldable pub usage_from_raw : RawUsage → Option Usage
usage_from_raw u =
    if ltb 0 u.total_tokens
    then some (record {
      total_tokens = u.total_tokens;
      input_tokens = u.prompt_tokens;
      cached_tokens = u.cached_tokens;
      reasoning_tokens = u.reasoning_tokens;
      output_tokens = u.completion_tokens;
    })
    else none

abbrev pub has_calls : List RawToolCall → Bool
has_calls [] = false
has_calls (c ∷ cs) = true

abbrev pub append_if : Bool → Content → Parts → Parts
append_if true c ps = part c ps
append_if false c ps = ps

abbrev pub answer_audio : RawMessage → Content
answer_audio raw = multi_modal_content (record {
  id = raw.audio_id;
  type_of = "audio";
  path = "";
  base64 = raw.audio_data;
  mime_type = "";
  meta = [];
})

-- `from_json` is utils.ConvertJSONStringToMap.
module _ (from_json : String → Fields) where
  abbrev pub call_detail : RawToolCall → ToolCallDetail
  call_detail c = record { id = c.id; tool_name = c.name; args = from_json c.arguments }

  abbrev pub with_calls : Bool → Bool → RawMessage → Content
  with_calls has_reasoning has_text raw =
      let calls = tool_call_content (map call_detail raw.tool_calls) in
      if not has_reasoning && not has_text
      then calls
      else composite_content (
          append_if has_reasoning (reasoning_content raw.reasoning)
            (append_if has_text (text_content raw.content) (part calls end)))

  -- The content that ParseResponse makes, `none` for an empty message.
  unfoldable pub parse_content : RawMessage → Option Content
  parse_content raw =
      let has_text = not (is_empty raw.content) in
      let has_reasoning = not (is_empty raw.reasoning) in
      if has_calls raw.tool_calls
      then some (with_calls has_reasoning has_text raw)
      else if has_text && has_reasoning
      then some (
          composite_content
            (part (reasoning_content raw.reasoning) (part (text_content raw.content) end)))
      else if has_text
      then some (text_content raw.content)
      else if not (is_empty raw.audio_id)
      then some (answer_audio raw)
      else if has_reasoning
      then some (reasoning_content raw.reasoning)
      else none

  abbrev pub new_assistant : String → Option Content → Message
  new_assistant id c = record {
    id = id;
    role = RoleType.assistant;
    content = c;
    finish_reason = "";
    usage = none;
  }

  -- ParseResponse; `none` is its error.
  unfoldable pub parse_response : (new_id : String) → RawMessage → Option Message
  unfolding parse_content
  parse_response new_id raw = elim (parse_content raw) [
    | none ↦ none
    | some c ↦ some (new_assistant new_id (some c))
  ]

  -- The content of a chunk. A chunk with a text or a reasoning is read without its calls.
  unfoldable pub chunk_content : RawMessage → Option Content
  chunk_content raw =
      let has_text = not (is_empty raw.content) in
      let has_reasoning = not (is_empty raw.reasoning) in
      if has_reasoning && has_text
      then some (
          composite_content
            (part (reasoning_content raw.reasoning) (part (text_content raw.content) end)))
      else if has_reasoning
      then some (reasoning_content raw.reasoning)
      else if has_text
      then some (text_content raw.content)
      else if has_calls raw.tool_calls
      then some (tool_call_content (map call_detail raw.tool_calls))
      else none

  abbrev pub is_terminal_chunk : Option Usage → String → Bool
  is_terminal_chunk (some u) reason = true
  is_terminal_chunk none reason = not (is_empty reason)

  -- ParseStreamChunk; `none` is a nil message.
  unfoldable pub parse_stream_chunk : (new_id : String) → RawChunk → Option Message
  unfolding usage_from_raw chunk_content
  parse_stream_chunk new_id raw =
      let usage = usage_from_raw raw.usage in
      elim raw.choice [
        | none ↦ elim usage [
          | none ↦ none
          | some u ↦ some (record (new_assistant new_id none) { usage = some u })
        ]
        | some (delta, reason) ↦
            let m : Option Content → Message =
              λ c. record (new_assistant new_id c) { usage = usage; finish_reason = reason } in
            elim (chunk_content delta) [
              | some c ↦ some (m (some c))
              | none ↦ if is_terminal_chunk usage reason then some (m none) else none
            ]
      ]

module _ (to_json : Fields → String) (from_json : String → Fields)
    (cut_prefix : String → String → Option String) where
  -- A call as it is sent back.
  abbrev pub resent : RawToolCall → ToolCallParam
  resent c = record { id = c.id; name = c.name; arguments = to_json (from_json c.arguments) }

  resent-details :
      (cs : List RawToolCall)
      → map
          (λ (d : ToolCallDetail). record {
            id = d.id;
            name = d.tool_name;
            arguments = to_json d.args;
          })
          (map (call_detail from_json) cs)
        ≡ map resent cs
  resent-details [] = refl
  resent-details (c ∷ cs) = ap (λ z. resent c ∷ z) (resent-details cs)

  -- The four kinds of answers with calls: with a text or without, with a reasoning or without.
  resend :
      (t r : String) (c : RawToolCall) (cs : List RawToolCall) (audio_id audio_data : String)
      → convert_assistant_message to_json cut_prefix (
          some (
            with_calls from_json (not (is_empty r)) (not (is_empty t)) (record {
              content = t;
              reasoning = r;
              tool_calls = c ∷ cs;
              audio_id = audio_id;
              audio_data = audio_data;
            })))
        ≡ inr (of_assistant (optional_text t) r (map resent (c ∷ cs)))
  unfolding convert_assistant_message collect
  resend String.[] String.[] c cs audio_id audio_data =
      ap (λ z. inr (of_assistant none String.[] z)) (resent-details (c ∷ cs))
  resend String.[] (String.◌∷◌ y r) c cs audio_id audio_data =
      ap (λ z. inr (of_assistant none (String.◌∷◌ y r) z)) (resent-details (c ∷ cs))
  resend (String.◌∷◌ x t) String.[] c cs audio_id audio_data =
      ap (λ z. inr (of_assistant (some (String.◌∷◌ x t)) String.[] z)) (resent-details (c ∷ cs))
  resend (String.◌∷◌ x t) (String.◌∷◌ y r) c cs audio_id audio_data =
      ap (λ z. inr (of_assistant (some (String.◌∷◌ x t)) (String.◌∷◌ y r) z))
        (resent-details (c ∷ cs))

  parsed-resent :
      (new_id : String) (raw : RawMessage) (c : RawToolCall) (cs : List RawToolCall)
      → raw.tool_calls ≡ c ∷ cs
      → (m : Message) × (parse_response from_json new_id raw ≡ some m)
        × (convert_assistant_message to_json cut_prefix m.content
            ≡ inr (
                of_assistant (optional_text raw.content) raw.reasoning (map resent raw.tool_calls)))
  unfolding parse_response parse_content convert_assistant_message collect
  parsed-resent new_id raw c cs e =
      let has_text = not (is_empty raw.content) in
      let has_reasoning = not (is_empty raw.reasoning) in
      let m =
        new_assistant from_json new_id (some (with_calls from_json has_reasoning has_text raw)) in
      (
        m,
        ground (arith, e),
        subst
            (λ z.
              convert_assistant_message to_json cut_prefix
                (some (with_calls from_json has_reasoning has_text (record raw { tool_calls = z })))
              ≡ inr (of_assistant (optional_text raw.content) raw.reasoning (map resent z)))
            (sym e) (resend raw.content raw.reasoning c cs raw.audio_id raw.audio_data),
      )

  -- The call with its id, its name and the text of its arguments.
  abbrev pub as_it_came : RawToolCall → ToolCallParam
  as_it_came c = record { id = c.id; name = c.name; arguments = c.arguments }

  -- The text of the arguments is what the JSON library writes for the object that it reads there.
  abbrev pub IsCanonical : RawToolCall → Type 0
  IsCanonical c = to_json (from_json c.arguments) ≡ c.arguments

  resent_same : (cs : List RawToolCall) → All IsCanonical cs → map resent cs ≡ map as_it_came cs
  resent_same [] h = refl
  resent_same (c ∷ cs) h =
      ap (λ z. record { id = c.id; name = c.name; arguments = z } ∷ map resent cs) h.0
      ∙ ap (λ z. as_it_came c ∷ z) (resent_same cs h.1)

  -- An answer with tool calls whose arguments are JSON as the JSON library writes it is read by
  -- ParseResponse, and the message that this gives is sent back with the same text, the same reasoning
  -- and the same calls in their order, each with its id, its name and the same text of arguments.
  pub parse_response-convert :
      (new_id : String) (raw : RawMessage) (c : RawToolCall) (cs : List RawToolCall)
      → raw.tool_calls ≡ c ∷ cs
      → All IsCanonical raw.tool_calls
      → (m : Message) × (parse_response from_json new_id raw ≡ some m)
        × (convert_assistant_message to_json cut_prefix m.content
            ≡ inr (
                of_assistant
                  (optional_text raw.content)
                  raw.reasoning
                  (map as_it_came raw.tool_calls)))
  parse_response-convert new_id raw c cs e canonical =
      let (m, parsed, back) = parsed-resent new_id raw c cs e in
      (
        m,
        parsed,
        back
            ∙ ap (λ z. inr (of_assistant (optional_text raw.content) raw.reasoning z))
                (resent_same raw.tool_calls canonical),
      )
