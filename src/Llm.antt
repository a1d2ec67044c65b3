-- ===== src/Llm.antt =====
-- llm/caller.go: one call of the model and the decoding of its answer. A byte of a text that is not
-- ASCII is never a delimiter, so a text is read by characters.
pub mod Balanced
use Prim.Native.Char.{Char, code}
use kugelblitz.Common.{
  ℕ, suc, ◌-◌, String, Bool, true, false, Option, none, some, List, [], ◌∷◌, ◌==◌, ◌=ˢ◌, ◌+ˢ◌,
  if◌then◌else◌, trim_space, contains,
}
use kugelblitz.Working.Types.{Usage}
use kugelblitz.Message.{
  Fields, ToolCallDetail, Content, text_content, reasoning_content, tool_call_content,
  tool_result_content, multi_modal_content, composite_content, Parts, end, part, Message,
  extract_tool_calls, part_calls,
}

-- Where matchDelim stands: `escaped` is the character that `i++` skips.
pub data Scan : Type 0 where
  outside quoted escaped : Scan

-- What a character is to the scan.
pub data Kind : Type 0 where
  quote opening closing plain : Kind

pub data QuotedKind : Type 0 where
  backslash end_quote inner : QuotedKind

unfoldable pub kind : (opener closer : Char) → Char → Kind
kind opener closer c =
    if code c == 34
    then quote
    else if code c == code opener
    then opening
    else if code c == code closer
    then closing
    else plain

unfoldable pub quoted_kind : Char → QuotedKind
quoted_kind c = if code c == 92 then backslash else if code c == 34 then end_quote else inner

abbrev pub put_char : Char → Option String → Option String
put_char c none = none
put_char c (some s) = some (String.◌∷◌ c s)

-- matchDelim from one character on, with the text up to the match in place of its position. The depth
-- is never 0 at a closing character.
unfoldable pub match_from : (opener closer : Char) → (depth : ℕ) → Scan → String → Option String
unfolding kind quoted_kind
match_from opener closer depth scan String.[] = none
match_from opener closer depth outside (String.◌∷◌ c s) = elim (kind opener closer c) [
  | quote ↦ put_char c (match_from opener closer depth quoted s)
  | opening ↦ put_char c (match_from opener closer (suc depth) outside s)
  | closing ↦ elim (depth == 1) [
    | true ↦ some (String.◌∷◌ c String.[])
    | false ↦ put_char c (match_from opener closer (depth - 1) outside s)
  ]
  | plain ↦ put_char c (match_from opener closer depth outside s)
]
match_from opener closer depth quoted (String.◌∷◌ c s) = elim (quoted_kind c) [
  | backslash ↦ put_char c (match_from opener closer depth escaped s)
  | end_quote ↦ put_char c (match_from opener closer depth outside s)
  | inner ↦ put_char c (match_from opener closer depth quoted s)
]
match_from opener closer depth escaped (String.◌∷◌ c s) =
    put_char c (match_from opener closer depth quoted s)

-- matchDelim at the start of a text.
unfoldable pub match_delim : (opener closer : Char) → String → Option String
unfolding match_from
match_delim opener closer text = match_from opener closer 0 outside text

-- A match ends the loop of extractJSON, and without one it goes on.
abbrev pub first_of : Option String → Option String → Option String
first_of none rest = rest
first_of (some t) rest = some t

-- extractJSON
unfoldable pub extract_json : String → Option String
unfolding match_delim
extract_json String.[] = none
extract_json (String.◌∷◌ c s) =
    let text = String.◌∷◌ c s in
    let rest = extract_json s in
    if code c == 123
    then first_of (match_delim "{" "}" text) rest
    else if code c == 91
    then first_of (match_delim "[" "]" text) rest
    else rest

unfoldable pub part_texts : Parts → String
part_texts end = ""
part_texts (part (text_content t) ps) = t +ˢ part_texts ps
part_texts (part (reasoning_content _) ps) = part_texts ps
part_texts (part (tool_call_content _) ps) = part_texts ps
part_texts (part (tool_result_content _) ps) = part_texts ps
part_texts (part (multi_modal_content _) ps) = part_texts ps
part_texts (part (composite_content _) ps) = part_texts ps

abbrev pub extract_text : Option Content → String
extract_text (some (text_content t)) = t
extract_text (some (composite_content ps)) = part_texts ps
extract_text _ = ""

-- strings.ToUpper is a parameter.
unfoldable pub is_yes : (String → String) → String → Bool
unfolding trim_space contains
is_yes to_upper t = contains (to_upper (trim_space t)) "YES"

-- toolArgs, without the error's text.
unfoldable pub first_args : String → List ToolCallDetail → Option Fields
first_args name [] = none
first_args name (d ∷ ds) =
    let rest = first_args name ds in if d.tool_name =ˢ name then some d.args else rest

abbrev pub tool_args : Option Content → String → Option Fields
tool_args content name = first_args name (extract_tool_calls content)

-- The field Target of ModeJSON is what json.Unmarshal makes of a text, or nil.
pub data Request : Type 0 where
  mode_text mode_bool : Request
  mode_json : Option (String → Bool) → Request
  mode_tool_call : (tool_name : String) → Request

pub data Decoded : Type 0 where
  decoded_text : String → Decoded
  decoded_bool : Bool → Decoded
  decoded_json : String → Decoded
  decoded_args : Fields → Decoded

pub data CallError : Type 0 where
  no_target no_json bad_json no_tool_call : CallError
  transport : (error : String) → CallError

pub data Responded : Type 0 where
  ok : Decoded → Option Usage → Responded
  failed : CallError → Option Usage → Responded

abbrev pub decode_json : Option (String → Bool) → String → Option Usage → Responded
unfolding extract_json
decode_json none t u = failed no_target u
decode_json (some unmarshal) t u = elim (extract_json t) [
  | none ↦ failed no_json u
  | some raw ↦ if unmarshal raw then ok (decoded_json raw) u else failed bad_json u
]

-- Call, from the answer of the provider on.
unfoldable pub decode_response : (String → String) → Request → Message → Responded
unfolding is_yes first_args part_texts part_calls decode_json
decode_response to_upper mode_text m = ok (decoded_text (extract_text m.content)) m.usage
decode_response to_upper mode_bool m =
    ok (decoded_bool (is_yes to_upper (extract_text m.content))) m.usage
decode_response to_upper (mode_json target) m = decode_json target (extract_text m.content) m.usage
decode_response to_upper (mode_tool_call name) m = elim (tool_args m.content name) [
  | none ↦ failed no_tool_call m.usage
  | some args ↦ ok (decoded_args args) m.usage
]
