-- ===== src/Examples/React.antt =====
-- runtime/engine/infra/react.go: a run of the loop with one tool call, under a whitelist.
use kugelblitz.Common.{
  is_in, inl, inr, ◌≤◌, String, Bool, true, false, ◌||◌, none, some, List, [], ◌∷◌, ◌≡◌, ◌↔◌, refl,
  sym, arith, ◌=ˢ◌, Memᴰ, false≢true, keep, Bool-cases, text_eq_sound, ◌∙◌, ap,
}
use kugelblitz.Constants.{RoleType}
use kugelblitz.Message.{Message, text, text_content, tool_call_content}
use kugelblitz.React.Registry.{
  ToolDefinition, ToolCallFunc, ToolRegistry, empty_registry, register, list_definitions, call,
  lookup_tool, put_tool, sort_by_name, insert_sorted, is_terminating,
}
use kugelblitz.React.{
  ReactAgent, Environment, generated, proceed, visible_tools, all_tools, call_tool,
  execute_with_tools, loop, step, after_poll, after_generate, after_tools, execute_tools,
  is_allowed, strip_dangling_tool_calls, Returned, need_early_terminating, has_error,
  new_tool_message, max_steps_exceeded,
}
use kugelblitz.React.Gate.{
  pause, resume, gate_call, gate_calls, new_pause_gate, pause_all, resume_all, is_open,
  gate_calls-is_open,
}
use kugelblitz.React.Turns.{Echoes, Ends, execute_with_tools-Ends}
use kugelblitz.React.Whitelist.{HooksKeep, GenerateKeeps, ToolsKeep, execute_with_tools-keeps}

-- The world says whether the tool "rm" was ever offered.
abbrev Offered : Type 0
Offered = Bool

abbrev tool_named : String → ToolDefinition
tool_named n = record {
  name = n;
  description = n;
  json_schema = [];
  output_schema = none;
  terminating = false;
}

abbrev echo : ToolCallFunc Offered
echo d w =
    (record { tool_call_id = d.id; tool_name = d.tool_name; outputs = ("said", text d.id) ∷ [] }, w)

abbrev two_tools : ToolRegistry Offered
two_tools = register (tool_named "rm") echo (register (tool_named "echo") echo empty_registry)

abbrev agent : ReactAgent Offered
agent = record {
  registry = two_tools;
  tool_names = some ("echo" ∷ []);
  visible_cache = none;
  local_tools = none;
  step_count = 0;
  max_steps = 3;
}

abbrev asked : Message
asked = record {
  id = "q";
  role = RoleType.user;
  content = some (text_content "hello");
  finish_reason = "";
  usage = none;
}

abbrev calling : Message
calling = record {
  id = "c";
  role = RoleType.assistant;
  content = some (tool_call_content (record { id = "1"; tool_name = "echo"; args = [] } ∷ []));
  finish_reason = "";
  usage = none;
}

offers_rm : List ToolDefinition → Bool
offers_rm [] = false
offers_rm (d ∷ ds) = (d.name =ˢ "rm") || offers_rm ds

-- The model calls the tool again and again.
abbrev talk : Environment Offered
talk = record {
  poll = λ w. (proceed, w);
  generate = λ input tools w. (generated calling, offers_rm tools || w);
  on_usage_updated = λ u w. w;
  on_tool_call_end = λ r w. w;
  step_span = λ n rs w. w;
  on_tool_result = λ rs n w. (true, w);
  generate_message_id = λ w. ("t", w);
}

talk-HooksKeep : HooksKeep (λ w. w ≡ false) talk
talk-HooksKeep = record {
  poll = λ w p. p;
  on_usage_updated = λ u w p. p;
  on_tool_call_end = λ r w p. p;
  step_span = λ n rs w p. p;
  on_tool_result = λ rs n w p. p;
  generate_message_id = λ w p. p;
}

rm_not_in : is_in "rm" ("echo" ∷ []) ≡ false
unfolding is_in
rm_not_in = refl

offers_rm-is_in :
    (ds : List ToolDefinition)
    → ((d : ToolDefinition) → Memᴰ d ds → is_in d.name ("echo" ∷ []) ≡ true)
    → offers_rm ds ≡ false
unfolding offers_rm
offers_rm-is_in [] h = refl
offers_rm-is_in (d ∷ ds) h = elim (Bool-cases (d.name =ˢ "rm")) [
  | inr n ↦ rw (n, offers_rm-is_in ds (λ d' m. h d' (Memᴰ.tail m))) refl
  | inl y ↦ absurd (
      false≢true (
        sym rm_not_in
        ∙ ap (λ z. is_in z ("echo" ∷ [])) (sym (text_eq_sound d.name "rm" y))
        ∙ h d (Memᴰ.head refl)))
]

talk-GenerateKeeps : GenerateKeeps (λ w. w ≡ false) ("echo" ∷ []) talk
talk-GenerateKeeps input tools w h p = rw (offers_rm-is_in tools h, p) refl

agent-Echoes : Echoes agent
unfolding call_tool call lookup_tool register put_tool
agent-Echoes d w = ground (arith)

agent-keeps : ToolsKeep (λ w. w ≡ false) agent
unfolding call_tool call lookup_tool register put_tool
agent-keeps d w p = ground (arith, p)

execute_with_tools-Ends_example :
    Ends 3 (execute_with_tools 4 talk asked [] (some ("echo" ∷ [])) agent false)
execute_with_tools-Ends_example =
    execute_with_tools-Ends talk asked [] (some ("echo" ∷ [])) agent false (omega arith)
      agent-Echoes

-- A gate that was paused and resumed is open.
paused_once : is_open (gate_calls (pause ∷ resume ∷ []) new_pause_gate) ≡ true
unfolding gate_calls gate_call
paused_once = refl

gate_calls-is_open_example :
    (is_open (
        gate_calls (resume_all 2) (
          gate_calls
            (pause_all 2)
            (gate_calls (resume_all 1) (gate_calls (pause ∷ resume ∷ []) new_pause_gate))))
      ≡ true)
    ↔ (2 ≤ 2)
gate_calls-is_open_example = gate_calls-is_open (pause ∷ resume ∷ []) 1 2 2 paused_once

abbrev answering : Message
answering =
    new_tool_message "t"
      (record { tool_call_id = "1"; tool_name = "echo"; outputs = ("said", text "1") ∷ [] } ∷ [])

abbrev limited : Returned Offered
limited = record {
  messages = calling ∷ answering ∷ calling ∷ answering ∷ calling ∷ answering ∷ [];
  error = some max_steps_exceeded;
  agent = record agent { step_count = 4 };
  world = false;
}

limited_run : execute_with_tools 4 talk asked [] (some ("echo" ∷ [])) agent false ≡ some limited
unfolding execute_with_tools loop step after_poll after_generate after_tools execute_tools call_tool
    call lookup_tool visible_tools list_definitions sort_by_name insert_sorted keep is_allowed is_in
    strip_dangling_tool_calls need_early_terminating has_error register put_tool offers_rm
    is_terminating all_tools
limited_run = refl

execute_with_tools-keeps_example : limited.world ≡ false
execute_with_tools-keeps_example =
    execute_with_tools-keeps (λ w. w ≡ false) ("echo" ∷ []) talk talk-HooksKeep talk-GenerateKeeps 4
      asked [] agent false limited agent-keeps refl limited_run
