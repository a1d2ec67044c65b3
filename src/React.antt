-- ===== src/React.antt =====
-- runtime/engine/infra/react.go: the loop of the ReAct agent.
pub mod Registry
pub mod Gate
pub mod Turns
pub mod Visible
pub mod Whitelist
use kugelblitz.Common.{
  is_in, ℕ, zero, suc, String, Bool, true, false, ◌&&◌, not, Option, none, some, List, [], ◌∷◌,
  ◌++◌, keep, ltb, if◌then◌else◌,
}
use kugelblitz.Constants.{RoleType}
use kugelblitz.Working.Types.{Usage}
use kugelblitz.Message.{
  Message, ToolCallDetail, ToolCallResult, Content, tool_result_content, extract_tool_calls, field,
  part_calls,
}
use kugelblitz.React.Registry.{
  ToolDefinition, ToolCallFunc, RegistryEntry, ToolRegistry, lookup_tool, call, definitions,
  list_definitions, is_terminating,
}

-- What the loop reads and writes of the agent. `local_tools` are the tools of humanLoop, which is
-- nil when there are none to look up; `max_steps` is 0 for a limit that is not positive.
pub record ReactAgent (W : Type 0) : Type 0 where
  pub registry : ToolRegistry W
  pub tool_names : Option (List String)
  pub visible_cache : Option (List ToolDefinition)
  pub local_tools : Option (List (String × RegistryEntry W))
  pub step_count : ℕ
  pub max_steps : ℕ

-- What the `select` at the start of a step finds.
pub data Signal : Type 0 where
  aborted proceed : Signal
  cancelled : (error : String) → Signal

-- What Generate returns.
pub data Generated : Type 0 where
  generated : Message → Generated
  ungenerated : (error : String) → Generated

-- The parts that the loop calls. A hook that is nil changes nothing.
pub record Environment (W : Type 0) : Type 0 where
  pub poll : W → Signal × W
  pub generate : List Message → List ToolDefinition → W → Generated × W
  pub on_usage_updated : Usage → W → W
  pub on_tool_call_end : ToolCallResult → W → W
  pub step_span : ℕ → List ToolCallResult → W → W
  pub on_tool_result : List ToolCallResult → ℕ → W → Bool × W
  pub generate_message_id : W → String × W

pub data LoopError : Type 0 where
  max_steps_exceeded : LoopError
  context_done : (error : String) → LoopError
  not_generated : (error : String) → LoopError

pub record Returned (W : Type 0) : Type 0 where
  pub messages : List Message
  pub error : Option LoopError
  pub agent : ReactAgent W
  pub world : W

-- NewToolMessage
abbrev pub new_tool_message : String → List ToolCallResult → Message
new_tool_message id results = record {
  id = id;
  role = RoleType.tool;
  content = some (tool_result_content results);
  finish_reason = "";
  usage = none;
}

abbrev pub is_assistant : RoleType → Bool
is_assistant RoleType.assistant = true
is_assistant RoleType.system = false
is_assistant RoleType.user = false
is_assistant RoleType.tool = false

abbrev pub no_details : List ToolCallDetail → Bool
no_details [] = true
no_details (d ∷ ds) = false

abbrev pub is_dangling : Message → Bool
is_dangling m = is_assistant m.role && not (no_details (extract_tool_calls m.content))

-- stripDanglingToolCalls
unfoldable pub strip_dangling_tool_calls : List Message → List Message
unfolding part_calls
strip_dangling_tool_calls [] = []
strip_dangling_tool_calls (m ∷ []) = if is_dangling m then [] else m ∷ []
strip_dangling_tool_calls (m ∷ n ∷ ms) = m ∷ strip_dangling_tool_calls (n ∷ ms)

unfoldable pub has_error : ToolCallResult → Bool
unfolding field
has_error r = elim (field "error" r.outputs) [ none ↦ false | some v ↦ true ]

unfoldable pub is_allowed : List String → ToolDefinition → Bool
unfolding is_in
is_allowed names d = is_in d.name names

-- How the loop goes on: with the input of the next step and the messages so far.
abbrev pub Next : Type 0 → Type 0
Next W = List Message → List Message → ReactAgent W → W → Option (Returned W)

module _ {W : Type 0} where
  unfoldable pub need_early_terminating : ToolRegistry W → List ToolCallResult → Bool
  unfolding is_terminating has_error
  need_early_terminating tr [] = false
  need_early_terminating tr (r ∷ rs) =
      let rest = need_early_terminating tr rs in
      if is_terminating r.tool_name tr && not (has_error r) then true else rest

  abbrev pub local_definitions : Option (List (String × RegistryEntry W)) → List ToolDefinition
  local_definitions none = []
  local_definitions (some es) = definitions es

  unfoldable pub all_tools : ReactAgent W → List ToolDefinition
  unfolding list_definitions
  all_tools a = list_definitions a.registry ++ local_definitions a.local_tools

  -- visibleTools, with the agent that it leaves.
  unfoldable pub visible_tools : ReactAgent W → List ToolDefinition × ReactAgent W
  unfolding keep is_allowed all_tools
  visible_tools a = elim a.tool_names [
    | none ↦ (all_tools a, a)
    | some names ↦ elim a.visible_cache [
      | some cached ↦ (cached, a)
      | none ↦
          let filtered = keep (is_allowed names) (all_tools a) in
          (filtered, record a { visible_cache = some filtered })
    ]
  ]

  -- WithTools
  unfoldable pub with_tools : List String → ReactAgent W → ReactAgent W
  with_tools [] a = record a { tool_names = none; visible_cache = none }
  with_tools (n ∷ ns) a = record a { tool_names = some (n ∷ ns); visible_cache = none }

  -- EnableHumanInTheLoop with the tools that registerLocalAskHuman finds.
  unfoldable pub enable_human_in_the_loop :
      List (String × RegistryEntry W) → ReactAgent W → ReactAgent W
  enable_human_in_the_loop es a = elim a.local_tools [
    | some old ↦ a
    | none ↦ record a { visible_cache = none; local_tools = some es }
  ]

  -- callTool, once the pause gate is open.
  unfoldable pub call_tool : ReactAgent W → ToolCallFunc W
  unfolding lookup_tool call
  call_tool a detail w = elim a.local_tools [
    | none ↦ call a.registry detail w
    | some es ↦ elim (lookup_tool detail.tool_name es) [
      | some e ↦ e.fn detail w
      | none ↦ call a.registry detail w
    ]
  ]

  unfoldable pub execute_tools :
      Environment W → ReactAgent W → List ToolCallDetail → W → List ToolCallResult × W
  unfolding call_tool
  execute_tools env a [] w = ([], w)
  execute_tools env a (d ∷ ds) w =
      let (r, w1) = call_tool a d w in
      let (rs, w2) = execute_tools env a ds (env.on_tool_call_end r w1) in (r ∷ rs, w2)

  abbrev pub returned : List Message → Option LoopError → ReactAgent W → W → Option (Returned W)
  returned ms e a w = some (record { messages = ms; error = e; agent = a; world = w })

  abbrev pub report_usage : Environment W → Option Usage → W → W
  report_usage env none w = w
  report_usage env (some u) w = env.on_usage_updated u w

  -- A step from the results of the tools on.
  unfoldable pub after_tools :
      Environment W
      → Next W
      → (input output : List Message) → Message
      → List ToolCallResult
      → ReactAgent W
      → W
      → Option (Returned W)
  unfolding need_early_terminating
  after_tools env next input output m results a w =
      let (id, w1) = env.generate_message_id (env.step_span a.step_count results w) in
      let tool_message = new_tool_message id results in
      let so_far = output ++ m ∷ tool_message ∷ [] in
      let (go_on, w2) = env.on_tool_result results a.step_count w1 in
      if not go_on
      then returned so_far none a w2
      else if need_early_terminating a.registry results
      then returned so_far none a w2
      else next (input ++ m ∷ tool_message ∷ []) so_far a w2

  -- A step from the answer of the model on.
  unfoldable pub after_generate :
      Environment W
      → Next W
      → (input output : List Message) → ReactAgent W
      → Generated × W
      → Option (Returned W)
  unfolding after_tools execute_tools part_calls
  after_generate env next input output a (ungenerated e, w) =
      returned output (some (not_generated e)) a w
  after_generate env next input output a (generated m, w) =
      let details = extract_tool_calls m.content in
      let w1 = report_usage env m.usage w in
      if no_details details
      then returned (output ++ m ∷ []) none a w1
      else let (results, w2) = execute_tools env a details w1 in
        after_tools env next input output m results a w2

  -- A step from the `select` on.
  unfoldable pub after_poll :
      Environment W
      → Next W
      → (input output : List Message) → ReactAgent W
      → Signal × W
      → Option (Returned W)
  unfolding after_generate visible_tools strip_dangling_tool_calls
  after_poll env next input output a (aborted, w) =
      returned (strip_dangling_tool_calls output) none a w
  after_poll env next input output a (cancelled e, w) =
      returned (strip_dangling_tool_calls output) (some (context_done e)) a w
  after_poll env next input output a (proceed, w) =
      let (tools, a1) = visible_tools a in
      after_generate env next input output a1 (env.generate input tools w)

  abbrev pub count_step : ReactAgent W → ReactAgent W
  count_step a = record a { step_count = suc a.step_count }

  abbrev pub is_over : ReactAgent W → Bool
  is_over a = ltb 0 a.max_steps && ltb a.max_steps a.step_count

  unfoldable pub step :
      Environment W
      → Next W
      → (input output : List Message) → ReactAgent W
      → W
      → Option (Returned W)
  unfolding after_poll strip_dangling_tool_calls
  step env next input output a w =
      let a1 = count_step a in
      if is_over a1
      then returned (strip_dangling_tool_calls output) (some max_steps_exceeded) a1 w
      else after_poll env next input output a1 (env.poll w)

  -- The `for` loop; `none` is a loop that has used up its fuel.
  unfoldable pub loop : ℕ → Environment W → Next W
  unfolding step
  loop zero env input output a w = none
  loop (suc fuel) env input output a w = step env (loop fuel env) input output a w

  abbrev pub override_tools : Option (List String) → ReactAgent W → ReactAgent W
  override_tools none a = a
  override_tools (some names) a = record a { tool_names = some names; visible_cache = none }

  -- The deferred function.
  abbrev pub restore_tools :
      Option (List String) → ReactAgent W → Option (Returned W) → Option (Returned W)
  restore_tools none a r = r
  restore_tools (some names) a none = none
  restore_tools (some names) a (some r) = some (record r {
    agent = record r.agent { tool_names = a.tool_names; visible_cache = a.visible_cache };
  })

  -- ExecuteWithTools
  unfoldable pub execute_with_tools :
      ℕ
      → Environment W
      → Message
      → List Message
      → Option (List String)
      → ReactAgent W
      → W
      → Option (Returned W)
  unfolding loop
  execute_with_tools fuel env system_message user_messages tools a w = restore_tools tools a (
      loop fuel env (system_message ∷ user_messages) []
        (record (override_tools tools a) { step_count = 0 }) w)
