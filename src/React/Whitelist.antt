-- ===== src/React/Whitelist.antt =====
-- runtime/engine/infra/react.go, ExecuteWithTools: what a whitelist lets the model see in a run. The list
-- filters only the offer: call_tool does not read it.
use kugelblitz.Common.{
  is_in, ℕ, zero, suc, String, true, not, Option, none, some, List, [], ◌∷◌, ◌++◌, ◌≡◌, refl, sym,
  ap, subst, if_both, mem-keep, Memᴰ, none_ne_some, some_eq, option_split,
}
use kugelblitz.Working.Types.{Usage}
use kugelblitz.Message.{Message, ToolCallDetail, ToolCallResult, extract_tool_calls}
use kugelblitz.React.Registry.{ToolDefinition}
use kugelblitz.React.{
  ReactAgent, Signal, aborted, proceed, cancelled, Generated, generated, ungenerated, Environment,
  LoopError, max_steps_exceeded, context_done, not_generated, Returned, new_tool_message,
  no_details, strip_dangling_tool_calls, all_tools, is_allowed, visible_tools, call_tool,
  execute_tools, need_early_terminating, Next, returned, report_usage, after_tools, after_generate,
  after_poll, count_step, is_over, step, loop, override_tools, restore_tools, execute_with_tools,
}
use kugelblitz.React.Visible.{IsCached, visible_tools-Visible, uncached-IsCached}

module _ {W : Type 0} (P : W → Type 0) where
  -- Every part of the environment but the model keeps `P`.
  pub record HooksKeep (env : Environment W) : Type 0 where
    pub poll : (w : W) → P w → P (env.poll w).1
    pub on_usage_updated : (u : Usage) (w : W) → P w → P (env.on_usage_updated u w)
    pub on_tool_call_end : (r : ToolCallResult) (w : W) → P w → P (env.on_tool_call_end r w)
    pub step_span : (n : ℕ) (rs : List ToolCallResult) (w : W) → P w → P (env.step_span n rs w)
    pub on_tool_result :
        (rs : List ToolCallResult) (n : ℕ) (w : W) → P w → P (env.on_tool_result rs n w).1
    pub generate_message_id : (w : W) → P w → P (env.generate_message_id w).1

  -- The model keeps `P` if it is offered only tools whose name is on the list.
  abbrev pub GenerateKeeps : List String → Environment W → Type 0
  GenerateKeeps names env =
      (input : List Message) (tools : List ToolDefinition) (w : W)
      → ((d : ToolDefinition) → Memᴰ d tools → is_in d.name names ≡ true)
      → P w
      → P (env.generate input tools w).1

  abbrev pub ToolsKeep : ReactAgent W → Type 0
  ToolsKeep a = (d : ToolCallDetail) (w : W) → P w → P (call_tool a d w).1

  module _ (names : List String) (env : Environment W) (hooks : HooksKeep env)
      (model : GenerateKeeps names env) where
    -- What holds of the agent during the run.
    record Under (a : ReactAgent W) : Type 0 where
      named : a.tool_names ≡ some names
      cached : IsCached a
      tools : ToolsKeep a

    abbrev Fine : Option (Returned W) → Type 0
    Fine o = (r : Returned W) → o ≡ some r → P r.world

    abbrev FineNext : Next W → Type 0
    FineNext next =
        (input output : List Message) (a : ReactAgent W) (w : W)
        → Under a
        → P w
        → Fine (next input output a w)

    returned-Fine :
        (ms : List Message) (e : Option LoopError) (a : ReactAgent W) (w : W)
        → P w
        → Fine (returned ms e a w)
    returned-Fine ms e a w p r h = subst P (ap (λ (z : Returned W). z.world) (some_eq h)) p

    report_usage-keeps : (u : Option Usage) (w : W) → P w → P (report_usage env u w)
    report_usage-keeps none w p = p
    report_usage-keeps (some u) w p = hooks.on_usage_updated u w p

    execute_tools-keeps :
        (a : ReactAgent W) (ds : List ToolCallDetail) (w : W)
        → ToolsKeep a
        → P w
        → P (execute_tools env a ds w).1
    unfolding execute_tools
    execute_tools-keeps a [] w keeps p = p
    execute_tools-keeps a (d ∷ ds) w keeps p =
        let (r, w1) = call_tool a d w in
        execute_tools-keeps a ds (env.on_tool_call_end r w1) keeps
          (hooks.on_tool_call_end r w1 (keeps d w p))

    after_tools-Fine :
        (next : Next W) (input output : List Message) (m : Message) (results : List ToolCallResult)
        (a : ReactAgent W) (w : W)
        → FineNext next
        → Under a
        → P w
        → Fine (after_tools env next input output m results a w)
    unfolding after_tools
    after_tools-Fine next input output m results a w fine under p =
        let w0 = env.step_span a.step_count results w in
        let (id, w1) = env.generate_message_id w0 in
        let t = new_tool_message id results in
        let so_far = output ++ m ∷ t ∷ [] in
        let (go_on, w2) = env.on_tool_result results a.step_count w1 in
        let p1 = hooks.generate_message_id w0 (hooks.step_span a.step_count results w p) in
        let p2 = hooks.on_tool_result results a.step_count w1 p1 in
        if_both Fine (not go_on) (returned-Fine so_far none a w2 p2) (
          if_both Fine (need_early_terminating a.registry results)
            (returned-Fine so_far none a w2 p2) (fine (input ++ m ∷ t ∷ []) so_far a w2 under p2))

    after_generate-Fine :
        (next : Next W) (input output : List Message) (a : ReactAgent W) (x : Generated × W)
        → FineNext next
        → Under a
        → P x.1
        → Fine (after_generate env next input output a x)
    unfolding after_generate
    after_generate-Fine next input output a (ungenerated e, w) fine under p =
        returned-Fine output (some (not_generated e)) a w p
    after_generate-Fine next input output a (generated m, w) fine under p =
        let details = extract_tool_calls m.content in
        let w1 = report_usage env m.usage w in
        let p1 = report_usage-keeps m.usage w p in
        let (results, w2) = execute_tools env a details w1 in
        if_both Fine (no_details details) (returned-Fine (output ++ m ∷ []) none a w1 p1) (
          after_tools-Fine next input output m results a w2 fine under
            (execute_tools-keeps a details w1 under.tools p1))

    ToolsKeep-visible_tools : (a : ReactAgent W) → ToolsKeep a → ToolsKeep (visible_tools a).1
    unfolding visible_tools call_tool
    ToolsKeep-visible_tools a h =
        option_split (λ (z : List ToolDefinition × ReactAgent W). ToolsKeep z.1) a.tool_names
          (λ e. h)
          (λ ns e.
            option_split (λ (z : List ToolDefinition × ReactAgent W). ToolsKeep z.1) a.visible_cache
              (λ e'. h) (λ c e'. h))

    offered :
        (a : ReactAgent W)
        → Under a
        → (d : ToolDefinition) → Memᴰ d (visible_tools a).0
        → is_in d.name names ≡ true
    unfolding is_allowed
    offered a under d m =
        let seen = visible_tools-Visible names a under.named under.cached in
        (mem-keep (is_allowed names) (all_tools a) d (subst (λ z. Memᴰ d z) seen.tools m)).1

    visible_tools-Under : (a : ReactAgent W) → Under a → Under (visible_tools a).1
    visible_tools-Under a under =
        let seen = visible_tools-Visible names a under.named under.cached in
        record {
          named = seen.names_kept;
          cached = seen.cached;
          tools = ToolsKeep-visible_tools a under.tools;
        }

    after_poll-Fine :
        (next : Next W) (input output : List Message) (a : ReactAgent W) (x : Signal × W)
        → FineNext next
        → Under a
        → P x.1
        → Fine (after_poll env next input output a x)
    unfolding after_poll
    after_poll-Fine next input output a (aborted, w) fine under p =
        returned-Fine (strip_dangling_tool_calls output) none a w p
    after_poll-Fine next input output a (cancelled e, w) fine under p =
        returned-Fine (strip_dangling_tool_calls output) (some (context_done e)) a w p
    after_poll-Fine next input output a (proceed, w) fine under p =
        let (tools, a1) = visible_tools a in
        after_generate-Fine next input output a1 (env.generate input tools w) fine
          (visible_tools-Under a under) (model input tools w (offered a under) p)

    count_step-Under : (a : ReactAgent W) → Under a → Under (count_step a)
    unfolding call_tool all_tools
    count_step-Under a under = record {
      named = under.named;
      cached = under.cached;
      tools = under.tools;
    }

    loop-Fine : (fuel : ℕ) → FineNext (loop fuel env)
    unfolding loop step
    loop-Fine zero input output a w under p r h = absurd (none_ne_some (sym h))
    loop-Fine (suc fuel) input output a w under p r h =
        let a1 = count_step a in
        if_both Fine (is_over a1)
          (returned-Fine (strip_dangling_tool_calls output) (some max_steps_exceeded) a1 w p)
          (after_poll-Fine (loop fuel env) input output a1 (env.poll w) (loop-Fine fuel)
            (count_step-Under a under) (hooks.poll w p))
          r h

    override_tools-Under :
        (a : ReactAgent W)
        → ToolsKeep a
        → Under (record (override_tools (some names) a) { step_count = 0 })
    unfolding call_tool
    override_tools-Under a keeps = record {
      named = refl;
      cached =
          uncached-IsCached
            (record a { tool_names = some names; visible_cache = none; step_count = 0 }) refl;
      tools = keeps;
    }

    restore_tools-Fine :
        (a : ReactAgent W) (o : Option (Returned W))
        → Fine o
        → Fine (restore_tools (some names) a o)
    restore_tools-Fine a none h r e = absurd (none_ne_some (sym e))
    restore_tools-Fine a (some r') h r e =
        subst P (ap (λ (z : Returned W). z.world) (some_eq e)) (h r' refl)

    -- In a run of ExecuteWithTools with a whitelist the model is never offered a tool whose name is
    -- not on the list: what the model keeps as long as it is offered only such tools, and all tools and
    -- hooks keep, the run keeps, however long it is and whatever whitelist and cache the agent had
    -- before.
    pub execute_with_tools-keeps :
        (fuel : ℕ) (system_message : Message) (user_messages : List Message) (a : ReactAgent W)
        (w : W) (r : Returned W)
        → ToolsKeep a
        → P w
        → execute_with_tools fuel env system_message user_messages (some names) a w ≡ some r
        → P r.world
    unfolding execute_with_tools
    execute_with_tools-keeps fuel system_message user_messages a w r keeps p =
        let a0 = record (override_tools (some names) a) { step_count = 0 } in
        restore_tools-Fine a (loop fuel env (system_message ∷ user_messages) [] a0 w)
          (loop-Fine fuel (system_message ∷ user_messages) [] a0 w (override_tools-Under a keeps) p)
          r
