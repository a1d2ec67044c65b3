-- ===== src/React/Turns.antt =====
-- runtime/engine/infra/react.go: the turns of the loop, and its limit of steps.
use kugelblitz.Common.{
  ℕ, zero, suc, ◌+◌, ◌≤◌, String, true, false, not, Option, none, some, List, [], ◌∷◌, ◌++◌, map,
  ◌≡◌, ◌≢◌, ◌⊎◌, inl, inr, refl, sym, ap, arith, length, length-append, if_split, option_split,
  none_ne_some, some_eq, subst,
}
use kugelblitz.Constants.{RoleType}
use kugelblitz.Message.{Message, ToolCallDetail, ToolCallResult, extract_tool_calls, tool_results}
use kugelblitz.React.Registry.{ToolDefinition}
use kugelblitz.React.{
  ReactAgent, Signal, aborted, proceed, cancelled, Generated, generated, ungenerated, Environment,
  LoopError, max_steps_exceeded, context_done, not_generated, Returned, new_tool_message,
  no_details, is_dangling, strip_dangling_tool_calls, visible_tools, call_tool, execute_tools,
  need_early_terminating, Next, returned, report_usage, after_tools, after_generate, after_poll,
  count_step, is_over, step, loop, override_tools, restore_tools, execute_with_tools,
}

-- `t` is a tool message with one result for each call of `m`, in the order of the calls.
pub record IsAnswer (m t : Message) : Type 0 where
  pub calls : no_details (extract_tool_calls m.content) ≡ false
  pub role : t.role ≡ RoleType.tool
  pub ids :
      map (λ (r : ToolCallResult). r.tool_call_id) (tool_results t)
      ≡ map (λ (d : ToolCallDetail). d.id) (extract_tool_calls m.content)

-- Every message with calls is followed by its answer.
abbrev pub Turns : List Message → Type 0
Turns [] = Unit
Turns (m ∷ []) = ⊥
Turns (m ∷ t ∷ ms) = IsAnswer m t × Turns ms

-- Turns, with a last message without calls or without one.
abbrev pub Complete : List Message → Type 0
Complete ms =
    Turns ms
    ⊎ ((front : List Message) × (m : Message) × (ms ≡ front ++ m ∷ [])
        × (no_details (extract_tool_calls m.content) ≡ true)
        × Turns front)

Turns-append :
    (ms : List Message) (m t : Message) → Turns ms → IsAnswer m t → Turns (ms ++ m ∷ t ∷ [])
Turns-append [] m t h x = (x, tt)
Turns-append (a ∷ []) m t h x = absurd h
Turns-append (a ∷ b ∷ ms) m t (y, h) x = (y, Turns-append ms m t h x)

tool-is_dangling : (m : Message) → m.role ≡ RoleType.tool → is_dangling m ≡ false
tool-is_dangling m h = rw h refl

strip_dangling-Turns : (ms : List Message) → Turns ms → strip_dangling_tool_calls ms ≡ ms
unfolding strip_dangling_tool_calls
strip_dangling-Turns [] h = refl
strip_dangling-Turns (m ∷ []) h = absurd h
strip_dangling-Turns (m ∷ t ∷ []) (x, h) = rw (tool-is_dangling t x.role) refl
strip_dangling-Turns (m ∷ t ∷ n ∷ ms) (x, h) = ap (λ z. m ∷ t ∷ z) (strip_dangling-Turns (n ∷ ms) h)

not_generated_ne : {e : String} → some (not_generated e) ≢ some max_steps_exceeded
not_generated_ne h = ground arith

context_done_ne : {e : String} → some (context_done e) ≢ some max_steps_exceeded
context_done_ne h = ground arith

module _ {W : Type 0} where
  -- Every tool says which call it answers.
  abbrev pub Echoes : ReactAgent W → Type 0
  Echoes a = (d : ToolCallDetail) (w : W) → (call_tool a d w).0.tool_call_id ≡ d.id

  execute_tools-ids :
      (env : Environment W) (a : ReactAgent W) (ds : List ToolCallDetail) (w : W)
      → Echoes a
      → map (λ (r : ToolCallResult). r.tool_call_id) (execute_tools env a ds w).0
        ≡ map (λ (d : ToolCallDetail). d.id) ds
  unfolding execute_tools
  execute_tools-ids env a [] w h = refl
  execute_tools-ids env a (d ∷ ds) w h =
      let (r, w1) = call_tool a d w in
      rw (h d w, execute_tools-ids env a ds (env.on_tool_call_end r w1) h) refl

  -- What holds of an agent within a run with this limit, after `s` steps.
  pub record InRun (limit s : ℕ) (a : ReactAgent W) : Type 0 where
    pub steps : a.step_count ≡ s
    pub max_steps : a.max_steps ≡ limit
    pub echoes : Echoes a

  visible_tools-InRun :
      (limit s : ℕ) (a : ReactAgent W) → InRun limit s a → InRun limit s (visible_tools a).1
  unfolding visible_tools call_tool
  visible_tools-InRun limit s a h =
      option_split (λ (z : List ToolDefinition × ReactAgent W). InRun limit s z.1) a.tool_names
        (λ e. h)
        (λ names e.
          option_split (λ (z : List ToolDefinition × ReactAgent W). InRun limit s z.1)
            a.visible_cache
            (λ e'. record { steps = h.steps; max_steps = h.max_steps; echoes = h.echoes })
            (λ cached e'. h))

  count_step-InRun :
      (limit s : ℕ) (a : ReactAgent W) → InRun limit s a → InRun limit (suc s) (count_step a)
  unfolding call_tool
  count_step-InRun limit s a h = record {
    steps = ap suc h.steps;
    max_steps = h.max_steps;
    echoes = h.echoes;
  }

  -- What a run with this limit returns.
  pub record IsEnd (limit : ℕ) (r : Returned W) : Type 0 where
    pub complete : Complete r.messages
    pub bound : length r.messages ≤ limit + limit
    pub exceeded : r.error ≡ some max_steps_exceeded → length r.messages ≡ limit + limit

  abbrev pub Ends : ℕ → Option (Returned W) → Type 0
  Ends limit o = (r : Returned W) × (o ≡ some r) × IsEnd limit r

  module _ (env : Environment W) (limit : ℕ) where
    -- `next` is right after `s` steps.
    abbrev GoesOn : Next W → ℕ → Type 0
    GoesOn next s =
        (input output : List Message) (a : ReactAgent W) (w : W)
        → Turns output
        → length output ≡ s + s
        → InRun limit s a
        → Ends limit (next input output a w)

    stop :
        (output : List Message) (e : Option LoopError) (a : ReactAgent W) (w : W)
        → Complete output
        → length output ≤ limit + limit
        → (e ≡ some max_steps_exceeded → length output ≡ limit + limit)
        → Ends limit (returned output e a w)
    stop output e a w c b x = (
      record { messages = output; error = e; agent = a; world = w },
      refl,
      record { complete = c; bound = b; exceeded = x },
    )

    after_tools-Ends :
        (next : Next W) (s : ℕ) (input output : List Message) (m : Message)
        (results : List ToolCallResult) (a : ReactAgent W) (w : W)
        → GoesOn next (suc s)
        → suc s ≤ limit
        → Turns output
        → length output ≡ s + s
        → no_details (extract_tool_calls m.content) ≡ false
        → map (λ (r : ToolCallResult). r.tool_call_id) results
          ≡ map (λ (d : ToolCallDetail). d.id) (extract_tool_calls m.content)
        → InRun limit (suc s) a
        → Ends limit (after_tools env next input output m results a w)
    unfolding after_tools tool_results
    after_tools-Ends next s input output m results a w goes_on within turns len calls ids run =
        let (id, w1) = env.generate_message_id (env.step_span a.step_count results w) in
        let t = new_tool_message id results in
        let so_far = output ++ m ∷ t ∷ [] in
        let answer : IsAnswer m t = record { calls = calls; role = refl; ids = ids } in
        let turns' = Turns-append output m t turns answer in
        let len' : length so_far ≡ suc s + suc s =
          omega (arith, len, length-append output (m ∷ t ∷ [])) in
        let (go_on, w2) = env.on_tool_result results a.step_count w1 in
        if_split (Ends limit) (not go_on)
          (λ h.
            stop so_far none a w2 (inl turns') (omega (arith, len', within))
              (λ e. absurd (none_ne_some (sym e))))
          (λ h.
            if_split (Ends limit) (need_early_terminating a.registry results)
              (λ h'.
                stop so_far none a w2 (inl turns') (omega (arith, len', within))
                  (λ e. absurd (none_ne_some (sym e))))
              (λ h'. goes_on (input ++ m ∷ t ∷ []) so_far a w2 turns' len' run))

    after_generate-Ends :
        (next : Next W) (s : ℕ) (input output : List Message) (a : ReactAgent W) (x : Generated × W)
        → GoesOn next (suc s)
        → suc s ≤ limit
        → Turns output
        → length output ≡ s + s
        → InRun limit (suc s) a
        → Ends limit (after_generate env next input output a x)
    unfolding after_generate
    after_generate-Ends next s input output a (ungenerated e, w) goes_on within turns len run =
        stop output (some (not_generated e)) a w (inl turns) (omega (arith, len, within))
          (λ e'. absurd (not_generated_ne e'))
    after_generate-Ends next s input output a (generated m, w) goes_on within turns len run =
        let details = extract_tool_calls m.content in
        let w1 = report_usage env m.usage w in
        let (results, w2) = execute_tools env a details w1 in
        if_split (Ends limit) (no_details details)
          (λ h.
            stop (output ++ m ∷ []) none a w1 (inr (output, m, refl, h, turns))
              (omega (arith, len, within, length-append output (m ∷ [])))
              (λ e. absurd (none_ne_some (sym e))))
          (λ h.
            after_tools-Ends next s input output m results a w2 goes_on within turns len h
              (execute_tools-ids env a details w1 run.echoes) run)

    after_poll-Ends :
        (next : Next W) (s : ℕ) (input output : List Message) (a : ReactAgent W) (x : Signal × W)
        → GoesOn next (suc s)
        → suc s ≤ limit
        → Turns output
        → length output ≡ s + s
        → InRun limit (suc s) a
        → Ends limit (after_poll env next input output a x)
    unfolding after_poll
    after_poll-Ends next s input output a (aborted, w) goes_on within turns len run =
        rw (strip_dangling-Turns output turns) (
          stop output none a w (inl turns) (omega (arith, len, within))
            (λ e. absurd (none_ne_some (sym e))))
    after_poll-Ends next s input output a (cancelled e, w) goes_on within turns len run =
        rw (strip_dangling-Turns output turns) (
          stop output (some (context_done e)) a w (inl turns) (omega (arith, len, within))
            (λ e'. absurd (context_done_ne e')))
    after_poll-Ends next s input output a (proceed, w) goes_on within turns len run =
        let (tools, a1) = visible_tools a in
        after_generate-Ends next s input output a1 (env.generate input tools w) goes_on within turns
          len (visible_tools-InRun limit (suc s) a run)

    is_over-limit :
        (s : ℕ) (a : ReactAgent W)
        → 1 ≤ limit
        → InRun limit s a
        → (is_over a ≡ true → suc limit ≤ s) × (is_over a ≡ false → s ≤ limit)
    is_over-limit s a positive run =
        let steps = run.steps in
        let max_steps = run.max_steps in
        (
          λ h. ground (arith, h, steps, max_steps),
          λ h. ground (arith, h, steps, max_steps, positive),
        )

    loop-Ends :
        (fuel s : ℕ) → 1 ≤ limit → s ≤ limit → suc limit ≤ s + fuel → GoesOn (loop fuel env) s
    unfolding loop step
    loop-Ends zero s positive within enough input output a w turns len run =
        absurd (omega (arith, within, enough))
    loop-Ends (suc fuel) s positive within enough input output a w turns len run =
        let a1 = count_step a in
        let run1 = count_step-InRun limit s a run in
        let (over, not_over) = is_over-limit (suc s) a1 positive run1 in
        if_split (Ends limit) (is_over a1)
          (λ h.
            let full : s ≡ limit = omega (arith, over h, within) in
            rw (strip_dangling-Turns output turns) (
              stop output (some max_steps_exceeded) a1 w (inl turns) (omega (arith, len, within))
                (λ e. omega (arith, len, full))))
          (λ h.
            after_poll-Ends (loop fuel env) s input output a1 (env.poll w)
              (loop-Ends fuel (suc s) positive (not_over h) (omega (arith, enough))) (not_over h)
              turns len run1)

  restore_tools-Ends :
      (limit : ℕ) (tools : Option (List String)) (a : ReactAgent W) (o : Option (Returned W))
      → Ends limit o
      → Ends limit (restore_tools tools a o)
  restore_tools-Ends limit none a o h = h
  restore_tools-Ends limit (some names) a none (r, e, x) = absurd (none_ne_some (sym e))
  restore_tools-Ends limit (some names) a (some r') (r, e, x) =
      let x' : IsEnd limit r' = subst (IsEnd limit) (sym (some_eq e)) x in
      (
        record r' {
          agent = record r'.agent { tool_names = a.tool_names; visible_cache = a.visible_cache };
        },
        refl,
        record { complete = x'.complete; bound = x'.bound; exceeded = x'.exceeded },
      )

  start-InRun :
      (tools : Option (List String)) (a : ReactAgent W)
      → Echoes a
      → InRun a.max_steps 0 (record (override_tools tools a) { step_count = 0 })
  unfolding call_tool
  start-InRun none a h = record { steps = refl; max_steps = refl; echoes = h }
  start-InRun (some names) a h = record { steps = refl; max_steps = refl; echoes = h }

  -- ExecuteWithTools with a limit of steps returns, whatever the model, the tools, the hooks and the
  -- signals do, if every tool answers with the id of its call: one unit of fuel for each step and
  -- one more is enough. In what it returns, every message with tool calls is followed by one tool
  -- message with one result for each call, in their order, and only the last message may have no
  -- calls; there are at most two messages for each step, and exactly two if the limit is exceeded.
  pub execute_with_tools-Ends :
      (env : Environment W) (system_message : Message) (user_messages : List Message)
      (tools : Option (List String)) (a : ReactAgent W) (w : W)
      → 1 ≤ a.max_steps
      → Echoes a
      → Ends a.max_steps
          (execute_with_tools (suc a.max_steps) env system_message user_messages tools a w)
  unfolding execute_with_tools
  execute_with_tools-Ends env system_message user_messages tools a w positive echoes =
      let a0 = record (override_tools tools a) { step_count = 0 } in
      restore_tools-Ends a.max_steps tools a
        (loop (suc a.max_steps) env (system_message ∷ user_messages) [] a0 w)
        (loop-Ends env a.max_steps (suc a.max_steps) 0 positive (omega arith) (omega arith)
          (system_message ∷ user_messages) [] a0 w tt refl (start-InRun tools a echoes))
