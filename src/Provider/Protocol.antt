-- ===== src/Provider/Protocol.antt =====
-- provider/chat_completions/converter.go with runtime/engine/infra/react.go: what the loop sends.
use kugelblitz.Common.{
  String, false, Option, none, some, List, [], ◌∷◌, ◌++◌, map, ◌⊎◌, inl, inr, ◌≡◌, ◌≢◌, refl, sym,
  ◌∙◌, ap, subst, All, append-nil, append_assoc, false≢true, arith, List-cases,
}
use kugelblitz.Constants.{RoleType}
use kugelblitz.Message.{
  Fields, ToolCallDetail, ToolCallResult, Content, text_content, reasoning_content,
  tool_call_content, tool_result_content, multi_modal_content, composite_content, Parts, end, part,
  Message, extract_tool_calls, part_calls, tool_results, content_results,
}
use kugelblitz.React.{no_details}
use kugelblitz.React.Turns.{IsAnswer, Turns}
use kugelblitz.Provider.{
  text_content_part, ToolCallParam, PartParam, MessageParam, system_message, user_message,
  assistant_message, of_user, of_assistant, tool_message, ConvertError, Converted, on_converted,
  only_text, Collected, collect, tool_call_param, collected_message, convert_assistant_message,
  media_content_part, convert_user_content_parts, convert_user_message, tool_result_param,
  convert_tool_results, convert_one, convert_messages, optional_text,
}

-- A request that the protocol allows, while the calls with these ids wait for their results: the
-- tool messages after an assistant message answer exactly its calls, in their order.
abbrev pub IsRequest : List String → List MessageParam → Type 0
IsRequest [] [] = Unit
IsRequest (i ∷ is) [] = ⊥
IsRequest [] (system_message _ ∷ ws) = IsRequest [] ws
IsRequest [] (user_message _ ∷ ws) = IsRequest [] ws
IsRequest [] (assistant_message _ ∷ ws) = IsRequest [] ws
IsRequest [] (of_user _ ∷ ws) = IsRequest [] ws
IsRequest [] (of_assistant _ _ cs ∷ ws) = IsRequest (map (λ (c : ToolCallParam). c.id) cs) ws
IsRequest [] (tool_message _ _ ∷ ws) = ⊥
IsRequest (i ∷ is) (tool_message _ id ∷ ws) = (i ≡ id) × IsRequest is ws
IsRequest (i ∷ is) (system_message _ ∷ ws) = ⊥
IsRequest (i ∷ is) (user_message _ ∷ ws) = ⊥
IsRequest (i ∷ is) (assistant_message _ ∷ ws) = ⊥
IsRequest (i ∷ is) (of_user _ ∷ ws) = ⊥
IsRequest (i ∷ is) (of_assistant _ _ _ ∷ ws) = ⊥

error_ne : {A : Type 0} {e : ConvertError} {a : A} → ◌≢◌ {A = Converted A} (inl e) (inr a)
error_ne h = ground arith

inr_eq : {A : Type 0} {a b : A} → ◌≡◌ {A = Converted A} (inr a) (inr b) → a ≡ b
inr_eq h = cc

on_converted-inv :
    {A B : Type 0} (x : Converted A) (f : A → Converted B) (b : B)
    → on_converted x f ≡ inr b
    → (a : A) × (x ≡ inr a) × (f a ≡ inr b)
on_converted-inv (inl e) f b h = absurd (error_ne h)
on_converted-inv (inr a) f b h = (a, refl, h)

abbrev ids_of : List ToolCallDetail → List String
ids_of = map (λ (d : ToolCallDetail). d.id)

-- A system or user message.
abbrev pub IsPrompt : Message → Type 0
IsPrompt m = (m.role ≡ RoleType.system) ⊎ (m.role ≡ RoleType.user)

module _ (to_json : Fields → String) (cut_prefix : String → String → Option String) where
  params-ids :
      (ds : List ToolCallDetail)
      → map (λ (c : ToolCallParam). c.id) (map (tool_call_param to_json cut_prefix) ds) ≡ ids_of ds
  params-ids [] = refl
  params-ids (d ∷ ds) = ap (λ z. d.id ∷ z) (params-ids ds)

  results-IsRequest :
      (rs : List ToolCallResult) (ws : List MessageParam)
      → IsRequest [] ws
      → IsRequest
          (map (λ (r : ToolCallResult). r.tool_call_id) rs)
          (map (tool_result_param to_json cut_prefix) rs ++ ws)
  results-IsRequest [] ws h = h
  results-IsRequest (r ∷ rs) ws h = (refl, results-IsRequest rs ws h)

  collect-details :
      (ps : Parts) (c : Collected) → (collect ps c).details ≡ c.details ++ part_calls ps
  unfolding collect part_calls
  collect-details end c = sym (append-nil c.details)
  collect-details (part (text_content t) ps) c = collect-details ps (record c { text = t })
  collect-details (part (reasoning_content r) ps) c =
      collect-details ps (record c { reasoning = r })
  collect-details (part (tool_call_content ds) ps) c =
      collect-details ps (record c { details = c.details ++ ds })
      ∙ append_assoc c.details ds (part_calls ps)
  collect-details (part (tool_result_content _) ps) c = collect-details ps c
  collect-details (part (multi_modal_content _) ps) c = collect-details ps c
  collect-details (part (composite_content _) ps) c = collect-details ps c

  -- What is sent for a message with calls.
  abbrev Calls : List ToolCallDetail → List MessageParam → Type 0
  Calls ds ws =
      (t : Option String) × (r : String) × (cs : List ToolCallParam) × (ws
        ≡ of_assistant t r cs ∷ [])
      × (map (λ (c : ToolCallParam). c.id) cs ≡ ids_of ds)

  collected-Calls :
      (c : Collected)
      → no_details c.details ≡ false
      → Calls c.details (collected_message to_json cut_prefix c ∷ [])
  collected-Calls c h = elim (List-cases c.details) [
    | inl e ↦ absurd (false≢true (sym h ∙ ap no_details e))
    | inr (d, ds, e) ↦ (
      optional_text c.text,
      c.reasoning,
      map (tool_call_param to_json cut_prefix) (d ∷ ds),
      ground (arith, e),
      params-ids (d ∷ ds) ∙ ap ids_of (sym e),
    )
  ]

  parts-no_calls :
      (ps : Parts) (xs : List PartParam)
      → convert_user_content_parts to_json cut_prefix ps ≡ inr xs
      → part_calls ps ≡ []
  unfolding convert_user_content_parts part_calls
  parts-no_calls end xs h = refl
  parts-no_calls (part (text_content t) ps) xs h =
      let (ys, e, h') =
        on_converted-inv (convert_user_content_parts to_json cut_prefix ps)
          (λ rest. inr (text_content_part t ∷ rest)) xs h in
      parts-no_calls ps ys e
  parts-no_calls (part (multi_modal_content d) ps) xs h =
      let (p, e, h') =
        on_converted-inv (media_content_part to_json cut_prefix d)
          (λ p.
            on_converted (convert_user_content_parts to_json cut_prefix ps)
              (λ rest. inr (p ∷ rest)))
          xs h in
      let (ys, e', h'') =
        on_converted-inv (convert_user_content_parts to_json cut_prefix ps) (λ rest. inr (p ∷ rest))
          xs h' in
      parts-no_calls ps ys e'
  parts-no_calls (part (reasoning_content _) ps) xs h = absurd (error_ne h)
  parts-no_calls (part (tool_call_content _) ps) xs h = absurd (error_ne h)
  parts-no_calls (part (tool_result_content _) ps) xs h = absurd (error_ne h)
  parts-no_calls (part (composite_content _) ps) xs h = absurd (error_ne h)

  -- The messages of a user or of the system have no calls, and one message is sent for each.
  user-no_calls :
      (c : Option Content) (w : MessageParam)
      → convert_user_message to_json cut_prefix c ≡ inr w
      → extract_tool_calls c ≡ []
  unfolding convert_user_message
  user-no_calls none w h = absurd (error_ne h)
  user-no_calls (some (text_content t)) w h = refl
  user-no_calls (some (multi_modal_content d)) w h = refl
  user-no_calls (some (composite_content ps)) w h =
      let (xs, e, h') =
        on_converted-inv (convert_user_content_parts to_json cut_prefix ps) (λ xs. inr (of_user xs))
          w h in
      parts-no_calls ps xs e
  user-no_calls (some (reasoning_content _)) w h = absurd (error_ne h)
  user-no_calls (some (tool_call_content _)) w h = absurd (error_ne h)
  user-no_calls (some (tool_result_content _)) w h = absurd (error_ne h)

  system-no_calls :
      (c : Option Content) (t : String) → only_text c ≡ inr t → extract_tool_calls c ≡ []
  system-no_calls none t h = refl
  system-no_calls (some (text_content _)) t h = refl
  system-no_calls (some (multi_modal_content _)) t h = refl
  system-no_calls (some (composite_content _)) t h = absurd (error_ne h)
  system-no_calls (some (reasoning_content _)) t h = refl
  system-no_calls (some (tool_call_content _)) t h = absurd (error_ne h)
  system-no_calls (some (tool_result_content _)) t h = refl

  assistant-Calls :
      (c : Option Content) (w : MessageParam)
      → no_details (extract_tool_calls c) ≡ false
      → convert_assistant_message to_json cut_prefix c ≡ inr w
      → Calls (extract_tool_calls c) (w ∷ [])
  unfolding convert_assistant_message
  assistant-Calls none w n h = absurd (false≢true (sym n))
  assistant-Calls (some (text_content t)) w n h = absurd (false≢true (sym n))
  assistant-Calls (some (reasoning_content r)) w n h = absurd (false≢true (sym n))
  assistant-Calls (some (tool_result_content _)) w n h = absurd (error_ne h)
  assistant-Calls (some (multi_modal_content _)) w n h = absurd (error_ne h)
  assistant-Calls (some (tool_call_content ds)) w n h = (
    none,
    "",
    map (tool_call_param to_json cut_prefix) ds,
    ap (λ z. z ∷ []) (sym (inr_eq h)),
    params-ids ds,
  )
  assistant-Calls (some (composite_content ps)) w n h =
      let start : Collected = record { text = ""; reasoning = ""; details = [] } in
      let all = collect-details ps start in
      let (t, r, cs, e, is) = collected-Calls (collect ps start) (ap no_details all ∙ n) in
      (t, r, cs, ap (λ z. z ∷ []) (sym (inr_eq h)) ∙ e, is ∙ ap ids_of all)

  tool-no_calls :
      (c : Option Content) (ws : List MessageParam)
      → no_details (extract_tool_calls c) ≡ false
      → convert_tool_results to_json cut_prefix c ≡ inr ws
      → ⊥
  tool-no_calls none ws n h = error_ne h
  tool-no_calls (some (tool_result_content rs)) ws n h = false≢true (sym n)
  tool-no_calls (some (text_content _)) ws n h = error_ne h
  tool-no_calls (some (reasoning_content _)) ws n h = error_ne h
  tool-no_calls (some (tool_call_content _)) ws n h = error_ne h
  tool-no_calls (some (multi_modal_content _)) ws n h = error_ne h
  tool-no_calls (some (composite_content _)) ws n h = error_ne h

  convert_one-Calls :
      (role : RoleType) (c : Option Content) (ws : List MessageParam)
      → no_details (extract_tool_calls c) ≡ false
      → convert_one to_json cut_prefix role c ≡ inr ws
      → Calls (extract_tool_calls c) ws
  unfolding convert_one
  convert_one-Calls RoleType.tool c ws n h = absurd (tool-no_calls c ws n h)
  convert_one-Calls RoleType.system c ws n h =
      let (t, e, h') = on_converted-inv (only_text c) (λ t. inr (system_message t ∷ [])) ws h in
      absurd (false≢true (sym n ∙ ap no_details (system-no_calls c t e)))
  convert_one-Calls RoleType.user c ws n h =
      let (w, e, h') =
        on_converted-inv (convert_user_message to_json cut_prefix c) (λ m. inr (m ∷ [])) ws h in
      absurd (false≢true (sym n ∙ ap no_details (user-no_calls c w e)))
  convert_one-Calls RoleType.assistant c ws n h =
      let (w, e, h') =
        on_converted-inv (convert_assistant_message to_json cut_prefix c) (λ m. inr (m ∷ [])) ws
          h in
      subst (Calls (extract_tool_calls c)) (inr_eq h') (assistant-Calls c w n e)

  tool-results :
      (c : Option Content) (ws : List MessageParam)
      → convert_tool_results to_json cut_prefix c ≡ inr ws
      → ws ≡ map (tool_result_param to_json cut_prefix) (content_results c)
  tool-results none ws h = absurd (error_ne h)
  tool-results (some (tool_result_content rs)) ws h = sym (inr_eq h)
  tool-results (some (text_content _)) ws h = absurd (error_ne h)
  tool-results (some (reasoning_content _)) ws h = absurd (error_ne h)
  tool-results (some (tool_call_content _)) ws h = absurd (error_ne h)
  tool-results (some (multi_modal_content _)) ws h = absurd (error_ne h)
  tool-results (some (composite_content _)) ws h = absurd (error_ne h)

  -- The two messages of a turn, once both are converted.
  turn-IsRequest :
      (m t : Message) (ws1 ws2 ws3 : List MessageParam)
      → IsAnswer m t
      → convert_one to_json cut_prefix m.role m.content ≡ inr ws1
      → convert_one to_json cut_prefix t.role t.content ≡ inr ws2
      → IsRequest [] ws3
      → IsRequest [] (ws1 ++ (ws2 ++ ws3))
  unfolding convert_one tool_results
  turn-IsRequest m t ws1 ws2 ws3 x e1 e2 rest =
      let (text, r, cs, w, is) = convert_one-Calls m.role m.content ws1 x.calls e1 in
      let as_tool : convert_tool_results to_json cut_prefix t.content ≡ inr ws2 =
        subst (λ z. convert_one to_json cut_prefix z t.content ≡ inr ws2) x.role e2 in
      let sent = tool-results t.content ws2 as_tool in
      let waiting : map (λ (c : ToolCallParam). c.id) cs
          ≡ map (λ (r : ToolCallResult). r.tool_call_id) (content_results t.content) =
        is ∙ sym x.ids in
      subst (λ z. IsRequest [] (z ++ (ws2 ++ ws3))) (sym w)
        (subst (λ z. IsRequest z (ws2 ++ ws3)) (sym waiting)
          (subst
            (λ z.
              IsRequest (map (λ (r : ToolCallResult). r.tool_call_id) (content_results t.content))
                (z ++ ws3))
            (sym sent) (results-IsRequest (content_results t.content) ws3 rest)))

  cons-inv :
      (m : Message) (ms : List Message) (ws : List MessageParam)
      → convert_messages to_json cut_prefix (m ∷ ms) ≡ inr ws
      → (ws1 : List MessageParam) × (ws2 : List MessageParam) × (convert_one to_json cut_prefix
            m.role m.content
          ≡ inr ws1)
        × (convert_messages to_json cut_prefix ms ≡ inr ws2)
        × (ws ≡ ws1 ++ ws2)
  unfolding convert_messages
  cons-inv m ms ws h =
      let (ws1, e1, h1) =
        on_converted-inv (convert_one to_json cut_prefix m.role m.content)
          (λ z. on_converted (convert_messages to_json cut_prefix ms) (λ rest. inr (z ++ rest))) ws
          h in
      let (ws2, e2, h2) =
        on_converted-inv (convert_messages to_json cut_prefix ms) (λ rest. inr (ws1 ++ rest)) ws
          h1 in
      (ws1, ws2, e1, e2, sym (inr_eq h2))

  Turns-IsRequest :
      (ms : List Message) (ws : List MessageParam)
      → Turns ms
      → convert_messages to_json cut_prefix ms ≡ inr ws
      → IsRequest [] ws
  unfolding convert_messages
  Turns-IsRequest [] ws turns h = subst (IsRequest []) (inr_eq h) tt
  Turns-IsRequest (m ∷ []) ws turns h = absurd turns
  Turns-IsRequest (m ∷ t ∷ ms) ws (x, turns) h =
      let (ws1, ws', e1, h', same) = cons-inv m (t ∷ ms) ws h in
      let (ws2, ws3, e2, e3, same') = cons-inv t ms ws' h' in
      subst (IsRequest []) (sym (same ∙ ap (λ z. ws1 ++ z) same'))
        (turn-IsRequest m t ws1 ws2 ws3 x e1 e2 (Turns-IsRequest ms ws3 turns e3))

  user-IsRequest :
      (c : Option Content) (w : MessageParam) (ws : List MessageParam)
      → convert_user_message to_json cut_prefix c ≡ inr w
      → IsRequest [] ws
      → IsRequest [] (w ∷ ws)
  unfolding convert_user_message
  user-IsRequest none w ws h rest = absurd (error_ne h)
  user-IsRequest (some (text_content t)) w ws h rest =
      subst (λ z. IsRequest [] (z ∷ ws)) (inr_eq h) rest
  user-IsRequest (some (multi_modal_content d)) w ws h rest =
      let (p, e, h') =
        on_converted-inv (media_content_part to_json cut_prefix d) (λ p. inr (of_user (p ∷ []))) w
          h in
      subst (λ z. IsRequest [] (z ∷ ws)) (inr_eq h') rest
  user-IsRequest (some (composite_content ps)) w ws h rest =
      let (xs, e, h') =
        on_converted-inv (convert_user_content_parts to_json cut_prefix ps) (λ xs. inr (of_user xs))
          w h in
      subst (λ z. IsRequest [] (z ∷ ws)) (inr_eq h') rest
  user-IsRequest (some (reasoning_content _)) w ws h rest = absurd (error_ne h)
  user-IsRequest (some (tool_call_content _)) w ws h rest = absurd (error_ne h)
  user-IsRequest (some (tool_result_content _)) w ws h rest = absurd (error_ne h)

  prompt-IsRequest :
      (role : RoleType) (c : Option Content) (ws1 ws2 : List MessageParam)
      → (role ≡ RoleType.system) ⊎ (role ≡ RoleType.user)
      → convert_one to_json cut_prefix role c ≡ inr ws1
      → IsRequest [] ws2
      → IsRequest [] (ws1 ++ ws2)
  unfolding convert_one
  prompt-IsRequest role c ws1 ws2 (inl e) h rest =
      let h' = subst (λ z. convert_one to_json cut_prefix z c ≡ inr ws1) e h in
      let (t, e', h'') = on_converted-inv (only_text c) (λ t. inr (system_message t ∷ [])) ws1 h' in
      subst (λ z. IsRequest [] (z ++ ws2)) (inr_eq h'') rest
  prompt-IsRequest role c ws1 ws2 (inr e) h rest =
      let h' = subst (λ z. convert_one to_json cut_prefix z c ≡ inr ws1) e h in
      let (w, e', h'') =
        on_converted-inv (convert_user_message to_json cut_prefix c) (λ m. inr (m ∷ [])) ws1 h' in
      subst (λ z. IsRequest [] (z ++ ws2)) (inr_eq h'') (user-IsRequest c w ws2 e' rest)

  -- A request that is made of system and user messages and then of whole turns of the loop, in which
  -- each message with calls is followed by its results, is one that the protocol allows, whenever the
  -- conversion succeeds: no call is sent without its result, no result without its call, and the
  -- results come in the order of the calls, also for messages of several parts.
  pub convert_messages-IsRequest :
      (front ms : List Message) (ws : List MessageParam)
      → All IsPrompt front
      → Turns ms
      → convert_messages to_json cut_prefix (front ++ ms) ≡ inr ws
      → IsRequest [] ws
  convert_messages-IsRequest [] ms ws prompts turns h = Turns-IsRequest ms ws turns h
  convert_messages-IsRequest (m ∷ front) ms ws (p, prompts) turns h =
      let (ws1, ws2, e1, e2, same) = cons-inv m (front ++ ms) ws h in
      subst (IsRequest []) (sym same) (
        prompt-IsRequest m.role m.content ws1 ws2 p e1
          (convert_messages-IsRequest front ms ws2 prompts turns e2))
