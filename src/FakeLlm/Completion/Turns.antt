-- ===== src/FakeLlm/Completion/Turns.antt =====
-- A whole conversation: an engine that replays the transcript gets as many tool turns as are set.
use omashiki.Common.{
  ℕ, zero, suc, ◌+◌, ◌-◌, ◌%◌, All, subst, ◌≤◌, ◌<◌, ◌≡◌, refl, ap, ◌∙◌, inl, inr, Bool, true,
  false, Option, none, some, ltb, if◌then◌else◌, Bool-cases, Result, ok, err, >>=-eq-ok,
  ok_injective, Returns, Returns-bind, Returns-if, arith,
}
use mathlib.Core.Option
use omashiki.Common.Text.{Text, txt, text_eq}
use omashiki.Json.{
  Json, str, arr, Items, nil, cons, Fields, end, field, null, get_or, get_attr, elements, truthy,
}
use omashiki.FakeLlm.Settings.{generic, Settings}
use omashiki.FakeLlm.Stats.{FinishReason, tool_calls, stop}
use omashiki.FakeLlm.Arguments.{Error, uncaught, is_kind, synthesize_arguments, estimate_tokens}
use omashiki.FakeLlm.Completion.{
  is_tool_turn, prior_tool_turns, list_or_empty, count_items, Completion, wants_tool_call,
  tool_message, stop_message, stop_text, function_of, item_at, prompt_tokens_of, call_tool,
  stop_turn, chosen, scenario_tool_of, build_completion,
}

-- The body of a request with a transcript and tools
abbrev pub body_of : Items → Items → Fields
body_of messages tools = field (txt "messages") (arr messages) (field (txt "tools") (arr tools) end)

abbrev pub append_items : Items → Items → Items
append_items nil ws = ws
append_items (cons v vs) ws = cons v (append_items vs ws)

prior_tool_turns-append :
    (vs ws : Items)
    → prior_tool_turns (append_items vs ws) ≡ prior_tool_turns vs + prior_tool_turns ws
unfolding prior_tool_turns
prior_tool_turns-append nil ws = omega arith
prior_tool_turns-append (cons v vs) ws = omega (arith, prior_tool_turns-append vs ws)

tool_message-is_tool_turn :
    (call_id : Text) (name : Json) (arguments : Text)
    → is_tool_turn (tool_message call_id name arguments) ≡ true
unfolding is_tool_turn tool_message get_or txt text_eq truthy is_kind
tool_message-is_tool_turn call_id name arguments = refl

get_messages :
    (messages tools : Items)
    → get_or (txt "messages") (body_of messages tools) Json.null ≡ arr messages
unfolding get_or txt text_eq
get_messages messages tools = refl

get_tools :
    (messages tools : Items) → get_or (txt "tools") (body_of messages tools) Json.null ≡ arr tools
unfolding get_or txt text_eq
get_tools messages tools = refl

prompt_tokens_of-pos :
    (dumps : Json → Text) (lower : Text → Text) (messages tools : Items)
    → 1 ≤ prompt_tokens_of dumps lower messages tools
unfolding prompt_tokens_of
prompt_tokens_of-pos dumps lower messages nil = omega arith
prompt_tokens_of-pos dumps lower messages (cons t ts) = omega arith

estimate_tokens-pos : (dumps : Json → Text) (t : Text) → 1 ≤ estimate_tokens dumps (str t)
unfolding estimate_tokens
estimate_tokens-pos dumps t = omega arith

stop_message-no_turn : is_tool_turn stop_message ≡ false
unfolding is_tool_turn stop_message get_or txt text_eq truthy is_kind
stop_message-no_turn = refl

-- What a completion says, given whether it asks for a tool.
pub record Says (wants : Bool) (c : Completion) : Type 0 where
  pub reason : c.finish_reason ≡ (if wants then tool_calls else stop)
  pub turn : is_tool_turn c.message ≡ wants
  pub prompt : 1 ≤ c.prompt_tokens
  pub completion : 1 ≤ c.completion_tokens

-- A tool that the generic scenario can call: its arguments can be made, and its function is a
-- dictionary.
pub record IsUsable (dumps : Json → Text) (lower : Text → Text) (tool : Json) : Type 0 where
  pub arguments : Text
  pub made : synthesize_arguments lower dumps tool ≡ ok arguments
  pub name : Json
  pub named : get_attr uncaught (function_of tool) (txt "name") (str (txt "unknown")) ≡ ok name

-- One more tool call, or the end
pub after : FinishReason → Option ℕ → Option ℕ
after stop rest = some 0
after tool_calls rest = Option.map suc rest

module _ (dumps : Json → Text) (lower : Text → Text) (search : Text → Text → Result Error Bool)
    (s : Settings) (call_id : Text) where
  call_tool-Says :
      (model : Json) (turn : ℕ) (messages tools : Items) (tool : Option Json) (c : Completion)
      → call_tool dumps lower search s call_id model turn messages tools tool ≡ ok c
      → Says true c
  unfolding call_tool
  call_tool-Says model turn messages tools tool c h =
      let ((t, arguments), _, h1) = >>=-eq-ok (chosen dumps lower search s turn tools tool) _ h in
      let (name, _, h2) =
        >>=-eq-ok (get_attr uncaught (function_of t) (txt "name") (str (txt "unknown"))) _ h1 in
      subst (Says true) (ok_injective h2) (record {
        reason = refl;
        turn = tool_message-is_tool_turn call_id name arguments;
        prompt = prompt_tokens_of-pos dumps lower messages tools;
        completion = estimate_tokens-pos dumps arguments;
      })

  stop_turn-Says :
      (model : Json) (messages tools : Items)
      → Says false (stop_turn dumps lower model messages tools)
  unfolding stop_turn
  stop_turn-Says model messages tools = record {
    reason = refl;
    turn = stop_message-no_turn;
    prompt = prompt_tokens_of-pos dumps lower messages tools;
    completion = estimate_tokens-pos dumps stop_text;
  }

  -- A completion asks for a tool exactly when the scenario wants one at this turn, which is told by
  -- the transcript alone; its token counts are at least one.
  build_completion-Says :
      (body : Fields) (c : Completion)
      → build_completion dumps lower search s call_id body ≡ ok c
      → Says
          (wants_tool_call s
            (prior_tool_turns (list_or_empty (get_or (txt "messages") body null)))
            (list_or_empty (get_or (txt "tools") body null)))
          c
  unfolding build_completion
  build_completion-Says body c h =
      let messages = list_or_empty (get_or (txt "messages") body null) in
      let tools = list_or_empty (get_or (txt "tools") body null) in
      let turn = prior_tool_turns messages in
      let (tool, _, h1) = >>=-eq-ok (scenario_tool_of dumps lower s tools) _ h in
      elim (Bool-cases (wants_tool_call s turn tools)) [
        | inl w ↦ rw w (call_tool-Says _ turn messages tools tool c (rw w at h1))
        | inr w ↦
            rw w (subst (Says false) (ok_injective (rw w at h1)) (stop_turn-Says _ messages tools))
      ]

  -- The engine: it asks with its transcript; on a stop it is done, on a tool call it asks again with
  -- the message and the tool's answers added. The result is the number of tool calls, if the fuel
  -- suffices and no request fails.
  module _ (tools : Items) (answers : Json → Items) where
    pub go_on : (Items → Option ℕ) → Items → Result Error Completion → Option ℕ
    go_on again messages (err e) = none
    go_on again messages (ok c) =
        let rest = again (append_items messages (cons c.message (answers c.message))) in
        after c.finish_reason rest

    pub converse : ℕ → Items → Option ℕ
    unfolding go_on
    converse zero messages = none
    converse (suc fuel) messages =
        go_on (converse fuel) messages
          (build_completion dumps lower search s call_id (body_of messages tools))

    Usable_at :
        (i : ℕ) (ts : Items)
        → All (IsUsable dumps lower) (elements ts)
        → i < count_items ts
        → IsUsable dumps lower (item_at ts i)
    unfolding item_at
    Usable_at i nil u h = absurd (omega arith)
    Usable_at zero (cons t ts) u h = u.0
    Usable_at (suc i) (cons t ts) u h = Usable_at i ts u.1 (omega arith)

    chosen-eq :
        (turn : ℕ) {arguments : Text}
        → synthesize_arguments lower dumps (item_at tools (turn % count_items tools)) ≡ ok arguments
        → chosen dumps lower search s turn tools none
          ≡ ok (item_at tools (turn % count_items tools), arguments)
    unfolding chosen
    chosen-eq turn e = rw e

    call_tool-Returns :
        (model : Json) (turn : ℕ) (messages : Items)
        → IsUsable dumps lower (item_at tools (turn % count_items tools))
        → Returns (call_tool dumps lower search s call_id model turn messages tools none)
    unfolding call_tool
    call_tool-Returns model turn messages u =
        Returns-bind (chosen dumps lower search s turn tools none) _ (chosen-eq turn u.made) (
          Returns-bind
            (get_attr uncaught (function_of (item_at tools (turn % count_items tools))) (txt "name")
              (str (txt "unknown")))
            _ u.named (record { result = _; returned = refl }))

    scenario_tool_of-generic : s.scenario ≡ generic → scenario_tool_of dumps lower s tools ≡ ok none
    unfolding scenario_tool_of
    scenario_tool_of-generic e = rw e

    module _ (generic_scenario : s.scenario ≡ generic) (some_tool : 0 < count_items tools)
        (usable : All (IsUsable dumps lower) (elements tools))
        (quiet : (m : Json) → prior_tool_turns (answers m) ≡ 0) where
      build_completion-Returns :
          (messages : Items)
          → Returns (build_completion dumps lower search s call_id (body_of messages tools))
      unfolding build_completion list_or_empty
      build_completion-Returns messages =
          rw (get_messages, get_tools)
            (Returns-bind (scenario_tool_of dumps lower s tools) _
              (scenario_tool_of-generic generic_scenario)
              (Returns-if (wants_tool_call s (prior_tool_turns messages) tools) _ _
                (λ _. call_tool-Returns _ (prior_tool_turns messages) messages (
                  Usable_at (prior_tool_turns messages % count_items tools) tools usable
                    (omega arith)))
                (λ _. record { result = _; returned = refl })))

      wants-generic : (turn : ℕ) → wants_tool_call s turn tools ≡ ltb turn s.turns
      unfolding wants_tool_call
      wants-generic turn = rw generic_scenario (ground arith)

      completion_of :
          (messages : Items)
          → (c : Completion) × (build_completion dumps lower search s call_id
                (body_of messages tools)
              ≡ ok c)
      completion_of messages = let r = build_completion-Returns messages in (r.result, r.returned)

      build_completion-Says_of :
          (messages : Items) (c : Completion)
          → build_completion dumps lower search s call_id (body_of messages tools) ≡ ok c
          → Says (ltb (prior_tool_turns messages) s.turns) c
      unfolding list_or_empty
      build_completion-Says_of messages c e =
          let says = build_completion-Says (body_of messages tools) c e in
          subst (λ b. Says b c) (wants-generic (prior_tool_turns messages))
            (rw (get_messages, get_tools) at says)

      next-turns :
          (messages : Items) (c : Completion)
          → prior_tool_turns (append_items messages (cons c.message (answers c.message)))
            ≡ prior_tool_turns messages + ((if is_tool_turn c.message then 1 else 0) + 0)
      unfolding prior_tool_turns
      next-turns messages c =
          prior_tool_turns-append messages (cons c.message (answers c.message))
          ∙ ap
              (λ (q : ℕ).
                prior_tool_turns messages + ((if is_tool_turn c.message then 1 else 0) + q))
              (quiet c.message)

      -- In the scenario "generic", an engine that replays its transcript gets exactly the tool calls
      -- that are set: from a transcript with k tool turns it makes `turns` - k more, and then stops,
      -- if the request has tools, each of them can be called, the answers to a call are no tool turns
      -- themselves, and the fuel is more than the turns that are left.
      pub converse-turns :
          (fuel : ℕ) (messages : Items)
          → s.turns - prior_tool_turns messages < fuel
          → converse fuel messages ≡ some (s.turns - prior_tool_turns messages)
      unfolding converse after
      converse-turns zero messages h = absurd (omega arith)
      converse-turns (suc fuel) messages h =
          let k = prior_tool_turns messages in
          let (c, returned) = completion_of messages in
          let says = build_completion-Says_of messages c returned in
          let next = append_items messages (cons c.message (answers c.message)) in
          let turns : prior_tool_turns next ≡ k + ((if is_tool_turn c.message then 1 else 0) + 0) =
            next-turns messages c in
          ap (go_on (converse fuel) messages) returned ∙ (elim (Bool-cases (ltb k s.turns)) [
            | inl more ↦
                let asks : is_tool_turn c.message ≡ true = says.turn ∙ more in
                let reason : c.finish_reason ≡ tool_calls =
                  says.reason ∙ ap (λ b. if b then tool_calls else stop) more in
                let one : prior_tool_turns next ≡ k + 1 =
                  turns ∙ ap (λ b. k + ((if b then 1 else 0) + 0)) asks ∙ omega arith in
                let rest = converse-turns fuel next (ground (arith, one)) in
                ap (λ r. after r (converse fuel next)) reason
                ∙ (ap (Option.map suc) rest ∙ ap some (ground (arith, one)))
            | inr last ↦
                let reason : c.finish_reason ≡ stop =
                  says.reason ∙ ap (λ b. if b then tool_calls else stop) last in
                ap (λ r. after r (converse fuel next)) reason ∙ ap some (ground arith)
          ])
