-- ===== src/FakeLlm/Completion.antt =====
-- `prior_tool_turns`, `build_completion` and what they decide.
pub mod Turns
use omashiki.Common.{
  ℕ, zero, suc, ◌+◌, ◌%◌, Bool, true, false, not, ◌&&◌, ◌||◌, max, Option, none, some, List, [],
  ◌∷◌, ltb, ◌==◌, if◌then◌else◌, Result, ok, err, ◌>>=◌,
}
use omashiki.Common.Int.{pos}
use omashiki.Common.Text.{Text, txt, text_eq}
use omashiki.Json.{
  Json, null, int, str, arr, obj, Items, nil, cons, Fields, end, field, get_or, get_attr, truthy,
  py_or,
}
use omashiki.FakeLlm.Settings.{Scenario, generic, python_hello, Settings}
use omashiki.FakeLlm.Stats.{FinishReason, tool_calls, stop}
use omashiki.FakeLlm.Arguments.{
  Error, uncaught, is_kind, as_dict, synthesize_arguments, estimate_tokens,
}
use omashiki.FakeLlm.Hello.{python_hello_tool, python_hello_arguments}

-- A message by the assistant that asked for tools
unfoldable pub is_tool_turn : Json → Bool
is_tool_turn (obj m) =
    is_kind (get_or (txt "role") m null) (txt "assistant")
    && truthy (get_or (txt "tool_calls") m null)
is_tool_turn _ = false

unfoldable pub prior_tool_turns : Items → ℕ
prior_tool_turns nil = 0
prior_tool_turns (cons m ms) = (if is_tool_turn m then 1 else 0) + prior_tool_turns ms

-- `v if isinstance(v, list) else []`
unfoldable pub list_or_empty : Json → Items
list_or_empty (arr vs) = vs
list_or_empty _ = nil

abbrev pub count_items : Items → ℕ
count_items nil = 0
count_items (cons v vs) = suc (count_items vs)

-- `vs[i]`, null out of range
unfoldable pub item_at : Items → ℕ → Json
item_at nil i = null
item_at (cons v vs) zero = v
item_at (cons v vs) (suc i) = item_at vs i

-- What `build_completion` returns, but for its id and its time.
pub record Completion : Type 0 where
  pub model : Json
  pub message : Json
  pub finish_reason : FinishReason
  pub prompt_tokens : ℕ
  pub completion_tokens : ℕ

-- `wants_tool_call`
unfoldable pub wants_tool_call : Settings → ℕ → Items → Bool
wants_tool_call s turn tools = elim s.scenario [
  | generic ↦ ltb turn s.turns && not (count_items tools == 0)
  | python_hello ↦ turn == 0
]

-- The message that asks for one tool; `call_id` is the random id.
unfoldable pub tool_message : Text → Json → Text → Json
tool_message call_id name arguments =
    let function = obj (field (txt "name") name (field (txt "arguments") (str arguments) end)) in
    let call = obj (
      field (txt "id") (str call_id)
        (field (txt "type") (str (txt "function")) (field (txt "function") function end))) in
    obj (
      field (txt "role") (str (txt "assistant"))
        (field (txt "content") null (field (txt "tool_calls") (arr (cons call nil)) end)))

unfoldable pub stop_text : Text
stop_text = txt "Hello world. Done."

unfoldable pub stop_message : Json
stop_message =
    obj (field (txt "role") (str (txt "assistant")) (field (txt "content") (str stop_text) end))

-- `tool.get("function", {}) if isinstance(tool, dict) else {}`
unfoldable pub function_of : Json → Json
function_of (obj t) = get_or (txt "function") t (obj end)
function_of _ = obj end

module _ (dumps : Json → Text) (lower : Text → Text) where
  -- `sum(estimate_tokens(m.get("content")) for m in messages if isinstance(m, dict))`
  unfoldable pub content_tokens : Items → ℕ
  content_tokens nil = 0
  content_tokens (cons (obj m) ms) =
      estimate_tokens dumps (get_or (txt "content") m null) + content_tokens ms
  content_tokens (cons m ms) = content_tokens ms

  unfoldable pub prompt_tokens_of : Items → Items → ℕ
  prompt_tokens_of messages nil = max (content_tokens messages) 1
  prompt_tokens_of messages (cons t ts) =
      max (content_tokens messages + estimate_tokens dumps (arr (cons t ts))) 1

  -- The tool of the turn, with the arguments of its call
  unfoldable pub chosen :
      (Text → Text → Result Error Bool)
      → Settings
      → ℕ
      → Items
      → Option Json
      → Result Error (Json × Text)
  chosen search s turn tools (some tool) = do
    arguments ← python_hello_arguments lower search dumps tool
    ok (tool, arguments)
  chosen search s turn tools none =
      let tool = item_at tools (turn % count_items tools) in
      do arguments ← synthesize_arguments lower dumps tool; ok (tool, arguments)

  -- The branch that asks for a tool
  unfoldable pub call_tool :
      (Text → Text → Result Error Bool)
      → Settings
      → Text
      → Json
      → ℕ
      → Items
      → Items
      → Option Json
      → Result Error Completion
  call_tool search s call_id model turn messages tools scenario_tool = do
    (tool, arguments) ← chosen search s turn tools scenario_tool
    name ← get_attr uncaught (function_of tool) (txt "name") (str (txt "unknown"))
    ok (record {
      model = model;
      message = tool_message call_id name arguments;
      finish_reason = tool_calls;
      prompt_tokens = prompt_tokens_of messages tools;
      completion_tokens = estimate_tokens dumps (str arguments);
    })

  -- The other branch
  unfoldable pub stop_turn : Json → Items → Items → Completion
  stop_turn model messages tools = record {
    model = model;
    message = stop_message;
    finish_reason = stop;
    prompt_tokens = prompt_tokens_of messages tools;
    completion_tokens = estimate_tokens dumps (str stop_text);
  }

  -- `python_hello_tool(tools) if settings.scenario == "python-hello" else None`
  unfoldable pub scenario_tool_of : Settings → Items → Result Error (Option Json)
  scenario_tool_of s tools = elim s.scenario [
    | generic ↦ ok none
    | python_hello ↦ do tool ← python_hello_tool lower tools; ok (some tool)
  ]

  unfoldable pub build_completion :
      (Text → Text → Result Error Bool) → Settings → Text → Fields → Result Error Completion
  build_completion search s call_id body =
      let messages = list_or_empty (get_or (txt "messages") body null) in
      let tools = list_or_empty (get_or (txt "tools") body null) in
      let model = py_or (get_or (txt "model") body null) (str s.model) in
      let turn = prior_tool_turns messages in
      do
        scenario_tool ← scenario_tool_of s tools
        if wants_tool_call s turn tools
            then call_tool search s call_id model turn messages tools scenario_tool
            else ok (stop_turn model messages tools)
