-- ===== src/FakeLlm/Examples.antt =====
-- Requests to the stub: a pause, a write call, a completion and a conversation.
use omashiki.Common.{◌≡◌, ◌-◌, refl, Bool, true, false, some, [], ◌∷◌, Result, ok, arith}
use omashiki.Common.Int.{pos, ◌+ℤ◌, ◌-ℤ◌}
use omashiki.Common.Text.{Text, txt, text_eq, contains, starts_with}
use omashiki.Json.{
  Json, null, int, str, arr, obj, Items, nil, cons, Fields, end, field, find, get_or, get_attr,
  truthy, py_or, value,
}
use omashiki.FakeLlm.Settings.{generic, Settings, sleep}
use omashiki.FakeLlm.Arguments.{
  Error, first_kind, kind_of, is_kind, enum_first, by_name, named, by_kind, placeholder_for,
  as_dict, dict_or_empty, assign, first_key, required_names, schema_of, fill_with, argument, fill,
  synthesize_from, synthesize_arguments, estimate_tokens,
}
use omashiki.FakeLlm.Hello.{
  one_of, tool_name, write_names, is_write_tool, python_hello_tool, is_value, in_items,
  type_accepts, enum_accepts, const_accepts, bound_of, min_accepts, max_accepts, pattern_accepts,
  schema_accepts_string, underscored, path_names, content_names, hello_path, hello_content, has_key,
  append_name, required_list, names_to_fill, intent_value, no_fields, python_hello_field,
  intent_argument, hello_argument, hello_fields, hello_arguments, python_hello_arguments,
}
use omashiki.FakeLlm.Completion.{
  is_tool_turn, prior_tool_turns, list_or_empty, item_at, Completion, wants_tool_call, tool_message,
  stop_text, stop_message, function_of, content_tokens, prompt_tokens_of, chosen, call_tool,
  stop_turn, scenario_tool_of, build_completion,
}
use omashiki.FakeLlm.Completion.Turns.{IsUsable, converse, converse-turns}
use omashiki.FakeLlm.Stats.{empty}
use omashiki.FakeLlm.Stream.Laws.{StreamCarries, build_completion-StreamCarries}
use omashiki.FakeLlm.Http.{Conn, Request, World, do_post}
use omashiki.FakeLlm.Http.Requests.{Handled, do_post-Handled}

abbrev lower : Text → Text
lower t = t

abbrev dumps : Json → Text
dumps v = txt "{}"

abbrev search : Text → Text → Result Error Bool
search pattern t = ok true

abbrev fields : Fields
fields =
    field (txt "path") (obj (field (txt "type") (str (txt "string")) end))
      (field (txt "content") (obj (field (txt "type") (str (txt "string")) end)) end)

abbrev schema : Fields
schema = field (txt "properties") (obj fields) end

abbrev tool : Json
tool = obj (
    field (txt "function")
      (obj (field (txt "name") (str (txt "write")) (field (txt "parameters") (obj schema) end)))
      end)

abbrev tools : Items
tools = cons tool nil

abbrev body : Fields
body = field (txt "messages") (arr nil) (field (txt "tools") (arr tools) end)

abbrev setup : Settings
setup = record { lat_ms = 10; jitter_pct = 20; turns = 2; model = txt "stub"; scenario = generic }

-- A jitter of 20 per cent reaches as far below the latency as above it.
sleep_ends : (sleep setup (λ low high. low) ≡ 800) × (sleep setup (λ low high. high) ≡ 1200)
unfolding sleep ◌+ℤ◌ ◌-ℤ◌
sleep_ends = (refl, refl)

runs : Unit {0}
unfolding one_of tool_name write_names is_write_tool python_hello_tool is_value in_items
    type_accepts enum_accepts const_accepts bound_of min_accepts max_accepts pattern_accepts
    schema_accepts_string underscored path_names content_names hello_path hello_content has_key
    append_name required_list names_to_fill intent_value no_fields python_hello_field
    intent_argument hello_argument hello_fields hello_arguments python_hello_arguments txt text_eq
    contains starts_with find get_or get_attr truthy py_or first_kind kind_of is_kind enum_first
    by_name named by_kind placeholder_for as_dict dict_or_empty assign first_key required_names
    schema_of fill_with argument fill synthesize_from synthesize_arguments estimate_tokens
    is_tool_turn prior_tool_turns list_or_empty item_at wants_tool_call tool_message stop_text
    stop_message function_of content_tokens prompt_tokens_of chosen call_tool stop_turn
    scenario_tool_of build_completion
runs = tt

completed :
    (c : Completion) × (build_completion dumps lower search setup (txt "call_1") body ≡ ok c)
unfolding runs
completed = (_, refl)

abbrev answers : Json → Items
answers m = cons (obj (field (txt "role") (str (txt "tool")) end)) nil

usable : IsUsable dumps lower tool
unfolding runs
usable = record { arguments = _; made = refl; name = _; named = refl }

quiet : (m : Json) → prior_tool_turns (answers m) ≡ 0
unfolding runs
quiet m = refl

converse-turns_example :
    converse dumps lower search setup (txt "call_1") tools answers 3 nil
    ≡ some (2 - prior_tool_turns nil)
converse-turns_example =
    converse-turns dumps lower search setup (txt "call_1") tools answers refl (omega arith)
      (usable, tt) quiet 3 nil (omega arith)

build_completion-StreamCarries_example : StreamCarries (txt "chatcmpl-1") null completed.0
build_completion-StreamCarries_example =
    build_completion-StreamCarries dumps lower search setup (txt "call_1") (txt "chatcmpl-1") null
      body completed.0 completed.1

abbrev world : World
world = record {
  gone_before = λ sent. false;
  to_int = λ t. some (pos 2);
  loads = λ raw. value (obj body);
  dumps = λ v. txt "vm-e2e-marker-7";
  lower = lower;
  search = search;
  call_id = txt "call_1";
  response_id = txt "chatcmpl-1";
  created = int (pos 0);
  uptime = int (pos 0);
}

abbrev conn : Conn
conn = record { stats = empty; sent = []; close_connection = false }

abbrev ask : Request
ask = record {
  path = txt "/v1/chat/completions";
  content_length = some (txt "2");
  read = λ n. b'{' ∷ b'}' ∷ [];
}

do_post-Handled_example :
    Handled world setup ask conn (do_post world setup ask conn).0 (do_post world setup ask conn).1
do_post-Handled_example = do_post-Handled world setup ask conn
