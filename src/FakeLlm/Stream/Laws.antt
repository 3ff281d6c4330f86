-- ===== src/FakeLlm/Stream/Laws.antt =====
-- The events of a stream carry the completion.
use omashiki.Common.{
  ◌≡◌, refl, sym, ap, ◌∙◌, subst, inl, inr, Bool, if◌then◌else◌, Bool-cases, Result, ok, ◌>>=◌,
  >>=-eq-ok, ok_injective,
}
use omashiki.Common.Text.{Text, txt, text_eq}
use omashiki.Json.{
  item, Json, null, str, arr, obj, Items, nil, cons, Fields, end, field, find, get_or, get_attr,
  truthy, py_or, Exception,
}
use omashiki.FakeLlm.Settings.{Settings}
use omashiki.FakeLlm.Stats.{tool_calls, stop}
use omashiki.FakeLlm.Arguments.{Error, uncaught}
use omashiki.FakeLlm.Completion.{
  Completion, list_or_empty, prior_tool_turns, wants_tool_call, tool_message, stop_text,
  stop_message, function_of, chosen, call_tool, stop_turn, scenario_tool_of, build_completion,
}
use omashiki.FakeLlm.Stream.{
  reason_text, encode_usage, encode_completion, head_of, put, merge, indexed, indexed_calls,
  delta_of, choices_of, base_of, first_frame, last_frame, frames,
}

-- A tool call without its place in the stream.
pub without_index : Fields → Fields
without_index end = end
without_index (field k v fs) =
    let rest = field k v (without_index fs) in
    if text_eq k (txt "index") then without_index fs else rest

pub plain_calls : Items → Items
plain_calls nil = nil
plain_calls (cons (obj call) calls) = cons (obj (without_index call)) (plain_calls calls)
plain_calls (cons v calls) = cons v (plain_calls calls)

-- What a message or a delta says: tool calls or a text.
pub data Said : Type 0 where
  calls : Items → Said
  text : Json → Said
  nothing : Said

pub said_by : Json → Json → Said
said_by (arr (cons call rest)) content = calls (plain_calls (cons call rest))
said_by _ content = text content

pub said : Json → Said
said (obj m) = said_by (get_or (txt "tool_calls") m null) (get_or (txt "content") m null)
said _ = nothing

-- What a client reads out of the two frames: the delta, the finish reason and the usage.
pub read_frames : Json × Json → Result Exception (Json × Json × Json)
read_frames (first, last) = do
  choices ← item (txt "choices") first
  choice ← head_of choices
  delta ← item (txt "delta") choice
  choices' ← item (txt "choices") last
  choice' ← head_of choices'
  reason ← item (txt "finish_reason") choice'
  usage ← item (txt "usage") last
  ok (delta, reason, usage)

-- The two forms of a completion's message.
pub data Answers (call_id : Text) (c : Completion) : Type 0 where
  asks :
      (name : Json) (arguments : Text)
      → c.message ≡ tool_message call_id name arguments
      → c.finish_reason ≡ tool_calls
      → Answers call_id c
  stops : c.message ≡ stop_message → c.finish_reason ≡ stop → Answers call_id c

module _ (dumps : Json → Text) (lower : Text → Text) (search : Text → Text → Result Error Bool)
    (s : Settings) (call_id : Text) where
  build_completion-Answers :
      (body : Fields) (c : Completion)
      → build_completion dumps lower search s call_id body ≡ ok c
      → Answers call_id c
  unfolding build_completion call_tool stop_turn
  build_completion-Answers body c h =
      let messages = list_or_empty (get_or (txt "messages") body null) in
      let tools = list_or_empty (get_or (txt "tools") body null) in
      let turn = prior_tool_turns messages in
      let (tool, _, h1) = >>=-eq-ok (scenario_tool_of dumps lower s tools) _ h in
      elim (Bool-cases (wants_tool_call s turn tools)) [
        | inr e ↦ subst (Answers call_id) (ok_injective (rw e at h1)) (stops refl refl)
        | inl e ↦
            let ((t, arguments), _, h2) =
              >>=-eq-ok (chosen dumps lower search s turn tools tool) _ (rw e at h1) in
            let (name, _, h3) =
              >>=-eq-ok (get_attr uncaught (function_of t) (txt "name") (str (txt "unknown"))) _
                h2 in
            subst (Answers call_id) (ok_injective h3) (asks name arguments refl refl)
      ]

-- What a client gets out of the stream of a completion.
pub record StreamCarries (id : Text) (created : Json) (c : Completion) : Type 0 where
  pub pair : Json × Json
  pub rendered : frames (encode_completion id created c) ≡ ok pair
  pub delta : Json
  pub read : read_frames pair ≡ ok (delta, str (reason_text c.finish_reason), encode_usage c)
  pub same : said delta ≡ said c.message

said_again :
    (id : Text) (created : Json) (c : Completion) (delta : Json)
    → delta_of c.message ≡ ok delta
    → said delta ≡ said c.message
    → StreamCarries id created c
unfolding frames encode_completion read_frames first_frame last_frame base_of choices_of item
    head_of find txt text_eq
said_again id created c delta e same = record {
  pair = (
    first_frame (base_of (str id) created c.model) delta,
    last_frame (base_of (str id) created c.model) (str (reason_text c.finish_reason))
        (encode_usage c),
  );
  rendered = rw e refl;
  delta = delta;
  read = refl;
  same = same;
}

delta_of_asks :
    (call_id arguments : Text) (name : Json)
    → (delta : Json) × (delta_of (tool_message call_id name arguments) ≡ ok delta)
      × (said delta ≡ said (tool_message call_id name arguments))
unfolding delta_of tool_message said said_by plain_calls without_index indexed_calls indexed merge
    put get_attr get_or find truthy txt text_eq
delta_of_asks call_id arguments name = (_, refl, refl)

delta_of_stops :
    (delta : Json) × (delta_of stop_message ≡ ok delta) × (said delta ≡ said stop_message)
unfolding delta_of stop_message stop_text said said_by py_or get_attr get_or find truthy txt text_eq
delta_of_stops = (_, refl, refl)

Answers-StreamCarries :
    (call_id id : Text) (created : Json) (c : Completion)
    → Answers call_id c
    → StreamCarries id created c
Answers-StreamCarries call_id id created c (asks name arguments m r) =
    let (delta, e, same) = delta_of_asks call_id arguments name in
    said_again id created c delta (ap delta_of m ∙ e) (same ∙ ap said (sym m))
Answers-StreamCarries call_id id created c (stops m r) =
    let (delta, e, same) = delta_of_stops in
    said_again id created c delta (ap delta_of m ∙ e) (same ∙ ap said (sym m))

-- Whatever is asked, if there is a completion its stream can be rendered, and a client that reads
-- the two frames gets the completion's tool calls or text, its finish reason and its usage.
pub build_completion-StreamCarries :
    (dumps : Json → Text) (lower : Text → Text) (search : Text → Text → Result Error Bool)
    (s : Settings) (call_id id : Text) (created : Json) (body : Fields) (c : Completion)
    → build_completion dumps lower search s call_id body ≡ ok c
    → StreamCarries id created c
build_completion-StreamCarries dumps lower search s call_id id created body c h =
    Answers-StreamCarries call_id id created c
      (build_completion-Answers dumps lower search s call_id body c h)
