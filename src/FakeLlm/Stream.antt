-- ===== src/FakeLlm/Stream.antt =====
-- The dictionary that `build_completion` returns, and `stream_chunks`, which renders it as events.
pub mod Laws
use omashiki.Common.{
  ℕ, zero, suc, ◌+◌, Bool, true, false, Option, none, some, List, [], ◌∷◌, ◌++◌, map, if◌then◌else◌,
  Result, ok, err, ◌>>=◌,
}
use omashiki.Common.Int.{pos}
use omashiki.Common.Text.{Text, txt, text_eq}
use omashiki.Json.{
  item, Json, null, int, str, arr, obj, Items, nil, cons, Fields, end, field, dict, find, get_or,
  get_attr, truthy, py_or, Exception, key_error, index_error, type_error,
}
use omashiki.FakeLlm.Stats.{FinishReason, tool_calls, stop}
use omashiki.FakeLlm.Completion.{Completion}

-- The text of a finish reason
unfoldable pub reason_text : FinishReason → Text
reason_text tool_calls = txt "tool_calls"
reason_text stop = txt "stop"

-- `usage`
unfoldable pub encode_usage : Completion → Json
encode_usage c = obj (
    dict (
      (txt "prompt_tokens", int (pos c.prompt_tokens))
      ∷ (txt "completion_tokens", int (pos c.completion_tokens))
      ∷ (txt "total_tokens", int (pos (c.prompt_tokens + c.completion_tokens)))
      ∷ (txt "prompt_tokens_details", obj (dict ((txt "cached_tokens", int (pos 0)) ∷ [])))
      ∷ []))

-- The response; `id` and `created` are the random id and the time.
unfoldable pub encode_completion : Text → Json → Completion → Fields
unfolding reason_text encode_usage
encode_completion id created c =
    let choice = obj (
      dict (
        (txt "index", int (pos 0))
        ∷ (txt "message", c.message)
        ∷ (txt "finish_reason", str (reason_text c.finish_reason))
        ∷ [])) in
    dict (
      (txt "id", str id)
      ∷ (txt "object", str (txt "chat.completion"))
      ∷ (txt "created", created)
      ∷ (txt "model", c.model)
      ∷ (txt "choices", arr (cons choice nil))
      ∷ (txt "usage", encode_usage c)
      ∷ [])

-- `vs[0]`
unfoldable pub head_of : Json → Result Exception Json
head_of (arr (cons v vs)) = ok v
head_of (arr nil) = err index_error
head_of _ = err type_error

-- `d[k] = v` in a dictionary that is built: a key keeps its place.
unfoldable pub put : Text → Json → Fields → Fields
put k v end = field k v end
put k v (field j w fs) = if text_eq j k then field j v fs else field j w (put k v fs)

-- `{**d, **e}`
unfoldable pub merge : Fields → Fields → Fields
unfolding put
merge d end = d
merge d (field k v fs) = merge (put k v d) fs

-- `{"index": i, **call} for i, call in enumerate(calls)`
unfoldable pub indexed : ℕ → Items → Result Exception Items
unfolding merge
indexed i nil = ok nil
indexed i (cons (obj call) calls) = do
  rest ← indexed (suc i) calls
  ok (cons (obj (merge (field (txt "index") (int (pos i)) end) call)) rest)
indexed i (cons _ calls) = err type_error

-- The same of any value that is true; only a list has items that may be dictionaries.
unfoldable pub indexed_calls : Json → Result Exception Items
unfolding indexed
indexed_calls (arr calls) = indexed 0 calls
indexed_calls _ = err type_error

-- `delta`
unfoldable pub delta_of : Json → Result Exception Json
unfolding indexed_calls
delta_of message = do
  calls ← get_attr (λ e. e) message (txt "tool_calls") null
  if truthy calls
      then (do
        rows ← indexed_calls calls
        ok (obj (dict ((txt "role", str (txt "assistant")) ∷ (txt "tool_calls", arr rows) ∷ []))))
      else do
        content ← get_attr (λ e. e) message (txt "content") null
        ok (
            obj (
              dict (
                (txt "role", str (txt "assistant"))
                ∷ (txt "content", py_or content (str []))
                ∷ [])))

-- `[{"index": 0, "delta": delta, "finish_reason": reason}]`
unfoldable pub choices_of : Json → Json → Json
choices_of delta reason = arr (
    cons
      (obj (
        dict
          ((txt "index", int (pos 0)) ∷ (txt "delta", delta) ∷ (txt "finish_reason", reason) ∷ [])))
      nil)

-- `base`
unfoldable pub base_of : Json → Json → Json → List (Text × Json)
base_of id created model =
    (txt "id", id)
    ∷ (txt "object", str (txt "chat.completion.chunk"))
    ∷ (txt "created", created)
    ∷ (txt "model", model)
    ∷ []

unfoldable pub first_frame : List (Text × Json) → Json → Json
unfolding choices_of
first_frame base delta = obj (dict (base ++ (txt "choices", choices_of delta null) ∷ []))

unfoldable pub last_frame : List (Text × Json) → Json → Json → Json
unfolding choices_of
last_frame base reason usage =
    obj (dict (base ++ (txt "choices", choices_of (obj end) reason) ∷ (txt "usage", usage) ∷ []))

-- The two frames
unfoldable pub frames : Fields → Result Exception (Json × Json)
unfolding item head_of delta_of
frames response = do
  choices ← item (txt "choices") (obj response)
  choice ← head_of choices
  message ← item (txt "message") choice
  id ← item (txt "id") (obj response)
  created ← item (txt "created") (obj response)
  model ← item (txt "model") (obj response)
  delta ← delta_of message
  reason ← item (txt "finish_reason") choice
  usage ← item (txt "usage") (obj response)
  let base = base_of id created model
  ok (first_frame base delta, last_frame base reason usage)

-- `f"data: {json.dumps(frame)}\n\n"`
unfoldable pub event : (Json → Text) → Json → Text
event dumps frame = txt "data: " ++ (dumps frame ++ txt "\n\n")

-- `stream_chunks`; the texts are ASCII, so `encode` leaves their characters.
unfoldable pub stream_chunks : (Json → Text) → Fields → Result Exception (List Text)
unfolding frames event
stream_chunks dumps response = do
  (first, last) ← frames response
  ok (event dumps first ∷ event dumps last ∷ txt "data: [DONE]\n\n" ∷ [])
