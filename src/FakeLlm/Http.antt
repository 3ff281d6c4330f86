-- ===== src/FakeLlm/Http.antt =====
-- The class `Handler` of the stub: `_send`, `_error`, `_read_body`, `do_GET` and `do_POST`, with
-- `Stats.snapshot`. A request runs in a state of the counters and of what has been written to the
-- client, whose end of the connection may be gone before any write.
pub mod Laws
pub mod Requests
use omashiki.Common.{
  ℕ, zero, suc, ◌*◌, Bool, true, false, not, ◌&&◌, ◌||◌, Option, none, some, List, [], ◌∷◌, ◌++◌,
  leb, ltb, ◌==◌, map, if◌then◌else◌, Result, ok, err,
}
use omashiki.Common.Int.{ℤ, pos, negsuc, ltb_ℤ}
use omashiki.Common.Text.{
  Text, txt, text_eq, starts_with, ends_with, contains, before, rstrip, or_else, is_empty,
}
use omashiki.Json.{
  Json, null, bool, int, float, str, arr, obj, Items, nil, cons, Fields, dict, get_or, Exception,
  Loaded, value, decode_error, other_error,
}
use omashiki.Json.Order.{text_leb}
use omashiki.FakeLlm.Settings.{Settings, sleep}
use omashiki.FakeLlm.Stats.{FinishReason, Stats, reset, enter, leave}
use omashiki.FakeLlm.Arguments.{Error, scenario_configuration, uncaught}
use omashiki.FakeLlm.Completion.{Completion, build_completion}
use omashiki.FakeLlm.Stream.{encode_completion, stream_chunks}

-- What is written to the client: a whole response, the head of a stream, or one of its events.
pub data Sent : Type 0 where
  response : ℕ → Json → Sent
  stream_head : Sent
  chunk : Text → Sent

-- Why a method ends early: `ScenarioConfigurationError`, `BrokenPipeError` or
-- `ConnectionResetError`, or another exception.
pub data Fault : Type 0 where
  scenario : Text → Fault
  gone : Fault
  other : Exception → Fault

pub record Conn : Type 0 where
  pub stats : Stats
  pub sent : List Sent
  pub close_connection : Bool

abbrev pub Exec : Type 0 → Type 0
Exec A = Conn → Result Fault A × Conn

abbrev continue : {A B : Type 0} → Result Fault A → (A → Exec B) → Exec B
continue (err e) f c = (err e, c)
continue (ok a) f c = f a c

infixl 5 ◌>>=◌ ◌>>◌
abbrev pub ◌>>=◌ : {A B : Type 0} → Exec A → (A → Exec B) → Exec B
◌>>=◌ m f c = continue (m c).0 f (m c).1

abbrev pub ◌>>◌ : {A B : Type 0} → Exec A → Exec B → Exec B
m >> n = m >>= λ _. n

abbrev pub lift : {A : Type 0} → Result Fault A → Exec A
lift r c = (r, c)

abbrev pub change : (Stats → Stats) → Exec (Unit {0})
change f c = (ok tt, record c { stats = f c.stats })

-- `self.close_connection = True`
abbrev pub close : Exec (Unit {0})
close c = (ok tt, record c { close_connection = true })

-- The request: `read n` is what `rfile.read(n)` returns.
pub record Request : Type 0 where
  pub path : Text
  pub content_length : Option Text
  pub read : ℤ → List ℕ

-- What the stub takes from outside. `gone_before sent` tells that the client has gone when these
-- were written; `to_int` is Python's `int` of a text, `call_id` and `response_id` the random ids,
-- `created` and `uptime` the times.
pub record World : Type 0 where
  pub gone_before : List Sent → Bool
  pub to_int : Text → Option ℤ
  pub loads : List ℕ → Loaded
  pub dumps : Json → Text
  pub lower : Text → Text
  pub search : Text → Text → Result Error Bool
  pub call_id : Text
  pub response_id : Text
  pub created : Json
  pub uptime : Json

pub max_body_bytes : ℕ
max_body_bytes = 32 * 1024 * 1024

-- [A-Za-z0-9-]
pub marker_char : ℕ → Bool
marker_char c =
    (leb b'A' c && leb c b'Z')
    || (leb b'a' c && leb c b'z')
    || (leb b'0' c && leb c b'9')
    || c == b'-'

-- The longest start of a text with such characters only
pub take_marker : Text → Text
unfolding marker_char
take_marker [] = []
take_marker (c ∷ t) = let rest = c ∷ take_marker t in if marker_char c then rest else []

abbrev pub with_first : ℕ → Option Text → Option Text
with_first a none = none
with_first a (some m) = some (a ∷ m)

-- The match that begins at the start of the text
pub marker_here : Text → Text → Option Text
unfolding take_marker
marker_here [] t = elim (take_marker t) [ [] ↦ none | c ∷ m ↦ some (c ∷ m) ]
marker_here (a ∷ p) [] = none
marker_here (a ∷ p) (b ∷ t) =
    let rest = with_first a (marker_here p t) in if a == b then rest else none

abbrev pub or_some : Option Text → Option Text → Option Text
or_some none o = o
or_some (some m) o = some m

-- `re.search(r"vm-e2e-marker-[A-Za-z0-9-]+", t)`: the first match
pub find_marker : Text → Option Text
unfolding marker_here
find_marker [] = none
find_marker (c ∷ t) = or_some (marker_here (txt "vm-e2e-marker-") (c ∷ t)) (find_marker t)

-- `sorted` of texts
pub insert_text : Text → List Text → List Text
insert_text t [] = t ∷ []
insert_text t (u ∷ us) =
    let rest = u ∷ insert_text t us in if text_leb t u then t ∷ u ∷ us else rest

pub sort_texts : List Text → List Text
unfolding insert_text
sort_texts [] = []
sort_texts (t ∷ ts) = insert_text t (sort_texts ts)

abbrev pub text_items : List Text → Items
text_items [] = nil
text_items (t ∷ ts) = cons (str t) (text_items ts)

-- `Stats.snapshot`
pub snapshot : Json → Stats → List (Text × Json)
unfolding sort_texts
snapshot uptime s =
    (txt "requests", int (pos s.total))
    ∷ (txt "completions", int (pos s.completions))
    ∷ (txt "tool_call_turns", int (pos s.tool_call_turns))
    ∷ (txt "stops", int (pos s.stops))
    ∷ (txt "in_flight", int s.in_flight)
    ∷ (txt "peak_in_flight", int s.peak_in_flight)
    ∷ (txt "job_markers", arr (text_items (sort_texts s.job_markers)))
    ∷ (txt "job_marker_peak", int (pos s.job_marker_peak))
    ∷ (txt "uptime_s", uptime)
    ∷ []

-- `_is_completions`
pub is_completions : Text → Bool
is_completions path =
    ends_with (txt "chat/completions") (rstrip (λ c. c == b'/') (before b'?' path))

pub from_error : {A : Type 0} → Result Error A → Result Fault A
from_error (ok a) = ok a
from_error (err (scenario_configuration m)) = err (scenario m)
from_error (err (uncaught e)) = err (other e)

pub from_exception : {A : Type 0} → Result Exception A → Result Fault A
from_exception (ok a) = ok a
from_exception (err e) = err (other e)

-- The dictionary of an `_error`
abbrev pub error_body : Text → Text → Json
error_body message kind = obj (
    dict
      ((txt "error", obj (dict ((txt "message", str message) ∷ (txt "type", str kind) ∷ []))) ∷ []))

module _ (w : World) (set : Settings) where
  -- One write to the client
  pub write : Sent → Exec (Unit {0})
  write x c =
      if w.gone_before c.sent then (err gone, c) else (ok tt, record c { sent = c.sent ++ x ∷ [] })

  -- `_send`
  pub send : ℕ → Json → Exec (Unit {0})
  unfolding write
  send status payload = write (response status payload)

  -- `_error`
  pub error : ℕ → Text → Text → Exec (Unit {0})
  unfolding send
  error status message kind = send status (error_body message kind)

  -- An `_error` of `_read_body`, and then None
  pub refuse : ℕ → Text → Exec (Option Fields)
  refuse status message = do error status message (txt "invalid_request_error"); lift (ok none)

  -- `int(self.headers.get("Content-Length") or 0)`; none is a `ValueError`.
  pub length_of : Option Text → Option ℤ
  length_of none = some (pos 0)
  length_of (some t) = if is_empty t then some (pos 0) else w.to_int t

  -- `rfile.read(length) if length else b"{}"`
  pub raw_of : Request → ℤ → List ℕ
  raw_of req (pos zero) = b'{' ∷ b'}' ∷ []
  raw_of req n = req.read n

  -- `raw or b"{}"`
  pub or_braces : List ℕ → List ℕ
  or_braces [] = b'{' ∷ b'}' ∷ []
  or_braces (c ∷ t) = c ∷ t

  -- The end of `_read_body`, once the body is decoded
  pub body_of : Loaded → Exec (Option Fields)
  unfolding refuse
  body_of decode_error = refuse 400 (txt "request body is not valid JSON")
  body_of (other_error e) = lift (err (other e))
  body_of (value (obj fs)) = lift (ok (some fs))
  body_of (value v) = refuse 400 (txt "request body must be an object")

  -- `_read_body` once the length is read
  pub read_sized : Request → Option ℤ → Exec (Option Fields)
  unfolding refuse
  read_sized req none = refuse 400 (txt "invalid Content-Length")
  read_sized req (some n) =
      if ltb_ℤ (pos max_body_bytes) n
      then refuse 413 (txt "request body too large")
      else body_of (w.loads (or_braces (raw_of req n)))

  -- `_read_body`
  pub read_body : Request → Exec (Option Fields)
  read_body req = read_sized req (length_of req.content_length)

  -- `for chunk in stream_chunks(response): self.wfile.write(chunk)`
  pub write_chunks : List Text → Exec (Unit {0})
  write_chunks [] = lift (ok tt)
  write_chunks (t ∷ ts) = do write (chunk t); write_chunks ts

  -- `body.get("stream") is True`
  pub is_true : Json → Bool
  is_true (bool b) = b
  is_true _ = false

  -- What follows `build_completion` in the `try`
  pub answer : Fields → Completion → Exec (Unit {0})
  unfolding write
  answer body c =
      let reply = encode_completion w.response_id w.created c in
      if is_true (get_or (txt "stream") body null)
      then (do
        write stream_head
        chunks ← lift (from_exception (stream_chunks w.dumps reply))
        write_chunks chunks
        close)
      else send 200 (obj reply)

  -- `except (BrokenPipeError, ConnectionResetError)` of the inner `try`
  pub unless_gone : Result Fault (Unit {0}) → Exec (Unit {0})
  unless_gone (err gone) = close
  unless_gone r = lift r

  pub guarded : Exec (Unit {0}) → Exec (Unit {0})
  unfolding unless_gone
  guarded m c = unless_gone (m c).0 (m c).1

  -- The `except` clauses of `do_POST`
  pub recover : Result Fault (Unit {0}) → Exec (Unit {0})
  recover (ok u) = lift (ok u)
  recover (err (scenario message)) =
      guarded (error 500 message (txt "scenario_configuration_error"))
  recover (err gone) = close
  recover (err (other e)) = lift (err (other e))

  -- What the `try` runs: the completion, and whether it can be sent. The finish reason is set by
  -- the completion alone.
  pub serve : Fields → Result Fault Completion → Exec (Unit {0})
  serve body (err e) = lift (err e)
  serve body (ok c) = answer body c

  pub reason_of : Result Fault Completion → Option FinishReason
  reason_of (err e) = none
  reason_of (ok c) = some c.finish_reason

  -- `finally: self.stats.leave(…)`
  pub finally_leave :
      Option FinishReason
      → Option Text
      → Result Fault (Unit {0}) × Conn
      → Result Fault (Unit {0}) × Conn
  finally_leave reason marker (r, c) = (r, record c { stats = leave reason marker c.stats })

  -- `do_POST` once the body is read
  pub complete : Fields → Exec (Unit {0})
  unfolding serve reason_of recover finally_leave
  complete body c =
      let marker = find_marker (w.dumps (obj body)) in
      let built = from_error (build_completion w.dumps w.lower w.search set w.call_id body) in
      let entered = record c { stats = enter marker c.stats } in
      let tried = serve body built entered in
      finally_leave (reason_of built) marker (recover tried.0 tried.1)

  pub complete_if : Option Fields → Exec (Unit {0})
  complete_if none = lift (ok tt)
  complete_if (some body) = complete body

  pub do_post : Request → Exec (Unit {0})
  do_post req =
      if not (is_completions req.path)
      then error 404 (txt "unknown path: " ++ req.path) (txt "not_found")
      else do body ← read_body req; complete_if body

  -- The path of `do_GET`
  pub route_of : Text → Text
  route_of path = or_else (rstrip (λ c. c == b'/') (before b'?' path)) (txt "/")

  -- The body of /__stats
  pub stats_body : Stats → Json
  unfolding snapshot
  stats_body s = obj (
      dict (
        snapshot w.uptime s
        ++ (txt "lat_ms", int (pos set.lat_ms))
          ∷ (txt "jitter_pct", int (pos set.jitter_pct))
          ∷ (txt "turns", int (pos set.turns))
          ∷ []))

  -- The body of /v1/models
  pub models_body : Json
  models_body =
      let model = obj (
        dict (
          (txt "id", str set.model)
          ∷ (txt "object", str (txt "model"))
          ∷ (txt "created", w.created)
          ∷ (txt "owned_by", str (txt "omashiki-loadtest"))
          ∷ [])) in
      obj (dict ((txt "object", str (txt "list")) ∷ (txt "data", arr (cons model nil)) ∷ []))

  -- The branch of /__stats
  pub send_stats : Text → Exec (Unit {0})
  unfolding send stats_body
  send_stats path c =
      let after = if contains (txt "reset=1") path then reset c.stats else c.stats in
      send 200 (stats_body c.stats) (record c { stats = after })

  pub do_get : Request → Exec (Unit {0})
  do_get req =
      let path = route_of req.path in
      if text_eq path (txt "/healthz")
      then send 200 (obj (dict ((txt "status", str (txt "ok")) ∷ [])))
      else if text_eq path (txt "/__stats")
      then send_stats req.path
      else if text_eq path (txt "/v1/models") || text_eq path (txt "/models")
      then send 200 models_body
      else error 404 (txt "unknown path: " ++ path) (txt "not_found")
