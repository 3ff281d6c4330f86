-- ===== src/Handler/Server.antt =====
-- `submit_job`, `on_terminal` and the class `Handler`. A request is handled in a state that collects
-- what the handler does to the outside: the jobs that it submits, its log lines and its responses.
mod Examples
pub mod Laws
use omashiki.Common.{
  ℕ, zero, suc, Bool, true, false, not, Option, none, some, List, [], ◌∷◌, ◌++◌, take,
  if◌then◌else◌, Result, ok, err,
}
use omashiki.Common.Int.{ℤ, pos}
use omashiki.Common.Text.{Text, txt, text_eq, is_empty, or_else, decimal}
use omashiki.Json.{
  dict, Loaded, value, decode_error, other_error, Json, null, bool, int, float, str, arr, obj,
  Items, nil, cons, Fields, end, field, Exception, value_error, attribute_error, type_error, truthy,
  py_or, get_or, get_attr, py_str,
}
use omashiki.Handler.Base.{Error, handler_error, json_decode_error, uncaught, Config}
use omashiki.Handler.Terminal.{terminal_line}
use omashiki.Handler.Envelope.{Envelope, envelope_for, get, get_dict}
use omashiki.Handler.Signature.{Instant, verify_github_signature, verify_omashiki_signature}

-- `if cfg["repo"]: envelope["repo"] = …`
abbrev repo_items : Option Text → List (Text × Json)
repo_items none = []
repo_items (some r) = (txt "repo", str r) ∷ []

-- The dictionary that `envelope_for` returns.
pub encode_envelope : Envelope → Json
encode_envelope e =
    let context = obj (
      dict (
        (txt "source", str (txt "github"))
        ∷ (txt "repository", e.repository)
        ∷ (txt "number", e.number)
        ∷ (txt "url", e.url)
        ∷ (txt "labels", arr e.labels)
        ∷ (txt "author", e.author)
        ∷ [])) in
    let payload = obj (
      dict (
        (txt "instruction", str e.instruction)
        ∷ (txt "title", str e.title)
        ∷ (txt "context", context)
        ∷ [])) in
    obj (
      dict (
        ((txt "idempotency_key", str e.idempotency_key)
          ∷ (txt "correlation_id", str e.correlation_id)
          ∷ (txt "environment", str e.environment)
          ∷ (txt "priority", int (pos e.priority))
          ∷ (txt "payload", payload)
          ∷ [])
        ++ repo_items e.repo))

-- The request of `submit_job`.
pub record JobRequest : Type 0 where
  pub url : Text
  pub body : Json
  pub authorization : Text
  pub idempotency_key : Text

-- What the house, or the way to it, answers: the decoded body, an HTTP error with its text, a URL
-- error with its reason, or an exception that `submit_job` does not catch.
pub data Reply : Type 0 where
  answered : Text → Reply
  http_error : ℕ → Text → Reply
  url_error : Text → Reply
  raised : Exception → Reply

pub from_loaded : Loaded → Result Error Json
from_loaded (value v) = ok v
from_loaded decode_error = err json_decode_error
from_loaded (other_error e) = err (uncaught e)

-- What the handler does to the outside, in order.
pub data Effect : Type 0 where
  submitted : JobRequest → Effect
  logged : Text → Effect
  responded : ℕ → Json → Effect

-- A method of the handler: what it did comes back beside what it returns or raises.
abbrev pub Exec : Type 0 → Type 0
Exec A = List Effect → Result Error A × List Effect

abbrev continue : {A B : Type 0} → Result Error A → (A → Exec B) → Exec B
continue (ok a) f s = f a s
continue (err e) f s = (err e, s)

infixl 5 ◌>>=◌ ◌>>◌
abbrev pub ◌>>=◌ : {A B : Type 0} → Exec A → (A → Exec B) → Exec B
◌>>=◌ m f s = continue (m s).0 f (m s).1

abbrev pub ◌>>◌ : {A B : Type 0} → Exec A → Exec B → Exec B
m >> n = m >>= λ _. n

abbrev pub lift : {A : Type 0} → Result Error A → Exec A
lift r s = (r, s)

abbrev pub emit : Effect → Exec (Unit {0})
emit e s = (ok tt, s ++ e ∷ [])

-- The headers and the rest of a request; `read n` is the body that `rfile.read(n)` returns.
pub record Request : Type 0 where
  pub path : Text
  pub content_length : Option Text
  pub hub_signature : Option Text
  pub github_event : Option Text
  pub webhook_signature : Option Text
  pub read : ℤ → List ℕ

-- What the handler takes from outside: Python's `int` of a text, `json.loads` of the bytes of a
-- request and of the text of an answer, `repr`, `str.lower`, HMAC-SHA256, `datetime.fromisoformat`,
-- the clock, the house that answers a submission, and the line that `send_response` logs of the request
-- for a status.
pub record World : Type 0 where
  pub to_int : Text → Option ℤ
  pub loads : List ℕ → Loaded
  pub loads_text : Text → Loaded
  pub repr : Json → Text
  pub lower : Text → Text
  pub hmac : List ℕ → List ℕ → Text
  pub from_iso : Text → Option Instant
  pub now : ℤ
  pub opener : JobRequest → Reply
  pub request_line : ℕ → Text

-- `self.headers.get(name, "")`
abbrev pub header_or : Option Text → Text
header_or none = []
header_or (some t) = t

-- The webhook secret, if it is set and not empty
abbrev pub secret_of : Option Text → Option Text
secret_of none = none
secret_of (some t) = if is_empty t then none else some t

module _ (w : World) (cfg : Config) where
  pub request_of : Envelope → JobRequest
  request_of e = record {
    url = cfg.omashiki_url ++ txt "/api/v1/jobs";
    body = encode_envelope e;
    authorization = txt "Bearer " ++ cfg.omashiki_token;
    idempotency_key = e.idempotency_key;
  }

  pub read_reply : Reply → Result Error Json
  read_reply (answered t) = from_loaded (w.loads_text (or_else t (txt "{}")))
  read_reply (http_error code detail) = err (
      handler_error 502
        (txt "omashiki rejected the job: " ++ (decimal code ++ (txt " " ++ take 300 detail))))
  read_reply (url_error reason) = err (handler_error 502 (txt "omashiki unreachable: " ++ reason))
  read_reply (raised e) = err (uncaught e)

  pub submit_job : Envelope → Exec Json
  submit_job e = do emit (submitted (request_of e)); lift (read_reply (w.opener (request_of e)))

  -- `self._json(status, value)`: `send_response` hands a line to `log_message` first.
  pub respond : ℕ → Json → Exec (Unit {0})
  respond status v = emit (logged (w.request_line status)) >> emit (responded status v)

  show : Json → Text
  show v = py_str w.repr v

  -- `json.loads(body or b"{}")`
  pub load_body : List ℕ → Result Error Json
  load_body [] = from_loaded (w.loads (b'{' ∷ b'}' ∷ []))
  load_body (c ∷ t) = from_loaded (w.loads (c ∷ t))

  -- The end of `_github`, from the test of the envelope on
  pub admit : Option Envelope → Exec (Unit {0})
  admit none = respond 200 (obj (dict ((txt "ignored", bool true) ∷ [])))
  admit (some envelope) = do
    job ← submit_job envelope
    given ← lift (get_dict job (txt "data"))
    job_id ← lift (get given (txt "id"))
    emit (logged (txt "admitted job " ++ (show job_id ++ (txt " for " ++ envelope.correlation_id))))
    respond 202 (
        obj (
          dict ((txt "job_id", job_id) ∷ (txt "correlation_id", str envelope.correlation_id) ∷ [])))

  -- `_github`
  pub github : Request → List ℕ → Exec (Unit {0})
  github req body = do
    lift (verify_github_signature w.hmac cfg.github_webhook_secret body req.hub_signature)
    if text_eq (header_or req.github_event) (txt "ping")
        then respond 200 (obj (dict ((txt "ok", bool true) ∷ [])))
        else do
          event ← lift (load_body body)
          found ← lift (envelope_for w.repr w.lower (header_or req.github_event) event cfg)
          admit found

  -- `_omashiki`, once the secret is read
  pub hook_with : Option Text → Request → List ℕ → Exec (Unit {0})
  hook_with none req body =
      lift (err (handler_error 503 (txt "OMASHIKI_WEBHOOK_SECRET not configured")))
  hook_with (some secret) req body = do
    payload ← lift (load_body body)
    lift (
        verify_omashiki_signature w.hmac w.from_iso (secret ∷ []) payload req.webhook_signature
          w.now 300)
    line ← lift (terminal_line w.repr payload)
    emit (logged line)
    respond 200 (obj (dict ((txt "ok", bool true) ∷ [])))

  pub omashiki_hook : Request → List ℕ → Exec (Unit {0})
  omashiki_hook req body = hook_with (secret_of cfg.omashiki_webhook_secret) req body

  -- `int(self.headers.get("content-length") or 0)`
  pub length_of : Option Text → Result Error ℤ
  length_of none = ok (pos 0)
  length_of (some t) =
      if is_empty t
      then ok (pos 0)
      else elim (w.to_int t) [ none ↦ err (uncaught value_error) | some n ↦ ok n ]

  -- The choice by the path in `do_POST`
  pub dispatch : Request → List ℕ → Exec (Unit {0})
  dispatch req body =
      if text_eq req.path (txt "/github")
      then github req body
      else if text_eq req.path (txt "/omashiki")
      then omashiki_hook req body
      else lift (err (handler_error 404 (txt "not_found")))

  -- The body of the `try` in `do_POST`
  pub route : Request → Exec (Unit {0})
  route req = do size ← lift (length_of req.content_length); dispatch req (req.read size)

  -- The `except` clauses of `do_POST`
  pub recover : Result Error (Unit {0}) → Exec (Unit {0})
  recover (ok u) = lift (ok u)
  recover (err (handler_error status message)) =
      respond status (obj (dict ((txt "error", str message) ∷ [])))
  recover (err json_decode_error) =
      respond 400 (obj (dict ((txt "error", str (txt "invalid_json")) ∷ [])))
  recover (err (uncaught e)) = lift (err (uncaught e))

  pub do_post : Request → Exec (Unit {0})
  do_post req s = let (r, s') = route req s in recover r s'

  pub do_get : Request → Exec (Unit {0})
  do_get req =
      if text_eq req.path (txt "/healthz")
      then respond 200 (obj (dict ((txt "status", str (txt "ok")) ∷ [])))
      else respond 404 (obj (dict ((txt "error", str (txt "not_found")) ∷ [])))
