-- ===== src/Enroll.antt =====
-- .scripts/enroll_worker.py: a house's credentials are sent to a worker.
-- `hostname` stands for `urllib.parse.urlparse(…).hostname`, `is_loopback_ip` for
-- `ip_address(…).is_loopback`, where none is a ValueError.
pub mod Health
pub mod Main
use omashiki.Common.{
  ℕ, Bool, true, false, not, ◌||◌, Option, none, some, List, [], ◌∷◌, ◌++◌, ◌==◌, if◌then◌else◌,
  Result, ok, err, ◌>>=◌, ◌>>◌, guard,
}
use omashiki.Common.Int.{ℤ}
use omashiki.Common.Text.{Text, txt, text_eq, is_space, strip, rstrip, is_empty, or_else, decimal}
use omashiki.Json.{
  Json, null, str, obj, end, dict, Exception, get_attr, truthy, py_or, py_str, Loaded, value,
  decode_error, other_error,
}

-- What the functions raise: `ValueError` with its message, the `ValueError`s of decoding, `EnrollError`,
-- `URLError` with its reason, or an exception that `main` does not catch.
pub data Error : Type 0 where
  value_error : Text → Error
  undecodable : Error
  enroll_error : ℕ → Text → Text → Error
  url_error : Text → Error
  uncaught : Exception → Error

-- `normalize_base_url`
pub normalize_base_url : Text → Result Error Text
normalize_base_url url =
    let trimmed = strip is_space url in
    if is_empty trimmed
    then err (value_error (txt "URL must not be empty"))
    else ok (rstrip (λ c. c == b'/') trimmed)

-- What the tests of an address need from outside.
pub record Names : Type 0 where
  pub hostname : Text → Option (Option Text)
  pub lower : Text → Text
  pub is_loopback_ip : Text → Option Bool

-- The test of a host
pub is_loopback_host : Names → Text → Bool
is_loopback_host w host =
    if text_eq (w.lower host) (txt "localhost") || text_eq host (txt "0.0.0.0")
    then true
    else elim (w.is_loopback_ip host) [ none ↦ false | some b ↦ b ]

-- `if not host: return False`
pub host_tested : Names → Option Text → Bool
unfolding is_loopback_host
host_tested w none = false
host_tested w (some host) = if is_empty host then false else is_loopback_host w host

-- `is_loopback_manager_url`: the ValueError of a URL that cannot be split is not caught.
pub is_loopback_manager_url : Names → Text → Result Error Bool
unfolding normalize_base_url
is_loopback_manager_url w url = elim (normalize_base_url url) [
  | err e ↦ ok false
  | ok normalized ↦ elim (w.hostname normalized) [
    | none ↦ err (value_error (txt "Invalid URL"))
    | some host ↦ ok (host_tested w host)
  ]
]

-- `if manager_id and manager_id.strip(): …`
pub manager_items : Option Text → List (Text × Json)
manager_items none = []
manager_items (some t) =
    let id = strip is_space t in if is_empty id then [] else (txt "manager_id", str id) ∷ []

-- `build_enroll_body`, before it is encoded
pub build_enroll_body : Text → Text → Option Text → Result Error Json
unfolding normalize_base_url manager_items
build_enroll_body manager_url worker_token manager_id = do
  let token = strip is_space worker_token
  guard (not (is_empty token)) (value_error (txt "worker_token must not be empty"))
  url ← normalize_base_url manager_url
  ok (
      obj (
        dict (
          (txt "manager_url", str url)
          ∷ (txt "worker_token", str token)
          ∷ manager_items manager_id)))

pub record Request : Type 0 where
  pub url : Text
  pub body : Json
  pub authorization : Text

-- `build_enroll_request`
pub build_enroll_request : Text → Text → Text → Text → Option Text → Result Error Request
unfolding build_enroll_body
build_enroll_request worker_url enroll_secret manager_url worker_token manager_id = do
  let secret = strip is_space enroll_secret
  guard (not (is_empty secret)) (value_error (txt "enroll_secret must not be empty"))
  base ← normalize_base_url worker_url
  body ← build_enroll_body manager_url worker_token manager_id
  ok (record {
    url = base ++ txt "/internal/enroll";
    body = body;
    authorization = txt "Bearer " ++ secret;
  })

-- What comes back for a POST: a status, an HTTP error with its bytes, a URL error, or an exception.
pub data Wire : Type 0 where
  responded : ℕ → Wire
  http_error : ℕ → List ℕ → Wire
  unreachable : Text → Wire
  raised : Exception → Wire

-- `str(v or d)`
pub text_or : (Json → Text) → Json → Text → Text
text_or repr v d = py_str repr (py_or v (str d))

-- `loads` is `json.loads` of the bytes, decoded; `decode` decodes with replacement characters.
module _ (repr : Json → Text) (loads : List ℕ → Loaded) (decode : List ℕ → Text) where
  -- `parse_error_body`, the body decoded
  pub parse_loaded : List ℕ → Loaded → Result Error (Text × Text)
  unfolding text_or
  parse_loaded raw decode_error = ok (txt "unknown", or_else (decode raw) (txt "request failed"))
  parse_loaded raw (other_error e) = err undecodable
  parse_loaded raw (value decoded) = do
    given ← get_attr uncaught decoded (txt "error") null
    let error = py_or given (obj end)
    code ← get_attr uncaught error (txt "code") null
    message ← get_attr uncaught error (txt "message") null
    ok (text_or repr code (txt "unknown"), text_or repr message (txt "request failed"))

  pub parse_error_body : List ℕ → Result Error (Text × Text)
  unfolding parse_loaded
  parse_error_body raw = parse_loaded raw (loads raw)

  -- What `enroll` makes of the answer
  pub read_wire : Wire → Result Error (Unit {0})
  unfolding parse_error_body
  read_wire (responded status) =
      if status == 204
      then ok tt
      else err (
          enroll_error status (txt "unexpected_status")
            (txt "expected 204, got " ++ decimal status))
  read_wire (http_error status raw) = do
    (code, message) ← parse_error_body raw
    err (enroll_error status code message)
  read_wire (unreachable reason) = err (url_error reason)
  read_wire (raised e) = err (uncaught e)

  -- `enroll`
  pub enroll : (Request → Wire) → Text → Text → Text → Text → Option Text → Result Error (Unit {0})
  unfolding read_wire build_enroll_request
  enroll post worker_url enroll_secret manager_url worker_token manager_id = do
    request ← build_enroll_request worker_url enroll_secret manager_url worker_token manager_id
    read_wire (post request)
