-- ===== src/Drive/Client.antt =====
-- `ApiError` and the class `Client`. `loads` is `json.loads` of bytes, `decode` the decoding of bytes
-- with replacement characters; the request goes to a `wire`.
pub mod Laws
use omashiki.Common.{
  ℕ, Option, none, some, List, [], ◌∷◌, ◌++◌, take, if◌then◌else◌, Result, ok, err,
}
use omashiki.Common.Text.{Text, txt, is_empty, rstrip, decimal}
use omashiki.Common.{◌==◌}
use omashiki.Json.{
  Json, null, str, obj, Fields, end, get_or, py_or, Exception, Loaded, value, decode_error,
  other_error,
}

-- `ApiError(status, code, message, details)`
pub record ApiError : Type 0 where
  pub status : ℕ
  pub code : Json
  pub message : Json
  pub details : Json

-- What a request raises: an `ApiError`, or an exception that the callers do not expect.
pub data Failure : Type 0 where
  api : ApiError → Failure
  json_decode_error : Failure
  uncaught : Exception → Failure

pub record Request : Type 0 where
  pub method : Text
  pub url : Text
  pub body : Option Json
  pub headers : List (Text × Text)

-- What comes back: the bytes of a success, an HTTP error with its bytes, a URL error with its
-- reason, or no answer in time.
pub data Wire : Type 0 where
  success : List ℕ → Wire
  http_error : ℕ → List ℕ → Wire
  url_error : Text → Wire
  timed_out : Wire

pub record Client : Type 0 where
  pub base_url : Text
  pub token : Option Text
  pub timeout : Text

-- `Client.__init__`
pub client : Text → Option Text → Text → Client
client base_url token timeout = record {
  base_url = rstrip (λ c. c == b'/') base_url;
  token = token;
  timeout = timeout;
}

-- `if data is not None: …`
abbrev pub content_type : Option Json → List (Text × Text)
content_type none = []
content_type (some v) = (txt "Content-Type", txt "application/json") ∷ []

-- `if self.token: …`
abbrev pub bearer : Option Text → List (Text × Text)
bearer none = []
bearer (some t) = if is_empty t then [] else (txt "Authorization", txt "Bearer " ++ t) ∷ []

pub request_of : Client → Text → Text → Option Json → Request
request_of c method path body = record {
  method = method;
  url = c.base_url ++ path;
  body = body;
  headers = (txt "Accept", txt "application/json") ∷ content_type body ++ bearer c.token;
}

-- `f"http_{code}"`
pub http_code : ℕ → Text
http_code status = txt "http_" ++ decimal status

-- The error object of a payload
pub error_of : Json → Json
error_of (obj payload) = get_or (txt "error") payload null
error_of _ = null

module _ (loads : List ℕ → Loaded) (decode : List ℕ → Text) where
  -- `json.loads(raw) if raw else {}`
  pub load : List ℕ → Loaded
  load [] = value (obj end)
  load (c ∷ t) = loads (c ∷ t)

  pub success_of : Loaded → Result Failure Json
  success_of (value v) = ok v
  success_of decode_error = err json_decode_error
  success_of (other_error e) = err (uncaught e)

  -- The `ApiError` of an error object, or of the text of the answer
  pub rejected : ℕ → List ℕ → Json → Failure
  unfolding http_code
  rejected status raw (obj error) = api (record {
    status = status;
    code = get_or (txt "code") error (str (http_code status));
    message = get_or (txt "message") error (str []);
    details = py_or (get_or (txt "details") error null) (obj end);
  })
  rejected status raw _ = api (record {
    status = status;
    code = str (http_code status);
    message = str (decode (take 200 raw));
    details = obj end;
  })

  pub failure_of : ℕ → List ℕ → Loaded → Failure
  unfolding error_of rejected
  failure_of status raw (value payload) = rejected status raw (error_of payload)
  failure_of status raw decode_error = rejected status raw null
  failure_of status raw (other_error e) = uncaught e

  -- An error that is not the house's
  unfoldable pub no_answer : Text → Text → Failure
  no_answer code message =
      api (record { status = 0; code = str code; message = str message; details = obj end })

  unfoldable pub read_wire : Client → Wire → Result Failure Json
  unfolding success_of failure_of no_answer load
  read_wire c (success raw) = success_of (load raw)
  read_wire c (http_error status raw) = err (failure_of status raw (load raw))
  read_wire c (url_error reason) = err (no_answer (txt "transport_error") reason)
  read_wire c timed_out =
      err (no_answer (txt "client_timeout") (txt "no response in " ++ (c.timeout ++ txt "s")))

  unfoldable pub request :
      Client → (Request → Wire) → Text → Text → Option Json → Result Failure Json
  unfolding read_wire request_of
  request c wire method path body = read_wire c (wire (request_of c method path body))
