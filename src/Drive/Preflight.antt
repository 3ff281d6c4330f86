-- ===== src/Drive/Preflight.antt =====
-- `preflight`. `fetch` is the client's GET of a path; a message that ends the run is carried by what
-- it names.
pub mod Laws
use omashiki.Common.{
  Bool, true, false, not, ◌&&◌, ◌||◌, Option, none, some, List, [], ◌∷◌, ◌++◌, any, if◌then◌else◌,
  Result, ok, err, ◌>>=◌, ◌>>◌, guard,
}
use omashiki.Common.Int.{ℤ, pos, ltb_ℤ}
use omashiki.Common.Text.{Text, txt, text_eq}
use omashiki.Json.{
  Json, null, bool, int, float, str, arr, obj, nil, end, Exception, type_error, truthy, py_or,
  get_attr,
}
use omashiki.Drive.Client.{ApiError, Failure, api, json_decode_error, uncaught}
use omashiki.Drive.Sampler.{iterate}

-- How a run ends before it has begun: `SystemExit`, or an exception of a request.
pub data Exit : Type 0 where
  unhealthy : ApiError → Exit
  no_environments : ApiError → Exit
  unknown_environment : List Text → Exit
  unknown_repository : List Text → Exit
  raised : Failure → Exit

unfoldable pub from_failure : {A : Type 0} → (ApiError → Exit) → Result Failure A → Result Exit A
from_failure f (ok a) = ok a
from_failure f (err (api e)) = err (f e)
from_failure f (err json_decode_error) = err (raised json_decode_error)
from_failure f (err (uncaught e)) = err (raised (uncaught e))

abbrev pub fail : Exception → Exit
fail e = raised (uncaught e)

-- `(body or {}).get("data") or []`, its items
unfoldable pub rows_of : Json → Result Exit (List Json)
rows_of body = do
  given ← get_attr fail (py_or body (obj end)) (txt "data") null
  from_failure unhealthy (iterate (py_or given (arr nil)))

-- `[e.get("name") for e in rows]`
unfoldable pub names_of : List Json → Result Exit (List Json)
names_of [] = ok []
names_of (e ∷ es) = do
  name ← get_attr fail e (txt "name") null
  rest ← names_of es
  ok (name ∷ rest)

-- `name == v` of a text and a value
unfoldable pub is_name : Text → Json → Bool
is_name t (str s) = text_eq s t
is_name t _ = false

-- `name in names`
unfoldable pub listed : Text → List Json → Bool
unfolding is_name
listed t names = any (λ v. is_name t v) names

-- `n for n in names if n`, each of which `join` wants to be a text
pub known : List Json → Result Exit (List Text)
known [] = ok []
known (str t ∷ vs) = do rest ← known vs; ok (if truthy (str t) then t ∷ rest else rest)
known (v ∷ vs) = if truthy v then err (fail type_error) else known vs

-- `if name not in names: raise SystemExit(…)`
unfoldable pub must_list : (List Text → Exit) → Text → List Json → Result Exit (Unit {0})
unfolding listed known
must_list exit t names = if listed t names then ok tt else do ts ← known names; err (exit ts)

-- `if names and name not in names: raise SystemExit(…)`
unfoldable pub may_list : (List Text → Exit) → Text → List Json → Result Exit (Unit {0})
unfolding must_list
may_list exit t [] = ok tt
may_list exit t (v ∷ vs) = must_list exit t (v ∷ vs)

-- `next((e for e in rows if e.get("name") == name), {})`
unfoldable pub find_row : Text → List Json → Result Exit Json
find_row t [] = ok (obj end)
find_row t (e ∷ es) = do
  name ← get_attr fail e (txt "name") null
  let rest = find_row t es
  if is_name t name then ok e else rest

-- `isinstance(v, int) and v > limit`
unfoldable pub exceeds : ℤ → Json → Bool
exceeds limit (int n) = ltb_ℤ limit n
exceeds limit (bool true) = ltb_ℤ limit (pos 1)
exceeds limit (bool false) = ltb_ℤ limit (pos 0)
exceeds limit _ = false

-- The test of the repository, and the note, which the result tells of
unfoldable pub check_repository : Text → Text → ℤ → List Json → Json → Result Exit Bool
unfolding rows_of names_of may_list find_row exceeds
check_repository environment repo timeout_ms environments body = do
  repositories ← rows_of body
  names ← names_of repositories
  may_list unknown_repository repo names
  row ← find_row environment environments
  limit ← get_attr fail row (txt "timeout_ms") null
  ok (exceeds timeout_ms limit)

-- `except ApiError: return` around the list of repositories
unfoldable pub with_repositories :
    Text → Text → ℤ → List Json → Result Failure Json → Result Exit Bool
unfolding check_repository
with_repositories environment repo timeout_ms environments (ok body) =
    check_repository environment repo timeout_ms environments body
with_repositories environment repo timeout_ms environments (err (api e)) = ok false
with_repositories environment repo timeout_ms environments (err json_decode_error) =
    err (raised json_decode_error)
with_repositories environment repo timeout_ms environments (err (uncaught e)) =
    err (raised (uncaught e))

-- `preflight`; `timeout_ms` is `args.job_timeout * 1000`. The result tells whether the note is printed.
unfoldable pub preflight : (Text → Result Failure Json) → Text → Text → ℤ → Result Exit Bool
unfolding with_repositories
preflight fetch environment repo timeout_ms = do
  health ← from_failure unhealthy (fetch (txt "/api/v1/health"))
  body ← from_failure no_environments (fetch (txt "/api/v1/environments"))
  environments ← rows_of body
  names ← names_of environments
  must_list unknown_environment environment names
  with_repositories environment repo timeout_ms environments (fetch (txt "/api/v1/repositories"))
