-- ===== src/Drive/Sampler.antt =====
-- The class `Sampler`. `fetch` is the client's GET of a path; the times of the samples are left out.
pub mod Laws
use omashiki.Common.{
  ℕ, zero, suc, ◌+◌, Bool, true, false, Option, none, some, List, [], ◌∷◌, ◌++◌, length, ltb,
  if◌then◌else◌, Result, ok, err, ◌>>=◌,
}
use omashiki.Common.Text.{Text, txt}
use omashiki.Json.{
  Json, null, bool, int, float, str, arr, obj, nil, end, elements, items, Exception,
  attribute_error, type_error, truthy, py_or, get_attr, py_str,
}
use omashiki.Drive.Client.{Failure, api, json_decode_error, uncaught}

-- The counts of one snapshot, and their sum
pub record Sample : Type 0 where
  pub active : ℕ
  pub provisioning : ℕ
  pub running : ℕ

pub record Sampler : Type 0 where
  pub peak_active : ℕ
  pub samples : List Sample
  pub errors : ℕ

-- `Sampler.__init__`
abbrev pub fresh : Sampler
fresh = record { peak_active = 0; samples = []; errors = 0 }

abbrev pub chars : Text → List Json
chars [] = []
chars (c ∷ t) = str (c ∷ []) ∷ chars t

abbrev pub keys : List (Text × Json) → List Json
keys [] = []
keys ((k, v) ∷ l) = str k ∷ keys l

-- What `rows.extend(page)` adds
unfoldable pub iterate : Json → Result Failure (List Json)
iterate (arr vs) = ok (elements vs)
iterate (obj fs) = ok (keys (items fs))
iterate (str t) = ok (chars t)
iterate _ = err (uncaught type_error)

-- `f"/api/v1/jobs?status={status}"`, with `&cursor={cursor}` where there is one
unfoldable pub list_path : (Json → Text) → Text → Json → Text
list_path repr status cursor =
    let path = txt "/api/v1/jobs?status=" ++ status in
    if truthy cursor then path ++ (txt "&cursor=" ++ py_str repr cursor) else path

abbrev pub both : Option (List Json) → Option (List Json) → Option (ℕ × ℕ)
both (some a) (some b) = some (length a, length b)
both _ _ = none

-- `repr` is Python's rendering of a list or a dictionary.
module _ (repr : Json → Text) (fetch : Text → Result Failure Json) where
  -- The loop of `_list_status` on fuel; none means that it ran out.
  unfoldable pub list_from : ℕ → Text → List Json → Json → Result Failure (Option (List Json))
  unfolding iterate list_path
  list_from zero status rows cursor = ok none
  list_from (suc fuel) status rows cursor = do
    answer ← fetch (list_path repr status cursor)
    let body = py_or answer (obj end)
    given ← get_attr uncaught body (txt "data") null
    page ← iterate (py_or given (arr nil))
    next ← get_attr uncaught body (txt "next_cursor") null
    let rest = list_from fuel status (rows ++ page) next
    if truthy next then rest else ok (some (rows ++ page))

  -- `_list_status`
  unfoldable pub list_status : ℕ → Text → Result Failure (Option (List Json))
  list_status fuel status = list_from fuel status [] null

  -- The lengths of the two lists, in the order of `ACTIVE`
  unfoldable pub counts : ℕ → Result Failure (Option (ℕ × ℕ))
  counts fuel = do
    first ← list_status fuel (txt "provisioning")
    second ← list_status fuel (txt "running")
    ok (both first second)

-- `self.samples.append(…)` and the test of the peak
unfoldable pub record_counts : ℕ → ℕ → Sampler → Sampler
record_counts p r s =
    let active = p + r in
    record {
      peak_active = if ltb s.peak_active active then active else s.peak_active;
      samples = s.samples ++ record { active = active; provisioning = p; running = r } ∷ [];
      errors = s.errors;
    }

-- What a snapshot that was taken, or failed, does to the sampler: an `ApiError` is counted.
unfoldable pub after_counts :
    Result Failure (Option (ℕ × ℕ)) → Sampler → Result Failure (Option Sampler)
unfolding record_counts
after_counts (ok none) s = ok none
after_counts (ok (some (p, r))) s = ok (some (record_counts p r s))
after_counts (err (api e)) s = ok (some (record s { errors = s.errors + 1 }))
after_counts (err json_decode_error) s = err json_decode_error
after_counts (err (uncaught e)) s = err (uncaught e)

-- `sample_once`
unfoldable pub sample_once :
    (Json → Text) → (Text → Result Failure Json) → ℕ → Sampler → Result Failure (Option Sampler)
unfolding after_counts
sample_once repr fetch fuel s = after_counts (counts repr fetch fuel) s

-- `run`: one snapshot for each turn, with what the house answers at that time
unfoldable pub run :
    (Json → Text)
    → ℕ
    → List (Text → Result Failure Json)
    → Sampler
    → Result Failure (Option Sampler)
run repr fuel [] s = ok (some s)
run repr fuel (fetch ∷ later) s =
    let rest = run repr fuel later in
    elim (sample_once repr fetch fuel s) [
      | err e ↦ err e
      | ok o ↦ elim o [ none ↦ ok none | some s' ↦ rest s' ]
    ]
