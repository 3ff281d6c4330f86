-- ===== src/Drive/Client/Laws.antt =====
-- Which errors a request reports.
use omashiki.Common.{ℕ, ◌≡◌, ◌≢◌, sym, subst, ◌⊎◌, inl, inr, Option, List, Result, err, arith}
use omashiki.Common.Text.{Text}
use omashiki.Json.{
  Json, null, bool, int, float, str, arr, obj, Loaded, value, decode_error, other_error,
}
use omashiki.Drive.Client.{
  ApiError, Failure, api, Request, Wire, success, http_error, url_error, timed_out, Client,
  request_of, error_of, load, success_of, rejected, failure_of, no_answer, read_wire, request,
}

-- The house has answered, with an error of its own.
pub data IsRejection : Wire → ℕ → Type 0 where
  rejection : (status : ℕ) (raw : List ℕ) → IsRejection (http_error status raw) status

-- The house has not answered.
pub data IsSilent : Wire → Type 0 where
  unreachable : (reason : Text) → IsSilent (url_error reason)
  late : IsSilent timed_out

err_injective : {A : Type 0} {a b : Failure} → ◌≡◌ {A = Result Failure A} (err a) (err b) → a ≡ b
err_injective h = cc

-- Where an error comes from: its status is that of the answer, or 0 where there was none.
pub Explains : Wire → ApiError → Type 0
Explains wire e = IsRejection wire e.status ⊎ (IsSilent wire × (e.status ≡ 0))

module _ (loads : List ℕ → Loaded) (decode : List ℕ → Text) where
  rejected-status :
      (status : ℕ) (raw : List ℕ) (v : Json) (e : ApiError)
      → rejected loads decode status raw v ≡ api e
      → e.status ≡ status
  unfolding rejected
  rejected-status status raw (obj fs) e h = ground arith
  rejected-status status raw null e h = ground arith
  rejected-status status raw (bool b) e h = ground arith
  rejected-status status raw (int n) e h = ground arith
  rejected-status status raw (float t) e h = ground arith
  rejected-status status raw (str t) e h = ground arith
  rejected-status status raw (arr vs) e h = ground arith

  silent-status :
      (code message : Text) (e : ApiError)
      → no_answer loads decode code message ≡ api e
      → e.status ≡ 0
  unfolding no_answer
  silent-status code message e h = ground arith

  failure_of-Explains :
      (status : ℕ) (raw : List ℕ) (l : Loaded) (e : ApiError)
      → failure_of loads decode status raw l ≡ api e
      → Explains (http_error status raw) e
  unfolding failure_of Explains
  failure_of-Explains status raw (value v) e h = inl (
      subst (IsRejection (http_error status raw))
        (sym (rejected-status status raw (error_of v) e h)) (rejection status raw))
  failure_of-Explains status raw decode_error e h = inl (
      subst (IsRejection (http_error status raw)) (sym (rejected-status status raw null e h))
        (rejection status raw))
  failure_of-Explains status raw (other_error x) e h = cc

  success_of-ne-api : (l : Loaded) (e : ApiError) → success_of loads decode l ≢ err (api e)
  unfolding success_of
  success_of-ne-api (value v) e h = cc
  success_of-ne-api decode_error e h = cc
  success_of-ne-api (other_error x) e h = cc

  read_wire-Explains :
      (c : Client) (wire : Wire) (e : ApiError)
      → read_wire loads decode c wire ≡ err (api e)
      → Explains wire e
  unfolding read_wire
  read_wire-Explains c (success raw) e h = absurd (success_of-ne-api (load loads decode raw) e h)
  read_wire-Explains c (http_error status raw) e h =
      failure_of-Explains status raw (load loads decode raw) e (err_injective h)
  read_wire-Explains c (url_error reason) e h =
      unfold Explains in inr (unreachable reason, silent-status _ _ e (err_injective h))
  read_wire-Explains c timed_out e h =
      unfold Explains in inr (late, silent-status _ _ e (err_injective h))

  -- An `ApiError` says what happened: its status is that of the house's answer, or it is 0 and the
  -- house could not be reached or did not answer in time. So no rejection passes for an outage.
  pub request-Explains :
      (c : Client) (wire : Request → Wire) (method path : Text) (body : Option Json) (e : ApiError)
      → request loads decode c wire method path body ≡ err (api e)
      → Explains (wire (request_of c method path body)) e
  unfolding request
  request-Explains c wire method path body e h =
      read_wire-Explains c (wire (request_of c method path body)) e h
