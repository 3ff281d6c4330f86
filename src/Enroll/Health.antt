-- ===== src/Enroll/Health.antt =====
-- `check_health` and `wait_for_health`. `turn n` is what the n-th turn of the loop
-- meets: the clock at its test, and the answer for a URL.
pub mod Finds
use omashiki.Common.{
  ℕ, ◌+◌, ◌<◌, ◌≡◌, ◌≢◌, refl, ap, ◌∙◌, subst, Bool, false, ◌&&◌, Option, none, some, ◌++◌,
  if◌then◌else◌, Result, ok, err, ◌>>=◌, >>=-eq-ok, arith, Bool-cases, inl, inr,
}
use omashiki.Common.Int.{ℤ, ltb_ℤ}
use omashiki.Common.Text.{Text, txt, text_eq}
use omashiki.Json.{Json, null, str, Exception, get_attr, Loaded, value, decode_error, other_error}
use omashiki.Common.Poll.{poll, poll-ne-out_of_fuel}
use omashiki.Enroll.{normalize_base_url, Error, undecodable, url_error, uncaught}

-- What comes back for GET /healthz: the body, or a URL error, which an HTTP error is too.
pub data Answer : Type 0 where
  answered : Loaded → Answer
  failed : Text → Answer
  raised : Exception → Answer

pub record Turn : Type 0 where
  pub at : ℤ
  pub answer : Text → Answer

-- The end of the loop: the body of a healthy worker, or the last error, or no fuel.
pub data Ended : Type 0 where
  healthy : Json → Ended
  gave_up : Option Text → Ended
  out_of_fuel : Ended

-- `v == t` against a text
unfoldable pub is_text : Json → Text → Bool
is_text (str s) t = text_eq s t
is_text _ t = false

-- `health.get("role") == "worker" and health.get("status") == "ok"`
unfoldable pub is_healthy : Json → Result Error Bool
unfolding is_text
is_healthy health = do
  role ← get_attr uncaught health (txt "role") null
  status ← get_attr uncaught health (txt "status") null
  ok (is_text role (txt "worker") && is_text status (txt "ok"))

-- `check_health`: a body that is not JSON ends the wait.
pub check_health : Loaded → Result Error Json
check_health (value v) = ok v
check_health decode_error = err undecodable
check_health (other_error e) = err undecodable

-- What a turn makes of the answer; `again` is the rest of the loop with its last error.
pub react : (Json → Text) → (Option Text → Result Error Ended) → Answer → Result Error Ended
unfolding is_healthy check_health
react repr again (failed reason) = again (some reason)
react repr again (raised e) = err (uncaught e)
react repr again (answered l) = do
  health ← check_health l
  fine ← is_healthy health
  let rest = again (some (txt "unexpected healthz payload: " ++ repr health))
  if fine then ok (healthy health) else rest

module _ (repr : Json → Text) (worker_url : Text) (turn : ℕ → Turn) (deadline : ℤ) where
  -- A turn of the loop below its test
  pub step : ℕ → (Option Text → Result Error Ended) → Option Text → Result Error Ended
  unfolding react
  step n again last = do
    base ← normalize_base_url worker_url
    react repr again ((turn n).answer (base ++ txt "/healthz"))

  pub loop : ℕ → ℕ → Option Text → Result Error Ended
  loop fuel n last =
      poll (λ i. ltb_ℤ (turn i).at deadline) step (λ i reason. ok (gave_up reason)) (ok out_of_fuel)
        fuel n last

  -- The end of `wait_for_health`: it returns, or raises the last error.
  pub finish : Ended → Result Error (Option Json)
  finish (healthy v) = ok (some v)
  finish (gave_up none) = err (url_error (txt "timed out waiting for /healthz"))
  finish (gave_up (some reason)) = err (url_error reason)
  finish out_of_fuel = ok none

  -- `wait_for_health`; none is a result that the fuel does not reach.
  pub wait_for_health : ℕ → Result Error (Option Json)
  unfolding finish
  wait_for_health fuel = do ended ← loop fuel 0 none; finish ended

-- A turn that ends without fuel has gone on.
react-out_of_fuel :
    (repr : Json → Text) (again : Option Text → Result Error Ended) (a : Answer)
    → react repr again a ≡ ok out_of_fuel
    → (last : Option Text) × (again last ≡ ok out_of_fuel)
unfolding react
react-out_of_fuel repr again (failed reason) h = (some reason, h)
react-out_of_fuel repr again (raised e) h = cc
react-out_of_fuel repr again (answered l) h =
    let (health, _, h1) = >>=-eq-ok (check_health l) _ h in
    let (fine, _, h2) = >>=-eq-ok (is_healthy health) _ h1 in
    let reason = txt "unexpected healthz payload: " ++ repr health in
    elim (Bool-cases fine) [ inl e ↦ cc (rw e at h2) | inr e ↦ (some reason, rw e at h2) ]

module _ (repr : Json → Text) (worker_url : Text) (turn : ℕ → Turn) (deadline : ℤ) where
  step-out_of_fuel :
      (n : ℕ) (again : Option Text → Result Error Ended) (last : Option Text)
      → step repr worker_url turn deadline n again last ≡ ok out_of_fuel
      → (next : Option Text) × (again next ≡ ok out_of_fuel)
  unfolding step
  step-out_of_fuel n again last h =
      let (base, _, h1) = >>=-eq-ok (normalize_base_url worker_url) _ h in
      react-out_of_fuel repr again ((turn n).answer (base ++ txt "/healthz")) h1

  finish-none : (e : Ended) → finish repr worker_url turn deadline e ≡ ok none → e ≡ out_of_fuel
  unfolding finish
  finish-none (healthy v) h = cc
  finish-none (gave_up none) h = cc
  finish-none (gave_up (some reason)) h = cc
  finish-none out_of_fuel h = refl

  -- If the clock has reached the deadline at the test of some turn k, then k + 1 turns of fuel are
  -- enough: the wait for the worker ends, with its health or an error.
  pub wait_for_health-ends :
      (fuel k : ℕ)
      → ltb_ℤ (turn k).at deadline ≡ false
      → k < fuel
      → wait_for_health repr worker_url turn deadline fuel ≢ ok none
  unfolding wait_for_health loop
  wait_for_health-ends fuel k late more h =
      let (ended, e, h1) = >>=-eq-ok (loop repr worker_url turn deadline fuel 0 none) _ h in
      let from_zero : ltb_ℤ (turn (0 + k)).at deadline ≡ false =
        subst (λ i. ltb_ℤ (turn i).at deadline ≡ false) (omega arith) late in
      poll-ne-out_of_fuel _ _ _ _ step-out_of_fuel (λ n s q. cc q) k fuel 0 none from_zero more
        (e ∙ ap ok (finish-none ended h1))
