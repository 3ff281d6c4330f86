-- ===== src/Drive/RunJob.antt =====
-- `run_job` and `iso_ms`. What the server answers and the readings of the clock, in microseconds,
-- come from a `World`; `poll n` is what the n-th turn of the loop meets. `from_iso` stands for
-- `datetime.fromisoformat(…).timestamp()`.
mod Examples
pub mod Laws
use omashiki.Common.{
  ℕ, zero, suc, Bool, true, false, not, Option, none, some, ◌++◌, if◌then◌else◌, Result, ok, err,
  ◌>>=◌,
}
use omashiki.Common.Int.{ℤ, pos, pos_part, ◌+ℤ◌, ◌-ℤ◌, ltb_ℤ}
use omashiki.Common.Text.{Text, txt, text_eq}
use omashiki.Common.Poll.{poll}
use omashiki.Handler.Signature.{replace_z}
use omashiki.Json.{
  Json, null, str, arr, obj, end, Exception, attribute_error, truthy, py_or, get_attr,
}

-- What `client.request` gives: a body, or the code of the `ApiError` that it raises.
pub data Reply : Type 0 where
  answered : Json → Reply
  api_error : Json → Reply

-- One turn of the loop: the clock at its test, the answer to its request, and the clock after it.
pub record Poll : Type 0 where
  pub at : ℤ
  pub reply : Reply
  pub after : ℤ

pub record World : Type 0 where
  pub submitted_at : ℤ
  pub posted : Reply
  pub answered_at : ℤ
  pub missing_at : ℤ
  pub begun_at : ℤ
  pub job_timeout : ℤ
  pub poll : ℕ → Poll
  pub result : Reply
  pub from_iso : Text → Option ℤ

pub data Status : Type 0 where
  rejected timeout succeeded failed cancelled : Status

-- The class `Outcome`, but for its index; `None` is `none`, and `null` for a value of the server.
pub record Outcome : Type 0 where
  pub job_id : Json
  pub status : Status
  pub error_code : Json
  pub submitted_at : ℤ
  pub accepted_at : Option ℤ
  pub finished_at : ℤ
  pub queued : Option ℕ
  pub run : Option ℕ

-- How the loop ends: with a terminal job and the error code that is left from the polls before, at
-- the deadline, or without fuel.
pub data Ended : Type 0 where
  terminal : Status → Json → Json → ℤ → Ended
  gave_up : ℤ → Ended
  out_of_fuel : Ended

abbrev keep : Exception → Exception
keep e = e

-- `v.get(k)`
abbrev get : Json → Text → Result Exception Json
get v k = get_attr keep v k null

-- `(v or {}).get("data") or {}`
pub data_of : Json → Result Exception Json
data_of v = do found ← get (py_or v (obj end)) (txt "data"); ok (py_or found (obj end))

-- `status in TERMINAL`
pub terminal_status : Json → Option Status
terminal_status (str t) =
    if text_eq t (txt "succeeded")
    then some succeeded
    else if text_eq t (txt "failed")
    then some failed
    else if text_eq t (txt "cancelled")
    then some cancelled
    else none
terminal_status _ = none

-- A turn of the loop below its test; `again` is the rest of the loop with its error code.
pub turn : (Json → Result Exception Ended) → Json → ℤ → Reply → Result Exception Ended
turn again code after (api_error c) = again c
turn again code after (answered body) = do
  job ← data_of body
  status ← get job (txt "status")
  elim (terminal_status status) [ none ↦ again code | some s ↦ ok (terminal s job code after) ]

-- `error_code or d`
abbrev or_code : Json → Json → Json
or_code code d = py_or code d

-- The text of a status that has a result.
abbrev status_text : Status → Text
status_text failed = txt "failed"
status_text cancelled = txt "cancelled"
status_text succeeded = txt "succeeded"
status_text rejected = txt "rejected"
status_text timeout = txt "timeout"

-- The error code that a result gives to a job that has not succeeded
pub code_of : Status → Json → Json → Result Exception Json
code_of s code (obj e) = do
  given ← get (obj e) (txt "code")
  other ← get (obj e) (txt "error_code")
  ok (py_or given (py_or other (str (txt "unknown"))))
code_of s code (str t) = ok (str t)
code_of s code _ = ok (or_code code (str (status_text s ++ txt "_no_error")))

pub result_code : Status → Json → Reply → Result Exception Json
result_code s code (api_error c) = ok (or_code code c)
result_code s code (answered body) = do
  found ← data_of body
  error ← get found (txt "error")
  code_of s code error

-- `if outcome.status != "succeeded"`
pub final_code : Status → Json → Reply → Result Exception Json
final_code succeeded code reply = ok code
final_code s code reply = result_code s code reply

-- `iso_ms`: only a text has the method `replace`.
pub iso_ms : (Text → Option ℤ) → Json → Result Exception (Option ℤ)
iso_ms from_iso (str t) = ok (if truthy (str t) then from_iso (replace_z t) else none)
iso_ms from_iso v = if truthy v then err attribute_error else ok none

-- `a or b` of two times, of which 0 is false
pub or_time : Option ℤ → Result Exception (Option ℤ) → Result Exception (Option ℤ)
or_time (some (pos zero)) later = later
or_time none later = later
or_time t later = ok t

-- `max(0, b - a)`, if both are known
pub span : Option ℤ → Option ℤ → Option ℕ
span (some a) (some b) = some (pos_part (b -ℤ a))
span _ _ = none

module _ (w : World) where
  -- The loop, from its n-th turn
  pub loop : ℕ → ℕ → Json → Result Exception Ended
  loop fuel n code =
      poll (λ i. ltb_ℤ (w.poll i).at (w.begun_at +ℤ w.job_timeout))
        (λ i again c. turn again c (w.poll i).after (w.poll i).reply)
        (λ i c. ok (gave_up (w.poll i).after)) (ok out_of_fuel) fuel n code

  -- An outcome without times of the server
  pub untimed : Json → Status → Json → Option ℤ → ℤ → Outcome
  untimed id s code accepted finished = record {
    job_id = id;
    status = s;
    error_code = code;
    submitted_at = w.submitted_at;
    accepted_at = accepted;
    finished_at = finished;
    queued = none;
    run = none;
  }

  -- The end of a job that has become terminal: its times and its error code
  pub finish : Json → Status → Json → Json → ℤ → Result Exception Outcome
  finish id s job code at = do
    submitted_text ← get job (txt "submitted_at")
    first ← iso_ms w.from_iso submitted_text
    submitted ← or_time first (do q ← get job (txt "queued_at"); iso_ms w.from_iso q)
    started_text ← get job (txt "started_at")
    started ← iso_ms w.from_iso started_text
    finished_text ← get job (txt "finished_at")
    finished ← iso_ms w.from_iso finished_text
    last ← final_code s code w.result
    ok (record (untimed id s last (some w.answered_at) at) {
      queued = span submitted started;
      run = span started finished;
    })

  -- What follows the loop
  pub conclude : Json → Ended → Result Exception (Option Outcome)
  conclude id out_of_fuel = ok none
  conclude id (gave_up at) =
      ok (some (untimed id timeout (str (txt "driver_timeout")) (some w.answered_at) at))
  conclude id (terminal s job code at) = do o ← finish id s job code at; ok (some o)

  -- From the test of the job's id on
  pub follow : ℕ → Json → Result Exception (Option Outcome)
  follow fuel id =
      if not (truthy id)
      then ok (
          some (untimed id rejected (str (txt "missing_job_id")) (some w.answered_at) w.missing_at))
      else do ended ← loop fuel 0 null; conclude id ended

  -- From the answer to the submission on
  pub after_post : ℕ → Reply → Result Exception (Option Outcome)
  after_post fuel (api_error c) = ok (some (untimed null rejected c none w.answered_at))
  after_post fuel (answered body) = do
    response ← get body (txt "data")
    id ← get (py_or response (obj end)) (txt "id")
    follow fuel id

  -- `run_job`; none is an outcome that the fuel does not reach.
  pub run_job : ℕ → Result Exception (Option Outcome)
  run_job fuel = after_post fuel w.posted
