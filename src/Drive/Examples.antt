-- ===== src/Drive/Examples.antt =====
-- Runs of the driver's parts on small inputs.
use omashiki.Common.{
  ℕ, ◌≡◌, ◌≤◌, ◌+◌, ◌/◌, ◌↔◌, refl, suc, false, none, some, List, [], ◌∷◌, length, Result, ok, err,
  All,
}
use omashiki.Common.Int.{ℤ, pos}
use omashiki.Common.Text.{Text, txt, text_eq}
use omashiki.Json.{
  Json, null, str, arr, obj, Items, nil, cons, end, field, decode_error, get_attr, get_or, find,
  py_or, truthy,
}
use omashiki.Drive.Percentile.{rank_in, percentile}
use omashiki.Drive.Percentile.Laws.{count_le, count_ge, percentile_rank}
use omashiki.Drive.Client.{
  ApiError, Failure, api, Request, Wire, url_error, Client, request_of, no_answer, read_wire,
  request,
}
use omashiki.Drive.Client.Laws.{Explains, request-Explains}
use omashiki.Drive.Envelope.{Args}
use omashiki.Drive.Envelope.Laws.{envelope-key_injective}
use omashiki.Drive.Preflight.{
  from_failure, rows_of, names_of, is_name, listed, must_list, may_list, find_row, exceeds,
  check_repository, with_repositories, preflight,
}
use omashiki.Drive.Preflight.Laws.{Passed, preflight-Passed}
use omashiki.Drive.Sampler.{
  Sampler, fresh, iterate, list_path, list_from, list_status, counts, record_counts, after_counts,
  sample_once, run,
}
use omashiki.Drive.Sampler.Laws.{greatest, IsPeak, run-IsPeak}
use omashiki.Drive.RunJob.{Status, succeeded, rejected, Outcome}
use omashiki.Drive.Report.{report, exit_status, choose}
use omashiki.Drive.Report.Laws.{Counted, lines_of, report-Accounts, exit_status-eq-zero_iff}

-- The ceiling of half the number.
abbrev half : ℕ → ℤ
half n = pos ((n + 1) / 2)

abbrev times : List ℕ
times = 30 ∷ 10 ∷ 20 ∷ []

percentile_rank_example :
    (x : ℕ) × (percentile half times ≡ some x)
    × (rank_in (half 3) 3 ≤ count_le x times)
    × (suc 3 ≤ count_ge x times + rank_in (half 3) 3)
percentile_rank_example = percentile_rank half 30 (10 ∷ 20 ∷ [])

abbrev client : Client
client = record { base_url = txt "http://127.0.0.1:4010"; token = none; timeout = txt "30.0" }

abbrev refused : Request → Wire
refused r = url_error (txt "refused")

abbrev no_house : ApiError
no_house = record {
  status = 0;
  code = str (txt "transport_error");
  message = str (txt "refused");
  details = obj end;
}

asked :
    request (λ raw. decode_error) (λ raw. txt "") client refused (txt "GET") (txt "/") none
    ≡ err (api no_house)
unfolding request read_wire no_answer
asked = refl

request-Explains_example :
    Explains (refused (request_of client (txt "GET") (txt "/") none)) no_house
request-Explains_example =
    request-Explains (λ raw. decode_error) (λ raw. txt "") client refused (txt "GET") (txt "/") none
      no_house asked

abbrev args : Args
args = record {
  repo = txt "omashiki";
  environment = txt "loadtest";
  priority = pos 1;
  instruction = txt "hello";
}

abbrev index : ℕ
index = 12

envelope-key_injective_example : index ≡ 12
envelope-key_injective_example = envelope-key_injective args (txt "run") index 12 refl

abbrev row : Json
row = obj (field (txt "name") (str (txt "loadtest")) end)

abbrev rows : Items
rows = cons row nil

abbrev house : Text → Result Failure Json
house path = ok (obj (field (txt "data") (arr rows) end))

passed : preflight house (txt "loadtest") (txt "loadtest") (pos 600000) ≡ ok false
unfolding preflight from_failure rows_of names_of is_name listed must_list may_list find_row exceeds
    check_repository with_repositories iterate get_attr get_or find py_or truthy txt text_eq
passed = refl

preflight-Passed_example : Passed house (txt "loadtest") (txt "loadtest")
preflight-Passed_example =
    preflight-Passed house (txt "loadtest") (txt "loadtest") (pos 600000) false passed

fresh-IsPeak : IsPeak fresh
unfolding greatest
fresh-IsPeak = record { greatest_eq = refl; sums = tt }

snapshot :
    (s : Sampler) × (run (λ v. txt "{}") 1 (house ∷ []) fresh ≡ ok (some s)) × (s.peak_active ≡ 2)
unfolding run sample_once after_counts counts list_status list_from list_path record_counts iterate
    get_attr get_or find py_or truthy txt text_eq
snapshot = (_, refl, refl)

run-IsPeak_example : IsPeak snapshot.0
run-IsPeak_example =
    run-IsPeak (λ v. txt "{}") 1 (house ∷ []) fresh snapshot.0 fresh-IsPeak snapshot.1

abbrev outcome : Status → Outcome
outcome s = record {
  job_id = null;
  status = s;
  error_code = null;
  submitted_at = pos 0;
  accepted_at = none;
  finished_at = pos 5;
  queued = some 1;
  run = some 4;
}

abbrev outcomes : List Outcome
outcomes = outcome succeeded ∷ outcome rejected ∷ []

report-Accounts_example :
    Counted outcomes (lines_of (report half half outcomes 2))
    × ((report half half outcomes 2).submitted ≡ length outcomes)
report-Accounts_example = report-Accounts half half outcomes 2

exit_status-eq-zero_iff_example :
    (exit_status (length outcomes) (report half half outcomes 2) ≡ 0)
    ↔ All (λ (o : Outcome). o.status ≡ succeeded) outcomes
exit_status-eq-zero_iff_example = exit_status-eq-zero_iff half half outcomes 2

abbrev n : ℕ
n = 3

chosen : choose (pos 3) (pos 8) ≡ some (n, n)
unfolding choose
chosen = refl
