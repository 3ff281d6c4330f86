-- ===== src/Drive/RunJob/Examples.antt =====
-- A job whose first poll fails and whose second one finds it succeeded.
use omashiki.Common.{ℕ, zero, suc, ◌≢◌, refl, none, ok, arith}
use omashiki.Common.Int.{pos, ◌+ℤ◌, ◌-ℤ◌}
use omashiki.Common.Text.{txt, text_eq}
use omashiki.Common.Poll.{poll}
use omashiki.Json.{Json, str, obj, end, field, truthy, py_or, find, get_or, get_attr}
use omashiki.Drive.RunJob.{
  Reply, answered, api_error, World, data_of, iso_ms, or_time, span, final_code, terminal_status,
  turn, loop, untimed, finish, conclude, run_job,
}
use omashiki.Drive.RunJob.Laws.{run_job-ends}

abbrev job : Json
job = obj (field (txt "status") (str (txt "succeeded")) end)

abbrev body : Json
body = obj (field (txt "data") job end)

abbrev lost : Json
lost = str (txt "transport_error")

abbrev reply_at : ℕ → Reply
reply_at zero = api_error lost
reply_at (suc n) = answered body

abbrev world : World
world = record {
  submitted_at = pos 0;
  posted = answered (obj (field (txt "data") (obj (field (txt "id") (str (txt "j1")) end)) end));
  answered_at = pos 0;
  missing_at = pos 0;
  begun_at = pos 0;
  job_timeout = pos 5;
  poll = λ n. record { at = pos n; reply = reply_at n; after = pos n };
  result = answered (obj end);
  from_iso = λ t. none;
}

runs : Unit {0}
unfolding ◌+ℤ◌ ◌-ℤ◌ txt text_eq truthy py_or find get_or get_attr data_of iso_ms or_time span
    final_code terminal_status turn poll loop untimed finish conclude
runs = tt

run_job-ends_example : run_job world 6 ≢ ok none
run_job-ends_example = run_job-ends world 6 5 (unfold ◌+ℤ◌ in refl) (omega arith)
