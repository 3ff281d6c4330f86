-- ===== src/Drive/Report.antt =====
-- `summarize`, the numbers of `report`, the exit status of `main` and the choice of the concurrency
-- in `parse_args`. Times are in microseconds; the mean is kept as a sum and a number.
pub mod Laws
use omashiki.Common.{
  ℕ, zero, suc, ◌+◌, Bool, true, false, ◌&&◌, Option, none, some, List, [], ◌∷◌, length, min, max,
  filter_list, ◌==◌, leb, if◌then◌else◌,
}
use omashiki.Common.Int.{ℤ, pos, negsuc, ltb_ℤ}
use omashiki.Common.Text.{Text, txt, text_eq}
use omashiki.Json.{Json, str}
use omashiki.Drive.Percentile.{percentile}
use omashiki.Drive.RunJob.{Status, rejected, timeout, succeeded, failed, cancelled, Outcome}

-- `[v for v in values if v is not None]`
pub present : List (Option ℕ) → List ℕ
present [] = []
present (none ∷ vs) = present vs
present (some v ∷ vs) = v ∷ present vs

pub total : List ℕ → ℕ
total [] = 0
total (v ∷ vs) = v + total vs

-- `max(values)` and `min(values)` of values that are not empty, with the first of them
pub greatest : ℕ → List ℕ → ℕ
greatest v [] = v
greatest v (w ∷ ws) = greatest (max v w) ws

pub least : ℕ → List ℕ → ℕ
least v [] = v
least v (w ∷ ws) = least (min v w) ws

pub record Summary : Type 0 where
  pub n : ℕ
  pub p50 : Option ℕ
  pub p95 : Option ℕ
  pub max : ℕ
  pub min : ℕ
  pub sum : ℕ

-- The dictionary of `summarize`, or none for `{"n": 0}`; `rank50` and `rank95` are the ranks of
-- `percentile`.
pub summarize_present : (ℕ → ℤ) → (ℕ → ℤ) → List ℕ → Option Summary
unfolding total greatest least
summarize_present rank50 rank95 [] = none
summarize_present rank50 rank95 (v ∷ vs) = some (record {
  n = length (v ∷ vs);
  p50 = percentile rank50 (v ∷ vs);
  p95 = percentile rank95 (v ∷ vs);
  max = greatest v vs;
  min = least v vs;
  sum = total (v ∷ vs);
})

pub summarize : (ℕ → ℤ) → (ℕ → ℤ) → List (Option ℕ) → Option Summary
unfolding present summarize_present
summarize rank50 rank95 values = summarize_present rank50 rank95 (present values)

pub same_status : Status → Status → Bool
same_status rejected rejected = true
same_status timeout timeout = true
same_status succeeded succeeded = true
same_status failed failed = true
same_status cancelled cancelled = true
same_status _ _ = false

-- `Counter(o.status for o in outcomes)[s]`
pub by_status : Status → List Outcome → ℕ
unfolding same_status
by_status s [] = 0
by_status s (o ∷ os) = (if same_status o.status s then 1 else 0) + by_status s os

-- `o.error_code == "capacity_exhausted"`
pub is_capacity : Json → Bool
is_capacity (str t) = text_eq t (txt "capacity_exhausted")
is_capacity _ = false

-- `len(capacity_rejections)`
pub capacity_rejections : List Outcome → ℕ
unfolding same_status is_capacity
capacity_rejections os = length (
    filter_list (λ o. is_capacity o.error_code)
      (filter_list (λ o. same_status o.status rejected) os))

-- The numbers of `report`, but for the wall clock and the breakdown of errors
pub record Report : Type 0 where
  pub submitted : ℕ
  pub succeeded : ℕ
  pub failed : ℕ
  pub cancelled : ℕ
  pub rejected : ℕ
  pub timeout : ℕ
  pub capacity_exhausted : ℕ
  pub peak_concurrent_attempts : ℕ
  pub queue_wait : Option Summary
  pub execution : Option Summary

abbrev pub queued_of : List Outcome → List (Option ℕ)
queued_of [] = []
queued_of (o ∷ os) = o.queued ∷ queued_of os

abbrev pub run_of : List Outcome → List (Option ℕ)
run_of [] = []
run_of (o ∷ os) = o.run ∷ run_of os

pub report : (ℕ → ℤ) → (ℕ → ℤ) → List Outcome → ℕ → Report
unfolding by_status capacity_rejections summarize
report rank50 rank95 outcomes peak_active = record {
  submitted = length outcomes;
  succeeded = by_status succeeded outcomes;
  failed = by_status failed outcomes;
  cancelled = by_status cancelled outcomes;
  rejected = length (filter_list (λ o. same_status o.status rejected) outcomes);
  timeout = by_status timeout outcomes;
  capacity_exhausted = capacity_rejections outcomes;
  peak_concurrent_attempts = peak_active;
  queue_wait = summarize rank50 rank95 (queued_of outcomes);
  execution = summarize rank50 rank95 (run_of outcomes);
}

-- The exit status of `main`
pub exit_status : ℕ → Report → ℕ
exit_status jobs r = if r.succeeded == jobs then 0 else 1

-- The number of jobs and the concurrency of `parse_args`; none is its error.
unfoldable pub choose : ℤ → ℤ → Option (ℕ × ℕ)
choose (negsuc n) concurrency = none
choose (pos zero) concurrency = none
choose (pos (suc n)) (pos (suc c)) = some (suc n, min (suc c) (suc n))
choose (pos (suc n)) _ = some (suc n, suc n)
