-- ===== src/FakeLlm/Stats.antt =====
-- The class `Stats`: each method runs under the lock, so it is one step.
mod Examples
pub mod Invariant
pub mod Log
pub mod Reset
use omashiki.Common.{
  ℕ, suc, ◌+◌, Bool, true, false, ◌||◌, Option, none, some, List, [], ◌∷◌, length, any, ltb,
  if◌then◌else◌,
}
use omashiki.Common.Int.{ℤ, pos, ◌+ℤ◌, ◌-ℤ◌, ltb_ℤ}
use omashiki.Common.Text.{Text, text_eq, is_empty}

pub data FinishReason : Type 0 where
  tool_calls stop : FinishReason

-- A set of texts: no text twice.
pub member : Text → List Text → Bool
member m xs = any (λ x. text_eq x m) xs

-- `s.add(m)`
pub add : Text → List Text → List Text
unfolding member
add m xs = if member m xs then xs else m ∷ xs

-- `s.discard(m)`
pub discard : Text → List Text → List Text
discard m [] = []
discard m (x ∷ xs) = let rest = discard m xs in if text_eq x m then rest else x ∷ rest

pub record Stats : Type 0 where
  pub total : ℕ
  pub completions : ℕ
  pub tool_call_turns : ℕ
  pub stops : ℕ
  pub in_flight : ℤ
  pub peak_in_flight : ℤ
  pub active_markers : List Text
  pub job_markers : List Text
  pub job_marker_peak : ℕ

-- `reset`, and so the state of a new object
abbrev pub empty : Stats
empty = record {
  total = 0;
  completions = 0;
  tool_call_turns = 0;
  stops = 0;
  in_flight = pos 0;
  peak_in_flight = pos 0;
  active_markers = [];
  job_markers = [];
  job_marker_peak = 0;
}

pub reset : Stats → Stats
reset s = empty

-- `if marker:`
abbrev pub mark : Option Text → Option Text
mark none = none
mark (some m) = if is_empty m then none else some m

pub enter_marker : Option Text → Stats → Stats
unfolding add
enter_marker none s = s
enter_marker (some m) s =
    let active = add m s.active_markers in
    record s {
      active_markers = active;
      job_markers = add m s.job_markers;
      job_marker_peak =
          if ltb s.job_marker_peak (length active) then length active else s.job_marker_peak;
    }

pub enter : Option Text → Stats → Stats
unfolding enter_marker
enter marker s =
    let now = s.in_flight +ℤ pos 1 in
    enter_marker (mark marker) (record s {
      total = s.total + 1;
      in_flight = now;
      peak_in_flight = if ltb_ℤ s.peak_in_flight now then now else s.peak_in_flight;
    })

pub leave_marker : Option Text → List Text → List Text
unfolding discard
leave_marker none active = active
leave_marker (some m) active = discard m active

pub finish : Option FinishReason → Stats → Stats
finish none s = s
finish (some tool_calls) s = record s {
  completions = s.completions + 1;
  tool_call_turns = s.tool_call_turns + 1;
}
finish (some stop) s = record s { completions = s.completions + 1; stops = s.stops + 1 }

pub leave : Option FinishReason → Option Text → Stats → Stats
unfolding leave_marker finish
leave reason marker s = finish reason (record s {
  in_flight = s.in_flight -ℤ pos 1;
  active_markers = leave_marker (mark marker) s.active_markers;
})
