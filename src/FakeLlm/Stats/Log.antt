-- ===== src/FakeLlm/Stats/Log.antt =====
-- The counters as a view of the log: what the methods of `Stats` have been called with, newest first.
pub mod Peaks
pub mod Refined
pub mod Sets
use omashiki.Common.{
  ℕ, suc, ◌+◌, ◌≤◌, ◌≡◌, refl, ap, sym, subst, ◌∙◌, Bool, true, false, not, ◌&&◌, ◌||◌, ◌⊎◌, inl,
  inr, Option, none, some, List, [], ◌∷◌, length, ltb, if◌then◌else◌, arith, Bool-cases,
}
use omashiki.Common.Int.{ℤ, pos, ◌+ℤ◌, ◌-ℤ◌, ◌≤ℤ◌, ltb_ℤ}
use omashiki.Common.Text.{Text, text_eq, text_eq_sound}
use omashiki.FakeLlm.Stats.{
  FinishReason, tool_calls, stop, member, add, discard, Stats, empty, reset, mark, enter_marker,
  enter, leave_marker, finish, leave,
}
use omashiki.FakeLlm.Stats.Invariant.{enter_marker-counts, finish-counts, length-leave_marker}

pub data Event : Type 0 where
  opened : Option Text → Event
  closed : Option FinishReason → Option Text → Event
  cleared : Event

pub apply : Event → Stats → Stats
unfolding enter leave reset
apply (opened marker) s = enter marker s
apply (closed reason marker) s = leave reason marker s
apply cleared s = reset s

-- The counters after the calls
pub replay : List Event → Stats
unfolding apply
replay [] = empty
replay (e ∷ es) = apply e (replay es)

-- The calls since the last reset
abbrev pub since_reset : List Event → List Event
since_reset [] = []
since_reset (cleared ∷ es) = []
since_reset (e ∷ es) = e ∷ since_reset es

abbrev pub tally : (Event → Bool) → List Event → ℕ
tally p [] = 0
tally p (e ∷ es) = let n = tally p es in if p e then suc n else n

abbrev pub is_opened : Event → Bool
is_opened (opened marker) = true
is_opened _ = false

abbrev pub is_closed : Event → Bool
is_closed (closed reason marker) = true
is_closed _ = false

abbrev pub is_finished : Event → Bool
is_finished (closed (some reason) marker) = true
is_finished _ = false

abbrev pub is_call : Event → Bool
is_call (closed (some tool_calls) marker) = true
is_call _ = false

abbrev pub is_stop : Event → Bool
is_stop (closed (some stop) marker) = true
is_stop _ = false

abbrev pub open_count : List Event → ℤ
open_count es = pos (tally is_opened es) -ℤ pos (tally is_closed es)

abbrev pub is_named : Text → Option Text → Bool
is_named m none = false
is_named m (some x) = text_eq x m

-- Whether a request with this marker was opened
abbrev pub was_named : Text → List Event → Bool
was_named m [] = false
was_named m (opened marker ∷ es) = is_named m (mark marker) || was_named m es
was_named m (e ∷ es) = was_named m es

-- Whether the last event with this marker is that a request was opened
abbrev pub is_active : Text → List Event → Bool
is_active m [] = false
is_active m (opened marker ∷ es) = is_named m (mark marker) || is_active m es
is_active m (closed reason marker ∷ es) = not (is_named m (mark marker)) && is_active m es
is_active m (cleared ∷ es) = false

-- At the end of the log, and at each time before
abbrev pub Always : (List Event → Type 0) → List Event → Type 0
Always P [] = P []
Always P (e ∷ es) = P (e ∷ es) × Always P es

-- At the end of the log, or at some time before
abbrev pub Once : (List Event → Type 0) → List Event → Type 0
Once P [] = P []
Once P (e ∷ es) = P (e ∷ es) ⊎ Once P es

-- What `Stats` promises of a log with no reset
pub record Refines (es : List Event) (s : Stats) : Type 0 where
  pub total : s.total ≡ tally is_opened es
  pub completions : s.completions ≡ tally is_finished es
  pub tool_call_turns : s.tool_call_turns ≡ tally is_call es
  pub stops : s.stops ≡ tally is_stop es
  pub in_flight : s.in_flight ≡ open_count es
  pub peak_bound : Always (λ past. open_count past ≤ℤ s.peak_in_flight) es
  pub peak_reached : Once (λ past. open_count past ≡ s.peak_in_flight) es
  pub job_markers : (m : Text) → member m s.job_markers ≡ was_named m es
  pub active_markers : (m : Text) → member m s.active_markers ≡ is_active m es
  pub marker_bound : Always (λ past. length (replay past).active_markers ≤ s.job_marker_peak) es
  pub marker_reached : Once (λ past. length (replay past).active_markers ≡ s.job_marker_peak) es
