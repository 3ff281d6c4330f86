-- ===== src/FakeLlm/Stats/Log/Refined.antt =====
-- Each method keeps the counters true to the log.
use omashiki.Common.{
  ℕ, ◌+◌, ◌≤◌, ◌≡◌, refl, ap, sym, subst, ◌∙◌, not, ◌&&◌, ◌||◌, ◌⊎◌, inl, Option, none, some, List,
  [], ◌∷◌, length, if◌then◌else◌, arith,
}
use omashiki.Common.Int.{pos, ◌+ℤ◌, ◌-ℤ◌, ◌≤ℤ◌, ltb_ℤ}
use omashiki.Common.Text.{Text}
use omashiki.FakeLlm.Stats.{
  FinishReason, tool_calls, stop, member, Stats, mark, enter_marker, enter, leave_marker, finish,
  leave,
}
use omashiki.FakeLlm.Stats.Invariant.{enter_marker-counts, finish-counts, length-leave_marker}
use omashiki.FakeLlm.Stats.Log.{
  Event, opened, closed, cleared, replay, since_reset, tally, is_opened, is_closed, is_finished,
  is_call, is_stop, open_count, is_named, Always, Once, Refines,
}
use omashiki.FakeLlm.Stats.Log.Sets.{enter_marker-member, leave_marker-member}
use omashiki.FakeLlm.Stats.Log.Peaks.{
  Always-now, IsPeak-next, larger_ℤ, trans_ℤ, trans_ℕ, one_more, one_less, less_≤ℤ,
  enter_marker-peak,
}

marked : List Event → ℕ
unfolding replay
marked past = length (replay past).active_markers

opened-Refines :
    (marker : Option Text) (es : List Event)
    → Refines es (replay es)
    → Refines (opened marker ∷ es) (replay (opened marker ∷ es))
unfolding replay marked
opened-Refines marker es h =
    let s = replay es in
    let e = opened marker in
    let now = s.in_flight +ℤ pos 1 in
    let s' : Stats = record s {
      total = s.total + 1;
      in_flight = now;
      peak_in_flight = if ltb_ℤ s.peak_in_flight now then now else s.peak_in_flight;
    } in
    let o = mark marker in
    let (total, done, turns, stops, flying, top) = enter_marker-counts s' o in
    let level : now ≡ open_count (e ∷ es) =
      ap (λ z. z +ℤ pos 1) h.in_flight ∙ sym (one_more (tally is_opened es) (tally is_closed es)) in
    let (up, over, either) = larger_ℤ s.peak_in_flight now in
    let (bound, reached) =
      IsPeak-next ◌≤ℤ◌ trans_ℤ open_count e es s.peak_in_flight s'.peak_in_flight up
        (subst (λ z. z ≤ℤ s'.peak_in_flight) level over)
        (subst (λ z. (s'.peak_in_flight ≡ s.peak_in_flight) ⊎ (s'.peak_in_flight ≡ z)) level either)
        (h.peak_bound, h.peak_reached) in
    let (up_m, over_m, either_m) =
      enter_marker-peak o s'
        (Always-now (λ past. marked past ≤ s.job_marker_peak) es h.marker_bound) in
    let (bound_m, reached_m) =
      IsPeak-next ◌≤◌ trans_ℕ marked e es s.job_marker_peak (enter_marker o s').job_marker_peak up_m
        over_m either_m (h.marker_bound, h.marker_reached) in
    record {
      total = omega (arith, total, h.total);
      completions = done ∙ h.completions;
      tool_call_turns = turns ∙ h.tool_call_turns;
      stops = stops ∙ h.stops;
      in_flight = flying ∙ level;
      peak_bound = subst (λ z. Always (λ past. open_count past ≤ℤ z) (e ∷ es)) (sym top) bound;
      peak_reached = subst (λ z. Once (λ past. open_count past ≡ z) (e ∷ es)) (sym top) reached;
      job_markers =
          λ m. (enter_marker-member o s' m).1 ∙ ap (λ b. is_named m o || b) (h.job_markers m);
      active_markers =
          λ m. (enter_marker-member o s' m).0 ∙ ap (λ b. is_named m o || b) (h.active_markers m);
      marker_bound = bound_m;
      marker_reached = reached_m;
    }

-- The end of `leave`, once the request is closed
module _ (marker : Option Text) (es : List Event) (h : Refines es (replay es)) where
  s : Stats
  s = replay es

  after_leave : Stats
  unfolding s
  after_leave = record s {
    in_flight = s.in_flight -ℤ pos 1;
    active_markers = leave_marker (mark marker) s.active_markers;
  }

  closed-Refines :
      (reason : Option FinishReason)
      → Refines (closed reason marker ∷ es) (replay (closed reason marker ∷ es))
  unfolding after_leave replay marked s
  closed-Refines reason =
      let e = closed reason marker in
      let o = mark marker in
      let (total, flying, top, active, markers, _, _) = finish-counts after_leave reason in
      let opens = tally is_opened es in
      let closes = tally is_closed es in
      let level : s.in_flight -ℤ pos 1 ≡ open_count (e ∷ es) =
        ap (λ z. z -ℤ pos 1) h.in_flight ∙ sym (one_less opens closes) in
      let down = less_≤ℤ s.in_flight s.peak_in_flight (
        subst (λ z. z ≤ℤ s.peak_in_flight) (sym h.in_flight)
          (Always-now (λ past. open_count past ≤ℤ s.peak_in_flight) es h.peak_bound)) in
      let (bound, reached) =
        IsPeak-next ◌≤ℤ◌ trans_ℤ open_count e es s.peak_in_flight s.peak_in_flight (omega arith)
          (subst (λ z. z ≤ℤ s.peak_in_flight) level down) (inl refl)
          (h.peak_bound, h.peak_reached) in
      let fewer : marked (e ∷ es) ≤ s.job_marker_peak = omega (
        arith,
        ap length active,
        length-leave_marker o s.active_markers,
        Always-now (λ past. marked past ≤ s.job_marker_peak) es h.marker_bound,
      ) in
      let (bound_m, reached_m) =
        IsPeak-next ◌≤◌ trans_ℕ marked e es s.job_marker_peak s.job_marker_peak (omega arith) fewer
          (inl refl) (h.marker_bound, h.marker_reached) in
      let (completions, turns, stops) = finish-tallies reason in
      record {
        total = total ∙ h.total;
        completions = completions;
        tool_call_turns = turns;
        stops = stops;
        in_flight = flying ∙ level;
        peak_bound = subst (λ z. Always (λ past. open_count past ≤ℤ z) (e ∷ es)) (sym top) bound;
        peak_reached = subst (λ z. Once (λ past. open_count past ≡ z) (e ∷ es)) (sym top) reached;
        job_markers = λ m. ap (member m) (finish-job_markers reason) ∙ h.job_markers m;
        active_markers = λ m.
            ap (member m) active
            ∙ leave_marker-member o s.active_markers m
            ∙ ap (λ b. not (is_named m o) && b) (h.active_markers m);
        marker_bound = subst (λ z. Always (λ past. marked past ≤ z) (e ∷ es)) (sym markers) bound_m;
        marker_reached =
            subst (λ z. Once (λ past. marked past ≡ z) (e ∷ es)) (sym markers) reached_m;
      }
    where
      finish-tallies :
          (reason : Option FinishReason)
          → ((finish reason after_leave).completions
              ≡ tally is_finished (closed reason marker ∷ es))
            × ((finish reason after_leave).tool_call_turns
                ≡ tally is_call (closed reason marker ∷ es))
            × ((finish reason after_leave).stops ≡ tally is_stop (closed reason marker ∷ es))
      finish-tallies none = (h.completions, h.tool_call_turns, h.stops)
      finish-tallies (some tool_calls) =
          (omega (arith, h.completions), omega (arith, h.tool_call_turns), h.stops)
      finish-tallies (some stop) =
          (omega (arith, h.completions), h.tool_call_turns, omega (arith, h.stops))

      finish-job_markers :
          (reason : Option FinishReason) → (finish reason after_leave).job_markers ≡ s.job_markers
      finish-job_markers none = refl
      finish-job_markers (some tool_calls) = refl
      finish-job_markers (some stop) = refl

empty-Refines : Refines [] (replay [])
unfolding replay member
empty-Refines = record {
  total = refl;
  completions = refl;
  tool_call_turns = refl;
  stops = refl;
  in_flight = unfold ◌-ℤ◌ in refl;
  peak_bound = unfold ◌-ℤ◌ in omega arith;
  peak_reached = unfold ◌-ℤ◌ in refl;
  job_markers = λ m. refl;
  active_markers = λ m. refl;
  marker_bound = omega arith;
  marker_reached = refl;
}

since_reset-Refines : (es : List Event) → Refines (since_reset es) (replay (since_reset es))
since_reset-Refines [] = empty-Refines
since_reset-Refines (cleared ∷ es) = empty-Refines
since_reset-Refines (opened marker ∷ es) =
    opened-Refines marker (since_reset es) (since_reset-Refines es)
since_reset-Refines (closed reason marker ∷ es) =
    closed-Refines marker (since_reset es) (since_reset-Refines es) reason

replay-since_reset : (es : List Event) → replay es ≡ replay (since_reset es)
unfolding replay
replay-since_reset [] = refl
replay-since_reset (cleared ∷ es) = refl
replay-since_reset (opened marker ∷ es) = ap (enter marker) (replay-since_reset es)
replay-since_reset (closed reason marker ∷ es) = ap (leave reason marker) (replay-since_reset es)

-- The class refines its log. Whatever the methods have been called with, in whatever order, the
-- counters tell of the calls since the last reset: `total`, `completions`, `tool_call_turns` and `stops`
-- are the numbers of the calls of each kind, and `in_flight` is the number of `enter`s less that of
-- `leave`s, so it is negative where requests that were open at the reset have left; `peak_in_flight` is
-- the greatest that this number has been since then. A text is in `job_markers` if it was the marker of
-- an `enter`, and in `active_markers` if the last call with this marker was an `enter`; `job_marker_peak` is
-- the greatest number of active markers that there has been.
pub replay-Refines : (es : List Event) → Refines (since_reset es) (replay es)
replay-Refines es =
    subst (Refines (since_reset es)) (sym (replay-since_reset es)) (since_reset-Refines es)
