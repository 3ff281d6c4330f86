-- ===== src/FakeLlm/Stats/Invariant.antt =====
-- Requests that run at the same time: each enters once and leaves once, in any order.
use omashiki.Common.{
  ℕ, suc, ◌+◌, ◌≤◌, ◌≡◌, refl, ap, sym, subst, ◌∙◌, Option, none, some, List, [], ◌∷◌, ◌++◌, length,
  length-append, ltb, if◌then◌else◌, arith, Bool-cases, inl, inr,
}
use omashiki.Common.Int.{ℤ, pos, ◌+ℤ◌, ◌-ℤ◌, ltb_ℤ}
use omashiki.Common.Text.{Text}
use omashiki.FakeLlm.Stats.{
  FinishReason, tool_calls, stop, add, discard, Stats, empty, mark, enter_marker, enter,
  leave_marker, finish, leave,
}

-- The counters and the markers of the requests that have entered and not left.
pub record Run : Type 0 where
  pub stats : Stats
  pub running : List (Option Text)

pub data Step (r : Run) : Run → Type 0 where
  enters :
      (marker : Option Text) {r' : Run}
      → r' ≡ record { stats = enter marker r.stats; running = marker ∷ r.running }
      → Step r r'
  leaves :
      (before after : List (Option Text)) (marker : Option Text) (reason : Option FinishReason)
      {r' : Run}
      → r.running ≡ before ++ marker ∷ after
      → r' ≡ record { stats = leave reason marker r.stats; running = before ++ after }
      → Step r r'

pub data Reach : Run → Type 0 where
  start : Reach (record { stats = empty; running = [] })
  next : {r r' : Run} → Reach r → Step r r' → Reach r'

-- What the counters mean.
pub record IsSound (r : Run) : Type 0 where
  pub open_requests : r.stats.in_flight ≡ pos (length r.running)
  pub peak : ℕ
  pub peak_eq : r.stats.peak_in_flight ≡ pos peak
  pub peak_reached : length r.running ≤ peak
  pub peak_bound : peak ≤ r.stats.total
  pub finished : r.stats.completions ≡ r.stats.tool_call_turns + r.stats.stops
  pub accounted : r.stats.completions + length r.running ≤ r.stats.total
  pub active : length r.stats.active_markers ≤ r.stats.job_marker_peak

length-add : (m : Text) (xs : List Text) → length (add m xs) ≤ length xs + 1
unfolding add
length-add m xs = ground arith

length-discard : (m : Text) (xs : List Text) → length (discard m xs) ≤ length xs
unfolding discard
length-discard m [] = omega arith
length-discard m (x ∷ xs) = ground (arith, length-discard m xs)

-- The counters after `enter` do not depend on the marker.
module _ (s : Stats) where
  pub enter_marker-counts :
      (m : Option Text)
      → ((enter_marker m s).total ≡ s.total)
        × ((enter_marker m s).completions ≡ s.completions)
        × ((enter_marker m s).tool_call_turns ≡ s.tool_call_turns)
        × ((enter_marker m s).stops ≡ s.stops)
        × ((enter_marker m s).in_flight ≡ s.in_flight)
        × ((enter_marker m s).peak_in_flight ≡ s.peak_in_flight)
  unfolding enter_marker
  enter_marker-counts none = (refl, refl, refl, refl, refl, refl)
  enter_marker-counts (some m) = (refl, refl, refl, refl, refl, refl)

  enter_marker-active :
      (m : Option Text)
      → length s.active_markers ≤ s.job_marker_peak
      → length (enter_marker m s).active_markers ≤ (enter_marker m s).job_marker_peak
  unfolding enter_marker
  enter_marker-active none h = h
  enter_marker-active (some m) h = ground arith

next_peak :
    (n peak total : ℕ) (flying top : ℤ)
    → flying ≡ pos n
    → top ≡ pos peak
    → n ≤ peak
    → peak ≤ total
    → n ≤ total
    → (p : ℕ) × ((if ltb_ℤ top (flying +ℤ pos 1) then flying +ℤ pos 1 else top) ≡ pos p)
      × (suc n ≤ p)
      × (p ≤ total + 1)
next_peak n peak total flying top f t h k l = elim (Bool-cases (ltb peak (n + 1))) [
  | inl e ↦ (n + 1, unfold ◌+ℤ◌ in ground arith, omega arith, omega arith)
  | inr e ↦ (peak, unfold ◌+ℤ◌ in ground arith, ground arith, omega arith)
]

plus_one : (n : ℕ) (flying : ℤ) → flying ≡ pos n → flying +ℤ pos 1 ≡ pos (suc n)
unfolding ◌+ℤ◌
plus_one n flying f = ground arith

minus_one : (n : ℕ) (flying : ℤ) → flying ≡ pos (suc n) → flying -ℤ pos 1 ≡ pos n
unfolding ◌-ℤ◌
minus_one n flying f = ground arith

enter-IsSound :
    (marker : Option Text) (r : Run)
    → IsSound r
    → IsSound (record { stats = enter marker r.stats; running = marker ∷ r.running })
unfolding enter
enter-IsSound marker r h =
    let n = length r.running in
    let s = r.stats in
    let now = s.in_flight +ℤ pos 1 in
    let s' : Stats = record s {
      total = s.total + 1;
      in_flight = now;
      peak_in_flight = if ltb_ℤ s.peak_in_flight now then now else s.peak_in_flight;
    } in
    let (total, done, turns, stops, flying, top) = enter_marker-counts s' (mark marker) in
    let (p, p_eq, reached, bound) =
      next_peak n h.peak s.total s.in_flight s.peak_in_flight h.open_requests h.peak_eq
        h.peak_reached h.peak_bound (omega (arith, h.accounted)) in
    record {
      open_requests = flying ∙ plus_one n s.in_flight h.open_requests;
      peak = p;
      peak_eq = top ∙ p_eq;
      peak_reached = reached;
      peak_bound = omega (arith, total, bound);
      finished = omega (arith, done, turns, stops, h.finished);
      accounted = omega (arith, done, total, h.accounted);
      active = enter_marker-active s' (mark marker) h.active;
    }

module _ (s : Stats) where
  pub finish-counts :
      (reason : Option FinishReason)
      → ((finish reason s).total ≡ s.total)
        × ((finish reason s).in_flight ≡ s.in_flight)
        × ((finish reason s).peak_in_flight ≡ s.peak_in_flight)
        × ((finish reason s).active_markers ≡ s.active_markers)
        × ((finish reason s).job_marker_peak ≡ s.job_marker_peak)
        × ((finish reason s).completions ≤ s.completions + 1)
        × (s.completions ≡ s.tool_call_turns + s.stops
            → (finish reason s).completions
              ≡ (finish reason s).tool_call_turns + (finish reason s).stops)
  unfolding finish
  finish-counts none = (refl, refl, refl, refl, refl, omega arith, λ e. e)
  finish-counts (some tool_calls) =
      (refl, refl, refl, refl, refl, omega arith, λ e. omega (arith, e))
  finish-counts (some stop) = (refl, refl, refl, refl, refl, omega arith, λ e. omega (arith, e))

pub length-leave_marker :
    (m : Option Text) (active : List Text) → length (leave_marker m active) ≤ length active
unfolding leave_marker
length-leave_marker none active = omega arith
length-leave_marker (some m) active = length-discard m active

leave-IsSound :
    (before after : List (Option Text)) (marker : Option Text) (reason : Option FinishReason)
    (r : Run)
    → r.running ≡ before ++ marker ∷ after
    → IsSound r
    → IsSound (record { stats = leave reason marker r.stats; running = before ++ after })
unfolding leave
leave-IsSound before after marker reason r e h =
    let s = r.stats in
    let s' : Stats = record s {
      in_flight = s.in_flight -ℤ pos 1;
      active_markers = leave_marker (mark marker) s.active_markers;
    } in
    let n = length (before ++ after) in
    let size : length r.running ≡ suc n =
      ap length e
      ∙ omega (arith, length-append before (marker ∷ after), length-append before after) in
    let (total, flying, top, active, markers, done, balance) = finish-counts s' reason in
    record {
      open_requests = flying ∙ minus_one n s.in_flight (h.open_requests ∙ ap pos size);
      peak = h.peak;
      peak_eq = top ∙ h.peak_eq;
      peak_reached = omega (arith, h.peak_reached, size);
      peak_bound = omega (arith, total, h.peak_bound);
      finished = balance h.finished;
      accounted = omega (arith, total, done, h.accounted, size);
      active = omega (
        arith,
        ap length active,
        markers,
        h.active,
        length-leave_marker (mark marker) s.active_markers,
      );
    }

Step-IsSound : {r r' : Run} → Step r r' → IsSound r → IsSound r'
Step-IsSound {r} (enters marker e) h = subst IsSound (sym e) (enter-IsSound marker r h)
Step-IsSound {r} (leaves before after marker reason split e) h =
    subst IsSound (sym e) (leave-IsSound before after marker reason r split h)

-- In whatever order requests enter and leave, as long as nobody resets the counters: `in_flight` is
-- the number of requests between the two, the peak is at least that and at most the total, the
-- completions are the tool turns and the stops, and with the requests in flight they are at most
-- the total; no more markers are active than `job_marker_peak` says.
pub Reach-IsSound : (r : Run) → Reach r → IsSound r
Reach-IsSound _ start = record {
  open_requests = refl;
  peak = 0;
  peak_eq = refl;
  peak_reached = omega arith;
  peak_bound = omega arith;
  finished = omega arith;
  accounted = omega arith;
  active = omega arith;
}
Reach-IsSound r (next {r = before} reached step) = Step-IsSound step (Reach-IsSound before reached)
