-- ===== src/FakeLlm/Stats/Examples.antt =====
-- Three requests, two of which leave.
use omashiki.Common.{refl, Option, none, some, List, [], ◌∷◌}
use omashiki.Common.Text.{Text, txt}
use omashiki.FakeLlm.Stats.{tool_calls, stop, Stats, empty, enter, leave}
use omashiki.FakeLlm.Stats.Invariant.{
  Run, enters, leaves, Reach, start, next, IsSound, Reach-IsSound,
}
use omashiki.FakeLlm.Stats.Log.{Event, opened, closed, cleared, since_reset, replay, Refines}
use omashiki.FakeLlm.Stats.Log.Refined.{replay-Refines}

abbrev job : Option Text
job = some (txt "job-1")

abbrev stats : Stats
stats = leave (some tool_calls) job (enter none (enter job empty))

abbrev last : Run
last = record { stats = stats; running = none ∷ [] }

reached : Reach last
reached =
    next (next (next start (enters job refl)) (enters none refl))
      (leaves (none ∷ []) [] job (some tool_calls) refl refl)

Reach-IsSound_example : IsSound last
Reach-IsSound_example = Reach-IsSound last reached

-- Two requests are open at the reset, and one of them leaves after it.
abbrev calls : List Event
calls = closed (some stop) job ∷ opened job ∷ cleared ∷ opened none ∷ opened job ∷ []

replay-Refines_example : Refines (since_reset calls) (replay calls)
replay-Refines_example = replay-Refines calls
