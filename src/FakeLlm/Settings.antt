-- ===== src/FakeLlm/Settings.antt =====
-- The class `Settings`. Times are in hundredths of a millisecond, so that the percentage of
-- `jitter_pct` is a whole number; the rounding of floats is not modelled.
use omashiki.Common.{ℕ, ◌*◌, min, ◌==◌, if◌then◌else◌}
use omashiki.Common.Int.{ℤ, pos, pos_part, ◌+ℤ◌, ◌-ℤ◌}
use omashiki.Common.Text.{Text}

pub data Scenario : Type 0 where
  generic python_hello : Scenario

pub record Settings : Type 0 where
  pub lat_ms : ℕ
  pub jitter_pct : ℕ
  pub turns : ℕ
  pub model : Text
  pub scenario : Scenario

-- `max(0, n)`
abbrev pub at_least_zero : ℤ → ℕ
at_least_zero n = pos_part n

-- `Settings.__init__`
pub settings : ℤ → ℤ → ℤ → Text → Scenario → Settings
settings lat jitter turns model scenario = record {
  lat_ms = at_least_zero lat;
  jitter_pct = min 100 (at_least_zero jitter);
  turns = at_least_zero turns;
  model = model;
  scenario = scenario;
}

-- `sleep_seconds`; `uniform low high` is what the random generator gives for the two ends.
unfoldable pub sleep : Settings → (ℤ → ℤ → ℤ) → ℕ
sleep s uniform =
    let spread = pos (s.lat_ms * s.jitter_pct) in
    let offset = uniform (pos 0 -ℤ spread) spread in
    if s.jitter_pct == 0 then s.lat_ms * 100 else at_least_zero (pos (s.lat_ms * 100) +ℤ offset)
