-- ===== src/Drive/Envelope.antt =====
-- The envelope that `run_job` submits.
pub mod Laws
use omashiki.Common.{ℕ, zero, suc, ◌-◌, List, [], ◌∷◌, ◌++◌, length}
use omashiki.Common.Int.{ℤ}
use omashiki.Common.Text.{Text, txt, decimal}
use omashiki.Json.{Json, int, str, obj, dict}

-- The arguments of the command line that the envelope uses.
pub record Args : Type 0 where
  pub repo : Text
  pub environment : Text
  pub priority : ℤ
  pub instruction : Text

-- n times the character "0"
pub zeros : ℕ → Text
zeros zero = []
zeros (suc n) = b'0' ∷ zeros n

-- `f"{index:05d}"`
pub pad : ℕ → Text
unfolding zeros
pad index = zeros (5 - length (decimal index)) ++ decimal index

-- `f"loadtest-{correlation_id}-{index:05d}"`
pub job_name : Text → ℕ → Text
unfolding pad
job_name correlation index = txt "loadtest-" ++ (correlation ++ (txt "-" ++ pad index))

pub envelope : Args → Text → ℕ → Json
unfolding job_name
envelope args correlation index =
    let context =
      obj (dict ((txt "loadtest", str correlation) ∷ (txt "index", str (decimal index)) ∷ [])) in
    let payload = obj (
      dict (
        (txt "instruction", str args.instruction)
        ∷ (txt "title", str (job_name correlation index))
        ∷ (txt "context", context)
        ∷ [])) in
    obj (
      dict (
        (txt "idempotency_key", str (job_name correlation index))
        ∷ (txt "correlation_id", str correlation)
        ∷ (txt "repo", str args.repo)
        ∷ (txt "environment", str args.environment)
        ∷ (txt "priority", int args.priority)
        ∷ (txt "payload", payload)
        ∷ []))
