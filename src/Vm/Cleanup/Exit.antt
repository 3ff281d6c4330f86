-- ===== src/Vm/Cleanup/Exit.antt =====
-- vm/e2e.py: how `run` ends, once its work has.
use omashiki.Common.{ℕ, Bool, ◌&&◌, ◌==◌, if◌then◌else◌}
use omashiki.Common.Text.{txt}
use omashiki.Vm.Cleanup.{flag, texts, State, World, put, flag_step, status_of, returned, is_true}
use omashiki.Vm.Cleanup.Steps.{cleanup, same_key}

-- How the work has ended: a `Blocker`, another exception, or success
pub data Work : Type 0 where
  success blocked failed : Work

-- `report["status"]`
pub data Status : Type 0 where
  succeeded is_blocked is_failed failed_cleanup failed_sla : Status

-- `exit_code` and `report["status"]` at the end of the work
unfoldable pub after_work : Work → ℕ × Status
after_work success = (0, succeeded)
after_work blocked = (2, is_blocked)
after_work failed = (1, is_failed)

-- `exit_code` and `report["status"]` at the end of the `finally` clause
unfoldable pub exit_of : Bool → Bool → ℕ × Status → ℕ × Status
exit_of complete within_sla (code, status) =
    let after : ℕ × Status =
      if complete
      then (code, status)
      else if code == 0
      then (1, failed_cleanup)
      else (code, status) in
    if within_sla then after else (1, failed_sla)

-- The `finally` clause behind the cleanup: the removal of the state, and the exit
unfoldable pub finish : World → Bool → ℕ × Status → State → State × (ℕ × Status)
unfolding status_of returned flag_step exit_of
finish w within_sla exit s =
    let t = same_key "state_removed" w.remove_state s in
    let complete = is_true (status_of (txt "complete") t) && returned w.remove_state in
    (
      put (txt "errors") (texts t.errors) (put (txt "complete") (flag complete) t),
      exit_of complete within_sla exit,
    )

-- `run`, from the end of its work on
unfoldable pub run : World → Work → Bool → State → State × (ℕ × Status)
unfolding cleanup finish after_work
run w work within_sla s = finish w within_sla (after_work work) (cleanup w s)
