-- ===== src/Vm/Teardown.antt =====
-- vm/e2e.py: the clean-up of a run together with the machines that it stops and removes: the steps
-- "vms_stopped" and "vms_preserved" or "vms_removed" of `cleanup` follow one another, so the second begins
-- where the first has ended.
mod Examples
use omashiki.Common.{
  ℕ, ◌≡◌, refl, ap, sym, ◌∙◌, Bool, true, false, ◌⊎◌, inl, inr, Option, none, some, List, [],
  Result, ok, err,
}
use omashiki.Common.Text.{Text}
use omashiki.Vm.Machines.{World, Trace, remove_owned_vms}
use omashiki.Vm.Machines.Laws.{IsJustified}
use omashiki.Vm.Machines.Gone.{GoneNow, remove_owned_vms-GoneNow}
use omashiki.Vm.Machines.Persisted.{Known, verify_persisted_vms}
use omashiki.Vm.Machines.Persisted.Laws.{
  PreservedNow, verify_persisted_vms-PreservedNow, verify_persisted_vms-Keeps,
}
use omashiki.Vm.Machines.Stop.{stop_owned_vms}
use omashiki.Vm.Machines.Stop.Laws.{owned_vms-Keeps}
use omashiki.Vm.Machines.Stop.Off.{OffNow}
use omashiki.Vm.Machines.Stop.Achieved.{stop_owned_vms-OffNow}
use omashiki.Vm.Cleanup
use omashiki.Vm.Cleanup.{State}
use omashiki.Vm.Cleanup.Steps.{retention}
use omashiki.Vm.Cleanup.Exit.{Work, run}
use omashiki.Vm.Cleanup.Laws.{run-EndedWell}

-- Fuel that does not do counts as an error: then the step has no result.
unfoldable pub stopped : Result Text (Option Bool) → Result Text Bool
stopped (ok (some b)) = ok b
stopped (ok none) = err []
stopped (err e) = err e

module _ (w : World) (in_time : ℕ → Bool) (fuel : ℕ) (owned managed names created : List Text)
    (initial : Text → Option Known) (t : Trace) where
  -- virsh's commands when the machines have been stopped, and when they have then been verified or removed
  abbrev pub after_stop : Trace
  after_stop = (stop_owned_vms w in_time fuel owned t).0

  abbrev pub after_verify : Trace
  after_verify = (verify_persisted_vms w created initial names after_stop).0

  abbrev pub after_remove : Trace
  after_remove = (remove_owned_vms w managed after_stop).0

  -- A run whose machines are `names`: those in `created` it has made, `owned` are stopped, and `managed`
  -- removed, where they are not kept. `initial` gives the snapshots of its start.
  unfoldable pub tearing_down : Cleanup.World → Cleanup.World
  unfolding stopped
  tearing_down c = record c {
    stop_owned_vms = stopped (stop_owned_vms w in_time fuel owned t).1;
    verify_persisted_vms = (verify_persisted_vms w created initial names after_stop).1;
    remove_owned_vms = (remove_owned_vms w managed after_stop).1;
  }

  stopped-ok-true : (r : Result Text (Option Bool)) → stopped r ≡ ok true → r ≡ ok (some true)
  unfolding stopped
  stopped-ok-true (ok (some true)) h = refl
  stopped-ok-true (ok (some false)) h = cc h
  stopped-ok-true (ok none) h = cc h
  stopped-ok-true (err e) h = cc h

  -- What the machines are like at the end: they are kept and as they should be, or they are gone, and
  -- all commands were allowed.
  abbrev pub IsDone : Bool → Type 0
  IsDone keep_vms =
      ((keep_vms ≡ true)
        × PreservedNow w created initial names after_verify
        × IsJustified w after_verify)
      ⊎ ((keep_vms ≡ false) × GoneNow w managed after_remove × IsJustified w after_remove)

  retained-IsDone :
      (c : Cleanup.World) (keep_vms : Bool)
      → c.keep_vms ≡ keep_vms
      → IsJustified w t
      → retention (tearing_down c) ≡ ok true
      → IsDone keep_vms
  unfolding tearing_down retention
  retained-IsDone c true keeps allowed h = inl (
    refl,
    verify_persisted_vms-PreservedNow w created initial names after_stop (rw keeps at h),
    verify_persisted_vms-Keeps w created initial names after_stop
        (owned_vms-Keeps w in_time fuel owned t allowed).0,
  )
  retained-IsDone c false keeps allowed h = inr (
    refl,
    remove_owned_vms-GoneNow w managed after_stop (rw keeps at h),
    (owned_vms-Keeps w in_time fuel managed after_stop
        (owned_vms-Keeps w in_time fuel owned t allowed).0).1,
  )

  -- If a run ends with status 0, and virsh's commands before were each allowed, then at its stop there is no
  -- machine, or virsh has just listed the domains and called each machine among them "shut off". If its
  -- machines are kept, virsh has then just listed them all, each is off and its disk in its place, and it is
  -- described as the harness's, if the run has made it, or else exactly as at the start. If they are not kept,
  -- virsh has then just listed domains none of which is one of them, and found the volume of none. All
  -- commands were allowed.
  pub tearing_down-IsDone :
      (c : Cleanup.World) (work : Work) (within_sla : Bool) (s : State)
      → IsJustified w t
      → (run (tearing_down c) work within_sla s).1.0 ≡ 0
      → ((owned ≡ []) ⊎ OffNow w owned after_stop) × IsDone c.keep_vms
  unfolding tearing_down
  tearing_down-IsDone c work within_sla s allowed h =
      let ended = run-EndedWell (tearing_down c) work within_sla s h in
      (
        stop_owned_vms-OffNow w in_time fuel owned t
            (stopped-ok-true (stop_owned_vms w in_time fuel owned t).1 ended.vms_stopped),
        retained-IsDone c c.keep_vms refl allowed ended.vms_retained,
      )
