-- ===== src/Vm/Cleanup/Laws.antt =====
-- What a run that ends with status 0 has cleaned up.
use omashiki.Common.{
  ℕ, zero, suc, ◌≡◌, refl, ap, sym, ◌∙◌, Bool, true, false, ◌&&◌, and-eq-true_iff, List, [], ◌∷◌,
  any, all, All, ok,
}
use native.Mathlib.Omega.{arith}
use omashiki.Common.Text.{Text, txt, text_eq}
use omashiki.Vm.Lines.{Snapshot}
use omashiki.Vm.Cleanup.{
  Value, State, World, cleanup_step, status_of, returned, flag_step, is_empty, is_true, required,
  cleanup_is_complete,
}
use omashiki.Vm.Cleanup.Steps.{
  through, retention, same_key, steps, cleanup, keys_restored, remote_stopped, expected_keys,
}
use omashiki.Vm.Cleanup.Exit.{
  Work, success, blocked, failed, Status, succeeded, after_work, exit_of, finish, run,
}
use omashiki.Vm.Cleanup.Entries.{
  returned_ok, all_found, vms_stopped-entry, retained-entry, keys-entry, database-entry,
  runtime-entry, flag_step-Leaves,
}

-- What a run that has ended well has done
pub record EndedWell (w : World) (work : Work) (within_sla : Bool) (s : State) (status : Status)
    : Type 0 where
  pub worked : work ≡ success
  pub in_time : within_sla ≡ true
  pub status_succeeded : status ≡ succeeded
  pub no_errors : s.errors ≡ []
  pub runtime_removed : w.remove_runtime ≡ ok true
  pub database_removed : w.remove_db ≡ ok true
  pub vms_stopped : w.stop_owned_vms ≡ ok true
  pub vms_retained : retention w ≡ ok true
  pub keys_restored :
      All (λ a. w.restore_authorized a.0 (expected_keys w a.0 a.1) ≡ ok true) w.authorized_snapshots
  pub state_removed : w.remove_state ≡ ok true

all-All {ℓ κ} :
    {A : Type ℓ} {P : A → Type κ} (p : A → Bool) (xs : List A)
    → ((x : A) → p x ≡ true → P x)
    → all p xs ≡ true
    → All P xs
all-All p [] h a = tt
all-All p (x ∷ xs) h a =
    let (here, there) = (and-eq-true_iff (p x) (all p xs)).0 a in (h x here, all-All p xs h there)

keys_restored_ok :
    (w : World) (a : Text × Snapshot)
    → keys_restored w a ≡ true
    → w.restore_authorized a.0 (expected_keys w a.0 a.1) ≡ ok true
unfolding keys_restored
keys_restored_ok w (name, snapshot) h = returned_ok _ h

-- What the test of the cleanup shows
record Completed (w : World) (s : State) : Type 0 where
  quiet : s.errors ≡ []
  found :
      (key : Text)
      → any (text_eq key) (required w.vm_names) ≡ true
      → is_true (status_of key s) ≡ true

nil_of_is_empty : (l : List Text) → is_empty l ≡ true → l ≡ []
nil_of_is_empty [] h = refl
nil_of_is_empty (x ∷ l) h = cc

first_two : (a b c d e : Bool) → (a && b && c && d && e) ≡ true → (a ≡ true) × (b ≡ true)
first_two true true c d e h = (refl, refl)
first_two true false c d e h = cc
first_two false b c d e h = cc

cleanup_is_complete-Completed :
    (w : World) (v : Value) (s : State) → cleanup_is_complete w v s ≡ true → Completed w s
unfolding cleanup_is_complete
cleanup_is_complete-Completed w v s h =
    let (quiet, keys) =
      first_two (is_empty s.errors) (all (λ key. is_true (status_of key s)) (required w.vm_names)) _
        _ _ h in
    record {
      quiet = nil_of_is_empty s.errors quiet;
      found = λ key there.
          all_found (λ k. is_true (status_of k s)) key (required w.vm_names) there keys;
    }

-- The end of a run whose status is 0
exit_of-eq-zero :
    (complete within_sla : Bool) (code : ℕ) (status : Status)
    → (exit_of complete within_sla (code, status)).0 ≡ 0
    → (complete ≡ true)
      × (within_sla ≡ true)
      × (code ≡ 0)
      × ((exit_of complete within_sla (code, status)).1 ≡ status)
unfolding exit_of
exit_of-eq-zero true true code status h = (refl, refl, h, refl)
exit_of-eq-zero false true zero status h = absurd (omega (arith, h))
exit_of-eq-zero false true (suc n) status h = absurd (grind (arith, h))
exit_of-eq-zero true false code status h = absurd (omega (arith, h))
exit_of-eq-zero false false code status h = absurd (omega (arith, h))

finish-Ends :
    (w : World) (within_sla : Bool) (code : ℕ) (status : Status) (s : State)
    → (finish w within_sla (code, status) s).1.0 ≡ 0
    → (within_sla ≡ true)
      × (code ≡ 0)
      × ((finish w within_sla (code, status) s).1.1 ≡ status)
      × (is_true (status_of (txt "complete") s) ≡ true)
      × (w.remove_state ≡ ok true)
      × ((finish w within_sla (code, status) s).0.errors ≡ s.errors)
unfolding finish flag_step cleanup_step txt text_eq
finish-Ends w within_sla code status s h =
    let t = same_key "state_removed" w.remove_state s in
    let (complete, timely, none_left, same) =
      exit_of-eq-zero (is_true (status_of (txt "complete") t) && returned w.remove_state) within_sla
        code status h in
    let (was, gone) =
      (and-eq-true_iff (is_true (status_of (txt "complete") t)) (returned w.remove_state)).0
        complete in
    let removed = returned_ok w.remove_state gone in
    (
      timely,
      none_left,
      same,
      sym (
            ap is_true (
              flag_step-Leaves (txt "complete") (txt "state_removed") (txt "state_removed")
                w.remove_state refl refl s))
          ∙ was,
      removed,
      rw removed refl,
    )

after_work-eq-zero :
    (work : Work) → (after_work work).0 ≡ 0 → (work ≡ success) × ((after_work work).1 ≡ succeeded)
unfolding after_work
after_work-eq-zero success h = (refl, refl)
after_work-eq-zero blocked h = absurd (omega (arith, h))
after_work-eq-zero failed h = absurd (omega (arith, h))

-- What a completed cleanup shows
cleanup-Completed :
    (w : World) (s : State)
    → is_true (status_of (txt "complete") (cleanup w s)) ≡ true
    → Completed w (through (steps w) s) × ((cleanup w s).errors ≡ (through (steps w) s).errors)
unfolding cleanup status_of txt text_eq
cleanup-Completed w s h =
    (cleanup_is_complete-Completed w (remote_stopped w) (through (steps w) s) h, refl)

-- A run ends with status 0 only if its work has succeeded, in time, and the list of errors of the
-- clean-up is empty at the end, `stop_owned_vms` has returned True, and so have `remove_runtime`,
-- `remove_db`, `verify_persisted_vms` or `remove_owned_vms`, as the machines are kept or not, every
-- restoring of a guest's authorized keys, and `remove_state`. The report then says that the run has
-- succeeded.
pub run-EndedWell :
    (w : World) (work : Work) (within_sla : Bool) (s : State)
    → (run w work within_sla s).1.0 ≡ 0
    → EndedWell w work within_sla (run w work within_sla s).0 (run w work within_sla s).1.1
unfolding run txt text_eq
run-EndedWell w work within_sla s h =
    let (timely, code, same, complete, removed, errors) =
      finish-Ends w within_sla (after_work work).0 (after_work work).1 (cleanup w s) h in
    let (worked, well) = after_work-eq-zero work code in
    let (done, kept) = cleanup-Completed w s complete in
    record {
      worked = worked;
      in_time = timely;
      status_succeeded = same ∙ well;
      no_errors = errors ∙ kept ∙ done.quiet;
      runtime_removed =
          returned_ok w.remove_runtime
            (sym (ap is_true (runtime-entry w s)) ∙ done.found (txt "runtime_removed") refl);
      database_removed =
          returned_ok w.remove_db
            (sym (ap is_true (database-entry w s)) ∙ done.found (txt "database_removed") refl);
      vms_stopped =
          returned_ok w.stop_owned_vms
            (sym (ap is_true (vms_stopped-entry w s)) ∙ done.found (txt "vms_stopped") refl);
      vms_retained =
          returned_ok (retention w)
            (sym (ap is_true (retained-entry w s)) ∙ done.found (txt "vm_retention_complete") refl);
      keys_restored =
          all-All (keys_restored w) w.authorized_snapshots
            (λ a restored. keys_restored_ok w a restored)
            (sym (ap is_true (keys-entry w s))
              ∙ done.found (txt "guest_authorized_keys_restored") refl);
      state_removed = removed;
    }
