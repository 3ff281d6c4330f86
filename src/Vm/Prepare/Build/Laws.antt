-- ===== src/Vm/Prepare/Build/Laws.antt =====
-- A preparation changes nothing that is not its own, and keeps its journal while it publishes.
use omashiki.Common.{
  ◌≡◌, refl, sym, subst, ◌∙◌, Bool, true, false, Option, none, some, ◌∷◌, ◌++◌, if◌then◌else◌,
  Result, ok, err,
}
use omashiki.Common.Text.{txt}
use omashiki.Common.Runs.{
  ◌>>=◌, done, demand, finally, ended, bind-Triple, done-Triple, demand-Triple, weaken-Triple,
  if-Triple, fail-Triple, finally-Triple, demand-Silent,
}
use omashiki.Json.{Fields}
use omashiki.Vm.Prepared.{Metadata}
use omashiki.Vm.Prepare.{
  Event, Reply, Stage, Trace, stage, source, kata_bundle, directories, make_state, public_key,
  cloud_init, create_builder, reach_ssh, install_packages, install_kata, prime_cache,
  validate_guest, power_off, download, convert, check_image, unlink_candidate, lock, unlock,
  remove_state, World, Act, Failure, blocked, os_error, ask, act, look, is_safe, drop_candidate,
  cleanup_candidate,
}
use omashiki.Vm.Prepare.Staging.{cleanup_owned_staging}
use omashiki.Vm.Prepare.Staging.Laws.{cleanup_owned_staging-Sure}
use omashiki.Vm.Prepare.Publish.{current_is_valid, recover_pending_publication, publish}
use omashiki.Vm.Prepare.Publish.Laws.{look-Sure}
use omashiki.Vm.Prepare.Publish.Commit.{publish-Sure}
use omashiki.Vm.Prepare.Publish.Reads.{recover-Sure, current_is_valid-Sure}
use omashiki.Vm.Prepare.Orderly.{Allowed, IsOrderly, Sure, ask-Sure}
use omashiki.Vm.Prepare.Rules.{act-Sure}
use omashiki.Vm.Prepare.Build.{
  in_stage, is_candidate, accept_candidate, absent, export_candidate, build_candidate, make_image,
  rebuild, guarded, release, build,
}

module _ (w : World) where
  -- A run that makes only changes that are allowed, whatever was before
  abbrev Fine : {A : Type 0} → Act A → Type 0
  Fine m = Sure w (λ _. Unit {0}) m (λ _ _. Unit {0})

  then_Fine :
      {A B : Type 0} (m : Act A) (f : A → Act B) → Fine m → ((a : A) → Fine (f a)) → Fine (m >>= f)
  then_Fine m f h k = bind-Triple (IsOrderly w) m f h k

  done-Fine : {A : Type 0} (a : A) → Fine (done a)
  done-Fine a = done-Triple (IsOrderly w) a λ t h. tt

  act-Fine :
      (e : Event) (failure : Failure) → ((t : Trace) → Allowed w e t) → Fine (act w e failure)
  act-Fine e failure a =
      weaken-Triple (IsOrderly w) (act w e failure) (λ t h. h) (λ _ t h. tt)
        (act-Sure w {Q = λ t. Unit {0}} e failure (λ t h. a t) λ r t h. tt)

  stage-Fine : (s : Stage) → Fine (in_stage w s)
  stage-Fine s = act-Fine (stage s) _ λ t. tt

  look-Fine : {A : Type 0} (f : Trace → A) → Fine (look w f)
  look-Fine f = weaken-Triple (IsOrderly w) (look w f) (λ t h. h) (λ _ t h. tt) (look-Sure w f)

  drop_candidate-Fine : (found : Option Metadata) → Fine (drop_candidate w found)
  unfolding drop_candidate
  drop_candidate-Fine none = done-Fine tt
  drop_candidate-Fine (some m) =
      let refuse = blocked (txt "refusing unsafe prepared candidate: " ++ w.candidate_path) in
      then_Fine (demand (is_safe w m) refuse) (λ _. act w unlink_candidate os_error)
        (weaken-Triple (IsOrderly w) (demand (is_safe w m) refuse) (λ t h. h) (λ _ t h. tt)
          (demand-Triple (IsOrderly w) (is_safe w m) refuse))
        λ _. act-Fine unlink_candidate os_error λ t. tt

  cleanup_candidate-Fine : Fine (cleanup_candidate w)
  unfolding cleanup_candidate
  cleanup_candidate-Fine =
      then_Fine (look w (λ t. w.lstat t w.candidate_path)) (drop_candidate w) (look-Fine _)
        drop_candidate-Fine

  accept_candidate-Fine : (r : Result Failure Fields) → Fine (accept_candidate w r)
  unfolding accept_candidate
  accept_candidate-Fine (err e) = fail-Triple (IsOrderly w) e
  accept_candidate-Fine (ok info) =
      if-Triple (IsOrderly w) (is_candidate w info) (done _) _
        (done-Triple (IsOrderly w) _ λ t h. tt)
        (weaken-Triple (IsOrderly w) _ (λ t h. tt) (λ _ t h. tt)
          (then_Fine (act w unlink_candidate os_error) _
            (act-Fine unlink_candidate os_error λ t. tt) λ _. fail-Triple (IsOrderly w) _))

  stage_then : {A : Type 0} (s : Stage) (m : Act A) → Fine m → Fine (in_stage w s >>= λ _. m)
  stage_then s m h = then_Fine (in_stage w s) (λ _. m) (stage-Fine s) λ _. h

  absent-Fine : (found : Option Metadata) → Fine (absent w found)
  unfolding absent
  absent-Fine none = done-Fine tt
  absent-Fine (some m) = fail-Triple (IsOrderly w) _

  export_candidate-Fine : Fine (export_candidate w)
  unfolding export_candidate
  export_candidate-Fine =
      let accept = look w w.image_info >>= accept_candidate w in
      let checked = in_stage w check_image >>= λ _. accept in
      let converted = in_stage w convert >>= λ _. checked in
      let rest = in_stage w download >>= λ _. converted in
      then_Fine (look w (λ t. w.lstat t w.candidate_path)) (λ found. absent w found >>= λ _. rest)
        (look-Fine (λ t. w.lstat t w.candidate_path))
        λ found.
          then_Fine (absent w found) (λ _. rest) (absent-Fine found)
            λ _. stage_then download converted (
              stage_then convert checked (
                stage_then check_image accept (
                  then_Fine (look w w.image_info) (accept_candidate w) (look-Fine w.image_info)
                    accept_candidate-Fine)))

  build_candidate-Fine : Fine (build_candidate w)
  unfolding build_candidate
  build_candidate-Fine =
      let m1 = export_candidate w in
      let m2 = in_stage w power_off >>= λ _. m1 in
      let m3 = in_stage w validate_guest >>= λ _. m2 in
      let m4 = in_stage w prime_cache >>= λ _. m3 in
      let m5 = in_stage w install_kata >>= λ _. m4 in
      let m6 = in_stage w install_packages >>= λ _. m5 in
      let m7 = in_stage w reach_ssh >>= λ _. m6 in
      stage_then create_builder m7 (
        stage_then reach_ssh m6 (
          stage_then install_packages m5 (
            stage_then install_kata m4 (
              stage_then prime_cache m3
                (stage_then validate_guest m2 (stage_then power_off m1 export_candidate-Fine))))))

  make_image-Fine : Fine (make_image w)
  unfolding make_image
  make_image-Fine =
      let made = finally (build_candidate w) (cleanup_owned_staging w) in
      let m1 = made >>= publish w in
      let m2 = in_stage w cloud_init >>= λ _. m1 in
      let m3 = in_stage w public_key >>= λ _. m2 in
      let m4 = cleanup_owned_staging w >>= λ _. m3 in
      stage_then make_state m4 (
        then_Fine (cleanup_owned_staging w) (λ _. m3) (cleanup_owned_staging-Sure w)
          λ _. stage_then public_key m2 (
            stage_then cloud_init m1 (
              then_Fine made (publish w)
                (finally-Triple (IsOrderly w) (build_candidate w) (cleanup_owned_staging w)
                  build_candidate-Fine (cleanup_owned_staging-Sure w))
                λ size. publish-Sure w size)))

  rebuild-Fine : Fine (rebuild w)
  unfolding rebuild
  rebuild-Fine =
      let m1 = make_image w in
      let m2 = cleanup_candidate w >>= λ _. m1 in
      let m3 = recover_pending_publication w >>= λ _. m2 in
      let m4 = in_stage w directories >>= λ _. m3 in
      let m5 = in_stage w kata_bundle >>= λ _. m4 in
      stage_then source m5 (
        stage_then kata_bundle m4 (
          stage_then directories m3 (
            then_Fine (recover_pending_publication w) (λ _. m2) (recover-Sure w)
              λ _.
                then_Fine (cleanup_candidate w) (λ _. m1) cleanup_candidate-Fine
                  λ _. make_image-Fine)))

  guarded-Fine : Fine (guarded w)
  unfolding guarded
  guarded-Fine =
      then_Fine (current_is_valid w) (λ valid. if valid then done tt else rebuild w)
        (current_is_valid-Sure w)
        λ valid.
          if-Triple (IsOrderly w) valid (done tt) (rebuild w)
            (done-Triple (IsOrderly w) tt λ t h. tt)
            (weaken-Triple (IsOrderly w) (rebuild w) (λ t h. tt) (λ _ t h. h) rebuild-Fine)

  release-Fine : Fine (release w)
  unfolding release
  release-Fine =
      then_Fine (ask w remove_state) (λ _. act w unlock os_error)
        (ask-Sure w remove_state (λ t h. tt) λ t h. tt) λ _. act-Fine unlock os_error λ t. tt

  build-Fine : Fine (build w)
  unfolding build
  build-Fine =
      let last = finally (cleanup_candidate w) (release w) in
      then_Fine (act w lock os_error) (λ _. finally (guarded w) last)
        (act-Fine lock os_error λ t. tt)
        λ _. finally-Triple (IsOrderly w) (guarded w) last guarded-Fine (
          finally-Triple (IsOrderly w) (cleanup_candidate w) (release w) cleanup_candidate-Fine
            release-Fine)

-- A `finally` ends in the state that its last part leaves.
finally_state :
    {S E A : Type 0} (m : S → S × Result E A) (last : S → S × Result E (Unit {0})) (s : S)
    → (finally m last s).0 ≡ (last (m s).0).0
finally_state m last s = of_ended (m s).1 (last (m s).0)
  where
    of_ended : {A E S : Type 0} (r : Result E A) (x : S × Result E (Unit {0})) → (ended r x).0 ≡ x.0
    of_ended r (t, ok u) = refl
    of_ended r (t, err e) = refl

-- The last two events are the removal of the state and the release of the lock.
abbrev pub IsReleased : Trace → Type 0
IsReleased t = (r s : Reply) × (u : Trace) × (t ≡ (unlock, r) ∷ (remove_state, s) ∷ u)

release_last : (w : World) (t : Trace) → IsReleased (release w t).0
unfolding release
release_last w t =
    let q = w.reply t remove_state in
    let u : Trace = (remove_state, q) ∷ t in
    let r = w.reply u unlock in (r, q, t, demand-Silent r.succeeded os_error ((unlock, r) ∷ u))

after_demand :
    (b : Bool) (e : Failure) (m : Act (Unit {0})) (t : Trace)
    → b ≡ true
    → ((u : Trace) → IsReleased (m u).0)
    → IsReleased ((demand b e >>= λ _. m) t).0
after_demand true e m t h k = k t
after_demand false e m t h k = cc h

-- Whatever the host answers, each change of a preparation is allowed by what came before it, if this was
-- so at its beginning. The final image is put in its place, and its volume is created and filled, only
-- while the journal is there; the pointer is written only then, and it names the digest and the size
-- that the image had when, earlier in this history, it was put in its place and that libvirt's volume
-- has now; the journal is removed only where `verify_prepared_base` accepts the result, or where the
-- image and the volume are gone whose paths the journal, as it was read before in this history, names,
-- which are those of its fingerprint. A volume is deleted only if virsh has described it, since the last stage, as the builder's or as
-- one with no backing file, next to the base; and the builder's domain is destroyed or undefined only if
-- virsh has described it as the builder's since then, or has printed nothing. And if the lock is taken,
-- a preparation ends by removing its state and releasing the lock, however it ends.
pub build-IsOrderly :
    (w : World) (t : Trace)
    → IsOrderly w t
    → IsOrderly w (build w t).0 × ((w.reply t lock).succeeded ≡ true → IsReleased (build w t).0)
unfolding build
build-IsOrderly w t h =
    let last = finally (cleanup_candidate w) (release w) in
    (
      ((build-Fine w).at t h tt).0,
      λ locked.
          after_demand (w.reply t lock).succeeded os_error (finally (guarded w) last)
            ((lock, w.reply t lock) ∷ t) locked
            λ u.
              subst IsReleased
                (sym (
                  finally_state (guarded w) last u
                  ∙ finally_state (cleanup_candidate w) (release w) (guarded w u).0))
                (release_last w (cleanup_candidate w (guarded w u).0).0),
    )
