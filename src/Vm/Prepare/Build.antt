-- ===== src/Vm/Prepare/Build.antt =====
-- vm/prepare.py: `build`, from the lock to its release, and `main`.
pub mod Laws
use omashiki.Common.{
  ℕ, ◌*◌, ◌^◌, Bool, true, false, not, ◌&&◌, ◌||◌, Option, none, some, List, [], ◌∷◌, ◌++◌, ◌==◌,
  if◌then◌else◌, Result, ok, err,
}
use omashiki.Common.Int.{pos}
use omashiki.Common.Text.{Text, txt, text_eq}
use omashiki.Common.Runs.{◌>>=◌, ◌>>◌, done, fail, demand, finally}
use omashiki.Json.{Json, int, float, str, null, Exception, Fields, get_or, truthy}
use omashiki.Vm.Prepared.{Metadata, Error, prepared_base_error}
use omashiki.Vm.Prepare.{
  Event, Stage, Trace, stage, source, kata_bundle, directories, make_state, public_key, cloud_init,
  create_builder, reach_ssh, install_packages, install_kata, prime_cache, validate_guest, power_off,
  download, convert, check_image, unlink_candidate, lock, unlock, remove_state, World, Act, Failure,
  blocked, runtime_error, prepared_error, os_error, raised, ask, act, look, cleanup_candidate,
}
use omashiki.Vm.Prepare.Staging.{cleanup_owned_staging}
use omashiki.Vm.Prepare.Publish.{current_is_valid, recover_pending_publication, publish}

module _ (w : World) where
  abbrev pub in_stage : Stage → Act (Unit {0})
  in_stage s = act w (stage s) (runtime_error (txt "stage failed"))

  -- `info.get("virtual-size") == …`
  unfoldable pub has_size : Json → Bool
  has_size (int (pos n)) = n == w.disk_gib * 1024 ^ 3
  has_size (float t) = w.float_is t (w.disk_gib * 1024 ^ 3)
  has_size _ = false

  unfoldable pub is_candidate : Fields → Bool
  unfolding has_size
  is_candidate info =
      (elim (get_or (txt "format") info null) [ str t ↦ text_eq t (txt "qcow2") | _ ↦ false ])
      && not (truthy (get_or (txt "backing-filename") info null))
      && has_size (get_or (txt "virtual-size") info null)

  unfoldable pub accept_candidate : Result Failure Fields → Act Json
  unfolding is_candidate
  accept_candidate (err e) = fail e
  accept_candidate (ok info) =
      if is_candidate info
      then done (get_or (txt "virtual-size") info null)
      else (act w unlink_candidate os_error
          >> fail (runtime_error (txt "prepared candidate qcow2 metadata is invalid")))

  unfoldable pub absent : Option Metadata → Act (Unit {0})
  absent none = done tt
  absent (some m) = fail (blocked (txt "prepared candidate already exists: " ++ w.candidate_path))

  -- `export_candidate`: the virtual size of the new image
  unfoldable pub export_candidate : Act Json
  unfolding absent accept_candidate
  export_candidate = do
    found ← look w (λ t. w.lstat t w.candidate_path)
    absent found
    in_stage download
    in_stage convert
    in_stage check_image
    info ← look w w.image_info
    accept_candidate info

  -- The inner `try`
  unfoldable pub build_candidate : Act Json
  unfolding export_candidate
  build_candidate = do
    in_stage create_builder
    in_stage reach_ssh
    in_stage install_packages
    in_stage install_kata
    in_stage prime_cache
    in_stage validate_guest
    in_stage power_off
    export_candidate

  -- From the directory for the state on
  unfoldable pub make_image : Act (Unit {0})
  unfolding cleanup_owned_staging build_candidate publish
  make_image = do
    in_stage make_state
    cleanup_owned_staging w
    in_stage public_key
    in_stage cloud_init
    virtual_size ← finally build_candidate (cleanup_owned_staging w)
    publish w virtual_size

  -- What is done where the present image is not valid
  unfoldable pub rebuild : Act (Unit {0})
  unfolding recover_pending_publication cleanup_candidate make_image
  rebuild = do
    in_stage source
    in_stage kata_bundle
    in_stage directories
    recover_pending_publication w
    cleanup_candidate w
    make_image

  -- The outer `try`
  unfoldable pub guarded : Act (Unit {0})
  unfolding current_is_valid rebuild
  guarded = current_is_valid w >>= λ valid. if valid then done tt else rebuild

  unfoldable pub release : Act (Unit {0})
  release = do _ ← ask w remove_state; act w unlock os_error

  -- `build`
  unfoldable pub build : Act (Unit {0})
  unfolding guarded cleanup_candidate release
  build = do act w lock os_error; finally guarded (finally (cleanup_candidate w) release)

-- `main` of a run of `build`: the exit status, or an exception that it does not catch
unfoldable pub status : Result Failure (Unit {0}) → Option ℕ
status (ok u) = some 0
status (err (raised e)) = none
status (err (prepared_error (Error.raised e))) = none
status (err (prepared_error Error.other_error)) = none
status (err e) = some 2
