-- ===== src/Vm/Cleanup.antt =====
-- vm/e2e.py: the end of a run: `cleanup_step`, `cleanup_is_complete`, `cleanup`, and `run` from the end
-- of its work on. What the functions that a step calls return is a parameter, a text for an exception.
pub mod Steps
pub mod Exit
mod Entries
pub mod Laws
pub mod Examples
use omashiki.Common.{
  ℕ, Bool, true, false, not, ◌&&◌, ◌||◌, Option, none, some, List, [], ◌∷◌, ◌++◌, any, all, map,
  ◌==◌, if◌then◌else◌, Result, ok, err,
}
use omashiki.Common.Text.{Text, txt, text_eq}
use omashiki.Vm.Lines.{Snapshot, snapshot_without_line}

-- The values of `report["cleanup"]`: None, a Boolean, a dictionary of Booleans, what `restore_selinux`
-- returns, by its `all_restored`, what `atomic_line_update` returns, by the lines removed, and texts
pub data Value : Type 0 where
  nothing : Value
  flag : Bool → Value
  flags : List (Text × Bool) → Value
  selinux : Bool → Value
  edit : List Text → Value
  texts : List Text → Value

-- `report["cleanup"]`, the last entry first, `cleanup_errors` and `db_query_verified`
pub record State : Type 0 where
  pub entries : List (Text × Value)
  pub errors : List Text
  pub query_verified : Bool

-- What the work has left, and what the functions return that the steps call
pub record World : Type 0 where
  pub remote_pids : List Text
  pub vm_names : List Text
  pub has_ips : Bool
  pub has_ip : Text → Bool
  pub remote_logs : List (Text × Text)
  pub has_database : Bool
  pub authorized : Option Text
  pub known_snapshot : Text → Option Snapshot
  pub authorized_snapshots : List (Text × Snapshot)
  pub authorized_line : Text → Option (List ℕ)
  pub keep_vms : Bool
  pub stop_remote_processes : Result Text (List (Text × Bool))
  pub stop_host_processes : Result Text Bool
  pub stop_tunnels : Result Text Bool
  pub scp_from : Text → Text → Result Text Bool
  pub attempts : Result Text (Unit {0})
  pub remove_guest_containers : Text → Result Text Bool
  pub remove_host_containers : Result Text Bool
  pub remove_line : Text → Result Text (List Text)
  pub restore_known : Text → Snapshot → Result Text Bool
  pub restore_guest_runtime : Result Text Bool
  pub remove_runtime : Result Text Bool
  pub remove_db : Result Text Bool
  pub remove_images : Result Text (List (Text × Bool))
  pub restore_selinux : Result Text Bool
  pub container_records_empty : Result Text Bool
  pub restore_authorized : Text → Snapshot → Result Text Bool
  pub stop_owned_vms : Result Text Bool
  pub verify_persisted_vms : Result Text Bool
  pub remove_owned_vms : Result Text Bool
  pub remove_state : Result Text Bool

-- `self.report["cleanup"][key] = value`
abbrev pub put : Text → Value → State → State
put key value s = record {
  entries = (key, value) ∷ s.entries;
  errors = s.errors;
  query_verified = s.query_verified;
}

-- `self.cleanup_errors.append(error)`
abbrev pub note : Text → State → State
note error s = record {
  entries = s.entries;
  errors = s.errors ++ error ∷ [];
  query_verified = s.query_verified;
}

abbrev pub verified_as : Bool → State → State
verified_as b s = record { entries = s.entries; errors = s.errors; query_verified = b }

abbrev entry : Text → List (Text × Value) → Option Value
entry key [] = none
entry key ((k, v) ∷ rest) = let later = entry key rest in if text_eq k key then some v else later

-- `self.report["cleanup"].get(key)`
unfoldable pub status_of : Text → State → Option Value
status_of key s = entry key s.entries

-- The state behind `cleanup_step`
unfoldable pub cleanup_step {ℓ} : {A : Type ℓ} → Text → (A → Value) → Result Text A → State → State
cleanup_step key shape (ok value) s = put key (shape value) s
cleanup_step key shape (err error) s = put key (flag false) (note (key ++ txt ": " ++ error) s)

-- `bool(cleanup_step(…))` of a function that returns a Boolean
unfoldable pub returned : Result Text Bool → Bool
returned (ok b) = b
returned (err error) = false

-- A step whose entry is then replaced by its truth, under a second key
unfoldable pub flag_step : Text → Text → Result Text Bool → State → State
unfolding cleanup_step returned
flag_step key second result s = put second (flag (returned result)) (cleanup_step key flag result s)

abbrev pub is_true : Option Value → Bool
is_true (some (flag b)) = b
is_true _ = false

abbrev all_removed : Option Value → Bool
all_removed (some (flags l)) = all (λ (k, b). b) l
all_removed _ = false

abbrev is_restored : Option Value → Bool
is_restored (some (selinux b)) = b
is_restored _ = false

abbrev pub is_empty {ℓ} : {A : Type ℓ} → List A → Bool
is_empty [] = true
is_empty (x ∷ xs) = false

-- `set(xs) == set(ys)`
abbrev same_set : List Text → List Text → Bool
same_set xs ys = all (λ x. any (text_eq x) ys) xs && all (λ y. any (text_eq y) xs) ys

-- The test of the processes on the guests
unfoldable pub remote_complete : List Text → Value → Bool
remote_complete pids (flags l) =
    is_empty pids || (same_set (map (λ (k, b). k) l) pids && all (λ (k, b). b) l)
remote_complete pids _ = is_empty pids

abbrev required_keys : List Text
required_keys =
    txt "host_processes_stopped"
    ∷ txt "reverse_tunnels_stopped"
    ∷ txt "evidence_logs_copied"
    ∷ txt "temporary_auth_removed"
    ∷ txt "runtime_removed"
    ∷ txt "database_removed"
    ∷ txt "labelled_containers_absent"
    ∷ txt "vms_stopped"
    ∷ txt "vm_retention_complete"
    ∷ txt "guest_known_hosts_additions_removed"
    ∷ txt "guest_authorized_keys_restored"
    ∷ txt "guest_runtime_restored"
    ∷ []

-- `required`
unfoldable pub required : List Text → List Text
required names =
    required_keys
    ++ (map (λ name. name ++ txt "_containers_removed") names
        ++ map (λ name. name ++ txt "_known_hosts_additions_removed") names)

-- `cleanup_is_complete`
unfoldable pub cleanup_is_complete : World → Value → State → Bool
unfolding required status_of remote_complete
cleanup_is_complete w remote_stopped s =
    is_empty s.errors
    && all (λ key. is_true (status_of key s)) (required w.vm_names)
    && all_removed (status_of (txt "image_removed") s)
    && is_restored (status_of (txt "selinux") s)
    && remote_complete w.remote_pids remote_stopped
