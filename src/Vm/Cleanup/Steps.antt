-- ===== src/Vm/Cleanup/Steps.antt =====
-- vm/e2e.py: the steps of `cleanup`, in order.
use omashiki.Common.{
  Bool, true, false, not, ◌||◌, none, some, List, [], ◌∷◌, ◌++◌, any, all, if◌then◌else◌, Result,
  ok, err,
}
use omashiki.Common.Text.{Text, txt, text_eq}
use Prim.Native.String.{String}
use omashiki.Vm.Lines.{Snapshot, snapshot_without_line}
use omashiki.Vm.Cleanup.{
  Value, nothing, flag, flags, selinux, edit, texts, State, World, put, note, verified_as,
  cleanup_step, returned, flag_step, is_empty, cleanup_is_complete,
}

-- One step after the other
unfoldable pub through : List (State → State) → State → State
through [] s = s
through (step ∷ steps) s = through steps (step s)

-- A step over each of some things
unfoldable pub over {ℓ} : {A : Type ℓ} → (A → State → State) → List A → State → State
over step [] s = s
over step (x ∷ xs) s = over step xs (step x s)

-- What `stop_remote_processes` has returned to `cleanup`
unfoldable pub remote_stopped : World → Value
remote_stopped w =
    if is_empty w.remote_pids
    then flags []
    else elim w.stop_remote_processes [ ok l ↦ flags l | err e ↦ nothing ]

unfoldable pub stop_remote : World → State → State
unfolding cleanup_step remote_stopped
stop_remote w s =
    let key = txt "remote_process_groups_stopped" in
    let stepped =
      if is_empty w.remote_pids then s else cleanup_step key flags w.stop_remote_processes s in
    put key (remote_stopped w) stepped

-- The copy of a log
unfoldable pub copy_log : World → Text × Text → State → State
copy_log w (name, kind) s =
    let key = txt "evidence_log_" ++ name ++ txt "_" ++ kind in
    elim (w.scp_from name kind) [
      | ok copied ↦ put key (flag copied) s
      | err error ↦
          put key (flag false)
            (note (txt "evidence_logs_copied:" ++ name ++ txt ":" ++ kind ++ txt ": " ++ error) s)
    ]

unfoldable pub logs_copied : World → Bool
unfolding returned
logs_copied w = all (λ (name, kind). returned (w.scp_from name kind)) w.remote_logs

unfoldable pub copy_logs : World → State → State
unfolding over copy_log logs_copied
copy_logs w s =
    let t =
      put (txt "evidence_logs_copied") (flag (logs_copied w)) (over (copy_log w) w.remote_logs s) in
    if logs_copied w
    then t
    else note (txt "evidence_logs_copied: one or more remote logs could not be copied") t

-- The query of the attempts, which sets `db_query_verified` where it succeeds
unfoldable pub query_attempts : World → State → State
query_attempts w s =
    if w.has_database
    then elim w.attempts [
      | ok rows ↦ verified_as true s
      | err error ↦ note (txt "attempts_query: " ++ error) (verified_as false s)
    ]
    else verified_as true s

unfoldable pub remove_containers : World → Text → State → State
unfolding flag_step
remove_containers w name s =
    let key = name ++ txt "_containers_removed" in
    if w.has_ip name
    then flag_step key key (w.remove_guest_containers name) s
    else put key (flag true) s

-- The authorized key of the host
unfoldable pub remove_authorized : World → State → State
unfolding cleanup_step
remove_authorized w s =
    let key = txt "temporary_auth_removed" in
    elim w.authorized [
      | none ↦ put key (flag true) s
      | some line ↦
          put key
            (flag (elim (w.remove_line line) [
              | ok removed ↦ any (text_eq line) removed
              | err e ↦ false
            ]))
            (cleanup_step (txt "temporary_authorized_key_removed") edit (w.remove_line line) s)
    ]

-- A guest's known hosts
unfoldable pub known_restored : World → Text → Bool
unfolding returned
known_restored w name = elim (w.known_snapshot name) [
  | none ↦ true
  | some snapshot ↦ returned (w.restore_known name snapshot)
]

unfoldable pub restore_known : World → Text → State → State
unfolding flag_step
restore_known w name s =
    let key = name ++ txt "_known_hosts_additions_removed" in
    if w.has_ips
    then elim (w.known_snapshot name) [
      | none ↦ put key (flag true) s
      | some snapshot ↦
          flag_step (name ++ txt "_known_hosts_restored") key (w.restore_known name snapshot) s
    ]
    else put key (flag true) s

unfoldable pub restore_all_known : World → State → State
unfolding over restore_known known_restored
restore_all_known w s =
    put (txt "guest_known_hosts_additions_removed")
      (flag (not w.has_ips || all (known_restored w) w.vm_names))
      (over (restore_known w) w.vm_names s)

-- `x or False`
abbrev or_false : Result Text (List (Text × Bool)) → Value
or_false (ok ((k, b) ∷ l)) = flags ((k, b) ∷ l)
or_false _ = flag false

abbrev restored_or_false : Result Text Bool → Value
restored_or_false (ok b) = selinux b
restored_or_false (err e) = flag false

unfoldable pub remove_images : World → State → State
unfolding cleanup_step
remove_images w s =
    let key = txt "image_removed" in
    put key (or_false w.remove_images) (cleanup_step key flags w.remove_images s)

unfoldable pub restore_selinux : World → State → State
unfolding cleanup_step
restore_selinux w s =
    let key = txt "selinux" in
    put key (restored_or_false w.restore_selinux) (cleanup_step key selinux w.restore_selinux s)

-- `verify_no_labelled_containers`
unfoldable pub verify_no_containers : World → State → State
unfolding flag_step
verify_no_containers w s =
    let key = txt "labelled_containers_absent" in
    flag_step key key (if s.query_verified then w.container_records_empty else ok false) s

-- A guest's authorized keys are to be as they were, without the harness's line where it is removed.
unfoldable pub expected_keys : World → Text → Snapshot → Snapshot
unfolding snapshot_without_line
expected_keys w name snapshot = elim (w.authorized_line name) [
  | none ↦ snapshot
  | some line ↦ if w.keep_vms then snapshot else snapshot_without_line snapshot line
]

unfoldable pub keys_restored : World → Text × Snapshot → Bool
unfolding returned expected_keys
keys_restored w (name, snapshot) =
    returned (w.restore_authorized name (expected_keys w name snapshot))

unfoldable pub restore_keys : World → Text × Snapshot → State → State
unfolding flag_step expected_keys
restore_keys w (name, snapshot) s =
    let key = name ++ txt "_authorized_keys_restored" in
    flag_step key key (w.restore_authorized name (expected_keys w name snapshot)) s

unfoldable pub restore_all_keys : World → State → State
unfolding over restore_keys keys_restored
restore_all_keys w s =
    put (txt "guest_authorized_keys_restored") (flag (all (keys_restored w) w.authorized_snapshots))
      (over (restore_keys w) w.authorized_snapshots s)

-- `verify_persisted_vms` or `remove_owned_vms`
unfoldable pub retention : World → Result Text Bool
retention w = if w.keep_vms then w.verify_persisted_vms else w.remove_owned_vms

unfoldable pub retain : World → State → State
unfolding flag_step retention returned
retain w s =
    let key = if w.keep_vms then txt "vms_preserved" else txt "vms_removed" in
    put (txt "vm_retention_complete") (flag (returned (retention w)))
      (flag_step key key (retention w) s)

abbrev pub same_key : String → Result Text Bool → State → State
same_key key = flag_step (txt key) (txt key)

-- The steps of `cleanup`, in order
unfoldable pub steps : World → List (State → State)
unfolding cleanup_step flag_step stop_remote copy_logs query_attempts over remove_containers
    remove_authorized restore_all_known remove_images restore_selinux verify_no_containers
    restore_all_keys retain
steps w =
    stop_remote w
    ∷ cleanup_step (txt "host_processes_stopped") flag w.stop_host_processes
    ∷ same_key "reverse_tunnels_stopped" w.stop_tunnels
    ∷ copy_logs w
    ∷ query_attempts w
    ∷ over (remove_containers w) w.vm_names
    ∷ cleanup_step (txt "core_containers_removed") flag w.remove_host_containers
    ∷ remove_authorized w
    ∷ restore_all_known w
    ∷ put (txt "host_known_hosts_additions_removed") (flag true)
    ∷ same_key "guest_runtime_restored" w.restore_guest_runtime
    ∷ same_key "runtime_removed" w.remove_runtime
    ∷ same_key "database_removed" w.remove_db
    ∷ remove_images w
    ∷ restore_selinux w
    ∷ verify_no_containers w
    ∷ restore_all_keys w
    ∷ same_key "vms_stopped" w.stop_owned_vms
    ∷ retain w
    ∷ []

-- `cleanup`
unfoldable pub cleanup : World → State → State
unfolding through steps cleanup_is_complete remote_stopped
cleanup w s =
    let t = through (steps w) s in
    let complete = cleanup_is_complete w (remote_stopped w) t in
    put (txt "errors") (texts t.errors) (put (txt "complete") (flag complete) t)
