-- ===== src/Vm/Cleanup/Examples.antt =====
-- A run with one machine that has ended well.
use omashiki.Common.{◌≡◌, refl, true, false, some, [], ◌∷◌, ok}
use omashiki.Common.Text.{txt, text_eq}
use omashiki.Vm.Lines.{missing}
use omashiki.Vm.Cleanup.{World, State}
use omashiki.Vm.Cleanup.Exit.{run, success, succeeded}
use omashiki.Vm.Cleanup.Laws.{EndedWell, run-EndedWell}

abbrev pub world : World
world = record {
  remote_pids = txt "vm1:worker" ∷ [];
  vm_names = txt "vm1" ∷ [];
  has_ips = true;
  has_ip = λ name. true;
  remote_logs = (txt "vm1", txt "worker") ∷ [];
  has_database = true;
  authorized = some (txt "key");
  known_snapshot = λ name. some missing;
  authorized_snapshots = (txt "vm1", missing) ∷ [];
  authorized_line = λ name. some (txt "key");
  keep_vms = false;
  stop_remote_processes = ok ((txt "vm1:worker", true) ∷ []);
  stop_host_processes = ok true;
  stop_tunnels = ok true;
  scp_from = λ name kind. ok true;
  attempts = ok tt;
  remove_guest_containers = λ name. ok true;
  remove_host_containers = ok true;
  remove_line = λ line. ok (line ∷ []);
  restore_known = λ name snapshot. ok true;
  restore_guest_runtime = ok true;
  remove_runtime = ok true;
  remove_db = ok true;
  remove_images = ok ((txt "host", true) ∷ []);
  restore_selinux = ok true;
  container_records_empty = ok true;
  restore_authorized = λ name snapshot. ok true;
  stop_owned_vms = ok true;
  verify_persisted_vms = ok true;
  remove_owned_vms = ok true;
  remove_state = ok true;
}

abbrev pub start : State
start = record { entries = []; errors = []; query_verified = false }

pub ended : (run world success true start).1.0 ≡ 0
unfolding run text_eq txt
ended = refl

run-EndedWell_example : EndedWell world success true (run world success true start).0 succeeded
unfolding run text_eq txt
run-EndedWell_example = run-EndedWell world success true start ended
