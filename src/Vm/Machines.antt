-- ===== src/Vm/Machines.antt =====
-- vm/e2e.py: how the harness stops, verifies and removes its machines. A run is a function of the commands that
-- have been given to virsh and of their replies, newest first; what virsh replies may depend on all
-- of them.
pub mod Gone
pub mod Laws
pub mod Listing
pub mod Persisted
pub mod Stop
pub mod Examples
use omashiki.Common.{
  ℕ, Bool, true, false, not, ◌&&◌, ◌||◌, Option, none, some, List, [], ◌∷◌, ◌++◌, any, all,
  if◌then◌else◌, Result, ok, err,
}
use omashiki.Common.Text.{Text, txt, text_eq, starts_with, contains, is_space, strip, is_empty}
use omashiki.Common.Runs
use omashiki.Common.Runs.{◌>>=◌, ◌>>◌, done, demand}
use omashiki.Vm.Owned.{Host, domain_owned, volume_owned}

-- The commands, by the name of the machine; the volume of a machine has its name and ".qcow2".
pub data Command : Type 0 where
  list_domains : Command
  domstate dumpxml vol_info vol_dumpxml vol_path : Text → Command
  shutdown destroy undefine vol_delete : Text → Command

-- Whether the return code is 0, and the output
pub record Reply : Type 0 where
  pub succeeded : Bool
  pub output : Text

abbrev pub Trace : Type 0
Trace = List (Command × Reply)

-- What a run may end with: a value, or an `E2EError`
abbrev pub Run : Type 0 → Type 0
Run A = Runs.Run Trace Text A

-- What `virsh(…, check=False)` makes of a reply
unfoldable pub shown : Reply → Text
shown r = if r.succeeded then strip is_space r.output else txt "error: " ++ strip is_space r.output

unfoldable pub is_error : Text → Bool
is_error t = starts_with (txt "error:") t

-- The host, the base image, what virsh replies after some commands, and `str.splitlines` and
-- `str.lower`
pub record World : Type 0 where
  pub host : Host
  pub base_path : Text
  pub reply : Trace → Command → Reply
  pub splitlines : Text → List Text
  pub lower : Text → Text

-- `state or ""` and the like
pub record Snapshot : Type 0 where
  pub initial_state : Text
  pub domain_xml : Text
  pub volume_info : Text
  pub volume_xml : Text
  pub volume_path : Text

module _ (w : World) where
  abbrev pub ask : Command → Run Reply
  ask c t = ((c, w.reply t c) ∷ t, ok (w.reply t c))

  -- `virsh(…, check=False)`
  abbrev pub query : Command → Run Text
  query c = do r ← ask c; done (shown r)

  -- `set(virsh(["list", "--all", "--name"]).splitlines())`
  pub domain_list : Run (List Text)
  domain_list = do
    r ← ask list_domains
    demand r.succeeded (txt "command failed: virsh list --all --name")
    done (w.splitlines (strip is_space r.output))

  -- `volume_query_is_missing`
  pub volume_query_is_missing : Text → Bool
  volume_query_is_missing value =
      let t = w.lower value in
      starts_with (txt "error:") t
      && (contains (txt "not found") t
          || contains (txt "no volume") t
          || contains (txt "does not exist") t)

  -- `domain_snapshot` of a domain that is there, without what it reads off the two XML texts
  pub domain_snapshot : Text → Text → Run Snapshot
  domain_snapshot name state = do
    xml ← query (dumpxml name)
    volume_info ← query (vol_info name)
    volume_xml ← query (vol_dumpxml name)
    volume_path ← query (vol_path name)
    done (record {
      initial_state = state;
      domain_xml = xml;
      volume_info = volume_info;
      volume_xml = volume_xml;
      volume_path = volume_path;
    })

  -- `expected_domain_xml` of a snapshot
  pub expected_domain : Text → Snapshot → Bool
  expected_domain name s = domain_owned w.host name s.domain_xml s.volume_xml w.base_path

  pub undefine_owned : Text → Snapshot → Run (Unit {0})
  undefine_owned name s = do
    demand (text_eq s.initial_state (txt "shut off") && expected_domain name s)
        (txt "refusing to remove domain " ++ name ++ txt ": ownership changed during the run")
    r ← ask (undefine name)
    demand r.succeeded (txt "could not undefine owned domain " ++ name)

  -- The removal of a domain that is there
  pub remove_domain : Text → Run (Unit {0})
  unfolding domain_snapshot undefine_owned
  remove_domain name = do
    state ← query (domstate name)
    s ← domain_snapshot name state
    undefine_owned name s

  pub delete_owned : Text → Text → Run (Unit {0})
  delete_owned name xml = do
    demand (volume_owned w.host name xml w.base_path)
        (txt "refusing to remove volume " ++ name ++ txt ".qcow2: ownership changed during the run")
    r ← ask (vol_delete name)
    demand r.succeeded (txt "could not delete owned volume " ++ name ++ txt ".qcow2")

  -- The removal of its volume, if there is one
  pub remove_volume : Text → Run (Unit {0})
  unfolding delete_owned
  remove_volume name = do
    xml ← query (vol_dumpxml name)
    demand (not (is_error xml) || volume_query_is_missing xml)
        (txt "could not query owned volume " ++ name ++ txt ".qcow2")
    if is_empty xml || is_error xml then done tt else delete_owned name xml

  -- A turn of the loop of `remove_owned_vms`
  pub remove_one : Text → Run (Unit {0})
  unfolding domain_list remove_domain remove_volume
  remove_one name = do
    domains ← domain_list
    if any (text_eq name) domains then remove_domain name else done tt
    remove_volume name

  pub remove_all : List Text → Run (Unit {0})
  unfolding remove_one
  remove_all [] = done tt
  remove_all (name ∷ names) = remove_one name >> remove_all names

  -- Whether the volumes are all missing
  pub volumes_missing : List Text → Bool → Run Bool
  unfolding volume_query_is_missing
  volumes_missing [] absent = done absent
  volumes_missing (name ∷ names) absent = do
    xml ← query (vol_dumpxml name)
    volumes_missing names (volume_query_is_missing xml && absent)

  -- `remove_owned_vms`, over the names in the order of the set
  pub remove_owned_vms : List Text → Run Bool
  unfolding remove_all domain_list volumes_missing
  remove_owned_vms managed = do
    remove_all managed
    domains ← domain_list
    if any is_error domains
        then done false
        else volumes_missing managed (all (λ name. not (any (text_eq name) domains)) managed)
