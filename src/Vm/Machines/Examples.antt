-- ===== src/Vm/Machines/Examples.antt =====
-- A host with one machine of the harness.
use omashiki.Common.{
  ◌≡◌, ◌≢◌, ◌==◌, refl, Bool, true, false, none, some, List, [], ok, ◌∷◌, ◌++◌, any, if◌then◌else◌,
  ◌⊎◌,
}
use omashiki.Common.Text.{Text, txt, text_eq, strip, is_space, decimal, starts_with, contains}
use omashiki.Vm.Xml.{Element, element, Children, childless, child, find_text, attribute}
use omashiki.Vm.Prepared.{Metadata, regular}
use omashiki.Vm.Owned.{Host, domain_owned, overlay_path}
use omashiki.Vm.Machines.{
  Command, list_domains, domstate, dumpxml, vol_dumpxml, vol_path, undefine, vol_delete, Reply,
  Trace, World, remove_owned_vms, shown, is_error, expected_domain,
}
use omashiki.Vm.Machines.Persisted.{verify_persisted_vms}
use omashiki.Vm.Machines.Gone.{GoneNow, remove_owned_vms-GoneNow}
use omashiki.Vm.Machines.Laws.{IsJustified}
use omashiki.Vm.Machines.Stop.Achieved.{stop_owned_vms-OffNow}
use omashiki.Vm.Machines.Stop.Off.{OffNow}
use omashiki.Vm.Machines.Stop.{stop_owned_vms}
use omashiki.Vm.Machines.Stop.Ends.{stop_owned_vms-ends}
use native.Mathlib.Omega.{arith}
use omashiki.Vm.Machines.Stop.Laws.{owned_vms-Keeps}
use Prim.Native.String.{String}

abbrev leaf : String → String → Element
leaf t x = element (txt t) [] (some (txt x)) childless

abbrev attributes : List (String × String) → List (Text × Text)
attributes [] = []
attributes ((k, v) ∷ rest) = (txt k, txt v) ∷ attributes rest

abbrev node : String → List (String × String) → Children → Element
node t a c = element (txt t) (attributes a) none c

abbrev held : List Element → Children
held [] = childless
held (e ∷ es) = child e (held es)

abbrev sized : String → String → String → String → Element
sized t x k v = element (txt t) (attributes ((k, v) ∷ [])) (some (txt x)) childless

abbrev domain : Element
domain = node "domain" [] (
    held (
      leaf "name" "vm1"
      ∷ leaf "title" "ours"
      ∷ sized "memory" "1024" "unit" "KiB"
      ∷ sized "currentMemory" "1024" "unit" "KiB"
      ∷ sized "vcpu" "2" "placement" "static"
      ∷ node "cpu" (("mode", "host-passthrough") ∷ []) childless
      ∷ node "devices" [] (
          held (
            leaf "emulator" "/usr/bin/qemu-system-x86_64"
            ∷ node "disk" (("device", "disk") ∷ []) (
                held (
                  node "source" (("file", "images/vm1.qcow2") ∷ []) childless
                  ∷ node "driver" (("name", "qemu") ∷ ("type", "qcow2") ∷ []) childless
                  ∷ node "target" (("dev", "vda") ∷ ("bus", "virtio") ∷ []) childless
                  ∷ []))
            ∷ node "controller" (("type", "pci") ∷ []) childless
            ∷ node "interface" [] (
                held (
                  node "source" (("network", "default") ∷ []) childless
                  ∷ node "model" (("type", "virtio") ∷ []) childless
                  ∷ []))
            ∷ node "serial" [] (held (node "target" (("type", "isa-serial") ∷ []) childless ∷ []))
            ∷ node "console" [] (held (node "target" (("type", "serial") ∷ []) childless ∷ []))
            ∷ node "input" (("type", "mouse") ∷ ("bus", "ps2") ∷ []) childless
            ∷ node "input" (("type", "keyboard") ∷ ("bus", "ps2") ∷ []) childless
            ∷ node "audio" (("type", "none") ∷ []) childless
            ∷ node "memballoon" (("model", "virtio") ∷ []) childless
            ∷ []))
      ∷ []))

abbrev volume : Element
volume = node "volume" [] (
    held (
      leaf "name" "vm1.qcow2"
      ∷ leaf "capacity" "1073741824"
      ∷ node "target" [] (
          held (
            leaf "path" "images/vm1.qcow2" ∷ node "format" (("type", "qcow2") ∷ []) childless ∷ []))
      ∷ node "backingStore" []
          (held (leaf "path" "images/base" ∷ node "format" (("type", "qcow2") ∷ []) childless ∷ []))
      ∷ []))

abbrev plain : Metadata
plain = record { kind = regular; uid = 0; mode = 384; size = 1 }

abbrev host : Host
host = record {
  marker = txt "ours";
  memory_mib = 1;
  vcpus = 2;
  disk_gib = 1;
  network = txt "default";
  default_base = txt "images/base";
  fromstring = λ t.
      if text_eq t (txt "domain")
      then some domain
      else if text_eq t (txt "volume")
      then some volume
      else none;
  lstat = λ p. some plain;
  stat = λ p. some plain;
  parent = λ p. txt "images";
  join = λ a b. a ++ txt "/" ++ b;
  file_name = λ p. p;
}

abbrev told : String → Reply
told t = record { succeeded = true; output = txt t }

abbrev missing : Reply
missing = record { succeeded = false; output = txt "no volume" }

unfoldable pub undefines : Command → Bool
undefines (undefine name) = true
undefines _ = false

unfoldable pub deletes : Command → Bool
deletes (vol_delete name) = true
deletes _ = false

-- The host lists "vm1" until it is undefined, and has its volume until that is deleted; every domain is
-- shut off, and described as "vm1" is, and so is every volume.
abbrev answer : Trace → Command → Reply
answer t list_domains = if any (λ (c, r). undefines c) t then told "" else told "vm1"
answer t (domstate name) = told "shut off"
answer t (dumpxml name) = told "domain"
answer t (vol_dumpxml name) = if any (λ (c, r). deletes c) t then missing else told "volume"
answer t (vol_path name) = told "images/vm1.qcow2"
answer t _ = told ""

abbrev pub world : World
world = record {
  host = host;
  base_path = txt "images/base";
  reply = answer;
  splitlines = λ t. t ∷ [];
  lower = λ t. t;
}

owned_vms-Keeps_example :
    IsJustified world (stop_owned_vms world (λ n. true) 3 (txt "vm1" ∷ []) []).0
    × IsJustified world (remove_owned_vms world (txt "vm1" ∷ []) []).0
owned_vms-Keeps_example = owned_vms-Keeps world (λ n. true) 3 (txt "vm1" ∷ []) [] tt

-- The deadline is at the second turn of the wait.
stop_owned_vms-ends_example : (stop_owned_vms world (λ n. n == 0) 2 (txt "vm1" ∷ []) []).1 ≢ ok none
stop_owned_vms-ends_example =
    stop_owned_vms-ends world (λ n. n == 0) (txt "vm1" ∷ []) 1 2 [] refl (omega arith)

-- The machine is undefined here, and its volume deleted.
removed : any (λ (c, r). undefines c) (remove_owned_vms world (txt "vm1" ∷ []) []).0 ≡ true
unfolding undefines remove_owned_vms text_eq txt strip is_space shown expected_domain domain_owned
    find_text decimal attribute is_error starts_with deletes
removed = refl

-- The machine is off, and can be kept or removed after that.
pub stops : (stop_owned_vms world (λ n. true) 3 (txt "vm1" ∷ []) []).1 ≡ ok (some true)
unfolding stop_owned_vms is_error starts_with txt strip is_space text_eq shown domain_owned
    find_text decimal attribute deletes undefines
stops = refl

pub verifies :
    (verify_persisted_vms world
      (txt "vm1" ∷ [])
      (λ name. none)
      (txt "vm1" ∷ [])
      (stop_owned_vms world (λ n. true) 3 (txt "vm1" ∷ []) []).0).1
    ≡ ok true
unfolding verify_persisted_vms stop_owned_vms is_error starts_with txt strip is_space text_eq shown
    expected_domain domain_owned find_text decimal attribute deletes undefines overlay_path
verifies = refl

pub removes :
    (remove_owned_vms world
      (txt "vm1" ∷ [])
      (stop_owned_vms world (λ n. true) 3 (txt "vm1" ∷ []) []).0).1
    ≡ ok true
unfolding stop_owned_vms remove_owned_vms is_error starts_with txt strip is_space text_eq shown
    expected_domain domain_owned find_text decimal attribute deletes undefines contains
removes = refl

stop_owned_vms-OffNow_example :
    (txt "vm1" ∷ [] ≡ [])
    ⊎ OffNow world (txt "vm1" ∷ []) (stop_owned_vms world (λ n. true) 3 (txt "vm1" ∷ []) []).0
unfolding stop_owned_vms is_error starts_with txt strip is_space text_eq shown domain_owned
    find_text decimal attribute deletes undefines
stop_owned_vms-OffNow_example = stop_owned_vms-OffNow world (λ n. true) 3 (txt "vm1" ∷ []) [] refl

remove_owned_vms-GoneNow_example :
    GoneNow world (txt "vm1" ∷ []) (remove_owned_vms world (txt "vm1" ∷ []) []).0
unfolding undefines remove_owned_vms text_eq txt strip is_space shown expected_domain domain_owned
    find_text decimal attribute is_error starts_with deletes contains
remove_owned_vms-GoneNow_example = remove_owned_vms-GoneNow world (txt "vm1" ∷ []) [] refl
