-- ===== src/Vm/Manifest/Sections.antt =====
-- vm/e2e.py: `validate_manifest`, section by section, up to the workload.
use omashiki.Common.{
  ℕ, Bool, true, false, not, ◌&&◌, ◌||◌, List, [], ◌∷◌, ◌++◌, any, all, leb, ◌==◌, Result, ok, err,
  ◌>>=◌, ◌>>◌, or_raise,
}
use omashiki.Common.Text.{Text, txt, text_eq}
use omashiki.Json.{Json, str, arr, Fields, elements}
use omashiki.Kata.{is_absolute}
use omashiki.Vm.Pattern.{is_sha256, is_safe_name, is_volume_prefix}
use omashiki.Vm.Manifest.Base.{
  Error, blocker, no_home, World, require, get, required_string, required_int, repository_path,
}
use Prim.Native.String.{String}

-- A setting that has one value only
abbrev pub exactly : Fields → String → String → String → String → Result Error (Unit {0})
exactly table key place expected message = do
  value ← required_string table key place
  require (text_eq value (txt expected)) (txt message)

-- `[project]`
unfoldable pub validate_project : Fields → Result Error (Unit {0})
unfolding required_string
validate_project project = do
  slug ← required_string project "slug" "[project]"
  purpose ← required_string project "purpose" "[project]"
  marker ← required_string project "ownership_marker" "[project]"
  require (is_safe_name slug && is_safe_name purpose)
      (txt "manifest project slug and purpose must be lowercase names")
  require (text_eq marker (txt "project=" ++ slug ++ txt ";purpose=" ++ purpose))
      (txt "manifest ownership_marker must exactly identify project and purpose")

-- `[base]`
unfoldable pub validate_base : Fields → Result Error (Unit {0})
unfolding required_string
validate_base base = do
  exactly base "qemu_uri" "[base]" "qemu:///system" "manifest base.qemu_uri must be qemu:///system"
  _ ← required_string base "pool" "[base]"
  _ ← required_string base "volume" "[base]"
  _ ← required_string base "path" "[base]"
  sha ← required_string base "sha256" "[base]"
  require (is_sha256 sha) (txt "manifest base.sha256 must be 64 lowercase hexadecimal characters")
  exactly base "format" "[base]" "qcow2" "manifest base.format must be qcow2"

-- The loop over the paths of `[prepared]`
unfoldable pub check_absolute : World → Fields → List String → Result Error (Unit {0})
unfolding required_string
check_absolute w prepared [] = ok tt
check_absolute w prepared (key ∷ keys) = do
  value ← required_string prepared key "[prepared]"
  path ← or_raise (w.expanduser value) no_home
  require (is_absolute path)
      (txt "manifest prepared." ++ txt key ++ txt " must expand to an absolute path")
  check_absolute w prepared keys

-- `[prepared]`
unfoldable pub validate_prepared : World → Fields → Result Error (List Text)
unfolding check_absolute required_string repository_path
validate_prepared w prepared = do
  check_absolute w prepared ("directory" ∷ "pointer" ∷ "pending" ∷ [])
  prefix ← required_string prepared "volume_prefix" "[prepared]"
  require (is_volume_prefix prefix) (txt "manifest prepared.volume_prefix is invalid")
  cloud_init ← required_string prepared "cloud_init" "[prepared]"
  repository_path w cloud_init (txt "prepared cloud-init template") false

-- `isinstance(node, str) and SAFE_NAME_RE.fullmatch(node)`
unfoldable pub is_node : Json → Bool
is_node (str t) = is_safe_name t
is_node _ = false

unfoldable pub same_text : Json → Json → Bool
same_text (str s) (str t) = text_eq s t
same_text _ _ = false

-- `len(set(nodes)) == len(nodes)`
unfoldable pub distinct : List Json → Bool
unfolding same_text
distinct [] = true
distinct (v ∷ vs) = not (any (same_text v) vs) && distinct vs

abbrev pub not_none {ℓ} : {A : Type ℓ} → List A → Bool
not_none [] = false
not_none (x ∷ xs) = true

-- The list of nodes, if it is one that is not empty
unfoldable pub node_list : Json → Result Error (List Json)
unfolding is_node
node_list (arr vs) =
    let nodes = elements vs in
    require (not_none nodes && all is_node nodes)
      (txt "manifest topology.nodes must contain unique lowercase names")
    >> ok nodes
node_list _ = err (blocker (txt "manifest topology.nodes must contain unique lowercase names"))

-- `[topology]`: its nodes
unfoldable pub validate_topology : Fields → Result Error (List Json)
unfolding required_string node_list distinct
validate_topology topology = do
  exactly topology "variant" "[topology]" "service-node"
      "this harness supports only the service-node topology"
  exactly topology "core" "[topology]" "host" "manifest topology.core must be host"
  domain_prefix ← required_string topology "domain_prefix" "[topology]"
  guest_user ← required_string topology "guest_user" "[topology]"
  nodes ← node_list (get topology "nodes")
  require (distinct nodes && is_safe_name domain_prefix && is_safe_name guest_user)
      (txt "manifest topology names must be safe and unique")
  ok nodes

-- `[vm]`
unfoldable pub validate_vm : World → Fields → Result Error (List Text)
unfolding required_string required_int repository_path
validate_vm w vm = do
  _ ← required_int vm "memory_mib" "[vm]" 1
  _ ← required_int vm "vcpus" "[vm]" 1
  _ ← required_int vm "disk_gib" "[vm]" 1
  _ ← required_string vm "network" "[vm]"
  _ ← required_string vm "bridge_interface" "[vm]"
  cloud_init ← required_string vm "cloud_init" "[vm]"
  repository_path w cloud_init (txt "manifest cloud-init template") false

-- A port of `[services]`
unfoldable pub check_port : Fields → String → Result Error ℕ
unfolding required_int
check_port services key = do
  port ← required_int services key "[services]" 1024
  require (leb port 65535)
      (txt "manifest services." ++ txt key ++ txt " is outside the TCP port range")
  ok port

-- `[services]`: the loop over the ports, in order, and the comparison of three of them
unfoldable pub validate_services : Fields → Result Error (Unit {0})
unfolding check_port required_string
validate_services services = do
  core ← check_port services "core_port"
  worker ← check_port services "worker_port"
  fake ← check_port services "fake_provider_port"
  _ ← check_port services "database_internal_port"
  _ ← check_port services "tunnel_port_base"
  require (not (core == worker || core == fake || worker == fake))
      (txt "manifest service ports must be distinct")
  _ ← required_string services "database_image" "[services]"
  ok tt
