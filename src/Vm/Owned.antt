-- ===== src/Vm/Owned.antt =====
-- vm/e2e.py: `domain_owned` and `volume_owned`, by which the harness knows its own machines.
use omashiki.Common.{
  ℕ, suc, ◌*◌, ◌^◌, Bool, true, false, not, ◌&&◌, ◌||◌, Option, none, some, List, [], ◌∷◌, ◌++◌,
  any, all, leb, filter_list, length, ◌==◌,
}
use omashiki.Common.Text.{Text, txt, text_eq, starts_with, ends_with, is_empty, or_else, decimal}
use omashiki.Vm.Xml.{Element, tag, text, children, attribute, find_all, find_first, find_text}
use omashiki.Vm.Prepared.{Metadata, is_symlink, is_file}
use Prim.Native.Nat.{bit_and}
use Prim.Native.String.{String}

-- The settings of the harness, and the host: the parser, the files, and `Path`'s `parent`, `/` and
-- `name` on texts
pub record Host : Type 0 where
  pub marker : Text
  pub memory_mib : ℕ
  pub vcpus : ℕ
  pub disk_gib : ℕ
  pub network : Text
  pub default_base : Text
  pub fromstring : Text → Option Element
  pub lstat : Text → Option Metadata
  pub stat : Text → Option Metadata
  pub parent : Text → Text
  pub join : Text → Text → Text
  pub file_name : Text → Text

-- `o == t`, where None is no text
unfoldable pub equals : Option Text → Text → Bool
equals none t = false
equals (some s) t = text_eq s t

-- `e is not None and e.get(key) == value`
unfoldable pub has : Option Element → String → String → Bool
unfolding equals
has none key value = false
has (some e) key value = equals (attribute (txt key) e) (txt value)

abbrev is_there {ℓ} : {A : Type ℓ} → Option A → Bool
is_there none = false
is_there (some a) = true

abbrev not_none {ℓ} : {A : Type ℓ} → List A → Bool
not_none [] = false
not_none (x ∷ xs) = true

abbrev is_one {ℓ} : {A : Type ℓ} → List A → Bool
is_one (x ∷ []) = true
is_one _ = false

-- The elements under `devices` with this tag
abbrev devices : String → Element → List Element
devices name root = find_all (txt "devices" ∷ txt name ∷ []) root

-- The disks with this attribute `device`
unfoldable pub disks : String → Element → List Element
unfolding equals
disks kind root =
    filter_list (λ d. equals (attribute (txt "device") d) (txt kind)) (devices "disk" root)

-- `overlay_path`
unfoldable pub overlay_path : Host → Text → Text → Text
overlay_path w name base_path =
    w.join (w.parent (or_else base_path w.default_base)) (name ++ txt ".qcow2")

-- `a or b` for two texts that may be None
abbrev option_or : Option Text → Option Text → Option Text
option_or (some (c ∷ t)) b = some (c ∷ t)
option_or _ b = b

abbrev type_of : Option Element → Option Text
type_of none = none
type_of (some e) = attribute (txt "type") e

abbrev text_of : Option Element → Option Text
text_of none = none
text_of (some e) = text e

-- The tests of the file of a volume, whose path is not empty
unfoldable pub is_plain_target : Host → Option Text → Bool
is_plain_target w none = false
is_plain_target w (some t) = elim (w.stat t) [
  | none ↦ false
  | some s ↦
      not (is_empty t)
      && not (is_symlink (w.lstat t))
      && is_file (some s)
      && (bit_and s.mode 18 == 0)
]

-- `volume_owned`
unfoldable pub volume_fits : Host → Text → Element → Text → Bool
unfolding equals has is_plain_target overlay_path
volume_fits w name volume base_path =
    let target = find_first (txt "target" ∷ txt "path" ∷ []) volume in
    let target_format = find_first (txt "target" ∷ txt "format" ∷ []) volume in
    let backing = find_first (txt "backingStore" ∷ txt "path" ∷ []) volume in
    let backing_format = find_first (txt "backingStore" ∷ txt "format" ∷ []) volume in
    equals (option_or (type_of target_format) (find_text (txt "format" ∷ []) volume)) (txt "qcow2")
    && equals (find_text (txt "capacity" ∷ []) volume) (decimal (w.disk_gib * 1024 ^ 3))
    && is_plain_target w (text_of target)
    && equals (find_text (txt "name" ∷ []) volume) (name ++ txt ".qcow2")
    && equals (text_of target) (overlay_path w name base_path)
    && equals (text_of backing) base_path
    && has backing_format "type" "qcow2"
    && not (is_there (find_first (txt "backingStore" ∷ txt "backingStore" ∷ []) volume))

unfoldable pub volume_owned : Host → Text → Text → Text → Bool
unfolding volume_fits
volume_owned w name volume_xml base_path = elim (w.fromstring volume_xml) [
  | none ↦ false
  | some volume ↦ volume_fits w name volume base_path
]

-- The source of a CD-ROM, if it has one, is an image that virt-install has made.
unfoldable pub is_boot_image : Host → Option Text → Bool
is_boot_image w none = true
is_boot_image w (some t) =
    is_empty t
    || (text_eq (w.parent t) (txt "/var/lib/libvirt/boot")
        && starts_with (txt "virtinst-") (w.file_name t)
        && ends_with (txt "-cloudinit.iso") (w.file_name t))

abbrev file_of : Option Element → Option Text
file_of none = none
file_of (some e) = attribute (txt "file") e

-- The tests of a CD-ROM
unfoldable pub cdrom_fits : Host → Element → Bool
unfolding has is_boot_image
cdrom_fits w cdrom =
    has (find_first (txt "driver" ∷ []) cdrom) "name" "qemu"
    && has (find_first (txt "driver" ∷ []) cdrom) "type" "raw"
    && is_there (find_first (txt "readonly" ∷ []) cdrom)
    && has (find_first (txt "target" ∷ []) cdrom) "bus" "ide"
    && is_boot_image w (file_of (find_first (txt "source" ∷ []) cdrom))

-- The tests of a disk
unfoldable pub disk_fits : Host → Text → Text → Element → Bool
unfolding equals has overlay_path
disk_fits w name base_path disk =
    equals (file_of (find_first (txt "source" ∷ []) disk)) (overlay_path w name base_path)
    && has (find_first (txt "driver" ∷ []) disk) "name" "qemu"
    && has (find_first (txt "driver" ∷ []) disk) "type" "qcow2"
    && has (find_first (txt "target" ∷ []) disk) "dev" "vda"
    && has (find_first (txt "target" ∷ []) disk) "bus" "virtio"

-- One disk that fits, and at most one CD-ROM, which fits, and no other disk
unfoldable pub disks_fit : Host → Text → Text → Element → Bool
unfolding disks disk_fits cdrom_fits
disks_fit w name base_path root =
    let cdroms = disks "cdrom" root in
    is_one (disks "disk" root)
    && (length (devices "disk" root) == suc (length cdroms))
    && leb (length cdroms) 1
    && all (cdrom_fits w) cdroms
    && all (disk_fits w name base_path) (disks "disk" root)

-- The size of the machine
unfoldable pub size_fits : Host → Element → Bool
unfolding equals has
size_fits w root =
    let memory = decimal (w.memory_mib * 1024) in
    equals (find_text (txt "memory" ∷ []) root) memory
    && has (find_first (txt "memory" ∷ []) root) "unit" "KiB"
    && equals (find_text (txt "currentMemory" ∷ []) root) memory
    && has (find_first (txt "currentMemory" ∷ []) root) "unit" "KiB"
    && equals (find_text (txt "vcpu" ∷ []) root) (decimal w.vcpus)
    && has (find_first (txt "vcpu" ∷ []) root) "placement" "static"
    && has (find_first (txt "cpu" ∷ []) root) "mode" "host-passthrough"

-- The tags that may stand under `devices`
abbrev allowed : List Text
allowed =
    txt "audio"
    ∷ txt "console"
    ∷ txt "controller"
    ∷ txt "disk"
    ∷ txt "emulator"
    ∷ txt "hostdev"
    ∷ txt "input"
    ∷ txt "interface"
    ∷ txt "memballoon"
    ∷ txt "serial"
    ∷ []

unfoldable pub known_devices : Option Element → Bool
known_devices none = false
known_devices (some e) = all (λ c. any (text_eq (tag c)) allowed) (children e)

abbrev is_input : String → Element → Bool
is_input kind e = has (some e) "type" kind && has (some e) "bus" "ps2"

-- One network interface, on the network
unfoldable pub interface_fits : Host → List Element → Bool
unfolding equals has
interface_fits w (i ∷ []) =
    elim (find_first (txt "source" ∷ []) i) [
      | none ↦ false
      | some s ↦ equals (attribute (txt "network") s) w.network
    ]
    && has (find_first (txt "model" ∷ []) i) "type" "virtio"
interface_fits w _ = false

-- The other devices
unfoldable pub devices_fit : Host → Element → Bool
unfolding equals has known_devices interface_fits
devices_fit w root =
    known_devices (find_first (txt "devices" ∷ []) root)
    && interface_fits w (devices "interface" root)
    && not (not_none (devices "hostdev" root))
    && is_one (devices "console" root)
    && not (not_none (devices "graphics" root))
    && has (find_first (txt "devices" ∷ txt "console" ∷ txt "target" ∷ []) root) "type" "serial"
    && equals (find_text (txt "devices" ∷ txt "emulator" ∷ []) root)
        (txt "/usr/bin/qemu-system-x86_64")
    && not_none (devices "controller" root)
    && all
        (λ c. has (some c) "type" "ide" || has (some c) "type" "pci" || has (some c) "type" "usb")
        (devices "controller" root)
    && is_one (devices "serial" root)
    && all (λ s. has (find_first (txt "target" ∷ []) s) "type" "isa-serial") (devices "serial" root)
    && all (λ i. is_input "mouse" i || is_input "keyboard" i) (devices "input" root)
    && any (is_input "mouse") (devices "input" root)
    && any (is_input "keyboard") (devices "input" root)
    && is_one (devices "audio" root)
    && all (λ a. has (some a) "type" "none") (devices "audio" root)
    && is_one (devices "memballoon" root)
    && all (λ b. has (some b) "model" "virtio") (devices "memballoon" root)

-- `domain_owned`
unfoldable pub domain_fits : Host → Text → Element → Text → Text → Bool
unfolding equals size_fits disks_fit volume_owned devices_fit
domain_fits w name root volume_xml base_path =
    equals (find_text (txt "name" ∷ []) root) name
    && equals (find_text (txt "title" ∷ []) root) w.marker
    && size_fits w root
    && disks_fit w name base_path root
    && volume_owned w name volume_xml base_path
    && devices_fit w root

unfoldable pub domain_owned : Host → Text → Text → Text → Text → Bool
unfolding domain_fits
domain_owned w name xml volume_xml base_path = elim (w.fromstring xml) [
  | none ↦ false
  | some root ↦ domain_fits w name root volume_xml base_path
]
