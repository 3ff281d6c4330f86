-- ===== src/Vm/Verify/Examples.antt =====
-- A prepared image on a small host.
use omashiki.Common.{refl, true, Bool, Option, none, some, List, [], ◌∷◌, ◌++◌, take, if◌then◌else◌}
use omashiki.Common.Int.{pos}
use omashiki.Common.Text.{Text, txt, text_eq, strip, is_space}
use omashiki.Json.{Json, int, str, obj, dict, value, Fields, item, find, get_or, truthy}
use omashiki.Vm.Xml.{Element, element, childless, child, find_text, has_within, local_name}
use omashiki.Vm.Frame.{frame}
use omashiki.Vm.Pattern.{is_sha256, is_volume_prefix}
use omashiki.Vm.Prepared.{World, Metadata, regular, preparation_fingerprint, prepared_paths, to_hex}
use omashiki.Vm.Verify.{verify_prepared_base}
use omashiki.Vm.Verify.Laws.{Trusted, verify_prepared_base-Trusted}

-- 64 times "a", the digest of everything
abbrev digest : Text
digest = txt "aaaaaaaaaaaaaaaaaaaaaaaaaaaaaaaaaaaaaaaaaaaaaaaaaaaaaaaaaaaaaaaa"

abbrev volume : Text
volume = txt "p" ++ txt "-" ++ take 16 digest ++ txt ".qcow2"

abbrev manifest : Json
manifest = obj (
    dict (
      (txt "base", obj (dict ((txt "sha256", str digest) ∷ (txt "pool", str (txt "o")) ∷ [])))
      ∷ (
        txt "prepared",
        obj (
            dict (
              (txt "cloud_init", str (txt "ci"))
              ∷ (txt "directory", str (txt "d"))
              ∷ (txt "volume_prefix", str (txt "p"))
              ∷ (txt "pointer", str (txt "pointer"))
              ∷ [])),
      )
      ∷ []))

abbrev pointer : Fields
pointer = dict (
    (txt "fingerprint", str digest)
    ∷ (txt "source_sha256", str digest)
    ∷ (txt "host_path", str (txt "d" ++ txt "/" ++ (digest ++ txt ".qcow2")))
    ∷ (txt "volume", str volume)
    ∷ (txt "libvirt_path", str (txt "lv"))
    ∷ (txt "sha256", str digest)
    ∷ (txt "size", int (pos 3))
    ∷ (txt "virtual_size", int (pos 9))
    ∷ [])

abbrev info : Fields
info = dict ((txt "format", str (txt "qcow2")) ∷ (txt "virtual-size", int (pos 9)) ∷ [])

abbrev xml : Element
xml = element (txt "volume") [] none (
    child (element (txt "name") [] (some volume) childless) (
      child
        (element (txt "target") [] none (
          child (element (txt "path") [] (some (txt "lv")) childless) (
            child (element (txt "format") ((txt "type", txt "qcow2") ∷ []) none childless)
              childless)))
        childless))

-- `virsh vol-path`, another query of virsh, or `qemu-img info`
abbrev answer : List Text → Option (Bool × Text)
answer (a ∷ b ∷ c ∷ d ∷ e ∷ rest) =
    some (true, if text_eq d (txt "vol-path") then txt "lv" else txt "xml")
answer _ = some (true, txt "info")

abbrev plain : Metadata
plain = record { kind = regular; uid = 7; mode = 384; size = 3 }

abbrev host : World
host = record {
  getuid = 7;
  lstat = λ p. some plain;
  stat = λ p. some plain;
  read_bytes = λ p. some (txt "abc");
  read_ascii = λ p. some p;
  path = λ p. p;
  join = λ a b. a ++ txt "/" ++ b;
  grandparent = λ p. txt "r";
  expanduser = λ p. some p;
  loads = λ t. value (obj (if text_eq t (txt "pointer") then pointer else info));
  run = answer;
  fromstring = λ t. some xml;
}

verify_prepared_base-Trusted_example :
    Trusted host (λ s. digest) manifest (txt "m") (txt "q") pointer
unfolding verify_prepared_base preparation_fingerprint prepared_paths frame is_sha256
    is_volume_prefix txt item find text_eq truthy strip to_hex has_within find_text local_name
    is_space get_or
verify_prepared_base-Trusted_example =
    verify_prepared_base-Trusted host (λ s. digest) manifest (txt "m") (txt "q") (refl)
