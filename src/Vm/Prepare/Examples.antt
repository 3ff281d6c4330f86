-- ===== src/Vm/Prepare/Examples.antt =====
-- A preparation from the beginning to the publication.
use omashiki.Common.{
  ◌≡◌, refl, Bool, true, false, none, some, [], ◌∷◌, ◌++◌, any, if◌then◌else◌, ok,
}
use omashiki.Common.Int.{pos}
use omashiki.Common.Text.{txt, text_eq, strip, is_space, starts_with, contains}
use omashiki.Json.{int, str, Fields, dict, find, get_or, truthy}
use omashiki.Vm.Xml.{Element, element, childless, child, find_text}
use omashiki.Vm.Prepared.{Metadata, regular}
use omashiki.Vm.Prepare.{Event, vol_xml, vol_path, unlink_pending, lock, Reply, Trace, World}
use omashiki.Vm.Prepare.Orderly.{IsOrderly}
use omashiki.Vm.Prepare.Build.{build, status}
use omashiki.Vm.Prepare.Build.Laws.{IsReleased, build-IsOrderly}

abbrev base : Element
base = element (txt "volume") [] none (
    child (element (txt "name") [] (some (txt "base")) childless) (
      child
        (element (txt "target") [] none (
          child
            (element (txt "permissions") [] none (
              child (element (txt "owner") [] (some (txt "107")) childless)
                (child (element (txt "group") [] (some (txt "107")) childless) childless)))
            childless))
        childless))

abbrev plain : Metadata
plain = record { kind = regular; uid = 0; mode = 384; size = 3 }

abbrev answer : Trace → Event → Reply
answer t (vol_xml volume) = record {
  succeeded = true;
  output = if text_eq volume (txt "base") then txt "base" else [];
}
answer t (vol_path volume) = record { succeeded = true; output = txt "images" }
answer t _ = record { succeeded = true; output = [] }

abbrev fields : Fields
fields = dict ((txt "format", str (txt "qcow2")) ∷ (txt "virtual-size", int (pos 1073741824)) ∷ [])

abbrev world : World
world = record {
  getuid = 0;
  name = txt "builder";
  volume = txt "builder.qcow2";
  marker = txt "ours";
  base_volume = txt "base";
  disk_gib = 1;
  fingerprint = txt "f";
  base_sha256 = str (txt "b");
  host_path = txt "image";
  final_volume = txt "final";
  pointer_path = txt "pointer";
  pending_path = txt "pending";
  candidate_path = txt "candidate";
  prepared_paths = λ v. ok (txt "image", txt "final");
  reply = answer;
  lstat = λ t p. none;
  stat = λ t p. some plain;
  read_json = λ t p. none;
  sha256_file = λ t p. some (txt "digest");
  image_info = λ t. ok fields;
  float_is = λ t n. false;
  verify_prepared_base = λ t. ok fields;
  fromstring = λ t. some base;
  splitlines = λ t. [];
  lower = λ t. t;
  isdigit = λ t. true;
  int = λ t. none;
  beside = λ a b. a ++ b;
}

build-IsOrderly_example :
    IsOrderly world (build world []).0
    × ((world.reply [] lock).succeeded ≡ true → IsReleased (build world []).0)
build-IsOrderly_example = build-IsOrderly world [] tt

-- It has been published, and ends with status 0.
is_settled : Event → Bool
is_settled unlink_pending = true
is_settled _ = false

published :
    (any (λ (e, r). is_settled e) (build world []).0 ≡ true) × (status (build world []).1 ≡ some 0)
unfolding is_settled build status text_eq txt strip is_space find truthy starts_with contains
    find_text get_or
published = (refl, refl)
