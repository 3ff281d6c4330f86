-- ===== src/Vm/Machines/Persisted.antt =====
-- vm/e2e.py: `verify_persisted_vms`, and what `domain_snapshot` reads off the two XML texts.
pub mod Laws
use omashiki.Common.{
  Bool, true, false, ◌&&◌, Option, none, some, List, [], ◌∷◌, any, map, if◌then◌else◌,
}
use omashiki.Common.Runs.{◌>>=◌, done}
use omashiki.Common.Text.{Text, txt, text_eq, is_empty}
use omashiki.Vm.Xml.{Element, find_all, find_first, find_text, attribute}
use omashiki.Vm.Owned.{overlay_path}
use omashiki.Vm.Machines.{
  World, Run, Snapshot, domstate, query, domain_list, domain_snapshot, expected_domain,
}

-- An entry of `networks`
pub record Interface : Type 0 where
  pub kind : Option Text
  pub network : Option Text
  pub model : Option Text

-- What is compared of a snapshot of the start
pub record Known : Type 0 where
  pub domain_xml : Text
  pub info : Text
  pub xml : Text
  pub path : Text
  pub backing_path : Text
  pub target_path : Text
  pub networks : List Interface

-- `e.get(key) if e is not None else None`
abbrev attribute_of : Text → Option Element → Option Text
attribute_of key none = none
attribute_of key (some e) = attribute key e

unfoldable pub interface_of : Element → Interface
interface_of e = record {
  kind = attribute (txt "type") e;
  network = attribute_of (txt "network") (find_first (txt "source" ∷ []) e);
  model = attribute_of (txt "type") (find_first (txt "model" ∷ []) e);
}

-- `x or ""`
abbrev text_or_empty : Option Text → Text
text_or_empty none = []
text_or_empty (some t) = t

-- `x == y`
abbrev same_option : Option Text → Option Text → Bool
same_option none none = true
same_option (some s) (some t) = text_eq s t
same_option _ _ = false

unfoldable pub same_interface : Interface → Interface → Bool
same_interface a b =
    same_option a.kind b.kind && same_option a.network b.network && same_option a.model b.model

unfoldable pub same_interfaces : List Interface → List Interface → Bool
unfolding same_interface
same_interfaces [] [] = true
same_interfaces (a ∷ rest) (b ∷ others) = same_interface a b && same_interfaces rest others
same_interfaces _ _ = false

module _ (w : World) where
  -- A text under the root, "" where the description is empty or cannot be parsed
  unfoldable pub read_volume : List Text → Text → Text
  read_volume path xml =
      if is_empty xml
      then []
      else elim (w.host.fromstring xml) [ none ↦ [] | some v ↦ text_or_empty (find_text path v) ]

  unfoldable pub read_networks : Text → List Interface
  unfolding interface_of
  read_networks xml = if is_empty xml then [] else elim (w.host.fromstring xml) [
    | none ↦ []
    | some root ↦ map interface_of (find_all (txt "devices" ∷ txt "interface" ∷ []) root)
  ]

  -- What is compared of a snapshot
  unfoldable pub known_of : Snapshot → Known
  unfolding read_volume read_networks
  known_of s = record {
    domain_xml = s.domain_xml;
    info = s.volume_info;
    xml = s.volume_xml;
    path = s.volume_path;
    backing_path = read_volume (txt "backingStore" ∷ txt "path" ∷ []) s.volume_xml;
    target_path = read_volume (txt "target" ∷ txt "path" ∷ []) s.volume_xml;
    networks = read_networks s.domain_xml;
  }

  -- `exact_existing`; there may be no snapshot of the start.
  unfoldable pub exact_existing : Snapshot → Option Known → Bool
  unfolding known_of same_interfaces
  exact_existing s none = false
  exact_existing s (some initial) =
      let current = known_of s in
      text_eq current.domain_xml initial.domain_xml
      && text_eq current.info initial.info
      && text_eq current.xml initial.xml
      && text_eq current.path initial.path
      && text_eq current.backing_path initial.backing_path
      && text_eq current.target_path initial.target_path
      && same_interfaces current.networks initial.networks

  -- `valid`, for a machine that the run has `created` or not
  unfoldable pub is_valid : Bool → Option Known → Text → Snapshot → Bool
  unfolding exact_existing expected_domain
  is_valid created initial name s =
      text_eq s.initial_state (txt "shut off")
      && (if created then expected_domain w name s else exact_existing s initial)
      && text_eq s.volume_path (overlay_path w.host name w.base_path)

  module _ (created : List Text) (initial : Text → Option Known) where
    -- A turn of the loop, given the domains
    unfoldable pub verify_one : List Text → Text → Run Bool
    unfolding is_valid domain_snapshot
    verify_one domains name =
        if any (text_eq name) domains
        then (query w (domstate name) >>= λ state. domain_snapshot w name state >>= λ s.
            done (is_valid (any (text_eq name) created) (initial name) name s))
        else done false

    -- The loop, and `verification["all_valid"]`
    unfoldable pub verify_all : List Text → List Text → Bool → Run Bool
    unfolding verify_one
    verify_all domains [] all_valid = done all_valid
    verify_all domains (name ∷ names) all_valid =
        verify_one domains name >>= λ valid. verify_all domains names (all_valid && valid)

    -- `verify_persisted_vms`, over `vm_names`
    unfoldable pub verify_persisted_vms : List Text → Run Bool
    unfolding verify_all domain_list
    verify_persisted_vms names = domain_list w >>= λ domains. verify_all domains names true
