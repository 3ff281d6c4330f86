-- ===== src/Vm/Prepare/Staging.antt =====
-- vm/prepare.py: the builder's domain and volume, and their removal by `cleanup_owned_staging`.
pub mod Laws
pub mod Owned
pub mod Seen
use omashiki.Common.{
  ℕ, ◌*◌, ◌^◌, Bool, true, false, not, ◌&&◌, ◌||◌, Option, none, some, List, [], ◌∷◌, ◌++◌, any,
  all, map, if◌then◌else◌, ◌==◌,
}
use omashiki.Common.Int.{ℤ, pos}
use omashiki.Common.Text.{Text, txt, text_eq, starts_with, contains, is_empty}
use omashiki.Common.Runs.{◌>>=◌, ◌>>◌, done, fail, demand}
use omashiki.Vm.Xml.{Element, tag, attrib, attribute, find_all, find_first, find_text, flat_map}
use omashiki.Vm.Owned.{equals, disks}
use omashiki.Vm.Prepare.{
  Event, domains, domain_xml, domain_state, vol_xml, destroy, undefine, vol_delete, World, Act,
  blocked, ask, query, command, volume_root, expected_pool_path,
}

-- The only element of a list
abbrev only {ℓ} : {A : Type ℓ} → List A → Option A
only (x ∷ []) = some x
only _ = none

-- The source of the only disk
unfoldable pub source_of : Element → Option Element
unfolding disks
source_of root = only (flat_map (find_all (txt "source" ∷ [])) (disks "disk" root))

unfoldable pub is_builder : World → Element → Bool
unfolding equals
is_builder w root =
    text_eq (tag root) (txt "domain")
    && equals (find_text (txt "name" ∷ []) root) w.name
    && equals (find_text (txt "title" ∷ []) root) w.marker

-- The tests of the attributes of the source
unfoldable pub is_builder_source : World → Element → Text → Bool
unfolding equals
is_builder_source w source path =
    equals (attribute (txt "file") source) path
    && all (λ (k, v). text_eq k (txt "file") || text_eq k (txt "index")) (attrib source)
    && elim (attribute (txt "index") source) [ none ↦ true | some i ↦ w.isdigit i ]

-- The attributes are those of a qcow2 format alone: `target_format.attrib == {"type": "qcow2"}`.
unfoldable pub is_qcow2_format : Option Element → Bool
unfolding equals
is_qcow2_format none = false
is_qcow2_format (some e) =
    equals (attribute (txt "type") e) (txt "qcow2")
    && all (λ (k, v). text_eq k (txt "type")) (attrib e)

abbrev is_size : Option ℤ → ℕ → Bool
is_size (some (pos n)) size = n == size
is_size _ size = false

abbrev pub or_empty : Option Text → Text
or_empty none = []
or_empty (some t) = t

-- `volume_xml and "not found" not in … and "no storage vol" not in …`
unfoldable pub is_there : World → Text → Bool
is_there w xml =
    not (is_empty xml)
    && not (contains (txt "not found") (w.lower xml))
    && not (contains (txt "no storage vol") (w.lower xml))

abbrev pub is_running : Text → Bool
is_running state = text_eq state (txt "running") || text_eq state (txt "shut off")

module _ (w : World) where
  -- `domain_owned`, from the source of the disk on
  unfoldable pub source_owned : Element → Option Element → Act Bool
  unfolding is_builder is_builder_source expected_pool_path
  source_owned root none = done false
  source_owned root (some source) =
      if is_builder w root
      then (expected_pool_path w w.volume >>= λ path. done (is_builder_source w source path))
      else done false

  unfoldable pub root_owned : Option Element → Act Bool
  unfolding source_of source_owned
  root_owned none = done false
  root_owned (some root) = source_owned root (source_of root)

  -- `domain_owned`
  unfoldable pub domain_owned : Text → Act Bool
  unfolding root_owned
  domain_owned xml = root_owned (w.fromstring xml)

  -- What `staging_volume_owned` compares with the first path, and with the second
  unfoldable pub is_overlay : Element → Text → Bool
  unfolding equals is_qcow2_format
  is_overlay root path =
      equals (find_text (txt "target" ∷ txt "path" ∷ []) root) path
      && is_qcow2_format (find_first (txt "target" ∷ txt "format" ∷ []) root)

  unfoldable pub is_backed : Element → Text → ℤ → Bool
  unfolding equals
  is_backed root path capacity =
      equals (find_text (txt "backingStore" ∷ txt "path" ∷ []) root) path
      && is_size (some capacity) (w.disk_gib * 1024 ^ 3)

  unfoldable pub backing_owned : Element → ℤ → Act Bool
  unfolding expected_pool_path is_backed
  backing_owned root capacity = do
    base ← expected_pool_path w w.base_volume
    done (is_backed root base capacity)

  unfoldable pub overlay_owned : Element → ℤ → Act Bool
  unfolding expected_pool_path is_overlay backing_owned
  overlay_owned root capacity = do
    path ← expected_pool_path w w.volume
    if is_overlay root path then backing_owned root capacity else done false

  unfoldable pub capacity_owned : Element → Option ℤ → Act Bool
  unfolding overlay_owned
  capacity_owned root none = done false
  capacity_owned root (some capacity) = overlay_owned root capacity

  -- `staging_volume_owned`
  unfoldable pub staging_volume_owned : Text → Act Bool
  unfolding volume_root capacity_owned
  staging_volume_owned xml = do
    root ← volume_root w xml w.volume
    capacity_owned root (w.int (or_empty (find_text (txt "capacity" ∷ []) root)))

  -- The text of the domain, empty if it is not listed
  unfoldable pub domain_text : Bool → Act Text
  domain_text listed = if listed then query w domain_xml else done []

  -- The tests before anything is removed
  unfoldable pub check_domain : Text → Act (Unit {0})
  unfolding domain_owned
  check_domain xml =
      if is_empty xml
      then done tt
      else (domain_owned xml >>= λ owned.
          demand owned (blocked (txt "refusing to remove unowned preparation domain " ++ w.name)))

  unfoldable pub check_volume : Bool → Text → Act (Unit {0})
  unfolding staging_volume_owned
  check_volume exists xml =
      if exists
      then (staging_volume_owned xml >>= λ owned.
          demand owned (blocked (txt "refusing to remove unowned preparation volume " ++ w.volume)))
      else done tt

  -- The removal of the domain
  unfoldable pub stop_builder : Text → Act (Unit {0})
  stop_builder state =
      if text_eq state (txt "shut off") then done tt else (ask w destroy >>= λ _. done tt)

  unfoldable pub remove_domain : Text → Act (Unit {0})
  unfolding stop_builder
  remove_domain state = do
    demand (is_running state) (blocked (txt "preparation domain is in an unsafe state: " ++ state))
    stop_builder state
    command w undefine

  unfoldable pub remove_builder : Bool → Act (Unit {0})
  unfolding remove_domain
  remove_builder listed = if listed then (query w domain_state >>= remove_domain) else done tt

  unfoldable pub delete_volume : Bool → Act (Unit {0})
  delete_volume exists = if exists then command w (vol_delete w.volume) else done tt

  unfoldable pub remove_staging : Bool → Bool → Act (Unit {0})
  unfolding remove_builder delete_volume
  remove_staging listed exists = do remove_builder listed; delete_volume exists

  -- From the two descriptions on
  unfoldable pub test_staging : Bool → Text → Text → Act (Unit {0})
  unfolding check_domain check_volume remove_staging is_there
  test_staging listed xml volume_xml = do
    let exists = is_there w volume_xml
    demand (is_empty xml || exists) (
        blocked (
          txt "refusing to remove preparation domain "
          ++ w.name
          ++ txt " without its validated volume"))
    check_domain xml
    check_volume exists volume_xml
    remove_staging listed exists

  unfoldable pub inspect_staging : Bool → Act (Unit {0})
  unfolding domain_text test_staging
  inspect_staging listed = do
    xml ← domain_text listed
    volume_xml ← query w (vol_xml w.volume)
    test_staging listed xml volume_xml

  -- `cleanup_owned_staging`
  unfoldable pub cleanup_owned_staging : Act (Unit {0})
  unfolding inspect_staging
  cleanup_owned_staging = do
    listing ← query w domains
    demand (not (any (starts_with (txt "error:")) (w.splitlines listing)))
        (blocked (txt "could not list libvirt domains during preparation cleanup"))
    inspect_staging (any (text_eq w.name) (w.splitlines listing))
