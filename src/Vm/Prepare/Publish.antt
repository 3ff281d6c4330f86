-- ===== src/Vm/Prepare/Publish.antt =====
-- vm/prepare.py: whether the present image is valid, its publication, and the recovery of one that has
-- been broken off.
pub mod Laws
pub mod Commit
pub mod Reads
pub mod Upload
use omashiki.Common.{
  ℕ, Bool, true, false, not, ◌&&◌, ◌||◌, Option, none, some, List, [], ◌∷◌, ◌++◌, any, all, map,
  ◌==◌, if◌then◌else◌, Result, ok, err,
}
use omashiki.Common.Int.{pos}
use omashiki.Common.Text.{Text, txt, text_eq, is_empty}
use omashiki.Common.Runs.{◌>>=◌, ◌>>◌, done, fail, demand}
use omashiki.Json.{
  Json, str, int, obj, null, Fields, dict, items, get_or, Loaded, value, decode_error, other_error,
}
use omashiki.Vm.Xml.{Element, find_first, find_text}
use omashiki.Vm.Owned.{equals}
use omashiki.Vm.Pattern.{is_sha256}
use omashiki.Vm.Prepared.{Metadata, Error, prepared_base_error}
use omashiki.Vm.Checks.{has_exactly}
use omashiki.Vm.Prepare.{
  Event, vol_xml, vol_info, vol_path, vol_delete, vol_create, vol_upload, write_pending,
  write_pointer, unlink_pending, place_image, unlink_image, stage, describe_base, World, Act,
  Failure, blocked, runtime_error, prepared_error, os_error, raised, query, checked, act, command,
  look, need, is_own, is_safe, volume_root, expected_pool_path,
}
use omashiki.Vm.Prepare.Staging.{is_qcow2_format, is_there}

-- `v == t`
abbrev pub is_text : Json → Text → Bool
is_text (str s) t = text_eq s t
is_text _ t = false

-- `{"fingerprint", "host_path", "volume"}`
abbrev pub journal_keys : List Text
journal_keys = txt "fingerprint" ∷ txt "host_path" ∷ txt "volume" ∷ []

-- `re.fullmatch(r"[0-9a-f]{64}", …)` of a fingerprint that is another
unfoldable pub is_other_fingerprint : World → Json → Bool
is_other_fingerprint w (str t) = is_sha256 t && not (text_eq t w.fingerprint)
is_other_fingerprint w _ = false

-- `isinstance(previous, dict)`
abbrev pub fingerprint_of : Json → Json
fingerprint_of (obj fs) = get_or (txt "fingerprint") fs null
fingerprint_of _ = null

-- The volume of a publication that has been broken off
unfoldable pub is_pending_volume : Element → Text → Bool
unfolding equals is_qcow2_format
is_pending_volume root path =
    equals (find_text (txt "target" ∷ txt "path" ∷ []) root) path
    && is_qcow2_format (find_first (txt "target" ∷ txt "format" ∷ []) root)
    && elim (find_first (txt "backingStore" ∷ []) root) [ none ↦ true | some e ↦ false ]

-- What the pending file says
unfoldable pub journal : World → Fields
journal w = dict (
    (txt "fingerprint", str w.fingerprint)
    ∷ (txt "host_path", str w.host_path)
    ∷ (txt "volume", str w.final_volume)
    ∷ [])

unfoldable pub pointer : World → Text → Text → ℕ → Json → Fields
pointer w libvirt_path image_sha image_size virtual_size = dict (
    (txt "fingerprint", str w.fingerprint)
    ∷ (txt "source_sha256", w.base_sha256)
    ∷ (txt "host_path", str w.host_path)
    ∷ (txt "volume", str w.final_volume)
    ∷ (txt "libvirt_path", str libvirt_path)
    ∷ (txt "sha256", str image_sha)
    ∷ (txt "size", int (pos image_size))
    ∷ (txt "virtual_size", virtual_size)
    ∷ [])

module _ (w : World) where
  -- `owner and owner.isdigit()`
  unfoldable pub is_number : Option Text → Bool
  is_number none = false
  is_number (some t) = not (is_empty t) && w.isdigit t

  unfoldable pub loaded : Failure → Option Loaded → Act Json
  loaded failure none = fail failure
  loaded failure (some decode_error) = fail failure
  loaded failure (some (other_error e)) = fail (raised e)
  loaded failure (some (value v)) = done v

  -- `json.loads(path.read_text())`, with this failure for an OSError or a text that is no JSON
  unfoldable pub load : Text → Failure → Act Json
  unfolding loaded
  load path failure = look w (λ t. w.read_json t path) >>= loaded failure

  -- `except PreparedBaseError` of `current_is_valid`: the image is stale, or nothing can be done.
  unfoldable pub stale : Text → Act Bool
  unfolding is_own load is_other_fingerprint
  stale message = do
    m ← need w (λ t. w.lstat t w.pointer_path)
    demand (is_own w m) (blocked message)
    previous ← load w.pointer_path (blocked message)
    demand (is_other_fingerprint w (fingerprint_of previous)) (blocked message)
    done false

  unfoldable pub after_verify : Result Error Fields → Act Bool
  unfolding stale
  after_verify (ok fields) = done true
  after_verify (err (prepared_base_error message)) = stale message
  after_verify (err e) = fail (prepared_error e)

  unfoldable pub validate : Option Metadata → Act Bool
  unfolding after_verify
  validate none = done false
  validate (some m) = look w w.verify_prepared_base >>= after_verify

  -- `current_is_valid`
  unfoldable pub current_is_valid : Act Bool
  unfolding validate
  current_is_valid = look w (λ t. w.lstat t w.pointer_path) >>= validate

  -- The paths of the journal's fingerprint
  unfoldable pub paths_of : Result Error (Text × Text) → Act (Text × Text)
  paths_of (ok paths) = done paths
  paths_of (err (prepared_base_error m)) =
      fail (blocked (txt "pending preparation journal fingerprint is invalid"))
  paths_of (err e) = fail (prepared_error e)

  unfoldable pub pending_paths : Json → Act (Text × Text)
  unfolding paths_of
  pending_paths fingerprint = paths_of (w.prepared_paths fingerprint)

  unfoldable pub are_paths : Fields → Text × Text → Bool
  are_paths fs paths =
      is_text (get_or (txt "host_path") fs null) paths.0
      && is_text (get_or (txt "volume") fs null) paths.1

  unfoldable pub matching : Fields → Text × Text → Act (Text × Text)
  unfolding are_paths
  matching fs paths = do
    demand (are_paths fs paths) (blocked (txt "pending preparation journal paths are invalid"))
    done paths

  unfoldable pub journal_paths : Json → Act (Text × Text)
  unfolding has_exactly pending_paths matching
  journal_paths (obj fs) = do
    demand (has_exactly fs journal_keys)
        (blocked (txt "pending preparation journal schema is invalid"))
    paths ← pending_paths (get_or (txt "fingerprint") fs null)
    matching fs paths
  journal_paths _ = fail (blocked (txt "pending preparation journal schema is invalid"))

  -- A journal that can be trusted: the image's path and the volume
  unfoldable pub read_journal : Metadata → Act (Text × Text)
  unfolding is_own load journal_paths
  read_journal m = do
    demand (is_own w m && m.mode == 384) (blocked (txt "pending preparation journal is unsafe"))
    pending ← load w.pending_path (blocked (txt "pending preparation journal is invalid"))
    journal_paths pending

  unfoldable pub remove_pending_volume : Text → Act (Unit {0})
  unfolding volume_root expected_pool_path is_pending_volume
  remove_pending_volume volume = do
    xml ← checked w (vol_xml volume)
    root ← volume_root w xml volume
    path ← expected_pool_path w volume
    demand (is_pending_volume root path)
        (blocked (txt "refusing to remove an unsafe pending libvirt volume"))
    command w (vol_delete volume)

  unfoldable pub remove_pending_image : Text → Option Metadata → Act (Unit {0})
  unfolding is_safe
  remove_pending_image path none = done tt
  remove_pending_image path (some m) =
      demand (is_safe w m) (blocked (txt "refusing to remove an unsafe pending host image"))
      >> act w (unlink_image path) os_error

  unfoldable pub clear_volume : Text → Text → Act (Unit {0})
  unfolding remove_pending_volume is_there
  clear_volume volume info = if is_there w info then remove_pending_volume volume else done tt

  unfoldable pub clear_image : Text → Act (Unit {0})
  unfolding remove_pending_image
  clear_image path = do
    found ← look w (λ t. w.lstat t path)
    remove_pending_image path found
    act w unlink_pending os_error

  unfoldable pub roll_back : Text × Text → Act (Unit {0})
  unfolding clear_volume clear_image
  roll_back (path, volume) = do
    info ← query w (vol_info volume)
    clear_volume volume info
    clear_image path

  unfoldable pub recover : Option Metadata → Act (Unit {0})
  unfolding read_journal roll_back
  recover none = done tt
  recover (some m) = read_journal m >>= roll_back

  -- `recover_pending_publication`
  unfoldable pub recover_pending_publication : Act (Unit {0})
  unfolding recover
  recover_pending_publication = look w (λ t. w.lstat t w.pending_path) >>= recover

  -- `publish` from the image's digest and size on
  unfoldable pub upload : Act Text
  unfolding volume_root is_number
  upload = do
    xml ← checked w (vol_xml w.base_volume)
    root ← volume_root w xml w.base_volume
    demand
        (is_number (find_text (txt "target" ∷ txt "permissions" ∷ txt "owner" ∷ []) root)
          && is_number (find_text (txt "target" ∷ txt "permissions" ∷ txt "group" ∷ []) root))
        (blocked (txt "source Fedora volume does not declare numeric libvirt ownership"))
    act w (stage describe_base) os_error
    command w (vol_create w.final_volume)
    command w (vol_upload w.final_volume)
    checked w (vol_path w.final_volume)

  -- The comparison of libvirt's volume with the image
  unfoldable pub compare : Text → Text → ℕ → Act (Unit {0})
  compare libvirt_path image_sha image_size = do
    let differs = runtime_error (txt "published libvirt volume differs from prepared host image")
    sha ← need w (λ t. w.sha256_file t libvirt_path)
    demand (text_eq sha image_sha) differs
    m ← need w (λ t. w.stat t libvirt_path)
    demand (m.size == image_size) differs

  unfoldable pub settle : Result Error Fields → Act (Unit {0})
  settle (ok fields) = act w unlink_pending os_error
  settle (err e) = fail (prepared_error e)

  -- `publish`, with `info["virtual-size"]`
  unfoldable pub publish : Json → Act (Unit {0})
  unfolding upload compare settle journal pointer
  publish virtual_size = do
    act w (write_pending (journal w)) os_error
    act w place_image os_error
    image_sha ← need w (λ t. w.sha256_file t w.host_path)
    m ← need w (λ t. w.stat t w.host_path)
    libvirt_path ← upload
    compare libvirt_path image_sha m.size
    act w (write_pointer (pointer w libvirt_path image_sha m.size virtual_size)) os_error
    verified ← look w w.verify_prepared_base
    settle verified
