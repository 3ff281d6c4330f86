-- ===== src/Vm/Checks.antt =====
-- vm/prepared.py: the helpers of `verify_prepared_base`, from `_regular_file` to `_qcow2_info`, and its
-- tests of JSON and XML.
use omashiki.Common.{
  ℕ, suc, Bool, false, not, ◌&&◌, ◌||◌, Option, none, some, List, [], ◌∷◌, ◌++◌, any, all, ◌==◌,
  if◌then◌else◌, Result, ok, err, ◌>>=◌, ◌>>◌, guard, or_raise,
}
use omashiki.Common.Int.{pos}
use omashiki.Common.Text.{Text, txt, text_eq, is_space, strip, is_empty}
use omashiki.Json.{
  Json, int, str, obj, null, Fields, Exception, Loaded, value, decode_error, items, get_or, truthy,
}
use omashiki.Vm.Xml.{Element, attrib, text, find_first, find_text, has_within}
use omashiki.Vm.Prepared.{Error, prepared_base_error, os_error, raised, World, Metadata, is_regular}
use Prim.Native.Nat.{bit_and}

abbrev pub problem {ℓ} : {A : Type ℓ} → Text → Result Error A
problem message = err (prepared_base_error message)

abbrev pub require : Bool → Text → Result Error (Unit {0})
require passed message = guard passed (prepared_base_error message)

-- An exception that is not caught at once
abbrev pub raise_as {ℓ} : {A : Type ℓ} → Result Exception A → Result Error A
raise_as (ok a) = ok a
raise_as (err e) = err (raised e)

-- `v == t` for a text `t`
unfoldable pub is_text : Json → Text → Bool
is_text (str s) t = text_eq s t
is_text _ t = false

-- `o == t`, where None is no text
unfoldable pub is_some_text : Option Text → Text → Bool
is_some_text none t = false
is_some_text (some s) t = text_eq s t

-- `_integer(value, label, positive=True)`
unfoldable pub positive_integer : Json → Text → Result Error ℕ
positive_integer (int (pos (suc n))) label = ok (suc n)
positive_integer _ label = problem (txt "pointer " ++ label ++ txt " is invalid")

unfoldable pub command_object : Loaded → Text → Result Error Fields
command_object (value (obj fields)) label = ok fields
command_object (value _) label = problem (label ++ txt " returned a non-object JSON value")
command_object decode_error label = problem (label ++ txt " returned invalid JSON")
command_object (Loaded.other_error Exception.type_error) label =
    problem (label ++ txt " returned invalid JSON")
command_object (Loaded.other_error e) label = err (raised e)

-- `_no_backing`
unfoldable pub no_backing : Fields → Text → Result Error (Unit {0})
no_backing info label =
    require
      (not (
        any (λ key. truthy (get_or key info null))
          (txt "backing-filename"
            ∷ txt "full-backing-filename"
            ∷ txt "backing-filename-format"
            ∷ [])))
      (label ++ txt " has a backing file")

unfoldable pub is_size : Json → ℕ → Bool
is_size (int (pos (suc n))) size = suc n == size
is_size _ size = false

-- `_qcow2_info`
unfoldable pub qcow2_info : Fields → Text → ℕ → Result Error (Unit {0})
unfolding is_text is_size no_backing
qcow2_info info label virtual_size = do
  require
      (is_text (get_or (txt "format") info null) (txt "qcow2")
        && is_size (get_or (txt "virtual-size") info null) virtual_size)
      (label ++ txt " metadata differs")
  no_backing info label

-- `_POINTER_KEYS`
abbrev pub pointer_keys : List Text
pointer_keys =
    txt "fingerprint"
    ∷ txt "source_sha256"
    ∷ txt "host_path"
    ∷ txt "volume"
    ∷ txt "libvirt_path"
    ∷ txt "sha256"
    ∷ txt "size"
    ∷ txt "virtual_size"
    ∷ []

-- `set(d) == keys`
unfoldable pub has_exactly : Fields → List Text → Bool
has_exactly fields keys =
    all (λ entry. any (text_eq entry.0) keys) (items fields)
    && all (λ key. any (λ entry. text_eq entry.0 key) (items fields)) keys

-- The pointer file's JSON object
unfoldable pub pointer_object : Loaded → Result Error Fields
unfolding has_exactly
pointer_object (value (obj fields)) =
    if has_exactly fields pointer_keys
    then ok fields
    else problem (txt "prepared pointer schema is invalid")
pointer_object (value _) = problem (txt "prepared pointer schema is invalid")
pointer_object decode_error = problem (txt "prepared pointer is invalid JSON")
pointer_object (Loaded.other_error Exception.unicode_error) =
    problem (txt "prepared pointer is invalid JSON")
pointer_object (Loaded.other_error e) = err (raised e)

-- `attrib == {"type": "qcow2"}`
unfoldable pub is_qcow2 : Option Element → Bool
is_qcow2 none = false
is_qcow2 (some e) = elim (attrib e) [
  | (key, kind) ∷ [] ↦ text_eq key (txt "type") && text_eq kind (txt "qcow2")
  | _ ↦ false
]

abbrev pub text_of : Option Element → Option Text
text_of none = none
text_of (some e) = text e

-- The tests of the volume's XML
unfoldable pub volume_fits : Text → Text → Element → Bool
unfolding is_some_text is_qcow2
volume_fits volume libvirt_path root =
    is_some_text (find_text (txt "name" ∷ []) root) volume
    && is_some_text (text_of (find_first (txt "target" ∷ txt "path" ∷ []) root)) libvirt_path
    && is_qcow2 (find_first (txt "target" ∷ txt "format" ∷ []) root)
    && not (has_within (txt "backingStore") root)

module _ (w : World) where
  -- `_regular_file`
  unfoldable pub regular_file : Text → Text → Bool → Result Error Metadata
  regular_file path label require_owner = do
    metadata ←
        or_raise (w.lstat path) (prepared_base_error (label ++ txt " is unavailable: " ++ path))
    require (is_regular metadata.kind) (label ++ txt " is not a regular file: " ++ path)
    require (not require_owner || metadata.uid == w.getuid)
        (label ++ txt " has an unsafe owner: " ++ path)
    require (bit_and metadata.mode 18 == 0) (label ++ txt " has unsafe write permissions: " ++ path)
    ok metadata

  -- The output of a command that has ended with 0
  unfoldable pub command_output : List Text → Text → Result Error Text
  command_output command label = do
    result ← or_raise (w.run command) (prepared_base_error (label ++ txt " could not be executed"))
    require result.0 (label ++ txt " failed")
    ok result.1

  -- `_command_json`
  unfoldable pub command_json : List Text → Text → Result Error Fields
  unfolding command_output command_object
  command_json command label = do
    output ← command_output command label
    command_object (w.loads output) label

  -- `_command_text`
  unfoldable pub command_text : List Text → Text → Result Error Text
  unfolding command_output
  command_text command label = do
    output ← command_output command label
    let value = strip is_space output
    require (not (is_empty value)) (label ++ txt " returned an empty result")
    ok value

  -- `pointer_path.read_text(encoding="ascii")` and `json.loads`
  unfoldable pub read_pointer : Text → Result Error Fields
  unfolding pointer_object
  read_pointer path = do
    source ←
        or_raise (w.read_ascii path) (prepared_base_error (txt "prepared pointer is invalid JSON"))
    pointer_object (w.loads source)

  abbrev pub qemu_img_info : Text → List Text
  qemu_img_info path = txt "qemu-img" ∷ txt "info" ∷ txt "--output=json" ∷ path ∷ []

  abbrev pub virsh_volume : Text → Text → Text → Text → List Text
  virsh_volume qemu_uri command volume pool =
      txt "virsh" ∷ txt "-c" ∷ qemu_uri ∷ command ∷ volume ∷ txt "--pool" ∷ pool ∷ []

  module _ (sha256 : List ℕ → Text) where
    -- `sha256_file`: the digest of the chunks is that of the whole file.
    unfoldable pub sha256_file : Text → Result Error Text
    sha256_file path = do content ← or_raise (w.read_bytes path) os_error; ok (sha256 content)

    -- `sha256_file(path) == expected`, or the error
    unfoldable pub same_bytes : Text → Text → Text → Result Error (Unit {0})
    unfolding sha256_file
    same_bytes path expected message = do
      actual ← sha256_file path
      require (text_eq actual expected) message
