-- ===== src/Vm/Verify.antt =====
-- vm/prepared.py: `verify_prepared_base`, which trusts a prepared image or raises. The files do not
-- change while it runs.
mod Examples
pub mod Files
pub mod Entries
pub mod Laws
use omashiki.Common.{
  ℕ, zero, suc, Bool, true, false, not, ◌&&◌, ◌||◌, Option, none, some, List, [], ◌∷◌, ◌++◌, any,
  all, ◌==◌, if◌then◌else◌, Result, ok, err, ◌>>=◌, ◌>>◌, guard, or_raise,
}
use omashiki.Common.Int.{pos}
use omashiki.Common.Text.{Text, txt, text_eq, is_space, strip, is_empty}
use omashiki.Json.{
  Json, int, str, obj, null, Fields, Exception, Loaded, value, decode_error, Items, items, find,
  item, get_or, truthy,
}
use omashiki.Vm.Xml.{Element, tag, attrib, text, find_first, find_text, has_within, local_name}
use omashiki.Vm.Prepared.{
  Error, prepared_base_error, os_error, raised, other_error, World, Metadata, is_regular, base_sha,
  to_hex, full_text, sha256_text, preparation_fingerprint, configured_path, prepared_paths,
}
use Prim.Native.Nat.{bit_and}
use Prim.Native.String.{String}
use omashiki.Vm.Checks.{
  problem, require, raise_as, is_text, positive_integer, qcow2_info, volume_fits, regular_file,
  command_json, command_text, read_pointer, qemu_img_info, virsh_volume, same_bytes,
}

-- What is read of the pointer
pub record Pointer : Type 0 where
  pub fields : Fields
  pub libvirt_path : Text
  pub sha256 : Text
  pub size : ℕ
  pub virtual_size : ℕ

-- What the manifest and the fingerprint decide
pub record Expected : Type 0 where
  pub fingerprint : Text
  pub host_path : Text
  pub volume : Text
  pub source_sha256 : Text

abbrev entry : Fields → String → Result Error Json
entry fields key = raise_as (item (txt key) (obj fields))

-- The tests of the pointer's entries
pub check_pointer : Expected → Fields → Result Error Pointer
unfolding is_text positive_integer full_text sha256_text
check_pointer expected fields = do
  fingerprint ← entry fields "fingerprint"
  require (is_text fingerprint expected.fingerprint) (txt "prepared pointer fingerprint differs")
  host_path ← entry fields "host_path"
  volume ← entry fields "volume"
  require (is_text host_path expected.host_path && is_text volume expected.volume)
      (txt "prepared pointer paths differ from the manifest")
  libvirt ← entry fields "libvirt_path"
  libvirt_path ← full_text libvirt (txt "prepared pointer libvirt path is invalid")
  digest ← entry fields "sha256"
  sha256 ← sha256_text digest (txt "prepared pointer SHA-256 is invalid")
  source ← entry fields "source_sha256"
  require (is_text source expected.source_sha256) (txt "prepared pointer source SHA-256 differs")
  size_entry ← entry fields "size"
  size ← positive_integer size_entry (txt "size")
  virtual_entry ← entry fields "virtual_size"
  virtual_size ← positive_integer virtual_entry (txt "virtual_size")
  ok (record {
    fields = fields;
    libvirt_path = libvirt_path;
    sha256 = sha256;
    size = size;
    virtual_size = virtual_size;
  })

module _ (w : World) (sha256 : List ℕ → Text) where
  -- From the pointer's file on
  pub load_pointer : Text → Expected → Result Error Pointer
  unfolding regular_file read_pointer check_pointer
  load_pointer pointer_path expected = do
    metadata ← regular_file w pointer_path (txt "prepared pointer") true
    require (metadata.mode == 384) (txt "prepared pointer must have mode 0600")
    fields ← read_pointer w pointer_path
    check_pointer expected fields

  -- The tests of the host's image
  pub check_host : Pointer → Text → Result Error (Unit {0})
  unfolding regular_file same_bytes command_json qcow2_info
  check_host pointer host_path = do
    metadata ← regular_file w host_path (txt "prepared host image") true
    require (metadata.size == pointer.size) (txt "prepared host image size differs")
    same_bytes w sha256 host_path pointer.sha256 (txt "prepared host image bytes differ")
    info ← command_json w (qemu_img_info w host_path) (txt "host qemu-img info")
    qcow2_info info (txt "prepared host image") pointer.virtual_size

  -- What libvirt says of the volume
  pub check_volume : Pointer → Text → Text → Text → Result Error (Unit {0})
  unfolding command_text volume_fits
  check_volume pointer volume qemu_uri pool = do
    actual ←
        command_text w (virsh_volume w qemu_uri (txt "vol-path") volume pool) (txt "virsh vol-path")
    require (text_eq actual pointer.libvirt_path) (txt "libvirt volume path differs")
    xml ←
        command_text w (virsh_volume w qemu_uri (txt "vol-dumpxml") volume pool)
          (txt "virsh vol-dumpxml")
    root ← or_raise (w.fromstring xml) (prepared_base_error (txt "libvirt volume XML is invalid"))
    require (text_eq (local_name (tag root)) (txt "volume"))
        (txt "libvirt volume XML has the wrong root")
    require (volume_fits volume pointer.libvirt_path root) (txt "libvirt volume metadata differs")

  -- The tests of libvirt's volume
  pub check_libvirt : Pointer → Text → Text → Text → Result Error (Unit {0})
  unfolding regular_file check_volume command_json qcow2_info same_bytes
  check_libvirt pointer volume qemu_uri pool = do
    let libvirt_path = w.path pointer.libvirt_path
    let differ = txt "libvirt volume bytes differ from the host image"
    _ ← regular_file w libvirt_path (txt "libvirt prepared volume") false
    check_volume pointer volume qemu_uri pool
    info ← command_json w (qemu_img_info w pointer.libvirt_path) (txt "libvirt qemu-img info")
    qcow2_info info (txt "libvirt prepared volume") pointer.virtual_size
    metadata ← or_raise (w.stat libvirt_path) os_error
    require (metadata.size == pointer.size) differ
    same_bytes w sha256 libvirt_path pointer.sha256 differ

  abbrev is_dict : Json → Bool
  is_dict (obj fields) = true
  is_dict _ = false

  -- The body of the `try`
  pub verified : Json → Text → Text → Result Error Fields
  unfolding load_pointer check_host check_libvirt
  verified manifest manifest_path qemu_uri = do
    require (is_dict manifest && not (is_empty qemu_uri)) (txt "manifest or qemu URI is invalid")
    base ← raise_as (item (txt "base") manifest)
    prepared ← raise_as (item (txt "prepared") manifest)
    require (is_dict base && is_dict prepared)
        (txt "manifest base and prepared sections are required")
    pool_entry ← raise_as (item (txt "pool") base)
    pool ← full_text pool_entry (txt "manifest base.pool is required")
    source ← base_sha manifest
    fingerprint ← preparation_fingerprint w sha256 manifest manifest_path
    paths ← prepared_paths w manifest fingerprint
    given ← raise_as (item (txt "pointer") prepared)
    pointer_path ← configured_path w given (txt "prepared.pointer")
    pointer ← load_pointer pointer_path (record {
      fingerprint = fingerprint;
      host_path = paths.0;
      volume = paths.1;
      source_sha256 = to_hex source;
    })
    check_host pointer paths.0
    check_libvirt pointer paths.1 qemu_uri pool
    ok pointer.fields

  -- The `except` clauses
  pub wrapped : Result Error Fields → Result Error Fields
  wrapped (ok fields) = ok fields
  wrapped (err (raised Exception.attribute_error)) = err (raised Exception.attribute_error)
  wrapped (err (raised Exception.index_error)) = err (raised Exception.index_error)
  wrapped (err (raised e)) = problem (txt "prepared base verification failed")
  wrapped (err os_error) = problem (txt "prepared base verification failed")
  wrapped (err e) = err e

  -- `verify_prepared_base`
  pub verify_prepared_base : Json → Text → Text → Result Error Fields
  unfolding verified wrapped
  verify_prepared_base manifest manifest_path qemu_uri =
      wrapped (verified manifest manifest_path qemu_uri)
