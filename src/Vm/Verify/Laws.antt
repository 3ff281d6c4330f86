-- ===== src/Vm/Verify/Laws.antt =====
-- What a trusted image guarantees.
use omashiki.Common.{
  ℕ, ◌≡◌, ◌==◌, ==_iff, ap, ◌∙◌, true, false, ◌&&◌, some, List, not, ok, err, Result, use_ok,
  use_guard, or_raise, or_raise-eq-ok, ok_injective,
}
use omashiki.Common.Text.{Text, txt, text_eq, text_eq_sound, is_empty}
use omashiki.Json.{Json, Fields, Exception, item}
use omashiki.Vm.Prepared.{
  Error, World, Metadata, raised, os_error, base_sha, to_hex, full_text, preparation_fingerprint,
  configured_path, prepared_paths,
}
use omashiki.Vm.Checks.{
  raise_as, qcow2_info, regular_file, command_json, command_text, qemu_img_info, virsh_volume,
  same_bytes,
}
use omashiki.Vm.Verify.{
  Pointer, Expected, load_pointer, check_host, check_volume, check_libvirt, is_dict, verified,
  wrapped, verify_prepared_base,
}
use omashiki.Vm.Verify.Files.{IsPlain, HasImage, regular_file-IsPlain, same_bytes-HasImage}
use omashiki.Vm.Verify.Entries.{Entries, load_pointer-Entries}

-- What holds of a base that is trusted. `fields` is the pointer.
pub record Trusted (w : World) (sha256 : List ℕ → Text) (manifest : Json) (manifest_path : Text)
    (qemu_uri : Text) (fields : Fields) : Type 0 where
  pub expected : Expected
  pub pointer : Pointer
  pub is_pointer : pointer.fields ≡ fields
  pub fingerprint_current :
      preparation_fingerprint w sha256 manifest manifest_path ≡ ok expected.fingerprint
  pub paths_fit :
      prepared_paths w manifest expected.fingerprint ≡ ok (expected.host_path, expected.volume)
  pub entries : Entries expected pointer
  pub host_metadata : Metadata
  pub host_plain : IsPlain w expected.host_path host_metadata
  pub host_owned : host_metadata.uid ≡ w.getuid
  pub host_size : host_metadata.size ≡ pointer.size
  pub host_image : HasImage w sha256 expected.host_path pointer.sha256
  pub libvirt_link : Metadata
  pub libvirt_plain : IsPlain w (w.path pointer.libvirt_path) libvirt_link
  pub libvirt_metadata : Metadata
  pub libvirt_found : w.stat (w.path pointer.libvirt_path) ≡ some libvirt_metadata
  pub libvirt_size : libvirt_metadata.size ≡ pointer.size
  pub libvirt_image : HasImage w sha256 (w.path pointer.libvirt_path) pointer.sha256
  pub pool : Text
  pub libvirt_says :
      command_text w
        (virsh_volume w qemu_uri (txt "vol-path") expected.volume pool)
        (txt "virsh vol-path")
      ≡ ok pointer.libvirt_path

-- The part of it about the host's image
record HostTrusted (w : World) (sha256 : List ℕ → Text) (p : Pointer) (path : Text) : Type 0 where
  metadata : Metadata
  plain : IsPlain w path metadata
  owned : metadata.uid ≡ w.getuid
  size : metadata.size ≡ p.size
  image : HasImage w sha256 path p.sha256

check_host-HostTrusted :
    (w : World) (sha256 : List ℕ → Text) (p : Pointer) (path : Text) {u : Unit {0}}
    → check_host w sha256 p path ≡ ok u
    → HostTrusted w sha256 p path
unfolding check_host
check_host-HostTrusted w sha256 p path h =
    use_ok (regular_file w path (txt "prepared host image") true) _ h λ metadata got h1.
      use_guard (metadata.size == p.size) _ _ h1 λ size h2.
        use_ok (same_bytes w sha256 path p.sha256 (txt "prepared host image bytes differ")) _ h2
          λ _ same h3.
            let (plain, own) = regular_file-IsPlain w path _ true got in
            record {
              metadata = metadata;
              plain = plain;
              owned = (==_iff _ _).0 own;
              size = (==_iff _ _).0 size;
              image = same_bytes-HasImage w sha256 path p.sha256 _ same;
            }

record VolumeTrusted (w : World) (p : Pointer) (volume qemu_uri pool : Text) : Type 0 where
  says :
      command_text w (virsh_volume w qemu_uri (txt "vol-path") volume pool) (txt "virsh vol-path")
      ≡ ok p.libvirt_path

check_volume-VolumeTrusted :
    (w : World) (sha256 : List ℕ → Text) (p : Pointer) (volume qemu_uri pool : Text) {u : Unit {0}}
    → check_volume w sha256 p volume qemu_uri pool ≡ ok u
    → VolumeTrusted w p volume qemu_uri pool
unfolding check_volume
check_volume-VolumeTrusted w sha256 p volume qemu_uri pool h =
    let command = virsh_volume w qemu_uri (txt "vol-path") volume pool in
    use_ok (command_text w command (txt "virsh vol-path")) _ h λ actual said h1.
      use_guard (text_eq actual p.libvirt_path) _ _ h1
        λ same h2. record { says = said ∙ ap ok (text_eq_sound _ _ same) }

record LibvirtTrusted (w : World) (sha256 : List ℕ → Text) (p : Pointer)
    (volume qemu_uri pool : Text) : Type 0 where
  link : Metadata
  plain : IsPlain w (w.path p.libvirt_path) link
  metadata : Metadata
  found : w.stat (w.path p.libvirt_path) ≡ some metadata
  size : metadata.size ≡ p.size
  image : HasImage w sha256 (w.path p.libvirt_path) p.sha256
  volume_trusted : VolumeTrusted w p volume qemu_uri pool

check_libvirt-LibvirtTrusted :
    (w : World) (sha256 : List ℕ → Text) (p : Pointer) (volume qemu_uri pool : Text) {u : Unit {0}}
    → check_libvirt w sha256 p volume qemu_uri pool ≡ ok u
    → LibvirtTrusted w sha256 p volume qemu_uri pool
unfolding check_libvirt
check_libvirt-LibvirtTrusted w sha256 p volume qemu_uri pool h =
    let path = w.path p.libvirt_path in
    use_ok (regular_file w path (txt "libvirt prepared volume") false) _ h λ link got h1.
      use_ok (check_volume w sha256 p volume qemu_uri pool) _ h1 λ _ checked h2.
        use_ok (command_json w (qemu_img_info w p.libvirt_path) (txt "libvirt qemu-img info")) _ h2
          λ info _ h3.
            use_ok (qcow2_info info (txt "libvirt prepared volume") p.virtual_size) _ h3 λ _ _ h4.
              use_ok (or_raise (w.stat path) os_error) _ h4 λ metadata found h5.
                use_guard (metadata.size == p.size) _ _ h5 λ size h6. record {
                  link = link;
                  plain = (regular_file-IsPlain w path _ false got).0;
                  metadata = metadata;
                  found = or_raise-eq-ok (w.stat path) os_error found;
                  size = (==_iff _ _).0 size;
                  image = same_bytes-HasImage w sha256 path p.sha256 _ h6;
                  volume_trusted =
                      check_volume-VolumeTrusted w sha256 p volume qemu_uri pool checked;
                }

wrapped-eq-ok :
    (w : World) (sha256 : List ℕ → Text) (r : Result Error Fields) {f : Fields}
    → wrapped w sha256 r ≡ ok f
    → r ≡ ok f
unfolding wrapped
wrapped-eq-ok w sha256 (ok fields) h = h
wrapped-eq-ok w sha256 (err (raised Exception.attribute_error)) h = cc
wrapped-eq-ok w sha256 (err (raised e)) h = cc
wrapped-eq-ok w sha256 (err os_error) h = cc
wrapped-eq-ok w sha256 (err e) h = cc

-- If `verify_prepared_base` returns a pointer, the pointer names the fingerprint of the present inputs,
-- the image path and the volume that this fingerprint decides, and a size and a digest that both the
-- host's image and libvirt's file have; the image is a plain file of the caller that nobody else may
-- write, libvirt's file a plain one that only its owner may write, and libvirt gives the pointer's path
-- for the volume.
pub verify_prepared_base-Trusted :
    (w : World) (sha256 : List ℕ → Text) (manifest : Json) (manifest_path qemu_uri : Text)
    {fields : Fields}
    → verify_prepared_base w sha256 manifest manifest_path qemu_uri ≡ ok fields
    → Trusted w sha256 manifest manifest_path qemu_uri fields
unfolding verify_prepared_base verified
verify_prepared_base-Trusted w sha256 manifest manifest_path qemu_uri h =
    let h0 = wrapped-eq-ok w sha256 _ h in
    use_guard (is_dict w sha256 manifest && not (is_empty qemu_uri)) _ _ h0 λ _ h1.
      use_ok (raise_as (item (txt "base") manifest)) _ h1 λ base _ h2.
        use_ok (raise_as (item (txt "prepared") manifest)) _ h2 λ prepared _ h3.
          use_guard (is_dict w sha256 base && is_dict w sha256 prepared) _ _ h3 λ _ h4.
            use_ok (raise_as (item (txt "pool") base)) _ h4 λ pool_entry _ h5.
              use_ok (full_text pool_entry (txt "manifest base.pool is required")) _ h5 λ pool _ h6.
                use_ok (base_sha manifest) _ h6 λ source _ h7.
                  use_ok (preparation_fingerprint w sha256 manifest manifest_path) _ h7
                    λ fingerprint current h8.
                      use_ok (prepared_paths w manifest fingerprint) _ h8 λ paths fit h9.
                        use_ok (raise_as (item (txt "pointer") prepared)) _ h9 λ given _ h10.
                          use_ok (configured_path w given (txt "prepared.pointer")) _ h10
                            λ pointer_path _ h11.
                              let expected : Expected = record {
                                fingerprint = fingerprint;
                                host_path = paths.0;
                                volume = paths.1;
                                source_sha256 = to_hex source;
                              } in
                              use_ok (load_pointer w sha256 pointer_path expected) _ h11
                                λ pointer loaded h12.
                                  use_ok (check_host w sha256 pointer paths.0) _ h12
                                    λ _ host_checked h13.
                                      use_ok (check_libvirt w sha256 pointer paths.1 qemu_uri pool)
                                        _ h13
                                        λ _ libvirt_checked h14.
                                          let host =
                                            check_host-HostTrusted w sha256 pointer paths.0
                                              host_checked in
                                          let libvirt =
                                            check_libvirt-LibvirtTrusted w sha256 pointer paths.1
                                              qemu_uri pool libvirt_checked in
                                          record {
                                            expected = expected;
                                            pointer = pointer;
                                            is_pointer = ok_injective h14;
                                            fingerprint_current = current;
                                            paths_fit = fit;
                                            entries =
                                                load_pointer-Entries w sha256 pointer_path expected
                                                  loaded;
                                            host_metadata = host.metadata;
                                            host_plain = host.plain;
                                            host_owned = host.owned;
                                            host_size = host.size;
                                            host_image = host.image;
                                            libvirt_link = libvirt.link;
                                            libvirt_plain = libvirt.plain;
                                            libvirt_metadata = libvirt.metadata;
                                            libvirt_found = libvirt.found;
                                            libvirt_size = libvirt.size;
                                            libvirt_image = libvirt.image;
                                            pool = pool;
                                            libvirt_says = libvirt.volume_trusted.says;
                                          }
