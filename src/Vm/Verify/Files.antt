-- ===== src/Vm/Verify/Files.antt =====
-- What the tests of a file show.
use omashiki.Common.{
  ℕ, ◌≡◌, ◌==◌, ==_iff, subst, ◌∙◌, Bool, true, some, List, not, ◌||◌, ◌++◌, ok, use_ok, use_guard,
  guard-eq-ok, or_raise, or_raise-eq-ok, ok_injective,
}
use omashiki.Common.Text.{Text, txt, text_eq, text_eq_sound}
use omashiki.Vm.Prepared.{World, Metadata, prepared_base_error, os_error, is_regular}
use omashiki.Vm.Checks.{regular_file, sha256_file, same_bytes}
use Prim.Native.Nat.{bit_and}

-- A file that only its owner may write
pub record IsPlain (w : World) (path : Text) (metadata : Metadata) : Type 0 where
  pub found : w.lstat path ≡ some metadata
  pub regular : is_regular metadata.kind ≡ true
  pub unwritable : bit_and metadata.mode 18 ≡ 0

-- A file has this size and digest.
pub record HasImage (w : World) (sha256 : List ℕ → Text) (path digest : Text) : Type 0 where
  pub content : List ℕ
  pub read : w.read_bytes path ≡ some content
  pub digest_fits : sha256 content ≡ digest

pub regular_file-IsPlain :
    (w : World) (path label : Text) (owned : Bool) {m : Metadata}
    → regular_file w path label owned ≡ ok m
    → IsPlain w path m × ((not owned || m.uid == w.getuid) ≡ true)
unfolding regular_file
regular_file-IsPlain w path label owned {m} h =
    use_ok
      (or_raise (w.lstat path) (prepared_base_error (label ++ txt " is unavailable: " ++ path))) _ h
      λ metadata got h1. use_guard (is_regular metadata.kind) _ _ h1 λ regular h2.
        use_guard (not owned || metadata.uid == w.getuid) _ _ h2 λ own h3.
          use_guard (bit_and metadata.mode 18 == 0) _ _ h3 λ unwritable h4.
            subst (λ n. IsPlain w path n × ((not owned || n.uid == w.getuid) ≡ true))
              (ok_injective h4)
              (
                record {
                  found = or_raise-eq-ok (w.lstat path) _ got;
                  regular = regular;
                  unwritable = (==_iff _ _).0 unwritable;
                },
                own,
              )

pub same_bytes-HasImage :
    (w : World) (sha256 : List ℕ → Text) (path digest message : Text) {u : Unit {0}}
    → same_bytes w sha256 path digest message ≡ ok u
    → HasImage w sha256 path digest
unfolding same_bytes sha256_file
same_bytes-HasImage w sha256 path digest message h =
    use_ok (sha256_file w sha256 path) _ h λ actual hashed h1.
      use_ok (or_raise (w.read_bytes path) os_error) _ hashed λ content got h2.
        let same = guard-eq-ok (text_eq actual digest) _ h1 in
        record {
          content = content;
          read = or_raise-eq-ok (w.read_bytes path) os_error got;
          digest_fits = ok_injective h2 ∙ text_eq_sound actual digest same;
        }
