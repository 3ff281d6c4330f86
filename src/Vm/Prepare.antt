-- ===== src/Vm/Prepare.antt =====
-- vm/prepare.py: what the preparation does to the host. A run is a function of what has been done so far
-- and of the replies, newest first; files, replies and digests may depend on all of it.
pub mod Staging
pub mod Publish
pub mod Build
mod Orderly
mod Rules
mod Examples
use omashiki.Common.{
  ℕ, Bool, true, false, not, ◌&&◌, ◌||◌, Option, none, some, List, [], ◌∷◌, ◌++◌, ◌==◌,
  if◌then◌else◌, Result, ok, err,
}
use omashiki.Common.Int.{ℤ}
use omashiki.Common.Text.{Text, txt, text_eq, is_space, strip}
use omashiki.Common.Runs.{Run, ◌>>=◌, ◌>>◌, done, fail, demand}
use omashiki.Json.{Json, Fields, Exception, Loaded}
use omashiki.Vm.Xml.{Element, tag, find_text}
use omashiki.Vm.Owned.{equals}
use omashiki.Vm.Prepared.{Metadata, Error, is_regular}
use Prim.Native.Nat.{bit_and}

-- The parts of `build` whose commands are not modelled one by one
pub data Stage : Type 0 where
  source kata_bundle directories make_state public_key cloud_init create_builder reach_ssh
        install_packages :
      Stage
  install_kata prime_cache validate_guest power_off download convert check_image describe_base :
      Stage

-- Questions to virsh, then what changes something: commands, files, and the stages
pub data Event : Type 0 where
  domains domain_xml domain_state : Event
  vol_xml vol_info vol_path : Text → Event
  destroy undefine : Event
  vol_delete vol_create vol_upload : Text → Event
  write_pending write_pointer : Fields → Event
  unlink_pending place_image unlink_candidate : Event
  unlink_image : Text → Event
  stage : Stage → Event
  lock unlock remove_state : Event

-- Whether it has ended well, and the output
pub record Reply : Type 0 where
  pub succeeded : Bool
  pub output : Text

abbrev pub Trace : Type 0
Trace = List (Event × Reply)

-- What is raised: `Blocker`, `RuntimeError`, what vm/prepared.py raises, an OSError, other exceptions
pub data Failure : Type 0 where
  blocked : Text → Failure
  runtime_error : Text → Failure
  prepared_error : Error → Failure
  os_error : Failure
  raised : Exception → Failure

abbrev pub Act : Type 0 → Type 0
Act A = Run Trace Failure A

-- The settings of a `Preparer`; the files, their digests, the replies and `verify_prepared_base` after
-- some events; and the functions of the libraries. `beside a b` is `str(Path(a).parent / b)`.
pub record World : Type 0 where
  pub getuid : ℕ
  pub name : Text
  pub volume : Text
  pub marker : Text
  pub base_volume : Text
  pub disk_gib : ℕ
  pub fingerprint : Text
  pub base_sha256 : Json
  pub host_path : Text
  pub final_volume : Text
  pub pointer_path : Text
  pub pending_path : Text
  pub candidate_path : Text
  pub prepared_paths : Json → Result Error (Text × Text)
  pub reply : Trace → Event → Reply
  pub lstat : Trace → Text → Option Metadata
  pub stat : Trace → Text → Option Metadata
  pub read_json : Trace → Text → Option Loaded
  pub sha256_file : Trace → Text → Option Text
  pub image_info : Trace → Result Failure Fields
  pub float_is : Text → ℕ → Bool
  pub verify_prepared_base : Trace → Result Error Fields
  pub fromstring : Text → Option Element
  pub splitlines : Text → List Text
  pub lower : Text → Text
  pub isdigit : Text → Bool
  pub int : Text → Option ℤ
  pub beside : Text → Text → Text

module _ (w : World) where
  abbrev pub ask : Event → Act Reply
  ask e t = ((e, w.reply t e) ∷ t, ok (w.reply t e))

  -- `virsh(…, check=False)`
  abbrev pub query : Event → Act Text
  query e = do r ← ask e; done (strip is_space r.output)

  -- `virsh(…)`
  abbrev pub checked : Event → Act Text
  checked e = do
    r ← ask e
    demand r.succeeded (runtime_error (txt "command failed"))
    done (strip is_space r.output)

  -- `run(…)`, or a change of a file that may raise
  abbrev pub act : Event → Failure → Act (Unit {0})
  act e failure = do r ← ask e; demand r.succeeded failure

  abbrev pub command : Event → Act (Unit {0})
  command e = act e (runtime_error (txt "command failed"))

  -- A look at the host
  abbrev pub look : {A : Type 0} → (Trace → A) → Act A
  look f t = (t, ok (f t))

  abbrev pub or_fail : {A : Type 0} → Option A → Act A
  or_fail none = fail os_error
  or_fail (some a) = done a

  abbrev pub need : {A : Type 0} → (Trace → Option A) → Act A
  need f = look f >>= or_fail

  -- A regular file of the caller, which nobody else may write
  unfoldable pub is_own : Metadata → Bool
  is_own m = is_regular m.kind && m.uid == w.getuid

  unfoldable pub is_safe : Metadata → Bool
  unfolding is_own
  is_safe m = is_own m && bit_and m.mode 18 == 0

  -- `volume_root`
  unfoldable pub named_root : Text → Option Element → Act Element
  named_root name none = fail (blocked (txt "libvirt volume XML is invalid for " ++ name))
  named_root name (some root) = do
    demand (text_eq (tag root) (txt "volume") && equals (find_text (txt "name" ∷ []) root) name)
        (blocked (txt "libvirt volume identity differs for " ++ name))
    done root

  unfoldable pub volume_root : Text → Text → Act Element
  unfolding named_root
  volume_root xml name = named_root name (w.fromstring xml)

  -- `expected_pool_path`
  unfoldable pub expected_pool_path : Text → Act Text
  expected_pool_path name = do path ← checked (vol_path w.base_volume); done (w.beside path name)

  unfoldable pub drop_candidate : Option Metadata → Act (Unit {0})
  unfolding is_safe
  drop_candidate none = done tt
  drop_candidate (some m) = do
    demand (is_safe m) (blocked (txt "refusing unsafe prepared candidate: " ++ w.candidate_path))
    act unlink_candidate os_error

  -- `cleanup_candidate`
  unfoldable pub cleanup_candidate : Act (Unit {0})
  unfolding drop_candidate
  cleanup_candidate = look (λ t. w.lstat t w.candidate_path) >>= drop_candidate
