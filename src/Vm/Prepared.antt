-- ===== src/Vm/Prepared.antt =====
-- vm/prepared.py: the fingerprint of a preparation's inputs, and the paths that it decides.
-- SHA-256 is `sha256`, which gives the hexadecimal digest of all bytes that it was updated with.
mod Examples
pub mod Laws
use omashiki.Common.{
  ℕ, zero, suc, ◌+◌, ◌-◌, ◌*◌, ◌/◌, ◌%◌, Bool, true, false, not, ◌&&◌, ◌||◌, Option, none, some,
  List, [], ◌∷◌, ◌++◌, ltb, all, if◌then◌else◌, take, Result, ok, err, ◌>>=◌, ◌>>◌, guard, or_raise,
}
use omashiki.Common.Text.{Text, txt, is_space, strip, is_empty}
use omashiki.Json.{Json, str, Exception, item, Loaded}
use omashiki.Vm.Xml.{Element}
use omashiki.Vm.Pattern.{is_sha256, is_volume_prefix}
use omashiki.Vm.Frame.{frame}

-- What is raised: a `PreparedBaseError` with its message, an OSError, an exception by its class, or one
-- that no function here catches (an OverflowError, or the RuntimeError of `expanduser`).
pub data Error : Type 0 where
  prepared_base_error : Text → Error
  os_error : Error
  raised : Exception → Error
  other_error : Error

pub data FileKind : Type 0 where
  symlink regular other : FileKind

-- `os.stat_result`; `mode` is `S_IMODE(st_mode)`.
pub record Metadata : Type 0 where
  pub kind : FileKind
  pub uid : ℕ
  pub mode : ℕ
  pub size : ℕ

-- The host. Paths are texts: `path` is `str(Path(t))`, `join` that of `Path(a) / b`, `grandparent` of
-- `Path(t).resolve().parent.parent`, `expanduser` of `Path(t).expanduser()`. `none` stands for an
-- OSError, in `read_ascii` for a UnicodeError too. A command gives whether its return code is 0, and
-- its output.
pub record World : Type 0 where
  pub getuid : ℕ
  pub lstat : Text → Option Metadata
  pub stat : Text → Option Metadata
  pub read_bytes : Text → Option (List ℕ)
  pub read_ascii : Text → Option Text
  pub path : Text → Text
  pub join : Text → Text → Text
  pub grandparent : Text → Text
  pub expanduser : Text → Option Text
  pub loads : Text → Loaded
  pub run : List Text → Option (Bool × Text)
  pub fromstring : Text → Option Element

-- `try: … except (KeyError, TypeError): raise PreparedBaseError(message)` around a subscript
unfoldable pub subscript : Result Exception Json → Text → Result Error Json
subscript (ok v) message = ok v
subscript (err e) message = err (prepared_base_error message)

-- The value of a lowercase hexadecimal digit, and the digit
unfoldable pub hex_value : ℕ → ℕ
hex_value c = if ltb c 58 then c - 48 else c - 87

unfoldable pub hex_digit : ℕ → ℕ
hex_digit n = if ltb n 10 then 48 + n else 87 + n

-- `bytes.fromhex`
unfoldable pub from_hex : Text → List ℕ
unfolding hex_value
from_hex [] = []
from_hex (c ∷ []) = []
from_hex (c ∷ d ∷ t) = (hex_value c * 16 + hex_value d) ∷ from_hex t

-- `bytes.hex`
unfoldable pub to_hex : List ℕ → Text
unfolding hex_digit
to_hex [] = []
to_hex (b ∷ bs) = hex_digit (b / 16) ∷ hex_digit (b % 16) ∷ to_hex bs

unfoldable pub sha256_text : Json → Text → Result Error Text
sha256_text (str t) message = if is_sha256 t then ok t else err (prepared_base_error message)
sha256_text _ message = err (prepared_base_error message)

-- `_base_sha`
unfoldable pub base_sha : Json → Result Error (List ℕ)
unfolding subscript sha256_text from_hex
base_sha manifest = do
  value ←
      subscript (item (txt "base") manifest >>= item (txt "sha256"))
        (txt "manifest base.sha256 is required")
  t ← sha256_text value (txt "manifest base.sha256 must be 64 lowercase hexadecimal characters")
  ok (from_hex t)

-- A text that is not empty
unfoldable pub full_text : Json → Text → Result Error Text
full_text (str t) message = if is_empty t then err (prepared_base_error message) else ok t
full_text _ message = err (prepared_base_error message)

-- `_FINGERPRINT_FILES`
abbrev pub fingerprint_files : List Text
fingerprint_files =
    txt "vm/prepare.py"
    ∷ txt "vm/prepared.py"
    ∷ txt "vm/e2e.py"
    ∷ txt "server/mix.exs"
    ∷ txt "server/mix.lock"
    ∷ []

-- `t.encode("ascii")`
unfoldable pub encode_ascii : Text → Result Error (List ℕ)
encode_ascii t = if all (λ c. ltb c 128) t then ok t else err (raised Exception.unicode_error)

abbrev pub is_regular : FileKind → Bool
is_regular regular = true
is_regular _ = false

abbrev pub is_symlink : Option Metadata → Bool
is_symlink none = false
is_symlink (some s) = elim s.kind [ symlink ↦ true | _ ↦ false ]

abbrev pub is_file : Option Metadata → Bool
is_file none = false
is_file (some s) = is_regular s.kind

-- The update of the digest for one input
unfoldable pub framed : Text × List ℕ → Result Error (List ℕ)
framed input = or_raise (frame input) other_error

module _ (w : World) where
  -- What the loop over the files hashes for one of them
  unfoldable pub file_input : Text → Text → Result Error (Text × List ℕ)
  unfolding encode_ascii
  file_input root relative = do
    let path = w.join root relative
    guard (not (is_symlink (w.lstat path) || not (is_file (w.stat path))))
        (prepared_base_error (txt "fingerprint input is not a regular file: " ++ path))
    content ← or_raise (w.read_bytes path) os_error
    label ← encode_ascii relative
    ok (label, content)

  unfoldable pub files_framed : Text → List Text → Result Error (List ℕ)
  unfolding file_input framed
  files_framed root [] = ok []
  files_framed root (relative ∷ rest) = do
    input ← file_input root relative
    first ← framed input
    later ← files_framed root rest
    ok (first ++ later)

  -- All that `preparation_fingerprint` updates its digest with
  unfoldable pub fingerprint_bytes : Json → Text → Result Error (List ℕ)
  unfolding base_sha full_text files_framed
  fingerprint_bytes manifest manifest_path = do
    sha ← base_sha manifest
    content ← or_raise (w.read_bytes (w.path manifest_path)) os_error
    first ← framed (txt "manifest", content)
    second ← framed (txt "base.sha256", sha)
    value ←
        subscript (item (txt "prepared") manifest >>= item (txt "cloud_init"))
          (txt "manifest prepared.cloud_init is required")
    cloud_init ← full_text value (txt "manifest prepared.cloud_init is invalid")
    later ← files_framed (w.grandparent manifest_path) (fingerprint_files ++ cloud_init ∷ [])
    ok (first ++ (second ++ later))

  unfoldable pub preparation_fingerprint : (List ℕ → Text) → Json → Text → Result Error Text
  unfolding fingerprint_bytes
  preparation_fingerprint sha256 manifest manifest_path = do
    content ← fingerprint_bytes manifest manifest_path
    ok (sha256 content)

  -- `_configured_path`
  unfoldable pub configured_path : Json → Text → Result Error Text
  configured_path (str t) label =
      if is_empty (strip is_space t)
      then err (prepared_base_error (txt "manifest " ++ label ++ txt " must be a non-empty path"))
      else or_raise (w.expanduser t) other_error
  configured_path _ label =
      err (prepared_base_error (txt "manifest " ++ label ++ txt " must be a non-empty path"))

  unfoldable pub volume_prefix : Json → Result Error Text
  volume_prefix (str t) =
      if is_volume_prefix t
      then ok t
      else err (prepared_base_error (txt "manifest prepared.volume_prefix is invalid"))
  volume_prefix _ = err (prepared_base_error (txt "manifest prepared.volume_prefix is invalid"))

  -- `prepared_paths`: the host image's path and the volume's name
  unfoldable pub prepared_paths : Json → Text → Result Error (Text × Text)
  unfolding subscript configured_path volume_prefix
  prepared_paths manifest fingerprint = do
    let missing = txt "manifest prepared.directory and prepared.volume_prefix are required"
    guard (is_sha256 fingerprint) (prepared_base_error (txt "prepared fingerprint is invalid"))
    prepared ← subscript (item (txt "prepared") manifest) missing
    given ← subscript (item (txt "directory") prepared) missing
    directory ← configured_path given (txt "prepared.directory")
    value ← subscript (item (txt "volume_prefix") prepared) missing
    prefix ← volume_prefix value
    ok (
      w.join directory (fingerprint ++ txt ".qcow2"),
      prefix ++ txt "-" ++ take 16 fingerprint ++ txt ".qcow2",
    )
