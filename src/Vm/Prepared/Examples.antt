-- ===== src/Vm/Prepared/Examples.antt =====
-- A preparation on a small host.
use omashiki.Common.{ℕ, refl, none, some, List, [], ◌∷◌, ◌++◌, Result, ok, err}
use omashiki.Common.Text.{Text, txt, text_eq}
use omashiki.Json.{Json, str, obj, dict, item, find, decode_error}
use omashiki.Vm.Frame.{frame}
use omashiki.Vm.Pattern.{is_sha256}
use omashiki.Vm.Prepared.{
  Error, World, Metadata, regular, fingerprint_bytes, preparation_fingerprint,
}
use omashiki.Vm.Prepared.Laws.{SameInputs, preparation_fingerprint-Identifies}

-- 64 times "a"
abbrev digest : Text
digest = txt "aaaaaaaaaaaaaaaaaaaaaaaaaaaaaaaaaaaaaaaaaaaaaaaaaaaaaaaaaaaaaaaa"

abbrev manifest : Json
manifest = obj (
    dict (
      (txt "base", obj (dict ((txt "sha256", str digest) ∷ [])))
      ∷ (txt "prepared", obj (dict ((txt "cloud_init", str (txt "ci")) ∷ [])))
      ∷ []))

abbrev plain : Metadata
plain = record { kind = regular; uid = 7; mode = 384; size = 1 }

-- A host whose repository stands in this directory; each file of it holds the same.
abbrev host : Text → World
host root = record {
  getuid = 7;
  lstat = λ p. some plain;
  stat = λ p. some plain;
  read_bytes = λ p. some (txt "x");
  read_ascii = λ p. none;
  path = λ p. p;
  join = λ a b. a ++ txt "/" ++ b;
  grandparent = λ p. root;
  expanduser = λ p. some p;
  loads = λ t. decode_error;
  run = λ c. none;
  fromstring = λ t. none;
}

abbrev value_of : Result Error (List ℕ) → List ℕ
value_of (ok b) = b
value_of (err e) = []

abbrev hashed : List ℕ
hashed = value_of (fingerprint_bytes (host (txt "r")) manifest (txt "m"))

preparation_fingerprint-Identifies_example :
    SameInputs (host (txt "r")) (host (txt "q")) manifest manifest (txt "m") (txt "n")
unfolding preparation_fingerprint frame is_sha256 txt item find text_eq
preparation_fingerprint-Identifies_example =
    preparation_fingerprint-Identifies (λ s. s) (host (txt "r")) (host (txt "q")) manifest manifest
      (txt "m") (txt "n") {f = hashed} (λ s t a b e. e) refl refl
