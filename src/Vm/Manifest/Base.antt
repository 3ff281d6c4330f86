-- ===== src/Vm/Manifest/Base.antt =====
-- vm/e2e.py: the helpers of `validate_manifest`, from `_required_table` to `reject_secrets`.
use omashiki.Common.{
  ℕ, ◌+◌, Bool, false, not, ◌||◌, Option, List, [], ◌∷◌, ◌++◌, any, leb, if◌then◌else◌, Result, ok,
  err, ◌>>◌, guard,
}
use omashiki.Common.Int.{pos}
use omashiki.Common.Text.{Text, txt, text_eq, contains, is_space, strip, is_empty, decimal}
use omashiki.Json.{Json, null, int, str, arr, obj, Items, nil, cons, Fields, end, field, get_or}
use omashiki.Kata.{is_absolute, parts}
use Prim.Native.String.{String}

-- `Blocker` with its message, the one that lists the sections that are not supported, or the
-- RuntimeError of `expanduser`, which is no `Blocker`.
pub data Error : Type 0 where
  blocker : Text → Error
  unsupported_sections : List Text → Error
  no_home : Error

-- The host: the files below the repository, and what Python does to a text.
pub record World : Type 0 where
  pub is_symlink : List Text → Bool
  pub resolves_inside : List Text → Bool
  pub is_file : List Text → Bool
  pub is_dir : List Text → Bool
  pub absolute : List Text → Text
  pub lower : Text → Text
  pub expanduser : Text → Option Text
  pub float_not_positive : Text → Bool

abbrev pub require : Bool → Text → Result Error (Unit {0})
require passed message = guard passed (blocker message)

-- `table.get(key)`
abbrev pub get : Fields → String → Json
get table key = get_or (txt key) table null

-- `_required_table`
unfoldable pub required_table : Json → Text → Result Error Fields
required_table (obj fields) name = ok fields
required_table _ name = err (blocker (txt "manifest [" ++ name ++ txt "] must be a table"))

abbrev not_string : Text → Text → Error
not_string key place =
    blocker (txt "manifest " ++ place ++ txt "." ++ key ++ txt " must be a non-empty string")

unfoldable pub string_value : Json → Text → Text → Result Error Text
string_value (str t) key place =
    if is_empty (strip is_space t) then err (not_string key place) else ok t
string_value _ key place = err (not_string key place)

-- `_required_string`
unfoldable pub required_string : Fields → String → String → Result Error Text
unfolding string_value
required_string table key place = string_value (get table key) (txt key) (txt place)

abbrev not_integer : Text → Text → ℕ → Error
not_integer key place minimum =
    blocker (
      txt "manifest "
      ++ place
      ++ txt "."
      ++ key
      ++ txt " must be an integer >= "
      ++ decimal minimum)

unfoldable pub integer_value : Json → Text → Text → ℕ → Result Error ℕ
integer_value (int (pos n)) key place minimum =
    if leb minimum n then ok n else err (not_integer key place minimum)
integer_value _ key place minimum = err (not_integer key place minimum)

-- `_required_int`; the minimum is never negative.
unfoldable pub required_int : Fields → String → String → ℕ → Result Error ℕ
unfolding integer_value
required_int table key place minimum = integer_value (get table key) (txt key) (txt place) minimum

-- Whether a component on the way is a symbolic link
unfoldable pub has_symlink : World → List Text → List Text → Bool
has_symlink w walked [] = false
has_symlink w walked (component ∷ rest) =
    let current = walked ++ component ∷ [] in w.is_symlink current || has_symlink w current rest

-- `_repository_path`; the components of a path are never "" or ".".
unfoldable pub repository_path : World → Text → Text → Bool → Result Error (List Text)
unfolding has_symlink
repository_path w value label directory = do
  require (not (is_absolute value)) (label ++ txt " must be a relative repository path")
  let candidate = parts value
  require (not (has_symlink w [] candidate))
      (label ++ txt " contains a symlink component: " ++ value)
  require (w.resolves_inside candidate)
      (label ++ txt " must remain inside the repository: " ++ value)
  require (if directory then w.is_dir candidate else w.is_file candidate)
      (label ++ txt " is missing: " ++ w.absolute candidate)
  ok candidate

-- `sensitive_names`
abbrev pub sensitive_names : List Text
sensitive_names =
    txt "password"
    ∷ txt "token"
    ∷ txt "secret"
    ∷ txt "api_key"
    ∷ txt "private_key"
    ∷ txt "credentials"
    ∷ []

unfoldable pub is_sensitive : World → Text → Bool
is_sensitive w key = any (text_eq (w.lower key)) sensitive_names

unfoldable pub refers_to_env : Text → Bool
refers_to_env t = contains (txt "${env:") t || contains (txt "${ENV:") t

-- `reject_secrets`: a value, the items of a list from an index on, and the entries of a table
unfoldable mutual
  pub reject_secrets : World → Json → Text → Result Error (Unit {0})
  reject_secrets w (obj fields) place = reject_fields w fields place
  reject_secrets w (arr vs) place = reject_items w vs place 0
  reject_secrets w (str t) place =
      require (not (refers_to_env t))
        (txt "manifest must not resolve secrets from the environment: " ++ place)
  reject_secrets w _ place = ok tt

  pub reject_items : World → Items → Text → ℕ → Result Error (Unit {0})
  reject_items w nil place index = ok tt
  reject_items w (cons v vs) place index =
      reject_secrets w v (place ++ txt "[" ++ decimal index ++ txt "]")
      >> reject_items w vs place (index + 1)

  pub reject_fields : World → Fields → Text → Result Error (Unit {0})
  reject_fields w end place = ok tt
  reject_fields w (field key v rest) place =
      require (not (is_sensitive w key))
        (txt "manifest must not contain secret field " ++ place ++ txt "." ++ key)
      >> (reject_secrets w v (place ++ txt "." ++ key) >> reject_fields w rest place)
