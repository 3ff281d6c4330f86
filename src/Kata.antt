-- ===== src/Kata.antt =====
-- .scripts/kata_archive_paths.py: the paths listed from the pinned Kata release archive. A
-- `PurePosixPath` is modelled by what `validate` asks of it: whether it is absolute, and its parts.
pub mod Laws
mod Examples
use omashiki.Common.{
  ℕ, Bool, true, false, not, ◌&&◌, ◌||◌, List, [], ◌∷◌, filter_list, any, if◌then◌else◌, Result, ok,
  err, ◌==◌, take,
}
use omashiki.Common.Text.{Text, txt, text_eq, starts_with, rstrip, split_on, is_empty}

pub data ArchivePathError : Type 0 where
  unsafe_path : Text → ArchivePathError
  no_kata : ArchivePathError

-- `path.is_absolute()`
unfoldable pub is_absolute : Text → Bool
is_absolute entry = starts_with (txt "/") entry

-- `path.parts` of a relative path: what stands between slashes, without "" and "."
unfoldable pub parts : Text → List Text
parts entry = filter_list (λ p. not (is_empty p || text_eq p (txt "."))) (split_on b'/' entry)

-- `".." in path.parts`
unfoldable pub has_parent : List Text → Bool
has_parent ps = any (λ p. text_eq p (txt "..")) ps

-- `path.parts[:2] == ("opt", "kata")`
unfoldable pub is_kata : List Text → Bool
is_kata (a ∷ b ∷ ps) = text_eq a (txt "opt") && text_eq b (txt "kata")
is_kata _ = false

-- `raw_entry.rstrip("\n")`
unfoldable pub chomp : Text → Text
chomp raw = rstrip (λ c. c == 10) raw

-- The loop of `validate`, with its flag `contains_kata`.
pub validate_from : Bool → List Text → Result ArchivePathError (Unit {0})
validate_from found [] = if found then ok tt else err no_kata
validate_from found (raw ∷ rest) =
    let entry = chomp raw in
    let later = validate_from (found || is_kata (parts entry)) rest in
    if is_absolute entry || has_parent (parts entry) then err (unsafe_path entry) else later

pub validate : List Text → Result ArchivePathError (Unit {0})
unfolding validate_from
validate entries = validate_from false entries

-- `main`: the exit status over the lines of the standard input.
pub main : List Text → ℕ
main entries = elim (validate entries) [ ok _ ↦ 0 | err _ ↦ 1 ]
