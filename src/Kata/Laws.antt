-- ===== src/Kata/Laws.antt =====
-- What an accepted listing guarantees: every path stays below the directory it is unpacked into.
use omashiki.Common.{
  ◌≡◌, refl, ap, ◌∙◌, All-map, ◌↔◌, inl, inr, Bool, true, false, ◌||◌, List, [], ◌∷◌, ◌++◌,
  append-nil, append_assoc, All, any, Bool-cases, ok, err, arith, if◌then◌else◌,
}
use omashiki.Common.Text.{Text, txt, text_eq}
use omashiki.Kata.{
  unsafe_path, no_kata, is_absolute, parts, has_parent, is_kata, chomp, validate_from, validate,
  main,
}

-- A path on the file system, as a stack of names: "/" starts again at the root, ".." leaves the
-- last directory.
pub drop_last : List Text → List Text
drop_last [] = []
drop_last (d ∷ []) = []
drop_last (d ∷ ds) = d ∷ drop_last ds

pub walk : List Text → List Text → List Text
walk dir [] = dir
walk dir (p ∷ ps) = walk (if text_eq p (txt "..") then drop_last dir else dir ++ p ∷ []) ps

pub resolve : List Text → Text → List Text
resolve dir entry = walk (if is_absolute entry then [] else dir) (parts entry)

-- The file that the entry names lies below the directory, at the entry's own parts.
abbrev pub StaysBelow : List Text → Text → Type 0
StaysBelow dir raw = resolve dir (chomp raw) ≡ dir ++ parts (chomp raw)

walk-append : (dir ps : List Text) → has_parent ps ≡ false → walk dir ps ≡ dir ++ ps
unfolding walk has_parent
walk-append dir [] h = rw append-nil
walk-append dir (p ∷ ps) h =
    let plain : text_eq p (txt "..") ≡ false = ground arith in
    rw plain (walk-append (dir ++ p ∷ []) ps (ground arith) ∙ append_assoc dir (p ∷ []) ps)

-- What the loop asks of one line.
abbrev pub IsSafe : Text → Type 0
IsSafe raw = (is_absolute (chomp raw) ≡ false) × (has_parent (parts (chomp raw)) ≡ false)

abbrev pub under_kata : Text → Bool
under_kata raw = is_kata (parts (chomp raw))

IsSafe-StaysBelow : (dir : List Text) (raw : Text) → IsSafe raw → StaysBelow dir raw
unfolding resolve
IsSafe-StaysBelow dir raw h = rw h.0 (walk-append dir (parts (chomp raw)) h.1)

validate_from_sound :
    (found : Bool) (entries : List Text)
    → validate_from found entries ≡ ok tt
    → All IsSafe entries × ((found || any under_kata entries) ≡ true)
unfolding validate_from
validate_from_sound true [] h = (tt, refl)
validate_from_sound false [] h = cc
validate_from_sound found (raw ∷ rest) h =
    let tests : IsSafe raw = (ground arith, ground arith) in
    let (safe, kata) = validate_from_sound (found || under_kata raw) rest (ground arith) in
    ((tests, safe), ground arith)

-- An accepted listing unpacks below the directory: from any directory, each entry resolves, with
-- ".." and a leading "/" taken into account, to the directory followed by the entry's own parts;
-- and some entry stands under opt/kata.
pub validate-StaysBelow :
    (dir entries : List Text)
    → validate entries ≡ ok tt
    → All (StaysBelow dir) entries × (any under_kata entries ≡ true)
unfolding validate
validate-StaysBelow dir entries h =
    let (safe, kata) = validate_from_sound false entries h in
    (All-map (IsSafe-StaysBelow dir) entries safe, kata)

-- A listing splits at a rejected line: the lines before it are safe and it is not.
pub record RejectsAt (entries : List Text) (entry : Text) : Type 0 where
  pub before : List Text
  pub line : Text
  pub after : List Text
  pub listed : entries ≡ before ++ line ∷ after
  pub earlier : All IsSafe before
  pub reported : chomp line ≡ entry
  pub wrong : (is_absolute entry || has_parent (parts entry)) ≡ true

validate_from-RejectsAt :
    (found : Bool) (entries : List Text) (entry : Text)
    → validate_from found entries ≡ err (unsafe_path entry)
    → RejectsAt entries entry
unfolding validate_from
validate_from-RejectsAt true [] entry h = cc
validate_from-RejectsAt false [] entry h = cc
validate_from-RejectsAt found (raw ∷ rest) entry h =
    elim (Bool-cases (is_absolute (chomp raw) || has_parent (parts (chomp raw)))) [
      | inl wrong ↦
          let same : chomp raw ≡ entry = ground arith in
          record {
            before = [];
            line = raw;
            after = rest;
            listed = refl;
            earlier = tt;
            reported = same;
            wrong = rw same at wrong;
          }
      | inr fine ↦
          let tests : IsSafe raw = (ground arith, ground arith) in
          let later = validate_from-RejectsAt (found || under_kata raw) rest entry (ground arith) in
          record {
            before = raw ∷ later.before;
            line = later.line;
            after = later.after;
            listed = ap (λ t. raw ∷ t) later.listed;
            earlier = (tests, later.earlier);
            reported = later.reported;
            wrong = later.wrong;
          }
    ]

-- When a path is reported as unsafe it is the first line that is absolute or has a ".." part.
pub validate-RejectsAt :
    (entries : List Text) (entry : Text)
    → validate entries ≡ err (unsafe_path entry)
    → RejectsAt entries entry
unfolding validate
validate-RejectsAt entries entry h = validate_from-RejectsAt false entries entry h

validate_from_complete :
    (found : Bool) (entries : List Text)
    → All IsSafe entries
    → validate_from found entries ≡ (if found || any under_kata entries then ok tt else err no_kata)
unfolding validate_from
validate_from_complete true [] h = refl
validate_from_complete false [] h = refl
validate_from_complete found (raw ∷ rest) h =
    ground (arith, validate_from_complete (found || under_kata raw) rest h.1)

-- The exit status is 0 exactly for the listings whose lines are all relative and free of ".." and
-- one of which is under opt/kata.
pub main-eq-zero_iff :
    (entries : List Text)
    → (main entries ≡ 0) ↔ (All IsSafe entries × (any under_kata entries ≡ true))
unfolding main validate
main-eq-zero_iff entries = (
  λ e. validate_from_sound false entries (ground arith),
  λ h. ground (arith, validate_from_complete false entries h.0),
)
