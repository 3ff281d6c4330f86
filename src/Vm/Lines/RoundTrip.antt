-- ===== src/Vm/Lines/RoundTrip.antt =====
-- A line that an edit has added can be taken away again.
use omashiki.Common.{
  ℕ, ◌+◌, ◌≤◌, ◌≡◌, ◌≢◌, refl, ap, sym, ◌∙◌, true, false, List, [], ◌∷◌, ◌++◌, any, map, length,
  length-append, ◌==◌, if◌then◌else◌, Bool-cases, inl, inr, ok, arith, append-nil, append_assoc,
}
use mathlib.Core.Path.{ap₂}
use omashiki.Common.Text.{text_eq, text_eq_sound}
use omashiki.Vm.Lines.{
  Node, absent, file, link, other, Report, split_lines, bare, joined, is_ended, is_open,
  append_line, without_line, edited, replaced, read, mode_of, atomic_line_update,
}
use omashiki.Vm.Lines.Split.{
  IsClosed, BeginsNot, IsPlainLine, joined-split_lines, split_lines-append, is_open-split_lines,
  split_lines_line, bare_closed, without_line-last,
}

-- The bytes with an end behind the last line
unfoldable pub ended : List ℕ → List ℕ
ended [] = []
ended (c ∷ t) = if is_ended (c ∷ t) then c ∷ t else c ∷ t ++ 10 ∷ []

-- What stands at a path is a file with these bytes and this mode, or nothing, which is read as no bytes
-- and the mode of a new file.
abbrev pub IsHeld : Node → List ℕ → ℕ → Type 0
IsHeld absent content mode = (content ≡ []) × (mode ≡ 384)
IsHeld (file bytes bits) content mode = (bytes ≡ content) × (bits ≡ mode)
IsHeld _ content mode = ⊥

-- The line is not there yet.
abbrev pub IsNew : List ℕ → List ℕ → Type 0
IsNew line content = any (text_eq line) (map bare (split_lines content)) ≡ false

is_ended-append : (t : List ℕ) → is_ended (t ++ 10 ∷ []) ≡ true
unfolding is_ended
is_ended-append [] = refl
is_ended-append (c ∷ []) = refl
is_ended-append (c ∷ d ∷ t) = is_ended-append (d ∷ t)

ended-IsClosed : (content : List ℕ) → IsClosed (ended content)
unfolding ended
ended-IsClosed [] = tt
ended-IsClosed (c ∷ t) = elim (Bool-cases (is_ended (c ∷ t))) [
  | inl e ↦ rw e e
  | inr e ↦ rw e (is_ended-append (c ∷ t))
]

ended-IsNew : (line content : List ℕ) → IsNew line content → IsNew line (ended content)
unfolding ended
ended-IsNew line [] h = h
ended-IsNew line (c ∷ t) h = elim (Bool-cases (is_ended (c ∷ t))) [
  | inl e ↦ rw e h
  | inr e ↦ rw e (rw (bare_closed c t e) h)
]

joined-append : (ls ms : List (List ℕ)) → joined (ls ++ ms) ≡ joined ls ++ joined ms
unfolding joined
joined-append [] ms = refl
joined-append (l ∷ ls) ms =
    ap (λ r. l ++ r) (joined-append ls ms) ∙ sym (append_assoc l (joined ls) (joined ms))

joined_one : (l : List ℕ) → joined (l ∷ []) ≡ l
unfolding joined
joined_one l = append-nil l

append_line_closed :
    (line : List ℕ) (ls : List (List ℕ))
    → is_open ls ≡ false
    → joined (append_line line ls) ≡ joined ls ++ (line ++ 10 ∷ [])
unfolding append_line
append_line_closed line ls h = rw h (
    joined-append ls ((line ++ 10 ∷ []) ∷ [])
    ∙ ap (λ r. joined ls ++ r) (joined_one (line ++ 10 ∷ [])))

append_line_open :
    (line : List ℕ) (ls : List (List ℕ))
    → is_open ls ≡ true
    → joined (append_line line ls) ≡ (joined ls ++ 10 ∷ []) ++ (line ++ 10 ∷ [])
unfolding append_line
append_line_open line ls h = rw h (
    joined-append (ls ++ (10 ∷ []) ∷ []) ((line ++ 10 ∷ []) ∷ [])
    ∙ ap₂ ◌++◌ (joined-append ls ((10 ∷ []) ∷ []) ∙ ap (λ r. joined ls ++ r) (joined_one (10 ∷ [])))
        (joined_one (line ++ 10 ∷ [])))

-- What an added line makes of the bytes
joined-append_line :
    (line content : List ℕ)
    → joined (append_line line (split_lines content)) ≡ ended content ++ (line ++ 10 ∷ [])
joined-append_line line [] =
    append_line_closed line (split_lines []) (unfold split_lines is_open in refl)
    ∙ unfold ended joined split_lines in refl
joined-append_line line (c ∷ t) = elim (Bool-cases (is_ended (c ∷ t))) [
  | inl e ↦
      append_line_closed line (split_lines (c ∷ t)) (is_open-split_lines c t ∙ rw e)
      ∙ (ap (λ r. r ++ (line ++ 10 ∷ [])) (joined-split_lines (c ∷ t)) ∙ unfold ended in rw e)
  | inr e ↦
      append_line_open line (split_lines (c ∷ t)) (is_open-split_lines c t ∙ rw e)
      ∙ (ap (λ r. (r ++ 10 ∷ []) ++ (line ++ 10 ∷ [])) (joined-split_lines (c ∷ t))
          ∙ unfold ended in rw e)
]

length-ended : (content : List ℕ) → length content ≤ length (ended content)
unfolding ended
length-ended [] = omega arith
length-ended (c ∷ t) = elim (Bool-cases (is_ended (c ∷ t))) [
  | inl e ↦ rw e (omega arith)
  | inr e ↦ rw e (omega (arith, length-append t (10 ∷ [])))
]

text_eq-ne_length : (s t : List ℕ) → length s ≢ length t → text_eq s t ≡ false
text_eq-ne_length s t h = elim (Bool-cases (text_eq s t)) [
  | inr e ↦ e
  | inl e ↦ absurd (h (ap length (text_eq_sound s t e)))
]

edited-add :
    (line content : List ℕ) (mode : ℕ)
    → IsNew line content
    → edited content mode (line ∷ []) [] ≡ (
      ended content ++ (line ++ 10 ∷ []),
      record { added = line ∷ []; removed = []; mode = mode },
    )
edited-add line content mode new =
    unfold edited in
    rw new (
      ap (λ b. (b, record { added = line ∷ []; removed = []; mode = mode }))
        (joined-append_line line content))

edited_removing :
    (line content : List ℕ) (mode : ℕ)
    → edited content mode [] (line ∷ []) ≡ (
      joined (without_line line (split_lines content)),
      record {
        added = [];
        removed =
            if length (without_line line (split_lines content)) == length (split_lines content)
            then []
            else line ∷ [];
        mode = mode;
      },
    )
unfolding edited
edited_removing line content mode = refl

BeginsNot-line : (line : List ℕ) → IsPlainLine line → BeginsNot (line ++ 10 ∷ [])
BeginsNot-line [] h = absurd (h.0 refl)
BeginsNot-line (c ∷ l) h = ground arith

edited-remove :
    (line content : List ℕ) (mode : ℕ)
    → IsPlainLine line
    → IsNew line content
    → edited (ended content ++ (line ++ 10 ∷ [])) mode [] (line ∷ [])
      ≡ (ended content, record { added = []; removed = line ∷ []; mode = mode })
edited-remove line content mode plain new =
    let rest = split_lines (ended content) in
    let last = line ++ 10 ∷ [] in
    let lines : split_lines (ended content ++ last) ≡ rest ++ last ∷ [] =
      split_lines-append (ended content) last (ended-IsClosed content) (BeginsNot-line line plain)
      ∙ ap (λ ls. rest ++ ls) (split_lines_line line plain) in
    let kept : without_line line (rest ++ last ∷ []) ≡ rest =
      without_line-last line rest plain (ended-IsNew line content new) in
    let sizes : (length rest == length (rest ++ last ∷ [])) ≡ false =
      shorter (length rest) (length (rest ++ last ∷ [])) (length-append rest (last ∷ [])) in
    edited_removing line (ended content ++ last) mode
    ∙ rw (lines, kept, sizes)
        (ap (λ b. (b, record { added = []; removed = line ∷ []; mode = mode }))
          (joined-split_lines (ended content)))
  where
    shorter : (m n : ℕ) → n ≡ m + 1 → (m == n) ≡ false
    shorter m n h = ground arith

read-IsHeld :
    (node : Node) (content : List ℕ) (mode : ℕ)
    → IsHeld node content mode
    → (read node ≡ ok content) × (mode_of node ≡ mode)
unfolding read
read-IsHeld absent content mode h = (ap ok (sym h.0), sym h.1)
read-IsHeld (file bytes bits) content mode h = (ap ok h.0, h.1)
read-IsHeld (link there) content mode h = absurd h
read-IsHeld other content mode h = absurd h

update_changed :
    (node : Node) (content new : List ℕ) (mode : ℕ) (add remove : List (List ℕ)) (r : Report)
    → IsHeld node content mode
    → edited content mode add remove ≡ (new, r)
    → text_eq new content ≡ false
    → atomic_line_update false node add remove ≡ ok (file new mode, r)
unfolding atomic_line_update replaced
update_changed absent content new mode add remove r held e differs =
    let now : edited [] 384 add remove ≡ (new, r) = rw (held.0, held.1) at e in
    let other : text_eq new [] ≡ false = rw held.0 at differs in
    rw (now, other) (ap (λ bits. ok (file new bits, r)) (sym held.1))
update_changed (file old bits) content new mode add remove r held e differs =
    rw (held.0, held.1) (rw (e, differs))
update_changed (link there) content new mode add remove r held e differs = absurd held
update_changed other content new mode add remove r held e differs = absurd held

-- A line that the harness adds to an SSH file can be taken away again: if it is not empty, has no line
-- end and is not there yet, the edit puts it behind the others, and the edit that removes it leaves
-- the bytes as they were, but for a newline behind a last line that had no end; the mode is kept, and
-- the reports name the line.
pub atomic_line_update-RoundTrip :
    (node : Node) (content line : List ℕ) (mode : ℕ)
    → IsHeld node content mode
    → IsPlainLine line
    → IsNew line content
    → (atomic_line_update false node (line ∷ []) []
        ≡ ok (
          file (ended content ++ (line ++ 10 ∷ [])) mode,
          record { added = line ∷ []; removed = []; mode = mode },
        ))
      × (atomic_line_update false (file (ended content ++ (line ++ 10 ∷ [])) mode) [] (line ∷ [])
          ≡ ok (file (ended content) mode, record { added = []; removed = line ∷ []; mode = mode }))
atomic_line_update-RoundTrip node content line mode held plain new =
    let last = line ++ 10 ∷ [] in
    let longer = length-append (ended content) last in
    let size = length-append line (10 ∷ []) in
    (
      update_changed node content (ended content ++ last) mode (line ∷ []) [] _ held
          (edited-add line content mode new)
          (text_eq-ne_length _ _ (λ e. omega (arith, length-ended content))),
      update_changed (file (ended content ++ last) mode) (ended content ++ last) (ended content)
          mode [] (line ∷ []) _ (refl, refl) (edited-remove line content mode plain new)
          (text_eq-ne_length _ _ (λ e. omega arith)),
    )
