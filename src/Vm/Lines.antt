-- ===== src/Vm/Lines.antt =====
-- vm/e2e.py: how the harness edits, records and restores the SSH files, on the host
-- (`atomic_line_update`) and by the programs that it runs on a guest. A file is its bytes and its mode;
-- a line of an edit is taken encoded.
pub mod Split
pub mod RoundTrip
mod Examples
use omashiki.Common.{
  ℕ, Bool, true, false, not, ◌||◌, List, [], ◌∷◌, ◌++◌, any, map, filter_list, length, ◌==◌,
  if◌then◌else◌, Result, ok, err, ◌>>=◌, ◌>>◌, guard,
}
use omashiki.Common.Text.{Text, text_eq, rstrip}

-- What stands at a path: nothing, a regular file, a symbolic link whose target exists or not, or
-- something else
pub data Node : Type 0 where
  absent : Node
  file : List ℕ → ℕ → Node
  link : Bool → Node
  other : Node

-- How an edit ends without a result: it refuses, or the system does.
pub data Failure : Type 0 where
  refused os_error : Failure

abbrev pub is_line_end : ℕ → Bool
is_line_end c = c == 10 || c == 13

-- Whether a line ends behind this byte: "\n", or "\r" with no "\n" behind it
abbrev pub ends_here : ℕ → List ℕ → Bool
ends_here c [] = is_line_end c
ends_here c (d ∷ t) = c == 10 || (if c == 13 then not (d == 10) else false)

-- A byte before the first line
abbrev pub push : ℕ → List (List ℕ) → List (List ℕ)
push c [] = (c ∷ []) ∷ []
push c (l ∷ ls) = (c ∷ l) ∷ ls

-- `content.splitlines(True)`
unfoldable pub split_lines : List ℕ → List (List ℕ)
split_lines [] = []
split_lines (c ∷ t) =
    let rest = split_lines t in if ends_here c t then (c ∷ []) ∷ rest else push c rest

-- `line.rstrip(b"\r\n")`
unfoldable pub bare : List ℕ → List ℕ
unfolding rstrip
bare l = rstrip is_line_end l

-- `b"".join(lines)`
unfoldable pub joined : List (List ℕ) → List ℕ
joined [] = []
joined (l ∷ ls) = l ++ joined ls

-- `l.endswith((b"\n", b"\r"))`
unfoldable pub is_ended : List ℕ → Bool
is_ended [] = false
is_ended (c ∷ []) = is_line_end c
is_ended (c ∷ d ∷ t) = is_ended (d ∷ t)

-- `lines and not lines[-1].endswith((b"\n", b"\r"))`
unfoldable pub is_open : List (List ℕ) → Bool
unfolding is_ended
is_open [] = false
is_open (l ∷ []) = not (is_ended l)
is_open (l ∷ m ∷ ls) = is_open (m ∷ ls)

-- The state of the loop over the lines to add: the lines, the bare ones, and those added
pub record Adding : Type 0 where
  pub lines : List (List ℕ)
  pub normalized : List (List ℕ)
  pub added : List (List ℕ)

unfoldable pub append_line : List ℕ → List (List ℕ) → List (List ℕ)
unfolding is_open
append_line line lines =
    (if is_open lines then lines ++ (10 ∷ []) ∷ [] else lines) ++ (line ++ 10 ∷ []) ∷ []

unfoldable pub add_line : List ℕ → Adding → Adding
unfolding append_line
add_line line s = if any (text_eq line) s.normalized then s else record {
  lines = append_line line s.lines;
  normalized = line ∷ s.normalized;
  added = s.added ++ line ∷ [];
}

unfoldable pub add_lines : List (List ℕ) → Adding → Adding
unfolding add_line
add_lines [] s = s
add_lines (line ∷ rest) s = add_lines rest (add_line line s)

-- `[item for item in lines if item.rstrip(b"\r\n") != line]`
unfoldable pub without_line : List ℕ → List (List ℕ) → List (List ℕ)
unfolding bare
without_line line lines = filter_list (λ l. not (text_eq (bare l) line)) lines

-- The loop over the lines to remove: what is left, and those removed
unfoldable pub remove_lines :
    List (List ℕ) → List (List ℕ) → List (List ℕ) → List (List ℕ) × List (List ℕ)
unfolding without_line
remove_lines [] lines removed = (lines, removed)
remove_lines (line ∷ rest) lines removed =
    let kept = without_line line lines in
    remove_lines rest kept (if length kept == length lines then removed else removed ++ line ∷ [])

-- `{"added": added, "removed": removed, "mode": mode}`
pub record Report : Type 0 where
  pub added : List (List ℕ)
  pub removed : List (List ℕ)
  pub mode : ℕ

-- The bytes of a file, empty if there is none; the mode, that of a new file if there is none
unfoldable pub read : Node → Result Failure (List ℕ)
read (file content mode) = ok content
read other = err os_error
read _ = ok []

abbrev pub mode_of : Node → ℕ
mode_of (file content mode) = mode
mode_of _ = 384

-- The bytes after both loops, and the report
unfoldable pub edited : List ℕ → ℕ → List (List ℕ) → List (List ℕ) → List ℕ × Report
unfolding split_lines bare add_lines remove_lines joined
edited old mode add remove =
    let lines = split_lines old in
    let s = add_lines add (record { lines = lines; normalized = map bare lines; added = [] }) in
    let (kept, removed) = remove_lines remove s.lines [] in
    (joined kept, record { added = s.added; removed = removed; mode = mode })

-- The new file takes the place of the old one where the bytes differ.
unfoldable pub replaced : Node → List ℕ → List ℕ → ℕ → Node
replaced node old new mode = if text_eq new old then node else file new mode

unfoldable pub update : Node → List (List ℕ) → List (List ℕ) → Result Failure (Node × Report)
unfolding read replaced
update node add remove = do
  old ← read node
  let (new, report) = edited old (mode_of node) add remove
  ok (replaced node old new (mode_of node), report)

-- `atomic_line_update`; `linked` says that the parent is a symbolic link.
unfoldable pub atomic_line_update :
    Bool → Node → List (List ℕ) → List (List ℕ) → Result Failure (Node × Report)
unfolding update
atomic_line_update linked (link there) add remove = err refused
atomic_line_update linked node add remove = if linked then err refused else update node add remove

-- The program REMOTE_EDIT_CODE, which takes a link without a target for nothing
unfoldable pub remote_edit :
    Bool → Node → List (List ℕ) → List (List ℕ) → Result Failure (Node × Report)
unfolding update
remote_edit linked (link true) add remove = err refused
remote_edit linked node add remove = if linked then err refused else update node add remove

-- What REMOTE_SNAPSHOT_CODE prints
pub data Snapshot : Type 0 where
  missing : Snapshot
  recorded : List ℕ → ℕ → Snapshot

-- The program REMOTE_SNAPSHOT_CODE
unfoldable pub remote_snapshot : Bool → Node → Result Failure Snapshot
remote_snapshot linked (link there) = err refused
remote_snapshot linked absent = if linked then err refused else ok missing
remote_snapshot linked other = err refused
remote_snapshot linked (file content mode) =
    if linked then err refused else ok (recorded content mode)

-- What REMOTE_RESTORE_CODE puts at a path that is no link
unfoldable pub restored : Snapshot → Node → Result Failure Node
restored missing other = err refused
restored missing node = ok absent
restored (recorded content mode) other = err os_error
restored (recorded content mode) node = ok (file content mode)

-- The program REMOTE_RESTORE_CODE, whose last tests look at what it has just written
unfoldable pub remote_restore : Bool → Snapshot → Node → Result Failure Node
unfolding restored
remote_restore linked snapshot (link there) = err refused
remote_restore linked snapshot node = if linked then err refused else restored snapshot node

-- `snapshot_without_line`
unfoldable pub snapshot_without_line : Snapshot → List ℕ → Snapshot
unfolding split_lines without_line joined
snapshot_without_line missing line = missing
snapshot_without_line (recorded content mode) line =
    recorded (joined (without_line line (split_lines content))) mode
