-- ===== src/Vm/Manifest/Settings.antt =====
-- What the tests of single settings show.
use omashiki.Common.{
  ℕ, ◌≤◌, ◌≡◌, ◌≢◌, sym, ap, subst, Bool, true, false, not, Option, none, some, List, [], leb,
  Bool-cases, inl, inr, ok, use_ok, use_guard, ok_injective, arith,
}
use omashiki.Common.Int.{pos}
use omashiki.Common.Text.{Text, txt, is_space, strip, is_empty}
use omashiki.Json.{Json, null, int, str, obj, Fields, find, get_or, value_or}
use omashiki.Kata.{is_absolute, parts}
use omashiki.Vm.Manifest.Base.{
  World, get, required_table, required_string, string_value, required_int, integer_value,
  has_symlink, repository_path,
}
use omashiki.Vm.Manifest.Sections.{check_port}
use omashiki.Vm.Manifest.Secrets.{not-eq-true}
use Prim.Native.String.{String}

-- A table has this port.
pub record HasPort (services : Fields) (key : String) (port : ℕ) : Type 0 where
  pub found : find (txt key) services ≡ some (int (pos port))
  pub low : 1024 ≤ port
  pub high : port ≤ 65535

-- A setting names a path that stays below the repository, with no symbolic link on the way.
pub record IsInside (w : World) (value : Text) : Type 0 where
  pub relative : is_absolute value ≡ false
  pub unlinked : has_symlink w [] (parts value) ≡ false
  pub inside : w.resolves_inside (parts value) ≡ true

-- A key whose value is not null is there.
pub get-found :
    (fields : Fields) (key : String) (v : Json)
    → get fields key ≡ v
    → v ≢ null
    → find (txt key) fields ≡ some v
unfolding get_or
get-found fields key v h full = present (find (txt key) fields) h
  where
    present : (o : Option Json) → value_or o null ≡ v → o ≡ some v
    present none e = absurd (full (sym e))
    present (some u) e = ap some e

table-eq-ok : (v : Json) (name : Text) {t : Fields} → required_table v name ≡ ok t → v ≡ obj t
unfolding required_table
table-eq-ok (obj fields) name h = ap obj (ok_injective h)
table-eq-ok _ name h = cc

pub required_table-found :
    (fields : Fields) (key : String) (name : Text) {t : Fields}
    → required_table (get fields key) name ≡ ok t
    → find (txt key) fields ≡ some (obj t)
required_table-found fields key name {t} h =
    get-found fields key (obj t) (table-eq-ok (get fields key) name h) (λ e. cc)

integer_value-eq-ok :
    (v : Json) (key place : Text) (minimum : ℕ) {n : ℕ}
    → integer_value v key place minimum ≡ ok n
    → (v ≡ int (pos n)) × (minimum ≤ n)
unfolding integer_value
integer_value-eq-ok (int (pos n)) key place minimum {n = m} h = elim (Bool-cases (leb minimum n)) [
  | inr e ↦ cc (rw e at h)
  | inl e ↦
      let same : n ≡ m = ok_injective (rw e at h) in
      (ap (λ k. int (pos k)) same, rw (← same) (ground arith))
]
integer_value-eq-ok _ key place minimum h = cc

pub required_int-found :
    (fields : Fields) (key place : String) (minimum : ℕ) {n : ℕ}
    → required_int fields key place minimum ≡ ok n
    → (find (txt key) fields ≡ some (int (pos n))) × (minimum ≤ n)
unfolding required_int
required_int-found fields key place minimum {n} h =
    let (value, bound) = integer_value-eq-ok (get fields key) (txt key) (txt place) minimum h in
    (get-found fields key (int (pos n)) value (λ e. cc), bound)

string_value-eq-ok :
    (v : Json) (key place : Text) {t : Text} → string_value v key place ≡ ok t → v ≡ str t
unfolding string_value
string_value-eq-ok (str t) key place h = elim (Bool-cases (is_empty (strip is_space t))) [
  | inl e ↦ cc (rw e at h)
  | inr e ↦ ap str (ok_injective (rw e at h))
]
string_value-eq-ok _ key place h = cc

pub required_string-found :
    (fields : Fields) (key place : String) {t : Text}
    → required_string fields key place ≡ ok t
    → find (txt key) fields ≡ some (str t)
unfolding required_string
required_string-found fields key place {t} h =
    let value = string_value-eq-ok (get fields key) (txt key) (txt place) h in
    get-found fields key (str t) value (λ e. cc)

pub repository_path-IsInside :
    (w : World) (value label : Text) (directory : Bool) {ps : List Text}
    → repository_path w value label directory ≡ ok ps
    → IsInside w value
unfolding repository_path
repository_path-IsInside w value label directory h =
    use_guard (not (is_absolute value)) _ _ h λ relative h1.
      use_guard (not (has_symlink w [] (parts value))) _ _ h1 λ unlinked h2.
        use_guard (w.resolves_inside (parts value)) _ _ h2 λ inside h3. record {
          relative = not-eq-true _ relative;
          unlinked = not-eq-true _ unlinked;
          inside = inside;
        }

pub check_port-HasPort :
    (services : Fields) (key : String) {port : ℕ}
    → check_port services key ≡ ok port
    → HasPort services key port
unfolding check_port
check_port-HasPort services key h =
    use_ok (required_int services key "[services]" 1024) _ h λ port got h1.
      use_guard (leb port 65535) _ _ h1 λ high h2.
        let (found, low) = required_int-found services key "[services]" 1024 got in
        let bound : port ≤ 65535 = ground arith in
        subst (HasPort services key) (ok_injective h2)
          (record { found = found; low = low; high = bound })
