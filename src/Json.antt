-- ===== src/Json.antt =====
-- The Python values that `json.loads` returns, with what the tools do to them: truth, `dict.get`,
-- `isinstance`, `str`, and the exceptions of a method that a value does not have.
-- A float is kept as the text that `repr` prints for it; a dictionary as its items in order.
pub mod Order
pub mod Canonical
use omashiki.Common.{
  ℕ, zero, suc, Bool, true, false, not, ◌||◌, Option, none, some, List, [], ◌∷◌, ◌++◌,
  if◌then◌else◌, Result, ok, err,
}
use omashiki.Common.Int.{ℤ, pos, negsuc}
use omashiki.Common.Text.{Text, txt, text_eq, is_empty, decimal}

mutual
  pub data Json : Type 0 where
    null : Json
    bool : Bool → Json
    int : ℤ → Json
    float : Text → Json
    str : Text → Json
    arr : Items → Json
    obj : Fields → Json

  pub data Items : Type 0 where
    nil : Items
    cons : Json → Items → Items

  pub data Fields : Type 0 where
    end : Fields
    field : Text → Json → Fields → Fields

-- The exceptions that the tools let through, by class.
pub data Exception : Type 0 where
  attribute_error type_error value_error key_error index_error unicode_error : Exception

abbrev pub elements : Items → List Json
elements nil = []
elements (cons v vs) = v ∷ elements vs

abbrev pub items : Fields → List (Text × Json)
items end = []
items (field k v fs) = (k, v) ∷ items fs

-- A dictionary literal.
abbrev pub dict : List (Text × Json) → Fields
dict [] = end
dict ((k, v) ∷ l) = field k v (dict l)

-- What `json.loads` makes of its argument.
pub data Loaded : Type 0 where
  value : Json → Loaded
  decode_error : Loaded
  other_error : Exception → Loaded

-- `bool(v)`
unfoldable pub truthy : Json → Bool
truthy null = false
truthy (bool b) = b
truthy (int (pos zero)) = false
truthy (int (pos (suc n))) = true
truthy (int (negsuc n)) = true
truthy (float t) = not (text_eq t (txt "0.0") || text_eq t (txt "-0.0"))
truthy (str t) = not (is_empty t)
truthy (arr nil) = false
truthy (arr (cons v vs)) = true
truthy (obj end) = false
truthy (obj (field k v fs)) = true

-- `v or w`
unfoldable pub py_or : Json → Json → Json
unfolding truthy
py_or v w = if truthy v then v else w

-- `k in d`, `d[k]`
unfoldable pub find : Text → Fields → Option Json
find k end = none
find k (field j v fs) = if text_eq j k then some v else find k fs

abbrev pub value_or : Option Json → Json → Json
value_or none d = d
value_or (some v) d = v

-- `d.get(k, default)` of a dictionary
unfoldable pub get_or : Text → Fields → Json → Json
unfolding find
get_or k fs d = value_or (find k fs) d

-- `v.get(k, default)` of any value
unfoldable pub get_attr {κ} : {E : Type κ} → (Exception → E) → Json → Text → Json → Result E Json
unfolding get_or
get_attr raise (obj fs) k d = ok (get_or k fs d)
get_attr raise _ k d = err (raise attribute_error)

-- `d[k]` of any value
unfoldable pub item : Text → Json → Result Exception Json
unfolding find
item k (obj fs) = elim (find k fs) [ none ↦ err key_error | some v ↦ ok v ]
item k _ = err type_error

-- `v.strip()` and the like: the text, or no such method
unfoldable pub as_str {κ} : {E : Type κ} → (Exception → E) → Json → Result E Text
as_str raise (str t) = ok t
as_str raise _ = err (raise attribute_error)

-- `isinstance(v, int)`, which holds for True and False too
unfoldable pub is_int : Json → Bool
is_int (int n) = true
is_int (bool b) = true
is_int _ = false

-- `str(n)`
unfoldable pub show_int : ℤ → Text
show_int (pos n) = decimal n
show_int (negsuc n) = txt "-" ++ decimal (suc n)

-- `str(v)`; `repr` is Python's rendering of a list or a dictionary.
unfoldable pub py_str : (Json → Text) → Json → Text
unfolding show_int
py_str repr null = txt "None"
py_str repr (bool true) = txt "True"
py_str repr (bool false) = txt "False"
py_str repr (int n) = show_int n
py_str repr (float t) = t
py_str repr (str t) = t
py_str repr v = repr v
