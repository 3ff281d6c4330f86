-- ===== src/FakeLlm/Hello.antt =====
-- The scenario "python-hello": `python_hello_tool`, `schema_accepts_string`, `python_hello_field`
-- and `python_hello_arguments`. `search pattern text` is `re.search`: whether it matches, or the
-- error that a bad pattern becomes.
pub mod Laws
use omashiki.Common.{
  ℕ, Bool, true, false, not, ◌&&◌, ◌||◌, Option, none, some, List, [], ◌∷◌, ◌==◌, any, ltb, length,
  map, if◌then◌else◌, Result, ok, err, ◌>>=◌, ◌>>◌, guard, or_raise, ◌++◌,
}
use omashiki.Common.Int.{ℤ, pos, ltb_ℤ}
use omashiki.Common.Text.{Text, txt, text_eq}
use omashiki.Json.{
  Json, null, bool, int, float, str, arr, obj, Items, nil, cons, elements, items, Fields, end,
  field, find, get_or, attribute_error,
}
use omashiki.FakeLlm.Arguments.{
  Error, scenario_configuration, uncaught, as_dict, assign, placeholder_for, dict_or_empty,
  fill_with, schema_of,
}

unfoldable pub one_of : Text → List Text → Bool
one_of t names = any (λ n. text_eq n t) names

-- `function.get("name", "")` of the tool's function, if both are dictionaries, or else ""
unfoldable pub tool_name : Json → Json
tool_name tool = elim (as_dict tool) [
  | none ↦ str []
  | some t ↦ elim (as_dict (get_or (txt "function") t null)) [
    | none ↦ str []
    | some f ↦ get_or (txt "name") f (str [])
  ]
]

unfoldable pub write_names : List Text
write_names = txt "write" ∷ txt "write_file" ∷ txt "writefile" ∷ txt "create_file" ∷ []

module _ (lower : Text → Text) where
  unfoldable pub is_write_tool : Json → Bool
  is_write_tool (str name) = one_of (lower name) write_names
  is_write_tool _ = false

  unfoldable pub python_hello_tool : Items → Result Error Json
  python_hello_tool nil = err (
      scenario_configuration
        (txt "python-hello requires a write tool in the request's tool schema"))
  python_hello_tool (cons tool tools) =
      let rest = python_hello_tool tools in if is_write_tool (tool_name tool) then ok tool else rest

-- `value == v` of a text and a value
unfoldable pub is_value : Text → Json → Bool
is_value t (str s) = text_eq s t
is_value t _ = false

unfoldable pub in_items : Text → Items → Bool
in_items t nil = false
in_items t (cons v vs) = is_value t v || in_items t vs

-- The checks of `type`, `enum` and `const`
unfoldable pub type_accepts : Json → Bool
type_accepts (str t) = text_eq t (txt "string")
type_accepts (arr vs) = in_items (txt "string") vs
type_accepts _ = true

unfoldable pub enum_accepts : Text → Json → Bool
enum_accepts value (arr vs) = in_items value vs
enum_accepts value _ = true

unfoldable pub const_accepts : Text → Option Json → Bool
const_accepts value none = true
const_accepts value (some v) = is_value value v

-- A bound that is an integer, where True and False are 1 and 0
unfoldable pub bound_of : Json → Option ℤ
bound_of (int n) = some n
bound_of (bool true) = some (pos 1)
bound_of (bool false) = some (pos 0)
bound_of _ = none

unfoldable pub min_accepts : ℕ → Option ℤ → Bool
min_accepts n none = true
min_accepts n (some m) = not (ltb_ℤ (pos n) m)

unfoldable pub max_accepts : ℕ → Option ℤ → Bool
max_accepts n none = true
max_accepts n (some m) = not (ltb_ℤ m (pos n))

module _ (search : Text → Text → Result Error Bool) where
  unfoldable pub pattern_accepts : Text → Json → Result Error Bool
  pattern_accepts value (str pattern) = search pattern value
  pattern_accepts value _ = ok true

  unfoldable pub schema_accepts_string : Json → Json → Result Error Bool
  schema_accepts_string (obj schema) (str value) =
      if not (
        type_accepts (get_or (txt "type") schema null)
        && enum_accepts value (get_or (txt "enum") schema null)
        && const_accepts value (find (txt "const") schema)
        && min_accepts (length value) (bound_of (get_or (txt "minLength") schema null))
        && max_accepts (length value) (bound_of (get_or (txt "maxLength") schema null)))
      then ok false
      else pattern_accepts value (get_or (txt "pattern") schema null)
  schema_accepts_string _ _ = ok false

-- `t.replace("-", "_")`
unfoldable pub underscored : Text → Text
underscored t = map (λ c. if c == b'-' then b'_' else c) t

unfoldable pub path_names : List Text
path_names = txt "path" ∷ txt "file_path" ∷ txt "filepath" ∷ txt "filename" ∷ txt "file_name" ∷ []

unfoldable pub content_names : List Text
content_names = txt "content" ∷ txt "contents" ∷ txt "text" ∷ txt "body" ∷ []

unfoldable pub hello_path : Text
hello_path = txt "hello.py"

unfoldable pub hello_content : Text
hello_content = txt "print(\"Hello, World!\")\n"

-- `"intent" in properties`
unfoldable pub has_key : Text → Fields → Bool
has_key k fs = elim (find k fs) [ none ↦ false | some v ↦ true ]

-- `if name not in names: names.append(name)`
unfoldable pub append_name : Items → Text → Items
append_name nil t = cons (str t) nil
append_name (cons v vs) t = if is_value t v then cons v vs else cons v (append_name vs t)

-- `list(required) if isinstance(required, list) else []`
unfoldable pub required_list : Json → Items
required_list (arr vs) = vs
required_list _ = nil

-- The names to fill: the required ones, the two fields, and the intent where it is defined
unfoldable pub names_to_fill : Json → Text → Text → Bool → Items
names_to_fill required path content has_intent =
    let both = append_name (append_name (required_list required) path) content in
    if has_intent then append_name both (txt "intent") else both

-- The value of an intent: of its enum, its constant, or its own
unfoldable pub intent_value : Json → Json
intent_value (obj prop) = elim (get_or (txt "enum") prop null) [
  | arr vs ↦ elim vs [
    | cons v rest ↦ v
    | nil ↦ get_or (txt "const") prop (str (txt "create hello.py"))
  ]
  | _ ↦ get_or (txt "const") prop (str (txt "create hello.py"))
]
intent_value _ = str (txt "create hello.py")

unfoldable pub no_fields : Error
no_fields =
    scenario_configuration
      (txt "python-hello write schema must expose both a file path and content field")

-- `{name!r}` of a field that was found: neither a quote nor a backslash lowers to a letter.
unfoldable pub quoted : Text → Text
quoted name = txt "'" ++ (name ++ txt "'")

module _ (lower : Text → Text) (search : Text → Text → Result Error Bool) where
  unfoldable pub python_hello_field : Fields → List Text → Option Text
  python_hello_field end candidates = none
  python_hello_field (field name v fs) candidates =
      let rest = python_hello_field fs candidates in
      if one_of (underscored (lower name)) candidates then some name else rest

  -- The argument of an intent
  unfoldable pub intent_argument : Text → Json → Result Error (Text × Json)
  intent_argument name prop = do
    fits ← schema_accepts_string search prop (intent_value prop)
    guard fits (
        scenario_configuration (txt "python-hello write schema cannot carry a schema-valid intent"))
    ok (name, intent_value prop)

  -- One argument, with its key
  unfoldable pub hello_argument : Fields → Text → Text → Json → Result Error (Text × Json)
  hello_argument properties path content (str name) =
      if text_eq name path
      then ok (name, str hello_path)
      else if text_eq name content
      then ok (name, str hello_content)
      else if text_eq (underscored (lower name)) (txt "intent")
      then intent_argument name (get_or name properties null)
      else do
        v ← placeholder_for lower (str name) (dict_or_empty (get_or name properties null))
        ok (name, v)
  hello_argument properties path content _ = err (uncaught attribute_error)

  -- `python_hello_arguments` once the two fields are known
  unfoldable pub hello_fields : Json → Fields → Text → Text → Result Error Fields
  hello_fields required properties path content = do
    fits_path ← schema_accepts_string search (get_or path properties null) (str hello_path)
    guard fits_path (
        scenario_configuration
          (txt "python-hello write schema cannot carry the required path in " ++ quoted path))
    fits ← schema_accepts_string search (get_or content properties null) (str hello_content)
    guard fits (
        scenario_configuration (
          txt "python-hello write schema cannot carry the required exact content in "
          ++ quoted content))
    guard
        (has_key (txt "intent") properties
          || not (in_items (txt "intent") (names_to_fill required path content false)))
        (scenario_configuration
          (txt "python-hello write schema requires intent but does not define it"))
    fill_with (hello_argument properties path content)
        (names_to_fill required path content (has_key (txt "intent") properties)) end

  unfoldable pub hello_arguments : Fields → Fields → Result Error Fields
  hello_arguments schema properties = do
    path ← or_raise (python_hello_field properties path_names) no_fields
    content ← or_raise (python_hello_field properties content_names) no_fields
    hello_fields (get_or (txt "required") schema null) properties path content

  unfoldable pub python_hello_arguments : (Json → Text) → Json → Result Error Text
  python_hello_arguments dumps tool = do
    (schema, properties) ←
        or_raise (schema_of tool)
          (scenario_configuration (txt "python-hello write tool has no object parameter schema"))
    arguments ← hello_arguments schema properties
    ok (dumps (obj arguments))
