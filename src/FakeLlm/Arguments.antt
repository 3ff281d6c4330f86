-- ===== src/FakeLlm/Arguments.antt =====
-- `placeholder_for`, `synthesize_arguments` and `estimate_tokens`. `dumps` is `json.dumps`, `lower`
-- is `str.lower`.
pub mod Laws
use omashiki.Common.{
  ℕ, ◌/◌, Bool, true, false, not, ◌||◌, ◌&&◌, max, Option, none, some, List, [], ◌∷◌, length, map,
  if◌then◌else◌, Result, ok, err, ◌>>=◌,
}
use omashiki.Common.Int.{pos}
use omashiki.Common.Text.{Text, txt, text_eq, contains}
use omashiki.Json.{
  Json, null, bool, int, float, str, arr, obj, Items, nil, cons, Fields, end, field, Exception,
  attribute_error, type_error, find, get_or,
}

-- What a completion can raise: `ScenarioConfigurationError` with its message, or an exception that
-- the stub does not catch.
pub data Error : Type 0 where
  scenario_configuration : Text → Error
  uncaught : Exception → Error

-- `next((k for k in kind if k != "null"), "string")`
unfoldable pub first_kind : Items → Json
first_kind nil = str (txt "string")
first_kind (cons (str t) ks) =
    let rest = first_kind ks in if text_eq t (txt "null") then rest else str t
first_kind (cons k ks) = k

-- `schema.get("type")`, a list read by `first_kind`
unfoldable pub kind_of : Json → Json
kind_of (arr ks) = first_kind ks
kind_of k = k

-- `kind == t`
unfoldable pub is_kind : Json → Text → Bool
is_kind (str s) t = text_eq s t
is_kind _ t = false

-- The first value of an enum that is a list and not empty
unfoldable pub enum_first : Option Json → Option Json
enum_first (some (arr (cons v vs))) = some v
enum_first _ = none

-- The choice by the parameter's name, lowered
unfoldable pub by_name : Text → Text
by_name lowered =
    if contains (txt "path") lowered || contains (txt "file") lowered
    then txt "hello.txt"
    else if contains (txt "command") lowered
        || contains (txt "cmd") lowered
        || contains (txt "script") lowered
    then txt "echo 'hello world'"
    else if contains (txt "content") lowered
        || contains (txt "text") lowered
        || contains (txt "body") lowered
    then txt "hello world\n"
    else if contains (txt "pattern") lowered || contains (txt "query") lowered
    then txt "hello"
    else txt "hello world"

module _ (lower : Text → Text) where
  -- `name.lower()` and the choice; only a text has the method.
  unfoldable pub named : Json → Result Error Json
  named (str name) = ok (str (by_name (lower name)))
  named _ = err (uncaught attribute_error)

  -- The choice by the kind, the enum tried before
  unfoldable pub by_kind : Json → Json → Option Json → Result Error Json
  by_kind name kind (some v) = ok v
  by_kind name kind none =
      if is_kind kind (txt "integer") || is_kind kind (txt "number")
      then ok (int (pos 1))
      else if is_kind kind (txt "boolean")
      then ok (bool false)
      else if is_kind kind (txt "array")
      then ok (arr nil)
      else if is_kind kind (txt "object")
      then ok (obj end)
      else named name

  unfoldable pub placeholder_for : Json → Fields → Result Error Json
  placeholder_for name schema =
      by_kind name (kind_of (get_or (txt "type") schema null))
        (enum_first (find (txt "enum") schema))

unfoldable pub as_dict : Json → Option Fields
as_dict (obj fs) = some fs
as_dict _ = none

-- `prop if isinstance(prop, dict) else {}`
unfoldable pub dict_or_empty : Json → Fields
dict_or_empty (obj fs) = fs
dict_or_empty _ = end

-- `arguments[name] = v`: a key keeps its place.
unfoldable pub assign : Text → Json → Fields → Fields
assign k v end = field k v end
assign k v (field j w fs) = if text_eq j k then field j v fs else field j w (assign k v fs)

-- `list(properties)[:1]`
unfoldable pub first_key : Fields → Items
first_key end = nil
first_key (field k v fs) = cons (str k) nil

-- The parameters to fill: the required ones, or else the first
unfoldable pub required_names : Json → Fields → Items
required_names (arr (cons n ns)) properties = cons n ns
required_names _ properties = first_key properties

-- The tool's parameter schema, if the tool, its function, the parameters and their properties are
-- dictionaries
unfoldable pub schema_of : Json → Option (Fields × Fields)
schema_of tool = elim (as_dict tool) [
  | none ↦ none
  | some t ↦ elim (as_dict (get_or (txt "function") t null)) [
    | none ↦ none
    | some f ↦ elim (as_dict (get_or (txt "parameters") f null)) [
      | none ↦ none
      | some schema ↦ elim (as_dict (get_or (txt "properties") schema null)) [
        | none ↦ none
        | some properties ↦ some (schema, properties)
      ]
    ]
  ]
]

-- A loop over names that assigns one argument for each
unfoldable pub fill_with :
    (Json → Result Error (Text × Json)) → Items → Fields → Result Error Fields
fill_with step nil done = ok done
fill_with step (cons name names) done = do
  (k, v) ← step name
  fill_with step names (assign k v done)

module _ (lower : Text → Text) where
  -- One parameter, with its key. A list or a dictionary cannot be a key; any other name that is no
  -- text has no schema, and no method `lower`.
  unfoldable pub argument : Fields → Json → Result Error (Text × Json)
  argument properties (str name) = do
    v ← placeholder_for lower (str name) (dict_or_empty (get_or name properties null))
    ok (name, v)
  argument properties (arr vs) = err (uncaught type_error)
  argument properties (obj fs) = err (uncaught type_error)
  argument properties name = err (uncaught attribute_error)

  unfoldable pub fill : Fields → Items → Fields → Result Error Fields
  fill properties names done = fill_with (argument properties) names done

  -- `synthesize_arguments` once the schema is read
  unfoldable pub synthesize_from : Json → Fields → Result Error Json
  synthesize_from required properties = do
    filled ← fill properties (required_names required properties) end
    ok (obj filled)

  -- `synthesize_arguments`; "{}" where there is no such schema
  unfoldable pub synthesize_arguments : (Json → Text) → Json → Result Error Text
  synthesize_arguments dumps tool = elim (schema_of tool) [
    | none ↦ ok (txt "{}")
    | some (schema, properties) ↦ do
      arguments ← synthesize_from (get_or (txt "required") schema null) properties
      ok (dumps arguments)
  ]

-- `estimate_tokens`
unfoldable pub estimate_tokens : (Json → Text) → Json → ℕ
estimate_tokens dumps null = 0
estimate_tokens dumps (str t) = max 1 (length t / 4)
estimate_tokens dumps v = max 1 (length (dumps v) / 4)
