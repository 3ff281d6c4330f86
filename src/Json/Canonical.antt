-- ===== src/Json/Canonical.antt =====
-- `canonical_json` of examples/handler/github_issue_handler.py: the encoding that the house signs.
mod Examples
pub mod Laws
use omashiki.Common.{
  ℕ, ◌+◌, ◌-◌, ◌/◌, ◌%◌, Bool, true, false, List, [], ◌∷◌, ◌++◌, ltb, ◌==◌, if◌then◌else◌,
}
use omashiki.Common.Text.{Text, txt, text_eq}
use omashiki.Json.{
  Json, null, bool, int, float, str, arr, obj, Items, nil, cons, Fields, end, field, show_int,
}
use omashiki.Json.Order.{sort}

-- One digit of "\u001f".
hex_digit : ℕ → ℕ
hex_digit d = if ltb d 10 then 48 + d else 87 + d

-- A character of a JSON text, with `ensure_ascii=False`
encode_char : ℕ → Text
encode_char c =
    if c == 34
    then 92 ∷ 34 ∷ []
    else if c == 92
    then 92 ∷ 92 ∷ []
    else if c == 10
    then 92 ∷ b'n' ∷ []
    else if c == 13
    then 92 ∷ b'r' ∷ []
    else if c == 9
    then 92 ∷ b't' ∷ []
    else if c == 12
    then 92 ∷ b'f' ∷ []
    else if c == 8
    then 92 ∷ b'b' ∷ []
    else if ltb c 32
    then 92 ∷ b'u' ∷ 48 ∷ 48 ∷ hex_digit (c / 16) ∷ hex_digit (c % 16) ∷ []
    else c ∷ []

encode_chars : Text → Text
encode_chars [] = []
encode_chars (c ∷ t) = encode_char c ++ encode_chars t

-- `json.dumps(t, ensure_ascii=False)` of a text
pub encode_str : Text → Text
unfolding encode_chars encode_char hex_digit
encode_str t = 34 ∷ (encode_chars t ++ 34 ∷ [])

-- `sep.join(ts)`
pub join : Text → List Text → Text
join sep [] = []
join sep (t ∷ []) = t
join sep (t ∷ ts) = t ++ (sep ++ join sep ts)

-- One item of a dictionary, its value encoded.
abbrev pub pair : Text × Text → Text
pair (k, v) = encode_str k ++ (b':' ∷ v)

abbrev pub map_pair : List (Text × Text) → List Text
map_pair [] = []
map_pair (p ∷ ps) = pair p ∷ map_pair ps

-- `json.dumps` of a float, whose `repr` it has but for the three that are no numbers
abbrev pub dumps_float : Text → Text
dumps_float t =
    if text_eq t (txt "nan")
    then txt "NaN"
    else if text_eq t (txt "inf")
    then txt "Infinity"
    else if text_eq t (txt "-inf")
    then txt "-Infinity"
    else t

unfoldable mutual
  pub canonical : Json → Text
  canonical null = txt "null"
  canonical (bool true) = txt "true"
  canonical (bool false) = txt "false"
  canonical (int n) = show_int n
  canonical (float t) = dumps_float t
  canonical (str t) = encode_str t
  canonical (arr vs) = b'[' ∷ (join (txt ",") (canonical_items vs) ++ b']' ∷ [])
  canonical (obj fs) = b'{' ∷ (join (txt ",") (map_pair (sort (canonical_fields fs))) ++ b'}' ∷ [])

  pub canonical_items : Items → List Text
  canonical_items nil = []
  canonical_items (cons v vs) = canonical v ∷ canonical_items vs

  pub canonical_fields : Fields → List (Text × Text)
  canonical_fields end = []
  canonical_fields (field k v fs) = (k, canonical v) ∷ canonical_fields fs
