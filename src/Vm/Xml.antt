-- ===== src/Vm/Xml.antt =====
-- The part of `xml.etree.ElementTree` that vm/prepared.py uses: elements, and `find` by a path.
use omashiki.Common.{
  Bool, false, ◌||◌, Option, none, some, List, [], ◌∷◌, ◌++◌, filter_list, ◌==◌, if◌then◌else◌,
}
use omashiki.Common.Text.{Text, text_eq}

mutual
  pub data Element : Type 0 where
    element : Text → List (Text × Text) → Option Text → Children → Element

  pub data Children : Type 0 where
    childless : Children
    child : Element → Children → Children

abbrev pub tag : Element → Text
tag (element t a x c) = t

abbrev pub attrib : Element → List (Text × Text)
attrib (element t a x c) = a

abbrev pub text : Element → Option Text
text (element t a x c) = x

abbrev listed : Children → List Element
listed childless = []
listed (child e c) = e ∷ listed c

abbrev pub children : Element → List Element
children (element t a x c) = listed c

abbrev pub flat_map {ℓ κ} : {A : Type ℓ} {B : Type κ} → (A → List B) → List A → List B
flat_map f [] = []
flat_map f (x ∷ xs) = f x ++ flat_map f xs

abbrev head? {ℓ} : {A : Type ℓ} → List A → Option A
head? [] = none
head? (x ∷ xs) = some x

-- `e.findall("./a/b")`, the path as the list of its tags
unfoldable pub find_all : List Text → Element → List Element
find_all [] e = e ∷ []
find_all (t ∷ path) e = flat_map (find_all path) (filter_list (λ c. text_eq (tag c) t) (children e))

-- `e.find("./a/b")`
unfoldable pub find_first : List Text → Element → Option Element
unfolding find_all
find_first path e = head? (find_all path e)

abbrev text_or_empty : Option Text → Text
text_or_empty none = []
text_or_empty (some t) = t

-- `e.findtext("./a/b")`
unfoldable pub find_text : List Text → Element → Option Text
unfolding find_first
find_text path e = elim (find_first path e) [ none ↦ none | some f ↦ some (text_or_empty (text f)) ]

-- `e.find(".//t") is not None`
unfoldable mutual
  pub has_within : Text → Element → Bool
  has_within t (element u a x c) = has_among t c

  pub has_among : Text → Children → Bool
  has_among t childless = false
  has_among t (child e c) = text_eq (tag e) t || has_within t e || has_among t c

-- `t.rsplit("}", 1)[-1]`: what stands after the last brace, `last` if none is left
abbrev after_brace : Text → Text → Text
after_brace last [] = last
after_brace last (c ∷ t) = after_brace (if c == b'}' then t else last) t

unfoldable pub local_name : Text → Text
local_name t = after_brace t t

abbrev entry : Text → List (Text × Text) → Option Text
entry key [] = none
entry key ((k, v) ∷ rest) = let later = entry key rest in if text_eq k key then some v else later

-- `e.get(key)`
unfoldable pub attribute : Text → Element → Option Text
attribute key e = entry key (attrib e)
