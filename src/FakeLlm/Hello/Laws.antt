-- ===== src/FakeLlm/Hello/Laws.antt =====
-- What a write call of the "python-hello" scenario carries.
use omashiki.Common.{
  ◌≡◌, refl, sym, ap, subst, ◌||◌, ◌∙◌, ◌⊎◌, inl, inr, Bool, true, false, some, List, [], ◌∷◌,
  Bool-cases, Result, ok, guard, or_raise, >>=-eq-ok, guard-eq-ok, or_raise-eq-ok, arith,
}
use omashiki.Common.Text.{Text, txt, text_eq, text_eq_sound, text_eq_refl}
use omashiki.Json.{Json, null, str, Items, nil, cons, Fields, end, field, find, get_or}
use omashiki.FakeLlm.Arguments.{Error, placeholder_for}
use omashiki.FakeLlm.Arguments.Laws.{Listed, fill_with-Listed}
use omashiki.FakeLlm.Hello.{
  one_of, is_value, schema_accepts_string, underscored, path_names, content_names, hello_path,
  hello_content, has_key, append_name, required_list, names_to_fill, intent_value,
  python_hello_field, intent_argument, hello_argument, hello_fields, hello_arguments,
}

abbrev Among : Text → List Text → Type 0
Among t [] = ⊥
Among t (n ∷ ns) = (n ≡ t) ⊎ Among t ns

one_of-Among : (t : Text) (ns : List Text) → one_of t ns ≡ true → Among t ns
unfolding one_of
one_of-Among t [] h = cc
one_of-Among t (n ∷ ns) h = elim (Bool-cases (text_eq n t)) [
  | inl e ↦ inl (text_eq_sound n t e)
  | inr e ↦ inr (one_of-Among t ns (rw e at h))
]

-- A path name is no content name.
one_of-disjoint : (t : Text) → one_of t path_names ≡ true → one_of t content_names ≡ true → ⊥
unfolding one_of path_names content_names txt text_eq
one_of-disjoint t p c = cases (one_of-Among t path_names p)
  where
    no : (x : Text) → x ≡ t → one_of x content_names ≡ false → ⊥
    no x e f = cc (subst (λ y. one_of y content_names ≡ true) (sym e) c, f)

    cases : Among t path_names → ⊥
    cases (inl e) = no (txt "path") e refl
    cases (inr (inl e)) = no (txt "file_path") e refl
    cases (inr (inr (inl e))) = no (txt "filepath") e refl
    cases (inr (inr (inr (inl e)))) = no (txt "filename") e refl
    cases (inr (inr (inr (inr (inl e))))) = no (txt "file_name") e refl
    cases (inr (inr (inr (inr (inr x))))) = elim x [ ]

Listed-append_name : (n : Json) (ns : Items) (t : Text) → Listed n ns → Listed n (append_name ns t)
unfolding append_name
Listed-append_name n nil t l = absurd l
Listed-append_name n (cons v vs) t (inl e) = elim (Bool-cases (is_value t v)) [
  | inl h ↦ rw h (inl e)
  | inr h ↦ rw h (inl e)
]
Listed-append_name n (cons v vs) t (inr l) = elim (Bool-cases (is_value t v)) [
  | inl h ↦ rw h (inr l)
  | inr h ↦ rw h (inr (Listed-append_name n vs t l))
]

is_value-str : (t : Text) (v : Json) → is_value t v ≡ true → v ≡ str t
unfolding is_value
is_value-str t (str s) h = ap str (text_eq_sound s t h)
is_value-str t _ h = cc

append_name-Listed : (ns : Items) (t : Text) → Listed (str t) (append_name ns t)
unfolding append_name
append_name-Listed nil t = inl refl
append_name-Listed (cons v vs) t = elim (Bool-cases (is_value t v)) [
  | inl e ↦ rw e (inl (is_value-str t v e))
  | inr e ↦ rw e (inr (append_name-Listed vs t))
]

module _ (lower : Text → Text) (search : Text → Text → Result Error Bool) where
  python_hello_field-one_of :
      (fs : Fields) (names : List Text) (k : Text)
      → python_hello_field lower search fs names ≡ some k
      → one_of (underscored (lower k)) names ≡ true
  unfolding python_hello_field
  python_hello_field-one_of end names k h = cc
  python_hello_field-one_of (field j v fs) names k h =
      elim (Bool-cases (one_of (underscored (lower j)) names)) [
        | inl e ↦ let same : j ≡ k = ground arith in rw same at e
        | inr e ↦ python_hello_field-one_of fs names k (rw e at h)
      ]

  intent_argument-keyed :
      (name : Text) (prop : Json) (k : Text) (v : Json)
      → intent_argument lower search name prop ≡ ok (k, v)
      → name ≡ k
  unfolding intent_argument
  intent_argument-keyed name prop k v h =
      let (fits, _, h1) = >>=-eq-ok (schema_accepts_string search prop (intent_value prop)) _ h in
      let (_, _, h2) = >>=-eq-ok (guard fits _) _ h1 in cc h2

  hello_argument-keyed :
      (properties : Fields) (path content : Text) (n : Json) (k : Text) (v : Json)
      → hello_argument lower search properties path content n ≡ ok (k, v)
      → n ≡ str k
  unfolding hello_argument
  hello_argument-keyed properties path content (str name) k v h =
      elim (Bool-cases (text_eq name path)) [
        | inl e ↦ let same : name ≡ k = cc (rw e at h) in ap str same
        | inr e ↦ elim (Bool-cases (text_eq name content)) [
          | inl f ↦ let same : name ≡ k = cc (rw (e, f) at h) in ap str same
          | inr f ↦ elim (Bool-cases (text_eq (underscored (lower name)) (txt "intent"))) [
            | inl g ↦ ap str (intent_argument-keyed name _ k v (rw (e, f, g) at h))
            | inr g ↦
                let (w, _, h1) =
                  >>=-eq-ok (placeholder_for lower (str name) _) _ (rw (e, f, g) at h) in
                let same : name ≡ k = cc h1 in ap str same
          ]
        ]
      ]
  hello_argument-keyed properties path content _ k v h = cc

  -- The arguments of a write call, against the schema that it answers.
  pub record Carries (required : Json) (properties args : Fields) : Type 0 where
    pub path : Text
    pub path_field : python_hello_field lower search properties path_names ≡ some path
    pub path_fits :
        schema_accepts_string search (get_or path properties null) (str hello_path) ≡ ok true
    pub path_value : find path args ≡ some (str hello_path)
    pub content : Text
    pub content_field : python_hello_field lower search properties content_names ≡ some content
    pub content_fits :
        schema_accepts_string search (get_or content properties null) (str hello_content) ≡ ok true
    pub content_value : find content args ≡ some (str hello_content)
    pub filled :
        (name : Text)
        → Listed (str name) (required_list required)
        → (v : Json) × (find name args ≡ some v)

  names_to_fill-Listed :
      (required : Json) (path content : Text) (has_intent : Bool) (n : Json)
      → Listed n (append_name (append_name (required_list required) path) content)
      → Listed n (names_to_fill required path content has_intent)
  unfolding names_to_fill
  names_to_fill-Listed required path content true n l = Listed-append_name n _ (txt "intent") l
  names_to_fill-Listed required path content false n l = l

  path_argument :
      (properties : Fields) (path content : Text) (v : Json)
      → hello_argument lower search properties path content (str path) ≡ ok (path, v)
      → v ≡ str hello_path
  unfolding hello_argument
  path_argument properties path content v h = cc (rw (text_eq_refl path) at h)

  content_argument :
      (properties : Fields) (path content : Text) (v : Json)
      → text_eq content path ≡ false
      → hello_argument lower search properties path content (str content) ≡ ok (content, v)
      → v ≡ str hello_content
  unfolding hello_argument
  content_argument properties path content v ne h = cc (rw (ne, text_eq_refl content) at h)

  content_ne_path :
      (properties : Fields) (path content : Text)
      → python_hello_field lower search properties path_names ≡ some path
      → python_hello_field lower search properties content_names ≡ some content
      → text_eq content path ≡ false
  content_ne_path properties path content p c = elim (Bool-cases (text_eq content path)) [
    | inr e ↦ e
    | inl e ↦
        let same = text_eq_sound content path e in
        absurd (
          one_of-disjoint (underscored (lower path))
            (python_hello_field-one_of properties path_names path p)
            (subst (λ x. one_of (underscored (lower x)) content_names ≡ true) same
              (python_hello_field-one_of properties content_names content c)))
  ]

  hello_fields-Carries :
      (required : Json) (properties args : Fields) (path content : Text)
      → python_hello_field lower search properties path_names ≡ some path
      → python_hello_field lower search properties content_names ≡ some content
      → hello_fields lower search required properties path content ≡ ok args
      → Carries required properties args
  unfolding hello_fields
  hello_fields-Carries required properties args path content p c h =
      let (b1, fits1, h1) =
        >>=-eq-ok (schema_accepts_string search (get_or path properties null) (str hello_path)) _
          h in
      let (_, g1, h2) = >>=-eq-ok (guard b1 _) _ h1 in
      let (b2, fits2, h3) =
        >>=-eq-ok
          (schema_accepts_string search (get_or content properties null) (str hello_content)) _
          h2 in
      let (_, g2, h4) = >>=-eq-ok (guard b2 _) _ h3 in
      let (_, _, h5) = >>=-eq-ok (guard (has_key (txt "intent") properties || _) _) _ h4 in
      let step = hello_argument lower search properties path content in
      let keyed = hello_argument-keyed properties path content in
      let names = names_to_fill required path content (has_key (txt "intent") properties) in
      let listed = names_to_fill-Listed required path content (has_key (txt "intent") properties) in
      let (v1, made1, found1) =
        fill_with-Listed step keyed path names end args
          (listed (str path) (
            Listed-append_name (str path) _ content
              (append_name-Listed (required_list required) path)))
          h5 in
      let (v2, made2, found2) =
        fill_with-Listed step keyed content names end args
          (listed (str content) (append_name-Listed _ content)) h5 in
      record {
        path = path;
        path_field = p;
        path_fits = fits1 ∙ ap ok (guard-eq-ok b1 _ g1);
        path_value = found1 ∙ ap some (path_argument properties path content v1 made1);
        content = content;
        content_field = c;
        content_fits = fits2 ∙ ap ok (guard-eq-ok b2 _ g2);
        content_value =
            found2
            ∙ ap some (
                content_argument properties path content v2
                  (content_ne_path properties path content p c) made2);
        filled = λ name l.
            let (v, _, found) =
              fill_with-Listed step keyed name names end args
                (listed (str name) (
                  Listed-append_name (str name) _ content (Listed-append_name (str name) _ path l)))
                h5 in
            (v, found);
      }

  -- A write call of the scenario carries the path "hello.py" and the fixed program in the fields
  -- that the tool has for them, each accepted by its schema, and has a value for every required
  -- name.
  pub hello_arguments-Carries :
      (schema properties args : Fields)
      → hello_arguments lower search schema properties ≡ ok args
      → Carries (get_or (txt "required") schema null) properties args
  unfolding hello_arguments
  hello_arguments-Carries schema properties args h =
      let (path, p, h1) =
        >>=-eq-ok (or_raise (python_hello_field lower search properties path_names) _) _ h in
      let (content, c, h2) =
        >>=-eq-ok (or_raise (python_hello_field lower search properties content_names) _) _ h1 in
      hello_fields-Carries (get_or (txt "required") schema null) properties args path content
        (or_raise-eq-ok _ _ p) (or_raise-eq-ok _ _ c) h2
