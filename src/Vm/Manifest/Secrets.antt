-- ===== src/Vm/Manifest/Secrets.antt =====
-- What `reject_secrets` shows of every value below a manifest.
use omashiki.Common.{
  ℕ, zero, suc, ◌+◌, ◌≡◌, refl, Bool, true, false, not, ◌++◌, Option, none, some, List, [], ◌∷◌,
  Bool-cases, inl, inr, All, ok, use_ok, use_guard, guard-eq-ok, and_then, and_then-eq-some,
  some_injective, subst,
}
use omashiki.Common.Text.{Text, txt, text_eq, text_eq_sound, decimal}
use omashiki.Json.{
  Json, null, bool, int, float, str, arr, obj, Items, nil, cons, Fields, end, field, find,
}
use omashiki.Vm.Manifest.Base.{
  World, is_sensitive, refers_to_env, reject_secrets, reject_items, reject_fields,
}

-- A step into a value: an entry of a table, or an item of a list
pub data Step : Type 0 where
  key : Text → Step
  index : ℕ → Step

abbrev pub nth : ℕ → Items → Option Json
nth n nil = none
nth zero (cons v vs) = some v
nth (suc n) (cons v vs) = nth n vs

pub step : Step → Json → Option Json
step (key k) (obj fields) = find k fields
step (index n) (arr vs) = nth n vs
step _ _ = none

-- The value at the end of a path
abbrev pub at : List Step → Json → Option Json
at [] v = some v
at (s ∷ path) v = and_then (step s v) (at path)

-- No key on a path names a secret.
abbrev pub IsOpen : World → Step → Type 0
IsOpen w (key k) = is_sensitive w k ≡ false
IsOpen w (index n) = Unit

-- A text does not refer to the environment.
abbrev pub IsLiteral : Json → Type 0
IsLiteral (str t) = refers_to_env t ≡ false
IsLiteral _ = Unit

nth-rejected :
    (w : World) (vs : Items) (n i : ℕ) (place : Text) {v : Json}
    → reject_items w vs place i ≡ ok tt
    → nth n vs ≡ some v
    → (there : Text) × (reject_secrets w v there ≡ ok tt)
unfolding reject_items
nth-rejected w nil n i place h e = cc
nth-rejected w (cons x vs) zero i place {v} h e =
    let there = place ++ txt "[" ++ decimal i ++ txt "]" in
    use_ok (reject_secrets w x there) _ h
      λ _ first _. (there, subst (λ y. reject_secrets w y there ≡ ok tt) (some_injective e) first)
nth-rejected w (cons x vs) (suc n) i place h e =
    use_ok (reject_secrets w x (place ++ txt "[" ++ decimal i ++ txt "]")) _ h
      λ _ _ rest. nth-rejected w vs n (i + 1) place rest e

pub not-eq-true : (b : Bool) → not b ≡ true → b ≡ false
not-eq-true true h = cc
not-eq-true false h = refl

find-rejected :
    (w : World) (fields : Fields) (k place : Text) {v : Json}
    → reject_fields w fields place ≡ ok tt
    → find k fields ≡ some v
    → (is_sensitive w k ≡ false) × ((there : Text) × (reject_secrets w v there ≡ ok tt))
unfolding reject_fields find
find-rejected w end k place h e = cc
find-rejected w (field j x fields) k place {v} h e =
    let there = place ++ txt "." ++ j in
    use_guard (not (is_sensitive w j)) _ _ h λ plain h1.
      use_ok (reject_secrets w x there) _ h1 λ _ first rest. elim (Bool-cases (text_eq j k)) [
        | inl same ↦
            let value : x ≡ v = some_injective (rw same at e) in
            (
              subst (λ t. is_sensitive w t ≡ false) (text_eq_sound j k same) (not-eq-true _ plain),
              (there, subst (λ y. reject_secrets w y there ≡ ok tt) value first),
            )
        | inr other ↦ find-rejected w fields k place rest (rw other at e)
      ]

-- Nothing below a value that has been looked through names a secret, by a key or as a reference.
pub reject_secrets-at :
    (w : World) (path : List Step) (v : Json) (place : Text) {u : Json}
    → reject_secrets w v place ≡ ok tt
    → at path v ≡ some u
    → All (IsOpen w) path × IsLiteral u
unfolding reject_secrets step
reject_secrets-at w [] v place {u} h e =
    (tt, subst IsLiteral (some_injective e) (literal v place h))
  where
    literal : (v : Json) (place : Text) → reject_secrets w v place ≡ ok tt → IsLiteral v
    literal (str t) place h = not-eq-true _ (guard-eq-ok (not (refers_to_env t)) _ h)
    literal null place h = tt
    literal (bool b) place h = tt
    literal (int n) place h = tt
    literal (float t) place h = tt
    literal (arr vs) place h = tt
    literal (obj fields) place h = tt
reject_secrets-at w (key k ∷ path) (obj fields) place h e =
    let (v, found, more) = and_then-eq-some (find k fields) (at path) e in
    let (open_key, (there, rest)) = find-rejected w fields k place h found in
    let (keys, last) = reject_secrets-at w path v there rest more in ((open_key, keys), last)
reject_secrets-at w (index n ∷ path) (arr vs) place h e =
    let (v, found, more) = and_then-eq-some (nth n vs) (at path) e in
    let (there, rest) = nth-rejected w vs n 0 place h found in
    let (keys, last) = reject_secrets-at w path v there rest more in ((tt, keys), last)
reject_secrets-at w (s ∷ path) v place h e = cc

-- Nothing stands at a path, or its keys and its end are harmless.
abbrev pub IsClean : World → List Step → Option Json → Type 0
IsClean w path none = Unit
IsClean w path (some u) = All (IsOpen w) path × IsLiteral u

pub reject_secrets-IsClean :
    (w : World) (path : List Step) (v : Json) (place : Text)
    → reject_secrets w v place ≡ ok tt
    → IsClean w path (at path v)
reject_secrets-IsClean w path v place h = clean (at path v) refl
  where
    clean : (o : Option Json) → at path v ≡ o → IsClean w path o
    clean none e = tt
    clean (some u) e = reject_secrets-at w path v place h e
