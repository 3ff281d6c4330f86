-- ===== src/FakeLlm/Arguments/Laws.antt =====
-- What the arguments of a call hold once every name has been filled.
use omashiki.Common.{
  ◌≡◌, refl, sym, ap, ◌∙◌, subst, ◌⊎◌, inl, inr, some, if◌then◌else◌, Bool-cases, Result, ok,
  >>=-eq-ok, ok_injective, arith,
}
use omashiki.Common.Text.{Text, text_eq, text_eq_sound, text_eq_iff}
use omashiki.Json.{Json, str, Items, nil, cons, Fields, end, field, find}
use omashiki.FakeLlm.Arguments.{Error, assign, fill_with}

pub find-assign :
    (j k : Text) (v : Json) (fs : Fields)
    → find j (assign k v fs) ≡ (if text_eq k j then some v else find j fs)
unfolding find assign
find-assign j k v end = refl
find-assign j k v (field i w fs) =
    ground (arith, text_eq_iff i k, text_eq_iff i j, text_eq_iff k j, find-assign j k v fs)

-- The value stands in the list.
abbrev pub Listed : Json → Items → Type 0
Listed n nil = ⊥
Listed n (cons v vs) = (v ≡ n) ⊎ Listed n vs

module _ (step : Json → Result Error (Text × Json))
    (keyed : (n : Json) (k : Text) (v : Json) → step n ≡ ok (k, v) → n ≡ str k) where
  -- A name that has its value keeps it: it is only ever given the same again.
  fill_with-keeps :
      (k : Text) (v : Json) (names : Items) (done r : Fields)
      → step (str k) ≡ ok (k, v)
      → find k done ≡ some v
      → fill_with step names done ≡ ok r
      → find k r ≡ some v
  unfolding fill_with
  fill_with-keeps k v nil done r own h e = subst (λ x. find k x ≡ some v) (ok_injective e) h
  fill_with-keeps k v (cons n names) done r own h e =
      let ((j, w), made, rest) = >>=-eq-ok (step n) _ e in
      fill_with-keeps k v names (assign j w done) r own (again j w n made) rest
    where
      again :
          (j : Text) (w : Json) (n : Json) → step n ≡ ok (j, w) → find k (assign j w done) ≡ some v
      again j w n made = elim (Bool-cases (text_eq j k)) [
        | inr other ↦
            find-assign k j w done ∙ (ap (λ b. if b then some w else find k done) other ∙ h)
        | inl same ↦
            let j_k = text_eq_sound j k same in
            let both : ◌≡◌ {A = Result Error (Text × Json)} (ok (k, v)) (ok (j, w)) =
              sym own
              ∙ (ap (λ t. step (str t)) (sym j_k) ∙ (ap step (sym (keyed n j w made)) ∙ made)) in
            let w_v : w ≡ v = cc in
            find-assign k j w done
            ∙ (ap (λ b. if b then some w else find k done) same ∙ ap some w_v)
      ]

  pub fill_with-Listed :
      (k : Text) (names : Items) (done r : Fields)
      → Listed (str k) names
      → fill_with step names done ≡ ok r
      → (v : Json) × (step (str k) ≡ ok (k, v)) × (find k r ≡ some v)
  unfolding fill_with
  fill_with-Listed k nil done r l e = absurd l
  fill_with-Listed k (cons n names) done r (inr l) e =
      let ((j, w), made, rest) = >>=-eq-ok (step n) _ e in
      fill_with-Listed k names (assign j w done) r l rest
  fill_with-Listed k (cons n names) done r (inl here) e =
      let ((j, w), made, rest) = >>=-eq-ok (step n) _ e in
      let j_k : j ≡ k = str_injective (sym (keyed n j w made) ∙ here) in
      let own : step (str k) ≡ ok (k, w) = ap step (sym here) ∙ (made ∙ ap (λ t. ok (t, w)) j_k) in
      let set : find k (assign j w done) ≡ some w =
        find-assign k j w done
        ∙ ap (λ b. if b then some w else find k done) ((text_eq_iff j k).1 j_k) in
      (w, own, fill_with-keeps k w names (assign j w done) r own set rest)
    where
      str_injective : {s t : Text} → str s ≡ str t → s ≡ t
      str_injective p = cc
