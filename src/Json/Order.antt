-- ===== src/Json/Order.antt =====
-- The order in which `sorted` puts texts, and the sort of pairs by their first part.
use omashiki.Common.{
  ◌≡◌, ◌≢◌, sym, refl, inl, inr, Bool, true, false, List, [], ◌∷◌, ltb, ◌==◌, arith, if◌then◌else◌,
  Bool-cases,
}
use omashiki.Common.Text.{Text}

-- `s <= t`: by code points, a prefix first
pub text_leb : Text → Text → Bool
text_leb [] t = true
text_leb (a ∷ s) [] = false
text_leb (a ∷ s) (b ∷ t) =
    let later = text_leb s t in if ltb a b then true else if a == b then later else false

pub text_leb_total : (s t : Text) → text_leb s t ≡ false → text_leb t s ≡ true
unfolding text_leb
text_leb_total [] t h = cc
text_leb_total (a ∷ s) [] h = refl
text_leb_total (a ∷ s) (b ∷ t) h = ground (arith, text_leb_total s t)

pub text_leb_antisymm : (s t : Text) → text_leb s t ≡ true → text_leb t s ≡ true → s ≡ t
unfolding text_leb
text_leb_antisymm [] [] h k = refl
text_leb_antisymm [] (b ∷ t) h k = cc
text_leb_antisymm (a ∷ s) [] h k = cc
text_leb_antisymm (a ∷ s) (b ∷ t) h k = ground (arith, text_leb_antisymm s t)

pub text_leb_trans :
    (s t u : Text) → text_leb s t ≡ true → text_leb t u ≡ true → text_leb s u ≡ true
unfolding text_leb
text_leb_trans [] t u h k = refl
text_leb_trans (a ∷ s) [] u h k = cc
text_leb_trans (a ∷ s) (b ∷ t) [] h k = cc
text_leb_trans (a ∷ s) (b ∷ t) (c ∷ u) h k = ground (arith, text_leb_trans s t u)

-- `sorted(d, key=str)`, each key with a value at its side
module _ {ℓ} {A : Type ℓ} where
  unfoldable pub insert : Text × A → List (Text × A) → List (Text × A)
  insert (k, a) [] = (k, a) ∷ []
  insert (k, a) ((j, b) ∷ l) =
      if text_leb k j then (k, a) ∷ (j, b) ∷ l else (j, b) ∷ insert (k, a) l

  unfoldable pub sort : List (Text × A) → List (Text × A)
  unfolding insert
  sort [] = []
  sort (x ∷ l) = insert x (sort l)

  insert_comm_lt :
      (k j : Text) (a b : A) (l : List (Text × A))
      → text_leb k j ≡ true
      → text_leb j k ≡ false
      → insert (k, a) (insert (j, b) l) ≡ insert (j, b) (insert (k, a) l)
  unfolding insert
  insert_comm_lt k j a b [] kj jk = rw (kj, jk)
  insert_comm_lt k j a b ((i, c) ∷ l) kj jk = elim (Bool-cases (text_leb j i)) [
    | inl ji ↦ rw (ji, text_leb_trans k j i kj ji, kj, jk, ji)
    | inr ji ↦ elim (Bool-cases (text_leb k i)) [
      | inl ki ↦ simp (ji, ki, jk)
      | inr ki ↦ simp (ji, ki, insert_comm_lt k j a b l kj jk)
    ]
  ]

  pub insert_comm :
      (k j : Text) (a b : A) (l : List (Text × A))
      → k ≢ j
      → insert (k, a) (insert (j, b) l) ≡ insert (j, b) (insert (k, a) l)
  insert_comm k j a b l ne = elim (Bool-cases (text_leb k j)) [
    | inl kj ↦ elim (Bool-cases (text_leb j k)) [
      | inl jk ↦ absurd (ne (text_leb_antisymm k j kj jk))
      | inr jk ↦ insert_comm_lt k j a b l kj jk
    ]
    | inr kj ↦ sym (insert_comm_lt j k b a l (text_leb_total k j kj) kj)
  ]
