-- ===== src/Common/Strip.antt =====
-- What `strip` and its halves guarantee.
use omashiki.Common.Tests.{Bool-cases}
use omashiki.Common.Lists.{length, take}
use omashiki.Common.Text.{Text, keep_last, lstrip, rstrip, strip}
use Prim.Native.Nat.{ℕ, zero, suc, ◌+◌, ◌≤◌}
use mathlib.Core.Path.{◌≡◌, refl}
use mathlib.Core.Logic.{inl, inr}
use mathlib.Core.Bool.{Bool, false}
use mathlib.Core.List.{[], ◌∷◌}
use native.Mathlib.Omega.{arith}

module _ (p : ℕ → Bool) where
  -- The first character, if there is one, fails the test.
  abbrev pub Starts : Text → Type 0
  Starts [] = Unit
  Starts (c ∷ t) = p c ≡ false

  -- The last character, if there is one, fails the test.
  abbrev pub Ends : Text → Type 0
  Ends [] = Unit
  Ends (c ∷ []) = p c ≡ false
  Ends (c ∷ d ∷ t) = Ends (d ∷ t)

  pub lstrip-Starts : (t : Text) → Starts (lstrip p t)
  unfolding lstrip
  lstrip-Starts [] = tt
  lstrip-Starts (c ∷ t) = elim (Bool-cases (p c)) [
    | inl h ↦ rw h (lstrip-Starts t)
    | inr h ↦ rw h h
  ]

  -- A character that stays is followed by what is left of the rest.
  pub rstrip_cons : (c : ℕ) (t : Text) → p c ≡ false → rstrip p (c ∷ t) ≡ c ∷ rstrip p t
  unfolding rstrip
  rstrip_cons c t h = keep_last_cons (rstrip p t)
    where
      keep_last_cons : (r : Text) → keep_last p c r ≡ c ∷ r
      keep_last_cons [] = rw h
      keep_last_cons (d ∷ r) = refl

  keep_last-Ends : (c : ℕ) (r : Text) → Ends r → Ends (keep_last p c r)
  keep_last-Ends c [] h = elim (Bool-cases (p c)) [ inl e ↦ rw e tt | inr e ↦ rw e e ]
  keep_last-Ends c (d ∷ r) h = h

  pub rstrip-Ends : (t : Text) → Ends (rstrip p t)
  unfolding rstrip
  rstrip-Ends [] = tt
  rstrip-Ends (c ∷ t) = keep_last-Ends c (rstrip p t) (rstrip-Ends t)

  pub rstrip-Starts : (t : Text) → Starts t → Starts (rstrip p t)
  rstrip-Starts [] h = unfold rstrip in tt
  rstrip-Starts (c ∷ t) h = rw (rstrip_cons c t h) h

  keep_last_of_Ends : (c : ℕ) (t : Text) → Ends (c ∷ t) → keep_last p c t ≡ c ∷ t
  keep_last_of_Ends c [] h = rw h
  keep_last_of_Ends c (d ∷ t) h = refl

  Ends-tail : (c : ℕ) (t : Text) → Ends (c ∷ t) → Ends t
  Ends-tail c [] h = tt
  Ends-tail c (d ∷ t) h = h

  pub rstrip_of_Ends : (t : Text) → Ends t → rstrip p t ≡ t
  unfolding rstrip
  rstrip_of_Ends [] h = refl
  rstrip_of_Ends (c ∷ t) h = rw (rstrip_of_Ends t (Ends-tail c t h)) (keep_last_of_Ends c t h)

  pub lstrip_of_Starts : (t : Text) → Starts t → lstrip p t ≡ t
  unfolding lstrip
  lstrip_of_Starts [] h = refl
  lstrip_of_Starts (c ∷ t) h = rw h

  pub strip-Starts : (t : Text) → Starts (strip p t)
  unfolding strip
  strip-Starts t = rstrip-Starts (lstrip p t) (lstrip-Starts t)

  pub strip-Ends : (t : Text) → Ends (strip p t)
  unfolding strip
  strip-Ends t = rstrip-Ends (lstrip p t)

  pub strip_of : (t : Text) → Starts t → Ends t → strip p t ≡ t
  unfolding strip
  strip_of t s e = rw (lstrip_of_Starts t s) (rstrip_of_Ends t e)

  length-keep_last : (c : ℕ) (r : Text) → length (keep_last p c r) ≤ length r + 1
  length-keep_last c [] = ground arith
  length-keep_last c (d ∷ r) = omega arith

  pub length-rstrip : (t : Text) → length (rstrip p t) ≤ length t
  unfolding rstrip
  length-rstrip [] = omega arith
  length-rstrip (c ∷ t) = omega (arith, length-keep_last c (rstrip p t), length-rstrip t)

  -- What is left is a prefix.
  pub rstrip-eq-take : (t : Text) → (n : ℕ) × (rstrip p t ≡ take n t)
  unfolding rstrip
  rstrip-eq-take [] = (0, refl)
  rstrip-eq-take (c ∷ t) = let (n, e) = rstrip-eq-take t in rw e (keep_last-eq-take c t n)
    where
      keep_last-eq-take :
          (c : ℕ) (t : Text) (n : ℕ) → (m : ℕ) × (keep_last p c (take n t) ≡ take m (c ∷ t))
      keep_last-eq-take c t zero = elim (Bool-cases (p c)) [ inl e ↦ (0, rw e) | inr e ↦ (1, rw e) ]
      keep_last-eq-take c [] (suc n) = elim (Bool-cases (p c)) [
        | inl e ↦ (0, rw e)
        | inr e ↦ (1, rw e)
      ]
      keep_last-eq-take c (d ∷ t) (suc n) = (suc (suc n), refl)
