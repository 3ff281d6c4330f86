-- ===== src/Common/Runs.antt =====
-- Programs that change a state and may end in an exception, and what holds before and after them.
use mathlib.Core.Path.{◌≡◌, refl, subst, sym, ◌∙◌}
use mathlib.Core.Bool.{Bool, true, false}
use omashiki.Common.Tests.{if◌then◌else◌}
use omashiki.Common.Results.{Result, ok, err, ok_injective}

abbrev pub Run : Type 0 → Type 0 → Type 0 → Type 0
Run S E A = S → S × Result E A

infixl 5 ◌>>=◌ ◌>>◌
abbrev pub ◌>>=◌ : {S E A B : Type 0} → Run S E A → (A → Run S E B) → Run S E B
◌>>=◌ m f s = let (t, r) = m s in elim r [ ok a ↦ f a t | err e ↦ (t, err e) ]

abbrev pub ◌>>◌ : {S E B : Type 0} → Run S E (Unit {0}) → Run S E B → Run S E B
m >> k = m >>= λ _. k

abbrev pub done : {S E A : Type 0} → A → Run S E A
done a s = (s, ok a)

abbrev pub fail : {S E A : Type 0} → E → Run S E A
fail e s = (s, err e)

-- `if not passed: raise e`
abbrev pub demand : {S E : Type 0} → Bool → E → Run S E (Unit {0})
demand true e s = (s, ok tt)
demand false e s = (s, err e)

-- `try: … finally: …`, where an exception of the last part takes the place of what was there
abbrev pub ended : {S E A : Type 0} → Result E A → S × Result E (Unit {0}) → S × Result E A
ended r (t, ok u) = (t, r)
ended r (t, err e) = (t, err e)

abbrev pub finally : {S E A : Type 0} → Run S E A → Run S E (Unit {0}) → Run S E A
finally m last s = let (t, r) = m s in ended r (last t)

-- A value of two steps comes of a value of the first.
pub bind-ok :
    {S E A B : Type 0} (m : Run S E A) (f : A → Run S E B) (s : S) {b : B}
    → ((m >>= f) s).1 ≡ ok b
    → (a : A) × ((m s).1 ≡ ok a) × ((m >>= f) s ≡ f a (m s).0)
bind-ok {S} {E} {A} {B} m f s {b} h = after (m s) h
  where
    after :
        (x : S × Result E A)
        → let y = elim x.1 as (λ _. S × Result E B) [ ok a ↦ f a x.0 | err e ↦ (x.0, err e) ] in
          y.1 ≡ ok b → (a : A) × (x.1 ≡ ok a) × (y ≡ f a x.0)
    after (t, ok a) h = (a, refl, refl)
    after (t, err e) h = cc h

pub demand-ok :
    {S E A : Type 0} (b : Bool) (e : E) (a : A) (s : S) {c : A}
    → ((demand b e >>= λ _. done a) s).1 ≡ ok c
    → (b ≡ true) × (a ≡ c) × (((demand b e >>= λ _. done a) s).0 ≡ s)
demand-ok true e a s h = (refl, ok_injective h, refl)
demand-ok false e a s h = cc h

-- A run that leaves the state alone
abbrev pub Silent : {S E A : Type 0} → Run S E A → Type 0
Silent {S} m = (s : S) → (m s).0 ≡ s

pub bind-Silent :
    {S E A B : Type 0} (m : Run S E A) (f : A → Run S E B)
    → Silent m
    → ((a : A) → Silent (f a))
    → Silent (m >>= f)
bind-Silent {S} {E} {A} {B} m f h k s = after (m s) (h s)
  where
    after :
        (x : S × Result E A)
        → x.0 ≡ s
        → (elim x.1 as (λ _. S × Result E B) [ ok a ↦ f a x.0 | err e ↦ (x.0, err e) ]).0 ≡ s
    after (t, ok a) e = k a t ∙ e
    after (t, err x) e = e

pub demand-Silent : {S E : Type 0} (b : Bool) (e : E) → Silent {S = S} (demand b e)
demand-Silent true e s = refl
demand-Silent false e s = refl

-- What a run is sure of: from a state with `Inv` and `P` it ends in a state with `Inv`, and where it has
-- a value, this and the state have `Q`.
module _ {S E : Type 0} (Inv : S → Type 0) where
  abbrev pub Lands : {A : Type 0} → (A → S → Type 0) → S × Result E A → Type 0
  Lands {A} Q x = Inv x.0 × ((a : A) → x.1 ≡ ok a → Q a x.0)

  pub record Triple {A : Type 0} (P : S → Type 0) (m : Run S E A) (Q : A → S → Type 0)
      : Type 0 where
    pub at : (s : S) → Inv s → P s → Lands Q (m s)

  pub bind-Triple :
      {A B : Type 0} {P : S → Type 0} {Q : A → S → Type 0} {R : B → S → Type 0} (m : Run S E A)
      (f : A → Run S E B)
      → Triple P m Q
      → ((a : A) → Triple (Q a) (f a) R)
      → Triple P (m >>= f) R
  bind-Triple {A} {B} {P} {Q} {R} m f h k = record { at = λ s i p. after (m s) (h.at s i p) }
    where
      after :
          (x : S × Result E A)
          → Lands Q x
          → Lands R (elim x.1 as (λ _. S × Result E B) [ ok a ↦ f a x.0 | err e ↦ (x.0, err e) ])
      after (t, ok a) (j, q) = (k a).at t j (q a refl)
      after (t, err e) (j, q) = (j, λ b e. cc e)

  pub done-Triple :
      {A : Type 0} {P : S → Type 0} {Q : A → S → Type 0} (a : A)
      → ((s : S) → P s → Q a s)
      → Triple P (done a) Q
  done-Triple {A} {P} {Q} a h = record {
    at = λ s i p. (i, λ b e. subst (λ c. Q c s) (ok_injective e) (h s p));
  }

  pub weaken-Triple :
      {A : Type 0} {P P' : S → Type 0} {Q Q' : A → S → Type 0} (m : Run S E A)
      → ((s : S) → P s → P' s)
      → ((a : A) (s : S) → Q' a s → Q a s)
      → Triple P' m Q'
      → Triple P m Q
  weaken-Triple m f g h = record {
    at = λ s i p. let (j, q) = h.at s i (f s p) in (j, λ a e. g a (m s).0 (q a e));
  }

  -- An exception raised here
  pub fail-Triple :
      {A : Type 0} {P : S → Type 0} {Q : A → S → Type 0} (e : E) → Triple P (fail {A = A} e) Q
  fail-Triple e = record { at = λ s i p. (i, λ a x. cc x) }

  pub demand-Triple :
      {P : S → Type 0} (b : Bool) (e : E) → Triple P (demand b e) (λ _ s. P s × (b ≡ true))
  demand-Triple true e = record { at = λ s i p. (i, λ _ _. (p, refl)) }
  demand-Triple false e = record { at = λ s i p. (i, λ _ x. cc x) }

  pub if-Triple :
      {A : Type 0} {P : S → Type 0} {Q : A → S → Type 0} (b : Bool) (m n : Run S E A)
      → Triple (λ s. P s × (b ≡ true)) m Q
      → Triple (λ s. P s × (b ≡ false)) n Q
      → Triple P (if b then m else n) Q
  if-Triple true m n h k = record { at = λ s i p. h.at s i (p, refl) }
  if-Triple false m n h k = record { at = λ s i p. k.at s i (p, refl) }

  pub finally-Triple :
      {A : Type 0} {P : S → Type 0} (m : Run S E A) (last : Run S E (Unit {0}))
      → Triple P m (λ _ _. Unit {0})
      → Triple (λ _. Unit {0}) last (λ _ _. Unit {0})
      → Triple P (finally m last) (λ _ _. Unit {0})
  finally-Triple {A} m last h k = record {
    at = λ s i p. after (m s).1 (last (m s).0) (k.at (m s).0 (h.at s i p).0 tt).0;
  }
    where
      after :
          (r : Result E A) (x : S × Result E (Unit {0}))
          → Inv x.0
          → Lands {A = A} (λ _ _. Unit {0}) (ended r x)
      after r (t, ok u) i = (i, λ _ _. tt)
      after r (t, err e) i = (i, λ _ _. tt)

  pub Silent-Triple : {A : Type 0} {P : S → Type 0} (m : Run S E A) → Silent m → Triple P m (λ _. P)
  Silent-Triple {A} {P} m h = record {
    at = λ s i p. (subst Inv (sym (h s)) i, λ a e. subst P (sym (h s)) p);
  }
