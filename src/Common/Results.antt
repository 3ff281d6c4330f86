-- ===== src/Common/Results.antt =====
-- Code that may raise returns a result; `E` is what it can raise.
use mathlib.Core.Path.{◌≡◌, refl, ap, ◌∙◌}
use omashiki.Common.Tests.{if◌then◌else◌}
use mathlib.Core.Bool.{Bool, true, false}
use mathlib.Core.Option.{Option, none, some}

pub data Result {ℓ κ} (E : Type κ) (A : Type ℓ) : Type (ℓ ⊔ κ) where
  ok : A → Result E A
  err : E → Result E A

-- `if not passed: raise problem`
abbrev pub guard {κ} : {E : Type κ} → Bool → E → Result E (Unit {0})
guard false problem = err problem
guard true problem = ok tt

infixl 5 ◌>>=◌ ◌>>◌
-- What follows is run only on a value.
abbrev pub ◌>>=◌ {ℓ κ μ} :
    {E : Type κ} {A : Type ℓ} {B : Type μ} → Result E A → (A → Result E B) → Result E B
err problem >>= next = err problem
ok value >>= next = next value

pub >>=-eq-ok {ℓ κ μ} :
    {E : Type κ} {A : Type ℓ} {B : Type μ} (first : Result E A) (next : A → Result E B) {b : B}
    → (first >>= next) ≡ ok b
    → (value : A) × (first ≡ ok value) × (next value ≡ ok b)
>>=-eq-ok (err problem) next h = cc
>>=-eq-ok (ok value) next h = (value, refl, h)

abbrev pub ◌>>◌ {κ μ} : {E : Type κ} {B : Type μ} → Result E (Unit {0}) → Result E B → Result E B
first >> second = first >>= λ _. second

pub ok_injective {ℓ κ} :
    {E : Type κ} {A : Type ℓ} {a b : A} → ◌≡◌ {A = Result E A} (ok a) (ok b) → a ≡ b
ok_injective h = cc

-- `if x is None: raise e`
abbrev pub or_raise {ℓ κ} : {E : Type κ} {A : Type ℓ} → Option A → E → Result E A
or_raise none e = err e
or_raise (some a) e = ok a

pub or_raise-eq-ok {ℓ κ} :
    {E : Type κ} {A : Type ℓ} (o : Option A) (e : E) {a : A} → or_raise o e ≡ ok a → o ≡ some a
or_raise-eq-ok none e h = cc
or_raise-eq-ok (some a) e h = cc

pub guard-eq-ok {κ} : {E : Type κ} (b : Bool) (e : E) {u : Unit {0}} → guard b e ≡ ok u → b ≡ true
guard-eq-ok true e h = refl
guard-eq-ok false e h = cc

pub ok_some_injective {ℓ κ} :
    {E : Type κ} {A : Type ℓ} {a b : A}
    → ◌≡◌ {A = Result E (Option A)} (ok (some a)) (ok (some b))
    → a ≡ b
ok_some_injective h = cc

-- The code returns a value.
pub record Returns {ℓ κ} {E : Type κ} {A : Type ℓ} (m : Result E A) : Type (ℓ ⊔ κ) where
  pub result : A
  pub returned : m ≡ ok result

pub Returns-bind {ℓ κ μ} :
    {E : Type κ} {A : Type ℓ} {B : Type μ} (m : Result E A) (f : A → Result E B) {a : A}
    → m ≡ ok a
    → Returns (f a)
    → Returns (m >>= f)
Returns-bind m f e r = record { result = r.result; returned = ap (λ x. x >>= f) e ∙ r.returned }

pub Returns-if {ℓ κ} :
    {E : Type κ} {A : Type ℓ} (b : Bool) (m n : Result E A)
    → (b ≡ true → Returns m)
    → (b ≡ false → Returns n)
    → Returns (if b then m else n)
Returns-if true m n t f = t refl
Returns-if false m n t f = f refl

-- A step that may give nothing, and what follows it.
abbrev pub and_then {ℓ κ} : {A : Type ℓ} {B : Type κ} → Option A → (A → Option B) → Option B
and_then none next = none
and_then (some a) next = next a

pub and_then-eq-some {ℓ κ} :
    {A : Type ℓ} {B : Type κ} (first : Option A) (next : A → Option B) {b : B}
    → and_then first next ≡ some b
    → (a : A) × (first ≡ some a) × (next a ≡ some b)
and_then-eq-some none next h = cc
and_then-eq-some (some a) next h = (a, refl, h)

-- `>>=-eq-ok` for a long chain, whose values are then variables of what is to be shown.
pub use_ok {ℓ κ μ ν} :
    {E : Type κ} {A : Type ℓ} {B : Type μ} {C : Type ν} (first : Result E A) (next : A → Result E B)
    {b : B}
    → (first >>= next) ≡ ok b
    → ((value : A) → first ≡ ok value → next value ≡ ok b → C)
    → C
use_ok (err problem) next h use_value = cc
use_ok (ok value) next h use_value = use_value value refl h

pub use_guard {κ μ ν} :
    {E : Type κ} {B : Type μ} {C : Type ν} (passed : Bool) (problem : E)
    (next : Unit {0} → Result E B) {b : B}
    → (guard passed problem >>= next) ≡ ok b
    → (passed ≡ true → next tt ≡ ok b → C)
    → C
use_guard true problem next h use_rest = use_rest refl h
use_guard false problem next h use_rest = cc

pub some_injective {ℓ} : {A : Type ℓ} {a b : A} → ◌≡◌ {A = Option A} (some a) (some b) → a ≡ b
some_injective h = cc
