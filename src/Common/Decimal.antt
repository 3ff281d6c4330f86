-- ===== src/Common/Decimal.antt =====
-- The decimal digits of a number can be read back, and have no dash.
use omashiki.Common.Tests.{ltb, Bool-cases}
use omashiki.Common.Lists.{All}
use omashiki.Common.Text.{Text, decimal_from, decimal}
use Prim.Native.Nat.{ℕ, zero, suc, ◌+◌, ◌-◌, ◌*◌, ◌/◌, ◌%◌, ◌≤◌, ◌<◌}
use mathlib.Core.Path.{◌≡◌, refl, sym, ap, ◌∙◌}
use mathlib.Core.Logic.{inl, inr}
use mathlib.Core.List.{[], ◌∷◌, ◌++◌}
use native.Mathlib.Omega.{arith}

-- `int` of decimal digits, from what is read so far
unfoldable pub read_digits : ℕ → Text → ℕ
read_digits a [] = a
read_digits a (c ∷ t) = read_digits (a * 10 + (c - 48)) t

read_digits-decimal_from :
    (f n : ℕ) (acc : Text) → n < f → read_digits 0 (decimal_from f n acc) ≡ read_digits n acc
unfolding read_digits decimal_from
read_digits-decimal_from zero n acc h = absurd (omega arith)
read_digits-decimal_from (suc f) n acc h = elim (Bool-cases (ltb n 10)) [
  | inl e ↦ rw e (ap (λ (k : ℕ). read_digits k acc) (omega arith))
  | inr e ↦
      let smaller : n / 10 < f = ground arith in
      rw e (
        read_digits-decimal_from f (n / 10) ((48 + n % 10) ∷ acc) smaller
        ∙ ap (λ (k : ℕ). read_digits k acc) (omega arith))
]

pub read_digits-decimal : (n : ℕ) → read_digits 0 (decimal n) ≡ n
unfolding decimal read_digits
read_digits-decimal n = read_digits-decimal_from (suc n) n [] (omega arith)

pub decimal_injective : (m n : ℕ) → decimal m ≡ decimal n → m ≡ n
decimal_injective m n e =
    sym (read_digits-decimal m) ∙ (ap (read_digits 0) e ∙ read_digits-decimal n)

abbrev pub IsDigit : ℕ → Type 0
IsDigit c = (48 ≤ c) × (c ≤ 57)

decimal_from-IsDigit : (f n : ℕ) (acc : Text) → All IsDigit acc → All IsDigit (decimal_from f n acc)
unfolding decimal_from
decimal_from-IsDigit zero n acc h = h
decimal_from-IsDigit (suc f) n acc h = elim (Bool-cases (ltb n 10)) [
  | inl e ↦ rw e ((ground arith, ground arith), h)
  | inr e ↦
      rw e (decimal_from-IsDigit f (n / 10) ((48 + n % 10) ∷ acc) ((omega arith, omega arith), h))
]

pub decimal-IsDigit : (n : ℕ) → All IsDigit (decimal n)
unfolding decimal
decimal-IsDigit n = decimal_from-IsDigit (suc n) n [] tt

-- Two texts of digits, each followed by a dash, agree only part by part.
pub append_dash_injective :
    (s s' t t' : Text)
    → All IsDigit s
    → All IsDigit s'
    → s ++ (45 ∷ t) ≡ s' ++ (45 ∷ t')
    → (s ≡ s') × (t ≡ t')
append_dash_injective [] [] t t' h h' e = (refl, cc)
append_dash_injective [] (c ∷ s') t t' h h' e =
    let dash : ◌≡◌ {A = ℕ} 45 c = cc in absurd (omega arith)
append_dash_injective (c ∷ s) [] t t' h h' e =
    let dash : ◌≡◌ {A = ℕ} c 45 = cc in absurd (omega arith)
append_dash_injective (c ∷ s) (d ∷ s') t t' h h' e =
    let same : c ≡ d = cc in
    let rest : s ++ (45 ∷ t) ≡ s' ++ (45 ∷ t') = cc in
    let (front, back) = append_dash_injective s s' t t' h.1 h'.1 rest in (cc, back)

pub append_injective : (p : Text) {s t : Text} → p ++ s ≡ p ++ t → s ≡ t
append_injective [] e = e
append_injective (c ∷ p) e = append_injective p (cc)
