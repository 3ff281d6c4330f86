-- ===== src/FakeLlm/Stats/Log/Peaks.antt =====
-- The greatest value that a number has had.
use omashiki.Common.{
  ℕ, suc, ◌≤◌, ◌≡◌, refl, sym, subst, ◌⊎◌, inl, inr, Option, none, some, List, [], ◌∷◌, length, ltb,
  if◌then◌else◌, arith, Bool-cases,
}
use omashiki.Common.Int.{ℤ, pos, ◌+ℤ◌, ◌-ℤ◌, ◌≤ℤ◌, ltb_ℤ}
use omashiki.Common.Text.{Text}
use omashiki.FakeLlm.Stats.{add, Stats, enter_marker}
use omashiki.FakeLlm.Stats.Log.{Event, Always, Once}

pub Always-now : (P : List Event → Type 0) (es : List Event) → Always P es → P es
Always-now P [] h = h
Always-now P (e ∷ es) h = h.0

Always-weaken :
    (P Q : List Event → Type 0) (es : List Event)
    → ((past : List Event) → P past → Q past)
    → Always P es
    → Always Q es
Always-weaken P Q [] k h = k [] h
Always-weaken P Q (e ∷ es) k h = (k (e ∷ es) h.0, Always-weaken P Q es k h.1)

module _ {X : Type 0} (le : X → X → Type 0) (trans : (a b c : X) → le a b → le b c → le a c)
    (f : List Event → X) where
  -- A peak over the log's times
  abbrev IsPeak : X → List Event → Type 0
  IsPeak p es = Always (λ past. le (f past) p) es × Once (λ past. f past ≡ p) es

  pub IsPeak-next :
      (e : Event) (es : List Event) (p q : X)
      → le p q
      → le (f (e ∷ es)) q
      → ((q ≡ p) ⊎ (q ≡ f (e ∷ es)))
      → IsPeak p es
      → IsPeak q (e ∷ es)
  IsPeak-next e es p q up now either (bound, reached) = (
    (
      now,
      Always-weaken (λ past. le (f past) p) (λ past. le (f past) q) es
          (λ past h. trans (f past) p q h up) bound,
    ),
    elim either [
      | inl same ↦ inr (subst (λ z. Once (λ past. f past ≡ z) es) (sym same) reached)
      | inr new ↦ inl (sym new)
    ],
  )

larger_ℕ : (p n : ℕ) → let q = if ltb p n then n else p in (p ≤ q) × (n ≤ q) × ((q ≡ p) ⊎ (q ≡ n))
larger_ℕ p n = elim (Bool-cases (ltb p n)) [
  | inl e ↦ rw e (ground (arith, e), omega arith, inr refl)
  | inr e ↦ rw e (omega arith, ground (arith, e), inl refl)
]

pub larger_ℤ :
    (p n : ℤ) → let q = if ltb_ℤ p n then n else p in (p ≤ℤ q) × (n ≤ℤ q) × ((q ≡ p) ⊎ (q ≡ n))
larger_ℤ p n = elim (Bool-cases (ltb_ℤ p n)) [
  | inl e ↦ rw e (ground (arith, e), omega arith, inr refl)
  | inr e ↦ rw e (omega arith, ground (arith, e), inl refl)
]

pub trans_ℤ : (a b c : ℤ) → a ≤ℤ b → b ≤ℤ c → a ≤ℤ c
trans_ℤ a b c h k = omega (arith, h, k)

pub trans_ℕ : (a b c : ℕ) → a ≤ b → b ≤ c → a ≤ c
trans_ℕ a b c h k = omega (arith, h, k)

pub one_more : (a b : ℕ) → pos (suc a) -ℤ pos b ≡ (pos a -ℤ pos b) +ℤ pos 1
unfolding ◌+ℤ◌ ◌-ℤ◌
one_more a b = ground arith

pub one_less : (a b : ℕ) → pos a -ℤ pos (suc b) ≡ (pos a -ℤ pos b) -ℤ pos 1
unfolding ◌-ℤ◌
one_less a b = ground arith

pub less_≤ℤ : (z p : ℤ) → z ≤ℤ p → (z -ℤ pos 1) ≤ℤ p
unfolding ◌-ℤ◌
less_≤ℤ z p h = ground (arith, h)

pub enter_marker-peak :
    (o : Option Text) (s : Stats)
    → length s.active_markers ≤ s.job_marker_peak
    → let q = (enter_marker o s).job_marker_peak in
      let n = length (enter_marker o s).active_markers in
      (s.job_marker_peak ≤ q) × (n ≤ q) × ((q ≡ s.job_marker_peak) ⊎ (q ≡ n))
unfolding enter_marker
enter_marker-peak none s h = (omega arith, h, inl refl)
enter_marker-peak (some m) s h = larger_ℕ s.job_marker_peak (length (add m s.active_markers))
