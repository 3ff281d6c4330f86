-- ===== src/Common/Poll.antt =====
-- A loop `while clock() < deadline:` on fuel. Turn n has its test, its body, which goes on with a new
-- state or ends, and what follows the loop where the test fails.
use Prim.Native.Nat.{ℕ, zero, suc, ◌+◌, ◌<◌, ◌≤◌}
use mathlib.Core.Path.{◌≡◌, subst, sym, ◌∙◌}
use mathlib.Core.Logic.{◌≢◌, inl, inr}
use mathlib.Core.Bool.{Bool, true, false}
use native.Mathlib.Omega.{arith}
use omashiki.Common.Tests.{if◌then◌else◌, Bool-cases}

module _ {S R : Type 0} (in_time : ℕ → Bool) (body : ℕ → (S → R) → S → R) (late : ℕ → S → R)
    (out_of_fuel : R) where
  unfoldable pub poll : ℕ → ℕ → S → R
  poll zero n s = out_of_fuel
  poll (suc fuel) n s =
      let more = body n (poll fuel (suc n)) s in if in_time n then more else late n s

  -- Where a turn without fuel has gone on, and the end is not out of fuel, k + 1 turns are enough if
  -- the test of turn k fails.
  pub poll-ne-out_of_fuel :
      ((n : ℕ) (again : S → R) (s : S)
        → body n again s ≡ out_of_fuel
        → (t : S) × (again t ≡ out_of_fuel))
      → ((n : ℕ) (s : S) → late n s ≢ out_of_fuel)
      → (k fuel n : ℕ) (s : S) → in_time (n + k) ≡ false
      → k < fuel
      → poll fuel n s ≢ out_of_fuel
  unfolding poll
  poll-ne-out_of_fuel goes stops k zero n s past more h = absurd (omega arith)
  poll-ne-out_of_fuel goes stops zero (suc fuel) n s past more h =
      let now : in_time n ≡ false = subst (λ i. in_time i ≡ false) (omega arith) past in
      stops n s (rw now at h)
  poll-ne-out_of_fuel goes stops (suc k) (suc fuel) n s past more h =
      let later : in_time (suc n + k) ≡ false = subst (λ i. in_time i ≡ false) (omega arith) past in
      elim (Bool-cases (in_time n)) [
        | inr e ↦ stops n s (rw e at h)
        | inl e ↦
            let (t, next) = goes n (poll fuel (suc n)) s (rw e at h) in
            poll-ne-out_of_fuel goes stops k fuel (suc n) t later (omega arith) next
      ]

  -- Where each turn before turn k is in time and goes on, and turn k is in time and ends, the loop ends
  -- as turn k does.
  pub poll-reaches :
      (result : R) (k : ℕ)
      → ((i : ℕ) → i ≤ k → in_time i ≡ true)
      → ((i : ℕ) → i < k → (s : S) (again : S → R) → (t : S) × (body i again s ≡ again t))
      → ((s : S) (again : S → R) → body k again s ≡ result)
      → (j fuel n : ℕ) (s : S) → n + j ≡ k
      → j < fuel
      → poll fuel n s ≡ result
  unfolding poll
  poll-reaches result k timely goes ends j zero n s at more = absurd (omega arith)
  poll-reaches result k timely goes ends zero (suc fuel) n s at more =
      rw (timely n (omega (arith, at)))
        (subst (λ i. body i (poll fuel (suc n)) s ≡ result) (sym here) (ends s (poll fuel (suc n))))
    where
      here : n ≡ k
      here = omega (arith, at)
  poll-reaches result k timely goes ends (suc j) (suc fuel) n s at more =
      let (t, on) = goes n (omega (arith, at)) s (poll fuel (suc n)) in
      rw (timely n (omega (arith, at))) (
        on
        ∙ poll-reaches result k timely goes ends j fuel (suc n) t (omega (arith, at))
            (omega (arith, more)))
