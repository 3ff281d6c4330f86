-- ===== src/Vm/Machines/Stop/Ends.antt =====
-- Stopping the machines comes to an end.
use omashiki.Common.{
  ℕ, zero, suc, ◌≡◌, ◌≢◌, refl, ap, ◌∙◌, ◌+◌, ◌<◌, Bool, true, false, Option, none, some, List, [],
  ◌∷◌, if◌then◌else◌, Result, ok, err,
}
use native.Mathlib.Omega.{arith}
use omashiki.Common.Text.{Text}
use omashiki.Common.Runs.{◌>>=◌, done}
use omashiki.Vm.Machines.{Trace, Run, World}
use omashiki.Vm.Machines.Stop.{
  Wait, returned, late, out_of_fuel, stop_one, each, all_off, after_turn, wait_stopped, destroy_one,
  finished, after_wait, stop_owned_vms,
}

-- The run does not end with this value.
abbrev Avoids : {A : Type 0} → A → Run A → Type 0
Avoids a m = (t : Trace) → (m t).1 ≢ ok a

bind-Avoids :
    {A B : Type 0} (b : B) (m : Run A) (f : A → Run B)
    → ((t : Trace) (a : A) → (m t).1 ≡ ok a → Avoids b (f a))
    → Avoids b (m >>= f)
bind-Avoids {A} {B} b m f h t = after (m t) (h t)
  where
    after :
        (r : Trace × Result Text A)
        → ((a : A) → r.1 ≡ ok a → Avoids b (f a))
        → (elim r.1 as (λ x. Trace × Result Text B) [ ok a ↦ f a r.0 | err e ↦ (r.0, err e) ]).1
          ≢ ok b
    after (u, ok a) k = k a refl u
    after (u, err e) k = λ e. cc e

if-Avoids :
    {A : Type 0} (a : A) (c : Bool) (m n : Run A)
    → Avoids a m
    → Avoids a n
    → Avoids a (if c then m else n)
if-Avoids a true m n h k = h
if-Avoids a false m n h k = k

module _ (w : World) where
  wait_stopped-Avoids :
      (in_time : ℕ → Bool) (managed : List Text) (fuel n k : ℕ)
      → in_time (n + k) ≡ false
      → k < fuel
      → Avoids out_of_fuel (wait_stopped w in_time managed fuel n)
  unfolding wait_stopped after_turn
  wait_stopped-Avoids in_time managed zero n k over less = absurd (omega arith)
  wait_stopped-Avoids in_time managed (suc fuel) n zero over less =
      let now : in_time n ≡ false = rw (the_same n) at over in rw now λ t e. cc e
    where
      the_same : (n : ℕ) → n + 0 ≡ n
      the_same n = omega arith
  wait_stopped-Avoids in_time managed (suc fuel) n (suc k) over less =
      let rest = wait_stopped w in_time managed fuel (suc n) in
      let ends : Avoids out_of_fuel rest =
        wait_stopped-Avoids in_time managed fuel (suc n) k (rw (shift n k) at over) (omega arith) in
      if-Avoids out_of_fuel (in_time n) (all_off w managed >>= after_turn w rest) (done late)
        (bind-Avoids out_of_fuel (all_off w managed) (after_turn w rest) λ t o _. turn rest ends o)
        λ t e. cc e
    where
      shift : (n k : ℕ) → n + suc k ≡ suc n + k
      shift n k = omega arith

      turn :
          (rest : Run Wait)
          → Avoids out_of_fuel rest
          → (o : Option Bool) → Avoids out_of_fuel (after_turn w rest o)
      turn rest h none = λ t e. cc e
      turn rest h (some true) = λ t e. cc e
      turn rest h (some false) = h

  after_wait-Avoids :
      (managed : List Text) (r : Wait) → r ≢ out_of_fuel → Avoids none (after_wait w managed r)
  unfolding after_wait finished
  after_wait-Avoids managed (returned b) h = λ t e. cc e
  after_wait-Avoids managed out_of_fuel h = absurd (h refl)
  after_wait-Avoids managed late h =
      let read : Option Bool → Run (Option Bool) =
        λ o. done (elim o [ none ↦ some false | some b ↦ some b ]) in
      let last : Bool → Run (Option Bool) =
        λ more. if more then finished w managed else done (some false) in
      bind-Avoids none (each w (destroy_one w) managed) last λ t more _.
        if-Avoids none more (finished w managed) (done (some false))
          (bind-Avoids none (all_off w managed) read λ u o _. answers o) λ u e. cc e
    where
      answers :
          (o : Option Bool)
          → Avoids none
              (done (elim o as (λ x. Option Bool) [ none ↦ some false | some b ↦ some b ]))
      answers none = λ t e. cc e
      answers (some b) = λ t e. cc e

front : (k : ℕ) → 0 + k ≡ k
front k = omega arith

-- If the deadline has passed at the test of some turn k of the wait, then k + 1 turns of fuel are enough:
-- `stop_owned_vms` returns a Boolean or ends in an exception, whatever virsh replies.
pub stop_owned_vms-ends :
    (w : World) (in_time : ℕ → Bool) (managed : List Text) (k fuel : ℕ) (t : Trace)
    → in_time k ≡ false
    → k < fuel
    → (stop_owned_vms w in_time fuel managed t).1 ≢ ok none
unfolding stop_owned_vms
stop_owned_vms-ends w in_time [] k fuel t over less = λ e. cc e
stop_owned_vms-ends w in_time (name ∷ names) k fuel t over less =
    let managed = name ∷ names in
    let wait = wait_stopped w in_time managed fuel 0 in
    let rest : Bool → Run (Option Bool) =
      λ more. if more then (wait >>= after_wait w managed) else done (some false) in
    bind-Avoids none (each w (stop_one w) managed) rest
      (λ u more _.
        if-Avoids none more (wait >>= after_wait w managed) (done (some false))
          (bind-Avoids none wait (after_wait w managed) λ v r e.
            after_wait-Avoids w managed r λ out.
              wait_stopped-Avoids w in_time managed fuel 0 k (ap in_time (front k) ∙ over) less v
                (rw out at e))
          λ v e. cc e)
      t
