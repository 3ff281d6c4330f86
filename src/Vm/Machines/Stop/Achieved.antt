-- ===== src/Vm/Machines/Stop/Achieved.antt =====
-- What `stop_owned_vms` has found where it returns True.
use omashiki.Common.{
  ℕ, zero, suc, ◌≡◌, refl, ap, sym, ◌∙◌, subst, ok_injective, Bool, true, false, ◌⊎◌, inl, inr,
  Option, none, some, List, [], ◌∷◌, if◌then◌else◌, ok,
}
use omashiki.Common.Runs.{◌>>=◌, done, bind-ok}
use omashiki.Common.Text.{Text}
use omashiki.Vm.Machines.{Trace, Run, World}
use omashiki.Vm.Machines.Stop.{
  Wait, returned, late, out_of_fuel, stop_one, each, all_off, after_turn, wait_stopped, destroy_one,
  finished, after_wait, stop_owned_vms,
}
use omashiki.Vm.Machines.Stop.Off.{OffNow, all_off-OffNow}

module _ (w : World) where
  after_turn-OffNow :
      (managed : List Text) (more : Run Wait) (o : Option Bool) (t : Trace)
      → (o ≡ some true → OffNow w managed t)
      → ((more t).1 ≡ ok (returned true) → OffNow w managed (more t).0)
      → (after_turn w more o t).1 ≡ ok (returned true)
      → OffNow w managed (after_turn w more o t).0
  unfolding after_turn
  after_turn-OffNow managed more none t now later h = cc h
  after_turn-OffNow managed more (some true) t now later h = now refl
  after_turn-OffNow managed more (some false) t now later h = later h

  wait_stopped-OffNow :
      (in_time : ℕ → Bool) (managed : List Text) (fuel n : ℕ) (t : Trace)
      → (wait_stopped w in_time managed fuel n t).1 ≡ ok (returned true)
      → OffNow w managed (wait_stopped w in_time managed fuel n t).0
  unfolding wait_stopped
  wait_stopped-OffNow in_time managed zero n t h = cc h
  wait_stopped-OffNow in_time managed (suc fuel) n t h =
      pick (in_time n) (λ u. wait_stopped-OffNow in_time managed fuel (suc n) u) h
    where
      rest : Run Wait
      rest = wait_stopped w in_time managed fuel (suc n)

      turn : Run Wait
      turn = all_off w managed >>= after_turn w rest

      pick :
          (b : Bool)
          → ((u : Trace) → (rest u).1 ≡ ok (returned true) → OffNow w managed (rest u).0)
          → ((if b then turn else done late) t).1 ≡ ok (returned true)
          → OffNow w managed ((if b then turn else done late) t).0
      pick false later h = cc h
      pick true later h =
          let (o, found, whole) = bind-ok (all_off w managed) (after_turn w rest) t h in
          let u = (all_off w managed t).0 in
          subst (OffNow w managed) (ap (λ x. x.0) (sym whole)) (
            after_turn-OffNow managed rest o u (λ e. all_off-OffNow w managed t (found ∙ ap ok e))
              (later u) (ap (λ x. x.1) (sym whole) ∙ h))

  finished-OffNow :
      (managed : List Text) (t : Trace)
      → (finished w managed t).1 ≡ ok (some true)
      → OffNow w managed (finished w managed t).0
  unfolding finished
  finished-OffNow managed t h =
      let (o, found, whole) = bind-ok (all_off w managed) read t h in
      let answered = ap (λ x. x.1) (sym whole) ∙ h in
      subst (OffNow w managed) (ap (λ x. x.0) (sym whole))
        (all_off-OffNow w managed t (found ∙ ap ok (of_true o (all_off w managed t).0 answered)))
    where
      read : Option Bool → Run (Option Bool)
      read o = done (elim o [ none ↦ some false | some b ↦ some b ])

      of_true : (o : Option Bool) (u : Trace) → (read o u).1 ≡ ok (some true) → o ≡ some true
      of_true none u e = cc e
      of_true (some b) u e = ok_injective e

  after_wait-OffNow :
      (managed : List Text) (r : Wait) (t : Trace)
      → (r ≡ returned true → OffNow w managed t)
      → (after_wait w managed r t).1 ≡ ok (some true)
      → OffNow w managed (after_wait w managed r t).0
  unfolding after_wait
  after_wait-OffNow managed (returned true) t now h = now refl
  after_wait-OffNow managed (returned false) t now h = cc h
  after_wait-OffNow managed out_of_fuel t now h = cc h
  after_wait-OffNow managed late t now h =
      let (more, found, whole) = bind-ok (each w (destroy_one w) managed) last t h in
      subst (OffNow w managed) (ap (λ x. x.0) (sym whole))
        (of_last more (each w (destroy_one w) managed t).0 (ap (λ x. x.1) (sym whole) ∙ h))
    where
      last : Bool → Run (Option Bool)
      last more = if more then finished w managed else done (some false)

      of_last :
          (more : Bool) (u : Trace)
          → (last more u).1 ≡ ok (some true)
          → OffNow w managed (last more u).0
      of_last true u e = finished-OffNow managed u e
      of_last false u e = cc e

  -- Where `stop_owned_vms` returns True, there is no machine, or it has just asked for the domains, and
  -- for the state of each machine that is listed, and each was "shut off".
  pub stop_owned_vms-OffNow :
      (in_time : ℕ → Bool) (fuel : ℕ) (managed : List Text) (t : Trace)
      → (stop_owned_vms w in_time fuel managed t).1 ≡ ok (some true)
      → (managed ≡ []) ⊎ OffNow w managed (stop_owned_vms w in_time fuel managed t).0
  unfolding stop_owned_vms
  stop_owned_vms-OffNow in_time fuel [] t h = inl refl
  stop_owned_vms-OffNow in_time fuel (name ∷ names) t h =
      let (more, found, whole) = bind-ok (each w (stop_one w) managed) rest t h in
      inr (
        subst (OffNow w managed) (ap (λ x. x.0) (sym whole))
          (of_rest more (each w (stop_one w) managed t).0 (ap (λ x. x.1) (sym whole) ∙ h)))
    where
      managed : List Text
      managed = name ∷ names

      wait : Run Wait
      wait = wait_stopped w in_time managed fuel 0

      rest : Bool → Run (Option Bool)
      rest more = if more then (wait >>= after_wait w managed) else done (some false)

      of_rest :
          (more : Bool) (u : Trace)
          → (rest more u).1 ≡ ok (some true)
          → OffNow w managed (rest more u).0
      of_rest false u e = cc e
      of_rest true u e =
          let (r, ended, whole) = bind-ok wait (after_wait w managed) u e in
          subst (OffNow w managed) (ap (λ x. x.0) (sym whole)) (
            after_wait-OffNow managed r (wait u).0
              (λ out. wait_stopped-OffNow in_time managed fuel 0 u (ended ∙ ap ok out))
              (ap (λ x. x.1) (sym whole) ∙ e))
