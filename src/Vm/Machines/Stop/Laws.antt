-- ===== src/Vm/Machines/Stop/Laws.antt =====
-- Stopping keeps to the harness's own machines.
use omashiki.Common.{
  ℕ, zero, suc, ◌≡◌, Bool, true, false, Option, none, some, List, [], ◌∷◌, any, all, filter_list,
  if◌then◌else◌, Bool-cases, inl, inr,
}
use omashiki.Common.Text.{Text, txt, text_eq}
use omashiki.Common.Runs.{◌>>=◌, done}
use omashiki.Vm.Machines.{
  domstate, shutdown, destroy, Trace, Run, is_error, World, Snapshot, query, domain_list,
  domain_snapshot, expected_domain, remove_owned_vms,
}
use omashiki.Vm.Machines.Laws.{
  WasOwned, IsJustified, Keeps, bind-Keeps, done-Keeps, if-Keeps, domain_list-Keeps, snapshot_then,
  remove_owned_vms-Keeps,
}
use omashiki.Vm.Machines.Stop.{
  Wait, returned, late, out_of_fuel, succeeds, stop_snapshot, stop_domain, stop_one, each,
  states_of, all_off, after_turn, wait_stopped, destroy_snapshot, destroy_domain, destroy_running,
  destroy_one, finished, after_wait, stop_owned_vms,
}

module _ (w : World) where
  query-Keeps : (name : Text) → Keeps w (query w (domstate name))
  query-Keeps name t j = (tt, j)

  stop_snapshot-Keeps :
      (name state : Text) (s : Snapshot) (u : Trace)
      → IsJustified w u
      → (expected_domain w name s ≡ true → WasOwned w name u)
      → IsJustified w (stop_snapshot w name state s u).0
  unfolding stop_snapshot
  stop_snapshot-Keeps name state s u j h = elim (Bool-cases (expected_domain w name s)) [
    | inr e ↦ rw e j
    | inl e ↦ rw e (pick (text_eq state (txt "running")) (text_eq state (txt "shut off")) (h e))
  ]
    where
      pick :
          (a b : Bool)
          → WasOwned w name u
          → IsJustified w
              ((if a
                  then succeeds w (shutdown name)
                  else if b
                  then done true
                  else succeeds w (destroy name))
                u).0
      pick true b o = (o, j)
      pick false true o = j
      pick false false o = (o, j)

  destroy_snapshot-Keeps :
      (name : Text) (s : Snapshot) (u : Trace)
      → IsJustified w u
      → (expected_domain w name s ≡ true → WasOwned w name u)
      → IsJustified w (destroy_snapshot w name s u).0
  unfolding destroy_snapshot
  destroy_snapshot-Keeps name s u j h = elim (Bool-cases (expected_domain w name s)) [
    | inr e ↦ rw e j
    | inl e ↦ rw e (h e, j)
  ]

  stop_domain-Keeps : (name : Text) → Keeps w (stop_domain w name)
  unfolding stop_domain
  stop_domain-Keeps name =
      let go = λ (state : Text).
        if is_error state
        then done false
        else (domain_snapshot w name state >>= stop_snapshot w name state) in
      bind-Keeps w (query w (domstate name)) go (query-Keeps name) λ state.
        if-Keeps w (is_error state) (done false)
          (domain_snapshot w name state >>= stop_snapshot w name state) (done-Keeps w false)
          λ t j.
            snapshot_then w name state (stop_snapshot w name state) t j
              λ s u k e h. stop_snapshot-Keeps name state s u k (λ o. (h o).0)

  destroy_domain-Keeps : (name : Text) → Keeps w (destroy_domain w name)
  unfolding destroy_domain
  destroy_domain-Keeps name =
      let go = λ (state : Text).
        if is_error state
        then done false
        else (domain_snapshot w name state >>= destroy_snapshot w name) in
      bind-Keeps w (query w (domstate name)) go (query-Keeps name) λ state.
        if-Keeps w (is_error state) (done false)
          (domain_snapshot w name state >>= destroy_snapshot w name) (done-Keeps w false)
          λ t j.
            snapshot_then w name state (destroy_snapshot w name) t j
              λ s u k e h. destroy_snapshot-Keeps name s u k (λ o. (h o).0)

  destroy_running-Keeps : (name : Text) → Keeps w (destroy_running w name)
  unfolding destroy_running
  destroy_running-Keeps name =
      let go = λ (first : Text).
        if text_eq first (txt "shut off") then done true else destroy_domain w name in
      bind-Keeps w (query w (domstate name)) go (query-Keeps name) λ first.
        if-Keeps w (text_eq first (txt "shut off")) (done true) (destroy_domain w name)
          (done-Keeps w true) (destroy_domain-Keeps name)

  -- A turn that looks whether the domain is there
  turn-Keeps :
      (name : Text) (m : Run Bool)
      → Keeps w m
      → Keeps w (
          domain_list w >>= λ domains.
          if any is_error domains
          then done false
          else if any (text_eq name) domains
          then m
          else done true)
  turn-Keeps name m k =
      let inner = λ (domains : List Text). if any (text_eq name) domains then m else done true in
      let go =
        λ (domains : List Text). if any is_error domains then done false else inner domains in
      bind-Keeps w (domain_list w) go (domain_list-Keeps w) λ domains.
        if-Keeps w (any is_error domains) (done false) (inner domains) (done-Keeps w false)
          (if-Keeps w (any (text_eq name) domains) m (done true) k (done-Keeps w true))

  stop_one-Keeps : (name : Text) → Keeps w (stop_one w name)
  unfolding stop_one
  stop_one-Keeps name = turn-Keeps name (stop_domain w name) (stop_domain-Keeps name)

  destroy_one-Keeps : (name : Text) → Keeps w (destroy_one w name)
  unfolding destroy_one
  destroy_one-Keeps name = turn-Keeps name (destroy_running w name) (destroy_running-Keeps name)

  each-Keeps :
      (turn : Text → Run Bool)
      → ((name : Text) → Keeps w (turn name))
      → (names : List Text) → Keeps w (each w turn names)
  unfolding each
  each-Keeps turn k [] = done-Keeps w true
  each-Keeps turn k (name ∷ names) =
      bind-Keeps w (turn name) (λ more. if more then each w turn names else done false) (k name)
        λ more.
          if-Keeps w more (each w turn names) (done false) (each-Keeps turn k names)
            (done-Keeps w false)

  states_of-Keeps : (names : List Text) → Keeps w (states_of w names)
  unfolding states_of
  states_of-Keeps [] = done-Keeps w {A = List Text} []
  states_of-Keeps (name ∷ names) =
      let rest = λ (state : Text). states_of w names >>= λ states. done (state ∷ states) in
      bind-Keeps w (query w (domstate name)) rest (query-Keeps name) λ state.
        bind-Keeps w (states_of w names) (λ states. done (state ∷ states)) (states_of-Keeps names)
          λ states. done-Keeps w (state ∷ states)

  all_off-Keeps : (managed : List Text) → Keeps w (all_off w managed)
  unfolding all_off
  all_off-Keeps managed =
      let there =
        λ (domains : List Text). filter_list (λ name. any (text_eq name) domains) managed in
      let read : List Text → Run (Option Bool) = λ states.
        if any is_error states
        then done none
        else done (some (all (λ s. text_eq s (txt "shut off")) states)) in
      let go : List Text → Run (Option Bool) = λ domains.
        if any is_error domains then done none else (states_of w (there domains) >>= read) in
      bind-Keeps w (domain_list w) go (domain_list-Keeps w) λ domains.
        if-Keeps w (any is_error domains) (done none) (states_of w (there domains) >>= read)
          (done-Keeps w {A = Option Bool} none)
          (bind-Keeps w (states_of w (there domains)) read (states_of-Keeps (there domains))
            λ states.
              if-Keeps w (any is_error states) (done none)
                (done (some (all (λ s. text_eq s (txt "shut off")) states)))
                (done-Keeps w {A = Option Bool} none)
                (done-Keeps w {A = Option Bool}
                  (some (all (λ s. text_eq s (txt "shut off")) states))))

  after_turn-Keeps :
      (more : Run Wait) (o : Option Bool) → Keeps w more → Keeps w (after_turn w more o)
  unfolding after_turn
  after_turn-Keeps more none k = done-Keeps w (returned false)
  after_turn-Keeps more (some true) k = done-Keeps w (returned true)
  after_turn-Keeps more (some false) k = k

  wait_stopped-Keeps :
      (in_time : ℕ → Bool) (managed : List Text) (fuel n : ℕ)
      → Keeps w (wait_stopped w in_time managed fuel n)
  unfolding wait_stopped
  wait_stopped-Keeps in_time managed zero n = done-Keeps w out_of_fuel
  wait_stopped-Keeps in_time managed (suc fuel) n =
      let more = wait_stopped w in_time managed fuel (suc n) in
      if-Keeps w (in_time n) (all_off w managed >>= after_turn w more) (done late)
        (bind-Keeps w (all_off w managed) (after_turn w more) (all_off-Keeps managed)
          λ o. after_turn-Keeps more o (wait_stopped-Keeps in_time managed fuel (suc n)))
        (done-Keeps w late)

  after_wait-Keeps : (managed : List Text) (r : Wait) → Keeps w (after_wait w managed r)
  unfolding after_wait finished
  after_wait-Keeps managed (returned b) = done-Keeps w {A = Option Bool} (some b)
  after_wait-Keeps managed out_of_fuel = done-Keeps w {A = Option Bool} none
  after_wait-Keeps managed late =
      let read : Option Bool → Run (Option Bool) =
        λ o. done (elim o [ none ↦ some false | some b ↦ some b ]) in
      let last : Bool → Run (Option Bool) =
        λ more. if more then finished w managed else done (some false) in
      bind-Keeps w (each w (destroy_one w) managed) last
        (each-Keeps (destroy_one w) destroy_one-Keeps managed)
        λ more.
          if-Keeps w more (finished w managed) (done (some false))
            (bind-Keeps w (all_off w managed) read (all_off-Keeps managed)
              λ o. done-Keeps w (elim o [ none ↦ some false | some b ↦ some b ]))
            (done-Keeps w (some false))

  stop_owned_vms-Keeps :
      (in_time : ℕ → Bool) (fuel : ℕ) (managed : List Text)
      → Keeps w (stop_owned_vms w in_time fuel managed)
  unfolding stop_owned_vms
  stop_owned_vms-Keeps in_time fuel [] = done-Keeps w (some true)
  stop_owned_vms-Keeps in_time fuel (name ∷ names) =
      let managed = name ∷ names in
      let wait = wait_stopped w in_time managed fuel 0 in
      let rest =
        λ (more : Bool). if more then (wait >>= after_wait w managed) else done (some false) in
      bind-Keeps w (each w (stop_one w) managed) rest
        (each-Keeps (stop_one w) stop_one-Keeps managed)
        λ more.
          if-Keeps w more (wait >>= after_wait w managed) (done (some false))
            (bind-Keeps w wait (after_wait w managed) (wait_stopped-Keeps in_time managed fuel 0)
              λ r. after_wait-Keeps managed r)
            (done-Keeps w (some false))

-- Stopping and removing the machines of the harness act on nothing else. Whatever virsh replies,
-- `stop_owned_vms` and `remove_owned_vms`, begun after commands that were each allowed, give only
-- commands that are each allowed by the ones before: a domain is shut down or destroyed only right
-- after the four queries of a snapshot whose answers are those of a domain of this harness; it is
-- undefined only if, besides, the query before these found it shut off; and a volume is deleted only
-- right after a query whose answer is that of a volume of this harness. This holds however long the
-- wait for the domains goes on, and also where a run ends with an error.
pub owned_vms-Keeps :
    (w : World) (in_time : ℕ → Bool) (fuel : ℕ) (managed : List Text) (t : Trace)
    → IsJustified w t
    → IsJustified w (stop_owned_vms w in_time fuel managed t).0
      × IsJustified w (remove_owned_vms w managed t).0
owned_vms-Keeps w in_time fuel managed t j =
    (stop_owned_vms-Keeps w in_time fuel managed t j, remove_owned_vms-Keeps w managed t j)
