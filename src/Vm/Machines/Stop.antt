-- ===== src/Vm/Machines/Stop.antt =====
-- vm/e2e.py: `stop_owned_vms`. `in_time` tells of each turn of its wait whether the deadline is ahead.
pub mod Laws
pub mod Ends
pub mod Achieved
pub mod Off
use omashiki.Common.{
  ℕ, zero, suc, Bool, true, false, not, ◌&&◌, ◌||◌, Option, none, some, List, [], ◌∷◌, any, all,
  filter_list, if◌then◌else◌,
}
use omashiki.Common.Text.{Text, txt, text_eq}
use omashiki.Common.Runs.{◌>>=◌, ◌>>◌, done}
use omashiki.Vm.Machines.{
  Command, domstate, shutdown, destroy, Reply, Run, shown, is_error, World, Snapshot, ask, query,
  domain_list, domain_snapshot, expected_domain,
}

-- How the wait ends: the function returns, the deadline has come, or the fuel is used up.
pub data Wait : Type 0 where
  returned : Bool → Wait
  late out_of_fuel : Wait

module _ (w : World) where
  -- Whether a command has ended with 0
  abbrev pub succeeds : Command → Run Bool
  succeeds c = do r ← ask w c; done r.succeeded

  -- What is done to a domain of the harness in this state; false is "return False".
  pub stop_snapshot : Text → Text → Snapshot → Run Bool
  unfolding expected_domain
  stop_snapshot name state s =
      if not (expected_domain w name s)
      then done false
      else if text_eq state (txt "running")
      then succeeds (shutdown name)
      else if text_eq state (txt "shut off")
      then done true
      else succeeds (destroy name)

  pub stop_domain : Text → Run Bool
  unfolding domain_snapshot stop_snapshot
  stop_domain name = do
    state ← query w (domstate name)
    if is_error state
        then done false
        else (domain_snapshot w name state >>= stop_snapshot name state)

  -- A turn of the first loop
  pub stop_one : Text → Run Bool
  unfolding domain_list stop_domain
  stop_one name = do
    domains ← domain_list w
    if any is_error domains
        then done false
        else if any (text_eq name) domains
        then stop_domain name
        else done true

  -- A loop that a turn can leave by "return False"
  pub each : (Text → Run Bool) → List Text → Run Bool
  each turn [] = done true
  each turn (name ∷ names) = turn name >>= λ more. if more then each turn names else done false

  -- `{name: virsh(["domstate", name]) for name in managed if name in domains}`
  pub states_of : List Text → Run (List Text)
  states_of [] = done []
  states_of (name ∷ names) = do
    state ← query w (domstate name)
    states ← states_of names
    done (state ∷ states)

  -- `return False`, or whether all machines that are there are shut off
  pub all_off : List Text → Run (Option Bool)
  unfolding domain_list states_of
  all_off managed = do
    domains ← domain_list w
    if any is_error domains
        then done none
        else (states_of (filter_list (λ name. any (text_eq name) domains) managed) >>= λ states.
            if any is_error states
            then done none
            else done (some (all (λ s. text_eq s (txt "shut off")) states)))

  -- What a turn of the wait makes of it
  pub after_turn : Run Wait → Option Bool → Run Wait
  after_turn more none = done (returned false)
  after_turn more (some true) = done (returned true)
  after_turn more (some false) = more

  -- The wait for the machines to shut down
  pub wait_stopped : (ℕ → Bool) → List Text → ℕ → ℕ → Run Wait
  unfolding all_off after_turn
  wait_stopped in_time managed zero n = done out_of_fuel
  wait_stopped in_time managed (suc fuel) n =
      let more = all_off managed >>= after_turn (wait_stopped in_time managed fuel (suc n)) in
      if in_time n then more else done late

  pub destroy_snapshot : Text → Snapshot → Run Bool
  unfolding expected_domain
  destroy_snapshot name s = if expected_domain w name s then succeeds (destroy name) else done false

  pub destroy_domain : Text → Run Bool
  unfolding domain_snapshot destroy_snapshot
  destroy_domain name = do
    state ← query w (domstate name)
    if is_error state then done false else (domain_snapshot w name state >>= destroy_snapshot name)

  pub destroy_running : Text → Run Bool
  unfolding destroy_domain
  destroy_running name = do
    first ← query w (domstate name)
    if text_eq first (txt "shut off") then done true else destroy_domain name

  -- A turn of the last loop
  pub destroy_one : Text → Run Bool
  unfolding domain_list destroy_running
  destroy_one name = do
    domains ← domain_list w
    if any is_error domains
        then done false
        else if any (text_eq name) domains
        then destroy_running name
        else done true

  -- The last question
  pub finished : List Text → Run (Option Bool)
  unfolding all_off
  finished managed = do
    result ← all_off managed
    done (elim result [ none ↦ some false | some b ↦ some b ])

  -- From the deadline on
  pub after_wait : List Text → Wait → Run (Option Bool)
  unfolding each destroy_one finished
  after_wait managed (returned b) = done (some b)
  after_wait managed out_of_fuel = done none
  after_wait managed late =
      each destroy_one managed >>= λ more. if more then finished managed else done (some false)

  -- `stop_owned_vms`, over the names in the order of the set; none if the fuel does not do
  unfoldable pub stop_owned_vms : (ℕ → Bool) → ℕ → List Text → Run (Option Bool)
  unfolding each stop_one wait_stopped after_wait
  stop_owned_vms in_time fuel [] = done (some true)
  stop_owned_vms in_time fuel (name ∷ names) = do
    more ← each stop_one (name ∷ names)
    if more
        then (wait_stopped in_time (name ∷ names) fuel 0 >>= after_wait (name ∷ names))
        else done (some false)
