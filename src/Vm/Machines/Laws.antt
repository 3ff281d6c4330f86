-- ===== src/Vm/Machines/Laws.antt =====
-- The harness acts on its own machines only.
use omashiki.Common.{
  ◌≡◌, refl, sym, ◌∙◌, Bool, true, false, not, ◌&&◌, ◌||◌, and-eq-true_iff, List, [], ◌∷◌, ◌++◌,
  any, all, if◌then◌else◌, Result, ok, err,
}
use omashiki.Common.Text.{Text, txt, text_eq, text_eq_sound, is_empty}
use omashiki.Vm.Owned.{domain_owned, volume_owned}
use omashiki.Common.Runs.{◌>>=◌, ◌>>◌, done, demand}
use omashiki.Vm.Machines.{
  Command, list_domains, domstate, dumpxml, vol_info, vol_dumpxml, vol_path, shutdown, destroy,
  undefine, vol_delete, Reply, Trace, Run, shown, is_error, World, Snapshot, ask, domain_list,
  domain_snapshot, expected_domain, undefine_owned, remove_domain, delete_owned, remove_volume,
  volume_query_is_missing, remove_one, remove_all, volumes_missing, remove_owned_vms,
}

module _ (w : World) where
  -- The last four queries asked for this domain and its volume, and the answers are those of a domain
  -- of the harness.
  pub record WasOwned (name : Text) (t : Trace) : Type 0 where
    pub before : Trace
    pub dump : Reply
    pub info : Reply
    pub volume : Reply
    pub path : Reply
    pub queried :
        t
        ≡ (vol_path name, path)
          ∷ (vol_dumpxml name, volume)
          ∷ (vol_info name, info)
          ∷ (dumpxml name, dump)
          ∷ before
    pub owned : domain_owned w.host name (shown dump) (shown volume) w.base_path ≡ true

  -- Besides, the query before them found the domain shut off.
  pub record WasOff (name : Text) (t : Trace) : Type 0 where
    pub owned : WasOwned name t
    pub earlier : Trace
    pub state : Reply
    pub asked : owned.before ≡ (domstate name, state) ∷ earlier
    pub off : shown state ≡ txt "shut off"

  -- The last query asked for this volume, and the answer is that of a volume of the harness.
  pub record VolumeWasOwned (name : Text) (t : Trace) : Type 0 where
    pub before : Trace
    pub volume : Reply
    pub queried : t ≡ (vol_dumpxml name, volume) ∷ before
    pub owned : volume_owned w.host name (shown volume) w.base_path ≡ true

  -- What a command takes for granted
  abbrev pub Allowed : Command → Trace → Type 0
  Allowed (undefine name) t = WasOff name t
  Allowed (shutdown name) t = WasOwned name t
  Allowed (destroy name) t = WasOwned name t
  Allowed (vol_delete name) t = VolumeWasOwned name t
  Allowed _ t = Unit

  abbrev pub IsJustified : Trace → Type 0
  IsJustified [] = Unit
  IsJustified ((c, r) ∷ t) = Allowed c t × IsJustified t

  abbrev pub Keeps : {A : Type 0} → Run A → Type 0
  Keeps m = (t : Trace) → IsJustified t → IsJustified (m t).0

  pub bind-Keeps :
      {A B : Type 0} (m : Run A) (f : A → Run B)
      → Keeps m
      → ((a : A) → Keeps (f a))
      → Keeps (m >>= f)
  bind-Keeps {A} {B} m f k h t j = after (m t) (k t j)
    where
      after :
          (r : Trace × Result Text A)
          → IsJustified r.0
          → IsJustified
              (elim r.1 as (λ x. Trace × Result Text B) [ ok a ↦ f a r.0 | err e ↦ (r.0, err e) ]).0
      after (u, ok a) j = h a u j
      after (u, err e) j = j

  pub done-Keeps : {A : Type 0} (a : A) → Keeps (done a)
  done-Keeps a t j = j

  pub demand-Keeps : (b : Bool) (message : Text) → Keeps (demand b message)
  demand-Keeps true message t j = j
  demand-Keeps false message t j = j

  pub if-Keeps :
      {A : Type 0} (b : Bool) (m n : Run A) → Keeps m → Keeps n → Keeps (if b then m else n)
  if-Keeps true m n h k = h
  if-Keeps false m n h k = k

  -- What follows a test may use that it has passed.
  pub demand_then :
      {B : Type 0} (b : Bool) (message : Text) (k : Run B) (t : Trace)
      → IsJustified t
      → (b ≡ true → IsJustified (k t).0)
      → IsJustified ((demand b message >> k) t).0
  demand_then true message k t j h = h refl
  demand_then false message k t j h = j

  pub domain_list-Keeps : Keeps (domain_list w)
  unfolding domain_list
  domain_list-Keeps t j =
      demand_then (w.reply t list_domains).succeeded _ (done _) _ (tt, j) (λ _. (tt, j))

  -- What follows a snapshot may use that it is that of a domain of the harness, once it has found that.
  pub snapshot_then :
      {B : Type 0} (name state : Text) (f : Snapshot → Run B) (t : Trace)
      → IsJustified t
      → ((s : Snapshot) (u : Trace)
          → IsJustified u
          → s.initial_state ≡ state
          → (expected_domain w name s ≡ true → (o : WasOwned name u) × (o.before ≡ t))
          → IsJustified (f s u).0)
      → IsJustified ((domain_snapshot w name state >>= f) t).0
  unfolding domain_snapshot expected_domain
  snapshot_then name state f t j h =
      h _ _ (tt, (tt, (tt, (tt, j)))) refl
        λ owned. (
          record {
            before = t;
            dump = _;
            info = _;
            volume = _;
            path = _;
            queried = refl;
            owned = owned;
          },
          refl,
        )

  -- A command, and a test of its return code, keep the trace justified where the command is allowed.
  pub ask_then :
      (c : Command) (message : Text) (t : Trace)
      → IsJustified t
      → Allowed c t
      → IsJustified ((ask w c >>= λ r. demand r.succeeded message) t).0
  ask_then c message t j a = demand-Keeps (w.reply t c).succeeded message _ (a, j)

  undefine_owned-Keeps :
      (name : Text) (s : Snapshot) (state : Reply) (t u : Trace)
      → IsJustified u
      → s.initial_state ≡ shown state
      → (expected_domain w name s ≡ true
          → (o : WasOwned name u) × (o.before ≡ (domstate name, state) ∷ t))
      → IsJustified (undefine_owned w name s u).0
  unfolding undefine_owned
  undefine_owned-Keeps name s state t u j e h =
      let passes = text_eq s.initial_state (txt "shut off") && expected_domain w name s in
      let next = λ (v : Trace).
        (ask w (undefine name) >>= λ r.
        demand r.succeeded (txt "could not undefine owned domain " ++ name))
          v in
      demand_then passes _ next u j λ passed.
        let (off, owned) = (and-eq-true_iff _ (expected_domain w name s)).0 passed in
        let (was, before) = h owned in
        ask_then (undefine name) _ u j (record {
          owned = was;
          earlier = t;
          state = state;
          asked = before;
          off = sym e ∙ text_eq_sound s.initial_state (txt "shut off") off;
        })

  remove_domain-Keeps : (name : Text) → Keeps (remove_domain w name)
  unfolding remove_domain
  remove_domain-Keeps name t j =
      let state = w.reply t (domstate name) in
      snapshot_then name (shown state) (undefine_owned w name) ((domstate name, state) ∷ t) (tt, j)
        λ s u k e h. undefine_owned-Keeps name s state t u k e h

  delete_owned-Keeps :
      (name : Text) (r : Reply) (t : Trace)
      → IsJustified t
      → IsJustified (delete_owned w name (shown r) ((vol_dumpxml name, r) ∷ t)).0
  unfolding delete_owned
  delete_owned-Keeps name r t j =
      let next = λ (v : Trace).
        (ask w (vol_delete name) >>= λ a.
        demand a.succeeded (txt "could not delete owned volume " ++ name ++ txt ".qcow2"))
          v in
      demand_then (volume_owned w.host name (shown r) w.base_path) _ next _ (tt, j)
        λ owned.
          ask_then (vol_delete name) _ _ (tt, j)
            (record { before = t; volume = r; queried = refl; owned = owned })

  remove_volume-Keeps : (name : Text) → Keeps (remove_volume w name)
  unfolding remove_volume
  remove_volume-Keeps name t j =
      let r = w.reply t (vol_dumpxml name) in
      let xml = shown r in
      let u : Trace = (vol_dumpxml name, r) ∷ t in
      let rest : Run (Unit {0}) =
        if is_empty xml || is_error xml then done tt else delete_owned w name xml in
      demand_then (not (is_error xml) || volume_query_is_missing w xml) _ rest u (tt, j)
        λ _.
          unless (delete_owned w name xml) (is_empty xml || is_error xml) u (tt, j)
            (delete_owned-Keeps name r t j)
    where
      unless :
          (m : Run (Unit {0})) (b : Bool) (u : Trace)
          → IsJustified u
          → IsJustified (m u).0
          → IsJustified ((if b then done tt else m) u).0
      unless m true u j k = j
      unless m false u j k = k

  remove_one-Keeps : (name : Text) → Keeps (remove_one w name)
  unfolding remove_one
  remove_one-Keeps name =
      let domain = λ (domains : List Text).
        if any (text_eq name) domains then remove_domain w name else done tt in
      bind-Keeps (domain_list w) (λ domains. domain domains >> remove_volume w name)
        domain_list-Keeps
        λ domains.
          bind-Keeps (domain domains) (λ _. remove_volume w name)
            (if-Keeps (any (text_eq name) domains) (remove_domain w name) (done tt)
              (remove_domain-Keeps name) (done-Keeps tt))
            λ _. remove_volume-Keeps name

  remove_all-Keeps : (names : List Text) → Keeps (remove_all w names)
  unfolding remove_all
  remove_all-Keeps [] = done-Keeps tt
  remove_all-Keeps (name ∷ names) =
      bind-Keeps (remove_one w name) (λ _. remove_all w names) (remove_one-Keeps name)
        λ _. remove_all-Keeps names

  volumes_missing-Keeps :
      (names : List Text) (absent : Bool) → Keeps (volumes_missing w names absent)
  unfolding volumes_missing
  volumes_missing-Keeps [] absent t j = j
  volumes_missing-Keeps (name ∷ names) absent t j = volumes_missing-Keeps names _ _ (tt, j)

  pub remove_owned_vms-Keeps : (managed : List Text) → Keeps (remove_owned_vms w managed)
  unfolding remove_owned_vms
  remove_owned_vms-Keeps managed =
      let missing = λ (domains : List Text).
        volumes_missing w managed (all (λ name. not (any (text_eq name) domains)) managed) in
      let rest =
        λ (domains : List Text). if any is_error domains then done false else missing domains in
      bind-Keeps (remove_all w managed) (λ _. domain_list w >>= rest) (remove_all-Keeps managed)
        λ _. bind-Keeps (domain_list w) rest domain_list-Keeps λ domains.
          if-Keeps (any is_error domains) (done false) (missing domains) (done-Keeps false)
            (volumes_missing-Keeps managed _)
