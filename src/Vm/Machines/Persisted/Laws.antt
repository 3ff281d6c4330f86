-- ===== src/Vm/Machines/Persisted/Laws.antt =====
-- What `verify_persisted_vms` has found where it returns True.
use omashiki.Common.{
  ◌≡◌, refl, ap, sym, ◌∙◌, subst, ok_injective, Bool, true, false, ◌⊎◌, inl, inr, ◌&&◌,
  and-eq-true_iff, Option, List, [], ◌∷◌, any, all, if◌then◌else◌, ok,
}
use omashiki.Common.Runs.{◌>>=◌, done, bind-ok}
use omashiki.Common.Text.{Text, txt, text_eq, text_eq_sound}
use omashiki.Vm.Owned.{overlay_path}
use omashiki.Vm.Machines.{
  list_domains, domstate, dumpxml, vol_info, vol_dumpxml, vol_path, Reply, Trace, Run, Snapshot,
  shown, World, query, domain_snapshot, domain_list, expected_domain,
}
use omashiki.Vm.Machines.Laws.{Keeps, bind-Keeps, done-Keeps, if-Keeps, domain_list-Keeps}
use omashiki.Vm.Machines.Listing.{listed_by, domain_list-ok}
use omashiki.Vm.Machines.Persisted.{
  Known, exact_existing, is_valid, verify_one, verify_all, verify_persisted_vms,
}

module _ (w : World) (created : List Text) (initial : Text → Option Known) where
  -- The five answers about a machine
  pub record Answers : Type 0 where
    pub state : Reply
    pub dump : Reply
    pub info : Reply
    pub volume : Reply
    pub path : Reply

  abbrev pub snapshot_of : Answers → Snapshot
  snapshot_of a = record {
    initial_state = shown a.state;
    domain_xml = shown a.dump;
    volume_info = shown a.info;
    volume_xml = shown a.volume;
    volume_path = shown a.path;
  }

  -- The machine is off, is where it belongs, and is the harness's or as it was at the start.
  pub record IsPreserved (name : Text) (a : Answers) : Type 0 where
    pub off : shown a.state ≡ txt "shut off"
    pub kept :
        ((any (text_eq name) created ≡ true) × (expected_domain w name (snapshot_of a) ≡ true))
        ⊎ ((any (text_eq name) created ≡ false)
            × (exact_existing w (snapshot_of a) (initial name) ≡ true))
    pub in_place : shown a.path ≡ overlay_path w.host name w.base_path

  -- From the one trace to the other, virsh has been asked about the machines, and each is preserved.
  abbrev pub AllPreserved : List Text → Trace → Trace → Type 0
  AllPreserved [] t u = u ≡ t
  AllPreserved (name ∷ names) t u =
      (a : Answers) × IsPreserved name a
      × AllPreserved names
          ((vol_path name, a.path)
            ∷ (vol_dumpxml name, a.volume)
            ∷ (vol_info name, a.info)
            ∷ (dumpxml name, a.dump)
            ∷ (domstate name, a.state)
            ∷ t)
          u

  -- The last questions asked for the domains, among which all machines were, and about each machine.
  pub record PreservedNow (names : List Text) (t : Trace) : Type 0 where
    pub before : Trace
    pub listing : Reply
    pub went_well : listing.succeeded ≡ true
    pub listed : all (λ name. any (text_eq name) (listed_by w listing)) names ≡ true
    pub preserved : AllPreserved names ((list_domains, listing) ∷ before) t

  is_valid-IsPreserved :
      (name : Text) (a : Answers)
      → is_valid w (any (text_eq name) created) (initial name) name (snapshot_of a) ≡ true
      → IsPreserved name a
  unfolding is_valid
  is_valid-IsPreserved name a h =
      let made = any (text_eq name) created in
      let fits = expected_domain w name (snapshot_of a) in
      let same = exact_existing w (snapshot_of a) (initial name) in
      let place = text_eq (shown a.path) (overlay_path w.host name w.base_path) in
      let shut = text_eq (shown a.state) (txt "shut off") in
      let (first, there) = (and-eq-true_iff (shut && (if made then fits else same)) place).0 h in
      let (off, kept) = (and-eq-true_iff shut (if made then fits else same)).0 first in
      record {
        off = text_eq_sound (shown a.state) (txt "shut off") off;
        kept = either made kept;
        in_place = text_eq_sound (shown a.path) (overlay_path w.host name w.base_path) there;
      }
    where
      made_or_found : Bool → Type 0
      made_or_found b =
          ((b ≡ true) × (expected_domain w name (snapshot_of a) ≡ true))
          ⊎ ((b ≡ false) × (exact_existing w (snapshot_of a) (initial name) ≡ true))

      either :
          (b : Bool)
          → (if b
              then expected_domain w name (snapshot_of a)
              else exact_existing w (snapshot_of a) (initial name))
            ≡ true
          → made_or_found b
      either true h = inl (refl, h)
      either false h = inr (refl, h)

  abbrev answers_at : Text → Trace → Answers
  answers_at name t =
      let state = w.reply t (domstate name) in
      let t1 : Trace = (domstate name, state) ∷ t in
      let dump = w.reply t1 (dumpxml name) in
      let t2 : Trace = (dumpxml name, dump) ∷ t1 in
      let info = w.reply t2 (vol_info name) in
      let t3 : Trace = (vol_info name, info) ∷ t2 in
      let volume = w.reply t3 (vol_dumpxml name) in
      record {
        state = state;
        dump = dump;
        info = info;
        volume = volume;
        path = w.reply ((vol_dumpxml name, volume) ∷ t3) (vol_path name);
      }

  -- A loop that ends with True had True at each turn.
  verify_all-AllPreserved :
      (domains names : List Text) (valid : Bool) (t : Trace)
      → (verify_all w created initial domains names valid t).1 ≡ ok true
      → (valid ≡ true)
        × (all (λ name. any (text_eq name) domains) names ≡ true)
        × AllPreserved names t (verify_all w created initial domains names valid t).0
  unfolding verify_all verify_one
  verify_all-AllPreserved domains [] valid t h = (ok_injective h, refl, refl)
  verify_all-AllPreserved domains (name ∷ names) valid t h =
      turn (λ v u. verify_all-AllPreserved domains names v u) (any (text_eq name) domains) h
    where
      made : Bool
      made = any (text_eq name) created

      next : Bool → Run Bool
      next v = verify_all w created initial domains names (valid && v)

      found : Run Bool
      found = query w (domstate name) >>= λ state.
          domain_snapshot w name state >>= λ s. done (is_valid w made (initial name) name s)

      turn :
          ((v : Bool) (u : Trace)
            → (verify_all w created initial domains names v u).1 ≡ ok true
            → (v ≡ true)
              × (all (λ n. any (text_eq n) domains) names ≡ true)
              × AllPreserved names u (verify_all w created initial domains names v u).0)
          → (b : Bool) → (((if b then found else done false) >>= next) t).1 ≡ ok true
          → (valid ≡ true)
            × ((b && all (λ n. any (text_eq n) domains) names) ≡ true)
            × AllPreserved (name ∷ names) t (((if b then found else done false) >>= next) t).0
      turn again false h =
          let (both, _, _) = again (valid && false) t h in
          cc ((and-eq-true_iff valid false).0 both).1
      turn again true h =
          let a = answers_at name t in
          let good = is_valid w made (initial name) name (snapshot_of a) in
          let (both, there, rest) =
            again (valid && good)
              ((vol_path name, a.path)
                ∷ (vol_dumpxml name, a.volume)
                ∷ (vol_info name, a.info)
                ∷ (dumpxml name, a.dump)
                ∷ (domstate name, a.state)
                ∷ t)
              h in
          let (was, fits) = (and-eq-true_iff valid good).0 both in
          (was, there, (a, is_valid-IsPreserved name a fits, rest))

  pub verify_persisted_vms-PreservedNow :
      (names : List Text) (t : Trace)
      → (verify_persisted_vms w created initial names t).1 ≡ ok true
      → PreservedNow names (verify_persisted_vms w created initial names t).0
  unfolding verify_persisted_vms
  verify_persisted_vms-PreservedNow names t h =
      let each : List Text → Run Bool =
        λ domains. verify_all w created initial domains names true in
      let (domains, listed, whole) = bind-ok (domain_list w) each t h in
      let u = (domain_list w t).0 in
      let (went_well, same, after) = domain_list-ok w t listed in
      let (_, there, preserved) =
        verify_all-AllPreserved domains names true u (ap (λ x. x.1) (sym whole) ∙ h) in
      record {
        before = t;
        listing = w.reply t list_domains;
        went_well = went_well;
        listed = subst (λ d. all (λ name. any (text_eq name) d) names ≡ true) (sym same) there;
        preserved =
            subst (AllPreserved names ((list_domains, w.reply t list_domains) ∷ t))
              (ap (λ x. x.0) (sym whole))
              (subst (λ x. AllPreserved names x (each domains u).0) after preserved);
      }

  verify_all-Keeps :
      (domains names : List Text) (valid : Bool)
      → Keeps w (verify_all w created initial domains names valid)
  unfolding verify_all verify_one
  verify_all-Keeps domains [] valid = done-Keeps w valid
  verify_all-Keeps domains (name ∷ names) valid =
      bind-Keeps w (verify_one w created initial domains name)
        (λ v. verify_all w created initial domains names (valid && v))
        (if-Keeps w (any (text_eq name) domains) _ (done false)
          (λ t j. (tt, (tt, (tt, (tt, (tt, j)))))) (done-Keeps w false))
        λ v. verify_all-Keeps domains names (valid && v)

  -- `verify_persisted_vms` only asks.
  pub verify_persisted_vms-Keeps :
      (names : List Text) → Keeps w (verify_persisted_vms w created initial names)
  unfolding verify_persisted_vms
  verify_persisted_vms-Keeps names =
      bind-Keeps w (domain_list w) (λ domains. verify_all w created initial domains names true)
        (domain_list-Keeps w) λ domains. verify_all-Keeps domains names true
