-- ===== src/Vm/Prepare/Staging/Laws.antt =====
-- The removal of the builder acts on the builder's own domain and volume.
use omashiki.Common.{◌≡◌, refl, Bool, true, false, not, ◌||◌, ◌⊎◌, inl, inr, [], ◌∷◌, ◌++◌, any}
use omashiki.Common.Text.{Text, txt, text_eq, starts_with, is_empty}
use omashiki.Common.Runs.{
  ◌>>=◌, done, demand, bind-Triple, done-Triple, demand-Triple, weaken-Triple, if-Triple,
}
use omashiki.Vm.Prepare.{
  Trace, domains, domain_xml, domain_state, vol_xml, destroy, undefine, vol_delete, World, Failure,
  blocked, ask, query, command,
}
use omashiki.Vm.Prepare.Staging.{
  is_there, domain_owned, staging_volume_owned, domain_text, check_domain, check_volume, is_running,
  stop_builder, remove_domain, remove_builder, delete_volume, remove_staging, test_staging,
  inspect_staging, cleanup_owned_staging,
}
use omashiki.Vm.Prepare.Orderly.{
  Heard, IsOrderly, Sure, ask-Sure, IsBuilder, BuilderSeen, VolumeSeen,
}
use omashiki.Vm.Prepare.Rules.{
  Stable, Stable-pair, Stable-const, Stable-if, Heard-Stable, query-Sure, act-Sure,
}
use omashiki.Vm.Prepare.Staging.Seen.{IsBuilder-Stable, VolumeSeen-Stable}
use omashiki.Vm.Prepare.Staging.Owned.{root_owned-Sure, staging_volume_owned-Sure}

module _ (w : World) where
  domain_text-Sure :
      {P : Trace → Type 0} (listed : Bool)
      → Stable P
      → Sure w P (domain_text w listed) (λ xml t. P t × (listed ≡ true → Heard domain_xml xml t))
  unfolding domain_text
  domain_text-Sure {P} true p =
      weaken-Triple (IsOrderly w) (query w domain_xml) (λ t h. h) (λ xml t h. (h.0, λ _. h.1))
        (query-Sure w domain_xml refl (λ t. tt) p)
  domain_text-Sure {P} false p = done-Triple (IsOrderly w) [] λ t h. (h, λ e. cc e)

  check_domain-Sure :
      {P : Trace → Type 0} (xml : Text)
      → Stable P
      → Sure w P (check_domain w xml) (λ _ t. P t × ((xml ≡ []) ⊎ IsBuilder w xml t))
  unfolding check_domain domain_owned
  check_domain-Sure [] p = done-Triple (IsOrderly w) tt λ t h. (h, inl refl)
  check_domain-Sure (c ∷ cs) p =
      let refuse = λ (owned : Bool).
        demand owned (blocked (txt "refusing to remove unowned preparation domain " ++ w.name)) in
      bind-Triple (IsOrderly w) (domain_owned w (c ∷ cs)) refuse
        (root_owned-Sure w (c ∷ cs) (w.fromstring (c ∷ cs)) p refl)
        λ owned.
          weaken-Triple (IsOrderly w) (refuse owned) (λ t h. h) (λ _ t h. (h.0.0, inr (h.0.1 h.1)))
            (demand-Triple (IsOrderly w) owned _)

  check_volume-Sure :
      {P : Trace → Type 0} (exists : Bool) (xml : Text)
      → Stable P
      → ((t : Trace) → P t → Heard (vol_xml w.volume) xml t)
      → Sure w P
          (check_volume w exists xml)
          (λ _ t. P t × (exists ≡ true → VolumeSeen w w.volume t))
  unfolding check_volume
  check_volume-Sure false xml p known = done-Triple (IsOrderly w) tt λ t h. (h, λ e. cc e)
  check_volume-Sure true xml p known =
      let refuse = λ (owned : Bool).
        demand owned (blocked (txt "refusing to remove unowned preparation volume " ++ w.volume)) in
      bind-Triple (IsOrderly w) (staging_volume_owned w xml) refuse
        (staging_volume_owned-Sure w xml p known)
        λ owned.
          weaken-Triple (IsOrderly w) (refuse owned) (λ t h. h) (λ _ t h. (h.0.0, λ _. h.0.1 h.1))
            (demand-Triple (IsOrderly w) owned _)

  stop_builder-Sure :
      {P : Trace → Type 0} (state : Text)
      → Stable P
      → ((t : Trace) → P t → BuilderSeen w t)
      → Sure w P (stop_builder w state) (λ _. P)
  unfolding stop_builder
  stop_builder-Sure {P} state p seen =
      if-Triple (IsOrderly w) (text_eq state (txt "shut off")) (done tt)
        (ask w destroy >>= λ _. done tt) (done-Triple (IsOrderly w) tt λ t h. h.0)
        (bind-Triple (IsOrderly w) (ask w destroy) (λ _. done tt)
          (ask-Sure w {Q = λ _. P} destroy (λ t h. seen t h.0)
            λ t h. p destroy (w.reply t destroy) t refl h.0)
          λ r. done-Triple (IsOrderly w) tt λ t h. h)

  remove_domain-Sure :
      {P : Trace → Type 0} (state : Text)
      → Stable P
      → ((t : Trace) → P t → BuilderSeen w t)
      → Sure w P (remove_domain w state) (λ _. P)
  unfolding remove_domain
  remove_domain-Sure {P} state p seen =
      let rest = stop_builder w state >>= λ _. command w undefine in
      bind-Triple (IsOrderly w) (demand (is_running state) _) (λ _. rest)
        (demand-Triple (IsOrderly w) (is_running state) _)
        λ _.
          bind-Triple (IsOrderly w) (stop_builder w state) (λ _. command w undefine)
            (stop_builder-Sure state (Stable-pair p Stable-const) λ t h. seen t h.0)
            λ _.
              weaken-Triple (IsOrderly w) (command w undefine) (λ t h. h) (λ _ t h. h.0)
                (act-Sure w {Q = P} undefine _ (λ t h. seen t h.0) λ r t h. p undefine r t refl h.0)

  remove_builder-Sure :
      {P : Trace → Type 0} (listed : Bool)
      → Stable P
      → ((t : Trace) → P t → listed ≡ true → BuilderSeen w t)
      → Sure w P (remove_builder w listed) (λ _. P)
  unfolding remove_builder
  remove_builder-Sure false p seen = done-Triple (IsOrderly w) tt λ t h. h
  remove_builder-Sure {P} true p seen =
      bind-Triple (IsOrderly w) (query w domain_state) (remove_domain w)
        (query-Sure w domain_state refl (λ t. tt) p)
        λ state.
          weaken-Triple (IsOrderly w) (remove_domain w state) (λ t h. h) (λ _ t h. h.0)
            (remove_domain-Sure state (Stable-pair p (Heard-Stable domain_state state))
              λ t h. seen t h.0 refl)

  delete_volume-Sure :
      {P : Trace → Type 0} (exists : Bool)
      → ((t : Trace) → P t → exists ≡ true → VolumeSeen w w.volume t)
      → Sure w P (delete_volume w exists) (λ _ t. Unit {0})
  unfolding delete_volume
  delete_volume-Sure false seen = done-Triple (IsOrderly w) tt λ t h. tt
  delete_volume-Sure true seen =
      weaken-Triple (IsOrderly w) (command w (vol_delete w.volume)) (λ t h. h) (λ _ t h. h.0)
        (act-Sure w {Q = λ t. Unit {0}} (vol_delete w.volume) _ (λ t h. seen t h refl) λ r t h. tt)

  -- What is known when the removal begins
  record Tested (listed exists : Bool) (xml : Text) (t : Trace) : Type 0 where
    heard : listed ≡ true → Heard domain_xml xml t
    ours : (xml ≡ []) ⊎ IsBuilder w xml t
    volume : exists ≡ true → VolumeSeen w w.volume t

  remove_staging-Sure :
      {P : Trace → Type 0} (listed exists : Bool) (xml : Text)
      → ((t : Trace) → P t → Tested listed exists xml t)
      → Sure w P (remove_staging w listed exists) (λ _ t. Unit {0})
  unfolding remove_staging
  remove_staging-Sure {P} listed exists xml tested =
      weaken-Triple (IsOrderly w) (remove_staging w listed exists) tested (λ _ t h. h)
        (bind-Triple (IsOrderly w) (remove_builder w listed) (λ _. delete_volume w exists)
          (remove_builder-Sure listed stable
            λ t h e. record { xml = xml; heard = h.heard e; is_ours = h.ours })
          λ _. delete_volume-Sure exists λ t h. h.volume)
    where
      stable : Stable (Tested listed exists xml)
      stable e r t c h = record {
        heard = λ l. Heard-Stable domain_xml xml e r t c (h.heard l);
        ours = elim h.ours [
          | inl empty ↦ inl empty
          | inr ours ↦ inr (IsBuilder-Stable w xml e r t c ours)
        ];
        volume = λ l. VolumeSeen-Stable w w.volume e r t c (h.volume l);
      }

  test_staging-Sure :
      {P : Trace → Type 0} (listed : Bool) (xml volume_xml : Text)
      → Stable P
      → ((t : Trace) → P t → listed ≡ true → Heard domain_xml xml t)
      → ((t : Trace) → P t → Heard (vol_xml w.volume) volume_xml t)
      → Sure w P (test_staging w listed xml volume_xml) (λ _ t. Unit {0})
  unfolding test_staging
  test_staging-Sure {P} listed xml volume_xml p dump volume =
      let exists = is_there w volume_xml in
      bind-Triple (IsOrderly w) (demand (is_empty xml || exists) _)
        (λ _. check_domain w xml >>= λ _.
          check_volume w exists volume_xml >>= λ _. remove_staging w listed exists)
        (demand-Triple (IsOrderly w) (is_empty xml || exists) _)
        λ _.
          bind-Triple (IsOrderly w) (check_domain w xml)
            (λ _. check_volume w exists volume_xml >>= λ _. remove_staging w listed exists)
            (check_domain-Sure xml (Stable-pair p Stable-const))
            λ _.
              bind-Triple (IsOrderly w) (check_volume w exists volume_xml)
                (λ _. remove_staging w listed exists)
                (check_volume-Sure exists volume_xml
                  (λ e r t c h. (
                    Stable-pair p Stable-const e r t c h.0,
                    elim h.1 [
                      | inl empty ↦ inl empty
                      | inr ours ↦ inr (IsBuilder-Stable w xml e r t c ours)
                    ],
                  ))
                  λ t h. volume t h.0.0)
                λ _.
                  remove_staging-Sure listed exists xml
                    λ t ((h, ours), seen). record { heard = dump t h.0; ours = ours; volume = seen }

  -- `cleanup_owned_staging` makes only changes that are allowed.
  pub cleanup_owned_staging-Sure :
      {P : Trace → Type 0} → Sure w P (cleanup_owned_staging w) (λ _ t. Unit {0})
  unfolding cleanup_owned_staging inspect_staging
  cleanup_owned_staging-Sure {P} =
      weaken-Triple (IsOrderly w) (cleanup_owned_staging w) (λ t h. tt) (λ _ t h. h)
        (bind-Triple (IsOrderly w) (query w domains)
          (λ listing.
            demand (no_error listing) unlisted >>= λ _. inspect_staging w (is_listed listing))
          (query-Sure w domains refl (λ t. tt) (Stable-const {A = Unit {0}}))
          λ listing.
            bind-Triple (IsOrderly w) (demand (no_error listing) unlisted)
              (λ _. inspect_staging w (is_listed listing))
              (demand-Triple (IsOrderly w) (no_error listing) _)
              λ _.
                weaken-Triple (IsOrderly w) (inspect_staging w (is_listed listing)) (λ t h. tt)
                  (λ _ t h. h) (inspect (is_listed listing)))
    where
      unlisted : Failure
      unlisted = blocked (txt "could not list libvirt domains during preparation cleanup")

      no_error : Text → Bool
      no_error listing = not (any (starts_with (txt "error:")) (w.splitlines listing))

      is_listed : Text → Bool
      is_listed listing = any (text_eq w.name) (w.splitlines listing)

      inspect :
          (listed : Bool) → Sure w (λ _. Unit {0}) (inspect_staging w listed) (λ _ t. Unit {0})
      inspect listed =
          bind-Triple (IsOrderly w) (domain_text w listed)
            (λ xml. query w (vol_xml w.volume) >>= test_staging w listed xml)
            (domain_text-Sure listed (Stable-const {A = Unit {0}}))
            λ xml.
              bind-Triple (IsOrderly w) (query w (vol_xml w.volume)) (test_staging w listed xml)
                (query-Sure w (vol_xml w.volume) refl (λ t. tt)
                  (Stable-pair (Stable-const {A = Unit {0}})
                    (Stable-if (Heard-Stable domain_xml xml))))
                λ volume_xml.
                  test_staging-Sure listed xml volume_xml
                    (Stable-pair
                      (Stable-pair (Stable-const {A = Unit {0}})
                        (Stable-if (Heard-Stable domain_xml xml)))
                      (Heard-Stable (vol_xml w.volume) volume_xml))
                    (λ t h. h.0.1) (λ t h. h.1)
