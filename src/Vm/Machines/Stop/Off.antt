-- ===== src/Vm/Machines/Stop/Off.antt =====
-- The question whether the machines are off.
use omashiki.Common.{
  ◌≡◌, refl, ap, sym, ◌∙◌, subst, ok_injective, Bool, true, and-eq-true_iff, Option, none, some,
  List, [], ◌∷◌, any, all, filter_list, if◌then◌else◌, Result, ok,
}
use omashiki.Common.Runs.{◌>>=◌, done, bind-ok}
use omashiki.Common.Text.{Text, txt, text_eq, text_eq_sound}
use omashiki.Vm.Machines.{
  list_domains, domstate, Reply, Trace, Run, shown, is_error, World, domain_list,
}
use omashiki.Vm.Machines.Stop.{states_of, all_off}
use omashiki.Vm.Machines.Listing.{if-ok, listed_by, domain_list-ok}

module _ (w : World) where
  -- From the one trace to the other, virsh has been asked for the states, and each is "shut off".
  abbrev pub StatesOff : List Text → Trace → Trace → Type 0
  StatesOff [] t u = u ≡ t
  StatesOff (name ∷ names) t u =
      (r : Reply) × (shown r ≡ txt "shut off") × StatesOff names ((domstate name, r) ∷ t) u

  -- The last questions asked for the domains, and for the state of those machines that are listed.
  pub record OffNow (managed : List Text) (t : Trace) : Type 0 where
    pub before : Trace
    pub listing : Reply
    pub went_well : listing.succeeded ≡ true
    pub off :
        StatesOff
          (filter_list (λ name. any (text_eq name) (listed_by w listing)) managed)
          ((list_domains, listing) ∷ before)
          t

  states_of-StatesOff :
      (names : List Text) (t : Trace) (states : List Text)
      → (states_of w names t).1 ≡ ok states
      → all (λ s. text_eq s (txt "shut off")) states ≡ true
      → StatesOff names t (states_of w names t).0
  unfolding states_of
  states_of-StatesOff [] t states h off = refl
  states_of-StatesOff (name ∷ names) t states h off =
      let r = w.reply t (domstate name) in
      let u : Trace = (domstate name, r) ∷ t in
      let keep : List Text → Run (List Text) = λ rest. done (shown r ∷ rest) in
      let (rest, found, whole) = bind-ok (states_of w names) keep u h in
      let same : shown r ∷ rest ≡ states = ok_injective (ap (λ x. x.1) (sym whole) ∙ h) in
      let all_of = subst (λ l. all (λ s. text_eq s (txt "shut off")) l ≡ true) (sym same) off in
      let (here, there) = (and-eq-true_iff (text_eq (shown r) (txt "shut off")) _).0 all_of in
      (
        r,
        text_eq_sound (shown r) (txt "shut off") here,
        subst (StatesOff names u) (ap (λ x. x.0) (sym whole))
            (states_of-StatesOff names u rest found there),
      )

  abbrev listed_of : List Text → List Text → List Text
  listed_of domains managed = filter_list (λ name. any (text_eq name) domains) managed

  -- What `all_off` does after it has the domains, and then the states
  abbrev read : List Text → Run (Option Bool)
  read states =
      if any is_error states
      then done none
      else done (some (all (λ s. text_eq s (txt "shut off")) states))

  abbrev ask_states : List Text → List Text → Run (Option Bool)
  ask_states managed domains = states_of w (listed_of domains managed) >>= read

  read-some-true :
      (states : List Text) (t : Trace)
      → (read states t).1 ≡ ok (some true)
      → (all (λ s. text_eq s (txt "shut off")) states ≡ true) × ((read states t).0 ≡ t)
  read-some-true states t h =
      let off = done (some (all (λ s. text_eq s (txt "shut off")) states)) in
      let (_, whole) = if-ok (any is_error states) (done none) off t (λ e. cc e) h in
      (value (ap (λ x. x.1) (sym whole) ∙ h), ap (λ x. x.0) whole)
    where
      value :
          {b : Bool} → ◌≡◌ {A = Result Text (Option Bool)} (ok (some b)) (ok (some true)) → b ≡ true
      value e = cc e

  ask_states-StatesOff :
      (managed domains : List Text) (t : Trace)
      → (ask_states managed domains t).1 ≡ ok (some true)
      → StatesOff (listed_of domains managed) t (ask_states managed domains t).0
  ask_states-StatesOff managed domains t h =
      let names = listed_of domains managed in
      let (states, found, whole) = bind-ok (states_of w names) read t h in
      let v = (states_of w names t).0 in
      let (off, same) = read-some-true states v (ap (λ x. x.1) (sym whole) ∙ h) in
      subst (StatesOff names t) (sym (ap (λ x. x.0) whole ∙ same))
        (states_of-StatesOff names t states found off)

  pub all_off-OffNow :
      (managed : List Text) (t : Trace)
      → (all_off w managed t).1 ≡ ok (some true)
      → OffNow managed (all_off w managed t).0
  unfolding all_off
  all_off-OffNow managed t h =
      let go : List Text → Run (Option Bool) =
        λ domains. if any is_error domains then done none else ask_states managed domains in
      let (domains, listed, whole) = bind-ok (domain_list w) go t h in
      let (went_well, same, after) = domain_list-ok w t listed in
      let u = (domain_list w t).0 in
      let h1 = ap (λ x. x.1) (sym whole) ∙ h in
      let (_, whole1) =
        if-ok (any is_error domains) (done none) (ask_states managed domains) u (λ e. cc e) h1 in
      let off = ask_states-StatesOff managed domains u (ap (λ x. x.1) (sym whole1) ∙ h1) in
      let v = (ask_states managed domains u).0 in
      let first : Trace = (list_domains, w.reply t list_domains) ∷ t in
      record {
        before = t;
        listing = w.reply t list_domains;
        went_well = went_well;
        off =
            subst (StatesOff (listed_of (listed_by w (w.reply t list_domains)) managed) first)
              (ap (λ x. x.0) (sym (whole ∙ whole1)))
              (subst (λ d. StatesOff (listed_of d managed) first v) (sym same)
                (subst (λ x. StatesOff (listed_of domains managed) x v) after off));
      }
