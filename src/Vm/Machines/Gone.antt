-- ===== src/Vm/Machines/Gone.antt =====
-- What `remove_owned_vms` has found where it returns True.
use omashiki.Common.{
  ◌≡◌, refl, ap, sym, ◌∙◌, subst, ok_injective, Bool, true, false, not, ◌&&◌, and-eq-true_iff, List,
  [], ◌∷◌, any, all, if◌then◌else◌, ok,
}
use omashiki.Common.Runs.{◌>>=◌, done, bind-ok}
use omashiki.Common.Text.{Text, text_eq}
use omashiki.Vm.Machines.{
  list_domains, vol_dumpxml, Reply, Trace, Run, shown, is_error, World, domain_list,
  volume_query_is_missing, remove_all, volumes_missing, remove_owned_vms,
}
use omashiki.Vm.Machines.Listing.{if-ok, listed_by, domain_list-ok}

module _ (w : World) where
  -- From the one trace to the other, virsh has been asked for the volumes, and each is missing.
  abbrev pub VolumesGone : List Text → Trace → Trace → Type 0
  VolumesGone [] t u = u ≡ t
  VolumesGone (name ∷ names) t u =
      (r : Reply) × (volume_query_is_missing w (shown r) ≡ true)
      × VolumesGone names ((vol_dumpxml name, r) ∷ t) u

  -- The last questions asked for the domains, none of which is one of the machines, and for the volumes.
  pub record GoneNow (managed : List Text) (t : Trace) : Type 0 where
    pub before : Trace
    pub listing : Reply
    pub went_well : listing.succeeded ≡ true
    pub unlisted : all (λ name. not (any (text_eq name) (listed_by w listing))) managed ≡ true
    pub missing : VolumesGone managed ((list_domains, listing) ∷ before) t

  volumes_missing-VolumesGone :
      (names : List Text) (absent : Bool) (t : Trace)
      → (volumes_missing w names absent t).1 ≡ ok true
      → (absent ≡ true) × VolumesGone names t (volumes_missing w names absent t).0
  unfolding volumes_missing
  volumes_missing-VolumesGone [] absent t h = (ok_injective h, refl)
  volumes_missing-VolumesGone (name ∷ names) absent t h =
      let r = w.reply t (vol_dumpxml name) in
      let gone = volume_query_is_missing w (shown r) in
      let (both, rest) =
        volumes_missing-VolumesGone names (gone && absent) ((vol_dumpxml name, r) ∷ t) h in
      let (missing, was) = (and-eq-true_iff gone absent).0 both in (was, (r, missing, rest))

  -- Where `remove_owned_vms` returns True, it has just asked for the domains, none of which was one of the
  -- machines, and for the volume of each machine, and each was missing.
  pub remove_owned_vms-GoneNow :
      (managed : List Text) (t : Trace)
      → (remove_owned_vms w managed t).1 ≡ ok true
      → GoneNow managed (remove_owned_vms w managed t).0
  unfolding remove_owned_vms
  remove_owned_vms-GoneNow managed t h =
      let (_, _, whole) = bind-ok (remove_all w managed) (λ _. list_again) t h in
      subst (GoneNow managed) (ap (λ x. x.0) (sym whole))
        (listed (remove_all w managed t).0 (ap (λ x. x.1) (sym whole) ∙ h))
    where
      unlisted : List Text → Bool
      unlisted domains = all (λ name. not (any (text_eq name) domains)) managed

      last : List Text → Run Bool
      last domains =
          if any is_error domains then done false else volumes_missing w managed (unlisted domains)

      list_again : Run Bool
      list_again = domain_list w >>= last

      listed : (u : Trace) → (list_again u).1 ≡ ok true → GoneNow managed (list_again u).0
      listed u e =
          let (domains, found, whole) = bind-ok (domain_list w) last u e in
          let v = (domain_list w u).0 in
          let e1 = ap (λ x. x.1) (sym whole) ∙ e in
          let (went_well, same, after) = domain_list-ok w u found in
          let missing = volumes_missing w managed (unlisted domains) in
          let (_, whole1) = if-ok (any is_error domains) (done false) missing v (λ x. cc x) e1 in
          let (absent, gone) =
            volumes_missing-VolumesGone managed (unlisted domains) v
              (ap (λ x. x.1) (sym whole1) ∙ e1) in
          record {
            before = u;
            listing = w.reply u list_domains;
            went_well = went_well;
            unlisted = ap unlisted same ∙ absent;
            missing =
                subst (VolumesGone managed ((list_domains, w.reply u list_domains) ∷ u))
                  (ap (λ x. x.0) (sym (whole ∙ whole1)))
                  (subst (λ x. VolumesGone managed x (missing v).0) after gone);
          }
