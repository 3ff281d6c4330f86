-- ===== src/Vm/Prepare/Publish/Laws.antt =====
-- The publication is covered by its journal, and so is what is removed when one has been broken off.
use mathlib.Core.List.{Memᴰ}
use omashiki.Common.{
  ◌≡◌, refl, ap, sym, subst, ok_injective, ◌∙◌, true, false, ◌⊎◌, inl, inr, Option, none, some, ◌∷◌,
}
use native.Mathlib.Omega.{arith}
use omashiki.Common.Text.{Text, txt}
use omashiki.Common.Runs.{
  ◌>>=◌, done, demand, bind-Triple, done-Triple, demand-Triple, weaken-Triple, if-Triple,
}
use omashiki.Vm.Xml.{Element}
use omashiki.Vm.Prepared.{Metadata}
use omashiki.Vm.Prepare.{
  Event, Reply, Trace, vol_xml, vol_info, vol_delete, unlink_pending, unlink_image, World, Act,
  blocked, os_error, query, checked, act, command, look, is_safe, volume_root, expected_pool_path,
}
use omashiki.Vm.Prepare.Staging.{is_there, is_overlay}
use omashiki.Vm.Prepare.Publish.{
  is_pending_volume, remove_pending_volume, remove_pending_image, clear_volume, clear_image,
  roll_back,
}
use omashiki.Vm.Prepare.Staging.Owned.{volume_root-Sure}
use omashiki.Vm.Prepare.Orderly.{recent, Heard, IsOrderly, Sure, RolledBack, Named, Named-next}
use omashiki.Vm.Prepare.Rules.{
  Stable, Stable-pair, Stable-const, Heard-Stable, query-Sure, checked-Sure, act-Sure,
  expected_pool_path-Sure,
}

-- What stays known whatever comes
abbrev Kept : (Trace → Type 0) → Type 0
Kept P = (e : Event) (r : Reply) (t : Trace) → P t → P ((e, r) ∷ t)

module _ (w : World) where
  pub look-Sure :
      {A : Type 0} {P : Trace → Type 0} (f : Trace → A)
      → Sure w P (look w f) (λ a t. P t × (f t ≡ a))
  look-Sure f = record { at = λ t i p. (i, λ a e. (p, ok_injective e)) }

  -- The volume of a broken publication is gone.
  VolumeGone : Text → Trace → Type 0
  VolumeGone volume t =
      ((info : Text) × Heard (vol_info volume) info t × (is_there w info ≡ false))
      ⊎ ((r : Reply) × Memᴰ (vol_delete volume, r) (recent t) × (r.succeeded ≡ true))

  VolumeGone-Stable : (volume : Text) → Stable (VolumeGone volume)
  unfolding VolumeGone
  VolumeGone-Stable volume e r t c (inl (info, heard, gone)) =
      inl (info, Heard-Stable (vol_info volume) info e r t c heard, gone)
  VolumeGone-Stable volume e r t c (inr (q, there, went_well)) =
      inr (q, rw c (Memᴰ.tail there), went_well)

  remove_pending_volume-Sure :
      {P : Trace → Type 0} (volume : Text)
      → Kept P
      → Sure w P (remove_pending_volume w volume) (λ _ t. P t × VolumeGone volume t)
  unfolding remove_pending_volume VolumeGone is_pending_volume is_overlay
  remove_pending_volume-Sure {P} volume kept =
      let refuse = blocked (txt "refusing to remove an unsafe pending libvirt volume") in
      let last : Element → Text → Act (Unit {0}) = λ root path.
        demand (is_pending_volume root path) refuse >>= λ _. command w (vol_delete volume) in
      let middle : Text → Element → Act (Unit {0}) =
        λ xml root. expected_pool_path w volume >>= last root in
      bind-Triple (IsOrderly w) (checked w (vol_xml volume))
        (λ xml. volume_root w xml volume >>= middle xml)
        (checked-Sure w (vol_xml volume) refl (λ t. tt) (λ e r t c h. kept e r t h))
        λ xml.
          bind-Triple (IsOrderly w) (volume_root w xml volume) (middle xml)
            (volume_root-Sure w xml volume)
            λ root.
              bind-Triple (IsOrderly w) (expected_pool_path w volume) (last root)
                (expected_pool_path-Sure w volume (
                  Stable-pair
                    (Stable-pair (λ e r t c h. kept e r t h) (Heard-Stable (vol_xml volume) xml))
                    Stable-const))
                λ path.
                  bind-Triple (IsOrderly w) (demand (is_pending_volume root path) refuse)
                    (λ _. command w (vol_delete volume))
                    (demand-Triple (IsOrderly w) (is_pending_volume root path) refuse)
                    λ _.
                      weaken-Triple (IsOrderly w) (command w (vol_delete volume)) (λ t h. h)
                        (λ _ t h.
                          let did = h.1 in
                          (
                            h.0,
                            inr (
                              did.reply,
                              subst (λ u. Memᴰ (vol_delete volume, did.reply) (recent u))
                                  (sym did.last) (Memᴰ.head refl),
                              did.went_well,
                            ),
                          ))
                        (act-Sure w {Q = P} (vol_delete volume) _
                          (λ t ((((_, heard), parsed), (base, base_heard, same)), fits).
                            let there : is_pending_volume root (w.beside base volume) ≡ true =
                              ap (is_pending_volume root) (sym same) ∙ fits in
                            record {
                              xml = xml;
                              root = root;
                              base = base;
                              heard = heard;
                              parsed = parsed;
                              base_heard = base_heard;
                              on_path = on_path root (w.beside base volume) there;
                              is_ours = inl there;
                            })
                          λ r t h. kept (vol_delete volume) r t h.0.0.0.0)
    where
      on_path :
          (root : Element) (path : Text)
          → is_pending_volume root path ≡ true
          → is_overlay w root path ≡ true
      on_path root path h = ground (arith, h)

  clear_volume-Sure :
      {P : Trace → Type 0} (volume info : Text)
      → Kept P
      → Sure w
          (λ t. P t × Heard (vol_info volume) info t)
          (clear_volume w volume info)
          (λ _ t. P t × VolumeGone volume t)
  unfolding clear_volume VolumeGone
  clear_volume-Sure {P} volume info kept =
      if-Triple (IsOrderly w) (is_there w info) (remove_pending_volume w volume) (done tt)
        (weaken-Triple (IsOrderly w) (remove_pending_volume w volume) (λ t h. h.0.0) (λ _ t h. h)
          (remove_pending_volume-Sure {P = P} volume kept))
        (done-Triple (IsOrderly w) tt λ t ((h, heard), gone). (h, inl (info, heard, gone)))

  clear_image-Sure :
      (path volume : Text)
      → Sure w
          (λ t. Named w path volume t × VolumeGone volume t)
          (clear_image w path)
          (λ _ t. Unit {0})
  unfolding clear_image remove_pending_image VolumeGone
  clear_image-Sure path volume =
      bind-Triple (IsOrderly w) (look w (λ t. w.lstat t path))
        (λ found. remove_pending_image w path found >>= λ _. act w unlink_pending os_error)
        (look-Sure (λ t. w.lstat t path)) after
    where
      last :
          {P : Trace → Type 0}
          → ((t : Trace) → P t → RolledBack w t)
          → Sure w P (act w unlink_pending os_error) (λ _ t. Unit {0})
      last rolled =
          weaken-Triple (IsOrderly w) (act w unlink_pending os_error) (λ t h. h) (λ _ t h. tt)
            (act-Sure w {Q = λ t. Unit {0}} unlink_pending os_error (λ t h. inr (rolled t h))
              λ r t h. tt)

      after :
          (found : Option Metadata)
          → Sure w
              (λ t. (Named w path volume t × VolumeGone volume t) × (w.lstat t path ≡ found))
              (remove_pending_image w path found >>= λ _. act w unlink_pending os_error)
              (λ _ t. Unit {0})
      after none =
          bind-Triple (IsOrderly w) (done tt) (λ _. act w unlink_pending os_error)
            (done-Triple (IsOrderly w)
              {Q = λ _ t. (Named w path volume t × VolumeGone volume t) × (w.lstat t path ≡ none)}
              tt λ t h. h)
            λ _. last λ t h. record {
              path = path;
              volume = volume;
              named = h.0.0;
              image_gone = inl h.1;
              volume_gone = h.0.1;
            }
      after (some m) =
          let refuse = blocked (txt "refusing to remove an unsafe pending host image") in
          let unlink = act w (unlink_image path) os_error in
          bind-Triple (IsOrderly w) (demand (is_safe w m) refuse >>= λ _. unlink)
            (λ _. act w unlink_pending os_error)
            (bind-Triple (IsOrderly w) (demand (is_safe w m) refuse) (λ _. unlink)
              (demand-Triple (IsOrderly w) (is_safe w m) refuse)
              λ _.
                act-Sure w {Q = λ t. Named w path volume t × VolumeGone volume t}
                  (unlink_image path) os_error (λ t h. tt)
                  λ r t h. (
                    Named-next w path volume (unlink_image path) r t h.0.0.0,
                    VolumeGone-Stable volume (unlink_image path) r t refl h.0.0.1,
                  ))
            λ _. last λ t ((named, gone), did). record {
              path = path;
              volume = volume;
              named = named;
              image_gone = inr (did.reply, did.before, did.last, did.went_well);
              volume_gone = gone;
            }

  pub roll_back-Sure :
      (paths : Text × Text) → Sure w (Named w paths.0 paths.1) (roll_back w paths) (λ _ t. Unit {0})
  unfolding roll_back
  roll_back-Sure (path, volume) =
      let kept : Kept (Named w path volume) = Named-next w path volume in
      bind-Triple (IsOrderly w) (query w (vol_info volume))
        (λ info. clear_volume w volume info >>= λ _. clear_image w path)
        (query-Sure w (vol_info volume) refl (λ t. tt) (λ e r t c h. kept e r t h))
        λ info.
          bind-Triple (IsOrderly w) (clear_volume w volume info) (λ _. clear_image w path)
            (clear_volume-Sure {P = Named w path volume} volume info kept)
            λ _. clear_image-Sure path volume
