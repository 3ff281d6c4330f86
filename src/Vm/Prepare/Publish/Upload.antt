-- ===== src/Vm/Prepare/Publish/Upload.antt =====
-- A publication fills the volume under its journal.
use omashiki.Common.{◌≡◌, refl, Bool, true, ◌&&◌, some, [], ◌∷◌}
use omashiki.Common.Text.{Text, txt}
use omashiki.Common.Runs.{◌>>=◌, demand, bind-Triple, demand-Triple, weaken-Triple}
use omashiki.Vm.Xml.{Element, find_text}
use omashiki.Vm.Prepared.{Metadata}
use omashiki.Vm.Prepare.{
  Event, Reply, Trace, vol_xml, vol_path, vol_create, vol_upload, write_pending, unlink_pending,
  place_image, stage, describe_base, World, Failure, blocked, os_error, checked, act, command,
  volume_root,
}
use omashiki.Vm.Prepare.Publish.{is_number, upload}
use omashiki.Vm.Prepare.Staging.Owned.{volume_root-Sure}
use omashiki.Vm.Prepare.Orderly.{Extends, Extends-next, Allowed, is_pending, IsOrderly, Sure}
use omashiki.Vm.Prepare.Rules.{Stable, Stable-pair, checked-Sure, act-Sure}

is_pending-Stable : Stable (λ t. is_pending t ≡ true)
is_pending-Stable unlink_pending r t c h = cc c
is_pending-Stable (write_pending f) r t c h = refl
is_pending-Stable _ r t c h = h

module _ (w : World) where
  -- What is known of the image from when it has been put in its place
  pub record Placed (sha256 : Text) (image : Metadata) (t : Trace) : Type 0 where
    pub placed : Trace
    pub reply : Reply
    pub later : Extends ((place_image, reply) ∷ placed) t
    pub digest : w.sha256_file ((place_image, reply) ∷ placed) w.host_path ≡ some sha256
    pub found : w.stat ((place_image, reply) ∷ placed) w.host_path ≡ some image

  pub Placed-next :
      (sha256 : Text) (image : Metadata) (e : Event) (r : Reply) (t : Trace)
      → Placed sha256 image t
      → Placed sha256 image ((e, r) ∷ t)
  Placed-next sha256 image e r t h = record {
    placed = h.placed;
    reply = h.reply;
    later = Extends-next e r t h.later;
    digest = h.digest;
    found = h.found;
  }

  -- A change under the journal
  pub journalled-Sure :
      {C : Trace → Type 0} (e : Event) (failure : Failure)
      → ((f : Event) (r : Reply) (t : Trace) → C t → C ((f, r) ∷ t))
      → ((t : Trace) → is_pending t ≡ true → Allowed w e t)
      → ((r : Reply) (t : Trace) → is_pending t ≡ true → is_pending ((e, r) ∷ t) ≡ true)
      → Sure w
          (λ t. (is_pending t ≡ true) × C t)
          (act w e failure)
          (λ _ t. (is_pending t ≡ true) × C t)
  journalled-Sure {C} e failure kept a k =
      weaken-Triple (IsOrderly w) (act w e failure) (λ t h. h) (λ _ t h. h.0)
        (act-Sure w {Q = λ t. (is_pending t ≡ true) × C t} e failure (λ t h. a t h.0)
          λ r t h. (k r t h.0, kept e r t h.1))

  pub upload-Sure :
      {C : Trace → Type 0}
      → ((f : Event) (r : Reply) (t : Trace) → C t → C ((f, r) ∷ t))
      → Sure w (λ t. (is_pending t ≡ true) × C t) (upload w) (λ _ t. (is_pending t ≡ true) × C t)
  unfolding upload
  upload-Sure {C} kept =
      let stable : Stable (λ t. (is_pending t ≡ true) × C t) =
        Stable-pair is_pending-Stable (λ e r t c h. kept e r t h) in
      let numeric : Element → Bool = λ root.
        is_number w (find_text (txt "target" ∷ txt "permissions" ∷ txt "owner" ∷ []) root)
        && is_number w (find_text (txt "target" ∷ txt "permissions" ∷ txt "group" ∷ []) root) in
      let refuse =
        blocked (txt "source Fedora volume does not declare numeric libvirt ownership") in
      let last = checked w (vol_path w.final_volume) in
      let sent = command w (vol_upload w.final_volume) >>= λ _. last in
      let made = command w (vol_create w.final_volume) >>= λ _. sent in
      let described = act w (stage describe_base) os_error >>= λ _. made in
      bind-Triple (IsOrderly w) (checked w (vol_xml w.base_volume))
        (λ xml. volume_root w xml w.base_volume >>= λ root.
          demand (numeric root) refuse >>= λ _. described)
        (checked-Sure w (vol_xml w.base_volume) refl (λ t. tt) stable)
        λ xml.
          bind-Triple (IsOrderly w) (volume_root w xml w.base_volume)
            (λ root. demand (numeric root) refuse >>= λ _. described)
            (volume_root-Sure w xml w.base_volume)
            λ root.
              bind-Triple (IsOrderly w) (demand (numeric root) refuse) (λ _. described)
                (demand-Triple (IsOrderly w) (numeric root) refuse)
                λ _.
                  weaken-Triple (IsOrderly w) described (λ t h. h.0.0.0) (λ _ t h. h)
                    (bind-Triple (IsOrderly w) (act w (stage describe_base) os_error) (λ _. made)
                      (journalled-Sure (stage describe_base) os_error kept (λ t h. tt) λ r t h. h)
                      λ _.
                        bind-Triple (IsOrderly w) (command w (vol_create w.final_volume))
                          (λ _. sent)
                          (journalled-Sure (vol_create w.final_volume) _ kept (λ t h. h) λ r t h. h)
                          λ _.
                            bind-Triple (IsOrderly w) (command w (vol_upload w.final_volume))
                              (λ _. last)
                              (journalled-Sure (vol_upload w.final_volume) _ kept (λ t h. h)
                                λ r t h. h)
                              λ _.
                                weaken-Triple (IsOrderly w) last (λ t h. h) (λ _ t h. h.0)
                                  (checked-Sure w (vol_path w.final_volume) refl (λ t. tt) stable))
