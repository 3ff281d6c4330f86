-- ===== src/Vm/Prepare/Orderly.antt =====
-- What each change that the preparation makes takes for granted.
use mathlib.Core.List.{Memᴰ}
use omashiki.Common.{
  ℕ, ◌≡◌, ap, ◌++◌, subst, ok_injective, Bool, true, false, ◌⊎◌, none, some, [], ◌∷◌, if◌then◌else◌,
  ok,
}
use omashiki.Common.Int.{ℤ}
use omashiki.Common.Text.{Text, txt, is_space, strip}
use omashiki.Common.Runs.{Triple}
use omashiki.Json.{Json, Fields, null, str, obj, get_or, value}
use omashiki.Vm.Xml.{Element}
use omashiki.Vm.Prepared.{Metadata}
use omashiki.Vm.Prepare.{
  Event, domain_xml, vol_xml, vol_info, vol_path, destroy, undefine, vol_delete, vol_create,
  vol_upload, write_pending, write_pointer, unlink_pending, place_image, unlink_image, stage, lock,
  Reply, Trace, Act, World, ask,
}
use omashiki.Vm.Prepare.Staging.{
  source_of, is_builder, is_builder_source, is_overlay, is_backed, is_there,
}
use omashiki.Vm.Prepare.Publish.{is_pending_volume, pointer}

-- An event that ends what is still recent: a stage of the build or a step of the publication
abbrev pub is_cut : Event → Bool
is_cut (stage s) = true
is_cut lock = true
is_cut (write_pending f) = true
is_cut (write_pointer f) = true
is_cut unlink_pending = true
is_cut place_image = true
is_cut (vol_create v) = true
is_cut (vol_upload v) = true
is_cut _ = false

abbrev pub recent : Trace → Trace
recent [] = []
recent ((e, r) ∷ t) = if is_cut e then [] else (e, r) ∷ recent t

-- Whether the journal is there, which says what has to be removed if the publication is broken off
abbrev pub is_pending : Trace → Bool
is_pending [] = false
is_pending ((write_pending f, r) ∷ t) = true
is_pending ((unlink_pending, r) ∷ t) = false
is_pending (_ ∷ t) = is_pending t

-- The first trace is a part of the history of the second.
abbrev pub Extends : Trace → Trace → Type 0
Extends old t = (newer : Trace) × (t ≡ newer ++ old)

pub Extends-next :
    {old : Trace} (e : Event) (r : Reply) (t : Trace) → Extends old t → Extends old ((e, r) ∷ t)
Extends-next e r t (newer, same) = ((e, r) ∷ newer, ap (λ u. (e, r) ∷ u) same)

-- A recent answer to this question, as a text
pub record Heard (e : Event) (text : Text) (t : Trace) : Type 0 where
  pub reply : Reply
  pub there : Memᴰ (e, reply) (recent t)
  pub says : strip is_space reply.output ≡ text

module _ (w : World) where
  -- The text is that of the builder's domain, whose disk is the builder's volume, next to the base.
  pub record IsBuilder (xml : Text) (t : Trace) : Type 0 where
    pub root : Element
    pub source : Element
    pub base : Text
    pub parsed : w.fromstring xml ≡ some root
    pub has_source : source_of root ≡ some source
    pub named : is_builder w root ≡ true
    pub base_heard : Heard (vol_path w.base_volume) base t
    pub on_volume : is_builder_source w source (w.beside base w.volume) ≡ true

  -- virsh has described the domain as the builder's, or has printed nothing.
  pub record BuilderSeen (t : Trace) : Type 0 where
    pub xml : Text
    pub heard : Heard domain_xml xml t
    pub is_ours : (xml ≡ []) ⊎ IsBuilder xml t

  -- virsh has described the volume as one next to the base: the builder's overlay, or an image with no
  -- backing file, as a broken publication leaves it.
  pub record VolumeSeen (volume : Text) (t : Trace) : Type 0 where
    pub xml : Text
    pub root : Element
    pub base : Text
    pub heard : Heard (vol_xml volume) xml t
    pub parsed : w.fromstring xml ≡ some root
    pub base_heard : Heard (vol_path w.base_volume) base t
    pub on_path : is_overlay w root (w.beside base volume) ≡ true
    pub is_ours :
        (is_pending_volume root (w.beside base volume) ≡ true)
        ⊎ ((volume ≡ w.volume)
            × ((backing : Text) × (capacity : ℤ) × (is_backed w root
                    (w.beside backing w.base_volume)
                    capacity
                  ≡ true)))

  -- The journal that has been read names this image and this volume, which are those of its fingerprint.
  pub record Named (path volume : Text) (t : Trace) : Type 0 where
    pub read : Trace
    pub later : Extends read t
    pub journal : Fields
    pub found : w.read_json read w.pending_path ≡ some (value (obj journal))
    pub of_fingerprint :
        w.prepared_paths (get_or (txt "fingerprint") journal null) ≡ ok (path, volume)
    pub says_path : get_or (txt "host_path") journal null ≡ str path
    pub says_volume : get_or (txt "volume") journal null ≡ str volume

  pub Named-next :
      (path volume : Text) (e : Event) (r : Reply) (t : Trace)
      → Named path volume t
      → Named path volume ((e, r) ∷ t)
  Named-next path volume e r t h = record {
    read = h.read;
    later = Extends-next e r t h.later;
    journal = h.journal;
    found = h.found;
    of_fingerprint = h.of_fingerprint;
    says_path = h.says_path;
    says_volume = h.says_volume;
  }

  -- The image and the volume that the journal names are gone.
  pub record RolledBack (t : Trace) : Type 0 where
    pub path : Text
    pub volume : Text
    pub named : Named path volume t
    pub image_gone :
        (w.lstat t path ≡ none)
        ⊎ ((r : Reply) × (u : Trace) × (t ≡ (unlink_image path, r) ∷ u) × (r.succeeded ≡ true))
    pub volume_gone :
        ((info : Text) × Heard (vol_info volume) info t × (is_there w info ≡ false))
        ⊎ ((r : Reply) × Memᴰ (vol_delete volume, r) (recent t) × (r.succeeded ≡ true))

  -- The pointer names the digest and the size that the image had when it was put in its place, and that
  -- libvirt's volume has now.
  pub record Published (fields : Fields) (t : Trace) : Type 0 where
    pub libvirt_path : Text
    pub sha256 : Text
    pub size : ℕ
    pub virtual_size : Json
    pub says : fields ≡ pointer w libvirt_path sha256 size virtual_size
    pub placed : Trace
    pub reply : Reply
    pub later : Extends ((place_image, reply) ∷ placed) t
    pub image_sha256 : w.sha256_file ((place_image, reply) ∷ placed) w.host_path ≡ some sha256
    pub image : Metadata
    pub image_found : w.stat ((place_image, reply) ∷ placed) w.host_path ≡ some image
    pub image_size : image.size ≡ size
    pub volume_sha256 : w.sha256_file t libvirt_path ≡ some sha256
    pub volume : Metadata
    pub volume_found : w.stat t libvirt_path ≡ some volume
    pub volume_size : volume.size ≡ size

  abbrev pub Allowed : Event → Trace → Type 0
  Allowed destroy t = BuilderSeen t
  Allowed undefine t = BuilderSeen t
  Allowed (vol_delete volume) t = VolumeSeen volume t
  Allowed place_image t = is_pending t ≡ true
  Allowed (vol_create volume) t = is_pending t ≡ true
  Allowed (vol_upload volume) t = is_pending t ≡ true
  Allowed (write_pointer fields) t = (is_pending t ≡ true) × Published fields t
  Allowed unlink_pending t = ((f : Fields) × (w.verify_prepared_base t ≡ ok f)) ⊎ RolledBack t
  Allowed _ t = Unit

  abbrev pub IsOrderly : Trace → Type 0
  IsOrderly [] = Unit
  IsOrderly ((e, r) ∷ t) = Allowed e t × IsOrderly t

  abbrev pub Sure : {A : Type 0} → (Trace → Type 0) → Act A → (A → Trace → Type 0) → Type 0
  Sure = Triple IsOrderly

  pub ask-Sure :
      {P : Trace → Type 0} {Q : Reply → Trace → Type 0} (e : Event)
      → ((t : Trace) → P t → Allowed e t)
      → ((t : Trace) → P t → Q (w.reply t e) ((e, w.reply t e) ∷ t))
      → Sure P (ask w e) Q
  ask-Sure {P} {Q} e a q = record {
    at = λ t i p.
        ((a t p, i), λ r h. subst (λ x. Q x ((e, w.reply t e) ∷ t)) (ok_injective h) (q t p));
  }
