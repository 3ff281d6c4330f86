-- ===== src/Vm/Prepare/Staging/Owned.antt =====
-- What the tests of the builder's domain and volume show.
use omashiki.Common.{
  ◌≡◌, refl, ap, sym, ◌∙◌, Bool, true, false, inr, Option, none, some, [], ◌∷◌, if◌then◌else◌,
}
use omashiki.Common.Int.{ℤ}
use omashiki.Common.Text.{Text, txt}
use omashiki.Common.Runs.{
  ◌>>=◌, done, demand, bind-Triple, done-Triple, demand-Triple, weaken-Triple, if-Triple,
  fail-Triple,
}
use omashiki.Vm.Xml.{Element, find_text}
use omashiki.Vm.Prepare.{
  Trace, vol_xml, vol_path, World, Act, named_root, volume_root, expected_pool_path,
}
use omashiki.Vm.Prepare.Staging.{
  or_empty, source_of, is_builder, is_builder_source, is_overlay, is_backed, source_owned,
  root_owned, backing_owned, overlay_owned, capacity_owned, staging_volume_owned,
}
use omashiki.Vm.Prepare.Orderly.{Heard, IsOrderly, Sure, IsBuilder, VolumeSeen}
use omashiki.Vm.Prepare.Rules.{
  Stable, Stable-pair, Stable-const, Heard-Stable, expected_pool_path-Sure,
}

module _ (w : World) where
  -- A run that tells whether `Q` holds, and keeps `P`
  abbrev Tells : (Trace → Type 0) → (Trace → Type 0) → Act Bool → Type 0
  Tells P Q m = Sure w P m (λ b t. P t × (b ≡ true → Q t))

  says_no : {P Q : Trace → Type 0} → Tells P Q (done false)
  says_no = done-Triple (IsOrderly w) false λ t h. (h, λ e. cc e)

  source_owned-Sure :
      {P : Trace → Type 0} (xml : Text) (root : Element) (source : Option Element)
      → Stable P
      → w.fromstring xml ≡ some root
      → source_of root ≡ source
      → Tells P (IsBuilder w xml) (source_owned w root source)
  unfolding source_owned
  source_owned-Sure xml root none p parsed found = says_no
  source_owned-Sure xml root (some source) p parsed found =
      if-Triple (IsOrderly w) (is_builder w root)
        (expected_pool_path w w.volume >>= λ path. done (is_builder_source w source path))
        (done false)
        (bind-Triple (IsOrderly w) (expected_pool_path w w.volume)
          (λ path. done (is_builder_source w source path))
          (expected_pool_path-Sure w w.volume (Stable-pair p Stable-const))
          λ path.
            done-Triple (IsOrderly w) (is_builder_source w source path)
              λ t ((h, named), (base, heard, same)). (
                h,
                λ fits. record {
                  root = root;
                  source = source;
                  base = base;
                  parsed = parsed;
                  has_source = found;
                  named = named;
                  base_heard = heard;
                  on_volume = ap (is_builder_source w source) (sym same) ∙ fits;
                },
              ))
        (done-Triple (IsOrderly w) false λ t (h, other). (h, λ e. cc e))

  pub root_owned-Sure :
      {P : Trace → Type 0} (xml : Text) (root : Option Element)
      → Stable P
      → w.fromstring xml ≡ root
      → Tells P (IsBuilder w xml) (root_owned w root)
  unfolding root_owned
  root_owned-Sure xml none p parsed = says_no
  root_owned-Sure xml (some root) p parsed =
      source_owned-Sure xml root (source_of root) p parsed refl

  -- What the volume's test shows, at the root of its description
  record Overlay (root : Element) (t : Trace) : Type 0 where
    base : Text
    base_heard : Heard (vol_path w.base_volume) base t
    on_path : is_overlay w root (w.beside base w.volume) ≡ true
    backing : Text
    capacity : ℤ
    backed : is_backed w root (w.beside backing w.base_volume) capacity ≡ true

  overlay_owned-Sure :
      {P : Trace → Type 0} (root : Element) (capacity : ℤ)
      → Stable P
      → Tells P (Overlay root) (overlay_owned w root capacity)
  unfolding overlay_owned backing_owned
  overlay_owned-Sure {P} root capacity p =
      bind-Triple (IsOrderly w) (expected_pool_path w w.volume)
        (λ path. if is_overlay w root path then backing_owned w root capacity else done false)
        (expected_pool_path-Sure w w.volume p)
        λ path.
          if-Triple (IsOrderly w) (is_overlay w root path) (backing_owned w root capacity)
            (done false)
            (weaken-Triple (IsOrderly w) (backing_owned w root capacity)
              (λ t ((h, (base, heard, same)), fits).
                (h, (base, (heard, ap (is_overlay w root) (sym same) ∙ fits))))
              (λ b t h. h)
              (bind-Triple (IsOrderly w) (expected_pool_path w w.base_volume)
                (λ base. done (is_backed w root base capacity))
                (expected_pool_path-Sure w
                  {P = λ t.
                    P t
                    × ((base : Text) × (Heard (vol_path w.base_volume) base t
                          × (is_overlay w root (w.beside base w.volume) ≡ true)))}
                  w.base_volume
                  λ e r t c (h, (base, (heard, fits))). (
                    p e r t c h,
                    (base, (Heard-Stable (vol_path w.base_volume) base e r t c heard, fits)),
                  ))
                λ path.
                  done-Triple (IsOrderly w) (is_backed w root path capacity)
                    λ t ((h, (base, (heard, fits))), (backing, other, same)). (
                      h,
                      λ backed. record {
                        base = base;
                        base_heard = heard;
                        on_path = fits;
                        backing = backing;
                        capacity = capacity;
                        backed = ap (λ x. is_backed w root x capacity) (sym same) ∙ backed;
                      },
                    )))
            (done-Triple (IsOrderly w) false λ t (h, other). (h.0, λ e. cc e))

  pub volume_root-Sure :
      {P : Trace → Type 0} (xml name : Text)
      → Sure w P (volume_root w xml name) (λ root t. P t × (w.fromstring xml ≡ some root))
  unfolding volume_root named_root
  volume_root-Sure {P} xml name = named (w.fromstring xml)
    where
      named :
          (o : Option Element) → Sure w P (named_root w name o) (λ root t. P t × (o ≡ some root))
      named none = fail-Triple (IsOrderly w) _
      named (some root) =
          bind-Triple (IsOrderly w) (demand _ _) (λ _. done root) (demand-Triple (IsOrderly w) _ _)
            λ u. done-Triple (IsOrderly w) root λ t h. (h.0, refl)

  pub staging_volume_owned-Sure :
      {P : Trace → Type 0} (xml : Text)
      → Stable P
      → ((t : Trace) → P t → Heard (vol_xml w.volume) xml t)
      → Tells P (VolumeSeen w w.volume) (staging_volume_owned w xml)
  unfolding staging_volume_owned capacity_owned
  staging_volume_owned-Sure {P} xml p known =
      bind-Triple (IsOrderly w) (volume_root w xml w.volume)
        (λ root. capacity_owned w root (w.int (capacity_text root))) (volume_root-Sure xml w.volume)
        λ root. capacity root (w.int (capacity_text root))
    where
      capacity_text : Element → Text
      capacity_text root = or_empty (find_text (txt "capacity" ∷ []) root)

      capacity :
          (root : Element) (o : Option ℤ)
          → Sure w
              (λ t. P t × (w.fromstring xml ≡ some root))
              (capacity_owned w root o)
              (λ b t. P t × (b ≡ true → VolumeSeen w w.volume t))
      capacity root none = done-Triple (IsOrderly w) false λ t h. (h.0, λ e. cc e)
      capacity root (some n) =
          weaken-Triple (IsOrderly w) (overlay_owned w root n) (λ t h. h)
            (λ b t ((h, parsed), seen). (
              h,
              λ e.
                  let o = seen e in
                  record {
                    xml = xml;
                    root = root;
                    base = o.base;
                    heard = known t h;
                    parsed = parsed;
                    base_heard = o.base_heard;
                    on_path = o.on_path;
                    is_ours = inr (refl, (o.backing, o.capacity, o.backed));
                  },
            ))
            (overlay_owned-Sure root n (Stable-pair p Stable-const))
