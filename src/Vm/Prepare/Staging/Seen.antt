-- ===== src/Vm/Prepare/Staging/Seen.antt =====
-- What virsh has shown stays shown, until the next stage.
use omashiki.Common.{inl, inr}
use omashiki.Common.Text.{Text}
use omashiki.Vm.Prepare.{domain_xml, vol_xml, vol_path, World}
use omashiki.Vm.Prepare.Orderly.{IsBuilder, BuilderSeen, VolumeSeen}
use omashiki.Vm.Prepare.Rules.{Stable, Heard-Stable}

module _ (w : World) where
  pub IsBuilder-Stable : (xml : Text) → Stable (IsBuilder w xml)
  IsBuilder-Stable xml e r t c h = record {
    root = h.root;
    source = h.source;
    base = h.base;
    parsed = h.parsed;
    has_source = h.has_source;
    named = h.named;
    base_heard = Heard-Stable (vol_path w.base_volume) h.base e r t c h.base_heard;
    on_volume = h.on_volume;
  }

  pub BuilderSeen-Stable : Stable (BuilderSeen w)
  BuilderSeen-Stable e r t c h = record {
    xml = h.xml;
    heard = Heard-Stable domain_xml h.xml e r t c h.heard;
    is_ours = elim h.is_ours [
      | inl empty ↦ inl empty
      | inr ours ↦ inr (IsBuilder-Stable h.xml e r t c ours)
    ];
  }

  pub VolumeSeen-Stable : (volume : Text) → Stable (VolumeSeen w volume)
  VolumeSeen-Stable volume e r t c h = record {
    xml = h.xml;
    root = h.root;
    base = h.base;
    heard = Heard-Stable (vol_xml volume) h.xml e r t c h.heard;
    parsed = h.parsed;
    base_heard = Heard-Stable (vol_path w.base_volume) h.base e r t c h.base_heard;
    on_path = h.on_path;
    is_ours = h.is_ours;
  }
