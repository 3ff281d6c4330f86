-- ===== src/Json/Canonical/Laws.antt =====
-- The encoding does not depend on the order in which dictionaries list their items.
use omashiki.Common.{◌≡◌, ◌≢◌, refl, ◌∙◌}
use omashiki.Common.Text.{Text}
use omashiki.Json.{Json, arr, obj, Items, nil, cons, Fields, end, field}
use omashiki.Json.Order.{sort, insert_comm}
use omashiki.Json.Canonical.{canonical, canonical_items, canonical_fields}

-- Two values are the same up to the order of dictionary items, at any depth. Dictionaries have
-- one item for each key, so only items of different keys are exchanged.
mutual
  pub data Reordered : Json → Json → Type 0 where
    unchanged : (v : Json) → Reordered v v
    in_list : {vs ws : Items} → ReorderedItems vs ws → Reordered (arr vs) (arr ws)
    in_dict : {fs gs : Fields} → ReorderedFields fs gs → Reordered (obj fs) (obj gs)

  pub data ReorderedItems : Items → Items → Type 0 where
    done : ReorderedItems nil nil
    more :
        {v w : Json} {vs ws : Items}
        → Reordered v w
        → ReorderedItems vs ws
        → ReorderedItems (cons v vs) (cons w ws)

  pub data ReorderedFields : Fields → Fields → Type 0 where
    empty : ReorderedFields end end
    keep :
        (k : Text) {v w : Json} {fs gs : Fields}
        → Reordered v w
        → ReorderedFields fs gs
        → ReorderedFields (field k v fs) (field k w gs)
    swap :
        (k j : Text) (v w : Json) (fs : Fields)
        → k ≢ j
        → ReorderedFields (field k v (field j w fs)) (field j w (field k v fs))
    trans :
        {fs gs hs : Fields} → ReorderedFields fs gs → ReorderedFields gs hs → ReorderedFields fs hs

mutual
  unfolding canonical sort

  canonical-Reordered_lem : {v w : Json} → Reordered v w → canonical v ≡ canonical w
  canonical-Reordered_lem (unchanged v) = refl
  canonical-Reordered_lem (in_list r) = rw (canonical_items-Reordered r)
  canonical-Reordered_lem (in_dict r) = rw (sort-canonical_fields-Reordered r)

  canonical_items-Reordered :
      {vs ws : Items} → ReorderedItems vs ws → canonical_items vs ≡ canonical_items ws
  canonical_items-Reordered done = refl
  canonical_items-Reordered (more r rs) =
      rw (canonical-Reordered_lem r, canonical_items-Reordered rs)

  sort-canonical_fields-Reordered :
      {fs gs : Fields}
      → ReorderedFields fs gs
      → sort (canonical_fields fs) ≡ sort (canonical_fields gs)
  sort-canonical_fields-Reordered empty = refl
  sort-canonical_fields-Reordered (keep k r rs) =
      rw (canonical-Reordered_lem r, sort-canonical_fields-Reordered rs)
  sort-canonical_fields-Reordered (swap k j v w fs ne) =
      insert_comm k j (canonical v) (canonical w) (sort (canonical_fields fs)) ne
  sort-canonical_fields-Reordered (trans r s) =
      sort-canonical_fields-Reordered r ∙ sort-canonical_fields-Reordered s

-- Values that differ only in the order of dictionary items, at any depth, have one encoding, so
-- one signature.
pub canonical-Reordered : (v w : Json) → Reordered v w → canonical v ≡ canonical w
canonical-Reordered v w r = canonical-Reordered_lem r
