-- ===== src/Json/Canonical/Examples.antt =====
-- One dictionary in two orders.
use omashiki.Common.{◌≡◌, ◌≢◌}
use omashiki.Common.Int.{pos}
use omashiki.Common.Text.{txt}
use omashiki.Json.{Json, int, str, obj, end, field}
use omashiki.Json.Canonical.{canonical}
use omashiki.Json.Canonical.Laws.{in_dict, swap, canonical-Reordered}

abbrev event : Json
event = obj (field (txt "event") (str (txt "done")) (field (txt "attempt") (int (pos 2)) end))

abbrev other : Json
other = obj (field (txt "attempt") (int (pos 2)) (field (txt "event") (str (txt "done")) end))

names_differ : txt "event" ≢ txt "attempt"
unfolding txt
names_differ = λ e. cc e

canonical-Reordered_example : canonical event ≡ canonical other
canonical-Reordered_example =
    canonical-Reordered event other (
      in_dict
        (swap (txt "event") (txt "attempt") (str (txt "done")) (int (pos 2)) end names_differ))
