-- ===== src/Vm/Lines/Examples.antt =====
-- An edit of a file of keys with one line, which has no end.
use omashiki.Common.{◌≡◌, refl, false, [], ◌∷◌, ok}
use omashiki.Common.Text.{txt, text_eq, rstrip}
use omashiki.Vm.Lines.{file, split_lines, bare, is_ended, atomic_line_update}
use omashiki.Vm.Lines.RoundTrip.{ended, atomic_line_update-RoundTrip}

atomic_line_update-RoundTrip_example :
    (atomic_line_update false (file (txt "old key") 420) (txt "new key" ∷ []) []
      ≡ ok (
        file (txt "old key\nnew key\n") 420,
        record { added = txt "new key" ∷ []; removed = []; mode = 420 },
      ))
    × (atomic_line_update false (file (txt "old key\nnew key\n") 420) [] (txt "new key" ∷ [])
        ≡ ok (
          file (txt "old key\n") 420,
          record { added = []; removed = txt "new key" ∷ []; mode = 420 },
        ))
unfolding ended is_ended txt split_lines bare rstrip text_eq
atomic_line_update-RoundTrip_example =
    atomic_line_update-RoundTrip (file (txt "old key") 420) (txt "old key") (txt "new key") 420
      (refl, refl) ((λ e. cc e), (refl, (refl, (refl, (refl, (refl, (refl, (refl, tt)))))))) refl
