-- ===== src/Kata/Examples.antt =====
-- Runs on concrete listings.
use omashiki.Common.{◌≡◌, ◌↔◌, refl, true, List, [], ◌∷◌, ok, err, All, any}
use omashiki.Kata.Laws.{StaysBelow, under_kata, IsSafe, validate-StaysBelow, main-eq-zero_iff}
use omashiki.Common.Text.{Text, txt, text_eq, starts_with, rstrip, split_on}
use omashiki.Kata.{
  unsafe_path, no_kata, is_absolute, parts, has_parent, is_kata, chomp, validate, main,
}

runs : Unit {0}
unfolding validate is_absolute parts has_parent is_kata chomp txt text_eq starts_with rstrip
    split_on
runs = tt

abbrev good : List Text
good = txt "./opt/\n" ∷ txt "opt/kata/bin/x\n" ∷ []

good_accepted : validate good ≡ ok tt
unfolding runs
good_accepted = refl

rejected :
    (validate (txt "opt/kata/../../etc\n" ∷ []) ≡ err (unsafe_path (txt "opt/kata/../../etc")))
    × (validate (txt "/opt/kata" ∷ []) ≡ err (unsafe_path (txt "/opt/kata")))
    × (validate (txt "opt/other" ∷ []) ≡ err no_kata)
unfolding runs
rejected = (refl, refl, refl)

validate-StaysBelow_example : All (StaysBelow (txt "srv" ∷ [])) good × (any under_kata good ≡ true)
validate-StaysBelow_example = validate-StaysBelow (txt "srv" ∷ []) good good_accepted

main-eq-zero_iff_example : (main good ≡ 0) ↔ (All IsSafe good × (any under_kata good ≡ true))
main-eq-zero_iff_example = main-eq-zero_iff good
