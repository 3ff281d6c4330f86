-- ===== src/FakeLlm/Stats/Log/Sets.antt =====
-- The sets of markers.
use omashiki.Common.{
  ◌≡◌, refl, ap, sym, true, not, ◌&&◌, ◌||◌, inl, inr, Option, none, some, List, [], ◌∷◌, arith,
  Bool-cases,
}
use omashiki.Common.Text.{Text, text_eq, text_eq_sound}
use omashiki.FakeLlm.Stats.Log.{is_named}
use omashiki.FakeLlm.Stats.{member, add, discard, Stats, enter_marker, leave_marker}

member-equal : (m x : Text) (xs : List Text) → text_eq x m ≡ true → member x xs ≡ member m xs
member-equal m x xs same = ap (λ y. member y xs) (text_eq_sound x m same)

member-add : (m x : Text) (xs : List Text) → member m (add x xs) ≡ (text_eq x m || member m xs)
unfolding add
member-add m x xs = elim (Bool-cases (member x xs)) [
  | inr e ↦ rw e (unfold member in refl)
  | inl e ↦ rw e (ground (arith, e, member-equal m x xs))
]

text_eq-both : (m x y : Text) → text_eq x m ≡ true → text_eq y m ≡ text_eq y x
text_eq-both m x y same = ap (text_eq y) (sym (text_eq_sound x m same))

text_eq-first : (m x y : Text) → text_eq y x ≡ true → text_eq y m ≡ text_eq x m
text_eq-first m x y same = ap (λ z. text_eq z m) (text_eq_sound y x same)

member-discard :
    (m x : Text) (xs : List Text) → member m (discard x xs) ≡ (not (text_eq x m) && member m xs)
unfolding member discard
member-discard m x [] = ground arith
member-discard m x (y ∷ ys) =
    ground (arith, member-discard m x ys, text_eq-both m x y, text_eq-first m x y)

pub enter_marker-member :
    (o : Option Text) (s : Stats) (m : Text)
    → (member m (enter_marker o s).active_markers ≡ (is_named m o || member m s.active_markers))
      × (member m (enter_marker o s).job_markers ≡ (is_named m o || member m s.job_markers))
unfolding enter_marker
enter_marker-member none s m = (refl, refl)
enter_marker-member (some x) s m = (member-add m x s.active_markers, member-add m x s.job_markers)

pub leave_marker-member :
    (o : Option Text) (active : List Text) (m : Text)
    → member m (leave_marker o active) ≡ (not (is_named m o) && member m active)
unfolding leave_marker
leave_marker-member none active m = refl
leave_marker-member (some x) active m = member-discard m x active
