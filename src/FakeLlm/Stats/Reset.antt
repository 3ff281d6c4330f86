-- ===== src/FakeLlm/Stats/Reset.antt =====
-- `GET /__stats?reset=1` while requests are open, and two open requests with one marker.
use omashiki.Common.{
  ℕ, zero, suc, ◌+◌, ◌≡◌, refl, ap, ◌∙◌, false, Option, none, some, List, [], ◌∷◌, arith,
}
use omashiki.Common.Int.{ℤ, pos, negsuc, ◌-ℤ◌}
use omashiki.Common.Text.{Text, is_empty}
use omashiki.FakeLlm.Stats.{
  FinishReason, tool_calls, stop, member, discard, Stats, reset, enter, leave_marker, finish, leave,
}

-- The requests of a list leave, one after another.
pub leave_all : List (Option FinishReason × Option Text) → Stats → Stats
leave_all [] s = s
leave_all ((reason, marker) ∷ rest) s = leave_all rest (leave reason marker s)

-- Minus n.
abbrev pub minus : ℕ → ℤ
minus zero = pos 0
minus (suc n) = negsuc n

abbrev pub count {ℓ} : {A : Type ℓ} → List A → ℕ
count [] = 0
count (x ∷ xs) = suc (count xs)

finish-in_flight :
    (reason : Option FinishReason) (s : Stats) → (finish reason s).in_flight ≡ s.in_flight
unfolding finish
finish-in_flight none s = refl
finish-in_flight (some tool_calls) s = refl
finish-in_flight (some stop) s = refl

minus_next : (n : ℕ) → minus n -ℤ pos 1 ≡ minus (suc n)
unfolding ◌-ℤ◌
minus_next zero = refl
minus_next (suc n) = ground arith

leave_all-in_flight :
    (n : ℕ) (left : List (Option FinishReason × Option Text)) (s : Stats)
    → s.in_flight ≡ minus n
    → (leave_all left s).in_flight ≡ minus (count left + n)
unfolding leave_all leave
leave_all-in_flight n [] s e = e ∙ ap minus (omega arith)
leave_all-in_flight n ((reason, marker) ∷ rest) s e =
    leave_all-in_flight (suc n) rest _
      (finish-in_flight reason _ ∙ (ap (λ z. z -ℤ pos 1) e ∙ minus_next n))
    ∙ ap minus (omega arith)

-- If the counters are reset while requests are open, then after these have left `in_flight` is minus
-- their number, and it stays that much too low.
pub reset-leave_all :
    (s : Stats) (left : List (Option FinishReason × Option Text))
    → (leave_all left (reset s)).in_flight ≡ minus (count left)
unfolding reset
reset-leave_all s left = leave_all-in_flight 0 left (reset s) refl ∙ ap minus (omega arith)

not-member-discard : (m : Text) (xs : List Text) → member m (discard m xs) ≡ false
unfolding member discard
not-member-discard m [] = refl
not-member-discard m (x ∷ xs) = ground (arith, not-member-discard m xs)

finish-active :
    (reason : Option FinishReason) (s : Stats) → (finish reason s).active_markers ≡ s.active_markers
unfolding finish
finish-active none s = refl
finish-active (some tool_calls) s = refl
finish-active (some stop) s = refl

-- When one of two open requests with the same marker leaves, the marker is active no more, though
-- the other request is still open.
pub leave-member :
    (s : Stats) (m : Text) (reason : Option FinishReason)
    → is_empty m ≡ false
    → member m (leave reason (some m) (enter (some m) (enter (some m) s))).active_markers ≡ false
unfolding leave
leave-member s m reason full =
    let s2 = enter (some m) (enter (some m) s) in
    rw (finish-active, full) (unfold leave_marker in not-member-discard m s2.active_markers)
