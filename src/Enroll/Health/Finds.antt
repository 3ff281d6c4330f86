-- ===== src/Enroll/Health/Finds.antt =====
-- `wait_for_health` finds a worker that becomes healthy in time.
use omashiki.Common.{
  ℕ, ◌≤◌, ◌<◌, ◌≡◌, refl, true, false, ◌⊎◌, inl, inr, Option, none, some, ◌++◌, Result, ok, arith,
}
use omashiki.Common.Int.{ℤ, ltb_ℤ}
use omashiki.Common.Text.{Text, txt}
use omashiki.Common.Poll.{poll-reaches}
use omashiki.Json.{Json, value}
use omashiki.Enroll.{normalize_base_url, Error}
use omashiki.Enroll.Health.{
  Answer, answered, failed, Turn, Ended, healthy, is_healthy, check_health, react, step, loop,
  finish, wait_for_health,
}

-- An answer after which the wait goes on: a URL error, or the body of something else than a healthy
-- worker.
abbrev pub Unhealthy : Answer → Type 0
Unhealthy a =
    ((reason : Text) × (a ≡ failed reason))
    ⊎ ((v : Json) × (a ≡ answered (value v)) × (is_healthy v ≡ ok false))

Unhealthy-react :
    (repr : Json → Text) (again : Option Text → Result Error Ended) (a : Answer)
    → Unhealthy a
    → (last : Option Text) × (react repr again a ≡ again last)
unfolding react check_health
Unhealthy-react repr again a (inl (reason, e)) = (some reason, rw e refl)
Unhealthy-react repr again a (inr (v, e, sick)) =
    (some (txt "unexpected healthz payload: " ++ repr v), rw (e, sick) refl)

healthy-react :
    (repr : Json → Text) (again : Option Text → Result Error Ended) (v : Json)
    → is_healthy v ≡ ok true
    → react repr again (answered (value v)) ≡ ok (healthy v)
unfolding react check_health
healthy-react repr again v well = rw well refl

-- If the worker's URL can be read, the clock is before the deadline at the tests of the turns up to k,
-- the turns before k meet a URL error or a body that is not a healthy worker's, and turn k meets that of a
-- healthy worker, then the wait returns this body; k + 1 turns of fuel are enough.
pub wait_for_health-finds :
    (repr : Json → Text) (worker_url : Text) (turn : ℕ → Turn) (deadline : ℤ) (fuel k : ℕ)
    (base : Text) (health : Json)
    → normalize_base_url worker_url ≡ ok base
    → ((i : ℕ) → i ≤ k → ltb_ℤ (turn i).at deadline ≡ true)
    → ((i : ℕ) → i < k → Unhealthy ((turn i).answer (base ++ txt "/healthz")))
    → (turn k).answer (base ++ txt "/healthz") ≡ answered (value health)
    → is_healthy health ≡ ok true
    → k < fuel
    → wait_for_health repr worker_url turn deadline fuel ≡ ok (some health)
unfolding wait_for_health loop step finish
wait_for_health-finds repr worker_url turn deadline fuel k base health url timely before now well
      more =
    let found : loop repr worker_url turn deadline fuel 0 none ≡ ok (healthy health) =
      poll-reaches _ _ _ _ (ok (healthy health)) k timely
        (λ i early last again. rw url (Unhealthy-react repr again _ (before i early)))
        (λ last again. rw (url, now) (healthy-react repr again health well)) k fuel 0 none
        (omega arith) more in
    rw found refl
