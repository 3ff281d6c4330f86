-- ===== src/Drive/Report/Laws.antt =====
-- The numbers of the report fit together.
use omashiki.Common.{
  ℕ, zero, suc, ◌≤◌, ◌≡◌, ◌≢◌, ap, ◌↔◌, refl, ◌∙◌, ◌&&◌, Bool, true, false, some, List, [], ◌∷◌,
  length, filter_list, All, arith, Bool-cases, inl, inr,
}
use omashiki.Common.Int.{ℤ, pos, negsuc}
use omashiki.Common.Text.{txt, text_eq_sound, text_eq_refl}
use omashiki.Json.{Json, null, bool, int, float, str, arr, obj}
use omashiki.Drive.RunJob.{Status, rejected, timeout, succeeded, failed, cancelled, Outcome}
use omashiki.Drive.Report.{
  same_status, by_status, is_capacity, capacity_rejections, Report, report, exit_status, choose,
}

-- The lines of a report that count jobs.
pub record Lines : Type 0 where
  pub succeeded : ℕ
  pub failed : ℕ
  pub cancelled : ℕ
  pub timeout : ℕ
  pub rejected : ℕ
  pub capacity_exhausted : ℕ

abbrev pub lines_of : Report → Lines
lines_of r = record {
  succeeded = r.succeeded;
  failed = r.failed;
  cancelled = r.cancelled;
  timeout = r.timeout;
  rejected = r.rejected;
  capacity_exhausted = r.capacity_exhausted;
}

-- One job more in one of the lines, that of its status; a rejection for want of capacity is counted in a
-- line of its own besides.
pub data Stands (o : Outcome) (n : Lines) : Lines → Type 0 where
  in_succeeded :
      {m : Lines}
      → o.status ≡ succeeded
      → m ≡ record n { succeeded = suc n.succeeded }
      → Stands o n m
  in_failed :
      {m : Lines} → o.status ≡ failed → m ≡ record n { failed = suc n.failed } → Stands o n m
  in_cancelled :
      {m : Lines}
      → o.status ≡ cancelled
      → m ≡ record n { cancelled = suc n.cancelled }
      → Stands o n m
  in_timeout :
      {m : Lines} → o.status ≡ timeout → m ≡ record n { timeout = suc n.timeout } → Stands o n m
  in_rejected :
      {m : Lines}
      → o.status ≡ rejected
      → o.error_code ≢ str (txt "capacity_exhausted")
      → m ≡ record n { rejected = suc n.rejected }
      → Stands o n m
  in_capacity :
      {m : Lines}
      → o.status ≡ rejected
      → o.error_code ≡ str (txt "capacity_exhausted")
      → m ≡ record n { rejected = suc n.rejected; capacity_exhausted = suc n.capacity_exhausted }
      → Stands o n m

-- The lines, from the jobs: each stands in one of them.
pub data Counted : List Outcome → Lines → Type 0 where
  none_yet : Counted [] (record {
    succeeded = 0;
    failed = 0;
    cancelled = 0;
    timeout = 0;
    rejected = 0;
    capacity_exhausted = 0;
  })
  and_one :
      {o : Outcome} {os : List Outcome} {n m : Lines}
      → Counted os n
      → Stands o n m
      → Counted (o ∷ os) m

-- The numbers as `report` computes them
abbrev tallied : List Outcome → Lines
tallied os = record {
  succeeded = by_status succeeded os;
  failed = by_status failed os;
  cancelled = by_status cancelled os;
  timeout = by_status timeout os;
  rejected = length (filter_list (λ o. same_status o.status rejected) os);
  capacity_exhausted = capacity_rejections os;
}

is_capacity_sound : (v : Json) → is_capacity v ≡ true → v ≡ str (txt "capacity_exhausted")
unfolding is_capacity
is_capacity_sound (str s) h = ap str (text_eq_sound s (txt "capacity_exhausted") h)
is_capacity_sound null h = cc h
is_capacity_sound (bool b) h = cc h
is_capacity_sound (int n) h = cc h
is_capacity_sound (float s) h = cc h
is_capacity_sound (arr vs) h = cc h
is_capacity_sound (obj fs) h = cc h

is_capacity_complete : is_capacity (str (txt "capacity_exhausted")) ≡ true
unfolding is_capacity
is_capacity_complete = text_eq_refl (txt "capacity_exhausted")

abbrev bump : Bool → ℕ → ℕ
bump true n = suc n
bump false n = n

-- The lines with one job more, of this status, and rejected for want of capacity or not
abbrev bumped : Status → Bool → Lines → Lines
bumped s capacity n = record {
  succeeded = bump (same_status s succeeded) n.succeeded;
  failed = bump (same_status s failed) n.failed;
  cancelled = bump (same_status s cancelled) n.cancelled;
  timeout = bump (same_status s timeout) n.timeout;
  rejected = bump (same_status s rejected) n.rejected;
  capacity_exhausted = bump (same_status s rejected && capacity) n.capacity_exhausted;
}

by_status-next :
    (s : Status) (o : Outcome) (os : List Outcome)
    → by_status s (o ∷ os) ≡ bump (same_status o.status s) (by_status s os)
unfolding by_status
by_status-next s o os = ground arith

length-filter_next :
    {A : Type 0} (p : A → Bool) (x : A) (xs : List A)
    → length (filter_list p (x ∷ xs)) ≡ bump (p x) (length (filter_list p xs))
length-filter_next p x xs = ground arith

capacity_rejections-next :
    (o : Outcome) (os : List Outcome)
    → capacity_rejections (o ∷ os)
      ≡ bump (same_status o.status rejected && is_capacity o.error_code) (capacity_rejections os)
unfolding capacity_rejections
capacity_rejections-next o os = elim (Bool-cases (same_status o.status rejected)) [
  | inl e ↦ rw e (
      length-filter_next (λ x. is_capacity x.error_code) o
        (filter_list (λ x. same_status x.status rejected) os))
  | inr e ↦ rw e refl
]

tallied-next :
    (o : Outcome) (os : List Outcome)
    → tallied (o ∷ os) ≡ bumped o.status (is_capacity o.error_code) (tallied os)
tallied-next o os = simp (
  by_status-next,
  length-filter_next (λ (x : Outcome). same_status x.status rejected) o os,
  capacity_rejections-next o os,
)

tallied-Stands : (o : Outcome) (os : List Outcome) → Stands o (tallied os) (tallied (o ∷ os))
unfolding same_status
tallied-Stands o os = of_status o.status refl
  where
    is_next :
        (s : Status) (c : Bool)
        → o.status ≡ s
        → is_capacity o.error_code ≡ c
        → tallied (o ∷ os) ≡ bumped s c (tallied os)
    is_next s c e f =
        tallied-next o os
        ∙ ap (λ x. bumped x (is_capacity o.error_code) (tallied os)) e
        ∙ ap (λ b. bumped s b (tallied os)) f

    of_status : (s : Status) → o.status ≡ s → Stands o (tallied os) (tallied (o ∷ os))
    of_status succeeded e = in_succeeded e (is_next succeeded _ e refl)
    of_status failed e = in_failed e (is_next failed _ e refl)
    of_status cancelled e = in_cancelled e (is_next cancelled _ e refl)
    of_status timeout e = in_timeout e (is_next timeout _ e refl)
    of_status rejected e = elim (Bool-cases (is_capacity o.error_code)) [
      | inl c ↦ in_capacity e (is_capacity_sound o.error_code c) (is_next rejected true e c)
      | inr c ↦
          in_rejected e (λ same. cc (c, ap is_capacity same, is_capacity_complete))
            (is_next rejected false e c)
    ]

tallied-Counted : (os : List Outcome) → Counted os (tallied os)
unfolding by_status capacity_rejections
tallied-Counted [] = none_yet
tallied-Counted (o ∷ os) = and_one (tallied-Counted os) (tallied-Stands o os)

-- Every submitted job stands in exactly one line of the report, that of its status, and those rejected
-- for want of capacity are counted in one more; no line counts anything else, and the number submitted is
-- that of the jobs.
pub report-Accounts :
    (rank50 rank95 : ℕ → ℤ) (os : List Outcome) (peak : ℕ)
    → Counted os (lines_of (report rank50 rank95 os peak))
      × ((report rank50 rank95 os peak).submitted ≡ length os)
unfolding report
report-Accounts rank50 rank95 os peak = (tallied-Counted os, refl)

same_status-succeeded : (s : Status) → (same_status s succeeded ≡ true) ↔ (s ≡ succeeded)
unfolding same_status
same_status-succeeded succeeded = (λ h. refl, λ h. refl)
same_status-succeeded rejected = (λ h. cc h, λ h. cc h)
same_status-succeeded timeout = (λ h. cc h, λ h. cc h)
same_status-succeeded failed = (λ h. cc h, λ h. cc h)
same_status-succeeded cancelled = (λ h. cc h, λ h. cc h)

by_status-le : (s : Status) (os : List Outcome) → by_status s os ≤ length os
unfolding by_status
by_status-le s [] = omega arith
by_status-le s (o ∷ os) = ground (arith, by_status-le s os)

succeeded_count :
    (os : List Outcome)
    → (by_status succeeded os ≡ length os) ↔ All (λ (o : Outcome). o.status ≡ succeeded) os
unfolding by_status
succeeded_count [] = (λ h. tt, λ h. refl)
succeeded_count (o ∷ os) =
    let (to, from) = succeeded_count os in
    elim (Bool-cases (same_status o.status succeeded)) [
      | inl e ↦ rw e (
        λ h. ((same_status-succeeded o.status).0 e, to (omega arith)),
        λ h. omega (arith, from h.1),
      )
      | inr e ↦ rw e (
        (λ h. absurd (omega (arith, by_status-le succeeded os))),
        (λ h. cc (e, (same_status-succeeded o.status).1 h.0)),
      )
    ]

-- For one outcome to each job the driver ends with status 0 exactly if every job has succeeded.
pub exit_status-eq-zero_iff :
    (rank50 rank95 : ℕ → ℤ) (os : List Outcome) (peak : ℕ)
    → (exit_status (length os) (report rank50 rank95 os peak) ≡ 0)
      ↔ All (λ (o : Outcome). o.status ≡ succeeded) os
unfolding exit_status report
exit_status-eq-zero_iff rank50 rank95 os peak =
    let (to, from) = succeeded_count os in
    (λ h. to (ground arith), λ h. let e = from h in ground arith)

-- The concurrency that is chosen is at least one and at most the number of jobs, which is what was
-- asked for.
pub choose_bounds :
    (jobs concurrency : ℤ) (n c : ℕ)
    → choose jobs concurrency ≡ some (n, c)
    → (jobs ≡ pos n) × (1 ≤ c) × (c ≤ n)
unfolding choose
choose_bounds (negsuc k) concurrency n c h = cc
choose_bounds (pos zero) concurrency n c h = cc
choose_bounds (pos (suc k)) (pos (suc j)) n c h = ground arith
choose_bounds (pos (suc k)) (pos zero) n c h = ground arith
choose_bounds (pos (suc k)) (negsuc j) n c h = ground arith
