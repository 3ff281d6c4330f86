-- ===== src/Drive/Percentile/Laws.antt =====
-- The nearest-rank percentile is an observed value, at its rank.
use omashiki.Common.{
  ℕ, zero, suc, ◌+◌, ◌-◌, ◌≤◌, ◌<◌, ◌≡◌, refl, ap, sym, ◌∙◌, inl, inr, some, List, [], ◌∷◌, leb,
  length, get_elem?, if◌then◌else◌, All, Bool-cases, arith,
}
use omashiki.Common.Int.{ℤ}
use omashiki.Drive.Percentile.{insert, sorted, rank_in, percentile}

-- How many values are at most x, and at least x.
pub count_le : ℕ → List ℕ → ℕ
count_le x [] = 0
count_le x (v ∷ vs) = (if leb v x then 1 else 0) + count_le x vs

pub count_ge : ℕ → List ℕ → ℕ
count_ge x [] = 0
count_ge x (v ∷ vs) = (if leb x v then 1 else 0) + count_ge x vs

count_le-insert : (x v : ℕ) (ws : List ℕ) → count_le x (insert v ws) ≡ count_le x (v ∷ ws)
unfolding count_le insert
count_le-insert x v [] = refl
count_le-insert x v (w ∷ ws) = ground (arith, count_le-insert x v ws)

count_le-sorted : (x : ℕ) (vs : List ℕ) → count_le x (sorted vs) ≡ count_le x vs
unfolding sorted count_le
count_le-sorted x [] = refl
count_le-sorted x (v ∷ vs) =
    count_le-insert x v (sorted vs)
    ∙ ap (λ (k : ℕ). (if leb v x then 1 else 0) + k) (count_le-sorted x vs)

count_ge-insert : (x v : ℕ) (ws : List ℕ) → count_ge x (insert v ws) ≡ count_ge x (v ∷ ws)
unfolding count_ge insert
count_ge-insert x v [] = refl
count_ge-insert x v (w ∷ ws) = ground (arith, count_ge-insert x v ws)

count_ge-sorted : (x : ℕ) (vs : List ℕ) → count_ge x (sorted vs) ≡ count_ge x vs
unfolding sorted count_ge
count_ge-sorted x [] = refl
count_ge-sorted x (v ∷ vs) =
    count_ge-insert x v (sorted vs)
    ∙ ap (λ (k : ℕ). (if leb x v then 1 else 0) + k) (count_ge-sorted x vs)

length-insert : (v : ℕ) (ws : List ℕ) → length (insert v ws) ≡ suc (length ws)
unfolding insert
length-insert v [] = refl
length-insert v (w ∷ ws) = ground (arith, length-insert v ws)

length-sorted : (vs : List ℕ) → length (sorted vs) ≡ length vs
unfolding sorted
length-sorted [] = refl
length-sorted (v ∷ vs) = omega (arith, length-insert v (sorted vs), length-sorted vs)

abbrev IsSorted : List ℕ → Type 0
IsSorted [] = Unit
IsSorted (v ∷ vs) = All (λ w. v ≤ w) vs × IsSorted vs

All-insert : (b v : ℕ) (ws : List ℕ) → b ≤ v → All (λ w. b ≤ w) ws → All (λ w. b ≤ w) (insert v ws)
unfolding insert
All-insert b v [] h a = (h, tt)
All-insert b v (w ∷ ws) h a = elim (Bool-cases (leb v w)) [
  | inl e ↦ rw e (h, a)
  | inr e ↦ rw e (a.0, All-insert b v ws h a.1)
]

All-weaken : (b c : ℕ) (ws : List ℕ) → b ≤ c → All (λ w. c ≤ w) ws → All (λ w. b ≤ w) ws
All-weaken b c [] h a = tt
All-weaken b c (w ∷ ws) h a = (omega arith, All-weaken b c ws h a.1)

insert-IsSorted : (v : ℕ) (ws : List ℕ) → IsSorted ws → IsSorted (insert v ws)
unfolding insert
insert-IsSorted v [] s = (tt, tt)
insert-IsSorted v (w ∷ ws) s = elim (Bool-cases (leb v w)) [
  | inl e ↦ let le : v ≤ w = ground arith in rw e ((le, All-weaken v w ws le s.0), s)
  | inr e ↦ rw e (All-insert w v ws (ground arith) s.0, insert-IsSorted v ws s.1)
]

sorted-IsSorted : (vs : List ℕ) → IsSorted (sorted vs)
unfolding sorted
sorted-IsSorted [] = tt
sorted-IsSorted (v ∷ vs) = insert-IsSorted v (sorted vs) (sorted-IsSorted vs)

count_ge-All : (x : ℕ) (ws : List ℕ) → All (λ w. x ≤ w) ws → count_ge x ws ≡ length ws
unfolding count_ge
count_ge-All x [] a = refl
count_ge-All x (w ∷ ws) a = ground (arith, count_ge-All x ws a.1)

get_elem?-All :
    (b : ℕ) (ws : List ℕ) (i x : ℕ) → All (λ w. b ≤ w) ws → get_elem? ws i ≡ some x → b ≤ x
get_elem?-All b [] i x a e = cc
get_elem?-All b (w ∷ ws) zero x a e = let same : w ≡ x = cc in rw (sym same) a.0
get_elem?-All b (w ∷ ws) (suc i) x a e = get_elem?-All b ws i x a.1 e

-- In an ordered list, at position i: i + 1 values are at most the one there, and all from i on are
-- at least it.
at_rank :
    (i x : ℕ) (ws : List ℕ)
    → IsSorted ws
    → get_elem? ws i ≡ some x
    → (suc i ≤ count_le x ws) × (length ws ≤ count_ge x ws + i)
unfolding count_le count_ge
at_rank i x [] s e = cc
at_rank zero x (w ∷ ws) s e =
    let same : w ≡ x = cc in (ground arith, ground (arith, count_ge-All w ws s.0))
at_rank (suc i) x (w ∷ ws) s e =
    let (low, high) = at_rank i x ws s.1 e in
    let le : w ≤ x = get_elem?-All w ws i x s.0 e in (ground arith, ground arith)

get_elem?-some : (ws : List ℕ) (i : ℕ) → i < length ws → (x : ℕ) × (get_elem? ws i ≡ some x)
get_elem?-some [] i h = absurd (omega arith)
get_elem?-some (w ∷ ws) zero h = (w, refl)
get_elem?-some (w ∷ ws) (suc i) h = get_elem?-some ws i (omega arith)

rank_in_bounds : (z : ℤ) (n : ℕ) → 1 ≤ n → (1 ≤ rank_in z n) × (rank_in z n ≤ n)
unfolding rank_in
rank_in_bounds z n h = (omega arith, omega arith)

ranked :
    (x r : ℕ) (vs : List ℕ)
    → 1 ≤ r
    → get_elem? (sorted vs) (r - 1) ≡ some x
    → (r ≤ count_le x vs) × (suc (length vs) ≤ count_ge x vs + r)
ranked x r vs h e =
    let (low, high) = at_rank (r - 1) x (sorted vs) (sorted-IsSorted vs) e in
    (omega (arith, count_le-sorted x vs), omega (arith, count_ge-sorted x vs, length-sorted vs))

-- Of a non-empty list the percentile is some value x. With n values and r the nearest rank, cut to
-- between 1 and n, at least r of the values are at most x, and at least n - r + 1 are at least x.
pub percentile_rank :
    (rank : ℕ → ℤ) (v : ℕ) (vs : List ℕ)
    → let n = length (v ∷ vs) in
      let r = rank_in (rank n) n in
      (x : ℕ) × (percentile rank (v ∷ vs) ≡ some x)
      × (r ≤ count_le x (v ∷ vs))
      × (suc n ≤ count_ge x (v ∷ vs) + r)
unfolding percentile
percentile_rank rank v vs =
    let all = v ∷ vs in
    let ordered = sorted all in
    let same = length-sorted all in
    let r = rank_in (rank (length ordered)) (length ordered) in
    let (low, high) = rank_in_bounds (rank (length ordered)) (length ordered) (omega arith) in
    let (x, e) = get_elem?-some ordered (r - 1) (omega arith) in
    let bounds = ranked x r all low e in
    let agree : r ≡ rank_in (rank (length all)) (length all) = ap (λ n. rank_in (rank n) n) same in
    (x, e, omega arith, omega arith)
