-- ===== src/Drive/Percentile.antt =====
-- `percentile`, over times in whole units. `rank n` stands for `math.ceil(fraction * n)`, a float's.
pub mod Laws
use omashiki.Common.{
  ℕ, suc, ◌-◌, min, max, Option, none, some, List, [], ◌∷◌, leb, length, get_elem?, if◌then◌else◌,
}
use omashiki.Common.Int.{ℤ, pos_part}

-- `sorted(values)`
pub insert : ℕ → List ℕ → List ℕ
insert v [] = v ∷ []
insert v (w ∷ ws) = if leb v w then v ∷ w ∷ ws else w ∷ insert v ws

pub sorted : List ℕ → List ℕ
unfolding insert
sorted [] = []
sorted (v ∷ vs) = insert v (sorted vs)

-- `min(max(rank, 1), len(ordered))`
pub rank_in : ℤ → ℕ → ℕ
rank_in rank n = min (max (pos_part rank) 1) n

pub percentile : (ℕ → ℤ) → List ℕ → Option ℕ
unfolding rank_in
percentile rank [] = none
percentile rank (v ∷ vs) =
    let ordered = sorted (v ∷ vs) in
    get_elem? ordered (rank_in (rank (length ordered)) (length ordered) - 1)
