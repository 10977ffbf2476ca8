-- ===== src/Render/Rows.antt =====
-- internal/render/text.go: `trajectoryRows`, which picks the readings to print.
pub mod Sorted
pub mod Kept
mod Tests
use k8s_pod_oom_oracle.Base.{
  ℕ, zero, suc, ◌+◌, ◌-◌, ◌*◌, ◌/◌, ◌==◌, ltb, leb, Bool, Option, none, some, List, [], ◌∷◌, map,
  length, set, any, get_elem?, if◌then◌else◌, ◌||◌,
}
use k8s_pod_oom_oracle.Oom.Report.{TrajectoryPoint}

abbrev pub max_trajectory_rows : ℕ
max_trajectory_rows = 8

-- `abs` of a difference of two indices.
abbrev pub distance : ℕ → ℕ → ℕ
distance a b = (a - b) + (b - a)

-- The numbers `i`, `i + 1`, … of a loop with `k` rounds.
unfoldable pub counted : ℕ → ℕ → List ℕ
counted i zero = []
counted i (suc k) = i ∷ counted (suc i) k

-- The even spacing. The caller sees to it that `limit` is not one.
pub even_indices : ℕ → ℕ → List ℕ
unfolding counted
even_indices n limit = map (λ i. i * (n - 1) / (limit - 1)) (counted 0 limit)

-- The loop for the nearest: it stands at index `i`, and `best` is at the given distance.
pub nearest_from : ℕ → ℕ → ℕ → ℕ → List ℕ → ℕ
nearest_from peak i best far [] = best
nearest_from peak i best far (x ∷ xs) =
    let closer = nearest_from peak (suc i) i (distance x peak) xs in
    let same = nearest_from peak (suc i) best far xs in
    if ltb (distance x peak) far then closer else same

pub nearest : ℕ → List ℕ → ℕ
unfolding nearest_from
nearest peak [] = 0
nearest peak (x ∷ xs) = nearest_from peak 1 0 (distance x peak) xs

-- The first and the last reading keep their places.
pub not_at_end : ℕ → ℕ → ℕ
not_at_end n i = let j = if i == 0 then 1 else i in if j == n - 1 then n - 2 else j

insert_index : ℕ → List ℕ → List ℕ
insert_index x [] = x ∷ []
insert_index x (y ∷ ys) = let rest = insert_index x ys in if leb x y then x ∷ y ∷ ys else y ∷ rest

-- slices.Sort
pub sort_indices : List ℕ → List ℕ
unfolding insert_index
sort_indices [] = []
sort_indices (x ∷ xs) = insert_index x (sort_indices xs)

-- slices.Contains
abbrev pub contains_index : ℕ → List ℕ → Bool
contains_index x xs = any (λ y. y == x) xs

-- The peak in place of the index that is nearest to it.
pub with_peak : ℕ → List ℕ → List ℕ
unfolding sort_indices not_at_end nearest
with_peak peak indices =
    if contains_index peak indices
    then indices
    else sort_indices (set indices (not_at_end (length indices) (nearest peak indices)) peak)

cons_row : {A : Type 0} → Option A → Option (List A) → Option (List A)
cons_row (some p) (some ps) = some (p ∷ ps)
cons_row _ _ = none

-- The readings at the indices, or `none` where one is out of range.
pub rows_at : {A : Type 0} → List A → List ℕ → Option (List A)
unfolding cons_row
rows_at points [] = some []
rows_at points (i ∷ is) = cons_row (get_elem? points i) (rows_at points is)

module _ {R : Type 0} where
  -- The loop for the peak: it stands at index `i`, and `best` uses the given number of bytes.
  pub peak_from : ℕ → ℕ → ℕ → List (TrajectoryPoint R) → ℕ
  peak_from i best used [] = best
  peak_from i best used (p ∷ ps) =
      let higher = peak_from (suc i) i p.used_bytes ps in
      let same = peak_from (suc i) best used ps in if ltb used p.used_bytes then higher else same

  pub peak_of : List (TrajectoryPoint R) → ℕ
  unfolding peak_from
  peak_of [] = 0
  peak_of (p ∷ ps) = peak_from 1 0 p.used_bytes ps

  pub row_indices : List (TrajectoryPoint R) → ℕ → List ℕ
  unfolding with_peak even_indices peak_of
  row_indices points limit = with_peak (peak_of points) (even_indices (length points) limit)

  -- `trajectoryRows`; a limit of one divides by zero, which is `none` as an index out of range is.
  pub trajectory_rows : List (TrajectoryPoint R) → ℕ → Option (List (TrajectoryPoint R))
  unfolding rows_at row_indices
  trajectory_rows points limit =
      if limit == 0 || leb (length points) limit
      then some points
      else if limit == 1
      then none
      else rows_at points (row_indices points limit)

-- `downsample`
pub downsample : {A : Type 0} → List A → ℕ → Option (List A)
unfolding rows_at even_indices
downsample points limit =
    if limit == 0 || leb (length points) limit
    then some points
    else if limit == 1
    then none
    else rows_at points (even_indices (length points) limit)
