-- ===== src/Render/Rows/Kept.antt =====
-- The rows of a trajectory: the first reading, the last and the highest are among them, in time order.
use k8s_pod_oom_oracle.Base.{
  ℕ, zero, suc, ◌+◌, ◌-◌, ◌*◌, ◌/◌, ltb, ◌<◌, leb, ◌≤◌, ◌≡◌, subst, refl, sym, ◌∙◌, ◌⊎◌, inl, inr,
  true, some, none, Option, List, [], ◌∷◌, ◌++◌, length, set, get_elem?, get_elem?-some, arith,
  Bool-cases, length-set,
}
use k8s_pod_oom_oracle.Oom.Report.{TrajectoryPoint}
use k8s_pod_oom_oracle.Render.Rows.Sorted.{
  AreAscending, AllBelow, sort_indices-AreAscending, contains-sort_indices, length-sort_indices,
  sort_indices-AllBelow,
}
use k8s_pod_oom_oracle.Render.Rows.{
  counted, even_indices, nearest_from, distance, nearest, not_at_end, sort_indices, contains_index,
  with_peak, cons_row, rows_at, peak_from, peak_of, row_indices, trajectory_rows,
}

contains-last : (xs : List ℕ) (z : ℕ) → contains_index z (xs ++ z ∷ []) ≡ true
contains-last [] z = ground arith
contains-last (x ∷ xs) z = ground (arith, contains-last xs z)

-- What an index list has after a place that is not the last was overwritten.
contains-set_last :
    (xs : List ℕ) (z i v : ℕ) → i < length xs → contains_index z (set (xs ++ z ∷ []) i v) ≡ true
contains-set_last [] z i v h = absurd (omega arith)
contains-set_last (x ∷ xs) z zero v h = ground (arith, contains-last xs z)
contains-set_last (x ∷ xs) z (suc i) v h = ground (arith, contains-set_last xs z i v)

contains-set : (xs : List ℕ) (i v : ℕ) → i < length xs → contains_index v (set xs i v) ≡ true
contains-set [] i v h = absurd (omega arith)
contains-set (x ∷ xs) zero v h = ground arith
contains-set (x ∷ xs) (suc i) v h = ground (arith, contains-set xs i v)

set-AllBelow : (n : ℕ) (xs : List ℕ) (i v : ℕ) → v < n → AllBelow n xs → AllBelow n (set xs i v)
set-AllBelow n [] i v h a = tt
set-AllBelow n (x ∷ xs) zero v h (k, a) = (h, a)
set-AllBelow n (x ∷ xs) (suc i) v h (k, a) = (k, set-AllBelow n xs i v h a)

nearest_from-bound :
    (peak i best far : ℕ) (xs : List ℕ) (n : ℕ)
    → best < n
    → i + length xs ≤ n
    → nearest_from peak i best far xs < n
unfolding nearest_from
nearest_from-bound peak i best far [] n h k = h
nearest_from-bound peak i best far (x ∷ xs) n h k = ground (
  arith,
  nearest_from-bound peak (suc i) i (distance x peak) xs n,
  nearest_from-bound peak (suc i) best far xs n,
)

nearest-bound : (peak x : ℕ) (xs : List ℕ) → nearest peak (x ∷ xs) < suc (length xs)
unfolding nearest
nearest-bound peak x xs =
    nearest_from-bound peak 1 0 (distance x peak) xs (suc (length xs)) (omega arith) (omega arith)

not_at_end-inside : (i : ℕ) → i < 8 → (1 ≤ not_at_end 8 i) × (not_at_end 8 i < 7)
unfolding not_at_end
not_at_end-inside i h = ground arith

rows_at-some :
    {A : Type 0} (points : List A) (is : List ℕ)
    → AllBelow (length points) is
    → (rows : List A) × (rows_at points is ≡ some rows)
unfolding rows_at cons_row
rows_at-some points [] h = ([], refl)
rows_at-some points (i ∷ is) (h, hs) =
    let (p, e) = get_elem?-some points i h in
    let (rows, f) = rows_at-some points is hs in (p ∷ rows, rw (e, f) refl)

module _ {R : Type 0} where
  -- No reading of the list uses more.
  abbrev pub AllAtMost : ℕ → List (TrajectoryPoint R) → Type 0
  AllAtMost used [] = Unit
  AllAtMost used (p ∷ ps) = (p.used_bytes ≤ used) × AllAtMost used ps

  -- The reading at an index is there, and none uses more.
  abbrev pub IsPeak : List (TrajectoryPoint R) → ℕ → Type 0
  IsPeak points k =
      (p : TrajectoryPoint R) × (get_elem? points k ≡ some p) × AllAtMost p.used_bytes points

  Found : ℕ → ℕ → ℕ → List (TrajectoryPoint R) → ℕ → Type 0
  Found i best used ps k =
      AllAtMost used ps × (k ≡ best)
      ⊎ ((j : ℕ) × (p : TrajectoryPoint R) × (k ≡ i + j)
          × (get_elem? ps j ≡ some p)
          × (used ≤ p.used_bytes)
          × AllAtMost p.used_bytes ps)

  peak_from-Found :
      (i best used : ℕ) (ps : List (TrajectoryPoint R))
      → Found i best used ps (peak_from i best used ps)
  unfolding Found peak_from
  peak_from-Found i best used [] = inl (tt, refl)
  peak_from-Found i best used (p ∷ ps) = elim (Bool-cases (ltb used p.used_bytes)) [
    | inl e ↦ rw e (elim (peak_from-Found (suc i) i p.used_bytes ps) [
      | inl (all, k) ↦ inr (0, p, k ∙ omega arith, refl, ground arith, (omega arith, all))
      | inr (j, q, k, at, le, all) ↦ inr (suc j, q, k ∙ omega arith, at, ground arith, (le, all))
    ])
    | inr e ↦ rw e (elim (peak_from-Found (suc i) best used ps) [
      | inl (all, k) ↦ inl ((ground arith, all), k)
      | inr (j, q, k, at, le, all) ↦ inr (suc j, q, k ∙ omega arith, at, le, (ground arith, all))
    ])
  ]

  peak_of-IsPeak :
      (p : TrajectoryPoint R) (ps : List (TrajectoryPoint R)) → IsPeak (p ∷ ps) (peak_of (p ∷ ps))
  unfolding peak_of Found
  peak_of-IsPeak p ps = elim (peak_from-Found 1 0 p.used_bytes ps) [
    | inl (all, k) ↦ rw k (p, refl, (omega arith, all))
    | inr (j, q, k, at, le, all) ↦
        let behind : peak_of (p ∷ ps) ≡ suc j = k ∙ omega arith in rw behind (q, at, (le, all))
  ]

-- The even spacing of eight rows up to index `z`, without its ends.
abbrev inner_spacing : ℕ → List ℕ
inner_spacing z = 1 * z / 7 ∷ 2 * z / 7 ∷ 3 * z / 7 ∷ 4 * z / 7 ∷ 5 * z / 7 ∷ 6 * z / 7 ∷ []

abbrev spacing : ℕ → List ℕ
spacing z = 0 ∷ (inner_spacing z ++ z ∷ [])

even_indices-eight : (n z : ℕ) → n ≡ suc z → even_indices n 8 ≡ spacing z
unfolding even_indices counted
even_indices-eight n z h =
    let last : n - 1 ≡ z = omega arith in
    let low : 0 * z / 7 ≡ 0 = omega arith in
    let high : 7 * z / 7 ≡ z = omega arith in rw (last, low, high) refl

-- What the indices of eight rows are, with a peak among them, where the last reading is at `z`.
abbrev pub AreRows : ℕ → ℕ → List ℕ → Type 0
AreRows z peak is =
    AreAscending is
    × AllBelow (suc z) is
    × (length is ≡ 8)
    × (contains_index 0 is ≡ true)
    × (contains_index z is ≡ true)
    × (contains_index peak is ≡ true)

spacing-AllBelow : (z : ℕ) → AllBelow (suc z) (spacing z)
spacing-AllBelow z = (
  omega arith,
  (
    omega arith,
    (omega arith, (omega arith, (omega arith, (omega arith, (omega arith, (omega arith, tt)))))),
  ),
)

spacing-AreAscending : (z : ℕ) → AreAscending (spacing z)
spacing-AreAscending z = (
  omega arith,
  (omega arith, (omega arith, (omega arith, (omega arith, (omega arith, (omega arith, tt)))))),
)

-- The rows once the peak stands at a place that is neither the first nor the last.
placed-AreRows :
    (z peak i : ℕ)
    → peak < suc z
    → i < 6
    → AreRows z peak (sort_indices (set (spacing z) (suc i) peak))
placed-AreRows z peak i h k =
    let xs : List ℕ = set (spacing z) (suc i) peak in
    (
      sort_indices-AreAscending xs,
      sort_indices-AllBelow (suc z) xs
          (set-AllBelow (suc z) (spacing z) (suc i) peak h (spacing-AllBelow z)),
      length-sort_indices xs ∙ length-set (spacing z) (suc i) peak,
      contains-sort_indices 0 xs,
      contains-sort_indices z xs ∙ ground (arith, contains-set_last (inner_spacing z) z i peak),
      contains-sort_indices peak xs ∙ contains-set (spacing z) (suc i) peak (omega arith),
    )

from_one : (j : ℕ) → 1 ≤ j → (i : ℕ) × (j ≡ suc i)
from_one zero h = absurd (omega arith)
from_one (suc i) h = (i, refl)

moved-AreRows :
    (z peak j : ℕ)
    → peak < suc z
    → 1 ≤ j
    → j < 7
    → AreRows z peak (sort_indices (set (spacing z) j peak))
moved-AreRows z peak j h k l =
    let (i, e) = from_one j k in
    subst (λ j. AreRows z peak (sort_indices (set (spacing z) j peak))) (sym e)
      (placed-AreRows z peak i h (omega arith))

with_peak-AreRows : (z peak : ℕ) → peak < suc z → AreRows z peak (with_peak peak (spacing z))
unfolding with_peak
with_peak-AreRows z peak h = elim (Bool-cases (contains_index peak (spacing z))) [
  | inl e ↦
      rw (with_peak, e)
        (
          spacing-AreAscending z,
          spacing-AllBelow z,
          refl,
          refl,
          contains-last (0 ∷ inner_spacing z) z,
          e,
        )
  | inr e ↦
      rw (with_peak, e)
        (let (k, l) =
            not_at_end-inside (nearest peak (spacing z))
              (nearest-bound peak 0 (inner_spacing z ++ z ∷ [])) in
          moved-AreRows z peak (not_at_end 8 (nearest peak (spacing z))) h k l)
]

get_elem?-below :
    {A : Type 0} (xs : List A) (k : ℕ) (x : A) → get_elem? xs k ≡ some x → k < length xs
get_elem?-below [] k x h = cc
get_elem?-below (y ∷ ys) zero x h = omega arith
get_elem?-below (y ∷ ys) (suc k) x h = omega (arith, get_elem?-below ys k x h)

trajectory_rows-many :
    {R : Type 0} (points : List (TrajectoryPoint R))
    → 8 < length points
    → trajectory_rows points 8 ≡ rows_at points (row_indices points 8)
unfolding trajectory_rows
trajectory_rows-many points h = ground arith

row_indices-AreRows :
    {R : Type 0} (p : TrajectoryPoint R) (ps : List (TrajectoryPoint R))
    → IsPeak (p ∷ ps) (peak_of (p ∷ ps))
    → AreRows (length ps) (peak_of (p ∷ ps)) (row_indices (p ∷ ps) 8)
unfolding row_indices
row_indices-AreRows p ps (top, at, all) =
    subst (λ is. AreRows (length ps) (peak_of (p ∷ ps)) (with_peak (peak_of (p ∷ ps)) is))
      (sym (even_indices-eight (length (p ∷ ps)) (length ps) refl))
      (with_peak-AreRows (length ps) (peak_of (p ∷ ps))
        (get_elem?-below (p ∷ ps) (peak_of (p ∷ ps)) top at))

abbrev pub AllOf : {A : Type 0} → (A → Type 0) → List A → Type 0
AllOf P [] = Unit
AllOf P (x ∷ xs) = P x × AllOf P xs

cons_row-parts :
    {A : Type 0} (o : Option A) (os : Option (List A)) (rows : List A)
    → cons_row o os ≡ some rows
    → (x : A) × (xs : List A) × (o ≡ some x) × (os ≡ some xs) × (rows ≡ x ∷ xs)
unfolding cons_row
cons_row-parts none os rows h = cc
cons_row-parts (some x) none rows h = cc
cons_row-parts (some x) (some xs) rows h = (x, xs, refl, refl, cc)

at-AllOf :
    {A : Type 0} (P : A → Type 0) (points : List A) (i : ℕ) (x : A)
    → AllOf P points
    → get_elem? points i ≡ some x
    → P x
at-AllOf P [] i x h e = cc
at-AllOf P (y ∷ ys) zero x (h, hs) e = let same : y ≡ x = cc in subst P same h
at-AllOf P (y ∷ ys) (suc i) x (h, hs) e = at-AllOf P ys i x hs e

rows_at-AllOf :
    {A : Type 0} (P : A → Type 0) (points : List A) (is : List ℕ) (rows : List A)
    → AllOf P points
    → rows_at points is ≡ some rows
    → AllOf P rows
unfolding rows_at
rows_at-AllOf P points [] rows h e = let none_left : [] ≡ rows = cc in subst (AllOf P) none_left tt
rows_at-AllOf P points (i ∷ is) rows h e =
    let (x, xs, at, rest, split) = cons_row-parts (get_elem? points i) (rows_at points is) rows e in
    subst (AllOf P) (sym split) (at-AllOf P points i x h at, rows_at-AllOf P points is xs h rest)

-- Of more than eight readings, eight rows are printed: they are readings in time order, and the
-- first reading, the last one and one that uses the most are among them.
pub trajectory_rows-AreRows :
    {R : Type 0} (points : List (TrajectoryPoint R))
    → 8 < length points
    → (is : List ℕ) × (peak : ℕ) × (rows : List (TrajectoryPoint R)) × (trajectory_rows points 8
        ≡ some rows)
      × (rows_at points is ≡ some rows)
      × AreRows (length points - 1) peak is
      × IsPeak points peak
trajectory_rows-AreRows [] h = absurd (omega arith)
trajectory_rows-AreRows (p ∷ ps) h =
    let peak = peak_of-IsPeak p ps in
    let are = row_indices-AreRows p ps peak in
    let (rows, e) = rows_at-some (p ∷ ps) (row_indices (p ∷ ps) 8) are.1 in
    let last : length ps ≡ length (p ∷ ps) - 1 = omega arith in
    (
      row_indices (p ∷ ps) 8,
      peak_of (p ∷ ps),
      rows,
      trajectory_rows-many (p ∷ ps) h ∙ e,
      e,
      subst (λ z. AreRows z (peak_of (p ∷ ps)) (row_indices (p ∷ ps) 8)) last are,
      peak,
    )

few_rows :
    {R : Type 0} (points : List (TrajectoryPoint R))
    → leb (length points) 8 ≡ true
    → trajectory_rows points 8 ≡ some points
unfolding trajectory_rows
few_rows points h = ground arith

-- What holds of all readings holds of the rows, and there are rows.
pub trajectory_rows-AllOf :
    {R : Type 0} (P : TrajectoryPoint R → Type 0) (points : List (TrajectoryPoint R))
    → AllOf P points
    → (rows : List (TrajectoryPoint R)) × (trajectory_rows points 8 ≡ some rows) × AllOf P rows
trajectory_rows-AllOf P points h = elim (Bool-cases (leb (length points) 8)) [
  | inl e ↦ (points, few_rows points e, h)
  | inr e ↦
      let (is, peak, rows, there, at, are, top) = trajectory_rows-AreRows points (ground arith) in
      (rows, there, rows_at-AllOf P points is rows h at)
]
