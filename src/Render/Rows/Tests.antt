-- ===== src/Render/Rows/Tests.antt =====
-- Nine readings with a spike that even spacing would miss.
use k8s_pod_oom_oracle.Base.{
  ℕ, ◌≡◌, ◌-◌, refl, some, List, [], ◌∷◌, length, arith, map, replicate, ◌++◌,
}
use k8s_pod_oom_oracle.Oom.Report.{TrajectoryPoint}
use k8s_pod_oom_oracle.Render.Rows.{
  counted, even_indices, nearest_from, nearest, not_at_end, insert_index, sort_indices, with_peak,
  rows_at, peak_from, peak_of, row_indices, trajectory_rows,
}
use k8s_pod_oom_oracle.Render.Rows.Kept.{AreRows, IsPeak, trajectory_rows-AreRows}

abbrev reading : ℕ → TrajectoryPoint Unit
reading used = record {
  time = 0;
  used_bytes = used;
  limit_bytes = 0;
  ratio = tt;
  pressure_full = tt;
}

abbrev readings : List (TrajectoryPoint Unit)
readings = map reading (replicate 10 1) ++ reading 500 ∷ map reading (replicate 10 1)

-- The spike at index 10 is among the rows.
spike : row_indices readings 8 ≡ 0 ∷ 2 ∷ 5 ∷ 8 ∷ 10 ∷ 14 ∷ 17 ∷ 20 ∷ []
unfolding row_indices with_peak sort_indices insert_index not_at_end nearest nearest_from
    even_indices counted peak_of peak_from
spike = refl

trajectory_rows-AreRows_example :
    (is : List ℕ) × (peak : ℕ) × (rows : List (TrajectoryPoint Unit)) × (trajectory_rows readings 8
      ≡ some rows)
    × (rows_at readings is ≡ some rows)
    × AreRows (length readings - 1) peak is
    × IsPeak readings peak
trajectory_rows-AreRows_example = trajectory_rows-AreRows readings (omega arith)
