-- ===== src/Oom/Window.antt =====
-- internal/oom/report.go: what a report says of its trajectory.
use k8s_pod_oom_oracle.Base.{List, [], ◌∷◌, pos, if◌then◌else◌}
use k8s_pod_oom_oracle.Float.{FloatOps}
use k8s_pod_oom_oracle.Clock.{Time, Duration, time_sub}
use k8s_pod_oom_oracle.Oom.Report.{Report, TrajectoryPoint}

module _ {R : Type 0} where
  last_time : Time → List (TrajectoryPoint R) → Time
  last_time t [] = t
  last_time t (p ∷ ps) = last_time p.time ps

  window_of : List (TrajectoryPoint R) → Duration
  unfolding last_time
  window_of [] = pos 0
  window_of (p ∷ []) = pos 0
  window_of (p ∷ q ∷ ps) = time_sub (last_time q.time ps) p.time

  -- `Window`
  pub window : Report R → Duration
  unfolding window_of
  window r = window_of r.trajectory

module _ {R : Type 0} ⦃fl : FloatOps R⦄ where
  higher_ratio : R → List (TrajectoryPoint R) → R
  higher_ratio peak [] = peak
  higher_ratio peak (p ∷ ps) =
      let replaced = higher_ratio p.ratio ps in
      let same = higher_ratio peak ps in if fl.lt peak p.ratio then replaced else same

  -- `PeakRatio`
  pub peak_ratio : Report R → R
  unfolding higher_ratio
  peak_ratio r = higher_ratio fl.zero_float r.trajectory
