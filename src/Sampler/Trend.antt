-- ===== src/Sampler/Trend.antt =====
-- internal/sampler/trend.go: the least-squares fit over buffered samples, and its projection.
mod Tests
use k8s_pod_oom_oracle.Base.{
  ℕ, zero, suc, Bool, true, false, ◌||◌, ◌&&◌, List, [], ◌∷◌, ℤ, pos, ◌==◌, if◌then◌else◌, length,
  Option, none, some,
}
use k8s_pod_oom_oracle.Float.{FloatOps}
use k8s_pod_oom_oracle.Clock.{Time, Duration, time_sub, max_int64, second}
use k8s_pod_oom_oracle.Cgroup.Stats.{MemoryStats, unlimited, headroom}
use k8s_pod_oom_oracle.Sampler.Sample.{Sample, Trend}

-- The last of the samples, where the first is given apart.
pub newest : {R : Type 0} → Sample R → List (Sample R) → Sample R
newest s [] = s
newest s (t ∷ ts) = newest t ts

module _ {R : Type 0} ⦃fl : FloatOps R⦄ where
  -- a == b on float64
  equal_float : R → R → Bool
  equal_float a b = fl.le a b && fl.le b a

  elapsed : Time → Sample R → R
  elapsed origin s = fl.seconds (time_sub s.time origin)

  used : Sample R → R
  used s = fl.of_uint s.stats.current

  -- The first loop of `fitSlope`: the sums of x and of y.
  sums : Time → List (Sample R) → R × R → R × R
  unfolding elapsed used
  sums origin [] acc = acc
  sums origin (s ∷ ss) (x, y) = sums origin ss (fl.add x (elapsed origin s), fl.add y (used s))

  -- The second: the covariance and the variance of x.
  moments : Time → R → R → List (Sample R) → R × R → R × R
  unfolding elapsed used
  moments origin mean_x mean_y [] acc = acc
  moments origin mean_x mean_y (s ∷ ss) (covariance, variance) =
      let dx = fl.sub (elapsed origin s) mean_x in
      moments origin mean_x mean_y ss
        (fl.add covariance (fl.mul dx (fl.sub (used s) mean_y)), fl.add variance (fl.mul dx dx))

  -- The third: the residual and the total sum of squares.
  squares : Time → R → R → R → List (Sample R) → R × R → R × R
  unfolding elapsed used
  squares origin slope intercept mean_y [] acc = acc
  squares origin slope intercept mean_y (s ∷ ss) (residual, total) =
      let predicted = fl.add intercept (fl.mul slope (elapsed origin s)) in
      let off = fl.sub (used s) predicted in
      let from_mean = fl.sub (used s) mean_y in
      squares origin slope intercept mean_y ss
        (fl.add residual (fl.mul off off), fl.add total (fl.mul from_mean from_mean))

  -- What `fitSlope` does behind the test of the variance.
  fit_quality : Time → R → R → R → List (Sample R) → R × R
  unfolding squares equal_float
  fit_quality origin slope mean_x mean_y ss =
      let intercept = fl.sub mean_y (fl.mul slope mean_x) in
      let (residual, total) =
        squares origin slope intercept mean_y ss (fl.zero_float, fl.zero_float) in
      if equal_float total fl.zero_float then (slope, fl.one_float) else (
        slope,
        fl.max_float fl.zero_float
            (fl.min_float fl.one_float (fl.sub fl.one_float (fl.div residual total))),
      )

  -- `fitSlope`: the slope and R squared.
  pub fit_slope : List (Sample R) → Time → Option (R × R)
  unfolding sums moments fit_quality equal_float
  fit_slope ss origin =
      let n = fl.of_uint (length ss) in
      let (sum_x, sum_y) = sums origin ss (fl.zero_float, fl.zero_float) in
      let mean_x = fl.div sum_x n in
      let mean_y = fl.div sum_y n in
      let (covariance, variance) = moments origin mean_x mean_y ss (fl.zero_float, fl.zero_float) in
      if equal_float variance fl.zero_float
      then none
      else some (fit_quality origin (fl.div covariance variance) mean_x mean_y ss)

  -- Above this many seconds a duration overflows int64 nanoseconds.
  pub longest : R
  longest = fl.div (fl.of_uint max_int64) (fl.of_uint second)

  -- `projectTimeToLimit`
  pub project_time_to_limit : MemoryStats → R → Duration × Bool
  unfolding headroom longest
  project_time_to_limit stats rate =
      let room = headroom stats in
      let seconds = fl.div (fl.of_uint room) rate in
      if fl.le rate fl.zero_float || (stats.limit == unlimited || stats.limit == 0)
      then (pos 0, false)
      else if room == 0
      then (pos 0, true)
      else if fl.le longest seconds
      then (pos 0, false)
      else (fl.to_duration (fl.mul seconds (fl.of_uint second)), true)

  -- `Trend{Samples: n}`
  pub no_trend : ℕ → Trend R
  no_trend n = record {
    bytes_per_second = fl.zero_float;
    r_squared = fl.zero_float;
    samples = n;
    window = pos 0;
    time_to_limit = pos 0;
    projected = false;
  }

  pub fitted : ℕ → Duration → MemoryStats → Option (R × R) → Trend R
  unfolding no_trend project_time_to_limit
  fitted n window latest none = record (no_trend n) { window = window }
  fitted n window latest (some (slope, r_squared)) =
      let (time_to_limit, projected) = project_time_to_limit latest slope in
      record {
        bytes_per_second = slope;
        r_squared = r_squared;
        samples = n;
        window = window;
        time_to_limit = time_to_limit;
        projected = projected;
      }

  -- `Analyse`
  pub analyse : List (Sample R) → Trend R
  unfolding no_trend newest fit_slope fitted
  analyse [] = no_trend 0
  analyse (s ∷ []) = no_trend 1
  analyse (s ∷ t ∷ ss) =
      let latest = newest t ss in
      fitted (length (s ∷ t ∷ ss)) (time_sub latest.time s.time) latest.stats
        (fit_slope (s ∷ t ∷ ss) s.time)
