-- ===== src/Sampler/Trend/Tests.antt =====
-- A hundred bytes a second, with eight hundred left.
use k8s_pod_oom_oracle.Base.{ℕ, pos, ◌≡◌, refl, true, [], ◌∷◌}
use k8s_pod_oom_oracle.Clock.{time_sub}
use k8s_pod_oom_oracle.Float.Fixtures.{whole_numbers}
use k8s_pod_oom_oracle.Cgroup.Stats.{no_stats, headroom}
use k8s_pod_oom_oracle.Sampler.Sample.{Sample, Trend}
use k8s_pod_oom_oracle.Sampler.Trend.{
  newest, equal_float, elapsed, used, sums, moments, squares, fit_quality, fit_slope, longest,
  project_time_to_limit, no_trend, fitted, analyse,
}

abbrev reading : ℕ → ℕ → Sample ℕ
reading time current = record {
  time = time;
  stats = record no_stats { current = current; limit = 1000 };
  psi = record {
    some_line = record { avg10 = 0; avg60 = 0; avg300 = 0; total = 0 };
    full_line = record { avg10 = 0; avg60 = 0; avg300 = 0; total = 0 };
  };
}

abbrev growing : Trend ℕ
growing = record {
  bytes_per_second = 100;
  r_squared = 1;
  samples = 2;
  window = pos 2000000000;
  time_to_limit = pos 8000000000;
  projected = true;
}

analyse-growing : analyse ⦃fl = whole_numbers⦄ (reading 0 0 ∷ reading 2000000000 200 ∷ []) ≡ growing
unfolding analyse newest time_sub fit_slope equal_float elapsed used sums moments squares
    fit_quality longest project_time_to_limit no_trend fitted headroom
analyse-growing = refl
