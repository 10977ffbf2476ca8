-- ===== src/Sampler/Sample.antt =====
-- internal/sampler/ring.go and trend.go: the values that the sampler keeps.
use k8s_pod_oom_oracle.Base.{ℕ, Bool}
use k8s_pod_oom_oracle.Clock.{Time, Duration}
use k8s_pod_oom_oracle.Cgroup.Stats.{MemoryStats, Psi}

pub record Sample (R : Type 0) : Type 0 where
  pub time : Time
  pub stats : MemoryStats
  pub psi : Psi R

pub record Trend (R : Type 0) : Type 0 where
  pub bytes_per_second : R
  pub r_squared : R
  pub samples : ℕ
  pub window : Duration
  pub time_to_limit : Duration
  pub projected : Bool
