-- ===== src/Oom/Report.antt =====
-- internal/oom/report.go: the post-mortem and the parts it is built from.
use k8s_pod_oom_oracle.Base.{ℕ, ℤ, Str, List, Bool, Option}
use k8s_pod_oom_oracle.Clock.{Time}
use k8s_pod_oom_oracle.Sampler.Sample.{Trend}
use k8s_pod_oom_oracle.Detector.Event.{Victim, Source}
use k8s_pod_oom_oracle.Correlate.Identity.{Identity}

pub record TrajectoryPoint (R : Type 0) : Type 0 where
  pub time : Time
  pub used_bytes : ℕ
  pub limit_bytes : ℕ
  pub ratio : R
  pub pressure_full : R

pub record ProcessSnapshot : Type 0 where
  pub pid : ℤ
  pub ns_pid : ℤ
  pub comm : Str
  pub cmdline : List Str
  pub rss_bytes : ℕ

-- `unset` is the empty string of a report whose listing was never filtered.
pub data VictimMatch : Type 0 where
  unset none_matched host_pid ns_pid : VictimMatch

pub record Report (R : Type 0) : Type 0 where
  pub id : Str
  pub time : Time
  pub identity : Identity
  pub victim : Victim
  pub source : Source
  pub kill_count : ℕ
  pub limit_bytes : ℕ
  pub peak_bytes : ℕ
  pub trajectory : List (TrajectoryPoint R)
  pub processes : List ProcessSnapshot
  pub victim_match : VictimMatch
  pub group_kill : Option Bool
  pub trend : Trend R
