-- ===== src/Oom/Processes.antt =====
-- internal/oom/report.go: `ProcessesFrom`, which takes the victim out of a process listing, and
-- `TrajectoryFrom`.
pub mod Removal
mod Tests
use k8s_pod_oom_oracle.Base.{
  ℕ, suc, ◌+◌, ℤ, pos, ◌==ℤ◌, List, [], ◌∷◌, Bool, true, false, ◌==◌, if◌then◌else◌, ◌&&◌, not,
}
use k8s_pod_oom_oracle.Float.{FloatOps}
use k8s_pod_oom_oracle.Cgroup.Stats.{unlimited, usage_ratio}
use k8s_pod_oom_oracle.Sampler.Sample.{Sample}
use k8s_pod_oom_oracle.Procfs.Process.{Process}
use k8s_pod_oom_oracle.Detector.Event.{Victim}
use k8s_pod_oom_oracle.Oom.Report.{TrajectoryPoint, ProcessSnapshot, VictimMatch}

pub snapshot_of : Process → ProcessSnapshot
snapshot_of p = record {
  pid = p.pid;
  ns_pid = p.ns_pid;
  comm = p.comm;
  cmdline = p.cmdline;
  rss_bytes = p.rss_bytes;
}

-- `victimMatch`
pub victim_match : Process → Victim → Bool → VictimMatch
victim_match p v ns_match =
    if not (v.pid ==ℤ pos 0) && (p.pid ==ℤ v.pid)
    then VictimMatch.host_pid
    else if ns_match && not (v.ns_pid ==ℤ pos 0) && (p.ns_pid ==ℤ v.ns_pid)
    then VictimMatch.ns_pid
    else VictimMatch.none_matched

-- How many processes carry a container-namespace PID.
pub count_ns_pid : ℤ → List Process → ℕ
count_ns_pid ns_pid [] = 0
count_ns_pid ns_pid (p ∷ ps) = (if p.ns_pid ==ℤ ns_pid then 1 else 0) + count_ns_pid ns_pid ps

-- `victimNSPidIsUnambiguous`
pub ns_pid_is_unambiguous : List Process → ℤ → Bool
unfolding count_ns_pid
ns_pid_is_unambiguous ps ns_pid = if ns_pid ==ℤ pos 0 then false else count_ns_pid ns_pid ps == 1

-- Whether a match is one; only two of the values are given by `victim_match`.
pub is_match : VictimMatch → Bool
is_match VictimMatch.host_pid = true
is_match VictimMatch.ns_pid = true
is_match _ = false

keep : ProcessSnapshot → List ProcessSnapshot × VictimMatch → List ProcessSnapshot × VictimMatch
keep s (ss, m) = (s ∷ ss, m)

-- The loop of `ProcessesFrom`, at the match that it has found so far.
pub drop_victim : Victim → Bool → VictimMatch → List Process → List ProcessSnapshot × VictimMatch
unfolding keep victim_match is_match snapshot_of
drop_victim v ns_match found [] = ([], found)
drop_victim v ns_match found (p ∷ ps) =
    let here = victim_match p v ns_match in
    let dropped = drop_victim v ns_match here ps in
    let kept = keep (snapshot_of p) (drop_victim v ns_match found ps) in
    if is_match here && not (is_match found) then dropped else kept

pub processes_from : List Process → Victim → List ProcessSnapshot × VictimMatch
unfolding drop_victim ns_pid_is_unambiguous
processes_from ps v = drop_victim v (ns_pid_is_unambiguous ps v.ns_pid) VictimMatch.none_matched ps

module _ {R : Type 0} ⦃fl : FloatOps R⦄ where
  point_of : Sample R → TrajectoryPoint R
  point_of s = record {
    time = s.time;
    used_bytes = s.stats.current;
    limit_bytes = if s.stats.limit == unlimited then 0 else s.stats.limit;
    ratio = usage_ratio s.stats;
    pressure_full = s.psi.full_line.avg10;
  }

  -- `TrajectoryFrom`
  pub trajectory_from : List (Sample R) → List (TrajectoryPoint R)
  unfolding point_of
  trajectory_from [] = []
  trajectory_from (s ∷ ss) = point_of s ∷ trajectory_from ss
