-- ===== src/Detector/Event.antt =====
-- internal/detector/detector.go: a kill as a detector reports it.
use k8s_pod_oom_oracle.Base.{ℕ, ℤ, pos, Str, List, [], Bool, true, false, Option}
use k8s_pod_oom_oracle.Clock.{Time}
use k8s_pod_oom_oracle.Procfs.Process.{Process}

pub data Source : Type 0 where
  ebpf poller fake : Source

pub record Victim : Type 0 where
  pub pid : ℤ
  pub ns_pid : ℤ
  pub comm : Str
  pub cmdline : List Str
  pub rss_bytes : ℕ
  pub inferred : Bool
  pub known : Bool

-- `Victim{}`
abbrev pub no_victim : Victim
no_victim = record {
  pid = pos 0;
  ns_pid = pos 0;
  comm = [];
  cmdline = [];
  rss_bytes = 0;
  inferred = false;
  known = false;
}

-- `group_kill` is a *bool: `none` means that it could not be read.
pub record KillEvent : Type 0 where
  pub time : Time
  pub cgroup_path : Str
  pub victim : Victim
  pub kill_count : ℕ
  pub group_kill : Option Bool
  pub source : Source

pub victim_from_process : Process → Victim
victim_from_process p = record {
  pid = p.pid;
  ns_pid = p.ns_pid;
  comm = p.comm;
  cmdline = p.cmdline;
  rss_bytes = p.rss_bytes;
  inferred = true;
  known = true;
}
