-- ===== src/Procfs/Process.antt =====
-- internal/procfs/procfs.go: a point-in-time view of one process.
use k8s_pod_oom_oracle.Base.{ℕ, ℤ, Str, List}

pub record Process : Type 0 where
  pub pid : ℤ
  pub ns_pid : ℤ
  pub ppid : ℤ
  pub comm : Str
  pub cmdline : List Str
  pub state : Str
  pub rss_bytes : ℕ
  pub vm_size_bytes : ℕ
  pub cgroup_path : Str
  pub pid_namespace : ℕ
