-- ===== src/Cgroup/Reader.antt =====
-- The part of `cgroup.FS` that the sampler, the poller and the daemon call, as an interface. Each
-- read is of the hierarchy at that moment.
use k8s_pod_oom_oracle.Base.{ℤ, Str, List, Bool}
use k8s_pod_oom_oracle.Cgroup.Stats.{MemoryStats, Psi, Version}

-- The errors that callers tell apart: fs.ErrNotExist, fs.ErrPermission, ErrPSIUnsupported and all
-- others.
pub data ReadError : Type 0 where
  not_exist permission psi_unsupported other_error : ReadError

pub data Read (A : Type 0) : Type 0 where
  ok : A → Read A
  err : ReadError → Read A

infixl 5 ◌>>=◌
abbrev pub ◌>>=◌ : {A B : Type 0} → Read A → (A → Read B) → Read B
ok a >>= f = f a
err e >>= f = err e

pub record Reader (R : Type 0) : Type 0 where
  pub version : Version
  pub discover : Str → Read (List Str)
  pub read_memory_stats : Str → Read MemoryStats
  pub read_psi : Str → Read (Psi R)
  pub procs_in : Str → Read (List ℤ)
  pub read_oom_group : Str → Read Bool
