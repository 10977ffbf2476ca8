-- ===== src/Correlate/Identity.antt =====
-- internal/correlate/cgrouppath.go and resolver.go: what a cgroup path and the API server say of a
-- container. `unset` is the empty string that a zero value holds.
use k8s_pod_oom_oracle.Base.{Str, [], Bool, false, Map}

pub data QosClass : Type 0 where
  unset guaranteed burstable best_effort unknown : QosClass

pub data Driver : Type 0 where
  unset systemd cgroupfs unknown : Driver

pub data Runtime : Type 0 where
  unset containerd cri_o docker unknown : Runtime

pub data ScopeKind : Type 0 where
  unset container pod : ScopeKind

pub record Scope : Type 0 where
  pub pod_uid : Str
  pub container_id : Str
  pub kind : ScopeKind
  pub qos : QosClass
  pub driver : Driver
  pub runtime : Runtime
  pub cgroup_path : Str

abbrev pub no_scope : Scope
no_scope = record {
  pod_uid = [];
  container_id = [];
  kind = ScopeKind.unset;
  qos = QosClass.unset;
  driver = Driver.unset;
  runtime = Runtime.unset;
  cgroup_path = [];
}

pub record ContainerInfo : Type 0 where
  pub name : Str
  pub image : Str

pub record PodInfo : Type 0 where
  pub namespace : Str
  pub name : Str
  pub node : Str
  pub containers : Map Str ContainerInfo

-- `Scope` is embedded in the Go struct.
pub record Identity : Type 0 where
  pub scope : Scope
  pub namespace : Str
  pub pod_name : Str
  pub container_name : Str
  pub image : Str
  pub resolved : Bool

-- An identity that carries only what the path proves.
abbrev pub of_scope : Scope → Identity
of_scope s = record {
  scope = s;
  namespace = [];
  pod_name = [];
  container_name = [];
  image = [];
  resolved = false;
}
