-- ===== src/Correlate/Resolver/Tests.antt =====
-- A container of a pod that is known.
use k8s_pod_oom_oracle.Procfs.Process.{Process}
use k8s_pod_oom_oracle.Correlate.Resolver.{resolve_process}
use k8s_pod_oom_oracle.Base.{none}
use k8s_pod_oom_oracle.Base.{
  pos, same, ◌≡◌, refl, some, [], ◌∷◌, ◌++◌, Str, codes, has_prefix, is_some, cut_prefix, to_lower,
}
use k8s_pod_oom_oracle.Correlate.Identity.{
  QosClass, Driver, Runtime, ScopeKind, Scope, PodInfo, Identity, no_scope, of_scope,
}
use k8s_pod_oom_oracle.Correlate.CgroupPath.{parse_cgroup_path}
use k8s_pod_oom_oracle.Correlate.CgroupPath.Segments.{path_of}
use k8s_pod_oom_oracle.Correlate.CgroupPath.Paths.{parse_cgroup_path-cgroupfs}
use k8s_pod_oom_oracle.Correlate.Resolver.{PodLookup, resolve, map_lookup, is_pod, string_of}
use k8s_pod_oom_oracle.Correlate.Resolver.Names.{IsIdentity, resolve-IsIdentity}

abbrev web : PodInfo
web = record {
  namespace = codes "shop";
  name = codes "web-0";
  node = codes "n1";
  containers = (codes "abc", record { name = codes "app"; image = codes "app:1" }) ∷ [];
}

abbrev pods : PodLookup
pods = map_lookup ((codes "u1", web) ∷ [])

abbrev path : Str
path = path_of (codes "kubepods" ∷ (codes "pod" ++ codes "u1") ∷ codes "abc" ∷ [])

abbrev scope : Scope
scope = record {
  pod_uid = codes "u1";
  container_id = codes "abc";
  kind = ScopeKind.container;
  qos = QosClass.guaranteed;
  driver = Driver.cgroupfs;
  runtime = Runtime.unknown;
  cgroup_path = path;
}

parsed : parse_cgroup_path path ≡ some scope
unfolding has_prefix is_some cut_prefix to_lower
parsed =
    parse_cgroup_path-cgroupfs QosClass.guaranteed (codes "u1") (codes "abc") tt
      ((λ e. cc), refl, ((λ e. cc), refl, tt)) refl refl refl ((λ e. cc), (λ e. cc))

resolve-IsIdentity_example :
    (i : Identity) × (resolve (some pods) path ≡ some i) × (i.scope ≡ scope) × IsIdentity pods i
resolve-IsIdentity_example = resolve-IsIdentity pods path scope parsed

unresolved_name :
    string_of (of_scope (record no_scope { pod_uid = codes "u1"; kind = ScopeKind.pod }))
    ≡ codes "pod u1 (unresolved) (pod-level)"
unfolding string_of is_pod
unresolved_name = refl

-- A process of which the cgroup is not known.
abbrev stray : Process
stray = record {
  pid = pos 9;
  ns_pid = pos 9;
  ppid = pos 1;
  comm = codes "sh";
  cmdline = [];
  state = codes "S";
  rss_bytes = 0;
  vm_size_bytes = 0;
  cgroup_path = [];
  pid_namespace = 0;
}

resolve_process-stray : resolve_process (some pods) stray ≡ none
unfolding resolve_process same
resolve_process-stray = refl
