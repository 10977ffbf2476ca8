-- ===== src/Correlate/Resolver.antt =====
-- internal/correlate/resolver.go: `Resolver`, which joins a cgroup path to a pod and a container. A
-- PodLookup is the function that it calls; there may be none.
pub mod Names
mod Tests
use k8s_pod_oom_oracle.Base.{
  Bool, true, false, Option, none, some, List, [], ◌∷◌, ◌++◌, Map, lookup, Str, same, codes,
  str_discrete, if◌then◌else◌, not, ◌&&◌,
}
use k8s_pod_oom_oracle.Procfs.Process.{Process}
use k8s_pod_oom_oracle.Correlate.Identity.{
  ScopeKind, Scope, ContainerInfo, PodInfo, Identity, of_scope,
}
use k8s_pod_oom_oracle.Correlate.CgroupPath.{parse_cgroup_path}

abbrev pub PodLookup : Type 0
PodLookup = Str → Option PodInfo

-- The container's fields, for a container that the pod lists; a pod scope borrows none.
pub with_container : ScopeKind → Option ContainerInfo → Identity → Identity
with_container ScopeKind.container (some c) i = record i {
  container_name = c.name;
  image = c.image;
}
with_container _ _ i = i

pub with_pod : Scope → Option PodInfo → Identity
unfolding with_container
with_pod s none = of_scope s
with_pod s (some pod) =
    with_container s.kind (lookup str_discrete s.container_id pod.containers)
      (record (of_scope s) { namespace = pod.namespace; pod_name = pod.name; resolved = true })

pub identify : Option PodLookup → Scope → Identity
unfolding with_pod
identify none s = of_scope s
identify (some pods) s = with_pod s (pods s.pod_uid)

resolve_scope : Option PodLookup → Option Scope → Option Identity
unfolding identify
resolve_scope pods none = none
resolve_scope pods (some s) = some (identify pods s)

-- `Resolve`
pub resolve : Option PodLookup → Str → Option Identity
unfolding resolve_scope
resolve pods path = resolve_scope pods (parse_cgroup_path path)

-- `ResolveProcess`
pub resolve_process : Option PodLookup → Process → Option Identity
unfolding resolve
resolve_process pods proc = if same proc.cgroup_path [] then none else resolve pods proc.cgroup_path

-- `MapPodLookup.LookupPod`
pub map_lookup : Map Str PodInfo → PodLookup
map_lookup m uid = lookup str_discrete uid m

is_pod : ScopeKind → Bool
is_pod ScopeKind.pod = true
is_pod _ = false

-- `Identity.String`
pub string_of : Identity → Str
unfolding is_pod
string_of i =
    let name =
      if i.resolved && not (same i.container_name [])
      then i.namespace ++ (codes "/" ++ (i.pod_name ++ (codes "/" ++ i.container_name)))
      else if i.resolved
      then i.namespace ++ (codes "/" ++ i.pod_name)
      else codes "pod " ++ (i.scope.pod_uid ++ codes " (unresolved)") in
    if is_pod i.scope.kind then name ++ codes " (pod-level)" else name
