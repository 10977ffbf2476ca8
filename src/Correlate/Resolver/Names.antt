-- ===== src/Correlate/Resolver/Names.antt =====
-- What an identity may claim.
use k8s_pod_oom_oracle.Base.{
  ◌≡◌, refl, ◌⊎◌, inl, inr, true, Option, none, some, [], arith, lookup, Str, str_discrete,
  Option-cases,
}
use k8s_pod_oom_oracle.Correlate.Identity.{
  ScopeKind, Scope, ContainerInfo, PodInfo, Identity, of_scope,
}
use k8s_pod_oom_oracle.Correlate.CgroupPath.{parse_cgroup_path}
use k8s_pod_oom_oracle.Correlate.Resolver.{
  PodLookup, with_container, with_pod, identify, resolve_scope, resolve,
}

-- The identity of a scope: the cluster's names are those that the lookup gives for the pod's UID,
-- and a container's name is one that the pod lists under the scope's own container ID.
pub record IsIdentity (pods : PodLookup) (i : Identity) : Type 0 where
  pub of_pod :
      (pods i.scope.pod_uid ≡ none) × (i ≡ of_scope i.scope)
      ⊎ (p : PodInfo) × (pods i.scope.pod_uid ≡ some p)
        × (i.resolved ≡ true)
        × (i.namespace ≡ p.namespace)
        × (i.pod_name ≡ p.name)
  pub named :
      (i.container_name ≡ []) × (i.image ≡ [])
      ⊎ (p : PodInfo) × (c : ContainerInfo) × (pods i.scope.pod_uid ≡ some p)
        × (i.scope.kind ≡ ScopeKind.container)
        × (lookup str_discrete i.scope.container_id p.containers ≡ some c)
        × (i.container_name ≡ c.name)
        × (i.image ≡ c.image)

container_named :
    (pods : PodLookup) (s : Scope) (p : PodInfo) (k : ScopeKind) (c : Option ContainerInfo)
    → pods s.pod_uid ≡ some p
    → s.kind ≡ k
    → lookup str_discrete s.container_id p.containers ≡ c
    → IsIdentity pods (
        with_container k c
          (record (of_scope s) { namespace = p.namespace; pod_name = p.name; resolved = true }))
unfolding with_container
container_named pods s p ScopeKind.container (some c) h k l = record {
  of_pod = inr (p, h, refl, refl, refl);
  named = inr (p, c, h, k, l, refl, refl);
}
container_named pods s p ScopeKind.container none h k l = record {
  of_pod = inr (p, h, refl, refl, refl);
  named = inl (refl, refl);
}
container_named pods s p ScopeKind.pod c h k l = record {
  of_pod = inr (p, h, refl, refl, refl);
  named = inl (refl, refl);
}
container_named pods s p ScopeKind.unset c h k l = record {
  of_pod = inr (p, h, refl, refl, refl);
  named = inl (refl, refl);
}

pod_named :
    (pods : PodLookup) (s : Scope) (o : Option PodInfo)
    → pods s.pod_uid ≡ o
    → IsIdentity pods (with_pod s o)
unfolding with_pod
pod_named pods s none h = record { of_pod = inl (h, refl); named = inl (refl, refl) }
pod_named pods s (some p) h =
    container_named pods s p s.kind (lookup str_discrete s.container_id p.containers) h refl refl

scope-identify : (pods : Option PodLookup) (s : Scope) → (identify pods s).scope ≡ s
unfolding identify with_pod with_container
scope-identify none s = refl
scope-identify (some pods) s = elim (Option-cases (pods s.pod_uid)) [
  | inl e ↦ rw e refl
  | inr (p, e) ↦ ground (arith, e)
]

-- A path that can be parsed is resolved, to an identity that carries what was parsed. The pod's
-- names are those of the lookup, where it finds the pod, and all names are empty where it does not.
-- A container's name and image come only from the entry of that pod for the parsed container ID, so
-- that a pod-level identity has none.
pub resolve-IsIdentity :
    (pods : PodLookup) (path : Str) (s : Scope)
    → parse_cgroup_path path ≡ some s
    → (i : Identity) × (resolve (some pods) path ≡ some i) × (i.scope ≡ s) × IsIdentity pods i
unfolding resolve resolve_scope identify
resolve-IsIdentity pods path s h = (
  with_pod s (pods s.pod_uid),
  rw (h, resolve) refl,
  scope-identify (some pods) s,
  pod_named pods s (pods s.pod_uid) refl,
)
