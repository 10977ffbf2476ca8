-- ===== src/Correlate/CgroupPath/Paths.antt =====
-- Whole cgroup paths of the kubelet, read back into the identities that they were written for.
use k8s_pod_oom_oracle.Base.{
  ◌≡◌, refl, ◌≢◌, inl, inr, true, false, Option, none, some, List, [], ◌∷◌, ◌++◌, arith, Str,
  Option-cases, codes,
}
use k8s_pod_oom_oracle.Base.{
  has_prefix, has_byte, to_lower, same, contains, is_some, cut_prefix, ◌∙◌,
}
use k8s_pod_oom_oracle.Correlate.Identity.{QosClass, Driver, Runtime, ScopeKind}
use k8s_pod_oom_oracle.Correlate.CgroupPath.{
  qos_of_name, qos_name, first_qos, find_qos, default_qos, names_kubepods, parse_pod_segment,
  parse_container_segment, parse_qos, container_scope, container_in_pod, container_of_two,
  parse_container_scope, pod_scope, pod_of_one, parse_pod_scope, or_pod_scope, with_path,
  parse_cgroup_path, last_two, last_one,
}
use k8s_pod_oom_oracle.Correlate.CgroupPath.Segments.{
  same-false, path_of, AreSegments, split_path-path_of,
}
use k8s_pod_oom_oracle.Correlate.CgroupPath.Kubelet.{
  pod_slice, container_unit, NamesScopes, parse_pod_segment-pod_slice, parse_pod_segment-plain,
  parse_container_segment-container_unit, parse_container_segment-bare,
  parse_container_segment-pod_slice,
}

last_two-append : (pre : List Str) (a b : Str) → last_two (pre ++ a ∷ b ∷ []) ≡ some (a, b)
unfolding last_two
last_two-append [] a b = refl
last_two-append (x ∷ []) a b = refl
last_two-append (x ∷ y ∷ []) a b = refl
last_two-append (x ∷ y ∷ z ∷ pre) a b = last_two-append (y ∷ z ∷ pre) a b

last_one-append : (pre : List Str) (a : Str) → last_one (pre ++ a ∷ []) ≡ some a
unfolding last_one
last_one-append [] a = refl
last_one-append (x ∷ []) a = refl
last_one-append (x ∷ y ∷ pre) a = last_one-append (y ∷ pre) a

-- A path whose last two segments are a pod and a container that can be read.
container_path :
    (pre : List Str) (pod last uid id : Str) (d : Driver) (r : Runtime)
    → AreSegments (pre ++ pod ∷ last ∷ [])
    → parse_pod_segment pod ≡ some (uid, d)
    → parse_container_segment last d ≡ some (id, r)
    → parse_cgroup_path (path_of (pre ++ pod ∷ last ∷ []))
      ≡ some (record {
        pod_uid = uid;
        container_id = id;
        kind = ScopeKind.container;
        qos = parse_qos (pre ++ pod ∷ last ∷ []) d;
        driver = d;
        runtime = r;
        cgroup_path = path_of (pre ++ pod ∷ last ∷ []);
      })
unfolding parse_cgroup_path parse_container_scope container_of_two container_in_pod container_scope
    or_pod_scope with_path
container_path pre pod last uid id d r segs hp hc =
    rw (split_path-path_of (pre ++ pod ∷ last ∷ []) segs)
      (rw (last_two-append pre pod last) (rw (hp, container_in_pod) (rw (hc, container_scope))))

-- Under any slices, the path of a container's unit in a systemd pod slice is read as that
-- container: the pod's UID, the container's ID and the runtime are those it was written for. The
-- segments are not empty and hold no slash, the UID is not empty and holds no underscore, the ID is
-- not empty, and the runtime is one that names its scopes.
pub parse_cgroup_path-systemd :
    (pre : List Str) (head uid id : Str) (r : Runtime)
    → AreSegments (pre ++ pod_slice head uid ∷ container_unit r id ∷ [])
    → uid ≢ []
    → has_byte b'_' uid ≡ false
    → id ≢ []
    → NamesScopes r
    → parse_cgroup_path (path_of (pre ++ pod_slice head uid ∷ container_unit r id ∷ []))
      ≡ some (record {
        pod_uid = uid;
        container_id = id;
        kind = ScopeKind.container;
        qos = parse_qos (pre ++ pod_slice head uid ∷ container_unit r id ∷ []) Driver.systemd;
        driver = Driver.systemd;
        runtime = r;
        cgroup_path = path_of (pre ++ pod_slice head uid ∷ container_unit r id ∷ []);
      })
parse_cgroup_path-systemd pre head uid id r segs hu hd hi hr =
    container_path pre _ _ uid id Driver.systemd r segs (parse_pod_segment-pod_slice head uid hu hd)
      (parse_container_segment-container_unit r id hi hr)

-- The folders of the kubelet above a pod of a QoS class, under the cgroupfs driver: a guaranteed pod
-- lies right below kubepods.
abbrev pub parents : QosClass → List Str
parents QosClass.burstable = codes "kubepods" ∷ codes "burstable" ∷ []
parents QosClass.best_effort = codes "kubepods" ∷ codes "besteffort" ∷ []
parents q = codes "kubepods" ∷ []

-- A class that the kubelet gives.
abbrev pub IsGiven : QosClass → Type 0
IsGiven QosClass.guaranteed = Unit
IsGiven QosClass.burstable = Unit
IsGiven QosClass.best_effort = Unit
IsGiven q = ⊥

-- The text is the name of no QoS class, in no mixture of cases.
abbrev pub NamesNoClass : Str → Type 0
NamesNoClass s = (to_lower s ≢ codes "burstable") × (to_lower s ≢ codes "besteffort")

parse_qos-parents :
    (q : QosClass) (uid id : Str)
    → IsGiven q
    → NamesNoClass id
    → parse_qos (parents q ++ (codes "pod" ++ uid) ∷ id ∷ []) Driver.cgroupfs ≡ q
unfolding parse_qos find_qos qos_name qos_of_name first_qos default_qos names_kubepods contains
    has_prefix is_some cut_prefix to_lower same
parse_qos-parents QosClass.unset uid id h n = absurd h
parse_qos-parents QosClass.unknown uid id h n = absurd h
parse_qos-parents QosClass.burstable uid id h n = refl
parse_qos-parents QosClass.best_effort uid id h n = refl
parse_qos-parents QosClass.guaranteed uid id h (n, m) =
    let first = same-false (to_lower id) (codes "burstable") n in
    let second = same-false (to_lower id) (codes "besteffort") m in rw (first, second) refl

segments-parents :
    (q : QosClass) (ss : List Str) → IsGiven q → AreSegments ss → AreSegments (parents q ++ ss)
segments-parents QosClass.unset ss h s = absurd h
segments-parents QosClass.unknown ss h s = absurd h
segments-parents QosClass.guaranteed ss h s = ((λ e. cc), refl, s)
segments-parents QosClass.burstable ss h s = ((λ e. cc), refl, ((λ e. cc), refl, s))
segments-parents QosClass.best_effort ss h s = ((λ e. cc), refl, ((λ e. cc), refl, s))

-- A path that the kubelet makes for a container under the cgroupfs driver,
-- /kubepods[/burstable|/besteffort]/pod<uid>/<id>, is read as the container of that UID, ID and QoS
-- class under that driver, where the runtime is not known. The UID and the ID are not empty and hold
-- no slash and no dot, and the ID does not begin with "pod" and is not the name of a QoS class.
pub parse_cgroup_path-cgroupfs :
    (q : QosClass) (uid id : Str)
    → IsGiven q
    → AreSegments (uid ∷ id ∷ [])
    → has_byte b'.' uid ≡ false
    → has_byte b'.' id ≡ false
    → has_prefix id (codes "pod") ≡ false
    → NamesNoClass id
    → parse_cgroup_path (path_of (parents q ++ (codes "pod" ++ uid) ∷ id ∷ []))
      ≡ some (record {
        pod_uid = uid;
        container_id = id;
        kind = ScopeKind.container;
        qos = q;
        driver = Driver.cgroupfs;
        runtime = Runtime.unknown;
        cgroup_path = path_of (parents q ++ (codes "pod" ++ uid) ∷ id ∷ []);
      })
parse_cgroup_path-cgroupfs q uid id given (hu, su, (hi, si, t)) hd hdot hpod n =
    container_path (parents q) _ id uid id Driver.cgroupfs Runtime.unknown
      (segments-parents q _ given ((λ e. cc), su, (hi, si, t))) (parse_pod_segment-plain uid hu hd)
      (parse_container_segment-bare id hi hdot hpod)
    ∙ rw (parse_qos-parents q uid id given n) refl

no_container :
    (segments : List Str) (o : Option (Str × Str)) (last : Str)
    → ((x : Str × Str) → o ≡ some x → x.1 ≡ last)
    → ((d : Driver) → parse_container_segment last d ≡ none)
    → container_of_two segments o ≡ none
unfolding container_of_two container_in_pod container_scope
no_container segments none last ho h = refl
no_container segments (some (a, b)) last ho h = elim (Option-cases (parse_pod_segment a)) [
  | inl e ↦ rw e
  | inr ((uid, d), e) ↦ rw (e, container_in_pod) (rw (ho (a, b) refl, h d))
]

last_two-last :
    (pre : List Str) (b : Str) (x : Str × Str) → last_two (pre ++ b ∷ []) ≡ some x → x.1 ≡ b
unfolding last_two
last_two-last [] b x h = cc
last_two-last (a ∷ []) b x h = ground arith
last_two-last (a ∷ c ∷ []) b x h = ground arith
last_two-last (a ∷ c ∷ d ∷ pre) b x h = last_two-last (c ∷ d ∷ pre) b x h

-- A path that ends at a systemd pod slice and names kubepods is read as the pod with the UID it was
-- written for, and no container. The segments are not empty and hold no slash, and the UID is not
-- empty and holds no underscore.
pub parse_cgroup_path-pod_slice :
    (pre : List Str) (head uid : Str)
    → AreSegments (pre ++ pod_slice head uid ∷ [])
    → names_kubepods (pre ++ pod_slice head uid ∷ []) ≡ true
    → uid ≢ []
    → has_byte b'_' uid ≡ false
    → parse_cgroup_path (path_of (pre ++ pod_slice head uid ∷ []))
      ≡ some (record {
        pod_uid = uid;
        container_id = [];
        kind = ScopeKind.pod;
        qos = parse_qos (pre ++ pod_slice head uid ∷ []) Driver.systemd;
        driver = Driver.systemd;
        runtime = Runtime.unknown;
        cgroup_path = path_of (pre ++ pod_slice head uid ∷ []);
      })
unfolding parse_cgroup_path parse_container_scope or_pod_scope parse_pod_scope pod_of_one pod_scope
    with_path
parse_cgroup_path-pod_slice pre head uid segs inside hu hd =
    rw (split_path-path_of (pre ++ pod_slice head uid ∷ []) segs) (
      rw
        (no_container (pre ++ pod_slice head uid ∷ []) (last_two (pre ++ pod_slice head uid ∷ []))
          (pod_slice head uid) (last_two-last pre (pod_slice head uid))
          (parse_container_segment-pod_slice head uid))
        (rw (inside, last_one-append pre (pod_slice head uid))
          (rw (parse_pod_segment-pod_slice head uid hu hd))))
