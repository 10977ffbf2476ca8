-- ===== src/Correlate/CgroupPath/Tests.antt =====
-- Paths as the kubelet writes them.
use k8s_pod_oom_oracle.Base.{
  is_some, cut_prefix, cut_suffix, cons_some, contains, last_index, last_or_here, split, onto_first,
  replace_byte, to_lower, trim_suffix, ◌≡◌, refl, true, some, List, [], ◌∷◌, ◌++◌, Str, codes,
  has_prefix, same,
}
use k8s_pod_oom_oracle.Correlate.Identity.{QosClass, Driver, Runtime, ScopeKind, Scope}
use k8s_pod_oom_oracle.Correlate.CgroupPath.{
  split_path, names_kubepods, after_kubepods, qos_name, qos_of_name, first_qos, find_qos,
  default_qos, parse_qos, plain_segment, segment_by, parse_pod_segment, bare_id,
  parse_container_segment, container_scope, container_in_pod, container_of_two,
  parse_container_scope, or_pod_scope, with_path, last_two, parse_cgroup_path,
}
use k8s_pod_oom_oracle.Correlate.CgroupPath.Segments.{path_of, AreSegments}
use k8s_pod_oom_oracle.Correlate.CgroupPath.Kubelet.{pod_slice, scope_prefix, container_unit}
use k8s_pod_oom_oracle.Correlate.CgroupPath.Wellformed.{
  IsWellformed, parse_cgroup_path-IsWellformed,
}
use k8s_pod_oom_oracle.Correlate.CgroupPath.Paths.{
  parents, parse_cgroup_path-systemd, parse_cgroup_path-cgroupfs,
}

abbrev slices : List Str
slices = codes "kubepods.slice" ∷ codes "kubepods-burstable.slice" ∷ []

abbrev head : Str
head = codes "kubepods-burstable"

abbrev container_scope_found : Scope
container_scope_found = record {
  pod_uid = codes "3f-9a";
  container_id = codes "abc";
  kind = ScopeKind.container;
  qos = QosClass.burstable;
  driver = Driver.systemd;
  runtime = Runtime.containerd;
  cgroup_path =
      codes
        "/kubepods.slice/kubepods-burstable.slice/kubepods-burstable-pod3f_9a.slice/cri-containerd-abc.scope";
}

segments-AreSegments : AreSegments (
    slices ++ pod_slice head (codes "3f-9a") ∷ container_unit Runtime.containerd (codes "abc") ∷ [])
unfolding pod_slice container_unit scope_prefix replace_byte
segments-AreSegments =
    ((λ e. cc), refl, ((λ e. cc), refl, ((λ e. cc), refl, ((λ e. cc), refl, tt))))

parse_cgroup_path-systemd_example :
    parse_cgroup_path (
      path_of (
        slices
        ++ pod_slice head (codes "3f-9a") ∷ container_unit Runtime.containerd (codes "abc") ∷ []))
    ≡ some container_scope_found
unfolding path_of pod_slice container_unit scope_prefix replace_byte parse_qos find_qos first_qos
    qos_of_name qos_name default_qos after_kubepods trim_suffix last_index last_or_here to_lower
    same
parse_cgroup_path-systemd_example =
    parse_cgroup_path-systemd slices head (codes "3f-9a") (codes "abc") Runtime.containerd
      segments-AreSegments (λ e. cc) refl (λ e. cc) tt

parse_cgroup_path-cgroupfs_example :
    parse_cgroup_path
      (path_of (parents QosClass.burstable ++ (codes "pod" ++ codes "3f-9a") ∷ codes "abc" ∷ []))
    ≡ some (record {
      pod_uid = codes "3f-9a";
      container_id = codes "abc";
      kind = ScopeKind.container;
      qos = QosClass.burstable;
      driver = Driver.cgroupfs;
      runtime = Runtime.unknown;
      cgroup_path = codes "/kubepods/burstable/pod3f-9a/abc";
    })
unfolding path_of to_lower has_prefix is_some cut_prefix
parse_cgroup_path-cgroupfs_example =
    parse_cgroup_path-cgroupfs QosClass.burstable (codes "3f-9a") (codes "abc") tt
      ((λ e. cc), refl, ((λ e. cc), refl, tt)) refl refl refl ((λ e. cc), (λ e. cc))

-- Nothing in this path names kubepods, and it is read as a container nonetheless.
abbrev stray : Str
stray = codes "/podman/abc"

abbrev stray_scope : Scope
stray_scope = record {
  pod_uid = codes "man";
  container_id = codes "abc";
  kind = ScopeKind.container;
  qos = QosClass.unknown;
  driver = Driver.cgroupfs;
  runtime = Runtime.unknown;
  cgroup_path = stray;
}

parsed_stray : parse_cgroup_path stray ≡ some stray_scope
unfolding parse_cgroup_path split_path split onto_first parse_container_scope last_two
    container_of_two container_in_pod container_scope parse_pod_segment segment_by cut_suffix
    cons_some plain_segment parse_container_segment bare_id with_path or_pod_scope parse_qos
    find_qos first_qos qos_of_name qos_name default_qos names_kubepods contains has_prefix is_some
    cut_prefix to_lower same
parsed_stray = refl

parse_cgroup_path-IsWellformed_example : IsWellformed stray stray_scope
parse_cgroup_path-IsWellformed_example =
    parse_cgroup_path-IsWellformed stray stray_scope parsed_stray

pod_segments : AreSegments (slices ++ pod_slice head (codes "3f-9a") ∷ [])
unfolding pod_slice replace_byte
pod_segments = ((λ e. cc), refl, ((λ e. cc), refl, ((λ e. cc), refl, tt)))

pod_inside : names_kubepods (slices ++ pod_slice head (codes "3f-9a") ∷ []) ≡ true
unfolding names_kubepods contains has_prefix is_some cut_prefix
pod_inside = refl
