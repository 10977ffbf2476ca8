-- ===== src/Correlate/CgroupPath.antt =====
-- internal/correlate/cgrouppath.go: reading the Kubernetes identity out of a cgroup path. Where a
-- Go function returns values beside a false `ok`, no caller reads them; `none` stands for them.
pub mod Wellformed
pub mod Segments
pub mod Kubelet
pub mod Paths
mod Tests
use k8s_pod_oom_oracle.Base.{
  ℕ, zero, suc, ◌+◌, Bool, true, false, not, ◌||◌, Option, none, some, List, [], ◌∷◌, Str, same,
  codes, any, select, drop, split, contains, last_index, cut_suffix, cut_prefix, has_prefix,
  trim_suffix, to_lower, replace_byte, if◌then◌else◌,
}
use k8s_pod_oom_oracle.Correlate.Identity.{QosClass, Driver, Runtime, ScopeKind, Scope}

-- `splitPath`
pub split_path : Str → List Str
split_path path = select (λ s. not (same s [])) (split b'/' path)

-- `inKubepodsTree` on segments, and `InKubepodsTree`.
pub names_kubepods : List Str → Bool
names_kubepods segments = any (λ s. contains s (codes "kubepods")) segments

pub in_kubepods_tree : Str → Bool
unfolding names_kubepods split_path
in_kubepods_tree path = names_kubepods (split_path path)

pub slice_pod : Str → Option (Str × Driver)
slice_pod uid = if same uid [] then none else some (replace_byte b'_' b'-' uid, Driver.systemd)

-- `suffix[LastIndex(suffix, "-pod")+len("-pod"):]`; the index -1 cannot occur behind `Contains`.
after_pod : Str → Option ℕ → Str
after_pod suffix none = drop 3 suffix
after_pod suffix (some i) = drop (i + 4) suffix

slice_prefix : Option Str → Option (Str × Driver)
unfolding slice_pod
slice_prefix none = none
slice_prefix (some uid) = slice_pod uid

slice_segment : Str → Option (Str × Driver)
unfolding slice_pod after_pod slice_prefix
slice_segment suffix =
    if contains suffix (codes "-pod")
    then slice_pod (after_pod suffix (last_index suffix (codes "-pod")))
    else slice_prefix (cut_prefix suffix (codes "pod"))

plain_segment : Option Str → Option (Str × Driver)
plain_segment none = none
plain_segment (some uid) = if same uid [] then none else some (uid, Driver.cgroupfs)

segment_by : Str → Option Str → Option (Str × Driver)
unfolding slice_segment plain_segment
segment_by segment (some suffix) = slice_segment suffix
segment_by segment none = plain_segment (cut_prefix segment (codes "pod"))

-- `parsePodSegment`: the UID and the driver.
pub parse_pod_segment : Str → Option (Str × Driver)
unfolding segment_by
parse_pod_segment segment = segment_by segment (cut_suffix segment (codes ".slice"))

-- `runtimePrefixes`, in order.
abbrev pub runtime_prefixes : List (Str × Runtime)
runtime_prefixes =
    (codes "cri-containerd-", Runtime.containerd)
    ∷ (codes "containerd-", Runtime.containerd)
    ∷ (codes "crio-", Runtime.cri_o)
    ∷ (codes "docker-", Runtime.docker)
    ∷ []

-- A prefix that fits ends the loop, also where no ID is left behind it.
pub prefix_case : Runtime → Option Str → Option (Str × Runtime) → Option (Str × Runtime)
prefix_case runtime none others = others
prefix_case runtime (some id) others = if same id [] then none else some (id, runtime)

-- The loop over the prefixes.
pub try_prefixes : Str → List (Str × Runtime) → Option (Str × Runtime)
unfolding prefix_case
try_prefixes body [] = none
try_prefixes body ((prefix, runtime) ∷ rest) =
    prefix_case runtime (cut_prefix body prefix) (try_prefixes body rest)

scope_body : Option Str → Option (Str × Runtime)
unfolding try_prefixes
scope_body none = none
scope_body (some body) = try_prefixes body runtime_prefixes

bare_id : Str → Option (Str × Runtime)
bare_id segment =
    if same segment [] || contains segment (codes ".") || has_prefix segment (codes "pod")
    then none
    else some (segment, Runtime.unknown)

-- `parseContainerSegment`: the container ID and the runtime.
pub parse_container_segment : Str → Driver → Option (Str × Runtime)
unfolding scope_body bare_id
parse_container_segment segment Driver.systemd = scope_body (cut_suffix segment (codes ".scope"))
parse_container_segment segment _ = bare_id segment

after_kubepods : Str → Option ℕ → Str
after_kubepods name none = name
after_kubepods name (some i) = drop (i + 9) name

pub qos_name : Str → Driver → Str
unfolding after_kubepods
qos_name segment Driver.systemd =
    let name = trim_suffix segment (codes ".slice") in
    after_kubepods name (last_index name (codes "kubepods-"))
qos_name segment _ = segment

pub qos_of_name : Str → Option QosClass
qos_of_name name =
    if same name (codes "burstable")
    then some QosClass.burstable
    else if same name (codes "besteffort")
    then some QosClass.best_effort
    else none

pub first_qos : Option QosClass → Option QosClass → Option QosClass
first_qos (some q) later = some q
first_qos none later = later

-- The loop of `parseQoS`.
pub find_qos : List Str → Driver → Option QosClass
unfolding qos_of_name qos_name first_qos
find_qos [] driver = none
find_qos (s ∷ rest) driver =
    first_qos (qos_of_name (to_lower (qos_name s driver))) (find_qos rest driver)

default_qos : Bool → Option QosClass → QosClass
default_qos inside (some q) = q
default_qos true none = QosClass.guaranteed
default_qos false none = QosClass.unknown

-- `parseQoS`
pub parse_qos : List Str → Driver → QosClass
unfolding find_qos default_qos names_kubepods
parse_qos segments driver = default_qos (names_kubepods segments) (find_qos segments driver)

-- The last two segments, and the last.
pub last_two : List Str → Option (Str × Str)
last_two [] = none
last_two (a ∷ []) = none
last_two (a ∷ b ∷ []) = some (a, b)
last_two (a ∷ b ∷ c ∷ rest) = last_two (b ∷ c ∷ rest)

pub last_one : List Str → Option Str
last_one [] = none
last_one (a ∷ []) = some a
last_one (a ∷ b ∷ rest) = last_one (b ∷ rest)

container_scope : List Str → Str → Driver → Option (Str × Runtime) → Option Scope
container_scope segments uid driver none = none
container_scope segments uid driver (some (id, runtime)) = some (record {
  pod_uid = uid;
  container_id = id;
  kind = ScopeKind.container;
  qos = parse_qos segments driver;
  driver = driver;
  runtime = runtime;
  cgroup_path = [];
})

container_in_pod : List Str → Str → Option (Str × Driver) → Option Scope
unfolding container_scope
container_in_pod segments last none = none
container_in_pod segments last (some (uid, driver)) =
    container_scope segments uid driver (parse_container_segment last driver)

container_of_two : List Str → Option (Str × Str) → Option Scope
unfolding container_in_pod
container_of_two segments none = none
container_of_two segments (some (pod, last)) =
    container_in_pod segments last (parse_pod_segment pod)

-- `parseContainerScope`
pub parse_container_scope : List Str → Option Scope
unfolding container_of_two last_two
parse_container_scope segments = container_of_two segments (last_two segments)

pod_scope : List Str → Option (Str × Driver) → Option Scope
pod_scope segments none = none
pod_scope segments (some (uid, driver)) = some (record {
  pod_uid = uid;
  container_id = [];
  kind = ScopeKind.pod;
  qos = parse_qos segments driver;
  driver = driver;
  runtime = Runtime.unknown;
  cgroup_path = [];
})

pod_of_one : List Str → Option Str → Option Scope
unfolding pod_scope
pod_of_one segments none = none
pod_of_one segments (some s) = pod_scope segments (parse_pod_segment s)

-- `parsePodScope`
pub parse_pod_scope : List Str → Option Scope
unfolding pod_of_one last_one names_kubepods
parse_pod_scope segments =
    if not (names_kubepods segments) then none else pod_of_one segments (last_one segments)

or_pod_scope : List Str → Option Scope → Option Scope
or_pod_scope segments (some s) = some s
or_pod_scope segments none = parse_pod_scope segments

with_path : Str → Option Scope → Option Scope
with_path path none = none
with_path path (some s) = some (record s { cgroup_path = path })

-- `ParseCgroupPath`; of no segments at all neither reader makes anything.
pub parse_cgroup_path : Str → Option Scope
unfolding or_pod_scope with_path split_path
parse_cgroup_path path =
    let segments = split_path path in
    with_path path (or_pod_scope segments (parse_container_scope segments))
