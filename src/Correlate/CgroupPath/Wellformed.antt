-- ===== src/Correlate/CgroupPath/Wellformed.antt =====
-- What holds of every identity that is read out of a path.
use k8s_pod_oom_oracle.Base.{
  ℕ, ◌≡◌, refl, ◌≢◌, ◌⊎◌, inl, inr, Bool, true, ◌||◌, Option, none, some, List, [], ◌∷◌, Str, same,
  Bool-cases, codes, subst,
}
use k8s_pod_oom_oracle.Base.{ne_of_not_same, cut_prefix, contains, has_prefix, replace_byte}
use k8s_pod_oom_oracle.Correlate.Identity.{Driver, Runtime, ScopeKind, Scope}
use k8s_pod_oom_oracle.Correlate.CgroupPath.{
  split_path, names_kubepods, in_kubepods_tree, slice_pod, slice_prefix, slice_segment,
  plain_segment, segment_by, parse_pod_segment, prefix_case, try_prefixes, scope_body, bare_id,
  parse_container_segment, container_scope, container_in_pod, container_of_two,
  parse_container_scope, pod_scope, pod_of_one, parse_pod_scope, or_pod_scope, with_path,
  parse_cgroup_path, last_two, last_one, runtime_prefixes,
}

-- A container is named by its own ID, a pod by none; only a pod must stand in the kubepods tree.
pub record IsWellformed (path : Str) (s : Scope) : Type 0 where
  pub path_is : s.cgroup_path ≡ path
  pub pod_named : s.pod_uid ≢ []
  pub kind_is :
      (s.kind ≡ ScopeKind.container) × (s.container_id ≢ [])
      ⊎ (s.kind ≡ ScopeKind.pod) × (s.container_id ≡ []) × (in_kubepods_tree path ≡ true)
  pub driver_is : (s.driver ≡ Driver.systemd) ⊎ (s.driver ≡ Driver.cgroupfs)

abbrev PodRead : Option (Str × Driver) → Type 0
PodRead none = Unit
PodRead (some (uid, d)) = (uid ≢ []) × ((d ≡ Driver.systemd) ⊎ (d ≡ Driver.cgroupfs))

replace_byte-ne : (a b : ℕ) (s : Str) → s ≢ [] → replace_byte a b s ≢ []
unfolding replace_byte
replace_byte-ne a b [] h = h
replace_byte-ne a b (c ∷ s) h = λ e. cc

slice_pod-PodRead : (uid : Str) → PodRead (slice_pod uid)
unfolding slice_pod
slice_pod-PodRead uid = elim (Bool-cases (same uid [])) [
  | inl e ↦ rw e tt
  | inr e ↦ rw e (replace_byte-ne b'_' b'-' uid (ne_of_not_same uid [] e), inl refl)
]

plain_segment-PodRead : (o : Option Str) → PodRead (plain_segment o)
unfolding plain_segment
plain_segment-PodRead none = tt
plain_segment-PodRead (some uid) = elim (Bool-cases (same uid [])) [
  | inl e ↦ rw e tt
  | inr e ↦ rw e (ne_of_not_same uid [] e, inr refl)
]

slice_prefix-PodRead : (o : Option Str) → PodRead (slice_prefix o)
unfolding slice_prefix
slice_prefix-PodRead none = tt
slice_prefix-PodRead (some uid) = slice_pod-PodRead uid

slice_segment-PodRead : (s : Str) → PodRead (slice_segment s)
unfolding slice_segment
slice_segment-PodRead s = elim (Bool-cases (contains s (codes "-pod"))) [
  | inl e ↦ rw e (slice_pod-PodRead _)
  | inr e ↦ rw e (slice_prefix-PodRead _)
]

segment_by-PodRead : (s : Str) (o : Option Str) → PodRead (segment_by s o)
unfolding segment_by
segment_by-PodRead s (some suffix) = slice_segment-PodRead suffix
segment_by-PodRead s none = plain_segment-PodRead _

parse_pod_segment-PodRead : (s : Str) → PodRead (parse_pod_segment s)
unfolding parse_pod_segment
parse_pod_segment-PodRead s = segment_by-PodRead s _

abbrev IdRead : Option (Str × Runtime) → Type 0
IdRead none = Unit
IdRead (some (id, r)) = id ≢ []

prefix_case-IdRead :
    (r : Runtime) (o : Option Str) (others : Option (Str × Runtime))
    → IdRead others
    → IdRead (prefix_case r o others)
unfolding prefix_case
prefix_case-IdRead r none others h = h
prefix_case-IdRead r (some id) others h = elim (Bool-cases (same id [])) [
  | inl z ↦ rw z tt
  | inr z ↦ rw z (ne_of_not_same id [] z)
]

try_prefixes-IdRead : (body : Str) (ps : List (Str × Runtime)) → IdRead (try_prefixes body ps)
unfolding try_prefixes
try_prefixes-IdRead body [] = tt
try_prefixes-IdRead body ((p, r) ∷ ps) =
    prefix_case-IdRead r (cut_prefix body p) _ (try_prefixes-IdRead body ps)

scope_body-IdRead : (o : Option Str) → IdRead (scope_body o)
unfolding scope_body
scope_body-IdRead none = tt
scope_body-IdRead (some body) = try_prefixes-IdRead body runtime_prefixes

bare_id-IdRead : (s : Str) → IdRead (bare_id s)
unfolding bare_id
bare_id-IdRead s = elim (Bool-cases (same s [])) [
  | inl z ↦ rw z tt
  | inr z ↦ elim (Bool-cases (contains s (codes ".") || has_prefix s (codes "pod"))) [
    | inl e ↦ rw (z, e) tt
    | inr e ↦ rw (z, e) (ne_of_not_same s [] z)
  ]
]

parse_container_segment-IdRead : (s : Str) (d : Driver) → IdRead (parse_container_segment s d)
unfolding parse_container_segment
parse_container_segment-IdRead s Driver.systemd = scope_body-IdRead _
parse_container_segment-IdRead s Driver.unset = bare_id-IdRead s
parse_container_segment-IdRead s Driver.cgroupfs = bare_id-IdRead s
parse_container_segment-IdRead s Driver.unknown = bare_id-IdRead s

-- What the two readers give before the path is filled in.
abbrev Named : Bool → Option Scope → Type 0
Named inside none = Unit
Named inside (some s) =
    (s.pod_uid ≢ [])
    × ((s.kind ≡ ScopeKind.container) × (s.container_id ≢ [])
        ⊎ (s.kind ≡ ScopeKind.pod) × (s.container_id ≡ []) × (inside ≡ true))
    × ((s.driver ≡ Driver.systemd) ⊎ (s.driver ≡ Driver.cgroupfs))

container_scope-Named :
    (inside : Bool) (segments : List Str) (uid : Str) (d : Driver) (o : Option (Str × Runtime))
    → IdRead o
    → uid ≢ []
    → (d ≡ Driver.systemd) ⊎ (d ≡ Driver.cgroupfs)
    → Named inside (container_scope segments uid d o)
unfolding container_scope
container_scope-Named inside segments uid d none h u e = tt
container_scope-Named inside segments uid d (some (id, r)) h u e = (u, inl (refl, h), e)

container_in_pod-Named :
    (inside : Bool) (segments : List Str) (last : Str) (o : Option (Str × Driver))
    → PodRead o
    → Named inside (container_in_pod segments last o)
unfolding container_in_pod
container_in_pod-Named inside segments last none h = tt
container_in_pod-Named inside segments last (some (uid, d)) h =
    container_scope-Named inside segments uid d _ (parse_container_segment-IdRead last d) h.0 h.1

container_of_two-Named :
    (inside : Bool) (segments : List Str) (o : Option (Str × Str))
    → Named inside (container_of_two segments o)
unfolding container_of_two
container_of_two-Named inside segments none = tt
container_of_two-Named inside segments (some (pod, last)) =
    container_in_pod-Named inside segments last _ (parse_pod_segment-PodRead pod)

pod_scope-Named :
    (segments : List Str) (o : Option (Str × Driver))
    → PodRead o
    → Named true (pod_scope segments o)
unfolding pod_scope
pod_scope-Named segments none h = tt
pod_scope-Named segments (some (uid, d)) h = (h.0, inr (refl, refl, refl), h.1)

pod_of_one-Named : (segments : List Str) (o : Option Str) → Named true (pod_of_one segments o)
unfolding pod_of_one
pod_of_one-Named segments none = tt
pod_of_one-Named segments (some s) = pod_scope-Named segments _ (parse_pod_segment-PodRead s)

parse_pod_scope-Named :
    (segments : List Str) → Named (names_kubepods segments) (parse_pod_scope segments)
unfolding parse_pod_scope
parse_pod_scope-Named segments = elim (Bool-cases (names_kubepods segments)) [
  | inl e ↦ rw e (pod_of_one-Named segments (last_one segments))
  | inr e ↦ rw e tt
]

or_pod_scope-Named :
    (segments : List Str) (o : Option Scope)
    → Named (names_kubepods segments) o
    → Named (names_kubepods segments) (or_pod_scope segments o)
unfolding or_pod_scope
or_pod_scope-Named segments none h = parse_pod_scope-Named segments
or_pod_scope-Named segments (some s) h = h

with_path-IsWellformed :
    (path : Str) (o : Option Scope) (s : Scope)
    → Named (in_kubepods_tree path) o
    → with_path path o ≡ some s
    → IsWellformed path s
unfolding with_path
with_path-IsWellformed path none s h e = cc
with_path-IsWellformed path (some t) s h e =
    let same_scope : record t { cgroup_path = path } ≡ s = cc in
    subst (λ z. IsWellformed path z) same_scope
      (record { path_is = refl; pod_named = h.0; kind_is = h.1; driver_is = h.2 })

-- An identity read out of a path carries that path and a pod UID, and its driver is known. It is a
-- container with an ID, or a pod without one that stands in the kubepods tree.
pub parse_cgroup_path-IsWellformed :
    (path : Str) (s : Scope) → parse_cgroup_path path ≡ some s → IsWellformed path s
unfolding parse_cgroup_path in_kubepods_tree parse_container_scope
parse_cgroup_path-IsWellformed path s e =
    let segments = split_path path in
    with_path-IsWellformed path _ s
      (or_pod_scope-Named segments (parse_container_scope segments)
        (container_of_two-Named (names_kubepods segments) segments (last_two segments)))
      e
