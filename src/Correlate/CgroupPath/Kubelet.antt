-- ===== src/Correlate/CgroupPath/Kubelet.antt =====
-- The segments that the kubelet writes for pods and containers, read back.
use k8s_pod_oom_oracle.Base.{
  ℕ, suc, ◌+◌, ◌≡◌, refl, ap, ◌∙◌, ◌≢◌, true, false, none, some, [], ◌∷◌, ◌++◌, arith, length,
  length-append, drop, Str, same, codes,
}
use k8s_pod_oom_oracle.Base.{
  cut_suffix, cons_some, cut_prefix, contains, has_prefix, is_some, last_index, last_or_here,
  replace_byte, has_byte, drop-eq,
}
use k8s_pod_oom_oracle.Correlate.Identity.{Driver, Runtime}
use k8s_pod_oom_oracle.Correlate.CgroupPath.{
  slice_pod, after_pod, slice_segment, plain_segment, segment_by, parse_pod_segment, prefix_case,
  try_prefixes, scope_body, bare_id, parse_container_segment,
}
use k8s_pod_oom_oracle.Strings.Pieces.{has_byte-append}
use k8s_pod_oom_oracle.Correlate.CgroupPath.Segments.{
  cut_prefix-append, cut_suffix-append, cut_suffix-none, last_index-none, contains-none,
  not_same_nil, same-false,
}

-- The systemd escape of a UID: its dashes as underscores.
abbrev pub escape : Str → Str
escape = replace_byte b'-' b'_'

-- kubepods[-<qos>]-pod<uid>.slice, behind any head.
unfoldable pub pod_slice : Str → Str → Str
pod_slice head uid = (head ++ (codes "-pod" ++ escape uid)) ++ codes ".slice"

-- The prefix of each runtime's scope.
unfoldable pub scope_prefix : Runtime → Str
scope_prefix Runtime.containerd = codes "cri-containerd-"
scope_prefix Runtime.cri_o = codes "crio-"
scope_prefix Runtime.docker = codes "docker-"
scope_prefix _ = []

unfoldable pub container_unit : Runtime → Str → Str
unfolding scope_prefix
container_unit r id = (scope_prefix r ++ id) ++ codes ".scope"

replace_byte-has_byte : (s : Str) → has_byte b'-' (escape s) ≡ false
unfolding replace_byte
replace_byte-has_byte [] = refl
replace_byte-has_byte (c ∷ s) = ground (arith, replace_byte-has_byte s)

unescape-escape : (s : Str) → has_byte b'_' s ≡ false → replace_byte b'_' b'-' (escape s) ≡ s
unfolding replace_byte
unescape-escape [] h = refl
unescape-escape (c ∷ s) h = ground (arith, unescape-escape s)

escape-ne : (s : Str) → s ≢ [] → same (escape s) [] ≡ false
unfolding replace_byte same
escape-ne [] h = absurd (h refl)
escape-ne (c ∷ s) h = refl

-- "-pod" stands for the last time right behind the head.
last_index-pod :
    (head uid : Str)
    → last_index (head ++ (codes "-pod" ++ escape uid)) (codes "-pod") ≡ some (length head)
unfolding last_index last_or_here has_prefix is_some cut_prefix
last_index-pod [] uid =
    ground
      (arith, last_index-none b'-' (escape uid) (codes "-pod") (replace_byte-has_byte uid) refl)
last_index-pod (c ∷ head) uid = ground (arith, last_index-pod head uid)

contains-pod : (head rest : Str) → contains (head ++ (codes "-pod" ++ rest)) (codes "-pod") ≡ true
unfolding contains has_prefix is_some cut_prefix
contains-pod [] rest = refl
contains-pod (c ∷ head) rest = ground (arith, contains-pod head rest)

drop-pod : (head rest : Str) → drop (length head + 4) (head ++ (codes "-pod" ++ rest)) ≡ rest
drop-pod [] rest = refl
drop-pod (c ∷ head) rest =
    drop-eq (suc (length head) + 4) (suc (length head + 4)) (c ∷ (head ++ (codes "-pod" ++ rest)))
      (omega arith)
    ∙ drop-pod head rest

-- The UID comes back out of a systemd pod slice, whatever stands in front of "-pod".
pub parse_pod_segment-pod_slice :
    (head uid : Str)
    → uid ≢ []
    → has_byte b'_' uid ≡ false
    → parse_pod_segment (pod_slice head uid) ≡ some (uid, Driver.systemd)
unfolding parse_pod_segment segment_by pod_slice slice_segment after_pod slice_pod
parse_pod_segment-pod_slice head uid h u =
    rw (cut_suffix-append (head ++ (codes "-pod" ++ escape uid)) (codes ".slice")) (
      rw (contains-pod head (escape uid), last_index-pod head uid)
        (rw (drop-pod head (escape uid)) (rw (escape-ne uid h, unescape-escape uid u))))

-- And out of a cgroupfs pod directory.
pub parse_pod_segment-plain :
    (uid : Str)
    → uid ≢ []
    → has_byte b'.' uid ≡ false
    → parse_pod_segment (codes "pod" ++ uid) ≡ some (uid, Driver.cgroupfs)
unfolding parse_pod_segment segment_by plain_segment same
parse_pod_segment-plain [] h d = absurd (h refl)
parse_pod_segment-plain (c ∷ uid) h d =
    rw (cut_suffix-none b'.' (codes "pod" ++ c ∷ uid) (codes ".slice") d refl)
      (rw (cut_prefix-append (codes "pod") (c ∷ uid)))

-- The runtimes that name their scopes.
abbrev pub NamesScopes : Runtime → Type 0
NamesScopes Runtime.containerd = Unit
NamesScopes Runtime.cri_o = Unit
NamesScopes Runtime.docker = Unit
NamesScopes _ = ⊥

tried :
    (r : Runtime) (id : Str)
    → id ≢ []
    → NamesScopes r
    → scope_body (some (scope_prefix r ++ id)) ≡ some (id, r)
unfolding scope_body scope_prefix try_prefixes prefix_case cut_prefix same
tried r [] h e = absurd (h refl)
tried Runtime.containerd (c ∷ id) h e = refl
tried Runtime.cri_o (c ∷ id) h e = refl
tried Runtime.docker (c ∷ id) h e = refl
tried Runtime.unset (c ∷ id) h e = absurd e
tried Runtime.unknown (c ∷ id) h e = absurd e

-- The ID and the runtime come back out of a systemd scope.
pub parse_container_segment-container_unit :
    (r : Runtime) (id : Str)
    → id ≢ []
    → NamesScopes r
    → parse_container_segment (container_unit r id) Driver.systemd ≡ some (id, r)
unfolding parse_container_segment container_unit
parse_container_segment-container_unit r id h e =
    rw (cut_suffix-append (scope_prefix r ++ id) (codes ".scope")) (tried r id h e)

-- A bare ID is read as it stands.
pub parse_container_segment-bare :
    (id : Str)
    → id ≢ []
    → has_byte b'.' id ≡ false
    → has_prefix id (codes "pod") ≡ false
    → parse_container_segment id Driver.cgroupfs ≡ some (id, Runtime.unknown)
unfolding parse_container_segment bare_id
parse_container_segment-bare id h d p =
    rw (not_same_nil id h, contains-none b'.' id (codes ".") d refl, p)

contains_byte : (b : ℕ) (s : Str) → has_byte b s ≡ true → contains s (b ∷ []) ≡ true
unfolding contains has_prefix is_some cut_prefix
contains_byte b [] h = cc
contains_byte b (c ∷ s) h = ground (arith, contains_byte b s)

slice_is_no_scope : (s : Str) → cut_suffix (s ++ codes ".slice") (codes ".scope") ≡ none
unfolding cut_suffix cons_some same
slice_is_no_scope [] = refl
slice_is_no_scope (c ∷ s) = ground (
  arith,
  same-false (c ∷ (s ++ codes ".slice")) (codes ".scope")
      (λ e. omega (arith, ap length e, length-append s (codes ".slice"))),
  slice_is_no_scope s,
)

slice_has_dot : (s : Str) → has_byte b'.' (s ++ codes ".slice") ≡ true
slice_has_dot s = ground (arith, has_byte-append b'.' s (codes ".slice"))

bare_slice : (s : Str) → bare_id (s ++ codes ".slice") ≡ none
unfolding bare_id
bare_slice s = ground (arith, contains_byte b'.' (s ++ codes ".slice") (slice_has_dot s))

-- No slice is a container.
parse_container_segment-slice :
    (s : Str) (d : Driver) → parse_container_segment (s ++ codes ".slice") d ≡ none
unfolding parse_container_segment scope_body
parse_container_segment-slice s Driver.systemd = rw (slice_is_no_scope s)
parse_container_segment-slice s Driver.unset = bare_slice s
parse_container_segment-slice s Driver.cgroupfs = bare_slice s
parse_container_segment-slice s Driver.unknown = bare_slice s

pub parse_container_segment-pod_slice :
    (head uid : Str) (d : Driver) → parse_container_segment (pod_slice head uid) d ≡ none
unfolding pod_slice
parse_container_segment-pod_slice head uid d =
    parse_container_segment-slice (head ++ (codes "-pod" ++ escape uid)) d
