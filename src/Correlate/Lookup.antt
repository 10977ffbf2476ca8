-- ===== src/Correlate/Lookup.antt =====
-- internal/correlate/resolver.go: container IDs as the API server and as a cgroup path write them.
use k8s_pod_oom_oracle.Base.{Option, none, some, Str, codes, cut}

after_cut : Str → Option (Str × Str) → Str
after_cut s none = s
after_cut s (some (scheme, id)) = id

-- `StripRuntimePrefix`
unfoldable pub strip_runtime_prefix : Str → Str
unfolding after_cut cut
strip_runtime_prefix id = after_cut id (cut id (codes "://"))
