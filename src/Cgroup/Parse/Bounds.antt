-- ===== src/Cgroup/Parse/Bounds.antt =====
-- The range of what is parsed, and numbers as the kernel writes them.
use k8s_pod_oom_oracle.Base.{
  ℕ, ◌<◌, ◌≡◌, ◌⊎◌, inl, inr, arith, Bool-cases, Option, none, some, Str, codes, same,
}
use k8s_pod_oom_oracle.Cgroup.Stats.{unlimited, page_counter_max, normalise_limit}
use k8s_pod_oom_oracle.Strings.Space.{trim_space}
use k8s_pod_oom_oracle.Cgroup.Parse.{parse_uint, normalised, parse_limit}

normalised-bound :
    (o : Option ℕ) (m : ℕ) → normalised o ≡ some m → (m ≡ unlimited) ⊎ (m < page_counter_max)
unfolding normalised normalise_limit
normalised-bound none m h = cc
normalised-bound (some n) m h = ground arith

-- A memory ceiling that is read is either the sentinel for none, or below the ceiling that the v1
-- page counter stands at when nothing caps it.
pub parse_limit-bound :
    (content : Str) (m : ℕ)
    → parse_limit content ≡ some m
    → (m ≡ unlimited) ⊎ (m < page_counter_max)
unfolding parse_limit
parse_limit-bound content m h = elim (Bool-cases (same (trim_space content) (codes "max"))) [
  | inl e ↦ inl (ground (arith, e))
  | inr e ↦ normalised-bound (parse_uint content) m (ground (arith, e))
]
