-- ===== src/Cgroup/Stats/Tests.antt =====
-- The readings of a cgroup under a limit, and of one without.
use k8s_pod_oom_oracle.Base.{◌≡◌, refl, true}
use k8s_pod_oom_oracle.Float.Fixtures.{whole_numbers}
use k8s_pod_oom_oracle.Cgroup.Stats.{
  MemoryStats, no_stats, no_events, unlimited, page_counter_max, oom_kills, headroom,
  normalise_limit, at_most_one, usage_ratio,
}

abbrev full : MemoryStats
full = record no_stats {
  current = 700;
  limit = 500;
  events = record no_events { oom_kill = 3 };
  events_local = record no_events { oom_kill = 1 };
  has_local_events = true;
}

abbrev free : MemoryStats
free = record full { limit = unlimited }

headrooms :
    (headroom full ≡ 0)
    × (headroom free ≡ unlimited)
    × (headroom (record full { limit = 1000 }) ≡ 300)
unfolding headroom
headrooms = (refl, refl, refl)

local_kills : oom_kills full ≡ 1
unfolding oom_kills
local_kills = refl

limits : (normalise_limit page_counter_max ≡ unlimited) × (normalise_limit 500 ≡ 500)
unfolding normalise_limit
limits = (refl, refl)

ratios : (usage_ratio ⦃fl = whole_numbers⦄ full ≡ 1) × (usage_ratio ⦃fl = whole_numbers⦄ free ≡ 0)
unfolding usage_ratio at_most_one
ratios = (refl, refl)
