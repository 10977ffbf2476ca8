-- ===== src/Cgroup/Stats.antt =====
-- internal/cgroup/cgroup.go and parse.go: the readings of one cgroup's memory controller.
mod Tests
use k8s_pod_oom_oracle.Base.{ℕ, ◌-◌, ◌^◌, Bool, false, ◌||◌, leb, ◌==◌, if◌then◌else◌}
use k8s_pod_oom_oracle.Float.{FloatOps}

pub data Version : Type 0 where
  version_unknown v1 v2 : Version

-- 1<<64 - 1: no memory ceiling.
abbrev pub unlimited : ℕ
unlimited = 2 ^ 64 - 1

abbrev pub page_counter_max : ℕ
page_counter_max = 0x7FFFFFFFFFFFF000

pub record MemoryEvents : Type 0 where
  pub low : ℕ
  pub high : ℕ
  pub max : ℕ
  pub oom : ℕ
  pub oom_kill : ℕ

pub record MemoryStats : Type 0 where
  pub current : ℕ
  pub peak : ℕ
  pub limit : ℕ
  pub swap : ℕ
  pub anon : ℕ
  pub file : ℕ
  pub kernel : ℕ
  pub events : MemoryEvents
  pub events_local : MemoryEvents
  pub has_local_events : Bool

-- The zero values.
abbrev pub no_events : MemoryEvents
no_events = record { low = 0; high = 0; max = 0; oom = 0; oom_kill = 0 }

abbrev pub no_stats : MemoryStats
no_stats = record {
  current = 0;
  peak = 0;
  limit = 0;
  swap = 0;
  anon = 0;
  file = 0;
  kernel = 0;
  events = no_events;
  events_local = no_events;
  has_local_events = false;
}

unfoldable pub oom_kills : MemoryStats → ℕ
oom_kills m = if m.has_local_events then m.events_local.oom_kill else m.events.oom_kill

unfoldable pub headroom : MemoryStats → ℕ
headroom m =
    if m.limit == unlimited
    then unlimited
    else if leb m.limit m.current
    then 0
    else m.limit - m.current

unfoldable pub normalise_limit : ℕ → ℕ
normalise_limit limit = if leb page_counter_max limit then unlimited else limit

module _ {R : Type 0} ⦃fl : FloatOps R⦄ where
  -- The clamp of a ratio above one.
  at_most_one : R → R
  at_most_one ratio = if fl.lt fl.one_float ratio then fl.one_float else ratio

  pub usage_ratio : MemoryStats → R
  unfolding at_most_one
  usage_ratio m =
      if m.limit == 0 || m.limit == unlimited
      then fl.zero_float
      else at_most_one (fl.div (fl.of_uint m.current) (fl.of_uint m.limit))

-- `PSILine` and `PSI`; the averages are float64 values.
pub record PsiLine (R : Type 0) : Type 0 where
  pub avg10 : R
  pub avg60 : R
  pub avg300 : R
  pub total : ℕ

pub record Psi (R : Type 0) : Type 0 where
  pub some_line : PsiLine R
  pub full_line : PsiLine R
