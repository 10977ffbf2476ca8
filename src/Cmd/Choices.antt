-- ===== src/Cmd/Choices.antt =====
-- internal/cmd/daemon.go and logging.go: the choices of the daemon's flags. An error is `none`.
use k8s_pod_oom_oracle.Base.{
  ℕ, Bool, false, Option, none, some, [], Str, codes, same, to_lower, if◌then◌else◌, ◌||◌,
}
use k8s_pod_oom_oracle.Clock.{Time, time_sub}
use k8s_pod_oom_oracle.Float.{FloatOps}

-- `buildDetector`, on what NewEBPF and NewPoller give when they are called.
pub build_detector : {D : Type 0} → Str → Option D → Option D → Option D
build_detector name traced polling =
    if same name (codes "ebpf")
    then traced
    else if same name (codes "auto")
    then elim traced [ some d ↦ some d | none ↦ polling ]
    else if same name (codes "poller")
    then polling
    else none

-- `buildPodCache`, on what newPodCache gives: the inner option is a cache that may be left out.
pub build_pod_cache : {C : Type 0} → Str → Option C → Option (Option C)
build_pod_cache mode cache =
    if same mode (codes "off")
    then some none
    else if same mode (codes "on")
    then elim cache [ some c ↦ some (some c) | none ↦ none ]
    else if same mode (codes "auto")
    then some cache
    else none

-- `newPodCache`: each step may fail.
pub new_pod_cache_from :
    {Config Client Cache : Type 0}
    → Option Str
    → Option Config
    → (Config → Option Client)
    → (Client → Str → Option Cache)
    → Option Cache
new_pod_cache_from none config client cache = none
new_pod_cache_from (some node) none client cache = none
new_pod_cache_from (some node) (some config) client cache = elim (client config) [
  | none ↦ none
  | some c ↦ cache c node
]

pub data Level : Type 0 where
  debug info warn error : Level

-- `parseLevel`
pub parse_level : Str → Option Level
parse_level level =
    let name = to_lower level in
    if same name (codes "debug")
    then some Level.debug
    else if same name (codes "info")
    then some Level.info
    else if same name (codes "warn") || same name (codes "warning")
    then some Level.warn
    else if same name (codes "error")
    then some Level.error
    else none

pub data LogFormat : Type 0 where
  text json : LogFormat

format_of : Str → Option LogFormat
format_of format =
    if same format (codes "text")
    then some LogFormat.text
    else if same format (codes "json")
    then some LogFormat.json
    else none

with_level : Option LogFormat → Option Level → Option (LogFormat × Level)
with_level (some f) (some l) = some (f, l)
with_level _ _ = none

-- `newLogger`, as the handler and the level of the logger.
pub new_logger : Str → Str → Option (LogFormat × Level)
unfolding format_of with_level
new_logger level format = with_level (format_of format) (parse_level level)

-- `Status` of internal/api/api.go.
pub record Status (R : Type 0) : Type 0 where
  pub detector : Str
  pub cgroup_version : Str
  pub ready : Bool
  pub reports : ℕ
  pub skipped : ℕ
  pub unattributed : ℕ
  pub tracked_cgroups : ℕ
  pub uptime_seconds : R
  pub version : Str
  pub node : Str
  pub pod_cache_synced : Bool
  pub pods_tracked : ℕ

-- What the status asks of the daemon and of a pod cache.
pub record Counters : Type 0 where
  pub detector : Str
  pub cgroup_version : Str
  pub ready : Bool
  pub processed : ℕ
  pub skipped : ℕ
  pub unattributed : ℕ
  pub tracked : ℕ
  pub version : Str

pub record CacheState : Type 0 where
  pub node : Str
  pub synced : Bool
  pub len : ℕ

with_cache : {R : Type 0} → Option CacheState → Status R → Status R
with_cache none s = s
with_cache (some c) s = record s {
  node = c.node;
  pod_cache_synced = c.synced;
  pods_tracked = c.len;
}

-- `daemonStatus`, at a moment.
pub daemon_status :
    {R : Type 0} ⦃fl : FloatOps R⦄ → Counters → Option CacheState → Time → Time → Status R
unfolding with_cache
daemon_status ⦃fl = fl⦄ c cache started now = with_cache cache (record {
  detector = c.detector;
  cgroup_version = c.cgroup_version;
  ready = c.ready;
  reports = c.processed;
  skipped = c.skipped;
  unattributed = c.unattributed;
  tracked_cgroups = c.tracked;
  uptime_seconds = fl.seconds (time_sub now started);
  version = c.version;
  node = [];
  pod_cache_synced = false;
  pods_tracked = 0;
})
