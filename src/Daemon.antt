-- ===== src/Daemon.antt =====
-- internal/daemon/daemon.go: `Daemon`, which turns kill events into reports. The counters are
-- atomic and one goroutine handles the events, so `Handle` is one step. Log lines are left out, and
-- with them `warnOnUnfilteredVictim`, which only writes one. `Run` starts the goroutines.
pub mod Build
pub mod Handle
pub mod Run
mod Tests
use k8s_pod_oom_oracle.Base.{
  ℕ, ◌+◌, ◌%◌, ◌^◌, Bool, true, false, ◌&&◌, not, Option, none, some, List, [], ◌∷◌, ◌++◌, map, Str,
  ltb, codes, ℤ, ◌==◌, if◌then◌else◌, length,
}
use k8s_pod_oom_oracle.Float.{FloatOps}
use k8s_pod_oom_oracle.Clock.{Time}
use k8s_pod_oom_oracle.Cgroup.Stats.{MemoryStats, unlimited}
use k8s_pod_oom_oracle.Cgroup.Reader.{Read, ok, err, Reader}
use k8s_pod_oom_oracle.Procfs.Process.{Process}
use k8s_pod_oom_oracle.Detector.Event.{KillEvent, Victim}
use k8s_pod_oom_oracle.Sampler.Sample.{Sample}
use k8s_pod_oom_oracle.Sampler.Trend.{newest, no_trend, analyse}
use k8s_pod_oom_oracle.Sampler.Collect.{Sampler, samples_for, tracked}
use k8s_pod_oom_oracle.Correlate.Identity.{no_scope, Identity, of_scope}
use k8s_pod_oom_oracle.Correlate.CgroupPath.{in_kubepods_tree}
use k8s_pod_oom_oracle.Correlate.Resolver.{PodLookup, resolve}
use k8s_pod_oom_oracle.Oom.Report.{Report, VictimMatch, ProcessSnapshot}
use k8s_pod_oom_oracle.Oom.Processes.{processes_from, trajectory_from}
use k8s_pod_oom_oracle.Store
use k8s_pod_oom_oracle.Store.{Result, Memory, put}

-- `cgroup` and `proc` are the readers, where there are any; `proc` is ProcessesWithPIDs. The
-- detector is not a part of the state: its events are what `handle` is given.
pub record Daemon (R : Type 0) : Type 0 where
  pub sampler : Sampler R
  pub store : Memory R
  pub cgroup : Option (Reader R)
  pub pods : Option PodLookup
  pub proc : Option (List ℤ → List Process)
  pub include_nk : Bool
  pub sequence : ℕ
  pub processed : ℕ
  pub skipped : ℕ
  pub unattributed : ℕ
  pub watching : Bool

-- atomic.Uint64's Add(1)
pub add_one : ℕ → ℕ
add_one n = (n + 1) % 2 ^ 64

-- How `nextID` writes a time and a number: time.Format and strconv.FormatUint.
pub record Formats : Type 0 where
  pub stamp : Time → Str
  pub decimal : ℕ → Str

-- `nextID`, from the sequence number that it has drawn.
pub report_id : Formats → Time → ℕ → Str
report_id f t n = f.stamp t ++ (codes "-" ++ f.decimal n)

-- The identity of a path that is no container's carries the path alone.
pub or_path : Bool → Str → Option Identity → Option Identity
or_path include_nk path (some i) = some i
or_path true path none = some (of_scope (record no_scope { cgroup_path = path }))
or_path false path none = none

pub late_group_kill : Read Bool → Option Bool
late_group_kill (err e) = none
late_group_kill (ok b) = some b

module _ {R : Type 0} ⦃fl : FloatOps R⦄ where
  pub bare_report : Str → Identity → KillEvent → Report R
  bare_report id identity event = record {
    id = id;
    time = event.time;
    identity = identity;
    victim = event.victim;
    source = event.source;
    kill_count = event.kill_count;
    limit_bytes = 0;
    peak_bytes = 0;
    trajectory = [];
    processes = [];
    victim_match = VictimMatch.unset;
    group_kill = none;
    trend = no_trend 0;
  }

  pub with_samples : List (Sample R) → Report R → Report R
  with_samples [] r = r
  with_samples (s ∷ ss) r =
      let latest = newest s ss in
      record r {
        trajectory = trajectory_from (s ∷ ss);
        trend = analyse (s ∷ ss);
        peak_bytes = latest.stats.peak;
        limit_bytes = if latest.stats.limit == unlimited then r.limit_bytes else latest.stats.limit;
      }

  pub with_history : Option (List (Sample R)) → Report R → Report R
  unfolding with_samples
  with_history none r = r
  with_history (some ss) r = with_samples ss r

  pub with_stats : Read MemoryStats → Report R → Report R
  with_stats (err e) r = r
  with_stats (ok stats) r = record r {
    peak_bytes = if ltb r.peak_bytes stats.peak then stats.peak else r.peak_bytes;
    limit_bytes =
        if r.limit_bytes == 0 && not (stats.limit == unlimited) then stats.limit else r.limit_bytes;
  }

  pub live_read : Option (Reader R) → Str → Report R → Report R
  unfolding with_stats
  live_read none path r = r
  live_read (some fs) path r = with_stats (fs.read_memory_stats path) r

  -- `applyLiveStats`
  pub apply_live_stats : Option (Reader R) → KillEvent → Report R → Report R
  unfolding live_read
  apply_live_stats cgroup event r =
      let read = live_read cgroup event.cgroup_path r in
      record read {
        peak_bytes =
            if ltb read.peak_bytes event.victim.rss_bytes
            then event.victim.rss_bytes
            else read.peak_bytes;
      }

  pub group_kill_of : Option Bool → Option (Reader R) → Str → Option Bool
  unfolding late_group_kill
  group_kill_of (some b) cgroup path = some b
  group_kill_of none none path = none
  group_kill_of none (some fs) path = late_group_kill (fs.read_oom_group path)

  -- `applyGroupKill`, on a report that holds no value yet.
  pub apply_group_kill : Option (Reader R) → KillEvent → Report R → Report R
  unfolding group_kill_of
  apply_group_kill cgroup event r = record r {
    group_kill = group_kill_of event.group_kill cgroup event.cgroup_path;
  }

  pub with_listing : (List ℤ → List Process) → Victim → Read (List ℤ) → Report R → Report R
  with_listing procs v (err e) r = r
  with_listing procs v (ok pids) r =
      let (listed, found) = processes_from (procs pids) v in
      record r { processes = listed; victim_match = found }

  pub apply_processes :
      Option (List ℤ → List Process) → Option (Reader R) → KillEvent → Report R → Report R
  unfolding with_listing
  apply_processes (some procs) (some fs) event r =
      with_listing procs event.victim (fs.procs_in event.cgroup_path) r
  apply_processes _ _ event r = r

  -- `buildReport` behind the identity; the samples are what `History` gives.
  pub assemble : Daemon R → KillEvent → Str → Option (List (Sample R)) → Identity → Report R
  unfolding bare_report with_history apply_live_stats apply_group_kill apply_processes
  assemble d event id samples identity = apply_processes d.proc d.cgroup event (
      apply_group_kill d.cgroup event
        (apply_live_stats d.cgroup event (with_history samples (bare_report id identity event))))

-- What `Handle` leaves, and the report that `OnReport` is given.
pub record Handled (R : Type 0) : Type 0 where
  pub daemon : Daemon R
  pub reported : Option (Report R)

module _ {R : Type 0} where
  -- A kill that the daemon cannot place.
  pub skip : Str → Daemon R → Daemon R
  skip path d = record d {
    skipped = add_one d.skipped;
    unattributed = if in_kubepods_tree path then add_one d.unattributed else d.unattributed;
  }

  -- A panic inside of `Put` would go through.
  pub after_put : Daemon R → Report R → Result (Memory R) → Result (Handled R)
  after_put d report (Store.ok m) = Store.ok (record {
    daemon = record d { store = m; processed = add_one d.processed };
    reported = some report;
  })
  after_put d report Store.not_found = Store.ok (record { daemon = d; reported = some report })
  after_put d report Store.panic = Store.panic

module _ {R : Type 0} ⦃fl : FloatOps R⦄ where
  pub handle_as : Formats → Daemon R → KillEvent → Option Identity → Result (Handled R)
  unfolding skip after_put assemble add_one report_id
  handle_as f d event none =
      Store.ok (record { daemon = skip event.cgroup_path d; reported = none })
  handle_as f d event (some identity) =
      let n = add_one d.sequence in
      let report =
        assemble d event (report_id f event.time n) (samples_for d.sampler event.cgroup_path)
          identity in
      after_put (record d { sequence = n }) report (put d.store report)

  -- `Handle`
  pub handle : Formats → Daemon R → KillEvent → Result (Handled R)
  unfolding handle_as or_path
  handle f d event =
      handle_as f d event
        (or_path d.include_nk event.cgroup_path (resolve d.pods event.cgroup_path))

-- `Ready`
pub ready : {R : Type 0} → Daemon R → Bool
ready d = d.watching && ltb 0 (length (tracked d.sampler))
