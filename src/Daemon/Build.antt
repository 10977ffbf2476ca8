-- ===== src/Daemon/Build.antt =====
-- The numbers and the flags of a report.
use k8s_pod_oom_oracle.Base.{
  ℕ, max, ◌≡◌, refl, ap, ◌∙◌, Bool, Option, none, some, List, [], ◌∷◌, arith, Str, ℤ,
}
use k8s_pod_oom_oracle.Float.{FloatOps}
use k8s_pod_oom_oracle.Cgroup.Stats.{MemoryStats}
use k8s_pod_oom_oracle.Cgroup.Reader.{Read, ReadError, ok, err, Reader}
use k8s_pod_oom_oracle.Procfs.Process.{Process}
use k8s_pod_oom_oracle.Detector.Event.{KillEvent, Victim}
use k8s_pod_oom_oracle.Sampler.Sample.{Sample}
use k8s_pod_oom_oracle.Sampler.Trend.{newest}
use k8s_pod_oom_oracle.Correlate.Identity.{Identity}
use k8s_pod_oom_oracle.Oom.Report.{Report}
use k8s_pod_oom_oracle.Daemon.{
  Daemon, bare_report, with_samples, with_history, with_stats, live_read, apply_live_stats,
  late_group_kill, group_kill_of, apply_group_kill, with_listing, apply_processes, assemble,
}

peak_of_read : Read MemoryStats → ℕ
peak_of_read (ok stats) = stats.peak
peak_of_read (err e) = 0

module _ {R : Type 0} where
  -- The high-water mark of the newest sample.
  pub sampled_peak : Option (List (Sample R)) → ℕ
  sampled_peak (some (s ∷ ss)) = (newest s ss).stats.peak
  sampled_peak _ = 0

  -- The high-water mark that the cgroup shows when the report is built.
  pub live_peak : Option (Reader R) → Str → ℕ
  unfolding peak_of_read
  live_peak none path = 0
  live_peak (some fs) path = peak_of_read (fs.read_memory_stats path)

  -- What is said of group kill, by what the detector has read and what the cgroup says now.
  pub data Said (early : Option Bool) (cgroup : Option (Reader R)) (path : Str) (said : Option Bool)
      : Type 0 where
    by_detector : (b : Bool) → early ≡ some b → said ≡ some b → Said early cgroup path said
    by_cgroup :
        (b : Bool) (fs : Reader R)
        → early ≡ none
        → cgroup ≡ some fs
        → fs.read_oom_group path ≡ ok b
        → said ≡ some b
        → Said early cgroup path said
    unread :
        (e : ReadError) (fs : Reader R)
        → early ≡ none
        → cgroup ≡ some fs
        → fs.read_oom_group path ≡ err e
        → said ≡ none
        → Said early cgroup path said
    no_reader : early ≡ none → cgroup ≡ none → said ≡ none → Said early cgroup path said

module _ {R : Type 0} ⦃fl : FloatOps R⦄ where
  peak-with_history :
      (samples : Option (List (Sample R))) (id : Str) (i : Identity) (event : KillEvent)
      → (with_history samples (bare_report id i event)).peak_bytes ≡ sampled_peak samples
  unfolding with_history with_samples bare_report sampled_peak
  peak-with_history none id i event = refl
  peak-with_history (some []) id i event = refl
  peak-with_history (some (s ∷ ss)) id i event = refl

  peak-with_stats :
      (o : Read MemoryStats) (r : Report R)
      → (with_stats o r).peak_bytes ≡ max r.peak_bytes (peak_of_read o)
  unfolding with_stats peak_of_read
  peak-with_stats (ok stats) r = ground arith
  peak-with_stats (err e) r = omega arith

  peak-live_read :
      (cgroup : Option (Reader R)) (path : Str) (r : Report R)
      → (live_read cgroup path r).peak_bytes ≡ max r.peak_bytes (live_peak cgroup path)
  unfolding live_read live_peak
  peak-live_read none path r = omega arith
  peak-live_read (some fs) path r = peak-with_stats (fs.read_memory_stats path) r

  peak-apply_live_stats :
      (cgroup : Option (Reader R)) (event : KillEvent) (r : Report R)
      → (apply_live_stats cgroup event r).peak_bytes
        ≡ max (max r.peak_bytes (live_peak cgroup event.cgroup_path)) event.victim.rss_bytes
  unfolding apply_live_stats
  peak-apply_live_stats cgroup event r = ground (arith, peak-live_read cgroup event.cgroup_path r)

  with_listing-keeps :
      (procs : List ℤ → List Process) (v : Victim) (o : Read (List ℤ)) (r : Report R)
      → ((with_listing procs v o r).peak_bytes ≡ r.peak_bytes)
        × ((with_listing procs v o r).group_kill ≡ r.group_kill)
        × ((with_listing procs v o r).id ≡ r.id)
  unfolding with_listing
  with_listing-keeps procs v (ok pids) r = (refl, refl, refl)
  with_listing-keeps procs v (err e) r = (refl, refl, refl)

  -- The listing changes neither the numbers nor the flag.
  apply_processes-keeps :
      (procs : Option (List ℤ → List Process)) (cgroup : Option (Reader R)) (event : KillEvent)
      (r : Report R)
      → ((apply_processes procs cgroup event r).peak_bytes ≡ r.peak_bytes)
        × ((apply_processes procs cgroup event r).group_kill ≡ r.group_kill)
        × ((apply_processes procs cgroup event r).id ≡ r.id)
  unfolding apply_processes
  apply_processes-keeps (some procs) (some fs) event r =
      with_listing-keeps procs event.victim (fs.procs_in event.cgroup_path) r
  apply_processes-keeps none cgroup event r = (refl, refl, refl)
  apply_processes-keeps (some procs) none event r = (refl, refl, refl)

  id-with_history :
      (samples : Option (List (Sample R))) (id : Str) (i : Identity) (event : KillEvent)
      → (with_history samples (bare_report id i event)).id ≡ id
  unfolding with_history with_samples bare_report
  id-with_history none id i event = refl
  id-with_history (some []) id i event = refl
  id-with_history (some (s ∷ ss)) id i event = refl

  id-live_read :
      (cgroup : Option (Reader R)) (path : Str) (r : Report R) → (live_read cgroup path r).id ≡ r.id
  unfolding live_read with_stats
  id-live_read none path r = refl
  id-live_read (some fs) path r = read (fs.read_memory_stats path)
    where
      read : (o : Read MemoryStats) → (with_stats o r).id ≡ r.id
      read (ok stats) = refl
      read (err e) = refl

  pub id-assemble :
      (d : Daemon R) (event : KillEvent) (id : Str) (samples : Option (List (Sample R)))
      (i : Identity)
      → (assemble d event id samples i).id ≡ id
  unfolding assemble apply_group_kill apply_live_stats
  id-assemble d event id samples i =
      let r0 = with_history samples (bare_report id i event) in
      let r1 = apply_live_stats d.cgroup event r0 in
      (apply_processes-keeps d.proc d.cgroup event (apply_group_kill d.cgroup event r1)).2
      ∙ id-live_read d.cgroup event.cgroup_path r0
      ∙ id-with_history samples id i event

  -- The peak of a report is the highest of what the newest sample says, what the cgroup still shows
  -- when the report is built, and what the victim held; a source that is missing counts as zero.
  pub assemble-peak :
      (d : Daemon R) (event : KillEvent) (id : Str) (samples : Option (List (Sample R)))
      (i : Identity)
      → (assemble d event id samples i).peak_bytes
        ≡ max
            (max (sampled_peak samples) (live_peak d.cgroup event.cgroup_path))
            event.victim.rss_bytes
  unfolding assemble apply_group_kill
  assemble-peak d event id samples i =
      let r0 = with_history samples (bare_report id i event) in
      let r1 = apply_live_stats d.cgroup event r0 in
      (apply_processes-keeps d.proc d.cgroup event (apply_group_kill d.cgroup event r1)).0
      ∙ peak-apply_live_stats d.cgroup event r0
      ∙ ap (λ n. max (max n (live_peak d.cgroup event.cgroup_path)) event.victim.rss_bytes)
          (peak-with_history samples id i event)

  group_kill_of-Said :
      (early : Option Bool) (cgroup : Option (Reader R)) (path : Str) (said : Option Bool)
      → said ≡ group_kill_of early cgroup path
      → Said early cgroup path said
  unfolding group_kill_of late_group_kill
  group_kill_of-Said (some b) cgroup path said e = by_detector b refl e
  group_kill_of-Said none none path said e = no_reader refl refl e
  group_kill_of-Said none (some fs) path said e = late (fs.read_oom_group path) refl e
    where
      late :
          (o : Read Bool)
          → fs.read_oom_group path ≡ o
          → said ≡ late_group_kill o
          → Said none (some fs) path said
      late (ok b) h e = by_cgroup b fs refl refl h e
      late (err x) h e = unread x fs refl refl h e

  -- Every report says of group kill what the detector has read; when the detector has read nothing,
  -- it says what the cgroup says when the report is built; when that cannot be read either, or there
  -- is no reader of cgroups, it says nothing.
  pub assemble-group_kill :
      (d : Daemon R) (event : KillEvent) (id : Str) (samples : Option (List (Sample R)))
      (i : Identity)
      → Said event.group_kill d.cgroup event.cgroup_path (assemble d event id samples i).group_kill
  unfolding assemble apply_group_kill
  assemble-group_kill d event id samples i =
      let r1 = apply_live_stats d.cgroup event (with_history samples (bare_report id i event)) in
      group_kill_of-Said event.group_kill d.cgroup event.cgroup_path _
        (apply_processes-keeps d.proc d.cgroup event (apply_group_kill d.cgroup event r1)).1
