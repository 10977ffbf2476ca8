-- ===== src/Detector/Poller.antt =====
-- internal/detector/poller.go: `Poller`. The mutex is held through each pass, and log lines are left
-- out. What a pass sends on the channel is its list of events, in order; a cancelled context cuts
-- the list off. The cgroup reader is never nil in a poller that `NewPoller` has built.
pub mod Victims
pub mod Events
pub mod Quiet
pub mod Once
mod Tests
use k8s_pod_oom_oracle.Base.{
  ℕ, zero, suc, ◌+◌, Bool, true, false, Option, none, some, List, [], ◌∷◌, ◌++◌, Map, lookup,
  insert, delete, Str, same, str_discrete, ℤ, pos, negsuc, ℤ_discrete, leb, ltb, ltb_ℤ, leb_ℤ, ◌==◌,
  ◌==ℤ◌, any, if◌then◌else◌, not,
}
use k8s_pod_oom_oracle.Clock.{Time, Duration}
use k8s_pod_oom_oracle.Cgroup.Stats.{MemoryStats, oom_kills}
use k8s_pod_oom_oracle.Cgroup.Reader.{Read, ok, err, Reader}
use k8s_pod_oom_oracle.Procfs.Process.{Process}
use k8s_pod_oom_oracle.Detector.Event.{Source, Victim, no_victim, KillEvent, victim_from_process}

abbrev pub default_poll_interval : Duration
default_poll_interval = pos 500000000

-- `proc` is ProcessesWithPIDs of the process reader, where there is one.
pub record Poller : Type 0 where
  pub proc : Option (List ℤ → List Process)
  pub prefix : Str
  pub interval : Duration
  pub counters : Map Str ℕ
  pub snapshots : Map Str (Map ℤ Process)

-- `NewPoller`, once it has found a cgroup reader.
pub new_poller : Option (List ℤ → List Process) → Str → Duration → Poller
new_poller proc prefix interval = record {
  proc = proc;
  prefix = prefix;
  interval = if leb_ℤ interval (pos 0) then default_poll_interval else interval;
  counters = [];
  snapshots = [];
}

-- The comparison of `inferVictimLocked`, as whether `a` goes first: the heaviest, then the lowest
-- PID. PIDs are far from the ends of int, so their difference has the sign of the comparison.
pub goes_first : Process → Process → Bool
goes_first a b =
    if a.rss_bytes == b.rss_bytes then ltb_ℤ a.pid b.pid else ltb b.rss_bytes a.rss_bytes

pub insert_by_weight : Process → List Process → List Process
unfolding goes_first
insert_by_weight p [] = p ∷ []
insert_by_weight p (q ∷ qs) =
    let rest = insert_by_weight p qs in if goes_first q p then q ∷ rest else p ∷ q ∷ qs

-- slices.SortFunc. Two processes of a snapshot have two PIDs, so the order is strict, and the
-- result is the same for every correct way to sort.
pub by_weight : List Process → List Process
unfolding insert_by_weight
by_weight [] = []
by_weight (p ∷ ps) = insert_by_weight p (by_weight ps)

-- The processes of the last snapshot whose PIDs are gone.
pub vanished : List ℤ → Map ℤ Process → List Process
vanished alive [] = []
vanished alive ((pid, proc) ∷ previous) =
    if any (λ a. a ==ℤ pid) alive then vanished alive previous else proc ∷ vanished alive previous

pub first_victim : List Process → Victim
first_victim [] = no_victim
first_victim (p ∷ ps) = victim_from_process p

pub victim_among : Map ℤ Process → Read (List ℤ) → Victim
unfolding first_victim by_weight vanished
victim_among previous (err e) = no_victim
victim_among previous (ok alive) = first_victim (by_weight (vanished alive previous))

pub victim_in : Option (List ℤ → List Process) → Option (Map ℤ Process) → Read (List ℤ) → Victim
unfolding victim_among
victim_in (some procs) (some previous) alive = victim_among previous alive
victim_in _ _ alive = no_victim

read_or_nil : Read Bool → Option Bool
read_or_nil (ok b) = some b
read_or_nil (err e) = none

-- The processes under their PIDs, as `refreshSnapshotsLocked` files them.
by_pid : List Process → Map ℤ Process → Map ℤ Process
by_pid [] m = m
by_pid (p ∷ ps) m = by_pid ps (insert ℤ_discrete p.pid p m)

snapshot_with : (List ℤ → List Process) → Str → Read (List ℤ) → Poller → Poller
unfolding by_pid
snapshot_with procs path (err e) p = p
snapshot_with procs path (ok pids) p = record p {
  snapshots = insert str_discrete path (by_pid (procs pids) []) p.snapshots;
}

prime_counter : Str → Read MemoryStats → Poller → Poller
prime_counter path (err e) p = p
prime_counter path (ok stats) p = record p {
  counters = insert str_discrete path (oom_kills stats) p.counters;
}

module _ {R : Type 0} where
  -- `inferVictimLocked`
  pub infer_victim : Reader R → Poller → Str → Victim
  unfolding victim_in
  infer_victim fs p path =
      victim_in p.proc (lookup str_discrete path p.snapshots) (fs.procs_in path)

  -- `readGroupKill`
  pub read_group_kill : Reader R → Str → Option Bool
  unfolding read_or_nil
  read_group_kill fs path = read_or_nil (fs.read_oom_group path)

  pub event_at : Reader R → Time → Poller → Str → ℕ → KillEvent
  event_at fs now p path current = record {
    time = now;
    cgroup_path = path;
    victim = infer_victim fs p path;
    kill_count = current;
    group_kill = read_group_kill fs path;
    source = Source.poller;
  }

  -- A counter that was not seen before, or has not risen, gives no event.
  pub event_if_risen : Reader R → Time → Poller → Str → ℕ → Option ℕ → List KillEvent
  unfolding event_at
  event_if_risen fs now p path current none = []
  event_if_risen fs now p path current (some previous) =
      if leb current previous then [] else event_at fs now p path current ∷ []

  pub detect_one :
      Reader R → Time → Str → Read MemoryStats → List KillEvent × Poller → List KillEvent × Poller
  unfolding event_if_risen
  detect_one fs now path (err e) acc = acc
  detect_one fs now path (ok stats) (events, p) =
      let p' : Poller = record p {
        counters = insert str_discrete path (oom_kills stats) p.counters;
      } in
      (
        events
            ++ event_if_risen fs now p' path (oom_kills stats)
                (lookup str_discrete path p.counters),
        p',
      )

  -- The loop of `detectLocked`.
  pub detect : Reader R → Time → List Str → List KillEvent × Poller → List KillEvent × Poller
  unfolding detect_one
  detect fs now [] acc = acc
  detect fs now (path ∷ paths) acc =
      detect fs now paths (detect_one fs now path (fs.read_memory_stats path) acc)

  snapshot_all : (List ℤ → List Process) → Reader R → List Str → Poller → Poller
  unfolding snapshot_with
  snapshot_all procs fs [] p = p
  snapshot_all procs fs (path ∷ paths) p =
      snapshot_all procs fs paths (snapshot_with procs path (fs.procs_in path) p)

  refresh_with : Option (List ℤ → List Process) → Reader R → List Str → Poller → Poller
  unfolding snapshot_all
  refresh_with none fs paths p = p
  refresh_with (some procs) fs paths p = snapshot_all procs fs paths p

  -- `refreshSnapshotsLocked`
  pub refresh_snapshots : Reader R → List Str → Poller → Poller
  unfolding refresh_with
  refresh_snapshots fs paths p = refresh_with p.proc fs paths p

  pub prime_counters : Reader R → List Str → Poller → Poller
  unfolding prime_counter
  prime_counters fs [] p = p
  prime_counters fs (path ∷ paths) p =
      prime_counters fs paths (prime_counter path (fs.read_memory_stats path) p)

  -- `Prime`
  pub prime : Reader R → Poller → Read Poller
  unfolding prime_counters refresh_snapshots
  prime fs p = elim (fs.discover p.prefix) [
    | err e ↦ err e
    | ok paths ↦ ok (refresh_snapshots fs paths (prime_counters fs paths p))
  ]

-- The loop of `evictLocked` over the counters.
pub evict_gone : (Str → Bool) → Map Str ℕ → Poller → Poller
evict_gone live [] p = p
evict_gone live ((path, count) ∷ rest) p = evict_gone live rest (
    if live path then p else record p {
      counters = delete str_discrete path p.counters;
      snapshots = delete str_discrete path p.snapshots;
    })

-- `evictLocked`
pub evict : List Str → Poller → Poller
unfolding evict_gone
evict paths p = evict_gone (λ q. any (same q) paths) p.counters p

-- `Poll`. The snapshots are refreshed after the detection, from the hierarchy `later` than it.
pub poll : {R : Type 0} → Reader R → Reader R → Time → Poller → Read (List KillEvent × Poller)
unfolding detect refresh_snapshots evict
poll fs later now p = elim (fs.discover p.prefix) [
  | err e ↦ err e
  | ok paths ↦
      let (events, p') = detect fs now paths ([], p) in
      ok (events, evict paths (refresh_snapshots later paths p'))
]
