-- ===== src/Detector/Ebpf/Enrich.antt =====
-- internal/detector/ebpf_supported.go: `ebpfDetector`, from a raw sample to an event.
pub mod Attribution
use k8s_pod_oom_oracle.Base.{
  ℕ, ℤ, pos, ◌==ℤ◌, Bool, true, false, Option, none, some, List, [], ◌∷◌, Str, same, if◌then◌else◌,
  not,
}
use k8s_pod_oom_oracle.Clock.{Time}
use k8s_pod_oom_oracle.Cgroup.Stats.{MemoryStats, oom_kills}
use k8s_pod_oom_oracle.Cgroup.Reader.{Read, ok, err, Reader}
use k8s_pod_oom_oracle.Procfs.Process.{Process}
use k8s_pod_oom_oracle.Detector.Event.{Victim, KillEvent}
use k8s_pod_oom_oracle.Detector.Ebpf.Wire.{RawEvent, decode_event, kill_event}
use k8s_pod_oom_oracle.Detector.Ebpf.Index.{CgroupIndex, path_of_id}

-- What a detector is made with: `procs` is the Process method of its procfs reader, and either reader
-- may be missing.
pub record EbpfDetector (R : Type 0) : Type 0 where
  pub cgroup : Option (Reader R)
  pub procs : Option (ℤ → Option Process)
  pub page_size : ℤ
  pub boot_time : Time

-- What the listings of the hierarchy give, if they are made: the first for the victim's cgroup, the
-- second for the one whose limit broke.
pub record Listings : Type 0 where
  pub for_task : Option CgroupIndex
  pub for_memcg : Option CgroupIndex

-- One round of `loop`: a sample, with the readers and the listings of that moment, and whether the
-- context ends before the event is taken.
pub record Round (R : Type 0) : Type 0 where
  pub sample : Str
  pub detector : EbpfDetector R
  pub listings : Listings
  pub cancelled : Bool

or_empty : Option Str × CgroupIndex → Str × CgroupIndex
or_empty (none, index) = ([], index)
or_empty (some path, index) = (path, index)

or_memcg : Option CgroupIndex → ℕ → Option Str × CgroupIndex → Str × CgroupIndex
unfolding or_empty
or_memcg listing memcg (some path, index) = (path, index)
or_memcg listing memcg (none, index) = or_empty (path_of_id listing memcg index)

from_index : Listings → RawEvent → CgroupIndex → Str × CgroupIndex
unfolding or_memcg
from_index l raw index =
    or_memcg l.for_memcg raw.memcg_id (path_of_id l.for_task raw.task_cgroup_id index)

-- `resolveCgroup`
pub resolve_cgroup : Listings → RawEvent → Option Process → CgroupIndex → Str × CgroupIndex
unfolding from_index
resolve_cgroup l raw none index = from_index l raw index
resolve_cgroup l raw (some victim) index =
    if same victim.cgroup_path [] then from_index l raw index else (victim.cgroup_path, index)

read_victim : Option (ℤ → Option Process) → ℕ → Option Process
read_victim none pid = none
read_victim (some procs) pid = procs (pos pid)

-- What /proc adds to the victim.
pub with_process : Option Process → KillEvent → KillEvent
with_process none e = e
with_process (some p) e = record e {
  victim = record (e.victim) {
    cmdline = p.cmdline;
    ns_pid = if e.victim.ns_pid ==ℤ pos 0 then p.ns_pid else e.victim.ns_pid;
  };
}

with_count : Read MemoryStats → KillEvent → KillEvent
with_count (err x) e = e
with_count (ok stats) e = record e { kill_count = oom_kills stats }

with_group_kill : Read Bool → KillEvent → KillEvent
with_group_kill (err x) e = e
with_group_kill (ok b) e = record e { group_kill = some b }

module _ {R : Type 0} where
  -- What the cgroup adds to the event.
  pub with_cgroup : Option (Reader R) → KillEvent → KillEvent
  unfolding with_count with_group_kill
  with_cgroup none e = e
  with_cgroup (some fs) e =
      if same e.cgroup_path []
      then e
      else with_group_kill (fs.read_oom_group e.cgroup_path)
          (with_count (fs.read_memory_stats e.cgroup_path) e)

  -- `enrich`
  pub enrich : EbpfDetector R → Listings → RawEvent → CgroupIndex → KillEvent × CgroupIndex
  unfolding read_victim resolve_cgroup with_process with_cgroup
  enrich d l raw index =
      let victim = read_victim d.procs raw.pid in
      let (path, next) = resolve_cgroup l raw victim index in
      (
        with_cgroup d.cgroup (with_process victim (kill_event path d.page_size d.boot_time raw)),
        next,
      )

  -- `loop`, up to the read that fails: a sample that cannot be decoded is passed over.
  pub loop : List (Round R) → CgroupIndex → List KillEvent
  unfolding enrich
  loop [] index = []
  loop (r ∷ rounds) index = elim (decode_event r.sample) [
    | none ↦ loop rounds index
    | some raw ↦
        let (event, next) = enrich r.detector r.listings raw index in
        let rest = loop rounds next in if r.cancelled then [] else event ∷ rest
  ]
