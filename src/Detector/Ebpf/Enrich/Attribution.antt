-- ===== src/Detector/Ebpf/Enrich/Attribution.antt =====
-- What the traced events say of the kernel's samples, and which cgroup they name.
use k8s_pod_oom_oracle.Base.{
  ℕ, ℤ, pos, ◌≡◌, refl, inl, inr, Bool, true, false, Option, none, some, List, [], ◌∷◌, Str, same,
  if◌then◌else◌, Option-cases, Bool-cases,
}
use k8s_pod_oom_oracle.Procfs.Process.{Process}
use k8s_pod_oom_oracle.Cgroup.Stats.{MemoryStats}
use k8s_pod_oom_oracle.Cgroup.Reader.{Read, ok, err, Reader}
use k8s_pod_oom_oracle.Detector.Event.{Source, KillEvent}
use k8s_pod_oom_oracle.Detector.Ebpf.Wire.{RawEvent, decode_event, comm_text, kill_event}
use k8s_pod_oom_oracle.Detector.Ebpf.Index.{CgroupIndex, path_of_id}
use k8s_pod_oom_oracle.Detector.Ebpf.Index.Transparent.{AgreesWith, listed, path_of_id-listed}
use k8s_pod_oom_oracle.Detector.Ebpf.Enrich.{
  EbpfDetector, Listings, Round, or_empty, or_memcg, from_index, resolve_cgroup, read_victim,
  with_process, with_cgroup, with_count, with_group_kill, enrich, loop,
}

-- The event names the process that the kernel chose, as a fact.
abbrev pub Names : RawEvent → KillEvent → Type 0
Names raw e =
    (e.victim.pid ≡ pos raw.pid)
    × (e.victim.comm ≡ comm_text raw)
    × (e.victim.known ≡ true)
    × (e.victim.inferred ≡ false)
    × (e.source ≡ Source.ebpf)

with_process-Names :
    (raw : RawEvent) (p : Option Process) (e : KillEvent)
    → Names raw e
    → Names raw (with_process p e)
unfolding with_process
with_process-Names raw none e h = h
with_process-Names raw (some p) e h = h

kill_event-Names :
    (path : Str) (size : ℤ) (boot : ℕ) (raw : RawEvent) → Names raw (kill_event path size boot raw)
unfolding kill_event
kill_event-Names path size boot raw = (refl, refl, refl, refl, refl)

onto_raw : Option RawEvent → List RawEvent → List RawEvent
onto_raw none raws = raws
onto_raw (some raw) raws = raw ∷ raws

module _ {R : Type 0} where
  with_cgroup-Names :
      (raw : RawEvent) (fs : Option (Reader R)) (e : KillEvent)
      → Names raw e
      → Names raw (with_cgroup fs e)
  unfolding with_cgroup
  with_cgroup-Names raw none e h = h
  with_cgroup-Names raw (some fs) e h = elim (Bool-cases (same e.cgroup_path [])) [
    | inl s ↦ rw s h
    | inr s ↦ rw s (
        grouped (fs.read_oom_group e.cgroup_path) _
          (counted (fs.read_memory_stats e.cgroup_path) e h))
  ]
    where
      counted : (r : Read MemoryStats) (e : KillEvent) → Names raw e → Names raw (with_count r e)
      counted (ok stats) e h = h
      counted (err x) e h = h

      grouped : (r : Read Bool) (e : KillEvent) → Names raw e → Names raw (with_group_kill r e)
      grouped (ok b) e h = h
      grouped (err x) e h = h

  enrich-Names :
      (d : EbpfDetector R) (l : Listings) (raw : RawEvent) (index : CgroupIndex)
      → Names raw (enrich d l raw index).0
  unfolding enrich
  enrich-Names d l raw index = with_cgroup-Names raw d.cgroup _ (
      with_process-Names raw (read_victim d.procs raw.pid) _
        (kill_event-Names _ d.page_size d.boot_time raw))

  -- The samples that can be decoded, in order.
  pub decoded : List (Round R) → List RawEvent
  unfolding onto_raw
  decoded [] = []
  decoded (r ∷ rounds) = onto_raw (decode_event r.sample) (decoded rounds)

  -- The context does not end.
  abbrev pub AreRunning : List (Round R) → Type 0
  AreRunning [] = Unit
  AreRunning (r ∷ rounds) = (r.cancelled ≡ false) × AreRunning rounds

-- An event for each sample.
abbrev pub AreReported : List RawEvent → List KillEvent → Type 0
AreReported [] [] = Unit
AreReported (raw ∷ raws) (e ∷ events) = Names raw e × AreReported raws events
AreReported [] (e ∷ events) = ⊥
AreReported (raw ∷ raws) [] = ⊥

-- Until the context ends, the detector sends one event for each sample that can be decoded, in
-- order: it names the process that the kernel chose, as a fact and not as a guess, whatever of /proc
-- and of the cgroup can still be read. A malformed sample stops nothing.
pub loop-AreReported :
    {R : Type 0} (rounds : List (Round R)) (index : CgroupIndex)
    → AreRunning rounds
    → AreReported (decoded rounds) (loop rounds index)
unfolding loop decoded onto_raw
loop-AreReported [] index h = tt
loop-AreReported (r ∷ rounds) index (h, hs) = elim (Option-cases (decode_event r.sample)) [
  | inl e ↦ rw (loop, e) (loop-AreReported rounds index hs)
  | inr (raw, e) ↦
      rw (loop, e, h)
        (
          enrich-Names r.detector r.listings raw index,
          loop-AreReported rounds (enrich r.detector r.listings raw index).1 hs,
        )
]

-- The first path that there is.
abbrev pub first_path : Option Str → Option Str → Str
first_path (some path) later = path
first_path none (some path) = path
first_path none none = []

from_index-listed :
    (listing : CgroupIndex) (raw : RawEvent) (index : CgroupIndex)
    → AgreesWith index listing
    → (from_index (record { for_task = some listing; for_memcg = some listing }) raw index).0
      ≡ first_path (listed raw.task_cgroup_id listing) (listed raw.memcg_id listing)
unfolding from_index or_memcg or_empty
from_index-listed listing raw index h =
    let (e, k) = path_of_id-listed listing raw.task_cgroup_id index h in chosen _ _ e k
  where
    memcg :
        (r : Option Str × CgroupIndex) (p : Option Str)
        → r.0 ≡ p
        → (or_empty r).0 ≡ first_path none p
    memcg (none, i) none q = refl
    memcg (none, i) (some x) q = cc
    memcg (some y, i) none q = cc
    memcg (some y, i) (some x) q = cc

    chosen :
        (r : Option Str × CgroupIndex) (p : Option Str)
        → r.0 ≡ p
        → AgreesWith r.1 listing
        → (or_memcg (some listing) raw.memcg_id r).0 ≡ first_path p (listed raw.memcg_id listing)
    chosen (none, i) none q a =
        memcg (path_of_id (some listing) raw.memcg_id i) _
          (path_of_id-listed listing raw.memcg_id i a).0
    chosen (none, i) (some x) q a = cc
    chosen (some y, i) none q a = cc
    chosen (some y, i) (some x) q a = cc

-- The cgroup that /proc gives for a victim.
abbrev pub own_cgroup : Option Process → Option Str
own_cgroup none = none
own_cgroup (some p) = if same p.cgroup_path [] then none else some p.cgroup_path

abbrev pub attributed : Option Str → Option Str → Option Str → Str
attributed (some path) task memcg = path
attributed none task memcg = first_path task memcg

-- A kill is attributed to the cgroup that /proc gives for the victim, if it gives one, else to the
-- cgroup of the victim's ID, else to the one whose limit broke, else to none, where both walks of the
-- hierarchy give the same listing and the index agrees with it.
pub resolve_cgroup-listed :
    (listing : CgroupIndex) (raw : RawEvent) (victim : Option Process) (index : CgroupIndex)
    → AgreesWith index listing
    → (resolve_cgroup
        (record { for_task = some listing; for_memcg = some listing })
        raw
        victim
        index).0
      ≡ attributed
          (own_cgroup victim)
          (listed raw.task_cgroup_id listing)
          (listed raw.memcg_id listing)
unfolding resolve_cgroup
resolve_cgroup-listed listing raw none index h = from_index-listed listing raw index h
resolve_cgroup-listed listing raw (some p) index h = elim (Bool-cases (same p.cgroup_path [])) [
  | inl e ↦ rw e (from_index-listed listing raw index h)
  | inr e ↦ rw e refl
]
