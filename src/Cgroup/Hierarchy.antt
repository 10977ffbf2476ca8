-- ===== src/Cgroup/Hierarchy.antt =====
-- internal/cgroup/cgroup.go and pressure.go: `FS`, the reads of a cgroup hierarchy on a file system.
-- The error values are wrapped with the name of the file, which no caller looks at.
pub mod Errors
pub mod Discovery
mod Tests
use k8s_pod_oom_oracle.Base.{
  ℕ, ℤ, pos, leb_ℤ, Bool, true, false, not, Option, none, some, List, [], ◌∷◌, ◌++◌, Map, lookup,
  Str, codes, same, str_discrete, drop, if◌then◌else◌, ◌==◌, trim_prefix,
}
use k8s_pod_oom_oracle.Float.{FloatOps}
use k8s_pod_oom_oracle.Strings.Space.{fields}
use k8s_pod_oom_oracle.Strings.Numbers.{atoi}
use k8s_pod_oom_oracle.Strings.Clean.{clean, join_path}
use k8s_pod_oom_oracle.Cgroup.Stats.{
  Version, version_unknown, v1, v2, MemoryEvents, MemoryStats, no_events, no_stats, Psi,
  normalise_limit,
}
use k8s_pod_oom_oracle.Cgroup.Reader.{
  Read, ok, err, ◌>>=◌, ReadError, not_exist, permission, psi_unsupported, other_error, Reader,
}
use k8s_pod_oom_oracle.Cgroup.Parse.{
  parse_uint, parse_limit, parse_pid_list, parse_key_value, parse_psi,
}

-- A walk of a directory, as fs.WalkDir makes it: each entry under its name, and for a directory
-- the error of listing it, where there is one, and what was listed.
mutual
  pub data Tree : Type 0 where
    leaf : Str → Tree
    folder : Str → Option ReadError → Forest → Tree

  pub data Forest : Type 0 where
    nothing : Forest
    also : Tree → Forest → Forest

-- fs.FS as the program uses it: fs.ReadFile, fs.Stat and fs.WalkDir.
pub record FileSystem : Type 0 where
  pub read_file : Str → Read Str
  pub stat : Str → Read Unit
  pub tree_at : Str → Read Tree

-- `cleanCgroupPath`
pub clean_cgroup_path : Str → Str
clean_cgroup_path p =
    let cleaned = clean (codes "/" ++ p) in
    if same cleaned (codes "/") then codes "." else drop 1 cleaned

pub exists_file : Read Unit → Bool
exists_file (ok u) = true
exists_file (err e) = false

-- `DetectVersion`
pub detect_version : FileSystem → Version
unfolding exists_file
detect_version fs =
    if exists_file (fs.stat (codes "cgroup.controllers"))
    then v2
    else if exists_file (fs.stat (codes "memory/memory.usage_in_bytes"))
    then v1
    else if exists_file (fs.stat (codes "memory.usage_in_bytes"))
    then v1
    else version_unknown

-- A value that could not be parsed is an error like any other.
parsed : {A : Type 0} → Option A → Read A
parsed none = err other_error
parsed (some a) = ok a

-- `readUint`
pub read_uint : FileSystem → Str → Read ℕ
unfolding parsed
read_uint fs name = fs.read_file name >>= λ content. parsed (parse_uint content)

or_zero : Read ℕ → Read ℕ
or_zero (err not_exist) = ok 0
or_zero r = r

-- `readUintOptional`
pub read_uint_optional : FileSystem → Str → Read ℕ
unfolding read_uint or_zero
read_uint_optional fs name = or_zero (read_uint fs name)

-- `readLimit`
pub read_limit : FileSystem → Str → Read ℕ
unfolding parsed
read_limit fs name = fs.read_file name >>= λ content. parsed (parse_limit content)

pairs_or_none : Read Str → Read (Map Str ℕ)
unfolding parsed
pairs_or_none (err not_exist) = ok []
pairs_or_none (err e) = err e
pairs_or_none (ok content) = parsed (parse_key_value content)

-- `readKeyValueOptional`
pub read_key_value_optional : FileSystem → Str → Read (Map Str ℕ)
unfolding pairs_or_none
read_key_value_optional fs name = pairs_or_none (fs.read_file name)

-- A map read at a key that may be missing.
pub field_of : Str → Map Str ℕ → ℕ
field_of key m = elim (lookup str_discrete key m) [ none ↦ 0 | some n ↦ n ]

-- `eventsFrom`
pub events_from : Map Str ℕ → MemoryEvents
unfolding field_of
events_from m = record {
  low = field_of (codes "low") m;
  high = field_of (codes "high") m;
  max = field_of (codes "max") m;
  oom = field_of (codes "oom") m;
  oom_kill = field_of (codes "oom_kill") m;
}

pub is_empty : Map Str ℕ → Bool
is_empty [] = true
is_empty (e ∷ m) = false

pub with_local_events : Map Str ℕ → MemoryStats → MemoryStats
unfolding is_empty events_from
with_local_events m stats =
    if is_empty m
    then stats
    else record stats { events_local = events_from m; has_local_events = true }

-- `readMemoryStatsV2`
pub read_memory_stats_v2 : FileSystem → Str → Read MemoryStats
unfolding read_uint read_limit read_uint_optional read_key_value_optional field_of events_from
    with_local_events
read_memory_stats_v2 fs path = do
  let dir = clean_cgroup_path path
  current ← read_uint fs (join_path dir (codes "memory.current"))
  limit ← read_limit fs (join_path dir (codes "memory.max"))
  peak ← read_uint_optional fs (join_path dir (codes "memory.peak"))
  swap ← read_uint_optional fs (join_path dir (codes "memory.swap.current"))
  stat ← read_key_value_optional fs (join_path dir (codes "memory.stat"))
  events ← read_key_value_optional fs (join_path dir (codes "memory.events"))
  events_local ← read_key_value_optional fs (join_path dir (codes "memory.events.local"))
  ok (
      with_local_events events_local (record no_stats {
        current = current;
        limit = limit;
        peak = peak;
        swap = swap;
        anon = field_of (codes "anon") stat;
        file = field_of (codes "file") stat;
        kernel = field_of (codes "kernel") stat;
        events = events_from events;
      }))

-- `readMemoryStatsV1`: failcnt is no kill count, and stands as `oom` alone.
pub read_memory_stats_v1 : FileSystem → Str → Read MemoryStats
unfolding read_uint read_uint_optional read_key_value_optional field_of normalise_limit
read_memory_stats_v1 fs path = do
  let dir = join_path (codes "memory") (clean_cgroup_path path)
  current ← read_uint fs (join_path dir (codes "memory.usage_in_bytes"))
  limit ← read_uint fs (join_path dir (codes "memory.limit_in_bytes"))
  peak ← read_uint_optional fs (join_path dir (codes "memory.max_usage_in_bytes"))
  stat ← read_key_value_optional fs (join_path dir (codes "memory.stat"))
  failures ← read_uint_optional fs (join_path dir (codes "memory.failcnt"))
  ok (record no_stats {
    current = current;
    limit = normalise_limit limit;
    peak = peak;
    anon = field_of (codes "rss") stat;
    file = field_of (codes "cache") stat;
    kernel = field_of (codes "kernel_stack") stat;
    swap = field_of (codes "swap") stat;
    events = record no_events { oom = failures };
  })

-- `ReadMemoryStats`
pub read_memory_stats_of : FileSystem → Version → Str → Read MemoryStats
unfolding read_memory_stats_v1 read_memory_stats_v2
read_memory_stats_of fs v1 path = read_memory_stats_v1 fs path
read_memory_stats_of fs _ path = read_memory_stats_v2 fs path

-- `ProcsIn`
pub procs_in_of : FileSystem → Str → Read (List ℤ)
unfolding parsed
procs_in_of fs path =
    fs.read_file (join_path (clean_cgroup_path path) (codes "cgroup.procs")) >>= λ content.
    parsed (parse_pid_list content)

-- The reading of memory.oom.group below a cgroup that is there.
pub oom_group_in : FileSystem → Str → Read Bool
unfolding read_uint_optional
oom_group_in fs dir = read_uint_optional fs (join_path dir (codes "memory.oom.group")) >>= λ value.
    ok (not (value == 0))

-- `ReadOOMGroup`
pub read_oom_group_of : FileSystem → Version → Str → Read Bool
unfolding oom_group_in
read_oom_group_of fs v1 path = ok false
read_oom_group_of fs _ path =
    let dir = clean_cgroup_path path in fs.stat dir >>= λ there. oom_group_in fs dir

-- `ReadPIDs`: one word that is no number fails the read.
all_pids : List Str → Read (List ℤ)
all_pids [] = ok []
all_pids (w ∷ ws) = elim (atoi w) [
  | none ↦ err other_error
  | some pid ↦ all_pids ws >>= λ pids. ok (pid ∷ pids)
]

pub under_version : Version → Str → Str
under_version v1 dir = join_path (codes "memory") dir
under_version _ dir = dir

pub read_pids : FileSystem → Version → Str → Read (List ℤ)
unfolding all_pids under_version
read_pids fs v path =
    fs.read_file (join_path (under_version v (clean_cgroup_path path)) (codes "cgroup.procs"))
    >>= λ content. all_pids (fields content)

module _ {R : Type 0} ⦃fl : FloatOps R⦄ where
  pressure_in : Read Str → Read (Psi R)
  unfolding parsed
  pressure_in (err not_exist) = err psi_unsupported
  pressure_in (err e) = err e
  pressure_in (ok content) = parsed (parse_psi content)

  -- `ReadPSI`
  pub read_psi_of : FileSystem → Version → Str → Read (Psi R)
  unfolding pressure_in
  read_psi_of fs v2 path =
      pressure_in (fs.read_file (join_path (clean_cgroup_path path) (codes "memory.pressure")))
  read_psi_of fs _ path = err psi_unsupported

-- `relativeToHierarchy`
pub relative_to_hierarchy : Version → Str → Str
relative_to_hierarchy v name = if same name (codes ".") then codes "/" else elim v [
  | v1 ↦
      let rest = trim_prefix (trim_prefix name (codes "memory")) (codes "/") in
      if same rest [] then codes "/" else codes "/" ++ rest
  | v2 ↦ codes "/" ++ name
  | version_unknown ↦ codes "/" ++ name
]

-- The file that marks a cgroup with a memory controller.
pub marker_of : Version → Str
marker_of v1 = codes "memory.usage_in_bytes"
marker_of _ = codes "memory.current"

-- The callback on a directory: it is found where it has the marker.
pub found_at : FileSystem → Version → Str → List Str
unfolding exists_file marker_of relative_to_hierarchy
found_at fs v name =
    if exists_file (fs.stat (join_path name (marker_of v)))
    then relative_to_hierarchy v name ∷ []
    else []

-- A directory that could not be listed: the walk goes on where it has vanished, skips it where it is
-- forbidden, and ends at any other error.
pub below : Option ReadError → Read (List Str) → Read (List Str)
below none rest = rest
below (some not_exist) rest = rest
below (some permission) rest = ok []
below (some e) rest = err e

mutual
  unfolding found_at below

  pub walk_tree : FileSystem → Version → Tree → Read (List Str)
  walk_tree fs v (leaf name) = ok []
  walk_tree fs v (folder name unlisted forest) =
      below unlisted (walk_forest fs v forest) >>= λ deeper. ok (found_at fs v name ++ deeper)

  pub walk_forest : FileSystem → Version → Forest → Read (List Str)
  walk_forest fs v nothing = ok []
  walk_forest fs v (also tree forest) =
      walk_tree fs v tree >>= λ here. walk_forest fs v forest >>= λ later. ok (here ++ later)

-- A root that has vanished or is forbidden by the time of the walk gives nothing.
pub from_root : FileSystem → Version → Read Tree → Read (List Str)
from_root fs v (ok tree) = walk_tree fs v tree
from_root fs v (err not_exist) = ok []
from_root fs v (err permission) = ok []
from_root fs v (err e) = err e

-- `Discover`
pub discover_in : FileSystem → Version → Str → Read (List Str)
unfolding walk_tree from_root under_version
discover_in fs v prefix =
    let root = under_version v (clean_cgroup_path prefix) in
    fs.stat root >>= λ there. from_root fs v (fs.tree_at root)

-- The reads that the other parts call, on a file system.
pub reader_of : {R : Type 0} ⦃fl : FloatOps R⦄ → FileSystem → Version → Reader R
reader_of fs v = record {
  version = v;
  discover = discover_in fs v;
  read_memory_stats = read_memory_stats_of fs v;
  read_psi = read_psi_of fs v;
  procs_in = procs_in_of fs;
  read_oom_group = read_oom_group_of fs v;
}

-- `New`: a hierarchy with no memory controller is refused.
pub new_reader : {R : Type 0} ⦃fl : FloatOps R⦄ → FileSystem → Option (Reader R)
unfolding reader_of detect_version
new_reader fs = elim (detect_version fs) [
  | version_unknown ↦ none
  | v1 ↦ some (reader_of fs v1)
  | v2 ↦ some (reader_of fs v2)
]
