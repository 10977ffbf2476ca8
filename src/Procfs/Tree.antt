-- ===== src/Procfs/Tree.antt =====
-- internal/procfs/procfs.go: `FS`, the reads of processes. An error is `none`.
pub mod Order
mod Tests
use k8s_pod_oom_oracle.Base.{
  ℕ, ℤ, pos, negsuc, ◌==ℤ◌, leb_ℤ, ltb, suc, ◌+◌, ◌==◌, Bool, true, false, Option, none, some, List,
  [], ◌∷◌, ◌++◌, Str, codes, if◌then◌else◌,
}
use k8s_pod_oom_oracle.Strings.Numbers.{atoi, decimal}
use k8s_pod_oom_oracle.Strings.Clean.{join_path}
use k8s_pod_oom_oracle.Procfs.Process.{Process}
use k8s_pod_oom_oracle.Procfs.Status.{Status, parse_status}
use k8s_pod_oom_oracle.Procfs.Files.{parse_cmdline, parse_cgroup, parse_namespace_inode}

-- A /proc tree: its files, the targets of its links where it can read links, and the names in its
-- root.
pub record ProcTree : Type 0 where
  pub read_file : Str → Option Str
  pub read_link : Option (Str → Option Str)
  pub entries : Option (List Str)

-- strconv.Itoa
unfoldable pub itoa : ℤ → Str
itoa (pos n) = decimal n
itoa (negsuc n) = b'-' ∷ decimal (suc n)

or_zero_inode : Option ℕ → ℕ
or_zero_inode none = 0
or_zero_inode (some n) = n

-- `namespaceInode`
pub namespace_inode : ProcTree → Str → ℕ
unfolding or_zero_inode
namespace_inode tree dir = elim tree.read_link [
  | none ↦ 0
  | some read_link ↦ elim (read_link (join_path (join_path dir (codes "ns")) (codes "pid"))) [
    | none ↦ 0
    | some target ↦ or_zero_inode (parse_namespace_inode target)
  ]
]

cmdline_of : Option Str → List Str
cmdline_of none = []
cmdline_of (some content) = parse_cmdline content

path_or_none : Option Str → Str
path_or_none none = []
path_or_none (some path) = path

cgroup_of : Option Str → Str
unfolding path_or_none
cgroup_of none = []
cgroup_of (some content) = path_or_none (parse_cgroup content)

-- The process with a readable status.
process_from : ProcTree → Str → ℤ → Status → Process
unfolding cmdline_of cgroup_of
process_from tree dir pid s = record {
  pid = pid;
  ns_pid = s.ns_pid;
  ppid = s.ppid;
  comm = s.name;
  cmdline = cmdline_of (tree.read_file (join_path dir (codes "cmdline")));
  state = s.state;
  rss_bytes = s.rss_bytes;
  vm_size_bytes = s.vm_size_bytes;
  cgroup_path = cgroup_of (tree.read_file (join_path dir (codes "cgroup")));
  pid_namespace = namespace_inode tree dir;
}

-- `Process`
pub process : ProcTree → ℤ → Option Process
unfolding process_from
process tree pid =
    let dir = itoa pid in
    elim (tree.read_file (join_path dir (codes "status"))) [
      | none ↦ none
      | some content ↦ elim (parse_status content) [
        | none ↦ none
        | some s ↦ some (process_from tree dir pid s)
      ]
    ]

-- The processes that can be read.
pub readable : ProcTree → List ℤ → List Process
readable tree [] = []
readable tree (pid ∷ pids) = elim (process tree pid) [
  | none ↦ readable tree pids
  | some p ↦ p ∷ readable tree pids
]

insert_pid : ℤ → List ℤ → List ℤ
insert_pid x [] = x ∷ []
insert_pid x (y ∷ ys) = let rest = insert_pid x ys in if leb_ℤ x y then x ∷ y ∷ ys else y ∷ rest

-- slices.Sort
sort_pids : List ℤ → List ℤ
unfolding insert_pid
sort_pids [] = []
sort_pids (x ∷ xs) = insert_pid x (sort_pids xs)

numbers_of : List Str → List ℤ
numbers_of [] = []
numbers_of (name ∷ names) = elim (atoi name) [
  | none ↦ numbers_of names
  | some pid ↦ pid ∷ numbers_of names
]

-- `PIDs`
pub pids : ProcTree → Option (List ℤ)
unfolding sort_pids numbers_of
pids tree = elim tree.entries [ none ↦ none | some names ↦ some (sort_pids (numbers_of names)) ]

-- `Processes`
pub processes : ProcTree → Option (List Process)
unfolding pids readable
processes tree = elim (pids tree) [ none ↦ none | some ids ↦ some (readable tree ids) ]

-- The order of `sortByMemory`: heaviest first, then by PID.
pub not_lighter : Process → Process → Bool
not_lighter a b =
    if ltb b.rss_bytes a.rss_bytes
    then true
    else if a.rss_bytes == b.rss_bytes
    then leb_ℤ a.pid b.pid
    else false

pub place : Process → List Process → List Process
unfolding not_lighter
place p [] = p ∷ []
place p (q ∷ qs) = let rest = place p qs in if not_lighter p q then p ∷ q ∷ qs else q ∷ rest

-- `sortByMemory`. Where two processes of a PID list differ, they differ in the PID, so every correct
-- way to sort gives this result.
pub sort_by_memory : List Process → List Process
unfolding place
sort_by_memory [] = []
sort_by_memory (p ∷ ps) = place p (sort_by_memory ps)

-- `ProcessesWithPIDs`
pub processes_with_pids : ProcTree → List ℤ → List Process
unfolding readable sort_by_memory
processes_with_pids tree ids = sort_by_memory (readable tree ids)
