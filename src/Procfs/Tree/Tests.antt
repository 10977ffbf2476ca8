-- ===== src/Procfs/Tree/Tests.antt =====
-- A small /proc.
use mathlib.Core.List.{Perm}
use k8s_pod_oom_oracle.Base.{
  none, some, List, [], ◌∷◌, ◌++◌, Map, lookup, codes, pos, Str, str_discrete, ℤ,
}
use k8s_pod_oom_oracle.Procfs.Process.{Process}
use k8s_pod_oom_oracle.Procfs.Tree.{ProcTree, processes_with_pids}
use k8s_pod_oom_oracle.Procfs.Tree.Order.{AreRead, AreHeaviestFirst, processes_with_pids-Perm}

abbrev status_files : Map Str Str
status_files =
    (codes "7/status", codes "Name:\tsh" ++ 10 ∷ codes "VmRSS:\t12 kB" ++ 10 ∷ [])
    ∷ (codes "9/status", codes "Name:\tjava" ++ 10 ∷ codes "VmRSS:\t900 kB" ++ 10 ∷ [])
    ∷ []

abbrev small : ProcTree
small = record {
  read_file = λ name. lookup str_discrete name status_files;
  read_link = none;
  entries = some (codes "7" ∷ codes "9" ∷ codes "meminfo" ∷ []);
}

abbrev ids : List ℤ
ids = pos 7 ∷ pos 8 ∷ pos 9 ∷ []

processes_with_pids-Perm_example :
    (ps : List Process) × AreRead small ids ps
    × Perm (processes_with_pids small ids) ps
    × AreHeaviestFirst (processes_with_pids small ids)
processes_with_pids-Perm_example = processes_with_pids-Perm small ids
