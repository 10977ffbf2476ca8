-- ===== src/Procfs/Files.antt =====
-- internal/procfs/parse.go: `ParseCmdline`, `ParseCgroup` and `ParseNamespaceInode`. An error is `none`.
pub mod Arguments
mod Tests
use k8s_pod_oom_oracle.Base.{
  ℕ, suc, ◌==◌, ltb, Bool, true, false, Option, none, some, List, [], ◌∷◌, Str, codes, same, cut,
  any, take, drop, split, if◌then◌else◌,
}
use k8s_pod_oom_oracle.Strings.Space.{trim_right_by, index_byte}
use k8s_pod_oom_oracle.Strings.Numbers.{parse_decimal}
use k8s_pod_oom_oracle.Strings.Lines.{scan_lines}
use k8s_pod_oom_oracle.Strings.Clean.{clean}

-- `ParseCmdline`
pub parse_cmdline : Str → List Str
parse_cmdline content =
    let trimmed = trim_right_by (λ c. c == 0) content in
    if same trimmed [] then [] else split 0 trimmed

-- strings.SplitN(line, ":", 3), where it has three parts: the controllers and the path.
unfoldable pub hierarchy_of : Str → Option (Str × Str)
hierarchy_of line = elim (cut line (codes ":")) [
  | none ↦ none
  | some (number, rest) ↦ cut rest (codes ":")
]

-- The paths found so far: the unified one, and the memory controller's.
pub record CgroupLines : Type 0 where
  pub unified : Str
  pub memory : Str

cgroup_line : Option (Str × Str) → CgroupLines → CgroupLines
cgroup_line none found = found
cgroup_line (some (controllers, path)) found =
    if same controllers []
    then record found { unified = path }
    else if any (λ controller. same controller (codes "memory")) (split b',' controllers)
    then record found { memory = path }
    else found

-- The loop of `ParseCgroup`.
pub cgroup_lines : List Str → CgroupLines → CgroupLines
unfolding cgroup_line
cgroup_lines [] found = found
cgroup_lines (line ∷ lines) found = cgroup_lines lines (cgroup_line (hierarchy_of line) found)

-- `normaliseCgroupPath`
pub normalise_cgroup_path : Str → Str
normalise_cgroup_path p = clean p

pub path_in : CgroupLines → Option Str
unfolding normalise_cgroup_path
path_in found =
    if same found.unified []
    then (if same found.memory [] then none else some (normalise_cgroup_path found.memory))
    else some (normalise_cgroup_path found.unified)

-- `ParseCgroup`
pub parse_cgroup : Str → Option Str
unfolding cgroup_lines path_in
parse_cgroup content = elim (scan_lines content) [
  | none ↦ none
  | some lines ↦ path_in (cgroup_lines lines (record { unified = []; memory = [] }))
]

between : Str → Option ℕ → Option ℕ → Option ℕ
between target none close = none
between target (some start) none = none
between target (some start) (some close) =
    if ltb close start then none else parse_decimal (drop (suc start) (take close target))

-- `ParseNamespaceInode`
pub parse_namespace_inode : Str → Option ℕ
unfolding between
parse_namespace_inode target = between target (index_byte b'[' target) (index_byte b']' target)
