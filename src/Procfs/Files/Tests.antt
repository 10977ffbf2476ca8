-- ===== src/Procfs/Files/Tests.antt =====
-- Files of a process in a container.
use k8s_pod_oom_oracle.Base.{
  ◌≡◌, refl, some, [], ◌∷◌, ◌++◌, codes, List, Str, split, onto_first, cut, same,
}
use k8s_pod_oom_oracle.Strings.Numbers.{digits_from, parse_decimal}
use k8s_pod_oom_oracle.Strings.Space.{index_byte, split_by, join}
use k8s_pod_oom_oracle.Strings.Lines.{drop_return, drop_empty_last, without_returns, scan_lines}
use k8s_pod_oom_oracle.Strings.Clean.{
  is_step, climb, take_step, walk, is_rooted, or_dot, cleaned, clean,
}
use k8s_pod_oom_oracle.Procfs.Files.{
  parse_cmdline, hierarchy_of, cgroup_line, cgroup_lines, path_in, normalise_cgroup_path,
  parse_cgroup, between, parse_namespace_inode,
}
use k8s_pod_oom_oracle.Procfs.Files.Arguments.{kernel_cmdline, parse_cmdline-kernel_cmdline}

abbrev arguments : List Str
arguments = codes "sh" ∷ [] ∷ []

parse_cmdline-kernel_cmdline_example :
    parse_cmdline (kernel_cmdline (arguments ++ codes "-c" ∷ [])) ≡ arguments ++ codes "-c" ∷ []
parse_cmdline-kernel_cmdline_example =
    parse_cmdline-kernel_cmdline arguments (codes "-c") (refl, (refl, tt)) refl (λ e. cc)

-- The unified line wins, and is cleaned.
unified_wins :
    parse_cgroup
      (codes "5:cpu,memory:/legacy" ++ 10 ∷ codes "0::/../../system.slice/a:b" ++ 10 ∷ [])
    ≡ some (codes "/system.slice/a:b")
unfolding parse_cgroup scan_lines drop_return drop_empty_last without_returns split onto_first
    cgroup_lines hierarchy_of cgroup_line cut same path_in normalise_cgroup_path is_step climb
    take_step walk is_rooted or_dot cleaned clean split_by join
unified_wins = refl

inode : parse_namespace_inode (codes "pid:[4026531836]") ≡ some 4026531836
unfolding parse_namespace_inode between index_byte digits_from parse_decimal
inode = refl
