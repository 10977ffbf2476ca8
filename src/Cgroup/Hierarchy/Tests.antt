-- ===== src/Cgroup/Hierarchy/Tests.antt =====
-- A small v2 hierarchy.
use k8s_pod_oom_oracle.Base.{
  ℕ, ◌≡◌, refl, true, not, ◌==◌, Option, none, some, List, [], ◌∷◌, ◌++◌, Map, lookup, Str, codes,
  same, str_discrete, if◌then◌else◌, cut, insert,
}
use k8s_pod_oom_oracle.Strings.Space.{
  is_space, trim_left_by, trim_right_by, trim_space, split_by, join,
}
use k8s_pod_oom_oracle.Strings.Numbers.{digits_from, parse_decimal}
use k8s_pod_oom_oracle.Strings.Lines.{drop_return, drop_empty_last, without_returns, scan_lines}
use k8s_pod_oom_oracle.Strings.Clean.{
  is_step, climb, take_step, walk, is_rooted, or_dot, cleaned, clean, join_path,
}
use k8s_pod_oom_oracle.Cgroup.Stats.{v2, MemoryStats, no_stats, normalise_limit}
use k8s_pod_oom_oracle.Cgroup.Reader.{Read, ok, err, ◌>>=◌, not_exist, permission}
use k8s_pod_oom_oracle.Cgroup.Parse.{
  parse_uint, normalised, parse_limit, parse_key_value, pairs_of, add_pair, set_field, on_lines,
}
use k8s_pod_oom_oracle.Cgroup.Hierarchy.{
  FileSystem, Tree, leaf, folder, nothing, also, clean_cgroup_path, field_of, parsed, read_uint,
  or_zero, read_uint_optional, read_limit, pairs_or_none, read_key_value_optional, events_from,
  with_local_events, is_empty, read_memory_stats_v2, oom_group_in, read_oom_group_of, exists_file,
  under_version, discover_in, found_at, marker_of, walk_tree, below, from_root,
  relative_to_hierarchy,
}
use k8s_pod_oom_oracle.Cgroup.Hierarchy.Errors.{
  CountersOf, LocalOf, HoldsOrZero, read_memory_stats_v2-CountersOf, read_oom_group_of-answer,
}
use k8s_pod_oom_oracle.Cgroup.Hierarchy.Discovery.{
  AreMarked, folders, AllTolerated, ForestTolerated, IsTolerated, discover_in-folders,
}

abbrev files : Map Str Str
files =
    (codes "web/memory.current", codes "512" ++ 10 ∷ [])
    ∷ (codes "web/memory.max", codes "max" ++ 10 ∷ [])
    ∷ (codes "web/memory.stat", codes "anon 300" ++ 10 ∷ codes "file 200" ++ 10 ∷ [])
    ∷ (codes "web/memory.oom.group", codes "1" ++ 10 ∷ [])
    ∷ []

content_of : Option Str → Read Str
content_of none = err not_exist
content_of (some content) = ok content

read_from : Str → Read Str
unfolding content_of
read_from name = content_of (lookup str_discrete name files)

stat_from : Str → Read Unit
unfolding read_from
stat_from name = if same name (codes "web") then ok tt else read_from name >>= λ content. ok tt

-- The root, and below it one cgroup and one that may not be listed.
abbrev root : Tree
root = folder (codes "web") none (
    also (leaf (codes "web/memory.current"))
      (also (folder (codes "web/closed") (some permission) nothing) nothing))

abbrev hierarchy : FileSystem
hierarchy = record { read_file = read_from; stat = stat_from; tree_at = λ name. ok root }

abbrev web_stats : MemoryStats
web_stats = record no_stats { current = 512; limit = 0xFFFFFFFFFFFFFFFF; anon = 300; file = 200 }

stats_read : read_memory_stats_v2 hierarchy (codes "/web") ≡ ok web_stats
unfolding read_memory_stats_v2 read_uint read_limit read_uint_optional read_key_value_optional
    parsed or_zero pairs_or_none field_of events_from with_local_events is_empty read_from
    content_of same parse_uint parse_limit parse_key_value pairs_of add_pair set_field on_lines
    normalised normalise_limit scan_lines drop_return drop_empty_last without_returns cut insert
    trim_space trim_left_by trim_right_by is_space split_by join digits_from parse_decimal
    clean_cgroup_path is_step climb take_step walk is_rooted or_dot cleaned clean join_path lookup
    str_discrete
stats_read = refl

read_memory_stats_v2-CountersOf_example :
    CountersOf hierarchy (clean_cgroup_path (codes "/web")) web_stats
    × LocalOf hierarchy (clean_cgroup_path (codes "/web")) web_stats
read_memory_stats_v2-CountersOf_example =
    read_memory_stats_v2-CountersOf hierarchy (codes "/web") web_stats stats_read

group_read : read_oom_group_of hierarchy v2 (codes "/web") ≡ ok true
unfolding read_oom_group_of oom_group_in read_uint read_uint_optional parsed or_zero stat_from
    read_from content_of same parse_uint trim_space trim_left_by trim_right_by is_space split_by
    join digits_from parse_decimal clean_cgroup_path is_step climb take_step walk is_rooted or_dot
    cleaned clean join_path lookup str_discrete
group_read = refl

read_oom_group_of-answer_example :
    (hierarchy.stat (clean_cgroup_path (codes "/web")) ≡ ok tt)
    × ((n : ℕ) × HoldsOrZero hierarchy
          (join_path (clean_cgroup_path (codes "/web")) (codes "memory.oom.group"))
          n
        × (true ≡ not (n == 0)))
read_oom_group_of-answer_example = read_oom_group_of-answer hierarchy (codes "/web") true group_read

web_there : hierarchy.stat (under_version v2 (clean_cgroup_path (codes "/web"))) ≡ ok tt
unfolding under_version stat_from same clean_cgroup_path is_step climb take_step walk is_rooted
    or_dot cleaned clean join_path split_by join
web_there = refl

discover_in-folders_example :
    (paths : List Str) × (discover_in hierarchy v2 (codes "/web") ≡ ok paths)
    × AreMarked hierarchy v2 (folders root) paths
unfolding AllTolerated ForestTolerated IsTolerated
discover_in-folders_example =
    discover_in-folders hierarchy v2 (codes "/web") tt root web_there refl
      (tt, (tt, ((tt, tt), tt)))

-- Only the cgroup with the marker is found.
found : discover_in hierarchy v2 (codes "/web") ≡ ok (codes "/web" ∷ [])
unfolding discover_in walk_tree below from_root under_version clean_cgroup_path found_at exists_file
    marker_of relative_to_hierarchy stat_from read_from content_of same is_step climb take_step walk
    is_rooted or_dot cleaned clean join_path split_by join lookup str_discrete
found = refl
