-- ===== src/Cmd/Version/Tests.antt =====
-- A build from a checkout, without values of the linker.
use k8s_pod_oom_oracle.Base.{◌≡◌, refl, List, [], ◌∷◌, Str, codes, same}
use k8s_pod_oom_oracle.Cmd.Version.{
  Info, stamp_with, stamps_from, read_vcs_stamps, short_commit, version_from, commit_from,
  date_from, apply_build_info, or_else, with_defaults, get_info,
}

abbrev linked : Info
linked = record {
  version = [];
  commit = [];
  date = [];
  go_version = codes "go1.25";
  platform = codes "linux/amd64";
}

abbrev settings : List (Str × Str)
settings = (codes "vcs.modified", codes "true") ∷ (codes "vcs.revision", codes "0123456789") ∷ []

dirty : get_info linked (codes "(devel)") settings ≡ record linked {
  version = codes "dev";
  commit = codes "0123456-dirty";
  date = codes "unknown";
}
unfolding get_info with_defaults or_else apply_build_info version_from commit_from date_from
    short_commit read_vcs_stamps stamps_from stamp_with same
dirty = refl
