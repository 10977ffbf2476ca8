-- ===== src/Cmd/Version.antt =====
-- internal/version/version.go: what a binary says of its build.
mod Tests
use k8s_pod_oom_oracle.Base.{
  ℕ, ◌≡◌, ◌≢◌, refl, inl, inr, Bool, true, false, not, ◌&&◌, List, [], ◌∷◌, ◌++◌, Str, codes, same,
  length, leb, take, if◌then◌else◌, Bool-cases, arith,
}

pub record Info : Type 0 where
  pub version : Str
  pub commit : Str
  pub date : Str
  pub go_version : Str
  pub platform : Str

pub record VcsStamps : Type 0 where
  pub revision : Str
  pub time : Str
  pub modified : Bool

-- `readVCSStamps`, one setting and the loop.
stamp_with : Str → Str → VcsStamps → VcsStamps
stamp_with key value s =
    if same key (codes "vcs.revision")
    then record s { revision = value }
    else if same key (codes "vcs.time")
    then record s { time = value }
    else if same key (codes "vcs.modified")
    then record s { modified = same value (codes "true") }
    else s

stamps_from : List (Str × Str) → VcsStamps → VcsStamps
unfolding stamp_with
stamps_from [] s = s
stamps_from ((key, value) ∷ settings) s = stamps_from settings (stamp_with key value s)

pub read_vcs_stamps : List (Str × Str) → VcsStamps
unfolding stamps_from
read_vcs_stamps settings =
    stamps_from settings (record { revision = []; time = []; modified = false })

-- `shortCommit`
pub short_commit : Str → Str
short_commit sha = if leb (length sha) 7 then sha else take 7 sha

version_from : Str → Str → Str
version_from main linked =
    if same linked [] && (not (same main []) && not (same main (codes "(devel)")))
    then main
    else linked

commit_from : VcsStamps → Str → Str
commit_from s linked =
    if same linked [] && not (same s.revision [])
    then (if s.modified then short_commit s.revision ++ codes "-dirty" else short_commit s.revision)
    else linked

date_from : VcsStamps → Str → Str
date_from s linked = if same linked [] && not (same s.time []) then s.time else linked

-- `applyBuildInfo`
pub apply_build_info : Info → Str → VcsStamps → Info
unfolding version_from commit_from date_from
apply_build_info i main s = record i {
  version = version_from main i.version;
  commit = commit_from s i.commit;
  date = date_from s i.date;
}

or_else : Str → Str → Str
or_else placeholder text = if same text [] then placeholder else text

-- `withDefaults`
pub with_defaults : Info → Info
unfolding or_else
with_defaults i = record i {
  version = or_else (codes "dev") i.version;
  commit = or_else (codes "unknown") i.commit;
  date = or_else (codes "unknown") i.date;
}

-- `Get`, from the values of the linker and of the toolchain.
pub get_info : Info → Str → List (Str × Str) → Info
get_info linked main settings =
    with_defaults (apply_build_info linked main (read_vcs_stamps settings))

-- `String`
pub info_text : Info → Str
info_text i =
    codes "version:  "
    ++ (i.version
        ++ (codes "\ncommit:   "
            ++ (i.commit
                ++ (codes "\nbuilt:    "
                    ++ (i.date
                        ++ (codes "\ngo:       "
                            ++ (i.go_version
                                ++ (codes "\nplatform: " ++ (i.platform ++ codes "\n")))))))))

or_else-filled : (d t : Str) → same d [] ≡ false → same (or_else d t) [] ≡ false
unfolding or_else
or_else-filled d t h = elim (Bool-cases (same t [])) [ inl e ↦ rw e h | inr e ↦ rw e e ]

-- No field of the three is shown empty, whatever the linker and the toolchain say.
pub get_info-filled :
    (linked : Info) (main : Str) (settings : List (Str × Str))
    → (same (get_info linked main settings).version [] ≡ false)
      × (same (get_info linked main settings).commit [] ≡ false)
      × (same (get_info linked main settings).date [] ≡ false)
unfolding get_info with_defaults same
get_info-filled linked main settings = (
  or_else-filled (codes "dev") _ refl,
  or_else-filled (codes "unknown") _ refl,
  or_else-filled (codes "unknown") _ refl,
)
