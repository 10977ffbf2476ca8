-- ===== src/Detector/Ebpf/Index.antt =====
-- internal/detector/ebpf.go: `cgroupIndex`, and `cgroupInodeLister` of ebpf_supported.go, which fills it.
pub mod Transparent
use k8s_pod_oom_oracle.Base.{
  ℕ, zero, suc, ◌==◌, Bool, true, false, Option, none, some, List, [], ◌∷◌, ◌++◌, Map, lookup,
  insert, Str, codes, same, if◌then◌else◌, ◌≡◌, refl, ◌⊎◌, inl, inr, ℕ_discrete, ◌≢◌,
}
use k8s_pod_oom_oracle.Cgroup.Reader.{Read, ok, err}

-- An entry of filepath.WalkDir: it may have failed, it may be a directory, its inode may be unknown,
-- and its path may have no form relative to the root.
pub record WalkEntry : Type 0 where
  pub failed : Bool
  pub is_dir : Bool
  pub inode : Option ℕ
  pub relative : Option Str

hierarchy_path : Str → Str
hierarchy_path relative = if same relative (codes ".") then codes "/" else codes "/" ++ relative

index_entry : Option ℕ → Option Str → Map ℕ Str → Map ℕ Str
unfolding hierarchy_path
index_entry (some inode) (some relative) index =
    insert ℕ_discrete inode (hierarchy_path relative) index
index_entry _ _ index = index

-- The callback of the walk.
visit : WalkEntry → Map ℕ Str → Map ℕ Str
unfolding index_entry
visit e index =
    if e.failed then index else if e.is_dir then index_entry e.inode e.relative index else index

visit_all : List WalkEntry → Map ℕ Str → Map ℕ Str
unfolding visit
visit_all [] index = index
visit_all (e ∷ entries) index = visit_all entries (visit e index)

-- `cgroupInodeLister`, where the root may not be there; the callback fails at nothing.
pub list_inodes : Read (List WalkEntry) → Option (Map ℕ Str)
unfolding visit_all
list_inodes (err e) = none
list_inodes (ok entries) = some (visit_all entries [])

-- `cgroupIndex`: the paths of the last listing.
abbrev pub CgroupIndex : Type 0
CgroupIndex = Map ℕ Str

after_miss : Option CgroupIndex → ℕ → CgroupIndex → Option Str × CgroupIndex
after_miss none id index = (none, index)
after_miss (some fresh) id index = (lookup ℕ_discrete id fresh, fresh)

on_miss : Option Str → Option CgroupIndex → ℕ → CgroupIndex → Option Str × CgroupIndex
unfolding after_miss
on_miss (some path) listing id index = (some path, index)
on_miss none listing id index = after_miss listing id index

-- `Path`, with what a listing gives at that moment.
unfoldable pub path_of_id : Option CgroupIndex → ℕ → CgroupIndex → Option Str × CgroupIndex
unfolding on_miss
path_of_id listing zero index = (none, index)
path_of_id listing (suc n) index = on_miss (lookup ℕ_discrete (suc n) index) listing (suc n) index
