-- ===== src/Cgroup/Hierarchy/Discovery.antt =====
-- `FS.Discover`: the walk visits the folders that it may list, and keeps those with the marker.
use k8s_pod_oom_oracle.Base.{
  ◌≡◌, refl, ◌⊎◌, inl, inr, codes, Bool, true, false, Option, none, some, List, [], ◌∷◌, ◌++◌,
  append_assoc, if◌then◌else◌, Str,
}
use k8s_pod_oom_oracle.Strings.Clean.{join_path}
use k8s_pod_oom_oracle.Cgroup.Stats.{Version, v1, v2, version_unknown}
use k8s_pod_oom_oracle.Cgroup.Reader.{
  Read, ok, err, ReadError, not_exist, permission, psi_unsupported, other_error,
}
use k8s_pod_oom_oracle.Cgroup.Hierarchy.{
  FileSystem, exists_file, marker_of, relative_to_hierarchy, Tree, leaf, folder, Forest, nothing,
  also, found_at, below, walk_tree, walk_forest, from_root, clean_cgroup_path, under_version,
  discover_in,
}

-- Whether a folder's content is visited.
unfoldable pub is_forbidden : Option ReadError → Bool
is_forbidden (some permission) = true
is_forbidden e = false

-- A folder is listed, has vanished or is forbidden.
unfoldable pub IsTolerated : Option ReadError → Type 0
IsTolerated none = Unit
IsTolerated (some not_exist) = Unit
IsTolerated (some permission) = Unit
IsTolerated (some e) = ⊥

unfoldable mutual
  unfolding is_forbidden

  -- The folders of a tree in the order of the walk, without what lies below a forbidden one.
  pub folders : Tree → List Str
  folders (leaf name) = []
  folders (folder name unlisted forest) =
      name ∷ (if is_forbidden unlisted then [] else all_folders forest)

  pub all_folders : Forest → List Str
  all_folders nothing = []
  all_folders (also tree forest) = folders tree ++ all_folders forest

-- The paths of the folders that have the marker, as the walk finds them.
with_marker : FileSystem → Version → List Str → List Str
with_marker fs v [] = []
with_marker fs v (name ∷ names) = found_at fs v name ++ with_marker fs v names

-- The file that shows a memory controller: in the tree of version 1 and in that of the others.
abbrev pub marker_in : Version → Str → Str
marker_in v1 name = join_path name (codes "memory.usage_in_bytes")
marker_in v2 name = join_path name (codes "memory.current")
marker_in version_unknown name = join_path name (codes "memory.current")

-- The paths from the folders whose marker is there, in their order.
abbrev pub AreMarked : FileSystem → Version → List Str → List Str → Type 0
AreMarked fs v [] paths = paths ≡ []
AreMarked fs v (name ∷ names) paths =
    (fs.stat (marker_in v name) ≡ ok tt)
      × ((others : List Str) × (paths ≡ relative_to_hierarchy v name ∷ others)
          × AreMarked fs v names others)
    ⊎ ((e : ReadError) × (fs.stat (marker_in v name) ≡ err e)) × AreMarked fs v names paths

marker_in_lem : (v : Version) (name : Str) → join_path name (marker_of v) ≡ marker_in v name
unfolding marker_of
marker_in_lem v1 name = refl
marker_in_lem v2 name = refl
marker_in_lem version_unknown name = refl

with_marker-AreMarked :
    (fs : FileSystem) (v : Version) (names : List Str)
    → AreMarked fs v names (with_marker fs v names)
unfolding with_marker found_at exists_file
with_marker-AreMarked fs v [] = refl
with_marker-AreMarked fs v (name ∷ names) =
    marked (with_marker-AreMarked fs v names) (fs.stat (marker_in v name)) refl
  where
    marked :
        AreMarked fs v names (with_marker fs v names)
        → (o : Read Unit) → fs.stat (marker_in v name) ≡ o
        → AreMarked fs v (name ∷ names) (with_marker fs v (name ∷ names))
    marked rest (ok u) e =
        inl (e, (with_marker fs v names, rw (marker_in_lem v name, e) refl, rest))
    marked rest (err x) e = inr ((x, e), rw (with_marker, marker_in_lem v name, e) rest)

unfoldable mutual
  unfolding IsTolerated

  -- Every folder of the tree is listed, has vanished or is forbidden.
  pub AllTolerated : Tree → Type 0
  AllTolerated (leaf name) = Unit
  AllTolerated (folder name unlisted forest) = IsTolerated unlisted × ForestTolerated forest

  pub ForestTolerated : Forest → Type 0
  ForestTolerated nothing = Unit
  ForestTolerated (also tree forest) = AllTolerated tree × ForestTolerated forest

with_marker-append :
    (fs : FileSystem) (v : Version) (xs ys : List Str)
    → with_marker fs v (xs ++ ys) ≡ with_marker fs v xs ++ with_marker fs v ys
unfolding with_marker
with_marker-append fs v [] ys = refl
with_marker-append fs v (x ∷ xs) ys =
    rw
      (
        with_marker-append fs v xs ys,
        append_assoc (found_at fs v x) (with_marker fs v xs) (with_marker fs v ys),
      )
      refl

-- What the walk makes of a folder, once its content is walked.
below-is_forbidden :
    (fs : FileSystem) (v : Version) (unlisted : Option ReadError) (names : List Str)
    → IsTolerated unlisted
    → below unlisted (ok (with_marker fs v names))
      ≡ ok (with_marker fs v (if is_forbidden unlisted then [] else names))
unfolding below is_forbidden IsTolerated with_marker
below-is_forbidden fs v none names h = refl
below-is_forbidden fs v (some not_exist) names h = refl
below-is_forbidden fs v (some permission) names h = refl
below-is_forbidden fs v (some psi_unsupported) names h = absurd h
below-is_forbidden fs v (some other_error) names h = absurd h

mutual
  unfolding walk_tree folders with_marker AllTolerated

  walk_tree-folders :
      (fs : FileSystem) (v : Version) (tree : Tree)
      → AllTolerated tree
      → walk_tree fs v tree ≡ ok (with_marker fs v (folders tree))
  walk_tree-folders fs v (leaf name) h = refl
  walk_tree-folders fs v (folder name unlisted forest) (t, h) =
      rw
        (
          walk_forest-all_folders fs v forest h,
          below-is_forbidden fs v unlisted (all_folders forest) t,
        )
        refl

  walk_forest-all_folders :
      (fs : FileSystem) (v : Version) (forest : Forest)
      → ForestTolerated forest
      → walk_forest fs v forest ≡ ok (with_marker fs v (all_folders forest))
  walk_forest-all_folders fs v nothing h = refl
  walk_forest-all_folders fs v (also tree forest) (h, k) =
      rw
        (
          walk_tree-folders fs v tree h,
          walk_forest-all_folders fs v forest k,
          with_marker-append fs v (folders tree) (all_folders forest),
        )
        refl

-- Where the root is there and each folder of its tree is listed, has vanished or is forbidden,
-- Discover returns, in the order of the walk, the path that relativeToHierarchy gives for each of
-- exactly those folders that do not
-- lie below a forbidden one and hold the marker, which is memory.usage_in_bytes in version 1 and
-- memory.current in the others. A marker whose stat fails, for whatever reason, counts as missing.
pub discover_in-folders :
    (fs : FileSystem) (v : Version) (prefix : Str) (u : Unit) (tree : Tree)
    → fs.stat (under_version v (clean_cgroup_path prefix)) ≡ ok u
    → fs.tree_at (under_version v (clean_cgroup_path prefix)) ≡ ok tree
    → AllTolerated tree
    → (paths : List Str) × (discover_in fs v prefix ≡ ok paths)
      × AreMarked fs v (folders tree) paths
unfolding discover_in from_root
discover_in-folders fs v prefix u tree h k t = (
  with_marker fs v (folders tree),
  rw (h, k, walk_tree-folders fs v tree t) refl,
  with_marker-AreMarked fs v (folders tree),
)
