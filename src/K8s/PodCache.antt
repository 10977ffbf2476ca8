-- ===== src/K8s/PodCache.antt =====
-- internal/k8s/podcache.go: `PodCache`. The informer of client-go is outside the program; what it
-- delivers are the events that `upsert` and `remove` take. Each handler holds the lock throughout.
pub mod Grace
pub mod Fate
mod Tests
use k8s_pod_oom_oracle.Base.{
  ℕ, Bool, true, false, not, Option, none, some, List, [], ◌∷◌, ◌++◌, Map, keys, lookup, insert,
  delete, Str, same, codes, str_discrete, ℤ, pos, ◌==ℤ◌, if◌then◌else◌, length, cut, cut_prefix,
}
use k8s_pod_oom_oracle.Clock.{Time, Duration, time_add, after}
use k8s_pod_oom_oracle.Correlate.Identity.{ContainerInfo, PodInfo}
use k8s_pod_oom_oracle.Correlate.Lookup.{strip_runtime_prefix}

-- The fields of corev1.ContainerStatus and corev1.Pod that the program reads. `last_id` is the
-- container ID of the last termination, where there is one.
pub record ContainerStatus : Type 0 where
  pub name : Str
  pub image : Str
  pub container_id : Str
  pub last_id : Option Str

pub record Pod : Type 0 where
  pub uid : Str
  pub namespace : Str
  pub name : Str
  pub node_name : Str
  pub statuses : List ContainerStatus
  pub init_statuses : List ContainerStatus
  pub ephemeral_statuses : List ContainerStatus

-- What a handler of the informer is given: a pod, a tombstone that wraps one, or something else.
pub data Object : Type 0 where
  pod_object : Pod → Object
  tombstone : Pod → Object
  tombstone_other : Object
  other_object : Object

-- `burial`
pub record Burial : Type 0 where
  pub pod : PodInfo
  pub expires : Time

pub record PodCache : Type 0 where
  pub node : Str
  pub grace : Duration
  pub live : Map Str PodInfo
  pub buried : Map Str Burial

abbrev pub default_grace : Duration
default_grace = pos 300000000000

pub data NewError : Type 0 where
  no_client no_node : NewError

pub data NewResult : Type 0 where
  created : PodCache → NewResult
  refused : NewError → NewResult

-- `New`: what it checks and the state that it starts from.
pub new_pod_cache : Bool → Str → Duration → NewResult
unfolding same
new_pod_cache has_client node grace =
    if not has_client
    then refused no_client
    else if same node []
    then refused no_node
    else created (record {
      node = node;
      grace = if grace ==ℤ pos 0 then default_grace else grace;
      live = [];
      buried = [];
    })

-- The closure `add` of `podInfo`.
add_container : Str → Str → Str → Map Str ContainerInfo → Map Str ContainerInfo
unfolding strip_runtime_prefix
add_container name image id m =
    if same id []
    then m
    else insert str_discrete (strip_runtime_prefix id) (record { name = name; image = image }) m

add_last : ContainerStatus → Option Str → Map Str ContainerInfo → Map Str ContainerInfo
unfolding add_container
add_last s none m = m
add_last s (some id) m = add_container s.name s.image id m

-- The loop of `podInfo` over the statuses of all kinds.
index_statuses : List ContainerStatus → Map Str ContainerInfo → Map Str ContainerInfo
unfolding add_container add_last
index_statuses [] m = m
index_statuses (s ∷ rest) m =
    index_statuses rest (add_last s s.last_id (add_container s.name s.image s.container_id m))

pub pod_info : Pod → PodInfo
unfolding index_statuses
pod_info p = record {
  namespace = p.namespace;
  name = p.name;
  node = p.node_name;
  containers = index_statuses (p.statuses ++ (p.init_statuses ++ p.ephemeral_statuses)) [];
}

lookup_buried : Time → Option Burial → Option PodInfo
lookup_buried now none = none
lookup_buried now (some grave) = if not (after now grave.expires) then some grave.pod else none

lookup_live : Time → Option Burial → Option PodInfo → Option PodInfo
unfolding lookup_buried
lookup_live now grave (some pod) = some pod
lookup_live now grave none = lookup_buried now grave

-- `LookupPod` at time `now`.
pub lookup_pod : Time → PodCache → Str → Option PodInfo
unfolding lookup_live
lookup_pod now c uid =
    lookup_live now (lookup str_discrete uid c.buried) (lookup str_discrete uid c.live)

pub len : PodCache → ℕ
len c = length c.live

pub upsert_pod : Pod → PodCache → PodCache
unfolding pod_info
upsert_pod p c = record c {
  live = insert str_discrete p.uid (pod_info p) c.live;
  buried = delete str_discrete p.uid c.buried;
}

-- `upsert`
pub upsert : Object → PodCache → PodCache
unfolding upsert_pod
upsert (pod_object p) c = upsert_pod p c
upsert _ c = c

-- `sweep`: the expired tombstones go.
pub sweep_graves : Time → Map Str Burial → Map Str Burial
sweep_graves now [] = []
sweep_graves now ((uid, grave) ∷ m) =
    if after now grave.expires then sweep_graves now m else (uid, grave) ∷ sweep_graves now m

-- What is recorded of a pod wins over what its delete event carries.
pub known_or : Option PodInfo → PodInfo → PodInfo
known_or none info = info
known_or (some known) info = known

pub remove_pod : Time → Pod → PodCache → PodCache
unfolding pod_info known_or sweep_graves
remove_pod now p c = record c {
  live = delete str_discrete p.uid c.live;
  buried = sweep_graves now (
      insert str_discrete p.uid
        (record {
          pod = known_or (lookup str_discrete p.uid c.live) (pod_info p);
          expires = time_add now c.grace;
        })
        c.buried);
}

-- `remove`
pub remove : Time → Object → PodCache → PodCache
unfolding remove_pod
remove now (pod_object p) c = remove_pod now p c
remove now (tombstone p) c = remove_pod now p c
remove now _ c = c
