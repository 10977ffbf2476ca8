-- ===== src/K8s/PodCache/Tests.antt =====
-- One pod that comes, goes, and is looked up within the grace period and after it.
use k8s_pod_oom_oracle.K8s.PodCache.{new_pod_cache, created, refused, no_node, default_grace, len}
use k8s_pod_oom_oracle.Base.{true}
use k8s_pod_oom_oracle.Base.{
  pos, ◌≡◌, refl, arith, some, [], ◌∷◌, codes, lookup, insert, delete, str_discrete, same,
  ne_of_not_same,
}
use k8s_pod_oom_oracle.Clock.{time_add}
use k8s_pod_oom_oracle.K8s.PodCache.{
  Pod, pod_object, Burial, PodCache, pod_info, lookup_pod, upsert, remove, remove_pod, sweep_graves,
  known_or,
}
use k8s_pod_oom_oracle.K8s.PodCache.Grace.{IsValid, lookup_pod-remove_ne, handlers-IsValid}
use k8s_pod_oom_oracle.K8s.PodCache.Fate.{added, deleted, run, fate, never, resolve, lookup_pod-run}

abbrev web : Pod
web = record {
  uid = codes "u1";
  namespace = codes "shop";
  name = codes "web";
  node_name = codes "n1";
  statuses = [];
  init_statuses = [];
  ephemeral_statuses = [];
}

abbrev empty : PodCache
empty = record { node = codes "n1"; grace = pos 300; live = []; buried = [] }

lookup_pod-remove_ne_example :
    lookup_pod 250 (remove 10 (pod_object web) empty) (codes "u2")
    ≡ lookup_pod 250 empty (codes "u2")
unfolding same
lookup_pod-remove_ne_example =
    lookup_pod-remove_ne empty web (codes "u2") 10 250 tt (omega arith)
      (ne_of_not_same (codes "u2") (codes "u1") refl)

handlers-IsValid_example :
    IsValid (upsert (pod_object web) empty) × IsValid (remove 10 (pod_object web) empty)
handlers-IsValid_example = handlers-IsValid empty (pod_object web) 10 tt

abbrev grave : Burial
grave = record { pod = pod_info web; expires = 310 }

buried : lookup str_discrete (codes "u1") (remove 10 (pod_object web) empty).buried ≡ some grave
unfolding remove remove_pod sweep_graves insert delete lookup known_or time_add str_discrete same
buried = refl

lookup_pod-run_example :
    lookup_pod 400
      (run
        ((1, added (pod_object web)) ∷ (10, deleted (pod_object web)) ∷ [])
        (record { node = codes "n1"; grace = pos 300; live = []; buried = [] }))
      (codes "u1")
    ≡ resolve 400 (
        fate
          (pos 300)
          (codes "u1")
          ((1, added (pod_object web)) ∷ (10, deleted (pod_object web)) ∷ [])
          never)
lookup_pod-run_example =
    lookup_pod-run ((1, added (pod_object web)) ∷ (10, deleted (pod_object web)) ∷ []) 0 20 400
      (codes "u1") (codes "n1") (pos 300) (omega arith, (omega arith, omega arith)) (omega arith)

new_caches :
    (new_pod_cache true [] (pos 0) ≡ refused no_node)
    × (new_pod_cache true (codes "n1") (pos 0) ≡ created (record empty { grace = default_grace }))
unfolding new_pod_cache same
new_caches = (refl, refl)

len-empty : len empty ≡ 0
unfolding len
len-empty = refl
