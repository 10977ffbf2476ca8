-- ===== src/K8s/PodCache/Grace.antt =====
-- A deleted pod stays resolvable for the grace period, with what was recorded of it.
use k8s_pod_oom_oracle.Base.{
  ◌≤◌, ◌≡◌, refl, ◌≢◌, inl, inr, ite, Option, none, some, [], ◌∷◌, arith, Map, lookup, insert,
  lookup-insert, Str, str_discrete, if◌then◌else◌, Option-cases,
}
use k8s_pod_oom_oracle.Base.{lookup-delete, Unique, insert-Unique, delete-Unique}
use k8s_pod_oom_oracle.Clock.{Time, time_add, after}
use k8s_pod_oom_oracle.Correlate.Identity.{PodInfo}
use k8s_pod_oom_oracle.K8s.PodCache.{
  Pod, Object, pod_object, tombstone, tombstone_other, other_object, Burial, PodCache, pod_info,
  lookup_live, lookup_pod, upsert, upsert_pod, sweep_graves, remove, remove_pod, known_or,
}

-- No UID has two graves, as in a Go map.
abbrev pub IsValid : PodCache → Type 0
IsValid c = Unique str_discrete c.buried

lookup-sweep_graves :
    (now : Time) (uid : Str) (m : Map Str Burial)
    → Unique str_discrete m
    → lookup str_discrete uid (sweep_graves now m) ≡ elim (lookup str_discrete uid m) [
      | none ↦ none
      | some g ↦ if after now g.expires then none else some g
    ]
unfolding sweep_graves lookup
lookup-sweep_graves now uid [] u = refl
lookup-sweep_graves now uid ((j, g) ∷ m) u = ground (arith, lookup-sweep_graves now uid m u.1)

-- What a lookup at `now` finds of a grave.
abbrev pub at_rest : Time → Option Burial → Option PodInfo
at_rest now none = none
at_rest now (some g) = if after now g.expires then none else some g.pod

lookup_pod_lem :
    (now : Time) (c : PodCache) (uid : Str)
    → lookup_pod now c uid ≡ elim (lookup str_discrete uid c.live) [
      | none ↦ at_rest now (lookup str_discrete uid c.buried)
      | some pod ↦ some pod
    ]
unfolding lookup_pod lookup_live
lookup_pod_lem now c uid = ground arith

-- Sweeping at `now` hides nothing from a later lookup.
at_rest-sweep_graves :
    (now later : Time) (uid : Str) (m : Map Str Burial)
    → Unique str_discrete m
    → now ≤ later
    → at_rest later (lookup str_discrete uid (sweep_graves now m))
      ≡ at_rest later (lookup str_discrete uid m)
at_rest-sweep_graves now later uid m u h = elim (Option-cases (lookup str_discrete uid m)) [
  | inl e ↦ rw (lookup-sweep_graves now uid m u, e)
  | inr (g, e) ↦ rw (lookup-sweep_graves now uid m u, e) (ground arith)
]

-- In a cache where no UID has two graves, from a removal on, the removed pod resolves to what was
-- recorded of it, or else to what the event carried, until the grace period is over, and to nothing
-- after that.
pub lookup_pod-remove :
    (c : PodCache) (p : Pod) (now later : Time)
    → IsValid c
    → now ≤ later
    → lookup_pod later (remove now (pod_object p) c) p.uid ≡ (
        if after later (time_add now c.grace)
        then none
        else some (known_or (lookup str_discrete p.uid c.live) (pod_info p)))
unfolding remove remove_pod
lookup_pod-remove c p now later v h =
    let grave : Burial = record {
      pod = known_or (lookup str_discrete p.uid c.live) (pod_info p);
      expires = time_add now c.grace;
    } in
    rw (lookup_pod_lem later (remove now (pod_object p) c) p.uid) (
      ground (
        arith,
        lookup-delete str_discrete p.uid p.uid c.live,
        at_rest-sweep_graves now later p.uid (insert str_discrete p.uid grave c.buried)
            (insert-Unique str_discrete p.uid grave c.buried v) h,
        lookup-insert str_discrete p.uid p.uid grave c.buried,
      ))

-- A removal changes no later lookup of another pod.
pub lookup_pod-remove_ne :
    (c : PodCache) (p : Pod) (uid : Str) (now later : Time)
    → IsValid c
    → now ≤ later
    → uid ≢ p.uid
    → lookup_pod later (remove now (pod_object p) c) uid ≡ lookup_pod later c uid
unfolding remove remove_pod
lookup_pod-remove_ne c p uid now later v h ne =
    let grave : Burial = record {
      pod = known_or (lookup str_discrete p.uid c.live) (pod_info p);
      expires = time_add now c.grace;
    } in
    rw (lookup_pod_lem later (remove now (pod_object p) c) uid, lookup_pod_lem later c uid)
      (ground (
        arith,
        lookup-delete str_discrete p.uid uid c.live,
        at_rest-sweep_graves now later uid (insert str_discrete p.uid grave c.buried)
            (insert-Unique str_discrete p.uid grave c.buried v) h,
        lookup-insert str_discrete p.uid uid grave c.buried,
      ))

-- A pod that is added or updated resolves to its own data at once, and no other lookup changes.
pub lookup_pod-upsert :
    (c : PodCache) (p : Pod) (uid : Str) (now : Time)
    → lookup_pod now (upsert (pod_object p) c) uid
      ≡ ite (str_discrete uid p.uid) (some (pod_info p)) (lookup_pod now c uid)
unfolding upsert upsert_pod
lookup_pod-upsert c p uid now =
    rw (lookup_pod_lem now (upsert (pod_object p) c) uid, lookup_pod_lem now c uid)
      (ground (
        arith,
        lookup-insert str_discrete p.uid uid (pod_info p) c.live,
        lookup-delete str_discrete p.uid uid c.buried,
      ))

sweep_graves-Unique :
    (now : Time) (m : Map Str Burial)
    → Unique str_discrete m
    → Unique str_discrete (sweep_graves now m)
unfolding sweep_graves
sweep_graves-Unique now [] u = tt
sweep_graves-Unique now ((j, g) ∷ m) u =
    ground (arith, lookup-sweep_graves now j m u.1, sweep_graves-Unique now m u.1)

-- Both handlers keep the graves valid, whatever they are given.
pub handlers-IsValid :
    (c : PodCache) (o : Object) (now : Time)
    → IsValid c
    → IsValid (upsert o c) × IsValid (remove now o c)
unfolding upsert upsert_pod remove remove_pod
handlers-IsValid c (pod_object p) now v = (
  delete-Unique str_discrete p.uid c.buried v,
  sweep_graves-Unique now _ (insert-Unique str_discrete p.uid _ c.buried v),
)
handlers-IsValid c (tombstone p) now v =
    (v, sweep_graves-Unique now _ (insert-Unique str_discrete p.uid _ c.buried v))
handlers-IsValid c tombstone_other now v = (v, v)
handlers-IsValid c other_object now v = (v, v)

-- In a cache where no UID has two graves, a removal leaves no grave that had expired by then.
pub remove_swept :
    (c : PodCache) (p : Pod) (now : Time) (uid : Str) (g : Burial)
    → IsValid c
    → lookup str_discrete uid (remove now (pod_object p) c).buried ≡ some g
    → now ≤ g.expires
unfolding remove remove_pod
remove_swept c p now uid g v h = swept _ (insert-Unique str_discrete p.uid _ c.buried v) h
  where
    swept :
        (m : Map Str Burial)
        → Unique str_discrete m
        → lookup str_discrete uid (sweep_graves now m) ≡ some g
        → now ≤ g.expires
    swept m u k = elim (Option-cases (lookup str_discrete uid m)) [
      | inl e ↦ ground (arith, lookup-sweep_graves now uid m u)
      | inr (g', e) ↦ ground (arith, lookup-sweep_graves now uid m u)
    ]
