-- ===== src/K8s/PodCache/Fate.antt =====
-- The cache against the fate of each pod: a history that forgets nothing and sweeps nothing.
use k8s_pod_oom_oracle.Base.{
  ◌≤◌, ◌≡◌, refl, ite, Option, none, some, List, [], ◌∷◌, arith, lookup, lookup-insert, Str,
  str_discrete, if◌then◌else◌, subst,
}
use k8s_pod_oom_oracle.Base.{lookup-delete}
use k8s_pod_oom_oracle.Clock.{Time, Duration, time_add, after}
use k8s_pod_oom_oracle.Correlate.Identity.{PodInfo}
use k8s_pod_oom_oracle.K8s.PodCache.{
  Pod, Object, pod_object, tombstone, tombstone_other, other_object, PodCache, pod_info,
  lookup_live, lookup_pod, upsert, upsert_pod, remove, remove_pod, known_or,
}
use k8s_pod_oom_oracle.K8s.PodCache.Grace.{
  IsValid, lookup_pod-remove, lookup_pod-remove_ne, lookup_pod-upsert, handlers-IsValid,
}

-- AddFunc and UpdateFunc both upsert.
pub data Event : Type 0 where
  added : Object → Event
  deleted : Object → Event

pub step : Time → Event → PodCache → PodCache
step now (added o) c = upsert o c
step now (deleted o) c = remove now o c

pub run : List (Time × Event) → PodCache → PodCache
unfolding step
run [] c = c
run ((now, e) ∷ es) c = run es (step now e c)

-- What has become of one pod, and until when its name is kept.
pub data Fate : Type 0 where
  never : Fate
  alive : PodInfo → Fate
  gone : PodInfo → Time → Fate

pub recorded : Fate → PodInfo → PodInfo
recorded (alive info) given = info
recorded _ given = given

bury : Time → Duration → Str → Pod → Fate → Fate
unfolding recorded
bury now grace uid p f =
    ite (str_discrete uid p.uid) (gone (recorded f (pod_info p)) (time_add now grace)) f

pub fate_step : Duration → Str → Time → Event → Fate → Fate
unfolding bury
fate_step grace uid now (added (pod_object p)) f =
    ite (str_discrete uid p.uid) (alive (pod_info p)) f
fate_step grace uid now (deleted (pod_object p)) f = bury now grace uid p f
fate_step grace uid now (deleted (tombstone p)) f = bury now grace uid p f
fate_step grace uid now _ f = f

pub fate : Duration → Str → List (Time × Event) → Fate → Fate
fate grace uid [] f = f
fate grace uid ((now, e) ∷ es) f = fate grace uid es (fate_step grace uid now e f)

pub resolve : Time → Fate → Option PodInfo
resolve now never = none
resolve now (alive info) = some info
resolve now (gone info expires) = if after now expires then none else some info

-- The events come in the order of their times, from `start` to `end`.
abbrev pub Ascending : Time → List (Time × Event) → Time → Type 0
Ascending start [] end = start ≤ end
Ascending start ((now, e) ∷ es) end = (start ≤ now) × Ascending now es end

alive_of : Fate → Option PodInfo
alive_of (alive info) = some info
alive_of _ = none

-- The cache knows the fate `f` of a pod, for lookups from `now` on.
record Knows (now : Time) (c : PodCache) (uid : Str) (f : Fate) : Type 0 where
  valid : IsValid c
  live : lookup str_discrete uid c.live ≡ alive_of f
  answers : (t : Time) → now ≤ t → lookup_pod t c uid ≡ resolve t f

known_or-recorded : (f : Fate) (d : PodInfo) → known_or (alive_of f) d ≡ recorded f d
unfolding alive_of recorded known_or
known_or-recorded never d = refl
known_or-recorded (alive i) d = refl
known_or-recorded (gone i t) d = refl

upsert-Knows :
    (start now : Time) (c : PodCache) (uid : Str) (f : Fate) (p : Pod)
    → Knows start c uid f
    → start ≤ now
    → Knows now (upsert (pod_object p) c) uid (ite (str_discrete uid p.uid) (alive (pod_info p)) f)
unfolding alive_of resolve
upsert-Knows start now c uid f p k h = record {
  valid = (handlers-IsValid c (pod_object p) now k.valid).0;
  live =
      unfold upsert upsert_pod in
      ground (arith, k.live, lookup-insert str_discrete p.uid uid (pod_info p) c.live);
  answers = λ t q. ground (arith, lookup_pod-upsert c p uid t, k.answers t (omega arith));
}

remove-Knows :
    (start now : Time) (c : PodCache) (uid : Str) (f : Fate) (p : Pod)
    → Knows start c uid f
    → start ≤ now
    → Knows now (remove now (pod_object p) c) uid (bury now c.grace uid p f)
unfolding alive_of resolve bury
remove-Knows start now c uid f p k h = record {
  valid = (handlers-IsValid c (pod_object p) now k.valid).1;
  live =
      unfold remove remove_pod in
      ground (arith, k.live, lookup-delete str_discrete p.uid uid c.live);
  answers = λ t q. elim (str_discrete uid p.uid) [
    | yes e ↦
        ground
          (arith, lookup_pod-remove c p now t k.valid q, k.live, known_or-recorded f (pod_info p))
    | no ne ↦
        ground (arith, lookup_pod-remove_ne c p uid now t k.valid q ne, k.answers t (omega arith))
  ];
}

later-Knows :
    (start now : Time) (c : PodCache) (uid : Str) (f : Fate)
    → Knows start c uid f
    → start ≤ now
    → Knows now c uid f
later-Knows start now c uid f k h = record {
  valid = k.valid;
  live = k.live;
  answers = λ t q. k.answers t (omega arith);
}

step-Knows :
    (start now : Time) (c : PodCache) (uid : Str) (f : Fate) (e : Event)
    → Knows start c uid f
    → start ≤ now
    → Knows now (step now e c) uid (fate_step c.grace uid now e f)
unfolding step fate_step upsert remove
step-Knows start now c uid f (added (pod_object p)) k h = upsert-Knows start now c uid f p k h
step-Knows start now c uid f (added (tombstone p)) k h = later-Knows start now c uid f k h
step-Knows start now c uid f (added tombstone_other) k h = later-Knows start now c uid f k h
step-Knows start now c uid f (added other_object) k h = later-Knows start now c uid f k h
step-Knows start now c uid f (deleted (pod_object p)) k h = remove-Knows start now c uid f p k h
step-Knows start now c uid f (deleted (tombstone p)) k h = remove-Knows start now c uid f p k h
step-Knows start now c uid f (deleted tombstone_other) k h = later-Knows start now c uid f k h
step-Knows start now c uid f (deleted other_object) k h = later-Knows start now c uid f k h

grace-step : (now : Time) (e : Event) (c : PodCache) → (step now e c).grace ≡ c.grace
unfolding step upsert upsert_pod remove remove_pod
grace-step now (added (pod_object p)) c = refl
grace-step now (deleted (pod_object p)) c = refl
grace-step now (deleted (tombstone p)) c = refl
grace-step now (added (tombstone p)) c = refl
grace-step now (added tombstone_other) c = refl
grace-step now (added other_object) c = refl
grace-step now (deleted tombstone_other) c = refl
grace-step now (deleted other_object) c = refl

run-Knows :
    (es : List (Time × Event)) (start end : Time) (c : PodCache) (uid : Str) (f : Fate)
    → Knows start c uid f
    → Ascending start es end
    → Knows end (run es c) uid (fate c.grace uid es f)
unfolding run fate
run-Knows [] start end c uid f k a = later-Knows start end c uid f k a
run-Knows ((now, e) ∷ es) start end c uid f k a =
    subst
      (λ g. Knows end (run es (step now e c)) uid (fate g uid es (fate_step c.grace uid now e f)))
      (grace-step now e c)
      (run-Knows es now end (step now e c) uid (fate_step c.grace uid now e f)
        (step-Knows start now c uid f e k a.0) a.1)

-- After any events in order of time, a cache that began empty answers every later lookup as the
-- fate of the pod says: its latest data while it lives, the last data recorded of it until the
-- grace period after its deletion is over, and nothing otherwise.
pub lookup_pod-run :
    (es : List (Time × Event)) (start end now : Time) (uid node : Str) (grace : Duration)
    → Ascending start es end
    → end ≤ now
    → lookup_pod now (run es (record { node = node; grace = grace; live = []; buried = [] })) uid
      ≡ resolve now (fate grace uid es never)
lookup_pod-run es start end now uid node grace a h =
    (run-Knows es start end _ uid never empty_Knows a).answers now h
  where
    empty_Knows :
        Knows start (record { node = node; grace = grace; live = []; buried = [] }) uid never
    empty_Knows =
        unfold lookup_pod lookup_live lookup alive_of resolve in
        record { valid = tt; live = refl; answers = λ t q. refl }
