-- ===== src/Daemon/Handle.antt =====
-- What `Handle` does with an event.
use k8s_pod_oom_oracle.Base.{
  ◌+◌, ◌^◌, ◌≤◌, ◌<◌, ◌≡◌, refl, sym, ap, ◌∙◌, Bool, true, false, Option, none, some, arith, Str,
  if◌then◌else◌, Bool-cases,
}
use k8s_pod_oom_oracle.Float.{FloatOps}
use k8s_pod_oom_oracle.Detector.Event.{KillEvent}
use k8s_pod_oom_oracle.Sampler.Collect.{samples_for}
use k8s_pod_oom_oracle.Correlate.Identity.{Identity, no_scope, of_scope}
use k8s_pod_oom_oracle.Correlate.CgroupPath.{in_kubepods_tree}
use k8s_pod_oom_oracle.Correlate.Resolver.{resolve}
use k8s_pod_oom_oracle.Oom.Report.{Report}
use k8s_pod_oom_oracle.Store
use k8s_pod_oom_oracle.Store.{Result, Memory, put, get}
use k8s_pod_oom_oracle.Store.Invariant.{IsValid, put-IsValid}
use k8s_pod_oom_oracle.Store.Queries.{get-put}
use k8s_pod_oom_oracle.Daemon.{
  Daemon, Formats, Handled, add_one, report_id, or_path, assemble, skip, after_put, handle_as,
  handle,
}
use k8s_pod_oom_oracle.Daemon.Build.{id-assemble}

module _ {R : Type 0} ⦃fl : FloatOps R⦄ where
  -- Whom a report of a path is about: the identity that the path resolves to, or, where it resolves to
  -- none and other cgroups are wanted, the one that carries the path alone.
  pub data Concerns (d : Daemon R) (path : Str) (i : Identity) : Type 0 where
    a_container : resolve d.pods path ≡ some i → Concerns d path i
    another_cgroup :
        resolve d.pods path ≡ none
        → d.include_nk ≡ true
        → i ≡ of_scope (record no_scope { cgroup_path = path })
        → Concerns d path i

  -- What has become of an event.
  pub data Outcome (f : Formats) (d : Daemon R) (event : KillEvent) (h : Handled R) : Type 0 where
    dropped :
        resolve d.pods event.cgroup_path ≡ none
        → d.include_nk ≡ false
        → h.reported ≡ none
        → h.daemon ≡ record d {
          skipped = add_one d.skipped;
          unattributed =
              if in_kubepods_tree event.cgroup_path then add_one d.unattributed else d.unattributed;
        }
        → Outcome f d event h
    kept :
        (i : Identity) (r : Report R)
        → Concerns d event.cgroup_path i
        → r
          ≡ assemble d event
              (report_id f event.time (add_one d.sequence))
              (samples_for d.sampler event.cgroup_path)
              i
        → h.reported ≡ some r
        → get h.daemon.store (report_id f event.time (add_one d.sequence)) ≡ Store.ok r
        → h.daemon ≡ record d {
          sequence = add_one d.sequence;
          processed = add_one d.processed;
          store = h.daemon.store;
        }
        → Outcome f d event h

  handle_case :
      (f : Formats) (d : Daemon R) (event : KillEvent)
      → IsValid d.store
      → (o : Option Identity) → resolve d.pods event.cgroup_path ≡ o
      → (x : Option Identity) → or_path d.include_nk event.cgroup_path o ≡ x
      → (h : Handled R) × (handle_as f d event x ≡ Store.ok h)
        × IsValid h.daemon.store
        × Outcome f d event h
  unfolding handle_as or_path skip after_put
  handle_case f d event v o e none x = (
    record { daemon = skip event.cgroup_path d; reported = none },
    refl,
    v,
    gone o d.include_nk refl e x,
  )
    where
      gone :
          (o : Option Identity) (b : Bool)
          → d.include_nk ≡ b
          → resolve d.pods event.cgroup_path ≡ o
          → or_path d.include_nk event.cgroup_path o ≡ none
          → Outcome f d event (record { daemon = skip event.cgroup_path d; reported = none })
      gone none false b e x = dropped e b refl refl
      gone none true b e x = absurd (ground (arith, b, x))
      gone (some i) c b e x = absurd (ground (arith, x))
  handle_case f d event v o e (some i) x =
      let n = add_one d.sequence in
      let id = report_id f event.time n in
      let r = assemble d event id (samples_for d.sampler event.cgroup_path) i in
      let (m, done, valid) = put-IsValid d.store r v in
      let named = id-assemble d event id (samples_for d.sampler event.cgroup_path) i in
      (
        record {
          daemon = record d { sequence = n; store = m; processed = add_one d.processed };
          reported = some r;
        },
        rw done refl,
        valid,
        kept i r (concern o d.include_nk refl e x) refl refl
            (ap (get m) (sym named) ∙ get-put d.store m r v done) refl,
      )
    where
      concern :
          (o : Option Identity) (b : Bool)
          → d.include_nk ≡ b
          → resolve d.pods event.cgroup_path ≡ o
          → or_path d.include_nk event.cgroup_path o ≡ some i
          → Concerns d event.cgroup_path i
      concern none false b e x = absurd (ground (arith, b, x))
      concern none true b e x = another_cgroup e b (ground (arith, b, x))
      concern (some j) c b e x = a_container (e ∙ x)

  pub handle-Outcome :
      (f : Formats) (d : Daemon R) (event : KillEvent)
      → IsValid d.store
      → (h : Handled R) × (handle f d event ≡ Store.ok h)
        × IsValid h.daemon.store
        × Outcome f d event h
  unfolding handle
  handle-Outcome f d event v =
      handle_case f d event v (resolve d.pods event.cgroup_path) refl _ refl

module _ {R : Type 0} where
  -- A skipped event adds one to the skipped counter, and to the unattributed one exactly when its
  -- path is inside the kubepods tree, so that this stays a part of the skipped ones, as long as the
  -- skipped counter is not about to wrap.
  pub skip-unattributed :
      (path : Str) (d : Daemon R)
      → d.unattributed ≤ d.skipped
      → d.skipped + 1 < 2 ^ 64
      → ((skip path d).unattributed ≤ (skip path d).skipped)
        × ((skip path d).skipped ≡ d.skipped + 1)
        × ((skip path d).unattributed ≡ d.unattributed + (if in_kubepods_tree path then 1 else 0))
  unfolding skip add_one
  skip-unattributed path d h w = ground (arith, Bool-cases (in_kubepods_tree path))
