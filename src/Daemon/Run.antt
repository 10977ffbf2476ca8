-- ===== src/Daemon/Run.antt =====
-- internal/daemon/daemon.go: `Run`, with what its goroutines and the pod cache do beside it, as steps of
-- the daemon's state in any order.
use k8s_pod_oom_oracle.Base.{
  ℕ, ◌+◌, ◌%◌, ◌^◌, ◌<◌, ◌≡◌, ap, sym, ◌∙◌, subst, true, false, Option, arith,
}
use k8s_pod_oom_oracle.Float.{FloatOps}
use k8s_pod_oom_oracle.Clock.{Time}
use k8s_pod_oom_oracle.Cgroup.Reader.{ok, Reader}
use k8s_pod_oom_oracle.Detector.Event.{KillEvent}
use k8s_pod_oom_oracle.Sampler.Collect.{Sampler, collect}
use k8s_pod_oom_oracle.Sampler.Collect.Passes
use k8s_pod_oom_oracle.Sampler.Collect.Passes.{collect-IsValid}
use k8s_pod_oom_oracle.Correlate.Resolver.{PodLookup}
use k8s_pod_oom_oracle.Store
use k8s_pod_oom_oracle.Store.{Memory, get}
use k8s_pod_oom_oracle.Store.Invariant.{IsValid}
use k8s_pod_oom_oracle.Daemon.{Daemon, Formats, Handled, add_one, handle}
use k8s_pod_oom_oracle.Daemon.Handle.{Outcome, dropped, kept, handle-Outcome}

ok_injective : {A : Type 0} {a b : A} → Path (Store.Result A) (Store.ok a) (Store.ok b) → a ≡ b
ok_injective e = cc

module _ {R : Type 0} ⦃fl : FloatOps R⦄ (f : Formats) where
  -- One step, with the number of kill events that it takes from the detector's channel. The loop takes
  -- events until the context ends, the sampler fails or the channel is closed.
  pub data Step : Daemon R → ℕ → Daemon R → Type 0 where
    started : (d : Daemon R) → Step d 0 (record d { watching = true })
    handled :
        (d : Daemon R) (event : KillEvent) (h : Handled R)
        → d.watching ≡ true
        → handle f d event ≡ Store.ok h
        → Step d 1 h.daemon
    collected :
        (d : Daemon R) (fs : Reader R) (now : Time) (s : Sampler R)
        → collect fs now d.sampler ≡ ok s
        → Step d 0 (record d { sampler = s })
    pods_changed : (d : Daemon R) (pods : Option PodLookup) → Step d 0 (record d { pods = pods })
    stopped : (d : Daemon R) → d.watching ≡ true → Step d 0 (record d { watching = false })

  -- Some steps, with the number of kill events taken.
  pub data Steps : Daemon R → ℕ → Daemon R → Type 0 where
    none_yet : (d : Daemon R) → Steps d 0 d
    and_then : (d e g : Daemon R) (n k : ℕ) → Steps d n e → Step e k g → Steps d (n + k) g

  -- The store and the sampler satisfy their invariants.
  abbrev pub IsSound : Daemon R → Type 0
  IsSound d = IsValid d.store × Passes.IsValid d.sampler

  -- The events that the counters have.
  abbrev pub counted : Daemon R → ℕ
  counted d = d.processed + d.skipped

  outcome-sampler :
      (d : Daemon R) (event : KillEvent) (h : Handled R)
      → Outcome f d event h
      → h.daemon.sampler ≡ d.sampler
  outcome-sampler d event h (dropped a b c e) = ap (λ (x : Daemon R). x.sampler) e
  outcome-sampler d event h (kept i r a b c g e) = ap (λ (x : Daemon R). x.sampler) e

  outcome-counted :
      (d : Daemon R) (event : KillEvent) (h : Handled R)
      → counted d + 1 < 2 ^ 64
      → Outcome f d event h
      → counted h.daemon ≡ counted d + 1
  unfolding add_one
  outcome-counted d event h bound (dropped a b c e) =
      let p : h.daemon.processed ≡ d.processed = ap (λ (x : Daemon R). x.processed) e in
      let s : h.daemon.skipped ≡ (d.skipped + 1) % 2 ^ 64 = ap (λ (x : Daemon R). x.skipped) e in
      omega arith
  outcome-counted d event h bound (kept i r a b c g e) =
      let p : h.daemon.processed ≡ (d.processed + 1) % 2 ^ 64 =
        ap (λ (x : Daemon R). x.processed) e in
      let s : h.daemon.skipped ≡ d.skipped = ap (λ (x : Daemon R). x.skipped) e in omega arith

  handled-outcome :
      (d : Daemon R) (event : KillEvent) (h : Handled R)
      → IsValid d.store
      → handle f d event ≡ Store.ok h
      → IsValid h.daemon.store × Outcome f d event h
  handled-outcome d event h v e =
      let (g, done, valid, outcome) = handle-Outcome f d event v in
      subst (λ x. IsValid x.daemon.store × Outcome f d event x) (ok_injective (sym done ∙ e))
        (valid, outcome)

  Step-IsSound : (d e : Daemon R) (k : ℕ) → Step d k e → IsSound d → IsSound e
  Step-IsSound d e k (started _) (v, w) = (v, w)
  Step-IsSound d e k (handled _ event h on done) (v, w) =
      let (valid, outcome) = handled-outcome d event h v done in
      (valid, subst Passes.IsValid (sym (outcome-sampler d event h outcome)) w)
  Step-IsSound d e k (collected _ fs now s done) (v, w) =
      (v, collect-IsValid fs now d.sampler s w done)
  Step-IsSound d e k (pods_changed _ pods) (v, w) = (v, w)
  Step-IsSound d e k (stopped _ on) (v, w) = (v, w)

  Step-counted :
      (d e : Daemon R) (k : ℕ)
      → Step d k e
      → IsSound d
      → counted d + k < 2 ^ 64
      → counted e ≡ counted d + k
  Step-counted d e k (started _) h bound = omega arith
  Step-counted d e k (handled _ event h on done) (v, w) bound =
      outcome-counted d event h bound (handled-outcome d event h v done).1
  Step-counted d e k (collected _ fs now s done) h bound = omega arith
  Step-counted d e k (pods_changed _ pods) h bound = omega arith
  Step-counted d e k (stopped _ on) h bound = omega arith

  -- However the handling of events, the sampler's passes, the changes of the pod cache, the start and
  -- the end of the loop are ordered, the store and the sampler keep their invariants, and every kill
  -- event that was taken is counted once, as processed or as skipped, as long as the counters do not wrap.
  pub Steps-IsSound :
      (d e : Daemon R) (n : ℕ)
      → Steps d n e
      → IsSound d
      → counted d + n < 2 ^ 64
      → IsSound e × (counted e ≡ counted d + n)
  Steps-IsSound d e n (none_yet _) h bound = (h, omega arith)
  Steps-IsSound d e n (and_then _ g _ m k before step) h bound =
      let (sound, count) = Steps-IsSound d g m before h (omega arith) in
      let next = Step-counted g e k step sound (omega arith) in
      (Step-IsSound g e k step sound, omega arith)
