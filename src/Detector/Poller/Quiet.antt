-- ===== src/Detector/Poller/Quiet.antt =====
-- No kill is reported twice, and none from before the start.
use k8s_pod_oom_oracle.Base.{
  ℕ, ◌≡◌, refl, ap, ap₂, ◌∙◌, ◌⊎◌, inl, inr, true, Option, none, some, List, [], ◌∷◌, ◌++◌, arith,
  Map, lookup, insert, lookup-insert, Str, same, str_discrete, Bool-cases, append-nil, ℤ,
}
use k8s_pod_oom_oracle.Base.{any, same_refl, same→eq}
use k8s_pod_oom_oracle.Clock.{Time}
use k8s_pod_oom_oracle.Procfs.Process.{Process}
use k8s_pod_oom_oracle.Cgroup.Stats.{MemoryStats, oom_kills}
use k8s_pod_oom_oracle.Cgroup.Reader.{Read, ok, err, Reader}
use k8s_pod_oom_oracle.Detector.Event.{KillEvent}
use k8s_pod_oom_oracle.Detector.Poller.{
  Poller, event_if_risen, detect_one, detect, snapshot_with, snapshot_all, refresh_with,
  refresh_snapshots, prime_counter, prime_counters,
}

listed :
    {S : Type 0} (q path : Str) (paths : List Str)
    → (any (same q) (path ∷ paths) ≡ true) ⊎ S
    → (any (same q) paths ≡ true) ⊎ ((same q path ≡ true) ⊎ S)
listed q path paths (inr s) = inr (inr s)
listed q path paths (inl m) = elim (Bool-cases (same q path)) [
  | inl e ↦ inr (inl e)
  | inr n ↦ inl (ground arith)
]

snapshot_with-counters :
    (procs : List ℤ → List Process) (path : Str) (r : Read (List ℤ)) (p : Poller)
    → ((snapshot_with procs path r p).counters ≡ p.counters)
      × ((snapshot_with procs path r p).prefix ≡ p.prefix)
unfolding snapshot_with
snapshot_with-counters procs path (ok a) p = (refl, refl)
snapshot_with-counters procs path (err e) p = (refl, refl)

module _ {R : Type 0} where
  -- The counter of a cgroup is what its statistics say, where they can be read.
  abbrev pub Settled : Reader R → Map Str ℕ → Str → Type 0
  Settled fs c q =
      (st : MemoryStats)
      → fs.read_memory_stats q ≡ ok st
      → lookup str_discrete q c ≡ some (oom_kills st)

  insert-Settled :
      (fs : Reader R) (c : Map Str ℕ) (path q : Str) (st : MemoryStats)
      → fs.read_memory_stats path ≡ ok st
      → (same q path ≡ true) ⊎ Settled fs c q
      → Settled fs (insert str_discrete path (oom_kills st) c) q
  insert-Settled fs c path q st h w st' h' =
      lookup-insert str_discrete path q (oom_kills st) c ∙ elim (str_discrete q path) [
        | yes e ↦ ground (arith, ap fs.read_memory_stats e)
        | no ne ↦
            let kept : lookup str_discrete q c ≡ some (oom_kills st') = elim w [
              | inl e ↦ absurd (ne (same→eq q path e))
              | inr s ↦ s st' h'
            ] in
            ground (arith, kept)
      ]

  -- One reading settles its cgroup and unsettles none.
  prime_counter-Settled :
      (fs : Reader R) (path q : Str) (r : Read MemoryStats) (p : Poller)
      → fs.read_memory_stats path ≡ r
      → (same q path ≡ true) ⊎ Settled fs p.counters q
      → Settled fs (prime_counter path r p).counters q
  unfolding prime_counter
  prime_counter-Settled fs path q (ok st) p h w = insert-Settled fs p.counters path q st h w
  prime_counter-Settled fs path q (err e) p h (inr s) = s
  prime_counter-Settled fs path q (err e) p h (inl m) =
      λ st h'. cc (h', h, ap fs.read_memory_stats (same→eq q path m))

  pub prime_counters-Settled :
      (fs : Reader R) (paths : List Str) (q : Str) (p : Poller)
      → (any (same q) paths ≡ true) ⊎ Settled fs p.counters q
      → Settled fs (prime_counters fs paths p).counters q
  unfolding prime_counters
  prime_counters-Settled fs [] q p (inl m) = cc
  prime_counters-Settled fs [] q p (inr s) = s
  prime_counters-Settled fs (path ∷ paths) q p w =
      prime_counters-Settled fs paths q (prime_counter path (fs.read_memory_stats path) p)
        (elim (listed q path paths w) [
          | inl m ↦ inl m
          | inr s ↦ inr (prime_counter-Settled fs path q (fs.read_memory_stats path) p refl s)
        ])

  -- `detect` moves the counters as `prime_counters` does.
  detect_one-counters :
      (fs : Reader R) (now : Time) (path : Str) (r : Read MemoryStats) (es : List KillEvent)
      (p : Poller)
      → (detect_one fs now path r (es, p)).1 ≡ prime_counter path r p
  unfolding detect_one prime_counter
  detect_one-counters fs now path (ok st) es p = refl
  detect_one-counters fs now path (err e) es p = refl

  pub detect-counters :
      (fs : Reader R) (now : Time) (paths : List Str) (acc : List KillEvent × Poller)
      → (detect fs now paths acc).1 ≡ prime_counters fs paths acc.1
  unfolding detect prime_counters
  detect-counters fs now [] acc = refl
  detect-counters fs now (path ∷ paths) (es, p) =
      detect-counters fs now paths (detect_one fs now path (fs.read_memory_stats path) (es, p))
      ∙ ap (prime_counters fs paths)
          (detect_one-counters fs now path (fs.read_memory_stats path) es p)

  no_rise :
      (fs : Reader R) (now : Time) (p : Poller) (path : Str) (n : ℕ)
      → event_if_risen fs now p path n (some n) ≡ []
  unfolding event_if_risen
  no_rise fs now p path n = ground arith

  quiet_one :
      (fs : Reader R) (now : Time) (path : Str) (r : Read MemoryStats) (es : List KillEvent)
      (p : Poller)
      → fs.read_memory_stats path ≡ r
      → Settled fs p.counters path
      → (detect_one fs now path r (es, p)).0 ≡ es
  unfolding detect_one
  quiet_one fs now path (err e) es p h s = refl
  quiet_one fs now path (ok st) es p h s =
      rw (s st h) (ap (λ e. es ++ e) (no_rise fs now _ path (oom_kills st)) ∙ append-nil es)

  pub detect-quiet :
      (fs : Reader R) (now : Time) (paths : List Str) (es : List KillEvent) (p : Poller)
      → ((q : Str) → any (same q) paths ≡ true → Settled fs p.counters q)
      → (detect fs now paths (es, p)).0 ≡ es
  unfolding detect
  detect-quiet fs now [] es p s = refl
  detect-quiet fs now (path ∷ paths) es p s =
      let r = fs.read_memory_stats path in
      ap (λ acc. (detect fs now paths acc).0)
        (ap₂ (λ a b. (a, b)) (quiet_one fs now path r es p refl (s path (rw (same_refl path) refl)))
          (detect_one-counters fs now path r es p))
      ∙ detect-quiet fs now paths es (prime_counter path r p)
          (λ q m. prime_counter-Settled fs path q r p refl (inr (s q (ground arith))))

  snapshot_all-counters :
      (procs : List ℤ → List Process) (fs : Reader R) (paths : List Str) (p : Poller)
      → ((snapshot_all procs fs paths p).counters ≡ p.counters)
        × ((snapshot_all procs fs paths p).prefix ≡ p.prefix)
  unfolding snapshot_all
  snapshot_all-counters procs fs [] p = (refl, refl)
  snapshot_all-counters procs fs (path ∷ paths) p =
      let one = snapshot_with-counters procs path (fs.procs_in path) p in
      let all =
        snapshot_all-counters procs fs paths (snapshot_with procs path (fs.procs_in path) p) in
      (all.0 ∙ one.0, all.1 ∙ one.1)

  pub refresh_snapshots-counters :
      (fs : Reader R) (paths : List Str) (p : Poller)
      → ((refresh_snapshots fs paths p).counters ≡ p.counters)
        × ((refresh_snapshots fs paths p).prefix ≡ p.prefix)
  unfolding refresh_snapshots refresh_with
  refresh_snapshots-counters fs paths p = by_proc p.proc
    where
      by_proc :
          (o : Option (List ℤ → List Process))
          → ((refresh_with o fs paths p).counters ≡ p.counters)
            × ((refresh_with o fs paths p).prefix ≡ p.prefix)
      by_proc none = (refl, refl)
      by_proc (some procs) = snapshot_all-counters procs fs paths p

  pub prime_counters-prefix :
      (fs : Reader R) (paths : List Str) (p : Poller)
      → (prime_counters fs paths p).prefix ≡ p.prefix
  unfolding prime_counters prime_counter
  prime_counters-prefix fs [] p = refl
  prime_counters-prefix fs (path ∷ paths) p =
      prime_counters-prefix fs paths (prime_counter path (fs.read_memory_stats path) p)
      ∙ one (fs.read_memory_stats path)
    where
      one : (r : Read MemoryStats) → (prime_counter path r p).prefix ≡ p.prefix
      one (ok st) = refl
      one (err e) = refl
