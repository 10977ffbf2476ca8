-- ===== src/Detector/Poller/Once.antt =====
-- What a pass has reported, and what happened before the start, is not reported by the next pass.
use k8s_pod_oom_oracle.Base.{
  ℕ, ◌≡◌, refl, ap, ◌∙◌, inl, inr, Bool, true, List, [], ◌∷◌, arith, Map, lookup, Str, same,
  str_discrete, Bool-cases,
}
use k8s_pod_oom_oracle.Base.{any, lookup-delete}
use k8s_pod_oom_oracle.Clock.{Time}
use k8s_pod_oom_oracle.Cgroup.Reader.{ok, Reader}
use k8s_pod_oom_oracle.Detector.Event.{KillEvent}
use k8s_pod_oom_oracle.Detector.Poller.{
  Poller, detect, refresh_snapshots, prime_counters, prime, evict_gone, evict, poll,
}
use k8s_pod_oom_oracle.Detector.Poller.Quiet.{
  Settled, prime_counters-Settled, detect-counters, detect-quiet, refresh_snapshots-counters,
  prime_counters-prefix,
}

-- A cgroup that is there keeps its counter.
evict_gone-live :
    (live : Str → Bool) (es : Map Str ℕ) (q : Str) (p : Poller)
    → live q ≡ true
    → lookup str_discrete q (evict_gone live es p).counters ≡ lookup str_discrete q p.counters
unfolding evict_gone
evict_gone-live live [] q p h = refl
evict_gone-live live ((path, n) ∷ es) q p h = elim (Bool-cases (live path)) [
  | inl l ↦ rw (l, evict_gone) (evict_gone-live live es q p h)
  | inr g ↦
      rw (g, evict_gone)
        (evict_gone-live live es q _ h
          ∙ lookup-delete str_discrete path q p.counters
          ∙ elim (str_discrete q path) [ yes e ↦ cc (h, g, ap live e) | no ne ↦ ground arith ])
]

evict_gone-prefix :
    (live : Str → Bool) (es : Map Str ℕ) (p : Poller) → (evict_gone live es p).prefix ≡ p.prefix
unfolding evict_gone
evict_gone-prefix live [] p = refl
evict_gone-prefix live ((path, n) ∷ es) p = elim (Bool-cases (live path)) [
  | inl l ↦ rw (l, evict_gone) (evict_gone-prefix live es p)
  | inr g ↦ rw (g, evict_gone) (evict_gone-prefix live es _)
]

module _ {R : Type 0} where
  -- A pass on settled counters reports nothing.
  quiet_pass :
      (fs later : Reader R) (now : Time) (p : Poller) (paths : List Str)
      → fs.discover p.prefix ≡ ok paths
      → ((q : Str) → any (same q) paths ≡ true → Settled fs p.counters q)
      → (p' : Poller) × (poll fs later now p ≡ ok ([], p'))
  unfolding poll
  quiet_pass fs later now p paths h s =
      let acc = detect fs now paths ([], p) in
      (
        evict paths (refresh_snapshots later paths acc.1),
        rw (h, poll)
            (ap (λ es. ok (es, evict paths (refresh_snapshots later paths acc.1)))
              (detect-quiet fs now paths [] p s)),
      )

  -- The first pass after `Prime`, on the hierarchy that `Prime` has read, reports no kill: what was
  -- counted before the start is no event. Both succeed when the walk does.
  pub poll-prime :
      (fs later : Reader R) (now : Time) (p : Poller) (paths : List Str)
      → fs.discover p.prefix ≡ ok paths
      → (p' p'' : Poller) × (prime fs p ≡ ok p') × (poll fs later now p' ≡ ok ([], p''))
  unfolding prime
  poll-prime fs later now p paths h =
      let p0 = prime_counters fs paths p in
      let p1 = refresh_snapshots fs paths p0 in
      let kept = refresh_snapshots-counters fs paths p0 in
      let (p2, runs) =
        quiet_pass fs later now p1 paths
          (ap fs.discover (kept.1 ∙ prime_counters-prefix fs paths p) ∙ h)
          (λ q m st r.
            ap (lookup str_discrete q) kept.0 ∙ prime_counters-Settled fs paths q p (inl m) st r) in
      (p1, p2, rw (h, prime) refl, runs)

  -- A pass on a hierarchy whose counters did not move since the pass before it reports no kill, so
  -- that none is reported twice. Both succeed when the walk does.
  pub poll-poll :
      (fs later later' : Reader R) (now now' : Time) (p : Poller) (paths : List Str)
      → fs.discover p.prefix ≡ ok paths
      → (es : List KillEvent) × (p' p'' : Poller) × (poll fs later now p ≡ ok (es, p'))
        × (poll fs later' now' p' ≡ ok ([], p''))
  unfolding poll evict
  poll-poll fs later later' now now' p paths h =
      let acc = detect fs now paths ([], p) in
      let p1 = refresh_snapshots later paths acc.1 in
      let p2 = evict paths p1 in
      let kept = refresh_snapshots-counters later paths acc.1 in
      let moved = detect-counters fs now paths ([], p) in
      let live : Str → Bool = λ q. any (same q) paths in
      let (p3, runs) =
        quiet_pass fs later' now' p2 paths
          (ap fs.discover (
              evict_gone-prefix live p1.counters p1
              ∙ kept.1
              ∙ ap Poller.prefix moved
              ∙ prime_counters-prefix fs paths p)
            ∙ h)
          (λ q m st r.
            evict_gone-live live p1.counters q p1 m
            ∙ ap (lookup str_discrete q) (kept.0 ∙ ap Poller.counters moved)
            ∙ prime_counters-Settled fs paths q p (inl m) st r) in
      (acc.0, p2, p3, rw (h, poll) refl, runs)
