-- ===== src/Detector/Poller/Events.antt =====
-- Which kills a pass reports.
use k8s_pod_oom_oracle.Base.{
  ℕ, ◌≡◌, refl, ◌∙◌, inl, inr, sym, Bool, true, false, Option, none, some, ltb, if◌then◌else◌, List,
  [], ◌∷◌, ◌++◌, arith, Map, lookup, insert, lookup-insert, Str, same, str_discrete, Bool-cases,
  append-nil, append_assoc,
}
use k8s_pod_oom_oracle.Base.{any, same_refl, same→eq}
use k8s_pod_oom_oracle.Clock.{Time}
use k8s_pod_oom_oracle.Cgroup.Stats.{MemoryStats, oom_kills}
use k8s_pod_oom_oracle.Cgroup.Reader.{Read, ok, err, Reader}
use k8s_pod_oom_oracle.Detector.Event.{Source, KillEvent}
use k8s_pod_oom_oracle.Detector.Poller.{
  Poller, infer_victim, read_or_nil, read_group_kill, event_at, event_if_risen, detect_one, detect,
}

-- No path stands in the list twice.
abbrev pub NoRepeat : List Str → Type 0
NoRepeat [] = Unit
NoRepeat (q ∷ qs) = (any (same q) qs ≡ false) × NoRepeat qs

-- The flag of memory.oom.group, where it can be read.
abbrev flag_read : Read Bool → Option Bool
flag_read (ok b) = some b
flag_read (err e) = none

-- A kill at a counter that stood at `before` after the last pass, and was read then.
abbrev above : KillEvent → Option ℕ → List KillEvent
above event none = []
above event (some before) = if ltb before event.kill_count then event ∷ [] else []

module _ {R : Type 0} where
  -- The event of one cgroup, against the counters that the pass began with.
  pub rise : Reader R → Time → Poller → Str → Read MemoryStats → List KillEvent
  rise fs now p path (err e) = []
  rise fs now p path (ok st) =
      above
        (record {
          time = now;
          cgroup_path = path;
          victim = infer_victim fs p path;
          kill_count = oom_kills st;
          group_kill = flag_read (fs.read_oom_group path);
          source = Source.poller;
        })
        (lookup str_discrete path p.counters)

  pub risen : Reader R → Time → Poller → List Str → List KillEvent
  unfolding rise
  risen fs now p [] = []
  risen fs now p (path ∷ paths) =
      rise fs now p path (fs.read_memory_stats path) ++ risen fs now p paths

  flag_read_lem :
      (fs : Reader R) (path : Str) → read_group_kill fs path ≡ flag_read (fs.read_oom_group path)
  unfolding read_group_kill
  flag_read_lem fs path = flag (fs.read_oom_group path)
    where
      flag : (o : Read Bool) → read_or_nil o ≡ flag_read o
      flag (ok b) = refl
      flag (err e) = refl

  event_if_risen-above :
      (fs : Reader R) (now : Time) (p : Poller) (path : Str) (n : ℕ) (o : Option ℕ)
      → event_if_risen fs now p path n o
        ≡ above
            (record {
              time = now;
              cgroup_path = path;
              victim = infer_victim fs p path;
              kill_count = n;
              group_kill = flag_read (fs.read_oom_group path);
              source = Source.poller;
            })
            o
  unfolding event_if_risen event_at
  event_if_risen-above fs now p path n none = refl
  event_if_risen-above fs now p path n (some before) =
      rw (sym (flag_read_lem fs path)) (ground arith)

  detect_read :
      (fs : Reader R) (now : Time) (p : Poller) (path : Str) (r : Read MemoryStats) (c : Map Str ℕ)
      (es : List KillEvent)
      → lookup str_discrete path c ≡ lookup str_discrete path p.counters
      → (c' : Map Str ℕ) × (detect_one fs now path r (es, record p { counters = c })
          ≡ (es ++ rise fs now p path r, record p { counters = c' }))
        × ((q : Str) → same q path ≡ false → lookup str_discrete q c' ≡ lookup str_discrete q c)
  unfolding detect_one rise infer_victim
  detect_read fs now p path (err e) c es h = (c, rw append-nil refl, λ q n. refl)
  detect_read fs now p path (ok st) c es h = (
    insert str_discrete path (oom_kills st) c,
    rw (h, event_if_risen-above) refl,
    λ q n. ground (arith, lookup-insert str_discrete path q (oom_kills st) c, same_refl q),
  )

  detect-risen_from :
      (fs : Reader R) (now : Time) (p : Poller) (paths : List Str) (c : Map Str ℕ)
      (es : List KillEvent)
      → NoRepeat paths
      → ((q : Str)
          → any (same q) paths ≡ true
          → lookup str_discrete q c ≡ lookup str_discrete q p.counters)
      → (detect fs now paths (es, record p { counters = c })).0 ≡ es ++ risen fs now p paths
  unfolding detect risen
  detect-risen_from fs now p [] c es d h = rw append-nil refl
  detect-risen_from fs now p (path ∷ paths) c es d h =
      let (c', runs, others) =
        detect_read fs now p path (fs.read_memory_stats path) c es
          (h path (rw (same_refl path) refl)) in
      rw (runs, detect)
        (detect-risen_from fs now p paths c' (es ++ rise fs now p path (fs.read_memory_stats path))
            d.1 (λ q m. others q (apart q path paths m d.0) ∙ h q (later q path paths m))
          ∙ append_assoc es (rise fs now p path (fs.read_memory_stats path)) (risen fs now p paths))
    where
      apart :
          (q path : Str) (paths : List Str)
          → any (same q) paths ≡ true
          → any (same path) paths ≡ false
          → same q path ≡ false
      apart q path paths m n = elim (Bool-cases (same q path)) [
        | inl e ↦ absurd (clash (same→eq q path e) m n)
        | inr e ↦ e
      ]
        where
          clash : q ≡ path → any (same q) paths ≡ true → any (same path) paths ≡ false → ⊥
          clash e m n = cc

      later :
          (q path : Str) (paths : List Str)
          → any (same q) paths ≡ true
          → any (same q) (path ∷ paths) ≡ true
      later q path paths m = ground arith

  -- A pass over distinct cgroups reports, in the order of the walk, exactly those whose statistics
  -- can be read and whose kill counter was seen before and is above what it was after the last pass:
  -- an event has the time of the pass, the counter, the victim that is inferred and the flag of group
  -- kill where that can be read.
  pub detect-risen :
      (fs : Reader R) (now : Time) (p : Poller) (paths : List Str)
      → NoRepeat paths
      → (detect fs now paths ([], p)).0 ≡ risen fs now p paths
  detect-risen fs now p paths d = detect-risen_from fs now p paths p.counters [] d (λ q m. refl)
