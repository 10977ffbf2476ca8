-- ===== src/Sampler/Collect/Evict/Retention.antt =====
-- What a pass keeps, marks and drops of each cgroup, and what a run of passes keeps.
use k8s_pod_oom_oracle.Base.{
  ◌≡◌, refl, ap, ◌∙◌, inl, inr, Bool, false, none, some, List, [], ◌∷◌, arith, lookup, Str,
  str_discrete, Option-cases, leb_ℤ,
}
use k8s_pod_oom_oracle.Base.{Unique}
use k8s_pod_oom_oracle.Clock.{Time, Duration, time_sub}
use k8s_pod_oom_oracle.Sampler.Sample.{Sample}
use k8s_pod_oom_oracle.Sampler.Ring.{Ring}
use k8s_pod_oom_oracle.Sampler.Collect.{Sampler, evict}
use k8s_pod_oom_oracle.Sampler.Collect.Evict.{
  Entry, view, retain, evict-view, evict-Unique, evict-retention,
}

-- Every pass misses `q`, less than the retention after `first`.
abbrev pub MissesWithin : Str → Duration → Time → List ((Str → Bool) × Time) → Type 0
MissesWithin q keep first [] = Unit
MissesWithin q keep first ((live, now) ∷ passes) =
    (live q ≡ false) × (leb_ℤ keep (time_sub now first) ≡ false) × MissesWithin q keep first passes

module _ {R : Type 0} where
  -- The rule of retention for any path: one that is not tracked is left alone.
  pub retained : Duration → Bool → Time → Entry R → Entry R
  unfolding retain
  retained keep live now e = elim e.ring [ none ↦ e | some r ↦ retain keep live now e ]

  -- A pass of eviction keeps, marks or drops each tracked cgroup by the rule of retention, whatever
  -- the order in which it meets them, and leaves the entry of an untracked one as it was. No cgroup
  -- stands in the map twice.
  pub evict_lem :
      (live : Str → Bool) (now : Time) (q : Str) (s : Sampler R)
      → Unique str_discrete s.rings
      → view q (evict live now s) ≡ retained s.retention (live q) now (view q s)
  unfolding view retained
  evict_lem live now q s u = elim (Option-cases (lookup str_discrete q s.rings)) [
    | inl e ↦ (evict-view live now q s u).1 e ∙ rw e refl
    | inr (r, e) ↦ (evict-view live now q s u).0 r e ∙ rw e refl
  ]

  -- A run of passes, each with the paths that it found and its time.
  pub evict_all : List ((Str → Bool) × Time) → Sampler R → Sampler R
  evict_all [] s = s
  evict_all ((live, now) ∷ passes) s = evict_all passes (evict live now s)

  evict-view_kept :
      (live : Str → Bool) (now : Time) (q : Str) (first : Time) (r : Ring (Sample R))
      (s : Sampler R)
      → Unique str_discrete s.rings
      → lookup str_discrete q s.rings ≡ some r
      → lookup str_discrete q s.vanished_at ≡ some first
      → live q ≡ false
      → leb_ℤ s.retention (time_sub now first) ≡ false
      → view q (evict live now s) ≡ view q s
  unfolding view retain
  evict-view_kept live now q first r s u h m gone early =
      (evict-view live now q s u).0 r h ∙ rw gone (ground arith)

  -- When no cgroup stands in the map twice, the ring of a tracked cgroup that was first missed at
  -- `first` stays as it is through every later pass that misses it less than the retention after
  -- `first`.
  pub evict_all-keeps :
      (q : Str) (first : Time) (r : Ring (Sample R)) (passes : List ((Str → Bool) × Time))
      (s : Sampler R)
      → Unique str_discrete s.rings
      → lookup str_discrete q s.rings ≡ some r
      → lookup str_discrete q s.vanished_at ≡ some first
      → MissesWithin q s.retention first passes
      → lookup str_discrete q (evict_all passes s).rings ≡ some r
  unfolding evict_all view
  evict_all-keeps q first r [] s u h m w = h
  evict_all-keeps q first r ((live, now) ∷ passes) s u h m w =
      let kept = evict-view_kept live now q first r s u h m w.0 w.1 in
      evict_all-keeps q first r passes (evict live now s) (evict-Unique live now s u)
        (ap Entry.ring kept ∙ h) (ap Entry.missed kept ∙ m) (rw (evict-retention live now s) w.2)
