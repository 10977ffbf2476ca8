-- ===== src/Sampler/Collect/Evict.antt =====
-- `evict`, path by path: history outlives its cgroup for the retention and no longer.
pub mod Retention
use k8s_pod_oom_oracle.Base.{
  ℕ, zero, suc, ◌+◌, ◌-◌, ◌*◌, ◌/◌, ◌%◌, ◌^◌, ◌≤◌, ◌<◌, min, max, ◌≡◌, refl, sym, ap, ap₂, ◌∙◌, ◌≢◌,
  ◌↔◌, ◌⊎◌, inl, inr, ite, Bool, true, false, ◌&&◌, ◌||◌, not, Option, none, some, List, [], ◌∷◌,
  ◌++◌, map, reverse, arith, length, length-append, length-set, length-drop, length-take, get_elem?,
  get_elem?-some, set, take, drop, drop-append, select, select-append, Map, lookup, insert,
  lookup-insert, Str, same, str_discrete, ltb, leb, ◌==◌, if◌then◌else◌, Option-cases, Bool-cases,
  append-nil, append_assoc, ℤ, pos, negsuc, ltb_ℤ, leb_ℤ, pos_part, neg_part, codes, subst,
}
use k8s_pod_oom_oracle.Base.{delete, lookup-delete, Unique, insert-Unique, delete-Unique}
use k8s_pod_oom_oracle.Clock.{Time, Duration, time_sub}
use k8s_pod_oom_oracle.Sampler.Sample.{Sample}
use k8s_pod_oom_oracle.Sampler.Ring.{Ring}
use k8s_pod_oom_oracle.Sampler.Collect.{Sampler, evict_missing, evict_one, evict_loop, evict}

-- What a sampler holds for one path: its ring, and when the path was first missed.
pub record Entry (R : Type 0) : Type 0 where
  pub ring : Option (Ring (Sample R))
  pub missed : Option Time

module _ {R : Type 0} where
  pub view : Str → Sampler R → Entry R
  view p s = record {
    ring = lookup str_discrete p s.rings;
    missed = lookup str_discrete p s.vanished_at;
  }

  -- The rule of retention for a tracked path.
  pub retain : Duration → Bool → Time → Entry R → Entry R
  retain keep true now e = record e { missed = none }
  retain keep false now e = elim e.missed [
    | none ↦ record e { missed = some now }
    | some first ↦
        if leb_ℤ keep (time_sub now first) then record { ring = none; missed = none } else e
  ]

  evict_one-view :
      (live : Str → Bool) (now : Time) (p : Str) (s : Sampler R)
      → view p (evict_one live now p s) ≡ retain s.retention (live p) now (view p s)
  unfolding evict_one view retain
  evict_one-view live now p s = elim (Bool-cases (live p)) [
    | inl h ↦ rw h (ground (arith, lookup-delete str_discrete p p s.vanished_at))
    | inr h ↦ rw h (elim (Option-cases (lookup str_discrete p s.vanished_at)) [
      | inl e ↦ ground (arith, lookup-insert str_discrete p p now s.vanished_at)
      | inr (t, e) ↦ ground (
        arith,
        lookup-delete str_discrete p p s.vanished_at,
        lookup-delete str_discrete p p s.rings,
      )
    ])
  ]

  evict_one-view_ne :
      (live : Str → Bool) (now : Time) (p q : Str) (s : Sampler R)
      → q ≢ p
      → view q (evict_one live now p s) ≡ view q s
  unfolding evict_one view
  evict_one-view_ne live now p q s ne = ground (
    arith,
    lookup-delete str_discrete p q s.vanished_at,
    lookup-delete str_discrete p q s.rings,
    lookup-insert str_discrete p q now s.vanished_at,
    Option-cases (lookup str_discrete p s.vanished_at),
  )

  retention-evict_one :
      (live : Str → Bool) (now : Time) (p : Str) (s : Sampler R)
      → (evict_one live now p s).retention ≡ s.retention
  unfolding evict_one
  retention-evict_one live now p s =
      ground (arith, Option-cases (lookup str_discrete p s.vanished_at))

  evict_loop-view_absent :
      (live : Str → Bool) (now : Time) (q : Str) (es : Map Str (Ring (Sample R))) (s : Sampler R)
      → lookup str_discrete q es ≡ none
      → view q (evict_loop live now es s) ≡ view q s
  unfolding evict_loop lookup
  evict_loop-view_absent live now q [] s h = refl
  evict_loop-view_absent live now q ((p, r) ∷ es) s h = elim (str_discrete q p) [
    | yes e ↦ absurd (ground arith)
    | no ne ↦
        evict_loop-view_absent live now q es (evict_one live now p s) (ground arith)
        ∙ evict_one-view_ne live now p q s ne
  ]

  evict_loop-view :
      (live : Str → Bool) (now : Time) (q : Str) (es : Map Str (Ring (Sample R))) (s : Sampler R)
      (r : Ring (Sample R))
      → Unique str_discrete es
      → lookup str_discrete q es ≡ some r
      → view q (evict_loop live now es s) ≡ retain s.retention (live q) now (view q s)
  unfolding evict_loop lookup
  evict_loop-view live now q [] s r u h = cc
  evict_loop-view live now q ((p, r') ∷ es) s r u h = elim (str_discrete q p) [
    | yes e ↦
        evict_loop-view_absent live now q es (evict_one live now p s) (rw e u.0)
        ∙ rw e (evict_one-view live now p s)
    | no ne ↦
        evict_loop-view live now q es (evict_one live now p s) r u.1 (ground arith)
        ∙ ap₂ (λ k e. retain k (live q) now e) (retention-evict_one live now p s)
            (evict_one-view_ne live now p q s ne)
  ]

  pub evict-view :
      (live : Str → Bool) (now : Time) (q : Str) (s : Sampler R)
      → Unique str_discrete s.rings
      → ((r : Ring (Sample R))
          → lookup str_discrete q s.rings ≡ some r
          → view q (evict live now s) ≡ retain s.retention (live q) now (view q s))
        × (lookup str_discrete q s.rings ≡ none → view q (evict live now s) ≡ view q s)
  unfolding evict
  evict-view live now q s u = (
    λ r h. evict_loop-view live now q s.rings s r u h,
    evict_loop-view_absent live now q s.rings s,
  )

  evict_one-Unique :
      (live : Str → Bool) (now : Time) (p : Str) (s : Sampler R)
      → Unique str_discrete s.rings
      → Unique str_discrete (evict_one live now p s).rings
  unfolding evict_one
  evict_one-Unique live now p s u = ground (
    arith,
    delete-Unique str_discrete p s.rings u,
    Option-cases (lookup str_discrete p s.vanished_at),
  )

  evict_loop-Unique :
      (live : Str → Bool) (now : Time) (es : Map Str (Ring (Sample R))) (s : Sampler R)
      → Unique str_discrete s.rings
      → Unique str_discrete (evict_loop live now es s).rings
  unfolding evict_loop
  evict_loop-Unique live now [] s u = u
  evict_loop-Unique live now ((p, r) ∷ es) s u =
      evict_loop-Unique live now es (evict_one live now p s) (evict_one-Unique live now p s u)

  pub evict-Unique :
      (live : Str → Bool) (now : Time) (s : Sampler R)
      → Unique str_discrete s.rings
      → Unique str_discrete (evict live now s).rings
  unfolding evict
  evict-Unique live now s u = evict_loop-Unique live now s.rings s u

  evict_loop-retention :
      (live : Str → Bool) (now : Time) (es : Map Str (Ring (Sample R))) (s : Sampler R)
      → (evict_loop live now es s).retention ≡ s.retention
  unfolding evict_loop
  evict_loop-retention live now [] s = refl
  evict_loop-retention live now ((p, r) ∷ es) s =
      evict_loop-retention live now es (evict_one live now p s) ∙ retention-evict_one live now p s

  pub evict-retention :
      (live : Str → Bool) (now : Time) (s : Sampler R) → (evict live now s).retention ≡ s.retention
  unfolding evict
  evict-retention live now s = evict_loop-retention live now s.rings s

  history_size-evict_one :
      (live : Str → Bool) (now : Time) (p : Str) (s : Sampler R)
      → (evict_one live now p s).history_size ≡ s.history_size
  unfolding evict_one
  history_size-evict_one live now p s =
      ground (arith, Option-cases (lookup str_discrete p s.vanished_at))

  evict_loop-history_size :
      (live : Str → Bool) (now : Time) (es : Map Str (Ring (Sample R))) (s : Sampler R)
      → (evict_loop live now es s).history_size ≡ s.history_size
  unfolding evict_loop
  evict_loop-history_size live now [] s = refl
  evict_loop-history_size live now ((p, r) ∷ es) s =
      evict_loop-history_size live now es (evict_one live now p s)
      ∙ history_size-evict_one live now p s

  pub evict-history_size :
      (live : Str → Bool) (now : Time) (s : Sampler R)
      → (evict live now s).history_size ≡ s.history_size
  unfolding evict
  evict-history_size live now s = evict_loop-history_size live now s.rings s

  retain-ring :
      (keep : Duration) (live : Bool) (now : Time) (e : Entry R) (r : Ring (Sample R))
      → (retain keep live now e).ring ≡ some r
      → e.ring ≡ some r
  unfolding retain
  retain-ring keep live now e r h = ground arith

  -- `evict` makes up no ring.
  pub evict-lookup :
      (live : Str → Bool) (now : Time) (q : Str) (s : Sampler R) (r : Ring (Sample R))
      → Unique str_discrete s.rings
      → lookup str_discrete q (evict live now s).rings ≡ some r
      → lookup str_discrete q s.rings ≡ some r
  unfolding view
  evict-lookup live now q s r u h = elim (Option-cases (lookup str_discrete q s.rings)) [
    | inl e ↦ sym (ap Entry.ring ((evict-view live now q s u).1 e)) ∙ h
    | inr (r', e) ↦
        retain-ring s.retention (live q) now (view q s) r
          (sym (ap Entry.ring ((evict-view live now q s u).0 r' e)) ∙ h)
  ]

  -- `evict` keeps the ring of a path that the pass has found.
  pub evict-lookup_live :
      (live : Str → Bool) (now : Time) (q : Str) (s : Sampler R) (r : Ring (Sample R))
      → Unique str_discrete s.rings
      → live q ≡ true
      → lookup str_discrete q s.rings ≡ some r
      → lookup str_discrete q (evict live now s).rings ≡ some r
  unfolding view retain
  evict-lookup_live live now q s r u l h =
      ap Entry.ring ((evict-view live now q s u).0 r h)
      ∙ ap (λ b. (retain s.retention b now (view q s)).ring) l
      ∙ h
