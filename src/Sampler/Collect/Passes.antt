-- ===== src/Sampler/Collect/Passes.antt =====
-- A pass of the sampler: the invariant of its state, and what a pass adds to a history.
use k8s_pod_oom_oracle.Base.{
  ◌<◌, ◌≡◌, refl, sym, ◌∙◌, ◌≢◌, inl, inr, ite, Bool, true, false, some, List, [], ◌∷◌, ◌++◌, arith,
  lookup, lookup-insert, Str, str_discrete, Option-cases, subst,
}
use k8s_pod_oom_oracle.Base.{Unique, insert-Unique, last, ne_of_not_same}
use k8s_pod_oom_oracle.Float.{FloatOps}
use k8s_pod_oom_oracle.Clock.{Time}
use k8s_pod_oom_oracle.Cgroup.Stats.{MemoryStats}
use k8s_pod_oom_oracle.Cgroup.Reader.{Read, ok, err, Reader}
use k8s_pod_oom_oracle.Sampler.Sample.{Sample}
use k8s_pod_oom_oracle.Sampler.Ring.{Ring, add}
use k8s_pod_oom_oracle.Sampler.Ring.Refine.{Holds, new_ring-Holds, add-Holds}
use k8s_pod_oom_oracle.Sampler.Collect.{
  Options, new_sampler, Sampler, ring_or_new, record_sample, evict, is_live, sample_at, after_read,
  collect_paths, collect,
}
use k8s_pod_oom_oracle.Sampler.Collect.Evict.{evict-Unique, evict-history_size, evict-lookup}

-- Every ring of the sampler is one that `Add` has built, at the sampler's history size.
pub record IsValid {R : Type 0} (s : Sampler R) : Type 0 where
  pub positive : 0 < s.history_size
  pub unique : Unique str_discrete s.rings
  pub rings :
      (p : Str) (r : Ring (Sample R))
      → lookup str_discrete p s.rings ≡ some r
      → (xs : List (Sample R)) × Holds r s.history_size xs

module _ {R : Type 0} where
  -- A sampler starts valid, whatever options it is given.
  pub new_sampler-IsValid : (o : Options) → IsValid (new_sampler R o)
  unfolding new_sampler lookup
  new_sampler-IsValid o = record { positive = ground arith; unique = tt; rings = λ p r h. cc }

  pub ring_or_new-Holds :
      (s : Sampler R) (p : Str)
      → IsValid s
      → (xs : List (Sample R)) × Holds
          (ring_or_new s.history_size (lookup str_discrete p s.rings))
          s.history_size
          xs
  unfolding ring_or_new
  ring_or_new-Holds s p v = elim (Option-cases (lookup str_discrete p s.rings)) [
    | inl e ↦ rw e ([], new_ring-Holds s.history_size v.positive)
    | inr (r, e) ↦ rw e (v.rings p r e)
  ]

  pub lookup-record_sample :
      (s : Sampler R) (p q : Str) (x : Sample R)
      → lookup str_discrete q (record_sample s p x).rings
        ≡ ite
            (str_discrete q p)
            (some (add (ring_or_new s.history_size (lookup str_discrete p s.rings)) x))
            (lookup str_discrete q s.rings)
  unfolding record_sample
  lookup-record_sample s p q x = lookup-insert str_discrete p q _ s.rings

  rings-record_sample :
      (s : Sampler R) (p : Str) (x : Sample R) (q : Str) (r : Ring (Sample R))
      → IsValid s
      → ite
          (str_discrete q p)
          (some (add (ring_or_new s.history_size (lookup str_discrete p s.rings)) x))
          (lookup str_discrete q s.rings)
        ≡ some r
      → (xs : List (Sample R)) × Holds r s.history_size xs
  rings-record_sample s p x q r v h = elim (str_discrete q p) [
    | yes e ↦
        let (xs, held) = ring_or_new-Holds s p v in
        (
          last s.history_size (xs ++ x ∷ []),
          subst (λ t. Holds t s.history_size (last s.history_size (xs ++ x ∷ []))) (ground arith)
              (add-Holds _ s.history_size xs x held),
        )
    | no ne ↦ v.rings q r (ground arith)
  ]

  record_sample-IsValid :
      (s : Sampler R) (p : Str) (x : Sample R) → IsValid s → IsValid (record_sample s p x)
  unfolding record_sample
  record_sample-IsValid s p x v = record {
    positive = v.positive;
    unique = insert-Unique str_discrete p _ s.rings v.unique;
    rings = λ q r h. rings-record_sample s p x q r v (sym (lookup-record_sample s p q x) ∙ h);
  }

  evict-IsValid :
      (live : Str → Bool) (now : Time) (s : Sampler R) → IsValid s → IsValid (evict live now s)
  evict-IsValid live now s v = record {
    positive = rw (evict-history_size live now s) v.positive;
    unique = evict-Unique live now s v.unique;
    rings = λ q r h.
        rw (evict-history_size live now s) (v.rings q r (evict-lookup live now q s r v.unique h));
  }

module _ {R : Type 0} ⦃fl : FloatOps R⦄ where
  after_read-IsValid :
      (fs : Reader R) (now : Time) (p : Str) (t : Read MemoryStats) (acc : List Str × Sampler R)
      → IsValid acc.1
      → IsValid (after_read fs now p t acc).1
  unfolding after_read
  after_read-IsValid fs now p (err e) acc v = v
  after_read-IsValid fs now p (ok st) (live, s) v =
      record_sample-IsValid s p (sample_at fs now p st) v

  pub collect_paths-IsValid :
      (fs : Reader R) (now : Time) (paths : List Str) (acc : List Str × Sampler R)
      → IsValid acc.1
      → IsValid (collect_paths fs now paths acc).1
  unfolding collect_paths
  collect_paths-IsValid fs now [] acc v = v
  collect_paths-IsValid fs now (p ∷ ps) acc v =
      collect_paths-IsValid fs now ps _ (after_read-IsValid fs now p (fs.read_memory_stats p) acc v)

  -- A pass that succeeds leaves a valid sampler valid, whatever hierarchy it reads and whatever
  -- reads of single cgroups fail.
  pub collect-IsValid :
      (fs : Reader R) (now : Time) (s s' : Sampler R)
      → IsValid s
      → collect fs now s ≡ ok s'
      → IsValid s'
  unfolding collect
  collect-IsValid fs now s s' v h = walk_case (fs.discover s.prefix) h
    where
      walk_case :
          (t : Read (List Str))
          → elim t [
            | err e ↦ err e
            | ok paths ↦
                let (live, z) = collect_paths fs now paths ([], s) in
                ok (evict (is_live live) now z)
          ]
            ≡ ok s'
          → IsValid s'
      walk_case (err e) k = cc
      walk_case (ok paths) k =
          let acc = collect_paths fs now paths ([], s) in
          let z = evict (is_live acc.0) now acc.1 in
          let same_state : z ≡ s' = cc in
          subst (λ y. IsValid y) same_state
            (evict-IsValid (is_live acc.0) now acc.1 (collect_paths-IsValid fs now paths ([], s) v))

  after_read-other :
      (fs : Reader R) (now : Time) (p q : Str) (t : Read MemoryStats) (acc : List Str × Sampler R)
      → q ≢ p
      → lookup str_discrete q (after_read fs now p t acc).1.rings
        ≡ lookup str_discrete q acc.1.rings
  unfolding after_read
  after_read-other fs now p q (err e) acc ne = refl
  after_read-other fs now p q (ok st) (live, s) ne =
      ground (arith, lookup-record_sample s p q (sample_at fs now p st))

  pub collect_paths-other :
      (fs : Reader R) (now : Time) (q : Str) (paths : List Str) (acc : List Str × Sampler R)
      → is_live paths q ≡ false
      → lookup str_discrete q (collect_paths fs now paths acc).1.rings
        ≡ lookup str_discrete q acc.1.rings
  unfolding collect_paths is_live
  collect_paths-other fs now q [] acc h = refl
  collect_paths-other fs now q (p ∷ ps) acc h =
      collect_paths-other fs now q ps _ (ground arith)
      ∙ after_read-other fs now p q (fs.read_memory_stats p) acc (ne_of_not_same q p (ground arith))

  after_read-live :
      (fs : Reader R) (now : Time) (p q : Str) (t : Read MemoryStats) (acc : List Str × Sampler R)
      → is_live acc.0 q ≡ true
      → is_live (after_read fs now p t acc).0 q ≡ true
  unfolding after_read is_live
  after_read-live fs now p q (err e) acc h = h
  after_read-live fs now p q (ok st) (live, s) h = ground arith

  pub collect_paths-live :
      (fs : Reader R) (now : Time) (q : Str) (paths : List Str) (acc : List Str × Sampler R)
      → is_live acc.0 q ≡ true
      → is_live (collect_paths fs now paths acc).0 q ≡ true
  unfolding collect_paths
  collect_paths-live fs now q [] acc h = h
  collect_paths-live fs now q (p ∷ ps) acc h =
      collect_paths-live fs now q ps _ (after_read-live fs now p q (fs.read_memory_stats p) acc h)

  pub collect_paths-append :
      (fs : Reader R) (now : Time) (xs ys : List Str) (acc : List Str × Sampler R)
      → collect_paths fs now (xs ++ ys) acc ≡ collect_paths fs now ys (collect_paths fs now xs acc)
  unfolding collect_paths
  collect_paths-append fs now [] ys acc = refl
  collect_paths-append fs now (x ∷ xs) ys acc = collect_paths-append fs now xs ys _

  pub collect_paths-history_size :
      (fs : Reader R) (now : Time) (paths : List Str) (acc : List Str × Sampler R)
      → (collect_paths fs now paths acc).1.history_size ≡ acc.1.history_size
  unfolding collect_paths after_read record_sample
  collect_paths-history_size fs now [] acc = refl
  collect_paths-history_size fs now (p ∷ ps) acc =
      collect_paths-history_size fs now ps _ ∙ kept (fs.read_memory_stats p) acc
    where
      kept :
          (t : Read MemoryStats) (a : List Str × Sampler R)
          → (after_read fs now p t a).1.history_size ≡ a.1.history_size
      kept (err e) a = refl
      kept (ok st) (live, s) = refl
