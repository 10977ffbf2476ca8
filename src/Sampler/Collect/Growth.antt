-- ===== src/Sampler/Collect/Growth.antt =====
-- What one pass of the sampler adds to the history of a cgroup that it can read.
use k8s_pod_oom_oracle.Base.{
  ◌≡◌, refl, ap, ap₂, ◌∙◌, true, false, some, List, [], ◌∷◌, ◌++◌, map, arith, lookup, Str,
  str_discrete,
}
use k8s_pod_oom_oracle.Base.{if_pos, last, same_refl}
use k8s_pod_oom_oracle.Float.{FloatOps}
use k8s_pod_oom_oracle.Clock.{Time}
use k8s_pod_oom_oracle.Cgroup.Stats.{MemoryStats}
use k8s_pod_oom_oracle.Cgroup.Reader.{ok, Reader}
use k8s_pod_oom_oracle.Sampler.Sample.{Sample}
use k8s_pod_oom_oracle.Sampler.Ring.{Ring, add, samples_of}
use k8s_pod_oom_oracle.Sampler.Ring.Refine.{add-Holds}
use k8s_pod_oom_oracle.Sampler.Collect.{
  Sampler, ring_or_new, record_sample, evict, is_live, sample_at, after_read, collect_paths,
  collect, history,
}
use k8s_pod_oom_oracle.Sampler.Collect.Evict.{evict-lookup_live}
use k8s_pod_oom_oracle.Sampler.Collect.Passes.{
  IsValid, ring_or_new-Holds, lookup-record_sample, collect_paths-IsValid, collect_paths-other,
  collect_paths-live, collect_paths-append, collect_paths-history_size,
}

is_live_head : (q : Str) (live : List Str) → is_live (q ∷ live) q ≡ true
unfolding is_live
is_live_head q live = ground (arith, same_refl q)

module _ {R : Type 0} ⦃fl : FloatOps R⦄ where
  -- The ring of a path that occurs once among the paths, after all of them.
  collect_paths-once :
      (fs : Reader R) (now : Time) (q : Str) (before after : List Str) (s : Sampler R)
      (st : MemoryStats)
      → is_live before q ≡ false
      → is_live after q ≡ false
      → fs.read_memory_stats q ≡ ok st
      → (lookup str_discrete q (collect_paths fs now (before ++ q ∷ after) ([], s)).1.rings
          ≡ some (
              add
                (ring_or_new s.history_size (lookup str_discrete q s.rings))
                (sample_at fs now q st)))
        × (is_live (collect_paths fs now (before ++ q ∷ after) ([], s)).0 q ≡ true)
  unfolding collect_paths after_read
  collect_paths-once fs now q before after s st hb ha hr =
      let mid = collect_paths fs now before ([], s) in
      let z = record_sample mid.1 q (sample_at fs now q st) in
      let step =
        collect_paths-append fs now before (q ∷ after) ([], s)
        ∙ ap (λ t. collect_paths fs now after (after_read fs now q t mid)) hr in
      rw step (
        collect_paths-other fs now q after (q ∷ mid.0, z) ha
            ∙ lookup-record_sample mid.1 q q (sample_at fs now q st)
            ∙ if_pos (str_discrete q q) refl _ _
            ∙ ap₂ (λ n t. some (add (ring_or_new n t) (sample_at fs now q st)))
                (collect_paths-history_size fs now before ([], s))
                (collect_paths-other fs now q before ([], s) hb),
        collect_paths-live fs now q after (q ∷ mid.0, z) (is_live_head q mid.0),
      )

  history_of :
      (s : Sampler R) (q : Str) (r : Ring (Sample R))
      → lookup str_discrete q s.rings ≡ some r
      → history s q ≡ some (samples_of r)
  unfolding history
  history_of s q r h = ground arith

  -- On a valid sampler, when the walk finds a cgroup once and its statistics can be read, the pass
  -- succeeds and appends one sample, with these statistics and the time of the pass, to what was
  -- buffered for it; only the newest samples up to the history size stay.
  pub history-collect :
      (fs : Reader R) (now : Time) (q : Str) (before after : List Str) (s : Sampler R)
      (st : MemoryStats)
      → IsValid s
      → fs.discover s.prefix ≡ ok (before ++ q ∷ after)
      → is_live before q ≡ false
      → is_live after q ≡ false
      → fs.read_memory_stats q ≡ ok st
      → (s' : Sampler R) × (old : List (Sample R)) × (collect fs now s ≡ ok s')
        × (samples_of (ring_or_new s.history_size (lookup str_discrete q s.rings)) ≡ map some old)
        × (history s' q ≡ some (map some (last s.history_size (old ++ sample_at fs now q st ∷ []))))
  unfolding collect
  history-collect fs now q before after s st v hd hb ha hr =
      let acc = collect_paths fs now (before ++ q ∷ after) ([], s) in
      let once = collect_paths-once fs now q before after s st hb ha hr in
      let (old, held) = ring_or_new-Holds s q v in
      let grown = add-Holds _ s.history_size old (sample_at fs now q st) held in
      let valid = collect_paths-IsValid fs now (before ++ q ∷ after) ([], s) v in
      (
        evict (is_live acc.0) now acc.1,
        old,
        rw (hd, collect),
        held.content,
        history_of _ q _
              (evict-lookup_live (is_live acc.0) now q acc.1 _ valid.unique once.1 once.0)
            ∙ ap some grown.content,
      )
