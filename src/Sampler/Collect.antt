-- ===== src/Sampler/Collect.antt =====
-- internal/sampler/sampler.go: `Sampler`. The mutex is not modelled: `record`, `evict` and the
-- queries each hold it throughout, and only the sampling loop writes. Log lines are left out.
pub mod Evict
pub mod Passes
pub mod Growth
mod Tests
use k8s_pod_oom_oracle.Base.{
  ℕ, zero, suc, Bool, true, false, Option, none, some, List, [], ◌∷◌, Map, lookup, insert, delete,
  Str, same, str_discrete, ℤ, pos, leb_ℤ, pos_part, any, if◌then◌else◌, keys, map, ◌==◌, ltb,
}
use k8s_pod_oom_oracle.Float.{FloatOps}
use k8s_pod_oom_oracle.Clock.{Time, Duration, second, time_sub}
use k8s_pod_oom_oracle.Cgroup.Stats.{PsiLine, Psi, MemoryStats, no_stats}
use k8s_pod_oom_oracle.Cgroup.Reader.{Read, ok, err, Reader}
use k8s_pod_oom_oracle.Sampler.Sample.{Sample, Trend}
use k8s_pod_oom_oracle.Sampler.Trend.{analyse}
use k8s_pod_oom_oracle.Sampler.Ring.{Ring, new_ring, add, samples_of, latest}

abbrev pub default_interval : Duration
default_interval = pos second

abbrev pub default_history_size : ℕ
default_history_size = 60

abbrev pub default_retention : Duration
default_retention = pos 30000000000

-- The options that have a default; zero or less asks for it.
pub record Options : Type 0 where
  pub prefix : Str
  pub interval : Duration
  pub history_size : ℤ
  pub retention : Duration

module _ (R : Type 0) where
  pub record Sampler : Type 0 where
    pub prefix : Str
    pub interval : Duration
    pub history_size : ℕ
    pub retention : Duration
    pub rings : Map Str (Ring (Sample R))
    pub vanished_at : Map Str Time

  pub new_sampler : Options → Sampler
  new_sampler o = record {
    prefix = o.prefix;
    interval = if leb_ℤ o.interval (pos 0) then default_interval else o.interval;
    history_size =
        if leb_ℤ o.history_size (pos 0) then default_history_size else pos_part o.history_size;
    retention = if leb_ℤ o.retention (pos 0) then default_retention else o.retention;
    rings = [];
    vanished_at = [];
  }

-- The order of strings, and slices.Sorted.
not_after : Str → Str → Bool
not_after [] b = true
not_after (x ∷ a) [] = false
not_after (x ∷ a) (y ∷ b) = if x == y then not_after a b else ltb x y

insert_sorted : Str → List Str → List Str
unfolding not_after
insert_sorted a [] = a ∷ []
insert_sorted a (b ∷ bs) =
    let rest = insert_sorted a bs in if not_after a b then a ∷ b ∷ bs else b ∷ rest

sorted : List Str → List Str
unfolding insert_sorted
sorted [] = []
sorted (a ∷ rest) = insert_sorted a (sorted rest)

module _ {R : Type 0} where
  pub ring_or_new : ℕ → Option (Ring (Sample R)) → Ring (Sample R)
  ring_or_new size none = new_ring (Sample R) size
  ring_or_new size (some r) = r

  -- `record`
  pub record_sample : Sampler R → Str → Sample R → Sampler R
  unfolding ring_or_new
  record_sample s path x = record s {
    rings =
        insert str_discrete path
          (add (ring_or_new s.history_size (lookup str_discrete path s.rings)) x) s.rings;
  }

  -- What `evict` does to a path that the pass missed.
  evict_missing : Sampler R → Time → Str → Option Time → Sampler R
  evict_missing s now path none = record s {
    vanished_at = insert str_discrete path now s.vanished_at;
  }
  evict_missing s now path (some first_missed) =
      if leb_ℤ s.retention (time_sub now first_missed)
      then record s {
        rings = delete str_discrete path s.rings;
        vanished_at = delete str_discrete path s.vanished_at;
      }
      else s

  -- One round of the loop of `evict`.
  pub evict_one : (Str → Bool) → Time → Str → Sampler R → Sampler R
  unfolding evict_missing
  evict_one live now path s =
      if live path
      then record s { vanished_at = delete str_discrete path s.vanished_at }
      else evict_missing s now path (lookup str_discrete path s.vanished_at)

  pub evict_loop : (Str → Bool) → Time → Map Str (Ring (Sample R)) → Sampler R → Sampler R
  evict_loop live now [] s = s
  evict_loop live now ((path, ring) ∷ rest) s = evict_loop live now rest (evict_one live now path s)

  pub evict : (Str → Bool) → Time → Sampler R → Sampler R
  evict live now s = evict_loop live now s.rings s

  -- `History`
  pub history : Sampler R → Str → Option (List (Option (Sample R)))
  history s path = elim (lookup str_discrete path s.rings) [
    | none ↦ none
    | some r ↦ some (samples_of r)
  ]

  -- `Latest`; the outer `none` is the untracked cgroup and the empty ring.
  pub latest_of : Sampler R → Str → Option (Option (Sample R))
  latest_of s path = elim (lookup str_discrete path s.rings) [ none ↦ none | some r ↦ latest r ]

  -- `Tracked`, sorted.
  pub tracked : Sampler R → List Str
  unfolding sorted
  tracked s = sorted (keys s.rings)

-- Whether a path is among those that a pass has read.
pub is_live : List Str → Str → Bool
is_live paths p = any (same p) paths

module _ {R : Type 0} ⦃fl : FloatOps R⦄ where
  zero_line : PsiLine R
  zero_line = record {
    avg10 = fl.zero_float;
    avg60 = fl.zero_float;
    avg300 = fl.zero_float;
    total = 0;
  }

  -- `ReadPSI` returns the zero value beside an error, and the sample keeps it.
  psi_or_zero : Read (Psi R) → Psi R
  unfolding zero_line
  psi_or_zero (ok p) = p
  psi_or_zero (err e) = record { some_line = zero_line; full_line = zero_line }

  -- A slot that was never written reads as the zero value.
  or_zero : Option (Sample R) → Sample R
  unfolding zero_line
  or_zero (some x) = x
  or_zero none = record {
    time = 0;
    stats = no_stats;
    psi = record { some_line = zero_line; full_line = zero_line };
  }

  read_slots : Option (List (Option (Sample R))) → Option (List (Sample R))
  unfolding or_zero
  read_slots none = none
  read_slots (some slots) = some (map or_zero slots)

  -- What the callers of `History` get.
  pub samples_for : Sampler R → Str → Option (List (Sample R))
  unfolding history read_slots
  samples_for s path = read_slots (history s path)

  analysed : Option (List (Sample R)) → Option (Trend R)
  analysed none = none
  analysed (some ss) = some (analyse ss)

  -- `Trend`
  pub trend_of : Sampler R → Str → Option (Trend R)
  unfolding samples_for analysed
  trend_of s path = analysed (samples_for s path)

  pub sample_at : Reader R → Time → Str → MemoryStats → Sample R
  unfolding psi_or_zero
  sample_at fs now path stats = record {
    time = now;
    stats = stats;
    psi = psi_or_zero (fs.read_psi path);
  }

  -- One round of the loop of `Collect`, on the paths that could be read and the state. A failed
  -- read skips the cgroup.
  pub after_read :
      Reader R → Time → Str → Read MemoryStats → List Str × Sampler R → List Str × Sampler R
  after_read fs now path (err e) acc = acc
  after_read fs now path (ok stats) (live, s) =
      (path ∷ live, record_sample s path (sample_at fs now path stats))

  pub collect_paths : Reader R → Time → List Str → List Str × Sampler R → List Str × Sampler R
  unfolding after_read
  collect_paths fs now [] acc = acc
  collect_paths fs now (path ∷ paths) acc =
      collect_paths fs now paths (after_read fs now path (fs.read_memory_stats path) acc)

  -- `Collect`: a failed walk is an error and leaves the state as it was.
  pub collect : Reader R → Time → Sampler R → Read (Sampler R)
  unfolding is_live
  collect fs now s = elim (fs.discover s.prefix) [
    | err e ↦ err e
    | ok paths ↦
        let (live, s') = collect_paths fs now paths ([], s) in ok (evict (is_live live) now s')
  ]
