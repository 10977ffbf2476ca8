-- ===== src/Sampler/Collect/Tests.antt =====
-- The sampler on a hierarchy of one cgroup.
use k8s_pod_oom_oracle.Sampler.Collect.{
  latest_of, tracked, sorted, insert_sorted, trend_of, samples_for, analysed, read_slots,
}
use k8s_pod_oom_oracle.Base.{
  ℕ, pos, ◌≡◌, refl, false, none, some, List, [], ◌∷◌, ◌++◌, map, last, Str, codes, lookup, insert,
  delete, str_discrete, same, Unique,
}
use k8s_pod_oom_oracle.Clock.{time_sub}
use k8s_pod_oom_oracle.Float.Fixtures.{whole_numbers}
use k8s_pod_oom_oracle.Cgroup.Stats.{no_stats, v2}
use k8s_pod_oom_oracle.Cgroup.Reader.{ok, err, Reader, psi_unsupported, not_exist}
use k8s_pod_oom_oracle.Sampler.Sample.{Sample}
use k8s_pod_oom_oracle.Sampler.Ring.{Ring, new_ring, add, samples_of}
use k8s_pod_oom_oracle.Sampler.Collect.{
  Options, Sampler, new_sampler, is_live, evict, collect, collect_paths, after_read, record_sample,
  history, sample_at, psi_or_zero, zero_line, ring_or_new, evict_loop, evict_one,
}
use k8s_pod_oom_oracle.Sampler.Collect.Evict.{view}
use k8s_pod_oom_oracle.Sampler.Collect.Evict.Retention.{
  retained, evict_lem, evict_all, evict_all-keeps,
}
use k8s_pod_oom_oracle.Sampler.Collect.Passes.{IsValid, new_sampler-IsValid, collect-IsValid}
use k8s_pod_oom_oracle.Sampler.Collect.Growth.{history-collect}

abbrev web : Str
web = codes "/kubepods/web"

abbrev reading : Sample ℕ
reading = record {
  time = 4;
  stats = no_stats;
  psi = record {
    some_line = record { avg10 = 0; avg60 = 0; avg300 = 0; total = 0 };
    full_line = record { avg10 = 0; avg60 = 0; avg300 = 0; total = 0 };
  };
}

abbrev one_reading : Ring (Sample ℕ)
one_reading = record { samples = some reading ∷ none ∷ []; next = 1; filled = false }

-- A cgroup that was last seen before time 10.
abbrev missed : Sampler ℕ
missed = record {
  prefix = [];
  interval = pos 1;
  history_size = 2;
  retention = pos 30;
  rings = (web, one_reading) ∷ [];
  vanished_at = (web, 10) ∷ [];
}

missed-Unique : Unique str_discrete missed.rings
unfolding lookup
missed-Unique = (refl, tt)

evict_lem_example :
    view web (evict (is_live []) 40 missed)
    ≡ retained (pos 30) (is_live [] web) 40 (view web missed)
evict_lem_example = evict_lem (is_live []) 40 web missed missed-Unique

evict_all-keeps_example :
    lookup str_discrete web (evict_all ((is_live [], 20) ∷ (is_live [], 39) ∷ []) missed).rings
    ≡ some one_reading
unfolding lookup str_discrete same is_live time_sub
evict_all-keeps_example =
    evict_all-keeps web 10 one_reading ((is_live [], 20) ∷ (is_live [], 39) ∷ []) missed
      missed-Unique refl refl (refl, refl, (refl, refl, tt))

abbrev options : Options
options = record { prefix = []; interval = pos 0; history_size = pos 2; retention = pos 30 }

new_sampler-IsValid_example : IsValid (new_sampler ℕ options)
new_sampler-IsValid_example = new_sampler-IsValid options

-- Its statistics can be read, its pressure cannot.
abbrev node : Reader ℕ
node = record {
  version = v2;
  discover = λ prefix. ok (web ∷ []);
  read_memory_stats = λ path. ok no_stats;
  read_psi = λ path. err psi_unsupported;
  procs_in = λ path. ok [];
  read_oom_group = λ path. err not_exist;
}

abbrev sampled : Sampler ℕ
sampled = record (new_sampler ℕ options) { rings = (web, one_reading) ∷ [] }

collect-node : collect ⦃fl = whole_numbers⦄ node 4 (new_sampler ℕ options) ≡ ok sampled
unfolding add new_ring collect collect_paths after_read record_sample new_sampler sample_at
    psi_or_zero zero_line ring_or_new insert delete lookup evict evict_loop evict_one is_live
    str_discrete same
collect-node = refl

collect-IsValid_example : IsValid sampled
collect-IsValid_example =
    collect-IsValid ⦃fl = whole_numbers⦄ node 4 (new_sampler ℕ options) sampled
      (new_sampler-IsValid options) collect-node

history-collect_example :
    (s' : Sampler ℕ) × (old : List (Sample ℕ)) × (collect ⦃fl = whole_numbers⦄ node 4
        (new_sampler ℕ options)
      ≡ ok s')
    × (samples_of (ring_or_new 2 none) ≡ map some old)
    × (history s' web ≡ some (map some (last 2 (old ++ reading ∷ []))))
unfolding new_sampler sample_at psi_or_zero zero_line is_live lookup
history-collect_example =
    history-collect ⦃fl = whole_numbers⦄ node 4 web [] [] (new_sampler ℕ options) no_stats
      (new_sampler-IsValid options) refl refl refl refl

queries : (tracked missed ≡ web ∷ []) × (latest_of missed (codes "/other") ≡ none)
unfolding tracked sorted insert_sorted latest_of lookup str_discrete same
queries = (refl, refl)

trend-missed : trend_of ⦃fl = whole_numbers⦄ missed (codes "/other") ≡ none
unfolding trend_of analysed samples_for read_slots history lookup str_discrete same
trend-missed = refl
