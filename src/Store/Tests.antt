-- ===== src/Store/Tests.antt =====
-- A store of two places that takes three reports.
use k8s_pod_oom_oracle.Store.{len}
use k8s_pod_oom_oracle.Base.{
  ℕ, pos, ◌≡◌, refl, arith, false, none, [], ◌∷◌, last, Str, codes, lookup, insert, str_discrete,
  same,
}
use k8s_pod_oom_oracle.Correlate.Identity.{no_scope, of_scope}
use k8s_pod_oom_oracle.Detector.Event.{no_victim, Source}
use k8s_pod_oom_oracle.Oom.Report.{Report, VictimMatch}
use k8s_pod_oom_oracle.Store.{ok, Filter, Memory, new_memory, make_room, append, put, get, put_all}
use k8s_pod_oom_oracle.Store.Index.{Distinct, find_index, shift}
use k8s_pod_oom_oracle.Store.Invariant.{IsValid, new_memory-IsValid, put-IsValid}
use k8s_pod_oom_oracle.Store.Queries.{get-put}
use k8s_pod_oom_oracle.Store.History.{put_all-last, put_all-new_memory}

abbrev report : Str → Report ℕ
report id = record {
  id = id;
  time = 0;
  identity = of_scope no_scope;
  victim = no_victim;
  source = Source.poller;
  kill_count = 1;
  limit_bytes = 0;
  peak_bytes = 0;
  trajectory = [];
  processes = [];
  victim_match = VictimMatch.unset;
  group_kill = none;
  trend = record {
    bytes_per_second = 0;
    r_squared = 0;
    samples = 0;
    window = pos 0;
    time_to_limit = pos 0;
    projected = false;
  };
}

abbrev one : Report ℕ
one = report (codes "t-1")

abbrev two : Report ℕ
two = report (codes "t-2")

abbrev three : Report ℕ
three = report (codes "t-3")

abbrev empty : Memory ℕ
empty = record { capacity = 2; ordered = []; by_id = [] }

abbrev holding : Memory ℕ
holding = record { capacity = 2; ordered = one ∷ []; by_id = (codes "t-1", 0) ∷ [] }

abbrev everything : Filter
everything = record { namespace = []; pod = []; container = []; limit = pos 1 }

empty-IsValid : IsValid empty
unfolding new_memory
empty-IsValid = new_memory-IsValid ℕ (pos 2)

put-empty : put empty one ≡ ok holding
unfolding put make_room append lookup insert
put-empty = refl

new_memory-IsValid_example : IsValid (new_memory ℕ (pos 0))
new_memory-IsValid_example = new_memory-IsValid ℕ (pos 0)

put-IsValid_example : (m' : Memory ℕ) × (put empty one ≡ ok m') × IsValid m'
put-IsValid_example = put-IsValid empty one empty-IsValid

get-put_example : get holding (codes "t-1") ≡ ok one
get-put_example = get-put empty holding one empty-IsValid put-empty

three_reports : Distinct (one ∷ two ∷ three ∷ [])
unfolding find_index shift str_discrete same
three_reports = (refl, (refl, (refl, tt)))

put_all-last_example :
    (m' : Memory ℕ) × (put_all empty (one ∷ two ∷ three ∷ []) ≡ ok m')
    × (m'.ordered ≡ last 2 (one ∷ two ∷ three ∷ []))
    × IsValid m'
put_all-last_example = put_all-last empty (one ∷ two ∷ three ∷ []) empty-IsValid three_reports

put_all-new_memory_example :
    (m : Memory ℕ) × (put_all (new_memory ℕ (pos 2)) (one ∷ two ∷ three ∷ []) ≡ ok m)
    × (m.ordered ≡ last 2 (one ∷ two ∷ three ∷ []))
    × IsValid m
put_all-new_memory_example =
    put_all-new_memory 2 (one ∷ two ∷ three ∷ []) three_reports (omega arith)

len-holding : len holding ≡ 1
unfolding len
len-holding = refl
