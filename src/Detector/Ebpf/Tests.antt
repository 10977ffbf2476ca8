-- ===== src/Detector/Ebpf/Tests.antt =====
-- A traced kill.
use k8s_pod_oom_oracle.Base.{
  ◌≡◌, refl, false, none, some, List, [], ◌∷◌, ◌++◌, codes, pos, negsuc, arith, lookup, ℕ_discrete,
  Str,
}
use k8s_pod_oom_oracle.Detector.Ebpf.Wire.{RawEvent, decode_event}
use k8s_pod_oom_oracle.Detector.Ebpf.Wire.RoundTrip.{
  FitsSigned, IsWire, encode, decode_event-encode,
}
use k8s_pod_oom_oracle.Detector.Ebpf.Index.{CgroupIndex, path_of_id}
use k8s_pod_oom_oracle.Detector.Ebpf.Index.Transparent.{AgreesWith, listed, path_of_id-listed}
use k8s_pod_oom_oracle.Detector.Ebpf.Enrich.{Round, resolve_cgroup, loop}
use k8s_pod_oom_oracle.Detector.Ebpf.Enrich.Attribution.{
  decoded, AreReported, loop-AreReported, resolve_cgroup-listed,
}

abbrev traced : RawEvent
traced = record {
  timestamp_ns = 5000;
  memcg_id = 40;
  task_cgroup_id = 41;
  anon_rss_pages = 100;
  file_rss_pages = 20;
  shmem_rss_pages = 1;
  total_vm_pages = 900;
  limit_pages = 128;
  badness_points = negsuc 4;
  pid = 4242;
  tid = 4243;
  ppid = 1;
  ns_pid = 7;
  oom_score_adj = negsuc 999;
  memcg_oom = 1;
  comm = codes "java" ++ 0 ∷ 0 ∷ 0 ∷ 0 ∷ 0 ∷ 0 ∷ 0 ∷ 0 ∷ 0 ∷ 0 ∷ 0 ∷ 0 ∷ [];
}

traced-IsWire : IsWire traced
unfolding FitsSigned
traced-IsWire = (
  omega arith,
  omega arith,
  omega arith,
  omega arith,
  omega arith,
  omega arith,
  omega arith,
  omega arith,
  (omega arith, omega arith),
  omega arith,
  omega arith,
  omega arith,
  omega arith,
  (omega arith, omega arith),
  omega arith,
  refl,
)

decode_event-encode_example : decode_event (encode traced 0) ≡ some traced
decode_event-encode_example = decode_event-encode traced 0 traced-IsWire

abbrev listing : CgroupIndex
listing = (40, codes "/pod") ∷ (41, codes "/pod/web") ∷ []

empty-AgreesWith : AgreesWith [] listing
unfolding lookup
empty-AgreesWith id path h = cc

path_of_id-listed_example :
    ((path_of_id (some listing) 41 []).0 ≡ listed 41 listing)
    × AgreesWith (path_of_id (some listing) 41 []).1 listing
path_of_id-listed_example = path_of_id-listed listing 41 [] empty-AgreesWith

resolve_cgroup-listed_example :
    (resolve_cgroup (record { for_task = some listing; for_memcg = some listing }) traced none []).0
    ≡ codes "/pod/web"
unfolding listed lookup ℕ_discrete
resolve_cgroup-listed_example = resolve_cgroup-listed listing traced none [] empty-AgreesWith

abbrev round : Str → Round Unit
round sample = record {
  sample = sample;
  detector = record { cgroup = none; procs = none; page_size = pos 4096; boot_time = 1000 };
  listings = record { for_task = some listing; for_memcg = none };
  cancelled = false;
}

-- A short sample, and the kill.
abbrev rounds : List (Round Unit)
rounds = round (codes "short") ∷ round (encode traced 0) ∷ []

loop-AreReported_example : AreReported (decoded rounds) (loop rounds [])
loop-AreReported_example = loop-AreReported rounds [] (refl, (refl, tt))
