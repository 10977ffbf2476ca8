-- ===== src/Detector/Poller/Tests.antt =====
-- A kill in one cgroup, seen by a poller.
use k8s_pod_oom_oracle.Base.{
  ℕ, ℤ, pos, ◌≡◌, refl, none, some, true, List, [], ◌∷◌, Map, Str, codes, lookup, insert,
  str_discrete, same,
}
use k8s_pod_oom_oracle.Cgroup.Stats.{no_stats, v2, oom_kills}
use k8s_pod_oom_oracle.Cgroup.Reader.{ok, err, Reader, psi_unsupported}
use k8s_pod_oom_oracle.Procfs.Process.{Process}
use k8s_pod_oom_oracle.Detector.Event.{Source, KillEvent, victim_from_process}
use k8s_pod_oom_oracle.Detector.Poller.{
  Poller, goes_first, insert_by_weight, by_weight, vanished, first_victim, victim_among, victim_in,
  infer_victim, read_or_nil, read_group_kill, event_at, event_if_risen, detect_one, detect, prime,
  poll, new_poller,
}
use k8s_pod_oom_oracle.Detector.Poller.Victims.{AreGone, Inferred, infer_victim-Inferred}
use k8s_pod_oom_oracle.Detector.Poller.Events.{risen, detect-risen}
use k8s_pod_oom_oracle.Detector.Poller.Once.{poll-prime, poll-poll}

abbrev web : Str
web = codes "/kubepods/web"

abbrev shell : Process
shell = record {
  pid = pos 101;
  ns_pid = pos 1;
  ppid = pos 1;
  comm = codes "sh";
  cmdline = [];
  state = codes "S";
  rss_bytes = 4096;
  vm_size_bytes = 8192;
  cgroup_path = web;
  pid_namespace = 7;
}

abbrev hog : Process
hog = record shell { pid = pos 102; comm = codes "hog"; rss_bytes = 500000 }

-- One kill on the counter, and two of the processes are gone.
abbrev node : Reader ℕ
node = record {
  version = v2;
  discover = λ prefix. ok (web ∷ []);
  read_memory_stats = λ path.
      ok
        (record no_stats { events = record { low = 0; high = 0; max = 0; oom = 1; oom_kill = 1 } });
  read_psi = λ path. err psi_unsupported;
  procs_in = λ path. ok (pos 100 ∷ []);
  read_oom_group = λ path. ok true;
}

abbrev nothing_listed : List ℤ → List Process
nothing_listed pids = []

abbrev seen : Map ℤ Process
seen = (pos 101, shell) ∷ (pos 102, hog) ∷ []

abbrev watching : Poller
watching = record {
  proc = some nothing_listed;
  prefix = [];
  interval = pos 1;
  counters = (web, 0) ∷ [];
  snapshots = (web, seen) ∷ [];
}

detected :
    (detect node 9 (web ∷ []) ([], watching)).0
    ≡ record {
      time = 9;
      cgroup_path = web;
      victim = victim_from_process hog;
      kill_count = 1;
      group_kill = some true;
      source = Source.poller;
    }
      ∷ []
unfolding detect detect_one event_if_risen event_at infer_victim victim_in victim_among first_victim
    by_weight insert_by_weight goes_first vanished read_group_kill read_or_nil oom_kills lookup
    insert str_discrete same
detected = refl

infer_victim-Inferred_example :
    (gone : List Process) × AreGone (pos 100 ∷ []) seen gone
    × Inferred gone (infer_victim node watching web)
unfolding lookup str_discrete same
infer_victim-Inferred_example =
    infer_victim-Inferred node watching web nothing_listed seen (pos 100 ∷ []) refl refl refl

detect-risen_example :
    (detect node 9 (web ∷ []) ([], watching)).0 ≡ risen node 9 watching (web ∷ [])
detect-risen_example = detect-risen node 9 watching (web ∷ []) (refl, tt)

poll-prime_example :
    (p' p'' : Poller) × (prime node (new_poller none [] (pos 0)) ≡ ok p')
    × (poll node node 9 p' ≡ ok ([], p''))
poll-prime_example = poll-prime node node 9 (new_poller none [] (pos 0)) (web ∷ []) refl

poll-poll_example :
    (es : List KillEvent) × (p' p'' : Poller) × (poll node node 9 watching ≡ ok (es, p'))
    × (poll node node 10 p' ≡ ok ([], p''))
poll-poll_example = poll-poll node node node 9 10 watching (web ∷ []) refl
