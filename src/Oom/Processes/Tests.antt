-- ===== src/Oom/Processes/Tests.antt =====
-- A listing of a container on a node that numbers processes differently from the kernel.
use k8s_pod_oom_oracle.Base.{pos, ◌≡◌, refl, true, false, [], ◌∷◌, codes}
use k8s_pod_oom_oracle.Procfs.Process.{Process}
use k8s_pod_oom_oracle.Detector.Event.{Victim}
use k8s_pod_oom_oracle.Oom.Report.{VictimMatch}
use k8s_pod_oom_oracle.Oom.Processes.{
  snapshot_of, victim_match, count_ns_pid, ns_pid_is_unambiguous, is_match, keep, drop_victim,
  processes_from,
}
use k8s_pod_oom_oracle.Oom.Processes.Removal.{Removed, processes_from-Removed}

abbrev shell : Process
shell = record {
  pid = pos 10001;
  ns_pid = pos 1;
  ppid = pos 1;
  comm = codes "sh";
  cmdline = [];
  state = codes "S";
  rss_bytes = 4096;
  vm_size_bytes = 8192;
  cgroup_path = codes "/pod";
  pid_namespace = 7;
}

abbrev hog : Process
hog = record shell { pid = pos 10002; ns_pid = pos 12; comm = codes "hog"; rss_bytes = 500000 }

-- The kernel's number of the process is another one.
abbrev killed : Victim
killed = record {
  pid = pos 1397320;
  ns_pid = pos 12;
  comm = codes "hog";
  cmdline = [];
  rss_bytes = 500000;
  inferred = false;
  known = true;
}

-- A victim that is not in the listing.
abbrev elsewhere : Victim
elsewhere = record killed { ns_pid = pos 0 }

listing : processes_from (shell ∷ hog ∷ []) killed ≡ (snapshot_of shell ∷ [], VictimMatch.ns_pid)
unfolding processes_from drop_victim keep victim_match is_match ns_pid_is_unambiguous count_ns_pid
    snapshot_of
listing = refl

listing_unmatched : (processes_from (shell ∷ hog ∷ []) elsewhere).1 ≡ VictimMatch.none_matched
unfolding processes_from drop_victim keep victim_match is_match ns_pid_is_unambiguous count_ns_pid
    snapshot_of
listing_unmatched = refl

processes_from-Removed_example :
    Removed killed (shell ∷ hog ∷ []) (shell ∷ hog ∷ []) (processes_from (shell ∷ hog ∷ []) killed)
processes_from-Removed_example = processes_from-Removed (shell ∷ hog ∷ []) killed
