-- ===== src/Oom/Fixtures.antt =====
-- A report for the tests of the parts that pass reports on.
use k8s_pod_oom_oracle.Base.{none, [], Str, pos, false}
use k8s_pod_oom_oracle.Correlate.Identity.{no_scope, of_scope}
use k8s_pod_oom_oracle.Detector.Event.{Source, no_victim}
use k8s_pod_oom_oracle.Oom.Report.{Report, VictimMatch}

abbrev pub report_named : Str → Report Unit
report_named id = record {
  id = id;
  time = 9;
  identity = of_scope no_scope;
  victim = no_victim;
  source = Source.poller;
  kill_count = 1;
  limit_bytes = 512;
  peak_bytes = 512;
  trajectory = [];
  processes = [];
  victim_match = VictimMatch.unset;
  group_kill = none;
  trend = record {
    bytes_per_second = tt;
    r_squared = tt;
    samples = 0;
    window = pos 0;
    time_to_limit = pos 0;
    projected = false;
  };
}
