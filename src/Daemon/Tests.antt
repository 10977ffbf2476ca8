-- ===== src/Daemon/Tests.antt =====
-- One kill on a node, from the event to the stored report.
use k8s_pod_oom_oracle.Daemon.{ready}
use k8s_pod_oom_oracle.Base.{
  ℕ, pos, ◌≡◌, arith, max, refl, true, false, none, some, [], ◌∷◌, Str, codes,
}
use k8s_pod_oom_oracle.Float.Fixtures.{whole_numbers}
use k8s_pod_oom_oracle.Cgroup.Stats.{no_stats, v2}
use k8s_pod_oom_oracle.Cgroup.Reader.{ok, err, Reader, psi_unsupported}
use k8s_pod_oom_oracle.Detector.Event.{Source, KillEvent, no_victim}
use k8s_pod_oom_oracle.Sampler.Collect.{new_sampler}
use k8s_pod_oom_oracle.Correlate.Identity.{no_scope, Identity, of_scope}
use k8s_pod_oom_oracle.Store
use k8s_pod_oom_oracle.Store.{new_memory}
use k8s_pod_oom_oracle.Store.Invariant.{IsValid, new_memory-IsValid}
use k8s_pod_oom_oracle.Daemon.{Daemon, Formats, Handled, assemble, handle}
use k8s_pod_oom_oracle.Daemon.Build.{
  Said, sampled_peak, live_peak, assemble-peak, assemble-group_kill,
}
use k8s_pod_oom_oracle.Sampler.Collect.Passes.{new_sampler-IsValid}
use k8s_pod_oom_oracle.Daemon.Run.{Step, Steps, IsSound, counted, Steps-IsSound}
use k8s_pod_oom_oracle.Daemon.Handle.{Outcome, handle-Outcome}

abbrev web : Str
web = codes "/kubepods/podu1/abc"

abbrev node : Reader ℕ
node = record {
  version = v2;
  discover = λ prefix. ok (web ∷ []);
  read_memory_stats = λ path. ok (record no_stats { peak = 700 });
  read_psi = λ path. err psi_unsupported;
  procs_in = λ path. ok [];
  read_oom_group = λ path. ok true;
}

abbrev daemon : Daemon ℕ
daemon = record {
  sampler =
      new_sampler ℕ
        (record { prefix = []; interval = pos 0; history_size = pos 0; retention = pos 0 });
  store = new_memory ℕ (pos 2);
  cgroup = some node;
  pods = none;
  proc = none;
  include_nk = false;
  sequence = 0;
  processed = 0;
  skipped = 0;
  unattributed = 0;
  watching = true;
}

abbrev kill : KillEvent
kill = record {
  time = 9;
  cgroup_path = web;
  victim = record no_victim { rss_bytes = 500 };
  kill_count = 1;
  group_kill = none;
  source = Source.ebpf;
}

abbrev formats : Formats
formats = record { stamp = λ t. t ∷ []; decimal = λ n. n ∷ [] }

abbrev nameless : Identity
nameless = of_scope no_scope

assemble-peak_example :
    (assemble ⦃fl = whole_numbers⦄ daemon kill (codes "1") none nameless).peak_bytes
    ≡ max (max (sampled_peak {R = ℕ} none) (live_peak (some node) web)) 500
assemble-peak_example = assemble-peak ⦃fl = whole_numbers⦄ daemon kill (codes "1") none nameless

assemble-group_kill_example :
    Said kill.group_kill daemon.cgroup web
      (assemble ⦃fl = whole_numbers⦄ daemon kill (codes "1") none nameless).group_kill
assemble-group_kill_example =
    assemble-group_kill ⦃fl = whole_numbers⦄ daemon kill (codes "1") none nameless

-- The kill is taken from the channel.
abbrev taken :
    (h : Handled ℕ) × (handle ⦃fl = whole_numbers⦄ formats daemon kill ≡ Store.ok h)
    × IsValid h.daemon.store
    × Outcome ⦃fl = whole_numbers⦄ formats daemon kill h
taken = handle-Outcome ⦃fl = whole_numbers⦄ formats daemon kill (new_memory-IsValid ℕ (pos 2))

abbrev one_kill : Steps ⦃fl = whole_numbers⦄ formats daemon 1 taken.0.daemon
one_kill =
    Steps.and_then daemon daemon taken.0.daemon 0 1 (Steps.none_yet daemon)
      (Step.handled daemon kill taken.0 refl taken.1)

Steps-IsSound_example :
    IsSound ⦃fl = whole_numbers⦄ formats taken.0.daemon
    × (counted ⦃fl = whole_numbers⦄ formats taken.0.daemon ≡ 1)
Steps-IsSound_example =
    Steps-IsSound ⦃fl = whole_numbers⦄ formats daemon taken.0.daemon 1 one_kill
      (
        new_memory-IsValid ℕ (pos 2),
        new_sampler-IsValid
            (record { prefix = []; interval = pos 0; history_size = pos 0; retention = pos 0 }),
      )
      (omega arith)

ready-unattached : ready (record daemon { watching = false }) ≡ false
unfolding ready
ready-unattached = refl
