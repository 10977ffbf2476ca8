-- ===== src/Api/Server/Tests.antt =====
-- A report that is put and asked for.
use k8s_pod_oom_oracle.Base.{◌≡◌, refl, some, [], codes, pos}
use k8s_pod_oom_oracle.Oom.Fixtures.{report_named}
use k8s_pod_oom_oracle.Store.{ok, Memory, new_memory, put}
use k8s_pod_oom_oracle.Store.Invariant.{IsValid, new_memory-IsValid, put-IsValid}
use k8s_pod_oom_oracle.Api.Server.{Encoders, write_json, handle_get_event}
use k8s_pod_oom_oracle.Api.Server.Events.{handle_get_event-put}

-- A report is encoded as its ID.
abbrev encoders : Encoders Unit Unit
encoders = record {
  report_json = λ r. some r.id;
  reports_json = λ rs. some (codes "[]");
  status_json = λ s. some [];
  error_json = λ message. some message;
  quoted = λ text. text;
}

abbrev fresh : Memory Unit
fresh = new_memory Unit (pos 2)

fresh-IsValid : IsValid fresh
fresh-IsValid = new_memory-IsValid Unit (pos 2)

abbrev stored : (m : Memory Unit) × (put fresh (report_named (codes "a")) ≡ ok m) × IsValid m
stored = put-IsValid fresh (report_named (codes "a")) fresh-IsValid

handle_get_event-put_example :
    handle_get_event encoders stored.0 (codes "a") ≡ some (write_json 200 (codes "a"))
handle_get_event-put_example =
    handle_get_event-put encoders fresh stored.0 (report_named (codes "a")) (codes "a")
      fresh-IsValid stored.1 refl
