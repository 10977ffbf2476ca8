-- ===== src/Cmd/Inspect/Tests.antt =====
-- A query for one pod of one namespace, and what is printed of no reports.
use k8s_pod_oom_oracle.Base.{◌≡◌, refl, arith, some, [], codes, same, trim_prefix, cut_prefix, pos}
use k8s_pod_oom_oracle.Api.Server.{limit_of, filter_of}
use k8s_pod_oom_oracle.Cmd.Inspect.{
  InspectConfig, pod_argument, query_of, get_param, printed, run_inspect,
}
use k8s_pod_oom_oracle.Cmd.Inspect.Query.{filter_of-query_of}

abbrev flags : InspectConfig
flags = record { namespace = codes "shop"; container = []; limit = pos 5; format = codes "text" }

argument : pod_argument (some (codes "pod/web")) ≡ codes "web"
unfolding pod_argument trim_prefix cut_prefix
argument = refl

nothing :
    run_inspect {R = Unit} (λ r. r.id) (λ rs. some []) flags (some [])
    ≡ some (codes "no OOM kills recorded\n")
unfolding run_inspect printed same
nothing = refl

filter_of-query_of_example :
    (limit_of (get_param (query_of flags (codes "web")) (codes "limit")) ≡ some (pos 5))
    × (filter_of (get_param (query_of flags (codes "web"))) (pos 5)
        ≡ record { namespace = codes "shop"; pod = codes "web"; container = []; limit = pos 5 })
filter_of-query_of_example = filter_of-query_of flags (codes "web") (omega arith)
