-- ===== src/Cmd/Inspect.antt =====
-- internal/cmd/inspect.go: the query that `inspect` sends, and what it prints. Package net/url carries the
-- parameters as they are; the text of a report and its JSON are arguments.
pub mod Query
mod Tests
use k8s_pod_oom_oracle.Base.{
  ℕ, zero, suc, ℤ, pos, negsuc, Bool, true, false, ◌||◌, Option, none, some, List, [], ◌∷◌, ◌++◌,
  Map, lookup, insert, Str, codes, same, str_discrete, trim_prefix, if◌then◌else◌,
}
use k8s_pod_oom_oracle.Strings.Numbers.{decimal}
use k8s_pod_oom_oracle.Oom.Report.{Report}

pub record InspectConfig : Type 0 where
  pub namespace : Str
  pub container : Str
  pub limit : ℤ
  pub format : Str

-- The pod argument of the command; the empty string where there is none.
pod_argument : Option Str → Str
pod_argument none = []
pod_argument (some arg) = trim_prefix arg (codes "pod/")

-- `setIfNotEmpty`, on url.Values.
pub set_if_not_empty : Str → Str → Map Str Str → Map Str Str
set_if_not_empty key value query =
    if same value [] then query else insert str_discrete key value query

pub with_limit : ℤ → Map Str Str → Map Str Str
with_limit (pos (suc n)) query = insert str_discrete (codes "limit") (decimal (suc n)) query
with_limit _ query = query

-- The query of `fetchReports`, for an address of the daemon that has none of its own.
pub query_of : InspectConfig → Str → Map Str Str
unfolding set_if_not_empty with_limit
query_of cfg pod = with_limit cfg.limit (
    set_if_not_empty (codes "container") cfg.container
      (set_if_not_empty (codes "namespace") cfg.namespace (set_if_not_empty (codes "pod") pod [])))

-- query.Get of package net/url.
or_empty_value : Option Str → Str
or_empty_value none = []
or_empty_value (some value) = value

pub get_param : Map Str Str → Str → Str
unfolding or_empty_value
get_param query key = or_empty_value (lookup str_discrete key query)

repeated : ℕ → Str → Str
repeated zero s = []
repeated (suc n) s = s ++ repeated n s

-- The rule between two reports, in UTF-8.
rule : Str
unfolding repeated
rule = codes "\n" ++ (repeated 72 (226 ∷ 148 ∷ 128 ∷ []) ++ codes "\n\n")

module _ {R : Type 0} (text : Report R → Str) (json : List (Report R) → Option Str) where
  -- The loop over the reports.
  reports_text : List (Report R) → Str
  unfolding rule
  reports_text [] = []
  reports_text (r ∷ []) = text r
  reports_text (r ∷ q ∷ rs) = text r ++ (rule ++ reports_text (q ∷ rs))

  printed : List (Report R) → Str
  unfolding reports_text
  printed [] = codes "no OOM kills recorded\n"
  printed (r ∷ rs) = reports_text (r ∷ rs)

  -- `runInspect`, on what `fetchReports` gives; `none` is an error.
  pub run_inspect : InspectConfig → Option (List (Report R)) → Option Str
  unfolding printed
  run_inspect cfg fetched =
      if same cfg.format (codes "text") || same cfg.format (codes "json")
      then elim fetched [
        | none ↦ none
        | some reports ↦
            if same cfg.format (codes "json") then json reports else some (printed reports)
      ]
      else none
