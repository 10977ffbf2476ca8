-- ===== src/Tui/Row.antt =====
-- internal/tui/tui.go: `listRow` and `shorten`, one line of the list of reports.
pub mod Width
mod Tests
use k8s_pod_oom_oracle.Base.{
  ℕ, zero, suc, ◌+◌, ◌-◌, ◌/◌, leb, Bool, ◌||◌, min, max, [], ◌∷◌, ◌++◌, Str, codes, same,
  if◌then◌else◌,
}
use k8s_pod_oom_oracle.Clock.{Time}
use k8s_pod_oom_oracle.Oom.Report.{Report}
use k8s_pod_oom_oracle.Strings.ValidText.{
  rune_count, take_runes, rune_count-append, rune_count-take_runes,
}
use k8s_pod_oom_oracle.Render.Commands.{ellipsis}
use k8s_pod_oom_oracle.Render.Text.{pad_right}

-- `shorten`
pub shorten : Str → ℕ → Str
shorten text width =
    if leb width 1 || leb (rune_count text) width
    then text
    else take_runes (width - 1) text ++ ellipsis

-- The room that the time of eight runes and the two spaces leave.
pub remaining_width : ℕ → ℕ
remaining_width width = max (width - 10) 6

module _ {R : Type 0} where
  pub workload_name : Report R → Str
  workload_name r =
      let name =
        if same r.identity.pod_name [] then r.identity.scope.pod_uid else r.identity.pod_name in
      if same r.identity.container_name []
      then name
      else name ++ (codes "/" ++ r.identity.container_name)

  pub victim_name : Report R → Str
  victim_name r = if r.victim.known then r.victim.comm else codes "unknown"

  -- `listRow`; the clock is the format 15:04:05 in local time.
  pub list_row : (Time → Str) → Report R → ℕ → Str
  unfolding workload_name victim_name remaining_width shorten
  list_row clock r width =
      let remaining = remaining_width width in
      let victim_width = min 15 (remaining / 3) in
      let name_width = remaining - victim_width in
      clock r.time
      ++ (codes " "
          ++ (pad_right name_width (shorten (workload_name r) name_width)
              ++ (codes " " ++ pad_right victim_width (shorten (victim_name r) victim_width))))
