-- ===== src/Tui/Dashboard/Tests.antt =====
-- A kill arrives while an older report is read.
use k8s_pod_oom_oracle.Base.{
  ◌≡◌, refl, inr, Option, none, some, List, [], ◌∷◌, Str, codes, pos, false, true, same,
}
use k8s_pod_oom_oracle.Clock.{Duration}
use k8s_pod_oom_oracle.Oom.Report.{Report}
use k8s_pod_oom_oracle.Oom.Fixtures.{report_named}
use k8s_pod_oom_oracle.Tui.Dashboard.{
  ViewportOps, Dashboard, Focus, Message, at_ℤ, current, apply_reports, update,
}
use k8s_pod_oom_oracle.Tui.Dashboard.Selection.{
  IsSelected, apply_reports-follows, update-IsSelected,
}

-- A viewport that keeps the content alone.
abbrev contents : ViewportOps Str
contents = record {
  new_viewport = λ w h. [];
  resized = λ w h v. v;
  set_content = λ s v. s;
  goto_top = λ v. v;
  scroll_down = λ v. v;
  scroll_up = λ v. v;
  half_page_down = λ v. v;
  half_page_up = λ v. v;
}

abbrev show : Report Unit → Str
show r = r.id

abbrev empty_detail : Option Str → Duration → Str
empty_detail e d = codes "none"

abbrev reading : Dashboard Unit Str
reading = record {
  interval = pos 2;
  reports = report_named (codes "a") ∷ [];
  error = none;
  last_fetch = none;
  selected = pos 0;
  focus = Focus.focus_list;
  detail = [];
  width = pos 80;
  height = pos 24;
  ready = true;
  quitting = false;
}

abbrev fetched : List (Report Unit)
fetched = report_named (codes "b") ∷ report_named (codes "a") ∷ []

reading-current : current reading ≡ some (report_named (codes "a"))
unfolding current at_ℤ
reading-current = refl

apply_reports-follows_example :
    (s : Report Unit) × (current (apply_reports contents show empty_detail 5 fetched reading)
      ≡ some s)
    × (s.id ≡ codes "a")
unfolding same
apply_reports-follows_example =
    apply_reports-follows contents show empty_detail 5 fetched reading (report_named (codes "a"))
      refl reading-current refl

update-IsSelected_example :
    IsSelected (update contents show empty_detail (Message.key_pressed (codes "G")) reading).0
update-IsSelected_example =
    update-IsSelected contents show empty_detail (Message.key_pressed (codes "G")) reading
      (inr (report_named (codes "a"), reading-current))
