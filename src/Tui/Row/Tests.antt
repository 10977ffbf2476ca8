-- ===== src/Tui/Row/Tests.antt =====
-- A row of forty runes.
use k8s_pod_oom_oracle.Base.{◌≡◌, refl, arith, Str, codes, ◌++◌}
use k8s_pod_oom_oracle.Clock.{Time}
use k8s_pod_oom_oracle.Oom.Fixtures.{report_named}
use k8s_pod_oom_oracle.Strings.ValidText.{rune_count, take_runes}
use k8s_pod_oom_oracle.Render.Commands.{ellipsis}
use k8s_pod_oom_oracle.Tui.Row.{shorten, list_row}
use k8s_pod_oom_oracle.Tui.Row.Width.{rune_count-list_row}

abbrev clock : Time → Str
clock _ = codes "12:30:05"

shortened : shorten (codes "shop/web") 5 ≡ codes "shop" ++ ellipsis
unfolding shorten take_runes rune_count
shortened = refl

clock_width : (t : Time) → rune_count (clock t) ≡ 8
unfolding rune_count
clock_width t = refl

rune_count-list_row_example : rune_count (list_row clock (report_named (codes "a")) 40) ≡ 40
rune_count-list_row_example =
    rune_count-list_row clock (report_named (codes "a")) 40 (omega arith) (clock_width 9)
