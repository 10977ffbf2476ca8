-- ===== src/Tui/Row/Width.antt =====
-- A row fits its line exactly, so that no row wraps.
use k8s_pod_oom_oracle.Base.{
  ℕ, zero, suc, ◌+◌, ◌-◌, ◌/◌, ◌≤◌, ◌<◌, ◌≡◌, refl, ◌∙◌, inl, inr, leb, ◌||◌, min, ◌++◌, Str, codes,
  replicate, arith, Bool-cases,
}
use k8s_pod_oom_oracle.Clock.{Time}
use k8s_pod_oom_oracle.Oom.Report.{Report}
use k8s_pod_oom_oracle.Strings.ValidText.{
  rune_count, take_runes, rune_count-append, rune_count-take_runes,
}
use k8s_pod_oom_oracle.Render.Commands.{ellipsis}
use k8s_pod_oom_oracle.Render.Text.{pad_right}
use k8s_pod_oom_oracle.Tui.Row.{shorten, workload_name, victim_name, remaining_width, list_row}

blanks : (n : ℕ) → rune_count (replicate n b' ') ≡ n
unfolding rune_count
blanks zero = refl
blanks (suc n) = ground (arith, blanks n)

shorten-fits : (s : Str) (w : ℕ) → 1 < w → rune_count (shorten s w) ≤ w
unfolding shorten rune_count
shorten-fits s w h = elim (Bool-cases (leb w 1 || leb (rune_count s) w)) [
  | inl e ↦ rw e (ground arith)
  | inr e ↦
      rw e
        (cut (rune_count-append (take_runes (w - 1) s) ellipsis) (rune_count-take_runes (w - 1) s))
]
  where
    cut : {n m : ℕ} → n ≡ m + 1 → m ≤ w - 1 → n ≤ w
    cut e k = omega arith

padded : (s : Str) (w : ℕ) → 1 < w → rune_count (pad_right w (shorten s w)) ≡ w
unfolding pad_right
padded s w h =
    let fits = shorten-fits s w h in
    rune_count-append (shorten s w) (replicate (w - rune_count (shorten s w)) b' ')
    ∙ rw (blanks (w - rune_count (shorten s w))) (omega arith)

space_count : rune_count (codes " ") ≡ 1
unfolding rune_count
space_count = refl

columns :
    (a x y : Str) {n v w : ℕ}
    → rune_count a ≡ 8
    → rune_count x ≡ n
    → rune_count y ≡ v
    → 10 + n + v ≡ w
    → rune_count (a ++ (codes " " ++ (x ++ (codes " " ++ y)))) ≡ w
columns a x y ha hx hy e =
    rw
      (
        rune_count-append a (codes " " ++ (x ++ (codes " " ++ y))),
        rune_count-append (codes " ") (x ++ (codes " " ++ y)),
        rune_count-append x (codes " " ++ y),
        rune_count-append (codes " ") y,
        space_count,
        ha,
        hx,
        hy,
      )
      (omega arith)

victim-width : (w : ℕ) → 16 ≤ w → 1 < min 15 (remaining_width w / 3)
unfolding remaining_width
victim-width w h = omega arith

widths :
    (w : ℕ)
    → 16 ≤ w
    → 10 + (remaining_width w - min 15 (remaining_width w / 3)) + min 15 (remaining_width w / 3) ≡ w
unfolding remaining_width
widths w h = omega arith

name-width : (w : ℕ) → 16 ≤ w → 1 < remaining_width w - min 15 (remaining_width w / 3)
unfolding remaining_width
name-width w h = omega arith

-- A row of the list has exactly as many runes as the line has room for, where that is at least sixteen
-- and the clock takes eight, whatever the names of the pod, the container and the victim.
pub rune_count-list_row :
    {R : Type 0} (clock : Time → Str) (r : Report R) (width : ℕ)
    → 16 ≤ width
    → rune_count (clock r.time) ≡ 8
    → rune_count (list_row clock r width) ≡ width
unfolding list_row
rune_count-list_row clock r width h k =
    columns (clock r.time) _ _ k (padded (workload_name r) _ (name-width width h))
      (padded (victim_name r) _ (victim-width width h)) (widths width h)
