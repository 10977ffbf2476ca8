-- ===== src/Tui/Dashboard.antt =====
-- internal/tui/tui.go: `Model` and what messages and keys make of it. The viewport of package bubbles is
-- a type of the model with the operations that the code calls; what the commands of package bubbletea
-- do is outside the model, which says which are returned.
pub mod Selection
mod Tests
use k8s_pod_oom_oracle.Base.{
  ℕ, zero, suc, ◌+◌, ◌-◌, ◌*◌, ◌==◌, leb, ltb, ℤ, pos, negsuc, leb_ℤ, ltb_ℤ, Bool, true, false,
  ◌||◌, ◌&&◌, not, Option, none, some, List, [], ◌∷◌, ◌++◌, Str, codes, same, length, get_elem?,
  if◌then◌else◌, any, max, min,
}
use k8s_pod_oom_oracle.Clock.{Time, Duration, second}
use k8s_pod_oom_oracle.Oom.Report.{Report}

-- The widths of the layout.
abbrev pub report_width : ℕ
report_width = 108

abbrev pub list_width : ℕ
list_width = 48

abbrev pub pane_chrome : ℕ
pane_chrome = 4

abbrev pub split_width : ℕ
split_width = list_width + pane_chrome + report_width + pane_chrome

abbrev pub chrome_height : ℕ
chrome_height = 8

pub data Focus : Type 0 where
  focus_list focus_detail : Focus

-- package viewport.
pub record ViewportOps (V : Type 0) : Type 0 where
  pub new_viewport : ℕ → ℕ → V
  pub resized : ℕ → ℕ → V → V
  pub set_content : Str → V → V
  pub goto_top : V → V
  pub scroll_down : V → V
  pub scroll_up : V → V
  pub half_page_down : V → V
  pub half_page_up : V → V

-- The state of the dashboard. A fetch's error is its text.
pub record Dashboard (R V : Type 0) : Type 0 where
  pub interval : Duration
  pub reports : List (Report R)
  pub error : Option Str
  pub last_fetch : Option Time
  pub selected : ℤ
  pub focus : Focus
  pub detail : V
  pub width : ℤ
  pub height : ℤ
  pub ready : Bool
  pub quitting : Bool

-- What bubbletea is asked to do next.
pub data Command : Type 0 where
  no_command fetch tick fetch_and_tick quit : Command

-- The messages that `Update` tells apart; a fetch brings reports or an error.
pub data Message (R : Type 0) : Type 0 where
  window_size : ℤ → ℤ → Message R
  ticked : Message R
  fetched : Time → List (Report R) → Message R
  fetch_failed : Time → Str → Message R
  key_pressed : Str → Message R
  other_message : Message R

-- max and min on int, where one side is a constant.
at_least : ℕ → ℤ → ℕ
at_least n (pos m) = max n m
at_least n (negsuc m) = n

-- An int less a constant.
less : ℤ → ℕ → ℤ
less (pos m) n = if leb n m then pos (m - n) else negsuc (n - m - 1)
less (negsuc m) n = negsuc (m + n)

plus_one : ℤ → ℤ
plus_one (pos n) = pos (n + 1)
plus_one (negsuc zero) = pos 0
plus_one (negsuc (suc n)) = negsuc n

-- The item at an index of a slice, or `none` where it is out of range.
pub at_ℤ : {A : Type 0} → List A → ℤ → Option A
at_ℤ xs (pos n) = get_elem? xs n
at_ℤ xs (negsuc n) = none

-- The index within the list.
pub clamped : ℤ → ℕ → ℤ
clamped (pos n) last = pos (min n last)
clamped (negsuc n) last = pos 0

pub other_focus : Focus → Focus
other_focus focus_list = focus_detail
other_focus focus_detail = focus_list

-- The cases of the switch on a key.
pub data Action : Type 0 where
  leave refresh switch_pane next previous first last page_down page_up nothing : Action

is_any : List Str → Str → Bool
is_any names key = any (λ name. same key name) names

pub action_of : Str → Action
unfolding is_any
action_of key =
    if is_any (codes "q" ∷ codes "esc" ∷ codes "ctrl+c" ∷ []) key
    then Action.leave
    else if is_any (codes "r" ∷ []) key
    then Action.refresh
    else if is_any (codes "tab" ∷ []) key
    then Action.switch_pane
    else if is_any (codes "j" ∷ codes "down" ∷ []) key
    then Action.next
    else if is_any (codes "k" ∷ codes "up" ∷ []) key
    then Action.previous
    else if is_any (codes "g" ∷ codes "home" ∷ []) key
    then Action.first
    else if is_any (codes "G" ∷ codes "end" ∷ []) key
    then Action.last
    else if is_any (codes "pgdown" ∷ codes " " ∷ []) key
    then Action.page_down
    else if is_any (codes "pgup" ∷ []) key
    then Action.page_up
    else Action.nothing

module _ {R : Type 0} where
  -- The loop that looks for the report that was selected, from index `i` on.
  pub index_of : Str → ℕ → List (Report R) → ℤ
  index_of id i [] = pos 0
  index_of id i (r ∷ rs) =
      let later = index_of id (suc i) rs in if same r.id id then pos i else later

  pub selected_id : Option (Report R) → Str
  selected_id none = []
  selected_id (some r) = r.id

module _ {R V : Type 0} where
  -- `New`: an interval that is not positive is two seconds.
  pub new_dashboard : Duration → V → Dashboard R V
  new_dashboard interval blank = record {
    interval = if leb_ℤ interval (pos 0) then pos (2 * second) else interval;
    reports = [];
    error = none;
    last_fetch = none;
    selected = pos 0;
    focus = focus_list;
    detail = blank;
    width = pos 0;
    height = pos 0;
    ready = false;
    quitting = false;
  }

  -- `current`
  pub current : Dashboard R V → Option (Report R)
  unfolding at_ℤ
  current m = at_ℤ m.reports m.selected

  -- `split`
  pub split_layout : Dashboard R V → Bool
  split_layout m = leb_ℤ (pos split_width) m.width

  -- `detailSize`
  pub detail_size : Dashboard R V → ℕ × ℕ
  unfolding split_layout at_least less
  detail_size m =
      let height = at_least 3 (less m.height chrome_height) in
      if split_layout m
      then (at_least 20 (less m.width (list_width + 2 * pane_chrome)), height)
      else (at_least 20 (less m.width pane_chrome), height)

  -- `listInnerWidth`
  pub list_inner_width : Dashboard R V → ℕ
  unfolding split_layout at_least less
  list_inner_width m =
      let width = if split_layout m then pos list_width else less m.width 2 in
      at_least 20 (less width pane_chrome)

-- `show` is the text of a report, and `empty_detail` what stands in its place.
module _ {R V : Type 0} (ops : ViewportOps V) (show : Report R → Str)
    (empty_detail : Option Str → Duration → Str) where
  pub shown : Dashboard R V → Option (Report R) → V
  shown m none = ops.set_content (empty_detail m.error m.interval) m.detail
  shown m (some report) = ops.goto_top (ops.set_content (show report) m.detail)

  -- `refreshDetail`
  pub refresh_detail : Dashboard R V → Dashboard R V
  unfolding shown
  refresh_detail m = record m { detail = shown m (current m) }

  -- `resize`
  pub resize : Dashboard R V → Dashboard R V
  unfolding detail_size
  resize m =
      let (width, height) = detail_size m in
      refresh_detail (record m {
        detail =
            if m.ready then ops.resized width height m.detail else ops.new_viewport width height;
      })

  -- `applySnapshot` of a fetch that succeeded, and of one that failed.
  pub apply_reports : Time → List (Report R) → Dashboard R V → Dashboard R V
  unfolding selected_id
  apply_reports at reports m =
      let id = selected_id (current m) in
      refresh_detail (record m {
        last_fetch = some at;
        error = none;
        reports = reports;
        selected = if same id [] then pos 0 else index_of id 0 reports;
      })

  pub apply_failure : Time → Str → Dashboard R V → Dashboard R V
  apply_failure at error m = record m { last_fetch = some at; error = some error }

  -- `moveTo`
  pub move_to : ℤ → Dashboard R V → Dashboard R V
  unfolding clamped
  move_to index m = elim m.reports [
    | [] ↦ m
    | r ∷ rs ↦ refresh_detail (record m { selected = clamped index (length rs) })
  ]

  pub move_down : Dashboard R V → Dashboard R V
  unfolding plus_one
  move_down m = move_to (plus_one m.selected) m

  pub move_up : Dashboard R V → Dashboard R V
  unfolding less
  move_up m = move_to (less m.selected 1) m

  pub down : Focus → Dashboard R V → Dashboard R V
  down focus_detail m = record m { detail = ops.scroll_down m.detail }
  down focus_list m = move_down m

  pub up : Focus → Dashboard R V → Dashboard R V
  up focus_detail m = record m { detail = ops.scroll_up m.detail }
  up focus_list m = move_up m

  pub act : Action → Dashboard R V → Dashboard R V × Command
  unfolding other_focus down up less
  act Action.leave m = (record m { quitting = true }, quit)
  act Action.refresh m = (m, fetch)
  act Action.switch_pane m = (record m { focus = other_focus m.focus }, no_command)
  act Action.next m = (down m.focus m, no_command)
  act Action.previous m = (up m.focus m, no_command)
  act Action.first m = (move_to (pos 0) m, no_command)
  act Action.last m = (move_to (less (pos (length m.reports)) 1) m, no_command)
  act Action.page_down m = (record m { detail = ops.half_page_down m.detail }, no_command)
  act Action.page_up m = (record m { detail = ops.half_page_up m.detail }, no_command)
  act Action.nothing m = (m, no_command)

  -- `handleKey`
  pub handle_key : Str → Dashboard R V → Dashboard R V × Command
  unfolding act action_of
  handle_key key m = act (action_of key) m

  -- `Update`
  pub update : Message R → Dashboard R V → Dashboard R V × Command
  unfolding resize apply_reports apply_failure handle_key
  update (window_size w h) m =
      (record (resize (record m { width = w; height = h })) { ready = true }, no_command)
  update ticked m = (m, fetch_and_tick)
  update (fetched at reports) m = (apply_reports at reports m, no_command)
  update (fetch_failed at error) m = (apply_failure at error m, no_command)
  update (key_pressed key) m = handle_key key m
  update other_message m = (m, no_command)
