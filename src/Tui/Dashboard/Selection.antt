-- ===== src/Tui/Dashboard/Selection.antt =====
-- The selection stays within the list, and on the report that it is on.
use k8s_pod_oom_oracle.Base.{
  ℕ, suc, ◌+◌, ◌≡◌, refl, ap, ◌∙◌, ◌⊎◌, inl, inr, ℤ, pos, negsuc, true, false, Option, some, List,
  [], ◌∷◌, Str, same, any, length, get_elem?, get_elem?-some, arith, Bool-cases, same→eq, min,
}
use k8s_pod_oom_oracle.Clock.{Time, Duration}
use k8s_pod_oom_oracle.Oom.Report.{Report}
use k8s_pod_oom_oracle.Tui.Dashboard.{
  ViewportOps, Dashboard, Message, at_ℤ, clamped, current, index_of, selected_id, refresh_detail,
  resize, apply_reports, apply_failure, move_to, move_down, move_up, down, up, Focus, focus_list,
  focus_detail, handle_key, update, Action, act, action_of,
}

module _ {R : Type 0} where
  Located : Str → ℕ → List (Report R) → ℤ → Type 0
  Located id i rs k =
      ((k ≡ pos 0) × (any (λ r. same r.id id) rs ≡ false))
      ⊎ ((j : ℕ) × (r : Report R) × (k ≡ pos (i + j)) × (get_elem? rs j ≡ some r) × (r.id ≡ id))

  index_of-Located : (id : Str) (i : ℕ) (rs : List (Report R)) → Located id i rs (index_of id i rs)
  unfolding Located index_of
  index_of-Located id i [] = inl (refl, refl)
  index_of-Located id i (r ∷ rs) = elim (Bool-cases (same r.id id)) [
    | inl e ↦ rw e (inr (0, r, ap pos (omega arith), refl, same→eq r.id id e))
    | inr e ↦ rw e (elim (index_of-Located id (suc i) rs) [
      | inl (k, n) ↦ inl (k, n)
      | inr (j, q, k, at, same_id) ↦ inr (suc j, q, k ∙ ap pos (omega arith), at, same_id)
    ])
  ]

  at_place :
      (rs : List (Report R)) (k : ℤ) (s : Report R) (j : ℕ)
      → k ≡ pos (0 + j)
      → get_elem? rs j ≡ some s
      → at_ℤ rs k ≡ some s
  unfolding at_ℤ
  at_place rs k s j e h = let here : k ≡ pos j = e ∙ ap pos (omega arith) in rw here h

  clamped_at :
      (r : Report R) (rs : List (Report R)) (index : ℤ)
      → (s : Report R) × (at_ℤ (r ∷ rs) (clamped index (length rs)) ≡ some s)
  unfolding clamped at_ℤ
  clamped_at r rs (pos n) = get_elem?-some (r ∷ rs) (min n (length rs)) (omega arith)
  clamped_at r rs (negsuc n) = (r, refl)

module _ {R V : Type 0} where
  -- A report is selected, or there is none.
  abbrev pub IsSelected : Dashboard R V → Type 0
  IsSelected m = (m.reports ≡ []) ⊎ ((r : Report R) × (current m ≡ some r))

module _ {R V : Type 0} (ops : ViewportOps V) (show : Report R → Str)
    (empty_detail : Option Str → Duration → Str) where
  current_at :
      (m : Dashboard R V) (s : Report R) (j : ℕ)
      → m.selected ≡ pos (0 + j)
      → get_elem? m.reports j ≡ some s
      → current m ≡ some s
  unfolding current
  current_at m s j e h = at_place m.reports m.selected s j e h

  apply_reports-follows-found :
      (at : Time) (reports : List (Report R)) (m : Dashboard R V) (r : Report R)
      → same r.id [] ≡ false
      → current m ≡ some r
      → (apply_reports ops show empty_detail at reports m).selected ≡ index_of r.id 0 reports
  unfolding apply_reports selected_id refresh_detail
  apply_reports-follows-found at reports m r n h = rw (h, n) refl

  -- A refresh keeps the selection on its report: where the report that is selected, with an ID that is
  -- not empty, is among the fetched ones, the one of its ID is selected after the refresh, at whatever place.
  pub apply_reports-follows :
      (at : Time) (reports : List (Report R)) (m : Dashboard R V) (r : Report R)
      → same r.id [] ≡ false
      → current m ≡ some r
      → any (λ s. same s.id r.id) reports ≡ true
      → (s : Report R) × (current (apply_reports ops show empty_detail at reports m) ≡ some s)
        × (s.id ≡ r.id)
  unfolding Located apply_reports refresh_detail
  apply_reports-follows at reports m r n h there = elim (index_of-Located r.id 0 reports) [
    | inl (k, none_there) ↦ absurd (cc (there, none_there))
    | inr (j, s, k, at_j, same_id) ↦
        (s, current_at _ s j (apply_reports-follows-found at reports m r n h ∙ k) at_j, same_id)
  ]

  moved :
      (m : Dashboard R V) (k : ℤ) (rs : List (Report R)) (s : Report R)
      → m.reports ≡ rs
      → at_ℤ rs k ≡ some s
      → IsSelected (refresh_detail ops show empty_detail (record m { selected = k }))
  unfolding refresh_detail current
  moved m k rs s e h = inr (s, rw e h)

  kept : (m : Dashboard R V) → IsSelected m → IsSelected (refresh_detail ops show empty_detail m)
  unfolding refresh_detail current
  kept m h = h

  resize-IsSelected :
      (m : Dashboard R V) → IsSelected m → IsSelected (resize ops show empty_detail m)
  unfolding resize refresh_detail current
  resize-IsSelected m h = h

  apply_reports-IsSelected :
      (at : Time) (reports : List (Report R)) (m : Dashboard R V)
      → IsSelected (apply_reports ops show empty_detail at reports m)
  unfolding apply_reports refresh_detail current at_ℤ Located
  apply_reports-IsSelected at [] m = inl refl
  apply_reports-IsSelected at (r ∷ rs) m = elim (Bool-cases (same (selected_id (current m)) [])) [
    | inl e ↦ rw (apply_reports, e) (inr (r, refl))
    | inr e ↦
        rw (apply_reports, e)
          (inr (located _ _ (index_of-Located (selected_id (current m)) 0 (r ∷ rs))))
  ]
    where
      located :
          (id : Str) (k : ℤ) → Located id 0 (r ∷ rs) k → (s : Report R) × (at_ℤ (r ∷ rs) k ≡ some s)
      located id k (inl (e, n)) = (r, rw e refl)
      located id k (inr (j, s, e, at_j, same_id)) = (s, at_place (r ∷ rs) k s j e at_j)

  move_to-IsSelected :
      (index : ℤ) (m : Dashboard R V)
      → IsSelected m
      → IsSelected (move_to ops show empty_detail index m)
  unfolding move_to
  move_to-IsSelected index m h = by_cases m.reports refl
    where
      by_cases :
          (rs : List (Report R))
          → m.reports ≡ rs
          → IsSelected (move_to ops show empty_detail index m)
      by_cases [] e = rw (move_to, e) h
      by_cases (r ∷ rs) e =
          rw (move_to, e)
            (let (s, q) = clamped_at r rs index in
              moved m (clamped index (length rs)) (r ∷ rs) s e q)

  down-IsSelected :
      (f : Focus) (m : Dashboard R V) → IsSelected m → IsSelected (down ops show empty_detail f m)
  unfolding down move_down current
  down-IsSelected focus_list m h = move_to-IsSelected _ m h
  down-IsSelected focus_detail m h = h

  up-IsSelected :
      (f : Focus) (m : Dashboard R V) → IsSelected m → IsSelected (up ops show empty_detail f m)
  unfolding up move_up current
  up-IsSelected focus_list m h = move_to-IsSelected _ m h
  up-IsSelected focus_detail m h = h

  act-IsSelected :
      (a : Action) (m : Dashboard R V) → IsSelected m → IsSelected (act ops show empty_detail a m).0
  unfolding act current
  act-IsSelected Action.leave m h = h
  act-IsSelected Action.refresh m h = h
  act-IsSelected Action.switch_pane m h = h
  act-IsSelected Action.next m h = down-IsSelected m.focus m h
  act-IsSelected Action.previous m h = up-IsSelected m.focus m h
  act-IsSelected Action.first m h = move_to-IsSelected _ m h
  act-IsSelected Action.last m h = move_to-IsSelected _ m h
  act-IsSelected Action.page_down m h = h
  act-IsSelected Action.page_up m h = h
  act-IsSelected Action.nothing m h = h

  -- Whatever message the dashboard handles, a report is selected after it, or the list is empty, where
  -- this was so before.
  pub update-IsSelected :
      (msg : Message R) (m : Dashboard R V)
      → IsSelected m
      → IsSelected (update ops show empty_detail msg m).0
  unfolding update apply_failure handle_key current
  update-IsSelected (Message.window_size w k) m h =
      resize-IsSelected (record m { width = w; height = k }) h
  update-IsSelected Message.ticked m h = h
  update-IsSelected (Message.fetched at reports) m h = apply_reports-IsSelected at reports m
  update-IsSelected (Message.fetch_failed at error) m h = h
  update-IsSelected (Message.key_pressed key) m h = act-IsSelected (action_of key) m h
  update-IsSelected Message.other_message m h = h
