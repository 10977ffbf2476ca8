-- ===== src/Cgroup/Parse.antt =====
-- internal/cgroup/parse.go: the parsers of control files. An error is `none`.
pub mod Bounds
mod Tests
use k8s_pod_oom_oracle.Base.{
  ℕ, ℤ, pos, leb_ℤ, Bool, true, false, Option, none, some, List, [], ◌∷◌, ◌++◌, Map, lookup, insert,
  Str, codes, same, str_discrete, cut, if◌then◌else◌, ltb, length,
}
use k8s_pod_oom_oracle.Float.{FloatOps}
use k8s_pod_oom_oracle.Strings.Space.{trim_space, fields}
use k8s_pod_oom_oracle.Strings.Numbers.{parse_decimal, atoi}
use k8s_pod_oom_oracle.Strings.Lines.{scan_lines}
use k8s_pod_oom_oracle.Cgroup.Stats.{unlimited, normalise_limit, PsiLine, Psi}

-- `ParseUint`: an empty file is zero.
unfoldable pub parse_uint : Str → Option ℕ
parse_uint content =
    let text = trim_space content in if same text [] then some 0 else parse_decimal text

unfoldable pub normalised : Option ℕ → Option ℕ
normalised none = none
normalised (some n) = some (normalise_limit n)

-- `ParseLimit`
unfoldable pub parse_limit : Str → Option ℕ
unfolding parse_uint normalised
parse_limit content =
    if same (trim_space content) (codes "max")
    then some unlimited
    else normalised (parse_uint content)

-- A line that is no number, or no positive one, is skipped.
add_pid : Option ℤ → List ℤ → List ℤ
add_pid none pids = pids
add_pid (some pid) pids = if leb_ℤ pid (pos 0) then pids else pid ∷ pids

-- The loop of `ParsePIDList`. Atoi refuses the empty text that the code skips before it.
pub pids_of : List Str → List ℤ
unfolding add_pid
pids_of [] = []
pids_of (line ∷ lines) = add_pid (atoi (trim_space line)) (pids_of lines)

unfoldable pub on_lines : {A : Type 0} → (List Str → A) → Option (List Str) → Option A
on_lines f none = none
on_lines f (some lines) = some (f lines)

-- `ParsePIDList`
pub parse_pid_list : Str → Option (List ℤ)
unfolding pids_of on_lines
parse_pid_list content = on_lines pids_of (scan_lines content)

unfoldable pub set_field : Str → Option ℕ → Map Str ℕ → Map Str ℕ
set_field key none m = m
set_field key (some value) m = insert str_discrete key value m

unfoldable pub add_pair : Option (Str × Str) → Map Str ℕ → Map Str ℕ
unfolding set_field
add_pair none m = m
add_pair (some (key, raw)) m =
    if same key [] then m else set_field key (parse_decimal (trim_space raw)) m

-- The loop of `ParseKeyValue`: what cannot be read is skipped.
unfoldable pub pairs_of : List Str → Map Str ℕ → Map Str ℕ
unfolding add_pair
pairs_of [] m = m
pairs_of (line ∷ lines) m = pairs_of lines (add_pair (cut (trim_space line) (codes " ")) m)

-- `ParseKeyValue`
unfoldable pub parse_key_value : Str → Option (Map Str ℕ)
unfolding pairs_of on_lines
parse_key_value content = on_lines (λ lines. pairs_of lines []) (scan_lines content)

module _ {R : Type 0} ⦃fl : FloatOps R⦄ where
  pub no_line : PsiLine R
  no_line = record {
    avg10 = fl.zero_float;
    avg60 = fl.zero_float;
    avg300 = fl.zero_float;
    total = 0;
  }

  pub no_psi : Psi R
  unfolding no_line
  no_psi = record { some_line = no_line; full_line = no_line }

  set_average : Str → R → PsiLine R → PsiLine R
  set_average key x line =
      if same key (codes "avg10")
      then record line { avg10 = x }
      else if same key (codes "avg60")
      then record line { avg60 = x }
      else if same key (codes "avg300")
      then record line { avg300 = x }
      else line

  set_total : Option ℕ → PsiLine R → Option (PsiLine R)
  set_total none line = none
  set_total (some n) line = some (record line { total = n })

  averaged : Str → Option R → PsiLine R → Option (PsiLine R)
  unfolding set_average
  averaged key none line = none
  averaged key (some x) line = some (set_average key x line)

  -- One round of the loop of `parsePSIFields`: a field without "=" is skipped.
  psi_field : Option (Str × Str) → PsiLine R → Option (PsiLine R)
  unfolding set_total averaged
  psi_field none line = some line
  psi_field (some (key, raw)) line =
      if same key (codes "total")
      then set_total (parse_decimal raw) line
      else averaged key (fl.parse_float raw) line

  -- `parsePSIFields`
  pub psi_fields : List Str → PsiLine R → Option (PsiLine R)
  unfolding psi_field
  psi_fields [] line = some line
  psi_fields (f ∷ fs) line = elim (psi_field (cut f (codes "=")) line) [
    | none ↦ none
    | some next ↦ psi_fields fs next
  ]

  store_row : Str → Option (PsiLine R) → Psi R → Option (Psi R)
  store_row scope none psi = none
  store_row scope (some line) psi =
      if same scope (codes "some")
      then some (record psi { some_line = line })
      else some (record psi { full_line = line })

  -- One row: "some" and "full" are read, all others skipped.
  psi_row : List Str → Psi R → Option (Psi R)
  unfolding psi_fields store_row no_line
  psi_row [] psi = some psi
  psi_row (scope ∷ []) psi = some psi
  psi_row (scope ∷ f ∷ fs) psi =
      let read = store_row scope (psi_fields (f ∷ fs) no_line) psi in
      if same scope (codes "some")
      then read
      else if same scope (codes "full")
      then read
      else some psi

  -- The loop of `ParsePSI`.
  pub psi_rows : List Str → Psi R → Option (Psi R)
  unfolding psi_row
  psi_rows [] psi = some psi
  psi_rows (line ∷ lines) psi = elim (psi_row (fields line) psi) [
    | none ↦ none
    | some next ↦ psi_rows lines next
  ]

  psi_in : Option (List Str) → Option (Psi R)
  unfolding psi_rows no_psi
  psi_in none = none
  psi_in (some lines) = psi_rows lines no_psi

  -- `ParsePSI`
  pub parse_psi : Str → Option (Psi R)
  unfolding psi_in
  parse_psi content = psi_in (scan_lines content)
