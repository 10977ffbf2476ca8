-- ===== src/Procfs/Status.antt =====
-- internal/procfs/parse.go: `ParseStatus` and its helpers. An error is `none`.
use k8s_pod_oom_oracle.Base.{
  ℕ, ◌*◌, ◌%◌, ◌^◌, ℤ, pos, ◌==ℤ◌, Option, none, some, List, [], ◌∷◌, Str, codes, same, cut,
  if◌then◌else◌,
}
use k8s_pod_oom_oracle.Strings.Space.{trim_space, fields}
use k8s_pod_oom_oracle.Strings.Numbers.{parse_decimal, atoi}
use k8s_pod_oom_oracle.Strings.Lines.{scan_lines}

pub record Status : Type 0 where
  pub name : Str
  pub state : Str
  pub pid : ℤ
  pub ppid : ℤ
  pub ns_pid : ℤ
  pub rss_bytes : ℕ
  pub vm_size_bytes : ℕ

-- The zero value.
abbrev pub no_status : Status
no_status = record {
  name = [];
  state = [];
  pid = pos 0;
  ppid = pos 0;
  ns_pid = pos 0;
  rss_bytes = 0;
  vm_size_bytes = 0;
}

-- The text before a separator, or all of it.
unfoldable pub before : Str → Str → Str
before sep s = elim (cut s sep) [ none ↦ s | some (head, rest) ↦ head ]

last_of : Str → List Str → Str
last_of w [] = w
last_of w (v ∷ ws) = last_of v ws

innermost : List Str → Option ℤ
unfolding last_of
innermost [] = some (pos 0)
innermost (w ∷ ws) = atoi (last_of w ws)

-- `parseInnermostNSPid`
pub parse_innermost_ns_pid : Str → Option ℤ
unfolding innermost
parse_innermost_ns_pid value = innermost (fields value)

-- `parseSizeKB`: the product wraps around at 64 bits.
pub parse_size_kb : Str → Option ℕ
unfolding before
parse_size_kb value = elim (parse_decimal (trim_space (before (codes " ") value))) [
  | none ↦ none
  | some size ↦ some (size * 1024 % 2 ^ 64)
]

with_number : {A : Type 0} → (A → Status) → Option A → Option Status
with_number f none = none
with_number f (some n) = some (f n)

-- The switch of `ParseStatus` on a field's key.
pub store_field : Str → Str → Status → Option Status
unfolding with_number before
store_field key value s =
    if same key (codes "Name")
    then some (record s { name = value })
    else if same key (codes "State")
    then some (record s { state = before (codes " ") value })
    else if same key (codes "Pid")
    then with_number (λ n. record s { pid = n }) (atoi value)
    else if same key (codes "PPid")
    then with_number (λ n. record s { ppid = n }) (atoi value)
    else if same key (codes "NSpid")
    then with_number (λ n. record s { ns_pid = n }) (parse_innermost_ns_pid value)
    else if same key (codes "VmRSS")
    then with_number (λ n. record s { rss_bytes = n }) (parse_size_kb value)
    else if same key (codes "VmSize")
    then with_number (λ n. record s { vm_size_bytes = n }) (parse_size_kb value)
    else some s

status_line : Option (Str × Str) → Status → Option Status
unfolding store_field
status_line none s = some s
status_line (some (key, raw)) s = store_field key (trim_space raw) s

-- The loop of `ParseStatus`.
pub status_of : List Str → Status → Option Status
unfolding status_line
status_of [] s = some s
status_of (line ∷ lines) s = elim (status_line (cut line (codes ":")) s) [
  | none ↦ none
  | some next ↦ status_of lines next
]

own_ns_pid : Status → Status
own_ns_pid s = if s.ns_pid ==ℤ pos 0 then record s { ns_pid = s.pid } else s

-- `ParseStatus`
pub parse_status : Str → Option Status
unfolding own_ns_pid
parse_status content = elim (scan_lines content) [
  | none ↦ none
  | some lines ↦ elim (status_of lines no_status) [ none ↦ none | some s ↦ some (own_ns_pid s) ]
]
