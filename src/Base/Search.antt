-- ===== src/Base/Search.antt =====
-- The functions of package strings that the program calls, on strings as lists of bytes.
use Prim.Native.Nat.{ℕ, suc, ◌+◌}
use mathlib.Core.Bool.{Bool, true, false, ◌&&◌}
use mathlib.Core.List.{List, [], ◌∷◌}
use mathlib.Core.Option.{Option, none, some}
use k8s_pod_oom_oracle.Base.Tests.{leb, ◌==◌, if◌then◌else◌}
use k8s_pod_oom_oracle.Base.Lists.{any}
use k8s_pod_oom_oracle.Base.Text.{Str, same}

-- strings.CutPrefix(s, p): what follows the prefix, or `none`.
unfoldable pub cut_prefix : Str → Str → Option Str
cut_prefix s [] = some s
cut_prefix [] (p ∷ ps) = none
cut_prefix (c ∷ s) (p ∷ ps) = if c == p then cut_prefix s ps else none

unfoldable pub is_some : Option Str → Bool
is_some none = false
is_some (some s) = true

-- strings.HasPrefix(s, p)
unfoldable pub has_prefix : Str → Str → Bool
unfolding is_some cut_prefix
has_prefix s p = is_some (cut_prefix s p)

-- strings.TrimPrefix
unfoldable pub trim_prefix : Str → Str → Str
unfolding cut_prefix
trim_prefix s x = elim (cut_prefix s x) [ none ↦ s | some rest ↦ rest ]

unfoldable pub cons_some : ℕ → Option Str → Option Str
cons_some c none = none
cons_some c (some s) = some (c ∷ s)

-- strings.CutSuffix(s, x): what stands before the suffix, or `none`.
unfoldable pub cut_suffix : Str → Str → Option Str
unfolding cons_some same
cut_suffix [] x = if same [] x then some [] else none
cut_suffix (c ∷ s) x = if same (c ∷ s) x then some [] else cons_some c (cut_suffix s x)

-- strings.TrimSuffix(s, x)
unfoldable pub trim_suffix : Str → Str → Str
unfolding cut_suffix
trim_suffix s x = elim (cut_suffix s x) [ none ↦ s | some t ↦ t ]

-- strings.Contains(s, x)
unfoldable pub contains : Str → Str → Bool
unfolding has_prefix
contains [] x = has_prefix [] x
contains (c ∷ s) x = if has_prefix (c ∷ s) x then true else contains s x

unfoldable pub last_or_here : Bool → Option ℕ → Option ℕ
last_or_here here (some i) = some (suc i)
last_or_here true none = some 0
last_or_here false none = none

-- strings.LastIndex(s, x), with `none` for -1.
unfoldable pub last_index : Str → Str → Option ℕ
unfolding last_or_here has_prefix
last_index [] x = if has_prefix [] x then some 0 else none
last_index (c ∷ s) x = last_or_here (has_prefix (c ∷ s) x) (last_index s x)

unfoldable pub onto_first : ℕ → List Str → List Str
onto_first c [] = (c ∷ []) ∷ []
onto_first c (w ∷ ws) = (c ∷ w) ∷ ws

-- strings.Split(s, sep) for a separator of one byte: at least one piece.
unfoldable pub split : ℕ → Str → List Str
unfolding onto_first
split sep [] = [] ∷ []
split sep (c ∷ s) = if c == sep then [] ∷ split sep s else onto_first c (split sep s)

cut_step : ℕ → Option (Str × Str) → Option (Str × Str)
cut_step c none = none
cut_step c (some (a, b)) = some (c ∷ a, b)

-- strings.Cut(s, sep): the text before and after the first separator, or `none`.
unfoldable pub cut : Str → Str → Option (Str × Str)
unfolding cut_step cut_prefix
cut [] sep = elim (cut_prefix [] sep) [ some rest ↦ some ([], rest) | none ↦ none ]
cut (c ∷ s) sep = elim (cut_prefix (c ∷ s) sep) [
  | some rest ↦ some ([], rest)
  | none ↦ cut_step c (cut s sep)
]

-- strings.ReplaceAll for single bytes.
unfoldable pub replace_byte : ℕ → ℕ → Str → Str
replace_byte old new [] = []
replace_byte old new (c ∷ s) = (if c == old then new else c) ∷ replace_byte old new s

-- strings.ToLower on ASCII letters.
unfoldable pub to_lower : Str → Str
to_lower [] = []
to_lower (c ∷ s) = (if leb b'A' c && leb c b'Z' then c + 32 else c) ∷ to_lower s

-- Whether a byte occurs in a string.
abbrev pub has_byte : ℕ → Str → Bool
has_byte b s = any (λ c. c == b) s
