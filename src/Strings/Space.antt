-- ===== src/Strings/Space.antt =====
-- strings.TrimSpace, strings.Fields and strings.Join.
use k8s_pod_oom_oracle.Base.{
  ℕ, Bool, true, false, ◌||◌, ◌++◌, List, [], ◌∷◌, reverse, Str, leb, ◌==◌, if◌then◌else◌, Option,
  none, some, ◌+◌, ◌&&◌, onto_first, select, same, not,
}

-- The white space of ASCII.
unfoldable pub is_space : ℕ → Bool
is_space c = c == b' ' || (leb 9 c && leb c 13)

-- The text from the first byte on that fails a test.
unfoldable pub trim_left_by : (ℕ → Bool) → Str → Str
trim_left_by p [] = []
trim_left_by p (c ∷ s) = let rest = trim_left_by p s in if p c then rest else c ∷ s

unfoldable pub trim_right_by : (ℕ → Bool) → Str → Str
unfolding trim_left_by
trim_right_by p s = reverse (trim_left_by p (reverse s))

-- strings.TrimSpace
unfoldable pub trim_space : Str → Str
unfolding trim_left_by trim_right_by is_space
trim_space s = trim_right_by is_space (trim_left_by is_space s)

-- The pieces between the bytes that pass a test, empty ones included.
unfoldable pub split_by : (ℕ → Bool) → Str → List Str
unfolding onto_first
split_by p [] = [] ∷ []
split_by p (c ∷ s) = let rest = split_by p s in if p c then [] ∷ rest else onto_first c rest

-- strings.FieldsFunc; strings.Fields is the case of white space.
unfoldable pub fields_by : (ℕ → Bool) → Str → List Str
unfolding split_by
fields_by p s = select (λ w. not (same w [])) (split_by p s)

unfoldable pub fields : Str → List Str
unfolding fields_by is_space
fields s = fields_by is_space s

-- strings.Join(ws, sep)
unfoldable pub join : Str → List Str → Str
join sep [] = []
join sep (w ∷ []) = w
join sep (w ∷ v ∷ ws) = w ++ (sep ++ join sep (v ∷ ws))

-- strings.IndexByte, with `none` for -1.
unfoldable pub index_byte : ℕ → Str → Option ℕ
index_byte b [] = none
index_byte b (c ∷ s) = elim (c == b) [
  | true ↦ some 0
  | false ↦ elim (index_byte b s) [ none ↦ none | some i ↦ some (i + 1) ]
]
