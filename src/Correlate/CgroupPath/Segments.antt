-- ===== src/Correlate/CgroupPath/Segments.antt =====
-- The pieces of a path: what splitting, cutting and searching find in a text that was put together.
use k8s_pod_oom_oracle.Base.{
  ℕ, ◌≡◌, refl, ap, ◌∙◌, ◌≢◌, inl, inr, true, false, not, none, some, List, [], ◌∷◌, ◌++◌, arith,
  length, length-append, select, Str, same, Option-cases, Bool-cases, append-nil,
}
use k8s_pod_oom_oracle.Base.{
  same_refl, same→eq, split, cut_suffix, cons_some, cut_prefix, contains, has_prefix, is_some,
  last_index, last_or_here, has_byte,
}
use k8s_pod_oom_oracle.Strings.Pieces.{has_byte-append, onto_all, onto_all-cons, split-append}
use k8s_pod_oom_oracle.Correlate.CgroupPath.{split_path}

-- A path with the given segments, as the kernel writes it.
unfoldable pub path_of : List Str → Str
path_of [] = []
path_of (s ∷ ss) = b'/' ∷ (s ++ path_of ss)

-- Segments that are not empty and hold no slash.
abbrev pub AreSegments : List Str → Type 0
AreSegments [] = Unit
AreSegments (s ∷ ss) = (s ≢ []) × (has_byte b'/' s ≡ false) × AreSegments ss

split-path_of : (ss : List Str) → AreSegments ss → split b'/' (path_of ss) ≡ [] ∷ ss
unfolding split path_of
split-path_of [] h = refl
split-path_of (s ∷ ss) h = ap (◌∷◌ []) (
    split-append b'/' s (path_of ss) h.1
    ∙ ap (onto_all s) (split-path_of ss h.2)
    ∙ onto_all-cons s [] ss
    ∙ ap (λ w. w ∷ ss) (append-nil s))

pub not_same_nil : (s : Str) → s ≢ [] → same s [] ≡ false
unfolding same
not_same_nil [] h = absurd (h refl)
not_same_nil (c ∷ s) h = refl

select_segments : (ss : List Str) → AreSegments ss → select (λ s. not (same s [])) ss ≡ ss
select_segments [] h = refl
select_segments (s ∷ ss) h = ground (arith, not_same_nil s h.0, select_segments ss h.2)

-- Splitting a path gives back its segments.
pub split_path-path_of : (ss : List Str) → AreSegments ss → split_path (path_of ss) ≡ ss
unfolding split_path same
split_path-path_of ss h = rw (split-path_of ss h) (select_segments ss h)

pub cut_prefix-append : (p s : Str) → cut_prefix (p ++ s) p ≡ some s
unfolding cut_prefix
cut_prefix-append [] s = refl
cut_prefix-append (c ∷ p) s = ground (arith, cut_prefix-append p s)

append-ne : (c : ℕ) (s x : Str) → (c ∷ s) ++ x ≢ x
append-ne c s x e = omega (arith, ap length e, length-append (c ∷ s) x)

pub same-false : (a b : Str) → a ≢ b → same a b ≡ false
same-false a b h = elim (Bool-cases (same a b)) [ inl e ↦ absurd (h (same→eq a b e)) | inr e ↦ e ]

pub cut_suffix-append : (s x : Str) → cut_suffix (s ++ x) x ≡ some s
unfolding cut_suffix cons_some
cut_suffix-append [] [] = refl
cut_suffix-append [] (c ∷ x) = ground (arith, same_refl (c ∷ x))
cut_suffix-append (c ∷ s) x =
    ground (arith, same-false (c ∷ (s ++ x)) x (append-ne c s x), cut_suffix-append s x)

cut_suffix_sound : (s x t : Str) → cut_suffix s x ≡ some t → s ≡ t ++ x
unfolding cut_suffix cons_some
cut_suffix_sound [] x t h = elim (Bool-cases (same [] x)) [
  | inl e ↦ ground (arith, same→eq [] x e)
  | inr e ↦ absurd (ground arith)
]
cut_suffix_sound (c ∷ s) x t h = elim (Bool-cases (same (c ∷ s) x)) [
  | inl e ↦ ground (arith, same→eq (c ∷ s) x e)
  | inr e ↦ elim (Option-cases (cut_suffix s x)) [
    | inl n ↦ absurd (ground arith)
    | inr (t', n) ↦ ground (arith, cut_suffix_sound s x t' n)
  ]
]

-- A text without a byte of the suffix does not end in it.
pub cut_suffix-none :
    (b : ℕ) (s x : Str) → has_byte b s ≡ false → has_byte b x ≡ true → cut_suffix s x ≡ none
cut_suffix-none b s x hs hx = elim (Option-cases (cut_suffix s x)) [
  | inl e ↦ e
  | inr (t, e) ↦ absurd (ground (arith, cut_suffix_sound s x t e, has_byte-append b t x))
]

has_prefix-none :
    (b : ℕ) (s x : Str) → has_byte b s ≡ false → has_byte b x ≡ true → cut_prefix s x ≡ none
unfolding cut_prefix
has_prefix-none b s [] hs hx = cc
has_prefix-none b [] (p ∷ x) hs hx = refl
has_prefix-none b (c ∷ s) (p ∷ x) hs hx = ground (arith, has_prefix-none b s x)

-- Nor does the pattern occur in it.
pub last_index-none :
    (b : ℕ) (s x : Str) → has_byte b s ≡ false → has_byte b x ≡ true → last_index s x ≡ none
unfolding last_index last_or_here has_prefix is_some
last_index-none b [] x hs hx = ground (arith, has_prefix-none b [] x hs hx)
last_index-none b (c ∷ s) x hs hx =
    ground (arith, has_prefix-none b (c ∷ s) x hs hx, last_index-none b s x)

pub contains-none :
    (b : ℕ) (s x : Str) → has_byte b s ≡ false → has_byte b x ≡ true → contains s x ≡ false
unfolding contains has_prefix is_some
contains-none b [] x hs hx = ground (arith, has_prefix-none b [] x hs hx)
contains-none b (c ∷ s) x hs hx =
    ground (arith, has_prefix-none b (c ∷ s) x hs hx, contains-none b s x)
