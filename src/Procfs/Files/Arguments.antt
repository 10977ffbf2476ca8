-- ===== src/Procfs/Files/Arguments.antt =====
-- /proc/<pid>/cmdline as the kernel writes it: each argument and a NUL behind it.
use mathlib.Core.List
use k8s_pod_oom_oracle.Base.{
  ℕ, ◌≡◌, refl, ap, ◌∙◌, ◌≢◌, Bool, true, false, List, [], ◌∷◌, ◌++◌, reverse, append-nil,
  append_assoc, arith, Str, same, has_byte, split, ◌==◌, sym,
}
use k8s_pod_oom_oracle.Strings.Space.{trim_left_by, trim_right_by}
use k8s_pod_oom_oracle.Strings.Pieces.{has_byte-append, onto_all, onto_all-cons, split-append}
use k8s_pod_oom_oracle.Procfs.Files.{parse_cmdline}

unfoldable pub kernel_cmdline : List Str → Str
kernel_cmdline [] = []
kernel_cmdline (a ∷ args) = a ++ 0 ∷ kernel_cmdline args

-- The arguments with a NUL between two of them.
joined : List Str → Str → Str
joined [] last = last
joined (a ∷ args) last = a ++ 0 ∷ joined args last

-- No argument holds a NUL.
abbrev pub AreArguments : List Str → Type 0
AreArguments [] = Unit
AreArguments (a ∷ args) = (has_byte 0 a ≡ false) × AreArguments args

kernel_cmdline-joined :
    (args : List Str) (last : Str) → kernel_cmdline (args ++ last ∷ []) ≡ joined args last ++ 0 ∷ []
unfolding kernel_cmdline joined
kernel_cmdline-joined [] last = refl
kernel_cmdline-joined (a ∷ args) last =
    rw (kernel_cmdline-joined args last, append_assoc a (0 ∷ joined args last) (0 ∷ [])) refl

split-joined :
    (args : List Str) (last : Str)
    → AreArguments args
    → has_byte 0 last ≡ false
    → split 0 (joined args last) ≡ args ++ last ∷ []
unfolding split joined onto_all
split-joined [] last h k =
    ap (split 0) (sym (append-nil last))
    ∙ split-append 0 last [] k
    ∙ onto_all-cons last [] []
    ∙ ap (λ w. w ∷ []) (append-nil last)
split-joined (a ∷ args) last (h, hs) k =
    split-append 0 a (0 ∷ joined args last) h
    ∙ ap (λ ws. onto_all a ([] ∷ ws)) (split-joined args last hs k)
    ∙ onto_all-cons a [] (args ++ last ∷ [])
    ∙ ap (λ w. w ∷ (args ++ last ∷ [])) (append-nil a)

joined-append : (args : List Str) (t u : Str) → joined args (t ++ u) ≡ joined args t ++ u
unfolding joined
joined-append [] t u = refl
joined-append (a ∷ args) t u =
    rw (joined-append args t u, append_assoc a (0 ∷ joined args t) u) refl

module _ (p : ℕ → Bool) where
  trim_right_by-drop :
      (s : Str) (c : ℕ) → p c ≡ true → trim_right_by p (s ++ c ∷ []) ≡ trim_right_by p s
  unfolding trim_right_by trim_left_by
  trim_right_by-drop s c h = rw (List.reverse-append s (c ∷ []), h) refl

  trim_right_by-stop : (s : Str) (c : ℕ) → p c ≡ false → trim_right_by p (s ++ c ∷ []) ≡ s ++ c ∷ []
  unfolding trim_right_by trim_left_by
  trim_right_by-stop s c h =
      rw
        (List.reverse-append s (c ∷ []), h, List.reverse-cons c (reverse s), List.reverse-reverse s)
        refl

-- The last byte of a text.
last_byte : (s : Str) → s ≢ [] → (t : Str) × (c : ℕ) × (s ≡ t ++ c ∷ [])
last_byte [] h = absurd (h refl)
last_byte (c ∷ []) h = ([], c, refl)
last_byte (c ∷ d ∷ s) h = let (t, e, q) = last_byte (d ∷ s) (λ r. cc) in (c ∷ t, e, ap (◌∷◌ c) q)

not_nul : (t : Str) (c : ℕ) → has_byte 0 (t ++ c ∷ []) ≡ false → c == 0 ≡ false
not_nul t c h = ground (arith, has_byte-append 0 t (c ∷ []))

not_nil : (s : Str) (c : ℕ) → same (s ++ c ∷ []) [] ≡ false
unfolding same
not_nil [] c = refl
not_nil (d ∷ s) c = refl

-- The arguments of a process are read back from the kernel's cmdline, in order and with empty ones
-- among them, where no argument holds a NUL and the last is not empty.
pub parse_cmdline-kernel_cmdline :
    (args : List Str) (last : Str)
    → AreArguments args
    → has_byte 0 last ≡ false
    → last ≢ []
    → parse_cmdline (kernel_cmdline (args ++ last ∷ [])) ≡ args ++ last ∷ []
unfolding parse_cmdline
parse_cmdline-kernel_cmdline args last h k n =
    let (t, c, e) = last_byte last n in
    let ends : joined args last ≡ joined args t ++ c ∷ [] =
      ap (joined args) e ∙ joined-append args t (c ∷ []) in
    let kept : trim_right_by (λ c. c == 0) (kernel_cmdline (args ++ last ∷ []))
        ≡ joined args t ++ c ∷ [] =
      ap (trim_right_by (λ c. c == 0)) (kernel_cmdline-joined args last)
      ∙ trim_right_by-drop (λ c. c == 0) (joined args last) 0 refl
      ∙ ap (trim_right_by (λ c. c == 0)) ends
      ∙ trim_right_by-stop (λ c. c == 0) (joined args t) c
          (not_nul t c (ap (has_byte 0) (sym e) ∙ k)) in
    rw (kept, not_nil (joined args t) c) (ap (split 0) (sym ends) ∙ split-joined args last h k)
