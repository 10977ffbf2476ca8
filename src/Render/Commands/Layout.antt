-- ===== src/Render/Commands/Layout.antt =====
-- A command line cannot break the layout of a report.
use k8s_pod_oom_oracle.Base.{
  ℕ, zero, suc, ◌-◌, ◌≤◌, ◌||◌, ◌==◌, leb, ltb, ◌≡◌, refl, subst, inl, inr, Bool, false, List, [],
  ◌∷◌, ◌++◌, Str, codes, select, same, not, arith, Bool-cases, length, take, length-take,
}
use k8s_pod_oom_oracle.Strings.Space.{join}
use k8s_pod_oom_oracle.Strings.Runes.{
  Rune, of_three, first_rune, runes_behind, runes, written, text_of,
}
use k8s_pod_oom_oracle.Strings.Runes.Decoding.{
  AreHigh, IsRead, ascii, high, first_rune-IsRead, AllRunes, AllRunes-take, runes_behind-All,
  length-taken,
}
use k8s_pod_oom_oracle.Render.Commands.Plain.{IsPlain, flatten-IsPlain, truncate-IsPlain}
use k8s_pod_oom_oracle.Render.Commands.{
  ellipsis, truncate, is_gap, onto_field, rune_fields, flatten_whitespace, command_line,
}

-- The control characters of ASCII.
abbrev pub is_control : ℕ → Bool
is_control c = ltb c 32 || c == 127

-- No byte of the text passes a test.
abbrev pub HasNone : (ℕ → Bool) → Str → Type 0
HasNone p [] = Unit
HasNone p (c ∷ s) = (p c ≡ false) × HasNone p s

abbrev AllHaveNone : (ℕ → Bool) → List Str → Type 0
AllHaveNone p [] = Unit
AllHaveNone p (w ∷ ws) = HasNone p w × AllHaveNone p ws

module _ (p : ℕ → Bool) where
  HasNone-append : (s t : Str) → HasNone p s → HasNone p t → HasNone p (s ++ t)
  HasNone-append [] t h k = k
  HasNone-append (c ∷ s) t (h, hs) k = (h, HasNone-append s t hs k)

  onto_field-AllHaveNone :
      (b : Str) (ws : List Str) → HasNone p b → AllHaveNone p ws → AllHaveNone p (onto_field b ws)
  unfolding onto_field
  onto_field-AllHaveNone b [] h hs = (h, tt)
  onto_field-AllHaveNone b (w ∷ ws) h (k, ks) = (HasNone-append b w h k, ks)

  select-AllHaveNone :
      (q : Str → Bool) (ws : List Str) → AllHaveNone p ws → AllHaveNone p (select q ws)
  select-AllHaveNone q [] h = tt
  select-AllHaveNone q (w ∷ ws) (h, hs) = elim (Bool-cases (q w)) [
    | inl e ↦ rw e (h, select-AllHaveNone q ws hs)
    | inr e ↦ rw e (select-AllHaveNone q ws hs)
  ]

  join-HasNone :
      (sep : Str) (ws : List Str) → HasNone p sep → AllHaveNone p ws → HasNone p (join sep ws)
  unfolding join
  join-HasNone sep [] h hs = tt
  join-HasNone sep (w ∷ []) h (k, ks) = k
  join-HasNone sep (w ∷ v ∷ ws) h (k, ks) =
      HasNone-append w (sep ++ join sep (v ∷ ws)) k
        (HasNone-append sep (join sep (v ∷ ws)) h (join-HasNone sep (v ∷ ws) h ks))

  HasNone-front : (s t : Str) → HasNone p (s ++ t) → HasNone p s
  HasNone-front [] t h = tt
  HasNone-front (c ∷ s) t (h, hs) = (h, HasNone-front s t hs)

  -- A rune that is read has bytes of the text alone.
  of_read : (c : ℕ) (s : Str) (r : Rune) → IsRead c s r → HasNone p (c ∷ s) → HasNone p r.bytes
  of_read c s r (ascii a e) (h, hs) = rw e (h, tt)
  of_read c s r (high taken left a e k b) (h, hs) =
      rw b (h, HasNone-front taken left (subst (HasNone p) e hs))

  runes_behind-HasNone :
      (k : ℕ) (s : Str) → HasNone p s → AllRunes (λ r. HasNone p r.bytes) (runes_behind k s)
  unfolding runes_behind
  runes_behind-HasNone zero [] h = tt
  runes_behind-HasNone (suc k) [] h = tt
  runes_behind-HasNone zero (c ∷ s) h = (
    of_read c s (first_rune c s) (first_rune-IsRead c s) h,
    runes_behind-HasNone (length (first_rune c s).bytes - 1) s h.1,
  )
  runes_behind-HasNone (suc k) (c ∷ s) h = runes_behind-HasNone k s h.1

text_of-HasNone :
    (rs : List Rune)
    → AllRunes (λ r. HasNone is_control r.bytes) rs
    → HasNone is_control (text_of rs)
unfolding text_of written
text_of-HasNone [] h = tt
text_of-HasNone (r ∷ rs) (h, hs) =
    HasNone-append is_control (written r) (text_of rs) one (text_of-HasNone rs hs)
  where
    one : HasNone is_control (written r)
    one = elim (Bool-cases (r.code == 65533)) [
      | inl e ↦ rw e (refl, (refl, (refl, tt)))
      | inr e ↦ rw e h
    ]

-- A rune that is no gap has no byte of an ASCII control character.
abbrev IsClear : Rune → Type 0
IsClear r = is_gap r.code ≡ false → HasNone is_control r.bytes

high-HasNone : (s : Str) → AreHigh s → HasNone is_control s
high-HasNone [] h = tt
high-HasNone (b ∷ s) (h, hs) = (ground arith, high-HasNone s hs)

read-IsClear : (c : ℕ) (s : Str) (r : Rune) → IsRead c s r → IsClear r
unfolding is_gap
read-IsClear c s r (ascii a e) h = rw e (ground arith, tt)
read-IsClear c s r (high taken left a e k b) h = rw b (ground arith, high-HasNone taken k)

first_rune-IsClear : (c : ℕ) (s : Str) → IsClear (first_rune c s)
first_rune-IsClear c s = read-IsClear c s (first_rune c s) (first_rune-IsRead c s)

rune_fields-AllHaveNone :
    (rs : List Rune) → AllRunes IsClear rs → AllHaveNone is_control (rune_fields rs)
unfolding rune_fields
rune_fields-AllHaveNone [] h = (tt, tt)
rune_fields-AllHaveNone (r ∷ rs) (h, hs) = elim (Bool-cases (is_gap r.code)) [
  | inl e ↦ rw e (tt, rune_fields-AllHaveNone rs hs)
  | inr e ↦ rw e (
      onto_field-AllHaveNone is_control r.bytes (rune_fields rs) (h e)
        (rune_fields-AllHaveNone rs hs))
]

flatten-HasNone : (s : Str) → HasNone is_control (flatten_whitespace s)
unfolding flatten_whitespace runes
flatten-HasNone s =
    join-HasNone is_control (codes " ") _ (refl, tt)
      (select-AllHaveNone is_control (λ w. not (same w [])) (rune_fields (runes s))
        (rune_fields-AllHaveNone (runes s) (runes_behind-All IsClear first_rune-IsClear 0 s)))

truncate-HasNone : (s : Str) → HasNone is_control s → HasNone is_control (truncate s)
unfolding truncate runes
truncate-HasNone s h = elim (Bool-cases (leb (length (runes s)) 96)) [
  | inl e ↦ rw e h
  | inr e ↦ rw e (
      HasNone-append is_control (text_of (take 95 (runes s))) ellipsis
        (text_of-HasNone (take 95 (runes s)) (
          AllRunes-take (λ r. HasNone is_control r.bytes) 95 (runes s)
            (runes_behind-HasNone is_control 0 s h)))
        (refl, (refl, (refl, tt))))
]

ellipsis_lem : length (runes ellipsis) ≡ 1
unfolding runes runes_behind first_rune of_three
ellipsis_lem = refl

truncate-length : (s : Str) → length (runes (truncate s)) ≤ 96
unfolding truncate
truncate-length s = elim (Bool-cases (leb (length (runes s)) 96)) [
  | inl e ↦ rw e (ground arith)
  | inr e ↦
      rw e (omega (arith, length-taken 95 s ellipsis, ellipsis_lem, length-take {0} 95 (runes s)))
]

one_line :
    (s : Str)
    → HasNone is_control (truncate (flatten_whitespace s))
      × AllRunes IsPlain (runes (truncate (flatten_whitespace s)))
      × (length (runes (truncate (flatten_whitespace s))) ≤ 96)
one_line s = (
  truncate-HasNone _ (flatten-HasNone s),
  truncate-IsPlain (flatten_whitespace s) (flatten-IsPlain s),
  truncate-length (flatten_whitespace s),
)

-- A command that the report prints is one line of at most 96 runes, whatever bytes the process's name
-- or arguments hold, those that are no UTF-8 included, which count for a rune each: read as UTF-8 it
-- has no control character, and no white space of Unicode but the blank, and no byte of it is a control
-- character of ASCII.
pub command_line-HasNone :
    (comm : Str) (cmdline : List Str)
    → HasNone is_control (command_line comm cmdline)
      × AllRunes IsPlain (runes (command_line comm cmdline))
      × (length (runes (command_line comm cmdline)) ≤ 96)
unfolding command_line
command_line-HasNone comm [] = one_line comm
command_line-HasNone comm (a ∷ args) = one_line (join (codes " ") (a ∷ args))
