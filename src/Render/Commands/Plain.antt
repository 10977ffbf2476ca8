-- ===== src/Render/Commands/Plain.antt =====
-- The fields of a command hold no gap, also once they are put together and cut.
use k8s_pod_oom_oracle.Base.{
  ℕ, zero, suc, ◌-◌, leb, ltb, ◌≡◌, refl, sym, ap, ◌∙◌, ◌⊎◌, inl, inr, Bool, true, false, List, [],
  ◌∷◌, ◌++◌, Str, codes, select, same, not, arith, Bool-cases, length, map, take, drop, subst,
  if◌then◌else◌, append_assoc,
}
use k8s_pod_oom_oracle.Strings.Space.{join}
use k8s_pod_oom_oracle.Strings.Runes.{
  Rune, invalid, continues, of_three, first_rune, runes_behind, runes, is_unicode_space,
  is_unicode_control,
}
use k8s_pod_oom_oracle.Strings.Runes.Decoding.{
  rewritten, AllRunes, AllRunes-take, runes-taken, IsRead, ascii, high, first_rune-IsRead,
}
use k8s_pod_oom_oracle.Strings.Runes.Fields.{
  Stops, first_rune-Stops, runes_behind-taken, runes-append,
}
use k8s_pod_oom_oracle.Render.Commands.{
  ellipsis, truncate, is_gap, onto_field, rune_fields, flatten_whitespace,
}

-- No control character, and no space but the blank.
abbrev pub IsPlain : Rune → Type 0
IsPlain r =
    (is_unicode_control r.code ≡ false) × ((is_unicode_space r.code ≡ false) ⊎ (r.code ≡ 32))

abbrev AllPlain : List Str → Type 0
AllPlain [] = Unit
AllPlain (w ∷ ws) = AllRunes IsPlain (runes w) × AllPlain ws

-- The first field begins the text, up to a place where it may be cut.
abbrev AreFields : Str → List Str → Type 0
AreFields s [] = ⊥
AreFields s (w ∷ ws) =
    ((v : Str) × (s ≡ w ++ v) × Stops v) × AllRunes IsPlain (runes w) × AllPlain ws

AllRunes-append :
    (rs qs : List Rune) → AllRunes IsPlain rs → AllRunes IsPlain qs → AllRunes IsPlain (rs ++ qs)
AllRunes-append [] qs h k = k
AllRunes-append (r ∷ rs) qs (h, hs) k = (h, AllRunes-append rs qs hs k)

IsPlain-of_no_gap : (r : Rune) → is_gap r.code ≡ false → IsPlain r
unfolding is_gap
IsPlain-of_no_gap r h = (ground arith, inl (ground arith))

-- A byte that continues another begins no gap: read first, it is invalid.
stray-no_gap :
    (c : ℕ) (s : Str) → ltb c 128 ≡ false → ltb c 194 ≡ true → is_gap (first_rune c s).code ≡ false
unfolding is_gap first_rune invalid
stray-no_gap c s a b = rw (a, b) refl

gap-starts : (c : ℕ) (s : Str) → is_gap (first_rune c s).code ≡ true → continues c ≡ false
gap-starts c s h = elim (Bool-cases (continues c)) [
  | inl e ↦ absurd (clash (stray-no_gap c s (ground arith) (ground arith)))
  | inr e ↦ e
]
  where
    clash : is_gap (first_rune c s).code ≡ false → ⊥
    clash k = cc

taken_length :
    (c : ℕ) (taken : Str) (r : Rune) → r.bytes ≡ c ∷ taken → length r.bytes - 1 ≡ length taken
taken_length c taken r b = omega (arith, ap length b)

drop-length : (t s : Str) → drop (length t) (t ++ s) ≡ s
drop-length [] s = refl
drop-length (c ∷ t) s = drop-length t s

-- The bytes that the first rune takes, and what is left.
parts :
    (c : ℕ) (s : Str) (r : Rune)
    → IsRead c s r
    → (taken : Str) × (s ≡ taken ++ drop (length r.bytes - 1) s) × (r.bytes ≡ c ∷ taken)
parts c s r (ascii a e) = ([], rw e refl, rw e refl)
parts c s r (high taken left a e k b) = (
  taken,
  e ∙ ap (◌++◌ taken) (sym (rw (taken_length c taken r b, e) (drop-length taken left))),
  b,
)

runes-first :
    (c : ℕ) (taken w : Str) (r : Rune)
    → first_rune c (taken ++ w) ≡ r
    → r.bytes ≡ c ∷ taken
    → runes (c ∷ (taken ++ w)) ≡ r ∷ runes w
unfolding runes runes_behind
runes-first c taken w r e b =
    rw e (ap (◌∷◌ r) (rw (taken_length c taken r b) (runes_behind-taken taken w)))

with_rune :
    (c : ℕ) (taken left : Str) (r : Rune) (fs : List Str)
    → first_rune c (taken ++ left) ≡ r
    → r.bytes ≡ c ∷ taken
    → AreFields left fs
    → AreFields (c ∷ (taken ++ left)) (if is_gap r.code then [] ∷ fs else onto_field r.bytes fs)
unfolding onto_field
with_rune c taken left r [] e b h = absurd h
with_rune c taken left r (w ∷ ws) e b ((v, cut, stops), plain, others) =
    elim (Bool-cases (is_gap r.code)) [
      | inl g ↦ rw g (
        (
          c ∷ (taken ++ left),
          refl,
          gap-starts c (taken ++ left) (ap (λ (q : Rune). is_gap q.code) e ∙ g),
        ),
        none_yet,
        (plain, others),
      )
      | inr g ↦
          let whole : taken ++ left ≡ (taken ++ w) ++ v = rw cut (sym (append_assoc taken w v)) in
          let first : first_rune c (taken ++ w) ≡ r =
            sym (first_rune-Stops c (taken ++ w) v stops) ∙ ap (first_rune c) (sym whole) ∙ e in
          rw (g, b)
            (
              (v, ap (◌∷◌ c) whole, stops),
              rw (runes-first c taken w r first b) (IsPlain-of_no_gap r g, plain),
              others,
            )
    ]
  where
    none_yet : AllRunes IsPlain (runes [])
    none_yet = unfold runes runes_behind in tt

fields-AreFields : (k : ℕ) (s : Str) → AreFields (drop k s) (rune_fields (runes_behind k s))
unfolding runes_behind rune_fields runes
fields-AreFields zero [] = (([], refl, tt), tt, tt)
fields-AreFields (suc k) [] = (([], refl, tt), tt, tt)
fields-AreFields (suc k) (c ∷ s) = fields-AreFields k s
fields-AreFields zero (c ∷ s) =
    let (taken, e, b) = parts c s (first_rune c s) (first_rune-IsRead c s) in
    subst (λ x. AreFields (c ∷ x) (rune_fields (runes_behind 0 (c ∷ s)))) (sym e)
      (with_rune c taken (drop (length (first_rune c s).bytes - 1) s) (first_rune c s)
        (rune_fields (runes_behind (length (first_rune c s).bytes - 1) s))
        (ap (first_rune c) (sym e)) b (fields-AreFields (length (first_rune c s).bytes - 1) s))

all_of_fields : (s : Str) (ws : List Str) → AreFields s ws → AllPlain ws
all_of_fields s [] h = tt
all_of_fields s (w ∷ ws) (c, p, ps) = (p, ps)

select-AllPlain : (q : Str → Bool) (ws : List Str) → AllPlain ws → AllPlain (select q ws)
select-AllPlain q [] h = tt
select-AllPlain q (w ∷ ws) (h, hs) = elim (Bool-cases (q w)) [
  | inl e ↦ rw e (h, select-AllPlain q ws hs)
  | inr e ↦ rw e (select-AllPlain q ws hs)
]

blank_first : (s : Str) → runes (codes " " ++ s) ≡ record { code = 32; bytes = codes " " } ∷ runes s
unfolding runes runes_behind first_rune
blank_first s = refl

join-IsPlain : (ws : List Str) → AllPlain ws → AllRunes IsPlain (runes (join (codes " ") ws))
unfolding join
join-IsPlain [] h = unfold runes runes_behind in tt
join-IsPlain (w ∷ []) (h, hs) = h
join-IsPlain (w ∷ v ∷ ws) (h, hs) =
    rw (runes-append w (codes " " ++ join (codes " ") (v ∷ ws)) refl, blank_first)
      (AllRunes-append (runes w) _ h ((refl, inr refl), join-IsPlain (v ∷ ws) hs))

pub flatten-IsPlain : (s : Str) → AllRunes IsPlain (runes (flatten_whitespace s))
unfolding flatten_whitespace
flatten-IsPlain s = join-IsPlain _ (
    select-AllPlain (λ w. not (same w [])) (rune_fields (runes s))
      (all_of_fields s (rune_fields (runes s)) (unfold runes in fields-AreFields 0 s)))

rewritten-IsPlain : (rs : List Rune) → AllRunes IsPlain rs → AllRunes IsPlain (map rewritten rs)
rewritten-IsPlain [] h = tt
rewritten-IsPlain (r ∷ rs) (h, hs) = (h, rewritten-IsPlain rs hs)

ellipsis-IsPlain : AllRunes IsPlain (runes ellipsis)
unfolding runes runes_behind first_rune of_three
ellipsis-IsPlain = ((refl, inl refl), tt)

pub truncate-IsPlain :
    (s : Str) → AllRunes IsPlain (runes s) → AllRunes IsPlain (runes (truncate s))
unfolding truncate
truncate-IsPlain s h = elim (Bool-cases (leb (length (runes s)) 96)) [
  | inl e ↦ rw e h
  | inr e ↦
      rw (e, runes-taken 95 s ellipsis)
        (AllRunes-append (map rewritten (take 95 (runes s))) (runes ellipsis)
          (rewritten-IsPlain (take 95 (runes s)) (AllRunes-take IsPlain 95 (runes s) h))
          ellipsis-IsPlain)
]
