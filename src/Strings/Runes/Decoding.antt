-- ===== src/Strings/Runes/Decoding.antt =====
-- Runes that are written are read back, one for one, and hold no byte that the text did not hold.
use k8s_pod_oom_oracle.Base.{
  ℕ, zero, suc, ◌+◌, ◌-◌, ◌&&◌, ◌==◌, ltb, ◌≡◌, refl, ap, ◌∙◌, inl, inr, true, false, List, [], ◌∷◌,
  ◌++◌, Str, length, length-append, length-map, map, take, arith, Bool-cases, append_assoc,
}
use k8s_pod_oom_oracle.Strings.Runes.{
  Rune, invalid, continues, is_second, of_two, of_three, of_four, first_rune, runes_behind, runes,
  written, text_of,
}

-- A rune as it is read once it was written.
abbrev pub rewritten : Rune → Rune
rewritten r = record { code = r.code; bytes = written r }

-- However it goes on, the written rune is read as one.
abbrev pub IsReadBack : Rune → Type 0
IsReadBack r = (t : Str) → runes (written r ++ t) ≡ rewritten r ∷ runes t

abbrev pub AllRunes : (Rune → Type 0) → List Rune → Type 0
AllRunes P [] = Unit
AllRunes P (r ∷ rs) = P r × AllRunes P rs

pub AllRunes-take :
    (P : Rune → Type 0) (n : ℕ) (rs : List Rune) → AllRunes P rs → AllRunes P (take n rs)
AllRunes-take P zero [] h = tt
AllRunes-take P zero (r ∷ rs) h = tt
AllRunes-take P (suc n) [] h = tt
AllRunes-take P (suc n) (r ∷ rs) (h, hs) = (h, AllRunes-take P n rs hs)

replaced :
    (t : Str)
    → runes (239 ∷ 191 ∷ 189 ∷ t) ≡ record { code = 65533; bytes = 239 ∷ 191 ∷ 189 ∷ [] } ∷ runes t
unfolding runes runes_behind first_rune of_three
replaced t = refl

-- It is enough that the bytes of a rune are read as one.
IsReadBack-of_bytes : (r : Rune) → ((t : Str) → runes (r.bytes ++ t) ≡ r ∷ runes t) → IsReadBack r
unfolding written
IsReadBack-of_bytes r h t = elim (Bool-cases (r.code == 65533)) [
  | inl e ↦ let k : r.code ≡ 65533 = ground arith in rw (e, k) (replaced t)
  | inr e ↦ rw e (h t)
]

invalid-IsReadBack : (c : ℕ) → IsReadBack (invalid c)
unfolding written invalid
invalid-IsReadBack c t = replaced t

module _ (c : ℕ) (a : ltb c 128 ≡ false) (b : ltb c 194 ≡ false) where
  of_two-IsReadBack : (s : Str) → ltb c 224 ≡ true → IsReadBack (of_two c s)
  unfolding of_two
  of_two-IsReadBack [] h = invalid-IsReadBack c
  of_two-IsReadBack (d ∷ s) h = elim (Bool-cases (continues d)) [
    | inl e ↦
        rw e (
          IsReadBack-of_bytes _ (λ t. unfold runes runes_behind first_rune in rw (a, b, h, e) refl))
    | inr e ↦ rw e (invalid-IsReadBack c)
  ]

  of_three-IsReadBack : (s : Str) → ltb c 224 ≡ false → ltb c 240 ≡ true → IsReadBack (of_three c s)
  unfolding of_three
  of_three-IsReadBack [] h k = invalid-IsReadBack c
  of_three-IsReadBack (d ∷ []) h k = invalid-IsReadBack c
  of_three-IsReadBack (d ∷ e ∷ s) h k = elim (Bool-cases (is_second c d && continues e)) [
    | inl x ↦ rw x (
        IsReadBack-of_bytes _
          (λ t. unfold runes runes_behind first_rune in rw (a, b, h, k, x) refl))
    | inr x ↦ rw x (invalid-IsReadBack c)
  ]

  of_four-IsReadBack :
      (s : Str)
      → ltb c 224 ≡ false
      → ltb c 240 ≡ false
      → ltb c 245 ≡ true
      → IsReadBack (of_four c s)
  unfolding of_four
  of_four-IsReadBack [] h k l = invalid-IsReadBack c
  of_four-IsReadBack (d ∷ []) h k l = invalid-IsReadBack c
  of_four-IsReadBack (d ∷ e ∷ []) h k l = invalid-IsReadBack c
  of_four-IsReadBack (d ∷ e ∷ f ∷ s) h k l =
      elim (Bool-cases (is_second c d && (continues e && continues f))) [
        | inl x ↦ rw x (
            IsReadBack-of_bytes _
              (λ t. unfold runes runes_behind first_rune in rw (a, b, h, k, l, x) refl))
        | inr x ↦ rw x (invalid-IsReadBack c)
      ]

first_rune-IsReadBack : (c : ℕ) (s : Str) → IsReadBack (first_rune c s)
unfolding first_rune
first_rune-IsReadBack c s = elim (Bool-cases (ltb c 128)) [
  | inl a ↦ rw a (IsReadBack-of_bytes _ (λ t. unfold runes runes_behind in rw a refl))
  | inr a ↦ elim (Bool-cases (ltb c 194)) [
    | inl b ↦ rw (a, b) (invalid-IsReadBack c)
    | inr b ↦ elim (Bool-cases (ltb c 224)) [
      | inl h ↦ rw (a, b, h) (of_two-IsReadBack c a b s h)
      | inr h ↦ elim (Bool-cases (ltb c 240)) [
        | inl k ↦ rw (a, b, h, k) (of_three-IsReadBack c a b s h k)
        | inr k ↦ elim (Bool-cases (ltb c 245)) [
          | inl l ↦ rw (a, b, h, k, l) (of_four-IsReadBack c a b s h k l)
          | inr l ↦ rw (a, b, h, k, l) (invalid-IsReadBack c)
        ]
      ]
    ]
  ]
]

pub runes_behind-All :
    (P : Rune → Type 0)
    → ((c : ℕ) (s : Str) → P (first_rune c s))
    → (k : ℕ) (s : Str) → AllRunes P (runes_behind k s)
unfolding runes_behind
runes_behind-All P f zero [] = tt
runes_behind-All P f (suc k) [] = tt
runes_behind-All P f zero (c ∷ s) =
    (f c s, runes_behind-All P f (length (first_rune c s).bytes - 1) s)
runes_behind-All P f (suc k) (c ∷ s) = runes_behind-All P f k s

runes-text_of :
    (rs : List Rune) (t : Str)
    → AllRunes IsReadBack rs
    → runes (text_of rs ++ t) ≡ map rewritten rs ++ runes t
unfolding text_of
runes-text_of [] t h = refl
runes-text_of (r ∷ rs) t (h, hs) =
    rw (append_assoc (written r) (text_of rs) t)
      (h (text_of rs ++ t) ∙ ap (◌∷◌ (rewritten r)) (runes-text_of rs t hs))

-- The first runes of a text, written before another text, are read back with those of that text.
pub runes-taken :
    (n : ℕ) (s t : Str)
    → runes (text_of (take n (runes s)) ++ t) ≡ map rewritten (take n (runes s)) ++ runes t
unfolding runes
runes-taken n s t =
    runes-text_of (take n (runes s)) t
      (AllRunes-take IsReadBack n (runes s) (runes_behind-All IsReadBack first_rune-IsReadBack 0 s))

-- They are as many as are taken, and those of that text.
pub length-taken :
    (n : ℕ) (s t : Str)
    → length (runes (text_of (take n (runes s)) ++ t))
      ≡ length (take n (runes s)) + length (runes t)
length-taken n s t = rw (runes-taken n s t) (
    omega (
      arith,
      length-append {0} (map rewritten (take n (runes s))) (runes t),
      length-map {0, 0} rewritten (take n (runes s)),
    ))

-- No byte is one of ASCII.
abbrev pub AreHigh : Str → Type 0
AreHigh [] = Unit
AreHigh (b ∷ s) = (ltb b 128 ≡ false) × AreHigh s

-- What is read of a text that begins with `c`: a byte of ASCII is a rune, and any other byte is read
-- alone or with bytes behind it of which none is of ASCII.
pub data IsRead (c : ℕ) (s : Str) (r : Rune) : Type 0 where
  ascii : ltb c 128 ≡ true → r ≡ record { code = c; bytes = c ∷ [] } → IsRead c s r
  high :
      (taken left : Str)
      → ltb c 128 ≡ false
      → s ≡ taken ++ left
      → AreHigh taken
      → r.bytes ≡ c ∷ taken
      → IsRead c s r

continues-high : (b : ℕ) → continues b ≡ true → ltb b 128 ≡ false
continues-high b h = ground arith

second-high : (c b : ℕ) → is_second c b ≡ true → ltb b 128 ≡ false
second-high c b h = ground arith

module _ (c : ℕ) (a : ltb c 128 ≡ false) where
  alone : (s : Str) → IsRead c s (invalid c)
  unfolding invalid
  alone s = high [] s a refl tt refl

  of_two-IsRead : (s : Str) → IsRead c s (of_two c s)
  unfolding of_two
  of_two-IsRead [] = alone []
  of_two-IsRead (d ∷ s) = elim (Bool-cases (continues d)) [
    | inl e ↦ rw e (high (d ∷ []) s a refl (continues-high d e, tt) refl)
    | inr e ↦ rw e (alone (d ∷ s))
  ]

  of_three-IsRead : (s : Str) → IsRead c s (of_three c s)
  unfolding of_three
  of_three-IsRead [] = alone []
  of_three-IsRead (d ∷ []) = alone (d ∷ [])
  of_three-IsRead (d ∷ e ∷ s) = elim (Bool-cases (is_second c d && continues e)) [
    | inl x ↦ rw x (
        high (d ∷ e ∷ []) s a refl
          (second-high c d (ground arith), (continues-high e (ground arith), tt)) refl)
    | inr x ↦ rw x (alone (d ∷ e ∷ s))
  ]

  of_four-IsRead : (s : Str) → IsRead c s (of_four c s)
  unfolding of_four
  of_four-IsRead [] = alone []
  of_four-IsRead (d ∷ []) = alone (d ∷ [])
  of_four-IsRead (d ∷ e ∷ []) = alone (d ∷ e ∷ [])
  of_four-IsRead (d ∷ e ∷ f ∷ s) =
      elim (Bool-cases (is_second c d && (continues e && continues f))) [
        | inl x ↦ rw x (
            high (d ∷ e ∷ f ∷ []) s a refl
              (
                second-high c d (ground arith),
                (continues-high e (ground arith), (continues-high f (ground arith), tt)),
              )
              refl)
        | inr x ↦ rw x (alone (d ∷ e ∷ f ∷ s))
      ]

pub first_rune-IsRead : (c : ℕ) (s : Str) → IsRead c s (first_rune c s)
unfolding first_rune
first_rune-IsRead c s = elim (Bool-cases (ltb c 128)) [
  | inl a ↦ rw a (ascii a refl)
  | inr a ↦ elim (Bool-cases (ltb c 194)) [
    | inl b ↦ rw (a, b) (alone c a s)
    | inr b ↦ elim (Bool-cases (ltb c 224)) [
      | inl h ↦ rw (a, b, h) (of_two-IsRead c a s)
      | inr h ↦ elim (Bool-cases (ltb c 240)) [
        | inl k ↦ rw (a, b, h, k) (of_three-IsRead c a s)
        | inr k ↦ elim (Bool-cases (ltb c 245)) [
          | inl l ↦ rw (a, b, h, k, l) (of_four-IsRead c a s)
          | inr l ↦ rw (a, b, h, k, l) (alone c a s)
        ]
      ]
    ]
  ]
]
