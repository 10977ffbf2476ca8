-- ===== src/Strings/Runes.antt =====
-- UTF-8 as Go reads it: conversion to []rune and back, and the classes of package unicode that are used.
pub mod Decoding
pub mod Fields
use k8s_pod_oom_oracle.Base.{
  ℕ, zero, suc, ◌+◌, ◌-◌, ◌*◌, ◌%◌, ◌||◌, ◌&&◌, ◌==◌, leb, ltb, Bool, List, [], ◌∷◌, ◌++◌, Str,
  length, if◌then◌else◌,
}

-- A rune and the bytes that it was read from.
pub record Rune : Type 0 where
  pub code : ℕ
  pub bytes : Str

-- A byte that begins no rune is read as U+FFFD.
unfoldable pub invalid : ℕ → Rune
invalid c = record { code = 65533; bytes = c ∷ [] }

abbrev pub continues : ℕ → Bool
continues c = leb 128 c && leb c 191

-- The second byte of three and of four has a narrower range behind some first bytes: no rune is written
-- in more bytes than it needs, none is a surrogate, and none is above U+10FFFF.
abbrev pub is_second : ℕ → ℕ → Bool
is_second c b =
    leb (if c == 224 then 160 else if c == 240 then 144 else 128) b
    && leb b (if c == 237 then 159 else if c == 244 then 143 else 191)

unfoldable pub of_two : ℕ → Str → Rune
unfolding invalid
of_two c (b ∷ s) =
    if continues b then record { code = (c % 32) * 64 + b % 64; bytes = c ∷ b ∷ [] } else invalid c
of_two c [] = invalid c

unfoldable pub of_three : ℕ → Str → Rune
unfolding invalid
of_three c (b ∷ d ∷ s) =
    if is_second c b && continues d
    then record { code = (c % 16) * 4096 + (b % 64) * 64 + d % 64; bytes = c ∷ b ∷ d ∷ [] }
    else invalid c
of_three c (b ∷ []) = invalid c
of_three c [] = invalid c

unfoldable pub of_four : ℕ → Str → Rune
unfolding invalid
of_four c (b ∷ d ∷ e ∷ s) =
    if is_second c b && (continues d && continues e)
    then record {
      code = (c % 8) * 262144 + (b % 64) * 4096 + (d % 64) * 64 + e % 64;
      bytes = c ∷ b ∷ d ∷ e ∷ [];
    }
    else invalid c
of_four c (b ∷ d ∷ []) = invalid c
of_four c (b ∷ []) = invalid c
of_four c [] = invalid c

-- utf8.DecodeRune of the text that begins with `c`.
unfoldable pub first_rune : ℕ → Str → Rune
unfolding invalid of_two of_three of_four
first_rune c s =
    if ltb c 128
    then record { code = c; bytes = c ∷ [] }
    else if ltb c 194
    then invalid c
    else if ltb c 224
    then of_two c s
    else if ltb c 240
    then of_three c s
    else if ltb c 245
    then of_four c s
    else invalid c

-- The runes behind the next bytes, which a rune has taken.
unfoldable pub runes_behind : ℕ → Str → List Rune
unfolding first_rune
runes_behind k [] = []
runes_behind zero (c ∷ s) = let r = first_rune c s in r ∷ runes_behind (length r.bytes - 1) s
runes_behind (suc k) (c ∷ s) = runes_behind k s

-- []rune(s)
unfoldable pub runes : Str → List Rune
unfolding runes_behind
runes s = runes_behind 0 s

-- A rune as it is written: U+FFFD in its own three bytes, whatever it was read from.
unfoldable pub written : Rune → Str
written r = if r.code == 65533 then 239 ∷ 191 ∷ 189 ∷ [] else r.bytes

-- string(rs)
unfoldable pub text_of : List Rune → Str
unfolding written
text_of [] = []
text_of (r ∷ rs) = written r ++ text_of rs

-- unicode.IsSpace
abbrev pub is_unicode_space : ℕ → Bool
is_unicode_space c =
    c == 32
    || (leb 9 c && leb c 13)
    || c == 133
    || c == 160
    || c == 5760
    || (leb 8192 c && leb c 8202)
    || c == 8232
    || c == 8233
    || c == 8239
    || c == 8287
    || c == 12288

-- unicode.IsControl
abbrev pub is_unicode_control : ℕ → Bool
is_unicode_control c = ltb c 32 || (leb 127 c && leb c 159)
