-- ===== src/Strings/Runes/Fields.antt =====
-- Where a text may be cut with its runes as they were: before a byte that continues no rune.
use k8s_pod_oom_oracle.Base.{
  ℕ, zero, suc, ◌-◌, ◌≤◌, ◌≡◌, refl, ap, false, [], ◌∷◌, ◌++◌, Str, length, arith, length-append,
}
use k8s_pod_oom_oracle.Strings.Runes.{
  Rune, continues, is_second, of_two, of_three, of_four, first_rune, runes_behind, runes,
}
use k8s_pod_oom_oracle.Strings.Runes.Decoding.{IsRead, ascii, high, first_rune-IsRead}

-- The text is empty, or its first byte continues no rune.
abbrev pub Stops : Str → Type 0
Stops [] = Unit
Stops (b ∷ s) = continues b ≡ false

not_second : (c b : ℕ) → continues b ≡ false → is_second c b ≡ false
not_second c b h = ground arith

of_two-Stops : (c : ℕ) (u v : Str) → Stops v → of_two c (u ++ v) ≡ of_two c u
unfolding of_two
of_two-Stops c [] [] h = refl
of_two-Stops c [] (b ∷ v) h = rw h refl
of_two-Stops c (d ∷ u) v h = refl

of_three-Stops : (c : ℕ) (u v : Str) → Stops v → of_three c (u ++ v) ≡ of_three c u
unfolding of_three
of_three-Stops c [] [] h = refl
of_three-Stops c [] (b ∷ []) h = refl
of_three-Stops c [] (b ∷ d ∷ v) h = rw (not_second c b h) refl
of_three-Stops c (b ∷ []) [] h = refl
of_three-Stops c (b ∷ []) (d ∷ v) h = ground arith
of_three-Stops c (b ∷ d ∷ u) v h = refl

of_four-Stops : (c : ℕ) (u v : Str) → Stops v → of_four c (u ++ v) ≡ of_four c u
unfolding of_four
of_four-Stops c [] [] h = refl
of_four-Stops c [] (b ∷ []) h = refl
of_four-Stops c [] (b ∷ d ∷ []) h = refl
of_four-Stops c [] (b ∷ d ∷ e ∷ v) h = rw (not_second c b h) refl
of_four-Stops c (b ∷ []) [] h = refl
of_four-Stops c (b ∷ []) (d ∷ []) h = refl
of_four-Stops c (b ∷ []) (d ∷ e ∷ v) h = ground arith
of_four-Stops c (b ∷ d ∷ []) [] h = refl
of_four-Stops c (b ∷ d ∷ []) (e ∷ v) h = ground arith
of_four-Stops c (b ∷ d ∷ e ∷ u) v h = refl

pub first_rune-Stops : (c : ℕ) (u v : Str) → Stops v → first_rune c (u ++ v) ≡ first_rune c u
unfolding first_rune
first_rune-Stops c u v h =
    rw (of_two-Stops c u v h, of_three-Stops c u v h, of_four-Stops c u v h) refl

-- What a rune has taken is left out behind it.
pub runes_behind-taken : (t s : Str) → runes_behind (length t) (t ++ s) ≡ runes s
unfolding runes_behind runes
runes_behind-taken [] s = refl
runes_behind-taken (c ∷ t) s = runes_behind-taken t s

-- The first rune of a text does not reach behind its end.
taken_fits : (c : ℕ) (s : Str) (r : Rune) → IsRead c s r → length r.bytes ≤ suc (length s)
taken_fits c s r (ascii a e) = rw e (omega arith)
taken_fits c s r (high taken left a e k b) = rw (b, e) (omega (arith, length-append {0} taken left))

runes_behind-append :
    (k : ℕ) (u v : Str)
    → Stops v
    → k ≤ length u
    → runes_behind k (u ++ v) ≡ runes_behind k u ++ runes v
unfolding runes_behind runes
runes_behind-append zero [] v h l = refl
runes_behind-append (suc k) [] v h l = absurd (omega arith)
runes_behind-append (suc k) (c ∷ u) v h l = runes_behind-append k u v h (omega arith)
runes_behind-append zero (c ∷ u) v h l = rw (first_rune-Stops c u v h) (
    ap (◌∷◌ (first_rune c u)) (
      runes_behind-append (length (first_rune c u).bytes - 1) u v h
        (omega (arith, taken_fits c u (first_rune c u) (first_rune-IsRead c u)))))

pub runes-append : (u v : Str) → Stops v → runes (u ++ v) ≡ runes u ++ runes v
unfolding runes
runes-append u v h = runes_behind-append 0 u v h (omega arith)
