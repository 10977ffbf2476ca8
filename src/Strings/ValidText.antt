-- ===== src/Strings/ValidText.antt =====
-- Counting and cutting the runes of a text in valid UTF-8, as what JSON was decoded to is: there a rune is
-- a byte that continues no other, with the bytes that continue it.
use k8s_pod_oom_oracle.Base.{ℕ, zero, suc, ◌+◌, ◌≤◌, ◌≡◌, if◌then◌else◌, [], ◌∷◌, ◌++◌, Str, arith}
use k8s_pod_oom_oracle.Strings.Runes.{continues}

-- len([]rune(s))
unfoldable pub rune_count : Str → ℕ
rune_count [] = 0
rune_count (c ∷ s) = let rest = rune_count s in if continues c then rest else suc rest

-- string([]rune(s)[:n])
unfoldable pub take_runes : ℕ → Str → Str
take_runes n [] = []
take_runes zero (c ∷ s) = let rest = take_runes zero s in if continues c then c ∷ rest else []
take_runes (suc n) (c ∷ s) =
    let same = take_runes (suc n) s in
    let fewer = take_runes n s in if continues c then c ∷ same else c ∷ fewer

pub rune_count-append : (s t : Str) → rune_count (s ++ t) ≡ rune_count s + rune_count t
unfolding rune_count
rune_count-append [] t = omega arith
rune_count-append (c ∷ s) t = ground (arith, rune_count-append s t)

pub rune_count-take_runes : (n : ℕ) (s : Str) → rune_count (take_runes n s) ≤ n
unfolding rune_count take_runes
rune_count-take_runes zero [] = omega arith
rune_count-take_runes (suc n) [] = omega arith
rune_count-take_runes zero (c ∷ s) = ground (arith, rune_count-take_runes zero s)
rune_count-take_runes (suc n) (c ∷ s) =
    ground (arith, rune_count-take_runes (suc n) s, rune_count-take_runes n s)
