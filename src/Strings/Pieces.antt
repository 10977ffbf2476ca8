-- ===== src/Strings/Pieces.antt =====
-- strings.Split on a text that was put together.
use k8s_pod_oom_oracle.Base.{
  ℕ, ◌≡◌, refl, false, ◌||◌, List, [], ◌∷◌, ◌++◌, arith, Str, has_byte, split, onto_first,
}

pub has_byte-append : (b : ℕ) (s t : Str) → has_byte b (s ++ t) ≡ has_byte b s || has_byte b t
has_byte-append b [] t = refl
has_byte-append b (c ∷ s) t = ground (arith, has_byte-append b s t)

-- A text in front of the first piece.
unfoldable pub onto_all : Str → List Str → List Str
unfolding onto_first
onto_all [] ws = ws
onto_all (c ∷ s) ws = onto_first c (onto_all s ws)

pub split-append :
    (b : ℕ) (s t : Str) → has_byte b s ≡ false → split b (s ++ t) ≡ onto_all s (split b t)
unfolding split onto_all
split-append b [] t h = refl
split-append b (c ∷ s) t h = ground (arith, split-append b s t)

pub onto_all-cons : (s w : Str) (ws : List Str) → onto_all s (w ∷ ws) ≡ (s ++ w) ∷ ws
unfolding onto_all
onto_all-cons [] w ws = refl
onto_all-cons (c ∷ s) w ws = rw (onto_all-cons s w ws)
