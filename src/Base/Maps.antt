-- ===== src/Base/Maps.antt =====
-- Go maps as association lists. A read takes the first entry of a key, a write replaces it, and a
-- delete takes out every entry of the key, so that a map is known by its lookups.
use mathlib.Core.List.{List, [], ◌∷◌}
use mathlib.Core.Logic.{ite}
use mathlib.Core.Option.{Option, none, some}
use mathlib.Core.Path.{◌≡◌, refl}
use native.Mathlib.Omega.{arith}

abbrev pub Map {ℓ} : Type ℓ → Type ℓ → Type ℓ
Map K V = List (K × V)

module _ {ℓ} {K V : Type ℓ} where
  abbrev pub keys : Map K V → List K
  keys [] = []
  keys ((k, v) ∷ m) = k ∷ keys m

module _ {ℓ} {K V : Type ℓ} (dec : Discrete K) where
  unfoldable pub lookup : K → Map K V → Option V
  lookup k [] = none
  lookup k ((j, v) ∷ m) = ite (dec k j) (some v) (lookup k m)

  unfoldable pub insert : K → V → Map K V → Map K V
  insert k v [] = (k, v) ∷ []
  insert k v ((j, w) ∷ m) = ite (dec k j) ((k, v) ∷ m) ((j, w) ∷ insert k v m)

  unfoldable pub delete : K → Map K V → Map K V
  delete k [] = []
  delete k ((j, w) ∷ m) = ite (dec k j) (delete k m) ((j, w) ∷ delete k m)

  pub lookup-insert :
      (k j : K) (v : V) (m : Map K V)
      → lookup j (insert k v m) ≡ ite (dec j k) (some v) (lookup j m)
  unfolding lookup insert
  lookup-insert k j v [] = refl
  lookup-insert k j v ((first, w) ∷ rest) = ground (arith, lookup-insert k j v rest)

  pub lookup-delete :
      (k j : K) (m : Map K V) → lookup j (delete k m) ≡ ite (dec j k) none (lookup j m)
  unfolding lookup delete
  lookup-delete k j [] = ground arith
  lookup-delete k j ((i, w) ∷ m) = ground (arith, lookup-delete k j m)

module _ {ℓ} {K V : Type ℓ} (dec : Discrete K) where
  -- No key has two entries, as in a Go map.
  abbrev pub Unique : Map K V → Type ℓ
  Unique [] = Unit
  Unique ((k, v) ∷ m) = (lookup dec k m ≡ none) × Unique m

  pub insert-Unique : (k : K) (v : V) (m : Map K V) → Unique m → Unique (insert dec k v m)
  unfolding lookup insert
  insert-Unique k v [] u = (refl, tt)
  insert-Unique k v ((j, w) ∷ m) u = elim (dec k j) [
    | yes e ↦ ground arith
    | no ne ↦ ground (arith, lookup-insert dec k j v m, insert-Unique k v m u.1)
  ]

  pub delete-Unique : (k : K) (m : Map K V) → Unique m → Unique (delete dec k m)
  unfolding lookup delete
  delete-Unique k [] u = tt
  delete-Unique k ((j, w) ∷ m) u = elim (dec k j) [
    | yes e ↦ ground (arith, delete-Unique k m u.1)
    | no ne ↦ ground (arith, lookup-delete dec k j m, delete-Unique k m u.1)
  ]
