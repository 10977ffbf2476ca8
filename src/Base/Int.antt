-- ===== src/Base/Int.antt =====
-- Signed integers over the native numbers: Go's int, int64 and time.Duration.
use Prim.Native.Nat.{ℕ, suc, ◌+◌, ◌≤◌}
use mathlib.Core.Bool.{Bool}
use mathlib.Core.Path.{◌≡◌, refl}
use native.Mathlib.Omega.{arith}
use k8s_pod_oom_oracle.Base.Tests.{leb, ltb, if◌then◌else◌}

-- `negsuc n` is -(n + 1).
pub data ℤ : Type 0 where
  pos : ℕ → ℤ
  negsuc : ℕ → ℤ

abbrev pub pos_part : ℤ → ℕ
pos_part (pos n) = n
pos_part (negsuc n) = 0

abbrev pub neg_part : ℤ → ℕ
neg_part (pos n) = 0
neg_part (negsuc n) = suc n

abbrev pub leb_ℤ : ℤ → ℤ → Bool
leb_ℤ a b = leb (pos_part a + neg_part b) (pos_part b + neg_part a)

abbrev pub ltb_ℤ : ℤ → ℤ → Bool
ltb_ℤ a b = ltb (pos_part a + neg_part b) (pos_part b + neg_part a)

infix 50 ◌≤ℤ◌
abbrev pub ◌≤ℤ◌ : ℤ → ℤ → Type 0
a ≤ℤ b = pos_part a + neg_part b ≤ pos_part b + neg_part a

infix 50 ◌==ℤ◌
abbrev pub ◌==ℤ◌ : ℤ → ℤ → Bool
a ==ℤ b = if leb_ℤ a b then leb_ℤ b a else leb_ℤ a b

pub ==ℤ→eq : (a b : ℤ) → a ==ℤ b ≡ Bool.true → a ≡ b
==ℤ→eq (pos a) (pos b) h = ground arith
==ℤ→eq (pos a) (negsuc b) h = ground arith
==ℤ→eq (negsuc a) (pos b) h = ground arith
==ℤ→eq (negsuc a) (negsuc b) h = ground arith

pub ==ℤ-refl : (a : ℤ) → a ==ℤ a ≡ Bool.true
==ℤ-refl (pos a) = ground arith
==ℤ-refl (negsuc a) = ground arith

discrete_of_test : (a b : ℤ) (t : Bool) → a ==ℤ b ≡ t → Dec (a ≡ b)
discrete_of_test a b Bool.true h = yes (==ℤ→eq a b h)
discrete_of_test a b Bool.false h = no (λ e. ground (arith, ==ℤ-refl a))

pub ℤ_discrete : Discrete ℤ
unfolding discrete_of_test
ℤ_discrete a b = discrete_of_test a b (a ==ℤ b) refl
