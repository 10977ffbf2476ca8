-- ===== src/Sampler/Ring.antt =====
-- internal/sampler/ring.go: `Ring`, a circular buffer. A slot that was never written holds the zero
-- value, which is `none` here.
pub mod Refine
mod Tests
use k8s_pod_oom_oracle.Base.{
  ℕ, zero, suc, ◌+◌, ◌-◌, ◌%◌, Bool, true, false, Option, none, some, List, [], ◌∷◌, ◌++◌, length,
  get_elem?, set, take, drop, replicate, ◌==◌, if◌then◌else◌,
}

module _ (A : Type 0) where
  pub record Ring : Type 0 where
    pub samples : List (Option A)
    pub next : ℕ
    pub filled : Bool

  -- `NewRing` for a positive capacity. The code panics on any other; its callers pass none.
  unfoldable pub new_ring : ℕ → Ring
  new_ring capacity = record { samples = replicate capacity none; next = 0; filled = false }

module _ {A : Type 0} where
  unfoldable pub add : Ring A → A → Ring A
  add r s =
      let next = (r.next + 1) % length r.samples in
      record {
        samples = set r.samples r.next (some s);
        next = next;
        filled = if next == 0 then true else r.filled;
      }

  pub len : Ring A → ℕ
  len r = if r.filled then length r.samples else r.next

  pub cap : Ring A → ℕ
  cap r = length r.samples

  -- `Samples`: oldest first.
  pub samples_of : Ring A → List (Option A)
  samples_of r = (if r.filled then drop r.next r.samples else []) ++ take r.next r.samples

  -- `Latest`: `none` for an empty ring.
  pub latest : Ring A → Option (Option A)
  unfolding len
  latest r =
      if len r == 0
      then none
      else get_elem? r.samples ((r.next + length r.samples - 1) % length r.samples)

  pub add_all : Ring A → List A → Ring A
  add_all r [] = r
  add_all r (s ∷ ss) = add_all (add r s) ss
