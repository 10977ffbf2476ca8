-- ===== src/Float.antt =====
-- The float64 operations that the program uses, as an interface: the model takes a type of
-- numbers and its operations, and a theorem names the laws it needs.
pub mod Fixtures
use k8s_pod_oom_oracle.Base.{
  ℕ, ℤ, pos, negsuc, pos_part, neg_part, ◌+◌, ◌-◌, ◌*◌, ◌/◌, Bool, Str, Option, leb_ℤ, ltb_ℤ, leb,
  if◌then◌else◌,
}

pub record FloatOps (R : Type 0) : Type 0 where
  pub zero_float : R
  pub one_float : R
  pub of_uint : ℕ → R
  pub add : R → R → R
  pub sub : R → R → R
  pub mul : R → R → R
  pub div : R → R → R
  -- a < b
  pub lt : R → R → Bool
  -- a ≤ b
  pub le : R → R → Bool
  -- math.Max and math.Min
  pub max_float : R → R → R
  pub min_float : R → R → R
  -- strconv.ParseFloat(s, 64), with `none` for an error
  pub parse_float : Str → Option R
  -- d.Seconds()
  pub seconds : ℤ → R
  -- int64(x), as a time.Duration
  pub to_duration : R → ℤ
