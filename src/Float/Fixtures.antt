-- ===== src/Float/Fixtures.antt =====
-- Whole numbers in the place of float64, for the tests.
use k8s_pod_oom_oracle.Base.{ℕ, ◌+◌, ◌-◌, ◌*◌, ◌/◌, ltb, leb, pos, pos_part, if◌then◌else◌}
use k8s_pod_oom_oracle.Strings.Numbers.{parse_decimal}
use k8s_pod_oom_oracle.Float.{FloatOps}

abbrev pub whole_numbers : FloatOps ℕ
whole_numbers = record {
  zero_float = 0;
  one_float = 1;
  of_uint = λ n. n;
  add = λ a b. a + b;
  sub = λ a b. a - b;
  mul = λ a b. a * b;
  div = λ a b. a / b;
  lt = ltb;
  le = leb;
  max_float = λ a b. if ltb a b then b else a;
  min_float = λ a b. if ltb a b then a else b;
  parse_float = λ s. parse_decimal s;
  seconds = λ d. pos_part d / 1000000000;
  to_duration = λ a. pos a;
}
