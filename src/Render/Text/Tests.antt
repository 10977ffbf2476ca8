-- ===== src/Render/Text/Tests.antt =====
-- The text of a report with two readings.
use k8s_pod_oom_oracle.Base.{
  ℕ, refl, arith, ltb, leb, ◌≡◌, ◌≤◌, ◌*◌, true, none, [], ◌∷◌, codes, pos, false,
}
use k8s_pod_oom_oracle.Float.Fixtures.{whole_numbers}
use k8s_pod_oom_oracle.Strings.Numbers.{decimal}
use k8s_pod_oom_oracle.Correlate.Identity.{no_scope, of_scope}
use k8s_pod_oom_oracle.Detector.Event.{Source, no_victim}
use k8s_pod_oom_oracle.Oom.Report.{Report, TrajectoryPoint, VictimMatch}
use k8s_pod_oom_oracle.Render.Text.{TextFormats, text}
use k8s_pod_oom_oracle.Render.Text.Total.{FloatLaws, HasText, text-HasText}

abbrev formats : TextFormats ℕ
formats = record {
  fixed = λ n x. decimal x;
  date_time = λ t. decimal t;
  clock = λ t. decimal t;
  rounded = λ d. codes "1s";
  to_uint = λ x. x;
}

abbrev reading : ℕ → TrajectoryPoint ℕ
reading ratio = record {
  time = 5;
  used_bytes = 512;
  limit_bytes = 512;
  ratio = ratio;
  pressure_full = 0;
}

abbrev report : Report ℕ
report = record {
  id = codes "a-1";
  time = 9;
  identity = of_scope no_scope;
  victim = no_victim;
  source = Source.poller;
  kill_count = 1;
  limit_bytes = 512;
  peak_bytes = 512;
  trajectory = reading 0 ∷ reading 7 ∷ [];
  processes = [];
  victim_match = VictimMatch.unset;
  group_kill = none;
  trend = record {
    bytes_per_second = 0;
    r_squared = 0;
    samples = 0;
    window = pos 0;
    time_to_limit = pos 0;
    projected = false;
  };
}

le_of_not_ltb : (x y : ℕ) → ltb x y ≡ false → leb y x ≡ true
le_of_not_ltb x y h = ground arith

at_most_one : (x : ℕ) → leb x 1 ≡ true → x * 18 ≤ 18
at_most_one x h = ground arith

-- Whole numbers satisfy the laws.
laws : FloatLaws whole_numbers
laws = record {
  zero_is_number = refl;
  one_is_number = refl;
  zero_le_one = refl;
  le_of_not_lt = λ x y h k e. le_of_not_ltb x y e;
  part_of_bar = λ x h k. (x * 18, refl, at_most_one x k);
}

-- The last ratio is far above one.
text-HasText_example : HasText (text ⦃fl = whole_numbers⦄ formats report)
text-HasText_example = text-HasText ⦃fl = whole_numbers⦄ laws formats report (refl, (refl, tt))
