-- ===== src/Clock.antt =====
-- time.Time and time.Duration: an instant is its nanoseconds since an origin before all readings,
-- a duration is signed and saturates at the ends of int64.
use k8s_pod_oom_oracle.Base.{ℕ, ◌+◌, ◌-◌, ◌^◌, min, ℤ, pos, negsuc, Bool, leb, ltb, if◌then◌else◌}

abbrev pub Time : Type 0
Time = ℕ

abbrev pub Duration : Type 0
Duration = ℤ

abbrev pub max_int64 : ℕ
max_int64 = 2 ^ 63 - 1

abbrev pub second : ℕ
second = 1000000000

-- t.Sub(u)
unfoldable pub time_sub : Time → Time → Duration
time_sub t u = if leb u t then pos (min (t - u) max_int64) else negsuc (min (u - t - 1) max_int64)

-- t.Add(d)
unfoldable pub time_add : Time → Duration → Time
time_add t (pos d) = t + d
time_add t (negsuc d) = t - (d + 1)

-- t.After(u)
abbrev pub after : Time → Time → Bool
after t u = ltb u t
