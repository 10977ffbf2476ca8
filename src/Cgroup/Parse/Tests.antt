-- ===== src/Cgroup/Parse/Tests.antt =====
-- Control files as the kernel writes them.
use k8s_pod_oom_oracle.Base.{◌≡◌, refl, none, some, [], ◌∷◌, ◌++◌, Str, codes, same}
use k8s_pod_oom_oracle.Strings.Space.{is_space, trim_left_by, trim_right_by, trim_space}
use k8s_pod_oom_oracle.Strings.Numbers.{digits_from, parse_decimal}
use k8s_pod_oom_oracle.Cgroup.Stats.{unlimited, normalise_limit}
use k8s_pod_oom_oracle.Cgroup.Parse.{parse_uint, normalised, parse_limit}

-- 512 and a newline.
abbrev file : Str
file = codes "512" ++ 10 ∷ []

parsed_others :
    (parse_uint (10 ∷ []) ≡ some 0)
    × (parse_uint (codes "5x") ≡ none)
    × (parse_uint (codes "18446744073709551616") ≡ none)
    × (parse_limit (codes "max") ≡ some unlimited)
unfolding parse_limit parse_uint trim_space trim_left_by trim_right_by is_space same parse_decimal
    digits_from
parsed_others = (refl, refl, refl, refl)

limit : parse_limit file ≡ some 512
unfolding parse_limit normalised normalise_limit parse_uint trim_space trim_left_by trim_right_by
    is_space same parse_decimal digits_from
limit = refl
