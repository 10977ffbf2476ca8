-- ===== src/Strings/Clean.antt =====
-- package path: Clean and Join.
pub mod Rooted
use k8s_pod_oom_oracle.Base.{
  ℕ, Bool, true, false, ◌&&◌, not, List, [], ◌∷◌, ◌++◌, reverse, Str, codes, same, select, split,
  ◌==◌, if◌then◌else◌,
}
use k8s_pod_oom_oracle.Strings.Space.{join}

-- A segment that Clean keeps or climbs by.
unfoldable pub is_step : Str → Bool
unfolding same
is_step s = not (same s []) && not (same s (codes "."))

-- "..": it takes the last segment off, is dropped at a root, and is kept at the start of another path.
unfoldable pub climb : Bool → List Str → List Str
unfolding same
climb true [] = []
climb false [] = codes ".." ∷ []
climb rooted (s ∷ done) = if same s (codes "..") then codes ".." ∷ s ∷ done else done

unfoldable pub take_step : Bool → List Str → Str → List Str
unfolding climb same
take_step rooted done s = if same s (codes "..") then climb rooted done else s ∷ done

-- The segments of the clean path, the last first.
unfoldable pub walk : Bool → List Str → List Str → List Str
unfolding take_step
walk rooted done [] = done
walk rooted done (s ∷ ss) = walk rooted (take_step rooted done s) ss

-- Whether a path begins with a slash.
unfoldable pub is_rooted : Str → Bool
is_rooted [] = false
is_rooted (c ∷ s) = c == b'/'

unfoldable pub or_dot : Str → Str
or_dot [] = codes "."
or_dot (c ∷ s) = c ∷ s

unfoldable pub cleaned : Bool → List Str → Str
unfolding walk or_dot join
cleaned true segments = b'/' ∷ join (codes "/") (reverse (walk true [] segments))
cleaned false segments = or_dot (join (codes "/") (reverse (walk false [] segments)))

-- path.Clean
unfoldable pub clean : Str → Str
unfolding cleaned is_rooted is_step split
clean p = cleaned (is_rooted p) (select is_step (split b'/' p))

-- path.Join of two elements that are not both empty.
unfoldable pub join_path : Str → Str → Str
unfolding clean join
join_path a b = clean (join (codes "/") (select (λ s. not (same s [])) (a ∷ b ∷ [])))
