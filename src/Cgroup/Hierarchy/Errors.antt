-- ===== src/Cgroup/Hierarchy/Errors.antt =====
-- What an answer of a reader says of the files: an unreadable file is an error and never a zero.
use k8s_pod_oom_oracle.Base.{
  ℕ, ◌≡◌, ◌∙◌, subst, ◌⊎◌, refl, sym, if◌then◌else◌, inl, inr, Bool, false, not, Option, none, some,
  [], ◌∷◌, Map, Str, codes, ◌==◌,
}
use k8s_pod_oom_oracle.Strings.Clean.{join_path}
use k8s_pod_oom_oracle.Cgroup.Stats.{v2, MemoryStats, no_events}
use k8s_pod_oom_oracle.Cgroup.Reader.{
  Read, ok, err, ◌>>=◌, not_exist, permission, psi_unsupported, other_error,
}
use k8s_pod_oom_oracle.Cgroup.Parse.{parse_uint, parse_limit, parse_key_value}
use k8s_pod_oom_oracle.Cgroup.Hierarchy.{
  FileSystem, clean_cgroup_path, field_of, parsed, read_uint, or_zero, read_uint_optional,
  read_limit, pairs_or_none, read_key_value_optional, events_from, with_local_events, is_empty,
  read_memory_stats_v2, oom_group_in, read_oom_group_of,
}

-- A chain that succeeds has succeeded at each step.
pub first_ok :
    {A B : Type 0} (r : Read A) (f : A → Read B) (b : B)
    → (r >>= f) ≡ ok b
    → (a : A) × (r ≡ ok a) × (f a ≡ ok b)
first_ok (ok a) f b h = (a, refl, h)
first_ok (err e) f b h = cc

parsed_ok : {A : Type 0} (o : Option A) (a : A) → parsed o ≡ ok a → o ≡ some a
unfolding parsed
parsed_ok none a h = cc
parsed_ok (some b) a h = cc

-- The file is there, and holds the number.
abbrev pub Holds : FileSystem → Str → ℕ → Type 0
Holds fs name n = (content : Str) × (fs.read_file name ≡ ok content) × (parse_uint content ≡ some n)

-- The file holds the number, or it is not there and the number is zero.
abbrev pub HoldsOrZero : FileSystem → Str → ℕ → Type 0
HoldsOrZero fs name n = Holds fs name n ⊎ (fs.read_file name ≡ err not_exist) × (n ≡ 0)

-- The file holds the fields, or it is not there and there are none.
abbrev pub HoldsFields : FileSystem → Str → Map Str ℕ → Type 0
HoldsFields fs name m =
    ((content : Str) × (fs.read_file name ≡ ok content) × (parse_key_value content ≡ some m))
    ⊎ (fs.read_file name ≡ err not_exist) × (m ≡ [])

read_uint-Holds :
    (fs : FileSystem) (name : Str) (n : ℕ) → read_uint fs name ≡ ok n → Holds fs name n
unfolding read_uint
read_uint-Holds fs name n h =
    let (content, read, rest) = first_ok (fs.read_file name) (λ c. parsed (parse_uint c)) n h in
    (content, read, parsed_ok (parse_uint content) n rest)

-- Only a file that is missing gives the error of a missing file: its content does not.
missing_file :
    {A : Type 0} (r : Read Str) (f : Str → Option A)
    → (r >>= λ c. parsed (f c)) ≡ err not_exist
    → r ≡ err not_exist
unfolding parsed
missing_file {A = A} (ok c) f h = found (f c) h
  where
    found : (o : Option A) → parsed o ≡ err not_exist → Path (Read Str) (ok c) (err not_exist)
    found none q = cc
    found (some k) q = cc
missing_file (err e) f h = cc

zero_of_missing :
    (fs : FileSystem) (name : Str) (r : Read ℕ) (n : ℕ)
    → read_uint fs name ≡ r
    → or_zero r ≡ ok n
    → HoldsOrZero fs name n
unfolding read_uint or_zero
zero_of_missing fs name (ok m) n e h = inl (read_uint-Holds fs name n (e ∙ h))
zero_of_missing fs name (err not_exist) n e h =
    inr (missing_file (fs.read_file name) parse_uint e, cc)
zero_of_missing fs name (err permission) n e h = inl (read_uint-Holds fs name n (e ∙ h))
zero_of_missing fs name (err psi_unsupported) n e h = inl (read_uint-Holds fs name n (e ∙ h))
zero_of_missing fs name (err other_error) n e h = inl (read_uint-Holds fs name n (e ∙ h))

optional-HoldsOrZero :
    (fs : FileSystem) (name : Str) (n : ℕ)
    → read_uint_optional fs name ≡ ok n
    → HoldsOrZero fs name n
unfolding read_uint_optional
optional-HoldsOrZero fs name n h = zero_of_missing fs name (read_uint fs name) n refl h

fields-HoldsFields :
    (fs : FileSystem) (name : Str) (m : Map Str ℕ)
    → read_key_value_optional fs name ≡ ok m
    → HoldsFields fs name m
unfolding read_key_value_optional pairs_or_none
fields-HoldsFields fs name m h = read (fs.read_file name) refl h
  where
    read : (r : Read Str) → fs.read_file name ≡ r → pairs_or_none r ≡ ok m → HoldsFields fs name m
    read (ok c) e q = inl (c, e, parsed_ok (parse_key_value c) m q)
    read (err not_exist) e q = inr (e, cc)
    read (err permission) e q = inr (cc, cc)
    read (err psi_unsupported) e q = inr (cc, cc)
    read (err other_error) e q = inr (cc, cc)

-- The file is there, and holds the limit.
abbrev pub HoldsLimit : FileSystem → Str → ℕ → Type 0
HoldsLimit fs name n =
    (content : Str) × (fs.read_file name ≡ ok content) × (parse_limit content ≡ some n)

limit-HoldsLimit :
    (fs : FileSystem) (name : Str) (n : ℕ) → read_limit fs name ≡ ok n → HoldsLimit fs name n
unfolding read_limit
limit-HoldsLimit fs name n h =
    let (content, read, rest) = first_ok (fs.read_file name) (λ c. parsed (parse_limit c)) n h in
    (content, read, parsed_ok (parse_limit content) n rest)

-- The numbers of `stats` that do not come from memory.events.local are those of the files below `dir`.
abbrev pub CountersOf : FileSystem → Str → MemoryStats → Type 0
CountersOf fs dir stats =
    Holds fs (join_path dir (codes "memory.current")) stats.current
    × HoldsLimit fs (join_path dir (codes "memory.max")) stats.limit
    × HoldsOrZero fs (join_path dir (codes "memory.peak")) stats.peak
    × HoldsOrZero fs (join_path dir (codes "memory.swap.current")) stats.swap
    × ((fields : Map Str ℕ) × HoldsFields fs (join_path dir (codes "memory.stat")) fields
        × (stats.anon ≡ field_of (codes "anon") fields)
        × (stats.file ≡ field_of (codes "file") fields)
        × (stats.kernel ≡ field_of (codes "kernel") fields))
    × ((fields : Map Str ℕ) × HoldsFields fs (join_path dir (codes "memory.events")) fields
        × (stats.events ≡ events_from fields))

-- The counters of the cgroup alone are there where memory.events.local has fields.
abbrev pub LocalOf : FileSystem → Str → MemoryStats → Type 0
LocalOf fs dir stats =
    (fields : Map Str ℕ) × HoldsFields fs (join_path dir (codes "memory.events.local")) fields
    × (stats.has_local_events ≡ not (is_empty fields))
    × (stats.events_local ≡ (if is_empty fields then no_events else events_from fields))

with_local_events-CountersOf :
    (fs : FileSystem) (dir : Str) (m : Map Str ℕ) (stats : MemoryStats)
    → CountersOf fs dir stats
    → CountersOf fs dir (with_local_events m stats)
unfolding with_local_events is_empty
with_local_events-CountersOf fs dir [] stats h = h
with_local_events-CountersOf fs dir (e ∷ m) stats h = h

with_local_events-LocalOf :
    (fs : FileSystem) (dir : Str) (m : Map Str ℕ) (stats : MemoryStats)
    → HoldsFields fs (join_path dir (codes "memory.events.local")) m
    → (stats.has_local_events ≡ false)
    → (stats.events_local ≡ no_events)
    → LocalOf fs dir (with_local_events m stats)
unfolding with_local_events is_empty
with_local_events-LocalOf fs dir [] stats f h k = ([], f, h, k)
with_local_events-LocalOf fs dir (e ∷ m) stats f h k = (e ∷ m, f, refl, refl)

ok_injective : {A : Type 0} {a b : A} → Path (Read A) (ok a) (ok b) → a ≡ b
ok_injective h = cc

-- Statistics that a v2 read returns are the numbers of the cgroup's files: memory.current and
-- memory.max are there and hold the usage and the limit, memory.peak and memory.swap.current hold
-- theirs or are not there with a zero, and each group of counters is of its file's fields, or of no
-- field where the file is not there.
pub read_memory_stats_v2-CountersOf :
    (fs : FileSystem) (path : Str) (stats : MemoryStats)
    → read_memory_stats_v2 fs path ≡ ok stats
    → CountersOf fs (clean_cgroup_path path) stats × LocalOf fs (clean_cgroup_path path) stats
unfolding read_memory_stats_v2
read_memory_stats_v2-CountersOf fs path stats h =
    let dir = clean_cgroup_path path in
    let (current, h₁, k₁) =
      first_ok (read_uint fs (join_path dir (codes "memory.current"))) _ stats h in
    let (limit, h₂, k₂) =
      first_ok (read_limit fs (join_path dir (codes "memory.max"))) _ stats k₁ in
    let (peak, h₃, k₃) =
      first_ok (read_uint_optional fs (join_path dir (codes "memory.peak"))) _ stats k₂ in
    let (swap, h₄, k₄) =
      first_ok (read_uint_optional fs (join_path dir (codes "memory.swap.current"))) _ stats k₃ in
    let (stat, h₅, k₅) =
      first_ok (read_key_value_optional fs (join_path dir (codes "memory.stat"))) _ stats k₄ in
    let (events, h₆, k₆) =
      first_ok (read_key_value_optional fs (join_path dir (codes "memory.events"))) _ stats k₅ in
    let (events_local, h₇, k₇) =
      first_ok (read_key_value_optional fs (join_path dir (codes "memory.events.local"))) _ stats
        k₆ in
    let local = fields-HoldsFields fs _ events_local h₇ in
    subst (λ s. CountersOf fs dir s × LocalOf fs dir s) (ok_injective k₇)
      (
        with_local_events-CountersOf fs dir events_local _ (
          read_uint-Holds fs _ current h₁,
          limit-HoldsLimit fs _ limit h₂,
          optional-HoldsOrZero fs _ peak h₃,
          optional-HoldsOrZero fs _ swap h₄,
          (stat, fields-HoldsFields fs _ stat h₅, refl, refl, refl),
          (events, fields-HoldsFields fs _ events h₆, refl),
        ),
        with_local_events-LocalOf fs dir events_local _ local refl refl,
      )

-- An answer of ReadOOMGroup on a v2 hierarchy is of a cgroup that is there: it is whether the number
-- in memory.oom.group is not zero, and it is no where that file is not there. A cgroup that is not
-- there is an error, not a no.
pub read_oom_group_of-answer :
    (fs : FileSystem) (path : Str) (b : Bool)
    → read_oom_group_of fs v2 path ≡ ok b
    → let dir = clean_cgroup_path path in
      (fs.stat dir ≡ ok tt)
      × ((n : ℕ) × HoldsOrZero fs (join_path dir (codes "memory.oom.group")) n × (b ≡ not (n == 0)))
unfolding read_oom_group_of oom_group_in
read_oom_group_of-answer fs path b h =
    let dir = clean_cgroup_path path in
    let (tt, there, k) = first_ok (fs.stat dir) _ b h in
    let (n, value, l) =
      first_ok (read_uint_optional fs (join_path dir (codes "memory.oom.group"))) _ b k in
    (there, (n, optional-HoldsOrZero fs _ n value, sym (ok_injective l)))
