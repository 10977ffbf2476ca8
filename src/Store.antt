-- ===== src/Store.antt =====
-- internal/store/store.go: `Memory`, the bounded in-memory store of reports. The mutex is not
-- modelled: each method holds it from its first line to its last, so the methods are atomic.
pub mod Index
pub mod Invariant
pub mod Queries
pub mod History
mod Tests
use k8s_pod_oom_oracle.Base.{
  ℕ, zero, suc, ◌+◌, ◌-◌, ◌*◌, ◌/◌, ◌%◌, ◌^◌, ◌≤◌, ◌<◌, min, max, ◌≡◌, refl, sym, ap, ap₂, ◌∙◌, ◌≢◌,
  ◌↔◌, ◌⊎◌, inl, inr, ite, Bool, true, false, ◌&&◌, ◌||◌, not, Option, none, some, List, [], ◌∷◌,
  ◌++◌, map, reverse, arith, length, get_elem?, set, take, drop, select, Map, lookup, insert, Str,
  same, str_discrete, ℤ, pos, negsuc, ltb, leb, ◌==◌, if◌then◌else◌, leb_ℤ, ltb_ℤ, pos_part,
}
use k8s_pod_oom_oracle.Oom.Report.{Report}

-- `not_found` is ErrNotFound; `panic` is an index out of range.
pub data Result (A : Type 0) : Type 0 where
  ok : A → Result A
  not_found : Result A
  panic : Result A

pub record Filter : Type 0 where
  pub namespace : Str
  pub pod : Str
  pub container : Str
  pub limit : ℤ

abbrev pub default_capacity : ℕ
default_capacity = 256

-- A set filter field against the report's.
field_matches : Str → Str → Bool
field_matches wanted have = if same wanted [] then true else same have wanted

module _ {R : Type 0} where
  pub matches : Filter → Report R → Bool
  unfolding field_matches
  matches f r =
      if not (field_matches f.namespace r.identity.namespace)
      then false
      else if not (field_matches f.pod r.identity.pod_name)
      then false
      else if not (field_matches f.container r.identity.container_name)
      then false
      else true

module _ (R : Type 0) where
  -- `ordered` is oldest first; `by_id` gives the place of an ID in it.
  pub record Memory : Type 0 where
    pub capacity : ℕ
    pub ordered : List (Report R)
    pub by_id : Map Str ℕ

  pub new_memory : ℤ → Memory
  new_memory capacity = record {
    capacity = if leb_ℤ capacity (pos 0) then default_capacity else pos_part capacity;
    ordered = [];
    by_id = [];
  }

module _ {R : Type 0} where
  -- The loop of `reindexLocked`, from place `i` on.
  pub reindex_from : ℕ → List (Report R) → Map Str ℕ → Map Str ℕ
  reindex_from i [] m = m
  reindex_from i (r ∷ rs) m = reindex_from (i + 1) rs (insert str_discrete r.id i m)

  -- `reindexLocked` clears the index first.
  pub reindex : Memory R → Memory R
  reindex m = record m { by_id = reindex_from 0 m.ordered [] }

  pub make_room : Memory R → Memory R
  unfolding reindex
  make_room m =
      if leb m.capacity (length m.ordered)
      then reindex (record m { ordered = drop 1 m.ordered })
      else m

  pub append : Memory R → Report R → Memory R
  append m r = record m {
    ordered = m.ordered ++ r ∷ [];
    by_id = insert str_discrete r.id (length m.ordered) m.by_id;
  }

  pub put : Memory R → Report R → Result (Memory R)
  unfolding make_room append
  put m r = elim (lookup str_discrete r.id m.by_id) [
    | some i ↦
        if ltb i (length m.ordered) then ok (record m { ordered = set m.ordered i r }) else panic
    | none ↦ ok (append (make_room m) r)
  ]

  at_index : Option (Report R) → Result (Report R)
  at_index (some r) = ok r
  at_index none = panic

  pub get : Memory R → Str → Result (Report R)
  unfolding at_index
  get m id = elim (lookup str_discrete id m.by_id) [
    | none ↦ not_found
    | some i ↦ at_index (get_elem? m.ordered i)
  ]

  pub list : Memory R → Filter → List (Report R)
  unfolding matches
  list m f =
      let matched = reverse (select (matches f) m.ordered) in
      if ltb_ℤ (pos 0) f.limit && ltb (pos_part f.limit) (length matched)
      then take (pos_part f.limit) matched
      else matched

  pub len : Memory R → ℕ
  len m = length m.ordered

  -- Successive calls of `Put`.
  pub put_all : Memory R → List (Report R) → Result (Memory R)
  put_all m [] = ok m
  put_all m (r ∷ rs) = elim (put m r) [
    | ok m' ↦ put_all m' rs
    | not_found ↦ not_found
    | panic ↦ panic
  ]
