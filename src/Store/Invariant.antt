-- ===== src/Store/Invariant.antt =====
-- `Memory` keeps its index in step with its slice, and never indexes out of range.
use k8s_pod_oom_oracle.Base.{
  ℕ, zero, suc, ◌≤◌, ◌<◌, ◌≡◌, refl, inl, inr, none, some, List, [], ◌∷◌, arith, length,
  length-append, length-set, length-drop, set, drop, lookup, lookup-insert, Str, str_discrete, leb,
  Option-cases, Bool-cases, ℤ, pos, negsuc,
}
use k8s_pod_oom_oracle.Oom.Report.{Report}
use k8s_pod_oom_oracle.Store.{ok, Memory, new_memory, reindex, make_room, append, put}
use k8s_pod_oom_oracle.Store.Index.{
  shift, find_index, Distinct, find_index-append, find_index-append_some, Distinct-append,
  lookup-reindex_from, find_index-lt, find_index-set,
}

pub record IsValid {R : Type 0} (m : Memory R) : Type 0 where
  pub positive : 0 < m.capacity
  pub bounded : length m.ordered ≤ m.capacity
  pub distinct : Distinct m.ordered
  pub indexed : (id : Str) → lookup str_discrete id m.by_id ≡ find_index id m.ordered

-- A store starts valid and empty, whatever capacity it is asked for.
pub new_memory-IsValid : (R : Type 0) (capacity : ℤ) → IsValid (new_memory R capacity)
unfolding new_memory lookup find_index
new_memory-IsValid R (pos zero) = record {
  positive = omega arith;
  bounded = omega arith;
  distinct = tt;
  indexed = λ id. refl;
}
new_memory-IsValid R (pos (suc n)) = record {
  positive = ground arith;
  bounded = ground arith;
  distinct = tt;
  indexed = λ id. refl;
}
new_memory-IsValid R (negsuc n) = record {
  positive = ground arith;
  bounded = ground arith;
  distinct = tt;
  indexed = λ id. refl;
}

module _ {R : Type 0} where
  Distinct-drop : (xs : List (Report R)) → Distinct xs → Distinct (drop 1 xs)
  Distinct-drop [] d = tt
  Distinct-drop (x ∷ xs) d = d.1

  Distinct-set :
      (xs : List (Report R)) (r : Report R) (i : ℕ)
      → Distinct xs
      → find_index r.id xs ≡ some i
      → Distinct (set xs i r)
  unfolding find_index shift
  Distinct-set [] r i d h = cc
  Distinct-set (x ∷ xs) r i d h = elim (str_discrete r.id x.id) [
    | yes e ↦ ground arith
    | no ne ↦ elim (Option-cases (find_index r.id xs)) [
      | inl e ↦ absurd (ground arith)
      | inr (k, e) ↦ ground (arith, find_index-set x.id xs r k e, Distinct-set xs r k d.1 e)
    ]
  ]

  find_index-drop :
      (id : Str) (xs : List (Report R)) → find_index id xs ≡ none → find_index id (drop 1 xs) ≡ none
  unfolding find_index shift
  find_index-drop id [] h = refl
  find_index-drop id (x ∷ xs) h = ground arith

  reindex-IsValid :
      (m : Memory R)
      → 0 < m.capacity
      → length m.ordered ≤ m.capacity
      → Distinct m.ordered
      → IsValid (reindex m)
  unfolding reindex lookup
  reindex-IsValid m p b d = record {
    positive = p;
    bounded = b;
    distinct = d;
    indexed = λ id.
        ground
          (arith, lookup-reindex_from id 0 m.ordered [] d, Option-cases (find_index id m.ordered));
  }

  pub make_room-IsValid :
      (m : Memory R)
      → IsValid m
      → IsValid (make_room m)
        × (length (make_room m).ordered < m.capacity)
        × ((make_room m).capacity ≡ m.capacity)
  unfolding make_room reindex
  make_room-IsValid m v = elim (Bool-cases (leb m.capacity (length m.ordered))) [
    | inl full ↦ rw full (
      reindex-IsValid (record m { ordered = drop 1 m.ordered }) v.positive
          (omega (arith, length-drop 1 m.ordered, v.bounded)) (Distinct-drop m.ordered v.distinct),
      ground (arith, length-drop 1 m.ordered, v.bounded, v.positive),
      refl,
    )
    | inr free ↦ rw free (v, ground arith, refl)
  ]

  append-IsValid :
      (m : Memory R) (r : Report R)
      → IsValid m
      → length m.ordered < m.capacity
      → find_index r.id m.ordered ≡ none
      → IsValid (append m r)
  unfolding append
  append-IsValid m r v room new = record {
    positive = v.positive;
    bounded = omega (arith, length-append m.ordered (r ∷ []));
    distinct = Distinct-append m.ordered r v.distinct new;
    indexed = λ id. elim (Option-cases (find_index id m.ordered)) [
      | inl e ↦ ground (
        arith,
        lookup-insert str_discrete r.id id (length m.ordered) m.by_id,
        v.indexed id,
        find_index-append id m.ordered r e,
      )
      | inr (k, e) ↦ ground (
        arith,
        lookup-insert str_discrete r.id id (length m.ordered) m.by_id,
        v.indexed id,
        find_index-append_some id m.ordered r e,
      )
    ];
  }

  pub make_room_absent :
      (m : Memory R) (id : Str)
      → find_index id m.ordered ≡ none
      → find_index id (make_room m).ordered ≡ none
  unfolding make_room reindex
  make_room_absent m id h = ground (arith, find_index-drop id m.ordered h)

  pub put_new :
      (m : Memory R) (r : Report R)
      → IsValid m
      → find_index r.id m.ordered ≡ none
      → (put m r ≡ ok (append (make_room m) r)) × IsValid (append (make_room m) r)
  unfolding put
  put_new m r v h =
      let made = make_room-IsValid m v in
      (
        ground (arith, v.indexed r.id),
        append-IsValid (make_room m) r made.0 (omega arith) (make_room_absent m r.id h),
      )

  pub put_known :
      (m : Memory R) (r : Report R) (i : ℕ)
      → IsValid m
      → find_index r.id m.ordered ≡ some i
      → (put m r ≡ ok (record m { ordered = set m.ordered i r }))
        × IsValid (record m { ordered = set m.ordered i r })
  unfolding put
  put_known m r i v h = (
    ground (arith, v.indexed r.id, find_index-lt r.id m.ordered h),
    record {
      positive = v.positive;
      bounded = omega (arith, length-set m.ordered i r, v.bounded);
      distinct = Distinct-set m.ordered r i v.distinct h;
      indexed = λ id. ground (arith, v.indexed id, find_index-set id m.ordered r i h);
    },
  )

  -- `Put` succeeds on a valid store and leaves it valid: the index never runs out of range.
  pub put-IsValid :
      (m : Memory R) (r : Report R) → IsValid m → (m' : Memory R) × (put m r ≡ ok m') × IsValid m'
  put-IsValid m r v = elim (Option-cases (find_index r.id m.ordered)) [
    | inl h ↦ let done = put_new m r v h in (append (make_room m) r, done.0, done.1)
    | inr (i, h) ↦
        let done = put_known m r i v h in (record m { ordered = set m.ordered i r }, done.0, done.1)
  ]
