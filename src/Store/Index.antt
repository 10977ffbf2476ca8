-- ===== src/Store/Index.antt =====
-- The index of `Memory` against a search of its slice.
use k8s_pod_oom_oracle.Base.{
  ℕ, ◌+◌, ◌<◌, ◌≡◌, refl, inl, inr, ite, Option, none, some, List, [], ◌∷◌, ◌++◌, arith, length,
  get_elem?, set, Map, lookup, insert, lookup-insert, Str, str_discrete, Option-cases,
}
use k8s_pod_oom_oracle.Oom.Report.{Report}
use k8s_pod_oom_oracle.Store.{reindex_from}

-- One place further on.
unfoldable pub shift : ℕ → Option ℕ → Option ℕ
shift i none = none
shift i (some k) = some (i + k)

module _ {R : Type 0} where
  -- The place of the first report with an ID.
  unfoldable pub find_index : Str → List (Report R) → Option ℕ
  unfolding shift
  find_index id [] = none
  find_index id (r ∷ rs) = ite (str_discrete id r.id) (some 0) (shift 1 (find_index id rs))

  -- The first report with an ID.
  unfoldable pub find : Str → List (Report R) → Option (Report R)
  find id [] = none
  find id (r ∷ rs) = ite (str_discrete id r.id) (some r) (find id rs)

  -- No two reports share an ID.
  abbrev pub Distinct : List (Report R) → Type 0
  Distinct [] = Unit
  Distinct (r ∷ rs) = (find_index r.id rs ≡ none) × Distinct rs

  pub find_index-append :
      (id : Str) (xs : List (Report R)) (r : Report R)
      → find_index id xs ≡ none
      → find_index id (xs ++ r ∷ []) ≡ ite (str_discrete id r.id) (some (length xs)) none
  unfolding find_index shift
  find_index-append id [] r h = ground arith
  find_index-append id (x ∷ xs) r h =
      ground (arith, find_index-append id xs r, Option-cases (find_index id xs))

  pub find_index-append_some :
      (id : Str) (xs : List (Report R)) (r : Report R) {k : ℕ}
      → find_index id xs ≡ some k
      → find_index id (xs ++ r ∷ []) ≡ some k
  unfolding find_index shift
  find_index-append_some id [] r h = cc
  find_index-append_some id (x ∷ xs) r h = elim (str_discrete id x.id) [
    | yes e ↦ ground arith
    | no ne ↦ elim (Option-cases (find_index id xs)) [
      | inl e ↦ ground arith
      | inr (k', e) ↦ ground (arith, find_index-append_some id xs r e)
    ]
  ]

  pub Distinct-append :
      (xs : List (Report R)) (r : Report R)
      → Distinct xs
      → find_index r.id xs ≡ none
      → Distinct (xs ++ r ∷ [])
  unfolding find_index shift
  Distinct-append [] r d h = (refl, tt)
  Distinct-append (x ∷ xs) r d h = elim (Option-cases (find_index r.id xs)) [
    | inl e ↦ (ground (arith, find_index-append x.id xs r d.0), Distinct-append xs r d.1 e)
    | inr (k, e) ↦ absurd (ground arith)
  ]

  -- The rebuilt index finds what a search finds.
  pub lookup-reindex_from :
      (id : Str) (i : ℕ) (rs : List (Report R)) (m : Map Str ℕ)
      → Distinct rs
      → lookup str_discrete id (reindex_from i rs m)
        ≡ elim (find_index id rs) [ none ↦ lookup str_discrete id m | some k ↦ some (i + k) ]
  unfolding reindex_from find_index shift
  lookup-reindex_from id i [] m d = refl
  lookup-reindex_from id i (r ∷ rs) m d = ground (
    arith,
    lookup-reindex_from id (i + 1) rs (insert str_discrete r.id i m) d.1,
    lookup-insert str_discrete r.id id i m,
    Option-cases (find_index id rs),
  )

  pub get_elem?-find_index :
      (id : Str) (xs : List (Report R))
      → elim (find_index id xs) [ none ↦ none | some k ↦ get_elem? xs k ] ≡ find id xs
  unfolding find_index find shift
  get_elem?-find_index id [] = refl
  get_elem?-find_index id (x ∷ xs) = elim (str_discrete id x.id) [
    | yes e ↦ ground arith
    | no ne ↦ elim (Option-cases (find_index id xs)) [
      | inl e ↦ ground (arith, get_elem?-find_index id xs)
      | inr (k, e) ↦ ground (arith, get_elem?-find_index id xs)
    ]
  ]

  pub find_index-lt :
      (id : Str) (xs : List (Report R)) {k : ℕ} → find_index id xs ≡ some k → k < length xs
  unfolding find_index shift
  find_index-lt id [] h = cc
  find_index-lt id (x ∷ xs) h = elim (str_discrete id x.id) [
    | yes e ↦ ground arith
    | no ne ↦ elim (Option-cases (find_index id xs)) [
      | inl e ↦ absurd (ground arith)
      | inr (k, e) ↦ ground (arith, find_index-lt id xs e)
    ]
  ]

  -- A report put in the place of one with its ID moves no ID.
  pub find_index-set :
      (id : Str) (xs : List (Report R)) (r : Report R) (i : ℕ)
      → find_index r.id xs ≡ some i
      → find_index id (set xs i r) ≡ find_index id xs
  unfolding find_index shift
  find_index-set id [] r i h = cc
  find_index-set id (x ∷ xs) r i h = elim (str_discrete r.id x.id) [
    | yes e ↦ ground arith
    | no ne ↦ elim (Option-cases (find_index r.id xs)) [
      | inl e ↦ absurd (ground arith)
      | inr (k, e) ↦ ground (arith, find_index-set id xs r k e)
    ]
  ]
