-- ===== src/Store/History.antt =====
-- A run of `Put` calls against the bounded history that the store promises.
use k8s_pod_oom_oracle.Base.{
  ℕ, zero, suc, ◌-◌, ◌<◌, ◌≡◌, refl, sym, ap, ◌∙◌, ◌≢◌, inl, inr, none, List, [], ◌∷◌, ◌++◌, arith,
  length, length-append, drop, drop-append, Str, str_discrete, leb, Option-cases, Bool-cases,
  append-nil, append_assoc, pos, subst,
}
use k8s_pod_oom_oracle.Base.{last, last_of_length-le, last-append-last, drop-eq}
use k8s_pod_oom_oracle.Oom.Report.{Report}
use k8s_pod_oom_oracle.Store.{ok, Memory, new_memory, reindex, make_room, append, put_all}
use k8s_pod_oom_oracle.Store.Index.{shift, find_index, Distinct}
use k8s_pod_oom_oracle.Store.Invariant.{IsValid, put_new, make_room-IsValid, new_memory-IsValid}

module _ {R : Type 0} where
  make_room-last :
      (m : Memory R) (r : Report R)
      → IsValid m
      → (append (make_room m) r).ordered ≡ last m.capacity (m.ordered ++ r ∷ [])
  unfolding append make_room reindex last
  make_room-last m r v = elim (Bool-cases (leb m.capacity (length m.ordered))) [
    | inl full ↦ rw full (
        sym (drop-append 1 m.ordered (r ∷ []) (ground (arith, v.positive)))
        ∙ drop-eq 1 (length (m.ordered ++ r ∷ []) - m.capacity) (m.ordered ++ r ∷ [])
            (ground (arith, length-append m.ordered (r ∷ []), v.bounded, v.positive)))
    | inr free ↦ rw free (
        drop-eq 0 (length (m.ordered ++ r ∷ []) - m.capacity) (m.ordered ++ r ∷ [])
          (ground (arith, length-append m.ordered (r ∷ []))))
  ]

  Distinct-drop-append :
      (k : ℕ) (xs ys : List (Report R)) → Distinct (xs ++ ys) → Distinct (drop k xs ++ ys)
  Distinct-drop-append zero xs ys d = d
  Distinct-drop-append (suc k) [] ys d = d
  Distinct-drop-append (suc k) (x ∷ xs) ys d = Distinct-drop-append k xs ys d.1

  find_index_left :
      (id : Str) (xs ys : List (Report R))
      → find_index id (xs ++ ys) ≡ none
      → find_index id xs ≡ none
  unfolding find_index shift
  find_index_left id [] ys h = refl
  find_index_left id (x ∷ xs) ys h = elim (str_discrete id x.id) [
    | yes e ↦ absurd (ground arith)
    | no ne ↦ elim (Option-cases (find_index id (xs ++ ys))) [
      | inl e ↦ ground (arith, find_index_left id xs ys e)
      | inr (k, e) ↦ absurd (ground arith)
    ]
  ]

  find_index_present :
      (xs : List (Report R)) (r : Report R) (ys : List (Report R))
      → find_index r.id (xs ++ r ∷ ys) ≢ none
  unfolding find_index shift
  find_index_present [] r ys h = ground arith
  find_index_present (x ∷ xs) r ys h = elim (Option-cases (find_index r.id (xs ++ r ∷ ys))) [
    | inl e ↦ find_index_present xs r ys e
    | inr (k, e) ↦ ground arith
  ]

  -- In a list of distinct reports no report stands before another with its ID.
  fresh_of_Distinct :
      (xs : List (Report R)) (r : Report R) (ys : List (Report R))
      → Distinct (xs ++ r ∷ ys)
      → find_index r.id xs ≡ none
  unfolding find_index shift
  fresh_of_Distinct [] r ys d = refl
  fresh_of_Distinct (x ∷ xs) r ys d = elim (str_discrete r.id x.id) [
    | yes e ↦ absurd (find_index_present xs r ys (ground (arith, d.0)))
    | no ne ↦ ground (arith, fresh_of_Distinct xs r ys d.1)
  ]

  append-Distinct :
      (m : Memory R) (r : Report R) (rs : List (Report R))
      → IsValid m
      → Distinct (m.ordered ++ r ∷ rs)
      → Distinct ((append (make_room m) r).ordered ++ rs)
  unfolding last
  append-Distinct m r rs v d = rw (make_room-last m r v) (
      Distinct-drop-append _ (m.ordered ++ r ∷ []) rs
        (subst (λ zs. Distinct zs) (sym (append_assoc m.ordered (r ∷ []) rs)) d))

  capacity-append :
      (m : Memory R) (r : Report R) → IsValid m → (append (make_room m) r).capacity ≡ m.capacity
  unfolding append
  capacity-append m r v = (make_room-IsValid m v).2

  -- On a valid store, puts of reports whose IDs are distinct from each other and from those held
  -- succeed, keep exactly the newest reports up to the capacity, oldest first, and leave the store
  -- valid.
  pub put_all-last :
      (m : Memory R) (rs : List (Report R))
      → IsValid m
      → Distinct (m.ordered ++ rs)
      → (m' : Memory R) × (put_all m rs ≡ ok m')
        × (m'.ordered ≡ last m.capacity (m.ordered ++ rs))
        × IsValid m'
  unfolding put_all
  put_all-last m [] v d =
      (m, refl, rw append-nil (sym (last_of_length-le m.capacity m.ordered v.bounded)), v)
  put_all-last m (r ∷ rs) v d =
      let done = put_new m r v (fresh_of_Distinct m.ordered r rs d) in
      let m1 = append (make_room m) r in
      let (m2, runs, holds, valid) = put_all-last m1 rs done.1 (append-Distinct m r rs v d) in
      (
        m2,
        rw (done.0, put_all) runs,
        holds
            ∙ ap (λ c. last c (m1.ordered ++ rs)) (capacity-append m r v)
            ∙ ap (λ zs. last m.capacity (zs ++ rs)) (make_room-last m r v)
            ∙ last-append-last m.capacity (m.ordered ++ r ∷ []) rs
            ∙ ap (last m.capacity) (append_assoc m.ordered (r ∷ []) rs),
        valid,
      )

  -- A new store of positive capacity that has taken distinct reports holds the newest `capacity` of
  -- them, oldest first.
  pub put_all-new_memory :
      (capacity : ℕ) (rs : List (Report R))
      → Distinct rs
      → 0 < capacity
      → (m : Memory R) × (put_all (new_memory R (pos capacity)) rs ≡ ok m)
        × (m.ordered ≡ last capacity rs)
        × IsValid m
  unfolding new_memory
  put_all-new_memory capacity rs d h =
      let (m, runs, holds, valid) =
        put_all-last (new_memory R (pos capacity)) rs (new_memory-IsValid R (pos capacity)) d in
      (m, runs, holds ∙ ap (λ c. last c rs) (ground arith), valid)
