-- ===== src/Store/Queries.antt =====
-- What `Get` and `List` answer, in terms of the reports that the store holds.
use k8s_pod_oom_oracle.Base.{
  ℕ, zero, suc, ◌<◌, ◌≡◌, refl, sym, ap, ◌∙◌, ◌≢◌, inl, inr, Bool, ◌&&◌, Option, none, some, List,
  [], ◌∷◌, ◌++◌, reverse, arith, length, get_elem?-some, set, take, select, select-append, Str,
  str_discrete, ltb, if◌then◌else◌, Option-cases, Bool-cases, append-nil, ℤ, pos, negsuc, ltb_ℤ,
  pos_part, subst,
}
use mathlib.Core.List.{reverse-append}
use k8s_pod_oom_oracle.Base.{take_of_length-le}
use k8s_pod_oom_oracle.Oom.Report.{Report}
use k8s_pod_oom_oracle.Store.{
  Result, ok, not_found, Memory, Filter, matches, make_room, append, put, get, list,
}
use k8s_pod_oom_oracle.Store.Index.{shift, find_index, find, get_elem?-find_index, find_index-lt}
use k8s_pod_oom_oracle.Store.Invariant.{IsValid, put_new, put_known, make_room_absent}

-- At most `limit` items, where a limit of zero or less is none.
unfoldable pub cap_at : {A : Type 0} → ℤ → List A → List A
cap_at (pos (suc n)) xs = take (suc n) xs
cap_at _ xs = xs

cut_off-cap_at :
    {A : Type 0} (l : ℤ) (xs : List A)
    → (if ltb_ℤ (pos 0) l && ltb (pos_part l) (length xs) then take (pos_part l) xs else xs)
      ≡ cap_at l xs
unfolding cap_at
cut_off-cap_at (pos zero) xs = refl
cut_off-cap_at (pos (suc n)) xs = ground (arith, take_of_length-le (suc n) xs)
cut_off-cap_at (negsuc n) xs = ground arith

module _ {R : Type 0} where
  unfoldable pub answer : Option (Report R) → Result (Report R)
  answer none = not_found
  answer (some r) = ok r

  -- On a valid store, `Get` returns the report with the ID, and `ErrNotFound` where there is none.
  pub get_lem : (m : Memory R) (id : Str) → IsValid m → get m id ≡ answer (find id m.ordered)
  unfolding get answer
  get_lem m id v = elim (Option-cases (find_index id m.ordered)) [
    | inl e ↦ ground (arith, v.indexed id, get_elem?-find_index id m.ordered)
    | inr (k, e) ↦ ground (
      arith,
      v.indexed id,
      get_elem?-find_index id m.ordered,
      get_elem?-some m.ordered k (find_index-lt id m.ordered e),
    )
  ]

  find-append_self :
      (xs : List (Report R)) (r : Report R)
      → find_index r.id xs ≡ none
      → find r.id (xs ++ r ∷ []) ≡ some r
  unfolding find find_index shift
  find-append_self [] r h = ground arith
  find-append_self (x ∷ xs) r h =
      ground (arith, find-append_self xs r, Option-cases (find_index r.id xs))

  find-set_self :
      (xs : List (Report R)) (r : Report R) (i : ℕ)
      → find_index r.id xs ≡ some i
      → find r.id (set xs i r) ≡ some r
  unfolding find find_index shift
  find-set_self [] r i h = cc
  find-set_self (x ∷ xs) r i h = elim (str_discrete r.id x.id) [
    | yes e ↦ ground arith
    | no ne ↦ elim (Option-cases (find_index r.id xs)) [
      | inl e ↦ absurd (ground arith)
      | inr (k, e) ↦ ground (arith, find-set_self xs r k e)
    ]
  ]

  select-reverse :
      (p : Report R → Bool) (xs : List (Report R)) → reverse (select p xs) ≡ select p (reverse xs)
  select-reverse p [] = refl
  select-reverse p (x ∷ xs) = elim (Bool-cases (p x)) [
    | inl h ↦
        rw
          (
            h,
            reverse-append (x ∷ []) (select p xs),
            reverse-append (x ∷ []) xs,
            select-append,
            select-reverse p xs,
          )
          (rw h)
    | inr h ↦
        rw (h, reverse-append (x ∷ []) xs, select-append, select-reverse p xs) (rw (h, append-nil))
  ]

  -- `List` is the matching reports, newest first, cut off at a positive limit.
  pub list_lem :
      (m : Memory R) (f : Filter)
      → list m f ≡ cap_at f.limit (select (matches f) (reverse m.ordered))
  unfolding list
  list_lem m f =
      cut_off-cap_at f.limit (reverse (select (matches f) m.ordered))
      ∙ ap (cap_at f.limit) (select-reverse (matches f) m.ordered)

  ok-injective : (a b : Memory R) → Result.ok a ≡ ok b → a ≡ b
  ok-injective a b h = cc

  find-append_ne :
      (id : Str) (xs : List (Report R)) (r : Report R)
      → id ≢ r.id
      → find id (xs ++ r ∷ []) ≡ find id xs
  unfolding find
  find-append_ne id [] r h = ground arith
  find-append_ne id (x ∷ xs) r h = ground (arith, find-append_ne id xs r h)

  find-set_ne :
      (id : Str) (xs : List (Report R)) (r : Report R) (i : ℕ)
      → id ≢ r.id
      → find_index r.id xs ≡ some i
      → find id (set xs i r) ≡ find id xs
  unfolding find find_index shift
  find-set_ne id [] r i h e = cc
  find-set_ne id (x ∷ xs) r i h e = elim (str_discrete r.id x.id) [
    | yes q ↦ ground arith
    | no ne ↦ elim (Option-cases (find_index r.id xs)) [
      | inl q ↦ absurd (ground arith)
      | inr (k, q) ↦ ground (arith, find-set_ne id xs r k h q)
    ]
  ]

  make_room_free : (m : Memory R) → length m.ordered < m.capacity → make_room m ≡ m
  unfolding make_room
  make_room_free m h = ground arith

  -- On a valid store, a report is found under its ID once `Put` has taken it, whether it is new or
  -- a replacement.
  pub get-put : (m m' : Memory R) (r : Report R) → IsValid m → put m r ≡ ok m' → get m' r.id ≡ ok r
  unfolding append answer
  get-put m m' r v h = elim (Option-cases (find_index r.id m.ordered)) [
    | inl e ↦
        let done = put_new m r v e in
        subst (λ n. get n r.id ≡ ok r) (ok-injective _ _ (sym done.0 ∙ h))
          (get_lem _ r.id done.1
            ∙ ap answer (find-append_self (make_room m).ordered r (make_room_absent m r.id e)))
    | inr (i, e) ↦
        let done = put_known m r i v e in
        subst (λ n. get n r.id ≡ ok r) (ok-injective _ _ (sym done.0 ∙ h))
          (get_lem _ r.id done.1 ∙ ap answer (find-set_self m.ordered r i e))
  ]

  -- On a valid store that has room, `Put` changes what `Get` answers for its own ID only.
  pub get-put_ne :
      (m m' : Memory R) (r : Report R) (id : Str)
      → IsValid m
      → length m.ordered < m.capacity
      → id ≢ r.id
      → put m r ≡ ok m'
      → get m' id ≡ get m id
  unfolding append
  get-put_ne m m' r id v room ne h = elim (Option-cases (find_index r.id m.ordered)) [
    | inl e ↦
        let done = put_new m r v e in
        subst (λ n. get n id ≡ get m id) (ok-injective _ _ (sym done.0 ∙ h))
          (get_lem _ id done.1
            ∙ ap answer (find-append_ne id (make_room m).ordered r ne)
            ∙ ap (λ (n : Memory R). answer (find id n.ordered)) (make_room_free m room)
            ∙ sym (get_lem m id v))
    | inr (i, e) ↦
        let done = put_known m r i v e in
        subst (λ n. get n id ≡ get m id) (ok-injective _ _ (sym done.0 ∙ h))
          (get_lem _ id done.1
            ∙ ap answer (find-set_ne id m.ordered r i ne e)
            ∙ sym (get_lem m id v))
  ]
