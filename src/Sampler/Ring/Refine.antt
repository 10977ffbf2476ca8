-- ===== src/Sampler/Ring/Refine.antt =====
-- A ring holds the newest samples, oldest first, up to its capacity.
use k8s_pod_oom_oracle.Base.{
  ℕ, suc, ◌+◌, ◌-◌, ◌%◌, ◌<◌, min, ◌≡◌, refl, sym, ap, ◌∙◌, inl, inr, true, false, none, some, List,
  [], ◌∷◌, ◌++◌, map, arith, length, length-append, length-set, length-drop, set, take, drop,
  drop-append, Bool-cases, append-nil, append_assoc, subst,
}
use k8s_pod_oom_oracle.Base.{
  get_elem?-set_self, last, length-last, last_of_length-le, last-append-last, drop-eq,
  length-replicate,
}
use native.Mathlib.Nat.{mod-eq_of_lt, mod_self, add-mod_right}
use native.Mathlib.Numerals.{add-one}
use mathlib.Core.List.{map-append}
use k8s_pod_oom_oracle.Base.{dec_lt, take_of_length-le, drop_of_length-le}
use k8s_pod_oom_oracle.Base.{take-suc-set, drop-suc-set, drop_one-drop, map-drop}
use k8s_pod_oom_oracle.Sampler.Ring.{Ring, new_ring, add, len, samples_of, latest, add_all}

-- A ring of capacity `c` holds `xs`, oldest first.
pub record Holds {A : Type 0} (r : Ring A) (c : ℕ) (xs : List A) : Type 0 where
  pub capacity : length r.samples ≡ c
  pub next_in : r.next < c
  pub content : samples_of r ≡ map some xs
  pub size : length xs ≡ len r

module _ {A : Type 0} where
  -- A new ring of positive capacity is empty.
  pub new_ring-Holds : (c : ℕ) → 0 < c → Holds (new_ring A c) c []
  unfolding new_ring samples_of len
  new_ring-Holds c h = record {
    capacity = length-replicate c none;
    next_in = h;
    content = refl;
    size = refl;
  }

  add_within :
      (r : Ring A) (s : A)
      → suc r.next < length r.samples
      → add r s
        ≡ record { samples = set r.samples r.next (some s); next = suc r.next; filled = r.filled }
  unfolding add
  add_within r s h =
      ground (arith, mod-eq_of_lt {n = r.next + 1} {m = length r.samples} (omega arith))

  add_wraps :
      (r : Ring A) (s : A)
      → suc r.next ≡ length r.samples
      → add r s ≡ record { samples = set r.samples r.next (some s); next = 0; filled = true }
  unfolding add
  add_wraps r s h = ground (arith, wrap r.next (length r.samples) h)
    where
      wrap : (n m : ℕ) → suc n ≡ m → (n + 1) % m ≡ 0
      wrap n m e = rw (← e, add-one) (mod_self (suc n))

  -- The oldest slot goes.
  drop_oldest :
      (n : ℕ) (xs : List A)
      → n < length xs
      → drop 1 (drop n xs ++ take n xs) ≡ drop (suc n) xs ++ take n xs
  drop_oldest n xs h =
      drop-append 1 (drop n xs) (take n xs) (omega (arith, length-drop n xs))
      ∙ ap (λ ys. ys ++ take n xs) (drop_one-drop n xs)

  set_last : (n : ℕ) (xs : List A) (v : A) → suc n ≡ length xs → set xs n v ≡ take n xs ++ v ∷ []
  set_last n xs v h =
      sym (take_of_length-le (suc n) (set xs n v) (omega (arith, length-set xs n v)))
      ∙ take-suc-set n xs v (omega arith)

back_one : (n l : ℕ) → n < l → (suc n + l - 1) % l ≡ n
back_one n l h = ap (λ k. k % l) (omega arith) ∙ add-mod_right n l ∙ mod-eq_of_lt h

module _ {A : Type 0} where
  samples_of-add_filled :
      (r : Ring A) (s : A)
      → r.next < length r.samples
      → r.filled ≡ true
      → samples_of (add r s) ≡ drop 1 (samples_of r) ++ some s ∷ []
  unfolding samples_of
  samples_of-add_filled r s h f = elim (dec_lt (suc r.next) (length r.samples)) [
    | yes p ↦
        rw (add_within r s p, f, drop-suc-set, take-suc-set r.next r.samples (some s) h)
          (rw (drop_oldest r.next r.samples h) (
            sym (append_assoc (drop (suc r.next) r.samples) (take r.next r.samples) (some s ∷ []))))
    | no p ↦
        rw
          (
            add_wraps r s (omega arith),
            f,
            drop_oldest r.next r.samples h,
            append-nil,
            set_last r.next r.samples (some s) (omega arith),
          )
          (rw (drop_of_length-le (suc r.next) r.samples (omega arith)))
  ]

  samples_of-add_partial :
      (r : Ring A) (s : A)
      → r.next < length r.samples
      → r.filled ≡ false
      → samples_of (add r s) ≡ samples_of r ++ some s ∷ []
  unfolding samples_of
  samples_of-add_partial r s h f = elim (dec_lt (suc r.next) (length r.samples)) [
    | yes p ↦ rw (add_within r s p, f, take-suc-set r.next r.samples (some s) h)
    | no p ↦ rw (
      add_wraps r s (omega arith),
      f,
      append-nil,
      set_last r.next r.samples (some s) (omega arith),
    )
  ]

  add_shape :
      (r : Ring A) (s : A)
      → r.next < length r.samples
      → (length (add r s).samples ≡ length r.samples)
        × ((add r s).next < length r.samples)
        × (len (add r s) ≡ min (length r.samples) (len r + 1))
  unfolding len
  add_shape r s h = elim (dec_lt (suc r.next) (length r.samples)) [
    | yes p ↦ rw (add_within r s p) (
      length-set r.samples r.next (some s),
      p,
      ground (arith, length-set r.samples r.next (some s)),
    )
    | no p ↦ rw (add_wraps r s (omega arith)) (
      length-set r.samples r.next (some s),
      omega arith,
      ground (arith, length-set r.samples r.next (some s)),
    )
  ]

  last_one-append :
      (c : ℕ) (xs : List A) (s : A)
      → length xs ≡ c
      → 0 < c
      → last c (xs ++ s ∷ []) ≡ drop 1 xs ++ s ∷ []
  unfolding last
  last_one-append c xs s h p =
      drop-eq _ 1 (xs ++ s ∷ []) (omega (arith, length-append xs (s ∷ [])))
      ∙ drop-append 1 xs (s ∷ []) (omega arith)

  len_filled : (r : Ring A) → r.filled ≡ true → len r ≡ length r.samples
  unfolding len
  len_filled r f = rw f

  len_partial : (r : Ring A) → r.filled ≡ false → len r ≡ r.next
  unfolding len
  len_partial r f = rw f

  content-add :
      (r : Ring A) (c : ℕ) (xs : List A) (s : A)
      → Holds r c xs
      → r.next < length r.samples
      → samples_of (add r s) ≡ map some (last c (xs ++ s ∷ []))
  content-add r c xs s v h = elim (Bool-cases r.filled) [
    | inl f ↦
        samples_of-add_filled r s h f
        ∙ ap (λ ys. drop 1 ys ++ some s ∷ []) v.content
        ∙ ap (λ ys. ys ++ some s ∷ []) (sym (map-drop some 1 xs))
        ∙ sym (map-append some (drop 1 xs) (s ∷ []))
        ∙ ap (map some) (
            sym (
              last_one-append c xs s (omega (arith, v.size, len_filled r f, v.capacity))
                (omega (arith, v.next_in))))
    | inr f ↦
        samples_of-add_partial r s h f
        ∙ ap (λ ys. ys ++ some s ∷ []) v.content
        ∙ sym (map-append some xs (s ∷ []))
        ∙ ap (map some) (
            sym (
              last_of_length-le c (xs ++ s ∷ [])
                (omega (arith, length-append xs (s ∷ []), v.size, len_partial r f, v.next_in))))
  ]

  -- `Add` keeps the newest samples up to the capacity, in order, and drops the oldest beyond it.
  pub add-Holds :
      (r : Ring A) (c : ℕ) (xs : List A) (s : A)
      → Holds r c xs
      → Holds (add r s) c (last c (xs ++ s ∷ []))
  add-Holds r c xs s v =
      let h : r.next < length r.samples = omega (arith, v.capacity, v.next_in) in
      let shape = add_shape r s h in
      record {
        capacity = shape.0 ∙ v.capacity;
        next_in = omega (arith, shape.1, v.capacity);
        content = content-add r c xs s v h;
        size = omega (
          arith,
          length-last c (xs ++ s ∷ []),
          length-append xs (s ∷ []),
          shape.2,
          v.capacity,
          v.size,
        );
      }

  add_all-Holds_from :
      (r : Ring A) (c : ℕ) (xs ys : List A)
      → Holds r c (last c xs)
      → Holds (add_all r ys) c (last c (xs ++ ys))
  unfolding add_all
  add_all-Holds_from r c xs [] v = rw append-nil v
  add_all-Holds_from r c xs (y ∷ ys) v =
      subst (λ zs. Holds (add_all (add r y) ys) c (last c zs)) (append_assoc xs (y ∷ []) ys)
        (add_all-Holds_from (add r y) c (xs ++ y ∷ []) ys (
          subst (λ zs. Holds (add r y) c zs) (last-append-last c xs (y ∷ []))
            (add-Holds r c (last c xs) y v)))

  -- After any run of `Add` on a new ring of positive capacity, `Samples` is the newest samples up
  -- to the capacity, oldest first, and `Len` is their number.
  pub add_all-samples_of :
      (c : ℕ) (xs : List A)
      → 0 < c
      → (samples_of (add_all (new_ring A c) xs) ≡ map some (last c xs))
        × (len (add_all (new_ring A c) xs) ≡ min c (length xs))
  add_all-samples_of c xs p =
      let v =
        add_all-Holds_from (new_ring A c) c [] xs
          (rw (last_of_length-le {A = A} c [] (omega arith)) (new_ring-Holds c p)) in
      (v.content, omega (arith, v.size, length-last c xs))

  -- `Latest` is the sample that was added last, at any place of the ring, when the place to write
  -- next is inside of it.
  pub latest-add :
      (r : Ring A) (s : A) → r.next < length r.samples → latest (add r s) ≡ some (some s)
  unfolding latest len
  latest-add r s h = elim (dec_lt (suc r.next) (length r.samples)) [
    | yes p ↦ rw (add_within r s p) (
        ground (
          arith,
          length-set r.samples r.next (some s),
          back_one r.next (length (set r.samples r.next (some s))),
          get_elem?-set_self r.samples r.next (some s) h,
        ))
    | no p ↦ rw (add_wraps r s (omega arith)) (
        ground (
          arith,
          length-set r.samples r.next (some s),
          mod-eq_of_lt {n = r.next} {m = length (set r.samples r.next (some s))},
          get_elem?-set_self r.samples r.next (some s) h,
        ))
  ]
