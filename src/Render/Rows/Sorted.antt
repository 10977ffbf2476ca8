-- ===== src/Render/Rows/Sorted.antt =====
-- slices.Sort on the indices of rows keeps what the list has, and puts it in order.
use k8s_pod_oom_oracle.Base.{
  ℕ, suc, leb, ◌<◌, ◌≤◌, ◌≡◌, refl, ap, ◌∙◌, inl, inr, List, [], ◌∷◌, length, arith, Bool-cases,
}
use k8s_pod_oom_oracle.Render.Rows.{insert_index, sort_indices, contains_index}

-- Each index is not above the next.
abbrev pub AreAscending : List ℕ → Type 0
AreAscending [] = Unit
AreAscending (x ∷ []) = Unit
AreAscending (x ∷ y ∷ ys) = (x ≤ y) × AreAscending (y ∷ ys)

-- No index is out of range.
abbrev pub AllBelow : ℕ → List ℕ → Type 0
AllBelow n [] = Unit
AllBelow n (x ∷ xs) = (x < n) × AllBelow n xs

insert_behind :
    (w x : ℕ) (ys : List ℕ) → w ≤ x → AreAscending (w ∷ ys) → AreAscending (w ∷ insert_index x ys)
unfolding insert_index
insert_behind w x [] h a = (h, tt)
insert_behind w x (y ∷ ys) h (k, a) = elim (Bool-cases (leb x y)) [
  | inl e ↦ rw e (h, (ground arith, a))
  | inr e ↦ rw e (k, insert_behind y x ys (ground arith) a)
]

insert_index-AreAscending :
    (x : ℕ) (ys : List ℕ) → AreAscending ys → AreAscending (insert_index x ys)
unfolding insert_index
insert_index-AreAscending x [] a = tt
insert_index-AreAscending x (y ∷ ys) a = elim (Bool-cases (leb x y)) [
  | inl e ↦ rw e (ground arith, a)
  | inr e ↦ rw e (insert_behind y x ys (ground arith) a)
]

pub sort_indices-AreAscending : (xs : List ℕ) → AreAscending (sort_indices xs)
unfolding sort_indices
sort_indices-AreAscending [] = tt
sort_indices-AreAscending (x ∷ xs) =
    insert_index-AreAscending x (sort_indices xs) (sort_indices-AreAscending xs)

contains-insert_index :
    (z x : ℕ) (ys : List ℕ) → contains_index z (insert_index x ys) ≡ contains_index z (x ∷ ys)
unfolding insert_index
contains-insert_index z x [] = refl
contains-insert_index z x (y ∷ ys) = ground (arith, contains-insert_index z x ys)

pub contains-sort_indices :
    (z : ℕ) (xs : List ℕ) → contains_index z (sort_indices xs) ≡ contains_index z xs
unfolding sort_indices
contains-sort_indices z [] = refl
contains-sort_indices z (x ∷ xs) =
    ground (arith, contains-insert_index z x (sort_indices xs), contains-sort_indices z xs)

length-insert_index : (x : ℕ) (ys : List ℕ) → length (insert_index x ys) ≡ suc (length ys)
unfolding insert_index
length-insert_index x [] = refl
length-insert_index x (y ∷ ys) = ground (arith, length-insert_index x ys)

pub length-sort_indices : (xs : List ℕ) → length (sort_indices xs) ≡ length xs
unfolding sort_indices
length-sort_indices [] = refl
length-sort_indices (x ∷ xs) =
    length-insert_index x (sort_indices xs) ∙ ap suc (length-sort_indices xs)

insert_index-AllBelow :
    (n x : ℕ) (ys : List ℕ) → x < n → AllBelow n ys → AllBelow n (insert_index x ys)
unfolding insert_index
insert_index-AllBelow n x [] h hs = (h, tt)
insert_index-AllBelow n x (y ∷ ys) h (k, ks) = elim (Bool-cases (leb x y)) [
  | inl e ↦ rw e (h, (k, ks))
  | inr e ↦ rw e (k, insert_index-AllBelow n x ys h ks)
]

pub sort_indices-AllBelow : (n : ℕ) (xs : List ℕ) → AllBelow n xs → AllBelow n (sort_indices xs)
unfolding sort_indices
sort_indices-AllBelow n [] h = tt
sort_indices-AllBelow n (x ∷ xs) (h, hs) =
    insert_index-AllBelow n x (sort_indices xs) h (sort_indices-AllBelow n xs hs)
