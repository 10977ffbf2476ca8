-- ===== src/Strings/Clean/Rooted.antt =====
-- A clean rooted path never climbs.
use k8s_pod_oom_oracle.Base.{
  ◌≡◌, ◌≢◌, refl, ap, sym, subst, true, false, Bool-cases, List, [], ◌∷◌, ◌++◌, reverse, Str, codes,
  same, same_refl, ne_of_not_same, same→eq, inl, inr, select, has_byte, split, arith, onto_first,
  ◌==◌, ℕ,
}
use mathlib.Core.List.{reverse-cons}
use k8s_pod_oom_oracle.Strings.Clean.{is_step, climb, take_step, walk}

-- A segment that fs.ValidPath accepts.
abbrev pub IsValidSegment : Str → Type 0
IsValidSegment s = (s ≢ []) × (s ≢ codes ".") × (s ≢ codes "..") × (has_byte b'/' s ≡ false)

abbrev pub AllValid : List Str → Type 0
AllValid [] = Unit
AllValid (s ∷ ss) = IsValidSegment s × AllValid ss

-- What `split` gives: no slash, and after the selection no empty segment and no ".".
abbrev pub AllSteps : List Str → Type 0
AllSteps [] = Unit
AllSteps (s ∷ ss) = (s ≢ []) × (s ≢ codes ".") × (has_byte b'/' s ≡ false) × AllSteps ss

climb-AllValid : (done : List Str) → AllValid done → AllValid (climb true done)
unfolding climb
climb-AllValid [] v = tt
climb-AllValid (s ∷ done) v = elim (Bool-cases (same s (codes ".."))) [
  | inl e ↦ absurd (v.0.2 (same→eq s (codes "..") e))
  | inr e ↦ rw e v.1
]

pub walk-AllValid :
    (ss done : List Str) → AllSteps ss → AllValid done → AllValid (walk true done ss)
unfolding walk take_step
walk-AllValid [] done h v = v
walk-AllValid (s ∷ ss) done h v = elim (Bool-cases (same s (codes ".."))) [
  | inl e ↦ rw (e, walk) (walk-AllValid ss (climb true done) h.3 (climb-AllValid done v))
  | inr e ↦
      rw (e, walk)
        (walk-AllValid ss (s ∷ done) h.3 ((h.0, h.1, ne_of_not_same s (codes "..") e, h.2), v))
]

pub AllValid-append : (xs ys : List Str) → AllValid xs → AllValid ys → AllValid (xs ++ ys)
AllValid-append [] ys h k = k
AllValid-append (x ∷ xs) ys h k = (h.0, AllValid-append xs ys h.1 k)

pub reverse-AllValid : (xs : List Str) → AllValid xs → AllValid (reverse xs)
reverse-AllValid [] h = tt
reverse-AllValid (x ∷ xs) h =
    subst AllValid (sym (reverse-cons x xs))
      (AllValid-append (reverse xs) (x ∷ []) (reverse-AllValid xs h.1) (h.0, tt))

-- No piece between slashes holds a slash.
abbrev NoSlash : List Str → Type 0
NoSlash [] = Unit
NoSlash (s ∷ ss) = (has_byte b'/' s ≡ false) × NoSlash ss

onto_first-NoSlash :
    (c : ℕ) (ws : List Str) → c == b'/' ≡ false → NoSlash ws → NoSlash (onto_first c ws)
unfolding onto_first
onto_first-NoSlash c [] e h = (ground (arith, e), tt)
onto_first-NoSlash c (w ∷ ws) e h = (ground (arith, e, h.0), h.1)

split-NoSlash : (s : Str) → NoSlash (split b'/' s)
unfolding split
split-NoSlash [] = (refl, tt)
split-NoSlash (c ∷ s) = elim (Bool-cases (c == b'/')) [
  | inl e ↦ rw (e, split) (refl, split-NoSlash s)
  | inr e ↦ rw (e, split) (onto_first-NoSlash c (split b'/' s) e (split-NoSlash s))
]

select-AllSteps : (ws : List Str) → NoSlash ws → AllSteps (select is_step ws)
unfolding is_step
select-AllSteps [] h = tt
select-AllSteps (w ∷ ws) h = elim (Bool-cases (is_step w)) [
  | inl e ↦ rw e (not_empty w e, not_dot w e, h.0, select-AllSteps ws h.1)
  | inr e ↦ rw e (select-AllSteps ws h.1)
]
  where
    not_empty : (w : Str) → is_step w ≡ true → w ≢ []
    not_empty w e n = ground (arith, e, ap (λ x. same x []) n)

    not_dot : (w : Str) → is_step w ≡ true → w ≢ codes "."
    not_dot w e n = ground (arith, e, ap (λ x. same x (codes ".")) n, same_refl (codes "."))

-- The segments of a clean rooted path are all valid: it never climbs above the root.
pub rooted-AllValid : (s : Str) → AllValid (reverse (walk true [] (select is_step (split b'/' s))))
rooted-AllValid s =
    reverse-AllValid _ (walk-AllValid _ [] (select-AllSteps (split b'/' s) (split-NoSlash s)) tt)
