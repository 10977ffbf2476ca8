-- ===== src/Procfs/Tree/Order.antt =====
-- `ProcessesWithPIDs`: what it returns, and in which order.
use mathlib.Core.List.Perm
use mathlib.Core.List.{Perm}
use k8s_pod_oom_oracle.Base.{
  ◌≡◌, refl, ◌⊎◌, ◌<◌, ◌≤ℤ◌, inl, inr, true, false, none, some, Option-cases, List, [], ◌∷◌, arith,
  ℤ, Bool-cases,
}
use k8s_pod_oom_oracle.Procfs.Process.{Process}
use k8s_pod_oom_oracle.Procfs.Tree.{
  ProcTree, process, readable, not_lighter, place, sort_by_memory, processes_with_pids,
}

-- `b` holds less memory than `a`, or as much with a PID that is not below.
abbrev pub NotHeavier : Process → Process → Type 0
NotHeavier a b = (b.rss_bytes < a.rss_bytes) ⊎ ((b.rss_bytes ≡ a.rss_bytes) × (a.pid ≤ℤ b.pid))

abbrev pub AreHeaviestFirst : List Process → Type 0
AreHeaviestFirst [] = Unit
AreHeaviestFirst (p ∷ []) = Unit
AreHeaviestFirst (p ∷ q ∷ ps) = NotHeavier p q × AreHeaviestFirst (q ∷ ps)

-- The processes of the PIDs in their order, without the PIDs whose process cannot be read.
abbrev pub AreRead : ProcTree → List ℤ → List Process → Type 0
AreRead tree [] ps = ps ≡ []
AreRead tree (pid ∷ pids) ps =
    (process tree pid ≡ none) × AreRead tree pids ps
    ⊎ (p : Process) × (others : List Process) × (process tree pid ≡ some p)
      × (ps ≡ p ∷ others)
      × AreRead tree pids others

readable-AreRead : (tree : ProcTree) (ids : List ℤ) → AreRead tree ids (readable tree ids)
unfolding readable
readable-AreRead tree [] = refl
readable-AreRead tree (pid ∷ pids) = elim (Option-cases (process tree pid)) [
  | inl e ↦ rw (readable, e) (inl (refl, readable-AreRead tree pids))
  | inr (p, e) ↦
      rw (readable, e) (inr (p, readable tree pids, refl, refl, readable-AreRead tree pids))
]

NotHeavier-of_not_lighter : (a b : Process) → not_lighter a b ≡ true → NotHeavier a b
unfolding not_lighter
NotHeavier-of_not_lighter a b h = ground arith

not_lighter_total : (a b : Process) → not_lighter a b ≡ false → NotHeavier b a
unfolding not_lighter
not_lighter_total a b h = ground arith

place-Perm : (p : Process) (ps : List Process) → Perm (place p ps) (p ∷ ps)
unfolding place
place-Perm p [] = Perm.refl (p ∷ [])
place-Perm p (q ∷ qs) = elim (Bool-cases (not_lighter p q)) [
  | inl e ↦ rw e (Perm.refl (p ∷ q ∷ qs))
  | inr e ↦ rw e (Perm.trans (Perm.cons q (place-Perm p qs)) (Perm.swap p q qs))
]

pub sort_by_memory-Perm : (ps : List Process) → Perm (sort_by_memory ps) ps
unfolding sort_by_memory
sort_by_memory-Perm [] = Perm.refl []
sort_by_memory-Perm (p ∷ ps) =
    Perm.trans (place-Perm p (sort_by_memory ps)) (Perm.cons p (sort_by_memory-Perm ps))

-- A process that is not heavier than the head goes behind it.
place_behind :
    (q p : Process) (ps : List Process)
    → NotHeavier q p
    → AreHeaviestFirst (q ∷ ps)
    → AreHeaviestFirst (q ∷ place p ps)
unfolding place
place_behind q p [] h hs = (h, tt)
place_behind q p (r ∷ rs) h (k, ks) = elim (Bool-cases (not_lighter p r)) [
  | inl e ↦ rw e (h, (NotHeavier-of_not_lighter p r e, ks))
  | inr e ↦ rw e (k, place_behind r p rs (not_lighter_total p r e) ks)
]

place-AreHeaviestFirst :
    (p : Process) (ps : List Process) → AreHeaviestFirst ps → AreHeaviestFirst (place p ps)
unfolding place
place-AreHeaviestFirst p [] h = tt
place-AreHeaviestFirst p (q ∷ qs) h = elim (Bool-cases (not_lighter p q)) [
  | inl e ↦ rw e (NotHeavier-of_not_lighter p q e, h)
  | inr e ↦ rw e (place_behind q p qs (not_lighter_total p q e) h)
]

sort_by_memory-AreHeaviestFirst : (ps : List Process) → AreHeaviestFirst (sort_by_memory ps)
unfolding sort_by_memory
sort_by_memory-AreHeaviestFirst [] = tt
sort_by_memory-AreHeaviestFirst (p ∷ ps) =
    place-AreHeaviestFirst p (sort_by_memory ps) (sort_by_memory-AreHeaviestFirst ps)

-- ProcessesWithPIDs returns a process for each time that a PID is given whose process can be read,
-- and for no other, whichever cannot be read. None is followed by one that holds more memory, nor by
-- one that holds as much and has a lower PID.
pub processes_with_pids-Perm :
    (tree : ProcTree) (ids : List ℤ)
    → (ps : List Process) × AreRead tree ids ps
      × Perm (processes_with_pids tree ids) ps
      × AreHeaviestFirst (processes_with_pids tree ids)
unfolding processes_with_pids
processes_with_pids-Perm tree ids = (
  readable tree ids,
  readable-AreRead tree ids,
  sort_by_memory-Perm (readable tree ids),
  sort_by_memory-AreHeaviestFirst (readable tree ids),
)
