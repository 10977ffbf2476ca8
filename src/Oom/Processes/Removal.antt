-- ===== src/Oom/Processes/Removal.antt =====
-- `ProcessesFrom` takes out one process at most, and only one that the victim names.
use k8s_pod_oom_oracle.Base.{
  ◌≡◌, refl, ap, ◌≢◌, ◌⊎◌, inl, inr, Bool, true, false, List, [], ◌∷◌, ◌++◌, map, arith, ℤ, pos,
  Bool-cases,
}
use k8s_pod_oom_oracle.Base.{◌==ℤ◌, ==ℤ→eq, ==ℤ-refl}
use k8s_pod_oom_oracle.Procfs.Process.{Process}
use k8s_pod_oom_oracle.Detector.Event.{Victim}
use k8s_pod_oom_oracle.Oom.Report.{ProcessSnapshot, VictimMatch}
use k8s_pod_oom_oracle.Oom.Processes.{
  snapshot_of, victim_match, count_ns_pid, ns_pid_is_unambiguous, is_match, keep, drop_victim,
  processes_from,
}

-- No process of the list has the PID in its container.
abbrev pub NoneHas : ℤ → List Process → Type 0
NoneHas n [] = Unit
NoneHas n (p ∷ ps) = (p.ns_pid ≢ n) × NoneHas n ps

-- One process of the list has the PID in its container, and no other does.
abbrev pub OneHas : ℤ → List Process → Type 0
OneHas n [] = ⊥
OneHas n (p ∷ ps) = (p.ns_pid ≡ n) × NoneHas n ps ⊎ (p.ns_pid ≢ n) × OneHas n ps

-- The victim has a PID on the host, and it is that of the process.
abbrev pub HasHostPid : Victim → Process → Type 0
HasHostPid v p = (v.pid ≢ pos 0) × (p.pid ≡ v.pid)

-- The victim has a PID in its container, it is that of the process, and of no other of the list.
abbrev pub HasNsPid : Victim → List Process → Process → Type 0
HasNsPid v listed p = (v.ns_pid ≢ pos 0) × (p.ns_pid ≡ v.ns_pid) × OneHas v.ns_pid listed

-- The victim names the process by neither.
abbrev pub IsOther : Victim → List Process → Process → Type 0
IsOther v listed p = (HasHostPid v p → ⊥) × (HasNsPid v listed p → ⊥)

abbrev pub AreOthers : Victim → List Process → List Process → Type 0
AreOthers v listed [] = Unit
AreOthers v listed (p ∷ ps) = IsOther v listed p × AreOthers v listed ps

-- What comes of the processes `ps` of a listing.
pub data Removed (v : Victim) (listed : List Process) (ps : List Process)
    (out : List ProcessSnapshot × VictimMatch) : Type 0 where
  none_removed :
      AreOthers v listed ps
      → out ≡ (map snapshot_of ps, VictimMatch.none_matched)
      → Removed v listed ps out
  by_host_pid :
      (before after : List Process) (p : Process)
      → ps ≡ before ++ p ∷ after
      → AreOthers v listed before
      → HasHostPid v p
      → out ≡ (map snapshot_of (before ++ after), VictimMatch.host_pid)
      → Removed v listed ps out
  by_ns_pid :
      (before after : List Process) (p : Process)
      → ps ≡ before ++ p ∷ after
      → AreOthers v listed before
      → (HasHostPid v p → ⊥)
      → HasNsPid v listed p
      → out ≡ (map snapshot_of (before ++ after), VictimMatch.ns_pid)
      → Removed v listed ps out

-- How a process stands to the victim.
data Matched (v : Victim) (listed : List Process) (p : Process) (m : VictimMatch) : Type 0 where
  as_host : HasHostPid v p → m ≡ VictimMatch.host_pid → Matched v listed p m
  as_ns : (HasHostPid v p → ⊥) → HasNsPid v listed p → m ≡ VictimMatch.ns_pid → Matched v listed p m
  as_other : IsOther v listed p → m ≡ VictimMatch.none_matched → Matched v listed p m

not_eq : (a b : ℤ) → a ==ℤ b ≡ false → a ≢ b
not_eq a b h e = ground (arith, ==ℤ-refl b)

-- The count is at zero, and at one.
NoneHas-of_count : (n : ℤ) (ps : List Process) → count_ns_pid n ps ≡ 0 → NoneHas n ps
unfolding count_ns_pid
NoneHas-of_count n [] h = tt
NoneHas-of_count n (p ∷ ps) h = elim (Bool-cases (p.ns_pid ==ℤ n)) [
  | inl e ↦ absurd (ground arith)
  | inr e ↦ (not_eq p.ns_pid n e, NoneHas-of_count n ps (ground arith))
]

OneHas-of_count : (n : ℤ) (ps : List Process) → count_ns_pid n ps ≡ 1 → OneHas n ps
unfolding count_ns_pid
OneHas-of_count n [] h = absurd (omega arith)
OneHas-of_count n (p ∷ ps) h = elim (Bool-cases (p.ns_pid ==ℤ n)) [
  | inl e ↦ inl (==ℤ→eq p.ns_pid n e, NoneHas-of_count n ps (ground arith))
  | inr e ↦ inr (not_eq p.ns_pid n e, OneHas-of_count n ps (ground arith))
]

count-NoneHas : (n : ℤ) (ps : List Process) → NoneHas n ps → count_ns_pid n ps ≡ 0
unfolding count_ns_pid
count-NoneHas n [] h = refl
count-NoneHas n (p ∷ ps) (h, hs) = ground (arith, ==ℤ→eq p.ns_pid n, count-NoneHas n ps hs)

count-OneHas : (n : ℤ) (ps : List Process) → OneHas n ps → count_ns_pid n ps ≡ 1
unfolding count_ns_pid
count-OneHas n [] h = absurd h
count-OneHas n (p ∷ ps) (inl (e, h)) = ground (arith, ==ℤ-refl n, count-NoneHas n ps h)
count-OneHas n (p ∷ ps) (inr (e, h)) = ground (arith, ==ℤ→eq p.ns_pid n, count-OneHas n ps h)

OneHas-of_unambiguous :
    (ps : List Process) (n : ℤ) → ns_pid_is_unambiguous ps n ≡ true → OneHas n ps
unfolding ns_pid_is_unambiguous
OneHas-of_unambiguous ps n h = OneHas-of_count n ps (ground arith)

unambiguous-OneHas :
    (ps : List Process) (n : ℤ) → n ≢ pos 0 → OneHas n ps → ns_pid_is_unambiguous ps n ≡ true
unfolding ns_pid_is_unambiguous
unambiguous-OneHas ps n z h = ground (arith, ==ℤ→eq n (pos 0), count-OneHas n ps h)

-- The tests of `victimMatch` decide what they are for.
host_decided :
    (v : Victim) (p : Process)
    → HasHostPid v p × (v.pid ==ℤ pos 0 ≡ false) × (p.pid ==ℤ v.pid ≡ true)
      ⊎ (HasHostPid v p → ⊥) × ((v.pid ==ℤ pos 0 ≡ true) ⊎ (p.pid ==ℤ v.pid ≡ false))
host_decided v p = elim (Bool-cases (v.pid ==ℤ pos 0)) [
  | inl e ↦ inr ((λ h. h.0 (==ℤ→eq v.pid (pos 0) e)), inl e)
  | inr e ↦ elim (Bool-cases (p.pid ==ℤ v.pid)) [
    | inl k ↦ inl ((not_eq v.pid (pos 0) e, ==ℤ→eq p.pid v.pid k), e, k)
    | inr k ↦ inr ((λ h. not_eq p.pid v.pid k h.1), inr k)
  ]
]

ns_decided :
    (v : Victim) (listed : List Process) (p : Process)
    → HasNsPid v listed p
        × (v.ns_pid ==ℤ pos 0 ≡ false)
        × (p.ns_pid ==ℤ v.ns_pid ≡ true)
        × (ns_pid_is_unambiguous listed v.ns_pid ≡ true)
      ⊎ (HasNsPid v listed p → ⊥)
        × ((v.ns_pid ==ℤ pos 0 ≡ true)
            ⊎ (p.ns_pid ==ℤ v.ns_pid ≡ false)
            ⊎ (ns_pid_is_unambiguous listed v.ns_pid ≡ false))
ns_decided v listed p = elim (Bool-cases (v.ns_pid ==ℤ pos 0)) [
  | inl e ↦ inr ((λ h. h.0 (==ℤ→eq v.ns_pid (pos 0) e)), inl e)
  | inr e ↦ elim (Bool-cases (p.ns_pid ==ℤ v.ns_pid)) [
    | inl k ↦ elim (Bool-cases (ns_pid_is_unambiguous listed v.ns_pid)) [
      | inl u ↦ inl (
        (
          not_eq v.ns_pid (pos 0) e,
          ==ℤ→eq p.ns_pid v.ns_pid k,
          OneHas-of_unambiguous listed v.ns_pid u,
        ),
        e,
        k,
        u,
      )
      | inr u ↦ inr ((λ h. ground (arith, unambiguous-OneHas listed v.ns_pid h.0 h.2)), inr (inr u))
    ]
    | inr k ↦ inr ((λ h. not_eq p.ns_pid v.ns_pid k h.1), inr (inl k))
  ]
]

victim_match-Matched :
    (v : Victim) (listed : List Process) (p : Process)
    → Matched v listed p (victim_match p v (ns_pid_is_unambiguous listed v.ns_pid))
unfolding victim_match
victim_match-Matched v listed p = elim (host_decided v p) [
  | inl (h, t, u) ↦ as_host h (ground arith)
  | inr (n, t) ↦ elim (ns_decided v listed p) [
    | inl (h, u, w, x) ↦ as_ns n h (ground arith)
    | inr (m, u) ↦ as_other (n, m) (ground arith)
  ]
]

-- Once the victim is found, all that follows is kept.
drop_victim_found :
    (v : Victim) (ns : Bool) (m : VictimMatch) (ps : List Process)
    → is_match m ≡ true
    → drop_victim v ns m ps ≡ (map snapshot_of ps, m)
unfolding drop_victim keep
drop_victim_found v ns m [] h = refl
drop_victim_found v ns m (p ∷ ps) h = ground (arith, drop_victim_found v ns m ps h)

drop_victim-Removed :
    (v : Victim) (listed ps : List Process)
    → Removed v listed ps
        (drop_victim v (ns_pid_is_unambiguous listed v.ns_pid) VictimMatch.none_matched ps)
unfolding drop_victim keep is_match
drop_victim-Removed v listed [] = none_removed tt refl
drop_victim-Removed v listed (p ∷ ps) =
    placed (victim_match-Matched v listed p) (drop_victim-Removed v listed ps)
  where
    placed :
        Matched v listed p (victim_match p v (ns_pid_is_unambiguous listed v.ns_pid))
        → Removed v listed ps
            (drop_victim v (ns_pid_is_unambiguous listed v.ns_pid) VictimMatch.none_matched ps)
        → Removed v listed (p ∷ ps) (
            drop_victim v (ns_pid_is_unambiguous listed v.ns_pid) VictimMatch.none_matched (p ∷ ps))
    placed (as_host h e) r = by_host_pid [] ps p refl tt h (
        ground (
          arith,
          drop_victim_found v (ns_pid_is_unambiguous listed v.ns_pid) VictimMatch.host_pid ps refl,
        ))
    placed (as_ns n h e) r = by_ns_pid [] ps p refl tt n h (
        ground (
          arith,
          drop_victim_found v (ns_pid_is_unambiguous listed v.ns_pid) VictimMatch.ns_pid ps refl,
        ))
    placed (as_other n e) (none_removed ns o) = none_removed (n, ns) (ground arith)
    placed (as_other n e) (by_host_pid before after q s ns h o) =
        by_host_pid (p ∷ before) after q (ap (◌∷◌ p) s) (n, ns) h (ground arith)
    placed (as_other n e) (by_ns_pid before after q s ns k h o) =
        by_ns_pid (p ∷ before) after q (ap (◌∷◌ p) s) (n, ns) k h (ground arith)

-- `ProcessesFrom` lists every process in order but the first that the victim names, and reports by
-- which identifier: by its PID on the host, where that is not zero, or else by the one in its
-- container, where that is not zero and exactly one of all the listed processes has it. When the
-- victim names none, it lists them all and reports "none".
pub processes_from-Removed :
    (ps : List Process) (v : Victim) → Removed v ps ps (processes_from ps v)
unfolding processes_from
processes_from-Removed ps v = drop_victim-Removed v ps ps
