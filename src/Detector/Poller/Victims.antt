-- ===== src/Detector/Poller/Victims.antt =====
-- Whom `inferVictimLocked` names: the heaviest of the processes that are gone.
use k8s_pod_oom_oracle.Base.{
  ◌<◌, ◌≡◌, refl, sym, ap, ◌⊎◌, inl, inr, true, false, some, List, [], ◌∷◌, ◌++◌, arith, Map,
  lookup, Str, str_discrete, Bool-cases, ℤ, subst,
}
use k8s_pod_oom_oracle.Base.{◌≤ℤ◌, ◌==ℤ◌, ==ℤ→eq, ==ℤ-refl, any}
use k8s_pod_oom_oracle.Procfs.Process.{Process}
use k8s_pod_oom_oracle.Cgroup.Reader.{ok, Reader}
use k8s_pod_oom_oracle.Detector.Event.{Victim, no_victim, victim_from_process}
use k8s_pod_oom_oracle.Detector.Poller.{
  Poller, goes_first, insert_by_weight, by_weight, vanished, first_victim, victim_among, victim_in,
  infer_victim,
}

-- `b` is lighter than `a`, or as heavy with a PID that is not below.
abbrev pub NotHeavier : Process → Process → Type 0
NotHeavier a b = (b.rss_bytes < a.rss_bytes) ⊎ ((b.rss_bytes ≡ a.rss_bytes) × (a.pid ≤ℤ b.pid))

abbrev pub AllNotHeavier : Process → List Process → Type 0
AllNotHeavier a [] = Unit
AllNotHeavier a (b ∷ bs) = NotHeavier a b × AllNotHeavier a bs

-- The process stands in the list, and all others are no heavier.
pub record IsHeaviest (ps : List Process) (h : Process) : Type 0 where
  pub before : List Process
  pub after : List Process
  pub stands : ps ≡ before ++ h ∷ after
  pub above : AllNotHeavier h before
  pub below : AllNotHeavier h after

NotHeavier-of_first : (a b : Process) → goes_first a b ≡ true → NotHeavier a b
unfolding goes_first
NotHeavier-of_first a b h = ground arith

NotHeavier-of_not_first : (a b : Process) → goes_first b a ≡ false → NotHeavier a b
unfolding goes_first
NotHeavier-of_not_first a b h = ground arith

NotHeavier-trans : (a b c : Process) → NotHeavier a b → NotHeavier b c → NotHeavier a c
NotHeavier-trans a b c h k = ground arith

AllNotHeavier-trans :
    (a b : Process) (cs : List Process) → NotHeavier a b → AllNotHeavier b cs → AllNotHeavier a cs
AllNotHeavier-trans a b [] h k = tt
AllNotHeavier-trans a b (c ∷ cs) h k =
    (NotHeavier-trans a b c h k.0, AllNotHeavier-trans a b cs h k.1)

AllNotHeavier-append :
    (a : Process) (bs cs : List Process)
    → AllNotHeavier a bs
    → AllNotHeavier a cs
    → AllNotHeavier a (bs ++ cs)
AllNotHeavier-append a [] cs h k = k
AllNotHeavier-append a (b ∷ bs) cs h k = (h.0, AllNotHeavier-append a bs cs h.1 k)

-- The head of the list, and that it is the heaviest of `ps`.
abbrev Leads : List Process → List Process → Type 0
Leads ps [] = ps ≡ []
Leads ps (h ∷ rest) = IsHeaviest ps h

lead_new :
    (p h : Process) (ps : List Process) → NotHeavier p h → IsHeaviest ps h → IsHeaviest (p ∷ ps) p
lead_new p h ps n i = record {
  before = [];
  after = ps;
  stands = refl;
  above = tt;
  below = subst (AllNotHeavier p) (sym i.stands) (
      AllNotHeavier-append p i.before (h ∷ i.after) (AllNotHeavier-trans p h i.before n i.above)
        (n, AllNotHeavier-trans p h i.after n i.below));
}

lead_old :
    (p h : Process) (ps : List Process) → NotHeavier h p → IsHeaviest ps h → IsHeaviest (p ∷ ps) h
lead_old p h ps n i = record {
  before = p ∷ i.before;
  after = i.after;
  stands = ap (◌∷◌ p) i.stands;
  above = (n, i.above);
  below = i.below;
}

insert_by_weight-Leads :
    (p : Process) (ps qs : List Process) → Leads ps qs → Leads (p ∷ ps) (insert_by_weight p qs)
unfolding insert_by_weight
insert_by_weight-Leads p ps [] e = record {
  before = [];
  after = ps;
  stands = refl;
  above = tt;
  below = subst (AllNotHeavier p) (sym e) tt;
}
insert_by_weight-Leads p ps (q ∷ qs) i = elim (Bool-cases (goes_first q p)) [
  | inl h ↦ rw h (lead_old p q ps (NotHeavier-of_first q p h) i)
  | inr h ↦ rw h (lead_new p q ps (NotHeavier-of_not_first p q h) i)
]

by_weight-Leads : (ps : List Process) → Leads ps (by_weight ps)
unfolding by_weight
by_weight-Leads [] = refl
by_weight-Leads (p ∷ ps) = insert_by_weight-Leads p ps (by_weight ps) (by_weight-Leads ps)

-- What can be said of the victim of a kill.
pub data Inferred (gone : List Process) (v : Victim) : Type 0 where
  nobody : gone ≡ [] → v ≡ no_victim → Inferred gone v
  somebody : (h : Process) → IsHeaviest gone h → v ≡ victim_from_process h → Inferred gone v

led : (gone qs : List Process) → Leads gone qs → Inferred gone (first_victim qs)
unfolding first_victim
led gone [] e = nobody e refl
led gone (h ∷ qs) i = somebody h i refl

-- The number is one of the list.
abbrev pub Names : ℤ → List ℤ → Type 0
Names n [] = ⊥
Names n (m ∷ ms) = (m ≡ n) ⊎ Names n ms

-- The processes of a snapshot, in its order, whose PIDs are not in the list.
abbrev pub AreGone : List ℤ → Map ℤ Process → List Process → Type 0
AreGone alive [] gone = gone ≡ []
AreGone alive ((pid, proc) ∷ rest) gone =
    Names pid alive × AreGone alive rest gone
    ⊎ (Names pid alive → ⊥)
      × ((others : List Process) × (gone ≡ proc ∷ others) × AreGone alive rest others)

Names-of_any : (n : ℤ) (ms : List ℤ) → any (λ m. m ==ℤ n) ms ≡ true → Names n ms
Names-of_any n [] h = cc
Names-of_any n (m ∷ ms) h = elim (Bool-cases (m ==ℤ n)) [
  | inl e ↦ inl (==ℤ→eq m n e)
  | inr e ↦ inr (Names-of_any n ms (ground arith))
]

not_Names-of_any : (n : ℤ) (ms : List ℤ) → any (λ m. m ==ℤ n) ms ≡ false → Names n ms → ⊥
not_Names-of_any n [] h k = k
not_Names-of_any n (m ∷ ms) h (inl e) = ground (arith, ==ℤ-refl n)
not_Names-of_any n (m ∷ ms) h (inr k) = not_Names-of_any n ms (ground arith) k

vanished-AreGone :
    (alive : List ℤ) (previous : Map ℤ Process) → AreGone alive previous (vanished alive previous)
unfolding vanished
vanished-AreGone alive [] = refl
vanished-AreGone alive ((pid, proc) ∷ rest) = elim (Bool-cases (any (λ a. a ==ℤ pid) alive)) [
  | inl e ↦ rw e (inl (Names-of_any pid alive e, vanished-AreGone alive rest))
  | inr e ↦
      rw e (
        inr
          (not_Names-of_any pid alive e, (vanished alive rest, refl, vanished-AreGone alive rest)))
]

-- In a poller that has a process reader, for a cgroup that has a snapshot and whose member list can
-- be read: of the processes in the snapshot that the list no longer names, the inferred victim is
-- the heaviest, and of several that are as heavy one with the lowest PID; when none is gone there
-- is no victim.
pub infer_victim-Inferred :
    {R : Type 0} (fs : Reader R) (p : Poller) (path : Str) (procs : List ℤ → List Process)
    (previous : Map ℤ Process) (alive : List ℤ)
    → p.proc ≡ some procs
    → lookup str_discrete path p.snapshots ≡ some previous
    → fs.procs_in path ≡ ok alive
    → (gone : List Process) × AreGone alive previous gone × Inferred gone (infer_victim fs p path)
unfolding infer_victim victim_in victim_among
infer_victim-Inferred fs p path procs previous alive hp hs ha =
    rw (hp, hs, ha)
      (
        vanished alive previous,
        vanished-AreGone alive previous,
        led (vanished alive previous) _ (by_weight-Leads (vanished alive previous)),
      )
