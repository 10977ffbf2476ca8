-- ===== src/Sampler/Ring/Tests.antt =====
-- The ring on small inputs.
use k8s_pod_oom_oracle.Base.{ℕ, ◌≡◌, refl, true, some, [], ◌∷◌, arith, last}
use k8s_pod_oom_oracle.Sampler.Ring.{Ring, new_ring, add, len, cap, samples_of, add_all}
use k8s_pod_oom_oracle.Sampler.Ring.Refine.{add_all-samples_of}

-- Three samples in a ring of two: 3 stands where 1 stood.
abbrev wrapped : Ring ℕ
wrapped = record { samples = some 3 ∷ some 2 ∷ []; next = 1; filled = true }

add_all-wrapped : add_all (new_ring ℕ 2) (1 ∷ 2 ∷ 3 ∷ []) ≡ wrapped
unfolding add_all add new_ring
add_all-wrapped = refl

cap-wrapped : cap wrapped ≡ 2
unfolding cap
cap-wrapped = refl

add_all-samples_of_example :
    (samples_of (add_all (new_ring ℕ 2) (1 ∷ 2 ∷ 3 ∷ [])) ≡ some 2 ∷ some 3 ∷ [])
    × (len (add_all (new_ring ℕ 2) (1 ∷ 2 ∷ 3 ∷ [])) ≡ 2)
unfolding last
add_all-samples_of_example = add_all-samples_of 2 (1 ∷ 2 ∷ 3 ∷ []) (omega arith)
