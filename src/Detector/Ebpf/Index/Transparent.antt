-- ===== src/Detector/Ebpf/Index/Transparent.antt =====
-- The index is a cache of the listing: it is not seen in the answers.
use k8s_pod_oom_oracle.Base.{
  ℕ, zero, suc, ◌≡◌, refl, inl, inr, Option, none, some, Str, lookup, ℕ_discrete, Option-cases,
}
use k8s_pod_oom_oracle.Detector.Ebpf.Index.{CgroupIndex, path_of_id, on_miss, after_miss}

-- What the index holds is as in the listing, which may have more.
abbrev pub AgreesWith : CgroupIndex → CgroupIndex → Type 0
AgreesWith index listing =
    (id : ℕ) (path : Str)
    → lookup ℕ_discrete id index ≡ some path
    → lookup ℕ_discrete id listing ≡ some path

-- The path of an ID in a listing; no cgroup has the ID zero.
unfoldable pub listed : ℕ → CgroupIndex → Option Str
listed zero listing = none
listed (suc n) listing = lookup ℕ_discrete (suc n) listing

-- Where the index agrees with what a listing gives, an ID has the path of the listing, whether or not
-- the hierarchy was walked for it, and the index that is kept agrees with the listing again.
pub path_of_id-listed :
    (listing : CgroupIndex) (id : ℕ) (index : CgroupIndex)
    → AgreesWith index listing
    → ((path_of_id (some listing) id index).0 ≡ listed id listing)
      × AgreesWith (path_of_id (some listing) id index).1 listing
unfolding path_of_id listed on_miss after_miss
path_of_id-listed listing zero index h = (refl, h)
path_of_id-listed listing (suc n) index h = elim (Option-cases (lookup ℕ_discrete (suc n) index)) [
  | inl e ↦ rw e (refl, λ id path k. k)
  | inr (path, e) ↦ rw (e, h (suc n) path e) (refl, h)
]
