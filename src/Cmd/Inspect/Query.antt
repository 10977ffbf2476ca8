-- ===== src/Cmd/Inspect/Query.antt =====
-- The command line and the API understand each other.
use k8s_pod_oom_oracle.Base.{
  ℕ, zero, suc, ◌≡◌, refl, sym, ◌≢◌, ◌∙◌, inl, inr, ◌<◌, ◌^◌, ℤ, pos, negsuc, false, some, [], ◌∷◌,
  Map, lookup, insert, lookup-insert, ne_of_not_same, Str, codes, same, same→eq, str_discrete,
  Bool-cases, arith, pos_part, ite,
}
use k8s_pod_oom_oracle.Strings.Numbers.{decimal, atoi}
use k8s_pod_oom_oracle.Strings.Numbers.RoundTrip.{atoi-decimal}
use k8s_pod_oom_oracle.Api.Server.{valid_limit, limit_of, filter_of}
use k8s_pod_oom_oracle.Cmd.Inspect.{
  InspectConfig, set_if_not_empty, with_limit, query_of, or_empty_value, get_param,
}

-- A limit that is not positive is none.
abbrev pub asked : ℤ → ℤ
asked (pos n) = pos n
asked (negsuc n) = pos 0

get_param-insert :
    (key value : Str) (q : Map Str Str) → get_param (insert str_discrete key value q) key ≡ value
unfolding get_param or_empty_value
get_param-insert key value q =
    rw (lookup-insert str_discrete key key value q) (chosen (str_discrete key key))
  where
    chosen :
        (d : Dec (key ≡ key))
        → or_empty_value (ite d (some value) (lookup str_discrete key q)) ≡ value
    chosen (yes e) = refl
    chosen (no ne) = absurd (ne refl)

get_param-insert_ne :
    (j key value : Str) (q : Map Str Str)
    → j ≢ key
    → get_param (insert str_discrete key value q) j ≡ get_param q j
unfolding get_param or_empty_value
get_param-insert_ne j key value q ne =
    rw (lookup-insert str_discrete key j value q) (chosen (str_discrete j key))
  where
    chosen :
        (d : Dec (j ≡ key))
        → or_empty_value (ite d (some value) (lookup str_discrete j q))
          ≡ or_empty_value (lookup str_discrete j q)
    chosen (yes e) = absurd (ne e)
    chosen (no n) = refl

get_param-set :
    (key value : Str) (q : Map Str Str)
    → get_param q key ≡ []
    → get_param (set_if_not_empty key value q) key ≡ value
unfolding set_if_not_empty
get_param-set key value q h = elim (Bool-cases (same value [])) [
  | inl e ↦ rw e (h ∙ sym (same→eq value [] e))
  | inr e ↦ rw e (get_param-insert key value q)
]

get_param-set_ne :
    (j key value : Str) (q : Map Str Str)
    → j ≢ key
    → get_param (set_if_not_empty key value q) j ≡ get_param q j
unfolding set_if_not_empty
get_param-set_ne j key value q ne = elim (Bool-cases (same value [])) [
  | inl e ↦ rw e refl
  | inr e ↦ rw e (get_param-insert_ne j key value q ne)
]

get_param-with_limit_ne :
    (j : Str) (limit : ℤ) (q : Map Str Str)
    → j ≢ codes "limit"
    → get_param (with_limit limit q) j ≡ get_param q j
unfolding with_limit
get_param-with_limit_ne j (pos zero) q ne = refl
get_param-with_limit_ne j (pos (suc n)) q ne =
    get_param-insert_ne j (codes "limit") (decimal (suc n)) q ne
get_param-with_limit_ne j (negsuc n) q ne = refl

decimal-ne-nil : (n : ℕ) → n < 2 ^ 63 → same (decimal n) [] ≡ false
unfolding same atoi
decimal-ne-nil n h = not_empty (decimal n) (atoi-decimal n h)
  where
    not_empty : (s : Str) → atoi s ≡ some (pos n) → same s [] ≡ false
    not_empty [] e = cc
    not_empty (c ∷ s) e = refl

limit-sent :
    (limit : ℤ) (q : Map Str Str)
    → pos_part limit < 2 ^ 63
    → get_param q (codes "limit") ≡ []
    → limit_of (get_param (with_limit limit q) (codes "limit")) ≡ some (asked limit)
unfolding with_limit limit_of valid_limit same
limit-sent (pos zero) q h e = rw e refl
limit-sent (negsuc n) q h e = rw e refl
limit-sent (pos (suc n)) q h e =
    rw
      (
        get_param-insert (codes "limit") (decimal (suc n)) q,
        decimal-ne-nil (suc n) h,
        atoi-decimal (suc n) h,
      )
      (ground arith)

-- A key that no parameter of the query has.
unset :
    (j pod namespace container : Str)
    → j ≢ codes "pod"
    → j ≢ codes "namespace"
    → j ≢ codes "container"
    → get_param
        (set_if_not_empty
          (codes "container")
          container
          (set_if_not_empty (codes "namespace") namespace (set_if_not_empty (codes "pod") pod [])))
        j
      ≡ []
unfolding get_param or_empty_value lookup
unset j pod namespace container p n c =
    get_param-set_ne j (codes "container") container _ c
    ∙ get_param-set_ne j (codes "namespace") namespace _ n
    ∙ get_param-set_ne j (codes "pod") pod [] p

-- What `inspect` asks for is what the API looks for: the filter that the handler makes of the query has
-- the pod, namespace and container of the command, an empty one asking for all, and its limit where that
-- is positive, for every limit of an int.
pub filter_of-query_of :
    (cfg : InspectConfig) (pod : Str)
    → pos_part cfg.limit < 2 ^ 63
    → (limit_of (get_param (query_of cfg pod) (codes "limit")) ≡ some (asked cfg.limit))
      × (filter_of (get_param (query_of cfg pod)) (asked cfg.limit) ≡ record {
        namespace = cfg.namespace;
        pod = pod;
        container = cfg.container;
        limit = asked cfg.limit;
      })
unfolding query_of filter_of get_param or_empty_value lookup same
filter_of-query_of cfg pod h =
    let q₁ = set_if_not_empty (codes "pod") pod [] in
    let q₂ = set_if_not_empty (codes "namespace") cfg.namespace q₁ in
    let q₃ = set_if_not_empty (codes "container") cfg.container q₂ in
    let pod_sent =
      get_param-with_limit_ne (codes "pod") cfg.limit q₃ (ne_of_not_same _ _ refl)
      ∙ get_param-set_ne (codes "pod") (codes "container") cfg.container q₂
          (ne_of_not_same _ _ refl)
      ∙ get_param-set_ne (codes "pod") (codes "namespace") cfg.namespace q₁
          (ne_of_not_same _ _ refl)
      ∙ get_param-set (codes "pod") pod [] refl in
    let namespace_sent =
      get_param-with_limit_ne (codes "namespace") cfg.limit q₃ (ne_of_not_same _ _ refl)
      ∙ get_param-set_ne (codes "namespace") (codes "container") cfg.container q₂
          (ne_of_not_same _ _ refl)
      ∙ get_param-set (codes "namespace") cfg.namespace q₁
          (get_param-set_ne (codes "namespace") (codes "pod") pod [] (ne_of_not_same _ _ refl)) in
    let container_sent =
      get_param-with_limit_ne (codes "container") cfg.limit q₃ (ne_of_not_same _ _ refl)
      ∙ get_param-set (codes "container") cfg.container q₂ (
          get_param-set_ne (codes "container") (codes "namespace") cfg.namespace q₁
            (ne_of_not_same _ _ refl)
          ∙ get_param-set_ne (codes "container") (codes "pod") pod [] (ne_of_not_same _ _ refl)) in
    (
      limit-sent cfg.limit q₃ h (
          unset (codes "limit") pod cfg.namespace cfg.container (ne_of_not_same _ _ refl)
            (ne_of_not_same _ _ refl) (ne_of_not_same _ _ refl)),
      λ i. record {
        namespace = namespace_sent i;
        pod = pod_sent i;
        container = container_sent i;
        limit = asked cfg.limit;
      },
    )
