-- ===== src/Api/Server/Events.antt =====
-- What the API serves is what the store holds.
use k8s_pod_oom_oracle.Base.{
  ◌≡◌, refl, ap, subst, ◌∙◌, ◌⊎◌, inl, inr, ℤ, pos, leb_ℤ, ◌≤ℤ◌, Option, none, some, [], ◌++◌, Str,
  codes, same, reverse, select, Option-cases, Bool-cases, arith,
}
use k8s_pod_oom_oracle.Strings.Numbers.{atoi}
use k8s_pod_oom_oracle.Oom.Report.{Report}
use k8s_pod_oom_oracle.Store.{Memory, ok, matches, put}
use k8s_pod_oom_oracle.Store.Index.{find}
use k8s_pod_oom_oracle.Store.Invariant.{IsValid}
use k8s_pod_oom_oracle.Store.Queries.{answer, cap_at, get_lem, list_lem, get-put}
use k8s_pod_oom_oracle.Api.Server.{
  Response, Encoders, write_json, write_error, json_or, valid_limit, limit_of, filter_of, listing,
  handle_list_events, found_event, handle_get_event,
}

some_injective : {a b : ℤ} → Path (Option ℤ) (some a) (some b) → a ≡ b
some_injective e = cc

valid_limit-bound : (o : Option ℤ) (n : ℤ) → valid_limit o ≡ some n → pos 0 ≤ℤ n
unfolding valid_limit
valid_limit-bound none n h = cc
valid_limit-bound (some k) n h = elim (Bool-cases (leb_ℤ (pos 0) k)) [
  | inl e ↦ subst (λ z. pos 0 ≤ℤ z) (some_injective (rw (valid_limit, e) at h)) (ground arith)
  | inr e ↦ absurd (cc (rw (valid_limit, e) at h))
]

limit_of-bound : (raw : Str) (n : ℤ) → limit_of raw ≡ some n → pos 0 ≤ℤ n
unfolding limit_of
limit_of-bound raw n h = elim (Bool-cases (same raw [])) [
  | inl e ↦ subst (λ z. pos 0 ≤ℤ z) (some_injective (rw (limit_of, e) at h)) (omega arith)
  | inr e ↦ valid_limit-bound (atoi raw) n (rw (limit_of, e) at h)
]

module _ {R S : Type 0} (enc : Encoders R S) where
  -- The answer for the report of an ID, where there is one.
  pub served : Option (Report R) → Response
  served none = write_error enc 404 (codes "report not found")
  served (some r) = json_or enc (codes "rendering report") (enc.report_json r)

  served-answer : (o : Option (Report R)) → found_event enc (answer o) ≡ some (served o)
  unfolding found_event served answer
  served-answer none = refl
  served-answer (some r) = refl

  -- On a valid store, a request for an ID is answered and does not panic: with the report of that ID,
  -- and with 404 where the store has none.
  pub handle_get_event-find :
      (m : Memory R) (id : Str)
      → IsValid m
      → handle_get_event enc m id ≡ some (served (find id m.ordered))
  unfolding handle_get_event
  handle_get_event-find m id v =
      ap (found_event enc) (get_lem m id v) ∙ served-answer (find id m.ordered)

  -- A report that was put into a valid store and can be encoded is served under its ID at once, with 200
  -- and its JSON.
  pub handle_get_event-put :
      (m m' : Memory R) (r : Report R) (payload : Str)
      → IsValid m
      → put m r ≡ ok m'
      → enc.report_json r ≡ some payload
      → handle_get_event enc m' r.id ≡ some (write_json 200 payload)
  unfolding handle_get_event found_event json_or
  handle_get_event-put m m' r payload v h e = rw (get-put m m' r v h, found_event, e) refl

  -- A list request is refused with 400 where its limit is no number or a negative one, and else it is
  -- answered with the matching reports, newest first, cut off at a limit that is positive.
  pub handle_list_events-answer :
      (m : Memory R) (query : Str → Str)
      → let limit = limit_of (query (codes "limit")) in
        ((limit ≡ none)
          × (handle_list_events enc m query
              ≡ write_error enc 400 (codes "invalid limit " ++ enc.quoted (query (codes "limit")))))
        ⊎ ((n : ℤ) × (limit ≡ some n)
            × (pos 0 ≤ℤ n)
            × (handle_list_events enc m query
                ≡ json_or enc (codes "rendering reports") (
                    enc.reports_json
                      (cap_at n (select (matches (filter_of query n)) (reverse m.ordered))))))
  unfolding handle_list_events listing
  handle_list_events-answer m query = elim (Option-cases (limit_of (query (codes "limit")))) [
    | inl e ↦ inl (e, rw (handle_list_events, e) refl)
    | inr (n, e) ↦ inr (
      n,
      e,
      limit_of-bound (query (codes "limit")) n e,
      rw (handle_list_events, e, list_lem m (filter_of query n)) refl,
    )
  ]
