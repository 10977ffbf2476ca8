-- ===== src/Api/Server.antt =====
-- internal/api/api.go: the handlers of `Server`. Package net/http finds the route; the handler's answer is
-- a value. What package encoding/json makes of a value, and of %q, are functions of the model.
pub mod Events
mod Tests
use k8s_pod_oom_oracle.Base.{
  ℕ, ℤ, pos, leb_ℤ, Bool, true, false, Option, none, some, List, [], ◌∷◌, ◌++◌, Str, codes, same,
  if◌then◌else◌,
}
use k8s_pod_oom_oracle.Strings.Numbers.{atoi}
use k8s_pod_oom_oracle.Oom.Report.{Report}
use k8s_pod_oom_oracle.Store.{Memory, Filter, Result, ok, not_found, panic, get, list}

pub data ContentType : Type 0 where
  plain_text json : ContentType

pub record Response : Type 0 where
  pub status : ℕ
  pub content_type : ContentType
  -- X-Content-Type-Options: nosniff
  pub nosniff : Bool
  pub body : Str

-- `none` is an error of json.Marshal. The lists are those of the packages' Go types.
pub record Encoders (R S : Type 0) : Type 0 where
  pub report_json : Report R → Option Str
  pub reports_json : List (Report R) → Option Str
  pub status_json : S → Option Str
  -- {"error": message}
  pub error_json : Str → Option Str
  -- %q
  pub quoted : Str → Str

-- What a request carries: `route` is the pattern of `Handler` that it matches.
pub data Route : Type 0 where
  healthz readyz status_route : Route
  -- the query's parameters, the empty string where one is missing
  list_events : (Str → Str) → Route
  get_event : Str → Route

-- `writeText` and `writeJSON`
pub write_text : ℕ → Str → Response
write_text status body = record {
  status = status;
  content_type = ContentType.plain_text;
  nosniff = false;
  body = body;
}

pub write_json : ℕ → Str → Response
write_json status body = record {
  status = status;
  content_type = ContentType.json;
  nosniff = true;
  body = body;
}

-- The limit of a query, or `none` where it is not valid.
unfoldable pub valid_limit : Option ℤ → Option ℤ
valid_limit none = none
valid_limit (some n) = if leb_ℤ (pos 0) n then some n else none

unfoldable pub limit_of : Str → Option ℤ
unfolding valid_limit
limit_of raw = if same raw [] then some (pos 0) else valid_limit (atoi raw)

unfoldable pub filter_of : (Str → Str) → ℤ → Filter
filter_of query limit = record {
  namespace = query (codes "namespace");
  pod = query (codes "pod");
  container = query (codes "container");
  limit = limit;
}

module _ {R S : Type 0} (enc : Encoders R S) where
  error_with : ℕ → Option Str → Response
  error_with status none = write_text 500 (codes "internal error\n")
  error_with status (some payload) = write_json status (payload ++ codes "\n")

  -- `writeError`
  pub write_error : ℕ → Str → Response
  unfolding error_with
  write_error status message = error_with status (enc.error_json message)

  pub json_or : Str → Option Str → Response
  json_or message none = write_error 500 message
  json_or message (some payload) = write_json 200 payload

  -- `handleReadyz`
  pub handle_readyz : Bool → Response
  handle_readyz ready =
      if ready then write_text 200 (codes "ready\n") else write_text 503 (codes "not ready\n")

  status_with : Option Str → Response
  status_with none = write_error 500 (codes "rendering status")
  status_with (some payload) = write_json 200 (payload ++ codes "\n")

  -- `handleStatus`
  pub handle_status : S → Response
  unfolding status_with
  handle_status s = status_with (enc.status_json s)

  pub listing : Memory R → (Str → Str) → Option ℤ → Response
  unfolding json_or filter_of
  listing m query none =
      write_error 400 (codes "invalid limit " ++ enc.quoted (query (codes "limit")))
  listing m query (some limit) =
      json_or (codes "rendering reports") (enc.reports_json (list m (filter_of query limit)))

  -- `handleListEvents`; the memory store's List does not fail.
  pub handle_list_events : Memory R → (Str → Str) → Response
  unfolding listing limit_of
  handle_list_events m query = listing m query (limit_of (query (codes "limit")))

  pub found_event : Result (Report R) → Option Response
  unfolding json_or
  found_event not_found = some (write_error 404 (codes "report not found"))
  found_event (ok report) = some (json_or (codes "rendering report") (enc.report_json report))
  found_event panic = none

  -- `handleGetEvent`: `none` is a panic of Get, whose only error is that the report is not found.
  pub handle_get_event : Memory R → Str → Option Response
  unfolding found_event
  handle_get_event m id = found_event (get m id)

  -- `Handler`, with the store, the readiness and the status of that moment.
  pub handler : Memory R → Bool → S → Route → Option Response
  unfolding handle_readyz handle_status handle_list_events handle_get_event
  handler m ready status healthz = some (write_text 200 (codes "ok\n"))
  handler m ready status readyz = some (handle_readyz ready)
  handler m ready status status_route = some (handle_status status)
  handler m ready status (list_events query) = some (handle_list_events m query)
  handler m ready status (get_event id) = handle_get_event m id
