-- ===== src/Health/Summary.antt =====
-- `classify_provider_state` of 9router_WatchEdit/core/classification.py: a completion probe and an answer
-- to `/models` as the health of a provider. `decoded` is what `json.loads` makes of the answer's
-- body, none where that fails or the body is empty; `has_body` is whether the body has a text.
pub mod Usable
use router_extra.Prelude.{
  ℕ, String, Bool, true, false, not, ◌&&◌, ◌||◌, Option, none, some, str_eq, leb, ◌==◌,
  if◌then◌else◌,
}
use router_extra.Storage.{Json, arr, obj, done, item, Fields, end, field, field_of}
use router_extra.Health.{
  Availability, live, dead, auth_rejected, endpoint_or_model_invalid, route_error, model_invalid,
  model_missing, model_discovery_unavailable, Evidence,
}

pub data ReachabilityState : Type 0 where
  reachable unreachable : ReachabilityState

pub data AuthState : Type 0 where
  auth_ok auth_refused auth_unknown : AuthState

pub data CatalogState : Type 0 where
  models_available empty_model_catalog discovery_unavailable : CatalogState

-- `models_status_code == code`
unfoldable pub answered : ℕ → Option ℕ → Bool
answered code none = false
answered code (some status) = status == code

unfoldable pub has_key : String → Fields → Bool
has_key k end = false
has_key k (field key v rest) = str_eq key k || has_key k rest

unfoldable pub catalog_rows : Fields → Json
unfolding has_key field_of
catalog_rows payload =
    if has_key "data" payload then field_of "data" payload else field_of "models" payload

unfoldable pub catalog_of_rows : Json → CatalogState
catalog_of_rows (arr done) = empty_model_catalog
catalog_of_rows (arr (item j rest)) = models_available
catalog_of_rows j = discovery_unavailable

unfoldable pub catalog_of : Option Json → CatalogState
unfolding catalog_rows catalog_of_rows
catalog_of (some (obj payload)) = catalog_of_rows (catalog_rows payload)
catalog_of payload = discovery_unavailable

-- `payload`: the parsed answer where it is given, else the decoded body.
unfoldable pub payload_of : Option Json → Option Json → Option Json
payload_of none decoded = decoded
payload_of (some parsed) decoded = some parsed

unfoldable pub classify_models_catalog : Option ℕ → Option Json → CatalogState
unfolding answered catalog_of
classify_models_catalog status payload =
    if answered 200 status then catalog_of payload else discovery_unavailable

unfoldable pub http_answer : Option ℕ → Bool
http_answer none = false
http_answer (some status) = leb 100 status

unfoldable pub classify_reachability : Evidence → Option ℕ → ReachabilityState
unfolding http_answer
classify_reachability completion status =
    if http_answer status || leb 100 completion.status_code then reachable else unreachable

unfoldable pub is_live : Availability → Bool
is_live live = true
is_live a = false

unfoldable pub is_auth_rejected : Availability → Bool
is_auth_rejected auth_rejected = true
is_auth_rejected a = false

unfoldable pub classify_auth : Evidence → Option ℕ → AuthState
unfolding answered is_live is_auth_rejected
classify_auth completion status =
    if answered 401 status || is_auth_rejected completion.availability
    then auth_refused
    else (if answered 200 status || is_live completion.availability then auth_ok else auth_unknown)

-- A broken route or model at a provider whose catalogue answers.
unfoldable pub model_state_at : Availability → Availability
model_state_at endpoint_or_model_invalid = model_invalid
model_state_at route_error = model_invalid
model_state_at model_missing = model_invalid
model_state_at a = a

unfoldable pub provider_state_at : Availability → Availability
provider_state_at model_invalid = live
provider_state_at endpoint_or_model_invalid = live
provider_state_at route_error = live
provider_state_at model_missing = live
provider_state_at a = a

unfoldable pub provider_state_by : CatalogState → Bool → Availability → Availability
unfolding provider_state_at
provider_state_by empty_model_catalog answers a = model_discovery_unavailable
provider_state_by catalog answers a = if answers then provider_state_at a else a

unfoldable pub is_reachable : ReachabilityState → Bool
is_reachable reachable = true
is_reachable unreachable = false

unfoldable pub is_authorized : AuthState → Bool
is_authorized auth_ok = true
is_authorized a = false

unfoldable pub has_models : CatalogState → Bool
has_models models_available = true
has_models c = false

pub data DiscoveryState : Type 0 where
  catalog_value : CatalogState → DiscoveryState
  unavailable available : DiscoveryState

unfoldable pub is_unavailable : CatalogState → Bool
is_unavailable discovery_unavailable = true
is_unavailable c = false

pub record ProviderHealthSummary : Type 0 where
  pub provider_state : Availability
  pub model_state : Availability
  pub discovery_state : DiscoveryState
  pub completion : Evidence
  pub reachability : ReachabilityState
  pub auth : AuthState
  pub catalog : CatalogState
  pub usable : Bool

unfoldable pub summary_of :
    Evidence
    → Option ℕ
    → Bool
    → CatalogState
    → ReachabilityState
    → AuthState
    → ProviderHealthSummary
unfolding answered model_state_at provider_state_by is_reachable is_authorized has_models is_live
    is_unavailable
summary_of completion status has_body catalog reachability auth =
    let answers = answered 200 status in
    record {
      provider_state = provider_state_by catalog answers completion.availability;
      model_state =
          if answers then model_state_at completion.availability else completion.availability;
      discovery_state =
          if answers && has_body
          then catalog_value catalog
          else (if is_unavailable catalog && not answers then unavailable else available);
      completion = completion;
      reachability = reachability;
      auth = auth;
      catalog = catalog;
      usable =
          is_reachable reachability
          && is_authorized auth
          && has_models catalog
          && is_live completion.availability;
    }

-- `completion_state` and `active_routing` are further names of parts of the summary.
unfoldable pub classify_provider_state :
    Evidence → Option ℕ → Bool → Option Json → Option Json → ProviderHealthSummary
unfolding summary_of payload_of classify_models_catalog classify_reachability classify_auth
classify_provider_state completion status has_body decoded parsed =
    summary_of completion status has_body
      (classify_models_catalog status (payload_of parsed decoded))
      (classify_reachability completion status) (classify_auth completion status)
