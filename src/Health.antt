-- ===== src/Health.antt =====
-- 9router_WatchEdit/core/classification.py: the states, the evidence counters and the records that
-- a probe of a model is classified into.
pub mod Classify
pub mod Streaks
pub mod Verdicts
pub mod Summary
mod Examples
use router_extra.Prelude.{ℕ, String, Bool, true, false, Option, none, some}

-- `AvailabilityState`; its aliases name the same values.
pub data Availability : Type 0 where
  live pending auth_rejected access_forbidden balance_required rate_limited connect_timeout :
      Availability
  provider_error endpoint_or_model_invalid route_error model_invalid model_missing model_gone :
      Availability
  router_degraded dns_failure non_api_html_response waf_blocked browser_challenge : Availability
  model_discovery_unavailable client_bound_free_tier dead unknown : Availability

pub Availability-discrete : Discrete Availability
Availability-discrete = hlevel

-- `CostState`
pub data Cost : Type 0 where
  free paid unknown_cost : Cost

pub data Confidence : Type 0 where
  live_confidence likely_temporary config_error model_dead provider_dead : Confidence

-- `EvidenceCounters`
pub record Counters : Type 0 where
  pub model_missing_streak : ℕ
  pub timeout_streak : ℕ
  pub route_error_streak : ℕ
  pub auth_streak : ℕ
  pub rate_limit_streak : ℕ

unfoldable pub zero_counters : Counters
zero_counters = record {
  model_missing_streak = 0;
  timeout_streak = 0;
  route_error_streak = 0;
  auth_streak = 0;
  rate_limit_streak = 0;
}

-- `EvidenceRecord`, without its latency and its texts.
pub record Evidence : Type 0 where
  pub availability : Availability
  pub cost : Cost
  pub confidence : Confidence
  pub status_code : ℕ
  pub error_code : String
  pub counters : Counters

-- The operator's badge; any other state is shown by its own name.
pub data Badge : Type 0 where
  free_use paid_use use_unknown : Badge
  named : Availability → Badge

unfoldable pub live_badge : Cost → Badge
live_badge free = free_use
live_badge paid = paid_use
live_badge unknown_cost = use_unknown

unfoldable pub get_ui_badge : Availability → Cost → Badge
unfolding live_badge
get_ui_badge live cost = live_badge cost
get_ui_badge a cost = named a
