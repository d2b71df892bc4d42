-- ===== src/FreeTail.antt =====
-- 9router_WatchEdit/core/free_evidence.py: the evidence that a model costs nothing and the rule
-- for the FREE tail of a combo; the children model the sync of that tail too. A `Row` is the
-- provider's metadata of one model. Prices are integers, multiples of a smallest unit;
-- `promo_words` is the result of the pattern of promotional wording on the row's texts.
pub mod Evidence
pub mod Plan
pub mod Planning
pub mod Sync
pub mod Replanning
pub mod Idempotence
pub mod Staging
pub mod Recovery
mod Examples
use Prim.Native.String.{[] as «empty», ◌∷◌ as «push»}
use router_extra.Prelude.{
  ℕ, suc, ◌-◌, ◌≤◌, String, Bool, true, false, not, ◌&&◌, ◌||◌, Option, none, some, List, [], ◌∷◌,
  str_eq, ltb, leb, ◌==◌, if◌then◌else◌, contains,
}

pub data FreeEvidence : Type 0 where
  strict_free conditional_free unknown_cost paid client_bound_free withdrawn : FreeEvidence

pub data ProviderHealth : Type 0 where
  healthy unverified degraded rate_limited auth_failed dead unknown_health : ProviderHealth

pub data RoutingCapability : Type 0 where
  direct_routable local_bridge_required unsupported unknown_routing : RoutingCapability

pub data CostRisk : Type 0 where
  zero_monetary_metadata free_quota_probe account_conditional possible_billing unknown_risk :
      CostRisk

-- Membership in `NON_MONETARY_COST_RISKS`.
unfoldable pub is_non_monetary : CostRisk → Bool
is_non_monetary zero_monetary_metadata = true
is_non_monetary free_quota_probe = true
is_non_monetary r = false

unfoldable pub cost_risk_blocks_live_probe : CostRisk → Bool
unfolding is_non_monetary
cost_risk_blocks_live_probe r = not (is_non_monetary r)

-- Membership in `BLOCKING_HEALTH_STATES`.
unfoldable pub is_blocking : ProviderHealth → Bool
is_blocking dead = true
is_blocking auth_failed = true
is_blocking h = false

-- An integer: `below n` is -(n + 1).
pub data Price : Type 0 where
  at_least : ℕ → Price
  below : ℕ → Price

unfoldable pub max_price : Price → Price → Price
max_price (at_least a) (at_least b) = at_least (if leb a b then b else a)
max_price (at_least a) (below b) = at_least a
max_price (below a) (at_least b) = at_least b
max_price (below a) (below b) = below (if leb a b then a else b)

pub record Row : Type 0 where
  pub withdrawn : Bool
  pub model_id : String
  pub is_free : Option Bool  -- where it is a Boolean
  pub is_partner : Bool
  pub billed : Bool  -- `billing` is "paid"
  pub promo_words : Bool
  pub pricing : List (String × Option Price)  -- the lower-cased keys, and what `_as_number` reads
  pub client_bound : Bool

abbrev price_keys : List String
price_keys =
    "prompt" ∷ "completion" ∷ "input" ∷ "output" ∷ "request" ∷ "image" ∷ "price_input_vnd"
    ∷ "price_output_vnd" ∷ "price_cache_read_vnd" ∷ "price_cache_write_vnd" ∷ []

unfoldable pub is_price_key : String → Bool
unfolding contains
is_price_key k = contains k price_keys

-- `max` of the counted prices, `none` where none is counted.
unfoldable pub or_max : Price → Option Price → Option Price
unfolding max_price
or_max p none = some p
or_max p (some q) = some (max_price p q)

unfoldable pub pricing_values : List (String × Option Price) → Option Price
unfolding or_max
pricing_values [] = none
pricing_values ((k, none) ∷ rest) = pricing_values rest
pricing_values ((k, some p) ∷ rest) =
    let more = pricing_values rest in if is_price_key k then or_max p more else more

-- `str.endswith`
unfoldable pub ends_with : String → String → Bool
ends_with «empty» t = str_eq "" t
ends_with («push» c s) t = str_eq («push» c s) t || ends_with s t

is_positive : Option Price → Bool
is_positive none = false
is_positive (some (at_least n)) = ltb 0 n
is_positive (some (below n)) = false

is_zero : Option Price → Bool
is_zero none = false
is_zero (some (at_least n)) = n == 0
is_zero (some (below n)) = false

says : Bool → Option Bool → Bool
says b none = false
says true (some a) = a
says false (some a) = not a

pub data Source : Type 0 where
  provider_withdrew paid_pricing promo_or_credit provider_catalog_is_free explicit_zero_price
        explicit_free_route client_bound_free_id explicit_free_model_id no_source :
      Source

unfoldable pub classify_free_evidence : Row → FreeEvidence × Source
unfolding pricing_values ends_with is_positive is_zero says
classify_free_evidence r =
    if r.withdrawn
    then (withdrawn, provider_withdrew)
    else (if says false r.is_free || r.is_partner || r.billed
        then (paid, paid_pricing)
        else (if is_positive (pricing_values r.pricing)
            then (paid, paid_pricing)
            else (if r.promo_words
                then (conditional_free, promo_or_credit)
                else (if says true r.is_free
                    then (strict_free, provider_catalog_is_free)
                    else (if is_zero (pricing_values r.pricing)
                        then (strict_free, explicit_zero_price)
                        else (if ends_with r.model_id ":free"
                            then (strict_free, explicit_free_route)
                            else (if ends_with r.model_id "-free"
                                then (if r.client_bound
                                    then (client_bound_free, client_bound_free_id)
                                    else (strict_free, explicit_free_model_id))
                                else (unknown_cost, no_source))))))))

-- Why a route is not eligible.
pub data Refusal : Type 0 where
  refused_evidence : FreeEvidence → Refusal
  refused_health : ProviderHealth → Refusal
  no_routing_path bridge_contract_only no_local_bridge : Refusal
  refused_risk : CostRisk → Refusal

-- `routing in (LOCAL_BRIDGE_REQUIRED, DIRECT_ROUTABLE)`
is_bridged : RoutingCapability → Bool
is_bridged local_bridge_required = true
is_bridged direct_routable = true
is_bridged r = false

is_unsupported : RoutingCapability → Bool
is_unsupported unsupported = true
is_unsupported r = false

-- The rules that depend on the evidence, below the health and routing rules.
free_rule : Bool → RoutingCapability → CostRisk → FreeEvidence → Option Refusal
unfolding is_bridged is_non_monetary
free_rule bridge routing risk client_bound_free =
    if not bridge
    then some bridge_contract_only
    else (if is_bridged routing then none else some no_local_bridge)
free_rule bridge routing risk e = if is_non_monetary risk then none else some (refused_risk risk)

route_rule : ProviderHealth → RoutingCapability → Option Refusal → Option Refusal
unfolding is_blocking is_unsupported
route_rule state routing next =
    if is_blocking state
    then some (refused_health state)
    else (if is_unsupported routing then some no_routing_path else next)

-- `none` where the route is eligible, the refusal otherwise.
unfoldable pub tail_eligibility :
    FreeEvidence → ProviderHealth → RoutingCapability → CostRisk → Bool → Option Refusal
unfolding free_rule route_rule
tail_eligibility withdrawn state routing risk bridge = some (refused_evidence withdrawn)
tail_eligibility paid state routing risk bridge = some (refused_evidence paid)
tail_eligibility conditional_free state routing risk bridge =
    some (refused_evidence conditional_free)
tail_eligibility unknown_cost state routing risk bridge = some (refused_evidence unknown_cost)
tail_eligibility e state routing risk bridge =
    route_rule state routing (free_rule bridge routing risk e)
