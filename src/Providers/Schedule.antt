-- ===== src/Providers/Schedule.antt =====
-- When 9router_WatchEdit/core/free_provider_registry.py lets a provider be scanned or probed, its badges, and
-- which of its models may join the FREE tail.
pub mod Rules
use Prim.Native.Nat.{Ordering}
use router_extra.Prelude.{
  ℕ, ◌-◌, String, Bool, true, false, not, ◌&&◌, ◌||◌, Option, none, some, List, [], ◌∷◌, ◌++◌,
  str_eq, ltb, leb, ◌==◌, is_none, if◌then◌else◌, keep, some_of, contains, get, keys,
}
use router_extra.FreeTail.{
  FreeEvidence, strict_free, CostRisk, zero_monetary_metadata, free_quota_probe,
  account_conditional, possible_billing, unknown_risk, tail_eligibility,
}
use router_extra.Storage.{sort_texts}
use router_extra.Providers.{
  ModelRow, Provider, FreeRegistry, ScanPolicy, always, stale_only, manual, never,
}
use router_extra.Providers.Settings.{trust_valid}
use router_extra.Providers.Scans.{ids_of}
use router_extra.Providers.Scans.Results.{needs_live_probe}

-- `backoff_until_epoch and backoff_until_epoch > now`
unfoldable pub backing_off : ℕ → Provider → Bool
backing_off now p = ltb now p.backoff_until

unfoldable pub is_stale : ℕ → Provider → Bool
is_stale now p = p.last_metadata_success == 0 || leb 21600 (now - p.last_metadata_success)

unfoldable pub due_by : ScanPolicy → ℕ → Provider → Bool
unfolding backing_off is_stale
due_by never now p = false
due_by manual now p = false
due_by always now p = not (backing_off now p)
due_by stale_only now p = not (backing_off now p) && is_stale now p

unfoldable pub record_due : ℕ → Option Provider → Bool
unfolding due_by
record_due now none = false
record_due now (some p) = p.enabled && due_by p.scan_policy now p

unfoldable pub is_due : ℕ → String → FreeRegistry → Bool
unfolding record_due get
is_due now id r = record_due now (get id r.providers)

unfoldable pub refuses_all : ScanPolicy → Bool
refuses_all never = true
refuses_all policy = false

unfoldable pub requested : ℕ → Option Provider → Bool
unfolding refuses_all backing_off
requested now none = false
requested now (some p) = p.enabled && not (refuses_all p.scan_policy) && not (backing_off now p)

unfoldable pub operator_scan_requested : ℕ → String → FreeRegistry → Bool
unfolding requested get
operator_scan_requested now id r = requested now (get id r.providers)

unfoldable pub probe_needed : ℕ → Option Provider → Bool
unfolding needs_live_probe
probe_needed now none = false
probe_needed now (some p) = needs_live_probe now p

unfoldable pub live_probe_needed : ℕ → String → FreeRegistry → Bool
unfolding probe_needed get
live_probe_needed now id r = probe_needed now (get id r.providers)

pub data Badge : Type 0 where
  no_free_adapter zero_metadata free_quota conditional_account possible_cost client_bound
        rate_limited_badge strict_free_badge trusted billing_consent scanning_disabled :
      Badge

metadata_badges : CostRisk → List Badge
metadata_badges zero_monetary_metadata = zero_metadata ∷ []
metadata_badges risk = []

live_badges : CostRisk → List Badge
live_badges free_quota_probe = free_quota ∷ []
live_badges account_conditional = conditional_account ∷ []
live_badges unknown_risk = conditional_account ∷ []
live_badges possible_billing = possible_cost ∷ []
live_badges zero_monetary_metadata = []

is_strict_free : FreeEvidence → Bool
is_strict_free strict_free = true
is_strict_free e = false

unfoldable pub has_strict_free : Provider → Bool
unfolding some_of is_strict_free
has_strict_free p = some_of (λ row. is_strict_free row.free_evidence) p.models

badge_if : Bool → Badge → List Badge
badge_if true b = b ∷ []
badge_if false b = []

unfoldable pub provider_badges : ℕ → Provider → List Badge
unfolding metadata_badges live_badges has_strict_free trust_valid refuses_all badge_if
provider_badges now p =
    badge_if (str_eq p.adapter "" || str_eq p.adapter "unsupported") no_free_adapter
    ++ metadata_badges p.metadata_cost_risk
    ++ live_badges p.live_probe_cost_risk
    ++ badge_if p.adapter_client_bound client_bound
    ++ badge_if (str_eq p.last_status "RATE_LIMITED") rate_limited_badge
    ++ badge_if (has_strict_free p) strict_free_badge
    ++ badge_if (trust_valid now p) trusted
    ++ badge_if p.allow_billing_probe billing_consent
    ++ badge_if (refuses_all p.scan_policy) scanning_disabled

-- `cost_risk_coerce(item["cost_risk"], record.live_probe_cost)`
unfoldable pub risk_of : CostRisk → Option CostRisk → CostRisk
risk_of default none = default
risk_of default (some risk) = risk

-- The row's `saifren_eligible`; `bridge` are the ids that the bridge reports usable.
unfoldable pub is_eligible : List String → Provider → ModelRow → Bool
unfolding tail_eligibility risk_of contains
is_eligible bridge p row = is_none (
    tail_eligibility row.free_evidence row.provider_health row.routing
      (risk_of p.live_probe_cost_risk row.cost_risk) (contains row.canonical_id bridge))

unfoldable pub eligible_ids : List String → Option Provider → List String
unfolding keep is_eligible ids_of sort_texts
eligible_ids bridge none = []
eligible_ids bridge (some p) = sort_texts (ids_of (keep (is_eligible bridge p) p.models))

unfoldable pub is_wanted : Option (List String) → String → Bool
unfolding contains
is_wanted none id = true
is_wanted (some ids) id = contains id ids

unfoldable pub tail_ids_of : List String → FreeRegistry → List String → List String
unfolding eligible_ids get
tail_ids_of bridge r [] = []
tail_ids_of bridge r (id ∷ ids) =
    eligible_ids bridge (get id r.providers) ++ tail_ids_of bridge r ids

-- By provider, then by canonical id.
unfoldable pub eligible_tail_ids : Option (List String) → List String → FreeRegistry → List String
unfolding tail_ids_of keep is_wanted sort_texts keys
eligible_tail_ids wanted? bridge r =
    tail_ids_of bridge r (keep (is_wanted wanted?) (sort_texts (keys r.providers)))
