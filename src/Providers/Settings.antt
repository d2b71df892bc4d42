-- ===== src/Providers/Settings.antt =====
-- What the operator sets in a record of 9router_WatchEdit/core/free_provider_registry.py.
use Prim.Native.String.{[] as «empty», ◌∷◌ as «push»}
use Prim.Native.Char.{code}
use router_extra.Prelude.{
  ℕ, ◌+◌, ◌*◌, String, Bool, true, false, not, ◌&&◌, ◌||◌, Option, none, some, [], str_eq, ltb,
  if◌then◌else◌, get, put,
}
use router_extra.FreeTail.{CostRisk, is_non_monetary}
use router_extra.Storage.{is_space}
use router_extra.Providers.{
  ScanPolicy, ScanMode, Provider, FreeRegistry, save, mutation, on_provider, change,
}

unfoldable pub enable : Bool → Provider → Provider
enable enabled p = record p {
  enabled = enabled;
  last_status =
      if not enabled
      then "DISABLED"
      else (if str_eq p.last_status "DISABLED" then "UNSCANNED" else p.last_status);
}

unfoldable pub set_enabled : Bool → String → Bool → FreeRegistry → FreeRegistry × Bool
unfolding change enable
set_enabled refused id enabled r = change refused id (enable enabled) r

-- The value, where a text that is no policy counts as MANUAL, and no mode as DISABLED.
unfoldable pub set_policy : Bool → String → ScanPolicy → FreeRegistry → FreeRegistry × Bool
unfolding change
set_policy refused id policy r = change refused id (λ p. record p { scan_policy = policy }) r

unfoldable pub set_mode : Bool → String → ScanMode → FreeRegistry → FreeRegistry × Bool
unfolding change
set_mode refused id mode r = change refused id (λ p. record p { scan_mode = mode }) r

unfoldable pub set_note : Bool → String → String → FreeRegistry → FreeRegistry × Bool
unfolding change
set_note refused id note r = change refused id (λ p. record p { operator_note = note }) r

unfoldable pub set_live_probe_consent : Bool → String → Bool → FreeRegistry → FreeRegistry × Bool
unfolding change
set_live_probe_consent refused id allowed r =
    change refused id (λ p. record p { allow_billing_probe = allowed }) r

-- A duration in seconds, `none` until it is cleared.
pub data Duration : Type 0 where
  unknown_duration until_cleared : Duration
  seconds : ℕ → Duration

unfoldable pub trust_duration : String → Duration
trust_duration d =
    if str_eq d "1h"
    then seconds 3600
    else (if str_eq d "1d"
        then seconds 86400
        else (if str_eq d "7d"
            then seconds (7 * 86400)
            else (if str_eq d "30d"
                then seconds (30 * 86400)
                else (if str_eq d "until_cleared" then until_cleared else unknown_duration))))

unfoldable pub trust : ℕ → Option ℕ → Provider → Provider
trust now until p = record p {
  trusted_alive = true;
  trusted_alive_until = until;
  trusted_alive_set_at = now;
}

-- An unknown duration changes nothing; the record is looked up before.
unfoldable pub trust_for : Bool → ℕ → String → Duration → FreeRegistry → FreeRegistry × Bool
unfolding change trust
trust_for refused now id unknown_duration r = (r, false)
trust_for refused now id until_cleared r = change refused id (trust now none) r
trust_for refused now id (seconds n) r = change refused id (trust now (some (now + n))) r

unfoldable pub mark_trusted_alive : Bool → ℕ → String → String → FreeRegistry → FreeRegistry × Bool
unfolding trust_for trust_duration
mark_trusted_alive refused now id d r = trust_for refused now id (trust_duration d) r

unfoldable pub clear_trusted_alive : Bool → String → FreeRegistry → FreeRegistry × Bool
unfolding change
clear_trusted_alive refused id r =
    change refused id
      (λ p. record p {
        trusted_alive = false;
        trusted_alive_until = none;
        trusted_alive_set_at = 0;
      })
      r

-- `record.trust_valid(now)`
unfoldable pub until_after : ℕ → Option ℕ → Bool
until_after now none = true
until_after now (some t) = ltb now t

unfoldable pub trust_valid : ℕ → Provider → Bool
unfolding until_after
trust_valid now p = p.trusted_alive && until_after now p.trusted_alive_until

unfoldable pub cost_safe_for_live : Provider → Bool
unfolding is_non_monetary
cost_safe_for_live p = is_non_monetary p.live_probe_cost_risk || p.allow_billing_probe

pub record Capabilities : Type 0 where
  pub adapter_id : String
  pub supports_metadata : Bool
  pub supports_live_canary : Bool
  pub client_bound : Bool
  pub transport : String
  pub metadata_source : String

unfoldable pub describe : Capabilities → Provider → Provider
describe c p = record p {
  adapter = if str_eq c.adapter_id "" then p.adapter else c.adapter_id;
  adapter_metadata_supported = c.supports_metadata;
  adapter_live_supported = c.supports_live_canary;
  adapter_client_bound = c.client_bound;
  adapter_transport = c.transport;
  adapter_metadata_source = c.metadata_source;
}

-- A change of the record in memory alone.
unfoldable pub in_memory_over :
    Option Provider → String → (Provider → Provider) → FreeRegistry → FreeRegistry
unfolding put
in_memory_over none id f r = r
in_memory_over (some p) id f r = record r { providers = put id (f p) r.providers }

unfoldable pub in_memory : String → (Provider → Provider) → FreeRegistry → FreeRegistry
unfolding in_memory_over get
in_memory id f r = in_memory_over (get id r.providers) id f r

unfoldable pub describe_adapter : String → Capabilities → FreeRegistry → FreeRegistry
unfolding in_memory describe
describe_adapter id c r = in_memory id (describe c) r

-- `text.strip()`
strip_left : String → String
unfolding is_space
strip_left «empty» = ""
strip_left («push» c s) = let rest = strip_left s in if is_space (code c) then rest else «push» c s

strip_right : String → String
unfolding is_space
strip_right «empty» = ""
strip_right («push» c s) =
    let rest = strip_right s in if str_eq rest "" && is_space (code c) then "" else «push» c rest

unfoldable pub strip : String → String
unfolding strip_left strip_right
strip s = strip_right (strip_left s)

-- The defaults of `ensure_provider` that a caller may give.
pub record Defaults : Type 0 where
  pub display_name : String
  pub adapter : String
  pub metadata_cost_risk : CostRisk
  pub live_probe_cost_risk : CostRisk
  pub enabled : Bool
  pub policy : ScanPolicy
  pub mode : ScanMode

unfoldable pub default_record : String → Defaults → Provider
default_record id d = record {
  provider_id = id;
  display_name = if str_eq d.display_name "" then id else d.display_name;
  adapter = d.adapter;
  enabled = d.enabled;
  scan_policy = d.policy;
  scan_mode = d.mode;
  metadata_cost_risk = d.metadata_cost_risk;
  live_probe_cost_risk = d.live_probe_cost_risk;
  allow_billing_probe = false;
  trusted_alive = false;
  trusted_alive_until = none;
  trusted_alive_set_at = 0;
  last_scan_at = 0;
  last_metadata_success = 0;
  last_live_probe_success = 0;
  last_error_class = "";
  last_status = if d.enabled then "UNSCANNED" else "DISABLED";
  models_discovered = 0;
  strict_free_count = 0;
  conditional_count = 0;
  next_scan_due = 0;
  backoff_until = 0;
  operator_note = "";
  adapter_metadata_supported = false;
  adapter_live_supported = false;
  adapter_client_bound = false;
  adapter_transport = "";
  adapter_metadata_source = "";
  models = [];
  last_scan_action = "";
}

refreshed : Option Provider → String → Defaults → Provider
unfolding default_record
refreshed none id d = default_record id d
refreshed (some p) id d = record p {
  display_name = if str_eq d.display_name "" then p.display_name else d.display_name;
  adapter = if str_eq d.adapter "" || str_eq d.adapter "unsupported" then p.adapter else d.adapter;
}

-- `none` is the ValueError of a blank id. `wants_save` is the argument `save`.
unfoldable pub ensure_provider :
    Bool → String → Defaults → Bool → FreeRegistry → Option (FreeRegistry × Bool)
unfolding strip mutation save get put refreshed
ensure_provider refused provider_id d wants_save r =
    let id = strip provider_id in
    if str_eq id ""
    then none
    else some (
        mutation (on_provider provider_id)
          (λ s.
            let t = record s {
              providers = put id (refreshed (get id s.providers) id d) s.providers;
            } in
            if wants_save then save false refused t else (t, true))
          r)
