-- ===== src/Providers.antt =====
-- 9router_WatchEdit/core/free_provider_registry.py: `FreeProviderRecord`, `FreeProviderRegistry`, its
-- `save` and the wrapper `_registry_mutation`. Times are whole seconds since 1970, 0 for never; a
-- stamp and its epoch are one field. A model row has the fields that the registry reads; the error
-- texts and `saved_at` are left out.
pub mod Settings
pub mod Scans
pub mod Sync
pub mod Schedule
pub mod Rollback
pub mod Atomicity
pub mod Mutations
pub mod Undoing
mod Examples
use router_extra.Prelude.{
  ℕ, String, Bool, true, false, not, ◌&&◌, ◌||◌, Option, none, some, List, [], ◌∷◌, str_eq,
  if◌then◌else◌, get, put, delete_all,
}
use router_extra.FreeTail.{FreeEvidence, ProviderHealth, RoutingCapability, CostRisk}

pub data ScanPolicy : Type 0 where
  always stale_only manual never : ScanPolicy

pub data ScanMode : Type 0 where
  metadata_only metadata_and_live_probe disabled : ScanMode

-- `cost_risk`: where it is one, else the provider's counts. `exclusion`: the health that
-- `exclusion_reason` names.
pub record ModelRow : Type 0 where
  pub canonical_id : String
  pub free_evidence : FreeEvidence
  pub provider_health : ProviderHealth
  pub routing : RoutingCapability
  pub cost_risk : Option CostRisk
  pub scanner_managed : Bool
  pub last_seen : ℕ
  pub synced_to_saifren : Bool
  pub synced_at : ℕ
  pub last_success_use : String
  pub exclusion : Option ProviderHealth

pub record Provider : Type 0 where
  pub provider_id : String
  pub display_name : String
  pub adapter : String
  pub enabled : Bool
  pub scan_policy : ScanPolicy
  pub scan_mode : ScanMode
  pub metadata_cost_risk : CostRisk
  pub live_probe_cost_risk : CostRisk
  pub allow_billing_probe : Bool
  pub trusted_alive : Bool
  pub trusted_alive_until : Option ℕ
  pub trusted_alive_set_at : ℕ
  pub last_scan_at : ℕ
  pub last_metadata_success : ℕ
  pub last_live_probe_success : ℕ
  pub last_error_class : String
  pub last_status : String
  pub models_discovered : ℕ
  pub strict_free_count : ℕ
  pub conditional_count : ℕ
  pub next_scan_due : ℕ
  pub backoff_until : ℕ
  pub operator_note : String
  pub adapter_metadata_supported : Bool
  pub adapter_live_supported : Bool
  pub adapter_client_bound : Bool
  pub adapter_transport : String
  pub adapter_metadata_source : String
  pub models : List ModelRow
  pub last_scan_action : String

-- An entry of `synced`, under its canonical id.
pub record Ownership : Type 0 where
  pub provider_id : String
  pub combo : String
  pub at : ℕ

pub record Candidate : Type 0 where
  pub canonical_id : String
  pub provider_id : String
  pub at : ℕ

pub record TailIntent : Type 0 where
  pub combo_name : String
  pub old_models : List String
  pub new_models : List String
  pub appended : List String
  pub removed : List String
  pub provider_ids : List (String × String)
  pub staged_at : ℕ

-- What the file holds.
pub record Document : Type 0 where
  pub providers : List (String × Provider)
  pub synced : List (String × Ownership)
  pub prune_candidates : List Candidate
  pub pending_tail_sync : Option TailIntent

pub record FreeRegistry : Type 0 where
  pub providers : List (String × Provider)
  pub synced : List (String × Ownership)
  pub prune_candidates : List Candidate
  pub pending_tail_sync : Option TailIntent
  pub state_valid : Bool
  pub storage_available : Bool
  pub scan_evidence_dirty : Bool
  pub file : Option Document

unfoldable pub document : FreeRegistry → Document
document r = record {
  providers = r.providers;
  synced = r.synced;
  prune_candidates = r.prune_candidates;
  pending_tail_sync = r.pending_tail_sync;
}

-- `refused`: the check of the document's fields, the secret scan or the writing refuses.
unfoldable pub save : Bool → Bool → FreeRegistry → FreeRegistry × Bool
unfolding document
save force refused r =
    if not r.state_valid && not force || not r.storage_available || refused then (r, false) else (
      record r { state_valid = true; scan_evidence_dirty = false; file = some (document r) },
      true,
    )

-- What `_registry_mutation` restores where the method returns False.
pub record Touched : Type 0 where
  pub provider : Option String
  pub ledger : Bool
  pub prune : Bool
  pub pending : Bool
  pub all_providers : Bool

unfoldable pub put_back :
    String → Option Provider → List (String × Provider) → List (String × Provider)
unfolding put delete_all
put_back id none held = delete_all (id ∷ []) held
put_back id (some before) held = put id before held

unfoldable pub restore_provider :
    Option String → List (String × Provider) → List (String × Provider) → List (String × Provider)
unfolding get put_back
restore_provider none before held = held
restore_provider (some id) before held =
    if str_eq id "" then held else put_back id (get id before) held

unfoldable pub restore : Touched → FreeRegistry → FreeRegistry → FreeRegistry
unfolding restore_provider
restore t before after = record after {
  providers =
      restore_provider t.provider before.providers
        (if t.all_providers then before.providers else after.providers);
  synced = if t.ledger then before.synced else after.synced;
  prune_candidates = if t.prune then before.prune_candidates else after.prune_candidates;
  pending_tail_sync = if t.pending then before.pending_tail_sync else after.pending_tail_sync;
}

unfoldable pub mutation :
    Touched → (FreeRegistry → FreeRegistry × Bool) → FreeRegistry → FreeRegistry × Bool
unfolding restore
mutation t method r = let (after, ok) = method r in (if ok then after else restore t r after, ok)

-- `provider_arg=0` alone.
abbrev pub on_provider : String → Touched
on_provider id = record {
  provider = some id;
  ledger = false;
  prune = false;
  pending = false;
  all_providers = false;
}

-- A method that changes the record of an id, if there is one, and saves.
unfoldable pub change_over :
    Option Provider → Bool → String → (Provider → Provider) → FreeRegistry → FreeRegistry × Bool
unfolding save put
change_over none refused id f r = (r, false)
change_over (some p) refused id f r =
    save false refused (record r { providers = put id (f p) r.providers })

unfoldable pub change : Bool → String → (Provider → Provider) → FreeRegistry → FreeRegistry × Bool
unfolding mutation change_over get
change refused id f r =
    mutation (on_provider id) (λ s. change_over (get id s.providers) refused id f s) r
