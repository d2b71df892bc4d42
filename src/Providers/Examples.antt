-- ===== src/Providers/Examples.antt =====
-- The FREE provider registry with one provider, and the theorems about it there.
use router_extra.Prelude.{
  String, ◌≡◌, refl, true, false, none, some, [], ◌∷◌, get, contains, arith, eq_refl, keep, put,
  keys, Bool, str_eq,
}
use router_extra.FreeTail.{
  strict_free, healthy, direct_routable, free_quota_probe, zero_monetary_metadata,
}
use router_extra.FreeTail.Staging.{
  Registry, Recovery, stage_tail_sync_intent as stage, finalize_tail_sync_intent as finalize,
  reconcile_pending_tail_sync as reconcile,
}
use router_extra.Providers.{
  ModelRow, Provider, FreeRegistry, TailIntent, stale_only, metadata_only, document, mutation, save,
}
use router_extra.Providers.Mutations.{scans, mutate, saves_now}
use router_extra.Providers.Undoing.{mutate_or_undo}
use router_extra.Providers.Scans.Results.{
  Outcome, found, new_candidates, record_metadata_result, finish, apply_outcome, persist_or_stage,
}
use router_extra.Providers.Scans.Candidates.{new_candidates_iff, is_owned_route}
use router_extra.Providers.Scans.Faithful.{scan_faithful, Kept}
use router_extra.Providers.Schedule.{
  tail_ids_of, eligible_ids, is_wanted, is_eligible, risk_of, eligible_tail_ids,
}
use router_extra.Providers.Schedule.Rules.{synced-IsFreeRoute, IsFreeRoute}
use router_extra.Providers.Sync.Simulation.{Simulates, Matches, can_save}
use router_extra.Providers.Sync.Refinement.{intent_of}
use router_extra.Providers.Sync.Staged.{
  stage_tail_sync_intent, finalize_tail_sync_intent, reconcile_pending_tail_sync,
}
use router_extra.Storage.{is_blank, sort_texts}
use router_extra.FreeTail.{tail_eligibility}
use router_extra.FreeTail.Plan.{read_input, plan_tail_sync, original_of, first_of_each, planned}
use router_extra.Providers.Sync.{owned_by}
use router_extra.Providers.Scans.{candidate_ids, ids_of, manual_rows, by_id, by_id_onto}
use router_extra.Providers.Sync.Recovering.{registry_refines}

abbrev row : String → ModelRow
row id = record {
  canonical_id = id;
  free_evidence = strict_free;
  provider_health = healthy;
  routing = direct_routable;
  cost_risk = none;
  scanner_managed = true;
  last_seen = 100;
  synced_to_saifren = true;
  synced_at = 100;
  last_success_use = "";
  exclusion = none;
}

abbrev opencode : Provider
opencode = record {
  provider_id = "oc";
  display_name = "OpenCode";
  adapter = "opencode";
  enabled = true;
  scan_policy = stale_only;
  scan_mode = metadata_only;
  metadata_cost_risk = zero_monetary_metadata;
  live_probe_cost_risk = free_quota_probe;
  allow_billing_probe = false;
  trusted_alive = false;
  trusted_alive_until = none;
  trusted_alive_set_at = 0;
  last_scan_at = 100;
  last_metadata_success = 100;
  last_live_probe_success = 0;
  last_error_class = "";
  last_status = "ok";
  models_discovered = 1;
  strict_free_count = 1;
  conditional_count = 0;
  next_scan_due = 0;
  backoff_until = 0;
  operator_note = "";
  adapter_metadata_supported = true;
  adapter_live_supported = true;
  adapter_client_bound = false;
  adapter_transport = "http";
  adapter_metadata_source = "catalogue";
  models = row "oc/x" ∷ [];
  last_scan_action = "scan";
}

abbrev owned_registry : FreeRegistry
owned_registry = record {
  providers = ("oc", opencode) ∷ [];
  synced = ("oc/x", record { provider_id = "oc"; combo = "free"; at = 100 }) ∷ [];
  prune_candidates = [];
  pending_tail_sync = none;
  state_valid = true;
  storage_available = true;
  scan_evidence_dirty = false;
  file = none;
}

-- The result no longer lists oc/x.
abbrev lost_model : Outcome
lost_model = found true (row "oc/y" ∷ [])

abbrev staged_sync : TailIntent
staged_sync = record {
  combo_name = "free";
  old_models = "a" ∷ "oc/x" ∷ [];
  new_models = "a" ∷ "oc/y" ∷ [];
  appended = "oc/y" ∷ [];
  removed = "oc/x" ∷ [];
  provider_ids = ("oc/y", "oc") ∷ [];
  staged_at = 200;
}

abbrev combo_registry : Registry
combo_registry = record {
  ledger = record { synced = "oc/x" ∷ []; candidates = [] };
  pending_tail_sync = none;
}

combo_registry-Simulates : Simulates "free" combo_registry owned_registry
unfolding get owned_by contains candidate_ids
combo_registry-Simulates = record {
  views = record { owns = λ k. ground (arith, eq_refl "free"); candidates = λ k. refl };
  pending = tt;
}

mutate_or_undo_example :
    ((mutate true (scans 200 true "oc" lost_model) owned_registry).1 ≡ false
      → (mutate true (scans 200 true "oc" lost_model) owned_registry).0 ≡ owned_registry)
    × ((mutate true (scans 200 true "oc" lost_model) owned_registry).1 ≡ true
        → (mutate true (scans 200 true "oc" lost_model) owned_registry).0.file
          ≡ some (document (mutate true (scans 200 true "oc" lost_model) owned_registry).0))
unfolding get saves_now
mutate_or_undo_example = mutate_or_undo true (scans 200 true "oc" lost_model) owned_registry refl

registry_refines_example :
    Matches Bool "free"
      (stage true (intent_of staged_sync) combo_registry)
      (stage_tail_sync_intent false staged_sync owned_registry)
    × Matches Bool "free"
        (finalize true ("a" ∷ "oc/y" ∷ []) combo_registry)
        (finalize_tail_sync_intent 200 false ("a" ∷ "oc/y" ∷ []) owned_registry)
    × Matches Recovery "free"
        (reconcile true ("a" ∷ "oc/y" ∷ []) combo_registry)
        (reconcile_pending_tail_sync 200 false ("a" ∷ "oc/y" ∷ []) owned_registry)
unfolding is_blank can_save
registry_refines_example =
    registry_refines "free" 200 false ("a" ∷ "oc/y" ∷ []) staged_sync combo_registry owned_registry
      refl refl combo_registry-Simulates

new_candidates_iff_example :
    contains "oc/x" (candidate_ids (new_candidates 200 true (row "oc/y" ∷ []) opencode [])) ≡ true
unfolding contains ids_of manual_rows keep by_id by_id_onto put get candidate_ids is_owned_route
new_candidates_iff_example =
    new_candidates_iff "oc/x" 200 true (row "oc/y" ∷ []) opencode [] (λ e. absurd cc) refl

synced-IsFreeRoute_example : IsFreeRoute [] "oc/x" owned_registry
unfolding plan_tail_sync read_input eligible_tail_ids original_of contains tail_ids_of eligible_ids
    get sort_texts keep keys is_wanted is_eligible tail_eligibility first_of_each planned risk_of
synced-IsFreeRoute_example =
    synced-IsFreeRoute ("a" ∷ []) none [] owned_registry combo_registry.ledger [] "oc/x" refl refl

scan_faithful_example :
    let after = (record_metadata_result 200 true false "oc" lost_model owned_registry).0 in
    (q : Provider) × (get "oc" after.providers ≡ some q)
    × ((other : String)
        → str_eq "oc" other ≡ false
        → get other after.providers ≡ get other owned_registry.providers)
    × (after.synced ≡ owned_registry.synced)
    × (manual_rows q.models ≡ manual_rows opencode.models)
    × Kept lost_model opencode q owned_registry.prune_candidates after.prune_candidates
unfolding get record_metadata_result mutation finish apply_outcome persist_or_stage save
scan_faithful_example =
    scan_faithful 200 true false "oc" lost_model opencode owned_registry refl refl
