-- ===== src/Providers/Scans/Manual.antt =====
-- `add_manual_model` of 9router_WatchEdit/core/free_provider_registry.py.
use router_extra.Prelude.{
  ℕ, String, Bool, false, none, some, List, [], ◌∷◌, ◌++◌, str_eq, if◌then◌else◌, contains,
}
use router_extra.FreeTail.{FreeEvidence, unknown_health, unknown_routing, unknown_risk}
use router_extra.Providers.{ModelRow, Provider, FreeRegistry, change}
use router_extra.Providers.Scans.{ids_of, refresh_counts}

-- The first row of the id becomes the operator's.
claim_first : String → List ModelRow → List ModelRow
claim_first id [] = []
claim_first id (row ∷ rows) =
    let rest = claim_first id rows in
    if str_eq row.canonical_id id then record row { scanner_managed = false } ∷ rows else row ∷ rest

unfoldable pub manual_row : ℕ → String → FreeEvidence → ModelRow
manual_row now id evidence = record {
  canonical_id = id;
  free_evidence = evidence;
  provider_health = unknown_health;
  routing = unknown_routing;
  cost_risk = some unknown_risk;
  scanner_managed = false;
  last_seen = now;
  synced_to_saifren = false;
  synced_at = 0;
  last_success_use = "";
  exclusion = none;
}

unfoldable pub with_manual : ℕ → String → FreeEvidence → Provider → Provider
unfolding claim_first manual_row contains ids_of refresh_counts
with_manual now id evidence p =
    if contains id (ids_of p.models)
    then record p { models = claim_first id p.models }
    else refresh_counts (record p { models = p.models ++ manual_row now id evidence ∷ [] })

unfoldable pub add_manual_model :
    ℕ → Bool → String → String → FreeEvidence → FreeRegistry → FreeRegistry × Bool
unfolding change with_manual
add_manual_model now refused provider_id id evidence r =
    change refused provider_id (with_manual now id evidence) r
