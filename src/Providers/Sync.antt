-- ===== src/Providers/Sync.antt =====
-- The ownership of the FREE tail in 9router_WatchEdit/core/free_provider_registry.py: the ledger `synced`,
-- the candidates for removal and the staged sync.
pub mod Staged
pub mod Refinement
pub mod Simulation
pub mod Recovering
use router_extra.Prelude.{
  ℕ, String, Bool, true, false, not, ◌&&◌, ◌||◌, Option, none, some, List, [], ◌∷◌, str_eq, is_none,
  if◌then◌else◌, keep, contains, list_eq, get, put, delete_all, keys,
}
use router_extra.FreeTail.Staging.{
  Recovery, clean, completed, rolled_back, save_failed, recovery_required,
}
use router_extra.Storage.{is_blank}
use router_extra.Providers.{
  ModelRow, Provider, Ownership, Candidate, TailIntent, FreeRegistry, save, Touched, mutation,
  on_provider,
}
use router_extra.Providers.Settings.{in_memory}
use router_extra.Providers.Scans.{candidate_ids}

unfoldable pub own :
    String → String → ℕ → List String → List (String × Ownership) → List (String × Ownership)
unfolding put
own provider_id combo now [] held = held
own provider_id combo now (id ∷ ids) held =
    own provider_id combo now ids
      (put id (record { provider_id = provider_id; combo = combo; at = now }) held)

flag_row : ℕ → List String → ModelRow → ModelRow
unfolding contains
flag_row now ids row =
    if contains row.canonical_id ids
    then record row { synced_to_saifren = true; synced_at = now }
    else row

flag_rows : ℕ → List String → List ModelRow → List ModelRow
unfolding flag_row
flag_rows now ids [] = []
flag_rows now ids (row ∷ rows) = flag_row now ids row ∷ flag_rows now ids rows

unfoldable pub flag : ℕ → List String → Provider → Provider
unfolding flag_rows
flag now ids p = record p { models = flag_rows now ids p.models }

unfoldable pub marked : ℕ → List String → String → String → FreeRegistry → FreeRegistry
unfolding own flag in_memory
marked now ids provider_id combo s =
    in_memory provider_id (flag now ids)
      (record s { synced = own provider_id combo now ids s.synced })

-- `provider_arg=1, ledger=True`
unfoldable pub mark_synced :
    ℕ → Bool → List String → String → String → FreeRegistry → FreeRegistry × Bool
unfolding mutation marked save
mark_synced now refused ids provider_id combo r =
    mutation (record (on_provider provider_id) { ledger = true })
      (λ s. save false refused (marked now ids provider_id combo s)) r

abbrev pub on_ledger : Bool → Touched
on_ledger prune = record {
  provider = none;
  ledger = true;
  prune = prune;
  pending = false;
  all_providers = false;
}

unfoldable pub drop_synced : Bool → List String → FreeRegistry → FreeRegistry × Bool
unfolding mutation save delete_all
drop_synced refused ids r =
    mutation (on_ledger false)
      (λ s. save false refused (record s { synced = delete_all ids s.synced })) r

unfoldable pub without_candidates : List String → List Candidate → List Candidate
unfolding keep contains
without_candidates ids cs = keep (λ c. not (contains c.canonical_id ids)) cs

unfoldable pub pruned : List String → FreeRegistry → FreeRegistry
unfolding delete_all without_candidates
pruned ids s = record s {
  synced = delete_all ids s.synced;
  prune_candidates = without_candidates ids s.prune_candidates;
}

unfoldable pub confirm_pruned : Bool → List String → FreeRegistry → FreeRegistry × Bool
unfolding mutation save pruned
confirm_pruned refused ids r = mutation (on_ledger true) (λ s. save false refused (pruned ids s)) r

-- The ids of a combo, without the order of `sorted`.
unfoldable pub synced_ids : String → FreeRegistry → List String
unfolding keep
synced_ids combo r = keys (keep (λ (e : String × Ownership). str_eq e.1.combo combo) r.synced)

unfoldable pub owned_by : String → Option Ownership → Bool
owned_by combo none = false
owned_by combo (some o) = str_eq o.combo combo

unfoldable pub pending_prune : String → FreeRegistry → List Candidate
unfolding keep owned_by get
pending_prune combo r = keep (λ c. owned_by combo (get c.canonical_id r.synced)) r.prune_candidates
