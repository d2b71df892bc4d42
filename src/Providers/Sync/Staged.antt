-- ===== src/Providers/Sync/Staged.antt =====
-- The staged sync of 9router_WatchEdit/core/free_provider_registry.py: `stage_tail_sync_intent`,
-- `commit_tail_sync_delta`, `finalize_tail_sync_intent` and `reconcile_pending_tail_sync`.
use router_extra.Prelude.{
  ℕ, String, Bool, true, false, ◌||◌, Option, none, some, List, [], ◌∷◌, str_eq, if◌then◌else◌,
  list_eq, get, delete_all,
}
use router_extra.FreeTail.Staging.{
  Recovery, clean, completed, rolled_back, save_failed, recovery_required,
}
use router_extra.Storage.{is_blank}
use router_extra.Providers.{ModelRow, Provider, TailIntent, FreeRegistry, save, Touched, mutation}
use router_extra.Providers.Settings.{in_memory}
use router_extra.Providers.{restore}
use router_extra.Providers.Sync.{own, flag, without_candidates}

abbrev pub on_pending : Bool → Touched
on_pending everything = record {
  provider = none;
  ledger = everything;
  prune = everything;
  pending = true;
  all_providers = everything;
}

unfoldable pub stage_over :
    Bool → TailIntent → Option TailIntent → FreeRegistry → FreeRegistry × Bool
unfolding is_blank save
stage_over refused i (some staged) r = (r, false)
stage_over refused i none r =
    if is_blank i.combo_name
    then (r, false)
    else save false refused (record r { pending_tail_sync = some i })

-- The lists of an intent and its combo's name are texts, the name stripped.
unfoldable pub stage_tail_sync_intent : Bool → TailIntent → FreeRegistry → FreeRegistry × Bool
unfolding mutation stage_over
stage_tail_sync_intent refused i r =
    mutation (on_pending false) (λ s. stage_over refused i s.pending_tail_sync s) r

-- `owners`: the first provider that has a row of the id.
has_row : String → List ModelRow → Bool
has_row id [] = false
has_row id (row ∷ rows) = str_eq row.canonical_id id || has_row id rows

unfoldable pub owner_of : String → List (String × Provider) → String
unfolding has_row
owner_of id [] = ""
owner_of id ((pid, p) ∷ rest) =
    let later = owner_of id rest in if has_row id p.models then pid else later

unfoldable pub given_owner : String → Option String → String
given_owner fallback none = fallback
given_owner fallback (some pid) = if str_eq pid "" then fallback else pid

-- `owners` is read before the loop; it does not change there.
unfoldable pub append_one :
    ℕ → TailIntent → (String → String) → String → FreeRegistry → FreeRegistry
unfolding given_owner own in_memory flag get
append_one now i owner id r =
    let pid = given_owner (owner id) (get id i.provider_ids) in
    in_memory pid (flag now (id ∷ []))
      (record r { synced = own pid i.combo_name now (id ∷ []) r.synced })

unfoldable pub append_all :
    ℕ → TailIntent → (String → String) → List String → FreeRegistry → FreeRegistry
unfolding append_one
append_all now i owner [] r = r
append_all now i owner (id ∷ ids) r = append_all now i owner ids (append_one now i owner id r)

unfoldable pub apply_tail_sync_intent : ℕ → TailIntent → FreeRegistry → FreeRegistry
unfolding append_all owner_of delete_all without_candidates
apply_tail_sync_intent now i r =
    let s = append_all now i (λ id. owner_of id r.providers) i.appended r in
    record s {
      synced = delete_all i.removed s.synced;
      prune_candidates = without_candidates i.removed s.prune_candidates;
    }

abbrev pub on_commit : Touched
on_commit = record (on_pending true) { pending = false }

unfoldable pub commit_over :
    ℕ → Bool → TailIntent → Option TailIntent → FreeRegistry → FreeRegistry × Bool
unfolding apply_tail_sync_intent save
commit_over now refused i (some staged) r = (r, false)
commit_over now refused i none r =
    if str_eq i.combo_name ""
    then (r, false)
    else save false refused (apply_tail_sync_intent now i r)

unfoldable pub commit_tail_sync_delta : ℕ → Bool → TailIntent → FreeRegistry → FreeRegistry × Bool
unfolding mutation commit_over
commit_tail_sync_delta now refused i r =
    mutation on_commit (λ s. commit_over now refused i s.pending_tail_sync s) r

unfoldable pub carried_out : ℕ → TailIntent → FreeRegistry → FreeRegistry
unfolding apply_tail_sync_intent
carried_out now i r = record (apply_tail_sync_intent now i r) { pending_tail_sync = none }

unfoldable pub finalize_over :
    ℕ → Bool → List String → Option TailIntent → FreeRegistry → FreeRegistry × Bool
unfolding list_eq carried_out save
finalize_over now refused actual none r = (r, false)
finalize_over now refused actual (some i) r =
    if list_eq actual i.new_models then save false refused (carried_out now i r) else (r, false)

unfoldable pub finalize_tail_sync_intent :
    ℕ → Bool → List String → FreeRegistry → FreeRegistry × Bool
unfolding mutation finalize_over
finalize_tail_sync_intent now refused actual r =
    mutation (on_pending true) (λ s. finalize_over now refused actual s.pending_tail_sync s) r

unfoldable pub reconcile_over :
    ℕ → Bool → List String → Option TailIntent → FreeRegistry → FreeRegistry × Recovery
unfolding list_eq carried_out save
reconcile_over now refused actual none r = (r, clean)
reconcile_over now refused actual (some i) r =
    let (done, kept) = save false refused (carried_out now i r) in
    let (dropped, freed) = save false refused (record r { pending_tail_sync = none }) in
    if list_eq actual i.new_models
    then (done, if kept then completed else save_failed)
    else (if list_eq actual i.old_models
        then (dropped, if freed then rolled_back else save_failed)
        else (r, recovery_required))

-- The wrapper restores where the method returns False, which `save_failed` stands for.
unfoldable pub restore_failed : FreeRegistry → FreeRegistry × Recovery → FreeRegistry × Recovery
unfolding restore
restore_failed r (after, save_failed) = (restore (on_pending true) r after, save_failed)
restore_failed r (after, result) = (after, result)

unfoldable pub reconcile_pending_tail_sync :
    ℕ → Bool → List String → FreeRegistry → FreeRegistry × Recovery
unfolding reconcile_over restore_failed
reconcile_pending_tail_sync now refused actual r =
    restore_failed r (reconcile_over now refused actual r.pending_tail_sync r)
