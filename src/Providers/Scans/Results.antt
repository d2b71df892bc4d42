-- ===== src/Providers/Scans/Results.antt =====
-- `record_metadata_result`, `record_live_probe_result`, `set_health`, `record_health_state` and
-- `add_manual_model` of 9router_WatchEdit/core/free_provider_registry.py.
use router_extra.Prelude.{
  ℕ, ◌-◌, String, Bool, true, false, not, ◌&&◌, Option, none, some, List, [], ◌∷◌, ◌++◌, str_eq,
  ltb, ◌==◌, if◌then◌else◌, get, put, keys,
}
use router_extra.FreeTail.{ProviderHealth, healthy, auth_failed, dead, is_blocking}
use router_extra.Providers.{
  ModelRow, Provider, Candidate, FreeRegistry, save, mutation, on_provider,
}
use router_extra.Providers.Settings.{in_memory, trust_valid}
use router_extra.Providers.Scans.{
  by_id, incoming_by_id, partial_rows, full_rows, manual_rows, ids_of, schedule_prune,
  candidate_ids, refresh_counts, back_off,
}

-- `self.save() if persist else self._stage_scan_evidence()`
unfoldable pub persist_or_stage : Bool → Bool → FreeRegistry → FreeRegistry × Bool
unfolding save
persist_or_stage true refused r = save false refused r
persist_or_stage false refused r = (record r { scan_evidence_dirty = true }, true)

pub record ScanError : Type 0 where
  pub error_class : String
  pub retry_after : ℕ
  pub status : String

unfoldable pub failed_scan : ℕ → ScanError → Provider → Provider
unfolding back_off
failed_scan now e p =
    let failed = record p {
      last_scan_at = now;
      last_error_class = if str_eq e.error_class "" then "metadata_error" else e.error_class;
      last_status =
          if str_eq e.status ""
          then (if e.retry_after == 0 then "OUTAGE" else "RATE_LIMITED")
          else e.status;
    } in
    if e.retry_after == 0
    then (if p.enabled then record failed { next_scan_due = 0 } else failed)
    else back_off now e.retry_after failed

unfoldable pub incoming_of : List ModelRow → Provider → List (String × ModelRow)
unfolding incoming_by_id ids_of manual_rows
incoming_of models p = incoming_by_id (ids_of (manual_rows p.models)) models []

unfoldable pub scanned : ℕ → Bool → List ModelRow → Provider → Provider
unfolding refresh_counts incoming_of full_rows partial_rows
scanned now authoritative models p =
    let q = refresh_counts (record p {
      models =
          if authoritative
          then full_rows now (incoming_of models p) p.models
          else partial_rows now (incoming_of models p) p.models;
    }) in
    record q {
      last_scan_at = now;
      last_metadata_success = now;
      last_error_class = "";
      last_status = "OK";
      backoff_until = 0;
      next_scan_due = 0;
    }

-- The candidates that an authoritative result adds.
unfoldable pub new_candidates :
    ℕ → Bool → List ModelRow → Provider → List Candidate → List Candidate
unfolding schedule_prune incoming_of by_id candidate_ids keys
new_candidates now false models p old = []
new_candidates now true models p old =
    schedule_prune p.provider_id now (keys (incoming_of models p)) (candidate_ids old)
      (by_id p.models)

-- The outcome of a metadata scan: what failed, or the rows and whether they are authoritative.
pub data Outcome : Type 0 where
  failed : ScanError → Outcome
  found : (authoritative : Bool) → List ModelRow → Outcome

unfoldable pub apply_outcome :
    ℕ → Outcome → String → Option Provider → FreeRegistry → Option FreeRegistry
unfolding failed_scan scanned new_candidates put
apply_outcome now outcome id none r = none
apply_outcome now (failed e) id (some p) r =
    some (record r { providers = put id (failed_scan now e p) r.providers })
apply_outcome now (found authoritative models) id (some p) r = some (record r {
  providers = put id (scanned now authoritative models p) r.providers;
  prune_candidates =
      r.prune_candidates ++ new_candidates now authoritative models p r.prune_candidates;
})

unfoldable pub finish : Bool → Bool → FreeRegistry → Option FreeRegistry → FreeRegistry × Bool
unfolding persist_or_stage
finish persist refused before none = (before, false)
finish persist refused before (some after) = persist_or_stage persist refused after

unfoldable pub record_metadata_result :
    ℕ → Bool → Bool → String → Outcome → FreeRegistry → FreeRegistry × Bool
unfolding mutation apply_outcome finish get
record_metadata_result now persist refused id outcome r =
    mutation (record (on_provider id) { prune = true })
      (λ s. finish persist refused s (apply_outcome now outcome id (get id s.providers) s)) r

set_rows : ProviderHealth → List ModelRow → List ModelRow
unfolding is_blocking
set_rows h [] = []
set_rows h (row ∷ rows) =
    record row { provider_health = h; exclusion = if is_blocking h then some h else none }
    ∷ set_rows h rows

unfoldable pub judge : ProviderHealth → Provider → Provider
unfolding set_rows
judge h p = record p { models = set_rows h p.models }

unfoldable pub set_health : String → ProviderHealth → FreeRegistry → FreeRegistry
unfolding in_memory judge
set_health id h r = in_memory id (judge h) r

health_status : ProviderHealth → String → String
health_status auth_failed old = "AUTH_FAILED"
health_status dead old = "DEAD"
health_status h old = old

unfoldable pub judged : ProviderHealth → String → Provider → Provider
unfolding judge health_status
judged h status p = record (judge h p) {
  last_status = if str_eq status "" then health_status h p.last_status else status;
}

unfoldable pub update_over :
    Bool
    → Bool
    → Option Provider
    → String
    → (Provider → Provider)
    → FreeRegistry
    → FreeRegistry × Bool
unfolding persist_or_stage put
update_over persist refused none id f r = (r, false)
update_over persist refused (some p) id f r =
    persist_or_stage persist refused (record r { providers = put id (f p) r.providers })

unfoldable pub record_health_state :
    Bool → Bool → String → ProviderHealth → String → FreeRegistry → FreeRegistry × Bool
unfolding mutation update_over judged get
record_health_state persist refused id h status r =
    mutation (on_provider id)
      (λ s. update_over persist refused (get id s.providers) id (judged h status) s) r

-- `live_probe_needed` of a record.
unfoldable pub needs_live_probe : ℕ → Provider → Bool
unfolding trust_valid
needs_live_probe now p =
    not (trust_valid now p)
    && not (ltb 0 p.last_live_probe_success && ltb (now - p.last_live_probe_success) 1800)

pub data LiveOutcome : Type 0 where
  succeeded : LiveOutcome
  blocked : (health : ProviderHealth) → (state error_class : String) → LiveOutcome
  refused_or_failed : (state error_class : String) → LiveOutcome

unfoldable pub or_else : String → String → String
or_else a b = if str_eq a "" then b else a

unfoldable pub live_error : ℕ → String → String → Provider → Provider
unfolding needs_live_probe or_else
live_error now state error_class p = record p {
  last_scan_at = if needs_live_probe now p then now else p.last_scan_at;
  last_error_class = or_else error_class (or_else state "live_probe_failed");
}

unfoldable pub live_success : ℕ → Provider → Provider
unfolding judge
live_success now p = judge healthy (record p {
  last_scan_at = now;
  last_live_probe_success = now;
  last_error_class = "";
  last_status = "OK";
})

unfoldable pub live_over :
    ℕ → Bool → Bool → LiveOutcome → String → Option Provider → FreeRegistry → FreeRegistry × Bool
unfolding persist_or_stage live_success live_error record_health_state put or_else
live_over now persist refused outcome id none r = (r, false)
live_over now persist refused succeeded id (some p) r =
    persist_or_stage persist refused
      (record r { providers = put id (live_success now p) r.providers })
live_over now persist refused (blocked h state error_class) id (some p) r =
    record_health_state persist refused id h ""
      (record r { providers = put id (live_error now state error_class p) r.providers })
live_over now persist refused (refused_or_failed state error_class) id (some p) r =
    persist_or_stage persist refused (record r {
      providers =
          put id
            (record (live_error now state error_class p) { last_status = or_else state "ERROR" })
            r.providers;
    })

unfoldable pub record_live_probe_result :
    ℕ → Bool → Bool → String → LiveOutcome → FreeRegistry → FreeRegistry × Bool
unfolding mutation live_over get
record_live_probe_result now persist refused id outcome r =
    mutation (on_provider id) (λ s. live_over now persist refused outcome id (get id s.providers) s)
      r
