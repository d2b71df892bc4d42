-- ===== src/Providers/Scans.antt =====
-- The results of scans in 9router_WatchEdit/core/free_provider_registry.py. `now` is the time that the call
-- reads, `persist` asks for a save and `refused` is that save's failure.
pub mod Inventory
pub mod Candidates
pub mod Faithful
pub mod Results
pub mod Manual
use router_extra.Prelude.{
  ℕ, suc, ◌+◌, ◌-◌, String, Bool, true, false, not, ◌&&◌, ◌||◌, Option, none, some, List, [], ◌∷◌,
  ◌++◌, str_eq, ltb, leb, ◌==◌, is_none, if◌then◌else◌, length, keep, contains, get, put, keys, map,
}
use router_extra.FreeTail.{
  FreeEvidence, strict_free, conditional_free, unknown_cost, ProviderHealth, is_blocking,
}
use router_extra.Providers.{
  ModelRow, Provider, Candidate, FreeRegistry, save, Touched, mutation, on_provider,
}
use router_extra.Providers.Settings.{in_memory, trust_valid}

unfoldable pub start_scan : ℕ → String → Provider → Provider
start_scan now action p = record p { last_scan_at = now; last_scan_action = action }

unfoldable pub record_scan_started : ℕ → String → String → FreeRegistry → FreeRegistry × Bool
unfolding in_memory start_scan get
record_scan_started now id action r =
    (in_memory id (start_scan now action) r, not (is_none (get id r.providers)))

unfoldable pub back_off : ℕ → ℕ → Provider → Provider
back_off now seconds p = record p { backoff_until = now + seconds; next_scan_due = now + seconds }

unfoldable pub set_backoff : ℕ → String → ℕ → FreeRegistry → FreeRegistry
unfolding in_memory back_off
set_backoff now id seconds r = if seconds == 0 then r else in_memory id (back_off now seconds) r

-- `{str(row["canonical_id"]): row for row in rows}`
unfoldable pub by_id_onto : List ModelRow → List (String × ModelRow) → List (String × ModelRow)
unfolding put
by_id_onto [] held = held
by_id_onto (row ∷ rows) held = by_id_onto rows (put row.canonical_id row held)

unfoldable pub by_id : List ModelRow → List (String × ModelRow)
unfolding by_id_onto
by_id rows = by_id_onto rows []

-- `incoming_by_id`: the first row of each id that is neither empty nor manual.
unfoldable pub add_first :
    Option ModelRow → ModelRow → List (String × ModelRow) → List (String × ModelRow)
add_first none row held = held ++ (row.canonical_id, row) ∷ []
add_first (some old) row held = held

unfoldable pub incoming_by_id :
    List String → List ModelRow → List (String × ModelRow) → List (String × ModelRow)
unfolding contains add_first get
incoming_by_id manual_ids [] held = held
incoming_by_id manual_ids (row ∷ rows) held = incoming_by_id manual_ids rows (
    if str_eq row.canonical_id "" || contains row.canonical_id manual_ids
    then held
    else add_first (get row.canonical_id held) row held)

-- What a scanned row takes over from the one before.
unfoldable pub carry_over : Option ModelRow → ModelRow → ModelRow
carry_over none row = row
carry_over (some old) row = record row {
  synced_to_saifren = old.synced_to_saifren || row.synced_to_saifren;
  synced_at = if old.synced_to_saifren then old.synced_at else row.synced_at;
  last_success_use =
      if str_eq old.last_success_use "" then row.last_success_use else old.last_success_use;
}

unfoldable pub merged : ℕ → List (String × ModelRow) → ModelRow → ModelRow
unfolding carry_over get
merged now previous row = carry_over (get row.canonical_id previous) (record row {
  scanner_managed = true;
  last_seen = if row.last_seen == 0 then now else row.last_seen;
})

-- The loop over the existing rows of a partial result.
unfoldable pub update_row : Option ModelRow → ℕ → List (String × ModelRow) → ModelRow → ModelRow
unfolding merged
update_row none now previous old = old
update_row (some row) now previous old =
    if old.scanner_managed then merged now previous row else old

unfoldable pub update_rows :
    ℕ → List (String × ModelRow) → List (String × ModelRow) → List ModelRow → List ModelRow
unfolding update_row get
update_rows now previous incoming [] = []
update_rows now previous incoming (old ∷ rest) =
    update_row (get old.canonical_id incoming) now previous old
    ∷ update_rows now previous incoming rest

unfoldable pub rows_of : ℕ → List (String × ModelRow) → List (String × ModelRow) → List ModelRow
unfolding merged
rows_of now previous [] = []
rows_of now previous ((id, row) ∷ rest) = merged now previous row ∷ rows_of now previous rest

unfoldable pub ids_of : List ModelRow → List String
ids_of [] = []
ids_of (row ∷ rows) = row.canonical_id ∷ ids_of rows

unfoldable pub manual_rows : List ModelRow → List ModelRow
unfolding keep
manual_rows rows = keep (λ row. not row.scanner_managed) rows

unfoldable pub partial_rows : ℕ → List (String × ModelRow) → List ModelRow → List ModelRow
unfolding update_rows rows_of by_id keep contains ids_of
partial_rows now incoming models =
    let rows = update_rows now (by_id models) incoming models in
    rows
    ++ rows_of now (by_id models)
        (keep (λ (e : String × ModelRow). not (contains e.0 (ids_of rows))) incoming)

unfoldable pub full_rows : ℕ → List (String × ModelRow) → List ModelRow → List ModelRow
unfolding rows_of by_id manual_rows
full_rows now incoming models = rows_of now (by_id models) incoming ++ manual_rows models

-- `_schedule_prune`: `known` are the ids of the candidates so far.
unfoldable pub schedule_prune :
    String → ℕ → List String → List String → List (String × ModelRow) → List Candidate
unfolding contains
schedule_prune provider_id now seen known [] = []
schedule_prune provider_id now seen known ((id, row) ∷ rest) =
    let gone =
      row.scanner_managed
      && not (contains id seen)
      && row.synced_to_saifren
      && not (contains id known) in
    let more = schedule_prune provider_id now seen (if gone then id ∷ known else known) rest in
    if gone then record { canonical_id = id; provider_id = provider_id; at = now } ∷ more else more

unfoldable pub candidate_ids : List Candidate → List String
candidate_ids [] = []
candidate_ids (c ∷ cs) = c.canonical_id ∷ candidate_ids cs

is_strict : FreeEvidence → Bool
is_strict strict_free = true
is_strict e = false

is_conditional : FreeEvidence → Bool
is_conditional conditional_free = true
is_conditional unknown_cost = true
is_conditional e = false

unfoldable pub refresh_counts : Provider → Provider
unfolding keep is_strict is_conditional
refresh_counts p = record p {
  strict_free_count = length (keep (λ row. is_strict row.free_evidence) p.models);
  conditional_count = length (keep (λ row. is_conditional row.free_evidence) p.models);
  models_discovered = length p.models;
}
