-- ===== src/Activation/StoreExamples.antt =====
-- The activation store at concrete files, and the theorems about it at such files.
use router_extra.Prelude.{
  String, ◌≡◌, ◌≢◌, ◌⊎◌, refl, arith, true, false, not, ◌&&◌, none, some, List, [], ◌∷◌, get,
  contains, set_eq,
}
use router_extra.Storage.{
  Json, integer, obj, Fields, field, end, text, raw, Disk, Faults, loaded_file, is_blank,
  malformed_json,
}
use router_extra.Combo.{StableCombo, has_unsaved_changes}
use router_extra.Activation.{ComboActivation, reconcile, is_conflict}
use router_extra.Activation.Store.{
  ActivationStore, load, open_store, save, empty_store, corrupt, load_file, load_content,
}
use router_extra.Activation.Session.{StoreEdit, ensures, forgets, syncs, sync_record, read_combo}
use router_extra.Activation.Reopening.{shown_combo}
use router_extra.Activation.Loading.{load_keeps_file}
use router_extra.Activation.Overwriting.{unreadable_overwritten}
use router_extra.Activation.Invariant.{
  IsWellFormed, adds, moves_up, adopts, edit_records, edit_records-IsWellFormed,
}

abbrev kept_record : ComboActivation
kept_record = record {
  combo_id = "1";
  combo_name = "SAIFREN";
  configured = "a" ∷ "b" ∷ "c" ∷ [];
  disabled = "b" ∷ [];
  engine_baseline = "a" ∷ "c" ∷ [];
  engine_updated_at = "t1";
}

abbrev edited : StableCombo
edited = record {
  id = "1";
  name = "SAIFREN";
  models = "a" ∷ "b" ∷ "c" ∷ [];
  kind = none;
  updated_at = "t1";
  baseline_models = "a" ∷ "b" ∷ "c" ∷ [];
  baseline_updated_at = "t1";
  baseline_name = "SAIFREN";
  baseline_kind = none;
  disabled = "b" ∷ [];
  baseline_disabled = "b" ∷ [];
}

-- No fault, and a file that cannot be read.
abbrev sound : Faults
sound = record { unreadable = false; left = none; kept_source = false }

abbrev shut : Faults
shut = record { unreadable = true; left = none; kept_source = false }

abbrev no_disk : Disk
no_disk = record { file = none; quarantine = none }

abbrev torn : Disk
torn = record { file = some (raw "{"); quarantine = none }

abbrev show_json : Json → String
show_json j = "?"

abbrev held_store : ActivationStore
held_store = record {
  records = ("1", kept_record) ∷ [];
  load_state = loaded_file;
  quarantined = false;
}

abbrev number_fields : Fields
number_fields = field "schema" (integer 1) (field "combos" (integer 5) end)

abbrev numbered : Disk
numbered = record { file = some (text (obj number_fields)); quarantine = none }

edit_records_example :
    IsWellFormed
      (edit_records (adds "d" (some 1) ∷ moves_up "c" ∷ adopts ("d" ∷ []) ∷ []) kept_record)
unfolding contains
edit_records_example =
    edit_records-IsWellFormed (adds "d" (some 1) ∷ moves_up "c" ∷ adopts ("d" ∷ []) ∷ [])
      kept_record (tt, (tt, ((refl, tt), tt))) ((refl, (refl, (refl, tt))), λ k h. ground arith)

load_keeps_file_example :
    let after = corrupt malformed_json sound (raw "{") empty_store torn in
    ((after.1.file ≡ some (raw "{"))
      ⊎ ((after.1.quarantine ≡ some (raw "{")) × (after.0.quarantined ≡ true)))
    × ((after.0.load_state ≡ loaded_file) ⊎ (after.0.records ≡ []))
unfolding load load_file load_content
load_keeps_file_example =
    load_keeps_file show_json sound (raw "{") empty_store
      (corrupt malformed_json sound (raw "{") empty_store torn).0 torn
      (corrupt malformed_json sound (raw "{") empty_store torn).1 refl refl

unreadable_example :
    (s : ActivationStore) × (open_store show_json shut numbered ≡ some (s, numbered))
    × (let saved = (save none (sync_record edited ("a" ∷ []) s) numbered).0 in
        (saved.quarantine ≡ none)
        × ((next : ActivationStore) × (open_store show_json sound saved ≡ some (next, saved))
            × ((id : String) → id ≢ "1" → get id next.records ≡ none)))
unfolding is_blank
unreadable_example =
    unreadable_overwritten show_json shut sound (text (obj number_fields)) numbered edited
      ("a" ∷ []) refl refl refl refl

shown_combo_example :
    let c = (read_combo "1" "SAIFREN" none ("a" ∷ []) "t2" held_store).0 in
    (c.models ≡ kept_record.configured)
    × (c.disabled ≡ kept_record.disabled)
    × (has_unsaved_changes c ≡ (
        is_conflict (reconcile (some kept_record) (some ("a" ∷ []))).0
        && not (set_eq kept_record.disabled [])))
unfolding get
shown_combo_example = shown_combo "1" "SAIFREN" none ("a" ∷ []) "t2" held_store kept_record refl

abbrev session_edits : List StoreEdit
session_edits = ensures "1" "SAIFREN" ("a" ∷ []) ∷ syncs edited ("a" ∷ []) ∷ forgets "2" ∷ []
