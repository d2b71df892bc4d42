-- ===== src/Combo/Examples.antt =====
-- Combos at concrete states, and the theorems at such states.
use router_extra.Prelude.{
  get, not, keep, String, ◌≡◌, refl, true, ◌&&◌, none, some, List, [], ◌∷◌, arith, contains,
}
use router_extra.Combo.{
  add_model, remove_model, StableCombo, effective_models, is_model_enabled, has_unsaved_changes,
}
use router_extra.Health.{live, dead, free, live_confidence, zero_counters}
use router_extra.HealthCache.{HealthRecord, HealthCache, no_stamp, no_delta, is_live}
use router_extra.Combo.Diff.{is_healthy, is_dead, move_healthy_to_top, remove_dead_models}
use router_extra.Combo.Healthy.{remove_dead_lem}
use router_extra.Combo.Edits.{IsWellFormed, Edit, run_edits}
use router_extra.Combo.Moves.Invariant.{run_edits-IsWellFormed}
use router_extra.Combo.Compare.{ServerState}

abbrev members : List String
members = "wb/hy3" ∷ "ag/flash" ∷ "oc/free" ∷ []

-- A combo as it is loaded, with its second member turned off since.
abbrev loaded : StableCombo
loaded = record {
  id = "1";
  name = "SAIFREN";
  models = members;
  kind = none;
  updated_at = "t1";
  baseline_models = members;
  baseline_updated_at = "t1";
  baseline_name = "SAIFREN";
  baseline_kind = none;
  disabled = "ag/flash" ∷ [];
  baseline_disabled = [];
}

loaded_publishes : effective_models loaded ≡ "wb/hy3" ∷ "oc/free" ∷ []
unfolding effective_models
loaded_publishes = refl

loaded_unsaved : has_unsaved_changes loaded ≡ true
unfolding has_unsaved_changes
loaded_unsaved = refl

abbrev two_ids : List String
two_ids = "wb/hy3" ∷ "ag/flash" ∷ []

loaded-IsWellFormed : IsWellFormed loaded
unfolding contains
loaded-IsWellFormed = record {
  distinct = (refl, (refl, (refl, tt)));
  recorded = λ k r. ground arith;
  baseline_distinct = (refl, (refl, (refl, tt)));
  baseline_recorded = λ k r. cc;
}

abbrev script : List Edit
script =
    Edit.remove "wb/hy3" ∷ Edit.add "wb/hy3" (some 1) ∷ Edit.toggle "wb/hy3" ∷ Edit.clean "t2" ∷ []

run_edits_example : IsWellFormed (run_edits script loaded)
run_edits_example = run_edits-IsWellFormed script loaded-IsWellFormed

abbrev read_back : ServerState
read_back = record {
  name = "SAIFREN";
  kind = some "";
  models = "wb/hy3" ∷ "oc/free" ∷ [];
  updated_at = "t2";
}

abbrev answered : HealthRecord
answered = record {
  availability = live;
  cost = free;
  confidence = live_confidence;
  cost_override = none;
  latency_ms = 300;
  status_code = 200;
  last_tested_at = no_stamp;
  last_success_at = no_stamp;
  success_streak = 1;
  counters = zero_counters;
  previous_availability = none;
  delta = no_delta;
}

abbrev scanned : HealthCache
scanned = record {
  records = ("oc/free", answered) ∷ ("ag/flash", record answered { availability = dead }) ∷ [];
  record_generation = 2;
  durable_generation = 0;
}

healthy_test :
    (move_healthy_to_top scanned loaded).0.models ≡ "oc/free" ∷ "wb/hy3" ∷ "ag/flash" ∷ []
unfolding move_healthy_to_top keep get is_healthy is_live
healthy_test = refl

remove_dead_example :
    let (d, diff) = remove_dead_models scanned loaded in
    (contains "ag/flash" d.models
      ≡ (contains "ag/flash" loaded.models && not (is_dead (get "ag/flash" scanned.records))))
    × (contains "ag/flash" diff.removed
        ≡ (contains "ag/flash" loaded.models && is_dead (get "ag/flash" scanned.records)))
    × (diff.added ≡ [])
    × (is_model_enabled "ag/flash" (add_model "ag/flash" none d).0
        ≡ is_model_enabled "ag/flash" loaded)
    × (contains "ag/flash" loaded.models ≡ true
        → is_model_enabled "ag/flash"
            (add_model "ag/flash" none (remove_model "ag/flash" loaded).0).0
          ≡ true)
remove_dead_example = remove_dead_lem scanned loaded "ag/flash"
