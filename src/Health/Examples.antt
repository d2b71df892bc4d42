-- ===== src/Health/Examples.antt =====
-- Probes at concrete answers, and the theorems at such answers.
use router_extra.Prelude.{ℕ, String, ◌≤◌, ◌≡◌, ◌⊎◌, refl, true, false, none, List, [], ◌∷◌}
use router_extra.Health.{live, dead, model_missing, zero_counters}
use router_extra.Health.{Evidence, free, live_confidence}
use router_extra.Storage.{Json, arr, obj, str, done, item, end, field, field_of}
use router_extra.Health.Summary.{
  classify_provider_state, summary_of, classify_models_catalog, classify_reachability,
  classify_auth, answered as answered_with, http_answer, is_reachable, is_authorized, has_models,
  is_live, is_auth_rejected, payload_of, catalog_of, catalog_rows, catalog_of_rows, has_key,
}
use router_extra.Health.Summary.Usable.{usable_iff, ListsModels}
use router_extra.Prelude.{Option, some, ◌↔◌}
use router_extra.Health.Classify.{Probe, classify_from, classify_probe_result}
use router_extra.Health.Streaks.{
  is_missing, is_route, last_counters, history, streak, dead_needs_streak,
}

abbrev code_text : ℕ → String
code_text s = "HTTP"

-- A 404 whose text says that the model is not found.
abbrev not_found : Probe
not_found = record {
  status_code = 404;
  is_timeout = false;
  json_status = none;
  http_in_message = none;
  bracket_in_message = none;
  has_error_message = true;
  error_code = "model_not_found";
  model_in_code = true;
  has_body = true;
  is_object = true;
  ok = none;
  has_inference = false;
  is_html = false;
  waf_marks = false;
  challenge_marks = false;
  dns_words = false;
  balance_words = false;
  client_bound_words = false;
  auth_words = false;
  rate_limit_words = false;
  gone_words = false;
  missing_words = true;
  provider_prefix = "openai";
  model_id = "gpt";
  cost_override = none;
  cost_hint = none;
}

-- A 200 with an inference.
abbrev answered : Probe
answered = record not_found {
  status_code = 200;
  has_error_message = false;
  error_code = "";
  model_in_code = false;
  missing_words = false;
  has_inference = true;
}

abbrev thrice : List Probe
thrice = not_found ∷ not_found ∷ []

third_is_dead :
    (classify_from code_text not_found (last_counters (history code_text thrice))).availability
    ≡ dead
unfolding classify_probe_result history
third_is_dead = refl

second_is_missing :
    (classify_from code_text not_found
      (last_counters (history code_text (not_found ∷ [])))).availability
    ≡ model_missing
unfolding classify_probe_result history
second_is_missing = refl

dead_needs_streak_example :
    let rs = history code_text (not_found ∷ thrice) in
    (3 ≤ streak is_missing rs) ⊎ (5 ≤ streak is_route rs)
dead_needs_streak_example = dead_needs_streak code_text not_found thrice third_is_dead

third_misses :
    let r = classify_from code_text not_found (last_counters (history code_text thrice)) in
    is_missing r.availability r.confidence ≡ true
unfolding classify_probe_result history
third_misses = refl

answered_live : (classify_from code_text answered zero_counters).availability ≡ live
unfolding classify_probe_result
answered_live = refl

abbrev answer_evidence : Evidence
answer_evidence = record {
  availability = live;
  cost = free;
  confidence = live_confidence;
  status_code = 200;
  error_code = "";
  counters = zero_counters;
}

abbrev catalogue_code : Option ℕ
catalogue_code = some 200

-- `{"data": ["gpt"]}`
abbrev catalogue : Json
catalogue = obj (field "data" (arr (item (str "gpt") done)) end)

usable_iff_example :
    ((classify_provider_state answer_evidence catalogue_code true (some catalogue) none).usable
      ≡ true)
    ↔ ((catalogue_code ≡ some 200)
        × ListsModels (some catalogue)
        × (answer_evidence.availability ≡ live))
unfolding payload_of
usable_iff_example = usable_iff answer_evidence catalogue_code true (some catalogue) none

usable_test :
    (classify_provider_state answer_evidence catalogue_code true (some catalogue) none).usable
    ≡ true
unfolding classify_provider_state summary_of classify_models_catalog classify_reachability
    classify_auth answered_with http_answer is_reachable is_authorized has_models is_live
    is_auth_rejected payload_of catalog_of catalog_rows catalog_of_rows has_key field_of
usable_test = refl
