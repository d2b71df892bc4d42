-- ===== src/Health/Summary/Usable.antt =====
-- When 9router_WatchEdit/core/classification.py calls a provider usable, and in which state.
use router_extra.Prelude.{
  ℕ, ◌≡◌, ◌≢◌, ◌↔◌, refl, ap, ◌∙◌, Bool, true, false, ◌&&◌, Option, none, some, arith,
}
use router_extra.Storage.{
  Json, null, bool, integer, other, str, arr, obj, done, item, Items, Fields,
}
use router_extra.Health.{Availability, live, dead, Evidence}
use router_extra.Health.Summary.{
  answered, catalog_rows, catalog_of_rows, catalog_of, payload_of, classify_models_catalog,
  http_answer, classify_reachability, is_live, is_auth_rejected, classify_auth, is_reachable,
  is_authorized, has_models, models_available, empty_model_catalog, discovery_unavailable,
  CatalogState, provider_state_by, provider_state_at, summary_of, classify_provider_state,
}

-- An answer to `/models` that is an object with at least one row.
abbrev pub ListsModels : Option Json → Type 0
ListsModels payload =
    (fields : Fields) × (first : Json) × (rest : Items) × (payload ≡ some (obj fields))
    × (catalog_rows fields ≡ arr (item first rest))

rows_listed :
    (rows : Json)
    → has_models (catalog_of_rows rows) ≡ true
    → (first : Json) × (rest : Items) × (rows ≡ arr (item first rest))
unfolding has_models catalog_of_rows
rows_listed (arr (item first rest)) h = (first, rest, refl)
rows_listed (arr done) h = absurd cc
rows_listed (obj fields) h = absurd cc
rows_listed (str text) h = absurd cc
rows_listed (other n text) h = absurd cc
rows_listed (integer n) h = absurd cc
rows_listed (bool b) h = absurd cc
rows_listed null h = absurd cc

listed : (payload : Option Json) → has_models (catalog_of payload) ≡ true → ListsModels payload
unfolding has_models catalog_of
listed (some (obj fields)) h =
    let (first, rest, e) = rows_listed (catalog_rows fields) h in (fields, first, rest, refl, e)
listed none h = absurd cc
listed (some (arr items)) h = absurd cc
listed (some (str text)) h = absurd cc
listed (some (other n text)) h = absurd cc
listed (some (integer n)) h = absurd cc
listed (some (bool b)) h = absurd cc
listed (some null) h = absurd cc

lists_models :
    (payload : Option Json) → ListsModels payload → has_models (catalog_of payload) ≡ true
unfolding has_models catalog_of catalog_of_rows
lists_models payload (fields, first, rest, e, f) =
    ap (λ p. has_models (catalog_of p)) e ∙ ap (λ rows. has_models (catalog_of_rows rows)) f

status_200 : (status : Option ℕ) → answered 200 status ≡ true → status ≡ some 200
unfolding answered
status_200 none h = absurd cc
status_200 (some n) h = ap some (ground arith)

live_only : (a : Availability) → (is_live a ≡ true) ↔ (a ≡ live)
unfolding is_live
live_only a = ground arith

answered_200 : answered 200 (some 200) ≡ true
unfolding answered
answered_200 = refl

usable_parts :
    (completion : Evidence) (status : Option ℕ) (has_body : Bool) (decoded parsed : Option Json)
    → (classify_provider_state completion status has_body decoded parsed).usable ≡ (
        answered 200 status
        && has_models (catalog_of (payload_of parsed decoded))
        && is_live completion.availability)
unfolding classify_provider_state summary_of classify_models_catalog classify_reachability
    classify_auth answered http_answer is_reachable is_authorized has_models is_live
    is_auth_rejected
usable_parts completion none has_body decoded parsed = ground arith
usable_parts completion (some n) has_body decoded parsed = ground arith

-- A provider is usable exactly if `/models` answered 200 with an object that lists at least one
-- row and the completion was LIVE: neither the other statuses nor the completion's own code
-- matter, and a catalogue that is empty or malformed makes it unusable.
pub usable_iff :
    (completion : Evidence) (status : Option ℕ) (has_body : Bool) (decoded parsed : Option Json)
    → ((classify_provider_state completion status has_body decoded parsed).usable ≡ true) ↔ (
        (status ≡ some 200)
        × ListsModels (payload_of parsed decoded)
        × (completion.availability ≡ live))
usable_iff completion status has_body decoded parsed =
    let e = usable_parts completion status has_body decoded parsed in
    (
      λ h. (
        status_200 status (ground (arith, e)),
        listed (payload_of parsed decoded) (ground (arith, e)),
        (live_only completion.availability).0 (ground (arith, e)),
      ),
      λ (s, l, a).
          let t = ap (answered 200) s in
          let m = lists_models (payload_of parsed decoded) l in
          let v = (live_only completion.availability).1 a in
          ground (arith, e, t, m, v, answered_200),
    )

state_dead :
    (c : CatalogState) (answers : Bool) (a : Availability)
    → (provider_state_by c answers a ≡ dead) ↔ ((a ≡ dead) × (c ≢ empty_model_catalog))
unfolding provider_state_by provider_state_at
state_dead models_available true a = ground arith
state_dead models_available false a = ground arith
state_dead empty_model_catalog answers a = ground arith
state_dead discovery_unavailable true a = ground arith
state_dead discovery_unavailable false a = ground arith

-- A provider is DEAD exactly if its completion is and its catalogue is not an empty one: no answer
-- to `/models` makes a provider DEAD.
pub provider_dead_iff :
    (completion : Evidence) (status : Option ℕ) (has_body : Bool) (decoded parsed : Option Json)
    → ((classify_provider_state completion status has_body decoded parsed).provider_state ≡ dead)
      ↔ ((completion.availability ≡ dead)
          × ((classify_provider_state completion status has_body decoded parsed).catalog
              ≢ empty_model_catalog))
unfolding classify_provider_state summary_of
provider_dead_iff completion status has_body decoded parsed =
    state_dead (classify_models_catalog status (payload_of parsed decoded)) (answered 200 status)
      completion.availability
