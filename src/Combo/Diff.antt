-- ===== src/Combo/Diff.antt =====
-- 9router_WatchEdit/core/combo_manager.py: `ComboDiff`, `compute_combo_diff`, and the two edits of a
-- combo that read the health cache.
use router_extra.Prelude.{
  get, ℕ, String, Bool, true, false, not, ◌&&◌, Option, none, some, List, [], ◌∷◌, ◌++◌,
  if◌then◌else◌, ◌==◌, keep, contains,
}
use router_extra.Combo.{StableCombo}
use router_extra.Combo.Sequence.{index}
use router_extra.Health.{Availability, dead}
use router_extra.HealthCache.{HealthRecord, HealthCache, is_live}

pub record ComboDiff : Type 0 where
  pub removed : List String
  pub added : List (String × ℕ)
  pub moved : List (String × ℕ × ℕ)

-- The models that the other list lacks, with their first positions.
unfoldable pub added_in : List String → List String → List String → List (String × ℕ)
unfolding contains index
added_in original modified [] = []
added_in original modified (m ∷ ms) =
    let rest = added_in original modified ms in
    if contains m original then rest else (m, index m modified) ∷ rest

-- The common models whose first positions differ.
unfoldable pub moved_in : List String → List String → List String → List (String × ℕ × ℕ)
unfolding contains index
moved_in original modified [] = []
moved_in original modified (m ∷ ms) =
    let rest = moved_in original modified ms in
    if contains m modified && not (index m original == index m modified)
    then (m, index m original, index m modified) ∷ rest
    else rest

unfoldable pub compute_combo_diff : List String → List String → ComboDiff
unfolding keep contains added_in moved_in
compute_combo_diff original modified = record {
  removed = keep (λ m. not (contains m modified)) original;
  added = added_in original modified modified;
  moved = moved_in original modified original;
}

-- `not xs`
unfoldable pub no_entry {ℓ} : {A : Type ℓ} → List A → Bool
no_entry [] = true
no_entry (x ∷ xs) = false

unfoldable pub is_empty : ComboDiff → Bool
unfolding no_entry
is_empty d = no_entry d.removed && no_entry d.added && no_entry d.moved

-- `rec and rec.is_healthy()`, `rec and rec.is_dead()`
unfoldable pub is_healthy : Option HealthRecord → Bool
unfolding is_live
is_healthy none = false
is_healthy (some r) = is_live r.availability

dead_state : Availability → Bool
dead_state dead = true
dead_state a = false

unfoldable pub is_dead : Option HealthRecord → Bool
unfolding dead_state
is_dead none = false
is_dead (some r) = dead_state r.availability

unfoldable pub move_healthy_to_top : HealthCache → StableCombo → StableCombo × ComboDiff
unfolding keep get is_healthy compute_combo_diff
move_healthy_to_top h c =
    let healthy = keep (λ m. is_healthy (get m h.records)) c.models in
    let unhealthy = keep (λ m. not (is_healthy (get m h.records))) c.models in
    (record c { models = healthy ++ unhealthy }, compute_combo_diff c.models (healthy ++ unhealthy))

unfoldable pub remove_dead_models : HealthCache → StableCombo → StableCombo × ComboDiff
unfolding keep get is_dead compute_combo_diff
remove_dead_models h c =
    let left = keep (λ m. not (is_dead (get m h.records))) c.models in
    (record c { models = left }, compute_combo_diff c.models left)
