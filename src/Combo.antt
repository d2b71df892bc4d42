-- ===== src/Combo.antt =====
-- 9router_WatchEdit/core/combo_manager.py, class `StableCombo`: the configured sequence of a combo,
-- its activation and its last verified baseline.
pub mod Sequence
pub mod Order
pub mod Removal
pub mod Activation
pub mod Moves
pub mod Edits
pub mod Compare
pub mod Diff
pub mod Difference
pub mod Healthy
pub mod Server
mod Examples
use router_extra.Prelude.{
  ℕ, suc, ◌-◌, String, Bool, true, false, not, ◌&&◌, ◌||◌, Option, none, some, List, [], ◌∷◌, ◌++◌,
  str_eq, ltb, leb, ◌==◌, if◌then◌else◌, length, keep, contains, list_eq, set_eq, add, discard,
}
use Sequence.{index, swap_at, insert_at, pop_at, remove_first, remove_counted}

pub record StableCombo : Type 0 where
  pub id : String
  pub name : String
  pub models : List String
  pub kind : Option String
  pub updated_at : String
  pub baseline_models : List String
  pub baseline_updated_at : String
  pub baseline_name : String
  pub baseline_kind : Option String
  pub disabled : List String  -- a set
  pub baseline_disabled : List String  -- a set

-- `kind or None`: the empty text counts as no kind.
unfoldable pub normalize_kind : Option String → Option String
normalize_kind none = none
normalize_kind (some k) = if str_eq k "" then none else some k

unfoldable pub kind_eq : Option String → Option String → Bool
kind_eq none none = true
kind_eq none (some k) = false
kind_eq (some k) none = false
kind_eq (some k) (some l) = str_eq k l

-- `m in disabled`, read over the members of a sequence.
unfoldable pub without : List String → List String → List String
unfolding keep contains
without disabled models = keep (λ m. not (contains m disabled)) models

unfoldable pub effective_models : StableCombo → List String
unfolding without
effective_models c = without c.disabled c.models

unfoldable pub effective_baseline : StableCombo → List String
unfolding without
effective_baseline c = without c.baseline_disabled c.baseline_models

unfoldable pub is_model_enabled : String → StableCombo → Bool
unfolding contains
is_model_enabled m c = not (contains m c.disabled)

unfoldable pub disabled_models : StableCombo → List String
unfolding keep contains
disabled_models c = keep (λ m. contains m c.disabled) c.models

-- A method returns the new state and its result.
unfoldable pub set_model_enabled : String → Bool → StableCombo → StableCombo × Bool
unfolding contains add discard
set_model_enabled m enabled c =
    if not (contains m c.models)
    then (c, false)
    else (if enabled
        then (if not (contains m c.disabled)
            then (c, false)
            else (record c { disabled = discard m c.disabled }, true))
        else (if contains m c.disabled
            then (c, false)
            else (record c { disabled = add m c.disabled }, true)))

-- A comprehension over a test with effects: the ids whose test was true.
unfoldable pub changed :
    (String → StableCombo → StableCombo × Bool)
    → List String
    → StableCombo
    → StableCombo × List String
changed test [] c = (c, [])
changed test (m ∷ ms) c =
    let (d, yes_m) = test m c in
    let (e, rest) = changed test ms d in (e, if yes_m then m ∷ rest else rest)

unfoldable pub set_models_enabled : List String → Bool → StableCombo → StableCombo × List String
unfolding changed set_model_enabled
set_models_enabled ms enabled c = changed (λ m. set_model_enabled m enabled) ms c

unfoldable pub toggle_model : String → StableCombo → StableCombo × Bool
unfolding contains set_model_enabled is_model_enabled
toggle_model m c =
    if contains m c.models then set_model_enabled m (not (is_model_enabled m c)) c else (c, false)

unfoldable pub toggle_models : List String → StableCombo → StableCombo × List String
unfolding changed toggle_model
toggle_models ms c = changed toggle_model ms c

unfoldable pub reset_activation : StableCombo → StableCombo × List String
unfolding disabled_models
reset_activation c = (record c { disabled = [] }, disabled_models c)

unfoldable pub is_empty : List String → Bool
is_empty [] = true
is_empty (x ∷ xs) = false

unfoldable pub has_no_routable_models : StableCombo → Bool
unfolding effective_models is_empty
has_no_routable_models c = is_empty (effective_models c)

pub record Counts : Type 0 where
  pub configured : ℕ
  pub enabled : ℕ
  pub disabled : ℕ
  pub routable : ℕ

unfoldable pub activation_counts : Option (List String) → StableCombo → Counts
unfolding effective_models keep contains
activation_counts routable_ids c =
    let enabled = effective_models c in
    record {
      configured = length c.models;
      enabled = length enabled;
      disabled = length c.models - length enabled;
      routable = elim routable_ids [
        | none ↦ length enabled
        | some ids ↦ length (keep (λ m. contains m ids) enabled)
      ];
    }

unfoldable pub mark_clean : String → StableCombo → StableCombo
mark_clean new_updated_at c =
    let d = record c {
      baseline_models = c.models;
      baseline_disabled = c.disabled;
      baseline_name = c.name;
      baseline_kind = c.kind;
    } in
    if str_eq new_updated_at ""
    then d
    else record d { baseline_updated_at = new_updated_at; updated_at = new_updated_at }

unfoldable pub has_unsaved_changes : StableCombo → Bool
unfolding list_eq set_eq kind_eq
has_unsaved_changes c =
    not (list_eq c.models c.baseline_models)
    || not (set_eq c.disabled c.baseline_disabled)
    || not (str_eq c.name c.baseline_name)
    || not (kind_eq c.kind c.baseline_kind)

unfoldable pub revert_unsaved_changes : StableCombo → StableCombo
revert_unsaved_changes c = record c {
  models = c.baseline_models;
  disabled = c.baseline_disabled;
  name = c.baseline_name;
  kind = c.baseline_kind;
}

-- An index that is given is not negative.
unfoldable pub add_model : String → Option ℕ → StableCombo → StableCombo × Bool
unfolding contains insert_at
add_model m place c = if contains m c.models then (c, false) else (
  record c {
    models = elim place [
      | none ↦ c.models ++ m ∷ []
      | some i ↦ if leb i (length c.models) then insert_at i m c.models else c.models ++ m ∷ []
    ];
  },
  true,
)

unfoldable pub remove_model : String → StableCombo → StableCombo × Bool
unfolding contains remove_first discard
remove_model m c =
    if contains m c.models
    then (record c { models = remove_first m c.models; disabled = discard m c.disabled }, true)
    else (c, false)

unfoldable pub remove_models : List String → StableCombo → StableCombo × ℕ
unfolding remove_counted
remove_models ms c =
    let (kept, disabled, removed) = remove_counted ms c.models c.disabled in
    (record c { models = kept; disabled = disabled }, removed)

-- The guard that the moves of one member share, with the member's first place.
unfoldable pub at_place :
    String → (ℕ → StableCombo → StableCombo × Bool) → StableCombo → StableCombo × Bool
unfolding contains index
at_place m move c = if contains m c.models then move (index m c.models) c else (c, false)

unfoldable pub move_up : String → StableCombo → StableCombo × Bool
unfolding at_place swap_at
move_up m =
    at_place m
      λ i c. if ltb 0 i then (record c { models = swap_at (i - 1) c.models }, true) else (c, false)

unfoldable pub move_down : String → StableCombo → StableCombo × Bool
unfolding at_place swap_at
move_down m = at_place m λ i c.
    if ltb i (length c.models - 1)
    then (record c { models = swap_at i c.models }, true)
    else (c, false)

unfoldable pub move_to_top : String → StableCombo → StableCombo × Bool
unfolding at_place insert_at pop_at
move_to_top m = at_place m λ i c.
    if i == 0 then (c, false) else (record c { models = insert_at 0 m (pop_at i c.models) }, true)

-- `len(models) - 1` is read after the pop, so the insert is at the end.
unfoldable pub move_to_bottom : String → StableCombo → StableCombo × Bool
unfolding at_place insert_at pop_at
move_to_bottom m = at_place m λ i c.
    if i == length c.models - 1
    then (c, false)
    else (record c { models = insert_at (length c.models - 1) m (pop_at i c.models) }, true)

unfoldable pub reorder_model : String → ℕ → StableCombo → StableCombo × Bool
unfolding at_place insert_at pop_at
reorder_model m new_index = at_place m λ i c.
    if i == new_index
    then (c, false)
    else (record c { models = insert_at new_index m (pop_at i c.models) }, true)
