-- ===== src/Activation/Members.antt =====
-- The members of a `ComboActivation` of 9router_WatchEdit/core/activation.py: the disabled ones, adding and
-- removing one, the counts, the verified baseline, and `classify_row`. The indices of `add_model`
-- that are out of range, negative ones included, are `none` or past the end.
use router_extra.Prelude.{
  ℕ, ◌-◌, String, Bool, true, false, not, Option, none, some, List, [], ◌∷◌, ◌++◌, str_eq, leb,
  if◌then◌else◌, length, keep, contains, discard,
}
use router_extra.Combo.Sequence.{insert_at, remove_first}
use router_extra.Activation.{ComboActivation, enabled_models, is_enabled}

unfoldable pub disabled_models : ComboActivation → List String
unfolding keep contains
disabled_models a = keep (λ m. contains m a.disabled) a.configured

unfoldable pub reset_activation : ComboActivation → ComboActivation × List String
unfolding disabled_models
reset_activation a = (record a { disabled = [] }, disabled_models a)

unfoldable pub insert_or_append : Option ℕ → String → List String → List String
unfolding insert_at
insert_or_append none m ms = ms ++ m ∷ []
insert_or_append (some i) m ms = if leb i (length ms) then insert_at i m ms else ms ++ m ∷ []

unfoldable pub add_model : Option ℕ → String → ComboActivation → ComboActivation × Bool
unfolding contains insert_or_append
add_model index? m a =
    if contains m a.configured
    then (a, false)
    else (record a { configured = insert_or_append index? m a.configured }, true)

unfoldable pub remove_model : String → ComboActivation → ComboActivation × Bool
unfolding contains remove_first discard
remove_model m a =
    if contains m a.configured
    then (
      record a { configured = remove_first m a.configured; disabled = discard m a.disabled },
      true,
    )
    else (a, false)

pub record Counts : Type 0 where
  pub configured : ℕ
  pub enabled : ℕ
  pub disabled : ℕ
  pub routable : ℕ

unfoldable pub count_routable : Option (List String) → List String → ℕ
unfolding keep contains
count_routable none enabled = length enabled
count_routable (some ids) enabled = length (keep (λ m. contains m ids) enabled)

unfoldable pub counts : Option (List String) → ComboActivation → Counts
unfolding enabled_models count_routable
counts routable_ids a = record {
  configured = length a.configured;
  enabled = length (enabled_models a);
  disabled = length a.configured - length (enabled_models a);
  routable = count_routable routable_ids (enabled_models a);
}

unfoldable pub verify_baseline : List String → String → ComboActivation → ComboActivation
verify_baseline server updated a = record a {
  engine_baseline = server;
  engine_updated_at = if str_eq updated "" then a.engine_updated_at else updated;
}

pub data ActivationStatus : Type 0 where
  configured_enabled configured_disabled enabled_but_blocked untested unsaved : ActivationStatus

unfoldable pub classify_row : String → ComboActivation → Bool → Bool → Bool → ActivationStatus
unfolding is_enabled
classify_row m a blocked tested pending =
    if not (is_enabled m a)
    then configured_disabled
    else (if pending
        then unsaved
        else (if blocked
            then enabled_but_blocked
            else (if not tested then untested else configured_enabled)))
