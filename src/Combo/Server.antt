-- ===== src/Combo/Server.antt =====
-- What the comparisons of `Combo.Compare` promise around a verified save.
use router_extra.Prelude.{
  set_eq_refl, list_eq_refl, String, ◌≡◌, ◌↔◌, refl, true, false, Option, none, some, [], arith,
  eq_refl,
}
use router_extra.Combo.{
  StableCombo, kind_eq, effective_models, effective_baseline, mark_clean, has_unsaved_changes,
  revert_unsaved_changes,
}
use router_extra.Combo.Compare.{
  ServerState, server_field_mismatches, check_server_conflict, describe_server_divergence,
}

pub kind_eq_refl : (k : Option String) → kind_eq k k ≡ true
unfolding kind_eq
kind_eq_refl none = refl
kind_eq_refl (some k) = eq_refl k

-- The conflict test and the description agree: a conflict is reported exactly when the
-- description names a change.
pub conflict_iff_described :
    (s : ServerState) (c : StableCombo)
    → (check_server_conflict s c ≡ false) ↔ (describe_server_divergence s c ≡ [])
unfolding check_server_conflict describe_server_divergence
conflict_iff_described s c = ground arith

-- After a save whose read-back matches the local state in every field, marking the combo clean
-- leaves no unsaved change and no conflict with that read, whatever the stamps were.
pub verified_save :
    (s : ServerState) (c : StableCombo)
    → server_field_mismatches s c ≡ []
    → let d = mark_clean s.updated_at c in
      (has_unsaved_changes d ≡ false) × (check_server_conflict s d ≡ false)
unfolding server_field_mismatches mark_clean has_unsaved_changes check_server_conflict
verified_save s c h = ground (
  arith,
  list_eq_refl c.models,
  set_eq_refl c.disabled,
  eq_refl c.name,
  kind_eq_refl c.kind,
  eq_refl s.updated_at,
)

-- Reverting drops every unsaved change: nothing is unsaved then, what is published is the
-- baseline's sequence, and the conflict with any read of the engine is what it was.
pub revert_lem :
    (s : ServerState) (c : StableCombo)
    → let d = revert_unsaved_changes c in
      (has_unsaved_changes d ≡ false)
      × (effective_models d ≡ effective_baseline c)
      × (check_server_conflict s d ≡ check_server_conflict s c)
unfolding revert_unsaved_changes has_unsaved_changes effective_models effective_baseline
    check_server_conflict
revert_lem s c = ground (
  arith,
  list_eq_refl c.baseline_models,
  set_eq_refl c.baseline_disabled,
  eq_refl c.baseline_name,
  kind_eq_refl c.baseline_kind,
)
