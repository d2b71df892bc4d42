-- ===== src/Activation/Reopening.antt =====
-- A session of the editor, saved, and the next one.
use router_extra.Prelude.{
  String, ◌≡◌, refl, not, ◌&&◌, Option, some, List, [], arith, eq_refl, get, list_eq_refl,
  set_eq_refl, set_eq,
}
use router_extra.Combo.{has_unsaved_changes}
use router_extra.Activation.{
  ComboActivation, enabled_models, reconcile, reconcile_lists, is_conflict,
}
use router_extra.Combo.Server.{kind_eq_refl}
use router_extra.Activation.Store.{ActivationStore}
use router_extra.Activation.Session.{
  hydrate_activation, hydrate_from, read_combo, fresh_combo, from_record,
}

-- A combo that the store knows is shown as its record has it, whatever the engine lists; it counts
-- as changed exactly if the engine's list is a conflict and some configured or other model is
-- disabled. So a conflict of a combo with nothing disabled shows no unsaved change, and neither
-- does a draft that was never published.
pub shown_combo :
    (id name : String) (kind : Option String) (server : List String) (updated : String)
    (s : ActivationStore) (a : ComboActivation)
    → get id s.records ≡ some a
    → let c = (read_combo id name kind server updated s).0 in
      (c.models ≡ a.configured)
      × (c.disabled ≡ a.disabled)
      × (has_unsaved_changes c
          ≡ (is_conflict (reconcile (some a) (some server)).0 && not (set_eq a.disabled [])))
unfolding read_combo fresh_combo hydrate_activation hydrate_from from_record has_unsaved_changes
    reconcile reconcile_lists enabled_models
shown_combo id name kind server updated s a h = rw h (
  refl,
  refl,
  ground
      (arith, list_eq_refl a.configured, set_eq_refl a.disabled, eq_refl name, kind_eq_refl kind),
)
