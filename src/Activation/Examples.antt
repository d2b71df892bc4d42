-- ===== src/Activation/Examples.antt =====
-- Activation records at concrete states, and the theorems at such states.
use router_extra.Prelude.{
  list_eq_refl, String, ◌≡◌, ◌≢◌, refl, sym, ap, ◌∙◌, false, none, some, List, [], ◌∷◌, list_eq,
  set_eq,
}
use router_extra.Combo.{StableCombo}
use router_extra.Activation.{
  ComboActivation, enabled_models, is_enabled, reconcile, external_removed,
}
use router_extra.Activation.Reconcile.{reordered_as_removed}

abbrev stored : ComboActivation
stored = record {
  combo_id = "1";
  combo_name = "SAIFREN";
  configured = "a" ∷ "b" ∷ "c" ∷ [];
  disabled = "b" ∷ [];
  engine_baseline = "a" ∷ "c" ∷ [];
  engine_updated_at = "t1";
}

abbrev opened : StableCombo
opened = record {
  id = "1";
  name = "SAIFREN";
  models = "a" ∷ "b" ∷ "c" ∷ [];
  kind = none;
  updated_at = "t1";
  baseline_models = "a" ∷ "b" ∷ "c" ∷ [];
  baseline_updated_at = "t1";
  baseline_name = "SAIFREN";
  baseline_kind = none;
  disabled = "b" ∷ [];
  baseline_disabled = "b" ∷ [];
}

abbrev turned : List String
turned = "c" ∷ "a" ∷ []

turned_differs : (xs : List String) → list_eq turned xs ≡ false → turned ≢ xs
turned_differs xs h e = cc (sym h ∙ ap (list_eq turned) (sym e) ∙ list_eq_refl turned)

reordered_as_removed_example : (reconcile (some stored) (some turned)).0 ≡ external_removed
unfolding enabled_models is_enabled set_eq list_eq
reordered_as_removed_example =
    reordered_as_removed "b" turned stored refl refl refl
      (turned_differs (enabled_models stored) refl) (turned_differs stored.engine_baseline refl)
