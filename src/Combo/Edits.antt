-- ===== src/Combo/Edits.antt =====
-- The local edits of `StableCombo` in 9router_WatchEdit/core/combo_manager.py as values that run one after
-- the other, and when a combo is well formed.
use router_extra.Prelude.{
  Distinct, ℕ, String, ◌≡◌, refl, Bool, true, false, Option, List, [], ◌∷◌, arith, eq_iff,
  if◌then◌else◌, contains,
}
use router_extra.Combo.{
  StableCombo, set_model_enabled, toggle_model, reset_activation, add_model, remove_model,
  remove_models, revert_unsaved_changes, mark_clean,
}
use router_extra.Combo.Sequence.{remove_first}
use router_extra.Combo.Order.{
  contains-insert_at, Distinct-insert_at, contains-remove_first, Distinct-remove_first,
  contains-swap_at, Distinct-swap_at,
}
use router_extra.Combo.Moves.{Move, run_move, Moved, same, swapped, placed}

abbrev pub Recorded : List String → List String → Type 0
Recorded models disabled = (k : String) → contains k disabled ≡ true → contains k models ≡ true

pub record IsWellFormed (c : StableCombo) : Type 0 where
  pub distinct : Distinct c.models
  pub recorded : Recorded c.models c.disabled
  pub baseline_distinct : Distinct c.baseline_models
  pub baseline_recorded : Recorded c.baseline_models c.baseline_disabled

-- The local edits of one combo.
pub data Edit : Type 0 where
  set_enabled : String → Bool → Edit
  toggle : String → Edit
  reset : Edit
  add : String → Option ℕ → Edit
  remove : String → Edit
  remove_all : List String → Edit
  shift : Move → String → Edit
  revert : Edit
  clean : String → Edit

unfoldable pub run_edit : Edit → StableCombo → StableCombo
unfolding set_model_enabled toggle_model reset_activation add_model remove_model remove_models
    run_move revert_unsaved_changes mark_clean
run_edit (set_enabled m b) c = (set_model_enabled m b c).0
run_edit (toggle m) c = (toggle_model m c).0
run_edit reset c = (reset_activation c).0
run_edit (add m place) c = (add_model m place c).0
run_edit (remove m) c = (remove_model m c).0
run_edit (remove_all ms) c = (remove_models ms c).0
run_edit (shift v m) c = (run_move v m c).0
run_edit revert c = revert_unsaved_changes c
run_edit (clean stamp) c = mark_clean stamp c

unfoldable pub run_edits : List Edit → StableCombo → StableCombo
unfolding run_edit
run_edits [] c = c
run_edits (e ∷ es) c = run_edits es (run_edit e c)

pub if_keeps {ℓ κ} :
    {A : Type ℓ} (P : A → Type κ) (b : Bool) {x y : A} → P x → P y → P (if b then x else y)
if_keeps P true p q = p
if_keeps P false p q = q

pub contains-nil : (k : String) → contains k [] ≡ true → ⊥
unfolding contains
contains-nil k h = cc

pub Moved-members :
    {m : String} {xs ys : List String}
    → Moved m xs ys
    → Distinct xs
    → Distinct ys × ((k : String) → contains k ys ≡ contains k xs)
Moved-members (same e) d = rw e (d, λ k. refl)
Moved-members {xs} (swapped i e) d = rw e (Distinct-swap_at i xs d, λ k. contains-swap_at k i xs)
Moved-members {m} {xs} (placed i has e) d = rw e (
  Distinct-insert_at i m (remove_first m xs)
      (ground (arith, contains-remove_first m m xs d, eq_iff m m)) (Distinct-remove_first m xs d),
  λ k. ground (
    arith,
    contains-insert_at k i m (remove_first m xs),
    contains-remove_first k m xs d,
    eq_iff m k,
  ),
)

pub baseline-run_move :
    (v : Move) (m : String) (c : StableCombo)
    → ((run_move v m c).0.baseline_models ≡ c.baseline_models)
      × ((run_move v m c).0.baseline_disabled ≡ c.baseline_disabled)
unfolding run_move
baseline-run_move Move.up m c = ground arith
baseline-run_move _ m c = ground arith
