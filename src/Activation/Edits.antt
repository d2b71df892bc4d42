-- ===== src/Activation/Edits.antt =====
-- What the edits of `ComboActivation` do, beside those of `StableCombo`.
use router_extra.Prelude.{
  ℕ, zero, suc, ◌-◌, ◌<◌, String, ◌≡◌, refl, ap, true, false, List, [], ◌∷◌, arith, eq_iff, length,
  contains, discard,
}
use router_extra.Combo.{StableCombo, move_up as combo_up, move_down as combo_down}
use router_extra.Combo.Sequence.{index, swap_at, insert_at, pop_at}
use router_extra.Activation.{ComboActivation, toggle, toggle_one, move_up, move_down}

discard-absent : (m : String) (xs : List String) → contains m xs ≡ false → discard m xs ≡ xs
unfolding discard contains
discard-absent m [] h = refl
discard-absent m (x ∷ xs) h = ground (arith, discard-absent m xs)

toggle_one-same : (m : String) (a : ComboActivation) → toggle_one m a ≡ (a, false)
unfolding toggle_one
toggle_one-same m a = ground (arith, discard-absent m a.disabled)

-- Toggling, which is documented to flip each listed member, changes nothing for any record and
-- any list of ids, and reports no id as changed.
pub toggle_changes_nothing : (ms : List String) (a : ComboActivation) → toggle ms a ≡ (a, [])
unfolding toggle
toggle_changes_nothing [] a = refl
toggle_changes_nothing (m ∷ ms) a = rw (toggle_one-same m a) (rw (toggle_changes_nothing ms a) refl)

-- Taking a member out and putting it in one place earlier is a swap with its neighbour.
insert-before :
    (m : String) (i : ℕ) (xs : List String)
    → contains m xs ≡ true
    → index m xs ≡ suc i
    → insert_at i m (pop_at (suc i) xs) ≡ swap_at i xs
unfolding contains index insert_at pop_at swap_at
insert-before m i [] h e = cc
insert-before m i (x ∷ []) h e = ground arith
insert-before m zero (x ∷ y ∷ r) h e = ground (arith, eq_iff y m)
insert-before m (suc i) (x ∷ y ∷ r) h e = ground (arith, insert-before m i (y ∷ r))

insert-after :
    (m : String) (i : ℕ) (xs : List String)
    → contains m xs ≡ true
    → index m xs ≡ i
    → suc i < length xs
    → insert_at (suc i) m (pop_at i xs) ≡ swap_at i xs
unfolding contains index insert_at pop_at swap_at
insert-after m i [] h e l = cc
insert-after m i (x ∷ []) h e l = absurd (omega arith)
insert-after m zero (x ∷ y ∷ r) h e l = ground (arith, eq_iff x m)
insert-after m (suc i) (x ∷ y ∷ r) h e l = ground (arith, insert-after m i (y ∷ r))

module _ (m : String) (a : ComboActivation) (c : StableCombo) (same : a.configured ≡ c.models) where
  -- The two models of a combo move a member alike: by one place up or down, from equal sequences
  -- to equal sequences, with equal answers.
  pub moves_agree :
      ((move_up m a).0.configured ≡ (combo_up m c).0.models)
      × ((move_up m a).1 ≡ (combo_up m c).1)
      × ((move_down m a).0.configured ≡ (combo_down m c).0.models)
      × ((move_down m a).1 ≡ (combo_down m c).1)
  unfolding move_up move_down combo_up combo_down
  moves_agree = ground (
    arith,
    insert-before m (index m c.models - 1) c.models,
    insert-after m (index m c.models) c.models,
    ap (contains m) same,
    ap (index m) same,
    ap length same,
  )
