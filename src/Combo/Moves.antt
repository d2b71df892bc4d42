-- ===== src/Combo/Moves.antt =====
-- Where the moves of `StableCombo` put a member, and the invariant of a combo's local edits.
pub mod Invariant
use mathlib.Core.List.{Perm}
use mathlib.Core.List.Perm
use router_extra.Prelude.{
  ℕ, zero, suc, ◌+◌, ◌-◌, ◌≤◌, ◌<◌, String, ◌≡◌, refl, sym, ap, subst, Bool, true, false, not, ◌&&◌,
  ◌||◌, Option, none, some, List, [], ◌∷◌, ◌++◌, ◌==◌, ltb, arith, str_eq, eq_iff, eq_refl,
  if◌then◌else◌, length, contains, Bool-cases, inl, inr,
}
use router_extra.Combo.{
  StableCombo, move_up, move_down, move_to_top, move_to_bottom, reorder_model, at_place, add_model,
  remove_model,
}
use router_extra.Combo.Sequence.{index, swap_at, insert_at, pop_at, remove_first}
use router_extra.Combo.Order.{
  get_elem?, index-lt-length, pop_at-index, length-remove_first, insert_at-index, insert_at-length,
  get_elem?-insert_at, remove_first-insert_at, swap_at-swap_at, length-swap_at, contains-swap_at,
  index-swap_at, swap_at-perm, insert_at-perm,
}

pub data Move : Type 0 where
  up down top bottom : Move
  reorder : ℕ → Move

unfoldable pub run_move : Move → String → StableCombo → StableCombo × Bool
unfolding move_up move_down move_to_top move_to_bottom reorder_model
run_move up m c = move_up m c
run_move down m c = move_down m c
run_move top m c = move_to_top m c
run_move bottom m c = move_to_bottom m c
run_move (reorder n) m c = reorder_model m n c

module _ (m : String) (c : StableCombo) (has : contains m c.models ≡ true) where
  -- A configured member that is moved to the top stands before the others, which keep their order.
  pub move_to_top_lem : (move_to_top m c).0.models ≡ m ∷ remove_first m c.models
  unfolding move_to_top
  move_to_top_lem = ground (arith, pop_at-index m c.models, insert_at-index m c.models has)

  -- A configured member that is moved to the bottom stands behind the others, which keep their
  -- order.
  pub move_to_bottom_lem : (move_to_bottom m c).0.models ≡ remove_first m c.models ++ m ∷ []
  unfolding move_to_bottom
  move_to_bottom_lem = ground (
    arith,
    pop_at-index m c.models,
    insert_at-index m c.models has,
    length-remove_first m c.models has,
    insert_at-length m (remove_first m c.models),
  )

  reorder_model-models :
      (n : ℕ) → (reorder_model m n c).0.models ≡ insert_at n m (remove_first m c.models)
  unfolding reorder_model
  reorder_model-models n = ground (arith, pop_at-index m c.models, insert_at-index m c.models has)

  -- A configured member that is reordered to a place within the combo stands at that place, and
  -- the others keep their order around it.
  pub reorder_model_lem :
      (n : ℕ)
      → n < length c.models
      → let models = (reorder_model m n c).0.models in
        (get_elem? models n ≡ some m) × (models ≡ insert_at n m (remove_first m c.models))
  reorder_model_lem n h =
      let e = reorder_model-models n in
      (
        rw e (
            get_elem?-insert_at n m (remove_first m c.models)
              (omega (arith, length-remove_first m c.models has))),
        e,
      )

  -- Moving a member up that is not the first moves it one place up, and moving it down again
  -- restores the sequence.
  pub move_down-move_up :
      0 < index m c.models
      → (suc (index m (move_up m c).0.models) ≡ index m c.models)
        × ((move_down m (move_up m c).0).0.models ≡ c.models)
  unfolding move_up move_down
  move_down-move_up h =
      let i = index m c.models - 1 in
      ground (
        arith,
        index-swap_at m i c.models has,
        contains-swap_at m i c.models,
        length-swap_at i c.models,
        swap_at-swap_at i c.models,
        index-lt-length m c.models has,
      )

insert-remove-perm :
    (n : ℕ) (m : String) (xs : List String)
    → contains m xs ≡ true
    → Perm (insert_at n m (remove_first m xs)) xs
insert-remove-perm n m xs h = Perm.trans (insert_at-perm n m (remove_first m xs)) (
    Perm.symm (
      subst (λ ys. Perm ys (m ∷ remove_first m xs)) (insert_at-index m xs h)
        (insert_at-perm (index m xs) m (remove_first m xs))))

-- What a move does to the members: it swaps two neighbours, takes m out and puts it in, or
-- nothing.
pub data Moved (m : String) (xs ys : List String) : Type 0 where
  same : ys ≡ xs → Moved m xs ys
  swapped : (i : ℕ) → ys ≡ swap_at i xs → Moved m xs ys
  placed : (i : ℕ) → contains m xs ≡ true → ys ≡ insert_at i m (remove_first m xs) → Moved m xs ys

module _ (m : String) (c : StableCombo) (has : contains m c.models ≡ true) where
  move_up-Moved : Moved m c.models (move_up m c).0.models
  unfolding move_up
  move_up-Moved = elim (Bool-cases (ltb 0 (index m c.models))) [
    | inl e ↦ swapped (index m c.models - 1) (ground arith)
    | inr e ↦ same (ground arith)
  ]

  move_down-Moved : Moved m c.models (move_down m c).0.models
  unfolding move_down
  move_down-Moved = elim (Bool-cases (ltb (index m c.models) (length c.models - 1))) [
    | inl e ↦ swapped (index m c.models) (ground arith)
    | inr e ↦ same (ground arith)
  ]

  move_to_bottom-Moved : Moved m c.models (move_to_bottom m c).0.models
  unfolding move_to_bottom
  move_to_bottom-Moved = elim (Bool-cases (index m c.models == length c.models - 1)) [
    | inl e ↦ same (ground arith)
    | inr e ↦ placed (length c.models - 1) has (ground (arith, pop_at-index m c.models))
  ]

  configured-Moved : (v : Move) → Moved m c.models (run_move v m c).0.models
  unfolding run_move insert_at
  configured-Moved up = move_up-Moved
  configured-Moved down = move_down-Moved
  configured-Moved top = placed 0 has move_to_top_lem'
    where
      move_to_top_lem' : (move_to_top m c).0.models ≡ m ∷ remove_first m c.models
      move_to_top_lem' = move_to_top_lem m c has
  configured-Moved bottom = move_to_bottom-Moved
  configured-Moved (reorder n) = placed n has (reorder_model-models m c has n)

-- A move of an id that the combo does not configure changes nothing.
run_move-unknown :
    (v : Move) (m : String) (c : StableCombo)
    → contains m c.models ≡ false
    → run_move v m c ≡ (c, false)
unfolding run_move
run_move-unknown up m c h = ground arith
run_move-unknown _ m c h = ground arith

pub run_move-Moved :
    (v : Move) (m : String) (c : StableCombo) → Moved m c.models (run_move v m c).0.models
run_move-Moved v m c = elim (Bool-cases (contains m c.models)) [
  | inl e ↦ configured-Moved m c e v
  | inr e ↦ same (ap (λ (r : StableCombo × Bool). r.0.models) (run_move-unknown v m c e))
]

Moved-perm : {m : String} {xs ys : List String} → Moved m xs ys → Perm ys xs
Moved-perm {xs} (same e) = rw e (Perm.refl xs)
Moved-perm {xs} (swapped i e) = rw e (swap_at-perm i xs)
Moved-perm {m} {xs} (placed i h e) = rw e (insert-remove-perm i m xs h)

-- Whatever the move and the id, the members stay the same ones, as often each.
pub run_move-perm :
    (v : Move) (m : String) (c : StableCombo) → Perm (run_move v m c).0.models c.models
run_move-perm v m c = Moved-perm (run_move-Moved v m c)

pub disabled-run_move :
    (v : Move) (m : String) (c : StableCombo) → (run_move v m c).0.disabled ≡ c.disabled
unfolding run_move
disabled-run_move up m c = ground arith
disabled-run_move _ m c = ground arith
