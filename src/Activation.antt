-- ===== src/Activation.antt =====
-- 9router_WatchEdit/core/activation.py: `ComboActivation`, the durable activation record of one
-- combo, and `reconcile`, which compares an engine read with it. The lines that `reconcile`
-- reports are values of `Drift` without their wording.
pub mod Edits
pub mod Reconcile
pub mod Members
pub mod Record
pub mod Store
pub mod Session
pub mod Keyed
pub mod KeptKeyed
pub mod Durable
pub mod Loading
pub mod Counting
pub mod Invariant
pub mod Reopening
pub mod Overwriting
mod StoreExamples
mod Examples
use router_extra.Prelude.{
  ℕ, suc, ◌+◌, ◌-◌, ◌<◌, String, Bool, true, false, not, ◌&&◌, ◌||◌, Option, none, some, List, [],
  ◌∷◌, ◌++◌, str_eq, ltb, leb, ◌==◌, if◌then◌else◌, length, keep, contains, list_eq, set_eq, add,
  discard,
}
use router_extra.Combo.Sequence.{index, insert_at, pop_at, remove_first}

pub record ComboActivation : Type 0 where
  pub combo_id : String
  pub combo_name : String
  pub configured : List String
  pub disabled : List String  -- a set
  pub engine_baseline : List String
  pub engine_updated_at : String

unfoldable pub projection : List String → List String → List String
unfolding keep contains
projection configured disabled = keep (λ m. not (contains m disabled)) configured

unfoldable pub enabled_models : ComboActivation → List String
unfolding projection
enabled_models a = projection a.configured a.disabled

unfoldable pub has_pending_changes : ComboActivation → Bool
unfolding enabled_models list_eq
has_pending_changes a = not (list_eq (enabled_models a) a.engine_baseline)

unfoldable pub is_enabled : String → ComboActivation → Bool
unfolding contains
is_enabled m a = not (contains m a.disabled)

unfoldable pub set_enabled : String → Bool → ComboActivation → ComboActivation × Bool
unfolding contains add discard
set_enabled m enabled a = if not (contains m a.configured) then (a, false) else (
  record a { disabled = if enabled then discard m a.disabled else add m a.disabled },
  enabled && contains m a.disabled || not enabled && not (contains m a.disabled),
)

unfoldable pub set_many : List String → Bool → ComboActivation → ComboActivation × List String
unfolding set_enabled
set_many [] enabled a = (a, [])
set_many (m ∷ ms) enabled a =
    let (b, done) = set_enabled m enabled a in
    let (c, rest) = set_many ms enabled b in (c, if done then m ∷ rest else rest)

-- The state that is set is the one that the member has.
toggle_one : String → ComboActivation → ComboActivation × Bool
unfolding contains set_enabled is_enabled
toggle_one m a = if contains m a.configured then set_enabled m (is_enabled m a) a else (a, false)

unfoldable pub toggle : List String → ComboActivation → ComboActivation × List String
unfolding toggle_one
toggle [] a = (a, [])
toggle (m ∷ ms) a =
    let (b, done) = toggle_one m a in
    let (c, rest) = toggle ms b in (c, if done then m ∷ rest else rest)

unfoldable pub reorder : String → ℕ → ComboActivation → ComboActivation × Bool
unfolding contains index insert_at pop_at
reorder m new_index a =
    if not (contains m a.configured)
    then (a, false)
    else (if index m a.configured == new_index then (a, false) else (
      record a { configured = insert_at new_index m (pop_at (index m a.configured) a.configured) },
      true,
    ))

unfoldable pub move_up : String → ComboActivation → ComboActivation × Bool
unfolding reorder
move_up m a =
    if contains m a.configured && ltb 0 (index m a.configured)
    then reorder m (index m a.configured - 1) a
    else (a, false)

unfoldable pub move_down : String → ComboActivation → ComboActivation × Bool
unfolding reorder
move_down m a =
    if contains m a.configured && ltb (index m a.configured) (length a.configured - 1)
    then reorder m (index m a.configured + 1) a
    else (a, false)

unfoldable pub adopt_external : List String → ComboActivation → ComboActivation
unfolding keep contains
adopt_external server a = record a {
  configured = server;
  disabled = keep (λ m. contains m server) a.disabled;
}

pub data ReconcileStatus : Type 0 where
  new clean pending_draft missing external_reenabled external_removed external_added
        external_reordered external_replaced :
      ReconcileStatus

pub data Drift : Type 0 where
  absent unsaved reordered replaced : Drift
  reenabled missing_models added_models : List String → Drift

-- `a - b` for sets, in the order of a sequence with a's members.
unfoldable pub minus : List String → List String → List String
unfolding keep contains
minus a b = keep (λ m. not (contains m b)) a

-- The report on members that are missing or added, and what is left when none is.
unfoldable pub classify_drift : List String → List String → Bool → ReconcileStatus × List Drift
classify_drift [] [] same_set =
    if same_set then (external_reordered, reordered ∷ []) else (external_replaced, replaced ∷ [])
classify_drift [] (d ∷ ds) same_set = (external_added, added_models (d ∷ ds) ∷ [])
classify_drift (m ∷ ms) [] same_set = (external_removed, missing_models (m ∷ ms) ∷ [])
classify_drift (m ∷ ms) (d ∷ ds) same_set =
    (external_removed, missing_models (m ∷ ms) ∷ added_models (d ∷ ds) ∷ [])

unfoldable pub reconcile_lists : List String → ComboActivation → ReconcileStatus × List Drift
reconcile_lists server a =
    if list_eq server (enabled_models a)
    then (clean, [])
    else (if list_eq server a.engine_baseline
        then (pending_draft, unsaved ∷ [])
        else (if list_eq server a.configured
            then (external_reenabled, reenabled a.disabled ∷ [])
            else classify_drift (minus a.configured server) (minus server a.configured)
                (set_eq server a.configured)))

unfoldable pub reconcile :
    Option ComboActivation → Option (List String) → ReconcileStatus × List Drift
unfolding reconcile_lists
reconcile record? none = (missing, absent ∷ [])
reconcile none (some server) = (new, [])
reconcile (some a) (some server) = reconcile_lists server a

unfoldable pub is_conflict : ReconcileStatus → Bool
is_conflict missing = true
is_conflict external_reenabled = true
is_conflict external_removed = true
is_conflict external_added = true
is_conflict external_reordered = true
is_conflict external_replaced = true
is_conflict s = false
