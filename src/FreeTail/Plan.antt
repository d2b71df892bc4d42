-- ===== src/FreeTail/Plan.antt =====
-- 9router_WatchEdit/core/free_saifren_sync.py, `plan_tail_sync`, and what the registry of
-- 9router_WatchEdit/core/free_provider_registry.py records of a finished sync. The registry is that of
-- one combo: the ids that it owns there and its candidates for removal. The excluded rows, which
-- are only displayed, are left out.
use router_extra.Prelude.{
  ℕ, suc, String, Bool, true, false, not, ◌&&◌, ◌||◌, Option, none, some, List, [], ◌∷◌, ◌++◌,
  str_eq, ◌==◌, if◌then◌else◌, keep, contains, is_none, list_eq, add,
}

-- `synced_ids` of the combo and the ids of `prune_candidates`.
pub record Ledger : Type 0 where
  pub synced : List String
  pub candidates : List String

-- `pending_prune_ids` of the combo.
unfoldable pub pending_prune_ids : Ledger → List String
unfolding keep contains
pending_prune_ids l = keep (λ id. contains id l.synced) l.candidates

pub record TailSyncPlan : Type 0 where
  pub appended : List String
  pub moved_to_tail : List String
  pub removed : List String
  pub migrated_direct : List (String × String)
  pub kept_manual : List String
  pub unchanged : Bool
  pub models : List String

-- What the planner reads: the eligible ids without repetition, the ledger and the migrations.
pub record Input : Type 0 where
  pub wanted : List String
  pub ledger : Ledger
  pub migrations : List (String × String)

unfoldable pub target_of : String → List (String × String) → Option String
target_of m [] = none
target_of m ((source, target) ∷ rest) =
    let later = target_of m rest in if str_eq source m then some target else later

-- `if canonical_id not in wanted: wanted.append(canonical_id)`
unfoldable pub first_of_each : List String → List String → List String
unfolding contains
first_of_each seen [] = []
first_of_each seen (x ∷ xs) =
    let skip = first_of_each seen xs in
    let take_it = first_of_each (x ∷ seen) xs in if contains x seen then skip else x ∷ take_it

-- The migrations that count: both ids are there and the target is wanted.
unfoldable pub usable : List String → List (String × String) → List (String × String)
unfolding keep contains
usable wanted given =
    keep (λ (e : String × String). not (str_eq e.0 "") && contains e.1 wanted) given

unfoldable pub read_input : List String → Ledger → List (String × String) → Input
unfolding first_of_each usable
read_input eligible ledger given =
    let wanted = first_of_each [] eligible in
    record { wanted = wanted; ledger = ledger; migrations = usable wanted given }

-- The branches of the loop over the combo's models.
pub data Role : Type 0 where
  migrated : String → Role
  dropped owned manual retained : Role

unfoldable pub owned_role : Bool → Bool → Role
owned_role true confirmed = owned
owned_role false true = dropped
owned_role false false = retained

unfoldable pub unmigrated_role : Input → String → Role
unfolding owned_role contains pending_prune_ids
unmigrated_role i m =
    if contains m i.ledger.synced
    then owned_role (contains m i.wanted) (contains m (pending_prune_ids i.ledger))
    else manual

unfoldable pub role_from : Option String → Role → Role
role_from none other = other
role_from (some target) other = migrated target

unfoldable pub role : Input → String → Role
unfolding unmigrated_role role_from target_of
role i m = role_from (target_of m i.migrations) (unmigrated_role i m)

unfoldable pub is_manual : Role → Bool
is_manual manual = true
is_manual r = false

unfoldable pub is_retained : Role → Bool
is_retained retained = true
is_retained r = false

unfoldable pub is_owned : Role → Bool
is_owned owned = true
is_owned r = false

unfoldable pub is_dropped : Role → Bool
is_dropped dropped = true
is_dropped r = false

-- Manual entries stay with their repetitions, retained ones once.
unfoldable pub base_of : (String → Bool) → (String → Bool) → List String → List String → List String
unfolding contains
base_of stays once seen [] = []
base_of stays once seen (m ∷ ms) =
    let rest = base_of stays once seen ms in
    let rest_seen = base_of stays once (m ∷ seen) ms in
    if stays m then m ∷ rest else (if once m && not (contains m seen) then m ∷ rest_seen else rest)

migrations_in : Input → List String → List (String × String)
unfolding role
migrations_in i [] = []
migrations_in i (m ∷ ms) =
    let rest = migrations_in i ms in
    elim (role i m) [ migrated target ↦ (m, target) ∷ rest | r ↦ rest ]

-- The first and the last position of a text.
first_at : String → ℕ → List String → ℕ
first_at m n [] = n
first_at m n (x ∷ xs) = let later = first_at m (suc n) xs in if str_eq x m then n else later

last_at : String → ℕ → ℕ → List String → ℕ
last_at m n found [] = found
last_at m n found (x ∷ xs) = last_at m (suc n) (if str_eq x m then n else found) xs

module _ (i : Input) (original : List String) where
  unfoldable pub manual_ids : List String
  unfolding keep contains target_of
  manual_ids =
      keep (λ m. not (contains m i.ledger.synced) && is_none (target_of m i.migrations)) original

  unfoldable pub owned_order : List String
  unfolding keep role is_owned first_of_each
  owned_order = first_of_each [] (keep (λ m. is_owned (role i m)) original)

  unfoldable pub removed_ids : List String
  unfolding keep role is_dropped first_of_each
  removed_ids = first_of_each [] (keep (λ m. is_dropped (role i m)) original)

  unfoldable pub appended_ids : List String
  unfolding keep contains manual_ids owned_order
  appended_ids = keep (λ w. not (contains w manual_ids || contains w owned_order)) i.wanted

  unfoldable pub tail_ids : List String
  unfolding keep contains manual_ids owned_order appended_ids
  tail_ids = keep (λ w. not (contains w manual_ids)) owned_order ++ appended_ids

  unfoldable pub planned : List String
  unfolding base_of tail_ids role is_manual is_retained
  planned =
      base_of (λ m. is_manual (role i m)) (λ m. is_retained (role i m)) [] original ++ tail_ids

  moved_ids : List String
  unfolding keep contains planned owned_order tail_ids first_at last_at
  moved_ids =
      keep (λ w. contains w owned_order && not (last_at w 0 0 planned == first_at w 0 original))
        tail_ids

-- `original`: the combo's models without empty texts.
unfoldable pub original_of : List String → List String
unfolding keep
original_of combo_models = keep (λ m. not (str_eq m "")) combo_models

unfoldable pub plan_tail_sync : List String → Input → TailSyncPlan
unfolding original_of keep planned moved_ids appended_ids removed_ids migrations_in role is_manual
    list_eq
plan_tail_sync combo_models i =
    let original = original_of combo_models in
    record {
      appended = appended_ids i original;
      moved_to_tail = moved_ids i original;
      removed = removed_ids i original;
      migrated_direct = migrations_in i original;
      kept_manual = keep (λ m. is_manual (role i m)) original;
      unchanged = list_eq (planned i original) original;
      models = planned i original;
    }

-- `_apply_tail_sync_intent` for the combo's ids.
unfoldable pub add_all : List String → List String → List String
unfolding add
add_all [] s = s
add_all (x ∷ xs) s = add_all xs (add x s)

unfoldable pub apply_delta : List String → List String → Ledger → Ledger
unfolding keep contains add_all
apply_delta appended removed l = record {
  synced = keep (λ id. not (contains id removed)) (add_all appended l.synced);
  candidates = keep (λ id. not (contains id removed)) l.candidates;
}
