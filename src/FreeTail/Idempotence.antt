-- ===== src/FreeTail/Idempotence.antt =====
-- The tail sync of 9router_WatchEdit/core/free_saifren_sync.py, carried out and planned again.
use router_extra.Prelude.{String, ◌≡◌, true, false, none, List, contains, Distinct}
use router_extra.FreeTail.Plan.{
  Input, target_of, role, is_manual, is_retained, is_owned, tail_ids, original_of,
}
use router_extra.FreeTail.Sync.{base}
use router_extra.FreeTail.Replanning.{recorded_input}

module _ (combo_models : List String) (i : Input) (simple : Distinct i.wanted)
    (clean : (k : String) → contains k i.wanted ≡ true → target_of k i.migrations ≡ none) where
  upper : List String
  upper = base i (original_of combo_models)

  tail : List String
  tail = tail_ids i (original_of combo_models)

  second_input : Input
  second_input = recorded_input combo_models i

  record UpperRole (k : String) : Type 0 where
    manual_same : is_manual (role second_input k) ≡ is_manual (role i k)
    retained_same : is_retained (role second_input k) ≡ is_retained (role i k)
    not_owned : is_owned (role second_input k) ≡ false

  record TailRole (k : String) : Type 0 where
    eligible : contains k i.wanted ≡ true
    not_manual : is_manual (role second_input k) ≡ false
    not_retained : is_retained (role second_input k) ≡ false
    owned_now : is_owned (role second_input k) ≡ true
