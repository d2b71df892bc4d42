-- ===== src/FreeTail/Examples.antt =====
-- Rows and routes at concrete values, and the theorems at such values.
use router_extra.Prelude.{
  String, List, not, ◌&&◌, ◌++◌, contains, keep, is_none, Distinct, ◌≡◌, ◌≢◌, refl, true, false,
  none, some, [], ◌∷◌,
}
use router_extra.FreeTail.{is_price_key, strict_free, Row, at_least, classify_free_evidence}
use router_extra.FreeTail.Plan.{
  Ledger, Input, plan_tail_sync, read_input, original_of, planned, target_of, usable, first_of_each,
  appended_ids, owned_order, manual_ids, tail_ids, base_of, role, unmigrated_role, owned_role,
  role_from, is_manual, is_owned, is_retained, pending_prune_ids,
}
use router_extra.FreeTail.Sync.{manual_kept, tail_at_bottom}
use router_extra.FreeTail.Staging.{
  Intent, World, SyncRun, rest, step, stages, writes, IsConsistent, recovery_required,
  reconcile_pending_tail_sync, stage_tail_sync_intent, stage_over,
}
use router_extra.FreeTail.Recovery.{sync_recovers}

abbrev zero_priced : Row
zero_priced = record {
  withdrawn = false;
  model_id = "oc/muse:free";
  is_free = none;
  is_partner = false;
  billed = false;
  promo_words = false;
  pricing = ("prompt", some (at_least 0)) ∷ ("note", some (at_least 7)) ∷ [];
  client_bound = false;
}

zero_priced_strict : (classify_free_evidence zero_priced).0 ≡ strict_free
unfolding classify_free_evidence is_price_key
zero_priced_strict = refl

-- A combo with a manual route, a scanner-owned one that is confirmed as lost, and one that is
-- still eligible; and a newly eligible route.
abbrev tail_combo : List String
tail_combo = "oc/lost" ∷ "oc/kept" ∷ "wb/hy3" ∷ "wb/hy3" ∷ []

abbrev tail_ledger : Ledger
tail_ledger = record { synced = "oc/lost" ∷ "oc/kept" ∷ []; candidates = "oc/lost" ∷ [] }

abbrev tail_wanted : List String
tail_wanted = "oc/kept" ∷ "or/new" ∷ "oc/kept" ∷ []

abbrev tail_input : Input
tail_input = read_input tail_wanted tail_ledger []

planned_test :
    (plan_tail_sync tail_combo tail_input).models ≡ "wb/hy3" ∷ "wb/hy3" ∷ "oc/kept" ∷ "or/new" ∷ []
unfolding plan_tail_sync planned original_of read_input usable first_of_each tail_ids appended_ids
    owned_order manual_ids base_of role unmigrated_role owned_role role_from is_manual is_owned
    is_retained pending_prune_ids contains keep target_of
planned_test = refl

manual_kept_example :
    let p = plan_tail_sync tail_combo tail_input in
    (keep (λ m. contains m p.kept_manual) p.models ≡ p.kept_manual)
    × (p.kept_manual
        ≡ keep
            (λ m.
              is_none (target_of m tail_input.migrations)
              && not (contains m tail_input.ledger.synced))
            (original_of tail_combo))
manual_kept_example = manual_kept tail_combo tail_input

tail_at_bottom_example :
    let p = plan_tail_sync tail_combo tail_input in
    (upper : List String) × (tail : List String) × (p.models ≡ upper ++ tail)
    × Distinct tail
    × ((k : String) → contains k tail ≡ (contains k tail_wanted && not (contains k p.kept_manual)))
    × ((k : String)
        → contains k upper ≡ true
        → (contains k (original_of tail_combo) ≡ true) × (contains k tail ≡ false))
tail_at_bottom_example = tail_at_bottom tail_combo tail_wanted tail_ledger []

-- A sync that stops after the engine took the new sequence.
abbrev tail_intent : Intent
tail_intent = record {
  old_models = tail_combo;
  new_models = "wb/hy3" ∷ "wb/hy3" ∷ "oc/kept" ∷ "or/new" ∷ [];
  appended = "or/new" ∷ [];
  removed = "oc/lost" ∷ [];
}

abbrev settled : World
settled = record {
  engine = tail_combo;
  registry = record { ledger = tail_ledger; pending_tail_sync = none };
}

abbrev stopped : World
stopped = record {
  engine = tail_intent.new_models;
  registry = record { ledger = tail_ledger; pending_tail_sync = some tail_intent };
}

stopped-SyncRun : SyncRun settled stopped
unfolding stage_tail_sync_intent stage_over
stopped-SyncRun =
    step (step rest (stages true tail_intent settled refl))
      (writes tail_intent (record stopped { engine = tail_combo }) refl)

sync_recovers_example :
    let (r, outcome) = reconcile_pending_tail_sync true stopped.engine stopped.registry in
    IsConsistent settled stopped × (r.pending_tail_sync ≡ none) × (outcome ≢ recovery_required)
sync_recovers_example = sync_recovers refl stopped-SyncRun
