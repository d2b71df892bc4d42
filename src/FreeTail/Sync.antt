-- ===== src/FreeTail/Sync.antt =====
-- `plan_tail_sync` of 9router_WatchEdit/core/free_saifren_sync.py against what its documentation
-- promises: manual entries, the order above the tail, and the tail.
use router_extra.Prelude.{
  String, ap, ◌≡◌, ◌↔◌, ◌⊎◌, ◌∙◌, refl, true, false, not, ◌&&◌, ◌||◌, none, List, [], ◌++◌, arith,
  is_none, keep, contains, Distinct, contains-keep, keep-append, keep-agree, keep-none,
  keep-Distinct, append-Distinct,
}
use mathlib.Core.List.{append-nil}
use router_extra.FreeTail.Plan.{
  Ledger, pending_prune_ids, Input, target_of, read_input, role, is_manual, is_retained, is_owned,
  base_of, manual_ids, owned_order, appended_ids, tail_ids, planned, plan_tail_sync, original_of,
}
use mathlib.Core.List.{append-nil}
use router_extra.FreeTail.Planning.{
  contains-first_of_each, first_of_each-Distinct, contains-base_of, keep-base_of, role_lem,
  contains-removed_ids, contains-appended_ids, contains-tail_ids, contains-planned,
  contains-manual_ids,
}

-- A planned sequence holds exactly the eligible routes and those of the combo that neither migrate
-- nor are scanner-owned with a confirmed loss of their evidence.
pub plan_members :
    (combo_models : List String) (i : Input) (k : String)
    → (contains k (plan_tail_sync combo_models i).models ≡ true) ↔ (
        (contains k i.wanted ≡ true)
        ⊎ ((contains k (original_of combo_models) ≡ true)
            × (target_of k i.migrations ≡ none)
            × ((contains k i.ledger.synced ≡ false) ⊎ (contains k i.ledger.candidates ≡ false))))
unfolding plan_tail_sync pending_prune_ids
plan_members combo_models i k = ground (
  arith,
  contains-planned i (original_of combo_models) k,
  contains-keep (λ id. contains id i.ledger.synced) k i.ledger.candidates,
)

-- The routes that a plan removes are those of the combo that the scanner owns, that are no longer
-- eligible and whose loss is confirmed; none of them stays.
pub removed_iff :
    (combo_models : List String) (i : Input) (k : String)
    → let p = plan_tail_sync combo_models i in
      ((contains k p.removed ≡ true) ↔ (
        (contains k (original_of combo_models) ≡ true)
        × (target_of k i.migrations ≡ none)
        × (contains k i.ledger.synced ≡ true)
        × (contains k i.ledger.candidates ≡ true)
        × (contains k i.wanted ≡ false)))
      × (contains k p.removed ≡ true → contains k p.models ≡ false)
unfolding plan_tail_sync pending_prune_ids
removed_iff combo_models i k = ground (
  arith,
  contains-planned i (original_of combo_models) k,
  contains-removed_ids i (original_of combo_models) k,
  role_lem i k,
  contains-keep (λ id. contains id i.ledger.synced) k i.ledger.candidates,
)

module _ (i : Input) (original : List String) where
  manual_tail :
      (k : String)
      → contains k (tail_ids i original) ≡ true
      → contains k (keep (λ m. is_manual (role i m)) original) ≡ false
  manual_tail k e = ground (
    arith,
    contains-tail_ids i original k,
    contains-manual_ids i original k,
    contains-keep (λ m. is_manual (role i m)) k original,
    role_lem i k,
  )

  unfoldable pub base : List String
  base = base_of (λ m. is_manual (role i m)) (λ m. is_retained (role i m)) [] original

  pub contains-base :
      (k : String)
      → contains k base ≡ (contains k original && (is_manual (role i k) || is_retained (role i k)))
  unfolding base contains
  contains-base k = ground (
    arith,
    contains-base_of (λ m. is_manual (role i m)) (λ m. is_retained (role i m)) k original [],
  )

  keep_manual_base :
      keep (λ m. contains m (keep (λ m. is_manual (role i m)) original)) base
      ≡ keep (λ m. is_manual (role i m)) original
  unfolding base
  keep_manual_base =
      keep-agree (λ m. contains m (keep (λ m. is_manual (role i m)) original))
        (λ m. is_manual (role i m)) base
        (λ k e.
          ground (arith, contains-keep (λ m. is_manual (role i m)) k original, contains-base k))
      ∙ keep-base_of (λ m. is_manual (role i m)) (λ m. is_retained (role i m)) [] original
          (λ k e. ground (arith, role_lem i k))

  keep_manual_planned :
      keep (λ m. contains m (keep (λ m. is_manual (role i m)) original)) (planned i original)
      ≡ keep (λ m. is_manual (role i m)) original
  unfolding planned base
  keep_manual_planned =
      let manuals = keep (λ m. is_manual (role i m)) original in
      keep-append (λ m. contains m manuals) base (tail_ids i original)
      ∙ ap (λ ys. keep (λ m. contains m manuals) base ++ ys)
          (keep-none (λ m. contains m manuals) (tail_ids i original) manual_tail)
      ∙ append-nil (keep (λ m. contains m manuals) base)
      ∙ keep_manual_base

  pub tail-Distinct : Distinct i.wanted → Distinct (tail_ids i original)
  unfolding tail_ids appended_ids owned_order
  tail-Distinct h =
      let owned_part =
        keep (λ w. not (contains w (manual_ids i original))) (owned_order i original) in
      append-Distinct owned_part (appended_ids i original)
        (keep-Distinct (λ w. not (contains w (manual_ids i original))) (owned_order i original)
          (first_of_each-Distinct [] (keep (λ m. is_owned (role i m)) original)))
        (keep-Distinct
          (λ w. not (contains w (manual_ids i original) || contains w (owned_order i original)))
          i.wanted h)
        (λ k e. ground (
          arith,
          contains-keep (λ w. not (contains w (manual_ids i original))) k (owned_order i original),
          contains-appended_ids i original k,
        ))

-- The manual entries of a combo are those that neither the scanner owns nor a migration names; they
-- stand in the plan as in the combo, each as often and in the same order.
pub manual_kept :
    (combo_models : List String) (i : Input)
    → let p = plan_tail_sync combo_models i in
      (keep (λ m. contains m p.kept_manual) p.models ≡ p.kept_manual)
      × (p.kept_manual
          ≡ keep
              (λ m. is_none (target_of m i.migrations) && not (contains m i.ledger.synced))
              (original_of combo_models))
unfolding plan_tail_sync planned base
manual_kept combo_models i = (
  keep_manual_planned i (original_of combo_models),
  keep-agree (λ m. is_manual (role i m))
      (λ m. is_none (target_of m i.migrations) && not (contains m i.ledger.synced))
      (original_of combo_models) (λ k e. ground (arith, role_lem i k)),
)

-- The planned sequence is a part of the combo's own routes, followed by the tail: each eligible
-- route that is not a manual entry, once.
pub tail_at_bottom :
    (combo_models eligible : List String) (ledger : Ledger) (given : List (String × String))
    → let i = read_input eligible ledger given in
      let p = plan_tail_sync combo_models i in
      (upper : List String) × (tail : List String) × (p.models ≡ upper ++ tail)
      × Distinct tail
      × ((k : String) → contains k tail ≡ (contains k eligible && not (contains k p.kept_manual)))
      × ((k : String)
          → contains k upper ≡ true
          → (contains k (original_of combo_models) ≡ true) × (contains k tail ≡ false))
unfolding plan_tail_sync planned base read_input contains
tail_at_bottom combo_models eligible ledger given =
    let i = read_input eligible ledger given in
    let original = original_of combo_models in
    (
      base i original,
      tail_ids i original,
      refl,
      tail-Distinct i original (first_of_each-Distinct [] eligible),
      λ k. ground (
        arith,
        contains-tail_ids i original k,
        contains-manual_ids i original k,
        contains-first_of_each k [] eligible,
        contains-keep (λ m. is_manual (role i m)) k original,
        role_lem i k,
      ),
      λ k e. ground (
        arith,
        contains-base i original k,
        contains-tail_ids i original k,
        contains-manual_ids i original k,
        role_lem i k,
      ),
    )
