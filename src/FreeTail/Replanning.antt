-- ===== src/FreeTail/Replanning.antt =====
-- Planning again after a sync of 9router_WatchEdit/core/free_saifren_sync.py was carried out and recorded in
-- the ledger.
use router_extra.Prelude.{
  String, ap, ◌≡◌, refl, Bool, true, false, not, ◌&&◌, ◌||◌, none, List, [], ◌∷◌, ◌++◌, arith,
  eq_iff, eq_refl, contains, add, contains-add, Distinct, contains-keep,
}
use router_extra.FreeTail.Plan.{
  pending_prune_ids, Input, target_of, first_of_each, role, is_manual, is_retained, is_owned,
  is_dropped, base_of, removed_ids, appended_ids, tail_ids, planned, plan_tail_sync, original_of,
  apply_delta, add_all,
}
use router_extra.FreeTail.Planning.{
  role_lem, contains-removed_ids, contains-appended_ids, contains-tail_ids, contains-planned,
  contains-manual_ids, contains-owned_order,
}

-- The loop over a sequence that it made itself.
module _ (stays once : String → Bool) where
  pub base_of_twice :
      (seen xs : List String)
      → base_of stays once seen (base_of stays once seen xs) ≡ base_of stays once seen xs
  unfolding base_of
  base_of_twice seen [] = refl
  base_of_twice seen (x ∷ xs) = ground (arith, base_of_twice seen xs, base_of_twice (x ∷ seen) xs)

  base_of-none :
      (seen xs : List String)
      → ((k : String) → contains k xs ≡ true → (stays k ≡ false) × (once k ≡ false))
      → base_of stays once seen xs ≡ []
  unfolding base_of contains
  base_of-none seen [] h = refl
  base_of-none seen (x ∷ xs) h =
      ground (arith, h x, eq_refl x, base_of-none seen xs (λ k e. h k (ground arith)))

  pub base_of-append :
      (seen xs ys : List String)
      → ((k : String) → contains k ys ≡ true → (stays k ≡ false) × (once k ≡ false))
      → base_of stays once seen (xs ++ ys) ≡ base_of stays once seen xs
  unfolding base_of
  base_of-append seen [] ys h = base_of-none seen ys h
  base_of-append seen (x ∷ xs) ys h =
      ground (arith, base_of-append seen xs ys h, base_of-append (x ∷ seen) xs ys h)

  pub base_of-agree :
      (stays' once' : String → Bool) (seen xs : List String)
      → ((k : String) → contains k xs ≡ true → (stays k ≡ stays' k) × (once k ≡ once' k))
      → base_of stays once seen xs ≡ base_of stays' once' seen xs
  unfolding base_of contains
  base_of-agree stays' once' seen [] h = refl
  base_of-agree stays' once' seen (x ∷ xs) h = ground (
    arith,
    h x,
    eq_refl x,
    base_of-agree stays' once' seen xs (λ k e. h k (ground arith)),
    base_of-agree stays' once' (x ∷ seen) xs (λ k e. h k (ground arith)),
  )

pub first_of_each-simple :
    (seen xs : List String)
    → Distinct xs
    → ((k : String) → contains k xs ≡ true → contains k seen ≡ false)
    → first_of_each seen xs ≡ xs
unfolding first_of_each contains
first_of_each-simple seen [] h d = refl
first_of_each-simple seen (x ∷ xs) h d = ground (
  arith,
  d x,
  eq_refl x,
  first_of_each-simple (x ∷ seen) xs h.1
      (λ k e. ground (arith, d k, eq_iff x k, h.0, ap (λ j. contains j xs))),
)

pub contains-add_all :
    (k : String) (xs s : List String) → contains k (add_all xs s) ≡ (contains k xs || contains k s)
unfolding add_all contains
contains-add_all k [] s = refl
contains-add_all k (x ∷ xs) s = ground (arith, contains-add_all k xs (add x s), contains-add k x s)

-- The input of the next plan.
unfoldable pub recorded_input : List String → Input → Input
recorded_input combo_models i =
    let p = plan_tail_sync combo_models i in
    record i { ledger = apply_delta p.appended p.removed i.ledger }

module _ (combo_models : List String) (i : Input) (k : String) where
  pub contains-synced : contains k (recorded_input combo_models i).ledger.synced ≡ (
      (contains k (appended_ids i (original_of combo_models)) || contains k i.ledger.synced)
      && not (contains k (removed_ids i (original_of combo_models))))
  unfolding recorded_input apply_delta plan_tail_sync
  contains-synced =
      let a = appended_ids i (original_of combo_models) in
      let r = removed_ids i (original_of combo_models) in
      ground (
        arith,
        contains-keep (λ id. not (contains id r)) k (add_all a i.ledger.synced),
        contains-add_all k a i.ledger.synced,
      )

  contains-pending : contains k (pending_prune_ids (recorded_input combo_models i).ledger) ≡ (
      contains k i.ledger.candidates
      && not (contains k (removed_ids i (original_of combo_models)))
      && contains k (recorded_input combo_models i).ledger.synced)
  unfolding recorded_input apply_delta plan_tail_sync pending_prune_ids
  contains-pending =
      let r = removed_ids i (original_of combo_models) in
      let l = (recorded_input combo_models i).ledger in
      ground (
        arith,
        contains-keep (λ id. contains id l.synced) k l.candidates,
        contains-keep (λ id. not (contains id r)) k i.ledger.candidates,
      )

  -- The roles in the next plan of the routes that this plan leaves.
  pub record NextRole : Type 0 where
    pub manual_again :
        is_manual (role (recorded_input combo_models i) k)
        ≡ (contains k (original_of combo_models) && is_manual (role i k))
    pub owned_again :
        is_owned (role (recorded_input combo_models i) k)
        ≡ contains k (tail_ids i (original_of combo_models))
    pub retained_again :
        is_retained (role (recorded_input combo_models i) k)
        ≡ (contains k (original_of combo_models) && is_retained (role i k))
    pub none_dropped : is_dropped (role (recorded_input combo_models i) k) ≡ false

  pub next_role :
      (contains k i.wanted ≡ true → target_of k i.migrations ≡ none)
      → contains k (planned i (original_of combo_models)) ≡ true
      → NextRole
  unfolding recorded_input pending_prune_ids
  next_role clean e = ground (
    arith,
    role_lem i k,
    role_lem (recorded_input combo_models i) k,
    contains-synced,
    contains-pending,
    contains-appended_ids i (original_of combo_models) k,
    contains-removed_ids i (original_of combo_models) k,
    contains-manual_ids i (original_of combo_models) k,
    contains-owned_order i (original_of combo_models) k,
    contains-tail_ids i (original_of combo_models) k,
    contains-planned i (original_of combo_models) k,
    contains-keep (λ id. contains id i.ledger.synced) k i.ledger.candidates,
  )
