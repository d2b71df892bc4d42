-- ===== src/FreeTail/Planning.antt =====
-- `plan_tail_sync` of 9router_WatchEdit/core/free_saifren_sync.py: which routes a plan keeps, adds and
-- removes, and where they stand.
use router_extra.Prelude.{
  String, sym, subst, ap, ◌≡◌, inl, inr, refl, Bool, true, false, not, ◌&&◌, ◌||◌, List, [], ◌∷◌,
  arith, str_eq, eq_iff, eq_refl, is_none, keep, contains, Distinct, contains-keep, contains-append,
  Bool-cases,
}
use router_extra.FreeTail.Plan.{
  pending_prune_ids, Input, target_of, first_of_each, owned_role, unmigrated_role, role_from, role,
  is_manual, is_retained, is_owned, is_dropped, base_of, manual_ids, owned_order, removed_ids,
  appended_ids, tail_ids, planned,
}

pub contains-first_of_each :
    (k : String) (seen xs : List String)
    → contains k (first_of_each seen xs) ≡ (contains k xs && not (contains k seen))
unfolding first_of_each contains
contains-first_of_each k seen [] = refl
contains-first_of_each k seen (x ∷ xs) = ground (
  arith,
  contains-first_of_each k seen xs,
  contains-first_of_each k (x ∷ seen) xs,
  eq_iff x k,
  ap (λ j. contains j seen),
)

pub first_of_each-Distinct : (seen xs : List String) → Distinct (first_of_each seen xs)
unfolding first_of_each contains
first_of_each-Distinct seen [] = tt
first_of_each-Distinct seen (x ∷ xs) = ground (
  arith,
  first_of_each-Distinct seen xs,
  first_of_each-Distinct (x ∷ seen) xs,
  contains-first_of_each x (x ∷ seen) xs,
  eq_refl x,
)

module _ (stays once : String → Bool) where
  contains-base_of_self :
      (k : String) (seen xs : List String)
      → ((taken : List String)
          → contains k (base_of stays once taken xs)
            ≡ (contains k xs && (stays k || (once k && not (contains k taken)))))
      → contains k (base_of stays once seen (k ∷ xs))
        ≡ (stays k || (once k && not (contains k seen)))
  unfolding base_of contains
  contains-base_of_self k seen xs h = ground (arith, h seen, h (k ∷ seen), eq_refl k)

  contains-base_of_other :
      (k x : String) (seen xs : List String)
      → str_eq x k ≡ false
      → ((taken : List String)
          → contains k (base_of stays once taken xs)
            ≡ (contains k xs && (stays k || (once k && not (contains k taken)))))
      → contains k (base_of stays once seen (x ∷ xs))
        ≡ (contains k xs && (stays k || (once k && not (contains k seen))))
  unfolding base_of contains
  contains-base_of_other k x seen xs e h = ground (arith, h seen, h (x ∷ seen))

  pub contains-base_of :
      (k : String) (xs seen : List String)
      → contains k (base_of stays once seen xs)
        ≡ (contains k xs && (stays k || (once k && not (contains k seen))))
  unfolding base_of contains
  contains-base_of k [] seen = refl
  contains-base_of k (x ∷ xs) seen = elim (Bool-cases (str_eq x k)) [
    | inl e ↦
        subst
          (λ j.
            contains k (base_of stays once seen (j ∷ xs))
            ≡ ((str_eq j k || contains k xs) && (stays k || (once k && not (contains k seen)))))
          (sym ((eq_iff x k).0 e))
          (ground (arith, eq_refl k, contains-base_of_self k seen xs (contains-base_of k xs)))
    | inr e ↦ ground (arith, contains-base_of_other k x seen xs e (contains-base_of k xs))
  ]

  pub keep-base_of :
      (seen xs : List String)
      → ((k : String) → once k ≡ true → stays k ≡ false)
      → keep stays (base_of stays once seen xs) ≡ keep stays xs
  unfolding base_of keep
  keep-base_of seen [] h = refl
  keep-base_of seen (x ∷ xs) h =
      ground (arith, h x, keep-base_of seen xs h, keep-base_of (x ∷ seen) xs h)

-- What each role stands for.
pub role_lem :
    (i : Input) (m : String)
    → let mapped = not (is_none (target_of m i.migrations)) in
      let held = contains m i.ledger.synced in
      let confirmed = contains m (pending_prune_ids i.ledger) in
      (is_manual (role i m) ≡ (not mapped && not held))
      × (is_owned (role i m) ≡ (not mapped && held && contains m i.wanted))
      × (is_dropped (role i m) ≡ (not mapped && held && not (contains m i.wanted) && confirmed))
      × (is_retained (role i m)
          ≡ (not mapped && held && not (contains m i.wanted) && not confirmed))
unfolding role unmigrated_role role_from owned_role is_manual is_owned is_dropped is_retained
role_lem i m = ground arith

-- The parts of a plan, by their members.
module _ (i : Input) (original : List String) (k : String) where
  pub contains-manual_ids : contains k (manual_ids i original) ≡ (
      contains k original
      && (not (contains k i.ledger.synced) && is_none (target_of k i.migrations)))
  unfolding manual_ids
  contains-manual_ids =
      contains-keep (λ m. not (contains m i.ledger.synced) && is_none (target_of m i.migrations)) k
        original

  pub contains-owned_order :
      contains k (owned_order i original) ≡ (contains k original && is_owned (role i k))
  unfolding owned_order contains
  contains-owned_order =
      let held = keep (λ m. is_owned (role i m)) original in
      ground (
        arith,
        contains-first_of_each k [] held,
        contains-keep (λ m. is_owned (role i m)) k original,
      )

  pub contains-removed_ids :
      contains k (removed_ids i original) ≡ (contains k original && is_dropped (role i k))
  unfolding removed_ids contains
  contains-removed_ids =
      let held = keep (λ m. is_dropped (role i m)) original in
      ground (
        arith,
        contains-first_of_each k [] held,
        contains-keep (λ m. is_dropped (role i m)) k original,
      )

  pub contains-appended_ids : contains k (appended_ids i original) ≡ (
      contains k i.wanted
      && not (contains k (manual_ids i original) || contains k (owned_order i original)))
  unfolding appended_ids
  contains-appended_ids =
      contains-keep
        (λ w. not (contains w (manual_ids i original) || contains w (owned_order i original))) k
        i.wanted

  -- The tail is the eligible ids that are no manual entries.
  pub contains-tail_ids :
      contains k (tail_ids i original)
      ≡ (contains k i.wanted && not (contains k (manual_ids i original)))
  unfolding tail_ids
  contains-tail_ids = ground (
    arith,
    contains-append k
        (keep (λ w. not (contains w (manual_ids i original))) (owned_order i original))
        (appended_ids i original),
    contains-keep (λ w. not (contains w (manual_ids i original))) k (owned_order i original),
    contains-owned_order,
    contains-appended_ids,
    role_lem i k,
  )

  pub contains-planned : contains k (planned i original) ≡ (
      contains k i.wanted
      || (contains k original
          && is_none (target_of k i.migrations)
          && not (contains k i.ledger.synced && contains k (pending_prune_ids i.ledger))))
  unfolding planned
  contains-planned = ground (
    arith,
    contains-append k
        (base_of (λ m. is_manual (role i m)) (λ m. is_retained (role i m)) [] original)
        (tail_ids i original),
    contains-base_of (λ m. is_manual (role i m)) (λ m. is_retained (role i m)) k original [],
    contains-tail_ids,
    contains-manual_ids,
    role_lem i k,
  )
