-- ===== src/Activation/Counting.antt =====
-- The counts and the row states of a `ComboActivation`.
use router_extra.Prelude.{
  ◌+◌, ◌≤◌, String, ◌≡◌, ◌↔◌, Bool, true, false, not, ◌&&◌, Option, none, some, List, [], ◌∷◌,
  arith, length, keep, contains, contains-keep,
}
use router_extra.Activation.{ComboActivation, enabled_models, projection, is_enabled}
use router_extra.Activation.Members.{
  disabled_models, counts, count_routable, classify_row, configured_disabled, configured_enabled,
}

keep-length : (test : String → Bool) (xs : List String) → length (keep test xs) ≤ length xs
unfolding keep
keep-length test [] = omega arith
keep-length test (x ∷ xs) = ground (arith, keep-length test xs)

keep-split :
    (test : String → Bool) (xs : List String)
    → length (keep (λ m. not (test m)) xs) + length (keep test xs) ≡ length xs
unfolding keep
keep-split test [] = omega arith
keep-split test (x ∷ xs) = ground (arith, keep-split test xs)

count_routable-le :
    (ids : Option (List String)) (xs : List String) → count_routable ids xs ≤ length xs
unfolding count_routable
count_routable-le none xs = omega arith
count_routable-le (some ids) xs = keep-length (λ m. contains m ids) xs

-- The counts agree: the enabled and the disabled models are the configured ones, the disabled
-- count is the length of the list of disabled models, and no more are routable than enabled.
pub counts_agree :
    (ids : Option (List String)) (a : ComboActivation)
    → let n = counts ids a in
      (n.enabled + n.disabled ≡ n.configured)
      × (n.disabled ≡ length (disabled_models a))
      × (n.routable ≤ n.enabled)
unfolding counts disabled_models enabled_models projection
counts_agree ids a = ground (
  arith,
  keep-split (λ m. contains m a.disabled) a.configured,
  count_routable-le ids (keep (λ m. not (contains m a.disabled)) a.configured),
)

-- A configured model's row is shown as disabled exactly if the model is not published, and as
-- enabled exactly if it is published, tested, not blocked and has no change pending.
pub classify_row_iff :
    (m : String) (a : ComboActivation) (blocked tested pending : Bool)
    → contains m a.configured ≡ true
    → ((classify_row m a blocked tested pending ≡ configured_disabled)
        ↔ (contains m (enabled_models a) ≡ false))
      × ((classify_row m a blocked tested pending ≡ configured_enabled)
          ↔ ((contains m (enabled_models a) && tested && not blocked && not pending) ≡ true))
unfolding classify_row is_enabled enabled_models projection
classify_row_iff m a blocked tested pending h =
    ground (arith, contains-keep (λ k. not (contains k a.disabled)) m a.configured)
