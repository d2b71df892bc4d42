-- ===== src/Activation/Reconcile.antt =====
-- What `reconcile` reports.
use router_extra.Prelude.{
  list_eq_iff, String, ◌≡◌, ◌≢◌, ◌↔◌, refl, ap, Bool, true, false, not, ◌&&◌, some, List, [], ◌∷◌,
  arith, eq_iff, all_of, contains, list_eq, set_eq, contains-keep,
}
use router_extra.Activation.{
  ComboActivation, is_enabled, enabled_models, external_removed, external_replaced, minus,
  classify_drift, reconcile_lists, reconcile, is_conflict,
}

-- Where no member of a is missing from b, each member of a is one of b.
minus_empty : (xs b : List String) → minus xs b ≡ [] → all_of (λ m. contains m b) xs ≡ true
unfolding minus all_of
minus_empty [] b h = refl
minus_empty (x ∷ xs) b h = ground (arith, minus_empty xs b)

classify_drift-is_conflict :
    (ms ds : List String) (b : Bool) → is_conflict (classify_drift ms ds b).0 ≡ true
unfolding classify_drift is_conflict
classify_drift-is_conflict [] [] true = refl
classify_drift-is_conflict [] [] false = refl
classify_drift-is_conflict [] (d ∷ ds) b = refl
classify_drift-is_conflict (m ∷ ms) [] b = refl
classify_drift-is_conflict (m ∷ ms) (d ∷ ds) b = refl

drift_test :
    (server : List String) (a : ComboActivation)
    → is_conflict (reconcile_lists server a).0
      ≡ (not (list_eq server (enabled_models a)) && not (list_eq server a.engine_baseline))
unfolding reconcile_lists is_conflict
drift_test server a = ground (
  arith,
  classify_drift-is_conflict (minus a.configured server) (minus server a.configured)
      (set_eq server a.configured),
)

-- An engine list for a known combo is reported as drift that needs the operator exactly when it is
-- neither what the record publishes nor the last verified list: no other shortened, extended or
-- reordered list passes as clean or as a local draft.
pub conflict_iff_drift :
    (server : List String) (a : ComboActivation)
    → (is_conflict (reconcile (some a) (some server)).0 ≡ true)
      ↔ ((server ≢ enabled_models a) × (server ≢ a.engine_baseline))
unfolding reconcile
conflict_iff_drift server a = ground (
  arith,
  drift_test server a,
  list_eq_iff server (enabled_models a),
  list_eq_iff server a.engine_baseline,
)

contains-nil : (m : String) → contains m [] ≡ false
unfolding contains
contains-nil m = refl

-- A configured member that the server lacks shows in the report.
minus-nonempty :
    (m : String) (xs b : List String)
    → contains m xs ≡ true
    → contains m b ≡ false
    → minus xs b ≢ []
unfolding minus
minus-nonempty m xs b h n e =
    ground (arith, contains-keep (λ k. not (contains k b)) m xs, ap (contains m) e, contains-nil m)

removed-drift :
    (ms ds : List String) (b : Bool) → ms ≢ [] → (classify_drift ms ds b).0 ≡ external_removed
unfolding classify_drift
removed-drift [] ds b n = absurd (n refl)
removed-drift (m ∷ ms) [] b n = refl
removed-drift (m ∷ ms) (d ∷ ds) b n = refl

all_of-at :
    (xs ys : List String) (m : String)
    → all_of (λ x. contains x ys) xs ≡ true
    → contains m xs ≡ true
    → contains m ys ≡ true
unfolding all_of contains
all_of-at [] ys m h c = cc
all_of-at (x ∷ xs) ys m h c =
    ground
      (arith, all_of-at xs ys m, eq_iff x m, ap (λ (k : String). contains k ys) {x = x} {y = m})

unpublished :
    (m : String) (server : List String) (a : ComboActivation)
    → set_eq server (enabled_models a) ≡ true
    → is_enabled m a ≡ false
    → contains m server ≡ false
unfolding set_eq enabled_models is_enabled
unpublished m server a same off = ground (
  arith,
  all_of-at server (enabled_models a) m,
  contains-keep (λ k. not (contains k a.disabled)) m a.configured,
)

-- If a configured member is disabled, an engine that lists just the published members in an order
-- of its own is reported to have removed models, though it lacks only what was never published:
-- the status of a reordered list is not reached.
pub reordered_as_removed :
    (m : String) (server : List String) (a : ComboActivation)
    → contains m a.configured ≡ true
    → is_enabled m a ≡ false
    → set_eq server (enabled_models a) ≡ true
    → server ≢ enabled_models a
    → server ≢ a.engine_baseline
    → (reconcile (some a) (some server)).0 ≡ external_removed
unfolding reconcile reconcile_lists
reordered_as_removed m server a has off same n k =
    let gone = unpublished m server a same off in
    ground (
      arith,
      list_eq_iff server (enabled_models a),
      list_eq_iff server a.engine_baseline,
      list_eq_iff server a.configured,
      ap (contains m) {x = server} {y = a.configured},
      removed-drift (minus a.configured server) (minus server a.configured)
          (set_eq server a.configured) (minus-nonempty m a.configured server has gone),
    )

-- The status that a list replaced with the same members would have is never reported: lists with
-- the same members are reported as reordered.
pub never_replaced :
    (server : List String) (a : ComboActivation) → (reconcile_lists server a).0 ≢ external_replaced
unfolding reconcile_lists set_eq classify_drift
never_replaced server a =
    ground (arith, minus_empty a.configured server, minus_empty server a.configured)
