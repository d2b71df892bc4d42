-- ===== src/Failover/Verdicts.antt =====
-- Which members of a published combo 9router_WatchEdit/core/combo_failover.py reports as untested.
use router_extra.Prelude.{
  ℕ, suc, String, ◌≡◌, ◌≢◌, ◌↔◌, refl, ap, Bool, true, ◌&&◌, List, [], ◌∷◌, arith, eq_iff, keep,
  contains, get,
}
use router_extra.Health.{
  Availability, live, auth_rejected, access_forbidden, balance_required, rate_limited,
  connect_timeout, provider_error, route_error, model_missing, dead,
}
use router_extra.HealthCache.{HealthRecord}
use router_extra.Failover.{
  Row, availability_of, expectation_of, classify_health, is_untested, row_at, rows_from,
  ids_of_rows, report_of, failover_report,
}
use router_extra.Failover.Chain.{expects}

-- None of the ten states that the module sorts.
abbrev pub IsUnsorted : Availability → Type 0
IsUnsorted a =
    (a ≢ live)
    × (a ≢ dead)
    × (a ≢ auth_rejected)
    × (a ≢ access_forbidden)
    × (a ≢ balance_required)
    × (a ≢ model_missing)
    × (a ≢ route_error)
    × (a ≢ provider_error)
    × (a ≢ rate_limited)
    × (a ≢ connect_timeout)

is_untested_iff : (a : Availability) → (is_untested (expectation_of a) ≡ true) ↔ IsUnsorted a
unfolding is_untested expectation_of
is_untested_iff a = ground arith

contains-untested :
    (k : String) (n : ℕ) (health : List (String × HealthRecord)) (ids : List String)
    → contains k
        (ids_of_rows (keep (λ (row : Row). is_untested row.expectation) (rows_from n health ids)))
      ≡ (contains k ids && expects is_untested health k)
unfolding contains ids_of_rows keep rows_from row_at
contains-untested k n health [] = refl
contains-untested k n health (id ∷ ids) =
    ground
      (arith, contains-untested k (suc n) health ids, eq_iff id k, ap (expects is_untested health))

both_iff :
    {a b c : Bool} {P : Type 0} → a ≡ (b && c) → (c ≡ true) ↔ P → (a ≡ true) ↔ ((b ≡ true) × P)
both_iff {a} {b} {c} e (f, g) =
    (λ h. (ground arith, f (ground arith)), λ (h, p). let q = g p in ground arith)

-- The members reported as untested are those whose availability in the cache, unknown where it
-- has no record, is none of ten states. So a model that a probe found gone or invalid counts as
-- untested.
pub untested_iff :
    (members : List String) (health : List (String × HealthRecord)) (disabled : List String)
    (name k : String)
    → (contains k (failover_report members health disabled name).0.untested_ids ≡ true)
      ↔ ((contains k members ≡ true) × IsUnsorted (availability_of (get k health)))
unfolding failover_report report_of classify_health
untested_iff members health disabled name k =
    both_iff (contains-untested k 0 health members)
      (is_untested_iff (availability_of (get k health)))
