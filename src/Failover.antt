-- ===== src/Failover.antt =====
-- 9router_WatchEdit/core/combo_failover.py: what the local health history predicts of a published combo.
-- A health record is one of the cache, whose availability is a state; its texts for display are
-- left out. The summary's parts are values without their wording.
pub mod Chain
pub mod Verdicts
mod Examples
use router_extra.Prelude.{
  ℕ, suc, String, Bool, true, false, not, ◌&&◌, ◌||◌, Option, none, some, List, [], ◌∷◌, ◌++◌,
  str_eq, ltb, ◌==◌, if◌then◌else◌, length, keep, get,
}
use router_extra.Health.{
  Availability, live, auth_rejected, access_forbidden, balance_required, rate_limited,
  connect_timeout, provider_error, route_error, model_missing, dead, unknown,
}
use router_extra.HealthCache.{HealthRecord}
use router_extra.FreeTail.Plan.{first_of_each}
use router_extra.Storage.{sort_texts}

pub data Expectation : Type 0 where
  routable unroutable temporary untested : Expectation

unfoldable pub availability_of : Option HealthRecord → Availability
availability_of none = unknown
availability_of (some record_) = record_.availability

unfoldable pub expectation_of : Availability → Expectation
expectation_of live = routable
expectation_of dead = unroutable
expectation_of auth_rejected = unroutable
expectation_of access_forbidden = unroutable
expectation_of balance_required = unroutable
expectation_of model_missing = unroutable
expectation_of route_error = unroutable
expectation_of provider_error = temporary
expectation_of rate_limited = temporary
expectation_of connect_timeout = temporary
expectation_of a = untested

unfoldable pub classify_health : Option HealthRecord → Expectation
unfolding expectation_of availability_of
classify_health health = expectation_of (availability_of health)

unfoldable pub is_routable : Expectation → Bool
is_routable routable = true
is_routable e = false

-- `row["expectation"] in ("unroutable", "temporary")`
unfoldable pub is_failing : Expectation → Bool
is_failing unroutable = true
is_failing temporary = true
is_failing e = false

unfoldable pub is_untested : Expectation → Bool
is_untested untested = true
is_untested e = false

unfoldable pub is_unroutable : Expectation → Bool
is_unroutable unroutable = true
is_unroutable e = false

pub record Row : Type 0 where
  pub position : ℕ
  pub canonical_id : String
  pub availability : Availability
  pub expectation : Expectation
  pub status_code : ℕ

unfoldable pub status_of : Option HealthRecord → ℕ
status_of none = 0
status_of (some record_) = record_.status_code

unfoldable pub row_at : ℕ → List (String × HealthRecord) → String → Row
unfolding availability_of classify_health status_of get
row_at index health id = record {
  position = suc index;
  canonical_id = id;
  availability = availability_of (get id health);
  expectation = classify_health (get id health);
  status_code = status_of (get id health);
}

unfoldable pub rows_from : ℕ → List (String × HealthRecord) → List String → List Row
unfolding row_at
rows_from index health [] = []
rows_from index health (id ∷ ids) = row_at index health id ∷ rows_from (suc index) health ids

unfoldable pub first_where {ℓ} : {A : Type ℓ} → (A → Bool) → List A → Option A
first_where test [] = none
first_where test (x ∷ xs) = let rest = first_where test xs in if test x then some x else rest

unfoldable pub id_of : Option Row → Option String
id_of none = none
id_of (some row) = some row.canonical_id

-- The first of the rows after a row.
unfoldable pub follower : List Row → Option Row → Option Row
unfolding first_where
follower rows none = none
follower rows (some row) = first_where (λ other. ltb row.position other.position) rows

unfoldable pub row_of : List Row → Option String → Option Row
unfolding first_where
row_of rows none = none
row_of rows (some id) = first_where (λ row. str_eq row.canonical_id id) rows

unfoldable pub last_fails : List Row → Bool
unfolding is_unroutable
last_fails [] = false
last_fails (row ∷ []) = is_unroutable row.expectation
last_fails (row ∷ next ∷ rows) = last_fails (next ∷ rows)

unfoldable pub ids_of_rows : List Row → List String
ids_of_rows [] = []
ids_of_rows (row ∷ rows) = row.canonical_id ∷ ids_of_rows rows

pub record Report : Type 0 where
  pub combo_name : String
  pub published_members : List String
  pub members : List Row
  pub serving : Option String
  pub serving_fallback : Option String
  pub failover_from : Option String
  pub failover_to : Option String
  pub untested_ids : List String
  pub disabled : List String
  pub no_failover_left : Bool
  pub routable_count : ℕ
  pub member_count : ℕ

pub data Part : Type 0 where
  no_published_member : Part
  published untested_members disabled_members : ℕ → Part
  serves fails_over next_member : String → Part
  falls_back : String → (routable : Bool) → Part
  no_member_left none_proven last_not_routable : Part

-- A text that is there and not empty.
unfoldable pub filled : Option String → Bool
filled none = false
filled (some id) = not (str_eq id "")

unfoldable pub part_of : (String → Part) → Option String → List Part
part_of f none = []
part_of f (some id) = if str_eq id "" then [] else f id ∷ []

unfoldable pub row_routable : Option Row → Bool
unfolding is_routable
row_routable none = true
row_routable (some row) = is_routable row.expectation

unfoldable pub counted : (ℕ → Part) → ℕ → List Part
counted f n = if n == 0 then [] else f n ∷ []

unfoldable pub chain_parts : Report → List Part
unfolding filled part_of
chain_parts r =
    if filled r.failover_from
    then part_of fails_over r.failover_from
      ++ (if filled r.failover_to then part_of next_member r.failover_to else no_member_left ∷ [])
    else (if filled r.serving then [] else none_proven ∷ [])

unfoldable pub summarize : Report → List Part
unfolding part_of row_of row_routable chain_parts counted
summarize r =
    if r.member_count == 0
    then no_published_member ∷ []
    else published r.member_count ∷ part_of serves r.serving
      ++ part_of (λ id. falls_back id (row_routable (row_of r.members (some id))))
          r.serving_fallback
      ++ chain_parts r
      ++ (if r.no_failover_left then last_not_routable ∷ [] else [])
      ++ counted untested_members (length r.untested_ids)
      ++ counted disabled_members (length r.disabled)

unfoldable pub report_of : List String → List Row → List String → String → Report
unfolding first_where id_of follower row_of ids_of_rows keep first_of_each sort_texts last_fails
    is_routable is_failing is_untested
report_of members rows disabled combo_name =
    let serving = id_of (first_where (λ row. is_routable row.expectation) rows) in
    let failing = first_where (λ row. is_failing row.expectation) rows in
    record {
      combo_name = combo_name;
      published_members = members;
      members = rows;
      serving = serving;
      serving_fallback = id_of (follower rows (row_of rows serving));
      failover_from = id_of failing;
      failover_to = id_of (follower rows failing);
      untested_ids = ids_of_rows (keep (λ row. is_untested row.expectation) rows);
      disabled = sort_texts (first_of_each [] disabled);
      no_failover_left = last_fails rows;
      routable_count = length (keep (λ row. is_routable row.expectation) rows);
      member_count = length rows;
    }

-- The report and its summary.
unfoldable pub failover_report :
    List String → List (String × HealthRecord) → List String → String → Report × List Part
unfolding report_of rows_from summarize
failover_report members health disabled combo_name =
    let r = report_of members (rows_from 0 health members) disabled combo_name in (r, summarize r)
