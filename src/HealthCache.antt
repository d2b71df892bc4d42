-- ===== src/HealthCache.antt =====
-- 9router_WatchEdit/core/history.py: `HealthCache` and its records. The cache's dictionary is a
-- list of pairs in insertion order. Latencies are whole milliseconds and times whole seconds, and no
-- stamp lies in the future.
pub mod Recording
pub mod Policy
pub mod Deletion
pub mod Retention
pub mod Pruning
pub mod Saving
pub mod Growth
pub mod Locking
pub mod Durability
mod Examples
use router_extra.Prelude.{
  get, put, ℕ, zero, suc, ◌+◌, ◌-◌, ◌≤◌, String, Bool, true, false, not, ◌&&◌, ◌||◌, Option, none,
  some, List, [], ◌∷◌, ◌++◌, str_eq, ltb, leb, ◌==◌, is_none, if◌then◌else◌, length, keep, contains,
}
use router_extra.Health.{
  Availability, Availability-discrete, live, balance_required, rate_limited, dead, Cost, free, paid,
  Confidence, Counters, Evidence,
}

-- The change against the scan before.
pub data Delta : Type 0 where
  no_delta recovered balance_exhausted throttled marked_dead : Delta
  lost now : Availability → Delta
  slower : ℕ → Delta

-- A stored stamp: empty, a text that is no date, or a time.
pub data Stamp : Type 0 where
  no_stamp bad_stamp : Stamp
  at : ℕ → Stamp

-- `ModelHealthRecord`, without its texts.
pub record HealthRecord : Type 0 where
  pub availability : Availability
  pub cost : Cost
  pub confidence : Confidence
  pub cost_override : Option Cost
  pub latency_ms : ℕ
  pub status_code : ℕ
  pub last_tested_at : Stamp
  pub last_success_at : Stamp
  pub success_streak : ℕ
  pub counters : Counters
  pub previous_availability : Option Availability
  pub delta : Delta

pub record HealthCache : Type 0 where
  pub records : List (String × HealthRecord)
  pub record_generation : ℕ
  pub durable_generation : ℕ

unfoldable pub is : Availability → Availability → Bool
is a b = elim (Availability-discrete a b) [ yes e ↦ true | no e ↦ false ]

-- The change where the availability is another than before.
unfoldable pub changed_delta : Availability → Availability → Delta
changed_delta prev live = recovered
changed_delta live a = lost a
changed_delta prev balance_required = balance_exhausted
changed_delta prev rate_limited = throttled
changed_delta prev dead = marked_dead
changed_delta prev a = now a

-- A live answer that is more than 1500 ms slower than the last.
unfoldable pub latency_delta : ℕ → ℕ → Delta
latency_delta old new =
    if ltb 0 old && ltb 0 new && ltb 1500 (new - old) then slower (new - old) else no_delta

unfoldable pub delta_of : Option HealthRecord → Availability → ℕ → Delta
unfolding is changed_delta latency_delta
delta_of none a latency = no_delta
delta_of (some old) a latency =
    if is old.availability a
    then latency_delta old.latency_ms latency
    else changed_delta old.availability a

unfoldable pub is_live : Availability → Bool
is_live live = true
is_live a = false

-- What the new record takes over from the existing one.
abbrev pub streak_of : Option HealthRecord → ℕ
streak_of none = 0
streak_of (some old) = old.success_streak

abbrev pub success_of : Option HealthRecord → Stamp
success_of none = no_stamp
success_of (some old) = old.last_success_at

abbrev pub override_of : Option HealthRecord → Option Cost
override_of none = none
override_of (some old) = old.cost_override

abbrev pub availability_of : Option HealthRecord → Option Availability
availability_of none = none
availability_of (some old) = some old.availability

unfoldable pub next_record : Evidence → ℕ → ℕ → Option HealthRecord → HealthRecord
unfolding is_live delta_of
next_record e latency now_at existing = record {
  availability = e.availability;
  cost = e.cost;
  confidence = e.confidence;
  cost_override = override_of existing;
  latency_ms = latency;
  status_code = e.status_code;
  last_tested_at = at now_at;
  last_success_at = if is_live e.availability then at now_at else success_of existing;
  success_streak = if is_live e.availability then streak_of existing + 1 else 0;
  counters = e.counters;
  previous_availability = availability_of existing;
  delta = delta_of existing e.availability latency;
}

-- Without the save that `auto_save` asks for.
unfoldable pub record_evidence : String → Evidence → ℕ → ℕ → HealthCache → HealthCache
unfolding get put next_record
record_evidence id e latency now_at c = record c {
  records = put id (next_record e latency now_at (get id c.records)) c.records;
  record_generation = c.record_generation + 1;
}

-- The override that a call asks for: none clears it, `refuse` is any other text than FREE or PAID.
pub data Override : Type 0 where
  clear refuse : Override
  use_cost : Cost → Override

unfoldable pub override_record :
    Option Cost → Option HealthRecord → String → HealthCache → HealthCache × Bool
override_record cost none id c = (c, false)
override_record cost (some old) id c = (
  record c {
    records = put id (record old { cost_override = cost }) c.records;
    record_generation = c.record_generation + 1;
  },
  true,
)

unfoldable pub set_cost_override : String → Override → HealthCache → HealthCache × Bool
unfolding get put override_record
set_cost_override id clear c = override_record none (get id c.records) id c
set_cost_override id (use_cost cost) c = override_record (some cost) (get id c.records) id c
set_cost_override id refuse c = (c, false)
