-- ===== src/HealthCache/Growth.antt =====
-- The generations of `HealthCache` in 9router_WatchEdit/core/history.py under its changes.
use router_extra.Prelude.{
  delete_all, get, ℕ, ◌+◌, ◌≤◌, String, ◌≡◌, refl, Option, none, some, List, [], ◌∷◌, arith,
  if◌then◌else◌, length, ◌==◌,
}
use router_extra.Health.{Cost, Evidence}
use router_extra.HealthCache.{
  HealthRecord, HealthCache, record_evidence, set_cost_override, Override, clear, refuse, use_cost,
  override_record,
}
use router_extra.HealthCache.Policy.{prune_stale_records, removable_ids}
use router_extra.HealthCache.Deletion.{delete_none}

-- A change raises the generation or keeps the records, and marks nothing as durable.
pub record Grows (c d : HealthCache) : Type 0 where
  pub durable_kept : d.durable_generation ≡ c.durable_generation
  pub grows : c.record_generation ≤ d.record_generation
  pub kept : d.record_generation ≡ c.record_generation → d.records ≡ c.records

pub record_evidence-Grows :
    (id : String) (e : Evidence) (latency now_at : ℕ) (c : HealthCache)
    → Grows c (record_evidence id e latency now_at c)
unfolding record_evidence
record_evidence-Grows id e latency now_at c = ground arith

override_record-Grows :
    (cost : Option Cost) (v : Option HealthRecord) (id : String) (c : HealthCache)
    → Grows c (override_record cost v id c).0
unfolding override_record
override_record-Grows cost none id c = ground arith
override_record-Grows cost (some r) id c = ground arith

pub set_cost_override-Grows :
    (id : String) (o : Override) (c : HealthCache) → Grows c (set_cost_override id o c).0
unfolding set_cost_override
set_cost_override-Grows id clear c = override_record-Grows none (get id c.records) id c
set_cost_override-Grows id (use_cost cost) c =
    override_record-Grows (some cost) (get id c.records) id c
set_cost_override-Grows id refuse c = ground arith

removal-Grows :
    (ids : List String) (c : HealthCache)
    → Grows c (record c {
      records = delete_all ids c.records;
      record_generation = if length ids == 0 then c.record_generation else c.record_generation + 1;
    })
removal-Grows [] c = record {
  durable_kept = refl;
  grows = omega arith;
  kept = λ e. delete_none c.records;
}
removal-Grows (i ∷ ids) c = ground arith

pub prune-Grows :
    (current referenced : List String) (window most now_at : ℕ) (c : HealthCache)
    → Grows c (prune_stale_records current referenced window most now_at c).0
unfolding prune_stale_records
prune-Grows [] referenced window most now_at c = ground arith
prune-Grows (i ∷ more) referenced window most now_at c =
    removal-Grows (removable_ids (i ∷ more) referenced window most now_at c.records) c
