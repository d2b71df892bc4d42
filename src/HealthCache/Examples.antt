-- ===== src/HealthCache/Examples.antt =====
-- Records at concrete values, and the theorems at such values.
use router_extra.Prelude.{
  get, keys, Distinct, ◌+◌, String, ◌≡◌, ◌≢◌, ◌⊎◌, inr, refl, true, false, none, some, List, [],
  ◌∷◌, arith, contains, here, there,
}
use router_extra.Health.{
  Availability, live, dead, connect_timeout, Evidence, free, paid, live_confidence,
  likely_temporary, zero_counters,
}
use router_extra.HealthCache.{
  HealthRecord, HealthCache, at, no_stamp, no_delta, record_evidence, next_record, override_of,
  streak_of,
}
use router_extra.HealthCache.Policy.{prune_stale_records}
use router_extra.HealthCache.Recording.{Scan, record_all}
use router_extra.HealthCache.Pruning.{pruned_unprotected}
use router_extra.HealthCache.Saving.{
  writing, Store, Records, capture, replace, mark, mark_durable, Step, saves, records_and_saves,
  locks, replaces, marks, Reach, stay, next, loaded,
}
use router_extra.HealthCache.Locking.{locks_deadlock}
use router_extra.HealthCache.Durability.{Serial, begin, extend, durable_in_file, overtaken_save}

abbrev answer : Availability → Evidence
answer a = record {
  availability = a;
  cost = free;
  confidence = likely_temporary;
  status_code = 200;
  error_code = "";
  counters = zero_counters;
}

abbrev old_record : HealthRecord
old_record = record {
  availability = live;
  cost = free;
  confidence = live_confidence;
  cost_override = none;
  latency_ms = 300;
  status_code = 200;
  last_tested_at = at 100;
  last_success_at = at 100;
  success_streak = 4;
  counters = zero_counters;
  previous_availability = none;
  delta = no_delta;
}

abbrev stored : Records
stored =
    ("oc/free", old_record)
    ∷ ("wb/hy3", record old_record { cost_override = some paid })
    ∷ ("zz/gone", record old_record { last_tested_at = no_stamp; last_success_at = no_stamp })
    ∷ []

abbrev cache : HealthCache
cache = record { records = stored; record_generation = 3; durable_generation = 3 }

abbrev scan : Availability → Scan
scan a = record { id = "oc/free"; evidence = answer a; latency = 400; time = 900 }

streak_test :
    streak_of
      (get "oc/free" (record_all (scan live ∷ scan live ∷ scan connect_timeout ∷ []) cache).records)
    ≡ 2
unfolding record_all record_evidence next_record get
streak_test = refl

stored-Distinct : Distinct (keys stored)
unfolding keys contains
stored-Distinct = (refl, (refl, (refl, tt)))

pruned_unprotected_example :
    let (d, n) = prune_stale_records ("oc/free" ∷ []) [] 604800 20000 1000 cache in
    (get "zz/gone" d.records ≡ get "zz/gone" stored)
    ⊎ ((◌≢◌ {A = List String} ("oc/free" ∷ []) [])
        × (contains "zz/gone" ("oc/free" ∷ []) ≡ false)
        × (contains "zz/gone" [] ≡ false)
        × (override_of (get "zz/gone" stored) ≡ none)
        × (get "zz/gone" d.records ≡ none))
pruned_unprotected_example =
    pruned_unprotected ("oc/free" ∷ []) [] 604800 20000 1000 cache "zz/gone" stored-Distinct

abbrev ageless : HealthRecord
ageless = record old_record { last_tested_at = no_stamp; last_success_at = no_stamp }

pruned_test : (prune_stale_records ("oc/free" ∷ []) [] 604800 20000 1000 cache).1 ≡ 1
unfolding prune_stale_records
pruned_test = refl

-- A scan's save and a recording with `auto_save` that wait for each other.
abbrev plain_locked : Store
plain_locked = record (loaded stored) { savers = writing false stored 0 ∷ [] }

abbrev recorded : Store
recorded = record (replace false stored 0 [] plain_locked) {
  cache = record_evidence "oc/free" (answer live) 400 900 (loaded stored).cache;
}

recorded-Reach : Reach (loaded stored) (capture true recorded)
unfolding loaded capture replace
recorded-Reach =
    next
      (next
        (next (next stay (saves (loaded stored) refl))
          (locks false stored 0 [] (capture false (loaded stored)) here refl))
        (replaces false stored 0 [] plain_locked here))
      (records_and_saves "oc/free" (answer live) 400 900 (replace false stored 0 [] plain_locked)
        refl)

locks_deadlock_example : ¬ Step (capture true recorded) (capture false (capture true recorded))
unfolding loaded capture replace
locks_deadlock_example = locks_deadlock stored recorded-Reach (there here) here

abbrev saved : Store
saved = mark 0 [] (replace false stored 0 [] plain_locked)

saved-Serial : Serial (loaded stored) saved
unfolding loaded capture replace mark mark_durable
saved-Serial =
    extend
      (extend
        (extend (extend begin (saves (loaded stored) refl) (omega arith))
          (locks false stored 0 [] (capture false (loaded stored)) here refl) (omega arith))
        (replaces false stored 0 [] plain_locked here) (omega arith))
      (marks false 0 [] (replace false stored 0 [] plain_locked) here (inr refl)) (omega arith)

durable_in_file_example :
    (saved.cache.record_generation ≡ 0) ⊎ (saved.file ≡ some saved.cache.records)
unfolding loaded replace mark mark_durable
durable_in_file_example = durable_in_file stored saved-Serial refl refl

overtaken_save_example :
    (t : Store) × Reach (record { cache = cache; file = some stored; savers = [] }) t
    × (t.savers ≡ [])
    × (t.cache.records ≡ (record_evidence "oc/free" (answer dead) 400 900 cache).records)
    × (t.cache.durable_generation ≡ t.cache.record_generation)
    × (t.cache.record_generation ≡ 3 + 1)
    × (t.file ≡ some stored)
overtaken_save_example =
    overtaken_save cache (some stored) "oc/free" (answer dead) 400 900 (omega arith)
