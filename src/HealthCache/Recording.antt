-- ===== src/HealthCache/Recording.antt =====
-- What recording evidence and overriding a cost do to the cache.
use router_extra.Prelude.{
  get, get-put, put, ap, ℕ, ◌+◌, String, ◌≡◌, ◌≢◌, ◌↔◌, refl, Bool, true, false, Option, none, some,
  List, [], ◌∷◌, arith, str_eq, eq_iff, eq_refl, if◌then◌else◌,
}
use router_extra.Health.{live, Cost, Evidence}
use router_extra.HealthCache.{
  availability_of, is_live, streak_of, HealthRecord, HealthCache, next_record, record_evidence,
  Override, clear, refuse, use_cost, set_cost_override, override_record, override_of, Delta,
  recovered, delta_of,
}

-- The evidence recorded last for an id, through any later recordings: the newest first.
pub record Scan : Type 0 where
  pub id : String
  pub evidence : Evidence
  pub latency : ℕ
  pub time : ℕ

unfoldable pub record_all : List Scan → HealthCache → HealthCache
record_all [] c = c
record_all (s ∷ older) c = record_evidence s.id s.evidence s.latency s.time (record_all older c)

-- The live answers of an id since its last other answer, from n of them before any scan.
unfoldable pub live_streak : String → List Scan → ℕ → ℕ
live_streak k [] n = n
live_streak k (s ∷ older) n =
    let before = live_streak k older n in
    if str_eq s.id k then (if is_live s.evidence.availability then before + 1 else 0) else before

get-record_evidence :
    (k id : String) (e : Evidence) (latency t : ℕ) (c : HealthCache)
    → get k (record_evidence id e latency t c).records
      ≡ (if str_eq id k then some (next_record e latency t (get k c.records)) else get k c.records)
unfolding record_evidence
get-record_evidence k id e latency t c = ground (
  arith,
  eq_iff id k,
  get-put id k (next_record e latency t (get id c.records)) c.records,
  ap (λ j. get j c.records),
)

-- Whatever is recorded, the success streak of every id is the number of its live answers since its
-- last answer that was not live, and no recording changes a manual cost override.
pub record_all_lem :
    (scans : List Scan) (k : String) (c : HealthCache)
    → let d = record_all scans c in
      (streak_of (get k d.records) ≡ live_streak k scans (streak_of (get k c.records)))
      × (override_of (get k d.records) ≡ override_of (get k c.records))
unfolding record_all live_streak next_record
record_all_lem [] k c = (refl, refl)
record_all_lem (s ∷ older) k c = ground (
  arith,
  record_all_lem older k c,
  get-record_evidence k s.id s.evidence s.latency s.time (record_all older c),
)

-- The override that a request leaves, where it is one.
abbrev pub asked : Override → Option (Option Cost)
asked clear = some none
asked refuse = none
asked (use_cost cost) = some (some cost)

-- The record with its manual override cleared: what an override may not touch.
abbrev pub unpriced : Option HealthRecord → Option HealthRecord
unpriced none = none
unpriced (some r) = some (record r { cost_override = none })

override_lem :
    (cost : Option Cost) (id : String) (r : HealthRecord) (k : String)
    (m : List (String × HealthRecord))
    → get id m ≡ some r
    → let v = get k (put id (record r { cost_override = cost }) m) in
      (k ≡ id → override_of v ≡ cost) × (unpriced v ≡ unpriced (get k m)) × (k ≢ id → v ≡ get k m)
override_lem cost id r k m h =
    ground
      (arith, eq_iff id k, get-put id k (record r { cost_override = cost }) m, ap (λ j. get j m))

-- What a request to override a cost leaves: `done` tells whether it was carried out.
pub record IsOverridden (id : String) (o : Override) (c d : HealthCache) (done : Bool)
    : Type 0 where
  pub when : (done ≡ true) ↔ ((get id c.records ≢ none) × (asked o ≢ none))
  pub refused : done ≡ false → d ≡ c
  pub carried_out : done ≡ true → some (override_of (get id d.records)) ≡ asked o
  pub evidence_kept : (k : String) → unpriced (get k d.records) ≡ unpriced (get k c.records)
  pub others_kept : (k : String) → k ≢ id → get k d.records ≡ get k c.records

override_record_lem :
    (cost : Option Cost) (o : Override) (id : String) (c : HealthCache) (v : Option HealthRecord)
    → asked o ≡ some cost
    → get id c.records ≡ v
    → let (d, done) = override_record cost v id c in IsOverridden id o c d done
unfolding override_record
override_record_lem cost o id c none h e = record {
  when = ground arith;
  refused = λ f. refl;
  carried_out = λ f. cc;
  evidence_kept = λ k. refl;
  others_kept = λ k n. refl;
}
override_record_lem cost o id c (some r) h e = record {
  when = ground arith;
  refused = λ f. cc;
  carried_out = λ f. ground (arith, override_lem cost id r id c.records e);
  evidence_kept = λ k. (override_lem cost id r k c.records e).1;
  others_kept = λ k. (override_lem cost id r k c.records e).2;
}

-- A request to override a cost succeeds exactly for a known id and a permitted cost; then the id
-- has the asked override, it keeps all its evidence, and every other record is as it was. A request
-- that fails changes nothing.
pub set_cost_override_lem :
    (id : String) (o : Override) (c : HealthCache)
    → let (d, done) = set_cost_override id o c in IsOverridden id o c d done
unfolding set_cost_override
set_cost_override_lem id clear c = override_record_lem none clear id c (get id c.records) refl refl
set_cost_override_lem id (use_cost cost) c =
    override_record_lem (some cost) (use_cost cost) id c (get id c.records) refl refl
set_cost_override_lem id refuse c = record {
  when = ground arith;
  refused = λ f. refl;
  carried_out = λ f. cc;
  evidence_kept = λ k. refl;
  others_kept = λ k n. refl;
}

abbrev pub delta_in : Option HealthRecord → Option Delta
delta_in none = none
delta_in (some r) = some r.delta

-- A recording reports a recovery exactly when the id was known, was not live, and is live now.
pub recovered_iff :
    (id : String) (e : Evidence) (latency now_at : ℕ) (c : HealthCache)
    → (delta_in (get id (record_evidence id e latency now_at c).records) ≡ some recovered) ↔ (
        (get id c.records ≢ none)
        × (availability_of (get id c.records) ≢ some live)
        × (e.availability ≡ live))
unfolding next_record delta_of
recovered_iff id e latency now_at c =
    ground (arith, eq_refl id, get-record_evidence id id e latency now_at c)
