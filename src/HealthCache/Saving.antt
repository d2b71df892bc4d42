-- ===== src/HealthCache/Saving.antt =====
-- `HealthCache.save` of 9router_WatchEdit/core/history.py and the methods that change the records,
-- as steps of threads that share the memory lock, the save lock and the file. The file is its
-- records; the payload and the temporary file are not modelled.
use router_extra.Prelude.{
  ℕ, ◌≤◌, String, ◌≡◌, ◌⊎◌, Bool, true, false, Option, none, some, List, [], ◌∷◌, if◌then◌else◌,
  ltb, Pick, sum_of,
}
use router_extra.Health.{Evidence}
use router_extra.HealthCache.{
  HealthRecord, HealthCache, record_evidence, set_cost_override, Override,
}
use router_extra.HealthCache.Policy.{prune_stale_records}

abbrev pub Records : Type 0
Records = List (String × HealthRecord)

-- A call of `save`. `nested` tells that the caller holds the memory lock, as `set_cost_override` and
-- a `record_evidence` with `auto_save` do. `captured`: it waits for the save lock. `writing`: it
-- holds the save lock. `replaced`: the file is replaced, and it waits for the memory lock.
pub data Saver : Type 0 where
  captured writing : (nested : Bool) (snapshot : Records) (generation : ℕ) → Saver
  replaced : (nested : Bool) (generation : ℕ) → Saver

pub record Store : Type 0 where
  pub cache : HealthCache
  pub file : Option Records
  pub savers : List Saver

-- Who holds the memory lock and the save lock.
abbrev pub in_memory : Saver → ℕ
in_memory (captured nested snapshot g) = if nested then 1 else 0
in_memory (writing nested snapshot g) = if nested then 1 else 0
in_memory (replaced nested g) = if nested then 1 else 0

abbrev pub in_save : Saver → ℕ
in_save (captured nested snapshot g) = 0
in_save (writing nested snapshot g) = 1
in_save (replaced nested g) = 1

-- The first block of `save`, under the memory lock.
unfoldable pub capture : Bool → Store → Store
capture nested s = record s {
  savers = captured nested s.cache.records s.cache.record_generation ∷ s.savers;
}

-- `os.replace`
unfoldable pub replace : Bool → Records → ℕ → List Saver → Store → Store
replace nested snapshot g rest s = record s {
  file = some snapshot;
  savers = replaced nested g ∷ rest;
}

-- The last block of `save`, under both locks; then the locks are released.
unfoldable pub mark_durable : ℕ → HealthCache → HealthCache
mark_durable g c = if ltb c.durable_generation g then record c { durable_generation = g } else c

unfoldable pub mark : ℕ → List Saver → Store → Store
unfolding mark_durable
mark g rest s = record s { cache = mark_durable g s.cache; savers = rest }

-- `fails` is a save that raises.
-- `records_one` is `record_evidence` without `auto_save`, which the scans use.
pub data Step : Store → Store → Type 0 where
  saves : (s : Store) → sum_of in_memory s.savers ≡ 0 → Step s (capture false s)
  records_one :
      (id : String) (e : Evidence) (latency now_at : ℕ) (s : Store)
      → sum_of in_memory s.savers ≡ 0
      → Step s (record s { cache = record_evidence id e latency now_at s.cache })
  records_and_saves :
      (id : String) (e : Evidence) (latency now_at : ℕ) (s : Store)
      → sum_of in_memory s.savers ≡ 0
      → Step s (capture true (record s { cache = record_evidence id e latency now_at s.cache }))
  overrides :
      (id : String) (o : Override) (s : Store)
      → sum_of in_memory s.savers ≡ 0
      → (set_cost_override id o s.cache).1 ≡ true
      → Step s (capture true (record s { cache = (set_cost_override id o s.cache).0 }))
  prunes :
      (current referenced : List String) (window most now_at : ℕ) (s : Store)
      → sum_of in_memory s.savers ≡ 0
      → Step s (record s {
        cache = (prune_stale_records current referenced window most now_at s.cache).0;
      })
  locks :
      (nested : Bool) (snapshot : Records) (g : ℕ) (rest : List Saver) (s : Store)
      → Pick (captured nested snapshot g) s.savers rest
      → sum_of in_save s.savers ≡ 0
      → Step s (record s { savers = writing nested snapshot g ∷ rest })
  fails :
      (nested : Bool) (snapshot : Records) (g : ℕ) (rest : List Saver) (s : Store)
      → Pick (writing nested snapshot g) s.savers rest
      → Step s (record s { savers = rest })
  replaces :
      (nested : Bool) (snapshot : Records) (g : ℕ) (rest : List Saver) (s : Store)
      → Pick (writing nested snapshot g) s.savers rest
      → Step s (replace nested snapshot g rest s)
  marks :
      (nested : Bool) (g : ℕ) (rest : List Saver) (s : Store)
      → Pick (replaced nested g) s.savers rest
      → (nested ≡ true) ⊎ (sum_of in_memory s.savers ≡ 0)
      → Step s (mark g rest s)

pub data Reach (s : Store) : Store → Type 0 where
  stay : Reach s s
  next : {t u : Store} → Reach s t → Step t u → Reach s u

-- A cache just loaded, with nothing written in this session.
unfoldable pub loaded : Records → Store
loaded m = record {
  cache = record { records = m; record_generation = 0; durable_generation = 0 };
  file = none;
  savers = [];
}

-- What every interleaving keeps.
abbrev pub Behind : ℕ → Saver → Type 0
Behind n (captured nested snapshot g) = g ≤ n
Behind n (writing nested snapshot g) = g ≤ n
Behind n (replaced nested g) = g ≤ n

abbrev pub AllBehind : ℕ → List Saver → Type 0
AllBehind n [] = Unit {0}
AllBehind n (x ∷ xs) = Behind n x × AllBehind n xs

pub record IsLocked (s : Store) : Type 0 where
  pub one_in_memory : sum_of in_memory s.savers ≤ 1
  pub one_in_save : sum_of in_save s.savers ≤ 1
  pub behind : AllBehind s.cache.record_generation s.savers
  pub durable_le : s.cache.durable_generation ≤ s.cache.record_generation
