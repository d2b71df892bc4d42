-- ===== src/HealthCache/Durability.antt =====
-- What the file of `HealthCache.save` in 9router_WatchEdit/core/history.py holds once the cache
-- counts its records as durable.
use router_extra.Prelude.{
  sym, subst, ℕ, suc, ◌+◌, ◌≤◌, String, ◌≡◌, ◌⊎◌, inl, inr, refl, Bool, true, false, Option, some,
  List, [], ◌∷◌, arith, length, Pick, here, there,
}
use router_extra.Health.{Evidence}
use router_extra.HealthCache.{HealthCache, record_evidence, set_cost_override}
use router_extra.HealthCache.Growth.{
  Grows, record_evidence-Grows, set_cost_override-Grows, prune-Grows,
}
use router_extra.HealthCache.Saving.{
  Saver, captured, writing, replaced, Store, capture, replace, mark_durable, mark, Step, saves,
  records_one, records_and_saves, overrides, prunes, locks, fails, replaces, marks, Reach, stay,
  next, loaded, Records,
}

-- The runs in which no save begins while another is under way.
pub data Serial (s : Store) : Store → Type 0 where
  begin : Serial s s
  extend : {t u : Store} → Serial s t → Step t u → length u.savers ≤ 1 → Serial s u

record Fresh (c : HealthCache) (file : Option Records) : Type 0 where
  durable_le : c.durable_generation ≤ c.record_generation
  in_file :
      c.durable_generation ≡ c.record_generation
      → (c.record_generation ≡ 0) ⊎ (file ≡ some c.records)

record Snapped (c : HealthCache) (snapshot : Option Records) (g : ℕ) : Type 0 where
  after : c.durable_generation ≤ g
  until : g ≤ c.record_generation
  same : g ≡ c.record_generation → snapshot ≡ some c.records

abbrev OneFaithful : HealthCache → Option Records → Saver → Type 0
OneFaithful c file (captured nested snapshot g) = Fresh c file × Snapped c (some snapshot) g
OneFaithful c file (writing nested snapshot g) = Fresh c file × Snapped c (some snapshot) g
OneFaithful c file (replaced nested g) = Snapped c file g

abbrev Faithful : HealthCache → Option Records → List Saver → Type 0
Faithful c file [] = Fresh c file
Faithful c file (x ∷ []) = OneFaithful c file x
Faithful c file (x ∷ y ∷ more) = ⊥

Fresh-Grows : {c d : HealthCache} {file : Option Records} → Grows c d → Fresh c file → Fresh d file
Fresh-Grows g h = ground (arith, g.grows, g.kept, g.durable_kept, h.durable_le, h.in_file)

Snapped-Grows :
    {c d : HealthCache} {file : Option Records} {n : ℕ}
    → Grows c d
    → Snapped c file n
    → Snapped d file n
Snapped-Grows g h = ground (arith, g.grows, g.kept, g.durable_kept, h.after, h.until, h.same)

Faithful-Grows :
    {c d : HealthCache} (file : Option Records) (xs : List Saver)
    → Grows c d
    → Faithful c file xs
    → Faithful d file xs
Faithful-Grows file [] g h = Fresh-Grows g h
Faithful-Grows file (captured nested snapshot n ∷ []) g h = (Fresh-Grows g h.0, Snapped-Grows g h.1)
Faithful-Grows file (writing nested snapshot n ∷ []) g h = (Fresh-Grows g h.0, Snapped-Grows g h.1)
Faithful-Grows file (replaced nested n ∷ []) g h = Snapped-Grows g h
Faithful-Grows file (x ∷ y ∷ more) g h = h

capture-Faithful :
    (nested : Bool) (c : HealthCache) (file : Option Records) (xs : List Saver)
    → Faithful c file xs
    → suc (length xs) ≤ 1
    → Faithful c file (captured nested c.records c.record_generation ∷ xs)
capture-Faithful nested c file [] h le =
    (h, record { after = h.durable_le; until = omega arith; same = λ e. refl })
capture-Faithful nested c file (x ∷ xs) h le = absurd (omega arith)

picked :
    (c : HealthCache) (file : Option Records) {x : Saver} {xs rest : List Saver}
    → Pick x xs rest
    → Faithful c file xs
    → OneFaithful c file x × (rest ≡ [])
picked c file (here {xs = []}) h = (h, refl)
picked c file (here {xs = y ∷ more}) h = absurd h
picked c file (there here) h = absurd h
picked c file (there (there p)) h = absurd h

mark-Fresh :
    {c : HealthCache} {file : Option Records} (g : ℕ)
    → Snapped c file g
    → Fresh (mark_durable g c) file
unfolding mark_durable
mark-Fresh g h = ground (arith, h.after, h.until, h.same)

Step-Faithful :
    {s t : Store}
    → Step s t
    → length t.savers ≤ 1
    → Faithful s.cache s.file s.savers
    → Faithful t.cache t.file t.savers
unfolding capture replace mark
Step-Faithful (saves s free) le h = capture-Faithful false s.cache s.file s.savers h le
Step-Faithful (records_one id e latency now_at s free) le h =
    Faithful-Grows s.file s.savers (record_evidence-Grows id e latency now_at s.cache) h
Step-Faithful (records_and_saves id e latency now_at s free) le h =
    let d = record_evidence id e latency now_at s.cache in
    capture-Faithful true d s.file s.savers
      (Faithful-Grows s.file s.savers (record_evidence-Grows id e latency now_at s.cache) h) le
Step-Faithful (overrides id o s free done) le h =
    let d = (set_cost_override id o s.cache).0 in
    capture-Faithful true d s.file s.savers
      (Faithful-Grows s.file s.savers (set_cost_override-Grows id o s.cache) h) le
Step-Faithful (prunes current referenced window most now_at s free) le h =
    Faithful-Grows s.file s.savers (prune-Grows current referenced window most now_at s.cache) h
Step-Faithful (locks nested snapshot g rest s p free) le h =
    let (one, e) = picked s.cache s.file p h in
    subst (λ r. Faithful s.cache s.file (writing nested snapshot g ∷ r)) (sym e) one
Step-Faithful (fails nested snapshot g rest s p) le h =
    let (one, e) = picked s.cache s.file p h in subst (Faithful s.cache s.file) (sym e) one.0
Step-Faithful (replaces nested snapshot g rest s p) le h =
    let (one, e) = picked s.cache s.file p h in
    subst (λ r. Faithful s.cache (some snapshot) (replaced nested g ∷ r)) (sym e) one.1
Step-Faithful (marks nested g rest s p free) le h =
    let (one, e) = picked s.cache s.file p h in
    subst (Faithful (mark_durable g s.cache) s.file) (sym e) (mark-Fresh g one)

Serial-Faithful : (m : Records) {s : Store} → Serial (loaded m) s → Faithful s.cache s.file s.savers
unfolding loaded
Serial-Faithful m begin = record { durable_le = omega arith; in_file = λ e. inl refl }
Serial-Faithful m (extend r x le) = Step-Faithful x le (Serial-Faithful m r)

-- As long as no save begins while another is under way, whenever all saves are over and the
-- generation marked durable is that of the records, the file holds exactly these records, or
-- nothing has been changed since the load.
pub durable_in_file :
    (m : Records) {s : Store}
    → Serial (loaded m) s
    → s.savers ≡ []
    → s.cache.durable_generation ≡ s.cache.record_generation
    → (s.cache.record_generation ≡ 0) ⊎ (s.file ≡ some s.cache.records)
durable_in_file m {s} r e d = (subst (Faithful s.cache s.file) e (Serial-Faithful m r)).in_file d

-- The schedule of two saves where the one that began first writes last.
module _ (c : HealthCache) (file : Option Records) (id : String) (e : Evidence)
    (latency now_at : ℕ) where
  idle : Store
  idle = record { cache = c; file = file; savers = [] }

  changed : HealthCache
  changed = record_evidence id e latency now_at c

  older : Saver
  older = captured false c.records c.record_generation

  both : Store
  both = record {
    cache = changed;
    file = file;
    savers = captured false changed.records changed.record_generation ∷ older ∷ [];
  }

  newer_locked : Store
  newer_locked = record both {
    savers = writing false changed.records changed.record_generation ∷ older ∷ [];
  }

  newer_done : Store
  newer_done =
      mark changed.record_generation (older ∷ [])
        (replace false changed.records changed.record_generation (older ∷ []) newer_locked)

  older_locked : Store
  older_locked = record newer_done { savers = writing false c.records c.record_generation ∷ [] }

  older_done : Store
  older_done =
      mark c.record_generation [] (replace false c.records c.record_generation [] older_locked)

  both-Reach : Reach idle both
  unfolding idle changed older both capture
  both-Reach =
      next
        (next (next stay (saves idle refl))
          (records_one id e latency now_at (capture false idle) refl))
        (saves (record both { savers = older ∷ [] }) refl)

  newer_done-Reach : Reach idle newer_done
  unfolding idle changed older both newer_locked newer_done replace
  newer_done-Reach =
      next
        (next
          (next both-Reach
            (locks false changed.records changed.record_generation (older ∷ []) both here refl))
          (replaces false changed.records changed.record_generation (older ∷ []) newer_locked here))
        (marks false changed.record_generation (older ∷ [])
          (replace false changed.records changed.record_generation (older ∷ []) newer_locked) here
          (inr refl))

  older_done-Reach : Reach idle older_done
  unfolding idle changed older both newer_locked newer_done older_locked older_done replace mark
  older_done-Reach =
      next
        (next
          (next newer_done-Reach
            (locks false c.records c.record_generation [] newer_done here refl))
          (replaces false c.records c.record_generation [] older_locked here))
        (marks false c.record_generation []
          (replace false c.records c.record_generation [] older_locked) here (inr refl))

-- Two saves may overlap so that, with all saves over and the last recording counted as durable, the
-- file holds the records from before that recording.
pub overtaken_save :
    (c : HealthCache) (file : Option Records) (id : String) (e : Evidence) (latency now_at : ℕ)
    → c.durable_generation ≤ c.record_generation
    → (t : Store) × Reach (record { cache = c; file = file; savers = [] }) t
      × (t.savers ≡ [])
      × (t.cache.records ≡ (record_evidence id e latency now_at c).records)
      × (t.cache.durable_generation ≡ t.cache.record_generation)
      × (t.cache.record_generation ≡ c.record_generation + 1)
      × (t.file ≡ some c.records)
unfolding idle changed older both newer_locked newer_done older_locked older_done replace mark
    mark_durable record_evidence
overtaken_save c file id e latency now_at le = (
  older_done c file id e latency now_at,
  older_done-Reach c file id e latency now_at,
  refl,
  ground arith,
  ground arith,
  ground arith,
  refl,
)
