-- ===== src/HealthCache/Locking.antt =====
-- The two locks of `HealthCache.save` of 9router_WatchEdit/core/history.py: what every interleaving
-- of `HealthCache.Saving` keeps, and the orders of the locks and of the writes.
use router_extra.Prelude.{
  ℕ, ◌+◌, ◌≤◌, ◌≡◌, ◌≢◌, ◌⊎◌, inl, inr, refl, Bool, true, false, List, [], ◌∷◌, arith, Pick, here,
  there, sum_of, sum_of-Pick,
}
use router_extra.HealthCache.{HealthCache, record_evidence, set_cost_override}
use router_extra.HealthCache.Policy.{prune_stale_records}
use router_extra.HealthCache.Growth.{
  Grows, record_evidence-Grows, set_cost_override-Grows, prune-Grows,
}
use router_extra.HealthCache.Saving.{
  Saver, captured, writing, replaced, Store, in_memory, in_save, capture, replace, mark_durable,
  mark, Step, saves, records_one, records_and_saves, overrides, prunes, locks, fails, replaces,
  marks, Reach, stay, next, loaded, Behind, AllBehind, IsLocked, Records,
}

AllBehind-Pick :
    {x : Saver} {xs rest : List Saver} (n : ℕ)
    → Pick x xs rest
    → AllBehind n xs
    → Behind n x × AllBehind n rest
AllBehind-Pick n here h = (h.0, h.1)
AllBehind-Pick n (there p) h = let (a, b) = AllBehind-Pick n p h.1 in (a, (h.0, b))

Behind-le : (m n : ℕ) (x : Saver) → m ≤ n → Behind m x → Behind n x
Behind-le m n (captured nested snapshot g) le h = omega arith
Behind-le m n (writing nested snapshot g) le h = omega arith
Behind-le m n (replaced nested g) le h = omega arith

AllBehind-le : (m n : ℕ) (xs : List Saver) → m ≤ n → AllBehind m xs → AllBehind n xs
AllBehind-le m n [] le h = tt
AllBehind-le m n (x ∷ xs) le h = (Behind-le m n x le h.0, AllBehind-le m n xs le h.1)

changed-IsLocked :
    (s : Store) (d : HealthCache) → Grows s.cache d → IsLocked s → IsLocked (record s { cache = d })
changed-IsLocked s d g h = record {
  one_in_memory = h.one_in_memory;
  one_in_save = h.one_in_save;
  behind = AllBehind-le s.cache.record_generation d.record_generation s.savers g.grows h.behind;
  durable_le = omega (arith, g.grows, g.durable_kept, h.durable_le);
}

capture-IsLocked :
    (nested : Bool) (s : Store)
    → sum_of in_memory s.savers ≡ 0
    → IsLocked s
    → IsLocked (capture nested s)
unfolding capture
capture-IsLocked nested s free h = ground (arith, h.one_in_save, h.behind, h.durable_le)

Step-IsLocked : {s t : Store} → Step s t → IsLocked s → IsLocked t
unfolding replace mark mark_durable
Step-IsLocked (saves s free) h = capture-IsLocked false s free h
Step-IsLocked (records_one id e latency now_at s free) h =
    changed-IsLocked s (record_evidence id e latency now_at s.cache)
      (record_evidence-Grows id e latency now_at s.cache) h
Step-IsLocked (records_and_saves id e latency now_at s free) h =
    let d = record_evidence id e latency now_at s.cache in
    capture-IsLocked true (record s { cache = d }) free
      (changed-IsLocked s d (record_evidence-Grows id e latency now_at s.cache) h)
Step-IsLocked (overrides id o s free done) h =
    let d = (set_cost_override id o s.cache).0 in
    capture-IsLocked true (record s { cache = d }) free
      (changed-IsLocked s d (set_cost_override-Grows id o s.cache) h)
Step-IsLocked (prunes current referenced window most now_at s free) h =
    changed-IsLocked s (prune_stale_records current referenced window most now_at s.cache).0
      (prune-Grows current referenced window most now_at s.cache) h
Step-IsLocked (locks nested snapshot g rest s p free) h = ground (
  arith,
  sum_of-Pick in_memory p,
  sum_of-Pick in_save p,
  AllBehind-Pick s.cache.record_generation p h.behind,
)
Step-IsLocked (fails nested snapshot g rest s p) h = ground (
  arith,
  sum_of-Pick in_memory p,
  sum_of-Pick in_save p,
  AllBehind-Pick s.cache.record_generation p h.behind,
)
Step-IsLocked (replaces nested snapshot g rest s p) h = ground (
  arith,
  sum_of-Pick in_memory p,
  sum_of-Pick in_save p,
  AllBehind-Pick s.cache.record_generation p h.behind,
)
Step-IsLocked (marks nested g rest s p free) h = ground (
  arith,
  sum_of-Pick in_memory p,
  sum_of-Pick in_save p,
  AllBehind-Pick s.cache.record_generation p h.behind,
)

-- In every interleaving of saves and changes, at most one thread holds each of the two locks, and
-- no generation is captured or marked durable that the records have not reached.
pub locks_exclusive : (m : Records) {s : Store} → Reach (loaded m) s → IsLocked s
unfolding loaded
locks_exclusive m stay = ground arith
locks_exclusive m (next r t) = Step-IsLocked t (locks_exclusive m r)

-- Two different members of a list both count.
sum_of-two :
    (f : Saver → ℕ) {x y : Saver} {xs rest others : List Saver}
    → x ≢ y
    → Pick x xs rest
    → Pick y xs others
    → f x + f y ≤ sum_of f xs
sum_of-two f ne here here = absurd (ne refl)
sum_of-two f ne here (there q) = omega (arith, sum_of-Pick f q)
sum_of-two f ne (there p) here = omega (arith, sum_of-Pick f p)
sum_of-two f ne (there p) (there q) = omega (arith, sum_of-two f ne p q)

module _ {s : Store} (h : IsLocked s) {g j : ℕ} {snapshot : Records} {rest others : List Saver}
    (p : Pick (replaced false g) s.savers rest)
    (q : Pick (captured true snapshot j) s.savers others) where
  memory_taken : sum_of in_memory s.savers ≡ 0 → ⊥
  memory_taken e = omega (arith, sum_of-Pick in_memory q)

  save_taken : sum_of in_save s.savers ≡ 0 → ⊥
  save_taken e = omega (arith, sum_of-Pick in_save p)

  writing_absurd :
      {n : Bool} {m : Records} {i : ℕ} {xs : List Saver} → Pick (writing n m i) s.savers xs → ⊥
  writing_absurd w = omega (arith, h.one_in_save, sum_of-two in_save (λ e. cc) w p)

  nested_absurd : {i : ℕ} {xs : List Saver} → Pick (replaced true i) s.savers xs → ⊥
  nested_absurd w = omega (arith, h.one_in_memory, sum_of-two in_memory (λ e. cc) w q)

  marks_absurd :
      (n : Bool) {i : ℕ} {xs : List Saver}
      → Pick (replaced n i) s.savers xs
      → (n ≡ true) ⊎ (sum_of in_memory s.savers ≡ 0)
      → ⊥
  marks_absurd true w e = nested_absurd w
  marks_absurd false w (inl e) = cc
  marks_absurd false w (inr e) = memory_taken e

  stuck : {t : Store} → Step s t → ⊥
  stuck (saves s free) = memory_taken free
  stuck (records_one id e latency now_at s free) = memory_taken free
  stuck (records_and_saves id e latency now_at s free) = memory_taken free
  stuck (overrides id o s free done) = memory_taken free
  stuck (prunes current referenced window most now_at s free) = memory_taken free
  stuck (locks n m i xs s w free) = save_taken free
  stuck (fails n m i xs s w) = writing_absurd w
  stuck (replaces n m i xs s w) = writing_absurd w
  stuck (marks n i xs s w free) = marks_absurd n w free

-- When a plain save has replaced the file while the save of an override or of a recording with
-- `auto_save` waits for the save lock, no thread that uses the cache can ever take another step.
pub locks_deadlock :
    (m : Records) {s t : Store} {g j : ℕ} {snapshot : Records} {rest others : List Saver}
    → Reach (loaded m) s
    → Pick (replaced false g) s.savers rest
    → Pick (captured true snapshot j) s.savers others
    → ¬ Step s t
locks_deadlock m r p q x = stuck (locks_exclusive m r) p q x
