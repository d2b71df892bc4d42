-- ===== src/HealthCache/Pruning.antt =====
-- `prune_stale_records` of 9router_WatchEdit/core/history.py: what a pruning may remove, what it
-- must remove, and how many records it leaves.
use router_extra.Prelude.{
  delete_all, get, get-delete_all, keys, Distinct, ℕ, ◌+◌, ◌-◌, ◌≤◌, String, sym, subst, ◌≡◌, ◌≢◌,
  ◌↔◌, ◌⊎◌, inl, inr, refl, ap, true, false, Option, none, some, List, [], ◌∷◌, arith,
  if◌then◌else◌, length, contains, ◌==◌,
}
use router_extra.HealthCache.{HealthRecord, HealthCache, override_of}
use router_extra.HealthCache.Policy.{
  record_age, is_older, is_prunable, eligible, ids_of, old_stale, sort_oldest, removable_ids,
  prune_stale_records,
}
use router_extra.HealthCache.Deletion.{length-delete_all, delete_none, delete_all-Distinct}
use router_extra.HealthCache.Retention.{
  contains-old_stale, old_stale-Distinct, contains-sort_oldest, eligible-keys, eligible-Distinct,
  prunable_at, eligible_iff, stale_at, stale_iff, IsCapped, cap_loop-IsCapped, cap_if,
}

-- A cache file has one record for each id.
module _ (current referenced : List String) (window max_records now_at : ℕ)
    (m : List (String × HealthRecord)) (h : Distinct (keys m)) where
  able : List (Option ℕ × String)
  able = eligible current referenced now_at m

  stale : List String
  unfolding able
  stale = old_stale window able

  gone : List String
  gone = removable_ids current referenced window max_records now_at m

  gone-IsCapped : IsCapped (length m - length stale - max_records) (sort_oldest able) stale gone
  unfolding gone able stale removable_ids
  gone-IsCapped =
      subst (IsCapped (length m - length stale - max_records) (sort_oldest able) stale)
        (sym (cap_if (length m - length stale) max_records (sort_oldest able) stale))
        (cap_loop-IsCapped (length m - length stale - max_records) (sort_oldest able) stale
          (old_stale-Distinct window able (eligible-Distinct current referenced now_at m h)))

  gone-able : (k : String) → contains k gone ≡ true → contains k (ids_of able) ≡ true
  unfolding stale
  gone-able k e =
      ground (
        arith,
        gone-IsCapped.only k e,
        contains-old_stale window k able,
        contains-sort_oldest k able,
      )

  gone-prunable :
      (k : String)
      → contains k gone ≡ true
      → prunable_at current referenced now_at k (get k m) ≡ true
  unfolding able
  gone-prunable k e = ground (arith, gone-able k e, eligible_iff current referenced now_at k m h)

  gone-keys : (k : String) → contains k gone ≡ true → contains k (keys m) ≡ true
  unfolding able
  gone-keys k e = eligible-keys current referenced now_at k m (gone-able k e)

  gone_count : length (delete_all gone m) + length gone ≡ length m
  gone_count = length-delete_all gone m gone-IsCapped.simple h gone-keys

  gone-stale :
      (k : String)
      → stale_at current referenced now_at window k (get k m) ≡ true
      → contains k gone ≡ true
  unfolding stale able
  gone-stale k e =
      gone-IsCapped.grown k (ground (arith, stale_iff current referenced now_at window k m h))

  gone_bound :
      (length (delete_all gone m) ≤ max_records)
      ⊎ ((k : String)
          → prunable_at current referenced now_at k (get k m) ≡ true
          → contains k gone ≡ true)
  unfolding able
  gone_bound = elim gone-IsCapped.full [
    | inl e ↦ inl (omega (arith, gone_count, gone-IsCapped.at_most, e))
    | inr all ↦ inr (λ k e.
        all k (
          ground
            (arith, eligible_iff current referenced now_at k m h, contains-sort_oldest k able)))
  ]

  -- Within the cap, a pruning removes only what the window prunes.
  gone_recent :
      (k : String)
      → length m ≤ max_records
      → contains k gone ≡ true
      → stale_at current referenced now_at window k (get k m) ≡ true
  unfolding gone stale able removable_ids
  gone_recent k le e = ground (arith, stale_iff current referenced now_at window k m h)

prunable_lem :
    (current referenced : List String) (now_at : ℕ) (k : String) (v : Option HealthRecord)
    → (prunable_at current referenced now_at k v ≡ true) ↔ (
        (v ≢ none)
        × (contains k current ≡ false)
        × (contains k referenced ≡ false)
        × (override_of v ≡ none))
unfolding is_prunable
prunable_lem current referenced now_at k none = ground arith
prunable_lem current referenced now_at k (some r) = ground arith

unchanged :
    (ids : List String) (c : HealthCache)
    → length ids ≡ 0
    → record c {
      records = delete_all ids c.records;
      record_generation = if length ids == 0 then c.record_generation else c.record_generation + 1;
    }
      ≡ c
unchanged [] c e = ap (λ m. record c { records = m }) (delete_none c.records)
unchanged (i ∷ ids) c e = absurd (omega arith)

-- A pruning removes no record that the newest inventory holds, a combo refers to or a manual cost
-- override is set on, it changes no record, and on an empty inventory it removes nothing.
pub pruned_unprotected :
    (current referenced : List String) (window max_records now_at : ℕ) (c : HealthCache)
    (k : String)
    → Distinct (keys c.records)
    → let (d, n) = prune_stale_records current referenced window max_records now_at c in
      (get k d.records ≡ get k c.records)
      ⊎ ((current ≢ [])
          × (contains k current ≡ false)
          × (contains k referenced ≡ false)
          × (override_of (get k c.records) ≡ none)
          × (get k d.records ≡ none))
unfolding prune_stale_records gone
pruned_unprotected [] referenced window max_records now_at c k h = inl refl
pruned_unprotected (i ∷ more) referenced window max_records now_at c k h = ground (
  arith,
  get-delete_all k (gone (i ∷ more) referenced window max_records now_at c.records h) c.records,
  gone-prunable (i ∷ more) referenced window max_records now_at c.records h k,
  prunable_lem (i ∷ more) referenced now_at k (get k c.records),
)

-- A pruning reports as many records as it removes, leaves one record for each id, and where it
-- removes none the cache is as it was.
pub prune_count :
    (current referenced : List String) (window max_records now_at : ℕ) (c : HealthCache)
    → Distinct (keys c.records)
    → let (d, n) = prune_stale_records current referenced window max_records now_at c in
      (length d.records + n ≡ length c.records) × Distinct (keys d.records) × (n ≡ 0 → d ≡ c)
unfolding prune_stale_records gone
prune_count [] referenced window max_records now_at c h = (omega arith, h, λ e. refl)
prune_count (i ∷ more) referenced window max_records now_at c h = (
  gone_count (i ∷ more) referenced window max_records now_at c.records h,
  delete_all-Distinct (gone (i ∷ more) referenced window max_records now_at c.records h) c.records
      h,
  λ e. unchanged (gone (i ∷ more) referenced window max_records now_at c.records h) c e,
)

-- After a pruning by an inventory that is not empty, the cache has at most the permitted number of
-- records, or each record left is in the inventory, in a combo or has a manual cost override.
pub prune_bound :
    (current referenced : List String) (window max_records now_at : ℕ) (c : HealthCache)
    → current ≢ []
    → Distinct (keys c.records)
    → let (d, n) = prune_stale_records current referenced window max_records now_at c in
      (length d.records ≤ max_records)
      ⊎ ((k : String)
          → get k d.records ≢ none
          → (contains k current ≡ true)
            ⊎ (contains k referenced ≡ true)
            ⊎ (override_of (get k d.records) ≢ none))
unfolding prune_stale_records gone
prune_bound [] referenced window max_records now_at c ne h = absurd (ne refl)
prune_bound (i ∷ more) referenced window max_records now_at c ne h =
    elim (gone_bound (i ∷ more) referenced window max_records now_at c.records h) [
      | inl le ↦ inl le
      | inr all ↦ inr (λ k there. ground (
        arith,
        get-delete_all k (gone (i ∷ more) referenced window max_records now_at c.records h)
            c.records,
        all k,
        prunable_lem (i ∷ more) referenced now_at k (get k c.records),
      ))
    ]

-- With an inventory that is not empty, an unprotected record whose age has reached the window is
-- gone after the pruning; while the cache is within its cap, one that is younger stays.
pub prune_window :
    (current referenced : List String) (window max_records now_at : ℕ) (c : HealthCache)
    (k : String) (r : HealthRecord)
    → current ≢ []
    → Distinct (keys c.records)
    → get k c.records ≡ some r
    → is_prunable current referenced (k, r) ≡ true
    → let (d, n) = prune_stale_records current referenced window max_records now_at c in
      (is_older window (record_age now_at r) ≡ true → get k d.records ≡ none)
      × (is_older window (record_age now_at r) ≡ false
          → length c.records ≤ max_records
          → get k d.records ≡ some r)
unfolding prune_stale_records gone
prune_window [] referenced window max_records now_at c k r ne h e f = absurd (ne refl)
prune_window (i ∷ more) referenced window max_records now_at c k r ne h e f = ground (
  arith,
  get-delete_all k (gone (i ∷ more) referenced window max_records now_at c.records h) c.records,
  gone-stale (i ∷ more) referenced window max_records now_at c.records h k,
  gone_recent (i ∷ more) referenced window max_records now_at c.records h k,
)
