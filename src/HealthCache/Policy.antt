-- ===== src/HealthCache/Policy.antt =====
-- `prune_stale_records` and `_record_age_seconds` of 9router_WatchEdit/core/history.py.
use Prim.Native.Nat.{Ordering}
use Prim.Native.String.{compare as compare_text}
use router_extra.Prelude.{
  delete_all, ℕ, zero, suc, ◌+◌, ◌-◌, String, Bool, true, false, not, ◌&&◌, ◌||◌, Option, none,
  some, List, [], ◌∷◌, ltb, leb, ◌==◌, is_none, if◌then◌else◌, length, contains,
}
use router_extra.HealthCache.{HealthRecord, HealthCache, Stamp, no_stamp, bad_stamp, at}

-- `last_tested_at or last_success_at`
first_stamp : Stamp → Stamp → Stamp
first_stamp no_stamp other = other
first_stamp bad_stamp other = bad_stamp
first_stamp (at t) other = at t

age_at : ℕ → Stamp → Option ℕ
age_at now_at no_stamp = none
age_at now_at bad_stamp = none
age_at now_at (at t) = some (now_at - t)

-- The age at `now`, `none` where it is infinite.
unfoldable pub record_age : ℕ → HealthRecord → Option ℕ
unfolding first_stamp age_at
record_age now_at r = age_at now_at (first_stamp r.last_tested_at r.last_success_at)

-- `age >= window`
unfoldable pub is_older : ℕ → Option ℕ → Bool
is_older window none = true
is_older window (some age) = leb window age

text_le : String → String → Bool
text_le a b = elim (compare_text a b) [ Ordering.gt ↦ false | _ ↦ true ]

-- The order of pairs of an age and an id.
unfoldable pub pair_le : Option ℕ × String → Option ℕ × String → Bool
unfolding text_le
pair_le (none, i) (none, j) = text_le i j
pair_le (none, i) (some b, j) = false
pair_le (some a, i) (none, j) = true
pair_le (some a, i) (some b, j) = if ltb a b then true else a == b && text_le i j

-- `sort(reverse=True)`
unfoldable pub insert_sorted :
    Option ℕ × String → List (Option ℕ × String) → List (Option ℕ × String)
unfolding pair_le
insert_sorted p [] = p ∷ []
insert_sorted p (q ∷ qs) = if pair_le q p then p ∷ q ∷ qs else q ∷ insert_sorted p qs

unfoldable pub sort_oldest : List (Option ℕ × String) → List (Option ℕ × String)
unfolding insert_sorted
sort_oldest [] = []
sort_oldest (p ∷ ps) = insert_sorted p (sort_oldest ps)

-- Absent from the inventory, in no combo, and with no manual override.
unfoldable pub is_prunable : List String → List String → String × HealthRecord → Bool
unfolding contains
is_prunable current referenced (id, r) =
    not (contains id current || contains id referenced) && is_none r.cost_override

-- The ages and ids of the records that may be pruned.
unfoldable pub eligible :
    List String → List String → ℕ → List (String × HealthRecord) → List (Option ℕ × String)
unfolding is_prunable record_age
eligible current referenced now_at [] = []
eligible current referenced now_at ((id, r) ∷ m) =
    let rest = eligible current referenced now_at m in
    if is_prunable current referenced (id, r) then (record_age now_at r, id) ∷ rest else rest

unfoldable pub ids_of : List (Option ℕ × String) → List String
ids_of [] = []
ids_of ((a, id) ∷ ps) = id ∷ ids_of ps

unfoldable pub old_stale : ℕ → List (Option ℕ × String) → List String
unfolding is_older
old_stale window [] = []
old_stale window ((age, id) ∷ ps) =
    let rest = old_stale window ps in if is_older window age then id ∷ rest else rest

-- The loop of the hard cap: the oldest eligible records go until `over` more are removed.
unfoldable pub cap_loop : ℕ → List (Option ℕ × String) → List String → List String
unfolding contains
cap_loop zero ps removable = removable
cap_loop (suc over) [] removable = removable
cap_loop (suc over) ((age, id) ∷ ps) removable =
    let skip = cap_loop (suc over) ps removable in
    let take_it = cap_loop over ps (id ∷ removable) in
    if contains id removable then skip else take_it

-- The ids that a pruning removes.
unfoldable pub removable_ids :
    List String → List String → ℕ → ℕ → ℕ → List (String × HealthRecord) → List String
unfolding eligible old_stale sort_oldest cap_loop
removable_ids current referenced window max_records now_at records =
    let able = eligible current referenced now_at records in
    let stale = old_stale window able in
    let remaining = length records - length stale in
    if ltb max_records remaining
    then cap_loop (remaining - max_records) (sort_oldest able) stale
    else stale

unfoldable pub prune_stale_records :
    List String → List String → ℕ → ℕ → ℕ → HealthCache → HealthCache × ℕ
unfolding removable_ids delete_all
prune_stale_records [] referenced window max_records now_at c = (c, 0)
prune_stale_records (i ∷ more) referenced window max_records now_at c =
    let ids = removable_ids (i ∷ more) referenced window max_records now_at c.records in
    let n = length ids in
    (
      record c {
        records = delete_all ids c.records;
        record_generation = if n == 0 then c.record_generation else c.record_generation + 1;
      },
      n,
    )
