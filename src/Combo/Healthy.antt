-- ===== src/Combo/Healthy.antt =====
-- The edits of `StableCombo` in 9router_WatchEdit/core/combo_manager.py that read the health cache.
use router_extra.Prelude.{
  get, String, sym, ap, ◌≡◌, ◌∙◌, refl, Bool, true, not, ◌&&◌, none, List, [], ◌++◌, arith, eq_refl,
  keep, contains, contains-keep, contains-append, keep-append, keep-none, keep-all,
  contains-discard,
}
use mathlib.Core.List.{append-nil}
use router_extra.Combo.{StableCombo, add_model, remove_model, is_model_enabled}
use router_extra.Combo.Diff.{
  compute_combo_diff, is_healthy, is_dead, move_healthy_to_top, remove_dead_models,
}
use router_extra.HealthCache.{HealthCache}
use router_extra.Combo.Difference.{removed_self, added_self}

-- A sequence parted by a test, parted again.
module _ (test : String → Bool) (xs : List String) where
  parted : List String
  parted = keep test xs ++ keep (λ m. not (test m)) xs

  keep-parted : keep test parted ≡ keep test xs
  unfolding parted
  keep-parted =
      keep-append test (keep test xs) (keep (λ m. not (test m)) xs)
      ∙ ap (λ r. r ++ keep test (keep (λ m. not (test m)) xs))
          (keep-all test (keep test xs) (λ k e. ground (arith, contains-keep test k xs)))
      ∙ ap (λ r. keep test xs ++ r)
          (keep-none test (keep (λ m. not (test m)) xs)
            (λ k e. ground (arith, contains-keep (λ m. not (test m)) k xs)))
      ∙ append-nil (keep test xs)

  keep-not-parted : keep (λ m. not (test m)) parted ≡ keep (λ m. not (test m)) xs
  unfolding parted
  keep-not-parted =
      keep-append (λ m. not (test m)) (keep test xs) (keep (λ m. not (test m)) xs)
      ∙ ap (λ r. r ++ keep (λ m. not (test m)) (keep (λ m. not (test m)) xs))
          (keep-none (λ m. not (test m)) (keep test xs)
            (λ k e. ground (arith, contains-keep test k xs)))
      ∙ keep-all (λ m. not (test m)) (keep (λ m. not (test m)) xs)
          (λ k e. ground (arith, contains-keep (λ m. not (test m)) k xs))

  parted_twice : parted ≡ keep test parted ++ keep (λ m. not (test m)) parted
  unfolding parted
  parted_twice = sym (
      ap (λ r. r ++ keep (λ m. not (test m)) parted) keep-parted
      ∙ ap (λ r. keep test xs ++ r) keep-not-parted)

  contains-parted : (k : String) → contains k parted ≡ contains k xs
  unfolding parted
  contains-parted k = ground (
    arith,
    contains-append k (keep test xs) (keep (λ m. not (test m)) xs),
    contains-keep test k xs,
    contains-keep (λ m. not (test m)) k xs,
  )

-- Moving the healthy members up loses and adds no member, puts each healthy one before each other
-- one, and keeps the order among the healthy and among the others.
pub move_healthy_lem :
    (h : HealthCache) (c : StableCombo)
    → let (d, diff) = move_healthy_to_top h c in
      let healthy = λ (m : String). is_healthy (get m h.records) in
      (d.models ≡ keep healthy d.models ++ keep (λ m. not (healthy m)) d.models)
      × (keep healthy d.models ≡ keep healthy c.models)
      × (keep (λ m. not (healthy m)) d.models ≡ keep (λ m. not (healthy m)) c.models)
      × (diff.removed ≡ [])
      × (diff.added ≡ [])
      × (d.disabled ≡ c.disabled)
unfolding move_healthy_to_top compute_combo_diff parted
move_healthy_lem h c =
    let same = keep-parted (λ m. is_healthy (get m h.records)) c.models in
    let others = keep-not-parted (λ m. is_healthy (get m h.records)) c.models in
    let held = contains-parted (λ m. is_healthy (get m h.records)) c.models in
    (
      parted_twice (λ m. is_healthy (get m h.records)) c.models,
      same,
      others,
      removed_self c.models (parted (λ m. is_healthy (get m h.records)) c.models)
          (λ k e. held k ∙ e),
      added_self (parted (λ m. is_healthy (get m h.records)) c.models) c.models
          (parted (λ m. is_healthy (get m h.records)) c.models) (λ k e. sym (held k) ∙ e),
      refl,
    )

-- Removing the dead members removes those alone, and it keeps their activation records: a member
-- that was disabled and dead is still disabled when it is added again, where a removed one is enabled.
pub remove_dead_lem :
    (h : HealthCache) (c : StableCombo) (k : String)
    → let (d, diff) = remove_dead_models h c in
      (contains k d.models ≡ (contains k c.models && not (is_dead (get k h.records))))
      × (contains k diff.removed ≡ (contains k c.models && is_dead (get k h.records)))
      × (diff.added ≡ [])
      × (is_model_enabled k (add_model k none d).0 ≡ is_model_enabled k c)
      × (contains k c.models ≡ true
          → is_model_enabled k (add_model k none (remove_model k c).0).0 ≡ true)
unfolding remove_dead_models compute_combo_diff is_model_enabled add_model remove_model
remove_dead_lem h c k =
    let lives = λ (m : String). not (is_dead (get m h.records)) in
    let left = keep lives c.models in
    (
      contains-keep lives k c.models,
      ground (
        arith,
        contains-keep lives k c.models,
        contains-keep (λ m. not (contains m left)) k c.models,
      ),
      added_self left c.models left (λ k e. ground (arith, contains-keep lives k c.models)),
      ground arith,
      λ e. ground (arith, contains-discard k k c.disabled, eq_refl k),
    )
