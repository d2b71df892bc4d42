-- ===== src/HealthCache/Deletion.antt =====
-- Deleting ids from the records that `HealthCache` of 9router_WatchEdit/core/history.py keeps.
use router_extra.Prelude.{
  delete_all, keys, Distinct, ◌+◌, String, ◌≡◌, refl, ap, true, false, not, ◌&&◌, List, [], ◌∷◌,
  arith, eq_iff, eq_refl, length, keep, contains,
}

module _ {V : Type 0} where
  keys-delete_all :
      (k : String) (ids : List String) (m : List (String × V))
      → contains k (keys (delete_all ids m)) ≡ (contains k (keys m) && not (contains k ids))
  unfolding keys delete_all keep contains
  keys-delete_all k ids [] = refl
  keys-delete_all k ids ((j, v) ∷ m) =
      ground (arith, keys-delete_all k ids m, eq_iff j k, ap (λ i. contains i ids))

  pub delete_all-Distinct :
      (ids : List String) (m : List (String × V))
      → Distinct (keys m)
      → Distinct (keys (delete_all ids m))
  unfolding keys delete_all keep
  delete_all-Distinct ids [] h = tt
  delete_all-Distinct ids ((j, v) ∷ m) h =
      ground (arith, delete_all-Distinct ids m h.1, keys-delete_all j ids m)

  -- Deleting one id.
  delete_absent :
      (i : String) (m : List (String × V))
      → contains i (keys m) ≡ false
      → length (delete_all (i ∷ []) m) ≡ length m
  unfolding keys delete_all keep contains
  delete_absent i [] h = refl
  delete_absent i ((j, v) ∷ m) h = ground (arith, delete_absent i m, eq_iff i j, eq_refl i)

  delete_one :
      (i : String) (m : List (String × V))
      → Distinct (keys m)
      → contains i (keys m) ≡ true
      → length (delete_all (i ∷ []) m) + 1 ≡ length m
  unfolding keys delete_all keep contains
  delete_one i [] h e = cc
  delete_one i ((j, v) ∷ m) h e =
      ground (arith, delete_one i m h.1, delete_absent i m, eq_iff i j, eq_iff j i)

  delete_split :
      (i : String) (ids : List String) (m : List (String × V))
      → delete_all (i ∷ ids) m ≡ delete_all ids (delete_all (i ∷ []) m)
  unfolding delete_all keep contains
  delete_split i ids [] = refl
  delete_split i ids ((j, v) ∷ m) = ground (arith, delete_split i ids m)

  pub delete_none : (m : List (String × V)) → delete_all [] m ≡ m
  unfolding delete_all keep contains
  delete_none [] = refl
  delete_none (e ∷ m) = ap (e ∷◌) (delete_none m)

  still_there :
      (i k : String) (ids : List String) (m : List (String × V))
      → Distinct (i ∷ ids)
      → (contains k (i ∷ ids) ≡ true → contains k (keys m) ≡ true)
      → contains k ids ≡ true
      → contains k (keys (delete_all (i ∷ []) m)) ≡ true
  unfolding contains
  still_there i k ids m s h e =
      ground (arith, keys-delete_all k (i ∷ []) m, eq_iff i k, ap (λ j. contains j ids))

  -- Deleting distinct ids that are there.
  pub length-delete_all :
      (ids : List String) (m : List (String × V))
      → Distinct ids
      → Distinct (keys m)
      → ((k : String) → contains k ids ≡ true → contains k (keys m) ≡ true)
      → length (delete_all ids m) + length ids ≡ length m
  unfolding contains
  length-delete_all [] m s d h = omega (arith, ap length (delete_none m))
  length-delete_all (i ∷ ids) m s d h =
      let rest = delete_all (i ∷ []) m in
      omega (
        arith,
        ap length (delete_split i ids m),
        delete_one i m d (h i (ground (arith, eq_refl i))),
        length-delete_all ids rest s.1 (delete_all-Distinct (i ∷ []) m d)
            (λ k e. still_there i k ids m s (h k) e),
      )
