-- ===== src/HealthCache/Retention.antt =====
-- The parts of `prune_stale_records` of 9router_WatchEdit/core/history.py: the records that may be
-- pruned, those that the window prunes, and the loop of the hard cap.
use router_extra.Prelude.{
  get, keys, Distinct, ℕ, zero, suc, ◌+◌, ◌-◌, ◌≤◌, String, ◌≡◌, ◌⊎◌, inl, inr, refl, ap, Bool,
  true, false, ◌&&◌, ◌||◌, Option, none, some, List, [], ◌∷◌, arith, eq_iff, if◌then◌else◌, length,
  contains, Bool-cases, ltb,
}
use router_extra.HealthCache.{HealthRecord}
use router_extra.HealthCache.Policy.{
  record_age, is_older, is_prunable, eligible, ids_of, old_stale, cap_loop, sort_oldest,
  insert_sorted,
}

pub contains-old_stale :
    (window : ℕ) (k : String) (ps : List (Option ℕ × String))
    → contains k (old_stale window ps) ≡ true
    → contains k (ids_of ps) ≡ true
unfolding old_stale ids_of contains
contains-old_stale window k [] h = h
contains-old_stale window k ((age, id) ∷ ps) h = ground (arith, contains-old_stale window k ps)

pub old_stale-Distinct :
    (window : ℕ) (ps : List (Option ℕ × String))
    → Distinct (ids_of ps)
    → Distinct (old_stale window ps)
unfolding old_stale ids_of
old_stale-Distinct window [] h = tt
old_stale-Distinct window ((age, id) ∷ ps) h =
    ground (arith, old_stale-Distinct window ps h.1, contains-old_stale window id ps)

contains-insert_sorted :
    (k : String) (p : Option ℕ × String) (ps : List (Option ℕ × String))
    → contains k (ids_of (insert_sorted p ps)) ≡ contains k (ids_of (p ∷ ps))
unfolding insert_sorted ids_of contains
contains-insert_sorted k p [] = refl
contains-insert_sorted k p (q ∷ qs) = ground (arith, contains-insert_sorted k p qs)

pub contains-sort_oldest :
    (k : String) (ps : List (Option ℕ × String))
    → contains k (ids_of (sort_oldest ps)) ≡ contains k (ids_of ps)
unfolding sort_oldest ids_of contains
contains-sort_oldest k [] = refl
contains-sort_oldest k (p ∷ ps) =
    ground (arith, contains-insert_sorted k p (sort_oldest ps), contains-sort_oldest k ps)

module _ (current referenced : List String) (now_at : ℕ) where
  pub eligible-keys :
      (k : String) (m : List (String × HealthRecord))
      → contains k (ids_of (eligible current referenced now_at m)) ≡ true
      → contains k (keys m) ≡ true
  unfolding eligible ids_of contains keys
  eligible-keys k [] h = h
  eligible-keys k ((id, r) ∷ m) h = ground (arith, eligible-keys k m)

  pub eligible-Distinct :
      (m : List (String × HealthRecord))
      → Distinct (keys m)
      → Distinct (ids_of (eligible current referenced now_at m))
  unfolding eligible ids_of keys
  eligible-Distinct [] h = tt
  eligible-Distinct ((id, r) ∷ m) h = ground (arith, eligible-Distinct m h.1, eligible-keys id m)

  -- The ids that may be pruned are those of the records that no protection holds for.
  abbrev pub prunable_at : String → Option HealthRecord → Bool
  prunable_at k none = false
  prunable_at k (some r) = is_prunable current referenced (k, r)

  pub eligible_iff :
      (k : String) (m : List (String × HealthRecord))
      → Distinct (keys m)
      → contains k (ids_of (eligible current referenced now_at m)) ≡ prunable_at k (get k m)
  unfolding eligible ids_of contains keys get is_prunable
  eligible_iff k [] h = refl
  eligible_iff k ((id, r) ∷ m) h = ground (
    arith,
    eligible_iff k m h.1,
    eligible-keys id m,
    eq_iff id k,
    ap (λ i. contains i current),
    ap (λ i. contains i referenced),
    ap (λ i. contains i (ids_of (eligible current referenced now_at m))),
  )

  -- Those that the window prunes.
  abbrev pub stale_at : ℕ → String → Option HealthRecord → Bool
  stale_at window k none = false
  stale_at window k (some r) =
      is_prunable current referenced (k, r) && is_older window (record_age now_at r)

  pub stale_iff :
      (window : ℕ) (k : String) (m : List (String × HealthRecord))
      → Distinct (keys m)
      → contains k (old_stale window (eligible current referenced now_at m))
        ≡ stale_at window k (get k m)
  unfolding eligible old_stale contains keys get is_prunable
  stale_iff window k [] h = refl
  stale_iff window k ((id, r) ∷ m) h = ground (
    arith,
    stale_iff window k m h.1,
    eligible-keys id m,
    contains-old_stale window id (eligible current referenced now_at m),
    eq_iff id k,
    ap (λ i. contains i current),
    ap (λ i. contains i referenced),
    ap (λ i. contains i (old_stale window (eligible current referenced now_at m))),
  )

-- What the loop of the hard cap makes of the set `removable`.
pub record IsCapped (over : ℕ) (ps : List (Option ℕ × String)) (removable out : List String)
    : Type 0 where
  pub simple : Distinct out
  pub only :
      (k : String) → contains k out ≡ true → (contains k removable || contains k (ids_of ps)) ≡ true
  pub grown : (k : String) → contains k removable ≡ true → contains k out ≡ true
  pub at_most : length out ≤ length removable + over
  pub full :
      (length out ≡ length removable + over)
      ⊎ ((k : String) → contains k (ids_of ps) ≡ true → contains k out ≡ true)

skip_step :
    (over : ℕ) (age : Option ℕ) (id : String) (ps : List (Option ℕ × String))
    (removable : List String)
    → contains id removable ≡ true
    → IsCapped (suc over) ps removable (cap_loop (suc over) ps removable)
    → IsCapped
        (suc over)
        ((age, id) ∷ ps)
        removable
        (cap_loop (suc over) ((age, id) ∷ ps) removable)
unfolding cap_loop ids_of contains
skip_step over age id ps removable e h = record {
  simple = ground (arith, h.simple);
  only = λ k f. ground (arith, h.only k);
  grown = λ k f. ground (arith, h.grown k);
  at_most = ground (arith, h.at_most);
  full = elim h.full [
    | inl f ↦ inl (ground arith)
    | inr all ↦
        inr (λ k f. ground (arith, all k, h.grown k, eq_iff id k, ap (λ i. contains i removable)))
  ];
}

take_step :
    (over : ℕ) (age : Option ℕ) (id : String) (ps : List (Option ℕ × String))
    (removable : List String)
    → contains id removable ≡ false
    → IsCapped over ps (id ∷ removable) (cap_loop over ps (id ∷ removable))
    → IsCapped
        (suc over)
        ((age, id) ∷ ps)
        removable
        (cap_loop (suc over) ((age, id) ∷ ps) removable)
unfolding cap_loop ids_of contains
take_step over age id ps removable e h = record {
  simple = ground (arith, h.simple);
  only = λ k f. ground (arith, h.only k);
  grown = λ k f. ground (arith, h.grown k);
  at_most = ground (arith, h.at_most);
  full = elim h.full [
    | inl f ↦ inl (ground arith)
    | inr all ↦ inr (λ k f. ground (arith, all k, h.grown k))
  ];
}

pub cap_loop-IsCapped :
    (over : ℕ) (ps : List (Option ℕ × String)) (removable : List String)
    → Distinct removable
    → IsCapped over ps removable (cap_loop over ps removable)
unfolding cap_loop ids_of contains
cap_loop-IsCapped zero ps removable h = record {
  simple = h;
  only = λ k e. ground arith;
  grown = λ k e. e;
  at_most = omega arith;
  full = inl (omega arith);
}
cap_loop-IsCapped (suc over) [] removable h = record {
  simple = h;
  only = λ k e. ground arith;
  grown = λ k e. e;
  at_most = omega arith;
  full = inr (λ k e. cc);
}
cap_loop-IsCapped (suc over) ((age, id) ∷ ps) removable h =
    elim (Bool-cases (contains id removable)) [
      | inl e ↦ skip_step over age id ps removable e (cap_loop-IsCapped (suc over) ps removable h)
      | inr e ↦
          take_step over age id ps removable e (cap_loop-IsCapped over ps (id ∷ removable) (e, h))
    ]

none_over : (count most : ℕ) → ltb most count ≡ false → count - most ≡ 0
none_over count most e = ground arith

pub cap_if :
    (count most : ℕ) (ps : List (Option ℕ × String)) (s : List String)
    → (if ltb most count then cap_loop (count - most) ps s else s) ≡ cap_loop (count - most) ps s
unfolding cap_loop
cap_if count most ps s = elim (Bool-cases (ltb most count)) [
  | inl e ↦ ground arith
  | inr e ↦ ground (arith, ap (λ n. cap_loop n ps s) (none_over count most e))
]
