-- ===== src/Combo/Removal.antt =====
-- What the loop of `StableCombo.remove_models` keeps.
use router_extra.Prelude.{
  Distinct, ◌+◌, String, ◌≡◌, true, List, [], ◌∷◌, arith, eq_iff, length, contains, discard,
  contains-discard, Bool-cases,
}
use router_extra.Combo.{StableCombo, remove_models}
use router_extra.Combo.Sequence.{remove_first, remove_counted}
use router_extra.Combo.Order.{}

-- The loop of `remove_models` keeps members, invents none, and drops the record of what it removes.
contains-remove_counted :
    (k : String) (r xs ds : List String)
    → contains k (remove_counted r xs ds).0 ≡ true
    → contains k xs ≡ true
unfolding remove_counted contains
contains-remove_counted k r [] ds h = h
contains-remove_counted k r (x ∷ xs) ds h = ground (
  arith,
  contains-remove_counted k (remove_first x r) xs (discard x ds),
  contains-remove_counted k r xs ds,
)

pub Distinct-remove_counted :
    (r xs ds : List String) → Distinct xs → Distinct (remove_counted r xs ds).0
unfolding remove_counted
Distinct-remove_counted r [] ds d = tt
Distinct-remove_counted r (x ∷ xs) ds d = ground (
  arith,
  Distinct-remove_counted (remove_first x r) xs (discard x ds),
  Distinct-remove_counted r xs ds,
  contains-remove_counted x r xs ds,
  Bool-cases (contains x (remove_counted r xs ds).0),
)

pub disabled-remove_counted :
    (k : String) (r xs ds : List String)
    → contains k (remove_counted r xs ds).1 ≡ true
    → contains k ds ≡ true
unfolding remove_counted
disabled-remove_counted k r [] ds h = h
disabled-remove_counted k r (x ∷ xs) ds h = ground (
  arith,
  disabled-remove_counted k (remove_first x r) xs (discard x ds),
  disabled-remove_counted k r xs ds,
  contains-discard k x ds,
)

pub kept-remove_counted :
    (k : String) (r xs ds : List String)
    → contains k xs ≡ true
    → contains k (remove_counted r xs ds).1 ≡ true
    → contains k (remove_counted r xs ds).0 ≡ true
unfolding remove_counted contains
kept-remove_counted k r [] ds m h = m
kept-remove_counted k r (x ∷ xs) ds m h = ground (
  arith,
  kept-remove_counted k (remove_first x r) xs (discard x ds),
  kept-remove_counted k r xs ds,
  disabled-remove_counted k (remove_first x r) xs (discard x ds),
  contains-discard k x ds,
  eq_iff x k,
  eq_iff k x,
)

count_removed :
    (r xs ds : List String)
    → length (remove_counted r xs ds).0 + (remove_counted r xs ds).2 ≡ length xs
unfolding remove_counted
count_removed r [] ds = omega arith
count_removed r (x ∷ xs) ds =
    ground (arith, count_removed (remove_first x r) xs (discard x ds), count_removed r xs ds)

-- A bulk removal counts what it removes.
pub remove_models_count :
    (ms : List String) (c : StableCombo)
    → length (remove_models ms c).0.models + (remove_models ms c).1 ≡ length c.models
unfolding remove_models
remove_models_count ms c = count_removed ms c.models c.disabled
