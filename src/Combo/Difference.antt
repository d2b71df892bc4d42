-- ===== src/Combo/Difference.antt =====
-- `compute_combo_diff` of 9router_WatchEdit/core/combo_manager.py: what an empty diff says.
use router_extra.Prelude.{
  ℕ, String, ap, subst, ◌≡◌, ◌↔◌, refl, true, not, List, [], ◌∷◌, arith, eq_iff, eq_refl, keep,
  contains, Distinct, keep-none,
}
use router_extra.Combo.Sequence.{index}
use router_extra.Combo.Diff.{added_in, moved_in, compute_combo_diff, is_empty, no_entry}

same_head :
    (x y : String) (xs ys : List String)
    → (contains x (x ∷ xs) ≡ true → index x (x ∷ xs) ≡ index x (y ∷ ys))
    → y ≡ x
unfolding contains index
same_head x y xs ys i = ground (arith, i, eq_refl x, eq_iff y x)

index-eq :
    (xs ys : List String)
    → Distinct xs
    → Distinct ys
    → ((k : String) → contains k xs ≡ contains k ys)
    → ((k : String) → contains k xs ≡ true → index k xs ≡ index k ys)
    → xs ≡ ys
unfolding contains index
index-eq [] [] dx dy c i = refl
index-eq [] (y ∷ ys) dx dy c i = ground (arith, c y, eq_refl y)
index-eq (x ∷ xs) [] dx dy c i = ground (arith, c x, eq_refl x)
index-eq (x ∷ xs) (y ∷ ys) dx dy c i =
    let p = same_head x y xs ys (i x) in
    ground (
      arith,
      p,
      index-eq xs ys dx.1 dy.1
          (λ k. ground (
            arith,
            p,
            c k,
            eq_iff x k,
            eq_iff y k,
            dx.0,
            dy.0,
            ap (λ j. contains j xs),
            ap (λ j. contains j ys),
          ))
          (λ k e. ground (arith, p, i k, eq_iff x k, eq_iff y k, dx.0, ap (λ j. contains j xs))),
    )

-- What an empty diff says of the members.
no_removed :
    (k : String) (original modified : List String)
    → no_entry (keep (λ m. not (contains m modified)) original) ≡ true
    → contains k original ≡ true
    → contains k modified ≡ true
unfolding keep contains no_entry
no_removed k [] modified h e = cc
no_removed k (x ∷ xs) modified h e =
    ground (arith, no_removed k xs modified, eq_iff x k, ap (λ j. contains j modified))

no_added :
    (k : String) (original modified ms : List String)
    → no_entry (added_in original modified ms) ≡ true
    → contains k ms ≡ true
    → contains k original ≡ true
unfolding added_in contains no_entry
no_added k original modified [] h e = cc
no_added k original modified (x ∷ xs) h e =
    ground (arith, no_added k original modified xs, eq_iff x k, ap (λ j. contains j original))

no_moved :
    (k : String) (original modified ms : List String)
    → no_entry (moved_in original modified ms) ≡ true
    → contains k ms ≡ true
    → contains k modified ≡ true
    → index k original ≡ index k modified
unfolding moved_in contains no_entry
no_moved k original modified [] h e c = cc
no_moved k original modified (x ∷ xs) h e c = ground (
  arith,
  no_moved k original modified xs,
  eq_iff x k,
  ap (λ j. contains j modified),
  ap (λ j. index j original),
  ap (λ j. index j modified),
)

-- The diff of a sequence with itself.
pub removed_self :
    (xs ys : List String)
    → ((k : String) → contains k xs ≡ true → contains k ys ≡ true)
    → keep (λ m. not (contains m ys)) xs ≡ []
removed_self xs ys h = keep-none (λ m. not (contains m ys)) xs (λ k e. ap not (h k e))

pub added_self :
    (ms ys zs : List String)
    → ((k : String) → contains k ms ≡ true → contains k ys ≡ true)
    → added_in ys zs ms ≡ []
unfolding added_in contains
added_self [] ys zs h = refl
added_self (x ∷ xs) ys zs h =
    ground (arith, h x, eq_refl x, added_self xs ys zs (λ k e. h k (ground arith)))

moved_self : (ys ms : List String) → moved_in ys ys ms ≡ []
unfolding moved_in
moved_self ys [] = refl
moved_self ys (x ∷ xs) = ground (arith, moved_self ys xs)

-- For sequences without repetitions, the diff is empty exactly when they are equal.
pub diff-is_empty_iff :
    (original modified : List String)
    → Distinct original
    → Distinct modified
    → (is_empty (compute_combo_diff original modified) ≡ true) ↔ (original ≡ modified)
unfolding is_empty compute_combo_diff no_entry
diff-is_empty_iff original modified dx dy = (
  λ e.
      index-eq original modified dx dy
        (λ k.
          ground (arith, e, no_removed k original modified, no_added k original modified modified))
        (λ k c.
          ground (arith, e, no_removed k original modified, no_moved k original modified original)),
  λ p.
      subst (λ m. is_empty (compute_combo_diff original m) ≡ true) p
        (ground (
          arith,
          ap no_entry (removed_self original original (λ k e. e)),
          ap (λ (xs : List (String × ℕ)). no_entry xs)
              (added_self original original original (λ k e. e)),
          ap (λ (xs : List (String × ℕ × ℕ)). no_entry xs) (moved_self original original),
        )),
)
