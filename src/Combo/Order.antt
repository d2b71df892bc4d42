-- ===== src/Combo/Order.antt =====
-- Laws of the list operations of `Combo.Sequence`.
use mathlib.Core.List.{Perm}
use mathlib.Core.List.Perm
use router_extra.Prelude.{
  Distinct, ℕ, zero, suc, ◌≤◌, ◌<◌, String, ◌≡◌, refl, ap, true, false, not, ◌&&◌, ◌||◌, Option,
  none, some, List, [], ◌∷◌, ◌++◌, arith, str_eq, eq_iff, eq_refl, length, contains, Bool-cases,
  inl, inr,
}
use router_extra.Combo.Sequence.{index, swap_at, insert_at, pop_at, remove_first}

abbrev pub get_elem? : List String → ℕ → Option String
get_elem? [] i = none
get_elem? (x ∷ xs) zero = some x
get_elem? (x ∷ xs) (suc i) = get_elem? xs i

pub index-lt-length :
    (m : String) (xs : List String) → contains m xs ≡ true → index m xs < length xs
unfolding index contains
index-lt-length m [] h = cc
index-lt-length m (x ∷ xs) h = ground (arith, index-lt-length m xs)

pub pop_at-index : (m : String) (xs : List String) → pop_at (index m xs) xs ≡ remove_first m xs
unfolding index pop_at remove_first
pop_at-index m [] = refl
pop_at-index m (x ∷ xs) = ground (arith, pop_at-index m xs)

pub length-remove_first :
    (m : String) (xs : List String)
    → contains m xs ≡ true
    → suc (length (remove_first m xs)) ≡ length xs
unfolding contains remove_first
length-remove_first m [] h = cc
length-remove_first m (x ∷ xs) h = ground (arith, length-remove_first m xs)

-- Putting a member back where it was.
pub insert_at-index :
    (m : String) (xs : List String)
    → contains m xs ≡ true
    → insert_at (index m xs) m (remove_first m xs) ≡ xs
unfolding index contains remove_first insert_at
insert_at-index m [] h = cc
insert_at-index m (x ∷ xs) h = elim (Bool-cases (str_eq x m)) [
  | inl e ↦ rw (e, (eq_iff x m).0 e) refl
  | inr e ↦ rw e (ap (λ (l : List String). x ∷ l) (insert_at-index m xs (rw e at h)))
]

pub insert_at-length : (m : String) (xs : List String) → insert_at (length xs) m xs ≡ xs ++ m ∷ []
unfolding insert_at
insert_at-length m [] = refl
insert_at-length m (x ∷ xs) = ap (λ (l : List String). x ∷ l) (insert_at-length m xs)

pub get_elem?-insert_at :
    (i : ℕ) (m : String) (xs : List String)
    → i ≤ length xs
    → get_elem? (insert_at i m xs) i ≡ some m
unfolding insert_at
get_elem?-insert_at zero m xs h = refl
get_elem?-insert_at (suc i) m [] h = absurd (omega arith)
get_elem?-insert_at (suc i) m (x ∷ xs) h = get_elem?-insert_at i m xs (omega arith)

pub remove_first-insert_at :
    (i : ℕ) (m : String) (xs : List String)
    → contains m xs ≡ false
    → remove_first m (insert_at i m xs) ≡ xs
unfolding insert_at remove_first contains
remove_first-insert_at zero m xs h = rw eq_refl refl
remove_first-insert_at (suc i) m [] h = rw eq_refl refl
remove_first-insert_at (suc i) m (x ∷ xs) h = ground (arith, remove_first-insert_at i m xs)

pub contains-insert_at :
    (k : String) (i : ℕ) (m : String) (xs : List String)
    → contains k (insert_at i m xs) ≡ (str_eq m k || contains k xs)
unfolding insert_at contains
contains-insert_at k zero m xs = refl
contains-insert_at k (suc i) m [] = refl
contains-insert_at k (suc i) m (x ∷ xs) = ground (arith, contains-insert_at k i m xs)

pub Distinct-insert_at :
    (i : ℕ) (m : String) (xs : List String)
    → contains m xs ≡ false
    → Distinct xs
    → Distinct (insert_at i m xs)
unfolding insert_at contains
Distinct-insert_at zero m xs h d = (h, d)
Distinct-insert_at (suc i) m [] h d = (refl, tt)
Distinct-insert_at (suc i) m (x ∷ xs) h d =
    ground (arith, Distinct-insert_at i m xs, contains-insert_at x i m xs, eq_iff m x, eq_iff x m)

-- Of distinct members, removing the first m leaves the others.
pub contains-remove_first :
    (k m : String) (xs : List String)
    → Distinct xs
    → contains k (remove_first m xs) ≡ (contains k xs && not (str_eq m k))
unfolding remove_first contains
contains-remove_first k m [] d = refl
contains-remove_first k m (x ∷ xs) d =
    ground (arith, contains-remove_first k m xs, eq_iff x m, eq_iff x k, eq_iff m k)

pub Distinct-remove_first :
    (m : String) (xs : List String) → Distinct xs → Distinct (remove_first m xs)
unfolding remove_first contains
Distinct-remove_first m [] d = tt
Distinct-remove_first m (x ∷ xs) d =
    ground (arith, Distinct-remove_first m xs, contains-remove_first x m xs)

pub swap_at-swap_at : (i : ℕ) (xs : List String) → swap_at i (swap_at i xs) ≡ xs
unfolding swap_at
swap_at-swap_at i [] = refl
swap_at-swap_at i (x ∷ []) = refl
swap_at-swap_at zero (x ∷ y ∷ r) = refl
swap_at-swap_at (suc zero) (x ∷ y ∷ []) = refl
swap_at-swap_at (suc zero) (x ∷ y ∷ z ∷ r) = refl
swap_at-swap_at (suc (suc i)) (x ∷ y ∷ []) = refl
swap_at-swap_at (suc (suc i)) (x ∷ y ∷ z ∷ r) =
    ap (λ (l : List String). x ∷ l) (swap_at-swap_at (suc i) (y ∷ z ∷ r))

pub length-swap_at : (i : ℕ) (xs : List String) → length (swap_at i xs) ≡ length xs
unfolding swap_at
length-swap_at i [] = refl
length-swap_at i (x ∷ []) = refl
length-swap_at zero (x ∷ y ∷ r) = refl
length-swap_at (suc i) (x ∷ y ∷ r) = ap suc (length-swap_at i (y ∷ r))

pub contains-swap_at :
    (k : String) (i : ℕ) (xs : List String) → contains k (swap_at i xs) ≡ contains k xs
unfolding swap_at contains
contains-swap_at k i [] = refl
contains-swap_at k i (x ∷ []) = refl
contains-swap_at k zero (x ∷ y ∷ r) = ground arith
contains-swap_at k (suc i) (x ∷ y ∷ r) = ground (arith, contains-swap_at k i (y ∷ r))

pub Distinct-swap_at : (i : ℕ) (xs : List String) → Distinct xs → Distinct (swap_at i xs)
unfolding swap_at contains
Distinct-swap_at i [] d = d
Distinct-swap_at i (x ∷ []) d = d
Distinct-swap_at zero (x ∷ y ∷ r) d = ground (arith, eq_iff x y, eq_iff y x)
Distinct-swap_at (suc i) (x ∷ y ∷ r) d =
    ground (arith, Distinct-swap_at i (y ∷ r), contains-swap_at x i (y ∷ r))

-- Swapping a member with the one before it moves its first place one down.
pub index-swap_at :
    (m : String) (i : ℕ) (xs : List String)
    → contains m xs ≡ true
    → index m xs ≡ suc i
    → index m (swap_at i xs) ≡ i
unfolding swap_at contains index
index-swap_at m i [] h e = cc
index-swap_at m i (x ∷ []) h e = ground arith
index-swap_at m zero (x ∷ y ∷ r) h e = ground arith
index-swap_at m (suc i) (x ∷ y ∷ r) h e = ground (arith, index-swap_at m i (y ∷ r))

pub swap_at-perm : (i : ℕ) (xs : List String) → Perm (swap_at i xs) xs
unfolding swap_at
swap_at-perm i [] = Perm.refl []
swap_at-perm i (x ∷ []) = Perm.refl (x ∷ [])
swap_at-perm zero (x ∷ y ∷ r) = Perm.swap x y r
swap_at-perm (suc i) (x ∷ y ∷ r) = Perm.cons x (swap_at-perm i (y ∷ r))

pub insert_at-perm : (i : ℕ) (m : String) (xs : List String) → Perm (insert_at i m xs) (m ∷ xs)
unfolding insert_at
insert_at-perm zero m xs = Perm.refl (m ∷ xs)
insert_at-perm (suc i) m [] = Perm.refl (m ∷ [])
insert_at-perm (suc i) m (x ∷ xs) =
    Perm.trans (Perm.cons x (insert_at-perm i m xs)) (Perm.swap m x xs)
