-- ===== src/Prelude/Lists.antt =====
-- Lists measured by native numbers, and lists of texts as Python's `list` and `set` of `str`.
use Prim.Native.Nat.{ℕ, suc, ◌+◌}
use Prim.Native.String.{String}
use mathlib.Core.Path.{◌≡◌, refl, ap}
use mathlib.Core.Logic.{◌↔◌}
use mathlib.Core.Bool.{Bool, true, false, not, ◌&&◌, ◌||◌}
use mathlib.Core.List.{List, [], ◌∷◌, ◌++◌}
use native.Mathlib.Omega.{arith}
use text.Mathlib.Text.{◌==◌ as str_eq}
use text.Mathlib.TextEquality.{eq_iff}
use text.Mathlib.TextPositions.{eq_refl}
use router_extra.Prelude.Tests.{if◌then◌else◌}

-- `Pick x xs rest`: x is one of xs, and rest are the others.
pub data Pick {ℓ} {A : Type ℓ} (x : A) : List A → List A → Type ℓ where
  here : {xs : List A} → Pick x (x ∷ xs) xs
  there : {y : A} {xs rest : List A} → Pick x xs rest → Pick x (y ∷ xs) (y ∷ rest)

-- A number that each member brings, summed.
abbrev pub sum_of {ℓ} : {A : Type ℓ} → (A → ℕ) → List A → ℕ
sum_of f [] = 0
sum_of f (x ∷ xs) = f x + sum_of f xs

pub sum_of-Pick {ℓ} :
    {A : Type ℓ} (f : A → ℕ) {x : A} {xs rest : List A}
    → Pick x xs rest
    → sum_of f xs ≡ f x + sum_of f rest
sum_of-Pick f here = refl
sum_of-Pick f (there p) = omega (arith, sum_of-Pick f p)

module _ {ℓ} {A : Type ℓ} where
  abbrev pub length : List A → ℕ
  length [] = 0
  length (x ∷ xs) = suc (length xs)

  pub length-append : (xs ys : List A) → length (xs ++ ys) ≡ length xs + length ys
  length-append [] ys = omega arith
  length-append (x ∷ xs) ys = omega (arith, length-append xs ys)

  -- `[x for x in xs if test(x)]`
  unfoldable pub keep : (A → Bool) → List A → List A
  keep test [] = []
  keep test (x ∷ xs) = let rest = keep test xs in if test x then x ∷ rest else rest

  -- `any` and `all` of a test.
  unfoldable pub some_of : (A → Bool) → List A → Bool
  some_of test [] = false
  some_of test (x ∷ xs) = test x || some_of test xs

  unfoldable pub all_of : (A → Bool) → List A → Bool
  all_of test [] = true
  all_of test (x ∷ xs) = test x && all_of test xs

-- `m in xs`
unfoldable pub contains : String → List String → Bool
contains m [] = false
contains m (x ∷ xs) = str_eq x m || contains m xs

-- No text twice.
abbrev pub Distinct : List String → Type 0
Distinct [] = Unit {0}
Distinct (x ∷ xs) = (contains x xs ≡ false) × Distinct xs

-- Equality of `list`s.
unfoldable pub list_eq : List String → List String → Bool
list_eq [] [] = true
list_eq [] (y ∷ ys) = false
list_eq (x ∷ xs) [] = false
list_eq (x ∷ xs) (y ∷ ys) = str_eq x y && list_eq xs ys

-- Equality of `set`s: each has the other's members.
unfoldable pub set_eq : List String → List String → Bool
unfolding all_of contains
set_eq xs ys = all_of (λ x. contains x ys) xs && all_of (λ y. contains y xs) ys

-- `set.add` and `set.discard`
unfoldable pub add : String → List String → List String
add m xs = if contains m xs then xs else m ∷ xs

unfoldable pub discard : String → List String → List String
unfolding keep
discard m xs = keep (λ x. not (str_eq x m)) xs

pub contains-keep :
    (test : String → Bool) (m : String) (xs : List String)
    → contains m (keep test xs) ≡ (contains m xs && test m)
unfolding contains keep
contains-keep test m [] = refl
contains-keep test m (x ∷ xs) = ground (arith, contains-keep test m xs, eq_iff x m, ap test)

pub contains-discard :
    (m k : String) (xs : List String)
    → contains m (discard k xs) ≡ (contains m xs && not (str_eq m k))
unfolding discard
contains-discard m k xs = contains-keep (λ x. not (str_eq x k)) m xs

pub contains-add :
    (m k : String) (xs : List String) → contains m (add k xs) ≡ (str_eq k m || contains m xs)
unfolding add contains
contains-add m k xs = ground (arith, eq_iff k m)

pub contains-append :
    (m : String) (xs ys : List String) → contains m (xs ++ ys) ≡ (contains m xs || contains m ys)
unfolding contains
contains-append m [] ys = refl
contains-append m (x ∷ xs) ys = ground (arith, contains-append m xs ys)

module _ {ℓ} {A : Type ℓ} where
  pub keep-append :
      (test : A → Bool) (xs ys : List A) → keep test (xs ++ ys) ≡ keep test xs ++ keep test ys
  unfolding keep
  keep-append test [] ys = refl
  keep-append test (x ∷ xs) ys = ground (arith, keep-append test xs ys)

pub keep-agree :
    (f g : String → Bool) (xs : List String)
    → ((k : String) → contains k xs ≡ true → f k ≡ g k)
    → keep f xs ≡ keep g xs
unfolding keep contains
keep-agree f g [] h = refl
keep-agree f g (x ∷ xs) h =
    ground (arith, h x, eq_refl x, keep-agree f g xs (λ k e. h k (ground arith)))

pub keep-none :
    (f : String → Bool) (xs : List String)
    → ((k : String) → contains k xs ≡ true → f k ≡ false)
    → keep f xs ≡ []
unfolding keep contains
keep-none f [] h = refl
keep-none f (x ∷ xs) h = ground (arith, h x, eq_refl x, keep-none f xs (λ k e. h k (ground arith)))

pub keep-all :
    (f : String → Bool) (xs : List String)
    → ((k : String) → contains k xs ≡ true → f k ≡ true)
    → keep f xs ≡ xs
unfolding keep contains
keep-all f [] h = refl
keep-all f (x ∷ xs) h = ground (arith, h x, eq_refl x, keep-all f xs (λ k e. h k (ground arith)))

pub keep-Distinct : (f : String → Bool) (xs : List String) → Distinct xs → Distinct (keep f xs)
unfolding keep
keep-Distinct f [] h = tt
keep-Distinct f (x ∷ xs) h = ground (arith, keep-Distinct f xs h.1, contains-keep f x xs)

pub append-Distinct :
    (xs ys : List String)
    → Distinct xs
    → Distinct ys
    → ((k : String) → contains k xs ≡ true → contains k ys ≡ false)
    → Distinct (xs ++ ys)
unfolding contains
append-Distinct [] ys hx hy h = hy
append-Distinct (x ∷ xs) ys hx hy h = ground (
  arith,
  contains-append x xs ys,
  h x,
  eq_refl x,
  append-Distinct xs ys hx.1 hy (λ k e. h k (ground arith)),
)

pub list_eq_refl : (xs : List String) → list_eq xs xs ≡ true
unfolding list_eq
list_eq_refl [] = refl
list_eq_refl (x ∷ xs) = ground (arith, eq_refl x, list_eq_refl xs)

pub list_eq→eq : (xs ys : List String) → list_eq xs ys ≡ true → xs ≡ ys
unfolding list_eq
list_eq→eq [] [] h = refl
list_eq→eq [] (y ∷ ys) h = cc
list_eq→eq (x ∷ xs) [] h = cc
list_eq→eq (x ∷ xs) (y ∷ ys) h = ground (arith, eq_iff x y, list_eq→eq xs ys)

pub list_eq_iff : (xs ys : List String) → (list_eq xs ys ≡ true) ↔ (xs ≡ ys)
list_eq_iff xs ys = (list_eq→eq xs ys, λ e. rw e (list_eq_refl ys))

pub all_of-contains :
    (zs xs : List String)
    → ((k : String) → contains k xs ≡ true → contains k zs ≡ true)
    → all_of (λ x. contains x zs) xs ≡ true
unfolding all_of contains
all_of-contains zs [] h = refl
all_of-contains zs (x ∷ xs) h =
    ground (arith, h x, eq_refl x, all_of-contains zs xs (λ k m. h k (ground arith)))

pub set_eq_refl : (xs : List String) → set_eq xs xs ≡ true
unfolding set_eq
set_eq_refl xs = rw (all_of-contains xs xs (λ k m. m)) refl
