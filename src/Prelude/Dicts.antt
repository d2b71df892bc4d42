-- ===== src/Prelude/Dicts.antt =====
-- Python's `dict` with texts as keys: a list of pairs in insertion order.
use Prim.Native.String.{String}
use mathlib.Core.Path.{◌≡◌, refl, ap}
use mathlib.Core.Bool.{not}
use mathlib.Core.Option.{Option, none, some}
use mathlib.Core.List.{List, [], ◌∷◌, ◌++◌}
use native.Mathlib.Omega.{arith}
use text.Mathlib.Text.{◌==◌ as str_eq}
use text.Mathlib.TextEquality.{eq_iff}
use text.Mathlib.TextPositions.{eq_refl}
use router_extra.Prelude.Tests.{if◌then◌else◌}
use router_extra.Prelude.Lists.{keep, contains}

module _ {ℓ} {V : Type ℓ} where
  -- `records.get(id)`
  unfoldable pub get : String → List (String × V) → Option V
  get id [] = none
  get id ((held, r) ∷ rest) = let later = get id rest in if str_eq held id then some r else later

  -- `records[id] = r`
  unfoldable pub put : String → V → List (String × V) → List (String × V)
  put id r [] = (id, r) ∷ []
  put id r ((held, old) ∷ rest) =
      let later = put id r rest in if str_eq held id then (id, r) ∷ rest else (held, old) ∷ later

  -- `del records[id]` for each id of a set.
  unfoldable pub delete_all : List String → List (String × V) → List (String × V)
  unfolding keep contains
  delete_all ids m = keep (λ (e : String × V). not (contains e.0 ids)) m

  unfoldable pub keys : List (String × V) → List String
  keys [] = []
  keys ((k, v) ∷ m) = k ∷ keys m

  pub get-put :
      (id other : String) (r : V) (m : List (String × V))
      → get other (put id r m) ≡ (if str_eq id other then some r else get other m)
  unfolding get put
  get-put id other r [] = refl
  get-put id other r ((held, old) ∷ rest) =
      ground (arith, get-put id other r rest, eq_iff held id, eq_iff held other, eq_iff id other)

  pub get-delete_all :
      (k : String) (ids : List String) (m : List (String × V))
      → get k (delete_all ids m) ≡ (if contains k ids then none else get k m)
  unfolding get delete_all keep
  get-delete_all k ids [] = ground arith
  get-delete_all k ids ((j, v) ∷ m) =
      ground (arith, get-delete_all k ids m, eq_iff j k, ap (λ i. contains i ids))

  -- No key of the second list stands in the first.
  abbrev pub Apart : List (String × V) → List (String × V) → Type ℓ
  Apart found [] = Unit {ℓ}
  Apart found ((id, a) ∷ rest) = (get id found ≡ none) × Apart found rest

  pub put-new :
      (id : String) (a : V) (m : List (String × V))
      → get id m ≡ none
      → put id a m ≡ m ++ (id, a) ∷ []
  unfolding get put
  put-new id a [] h = refl
  put-new id a ((k, c) ∷ rest) h = ground (arith, put-new id a rest)

  pub put-Apart :
      (id : String) (a : V) (found m : List (String × V))
      → get id m ≡ none
      → Apart found m
      → Apart (put id a found) m
  unfolding get
  put-Apart id a found [] h p = tt
  put-Apart id a found ((k, c) ∷ rest) h p =
      ground (arith, put-Apart id a found rest, get-put id k a found, eq_iff id k, eq_refl k)

  pub append-cons :
      (xs ys : List (String × V)) (y : String × V) → (xs ++ y ∷ []) ++ ys ≡ xs ++ y ∷ ys
  append-cons [] ys y = refl
  append-cons (x ∷ xs) ys y = ap (◌∷◌ x) (append-cons xs ys y)

  pub append-nil : (xs : List (String × V)) → xs ++ [] ≡ xs
  append-nil [] = refl
  append-nil (x ∷ xs) = ap (◌∷◌ x) (append-nil xs)

  pub put-append :
      (id : String) (a : V) (found m : List (String × V))
      → get id found ≡ none
      → put id a found ++ m ≡ found ++ (id, a) ∷ m
  put-append id a found m h = rw (put-new id a found h) (append-cons found m (id, a))

  pub Apart-none : (m : List (String × V)) → Apart [] m
  unfolding get
  Apart-none [] = tt
  Apart-none ((k, c) ∷ rest) = (refl, Apart-none rest)

  -- Putting back what was there.
  pub put-put :
      (name : String) (p q : V) (m : List (String × V))
      → get name m ≡ some q
      → put name q (put name p m) ≡ m
  unfolding get put
  put-put name p q [] e = cc
  put-put name p q ((k, r) ∷ rest) e =
      ground (arith, eq_iff k name, eq_refl name, put-put name p q rest)

  pub delete_all-absent :
      (name : String) (m : List (String × V)) → get name m ≡ none → delete_all (name ∷ []) m ≡ m
  unfolding get delete_all keep contains
  delete_all-absent name [] e = refl
  delete_all-absent name ((k, r) ∷ rest) e =
      ground (arith, eq_iff k name, eq_iff name k, delete_all-absent name rest)

  pub delete_all-put :
      (name : String) (p : V) (m : List (String × V))
      → get name m ≡ none
      → delete_all (name ∷ []) (put name p m) ≡ m
  unfolding get put delete_all keep contains
  delete_all-put name p [] e = ground (arith, eq_refl name)
  delete_all-put name p ((k, r) ∷ rest) e =
      ground (arith, eq_iff k name, eq_iff name k, delete_all-put name p rest)
