-- ===== src/Prelude/Keys.antt =====
-- The keys of Python's `dict`, in insertion order.
use Prim.Native.Nat.{ℕ, ◌+◌}
use Prim.Native.String.{String}
use mathlib.Core.Path.{◌≡◌, refl, ap}
use mathlib.Core.Logic.{inl, inr}
use mathlib.Core.Bool.{true, false, not, ◌||◌}
use mathlib.Core.Option.{Option, none, some}
use mathlib.Core.List.{List, [], ◌∷◌, ◌++◌}
use native.Mathlib.Omega.{arith}
use text.Mathlib.Text.{◌==◌ as str_eq}
use text.Mathlib.TextEquality.{eq_iff}
use text.Mathlib.TextPositions.{eq_refl}
use router_extra.Prelude.Tests.{if◌then◌else◌, Bool-cases}
use router_extra.Prelude.Lists.{keep, contains, Distinct, contains-keep, sum_of}
use router_extra.Prelude.Dicts.{get, put, delete_all, keys}

module _ {V : Type 0} where
  pub contains-put :
      (k id : String) (v : V) (m : List (String × V))
      → contains k (keys (put id v m)) ≡ (str_eq id k || contains k (keys m))
  unfolding contains keys put
  contains-put k id v [] = refl
  contains-put k id v ((h, w) ∷ rest) = ground (arith, contains-put k id v rest, eq_iff h id)

  pub put-Distinct :
      (id : String) (v : V) (m : List (String × V))
      → Distinct (keys m)
      → Distinct (keys (put id v m))
  unfolding keys put contains
  put-Distinct id v [] h = (refl, tt)
  put-Distinct id v ((k, w) ∷ rest) h = elim (Bool-cases (str_eq k id)) [
    | inl e ↦ rw e (ground (arith, eq_iff k id, ap (λ i. contains i (keys rest))))
    | inr e ↦ rw e (
        ground
          (arith, put-Distinct id v rest h.1, contains-put k id v rest, eq_iff id k, eq_refl k))
  ]

  pub get-absent :
      (k : String) (m : List (String × V)) → contains k (keys m) ≡ false → get k m ≡ none
  unfolding contains keys get
  get-absent k [] h = refl
  get-absent k ((h, w) ∷ rest) e = ground (arith, get-absent k rest)

  pub get-present :
      (k : String) (m : List (String × V))
      → contains k (keys m) ≡ true
      → (v : V) × (get k m ≡ some v)
  unfolding contains keys get
  get-present k [] h = absurd cc
  get-present k ((h, w) ∷ rest) e = elim (Bool-cases (str_eq h k)) [
    | inl t ↦ (w, rw t refl)
    | inr t ↦ let (v, f) = get-present k rest (ground arith) in (v, rw t f)
  ]

  pub keys-put :
      (k : String) (v : V) (m : List (String × V))
      → keys (put k v m) ≡ (if contains k (keys m) then keys m else keys m ++ k ∷ [])
  unfolding keys put contains
  keys-put k v [] = refl
  keys-put k v ((h, w) ∷ rest) = ground (arith, keys-put k v rest, eq_iff h k)

  pub keys-delete_all :
      (ids : List String) (m : List (String × V))
      → keys (delete_all ids m) ≡ keep (λ k. not (contains k ids)) (keys m)
  unfolding keys delete_all keep
  keys-delete_all ids [] = refl
  keys-delete_all ids ((h, w) ∷ rest) = ground (arith, keys-delete_all ids rest)

  pub delete_all-Distinct :
      (ids : List String) (m : List (String × V))
      → Distinct (keys m)
      → Distinct (keys (delete_all ids m))
  unfolding keys delete_all keep
  delete_all-Distinct ids [] h = tt
  delete_all-Distinct ids ((k, w) ∷ rest) h = ground (
    arith,
    delete_all-Distinct ids rest h.1,
    keys-delete_all ids rest,
    contains-keep (λ i. not (contains i ids)) k (keys rest),
  )

  -- What a key brings, summed over the values.
  abbrev pub weight_at : (V → ℕ) → Option V → ℕ
  weight_at f none = 0
  weight_at f (some v) = f v

  pub sum_of-put :
      (f : V → ℕ) (k : String) (v : V) (m : List (String × V))
      → sum_of (λ (e : String × V). f e.1) (put k v m) + weight_at f (get k m)
        ≡ sum_of (λ (e : String × V). f e.1) m + f v
  unfolding put get
  sum_of-put f k v [] = omega arith
  sum_of-put f k v ((h, w) ∷ rest) = ground (arith, sum_of-put f k v rest)

  keep-absent :
      (k : String) (m : List (String × V)) → contains k (keys m) ≡ false → delete_all (k ∷ []) m ≡ m
  unfolding keys delete_all keep contains
  keep-absent k [] h = refl
  keep-absent k ((h, w) ∷ rest) e =
      ground (arith, keep-absent k rest, eq_iff h k, eq_iff k h, eq_refl k)

  delete-nil :
      (f : V → ℕ) (k : String) → sum_of (λ (e : String × V). f e.1) (delete_all (k ∷ []) []) + 0 ≡ 0
  unfolding delete_all keep
  delete-nil f k = refl

  delete-cons :
      (k h : String) (w : V) (rest : List (String × V))
      → delete_all (k ∷ []) ((h, w) ∷ rest)
        ≡ (if str_eq h k then delete_all (k ∷ []) rest else (h, w) ∷ delete_all (k ∷ []) rest)
  unfolding delete_all keep contains
  delete-cons k h w rest = ground (arith, eq_iff h k, eq_iff k h)

  pub sum_of-delete :
      (f : V → ℕ) (k : String) (m : List (String × V))
      → Distinct (keys m)
      → sum_of (λ (e : String × V). f e.1) (delete_all (k ∷ []) m) + weight_at f (get k m)
        ≡ sum_of (λ (e : String × V). f e.1) m
  unfolding keys get
  sum_of-delete f k [] d = delete-nil f k
  sum_of-delete f k ((h, w) ∷ rest) d = rw (delete-cons k h w rest) (
      ground (
        arith,
        sum_of-delete f k rest d.1,
        keep-absent k rest,
        eq_iff h k,
        ap (λ i. contains i (keys rest)),
        ap (λ (m : List (String × V)). sum_of (λ (e : String × V). f e.1) m),
      ))
