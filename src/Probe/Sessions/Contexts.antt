-- ===== src/Probe/Sessions/Contexts.antt =====
-- The store of execution contexts of 9router_WatchEdit/core/probe.py.
use router_extra.Prelude.{
  ℕ, zero, suc, ◌≡◌, ◌≢◌, refl, ap, Option, none, some, List, [], ◌∷◌, ◌++◌, arith, ◌==◌,
  if◌then◌else◌, keep,
}
use router_extra.Probe.Sessions.{Execution, nth, update, entry, without_entry}

abbrev pub session_of : Option Execution → Option ℕ
session_of none = none
session_of (some x) = some x.session_id

pub nth-update :
    (k h : ℕ) (f : Execution → Execution) (xs : List Execution)
    → k ≢ h
    → nth k (update h f xs) ≡ nth k xs
unfolding nth update
nth-update k h f [] e = refl
nth-update zero zero f (x ∷ xs) e = absurd (e refl)
nth-update zero (suc h) f (x ∷ xs) e = refl
nth-update (suc k) zero f (x ∷ xs) e = refl
nth-update (suc k) (suc h) f (x ∷ xs) e = nth-update k h f xs (λ p. e (ap suc p))

nth-updated :
    (h : ℕ) (f : Execution → Execution) (x : Execution) (xs : List Execution)
    → nth h xs ≡ some x
    → nth h (update h f xs) ≡ some (f x)
unfolding nth update
nth-updated h f x [] e = cc
nth-updated zero f x (y ∷ xs) e = ap some (ap f (ground arith))
nth-updated (suc h) f x (y ∷ xs) e = nth-updated h f x xs e

pub session_of-update :
    (k h : ℕ) (f : Execution → Execution) (xs : List Execution)
    → ((x : Execution) → (f x).session_id ≡ x.session_id)
    → session_of (nth k (update h f xs)) ≡ session_of (nth k xs)
unfolding nth update
session_of-update k h f [] e = refl
session_of-update zero zero f (x ∷ xs) e = ap some (e x)
session_of-update zero (suc h) f (x ∷ xs) e = refl
session_of-update (suc k) zero f (x ∷ xs) e = refl
session_of-update (suc k) (suc h) f (x ∷ xs) e = session_of-update k h f xs e

pub session_of-append :
    (k a : ℕ) (xs ys : List Execution)
    → session_of (nth k xs) ≡ some a
    → session_of (nth k (xs ++ ys)) ≡ some a
unfolding nth
session_of-append k a [] ys e = cc
session_of-append zero a (x ∷ xs) ys e = e
session_of-append (suc k) a (x ∷ xs) ys e = session_of-append k a xs ys e

pub entry-without :
    (id k : ℕ) (m : List (ℕ × ℕ))
    → entry id (without_entry k m) ≡ (if k == id then none else entry id m)
unfolding entry without_entry keep
entry-without id k [] = ground arith
entry-without id k ((held, h) ∷ m) = ground (arith, entry-without id k m)
